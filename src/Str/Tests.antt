-- ===== src/Str/Tests.antt =====
-- string.c at concrete memories.
use os_lab2_team.Prelude.{
  ℕ, ◌+◌, ◌<◌, ◌≡◌, refl, ◌≢◌, negsuc, ◌||◌, some, arith, ◌==◌, if◌then◌else◌,
}
use os_lab2_team.Str.{
  Memory, memmove, memset, strncmp, strlen, move_up, move_down, stosl, store32, strlen_from,
  fill_word,
}
use os_lab2_team.Str.Move.{copied, memmove_lem}
use os_lab2_team.Str.Compare.{strlen_lem}

-- "ab" at 100, "abc" at 200, zeros elsewhere
abbrev texts : Memory
texts p =
    if (p == 100) || (p == 200)
    then b'a'
    else if (p == 101) || (p == 201)
    then b'b'
    else if p == 202
    then b'c'
    else 0

memmove_overlap : memmove texts 201 200 3 203 ≡ b'c'
unfolding memmove move_up move_down
memmove_overlap = refl

memmove_lem_example : memmove texts 201 200 3 203 ≡ copied texts 201 200 3 203
memmove_lem_example = memmove_lem texts 201 200 3 203 (omega arith) (omega arith)

memset_words : memset texts 200 0x101 4 203 ≡ 1
unfolding memset stosl store32 fill_word
memset_words = refl

strncmp_differ : strncmp texts 100 200 14 ≡ negsuc 98
unfolding strncmp
strncmp_differ = refl

strlen_three : strlen 10 texts 200 ≡ some 3
unfolding strlen strlen_from
strlen_three = refl

inside_ab : (j : ℕ) → j < 2 → texts (100 + j) ≢ 0
inside_ab j lt = ground arith

strlen_lem_example : strlen 5 texts 100 ≡ some 2
strlen_lem_example = strlen_lem 5 texts 100 2 (omega arith) (omega arith) inside_ab refl

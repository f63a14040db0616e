-- ===== src/Str/Move.antt =====
-- memmove of string.c copies correctly whatever the overlap.
use os_lab2_team.Prelude.{
  ℕ, zero, suc, ◌+◌, ◌-◌, ◌^◌, ◌≤◌, ◌<◌, ◌≡◌, ◌&&◌, ◌⊎◌, arith, leb, ltb, if◌then◌else◌,
}
use os_lab2_team.Str.{Memory, ptr_add, ptr_sub, store, move_up, move_down, memmove}

-- The memory after n bytes from `src` have been put at `dst`, all read before any is written.
abbrev pub copied : Memory → ℕ → ℕ → ℕ → Memory
copied m dst src n q = if leb dst q && ltb q (dst + n) then m (src + (q - dst)) else m q

move_up_lem :
    (m : Memory) (d s n q : ℕ)
    → d + n < 2 ^ 32
    → s + n < 2 ^ 32
    → (d ≤ s) ⊎ (s + n ≤ d)
    → move_up m d s n q ≡ copied m d s n q
unfolding move_up
move_up_lem m d s zero q hd hs apart = ground arith
move_up_lem m d s (suc n) q hd hs apart =
    let d1 : ptr_add d 1 ≡ d + 1 = omega arith in
    let s1 : ptr_add s 1 ≡ s + 1 = omega arith in
    rw
      (
        d1,
        s1,
        move_up_lem (store m d (m s)) (d + 1) (s + 1) n q (omega arith) (omega arith) (omega arith),
      )
      (ground arith)

-- The pointers stand just past the bytes.
move_down_lem :
    (m : Memory) (d s n q : ℕ)
    → d + n < 2 ^ 32
    → s + n < 2 ^ 32
    → s ≤ d
    → move_down m (d + n) (s + n) n q ≡ copied m d s n q
unfolding move_down
move_down_lem m d s zero q hd hs apart = ground arith
move_down_lem m d s (suc n) q hd hs apart =
    let d1 : ptr_sub (d + suc n) 1 ≡ d + n = omega arith in
    let s1 : ptr_sub (s + suc n) 1 ≡ s + n = omega arith in
    rw
      (
        d1,
        s1,
        move_down_lem (store m (d + n) (m (s + n))) d s n q (omega arith) (omega arith) apart,
      )
      (ground arith)

-- Whether or not the two ranges overlap, memmove(dst, src, n) leaves at `dst` the n bytes that stood
-- at `src` before the call, and changes no other byte, if neither range passes the top of memory.
pub memmove_lem :
    (m : Memory) (dst src n q : ℕ)
    → dst + n < 2 ^ 32
    → src + n < 2 ^ 32
    → memmove m dst src n q ≡ copied m dst src n q
unfolding memmove
memmove_lem m dst src n q hd hs =
    let de : ptr_add dst n ≡ dst + n = omega arith in
    let se : ptr_add src n ≡ src + n = omega arith in
    rw (de, se) (ground (arith, move_down_lem m dst src n q hd hs, move_up_lem m dst src n q hd hs))

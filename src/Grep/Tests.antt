-- ===== src/Grep/Tests.antt =====
-- The matcher and the loop of grep.c on small texts.
use os_lab2_team.Prelude.{ℕ, ◌≡◌, refl, ◌↔◌, true, false, List, [], ◌∷◌}
use os_lab2_team.Grep.{match_one, matchstar, matchhere, grep_match, split_line, print_lines, grep}
use os_lab2_team.Grep.Matcher.{Matches, grep_match-Matches}

-- ^a.*c$
abbrev framed : List ℕ
framed = b'^' ∷ b'a' ∷ b'.' ∷ b'*' ∷ b'c' ∷ b'$' ∷ []

framed_yes : grep_match framed (b'a' ∷ b'b' ∷ b'c' ∷ b'c' ∷ []) ≡ true
unfolding grep_match matchhere match_one matchstar
framed_yes = refl

framed_no : grep_match framed (b'a' ∷ b'b' ∷ b'c' ∷ b'b' ∷ []) ≡ false
unfolding grep_match matchhere match_one matchstar
framed_no = refl

grep_match-Matches_example :
    (grep_match framed (b'a' ∷ b'b' ∷ b'c' ∷ []) ≡ true) ↔ Matches framed (b'a' ∷ b'b' ∷ b'c' ∷ [])
grep_match-Matches_example = grep_match-Matches framed (b'a' ∷ b'b' ∷ b'c' ∷ [])

-- "ab\n" in two reads, behind one that has "x\n".
abbrev reads : List (List ℕ)
reads = (b'x' ∷ 10 ∷ b'a' ∷ []) ∷ (b'b' ∷ 10 ∷ []) ∷ []

-- "a\0b\nb\n" is cut off at the NUL.
grep_nul : grep (b'b' ∷ []) [] ((b'a' ∷ 0 ∷ b'b' ∷ 10 ∷ b'b' ∷ 10 ∷ []) ∷ []) ≡ []
unfolding grep print_lines split_line
grep_nul = refl

-- ===== src/Grep/Lines.antt =====
-- The lines that grep of grep.c writes.
use os_lab2_team.Prelude.{ℕ, ◌<◌, ◌≡◌, true, false, Option, none, some, List, [], ◌∷◌, ◌++◌, length}
use os_lab2_team.Grep.{printed}
use os_lab2_team.Grep.Text.{has_line, lines, no_nul}

abbrev pub print_all : List ℕ → List (List ℕ) → List ℕ
print_all re [] = []
print_all re (l ∷ ls) = printed re l ++ print_all re ls

-- split_line and the lines.
abbrev Split : List ℕ → Option (List ℕ × List ℕ) → Type 0
Split text none = (lines text ≡ ([], text)) × (has_line text ≡ false)
Split text (some r) =
    (lines text ≡ (r.0 ∷ (lines r.1).0, (lines r.1).1))
    × (length r.1 < length text)
    × (has_line text ≡ true)
    × (no_nul r.1 ≡ true)

-- ===== src/Grep/Text.antt =====
-- The lines of a text, for the loop of grep in grep.c.
use os_lab2_team.Prelude.{
  not, ◌&&◌, ℕ, ◌≡◌, refl, inl, inr, Bool, true, false, ◌&&◌, ◌||◌, List, [], ◌∷◌, ◌++◌, arith,
  ◌==◌, if◌then◌else◌, Bool-cases,
}

abbrev add_char : ℕ → List (List ℕ) × List ℕ → List (List ℕ) × List ℕ
add_char c ([], last) = ([], c ∷ last)
add_char c (l ∷ ls, last) = ((c ∷ l) ∷ ls, last)

-- The lines of a text, and what stands behind the last one.
abbrev pub lines : List ℕ → List (List ℕ) × List ℕ
lines [] = ([], [])
lines (c ∷ text) =
    if c == 10 then ([] ∷ (lines text).0, (lines text).1) else add_char c (lines text)

abbrev pub joined : List (List ℕ) → List ℕ
joined [] = []
joined (l ∷ ls) = l ++ joined ls

-- Whether there is an end of line.
abbrev pub has_line : List ℕ → Bool
has_line [] = false
has_line (c ∷ text) = (c == 10) || has_line text

abbrev pub all_lines : List (List ℕ) → Bool
all_lines [] = true
all_lines (l ∷ ls) = has_line l && all_lines ls

-- No NUL.
abbrev pub no_nul : List ℕ → Bool
no_nul [] = true
no_nul (c ∷ text) = not (c == 0) && no_nul text

abbrev pub all_text : List (List ℕ) → Bool
all_text [] = true
all_text (l ∷ ls) = no_nul l && all_text ls

pub no_nul-tail :
    (c : ℕ) (text : List ℕ) → no_nul (c ∷ text) ≡ true → ((c == 0) ≡ false) × (no_nul text ≡ true)
no_nul-tail c text h = go (c == 0) (no_nul text) h
  where
    go : (x y : Bool) → not x && y ≡ true → (x ≡ false) × (y ≡ true)
    go true y h = absurd (clash h)
      where
        clash : false ≡ true → ⊥
        clash e = ground arith
    go false y h = (refl, h)

add_char-append :
    (c : ℕ) (text b : List ℕ) (p : List (List ℕ) × List ℕ)
    → lines (text ++ b) ≡ (p.0 ++ (lines (p.1 ++ b)).0, (lines (p.1 ++ b)).1)
    → (c == 10) ≡ false
    → add_char c (lines (text ++ b))
      ≡ ((add_char c p).0 ++ (lines ((add_char c p).1 ++ b)).0, (lines ((add_char c p).1 ++ b)).1)
add_char-append c text b ([], last) h e = rw (h, e) refl
add_char-append c text b (l ∷ ls, last) h e = rw h refl

-- The lines of a text that goes on.
pub lines-append :
    (text b : List ℕ)
    → lines (text ++ b)
      ≡ ((lines text).0 ++ (lines ((lines text).1 ++ b)).0, (lines ((lines text).1 ++ b)).1)
lines-append [] b = refl
lines-append (c ∷ text) b = elim (Bool-cases (c == 10)) [
  | inl e ↦ rw e (rw (lines-append text b) refl)
  | inr e ↦ rw e (add_char-append c text b (lines text) (lines-append text b) e)
]

pub lines_none : (text : List ℕ) → has_line text ≡ false → lines text ≡ ([], text)
lines_none [] e = refl
lines_none (c ∷ text) e = elim (Bool-cases (c == 10)) [
  | inl f ↦ ground arith
  | inr f ↦ rw (f, lines_none text (tail f e)) refl
]
  where
    tail : (c == 10) ≡ false → (c == 10) || has_line text ≡ false → has_line text ≡ false
    tail f e = ground arith

add_char_last :
    (c : ℕ) (p : List (List ℕ) × List ℕ)
    → (c == 10) ≡ false
    → has_line p.1 ≡ false
    → has_line (add_char c p).1 ≡ false
add_char_last c ([], last) e h = rw (e, h) refl
add_char_last c (l ∷ ls, last) e h = h

pub last_none : (text : List ℕ) → has_line (lines text).1 ≡ false
last_none [] = refl
last_none (c ∷ text) = elim (Bool-cases (c == 10)) [
  | inl e ↦ rw e (last_none text)
  | inr e ↦ rw e (add_char_last c (lines text) e (last_none text))
]

pub has_line-append : (a b : List ℕ) → has_line b ≡ true → has_line (a ++ b) ≡ true
has_line-append [] b h = h
has_line-append (c ∷ a) b h = rw (has_line-append a b h) (go (c == 10))
  where
    go : (x : Bool) → x || true ≡ true
    go true = refl
    go false = refl

pub no_nul-append : (a b : List ℕ) → no_nul a ≡ true → no_nul b ≡ true → no_nul (a ++ b) ≡ true
no_nul-append [] b h k = k
no_nul-append (c ∷ a) b h k = let n = no_nul-tail c a h in rw (n.0, no_nul-append a b n.1 k) refl

add_char-no_nul :
    (c : ℕ) (p : List (List ℕ) × List ℕ)
    → (c == 0) ≡ false
    → no_nul p.1 ≡ true
    → no_nul (add_char c p).1 ≡ true
add_char-no_nul c ([], last) e h = rw (e, h) refl
add_char-no_nul c (l ∷ ls, last) e h = h

pub last-no_nul : (text : List ℕ) → no_nul text ≡ true → no_nul (lines text).1 ≡ true
last-no_nul [] h = refl
last-no_nul (c ∷ text) h =
    let k = no_nul-tail c text h in
    elim (Bool-cases (c == 10)) [
      | inl e ↦ rw e (last-no_nul text k.1)
      | inr e ↦ rw e (add_char-no_nul c (lines text) k.0 (last-no_nul text k.1))
    ]

pub both : (a b : Bool) → a && b ≡ true → (a ≡ true) × (b ≡ true)
both true b e = (refl, e)
both false b e = absurd (clash e)
  where
    clash : false ≡ true → ⊥
    clash e = ground arith

pub no_line-append :
    (a b : List ℕ) → has_line a ≡ false → has_line b ≡ false → has_line (a ++ b) ≡ false
no_line-append [] b h e = e
no_line-append (c ∷ a) b h e = rw (no_line-append a b (tail (c == 10) h) e) (head (c == 10) h)
  where
    tail : (x : Bool) → x || has_line a ≡ false → has_line a ≡ false
    tail x h = ground arith

    head : (x : Bool) → x || has_line a ≡ false → x || false ≡ false
    head x h = ground arith

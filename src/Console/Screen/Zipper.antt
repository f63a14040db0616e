-- ===== src/Console/Screen/Zipper.antt =====
-- The line at the cursor on the screen as the characters before it, the nearest first, and those after it.
use os_lab2_team.Prelude.{
  ℕ, zero, suc, ◌+◌, ◌-◌, ◌%◌, ◌≤◌, ◌<◌, ◌≡◌, refl, ap, ◌∙◌, ◌≢◌, false, some, List, [], ◌∷◌, arith,
  ◌==◌, ==_iff, Bool-cases, inl, inr, get_or, length,
}
use os_lab2_team.Console.{backspace}
use os_lab2_team.Console.Screen.{Crt, blank, cgaputc, left_key, right_key}
use os_lab2_team.Console.Screen.Words.{
  settle_lem, with_char, without_char, char_word, erased_word, char_at_cursor, char_at_low,
  char_at_after, char_at_end, erased_at_low, erased_at_after, erased_at_end,
}

-- `l` stands before the cursor and `r` from it on, followed by a blank.
pub record Shows (s : Crt) (l r : List ℕ) : Type 0 where
  pub fits : length l ≤ s.pos
  pub back : s.back ≡ length r
  pub before : (i : ℕ) → i < length l → s.word (s.pos + 1 - i) ≡ get_or l i 0 + 1792
  pub after : (i : ℕ) → i < length r → s.word (s.pos + 2 + i) ≡ get_or r i 0 + 1792
  pub end : s.word (s.pos + 2 + length r) ≡ blank

-- A character other than the end of line, when the next position is not in the last row: it goes
-- before the cursor, what is after the cursor moves on, and the words before the line stay.
typed-Shows :
    (c : ℕ) (s : Crt) (l r : List ℕ)
    → Shows s l r
    → s.pos + 1 < 1920
    → c < 256
    → c ≢ 10
    → (t : Crt) × (cgaputc c s ≡ some t)
      × Shows t (c ∷ l) r
      × ((k : ℕ) → k + length l < s.pos + 2 → t.word k ≡ s.word k)
unfolding cgaputc
typed-Shows c s l r h room lt ne = (
  with_char c s,
  rw (ordinary.0, ordinary.1) (settle_lem _ room),
  record {
    fits = omega (arith, h.fits);
    back = h.back;
    before = before;
    after = λ i li.
        char_word c s (length r) (s.pos + 1 + 2 + i) h.back
        ∙ char_at_after s.word s.pos (length r) _ i (s.pos + 1 + 2 + i) (s.pos + 2 + i) li
            (omega arith) refl
        ∙ h.after i li;
    end =
        char_word c s (length r) (s.pos + 1 + 2 + length r) h.back
        ∙ char_at_end s.word s.pos (length r) _ (s.pos + 1 + 2 + length r) (omega arith);
  },
  λ k low.
      char_word c s (length r) k h.back ∙ char_at_low s.word s.pos (length r) _ k (omega arith),
)
  where
    ordinary : ((c == 10) ≡ false) × ((c == 256) ≡ false)
    ordinary = (ground arith, ground arith)

    before :
        (i : ℕ)
        → i < suc (length l)
        → (with_char c s).word (s.pos + 1 + 1 - i) ≡ get_or (c ∷ l) i 0 + 1792
    before zero li =
        char_word c s (length r) (s.pos + 1 + 1 - 0) h.back
        ∙ char_at_cursor s.word s.pos (length r) _ (s.pos + 1 + 1 - 0) (omega arith)
        ∙ ap (λ x. x + 1792) (omega arith)
    before (suc i) li =
        char_word c s (length r) (s.pos + 1 + 1 - suc i) h.back
        ∙ char_at_low s.word s.pos (length r) _ (s.pos + 1 + 1 - suc i) (omega (arith, h.fits))
        ∙ ap s.word (omega (arith, h.fits))
        ∙ h.before i (omega arith)

-- A backspace at a character: it goes, what is after the cursor moves back, and the words before the
-- line stay.
erased-Shows :
    (s : Crt) (x : ℕ) (l r : List ℕ)
    → Shows s (x ∷ l) r
    → s.pos ≤ 1920
    → (t : Crt) × (cgaputc backspace s ≡ some t)
      × Shows t l r
      × ((k : ℕ) → k + length l < s.pos + 1 → t.word k ≡ s.word k)
unfolding cgaputc
erased-Shows s x l r h room = (
  without_char s,
  settle_lem _ (omega (arith, h.fits)),
  record {
    fits = omega (arith, h.fits);
    back = h.back;
    before = λ i li.
        erased_word s (length r) (s.pos - 1 + 1 - i) h.back some_left
        ∙ erased_at_low s.word s.pos (length r) (s.pos - 1 + 1 - i) (omega (arith, h.fits))
        ∙ ap s.word (omega (arith, h.fits))
        ∙ h.before (suc i) (omega arith);
    after = λ i li.
        erased_word s (length r) (s.pos - 1 + 2 + i) h.back some_left
        ∙ erased_at_after s.word s.pos (length r) i (s.pos - 1 + 2 + i) (s.pos + 2 + i) li
            (omega (arith, some_left)) refl
        ∙ h.after i li;
    end =
        erased_word s (length r) (s.pos - 1 + 2 + length r) h.back some_left
        ∙ erased_at_end s.word s.pos (length r) (s.pos - 1 + 2 + length r)
            (omega (arith, some_left));
  },
  λ k low.
      erased_word s (length r) k h.back some_left
      ∙ erased_at_low s.word s.pos (length r) k (omega arith),
)
  where
    some_left : 0 < s.pos
    some_left = omega (arith, h.fits)

-- The screen does to the line what an editor with a cursor does. A character other than the end of line
-- goes before the cursor, and a backspace takes away the character before it; in both cases what is after
-- the cursor moves along, and every word before the line stays. The cursor is above the last row.
pub cgaputc-Shows :
    (c x : ℕ) (s : Crt) (l r : List ℕ)
    → s.pos + 1 < 1920
    → c < 256
    → c ≢ 10
    → (Shows s l r
        → (t : Crt) × (cgaputc c s ≡ some t)
          × Shows t (c ∷ l) r
          × ((k : ℕ) → k + length l < s.pos + 2 → t.word k ≡ s.word k))
      × (Shows s (x ∷ l) r
          → (t : Crt) × (cgaputc backspace s ≡ some t)
            × Shows t l r
            × ((k : ℕ) → k + length l < s.pos + 1 → t.word k ≡ s.word k))
cgaputc-Shows c x s l r room lt ne =
    (λ h. typed-Shows c s l r h room lt ne, λ h. erased-Shows s x l r h (omega arith))

-- The cursor keys move a character from one side of the cursor to the other and change no word; on the
-- right there is nothing to do at the end of the line. On the left the key stops where `$` stands two
-- places before the cursor, but it still counts the step.
pub moved-Shows :
    (s : Crt) (x : ℕ) (l r : List ℕ)
    → s.pos < 2000
    → (Shows s (x ∷ l) r → s.word s.pos ≢ 1828 → Shows (left_key s) l (x ∷ r))
      × (s.word s.pos ≡ 1828 → left_key s ≡ record s { back = s.back + 1 })
      × (Shows s l (x ∷ r) → Shows (right_key s) (x ∷ l) r)
      × (Shows s l [] → right_key s ≡ s)
      × ((left_key s).word ≡ s.word)
      × ((right_key s).word ≡ s.word)
unfolding left_key right_key
moved-Shows s x l r small = (
  left,
  λ e. rw ((==_iff (s.word s.pos) 1828).1 e) refl,
  right,
  λ h. rw h.back refl,
  elim (Bool-cases (s.word s.pos == 1828)) [ inl e ↦ rw e refl | inr e ↦ rw e refl ],
  elim (Bool-cases (s.back == 0)) [ inl e ↦ rw e refl | inr e ↦ rw e refl ],
)
  where
    other : s.word s.pos ≢ 1828 → (s.word s.pos == 1828) ≡ false
    other ne = ground arith

    left : Shows s (x ∷ l) r → s.word s.pos ≢ 1828 → Shows (left_key s) l (x ∷ r)
    left h ne = rw (other ne) (record {
      fits = omega (arith, h.fits);
      back = omega (arith, h.back);
      before = λ i li. ap s.word (omega (arith, h.fits)) ∙ h.before (suc i) (omega arith);
      after = after;
      end = ap s.word (omega (arith, h.fits)) ∙ h.end;
    })
      where
        after :
            (i : ℕ)
            → i < suc (length r)
            → s.word ((s.pos + 65535) % 65536 + 2 + i) ≡ get_or (x ∷ r) i 0 + 1792
        after zero li = ap s.word (omega (arith, h.fits)) ∙ h.before 0 (omega arith)
        after (suc i) li = ap s.word (omega (arith, h.fits)) ∙ h.after i (omega arith)

    right : Shows s l (x ∷ r) → Shows (right_key s) (x ∷ l) r
    right h = rw back_set (record {
      fits = omega (arith, h.fits);
      back = omega (arith, h.back);
      before = before;
      after = λ i li. ap s.word (omega arith) ∙ h.after (suc i) (omega arith);
      end = ap s.word (omega arith) ∙ h.end;
    })
      where
        back_set : (s.back == 0) ≡ false
        back_set = ground (arith, h.back)

        before :
            (i : ℕ)
            → i < suc (length l)
            → s.word ((s.pos + 1) % 65536 + 1 - i) ≡ get_or (x ∷ l) i 0 + 1792
        before zero li = ap s.word (omega arith) ∙ h.after 0 (omega arith)
        before (suc i) li = ap s.word (omega arith) ∙ h.before i (omega arith)

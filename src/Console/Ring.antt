-- ===== src/Console/Ring.antt =====
-- The line of console.c as two lists: what readers may have, and what is still being edited.
use os_lab2_team.Prelude.{
  ℕ, suc, ◌+◌, ◌-◌, ◌%◌, ◌^◌, ◌≤◌, ◌<◌, ◌≡◌, ◌∙◌, ◌≢◌, ◌↔◌, Bool, true, List, [], ◌∷◌, ◌++◌, arith,
  dec_lt, ◌==◌, if◌then◌else◌, ==_iff, get_or, length, length-append, get_or-append_last,
  get_or-append,
}
use os_lab2_team.Console.{input_buf, Input, back_one}

-- The ring holds the characters l from `r` to `e`.
pub record Stored (s : Input) (l : List ℕ) : Type 0 where
  pub r : s.r < 2 ^ 32
  pub e : s.e ≡ (s.r + length l) % 2 ^ 32
  pub fits : length l ≤ input_buf
  pub chars : (i : ℕ) → i < length l → s.buf ((s.r + i) % input_buf) ≡ get_or l i 0

pub wraps :
    (r l m : ℕ)
    → r < 2 ^ 32
    → l ≤ 128
    → m ≤ 128
    → (((r + l) % 2 ^ 32 == (r + m) % 2 ^ 32) ≡ true) ↔ (l ≡ m)
wraps r l m lt le le' = (
  λ e. omega (arith, (==_iff ((r + l) % 2 ^ 32) ((r + m) % 2 ^ 32)).0 e),
  λ e. (==_iff ((r + l) % 2 ^ 32) ((r + m) % 2 ^ 32)).1 (omega arith),
)

pub wraps_none : (r l : ℕ) → r < 2 ^ 32 → l ≤ 128 → ((r == (r + l) % 2 ^ 32) ≡ true) ↔ (l ≡ 0)
wraps_none r l lt le = (
  λ e. omega (arith, (==_iff r ((r + l) % 2 ^ 32)).0 e),
  λ e. (==_iff r ((r + l) % 2 ^ 32)).1 (omega arith),
)

pub room_left : (r l : ℕ) → r < 2 ^ 32 → l ≤ 128 → ((r + l) % 2 ^ 32 + 2 ^ 32 - r) % 2 ^ 32 ≡ l
room_left r l lt le = omega arith

slot_same : (x : ℕ) → (x % 2 ^ 32) % 128 ≡ x % 128
slot_same x = omega arith

slot_other : (r i l : ℕ) → i < l → l < 128 → (r + i) % 128 ≢ (r + l) % 128
slot_other r i l lt le e = omega arith

slot_next : (r i : ℕ) → ((r + 1) % 2 ^ 32 + i) % 128 ≡ (r + suc i) % 128
slot_next r i = omega arith

abbrev pub stored_char : Input → ℕ → ℕ → ℕ
stored_char s c i = if i == s.e % input_buf then c else s.buf i

-- A character is stored behind the others.
pub Stored-type :
    (s : Input) (l : List ℕ) (c w : ℕ) (a : Bool)
    → Stored s l
    → length l < input_buf
    → Stored
        (record s { buf = stored_char s c; e = (s.e + 1) % 2 ^ 32; w = w; asleep = a })
        (l ++ (c ∷ []))
Stored-type s l c w a h lt = record {
  r = h.r;
  e = omega (arith, h.e, length-append l (c ∷ []));
  fits = omega (arith, length-append l (c ∷ []));
  chars = λ i it. elim (dec_lt i (length l)) [
    | yes lti ↦ ground (
      arith,
      h.chars i lti,
      get_or-append l (c ∷ []) i 0 lti,
      h.e,
      slot_same (s.r + length l),
      slot_other s.r i (length l) lti lt,
    )
    | no ge ↦ last i (omega (arith, length-append l (c ∷ [])))
  ];
}
  where
    last :
        (i : ℕ)
        → i ≡ length l
        → stored_char s c ((s.r + i) % input_buf) ≡ get_or (l ++ (c ∷ [])) i 0
    last i e = rw e (ground (arith, get_or-append_last l c 0, h.e, slot_same (s.r + length l)))

-- The last character is given up.
pub Stored-back :
    (s : Input) (l : List ℕ) (c : ℕ) → Stored s (l ++ (c ∷ [])) → Stored (back_one s) l
Stored-back s l c h = record {
  r = h.r;
  e = omega (arith, h.e, h.r, h.fits, length-append l (c ∷ []));
  fits = omega (arith, h.fits, length-append l (c ∷ []));
  chars =
      λ i it. h.chars i (omega (arith, length-append l (c ∷ []))) ∙ get_or-append l (c ∷ []) i 0 it;
}

-- The byte below `e` is the last one.
pub Stored-last :
    (s : Input) (l : List ℕ) (c : ℕ)
    → Stored s (l ++ (c ∷ []))
    → s.buf ((s.e + 2 ^ 32 - 1) % 2 ^ 32 % input_buf) ≡ c
Stored-last s l c h =
    let n = length-append l (c ∷ []) in
    let place : (s.e + 2 ^ 32 - 1) % 2 ^ 32 % 128 ≡ (s.r + length l) % 128 =
      omega (arith, h.e, h.r, h.fits) in
    rw place (h.chars (length l) (omega arith) ∙ get_or-append_last l c 0)

-- The first character is taken.
pub Stored-take :
    (s : Input) (c : ℕ) (l : List ℕ)
    → Stored s (c ∷ l)
    → (s.buf (s.r % input_buf) ≡ c) × Stored (record s { r = (s.r + 1) % 2 ^ 32 }) l
Stored-take s c l h = (
  ground (arith, h.chars 0 (omega arith)),
  record {
    r = omega arith;
    e = omega (arith, h.e);
    fits = omega (arith, h.fits);
    chars = λ i it. rw (slot_next s.r i) (h.chars (suc i) (omega arith));
  },
)

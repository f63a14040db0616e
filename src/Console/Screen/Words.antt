-- ===== src/Console/Screen/Words.antt =====
-- The words of the screen after a character and after a backspace.
use os_lab2_team.Prelude.{
  ℕ, zero, suc, ◌+◌, ◌-◌, ◌%◌, ◌≤◌, ◌<◌, ◌≡◌, ap, ◌∙◌, ◌&&◌, some, arith, leb, ltb, ◌==◌,
  if◌then◌else◌,
}
use os_lab2_team.Console.Screen.{Crt, blank, shift_left, shift_right, settle}

shift_left_lem :
    (n i : ℕ) (word : ℕ → ℕ) (k : ℕ)
    → shift_left n i word k ≡ (if leb i k && ltb k (i + n) then word (k + 1) else word k)
unfolding shift_left
shift_left_lem zero i word k = ground arith
shift_left_lem (suc n) i word k =
    shift_left_lem n (i + 1) (λ j. if j == i then word (i + 1) else word j) k ∙ ground arith

shift_right_lem :
    (n i : ℕ) (word : ℕ → ℕ) (k : ℕ)
    → n ≤ i
    → shift_right n i word k ≡ (if ltb (i - n) k && leb k i then word (k - 1) else word k)
unfolding shift_right
shift_right_lem zero i word k le = ground arith
shift_right_lem (suc n) i word k le =
    shift_right_lem n (i - 1) (λ j. if j == i then word (i - 1) else word j) k (omega arith)
    ∙ ground arith

pub settle_lem :
    (s : Crt)
    → s.pos < 1920
    → settle s ≡ some (record s { word = λ j. if j == s.pos + s.back + 2 then blank else s.word j })
unfolding settle
settle_lem s lt = ground arith

-- The screen after a character, and after a backspace, without scrolling.
abbrev pub with_char : ℕ → Crt → Crt
with_char c s = record s {
  pos = s.pos + 1;
  word = λ j.
      if j == s.pos + 1 + s.back + 2
      then blank
      else if j == s.pos + 2
      then c % 256 + 1792
      else shift_right s.back (s.pos + s.back + 2) s.word j;
}

abbrev pub without_char : Crt → Crt
without_char s = record s {
  pos = s.pos - 1;
  word = λ j.
      if j == s.pos - 1 + s.back + 2 then blank else shift_left (s.back + 1) (s.pos + 1) s.word j;
}

-- Word k of these screens: the cursor at p, b characters after it.
abbrev char_at : (ℕ → ℕ) → ℕ → ℕ → ℕ → ℕ → ℕ
char_at word p b v k =
    if k == p + b + 3
    then blank
    else if k == p + 2
    then v
    else if ltb (p + 2) k && leb k (p + 2 + b)
    then word (k - 1)
    else word k

abbrev erased_at : (ℕ → ℕ) → ℕ → ℕ → ℕ → ℕ
erased_at word p b k =
    if k == p + b + 1
    then blank
    else if leb (p + 1) k && ltb k (p + b + 2)
    then word (k + 1)
    else word k

pub char_word :
    (c : ℕ) (s : Crt) (b k : ℕ)
    → s.back ≡ b
    → (with_char c s).word k ≡ char_at s.word s.pos b (c % 256 + 1792) k
char_word c s b k e =
    let f = shift_right_lem s.back (s.pos + s.back + 2) s.word k (omega arith) in ground arith

pub erased_word :
    (s : Crt) (b k : ℕ)
    → s.back ≡ b
    → 0 < s.pos
    → (without_char s).word k ≡ erased_at s.word s.pos b k
erased_word s b k e lt = let f = shift_left_lem (s.back + 1) (s.pos + 1) s.word k in ground arith

pub char_at_cursor : (word : ℕ → ℕ) (p b v k : ℕ) → k ≡ p + 2 → char_at word p b v k ≡ v
char_at_cursor word p b v k e = ground arith

pub char_at_low : (word : ℕ → ℕ) (p b v k : ℕ) → k < p + 2 → char_at word p b v k ≡ word k
char_at_low word p b v k e = ground arith

pub char_at_after :
    (word : ℕ → ℕ) (p b v i k j : ℕ)
    → i < b
    → k ≡ p + 3 + i
    → j ≡ p + 2 + i
    → char_at word p b v k ≡ word j
char_at_after word p b v i k j lt e f =
    let e' : k - 1 ≡ j = omega arith in let g = ap word e' in ground arith

pub char_at_end : (word : ℕ → ℕ) (p b v k : ℕ) → k ≡ p + 3 + b → char_at word p b v k ≡ blank
char_at_end word p b v k e = ground arith

pub erased_at_low : (word : ℕ → ℕ) (p b k : ℕ) → k < p + 1 → erased_at word p b k ≡ word k
erased_at_low word p b k e = ground arith

pub erased_at_after :
    (word : ℕ → ℕ) (p b i k j : ℕ)
    → i < b
    → k ≡ p + 1 + i
    → j ≡ p + 2 + i
    → erased_at word p b k ≡ word j
erased_at_after word p b i k j lt e f =
    let e' : k + 1 ≡ j = omega arith in let g = ap word e' in ground arith

pub erased_at_end : (word : ℕ → ℕ) (p b k : ℕ) → k ≡ p + 1 + b → erased_at word p b k ≡ blank
erased_at_end word p b k e = ground arith

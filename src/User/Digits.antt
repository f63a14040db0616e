-- ===== src/User/Digits.antt =====
-- Numbers as digits: what printint prints and atoi reads back, and the room that it takes.
use os_lab2_team.Prelude.{
  ℕ, zero, suc, ◌+◌, ◌-◌, ◌*◌, ◌/◌, ◌%◌, ◌^◌, ◌≤◌, ◌<◌, ◌≡◌, refl, ◌∙◌, ◌≢◌, inl, inr, true, false,
  List, [], ◌∷◌, arith, ◌==◌, Bool-cases, length,
}
use os_lab2_team.Console.Print.{digit, digits_from, printint}
use os_lab2_team.User.{atoi_from, atoi}

-- 2 ^ n, by rounds.
abbrev power2 : ℕ → ℕ
power2 zero = 1
power2 (suc n) = 2 * power2 n

-- Reading the digits of x and then the rest is reading the rest with x read.
atoi_from-digits_from :
    (fuel letter x : ℕ) (buf : List ℕ)
    → x < power2 fuel
    → x < 2 ^ 32
    → atoi_from 0 (digits_from fuel letter 10 x buf) ≡ atoi_from x buf
unfolding digits_from atoi_from
atoi_from-digits_from zero letter x buf lt small = rw (none_left lt) refl
  where
    none_left : x < 1 → x ≡ 0
    none_left lt = omega arith
atoi_from-digits_from (suc fuel) letter x buf lt small = elim (Bool-cases (x / 10 == 0)) [
  | inl e ↦ rw e (one 0 e)
  | inr e ↦ rw e (
      atoi_from-digits_from fuel letter (x / 10) (digit letter (x % 10) ∷ buf) (omega arith)
        (omega arith)
      ∙ step)
]
  where
    step : atoi_from (x / 10) (digit letter (x % 10) ∷ buf) ≡ atoi_from x buf
    step =
        let v : (x / 10 * 10 + (b'0' + x % 10) + 2 ^ 32 - b'0') % 2 ^ 32 ≡ x = omega arith in
        ground (arith, v)

    one :
        (n : ℕ) → (x / 10 == 0) ≡ true → atoi_from 0 (digit letter (x % 10) ∷ buf) ≡ atoi_from x buf
    one n e =
        let v : (0 * 10 + (b'0' + x % 10) + 2 ^ 32 - b'0') % 2 ^ 32 ≡ x = ground arith in
        ground (arith, v)

read_back : (letter x : ℕ) → x < 2 ^ 32 → atoi_from 0 (digits_from 32 letter 10 x []) ≡ x
unfolding atoi_from
read_back letter x small = atoi_from-digits_from 32 letter x [] small small ∙ refl

-- atoi reads back what printint prints in base 10: for a number of an `int` that is not negative the
-- number, and for a negative one its absolute value, behind the sign.
pub atoi-printint :
    (letter x : ℕ)
    → x < 2 ^ 32
    → (x < 2 ^ 31 → atoi (printint letter x 10 true) ≡ x)
      × (2 ^ 31 ≤ x
          → (digits : List ℕ) × (printint letter x 10 true ≡ b'-' ∷ digits)
            × (atoi digits ≡ 2 ^ 32 - x))
unfolding printint atoi
atoi-printint letter x small = (
  λ lt. ground (arith, read_back letter x small),
  λ le. (digits_from 32 letter 10 ((2 ^ 32 - x) % 2 ^ 32) [], ground arith, magnitude le),
)
  where
    magnitude :
        2 ^ 31 ≤ x → atoi_from 0 (digits_from 32 letter 10 ((2 ^ 32 - x) % 2 ^ 32) []) ≡ 2 ^ 32 - x
    magnitude le = read_back letter ((2 ^ 32 - x) % 2 ^ 32) (omega arith) ∙ omega arith

-- Powers of the base, by rounds.
abbrev power : ℕ → ℕ → ℕ
power base zero = 1
power base (suc n) = base * power base n

length-digits_from :
    (base : ℕ)
    → ((y m : ℕ) → y < base * m → y / base < m)
    → (fuel k letter x : ℕ) (buf : List ℕ) → x < power base k
    → 0 < k
    → length (digits_from fuel letter base x buf) ≤ k + length buf
unfolding digits_from
length-digits_from base quot zero k letter x buf lt pos0 = omega arith
length-digits_from base quot (suc fuel) zero letter x buf lt pos0 = absurd (omega arith)
length-digits_from base quot (suc fuel) (suc k) letter x buf lt pos0 =
    elim (Bool-cases (x / base == 0)) [
      | inl e ↦ rw e (omega arith)
      | inr e ↦ rw e (
          let below = quot x (power base k) lt in
          let more =
            length-digits_from base quot fuel k letter (x / base) (digit letter (x % base) ∷ buf)
              below (positive k below (ground arith)) in
          omega (arith, more))
    ]
  where
    positive : (k : ℕ) → x / base < power base k → x / base ≢ 0 → 0 < k
    positive zero lt ne = absurd (omega arith)
    positive (suc k) lt ne = omega arith

-- The 16 bytes of `buf` are enough: printint prints at most 11 characters in base 10 and at most 8 in
-- base 16 without a sign.
length-printint :
    (letter x : ℕ)
    → x < 2 ^ 32
    → (length (printint letter x 10 true) ≤ 11) × (length (printint letter x 16 false) ≤ 8)
unfolding printint
length-printint letter x small =
    let ten = λ (y : ℕ) (lt : y < 2 ^ 32).
      length-digits_from 10 (λ y m h. omega arith) 32 10 letter y [] (omega arith) (omega arith) in
    let plain = ten x small in
    let signed = ten ((2 ^ 32 - x) % 2 ^ 32) (omega arith) in
    let hex =
      length-digits_from 16 (λ y m h. omega arith) 32 8 letter x [] (omega arith) (omega arith) in
    (ground (arith, plain, signed), ground (arith, hex))

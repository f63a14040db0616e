-- ===== src/Proc/Prime.antt =====
-- The lab's find_next_prime_number returns the next prime.
use os_lab2_team.Prelude.{
  ℕ, zero, suc, ◌+◌, ◌-◌, ◌%◌, ◌^◌, ◌≤◌, ◌<◌, ◌≡◌, refl, sym, ◌≢◌, inl, inr, pos, negsuc, sub_ℕ,
  true, false, some, arith, ℕ_discrete, Bool-cases,
}
use mathlib.Core.Path.{subst}
use os_lab2_team.Proc.Lab.{divisor_flag, prime_from, find_next_prime_number}

abbrev pub IsPrime : ℕ → Type 0
IsPrime p = (1 < p) × ((d : ℕ) → 1 < d → d < p → p % d ≢ 0)

flag_stays : (n i number : ℕ) → divisor_flag n i number true ≡ true
unfolding divisor_flag
flag_stays zero i number = refl
flag_stays (suc n) i number = ground (arith, flag_stays n (i + 1) number)

-- The flag stays down exactly if no number of the range divides.
flag_down :
    (n i number : ℕ)
    → divisor_flag n i number false ≡ false
    → (d : ℕ) → i ≤ d
    → d < i + n
    → number % d ≢ 0
unfolding divisor_flag
flag_down zero i number h d lo hi = absurd (omega arith)
flag_down (suc n) i number h d lo hi = elim (ℕ_discrete i d) [
  | yes e ↦ ground (arith, flag_stays n (i + 1) number)
  | no ne ↦
      flag_down n (i + 1) number (ground (arith, flag_stays n (i + 1) number)) d (omega arith)
        (omega arith)
]

flag_kept :
    (n i number : ℕ)
    → ((d : ℕ) → i ≤ d → d < i + n → number % d ≢ 0)
    → divisor_flag n i number false ≡ false
unfolding divisor_flag
flag_kept zero i number none_divides = refl
flag_kept (suc n) i number none_divides = ground (
  arith,
  none_divides i,
  flag_kept n (i + 1) number (λ d lo hi. none_divides d (omega arith) (omega arith)),
)

flag-IsPrime :
    (number : ℕ) → 1 < number → divisor_flag (number - 2) 2 number false ≡ false → IsPrime number
flag-IsPrime number big h =
    (big, λ d lo hi. flag_down (number - 2) 2 number h d (omega arith) (omega arith))

IsPrime-flag : (number : ℕ) → IsPrime number → divisor_flag (number - 2) 2 number false ≡ false
IsPrime-flag number p =
    flag_kept (number - 2) 2 number (λ d lo hi. p.1 d (omega arith) (let b = p.0 in omega arith))

-- r is the least prime from `number` on.
pub record IsNext (number p r : ℕ) : Type 0 where
  pub prime : IsPrime r
  pub above : number ≤ r
  pub below : r ≤ p
  pub least : (q : ℕ) → number ≤ q → q < r → ¬ IsPrime q

prime_from_lem :
    (fuel number p : ℕ)
    → 1 < number
    → IsPrime p
    → number ≤ p
    → p < number + fuel
    → p < 2 ^ 31
    → (r : ℕ) × (prime_from fuel number ≡ some r) × IsNext number p r
unfolding prime_from
prime_from_lem zero number p big prime le lt small = absurd (omega arith)
prime_from_lem (suc fuel) number p big prime le lt small =
    elim (Bool-cases (divisor_flag (number - 2) 2 number false)) [
      | inr down ↦ (
        number,
        ground arith,
        record {
          prime = flag-IsPrime number big down;
          above = omega arith;
          below = le;
          least = λ q lo hi. absurd (omega arith);
        },
      )
      | inl up ↦
          let composite : ¬ IsPrime number = λ y. let d = IsPrime-flag number y in cc in
          let ne : number ≢ p = λ e. composite (subst IsPrime (sym e) prime) in
          let (r, e, next) =
            prime_from_lem fuel (number + 1) p (omega arith) prime (omega arith) (omega arith)
              small in
          (
            r,
            ground arith,
            record {
              prime = next.prime;
              above = let a = next.above in omega arith;
              below = next.below;
              least = λ q lo hi. elim (ℕ_discrete number q) [
                | yes same ↦ subst (λ x. ¬ IsPrime x) same composite
                | no other ↦ next.least q (omega arith) hi
              ];
            },
          )
    ]

-- For n ≥ 1, if some prime p above n is an `int`, find_next_prime_number(n) ends within p - n rounds of
-- its outer loop and returns the least prime above n.
find_next_prime_number_lem :
    (fuel n p : ℕ)
    → 0 < n
    → IsPrime p
    → n < p
    → p ≤ n + fuel
    → p < 2 ^ 31
    → (r : ℕ) × (find_next_prime_number fuel (pos n) ≡ some (pos r)) × IsNext (n + 1) p r
unfolding find_next_prime_number
find_next_prime_number_lem fuel n p positive prime lt enough small =
    let (r, e, next) =
      prime_from_lem fuel (n + 1) p (omega arith) prime (omega arith) (omega arith) small in
    (r, ground arith, next)

below_zero : (fuel n : ℕ) → find_next_prime_number fuel (negsuc n) ≡ some (sub_ℕ 0 n)
unfolding find_next_prime_number
below_zero fuel zero = refl
below_zero fuel (suc n) = ground arith

-- For any n ≤ 0, find_next_prime_number(n) returns n + 1, which is not a prime.
find_next_prime_number_nonpos :
    (fuel n : ℕ)
    → (find_next_prime_number (suc fuel) (pos 0) ≡ some (pos 1))
      × (find_next_prime_number fuel (negsuc n) ≡ some (sub_ℕ 0 n))
      × (¬ IsPrime 1)
unfolding find_next_prime_number
find_next_prime_number_nonpos fuel n = (refl, below_zero fuel n, λ p. let b = p.0 in omega arith)

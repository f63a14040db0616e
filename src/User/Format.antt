-- ===== src/User/Format.antt =====
-- cprintf of the kernel and printf of the user library print the same.
use os_lab2_team.Prelude.{
  ℕ, zero, suc, ◌+◌, ◌-◌, ◌/◌, ◌%◌, ◌^◌, ◌<◌, ◌≡◌, refl, ap, inl, inr, Bool, true, false, not, ◌&&◌,
  ◌||◌, List, [], ◌∷◌, ◌++◌, arith, ◌==◌, if◌then◌else◌, Bool-cases,
}
use os_lab2_team.Console.Print.{Args, digit, digits_from, printint, directive, cprintf}
use os_lab2_team.User.{user_directive, printf}

digit-small : (d : ℕ) → d < 10 → digit b'a' d ≡ digit b'A' d
digit-small d lt = ground arith

digits_from-letter :
    (fuel x : ℕ) (buf : List ℕ) → digits_from fuel b'a' 10 x buf ≡ digits_from fuel b'A' 10 x buf
unfolding digits_from
digits_from-letter zero x buf = refl
digits_from-letter (suc fuel) x buf =
    rw
      (
        digit-small (x % 10) (omega arith),
        digits_from-letter fuel (x / 10) (digit b'A' (x % 10) ∷ buf),
      )
      refl

printint-letter : (x : ℕ) → printint b'a' x 10 true ≡ printint b'A' x 10 true
unfolding printint
printint-letter x =
    rw (digits_from-letter 32 x [], digits_from-letter 32 ((2 ^ 32 - x) % 2 ^ 32) []) refl

-- A format in which `%x`, `%p` (whose letters differ) and `%c` (which cprintf does not know) do not
-- stand.
abbrev common : List ℕ → Bool
common [] = true
common (c ∷ []) = true
common (c ∷ d ∷ fmt) =
    let plain = common (d ∷ fmt) in
    let rest = common fmt in
    if c == b'%' then not ((d == b'x') || (d == b'p') || (d == b'c')) && rest else plain

directive-common :
    (a : Args) (i d : ℕ)
    → not ((d == b'x') || (d == b'p') || (d == b'c')) ≡ true
    → directive a i d ≡ user_directive a i d
unfolding directive user_directive
directive-common a i d h = rw (printint-letter (a.arg i)) (ground arith)

and_parts : (x y : Bool) → (x && y) ≡ true → (x ≡ true) × (y ≡ true)
and_parts x y h = ground arith

-- On every format without `%x`, `%p` and `%c`, and for all arguments, cprintf and printf print the
-- same characters: also `%s` of a null pointer, an unknown letter behind `%`, and a `%` at the end.
pub printf-cprintf :
    (a : Args) (i : ℕ) (fmt : List ℕ) → common fmt ≡ true → printf a false i fmt ≡ cprintf a i fmt
unfolding printf cprintf
printf-cprintf a i [] h = refl
printf-cprintf a i (c ∷ []) h = ground arith
printf-cprintf a i (c ∷ d ∷ fmt) h = elim (Bool-cases (c == b'%')) [
  | inl e ↦
      let both =
        and_parts (not ((d == b'x') || (d == b'p') || (d == b'c'))) (common fmt) (rw e at h) in
      rw (e, directive-common a i d both.0)
        (ap ((user_directive a i d).0 ++◌)
          (printf-cprintf a (i + (user_directive a i d).1) fmt both.1))
  | inr e ↦ rw e (ap (c ∷◌) (printf-cprintf a i (d ∷ fmt) (rw e at h)))
]

-- ===== src/User/Tests.antt =====
-- ulib.c and printf.c at concrete texts.
use os_lab2_team.Prelude.{
  ℕ, ◌-◌, ◌^◌, ◌≤◌, ◌<◌, ◌≡◌, refl, pos, true, false, some, List, [], ◌∷◌, arith, ◌==◌,
  if◌then◌else◌,
}
use os_lab2_team.Console.Print.{Args, printint, digits_from, cprintf}
use os_lab2_team.User.{strcmp, atoi, gets_from, printf}
use os_lab2_team.User.Digits.{atoi-printint}
use os_lab2_team.User.Format.{printf-cprintf}

minus_12 : printint b'a' (2 ^ 32 - 12) 10 true ≡ b'-' ∷ b'1' ∷ b'2' ∷ []
unfolding printint digits_from
minus_12 = refl

strcmp_differ :
    strcmp 5 (λ p. if p == 3 then b'b' else if p == 13 then b'a' else 0) 3 13 ≡ some (pos 1)
unfolding strcmp
strcmp_differ = refl

a_line : gets_from 4 (b'a' ∷ 10 ∷ b'b' ∷ []) ≡ b'a' ∷ 10 ∷ 0 ∷ []
unfolding gets_from
a_line = refl

atoi-printint_example :
    (1975 < 2 ^ 31 → atoi (printint b'A' 1975 10 true) ≡ 1975)
    × (2 ^ 31 ≤ 1975
        → (digits : List ℕ) × (printint b'A' 1975 10 true ≡ b'-' ∷ digits)
          × (atoi digits ≡ 2 ^ 32 - 1975))
atoi-printint_example = atoi-printint b'A' 1975 (omega arith)

abbrev no_args : Args
no_args = record { arg = λ i. 7; text = λ p. [] }

printf-cprintf_example :
    printf no_args false 0 (b'%' ∷ b'd' ∷ b'%' ∷ []) ≡ cprintf no_args 0 (b'%' ∷ b'd' ∷ b'%' ∷ [])
printf-cprintf_example = printf-cprintf no_args 0 (b'%' ∷ b'd' ∷ b'%' ∷ []) refl

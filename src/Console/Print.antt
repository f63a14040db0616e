-- ===== src/Console/Print.antt =====
-- printint and cprintf of console.c, as the characters that they hand to consputc.
use os_lab2_team.Prelude.{
  ℕ, zero, suc, ◌+◌, ◌-◌, ◌/◌, ◌%◌, ◌^◌, Bool, true, false, ◌&&◌, ◌||◌, List, [], ◌∷◌, ◌++◌, leb,
  ltb, ◌==◌, if◌then◌else◌,
}

-- digits[d], where the digits above 9 are letters from `letter` on.
abbrev pub digit : ℕ → ℕ → ℕ
digit letter d = if ltb d 10 then b'0' + d else letter + (d - 10)

-- The loop of printint: `buf` from its last entry to its first. A number has fewer digits than
-- `fuel` = 32, its bits.
unfoldable pub digits_from : ℕ → ℕ → ℕ → ℕ → List ℕ → List ℕ
digits_from zero letter base x buf = buf
digits_from (suc fuel) letter base x buf =
    let rest = digits_from fuel letter base (x / base) (digit letter (x % base) ∷ buf) in
    if x / base == 0 then digit letter (x % base) ∷ buf else rest

-- printint of an `int` by its 32 bits.
unfoldable pub printint : ℕ → ℕ → ℕ → Bool → List ℕ
printint letter xx base sign =
    if sign && leb (2 ^ 31) xx
    then b'-' ∷ digits_from 32 letter base ((2 ^ 32 - xx) % 2 ^ 32) []
    else digits_from 32 letter base xx []

abbrev null_text : List ℕ
null_text = b'(' ∷ b'n' ∷ b'u' ∷ b'l' ∷ b'l' ∷ b')' ∷ []

-- The arguments behind the format, and the strings that stand at addresses.
pub record Args : Type 0 where
  pub arg : ℕ → ℕ
  pub text : ℕ → List ℕ

-- `s`, with "(null)" for the address 0.
abbrev pub text_of : Args → ℕ → List ℕ
text_of a p = if p == 0 then null_text else a.text p

-- What `%c` prints for the argument at i, and how many arguments it takes.
unfoldable pub directive : Args → ℕ → ℕ → List ℕ × ℕ
directive a i c =
    if c == b'd'
    then (printint b'a' (a.arg i) 10 true, 1)
    else if (c == b'x') || (c == b'p')
    then (printint b'a' (a.arg i) 16 false, 1)
    else if c == b's'
    then (text_of a (a.arg i), 1)
    else if c == b'%'
    then (b'%' ∷ [], 0)
    else (b'%' ∷ c ∷ [], 0)

-- The loop of cprintf over a format without its end; i arguments are used up.
unfoldable pub cprintf : Args → ℕ → List ℕ → List ℕ
cprintf a i [] = []
cprintf a i (c ∷ []) = if c == b'%' then [] else c ∷ []
cprintf a i (c ∷ d ∷ fmt) =
    let plain = cprintf a i (d ∷ fmt) in
    let r = directive a i d in
    let rest = cprintf a (i + r.1) fmt in if c == b'%' then r.0 ++ rest else c ∷ plain

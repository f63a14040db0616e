-- ===== src/Console.antt =====
-- console.c: the line that is typed, the printing of numbers and formats, and the screen.
pub mod Screen
pub mod Print
pub mod Ring
pub mod Line
pub mod Reader
mod Tests
use os_lab2_team.Prelude.{
  ℕ, zero, suc, ◌+◌, ◌-◌, ◌*◌, ◌/◌, ◌%◌, ◌^◌, ◌≤◌, ◌<◌, ◌≡◌, refl, sym, ap, ◌∙◌, ◌≢◌, ◌↔◌, ◌⊎◌, inl,
  inr, ℤ, pos, negsuc, sub_ℕ, Bool, true, false, not, ◌&&◌, ◌||◌, Option, none, some, List, [], ◌∷◌,
  ◌++◌, map, arith, dec_lt, ℕ_discrete, leb, ltb, lt→ltb, ◌==◌, if◌then◌else◌, ==_iff, Bool-cases,
  Option-cases, get_or, replicate, length, length-append, set, times, without, times-without,
}

abbrev pub input_buf : ℕ
input_buf = 128

-- The code of consputc that rubs out a character.
abbrev pub backspace : ℕ
backspace = 256

-- `input`: the indices are `uint`s that count characters modulo 2^32. `asleep` says whether anyone
-- sleeps on `&input.r`.
pub record Input : Type 0 where
  pub buf : ℕ → ℕ
  pub r : ℕ
  pub w : ℕ
  pub e : ℕ
  pub asleep : Bool

abbrev pub back_one : Input → Input
back_one s = record s { e = (s.e + 2 ^ 32 - 1) % 2 ^ 32 }

-- "Kill line": what is left, and the number of characters rubbed out. The loop ends within `fuel`
-- rounds when the line is shorter.
unfoldable pub kill_line : ℕ → Input → ℕ × Input
kill_line zero s = (0, s)
kill_line (suc fuel) s =
    let rest = kill_line fuel (back_one s) in
    if s.e == s.w || s.buf ((s.e + 2 ^ 32 - 1) % 2 ^ 32 % input_buf) == 10
    then (0, s)
    else (rest.0 + 1, rest.1)

-- The default case: the character with its echo.
unfoldable pub type_char : ℕ → Input → List ℕ × Input
type_char c0 s =
    let c = if c0 == 13 then 10 else c0 in
    let e' = (s.e + 1) % 2 ^ 32 in
    if (c0 == 0) || leb input_buf ((s.e + 2 ^ 32 - s.r) % 2 ^ 32) then ([], s) else (
      c ∷ [],
      (if (c == 10) || (c == 4) || (e' == (s.r + input_buf) % 2 ^ 32)
          then record s {
            buf = λ i. if i == s.e % input_buf then c else s.buf i;
            e = e';
            w = e';
            asleep = false;
          }
          else record s { buf = λ i. if i == s.e % input_buf then c else s.buf i; e = e' }),
    )

unfoldable pub rub_out : Input → List ℕ × Input
rub_out s = if s.e == s.w then ([], s) else (backspace ∷ [], back_one s)

-- A character of consoleintr other than the cursor keys, with what it hands to consputc. Control-P
-- only asks for a listing of the processes.
unfoldable pub edit : ℕ → Input → List ℕ × Input
edit c s =
    if c == 16
    then ([], s)
    else if c == 21
    then (let k = kill_line input_buf s in (replicate k.0 backspace, k.1))
    else if (c == 8) || (c == 127)
    then rub_out s
    else type_char c s

-- How a visit of consoleread ends: with its bytes, asleep with those that it has, or with -1.
pub data Got : Type 0 where
  line : List ℕ → Got
  waits : List ℕ → Got
  killed_read : Got

-- The loop of consoleread: n bytes are left, and `took` says that some were read (n < target). A
-- sleeper goes on here with what it has.
unfoldable pub read_from : Bool → Bool → ℕ → List ℕ → Input → Got × Input
read_from killed took zero acc s = (line acc, s)
read_from killed took (suc n) acc s =
    let c = s.buf (s.r % input_buf) in
    let next = record s { r = (s.r + 1) % 2 ^ 32 } in
    let rest = read_from killed true n (acc ++ (c ∷ [])) next in
    if s.r == s.w
    then (if killed then (killed_read, s) else (waits acc, record s { asleep = true }))
    else if c == 4
    then (line acc, if took then s else next)
    else if c == 10
    then (line (acc ++ (c ∷ [])), next)
    else rest

unfoldable pub consoleread : Bool → ℕ → Input → Got × Input
consoleread killed n s = read_from killed false n [] s

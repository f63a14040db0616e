-- ===== src/Console/Screen.antt =====
-- The screen of console.c: the CGA words with the cursor, and the two keys that move it.
pub mod Words
pub mod Zipper
use os_lab2_team.Prelude.{
  ℕ, zero, suc, ◌+◌, ◌-◌, ◌*◌, ◌/◌, ◌%◌, ◌^◌, ◌≤◌, ◌<◌, ◌≡◌, refl, sym, ap, ◌∙◌, ◌≢◌, ◌↔◌, ◌⊎◌, inl,
  inr, ℤ, pos, negsuc, sub_ℕ, Bool, true, false, not, ◌&&◌, ◌||◌, Option, none, some, List, [], ◌∷◌,
  ◌++◌, map, arith, dec_lt, ℕ_discrete, leb, ltb, lt→ltb, ◌==◌, if◌then◌else◌, ==_iff, Bool-cases,
  Option-cases, get_or, replicate, length, length-append, get_or-append_last, get_or-append,
  append_nil, append_assoc, set, times, without, times-without,
}
use os_lab2_team.Console.{backspace, Input, edit}

-- The cursor, `back_counter`, and the words of the CGA memory from two words below it on, which the
-- code reaches: `crt[i]` is word i + 2. `back_counter` counts keys and is taken to stay in an `int`.
pub record Crt : Type 0 where
  pub pos : ℕ
  pub back : ℕ
  pub word : ℕ → ℕ

-- ' ' | 0x0700
abbrev pub blank : ℕ
blank = 1824

abbrev put_word : ℕ → ℕ → (ℕ → ℕ) → ℕ → ℕ
put_word i v word j = if j == i then v else word j

-- `for (...; ...; i++) crt[i] = crt[i + 1];` in n rounds from word i on.
unfoldable pub shift_left : ℕ → ℕ → (ℕ → ℕ) → ℕ → ℕ
shift_left zero i word = word
shift_left (suc n) i word = shift_left n (i + 1) (put_word i (word (i + 1)) word)

-- `for (...; ...; i--) crt[i] = crt[i - 1];` in n rounds from word i down.
unfoldable pub shift_right : ℕ → ℕ → (ℕ → ℕ) → ℕ → ℕ
shift_right zero i word = word
shift_right (suc n) i word = shift_right n (i - 1) (put_word i (word (i - 1)) word)

-- The rest of cgaputc after the switch: the panic, which is `none`, scrolling, and the blank behind
-- the line.
unfoldable pub settle : Crt → Option Crt
settle s =
    let up : ℕ → ℕ = λ i. if leb 2 i && ltb i 1842 then s.word (i + 80) else s.word i in
    let cleared : ℕ → ℕ = λ i. if leb (s.pos - 80 + 2) i && ltb i 1922 then 0 else up i in
    if ltb 2000 s.pos
    then none
    else if leb 24 (s.pos / 80)
    then some
        (record s { pos = s.pos - 80; word = put_word (s.pos - 80 + s.back + 2) blank cleared })
    else some (record s { word = put_word (s.pos + s.back + 2) blank s.word })

unfoldable pub cgaputc : ℕ → Crt → Option Crt
cgaputc c s = settle (
    if c == 10
    then record s { pos = s.pos + (80 - s.pos % 80) }
    else if c == backspace
    then record s { pos = s.pos - 1; word = shift_left (s.back + 1) (s.pos + 1) s.word }
    else record s {
      pos = s.pos + 1;
      word = put_word (s.pos + 2) (c % 256 + 1792) (shift_right s.back (s.pos + s.back + 2) s.word);
    })

abbrev pub echo : List ℕ → Option Crt → Option (List ℕ × Crt)
echo out none = none
echo out (some s) = some (out, s)

-- What goes to the serial port, and the screen; `none` is no return.
unfoldable pub consputc : Bool → ℕ → Crt → Option (List ℕ × Crt)
consputc panicked c s =
    if panicked
    then none
    else echo (if c == backspace then 8 ∷ 32 ∷ 8 ∷ [] else c ∷ []) (cgaputc c s)

-- The position is kept by two bytes of the controller.
abbrev move_left_cursor : Crt → Crt
move_left_cursor s =
    if s.word s.pos == 36 + 1792 then s else record s { pos = (s.pos + 65535) % 65536 }

abbrev move_right_cursor : Crt → Crt
move_right_cursor s = record s { pos = (s.pos + 1) % 65536 }

-- The cases KEY_LF and KEY_RT of consoleintr.
unfoldable pub left_key : Crt → Crt
left_key s = let t = move_left_cursor s in record t { back = t.back + 1 }

unfoldable pub right_key : Crt → Crt
right_key s =
    if s.back == 0 then s else (let t = move_right_cursor s in record t { back = t.back - 1 })

-- consputc of each character of an echo.
unfoldable pub put_all : Bool → List ℕ → Crt → Option (List ℕ × Crt)
put_all panicked [] s = some ([], s)
put_all panicked (c ∷ cs) s = elim (consputc panicked c s) [
  | none ↦ none
  | some r ↦ elim (put_all panicked cs r.1) [ none ↦ none | some t ↦ some (r.0 ++ t.0, t.1) ]
]

abbrev with_input : Input → Option (List ℕ × Crt) → Option (List ℕ × Input × Crt)
with_input s none = none
with_input s (some r) = some (r.0, s, r.1)

-- A round of consoleintr: what goes to the serial port, the line and the screen.
unfoldable pub press : Bool → ℕ → Input → Crt → Option (List ℕ × Input × Crt)
press panicked c s crt =
    if c == 228
    then some ([], s, left_key crt)
    else if c == 229
    then some ([], s, right_key crt)
    else with_input (edit c s).1 (put_all panicked (edit c s).0 crt)

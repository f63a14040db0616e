-- ===== src/Console/Tests.antt =====
-- A line on a screen and in the ring, near the wrap of its indices.
use os_lab2_team.Prelude.{
  ℕ, zero, suc, ◌+◌, ◌-◌, ◌%◌, ◌<◌, ◌≡◌, refl, ◌≢◌, true, false, some, List, [], ◌∷◌, arith, ◌==◌,
  if◌then◌else◌, get_or,
}
use os_lab2_team.Console.{Input, line, edit, read_from, backspace}
use os_lab2_team.Console.Line.{Line, Edited, edit_lem}
use os_lab2_team.Console.Reader.{Readout, read_from_lem}
use os_lab2_team.Console.Screen.{Crt, blank, cgaputc, left_key, right_key}
use os_lab2_team.Console.Screen.Zipper.{Shows, cgaputc-Shows, moved-Shows}

-- "hi" is ready with its end of line, and "x" is being typed.
abbrev input : Input
input = record {
  buf = λ i.
      if i == 126
      then 104
      else if i == 127
      then 105
      else if i == 0
      then 10
      else if i == 1
      then 120
      else 0;
  r = 4294967294;
  w = 1;
  e = 2;
  asleep = true;
}

abbrev begun : List ℕ
begun = 120 ∷ []

input-Line : Line input (104 ∷ 105 ∷ 10 ∷ []) (120 ∷ [])
input-Line = record {
  stored = record { r = omega arith; e = omega arith; fits = omega arith; chars = chars };
  w = omega arith;
  unfinished = λ i lt. unfinished i lt;
}
  where
    chars :
        (i : ℕ)
        → i < 4
        → input.buf ((4294967294 + i) % 128) ≡ get_or (104 ∷ 105 ∷ 10 ∷ 120 ∷ []) i 0
    chars zero lt = refl
    chars (suc zero) lt = refl
    chars (suc (suc zero)) lt = refl
    chars (suc (suc (suc zero))) lt = refl
    chars (suc (suc (suc (suc i)))) lt = absurd (omega arith)

    unfinished : (i : ℕ) → i < 1 → get_or begun i 0 ≢ 10
    unfinished zero lt = λ e. absurd (omega arith)
    unfinished (suc i) lt = absurd (omega arith)

edit_lem_example : Edited (edit 13 input) (10 ∷ [], 104 ∷ 105 ∷ 10 ∷ 120 ∷ 10 ∷ [], [])
edit_lem_example = edit_lem 13 input (104 ∷ 105 ∷ 10 ∷ []) (120 ∷ []) input-Line

read_from_lem_example :
    Readout (120 ∷ []) (read_from false false 10 [] input) (line (104 ∷ 105 ∷ 10 ∷ []), [])
read_from_lem_example =
    read_from_lem false false 10 [] input (104 ∷ 105 ∷ 10 ∷ []) (120 ∷ []) input-Line

-- `$ ab` in the first row, with the cursor on the b.
abbrev crt : Crt
crt = record {
  pos = 3;
  back = 1;
  word = λ i. if i == 2 then 1828 else if i == 4 then 1889 else if i == 5 then 1890 else blank;
}

crt-Shows : Shows crt (97 ∷ []) (98 ∷ [])
crt-Shows = record { fits = omega arith; back = refl; before = before; after = after; end = refl }
  where
    before : (i : ℕ) → i < 1 → crt.word (3 + 1 - i) ≡ get_or (97 ∷ []) i 0 + 1792
    before zero lt = refl
    before (suc i) lt = absurd (omega arith)

    after : (i : ℕ) → i < 1 → crt.word (3 + 2 + i) ≡ get_or (98 ∷ []) i 0 + 1792
    after zero lt = refl
    after (suc i) lt = absurd (omega arith)

cgaputc-Shows_example :
    (Shows crt (97 ∷ []) (98 ∷ [])
      → (t : Crt) × (cgaputc 99 crt ≡ some t)
        × Shows t (99 ∷ 97 ∷ []) (98 ∷ [])
        × ((k : ℕ) → k + 1 < 3 + 2 → t.word k ≡ crt.word k))
    × (Shows crt (120 ∷ 97 ∷ []) (98 ∷ [])
        → (t : Crt) × (cgaputc backspace crt ≡ some t)
          × Shows t (97 ∷ []) (98 ∷ [])
          × ((k : ℕ) → k + 1 < 3 + 1 → t.word k ≡ crt.word k))
cgaputc-Shows_example =
    cgaputc-Shows 99 120 crt (97 ∷ []) (98 ∷ []) (omega arith) (omega arith)
      (λ e. absurd (omega arith))

-- `$ acb`
crt_typed : (t : Crt) × (cgaputc 99 crt ≡ some t) × Shows t (99 ∷ 97 ∷ []) (98 ∷ [])
crt_typed =
    let t =
      (cgaputc-Shows 99 0 crt (97 ∷ []) (98 ∷ []) (omega arith) (omega arith)
          (λ e. absurd (omega arith))).0
        crt-Shows in
    (t.0, t.1, t.2)

moved-Shows_example :
    (Shows crt (97 ∷ []) (98 ∷ []) → crt.word 3 ≢ 1828 → Shows (left_key crt) [] (97 ∷ 98 ∷ []))
    × (crt.word 3 ≡ 1828 → left_key crt ≡ record crt { back = 2 })
    × (Shows crt [] (97 ∷ 98 ∷ []) → Shows (right_key crt) (97 ∷ []) (98 ∷ []))
    × (Shows crt [] [] → right_key crt ≡ crt)
    × ((left_key crt).word ≡ crt.word)
    × ((right_key crt).word ≡ crt.word)
moved-Shows_example = moved-Shows crt 97 [] (98 ∷ []) (omega arith)

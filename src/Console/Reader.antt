-- ===== src/Console/Reader.antt =====
-- consoleread of console.c, against an account of the line as two lists of characters.
use os_lab2_team.Prelude.{
  ℕ, zero, suc, ◌+◌, ◌%◌, ◌^◌, ◌≡◌, refl, ◌↔◌, inl, inr, Bool, true, false, List, [], ◌∷◌, ◌++◌,
  arith, ◌==◌, if◌then◌else◌, Bool-cases, length, length-append,
}
use os_lab2_team.Console.{input_buf, Input, Got, line, waits, killed_read, read_from}
use os_lab2_team.Console.Ring.{wraps_none, Stored-take}
use os_lab2_team.Console.Line.{Line}

-- What a reader of n more characters gets of those that are ready, and what it leaves.
abbrev read_line : Bool → Bool → ℕ → List ℕ → List ℕ → Got × List ℕ
read_line killed took zero acc q = (line acc, q)
read_line killed took (suc n) acc [] = (if killed then killed_read else waits acc, [])
read_line killed took (suc n) acc (x ∷ q) =
    let rest = read_line killed true n (acc ++ (x ∷ [])) q in
    if x == 4
    then (line acc, if took then x ∷ q else q)
    else if x == 10
    then (line (acc ++ (x ∷ [])), q)
    else rest

abbrev pub Readout : List ℕ → Got × Input → Got × List ℕ → Type 0
Readout d r t = (r.0 ≡ t.0) × Line r.1 t.1 d

take-Line :
    (s : Input) (x : ℕ) (q d : List ℕ)
    → Line s (x ∷ q) d
    → (s.buf (s.r % input_buf) ≡ x) × Line (record s { r = (s.r + 1) % 2 ^ 32 }) q d
take-Line s x q d h =
    let t = Stored-take s x (q ++ d) h.stored in
    (t.0, record { stored = t.1; w = omega (arith, h.w); unfinished = h.unfinished })

none_ready : (s : Input) (q d : List ℕ) → Line s q d → ((s.r == s.w) ≡ true) ↔ (length q ≡ 0)
none_ready s q d h =
    let n = length-append q d in
    rw h.w (wraps_none s.r (length q) h.stored.r (omega (arith, h.stored.fits, n)))

-- consoleread: it returns what read_line says of the characters that are ready, leaves the others and
-- the line that is edited, and sleeps only when none is ready.
pub read_from_lem :
    (killed took : Bool) (n : ℕ) (acc : List ℕ) (s : Input) (q d : List ℕ)
    → Line s q d
    → Readout d (read_from killed took n acc s) (read_line killed took n acc q)
unfolding read_from
read_from_lem killed took zero acc s q d h = (refl, h)
read_from_lem killed took (suc n) acc s [] d h = rw ((none_ready s [] d h).1 refl) (go killed)
  where
    go :
        (k : Bool)
        → Readout d
            (if k then (killed_read, s) else (waits acc, record s { asleep = true }))
            (if k then killed_read else waits acc, [])
    go true = (refl, h)
    go false = (
      refl,
      record {
        stored = record {
          r = h.stored.r;
          e = h.stored.e;
          fits = h.stored.fits;
          chars = h.stored.chars;
        };
        w = h.w;
        unfinished = h.unfinished;
      },
    )
read_from_lem killed took (suc n) acc s (x ∷ q) d h =
    let t = take-Line s x q d h in
    let some_ready : (s.r == s.w) ≡ false = ground (arith, (none_ready s (x ∷ q) d h).0) in
    rw (some_ready, t.0)
      (elim (Bool-cases (x == 4)) [
        | inl e ↦ rw e (refl, eof took t.1)
        | inr e ↦ rw e (elim (Bool-cases (x == 10)) [
          | inl f ↦ rw f (refl, t.1)
          | inr f ↦ rw f (
              read_from_lem killed true n (acc ++ (x ∷ [])) (record s { r = (s.r + 1) % 2 ^ 32 }) q
                d t.1)
        ])
      ])
  where
    eof :
        (took : Bool)
        → Line (record s { r = (s.r + 1) % 2 ^ 32 }) q d
        → Line
            (if took then s else record s { r = (s.r + 1) % 2 ^ 32 })
            (if took then x ∷ q else q)
            d
    eof true t = h
    eof false t = t

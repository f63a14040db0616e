-- ===== src/Console/Line.antt =====
-- The typed line of console.c: what consoleintr and consoleread do, against an account of the line as
-- two lists of characters.
use os_lab2_team.Prelude.{
  ℕ, zero, suc, ◌+◌, ◌-◌, ◌%◌, ◌^◌, ◌≤◌, ◌<◌, ◌≡◌, refl, ap, ◌∙◌, ◌≢◌, ◌↔◌, ◌⊎◌, inl, inr, true,
  false, ◌||◌, List, [], ◌∷◌, ◌++◌, arith, dec_lt, leb, ◌==◌, if◌then◌else◌, Bool-cases, get_or,
  replicate, length, length-append, get_or-append_last, get_or-append, append_nil, append_assoc,
}
use mathlib.Core.Path.{subst}
use os_lab2_team.Console.{
  input_buf, backspace, Input, back_one, kill_line, type_char, rub_out, edit,
}
use os_lab2_team.Console.Ring.{
  Stored, wraps, room_left, stored_char, Stored-type, Stored-back, Stored-last,
}

-- `ready` may be read, `edited` can still be rubbed out; no line ends inside of it.
pub record Line (s : Input) (ready edited : List ℕ) : Type 0 where
  pub stored : Stored s (ready ++ edited)
  pub w : s.w ≡ (s.r + length ready) % 2 ^ 32
  pub unfinished : (i : ℕ) → i < length edited → get_or edited i 0 ≢ 10

-- A list without its last item.
abbrev pub init : List ℕ → List ℕ
init [] = []
init (x ∷ []) = []
init (x ∷ y ∷ l) = x ∷ init (y ∷ l)

init-append : (l : List ℕ) (x : ℕ) → init (l ++ (x ∷ [])) ≡ l
init-append [] x = refl
init-append (y ∷ []) x = refl
init-append (y ∷ z ∷ l) x = ap (y ∷◌) (init-append (z ∷ l) x)

last_cases : (l : List ℕ) → (l ≡ []) ⊎ ((b : List ℕ) × (x : ℕ) × (l ≡ b ++ (x ∷ [])))
last_cases [] = inl refl
last_cases (x ∷ l) = inr (go x l (last_cases l))
  where
    go :
        (x : ℕ) (l : List ℕ)
        → (l ≡ []) ⊎ ((b : List ℕ) × (y : ℕ) × (l ≡ b ++ (y ∷ [])))
        → (b : List ℕ) × (y : ℕ) × (x ∷ l ≡ b ++ (y ∷ []))
    go x l (inl e) = ([], x, ap (x ∷◌) e)
    go x l (inr (b, y, e)) = (x ∷ b, y, ap (x ∷◌) e)

-- What a typed character does to the line: its echo, what is ready, and what is edited.
abbrev pub typed : ℕ → List ℕ → List ℕ → List ℕ × List ℕ × List ℕ
typed c q d =
    if (c == 0) || leb input_buf (length (q ++ d))
    then ([], q, d)
    else let c' = if c == 13 then 10 else c in
      if (c' == 10) || (c' == 4) || (length (q ++ d) + 1 == input_buf)
      then (c' ∷ [], (q ++ d) ++ (c' ∷ []), [])
      else (c' ∷ [], q, d ++ (c' ∷ []))

abbrev edited_line : ℕ → List ℕ → List ℕ → List ℕ × List ℕ × List ℕ
edited_line c q d =
    if c == 16
    then ([], q, d)
    else if c == 21
    then (replicate (length d) backspace, q, [])
    else if (c == 8) || (c == 127)
    then (if length d == 0 then [] else backspace ∷ [], q, init d)
    else typed c q d

abbrev pub Edited : List ℕ × Input → List ℕ × List ℕ × List ℕ → Type 0
Edited r t = (r.0 ≡ t.0) × Line r.1 t.1 t.2

Line-empty : (s : Input) (q d : List ℕ) → Line s q d → ((s.e == s.w) ≡ true) ↔ (length d ≡ 0)
Line-empty s q d h =
    let n = length-append q d in
    let z =
      wraps s.r (length (q ++ d)) (length q) h.stored.r h.stored.fits
        (omega (arith, h.stored.fits, n)) in
    rw (h.stored.e, h.w) ((λ e. omega (arith, n, z.0 e)), (λ e. z.1 (omega (arith, n))))

back-Line : (s : Input) (q d : List ℕ) (x : ℕ) → Line s q (d ++ (x ∷ [])) → Line (back_one s) q d
back-Line s q d x h = record {
  stored = Stored-back s (q ++ d) x (rw (append_assoc q d (x ∷ [])) h.stored);
  w = h.w;
  unfinished = λ i it.
      rw (← get_or-append d (x ∷ []) i 0 it)
        (h.unfinished i (omega (arith, length-append d (x ∷ []))));
}

last-Line :
    (s : Input) (q d : List ℕ) (x : ℕ)
    → Line s q (d ++ (x ∷ []))
    → (s.buf ((s.e + 2 ^ 32 - 1) % 2 ^ 32 % input_buf) ≡ x) × (x ≢ 10)
last-Line s q d x h = (
  Stored-last s (q ++ d) x (rw (append_assoc q d (x ∷ [])) h.stored),
  λ e.
      h.unfinished (length d) (omega (arith, length-append d (x ∷ [])))
        (get_or-append_last d x 0 ∙ e),
)

kill_line_lem :
    (fuel : ℕ) (s : Input) (q d : List ℕ)
    → length d ≤ fuel
    → Line s q d
    → ((kill_line fuel s).0 ≡ length d) × Line (kill_line fuel s).1 q []
unfolding kill_line
kill_line_lem zero s q [] le h = (refl, h)
kill_line_lem zero s q (x ∷ d) le h = absurd (omega arith)
kill_line_lem (suc fuel) s q d le h = elim (last_cases d) [
  | inl e ↦ rw (stop e) (ground (arith, ap length e), subst (λ d. Line s q d) e h)
  | inr (b, x, e) ↦ rw (go_on b x (subst (λ d. Line s q d) e h)) (
      let k =
        kill_line_lem fuel (back_one s) q b (omega (arith, ap length e, length-append b (x ∷ [])))
          (back-Line s q b x (subst (λ d. Line s q d) e h)) in
      (omega (arith, k.0, ap length e, length-append b (x ∷ [])), k.1))
]
  where
    stop : d ≡ [] → (s.e == s.w || s.buf ((s.e + 2 ^ 32 - 1) % 2 ^ 32 % input_buf) == 10) ≡ true
    stop e = ground (arith, (Line-empty s q d h).1 (ap length e))

    go_on :
        (b : List ℕ) (x : ℕ)
        → Line s q (b ++ (x ∷ []))
        → (s.e == s.w || s.buf ((s.e + 2 ^ 32 - 1) % 2 ^ 32 % input_buf) == 10) ≡ false
    go_on b x h =
        ground (
          arith,
          (Line-empty s q (b ++ (x ∷ [])) h).0,
          length-append b (x ∷ []),
          last-Line s q b x h,
        )

rub_out_lem :
    (s : Input) (q d : List ℕ)
    → Line s q d
    → Edited (rub_out s) (if length d == 0 then [] else backspace ∷ [], q, init d)
unfolding rub_out
rub_out_lem s q d h = elim (last_cases d) [
  | inl e ↦ rw (e, (Line-empty s q d h).1 (ap length e)) (refl, subst (λ d. Line s q d) e h)
  | inr (b, x, e) ↦
      rw (e, not_empty b x e, init-append b x, some_left b x)
        (refl, back-Line s q b x (subst (λ d. Line s q d) e h))
]
  where
    some_left : (b : List ℕ) (x : ℕ) → (length (b ++ (x ∷ [])) == 0) ≡ false
    some_left b x = ground (arith, length-append b (x ∷ []))

    not_empty : (b : List ℕ) (x : ℕ) → d ≡ b ++ (x ∷ []) → (s.e == s.w) ≡ false
    not_empty b x e = ground (arith, (Line-empty s q d h).0, ap length e, length-append b (x ∷ []))

type_char_lem :
    (c : ℕ) (s : Input) (q d : List ℕ) → Line s q d → Edited (type_char c s) (typed c q d)
unfolding type_char
type_char_lem c s q d h = elim (Bool-cases ((c == 0) || leb input_buf (length (q ++ d)))) [
  | inl e ↦ rw (room, e) (refl, h)
  | inr e ↦ rw (room, e, full (short e)) (kept (short e) (if c == 13 then 10 else c))
]
  where
    room : (s.e + 2 ^ 32 - s.r) % 2 ^ 32 ≡ length (q ++ d)
    room = rw h.stored.e (room_left s.r (length (q ++ d)) h.stored.r h.stored.fits)

    short : ((c == 0) || leb input_buf (length (q ++ d))) ≡ false → length (q ++ d) < input_buf
    short e = ground arith

    full :
        length (q ++ d) < input_buf
        → ((s.e + 1) % 2 ^ 32 == (s.r + input_buf) % 2 ^ 32) ≡ (length (q ++ d) + 1 == input_buf)
    full lt =
        let z = wraps s.r (length (q ++ d) + 1) 128 h.stored.r (omega arith) (omega arith) in
        let n : (s.e + 1) % 2 ^ 32 ≡ (s.r + (length (q ++ d) + 1)) % 2 ^ 32 =
          omega (arith, h.stored.e) in
        rw n (ground (arith, z))

    kept :
        length (q ++ d) < input_buf
        → (c : ℕ)
        → Edited
            (
              c ∷ [],
              (if (c == 10) || (c == 4) || (length (q ++ d) + 1 == input_buf)
                  then record s {
                    buf = stored_char s c;
                    e = (s.e + 1) % 2 ^ 32;
                    w = (s.e + 1) % 2 ^ 32;
                    asleep = false;
                  }
                  else record s { buf = stored_char s c; e = (s.e + 1) % 2 ^ 32 }),
            )
            (if (c == 10) || (c == 4) || (length (q ++ d) + 1 == input_buf)
              then (c ∷ [], (q ++ d) ++ (c ∷ []), [])
              else (c ∷ [], q, d ++ (c ∷ [])))
    kept lt c = elim (Bool-cases ((c == 10) || (c == 4) || (length (q ++ d) + 1 == input_buf))) [
      | inl e ↦ rw e (
        refl,
        record {
          stored =
              rw (append_nil ((q ++ d) ++ (c ∷ [])))
                (Stored-type s (q ++ d) c ((s.e + 1) % 2 ^ 32) false h.stored lt);
          w = omega (arith, h.stored.e, length-append (q ++ d) (c ∷ []));
          unfinished = λ i it. absurd (omega arith);
        },
      )
      | inr e ↦ rw e (
        refl,
        record {
          stored =
              rw (← append_assoc q d (c ∷ [])) (Stored-type s (q ++ d) c s.w s.asleep h.stored lt);
          w = h.w;
          unfinished = λ i it. more c (ground arith) i it;
        },
      )
    ]
      where
        here : (c i : ℕ) → ¬ (i < length d) → i < length (d ++ (c ∷ [])) → i ≡ length d
        here c i ge it = omega (arith, length-append d (c ∷ []))

        more :
            (c : ℕ)
            → (c == 10) ≡ false
            → (i : ℕ) → i < length (d ++ (c ∷ []))
            → get_or (d ++ (c ∷ [])) i 0 ≢ 10
        more c ne i it = elim (dec_lt i (length d)) [
          | yes lti ↦ rw (get_or-append d (c ∷ []) i 0 lti) (h.unfinished i lti)
          | no ge ↦ rw (here c i ge it, get_or-append_last d c 0) (λ e. ground arith)
        ]

-- consoleintr and the line: for every character but the cursor keys, in every state of the ring, the echo and the line
-- are as the account of the line says. Control-U rubs out all that is still edited, rubbing out stops
-- at what readers may have, and a character is refused when INPUT_BUF are unread.
pub edit_lem :
    (c : ℕ) (s : Input) (q d : List ℕ) → Line s q d → Edited (edit c s) (edited_line c q d)
unfolding edit
edit_lem c s q d h = elim (Bool-cases (c == 16)) [
  | inl e ↦ rw e (refl, h)
  | inr e ↦ rw e (elim (Bool-cases (c == 21)) [
    | inl f ↦ rw f (killed (kill_line_lem input_buf s q d short h))
    | inr f ↦ rw f (elim (Bool-cases (c == 8 || c == 127)) [
      | inl g ↦ rw g (rub_out_lem s q d h)
      | inr g ↦ rw g (type_char_lem c s q d h)
    ])
  ])
]
  where
    short : length d ≤ input_buf
    short = omega (arith, h.stored.fits, length-append q d)

    killed :
        {k : ℕ × Input}
        → (k.0 ≡ length d) × Line k.1 q []
        → Edited (replicate k.0 backspace, k.1) (replicate (length d) backspace, q, [])
    killed k = (ap (λ n. replicate n backspace) k.0, k.1)

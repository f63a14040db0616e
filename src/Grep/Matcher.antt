-- ===== src/Grep/Matcher.antt =====
-- The matcher of grep.c against the language of an expression.
use os_lab2_team.Prelude.{
  ℕ, zero, suc, ◌≤◌, ◌<◌, ◌≡◌, refl, sym, ◌≢◌, ◌↔◌, ◌⊎◌, inl, inr, Bool, true, false, ◌||◌, List,
  [], ◌∷◌, arith, ℕ_discrete, ◌==◌, if◌then◌else◌, ==_iff, Bool-cases, get_or, length,
}
use os_lab2_team.Grep.{match_one, matchstar, is_end, matchhere, match_from, grep_match}

abbrev skip : ℕ → List ℕ → List ℕ
skip zero l = l
skip (suc n) [] = []
skip (suc n) (x ∷ l) = skip n l

-- `.` stands for every character.
abbrev Fits : ℕ → ℕ → Type 0
Fits c t = (c ≡ b'.') ⊎ (c ≡ t)

-- One character that fits, and then a text in `Rest`.
abbrev pub One : ℕ → (List ℕ → Type 0) → List ℕ → Type 0
One c Rest [] = ⊥
One c Rest (t ∷ text) = Fits c t × Rest text

-- Any number k of characters that fit, and then a text in `Rest`.
abbrev Star : (List ℕ → Type 0) → ℕ → List ℕ → Type 0
Star Rest c text =
    (k : ℕ) × (k ≤ length text) × ((i : ℕ) → i < k → Fits c (get_or text i 0)) × Rest (skip k text)

-- The text starts with a word of the expression; `$` is the end of the text only when it comes last.
abbrev Here : List ℕ → List ℕ → Type 0
Here [] text = Unit {0}
Here (c ∷ []) text = ((c ≡ b'$') × (text ≡ [])) ⊎ ((c ≢ b'$') × One c (Here []) text)
Here (c ∷ d ∷ re) text =
    ((d ≡ b'*') × Star (Here re) c text) ⊎ ((d ≢ b'*') × One c (Here (d ∷ re)) text)

-- Some word of the expression stands in the text, at its start if the expression begins with `^`.
abbrev pub Matches : List ℕ → List ℕ → Type 0
Matches [] text = Unit {0}
Matches (c ∷ re) text =
    ((c ≡ b'^') × Here re text)
    ⊎ ((c ≢ b'^') × ((k : ℕ) × (k ≤ length text) × Here (c ∷ re) (skip k text)))

or_iff : (a b : Bool) → (a || b ≡ true) ↔ ((a ≡ true) ⊎ (b ≡ true))
or_iff true b = (λ e. inl refl, λ o. refl)
or_iff false b = (λ e. inr e, λ o. elim o [ inl e ↦ absurd (true_false (sym e)) | inr e ↦ e ])
  where
    true_false : true ≡ false → ⊥
    true_false e = ground arith

Fits-iff : (c t : ℕ) → ((c == 46) || (c == t) ≡ true) ↔ Fits c t
Fits-iff c t = (
  λ e. elim ((or_iff (c == 46) (c == t)).0 e) [
    | inl f ↦ inl ((==_iff c 46).0 f)
    | inr f ↦ inr ((==_iff c t).0 f)
  ],
  λ f.
      (or_iff (c == 46) (c == t)).1
        (elim f [ inl e ↦ inl ((==_iff c 46).1 e) | inr e ↦ inr ((==_iff c t).1 e) ]),
)

clash : {b : Bool} → b ≡ false → b ≡ true → ⊥
clash {b} e f = ground arith

match_one_lem :
    (c : ℕ) (rest : List ℕ → Bool) (Rest : List ℕ → Type 0) (text : List ℕ)
    → ((t : List ℕ) → (rest t ≡ true) ↔ Rest t)
    → (match_one c rest text ≡ true) ↔ One c Rest text
unfolding match_one
match_one_lem c rest Rest [] h = (λ e. absurd (clash refl e), λ b. absurd b)
match_one_lem c rest Rest (t ∷ text) h = elim (Bool-cases ((c == 46) || (c == t))) [
  | inl e ↦ rw e (λ r. ((Fits-iff c t).0 e, (h text).0 r), λ o. (h text).1 o.1)
  | inr e ↦ rw e (λ r. absurd (clash refl r), λ o. absurd (clash e ((Fits-iff c t).1 o.0)))
]

-- A star matches at once, or after one more character.
Star-step :
    (c t : ℕ) (Rest : List ℕ → Type 0) (text : List ℕ)
    → Star Rest c (t ∷ text) ↔ (Rest (t ∷ text) ⊎ (Fits c t × Star Rest c text))
Star-step c t Rest text = (to, from)
  where
    to : Star Rest c (t ∷ text) → Rest (t ∷ text) ⊎ (Fits c t × Star Rest c text)
    to (zero, le, f, r) = inl r
    to (suc k, le, f, r) =
        inr (f 0 (omega arith), (k, omega arith, (λ i lt. f (suc i) (omega arith)), r))

    each :
        (k : ℕ)
        → Fits c t
        → ((i : ℕ) → i < k → Fits c (get_or text i 0))
        → (i : ℕ) → i < suc k
        → Fits c (get_or (t ∷ text) i 0)
    each k f g zero lt = f
    each k f g (suc i) lt = g i (omega arith)

    from : Rest (t ∷ text) ⊎ (Fits c t × Star Rest c text) → Star Rest c (t ∷ text)
    from (inl r) = (0, omega arith, (λ i lt. absurd (omega arith)), r)
    from (inr (f, (k, le, g, r))) = (suc k, omega arith, each k f g, r)

matchstar_lem :
    (c : ℕ) (rest : List ℕ → Bool) (Rest : List ℕ → Type 0) (text : List ℕ)
    → ((t : List ℕ) → (rest t ≡ true) ↔ Rest t)
    → (matchstar rest c text ≡ true) ↔ Star Rest c text
unfolding matchstar
matchstar_lem c rest Rest [] h =
    (λ e. (0, omega arith, (λ i lt. absurd (omega arith)), (h []).0 e), empty)
  where
    empty : Star Rest c [] → rest [] ≡ true
    empty (zero, le, f, r) = (h []).1 r
    empty (suc k, le, f, r) = absurd (omega arith)
matchstar_lem c rest Rest (t ∷ text) h =
    let more = matchstar_lem c rest Rest text h in
    let step = Star-step c t Rest text in
    elim (Bool-cases (rest (t ∷ text))) [
      | inl e ↦ rw e (λ r. step.1 (inl ((h (t ∷ text)).0 e)), λ s. refl)
      | inr e ↦ rw e (elim (Bool-cases ((t == c) || (c == 46))) [
        | inl f ↦ rw f (
          λ r. step.1 (inr (fits f, more.0 r)),
          λ s. elim (step.0 s) [
            | inl r ↦ absurd (clash e ((h (t ∷ text)).1 r))
            | inr r ↦ more.1 r.1
          ],
        )
        | inr f ↦ rw f (
          λ r. absurd (clash refl r),
          λ s. elim (step.0 s) [
            | inl r ↦ absurd (clash e ((h (t ∷ text)).1 r))
            | inr r ↦ absurd (clash f (fitting r.0))
          ],
        )
      ])
    ]
  where
    fits : (t == c) || (c == 46) ≡ true → Fits c t
    fits e = elim ((or_iff (t == c) (c == 46)).0 e) [
      | inl f ↦ inr (sym ((==_iff t c).0 f))
      | inr f ↦ inl ((==_iff c 46).0 f)
    ]

    fitting : Fits c t → (t == c) || (c == 46) ≡ true
    fitting f =
        (or_iff (t == c) (c == 46)).1
          (elim f [ inl e ↦ inr ((==_iff c 46).1 e) | inr e ↦ inl ((==_iff t c).1 (sym e)) ])

is_end_iff : (text : List ℕ) → (is_end text ≡ true) ↔ (text ≡ [])
is_end_iff [] = (λ e. refl, λ e. refl)
is_end_iff (t ∷ text) = (λ e. absurd (clash refl e), λ e. ground arith)

-- The choice between two readings of a character.
choose :
    {A B : Type 0} (c k : ℕ) (a b : Bool)
    → ((a ≡ true) ↔ A)
    → ((b ≡ true) ↔ B)
    → ((if c == k then a else b) ≡ true) ↔ (((c ≡ k) × A) ⊎ ((c ≢ k) × B))
choose {A} {B} c k a b f g = elim (ℕ_discrete c k) [
  | yes e ↦
      rw ((==_iff c k).1 e)
        (λ r. inl (e, f.0 r), λ o. elim o [ inl p ↦ f.1 p.1 | inr p ↦ absurd (p.0 e) ])
  | no ne ↦
      rw (differ ne)
        (λ r. inr (ne, g.0 r), λ o. elim o [ inl p ↦ absurd (ne p.0) | inr p ↦ g.1 p.1 ])
]
  where
    differ : c ≢ k → (c == k) ≡ false
    differ ne = ground arith

matchhere_lem : (re text : List ℕ) → (matchhere re text ≡ true) ↔ Here re text
unfolding matchhere
matchhere_lem [] text = (λ e. tt, λ u. refl)
matchhere_lem (c ∷ []) text =
    choose c 36 (is_end text) (match_one c (matchhere []) text) (is_end_iff text)
      (match_one_lem c (matchhere []) (Here []) text (matchhere_lem []))
matchhere_lem (c ∷ d ∷ re) text =
    choose d 42 (matchstar (matchhere re) c text) (match_one c (matchhere (d ∷ re)) text)
      (matchstar_lem c (matchhere re) (Here re) text (matchhere_lem re))
      (match_one_lem c (matchhere (d ∷ re)) (Here (d ∷ re)) text (matchhere_lem (d ∷ re)))

match_from_lem :
    (re text : List ℕ)
    → (match_from re text ≡ true) ↔ ((k : ℕ) × (k ≤ length text) × Here re (skip k text))
unfolding match_from
match_from_lem re [] = (λ e. (0, omega arith, (matchhere_lem re []).0 e), empty)
  where
    empty : (k : ℕ) × (k ≤ 0) × Here re (skip k []) → matchhere re [] ≡ true
    empty (zero, le, h) = (matchhere_lem re []).1 h
    empty (suc k, le, h) = absurd (omega arith)
match_from_lem re (t ∷ text) = elim (Bool-cases (matchhere re (t ∷ text))) [
  | inl e ↦ rw e (λ r. (0, omega arith, (matchhere_lem re (t ∷ text)).0 e), λ s. refl)
  | inr e ↦ rw e (
    λ r. let m = (match_from_lem re text).0 r in (suc m.0, omega (arith, m.1), m.2),
    λ s. later e (match_from_lem re text).1 s,
  )
]
  where
    later :
        matchhere re (t ∷ text) ≡ false
        → ((k : ℕ) × (k ≤ length text) × Here re (skip k text) → match_from re text ≡ true)
        → (k : ℕ) × (k ≤ length (t ∷ text)) × Here re (skip k (t ∷ text))
        → match_from re text ≡ true
    later e more (zero, le, h) = absurd (clash e ((matchhere_lem re (t ∷ text)).1 h))
    later e more (suc k, le, h) = more (k, omega arith, h)

-- The matcher is right: match says yes exactly when a word of the expression stands in the text, where
-- `.` is any character, a character with `*` any number of such characters, `$` at the end of the
-- expression the end of the text, and `^` at its start the start of the text.
pub grep_match-Matches : (re text : List ℕ) → (grep_match re text ≡ true) ↔ Matches re text
unfolding grep_match
grep_match-Matches [] text = (λ e. tt, λ u. (match_from_lem [] text).1 (0, omega arith, tt))
grep_match-Matches (c ∷ re) text =
    choose c 94 (matchhere re text) (match_from (c ∷ re) text) (matchhere_lem re text)
      (match_from_lem (c ∷ re) text)

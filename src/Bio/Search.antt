-- ===== src/Bio/Search.antt =====
-- The two searches of bget.
use os_lab2_team.Prelude.{
  ℕ, ◌<◌, ◌≡◌, refl, sym, ap, ◌∙◌, ◌≢◌, inl, inr, Bool, true, false, not, ◌&&◌, Option, none, some,
  List, [], ◌∷◌, arith, ℕ_discrete, ◌==◌, if◌then◌else◌, ==_iff, Bool-cases, times,
}
use os_lab2_team.Bio.{Buf, find_block, or_this, find_unused}

and_true : (a b : Bool) → a && b ≡ true → (a ≡ true) × (b ≡ true)
and_true true b e = (refl, e)
and_true false b e = absurd (no e)
  where
    no : false ≡ true → ⊥
    no e = ground arith

pub find_block-some :
    (order : List ℕ) (buf : ℕ → Buf) (dev k b : ℕ)
    → find_block order buf dev k ≡ some b
    → (0 < times b order) × ((buf b).dev ≡ dev) × ((buf b).blockno ≡ k)
unfolding find_block
find_block-some [] buf dev k b e = ground arith
find_block-some (c ∷ order) buf dev k b e =
    elim (Bool-cases (((buf c).dev == dev) && ((buf c).blockno == k))) [
      | inl f ↦
          let p = and_true ((buf c).dev == dev) ((buf c).blockno == k) f in
          let e' : c ≡ b = ground arith in
          (
            ground arith,
            sym (ap (λ x. (buf x).dev) e') ∙ (==_iff (buf c).dev dev).0 p.0,
            sym (ap (λ x. (buf x).blockno) e') ∙ (==_iff (buf c).blockno k).0 p.1,
          )
      | inr f ↦
          let r = find_block-some order buf dev k b (ground arith) in
          (ground (arith, r.0), r.1, r.2)
    ]

pub find_block-none :
    (order : List ℕ) (buf : ℕ → Buf) (dev k i : ℕ)
    → find_block order buf dev k ≡ none
    → 0 < times i order
    → (buf i).dev ≡ dev
    → (buf i).blockno ≢ k
unfolding find_block
find_block-none [] buf dev k i e lt d = absurd (omega arith)
find_block-none (c ∷ order) buf dev k i e lt d = elim (ℕ_discrete c i) [
  | yes f ↦ λ g. clash (taken f g) e
  | no ne ↦ find_block-none order buf dev k i (ground arith) (ground arith) d
]
  where
    taken : c ≡ i → (buf i).blockno ≡ k → ((buf c).dev == dev) && ((buf c).blockno == k) ≡ true
    taken f g = rw f (ground arith)

    clash :
        ((buf c).dev == dev) && ((buf c).blockno == k) ≡ true
        → (if ((buf c).dev == dev) && ((buf c).blockno == k)
            then some c
            else find_block order buf dev k)
          ≡ none
        → ⊥
    clash f e = ground arith

pub find_unused-some :
    (order : List ℕ) (buf : ℕ → Buf) (b : ℕ)
    → find_unused order buf ≡ some b
    → (0 < times b order) × ((buf b).refcnt ≡ 0) × ((buf b).dirty ≡ false)
unfolding find_unused
find_unused-some [] buf b e = ground arith
find_unused-some (c ∷ order) buf b e =
    go (find_unused order buf) refl e (find_unused-some order buf b)
  where
    unused : (x : Bool) → (n : ℕ) → (n == 0) && not x ≡ true → (n ≡ 0) × (x ≡ false)
    unused true n f = absurd (ground arith)
    unused false n f = (ground arith, refl)

    go :
        (o : Option ℕ)
        → find_unused order buf ≡ o
        → or_this o (if ((buf c).refcnt == 0) && not (buf c).dirty then some c else none) ≡ some b
        → (find_unused order buf ≡ some b
            → (0 < times b order) × ((buf b).refcnt ≡ 0) × ((buf b).dirty ≡ false))
        → (0 < times b (c ∷ order)) × ((buf b).refcnt ≡ 0) × ((buf b).dirty ≡ false)
    go none f g more = elim (Bool-cases (((buf c).refcnt == 0) && not (buf c).dirty)) [
      | inl h ↦
          let e' : c ≡ b = ground arith in
          let u = unused (buf c).dirty (buf c).refcnt h in
          (
            ground arith,
            sym (ap (λ x. (buf x).refcnt) e') ∙ u.0,
            sym (ap (λ x. (buf x).dirty) e') ∙ u.1,
          )
      | inr h ↦ absurd (ground arith)
    ]
    go (some d) f g more = let r = more (f ∙ g) in (ground (arith, r.0), r.1, r.2)

-- The second search finds a buffer when there is one.
pub find_unused_total :
    (order : List ℕ) (buf : ℕ → Buf) (i : ℕ)
    → 0 < times i order
    → (buf i).refcnt ≡ 0
    → (buf i).dirty ≡ false
    → (b : ℕ) × (find_unused order buf ≡ some b)
unfolding find_unused
find_unused_total [] buf i lt r d = absurd (omega arith)
find_unused_total (c ∷ order) buf i lt r d = elim (ℕ_discrete c i) [
  | yes e ↦ last (find_unused order buf) (rw e (rw (r, d) refl))
  | no ne ↦ let f = find_unused_total order buf i (ground arith) r d in (f.0, rw f.1 refl)
]
  where
    last :
        (o : Option ℕ)
        → ((buf c).refcnt == 0) && not (buf c).dirty ≡ true
        → (b : ℕ) × (or_this o (if ((buf c).refcnt == 0) && not (buf c).dirty then some c else none)
            ≡ some b)
    last none e = (c, rw e refl)
    last (some x) e = (x, refl)

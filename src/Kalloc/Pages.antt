-- ===== src/Kalloc/Pages.antt =====
-- No page is lost, given out twice, or freed into the list twice.
use os_lab2_team.Prelude.{
  ℕ, ◌+◌, ◌≤◌, ◌<◌, ◌≡◌, refl, ap, ◌≢◌, ◌⊎◌, inl, inr, true, false, none, some, List, [], ◌∷◌,
  arith, ◌==◌, if◌then◌else◌, times, without, times-without,
}
use mathlib.Core.Path.{subst}
use os_lab2_team.Kalloc.{Kmem, is_page, kfree, kalloc}

-- The pages xs are linked from p on.
pub data Chain (next : ℕ → ℕ) : ℕ → List ℕ → Type 0 where
  ends : Chain next 0 []
  links : {p : ℕ} {xs : List ℕ} → p ≢ 0 → Chain next (next p) xs → Chain next p (p ∷ xs)

-- The allocator and the pages that it has given out.
pub record Held : Type 0 where
  pub kmem : Kmem
  pub out : List ℕ

-- kalloc when it has a page, and kfree of a page that was given out.
pub data Step (h : Held) : Held → Type 0 where
  take :
      h.kmem.freelist ≢ 0
      → Step h (record { kmem = (kalloc h.kmem).1; out = (kalloc h.kmem).0 ∷ h.out })
  give :
      (v : ℕ) (t : Kmem)
      → 0 < times v h.out
      → kfree h.kmem v ≡ some t
      → Step h (record { kmem = t; out = without v h.out })

pub data Reach (h : Held) : Held → Type 0 where
  here : Reach h h
  later : {h1 h2 : Held} → Reach h h1 → Step h1 h2 → Reach h h2

-- The free list and the pages given out are the pages `all`, each once.
pub record Pages (all : ℕ → ℕ) (h : Held) : Type 0 where
  pub free : List ℕ
  pub chain : Chain h.kmem.next h.kmem.freelist free
  pub sum : (v : ℕ) → times v free + times v h.out ≡ all v
  pub once : (v : ℕ) → all v ≤ 1
  pub valid : (v : ℕ) → 0 < all v → (is_page h.kmem v ≡ true) × (v ≢ 0)

-- A write to the first word of a page that is not in the chain.
Chain-write :
    (next : ℕ → ℕ) (v w p : ℕ) (xs : List ℕ)
    → times v xs ≡ 0
    → Chain next p xs
    → Chain (λ q. if q == v then w else next q) p xs
Chain-write next v w _ _ z ends = ends
Chain-write next v w p _ z (links {xs = xs} ne c) = links ne (
    subst (λ q. Chain (λ q. if q == v then w else next q) q xs) (ground arith)
      (Chain-write next v w _ xs (ground arith) c))

first_page :
    {next : ℕ → ℕ} {p : ℕ} {xs : List ℕ}
    → p ≢ 0
    → Chain next p xs
    → (ys : List ℕ) × (xs ≡ p ∷ ys) × Chain next (next p) ys
first_page ne ends = absurd (ne refl)
first_page ne (links {xs = xs} nz c) = (xs, refl, c)

freed :
    (s t : Kmem) (v : ℕ)
    → kfree s v ≡ some t
    → (is_page s v ≡ true)
      × (record s { next = λ p. if p == v then s.freelist else s.next p; freelist = v } ≡ t)
unfolding kfree
freed s t v e = (ground arith, ground arith)

take-Pages :
    (all : ℕ → ℕ) (h : Held)
    → h.kmem.freelist ≢ 0
    → Pages all h
    → Pages all (record { kmem = (kalloc h.kmem).1; out = (kalloc h.kmem).0 ∷ h.out })
unfolding kalloc
take-Pages all h ne p = rw (full h.kmem.freelist ne) (go (first_page ne p.chain))
  where
    full : (f : ℕ) → f ≢ 0 → (f == 0) ≡ false
    full f ne = ground arith

    go :
        (ys : List ℕ) × (p.free ≡ h.kmem.freelist ∷ ys)
          × Chain h.kmem.next (h.kmem.next h.kmem.freelist) ys
        → Pages all (record {
          kmem = record h.kmem { freelist = h.kmem.next h.kmem.freelist };
          out = h.kmem.freelist ∷ h.out;
        })
    go (ys, e, c) = record {
      free = ys;
      chain = c;
      sum = λ v. ground (arith, p.sum v, ap (times v) e);
      once = p.once;
      valid = p.valid;
    }

give-Pages :
    (all : ℕ → ℕ) (h : Held) (v : ℕ) (t : Kmem)
    → 0 < times v h.out
    → kfree h.kmem v ≡ some t
    → Pages all h
    → Pages all (record { kmem = t; out = without v h.out })
unfolding kfree
give-Pages all h v t lt e p =
    subst (λ t. Pages all (record { kmem = t; out = without v h.out })) (freed h.kmem t v e).1
      (record {
        free = v ∷ p.free;
        chain = links (p.valid v some_v).1 (ground (arith, kept));
        sum = λ w. omega (arith, p.sum w, times-without v w h.out lt, one w);
        once = p.once;
        valid = p.valid;
      })
  where
    some_v : 0 < all v
    some_v = omega (arith, p.sum v)

    kept : Chain (λ q. if q == v then h.kmem.freelist else h.kmem.next q) h.kmem.freelist p.free
    kept =
        Chain-write h.kmem.next v h.kmem.freelist h.kmem.freelist p.free
          (omega (arith, p.sum v, p.once v)) p.chain

    one : (w : ℕ) → times w (v ∷ p.free) ≡ (if v == w then 1 else 0) + times w p.free
    one w = ground arith

-- From a free list of distinct pages, whatever pages are taken and given back in whatever order: the
-- pages on the free list and the pages given out are together those of the start, each exactly once,
-- and the list stays linked through them.
pub Pages-Reach : (all : ℕ → ℕ) (h g : Held) → Pages all h → Reach h g → Pages all g
Pages-Reach all h g p here = p
Pages-Reach all h g p (later r (take ne)) = take-Pages all _ ne (Pages-Reach all h _ p r)
Pages-Reach all h g p (later r (give v t lt e)) =
    give-Pages all _ v t lt e (Pages-Reach all h _ p r)

Chain-cases :
    {next : ℕ → ℕ} {p : ℕ} {xs : List ℕ}
    → Chain next p xs
    → ((p ≡ 0) × (xs ≡ [])) ⊎ ((p ≢ 0) × (0 < times p xs))
Chain-cases ends = inl (refl, refl)
Chain-cases (links ne c) = inr (ne, ground arith)

kfree_some : (s : Kmem) (v : ℕ) → is_page s v ≡ true → kfree s v ≢ none
unfolding kfree
kfree_some s v e = ground arith

kalloc_head : (s : Kmem) → (kalloc s).0 ≡ s.freelist
unfolding kalloc
kalloc_head s = ground arith

-- From a free list of distinct pages, whatever pages are taken and given back in whatever order:
-- kalloc returns no page that is given out, and 0 only if all pages are given out; and kfree of a
-- page that is given out does not panic.
kalloc_lem :
    (all : ℕ → ℕ) (h g : Held)
    → Pages all h
    → Reach h g
    → (times (kalloc g.kmem).0 g.out ≡ 0)
      × ((kalloc g.kmem).0 ≡ 0 → (v : ℕ) → times v g.out ≡ all v)
      × ((v : ℕ) → 0 < times v g.out → kfree g.kmem v ≢ none)
kalloc_lem all h g p r =
    let q = Pages-Reach all h g p r in
    rw (kalloc_head g.kmem) (
      fresh q (Chain-cases q.chain),
      left q (Chain-cases q.chain),
      λ v lt. kfree_some g.kmem v (q.valid v (omega (arith, q.sum v))).0,
    )
  where
    fresh :
        (q : Pages all g)
        → ((g.kmem.freelist ≡ 0) × (q.free ≡ []))
          ⊎ ((g.kmem.freelist ≢ 0) × (0 < times g.kmem.freelist q.free))
        → times g.kmem.freelist g.out ≡ 0
    fresh q (inl c) = ground (arith, q.sum g.kmem.freelist, q.valid g.kmem.freelist)
    fresh q (inr c) = ground (arith, q.sum g.kmem.freelist, q.once g.kmem.freelist)

    left :
        (q : Pages all g)
        → ((g.kmem.freelist ≡ 0) × (q.free ≡ []))
          ⊎ ((g.kmem.freelist ≢ 0) × (0 < times g.kmem.freelist q.free))
        → g.kmem.freelist ≡ 0
        → (v : ℕ) → times v g.out ≡ all v
    left q (inl c) e v = omega (arith, q.sum v, ap (times v) c.1)
    left q (inr c) e v = absurd (c.0 e)

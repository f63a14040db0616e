-- ===== src/Pipe/Ring.antt =====
-- The ring of pipe.c as a queue: pipewrite appends to it, and piperead takes from its front.
use os_lab2_team.Prelude.{
  ℕ, suc, ◌+◌, ◌%◌, ◌^◌, ◌≤◌, ◌<◌, ◌≡◌, ◌≢◌, ◌↔◌, true, List, [], ◌∷◌, ◌++◌, arith, dec_lt, ◌==◌,
  ==_iff, get_or, length, length-append, get_or-append_last, get_or-append,
}
use os_lab2_team.Pipe.{pipesize, Pipe, is_full, put}

-- The pipe holds the bytes q, oldest first.
pub record Holds (p : Pipe) (q : List ℕ) : Type 0 where
  pub nread : p.nread < 2 ^ 32
  pub nwrite : p.nwrite ≡ (p.nread + length q) % 2 ^ 32
  pub fits : length q ≤ pipesize
  pub bytes : (i : ℕ) → i < length q → p.data_of ((p.nread + i) % pipesize) ≡ get_or q i 0

ring_full :
    (r l : ℕ) → r < 2 ^ 32 → l ≤ 512 → (((r + l) % 2 ^ 32 == (r + 512) % 2 ^ 32) ≡ true) ↔ (l ≡ 512)
ring_full r l lt le = (
  λ e. omega (arith, (==_iff ((r + l) % 2 ^ 32) ((r + 512) % 2 ^ 32)).0 e),
  λ e. (==_iff ((r + l) % 2 ^ 32) ((r + 512) % 2 ^ 32)).1 (omega arith),
)

ring_empty : (r l : ℕ) → r < 2 ^ 32 → l ≤ 512 → ((r == (r + l) % 2 ^ 32) ≡ true) ↔ (l ≡ 0)
ring_empty r l lt le = (
  λ e. omega (arith, (==_iff r ((r + l) % 2 ^ 32)).0 e),
  λ e. (==_iff r ((r + l) % 2 ^ 32)).1 (omega arith),
)

-- The counters wrap at a multiple of PIPESIZE, so the ring does not notice.
slot_same : (x : ℕ) → (x % 2 ^ 32) % 512 ≡ x % 512
slot_same x = omega arith

slot_other : (r i l : ℕ) → i < l → l < 512 → (r + i) % 512 ≢ (r + l) % 512
slot_other r i l lt le e = omega arith

slot_next : (r i : ℕ) → ((r + 1) % 2 ^ 32 + i) % 512 ≡ (r + suc i) % 512
slot_next r i = omega arith

pub full_iff : (p : Pipe) (q : List ℕ) → Holds p q → (is_full p ≡ true) ↔ (length q ≡ pipesize)
full_iff p q h = rw h.nwrite (ring_full p.nread (length q) h.nread h.fits)

pub empty_iff :
    (p : Pipe) (q : List ℕ) → Holds p q → ((p.nread == p.nwrite) ≡ true) ↔ (length q ≡ 0)
empty_iff p q h = rw h.nwrite (ring_empty p.nread (length q) h.nread h.fits)

pub Holds-put :
    (p : Pipe) (q : List ℕ) (x : ℕ)
    → Holds p q
    → length q < pipesize
    → Holds (put p x) (q ++ (x ∷ []))
Holds-put p q x h lt = record {
  nread = h.nread;
  nwrite = omega (arith, h.nwrite, length-append q (x ∷ []));
  fits = omega (arith, length-append q (x ∷ []));
  bytes = λ i it. elim (dec_lt i (length q)) [
    | yes lti ↦ ground (
      arith,
      h.bytes i lti,
      get_or-append q (x ∷ []) i 0 lti,
      h.nwrite,
      slot_same (p.nread + length q),
      slot_other p.nread i (length q) lti lt,
    )
    | no ge ↦ last i (omega (arith, length-append q (x ∷ [])))
  ];
}
  where
    last :
        (i : ℕ)
        → i ≡ length q
        → (put p x).data_of ((p.nread + i) % pipesize) ≡ get_or (q ++ (x ∷ [])) i 0
    last i e =
        rw e (ground (arith, get_or-append_last q x 0, h.nwrite, slot_same (p.nread + length q)))

-- The byte at nread is the oldest one, and nread + 1 leaves the others.
pub Holds-take :
    (p : Pipe) (x : ℕ) (q : List ℕ)
    → Holds p (x ∷ q)
    → (p.data_of (p.nread % pipesize) ≡ x) × Holds (record p { nread = (p.nread + 1) % 2 ^ 32 }) q
Holds-take p x q h = (
  ground (arith, h.bytes 0 (omega arith)),
  record {
    nread = omega arith;
    nwrite = omega (arith, h.nwrite);
    fits = omega (arith, h.fits);
    bytes = λ i it. rw (slot_next p.nread i) (h.bytes (suc i) (omega arith));
  },
)

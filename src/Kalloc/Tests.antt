-- ===== src/Kalloc/Tests.antt =====
-- kalloc.c with a kernel that ends at 0x80100000 and three pages.
use os_lab2_team.Prelude.{
  ℕ, ◌<◌, ◌≡◌, refl, ◌≢◌, Option, none, some, [], ◌∷◌, arith, ℕ_discrete, ◌==◌, if◌then◌else◌,
  times,
}
use os_lab2_team.Kalloc.{Kmem, kfree, kalloc, freerange, free_from}
use os_lab2_team.Kalloc.Pages.{ends, links, Held, take, Reach, here, later, Pages, Pages-Reach}

abbrev fresh : Kmem
fresh = record { freelist = 0; next = λ p. 0; kernel_end = 2148532224 }

-- The page at 0x80101000 comes last, so kalloc gives it first.
abbrev two_pages : Kmem
two_pages = record {
  freelist = 2148536320;
  next = λ p. if p == 2148536320 then 2148532224 else 0;
  kernel_end = 2148532224;
}

abbrev head_of : Option Kmem → ℕ
head_of none = 0
head_of (some s) = s.freelist

freed_two : head_of (freerange 2148532000 2148540500 fresh) ≡ 2148536320
unfolding freerange free_from kfree
freed_two = refl

abbrev held : Held
held = record { kmem = two_pages; out = [] }

abbrev both : ℕ → ℕ
both v = times v (2148536320 ∷ 2148532224 ∷ [])

held-Pages : Pages both held
held-Pages = record {
  free = 2148536320 ∷ 2148532224 ∷ [];
  chain = links (omega arith) (links (omega arith) ends);
  sum = λ v. omega arith;
  once = λ v. ground arith;
  valid = λ v lt. elim (ℕ_discrete v 2148536320) [
    | yes e ↦ rw e (refl, omega arith)
    | no ne ↦ rw (second v ne lt) (refl, omega arith)
  ];
}
  where
    second : (v : ℕ) → v ≢ 2148536320 → 0 < both v → v ≡ 2148532224
    second v ne lt = ground arith

abbrev one_taken : Held
one_taken = record { kmem = (kalloc two_pages).1; out = (kalloc two_pages).0 ∷ [] }

one_taken-Reach : Reach held one_taken
one_taken-Reach = later here (take (omega arith))

Pages-Reach_example : Pages both one_taken
Pages-Reach_example = Pages-Reach both held one_taken held-Pages one_taken-Reach

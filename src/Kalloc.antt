-- ===== src/Kalloc.antt =====
-- kalloc.c: the free pages, linked through their first words.
pub mod Pages
mod Tests
use os_lab2_team.Prelude.{
  ℕ, zero, suc, ◌+◌, ◌-◌, ◌*◌, ◌/◌, ◌%◌, ◌^◌, ◌≤◌, ◌<◌, ◌≡◌, refl, sym, ap, ◌∙◌, ◌≢◌, ◌↔◌, ◌⊎◌, inl,
  inr, ℤ, pos, negsuc, sub_ℕ, Bool, true, false, not, ◌&&◌, ◌||◌, Option, none, some, List, [], ◌∷◌,
  ◌++◌, map, arith, dec_lt, ℕ_discrete, leb, ltb, lt→ltb, ◌==◌, if◌then◌else◌, ==_iff, Bool-cases,
  Option-cases, get_or, replicate, length, set,
}

abbrev pgsize : ℕ
pgsize = 4096

abbrev kernbase : ℕ
kernbase = 2147483648

abbrev phystop : ℕ
phystop = 234881024

-- `kmem`, where the address 0 is null and `next v` is `((struct run*)v)->next`.
-- `kernel_end` is the linker's symbol `end`.
pub record Kmem : Type 0 where
  pub freelist : ℕ
  pub next : ℕ → ℕ
  pub kernel_end : ℕ

-- The check of kfree, with V2P in 32 bits.
abbrev pub is_page : Kmem → ℕ → Bool
is_page s v =
    (v % pgsize == 0) && leb s.kernel_end v && ltb ((v + 2 ^ 32 - kernbase) % 2 ^ 32) phystop

-- `none` is the panic.
unfoldable pub kfree : Kmem → ℕ → Option Kmem
kfree s v =
    if is_page s v
    then some (record s { next = λ p. if p == v then s.freelist else s.next p; freelist = v })
    else none

-- The page, or 0.
unfoldable pub kalloc : Kmem → ℕ × Kmem
kalloc s =
    if s.freelist == 0 then (0, s) else (s.freelist, record s { freelist = s.next s.freelist })

-- The loop of freerange: `fuel` bounds its rounds, and `p`.
unfoldable pub free_from : ℕ → ℕ → ℕ → Kmem → Option Kmem
free_from zero p vend s = some s
free_from (suc fuel) p vend s =
    if leb (p + pgsize) vend
    then elim (kfree s p) [ none ↦ none | some t ↦ free_from fuel (p + pgsize) vend t ]
    else some s

-- Also the body of kinit1 and kinit2.
unfoldable pub freerange : ℕ → ℕ → Kmem → Option Kmem
freerange vstart vend s = free_from (vend / pgsize) ((vstart + pgsize - 1) / pgsize * pgsize) vend s

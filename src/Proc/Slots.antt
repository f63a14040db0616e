-- ===== src/Proc/Slots.antt =====
-- What allocproc and fork leave in the table.
use os_lab2_team.Prelude.{
  ℕ, ◌+◌, ◌%◌, ◌^◌, ◌<◌, ◌≡◌, refl, sym, ap, ◌∙◌, ◌≢◌, ◌⊎◌, inl, inr, Option, none, some, arith,
  Option-cases, replicate,
}
use os_lab2_team.Proc.Table.{runnable, unused, embryo, nproc, find}
use os_lab2_team.Proc.Kernel.{Services, Kernel}
use os_lab2_team.Proc.Life.{
  fork, fork_end, fork_from, copy_into, allocproc, alloc_found, alloc_stack, fork_copy, is_unused,
}
use os_lab2_team.Proc.Scan.{find-some, find-none}

module _ {M F : Type 0} (S : Services M F) where
  -- What allocproc may return.
  abbrev Allocated : Kernel M F → Option ℕ × Kernel M F → Type 0
  -- No slot is free, or there is no page for a stack; in the latter case the slot is free again.
  Allocated k (none, k') =
      ((j : ℕ)
        → j < nproc
        → ((k'.procs j).state ≡ (k.procs j).state)
          × ((k.procs j).state ≢ unused → k'.procs j ≡ k.procs j))
      × (((j : ℕ) → j < nproc → (k.procs j).state ≢ unused) ⊎ ((S.kalloc k.mem).0 ≡ none))
  -- The first free slot is an embryo with the next pid and no system call counted; no other changes.
  Allocated k (some i, k') =
      (i < nproc)
      × ((k.procs i).state ≡ unused)
      × ((j : ℕ) → j < i → (k.procs j).state ≢ unused)
      × ((k'.procs i).state ≡ embryo)
      × ((k'.procs i).pid ≡ k.nextpid)
      × ((k'.procs i).counter ≡ replicate 100 0)
      × (some ((k'.procs i).kstack) ≡ (S.kalloc k.mem).0)
      × (k'.nextpid ≡ (k.nextpid + 1) % 2 ^ 32)
      × ((j : ℕ) → j ≢ i → k'.procs j ≡ k.procs j)
      × (k'.mem ≡ (S.kalloc k.mem).1)

  Allocated-stack :
      (k : Kernel M F) (i : ℕ) (page : Option ℕ × M)
      → S.kalloc k.mem ≡ page
      → i < nproc
      → (k.procs i).state ≡ unused
      → ((j : ℕ) → j < i → (k.procs j).state ≢ unused)
      → Allocated k (alloc_stack S k i page)
  unfolding alloc_stack
  Allocated-stack k i (none, m) e li free first =
      (λ j lj. (ground arith, λ ne. ground arith), inr (ap (λ p. p.0) e))
  Allocated-stack k i (some a, m) e li free first = (
    li,
    free,
    first,
    ground arith,
    ground arith,
    ground arith,
    ground arith ∙ sym (ap (λ p. p.0) e),
    refl,
    λ j ne. ground arith,
    sym (ap (λ p. p.1) e),
  )

  -- allocproc takes the first UNUSED slot, and gives it the next pid, a cleared row of counters and a
  -- page for its stack; it fails only if no slot or no page is free, and then leaves every process in use as it was.
  allocproc_lem : (k : Kernel M F) → Allocated k (allocproc S k)
  unfolding allocproc alloc_found
  allocproc_lem k = elim (Option-cases (find is_unused k.procs)) [
    | inl e ↦
        rw (e, allocproc)
          (
            λ j lj. (refl, λ ne. refl),
            inl (λ j lj. let h = find-none is_unused k.procs e j lj in ground arith),
          )
    | inr (i, e) ↦
        let h = find-some is_unused k.procs e in
        rw (e, allocproc)
          (Allocated-stack k i (S.kalloc k.mem) refl h.0 (let t = h.1 in ground arith)
            (λ j lt. let t = h.2 j lt in ground arith))
  ]

  -- The child's directory, when the stack leaves the memory m.
  abbrev copied_space : ℕ → Kernel M F → Option ℕ × M
  copied_space cur k = S.copyuvm (k.procs cur).pgdir (k.procs cur).sz (S.kalloc k.mem).1

  -- What fork by process `cur` may return: no slot is free or a page is wanting, or there is a child.
  abbrev pub Forked : ℕ → Kernel M F → Option ℕ × Kernel M F → Type 0
  Forked cur k (none, k') =
      (((j : ℕ) → j < nproc → (k.procs j).state ≢ unused)
        ⊎ ((S.kalloc k.mem).0 ≡ none)
        ⊎ ((copied_space cur k).0 ≡ none))
      × ((j : ℕ)
          → j < nproc
          → ((k'.procs j).state ≡ (k.procs j).state)
            × ((k.procs j).state ≢ unused → k'.procs j ≡ k.procs j))
  Forked cur k (some pid, k') =
      (i : ℕ) × (i < nproc)
      × ((k.procs i).state ≡ unused)
      × ((k'.procs i).state ≡ runnable)
      × ((k'.procs i).pid ≡ pid)
      × (pid ≡ k.nextpid)
      × ((k'.procs i).parent ≡ some cur)
      × ((k'.procs i).sz ≡ (k.procs cur).sz)
      × ((k'.procs i).tf ≡ record ((k.procs cur).tf) { eax = 0 })
      × ((k'.procs i).cwd ≡ (k.procs cur).cwd)
      × ((k'.procs i).counter ≡ replicate 100 0)
      × (some ((k'.procs i).kstack) ≡ (S.kalloc k.mem).0)
      × (some ((k'.procs i).pgdir) ≡ (copied_space cur k).0)
      × (k'.mem ≡ (copied_space cur k).1)
      × ((j : ℕ) → j ≢ i → k'.procs j ≡ k.procs j)

  Forked-copy :
      (cur i : ℕ) (k k1 : Kernel M F) (page : Option ℕ × M)
      → (k.procs cur).state ≢ unused
      → copied_space cur k ≡ page
      → Allocated k (some i, k1)
      → Forked cur k (fork_end S i (copy_into S cur i k1 page))
  unfolding fork_end copy_into
  Forked-copy cur i k k1 (none, m) live e
        (li, free, first, st, pid, count, stack, next, same, mem) =
      (
        inr (inr (ap (λ p. p.0) e)),
        λ j lj. (ground (arith, same j), λ used. ground (arith, same j)),
      )
  Forked-copy cur i k k1 (some d, m) live e
        (li, free, first, st, pid, count, stack, next, same, mem) =
      let other : cur ≢ i = λ e. live (ap (λ j. (k.procs j).state) e ∙ free) in
      let at : k1.procs cur ≡ k.procs cur = same cur other in
      (
        i,
        li,
        free,
        ground arith,
        ground arith,
        ground arith,
        ground arith,
        ground arith,
        ground arith,
        ground arith,
        ground arith,
        ground arith ∙ stack,
        ground arith ∙ sym (ap (λ p. p.0) e),
        sym (ap (λ p. p.1) e),
        λ j ne. ground (arith, same j ne),
      )

  Forked-from :
      (cur : ℕ) (k : Kernel M F) (r : Option ℕ × Kernel M F)
      → (k.procs cur).state ≢ unused
      → Allocated k r
      → Forked cur k (fork_from S cur r)
  unfolding fork_from
  Forked-from cur k (none, k1) live a = (elim a.1 [ inl x ↦ inl x | inr y ↦ inr (inl y) ], a.0)
  Forked-from cur k (some i, k1) live a =
      unfold fork_copy in
      (Forked-copy cur i k k1 (S.copyuvm (k1.procs cur).pgdir (k1.procs cur).sz k1.mem) live copied
        a)
    where
      other : cur ≢ i
      other e = live (ap (λ j. (k.procs j).state) e ∙ a.1)

      copied : copied_space cur k ≡ S.copyuvm (k1.procs cur).pgdir (k1.procs cur).sz k1.mem
      copied = rw (a.8 cur other, a.9) refl

  -- fork by a process in use makes one free slot a RUNNABLE child of it, and returns that child's new
  -- pid; the child has the page that kalloc gave for its stack, the copy of the address space that
  -- copyuvm gave, its parent's size, directory and frame, but with 0 in %eax, and no system call counted,
  -- and no other slot changes. fork fails only if no slot is free, or kalloc or copyuvm fails, and then
  -- leaves every process in use as it was.
  pub fork_lem :
      (cur : ℕ) (k : Kernel M F) → (k.procs cur).state ≢ unused → Forked cur k (fork S cur k)
  unfolding fork
  fork_lem cur k live = Forked-from cur k (allocproc S k) live (allocproc_lem k)

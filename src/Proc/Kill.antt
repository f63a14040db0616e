-- ===== src/Proc/Kill.antt =====
-- What kill does: to a live process, for an unknown pid, and for pid 0.
use os_lab2_team.Prelude.{
  ℕ, ◌<◌, ◌≡◌, refl, sym, ◌∙◌, ◌≢◌, inl, inr, true, false, some, arith, if◌then◌else◌, Option-cases,
}
use os_lab2_team.Proc.Table.{runnable, same_state, unused, embryo, Table, nproc, find, sleeping}
use os_lab2_team.Proc.Kernel.{Services, Kernel}
use os_lab2_team.Proc.Life.{allocproc, is_unused}
use os_lab2_team.Proc.Signal.{kill, has_pid, mark_killed}
use os_lab2_team.Proc.Scan.{find-some, find-none, find-congr}
use os_lab2_team.Proc.Table.{update}
use os_lab2_team.Proc.Inv.{Pids}

module _ {M F : Type 0} where
  -- Under the invariant on pids, kill of the pid of a live process succeeds, marks that process
  -- killed, takes it out of its sleep, and changes no other process.
  kill_lem :
      (i : ℕ) (k : Kernel M F)
      → Pids k
      → i < nproc
      → (k.procs i).state ≢ unused
      → let (done, k') = kill (k.procs i).pid k in
        (done ≡ true)
        × ((k'.procs i).killed ≡ true)
        × ((k'.procs i).state
            ≡ (if same_state (k.procs i).state sleeping then runnable else (k.procs i).state))
        × ((j : ℕ) → j ≢ i → k'.procs j ≡ k.procs j)
  unfolding kill
  kill_lem i k v li live = elim (Option-cases (find (has_pid (k.procs i).pid) k.procs)) [
    | inl e ↦ let h = find-none (has_pid (k.procs i).pid) k.procs e i li in ground arith
    | inr (r, e) ↦
        let h = find-some (has_pid (k.procs i).pid) k.procs e in
        let pid : (k.procs r).pid ≡ (k.procs i).pid = let t = h.1 in ground arith in
        let nonzero : (k.procs r).pid ≢ 0 = λ z. v.live i li live (sym pid ∙ z) in
        let same : r ≡ i = v.distinct r i h.0 li pid nonzero in
        (ground arith, ground arith, ground arith, λ j ne. ground arith)
  ]

  -- kill fails exactly when no slot of the table has the pid, and then changes nothing.
  kill_unknown :
      (pid : ℕ) (k : Kernel M F)
      → ((kill pid k).0 ≡ false
          → (kill pid k ≡ (false, k)) × ((i : ℕ) → i < nproc → (k.procs i).pid ≢ pid))
        × (((i : ℕ) → i < nproc → (k.procs i).pid ≢ pid) → (kill pid k).0 ≡ false)
  unfolding kill
  kill_unknown pid k = (
    λ f. elim (Option-cases (find (has_pid pid) k.procs)) [
      | inl e ↦
          (ground arith, λ i li. let h = find-none (has_pid pid) k.procs e i li in ground arith)
      | inr (r, e) ↦ absurd (ground arith)
    ],
    λ all. elim (Option-cases (find (has_pid pid) k.procs)) [
      | inl e ↦ ground arith
      | inr (r, e) ↦
          let h = find-some (has_pid pid) k.procs e in
          absurd (all r h.0 (let t = h.1 in ground arith))
    ],
  )

module _ {M F : Type 0} (S : Services M F) where
  marked : Kernel M F → ℕ → Table
  marked k i = update k.procs i (mark_killed (k.procs i))

  marked-unused :
      (k : Kernel M F) (i : ℕ)
      → (k.procs i).state ≡ unused
      → find is_unused (marked k i) ≡ find is_unused k.procs
  unfolding marked
  marked-unused k i free = find-congr is_unused (marked k i) k.procs (λ j. ground arith)

  kill_found :
      (pid i : ℕ) (k : Kernel M F)
      → find (has_pid pid) k.procs ≡ some i
      → kill pid k ≡ (true, record k { procs = marked k i })
  unfolding kill marked
  kill_found pid i k e = ground arith

  alloc_first :
      (i a : ℕ) (k : Kernel M F)
      → find is_unused k.procs ≡ some i
      → (S.kalloc k.mem).0 ≡ some a
      → let (r, k') = allocproc S k in
        (r ≡ some i) × ((k'.procs i).killed ≡ (k.procs i).killed) × ((k'.procs i).state ≡ embryo)
  unfolding allocproc
  alloc_first i a k first page = (ground arith, ground arith, ground arith)

  -- kill(0) finds a free slot with pid 0, reports success and marks it killed; and if that slot is the
  -- first UNUSED one and there is memory for a stack, the next process is created in it, killed from
  -- the start.
  pub kill_zero :
      (i a : ℕ) (k : Kernel M F)
      → find (has_pid 0) k.procs ≡ some i
      → (k.procs i).state ≡ unused
      → find is_unused k.procs ≡ some i
      → (S.kalloc k.mem).0 ≡ some a
      → let (done, k1) = kill 0 k in
        let (r, k2) = allocproc S k1 in
        (done ≡ true) × (r ≡ some i) × ((k2.procs i).killed ≡ true) × ((k2.procs i).state ≡ embryo)
  unfolding marked
  kill_zero i a k e free first page = rw (kill_found 0 i k e) (
      let h =
        alloc_first i a (record k { procs = marked k i }) (marked-unused k i free ∙ first) page in
      (refl, h.0, h.1 ∙ ground arith, h.2))

-- ===== src/Proc/Inv.antt =====
-- Process ids: every live process has its own, through all that the kernel does.
use os_lab2_team.Prelude.{
  ℕ, zero, suc, ◌+◌, ◌^◌, ◌<◌, ◌≡◌, refl, ◌≢◌, ◌⊎◌, inl, inr, ℤ, pos, negsuc, Bool, true, false,
  not, ◌||◌, some, arith, ℕ_discrete, Option-cases,
}
use os_lab2_team.Proc.Table.{unused, embryo, Chan, nproc, find, Found, exited, absent, scan}
use os_lab2_team.Proc.Kernel.{Services, Kernel}
use os_lab2_team.Proc.Life.{
  allocproc, alloc_found, fork_copy, publish, growproc, exit_files, exit_table, is_unused,
}
use os_lab2_team.Proc.Wait.{wait, sleep_on, finish, give_up_or_sleep, is_child}
use os_lab2_team.Proc.Signal.{wakeup, kill, sleep_return, yield_cpu, schedule, deschedule, has_pid}
use os_lab2_team.Proc.Lab.{wait_for_process}
use os_lab2_team.Proc.Machine.{
  Step, alloc, copy, ready, grow, close, leave, await, await_pid, rest, tidy, give_up, signal, slay,
  choose, Reach, start, later, settle,
}
use os_lab2_team.Proc.Scan.{find-some}
use os_lab2_team.Proc.Running.{Running, Running-Reach}
use os_lab2_team.Proc.Adopt.{Kept-wakeup1}
use os_lab2_team.Proc.Exit.{exit_table-Exited}

pub record Pids {M F : Type 0} (k : Kernel M F) : Type 0 where
  pub positive : 0 < k.nextpid
  pub fresh : (i : ℕ) → i < nproc → (k.procs i).pid < k.nextpid
  pub distinct :
      (i j : ℕ)
      → i < nproc
      → j < nproc
      → (k.procs i).pid ≡ (k.procs j).pid
      → (k.procs i).pid ≢ 0
      → i ≡ j
  pub live : (i : ℕ) → i < nproc → (k.procs i).state ≢ unused → (k.procs i).pid ≢ 0

-- A step that keeps every pid, or sets a slot free with pid 0, keeps the invariant.
Pids-frame :
    {M F : Type 0} (k k' : Kernel M F)
    → k'.nextpid ≡ k.nextpid
    → ((i : ℕ)
        → i < nproc
        → ((k'.procs i).pid ≡ (k.procs i).pid)
            × ((k'.procs i).state ≢ unused → (k.procs i).state ≢ unused)
          ⊎ ((k'.procs i).pid ≡ 0) × ((k'.procs i).state ≡ unused))
    → Pids k
    → Pids k'
Pids-frame k k' next same v = record {
  positive = ground (arith, v.positive);
  fresh = λ i lt. ground (arith, same i lt, v.fresh i lt);
  distinct = λ i j li lj e ne. ground (arith, same i li, same j lj, v.distinct i j li lj);
  live = λ i lt s. ground (arith, same i lt, v.live i lt);
}

-- The like for a step that leaves the counter and every pid alone.
Pids-same :
    {M F : Type 0} (k k' : Kernel M F)
    → k'.nextpid ≡ k.nextpid
    → ((i : ℕ)
        → i < nproc
        → ((k'.procs i).pid ≡ (k.procs i).pid)
          × ((k'.procs i).state ≢ unused → (k.procs i).state ≢ unused))
    → Pids k
    → Pids k'
Pids-same k k' next same = Pids-frame k k' next (λ i lt. inl (same i lt))

live :
    {M F : Type 0} (c cur : ℕ) (k : Kernel M F)
    → Running k
    → k.cpu c ≡ some cur
    → (k.procs cur).state ≢ unused
live c cur k r on = let h = r.valid c cur on in ground arith

module _ {M F : Type 0} (S : Services M F) where
  Pids-alloc_found :
      (k : Kernel M F) (i : ℕ)
      → i < nproc
      → k.nextpid + 1 < 2 ^ 31
      → Pids k
      → Pids (alloc_found S k i).1
  unfolding alloc_found
  Pids-alloc_found k i lt small v = record {
    positive = ground arith;
    fresh = λ j lj. ground (arith, v.positive, v.fresh j lj);
    distinct =
        λ a b la lb. ground (arith, v.positive, v.fresh a la, v.fresh b lb, v.distinct a b la lb);
    live = λ j lj. ground (arith, v.positive, v.live j lj);
  }

  Pids-allocproc : (k : Kernel M F) → k.nextpid + 1 < 2 ^ 31 → Pids k → Pids (allocproc S k).1
  unfolding allocproc
  Pids-allocproc k small v = elim (Option-cases (find is_unused k.procs)) [
    | inl e ↦ rw (e, allocproc) v
    | inr (i, e) ↦
        rw (e, allocproc) (Pids-alloc_found k i (find-some is_unused k.procs e).0 small v)
  ]

  Pids-give_up_or_sleep :
      (b : Bool) (c cur : ℕ) (k : Kernel M F)
      → (k.procs cur).state ≢ unused
      → Pids k
      → Pids (settle c (give_up_or_sleep S b cur k))
  unfolding settle give_up_or_sleep
  Pids-give_up_or_sleep true c cur k live v = v
  Pids-give_up_or_sleep false c cur k live v = Pids-same k _ refl (λ i li. ground arith) v

  Pids-finish :
      (f : Found) (c cur : ℕ) (k : Kernel M F)
      → (k.procs cur).state ≢ unused
      → Pids k
      → Pids (settle c (finish S f cur k))
  unfolding settle finish
  Pids-finish (exited i) c cur k live v = Pids-frame k _ refl (λ j lj. ground arith) v
  Pids-finish (absent seen) c cur k live v =
      Pids-give_up_or_sleep (not seen || (k.procs cur).killed) c cur k live v

  Pids-fork_copy :
      (cur np : ℕ) (k : Kernel M F)
      → (k.procs np).state ≡ embryo
      → Pids k
      → Pids (fork_copy S cur np k).1
  unfolding fork_copy
  Pids-fork_copy cur np k e v =
      Pids-same k _ (ground arith) (λ i li. (ground arith, ground arith)) v

  Pids-growproc : (cur : ℕ) (n : ℤ) (k : Kernel M F) → Pids k → Pids (growproc S cur n k).1
  unfolding growproc
  Pids-growproc cur (pos zero) k v = v
  Pids-growproc cur (pos (suc n)) k v =
      Pids-same k _ (ground arith) (λ i li. (ground arith, ground arith)) v
  Pids-growproc cur (negsuc n) k v =
      Pids-same k _ (ground arith) (λ i li. (ground arith, ground arith)) v

  Pids-exit_table :
      (c cur : ℕ) (k : Kernel M F)
      → cur < nproc
      → (k.procs cur).state ≢ unused
      → Pids k
      → Pids (deschedule c (record k { procs = exit_table cur k.initproc k.procs }))
  unfolding deschedule
  Pids-exit_table c cur k lt live v = Pids-same k _ refl same v
    where
      same :
          (i : ℕ)
          → i < nproc
          → let q = exit_table cur k.initproc k.procs i in
            (q.pid ≡ (k.procs i).pid) × (q.state ≢ unused → (k.procs i).state ≢ unused)
      same i li =
          let x = exit_table-Exited cur k.initproc k.procs i lt li in
          (
            x.pid,
            λ s. elim (ℕ_discrete i cur) [
              | yes e ↦ ground arith
              | no ne ↦ let kept = x.kept ne in ground arith
            ],
          )

  Pids-kill : (pid : ℕ) (k : Kernel M F) → Pids k → Pids (kill pid k).1
  unfolding kill
  Pids-kill pid k v = Pids-same k _ (ground arith) (λ i li. (ground arith, ground arith)) v

  Pids-wakeup : (chan : Chan) (k : Kernel M F) → Pids k → Pids (wakeup chan k)
  unfolding wakeup
  Pids-wakeup chan k v =
      Pids-same k _ refl (λ i li. let w = Kept-wakeup1 chan k.procs i li in (w.pid, ground arith)) v

  Pids-schedule : (c i : ℕ) (k : Kernel M F) → Pids k → Pids (schedule c i k)
  unfolding schedule
  Pids-schedule c i k v = Pids-same k _ (ground arith) (λ i li. (ground arith, ground arith)) v

  -- Each step keeps the invariant.
  Pids-Step : {lab : Bool} {k k' : Kernel M F} → Running k → Pids k → Step S lab k k' → Pids k'
  unfolding wait wait_for_process exit_files publish sleep_return deschedule yield_cpu sleep_on
  Pids-Step {k = k} r v (alloc c cur on small) = Pids-allocproc k small v
  Pids-Step {k = k} r v (copy c cur np on lt e) = Pids-fork_copy cur np k e v
  Pids-Step {k = k} r v (ready c cur np on lt e) = Pids-same k _ refl (λ i li. ground arith) v
  Pids-Step {k = k} r v (grow c cur n on) = Pids-growproc cur n k v
  Pids-Step {k = k} r v (close c cur on) = Pids-same k _ refl (λ i li. ground arith) v
  Pids-Step {k = k} r v (leave c cur on ne) =
      Pids-exit_table c cur k (r.valid c cur on).0 (live c cur k r on) v
  Pids-Step {k = k} r v (await c cur on) =
      Pids-finish (scan (is_child cur) k.procs) c cur k (live c cur k r on) v
  Pids-Step {k = k} r v (await_pid c cur pid lab on) =
      Pids-finish (scan (has_pid pid) k.procs) c cur k (live c cur k r on) v
  Pids-Step {k = k} r v (rest c cur a on) =
      let l = live c cur k r on in Pids-same k _ refl (λ i li. ground arith) v
  Pids-Step {k = k} r v (tidy c cur on) = Pids-same k _ refl (λ i li. ground arith) v
  Pids-Step {k = k} r v (give_up c cur on) =
      let l = live c cur k r on in Pids-same k _ refl (λ i li. ground arith) v
  Pids-Step {k = k} r v (signal chan) = Pids-wakeup chan k v
  Pids-Step {k = k} r v (slay pid) = Pids-kill pid k v
  Pids-Step {k = k} r v (choose c i idle li) = Pids-schedule c i k v

  -- If at the start every process that is not UNUSED has a pid other than 0, below nextpid, that no
  -- other slot has, and what a CPU runs is a RUNNING process that no other CPU runs, then the former holds
  -- however the critical sections of proc.c interleave, as long as no pid reaches 2 ^ 31.
  pub Pids-Reach :
      {lab : Bool} {k k' : Kernel M F} → Running k → Pids k → Reach S lab k k' → Pids k'
  Pids-Reach r v start = v
  Pids-Reach r v (later steps s) = Pids-Step (Running-Reach S r steps) (Pids-Reach r v steps) s

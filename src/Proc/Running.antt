-- ===== src/Proc/Running.antt =====
-- CPUs and the processes that they run: no process runs on two CPUs.
use os_lab2_team.Prelude.{
  ℕ, zero, suc, ◌<◌, ◌≡◌, refl, sym, ap, ◌∙◌, ◌≢◌, inl, inr, ℤ, pos, negsuc, Bool, true, false, not,
  ◌||◌, none, some, arith, ◌==◌, if◌then◌else◌, Option-cases,
}
use os_lab2_team.Proc.Table.{
  zombie, embryo, running, Chan, nproc, find, Found, exited, absent, scan,
}
use os_lab2_team.Proc.Kernel.{Services, Kernel}
use os_lab2_team.Proc.Life.{
  allocproc, fork_copy, publish, growproc, exit_files, exit_table, is_unused,
}
use os_lab2_team.Proc.Wait.{wait, sleep_on, finish, give_up_or_sleep, is_child}
use os_lab2_team.Proc.Signal.{wakeup, kill, sleep_return, yield_cpu, schedule, deschedule, has_pid}
use os_lab2_team.Proc.Lab.{wait_for_process}
use os_lab2_team.Proc.Machine.{
  Step, alloc, copy, ready, grow, close, leave, await, await_pid, rest, tidy, give_up, signal, slay,
  choose, Reach, start, later, settle,
}
use os_lab2_team.Proc.Scan.{find-some, scan-exited}
use os_lab2_team.Proc.Adopt.{Kept-wakeup1}
use os_lab2_team.Proc.Exit.{exit_table-Exited}

-- What a CPU runs is marked RUNNING, and no other CPU runs it.
pub record Running {M F : Type 0} (k : Kernel M F) : Type 0 where
  pub valid : (c i : ℕ) → k.cpu c ≡ some i → (i < nproc) × ((k.procs i).state ≡ running)
  pub unique : (c d i : ℕ) → k.cpu c ≡ some i → k.cpu d ≡ some i → c ≡ d

module _ {M F : Type 0} where
  -- A step that leaves the CPUs and the running processes alone.
  Running-stay :
      (k k' : Kernel M F)
      → ((c : ℕ) → k'.cpu c ≡ k.cpu c)
      → ((i : ℕ) → i < nproc → (k.procs i).state ≡ running → (k'.procs i).state ≡ running)
      → Running k
      → Running k'
  Running-stay k k' same stay v = record {
    valid = λ c i e. let h = v.valid c i (sym (same c) ∙ e) in (h.0, stay i h.0 h.1);
    unique = λ c d i e f. v.unique c d i (sym (same c) ∙ e) (sym (same d) ∙ f);
  }

  -- A step by which CPU c stops running the process `cur`.
  Running-leave :
      (k k' : Kernel M F) (c cur : ℕ)
      → k.cpu c ≡ some cur
      → ((d : ℕ) → k'.cpu d ≡ (if c == d then none else k.cpu d))
      → ((i : ℕ) → i < nproc → i ≢ cur → (k.procs i).state ≡ running → (k'.procs i).state ≡ running)
      → Running k
      → Running k'
  Running-leave k k' c cur on same stay v = record {
    valid = λ d i e. valid d i e;
    unique = λ d e i p q. v.unique d e i (other d i p).0 (other e i q).0;
  }
    where
      other : (d i : ℕ) → k'.cpu d ≡ some i → (k.cpu d ≡ some i) × (c ≢ d)
      other d i e = ground (arith, same d)

      valid : (d i : ℕ) → k'.cpu d ≡ some i → (i < nproc) × ((k'.procs i).state ≡ running)
      valid d i e =
          let o = other d i e in
          let h = v.valid d i o.0 in
          (h.0, stay i h.0 (λ ic. o.1 (v.unique c d i (on ∙ ap some (sym ic)) o.0)) h.1)

module _ {M F : Type 0} (S : Services M F) where
  Running-give_up_or_sleep :
      (b : Bool) (c cur : ℕ) (k : Kernel M F)
      → k.cpu c ≡ some cur
      → Running k
      → Running (settle c (give_up_or_sleep S b cur k))
  unfolding settle give_up_or_sleep
  Running-give_up_or_sleep true c cur k on v = v
  Running-give_up_or_sleep false c cur k on v =
      Running-leave k _ c cur on (λ d. refl) (λ i li ne r. ground arith) v

  Running-finish :
      (f : Found) (c cur : ℕ) (k : Kernel M F)
      → ((i : ℕ) → f ≡ exited i → (k.procs i).state ≡ zombie)
      → k.cpu c ≡ some cur
      → Running k
      → Running (settle c (finish S f cur k))
  unfolding settle finish
  Running-finish (exited i) c cur k dead on v =
      let z = dead i refl in Running-stay k _ (λ d. refl) (λ j lj r. ground arith) v
  Running-finish (absent seen) c cur k dead on v =
      Running-give_up_or_sleep (not seen || (k.procs cur).killed) c cur k on v

  Running-allocproc : (k : Kernel M F) → Running k → Running (allocproc S k).1
  unfolding allocproc
  Running-allocproc k v = Running-stay k _ (λ d. ground arith) stay v
    where
      stay :
          (i : ℕ)
          → i < nproc
          → (k.procs i).state ≡ running
          → ((allocproc S k).1.procs i).state ≡ running
      stay i li r = elim (Option-cases (find is_unused k.procs)) [
        | inl e ↦ ground arith
        | inr (u, e) ↦ let free = (find-some is_unused k.procs e).1 in ground arith
      ]

  Running-fork_copy :
      (cur np : ℕ) (k : Kernel M F)
      → (k.procs np).state ≡ embryo
      → Running k
      → Running (fork_copy S cur np k).1
  unfolding fork_copy
  Running-fork_copy cur np k e v = Running-stay k _ (λ d. ground arith) (λ i li r. ground arith) v

  Running-growproc : (cur : ℕ) (n : ℤ) (k : Kernel M F) → Running k → Running (growproc S cur n k).1
  unfolding growproc
  Running-growproc cur (pos zero) k v = v
  Running-growproc cur (pos (suc n)) k v =
      Running-stay k _ (λ d. ground arith) (λ i li r. ground arith) v
  Running-growproc cur (negsuc n) k v =
      Running-stay k _ (λ d. ground arith) (λ i li r. ground arith) v

  Running-exit_table :
      (c cur : ℕ) (k : Kernel M F)
      → k.cpu c ≡ some cur
      → Running k
      → Running (deschedule c (record k { procs = exit_table cur k.initproc k.procs }))
  unfolding deschedule
  Running-exit_table c cur k on v = Running-leave k _ c cur on (λ d. refl) stay v
    where
      stay :
          (i : ℕ)
          → i < nproc
          → i ≢ cur
          → (k.procs i).state ≡ running
          → (exit_table cur k.initproc k.procs i).state ≡ running
      stay i li ne r =
          let kept = (exit_table-Exited cur k.initproc k.procs i (v.valid c cur on).0 li).kept ne in
          ground arith

  Running-kill : (pid : ℕ) (k : Kernel M F) → Running k → Running (kill pid k).1
  unfolding kill
  Running-kill pid k v = Running-stay k _ (λ d. ground arith) (λ i li r. ground arith) v

  Running-wakeup : (chan : Chan) (k : Kernel M F) → Running k → Running (wakeup chan k)
  unfolding wakeup
  Running-wakeup chan k v =
      Running-stay k _ (λ d. refl)
        (λ i li r. let w = Kept-wakeup1 chan k.procs i li in ground arith) v

  Running-schedule :
      (c i : ℕ) (k : Kernel M F) → k.cpu c ≡ none → i < nproc → Running k → Running (schedule c i k)
  unfolding schedule
  Running-schedule c i k idle li v = record {
    valid = λ d j e. ground (arith, v.valid d j);
    unique = λ d e j p q. ground (arith, v.valid d j, v.valid e j, v.unique d e j);
  }

  -- Each step keeps the invariant.
  Running-Step : {lab : Bool} {k k' : Kernel M F} → Running k → Step S lab k k' → Running k'
  unfolding wait wait_for_process exit_files publish sleep_return deschedule yield_cpu sleep_on
  Running-Step {k = k} v (alloc c cur on small) = Running-allocproc k v
  Running-Step {k = k} v (copy c cur np on lt e) = Running-fork_copy cur np k e v
  Running-Step {k = k} v (ready c cur np on lt e) =
      Running-stay k _ (λ d. refl) (λ i li r. ground arith) v
  Running-Step {k = k} v (grow c cur n on) = Running-growproc cur n k v
  Running-Step {k = k} v (close c cur on) = Running-stay k _ (λ d. refl) (λ i li r. ground arith) v
  Running-Step {k = k} v (leave c cur on ne) = Running-exit_table c cur k on v
  Running-Step {k = k} v (await c cur on) =
      Running-finish (scan (is_child cur) k.procs) c cur k
        (λ i e. (scan-exited (is_child cur) k.procs e).2) on v
  Running-Step {k = k} v (await_pid c cur pid lab on) =
      Running-finish (scan (has_pid pid) k.procs) c cur k
        (λ i e. (scan-exited (has_pid pid) k.procs e).2) on v
  Running-Step {k = k} v (rest c cur a on) =
      Running-leave k _ c cur on (λ d. refl) (λ i li ne r. ground arith) v
  Running-Step {k = k} v (tidy c cur on) = Running-stay k _ (λ d. refl) (λ i li r. ground arith) v
  Running-Step {k = k} v (give_up c cur on) =
      Running-leave k _ c cur on (λ d. refl) (λ i li ne r. ground arith) v
  Running-Step {k = k} v (signal chan) = Running-wakeup chan k v
  Running-Step {k = k} v (slay pid) = Running-kill pid k v
  Running-Step {k = k} v (choose c i idle li) = Running-schedule c i k idle li v

  -- However the critical sections of proc.c interleave, no process runs on two CPUs at once, and what
  -- a CPU runs is in state RUNNING, if that is so at the start.
  pub Running-Reach : {lab : Bool} {k k' : Kernel M F} → Running k → Reach S lab k k' → Running k'
  Running-Reach v start = v
  Running-Reach v (later r s) = Running-Step (Running-Reach v r) s

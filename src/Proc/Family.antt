-- ===== src/Proc/Family.antt =====
-- Parents and the init process, through all that the kernel does.
use os_lab2_team.Prelude.{
  ℕ, zero, suc, ◌<◌, ◌≡◌, refl, sym, ◌∙◌, ◌≢◌, ◌⊎◌, inl, inr, ℤ, pos, negsuc, Bool, true, false,
  not, ◌||◌, none, some, arith, Bool-cases, Option-cases,
}
use os_lab2_team.Proc.Table.{
  ProcState, zombie, runnable, embryo, running, Chan, nproc, is_slot, find, Found, exited, absent,
  scan, sleeping,
}
use os_lab2_team.Proc.Kernel.{Services, Kernel}
use os_lab2_team.Proc.Life.{
  allocproc, fork_copy, publish, growproc, exit_files, exit_table, is_unused,
}
use os_lab2_team.Proc.Wait.{wait, sleep_on, finish, is_child}
use os_lab2_team.Proc.Signal.{wakeup, kill, sleep_return, yield_cpu, schedule, deschedule, has_pid}
use os_lab2_team.Proc.Lab.{wait_for_process}
use os_lab2_team.Proc.Machine.{
  Step, alloc, copy, ready, grow, close, leave, await, await_pid, rest, tidy, give_up, signal, slay,
  choose, Reach, start, later, settle,
}
use os_lab2_team.Proc.Scan.{find-some, scan-exited}
use os_lab2_team.Proc.Adopt.{Kept-wakeup1, parent-wakeup1}
use os_lab2_team.Proc.Exit.{Exited, exit_table-Exited}
use os_lab2_team.Proc.Running.{Running, Running-Reach}

-- SLEEPING, RUNNABLE or RUNNING
abbrev is_alive : ProcState → Bool
is_alive sleeping = true
is_alive runnable = true
is_alive running = true
is_alive _ = false

pub record Family {M F : Type 0} (k : Kernel M F) : Type 0 where
  pub init_slot : (w : ℕ) → k.initproc ≡ some w → w < nproc
  pub init_alive : (w : ℕ) → k.initproc ≡ some w → is_alive (k.procs w).state ≡ true
  pub init_parent : (w : ℕ) → k.initproc ≡ some w → (k.procs w).parent ≡ none
  pub not_self : (i : ℕ) → i < nproc → is_slot (k.procs i).parent i ≡ false

module _ {M F : Type 0} where
  -- A step that keeps each parent or forgets it, and kills nobody.
  Family-frame :
      (k k' : Kernel M F)
      → k'.initproc ≡ k.initproc
      → ((i : ℕ)
          → i < nproc
          → ((k'.procs i).parent ≡ (k.procs i).parent) ⊎ ((k'.procs i).parent ≡ none))
      → ((i : ℕ)
          → i < nproc
          → is_alive (k.procs i).state ≡ true
          → is_alive (k'.procs i).state ≡ true)
      → Family k
      → Family k'
  Family-frame k k' same parents alive v = record {
    init_slot = λ w e. v.init_slot w (sym same ∙ e);
    init_alive = λ w e. let o = sym same ∙ e in alive w (v.init_slot w o) (v.init_alive w o);
    init_parent = λ w e. let o = sym same ∙ e in init_parent w o;
    not_self = λ i li. ground (arith, parents i li, v.not_self i li);
  }
    where
      init_parent : (w : ℕ) → k.initproc ≡ some w → (k'.procs w).parent ≡ none
      init_parent w o = ground (arith, parents w (v.init_slot w o), v.init_parent w o)

  Family-kill : (pid : ℕ) (k : Kernel M F) → Family k → Family (kill pid k).1
  unfolding kill
  Family-kill pid k v =
      Family-frame k _ (ground arith) (λ i li. inl (ground arith)) (λ i li a. ground arith) v

  Family-wakeup : (chan : Chan) (k : Kernel M F) → Family k → Family (wakeup chan k)
  unfolding wakeup
  Family-wakeup chan k v =
      Family-frame k _ refl (λ i li. inl (parent-wakeup1 chan k.procs i li))
        (λ i li a. let w = (Kept-wakeup1 chan k.procs i li).state in ground arith) v

  Family-schedule : (c i : ℕ) (k : Kernel M F) → Family k → Family (schedule c i k)
  unfolding schedule
  Family-schedule c i k v =
      Family-frame k _ (ground arith) (λ i li. inl (ground arith)) (λ i li a. ground arith) v

module _ {M F : Type 0} (S : Services M F) where
  Family-allocproc : (k : Kernel M F) → Family k → Family (allocproc S k).1
  unfolding allocproc
  Family-allocproc k v = Family-frame k _ (ground arith) (λ i li. inl (ground arith)) alive v
    where
      alive :
          (i : ℕ)
          → i < nproc
          → is_alive (k.procs i).state ≡ true
          → is_alive ((allocproc S k).1.procs i).state ≡ true
      alive i li a = elim (Option-cases (find is_unused k.procs)) [
        | inl e ↦ ground arith
        | inr (u, e) ↦ let free = (find-some is_unused k.procs e).1 in ground arith
      ]

  Family-growproc : (cur : ℕ) (n : ℤ) (k : Kernel M F) → Family k → Family (growproc S cur n k).1
  unfolding growproc
  Family-growproc cur (pos zero) k v = v
  Family-growproc cur (pos (suc n)) k v =
      Family-frame k _ (ground arith) (λ i li. inl (ground arith)) (λ i li a. ground arith) v
  Family-growproc cur (negsuc n) k v =
      Family-frame k _ (ground arith) (λ i li. inl (ground arith)) (λ i li a. ground arith) v

  Family-finish :
      (f : Found) (c cur : ℕ) (k : Kernel M F)
      → ((i : ℕ) → f ≡ exited i → (k.procs i).state ≡ zombie)
      → Family k
      → Family (settle c (finish S f cur k))
  unfolding settle finish
  Family-finish (exited i) c cur k dead v =
      let z = dead i refl in Family-frame k _ refl (λ j lj. ground arith) (λ j lj a. ground arith) v
  Family-finish (absent seen) c cur k dead v =
      elim (Bool-cases (not seen || (k.procs cur).killed)) [
        | inl e ↦ rw (e, settle) v
        | inr e ↦
            rw (e, settle)
              (Family-frame k _ refl (λ j lj. inl (ground arith)) (λ j lj a. ground arith) v)
      ]

  Family-fork_copy :
      (c cur np : ℕ) (k : Kernel M F)
      → k.cpu c ≡ some cur
      → (k.procs np).state ≡ embryo
      → Running k
      → Family k
      → Family (fork_copy S cur np k).1
  unfolding fork_copy
  Family-fork_copy c cur np k on e r v = record {
    init_slot = λ w o. ground (arith, v.init_slot w);
    init_alive = λ w o. ground (arith, v.init_alive w);
    init_parent = λ w o. ground (arith, v.init_alive w, v.init_parent w);
    not_self = λ i li. let h = r.valid c cur on in ground (arith, v.not_self i li);
  }

  Family-exit_table :
      (c cur : ℕ) (k : Kernel M F)
      → cur < nproc
      → is_slot k.initproc cur ≡ false
      → Family k
      → Family (deschedule c (record k { procs = exit_table cur k.initproc k.procs }))
  unfolding deschedule
  Family-exit_table c cur k lt ne v = record {
    init_slot = λ w o. v.init_slot w o;
    init_alive = λ w o.
        let kept = (x w (v.init_slot w o)).kept (other w o) in
        ground (arith, kept.state, v.init_alive w o);
    init_parent = λ w o. ground (arith, (x w (v.init_slot w o)).parent, v.init_parent w o);
    not_self = λ i li. ground (arith, (x i li).parent, v.not_self i li, v.init_parent i);
  }
    where
      x : (i : ℕ) → i < nproc → Exited cur k.initproc k.procs (exit_table cur k.initproc k.procs) i
      x i li = exit_table-Exited cur k.initproc k.procs i lt li

      other : (w : ℕ) → k.initproc ≡ some w → w ≢ cur
      other w o e = ground arith

  -- Each step keeps the invariant.
  Family-Step :
      {lab : Bool} {k k' : Kernel M F} → Running k → Family k → Step S lab k k' → Family k'
  unfolding wait wait_for_process exit_files publish sleep_return deschedule yield_cpu sleep_on
  Family-Step {k = k} r v (alloc c cur on small) = Family-allocproc k v
  Family-Step {k = k} r v (copy c cur np on lt e) = Family-fork_copy c cur np k on e r v
  Family-Step {k = k} r v (ready c cur np on lt e) =
      Family-frame k _ refl (λ i li. inl (ground arith)) (λ i li a. ground arith) v
  Family-Step {k = k} r v (grow c cur n on) = Family-growproc cur n k v
  Family-Step {k = k} r v (close c cur on) =
      Family-frame k _ refl (λ i li. inl (ground arith)) (λ i li a. ground arith) v
  Family-Step {k = k} r v (leave c cur on ne) = Family-exit_table c cur k (r.valid c cur on).0 ne v
  Family-Step {k = k} r v (await c cur on) =
      Family-finish (scan (is_child cur) k.procs) c cur k
        (λ i e. (scan-exited (is_child cur) k.procs e).2) v
  Family-Step {k = k} r v (await_pid c cur pid lab on) =
      Family-finish (scan (has_pid pid) k.procs) c cur k
        (λ i e. (scan-exited (has_pid pid) k.procs e).2) v
  Family-Step {k = k} r v (rest c cur a on) =
      Family-frame k _ refl (λ i li. inl (ground arith)) (λ i li a. ground arith) v
  Family-Step {k = k} r v (tidy c cur on) =
      Family-frame k _ refl (λ i li. inl (ground arith)) (λ i li a. ground arith) v
  Family-Step {k = k} r v (give_up c cur on) =
      Family-frame k _ refl (λ i li. inl (ground arith)) (λ i li a. ground arith) v
  Family-Step {k = k} r v (signal chan) = Family-wakeup chan k v
  Family-Step {k = k} r v (slay pid) = Family-kill pid k v
  Family-Step {k = k} r v (choose c i idle li) = Family-schedule c i k v

  -- However the critical sections of proc.c interleave, the init process stays alive and without a
  -- parent, and no process becomes its own parent, if that is so at the start.
  pub Family-Reach :
      {lab : Bool} {k k' : Kernel M F} → Running k → Family k → Reach S lab k k' → Family k'
  Family-Reach r v start = v
  Family-Reach r v (later steps s) =
      Family-Step (Running-Reach S r steps) (Family-Reach r v steps) s

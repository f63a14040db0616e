-- ===== src/Proc/Wakeup.antt =====
-- No lost wakeup between exit and wait: a process asleep in wait has no zombie child to collect.
use os_lab2_team.Prelude.{
  ℕ, zero, suc, ◌<◌, ◌≡◌, refl, ◌≢◌, inl, inr, ℤ, pos, negsuc, Bool, true, false, not, ◌||◌, arith,
  ℕ_discrete, Bool-cases,
}
use os_lab2_team.Proc.Table.{
  zombie, embryo, Table, Chan, nproc, is_slot, wakeup1, Found, exited, absent, scan, sleeping,
  process,
}
use os_lab2_team.Proc.Kernel.{Services, Kernel}
use os_lab2_team.Proc.Life.{allocproc, fork_copy, publish, growproc, exit_files, exit_table}
use os_lab2_team.Proc.Wait.{wait, sleep_on, finish, is_child}
use os_lab2_team.Proc.Signal.{wakeup, kill, sleep_return, yield_cpu, schedule, deschedule}
use os_lab2_team.Proc.Machine.{
  Step, alloc, copy, ready, grow, close, leave, await, await_pid, rest, tidy, give_up, signal, slay,
  choose, Reach, start, later, settle,
}
use os_lab2_team.Proc.Scan.{scan-absent}
use os_lab2_team.Proc.Adopt.{Kept-wakeup1, parent-wakeup1}
use os_lab2_team.Proc.Exit.{Exited, exit_table-Exited}
use os_lab2_team.Proc.Family.{Family, Family-Reach}
use os_lab2_team.Proc.Running.{Running, Running-Reach}

-- The process in slot w sleeps in wait: on the channel that is its own address.
abbrev InWait : ℕ → Table → Type 0
InWait w t = ((t w).state ≡ sleeping) × ((t w).chan ≡ process w)

abbrev IsZombieOf : ℕ → ℕ → Table → Type 0
IsZombieOf w j t = (is_slot (t j).parent w ≡ true) × ((t j).state ≡ zombie)

pub record Waits {M F : Type 0} (k : Kernel M F) : Type 0 where
  pub none_dead : (w j : ℕ) → w < nproc → j < nproc → InWait w k.procs → ¬ IsZombieOf w j k.procs

-- A step that puts nobody to sleep in wait and makes no zombie.
Waits-frame :
    {M F : Type 0} (k k' : Kernel M F)
    → ((i : ℕ) → i < nproc → InWait i k'.procs → InWait i k.procs)
    → ((j : ℕ)
        → j < nproc
        → (k'.procs j).state ≡ zombie
        → ((k.procs j).state ≡ zombie) × ((k'.procs j).parent ≡ (k.procs j).parent))
    → Waits k
    → Waits k'
Waits-frame k k' sleepers dead v = record {
  none_dead = λ w j lw lj s z.
      let d = dead j lj z.1 in v.none_dead w j lw lj (sleepers w lw s) (ground arith, d.0);
}

module _ {M F : Type 0} (S : Services M F) where
  Waits-allocproc : (k : Kernel M F) → Waits k → Waits (allocproc S k).1
  unfolding allocproc
  Waits-allocproc k v =
      Waits-frame k _ (λ i li s. (ground arith, ground arith))
        (λ j lj z. (ground arith, ground arith)) v

  Waits-fork_copy :
      (cur np : ℕ) (k : Kernel M F)
      → (k.procs np).state ≡ embryo
      → Waits k
      → Waits (fork_copy S cur np k).1
  unfolding fork_copy
  Waits-fork_copy cur np k e v =
      Waits-frame k _ (λ i li s. (ground arith, ground arith))
        (λ j lj z. (ground arith, ground arith)) v

  Waits-growproc : (cur : ℕ) (n : ℤ) (k : Kernel M F) → Waits k → Waits (growproc S cur n k).1
  unfolding growproc
  Waits-growproc cur (pos zero) k v = v
  Waits-growproc cur (pos (suc n)) k v =
      Waits-frame k _ (λ i li s. (ground arith, ground arith))
        (λ j lj z. (ground arith, ground arith)) v
  Waits-growproc cur (negsuc n) k v =
      Waits-frame k _ (λ i li s. (ground arith, ground arith))
        (λ j lj z. (ground arith, ground arith)) v

  Waits-kill : (pid : ℕ) (k : Kernel M F) → Waits k → Waits (kill pid k).1
  unfolding kill
  Waits-kill pid k v =
      Waits-frame k _ (λ i li s. (ground arith, ground arith))
        (λ j lj z. (ground arith, ground arith)) v

  Waits-wakeup : (chan : Chan) (k : Kernel M F) → Waits k → Waits (wakeup chan k)
  unfolding wakeup
  Waits-wakeup chan k v = Waits-frame k _ sleepers dead v
    where
      sleepers : (i : ℕ) → i < nproc → InWait i (wakeup1 chan k.procs) → InWait i k.procs
      sleepers i li s = let w = Kept-wakeup1 chan k.procs i li in (ground arith, ground arith)

      dead :
          (j : ℕ)
          → j < nproc
          → (wakeup1 chan k.procs j).state ≡ zombie
          → ((k.procs j).state ≡ zombie) × ((wakeup1 chan k.procs j).parent ≡ (k.procs j).parent)
      dead j lj z =
          let w = Kept-wakeup1 chan k.procs j lj in (ground arith, parent-wakeup1 chan k.procs j lj)

  Waits-schedule : (c i : ℕ) (k : Kernel M F) → Waits k → Waits (schedule c i k)
  unfolding schedule
  Waits-schedule c i k v =
      Waits-frame k _ (λ i li s. (ground arith, ground arith))
        (λ j lj z. (ground arith, ground arith)) v

  Waits-finish :
      (f : Found) (c cur : ℕ) (k : Kernel M F)
      → ((b : Bool) (j : ℕ)
          → f ≡ absent b
          → j < nproc
          → is_slot (k.procs j).parent cur ≡ true
          → (k.procs j).state ≢ zombie)
      → Waits k
      → Waits (settle c (finish S f cur k))
  unfolding settle finish
  Waits-finish (exited i) c cur k none_dead v =
      Waits-frame k _ (λ i li s. (ground arith, ground arith))
        (λ j lj z. (ground arith, ground arith)) v
  Waits-finish (absent seen) c cur k alive v =
      elim (Bool-cases (not seen || (k.procs cur).killed)) [
        | inl e ↦ rw (e, settle) v
        | inr e ↦ rw (e, settle) (record { none_dead = asleep_dead })
      ]
    where
      asleep_dead :
          (w j : ℕ)
          → w < nproc
          → j < nproc
          → InWait w (sleep_on (process cur) cur k).procs
          → ¬ IsZombieOf w j (sleep_on (process cur) cur k).procs
      asleep_dead w j lw lj s z = ground (arith, alive seen j refl lj, v.none_dead w j lw lj)

  Waits-exit_table :
      (c cur : ℕ) (k : Kernel M F)
      → cur < nproc
      → is_slot k.initproc cur ≡ false
      → Family k
      → Waits k
      → Waits (deschedule c (record k { procs = exit_table cur k.initproc k.procs }))
  unfolding deschedule
  Waits-exit_table c cur k lt ne f v = record { none_dead = alive }
    where
      u : Table
      u = exit_table cur k.initproc k.procs

      x : (i : ℕ) → i < nproc → Exited cur k.initproc k.procs u i
      x i li = exit_table-Exited cur k.initproc k.procs i lt li

      -- The zombie is `cur` itself, one of its children, or one that was there before.
      of_cur : (w : ℕ) → w < nproc → w ≢ cur → InWait w u → ¬ IsZombieOf w cur u
      of_cur w lw wc s z =
          let at = (x cur lt).parent in
          let alone = f.not_self cur lt in (x cur lt).parent_awake w (ground arith) lw wc s

      of_child :
          (w j : ℕ)
          → w < nproc
          → j < nproc
          → w ≢ cur
          → j ≢ cur
          → is_slot (k.procs j).parent cur ≡ true
          → InWait w u
          → ¬ IsZombieOf w j u
      of_child w j lw lj wc jc mine s z =
          let at = (x j lj).parent in
          let kept = (x j lj).kept jc in
          (x j lj).init_awake w (ground arith) lw wc mine (ground arith) s

      of_other :
          (w j : ℕ)
          → w < nproc
          → j < nproc
          → w ≢ cur
          → j ≢ cur
          → is_slot (k.procs j).parent cur ≡ false
          → InWait w u
          → ¬ IsZombieOf w j u
      of_other w j lw lj wc jc other s z =
          let at = (x j lj).parent in
          let kept = (x j lj).kept jc in
          let kept_w = (x w lw).kept wc in
          v.none_dead w j lw lj (ground arith, ground arith) (ground arith, ground arith)

      alive : (w j : ℕ) → w < nproc → j < nproc → InWait w u → ¬ IsZombieOf w j u
      alive w j lw lj s z =
          let wc : w ≢ cur = λ e. let dead = (x w lw).state e in ground arith in
          elim (ℕ_discrete j cur) [
            | yes e ↦ of_cur w lw wc s (ground arith, ground arith)
            | no jc ↦ elim (Bool-cases (is_slot (k.procs j).parent cur)) [
              | inl mine ↦ of_child w j lw lj wc jc mine s z
              | inr other ↦ of_other w j lw lj wc jc other s z
            ]
          ]

  Waits-Step : {k k' : Kernel M F} → Running k → Family k → Waits k → Step S false k k' → Waits k'
  unfolding wait exit_files publish sleep_return deschedule yield_cpu sleep_on
  Waits-Step {k = k} r f v (alloc c cur on small) = Waits-allocproc k v
  Waits-Step {k = k} r f v (copy c cur np on lt e) = Waits-fork_copy cur np k e v
  Waits-Step {k = k} r f v (ready c cur np on lt e) =
      Waits-frame k _ (λ i li s. (ground arith, ground arith))
        (λ j lj z. (ground arith, ground arith)) v
  Waits-Step {k = k} r f v (grow c cur n on) = Waits-growproc cur n k v
  Waits-Step {k = k} r f v (close c cur on) =
      Waits-frame k _ (λ i li s. (ground arith, ground arith))
        (λ j lj z. (ground arith, ground arith)) v
  Waits-Step {k = k} r f v (leave c cur on ne) =
      Waits-exit_table c cur k (r.valid c cur on).0 ne f v
  Waits-Step {k = k} r f v (await c cur on) =
      Waits-finish (scan (is_child cur) k.procs) c cur k
        (λ b j e lj mine. (scan-absent (is_child cur) k.procs b j e lj mine).0) v
  Waits-Step {k = k} r f v (await_pid c cur pid lab on) = cc
  Waits-Step {k = k} r f v (rest c cur a on) =
      Waits-frame k _ (λ i li s. (ground arith, ground arith))
        (λ j lj z. (ground arith, ground arith)) v
  Waits-Step {k = k} r f v (tidy c cur on) =
      Waits-frame k _ (λ i li s. (ground arith, ground arith))
        (λ j lj z. (ground arith, ground arith)) v
  Waits-Step {k = k} r f v (give_up c cur on) =
      Waits-frame k _ (λ i li s. (ground arith, ground arith))
        (λ j lj z. (ground arith, ground arith)) v
  Waits-Step {k = k} r f v (signal chan) = Waits-wakeup chan k v
  Waits-Step {k = k} r f v (slay pid) = Waits-kill pid k v
  Waits-Step {k = k} r f v (choose c i idle li) = Waits-schedule c i k v

  -- No lost wakeup: if at the start what a CPU runs is a RUNNING process that no other CPU runs, the
  -- init process is alive and has no parent, no process is its own parent, and no process sleeps in
  -- wait while one of its children is a zombie, then the last holds however the critical sections of proc.c interleave,
  -- in a run without calls of waitForProcess.
  pub Waits-Reach :
      {k k' : Kernel M F} → Running k → Family k → Waits k → Reach S false k k' → Waits k'
  Waits-Reach r f v start = v
  Waits-Reach r f v (later steps s) =
      Waits-Step (Running-Reach S r steps) (Family-Reach S r f steps) (Waits-Reach r f v steps) s

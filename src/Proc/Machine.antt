-- ===== src/Proc/Machine.antt =====
-- Processes over several CPUs: the critical sections of proc.c as the steps of a relation, in any
-- order. A process moves only while a CPU runs it, and `sched` gives the CPU back to its scheduler.
use os_lab2_team.Prelude.{ℕ, ◌+◌, ◌^◌, ◌<◌, ◌≡◌, ℤ, Bool, true, false, none, some}
use os_lab2_team.Proc.Table.{embryo, Chan, address, nproc, is_slot}
use os_lab2_team.Proc.Kernel.{Services, Kernel}
use os_lab2_team.Proc.Life.{allocproc, fork_copy, publish, growproc, exit_files, exit_table}
use os_lab2_team.Proc.Wait.{Outcome, asleep, wait, sleep_on}
use os_lab2_team.Proc.Signal.{wakeup, kill, sleep_return, yield_cpu, schedule, deschedule}
use os_lab2_team.Proc.Lab.{wait_for_process}

-- A round of `wait` that ends in sleep goes on to sched.
unfoldable pub settle : {M F : Type 0} → ℕ → Outcome × Kernel M F → Kernel M F
unfolding deschedule
settle c (asleep, k) = deschedule c k
settle c (o, k) = k

module _ {M F : Type 0} (S : Services M F) where
  -- `lab` says whether waitForProcess is called in the run.
  pub data Step (lab : Bool) (k : Kernel M F) : Kernel M F → Type 0 where
    alloc : (c cur : ℕ) → k.cpu c ≡ some cur → k.nextpid + 1 < 2 ^ 31 → Step lab k (allocproc S k).1
    copy :
        (c cur np : ℕ)
        → k.cpu c ≡ some cur
        → np < nproc
        → (k.procs np).state ≡ embryo
        → Step lab k (fork_copy S cur np k).1
    ready :
        (c cur np : ℕ)
        → k.cpu c ≡ some cur
        → np < nproc
        → (k.procs np).state ≡ embryo
        → Step lab k (publish S np k)
    grow : (c cur : ℕ) (n : ℤ) → k.cpu c ≡ some cur → Step lab k (growproc S cur n k).1
    close : (c cur : ℕ) → k.cpu c ≡ some cur → Step lab k (exit_files S cur k)
    leave :
        (c cur : ℕ)
        → k.cpu c ≡ some cur
        → is_slot k.initproc cur ≡ false
        → Step lab k (deschedule c (record k { procs = exit_table cur k.initproc k.procs }))
    await : (c cur : ℕ) → k.cpu c ≡ some cur → Step lab k (settle c (wait S cur k))
    await_pid :
        (c cur pid : ℕ)
        → lab ≡ true
        → k.cpu c ≡ some cur
        → Step lab k (settle c (wait_for_process S pid cur k))
    rest :
        (c cur a : ℕ) → k.cpu c ≡ some cur → Step lab k (deschedule c (sleep_on (address a) cur k))
    tidy : (c cur : ℕ) → k.cpu c ≡ some cur → Step lab k (sleep_return cur k)
    give_up : (c cur : ℕ) → k.cpu c ≡ some cur → Step lab k (deschedule c (yield_cpu cur k))
    signal : (chan : Chan) → Step lab k (wakeup chan k)
    slay : (pid : ℕ) → Step lab k (kill pid k).1
    choose : (c i : ℕ) → k.cpu c ≡ none → i < nproc → Step lab k (schedule c i k)

  pub data Reach (lab : Bool) (k : Kernel M F) : Kernel M F → Type 0 where
    start : Reach lab k k
    later : {k1 k2 : Kernel M F} → Reach lab k k1 → Step lab k1 k2 → Reach lab k k2

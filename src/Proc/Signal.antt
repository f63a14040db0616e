-- ===== src/Proc/Signal.antt =====
-- Sleeping, waking, killing, yielding and the scheduler's choice in proc.c, each as it runs under
-- ptable.lock.
use os_lab2_team.Prelude.{ℕ, Bool, true, false, Option, none, some, ◌==◌, if◌then◌else◌}
use os_lab2_team.Proc.Table.{
  sleeping, runnable, running, same_state, Proc, Chan, null, find, wakeup1,
}
use os_lab2_team.Proc.Kernel.{Kernel, set_proc}

abbrev pub has_pid : ℕ → Proc → Bool
has_pid pid p = p.pid == pid

-- `p->killed = 1`, and the sleeper is woken.
abbrev pub mark_killed : Proc → Proc
mark_killed p = record p {
  killed = true;
  state = if same_state p.state sleeping then runnable else p.state;
}

module _ {M F : Type 0} where
  unfoldable pub wakeup : Chan → Kernel M F → Kernel M F
  unfolding wakeup1
  wakeup chan k = record k { procs = wakeup1 chan k.procs }

  -- False is -1.
  unfoldable pub kill : ℕ → Kernel M F → Bool × Kernel M F
  kill pid k = elim (find (has_pid pid) k.procs) [
    | none ↦ (false, k)
    | some i ↦ (true, set_proc i (mark_killed (k.procs i)) k)
  ]

  -- "Tidy up." behind the call of sched in sleep.
  unfoldable pub sleep_return : ℕ → Kernel M F → Kernel M F
  sleep_return cur k = set_proc cur (record (k.procs cur) { chan = null }) k

  -- yield, up to the call of sched
  unfoldable pub yield_cpu : ℕ → Kernel M F → Kernel M F
  yield_cpu cur k = set_proc cur (record (k.procs cur) { state = runnable }) k

  abbrev set_cpu : ℕ → Option ℕ → Kernel M F → Kernel M F
  set_cpu c o k = record k { cpu = λ d. if c == d then o else k.cpu d }

  -- The scheduler's visit of slot i on CPU c, up to the call of swtch; a process that is not RUNNABLE
  -- is passed over.
  unfoldable pub schedule : ℕ → ℕ → Kernel M F → Kernel M F
  schedule c i k =
      if same_state (k.procs i).state runnable
      then set_cpu c (some i) (set_proc i (record (k.procs i) { state = running }) k)
      else k

  -- "Process is done running for now.": `c->proc = 0` behind swtch.
  unfoldable pub deschedule : ℕ → Kernel M F → Kernel M F
  deschedule c k = set_cpu c none k

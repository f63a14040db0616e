-- ===== src/Proc/Wait.antt =====
-- wait of proc.c, and what it shares with the lab's waitForProcess: one round of the loop, from the
-- scan up to the return or the call of sleep. A process that is woken goes through a further round.
use os_lab2_team.Prelude.{ℕ, Bool, true, false, not, ◌||◌, none, []}
use os_lab2_team.Proc.Table.{
  unused, sleeping, Proc, Chan, process, is_slot, Found, exited, absent, scan,
}
use os_lab2_team.Proc.Kernel.{Services, Kernel, set_proc}

-- What a round comes to: a return of a pid, a return of -1, or sleep on the caller's own channel.
pub data Outcome : Type 0 where
  reaped : ℕ → Outcome
  failed asleep : Outcome

unfoldable pub is_child : ℕ → Proc → Bool
is_child cur p = is_slot p.parent cur

-- sleep of proc.c up to the call of sched; the process resumes in `Signal.sleep_return`.
unfoldable pub sleep_on : {M F : Type 0} → Chan → ℕ → Kernel M F → Kernel M F
sleep_on chan cur k = set_proc cur (record (k.procs cur) { chan = chan; state = sleeping }) k

module _ {M F : Type 0} (S : Services M F) where
  -- "Found one.": the zombie's slot is set free.
  reap : ℕ → Kernel M F → Kernel M F
  reap i k =
      let p = k.procs i in
      set_proc i
        (record p { kstack = 0; pid = 0; parent = none; name = []; killed = false; state = unused })
        (record k { mem = S.freevm p.pgdir (S.kfree p.kstack k.mem) })

  -- "No point waiting" if the first argument holds; else sleep on the caller's own channel.
  unfoldable pub give_up_or_sleep : Bool → ℕ → Kernel M F → Outcome × Kernel M F
  unfolding sleep_on
  give_up_or_sleep true cur k = (failed, k)
  give_up_or_sleep false cur k = (asleep, sleep_on (process cur) cur k)

  unfoldable pub finish : Found → ℕ → Kernel M F → Outcome × Kernel M F
  unfolding reap give_up_or_sleep
  finish (exited i) cur k = (reaped (k.procs i).pid, reap i k)
  finish (absent seen) cur k = give_up_or_sleep (not seen || (k.procs cur).killed) cur k

  unfoldable pub wait : ℕ → Kernel M F → Outcome × Kernel M F
  unfolding finish is_child scan
  wait cur k = finish (scan (is_child cur) k.procs) cur k

-- ===== src/Proc/Reap.antt =====
-- One round of wait, and of the lab's waitForProcess, on every branch.
use os_lab2_team.Prelude.{
  ℕ, ◌<◌, ◌≡◌, refl, ◌∙◌, ◌≢◌, ◌⊎◌, inl, inr, Bool, true, false, Option, none, some, arith,
  Bool-cases,
}
use os_lab2_team.Proc.Table.{
  zombie, same_chan, unused, Proc, Chan, nproc, is_slot, Found, exited, absent, scan, sleeping,
  process,
}
use os_lab2_team.Proc.Kernel.{Services, Kernel, chan_of}
use os_lab2_team.Proc.Life.{exit, exit_files}
use os_lab2_team.Proc.Wait.{
  Outcome, reaped, failed, asleep, wait, finish, give_up_or_sleep, is_child,
}
use os_lab2_team.Proc.Signal.{has_pid}
use os_lab2_team.Proc.Lab.{wait_for_process}
use os_lab2_team.Proc.Scan.{scan-exited, scan-absent, scan-mine}
use os_lab2_team.Proc.Exit.{exit_lem}

-- What a round may do that looks for processes that satisfy `mine`, on behalf of process `cur`.
module _ {M F : Type 0} (mine : Proc → Bool) (cur : ℕ) (k : Kernel M F) where
  abbrev pub Round : Outcome × Kernel M F → Type 0
  -- A zombie was found; its pid is returned, and only its slot has changed: it is free.
  Round (reaped pid, k') =
      (i : ℕ) × (i < nproc)
      × (mine (k.procs i) ≡ true)
      × ((k.procs i).state ≡ zombie)
      × ((k.procs i).pid ≡ pid)
      × ((k'.procs i).state ≡ unused)
      × ((k'.procs i).parent ≡ none)
      × ((k'.procs i).killed ≡ false)
      × ((j : ℕ) → j ≢ i → k'.procs j ≡ k.procs j)
  -- There is nothing to wait for, or the caller has been killed; nothing has changed.
  Round (failed, k') =
      (((j : ℕ) → j < nproc → mine (k.procs j) ≡ false) ⊎ ((k.procs cur).killed ≡ true)) × (k' ≡ k)
  -- There is a process to wait for, and no zombie among those: the caller sleeps on its own address.
  Round (asleep, k') =
      ((i : ℕ) × (i < nproc) × (mine (k.procs i) ≡ true))
      × ((j : ℕ) → j < nproc → mine (k.procs j) ≡ true → (k.procs j).state ≢ zombie)
      × ((k.procs cur).killed ≡ false)
      × ((k'.procs cur).state ≡ sleeping)
      × ((k'.procs cur).chan ≡ process cur)
      × ((j : ℕ) → j ≢ cur → k'.procs j ≡ k.procs j)

  Round-absent :
      (S : Services M F) (seen : Bool)
      → scan mine k.procs ≡ absent seen
      → Round (finish S (absent seen) cur k)
  unfolding finish give_up_or_sleep
  Round-absent S false e = (
    inl (λ j lj. elim (Bool-cases (mine (k.procs j))) [
      | inl m ↦ let h = (scan-absent mine k.procs false j e lj m).1 in cc
      | inr m ↦ m
    ]),
    refl,
  )
  Round-absent S true e = elim (Bool-cases (k.procs cur).killed) [
    | inl dead ↦ rw dead (inr dead, refl)
    | inr live ↦ rw live (
      scan-mine mine k.procs e,
      λ j lj m. (scan-absent mine k.procs true j e lj m).0,
      live,
      ground arith,
      ground arith,
      λ j ne. ground arith,
    )
  ]

  Round-finish : (S : Services M F) (f : Found) → scan mine k.procs ≡ f → Round (finish S f cur k)
  unfolding finish
  Round-finish S (exited i) e =
      let h = scan-exited mine k.procs e in
      (i, h.0, h.1, h.2, refl, ground arith, ground arith, ground arith, λ j ne. ground arith)
  Round-finish S (absent seen) e = Round-absent S seen e

module _ {M F : Type 0} (S : Services M F) where
  -- A round of wait returns the pid of a zombie child and frees that child's slot; or returns -1 if
  -- the caller has no child or has been killed; or, if no child is a zombie, puts the caller to sleep
  -- on its own address. No other slot changes.
  pub wait_lem : (cur : ℕ) (k : Kernel M F) → Round (is_child cur) cur k (wait S cur k)
  unfolding wait
  wait_lem cur k = Round-finish (is_child cur) cur k S (scan (is_child cur) k.procs) refl

  -- A round of waitForProcess does the same for whatever process has the pid, the caller's child or
  -- not.
  wait_for_process_lem :
      (pid cur : ℕ) (k : Kernel M F) → Round (has_pid pid) cur k (wait_for_process S pid cur k)
  unfolding wait_for_process
  wait_for_process_lem pid cur k =
      Round-finish (has_pid pid) cur k S (scan (has_pid pid) k.procs) refl

  exit_files_keeps :
      (cur j : ℕ) (k : Kernel M F)
      → let p = (exit_files S cur k).procs j in
        (p.state ≡ (k.procs j).state)
        × (p.chan ≡ (k.procs j).chan)
        × (p.parent ≡ (k.procs j).parent)
        × (p.pid ≡ (k.procs j).pid)
  unfolding exit_files
  exit_files_keeps cur j k = (ground arith, ground arith, ground arith, ground arith)

  not_chan :
      (o : Option ℕ) (c : Chan) (cur : ℕ)
      → c ≡ process cur
      → is_slot o cur ≡ false
      → same_chan c (chan_of o) ≡ false
  not_chan none c cur e h = ground arith
  not_chan (some i) c cur e h = ground arith

  -- The process that waitForProcess waits for may exit and leave the caller asleep: this is so
  -- whenever the caller is neither the parent of that process nor init.
  pub wait_for_process_missed :
      (pid cur i : ℕ) (k k1 k2 : Kernel M F)
      → wait_for_process S pid cur k ≡ (asleep, k1)
      → cur < nproc
      → i < nproc
      → cur ≢ i
      → is_slot (k1.procs i).parent cur ≡ false
      → is_slot k1.initproc cur ≡ false
      → exit S i k1 ≡ some k2
      → ((k2.procs i).state ≡ zombie)
        × ((k2.procs i).pid ≡ (k1.procs i).pid)
        × ((k2.procs cur).state ≡ sleeping)
        × ((k2.procs cur).chan ≡ process cur)
  wait_for_process_missed pid cur i k k1 k2 e lt li ne notp noti x =
      let slept : Round (has_pid pid) cur k (asleep, k1) =
        rw e at (wait_for_process_lem pid cur k) in
      let of_i = (exit_lem S i i k1 k2 li li x).0 in
      let of_cur = (exit_lem S i cur k1 k2 li lt x).0 in
      let before_i = exit_files_keeps i i k1 in
      let before = exit_files_keeps i cur k1 in
      let at : ((exit_files S i k1).procs cur).chan ≡ process cur = before.1 ∙ slept.4 in
      let still =
        of_cur.still ne (not_chan _ _ cur at (rw (before_i.2) notp)) (not_chan _ _ cur at noti) in
      (
        of_i.state refl,
        of_i.pid ∙ before_i.3,
        still ∙ before.0 ∙ slept.3,
        (of_cur.kept ne).chan ∙ at,
      )

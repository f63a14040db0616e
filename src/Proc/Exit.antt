-- ===== src/Proc/Exit.antt =====
-- What exit of proc.c does to each slot of the table.
use os_lab2_team.Prelude.{
  ℕ, ◌<◌, ◌≡◌, refl, sym, ap, ◌≢◌, true, false, Option, some, arith, ◌==◌, if◌then◌else◌, ==_iff,
}
use mathlib.Core.Path.{subst}
use os_lab2_team.Proc.Table.{zombie, Proc, Table, update, nproc, is_slot, wakeup1, same_chan}
use os_lab2_team.Proc.Kernel.{chan_of, Kernel, Services}
use os_lab2_team.Proc.Life.{reparent, exit_table, exit, exit_files}
use os_lab2_team.Proc.Scan.{wakeup1_lem}
use os_lab2_team.Proc.Adopt.{
  Kept, Kept-trans, Kept-wakeup1, parent-wakeup1, IsAwake, IsAwake-Kept, IsAwake-wakeup1,
  still_wake, Adopted, Adopted-loop,
}

module _ (cur : ℕ) (ip : Option ℕ) where
  -- What exit does to slot j of the table t.
  pub record Exited (t u : Table) (j : ℕ) : Type 0 where
    pub state : j ≡ cur → (u j).state ≡ zombie
    pub self : j ≡ cur → u j ≡ record (t j) { parent = (u j).parent; state = zombie }
    pub kept : j ≢ cur → Kept (t j) (u j)
    pub pid : (u j).pid ≡ (t j).pid
    pub parent : (u j).parent ≡ (if is_slot (t j).parent cur then ip else (t j).parent)
    pub still :
        j ≢ cur
        → same_chan (t j).chan (chan_of (t cur).parent) ≡ false
        → same_chan (t j).chan (chan_of ip) ≡ false
        → (u j).state ≡ (t j).state
    pub parent_awake : (w : ℕ) → (t cur).parent ≡ some w → w < nproc → w ≢ cur → IsAwake (some w) u
    pub init_awake :
        (w : ℕ)
        → ip ≡ some w
        → w < nproc
        → w ≢ cur
        → is_slot (t j).parent cur ≡ true
        → (t j).state ≡ zombie
        → IsAwake (some w) u

  pub exit_table-Exited :
      (t : Table) (j : ℕ) → cur < nproc → j < nproc → Exited t (exit_table cur ip t) j
  unfolding exit_table
  exit_table-Exited t j clt lt = record {
    state = λ e. ground arith;
    self = λ e.
        subst (λ q. q ≡ record (t j) { parent = q.parent; state = zombie }) (sym (at_cur e))
          (ap {A = Proc} (λ x. record x { parent = (u j).parent; state = zombie }) both.rest);
    kept = λ ne. subst (Kept (t j)) (sym (off_cur ne)) both;
    pid = ground (arith, Kept-trans (t j) (t1 j) (u j) first second);
    parent = ground (arith, (loop j lt).parent, parent-wakeup1 (chan_of (t cur).parent) t j lt);
    still = λ ne a b. ground (arith, (loop j lt).still (rw (first.chan) b), asleep a);
    parent_awake =
        λ w e wlt ne. still w wlt ne (IsAwake-Kept w t1 u (loop w wlt).kept (woken w e wlt));
    init_awake = λ w e wlt ne mine dead. still w wlt ne (
        (loop j lt).awake w e wlt lt
          (ground (arith, parent-wakeup1 (chan_of (t cur).parent) t j lt)) (dead1 dead));
  }
    where
      t1 : Table
      t1 = wakeup1 (chan_of (t cur).parent) t

      u : Table
      u = reparent cur ip t1

      asleep : same_chan (t j).chan (chan_of (t cur).parent) ≡ false → (t1 j).state ≡ (t j).state
      asleep a =
          rw (wakeup1_lem (chan_of (t cur).parent) t j lt)
            (still_wake (chan_of (t cur).parent) (t j) a)

      loop : (i : ℕ) → i < nproc → Adopted cur ip t1 nproc (reparent cur ip t1) i
      loop = Adopted-loop cur ip t1

      first : Kept (t j) (t1 j)
      first = Kept-wakeup1 (chan_of (t cur).parent) t j lt

      dead1 : (t j).state ≡ zombie → (t1 j).state ≡ zombie
      dead1 d = let s = first.state in ground arith

      second : Kept (t1 j) (u j)
      second = (loop j lt).kept

      both : Kept (t j) (u j)
      both = Kept-trans (t j) (t1 j) (u j) first second

      off_cur : j ≢ cur → update u cur (record (u cur) { state = zombie }) j ≡ u j
      off_cur ne = rw (differ ne) refl
        where
          differ : j ≢ cur → (cur == j) ≡ false
          differ ne = ground arith

      at_cur :
          j ≡ cur
          → update u cur (record (u cur) { state = zombie }) j ≡ record (u j) { state = zombie }
      at_cur e = rw (e, (==_iff cur cur).1 refl) refl

      woken : (w : ℕ) → (t cur).parent ≡ some w → w < nproc → IsAwake (some w) t1
      woken w e wlt = rw e (IsAwake-wakeup1 w t wlt)

      still :
          (w : ℕ)
          → w < nproc
          → w ≢ cur
          → IsAwake (some w) u
          → IsAwake (some w) (exit_table cur ip t)
      still w wlt ne a s = a (ground arith)

module _ {M F : Type 0} (S : Services M F) where
  exit_procs :
      (cur : ℕ) (k k' : Kernel M F)
      → exit S cur k ≡ some k'
      → k'.procs ≡ exit_table cur k.initproc (exit_files S cur k).procs
  unfolding exit exit_files
  exit_procs cur k k' e = ground arith

  exit_init :
      (cur : ℕ) (k k' : Kernel M F) → exit S cur k ≡ some k' → is_slot k.initproc cur ≡ false
  unfolding exit
  exit_init cur k k' e = ground arith

  pub exit_lem :
      (cur j : ℕ) (k k' : Kernel M F)
      → cur < nproc
      → j < nproc
      → exit S cur k ≡ some k'
      → Exited cur k.initproc (exit_files S cur k).procs k'.procs j
        × (is_slot (k'.procs j).parent cur ≡ false)
  unfolding exit
  exit_lem cur j k k' clt lt e =
      let at = exit_procs cur k k' e in
      let x = exit_table-Exited cur k.initproc (exit_files S cur k).procs j clt lt in
      rw at (x, orphaned _ ((exit_files S cur k).procs j).parent x.parent)
    where
      orphaned :
          (p q : Option ℕ) → p ≡ (if is_slot q cur then k.initproc else q) → is_slot p cur ≡ false
      orphaned p q h = let i = exit_init cur k k' e in ground arith

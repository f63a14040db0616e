-- ===== src/Log/Recover.antt =====
-- Crash safety of log.c: commit stopped at any write, restarts, and recovery.
use os_lab2_team.Prelude.{
  ℕ, zero, suc, ◌+◌, ◌-◌, ◌*◌, ◌≤◌, ◌<◌, ◌≡◌, refl, sym, ◌∙◌, ◌≢◌, ◌⊎◌, inl, inr, arith, dec_lt,
  ltb, lt→ltb, Bool-cases,
}
use mathlib.Core.Path.{subst}
use os_lab2_team.Log.{
  Block, Log, bwrite, install_from, install_trans, write_log_from, write_log, write_head, clear,
  commit, read_head, recover_from_log, reboot,
}
use os_lab2_team.Log.Header.{head_block_n, head_block_block, read_blocks_block}
use os_lab2_team.Log.Commit.{Plan, IsPlan, Untouched, Logged, Done, Agrees, Writing, Writing-loop}
use os_lab2_team.Log.Install.{Installing, install_clear, dead_install, dead_head}

-- The disk at any moment: before the transaction, in it, or behind it.
abbrev Consistent : Plan → (ℕ → Block) → Type 0
Consistent p d = Untouched p d ⊎ (Logged p d ⊎ Done p d)

install_none : (s : Log) → s.n ≡ 0 → install_trans s ≡ s
unfolding install_trans install_from
install_none s e = rw e refl

clear_again :
    (s : Log)
    → s.disk s.start 0 ≡ 0
    → let d = (write_head (clear s)).disk in
      (d s.start 0 ≡ 0) × ((b : ℕ) → b ≢ s.start → d b ≡ s.disk b)
unfolding write_head bwrite
clear_again s e = (ground (arith, head_block_n (clear s)), λ b ne. ground arith)

-- From an empty log recovery changes no block but the header, whose first word stays 0.
recover_empty :
    (s : Log) (power : ℕ)
    → s.disk s.start 0 ≡ 0
    → let d = (recover_from_log (reboot s power)).disk in
      (d s.start 0 ≡ 0) × ((b : ℕ) → b ≢ s.start → d b ≡ s.disk b)
unfolding recover_from_log
recover_empty s power e =
    let r = read_head (reboot s power) in
    rw (install_none r (unfold read_head in e)) (unfold read_head in (clear_again r e))

start-install_from : (r t : ℕ) (s : Log) → (install_from r t s).start ≡ s.start
unfolding install_from
start-install_from zero t s = refl
start-install_from (suc r) t s = start-install_from r (t + 1) _ ∙ unfold bwrite in ground arith

start-write_log_from : (r t : ℕ) (s : Log) → (write_log_from r t s).start ≡ s.start
unfolding write_log_from
start-write_log_from zero t s = refl
start-write_log_from (suc r) t s = start-write_log_from r (t + 1) _ ∙ unfold bwrite in ground arith

start-write_head : (s : Log) → (write_head s).start ≡ s.start
unfolding write_head bwrite
start-write_head s = ground arith

start-commit : (s : Log) → (commit s).start ≡ s.start
unfolding commit install_trans write_log
start-commit s = elim (Bool-cases (ltb 0 s.n)) [
  | inl e ↦ rw e (
      start-write_head (clear (install_trans (write_head (write_log s))))
      ∙ start-install_from (write_head (write_log s)).n 0 (write_head (write_log s))
      ∙ start-write_head (write_log s)
      ∙ start-write_log_from s.n 0 s)
  | inr e ↦ rw e refl
]

module _ (p : Plan) (ok : IsPlan p) where
  -- write_head at the end of write_log either commits, or the machine has stopped.
  committed :
      (q : ℕ) (s : Log)
      → Writing p ok q p.n s
      → ((q ≤ p.n) × Untouched p (write_head s).disk × ((write_head s).power ≡ 0))
        ⊎ ((p.n < q) × Installing p ok (q - p.n - 1) 0 (write_head s))
  unfolding write_head bwrite
  committed q s w = elim (dec_lt 0 s.power) [
    | yes on ↦ inr (omega (arith, w.power), installing on)
    | no off ↦
        inl (omega (arith, w.power), subst (λ d. Untouched p d) (ground arith) w.disk, ground arith)
  ]
    where
      installing : 0 < s.power → Installing p ok (q - p.n - 1) 0 (write_head s)
      installing on = record {
        start = ground (arith, w.agrees.start);
        n = ground (arith, w.agrees.n);
        block = λ i it. ground (arith, w.agrees.block i it);
        cached = λ i it. ground (arith, w.agrees.start, w.cached i it);
        power = ground (arith, w.power);
        disk = record {
          head = ground (arith, w.agrees.start, head_block_n s, w.agrees.n);
          blocks = λ i it.
              ground (arith, w.agrees.start, head_block_block s i, w.agrees.n, w.agrees.block i it);
          copies = λ i it.
              ground (arith, w.agrees.start, w.power, w.copies (omega (arith, w.power)) i it);
          rest = λ b o. ground (arith, w.agrees.start, ok.room, w.disk.same b o.0);
        };
        installed = λ le i it. absurd (omega arith);
      }

  -- A machine that has stopped goes on in memory only.
  stopped :
      (s : Log)
      → s.power ≡ 0
      → Untouched p s.disk
      → Untouched p (write_head (clear (install_trans s))).disk
  unfolding install_trans
  stopped s z u =
      let i = dead_install s.n 0 s z in
      let h = dead_head (clear (install_trans s)) i.1 in
      subst (λ d. Untouched p d) (sym (h.0 ∙ i.0)) u

  logged : (s : Log) → Agrees p ok s → Untouched p s.disk → Writing p ok s.power p.n (write_log s)
  unfolding write_log
  logged s a u = Writing-loop p ok s.power s.n 0 s (omega (arith, a.n)) (record {
    agrees = a;
    power = omega arith;
    disk = u;
    copies = λ le i it. absurd (omega arith);
    cached = λ i it. absurd (omega arith);
  })

  -- Under the conditions of crash_atomic, wherever commit stops among its disk writes the disk is
  -- consistent: the transaction has not begun, is in the log, or is done. With power for 2n + 2
  -- writes it is done.
  commit-Consistent :
      (s : Log)
      → Agrees p ok s
      → 0 < p.n
      → Untouched p s.disk
      → Consistent p (commit s).disk × (2 * p.n + 2 ≤ s.power → Done p (commit s).disk)
  unfolding commit
  commit-Consistent s a pos0 u =
      rw (lt→ltb 0 s.n (omega (arith, a.n))) (after (committed s.power w (logged s a u)))
    where
      w : Log
      w = write_log s

      after :
          ((s.power ≤ p.n) × Untouched p (write_head w).disk × ((write_head w).power ≡ 0))
            ⊎ ((p.n < s.power) × Installing p ok (s.power - p.n - 1) 0 (write_head w))
          → let e = write_head (clear (install_trans (write_head w))) in
            Consistent p e.disk × (2 * p.n + 2 ≤ s.power → Done p e.disk)
      after (inl dead) =
          (inl (stopped (write_head w) dead.2 dead.1), λ le. absurd (omega (arith, dead.0)))
      after (inr live) =
          let h = install_clear p ok (s.power - p.n - 1) (write_head w) live.1 in
          (inr h.0, λ le. h.1 (omega arith))

  recover-Logged :
      (s : Log) (power : ℕ)
      → s.start ≡ p.start
      → Logged p s.disk
      → let d = (recover_from_log (reboot s power)).disk in
        (Logged p d ⊎ Done p d) × (p.n < power → Done p d)
  unfolding recover_from_log
  recover-Logged s power start l = install_clear p ok power (read_head (reboot s power)) installing
    where
      head : s.disk s.start 0 ≡ p.n
      head = rw start (l.head)

      installing : Installing p ok power 0 (read_head (reboot s power))
      installing =
          unfold read_head in
          record {
            start = start;
            n = head;
            block = λ i it.
                read_blocks_block (s.disk s.start 0) (s.disk s.start) s.block i
                  (omega (arith, head))
                ∙ rw start (l.blocks i it);
            cached = λ i it. l.copies i it;
            power = omega arith;
            disk = l;
            installed = λ le i it. absurd (omega arith);
          }

  Untouched-recover :
      (s : Log) (power : ℕ)
      → s.start ≡ p.start
      → Untouched p s.disk
      → Untouched p (recover_from_log (reboot s power)).disk
  Untouched-recover s power start u =
      let r = recover_empty s power (rw start u.head) in
      record {
        head = subst (λ b. (recover_from_log (reboot s power)).disk b 0 ≡ 0) start r.0;
        same = λ b h. r.1 b (λ e. ground (arith, ok.room)) ∙ u.same b h;
      }

  Done-recover :
      (s : Log) (power : ℕ)
      → s.start ≡ p.start
      → Done p s.disk
      → Done p (recover_from_log (reboot s power)).disk
  Done-recover s power start d =
      let r = recover_empty s power (rw start d.head) in
      record {
        head = subst (λ b. (recover_from_log (reboot s power)).disk b 0 ≡ 0) start r.0;
        written =
            λ i it. r.1 (p.block i) (λ e. ground (arith, ok.room, ok.home i it)) ∙ d.written i it;
        rest = λ b o. r.1 b (λ e. ground (arith, ok.room)) ∙ d.rest b o;
      }

  -- A restart with recovery, however soon it is stopped in its turn, leaves a disk consistent that
  -- is consistent for a transaction whose blocks lie outside of the log and fit into it; and with
  -- power for n + 1 writes it leaves the transaction undone or done as a whole, and done if it had
  -- reached the log.
  recover-Consistent :
      (s : Log) (power : ℕ)
      → s.start ≡ p.start
      → Consistent p s.disk
      → let d = (recover_from_log (reboot s power)).disk in
        Consistent p d
        × (p.n < power → Untouched p d ⊎ Done p d)
        × (p.n < power → Logged p s.disk → Done p d)
  recover-Consistent s power start c =
      (recovered c, whole c, λ enough l. (recover-Logged s power start l).1 enough)
    where
      d : ℕ → Block
      d = (recover_from_log (reboot s power)).disk

      recovered : Consistent p s.disk → Consistent p d
      recovered (inl u) = inl (Untouched-recover s power start u)
      recovered (inr (inl l)) = inr (recover-Logged s power start l).0
      recovered (inr (inr o)) = inr (inr (Done-recover s power start o))

      whole : Consistent p s.disk → p.n < power → Untouched p d ⊎ Done p d
      whole (inl u) enough = inl (Untouched-recover s power start u)
      whole (inr (inl l)) enough = inr ((recover-Logged s power start l).1 enough)
      whole (inr (inr o)) enough = inr (Done-recover s power start o)

  -- Crash safety of a commit of at least one block, whose blocks lie outside of the log and fit
  -- into it, whose record in memory agrees with the transaction, and which starts from an empty log
  -- on the disk: stop the machine after any number of the disk writes of commit, restart it, and
  -- let recovery do its n + 1 writes; then either every block outside of the log holds what it held
  -- before the transaction, or the blocks of the transaction hold what the cache held and all
  -- others outside of the log what they held before.
  pub crash_atomic :
      (s : Log) (power : ℕ)
      → Agrees p ok s
      → 0 < p.n
      → Untouched p s.disk
      → p.n < power
      → let d = (recover_from_log (reboot (commit s) power)).disk in Untouched p d ⊎ Done p d
  crash_atomic s power a pos0 u enough =
      (recover-Consistent (commit s) power (start-commit s ∙ a.start)
          (commit-Consistent s a pos0 u).0).1
        enough

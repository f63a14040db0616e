-- ===== src/Log/Install.antt =====
-- install_trans of log.c, from a disk that holds the transaction in its log, stopped at any write.
use os_lab2_team.Prelude.{
  ℕ, zero, suc, ◌+◌, ◌-◌, ◌≤◌, ◌<◌, ◌≡◌, refl, ◌∙◌, ◌⊎◌, inl, inr, arith, dec_lt,
}
use mathlib.Core.Path.{subst}
use native.Mathlib.Numerals.{add-one}
use os_lab2_team.Log.{
  Block, Log, fill, bwrite, install_from, install_trans, head_block, write_head, clear,
}
use os_lab2_team.Log.Header.{head_block_n}
use os_lab2_team.Log.Commit.{Plan, IsPlan, IsHome, Logged, Done}

-- A machine that has stopped writes nothing.
pub dead_install :
    (r t : ℕ) (s : Log)
    → s.power ≡ 0
    → ((install_from r t s).disk ≡ s.disk) × ((install_from r t s).power ≡ 0)
unfolding install_from
dead_install zero t s e = (refl, e)
dead_install (suc r) t s e =
    let next = bwrite (fill s (s.block t) (s.cache (s.start + t + 1))) (s.block t) in
    let off = dead_write s (s.block t) (s.cache (s.start + t + 1)) e in
    let h = dead_install r (t + 1) next off.1 in (h.0 ∙ off.0, h.1)
  where
    dead_write :
        (u : Log) (b : ℕ) (v : Block)
        → u.power ≡ 0
        → ((bwrite (fill u b v) b).disk ≡ u.disk) × ((bwrite (fill u b v) b).power ≡ 0)
    dead_write u b v z = unfold bwrite in (ground arith, ground arith)

pub dead_head :
    (s : Log) → s.power ≡ 0 → ((write_head s).disk ≡ s.disk) × ((write_head s).power ≡ 0)
unfolding write_head bwrite
dead_head s e = (ground arith, ground arith)

module _ (p : Plan) (ok : IsPlan p) where
  -- install_trans before round t, started with power q.
  pub record Installing (q t : ℕ) (s : Log) : Type 0 where
    pub start : s.start ≡ p.start
    pub n : s.n ≡ p.n
    pub block : (i : ℕ) → i < p.n → s.block i ≡ p.block i
    pub cached : (i : ℕ) → i < p.n → s.cache (p.start + i + 1) ≡ p.data_of (p.block i)
    pub power : s.power ≡ q - t
    pub disk : Logged p s.disk
    pub installed : t ≤ q → (i : ℕ) → i < t → s.disk (p.block i) ≡ p.data_of (p.block i)

  Installing-step :
      (q t : ℕ) (s : Log)
      → t < p.n
      → Installing q t s
      → Installing q (suc t) (bwrite (fill s (s.block t) (s.cache (s.start + t + 1))) (s.block t))
  unfolding bwrite
  Installing-step q t s lt w = record {
    start = ground (arith, w.start);
    n = ground (arith, w.n);
    block = λ i it. ground (arith, w.block i it);
    cached = λ i it. ground (arith, at, home, w.cached i it, ok.room);
    power = ground (arith, w.power);
    disk = record {
      head = ground (arith, at, home, w.disk.head, ok.room);
      blocks = λ i it. ground (arith, at, home, w.disk.blocks i it, ok.room);
      copies = λ i it. ground (arith, at, home, w.disk.copies i it, ok.room);
      rest = λ b o. ground (arith, at, o.1 t lt, w.disk.rest b o);
    };
    installed =
        λ le i it. ground (arith, at, w.start, w.power, w.cached t lt, w.installed (omega arith) i);
  }
    where
      at : s.block t ≡ p.block t
      at = w.block t lt

      home : IsHome p (p.block t)
      home = ok.home t lt

  Installing-loop :
      (q r t : ℕ) (s : Log) → t + r ≡ p.n → Installing q t s → Installing q p.n (install_from r t s)
  unfolding install_from
  Installing-loop q zero t s e w = subst (λ k. Installing q k s) (omega arith) w
  Installing-loop q (suc r) t s e w =
      rw (add-one t)
        (Installing-loop q r (suc t) _ (omega arith) (Installing-step q t s (omega arith) w))

  -- The header is cleared once every block is installed, or the machine stops before.
  Installing-clear :
      (q : ℕ) (s : Log)
      → Installing q p.n s
      → let s' = write_head (clear s) in
        (Logged p s'.disk ⊎ Done p s'.disk) × (p.n < q → Done p s'.disk)
  unfolding write_head bwrite
  Installing-clear q s w = elim (dec_lt 0 s.power) [
    | yes on ↦ let d = done on in (inr d, λ lt. d)
    | no off ↦ (inl (stopped (omega arith)), λ lt. absurd (omega (arith, w.power)))
  ]
    where
      head0 : head_block (clear s) 0 ≡ 0
      head0 = head_block_n (clear s)

      stopped : s.power ≡ 0 → Logged p (write_head (clear s)).disk
      stopped z = subst (λ d. Logged p d) (ground arith) w.disk

      done : 0 < s.power → Done p (write_head (clear s)).disk
      done on = record {
        head = ground (arith, w.start, head0);
        written = λ i it.
            ground
              (arith, w.start, ok.home i it, ok.room, w.installed (omega (arith, w.power)) i it);
        rest = λ b o. ground (arith, w.start, ok.room, w.disk.rest b o);
      }

  -- install_trans, the clearing of the header, and what the disk holds then.
  pub install_clear :
      (q : ℕ) (s : Log)
      → Installing q 0 s
      → let s' = write_head (clear (install_trans s)) in
        (Logged p s'.disk ⊎ Done p s'.disk) × (p.n < q → Done p s'.disk)
  unfolding install_trans
  install_clear q s w =
      Installing-clear q (install_from s.n 0 s) (Installing-loop q s.n 0 s (omega (arith, w.n)) w)

-- ===== src/Log/Commit.antt =====
-- The disk through commit of log.c, stopped at any of its writes.
use os_lab2_team.Prelude.{ℕ, zero, suc, ◌+◌, ◌-◌, ◌≤◌, ◌<◌, ◌≡◌, ◌≢◌, ◌⊎◌, arith}
use mathlib.Core.Path.{subst}
use native.Mathlib.Numerals.{add-one}
use os_lab2_team.Log.{Block, Log, fill, bwrite, write_log_from}

-- A transaction: the log's place, the blocks to write, what they shall hold, and the disk before.
pub record Plan : Type 0 where
  pub start : ℕ
  pub size : ℕ
  pub n : ℕ
  pub block : ℕ → ℕ
  pub data_of : ℕ → Block
  pub old : ℕ → Block

-- A block outside of the log.
abbrev pub IsHome : Plan → ℕ → Type 0
IsHome p b = (b < p.start) ⊎ (p.start + p.size ≤ b)

-- The blocks to write lie outside of the log, and fit into it.
pub record IsPlan (p : Plan) : Type 0 where
  pub home : (i : ℕ) → i < p.n → IsHome p (p.block i)
  pub room : p.n < p.size

abbrev IsOther : Plan → ℕ → Type 0
IsOther p b = IsHome p b × ((i : ℕ) → i < p.n → p.block i ≢ b)

-- Nothing of the transaction counts: the log is empty, and every block is as before.
pub record Untouched (p : Plan) (d : ℕ → Block) : Type 0 where
  pub head : d p.start 0 ≡ 0
  pub same : (b : ℕ) → IsHome p b → d b ≡ p.old b

-- The transaction is in the log, and may be installed in part.
pub record Logged (p : Plan) (d : ℕ → Block) : Type 0 where
  pub head : d p.start 0 ≡ p.n
  pub blocks : (i : ℕ) → i < p.n → d p.start (suc i) ≡ p.block i
  pub copies : (i : ℕ) → i < p.n → d (p.start + i + 1) ≡ p.data_of (p.block i)
  pub rest : (b : ℕ) → IsOther p b → d b ≡ p.old b

-- The log is empty, and every block of the transaction is written.
pub record Done (p : Plan) (d : ℕ → Block) : Type 0 where
  pub head : d p.start 0 ≡ 0
  pub written : (i : ℕ) → i < p.n → d (p.block i) ≡ p.data_of (p.block i)
  pub rest : (b : ℕ) → IsOther p b → d b ≡ p.old b

module _ (p : Plan) (ok : IsPlan p) where
  -- The memory agrees with the plan.
  pub record Agrees (s : Log) : Type 0 where
    pub start : s.start ≡ p.start
    pub n : s.n ≡ p.n
    pub block : (i : ℕ) → i < p.n → s.block i ≡ p.block i
    pub home : (b : ℕ) → IsHome p b → s.cache b ≡ p.data_of b

  -- write_log before round t, started with power q.
  pub record Writing (q t : ℕ) (s : Log) : Type 0 where
    pub agrees : Agrees s
    pub power : s.power ≡ q - t
    pub disk : Untouched p s.disk
    pub copies : t ≤ q → (i : ℕ) → i < t → s.disk (p.start + i + 1) ≡ p.data_of (p.block i)
    pub cached : (i : ℕ) → i < t → s.cache (p.start + i + 1) ≡ p.data_of (p.block i)

  Writing-step :
      (q t : ℕ) (s : Log)
      → t < p.n
      → Writing q t s
      → Writing q
          (suc t)
          (bwrite (fill s (s.start + t + 1) (s.cache (s.block t))) (s.start + t + 1))
  unfolding bwrite
  Writing-step q t s lt w = record {
    agrees = record {
      start = ground (arith, w.agrees.start);
      n = ground (arith, w.agrees.n);
      block = λ i it. ground (arith, w.agrees.block i it);
      home = λ b h. ground (arith, w.agrees.start, w.agrees.home b h, ok.room);
    };
    power = ground (arith, w.power);
    disk = record {
      head = ground (arith, w.agrees.start, w.disk.head, ok.room);
      same = λ b h. ground (arith, w.agrees.start, w.disk.same b h, ok.room);
    };
    copies = λ le i it. ground (arith, w.agrees.start, w.power, new, w.copies (omega arith) i);
    cached = λ i it. ground (arith, w.agrees.start, new, w.cached i);
  }
    where
      new : s.cache (s.block t) ≡ p.data_of (p.block t)
      new = rw (w.agrees.block t lt) (w.agrees.home (p.block t) (ok.home t lt))

  pub Writing-loop :
      (q r t : ℕ) (s : Log) → t + r ≡ p.n → Writing q t s → Writing q p.n (write_log_from r t s)
  unfolding write_log_from
  Writing-loop q zero t s e w = subst (λ k. Writing q k s) (omega arith) w
  Writing-loop q (suc r) t s e w =
      rw (add-one t) (Writing-loop q r (suc t) _ (omega arith) (Writing-step q t s (omega arith) w))

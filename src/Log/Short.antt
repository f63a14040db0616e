-- ===== src/Log/Short.antt =====
-- log.c on the log of LOGSIZE blocks that mkfs makes.
use os_lab2_team.Prelude.{
  ℕ, zero, suc, ◌+◌, ◌<◌, ◌≡◌, refl, ◌≢◌, false, none, some, List, [], ◌∷◌, arith, dec_lt,
}
use os_lab2_team.Log.{Log, update, logsize, begin_op, slot_of, log_write}
use os_lab2_team.Log.Ops.{
  Ops, total, spend, spend_rest, begin, write, Reach, here, later, slot_of_lem, spend-some,
}

-- An operation that has a block left, if any has.
spends : (xs : List ℕ) → 0 < total xs → (i : ℕ) × (ys : List ℕ) × (spend i xs ≡ some ys)
unfolding spend spend_rest
spends [] lt = absurd (ground arith)
spends (zero ∷ xs) lt = let h = spends xs (ground arith) in (suc h.0, zero ∷ h.1, rw h.2 refl)
spends (suc x ∷ xs) lt = (0, x ∷ xs, refl)

-- log_write of a block that is not in the log.
fresh_write :
    (s : Log) (b : ℕ)
    → s.size ≡ logsize
    → 0 < s.outstanding
    → s.n < 29
    → ((j : ℕ) → j < s.n → s.block j ≢ b)
    → log_write s b ≡ some (record s { block = update s.block s.n b; n = s.n + 1 })
unfolding log_write
fresh_write s b e open_ lt fresh = ground (arith, last)
  where
    last : slot_of s.n 0 s.block b ≡ s.n
    last =
        let h = slot_of_lem s.n 0 s.block b in
        elim (dec_lt (slot_of s.n 0 s.block b) s.n) [
          | yes l ↦ absurd (fresh (slot_of s.n 0 s.block b) l (h.3 (omega arith)))
          | no g ↦ omega (arith, h.1)
        ]

-- Operations that may still write `30 - n` blocks, with the blocks 0 to n - 1 in the log.
record Filling (o : Ops) : Type 0 where
  size : o.log.size ≡ logsize
  running : 0 < o.log.outstanding
  promised : o.log.n + total o.left ≡ 30
  blocks : (j : ℕ) → j < o.log.n → o.log.block j ≡ j

write-Filling :
    (o : Ops) (xs : List ℕ)
    → Filling o
    → suc (total xs) ≡ total o.left
    → Filling (record {
      log = record o.log { block = update o.log.block o.log.n o.log.n; n = o.log.n + 1 };
      left = xs;
    })
write-Filling o xs f e = record {
  size = f.size;
  running = f.running;
  promised = omega (arith, f.promised);
  blocks = λ j lt. ground (arith, f.blocks j);
}

fill_up :
    (r : ℕ) (o p : Ops)
    → Reach o p
    → Filling p
    → p.log.n + r ≡ 29
    → (q : Ops) × Reach o q × Filling q × (q.log.n ≡ 29)
fill_up zero o p h f e = (p, h, f, omega arith)
fill_up (suc r) o p h f e =
    let w = spends p.left (omega (arith, f.promised)) in
    let k = spend-some w.0 p.left w.1 w.2 in
    fill_up r o _
      (later h (
        write w.0 p.log.n _ w.1 w.2 (
          fresh_write p.log p.log.n f.size f.running (omega arith)
            (λ j lt m. absurd (omega (arith, f.blocks j lt))))))
      (write-Filling p w.1 f k.1) (omega arith)

begins :
    (s : Log)
    → s.committing ≡ false
    → s.n ≡ 0
    → s.outstanding < 3
    → begin_op s ≡ some (record s { outstanding = s.outstanding + 1 })
unfolding begin_op
begins s c e lt = ground arith

three :
    (s : Log)
    → s.size ≡ logsize
    → s.committing ≡ false
    → s.outstanding ≡ 0
    → s.n ≡ 0
    → (p : Ops) × Reach (record { log = s; left = [] }) p × Filling p × (p.log.n ≡ 0)
three s size c z e = (
  _,
  later
      (later (later here (begin _ (begins s c e (omega arith))))
        (begin _ (begins (record s { outstanding = s.outstanding + 1 }) c e (omega arith))))
      (begin _ (begins (record s { outstanding = s.outstanding + 1 + 1 }) c e (omega arith))),
  record {
    size = size;
    running = omega arith;
    promised = omega arith;
    blocks = λ j lt. absurd (omega arith);
  },
  e,
)

full : (s : Log) (b : ℕ) → s.size ≡ logsize → s.n ≡ 29 → log_write s b ≡ none
unfolding log_write
full s b e f = ground arith

-- With a log of just LOGSIZE blocks, which mkfs makes, the reservations of begin_op are not enough:
-- from an empty log without operations, begin_op lets operations in that come to a point, by
-- log_writes within their MAXOPBLOCKS blocks each, where one of them has a block left to write and
-- log_write of any block panics.
pub short_log :
    (s : Log)
    → s.size ≡ logsize
    → s.committing ≡ false
    → s.outstanding ≡ 0
    → s.n ≡ 0
    → (p : Ops) × Reach (record { log = s; left = [] }) p
      × ((i : ℕ) × (xs : List ℕ) × (spend i p.left ≡ some xs))
      × ((b : ℕ) → log_write p.log b ≡ none)
short_log s size c z e =
    let t = three s size c z e in
    let u = fill_up 29 (record { log = s; left = [] }) t.0 t.1 t.2 (omega (arith, t.3)) in
    (u.0, u.1, spends u.0.left (omega (arith, u.2.promised, u.3)), λ b. full u.0.log b u.2.size u.3)

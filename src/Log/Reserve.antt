-- ===== src/Log/Reserve.antt =====
-- What begin_op, log_write and end_op keep, and that none of them panics.
use os_lab2_team.Prelude.{
  ℕ, zero, suc, ◌+◌, ◌<◌, ◌≡◌, refl, sym, ◌∙◌, ◌≢◌, ◌⊎◌, inl, inr, Bool, true, false, none, some,
  List, ◌∷◌, arith, ltb, ◌==◌, if◌then◌else◌, Bool-cases, Option-cases,
}
use os_lab2_team.Log.{
  Log, update, maxopblocks, logsize, bwrite, fill, install_from, install_trans, write_log_from,
  write_log, write_head, clear, commit, begin_op, end_enter, end_finish, slot_of, log_write,
}
use os_lab2_team.Log.Ops.{
  Ops, count, spend, leave, begin, write, enter, finish, Reach, here, later, Reserved, spend-some,
  leave_lem, slot_of_lem, total_lem,
}

-- commit leaves the log empty and the rest of the memory's record as it was.
record Emptied (s t : Log) : Type 0 where
  n : t.n ≡ 0
  size : t.size ≡ s.size
  outstanding : t.outstanding ≡ s.outstanding

record Same (s t : Log) : Type 0 where
  n : t.n ≡ s.n
  size : t.size ≡ s.size
  outstanding : t.outstanding ≡ s.outstanding

Same-bwrite : (s : Log) (b : ℕ) → Same s (bwrite s b)
unfolding bwrite
Same-bwrite s b = record { n = ground arith; size = ground arith; outstanding = ground arith }

Same-install_from : (r i : ℕ) (s : Log) → Same s (install_from r i s)
unfolding install_from
Same-install_from zero i s = record { n = refl; size = refl; outstanding = refl }
Same-install_from (suc r) i s =
    let t = fill s (s.block i) (s.cache (s.start + i + 1)) in
    let h = Same-install_from r (i + 1) (bwrite t (s.block i)) in
    let g = Same-bwrite t (s.block i) in
    record { n = h.n ∙ g.n; size = h.size ∙ g.size; outstanding = h.outstanding ∙ g.outstanding }

Same-write_log_from : (r i : ℕ) (s : Log) → Same s (write_log_from r i s)
unfolding write_log_from
Same-write_log_from zero i s = record { n = refl; size = refl; outstanding = refl }
Same-write_log_from (suc r) i s =
    let t = fill s (s.start + i + 1) (s.cache (s.block i)) in
    let h = Same-write_log_from r (i + 1) (bwrite t (s.start + i + 1)) in
    let g = Same-bwrite t (s.start + i + 1) in
    record { n = h.n ∙ g.n; size = h.size ∙ g.size; outstanding = h.outstanding ∙ g.outstanding }

Same-write_head : (s : Log) → Same s (write_head s)
unfolding write_head bwrite
Same-write_head s = record { n = ground arith; size = ground arith; outstanding = ground arith }

commit-Emptied : (s : Log) → Emptied s (commit s)
unfolding commit install_trans write_log
commit-Emptied s =
    let a = Same-write_log_from s.n 0 s in
    let b = Same-write_head (write_log s) in
    let c = Same-install_from (write_head (write_log s)).n 0 (write_head (write_log s)) in
    let d = Same-write_head (clear (install_trans (write_head (write_log s)))) in
    elim (Bool-cases (ltb 0 s.n)) [
      | inl e ↦ record {
        n = rw e d.n;
        size = rw e (d.size ∙ c.size ∙ b.size ∙ a.size);
        outstanding = rw e (d.outstanding ∙ c.outstanding ∙ b.outstanding ∙ a.outstanding);
      }
      | inr e ↦ record { n = rw e (none_logged e); size = rw e refl; outstanding = rw e refl }
    ]
  where
    none_logged : ltb 0 s.n ≡ false → s.n ≡ 0
    none_logged e = ground arith

update-distinct :
    (s : Log) (b : ℕ)
    → ((i j : ℕ) → i < j → j < s.n → s.block i ≢ s.block j)
    → let k = slot_of s.n 0 s.block b in
      (i j : ℕ)
      → i < j
      → j < (if k == s.n then s.n + 1 else s.n)
      → update s.block k b i ≢ update s.block k b j
update-distinct s b d i j lt le =
    let h = slot_of_lem s.n 0 s.block b in ground (arith, h.0, h.1, h.2 i, h.2 j, h.3, d i j lt)

begin_op-Reserved :
    (o : Ops) (t : Log)
    → begin_op o.log ≡ some t
    → Reserved o
    → Reserved (record { log = t; left = maxopblocks ∷ o.left })
unfolding begin_op
begin_op-Reserved o t e v =
    let l = total_lem o.left v.each in
    record {
      all = ground (arith, v.all);
      each = ground (arith, v.each);
      space = ground (arith, v.all, v.space, l);
      busy = λ c. ground (arith);
      idle = λ f z. absurd (ground arith);
      distinct = λ i j lt le. ground (arith, v.distinct i j lt);
    }

log_write-Reserved :
    (o : Ops) (i b : ℕ) (t : Log) (xs : List ℕ)
    → spend i o.left ≡ some xs
    → log_write o.log b ≡ some t
    → Reserved o
    → Reserved (record { log = t; left = xs })
unfolding log_write
log_write-Reserved o i b t xs e f v =
    let k = spend-some i o.left xs e in
    let d = update-distinct o.log b v.distinct in
    record {
      all = ground (arith, v.all, k);
      each = k.2 v.each;
      space = ground (arith, v.space, k);
      busy = λ c. ground (arith, v.busy);
      idle = λ g z. absurd (ground (arith, k, v.all));
      distinct = λ p q lt le. ground (arith, d p q lt);
    }

enter-Reserved :
    (o : Ops) (i : ℕ) (last : Bool) (t : Log)
    → i < count o.left
    → end_enter o.log ≡ some (last, t)
    → Reserved o
    → Reserved (record { log = t; left = leave i o.left })
unfolding end_enter
enter-Reserved o i last t lt e v =
    let k = leave_lem i o.left lt v.each in
    record {
      all = ground (arith, v.all, k);
      each = k.2;
      space = ground (arith, v.space, k);
      busy = λ c. ground (arith, v.busy);
      idle = λ g z. absurd (ground arith);
      distinct = λ p q pq le. ground (arith, v.distinct p q pq);
    }

finish-Reserved :
    (o : Ops)
    → o.log.committing ≡ true
    → Reserved o
    → Reserved (record o { log = end_finish (true, o.log) })
unfolding end_finish
finish-Reserved o c v =
    let k = commit-Emptied o.log in
    record {
      all = v.all ∙ sym k.outstanding;
      each = v.each;
      space = rw k.n (omega (arith, v.space));
      busy = λ f. ground arith;
      idle = λ f z. k.n;
      distinct = λ p q pq le. absurd (omega (arith, k.n));
    }

-- From a state with the following properties, as a log without operations and blocks, they hold on
-- whatever operations begin, write, end and commit in whatever order: each operation may still
-- write the blocks that it has left of its MAXOPBLOCKS without going over LOGSIZE blocks, a commit
-- runs only when no operation is open, the log is empty when nothing runs, and no block stands in
-- the log twice.
pub Reserved-Reach : (o p : Ops) → Reserved o → Reach o p → Reserved p
Reserved-Reach o p v here = v
Reserved-Reach o p v (later r (begin t e)) = begin_op-Reserved _ t e (Reserved-Reach o _ v r)
Reserved-Reach o p v (later r (write i b t xs e f)) =
    log_write-Reserved _ i b t xs e f (Reserved-Reach o _ v r)
Reserved-Reach o p v (later r (enter i last t lt e)) =
    enter-Reserved _ i last t lt e (Reserved-Reach o _ v r)
Reserved-Reach o p v (later r (finish c)) = finish-Reserved _ c (Reserved-Reach o _ v r)

write_some :
    (o : Ops) (i b : ℕ) (xs : List ℕ)
    → Reserved o
    → logsize < o.log.size
    → spend i o.left ≡ some xs
    → log_write o.log b ≢ none
unfolding log_write
write_some o i b xs v room e f =
    let k = spend-some i o.left xs e in
    let l = total_lem o.left v.each in ground (arith, v.space, v.all, k, l)

write_room :
    (o : Ops) (i b : ℕ) (xs : List ℕ)
    → Reserved o
    → logsize < o.log.size
    → spend i o.left ≡ some xs
    → ((t : Log) × (log_write o.log b ≡ some t))
write_room o i b xs v room e = elim (Option-cases (log_write o.log b)) [
  | inl f ↦ absurd (write_some o i b xs v room e f)
  | inr f ↦ f
]

end_some : (o : Ops) (i : ℕ) → Reserved o → i < count o.left → end_enter o.log ≢ none
unfolding end_enter
end_some o i v lt f = ground (arith, v.all, v.busy)

end_room :
    (o : Ops) (i : ℕ)
    → Reserved o
    → i < count o.left
    → ((r : Bool × Log) × (end_enter o.log ≡ some r))
end_room o i v lt = elim (Option-cases (end_enter o.log)) [
  | inl f ↦ absurd (end_some o i v lt f)
  | inr f ↦ f
]

begin_room :
    (o : Ops)
    → Reserved o
    → begin_op o.log ≡ none
    → (o.log.committing ≡ true) ⊎ (0 < o.log.outstanding)
unfolding begin_op
begin_room o v e = ground (arith, v.idle)

-- However the operations of the file system interleave, from a log whose reservations hold: if the
-- log has more than LOGSIZE blocks, log_write succeeds as long as the operation has a block left of
-- its MAXOPBLOCKS; end_op succeeds for every open operation; and begin_op makes its caller wait
-- only while a commit runs or an operation is open.
pub no_panic :
    (o p : Ops)
    → Reserved o
    → Reach o p
    → ((i b : ℕ) (xs : List ℕ)
        → logsize < p.log.size
        → spend i p.left ≡ some xs
        → ((t : Log) × (log_write p.log b ≡ some t)))
      × ((i : ℕ) → i < count p.left → ((r : Bool × Log) × (end_enter p.log ≡ some r)))
      × (begin_op p.log ≡ none → (p.log.committing ≡ true) ⊎ (0 < p.log.outstanding))
no_panic o p v r =
    let w = Reserved-Reach o p v r in
    (
      λ i b xs room e. write_room p i b xs w room e,
      λ i lt. end_room p i w lt,
      λ e. begin_room p w e,
    )

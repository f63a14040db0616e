-- ===== src/Bio/Writes.antt =====
-- The writing of blocks: bwrite of bio.c, and the marking of a buffer as dirty.
use os_lab2_team.Prelude.{
  ◌⊎◌, inl, inr, Bool-cases, ℕ, ◌≤◌, ◌<◌, ◌≡◌, refl, sym, ap, ◌∙◌, ◌≢◌, Bool, true, false, ◌&&◌,
  none, some, List, arith, leb, ◌==◌, if◌then◌else◌, ==_iff,
}
use os_lab2_team.Bio.{holdingsleep, Cache, set_buf, iderw, bwrite}
use os_lab2_team.Bio.Ops.{Holds, update-Sound}
use os_lab2_team.Bio.View.{Sound}
use os_lab2_team.Bio.Recycle.{set_same}

-- A client that changes the bytes of its buffer marks it as dirty (log_write).
abbrev pub edit_buf : ℕ → (ℕ → ℕ) → Cache → Cache
edit_buf b bytes s = set_buf b (record (s.buf b) { bytes = bytes; dirty = true }) s

abbrev pub put_block : ℕ → (ℕ → ℕ) → (ℕ → ℕ → ℕ) → ℕ → ℕ → ℕ
put_block k bytes v n = if n == k then bytes else v n

pub edit-Sound :
    (held : List ℕ) (v : ℕ → ℕ → ℕ) (s : Cache) (b k : ℕ) (bytes : ℕ → ℕ)
    → Holds held v k b s
    → (s.buf b).valid ≡ true
    → Sound held (put_block (s.buf b).blockno bytes v) (edit_buf b bytes s)
edit-Sound held v s b k bytes g ok =
    update-Sound held v (put_block (s.buf b).blockno bytes v) s b
      (record (s.buf b) { bytes = bytes; dirty = true }) s.disk g.sound g.low g.dev
      (refl, refl, refl, ok) (sym (own (s.buf b).blockno)) (λ e. absurd (clash e))
      (λ n ne. (other n (s.buf b).blockno ne, refl))
  where
    clash : true ≡ false → ⊥
    clash e = ground arith

    own : (k : ℕ) → put_block k bytes v k ≡ bytes
    own k = rw ((==_iff k k).1 refl) refl

    other : (n k : ℕ) → n ≢ k → put_block k bytes v n ≡ v n
    other n k ne = rw (differ ne) refl
      where
        differ : n ≢ k → (n == k) ≡ false
        differ ne = ground arith

abbrev written : ℕ → Cache → Cache
written b s = record (set_buf b (record (s.buf b) { dirty = false; valid = true }) s) {
  disk = λ k. if k == (s.buf b).blockno then (s.buf b).bytes else s.disk k;
}

iderw_out :
    (me b : ℕ) (s : Cache)
    → holdingsleep me (s.buf b).lock ≡ true
    → (s.buf b).dirty ≡ true
    → (s.buf b).dev ≡ 1
    → iderw me b s ≡ (if leb s.disksize (s.buf b).blockno then none else some (written b s))
unfolding iderw
iderw_out me b s own d g = rw (own, d, (==_iff (s.buf b).dev 1).1 g) (go (s.buf b).valid)
  where
    go :
        (c : Bool)
        → (if c && false
            then none
            else (if leb s.disksize (s.buf b).blockno then none else some (written b s)))
          ≡ (if leb s.disksize (s.buf b).blockno then none else some (written b s))
    go true = refl
    go false = refl

marked-Holds :
    (held : List ℕ) (v : ℕ → ℕ → ℕ) (s : Cache) (b k : ℕ)
    → Holds held v k b s
    → (s.buf b).valid ≡ true
    → Holds held v k b (set_buf b (record (s.buf b) { dirty = true }) s)
marked-Holds held v s b k g ok = record {
  sound =
      update-Sound held v v s b (record (s.buf b) { dirty = true }) s.disk g.sound g.low g.dev
        (refl, refl, refl, ok) (g.sound.cached b g.low g.dev ok) (λ e. absurd (clash e))
        (λ n ne. (refl, refl));
  low = g.low;
  dev = ap (λ x. x.dev) (set_same s b b _ refl) ∙ g.dev;
  block = ap (λ x. x.blockno) (set_same s b b _ refl) ∙ g.block;
}
  where
    clash : true ≡ false → ⊥
    clash e = ground arith

written-Sound :
    (held : List ℕ) (v : ℕ → ℕ → ℕ) (s : Cache) (b k : ℕ)
    → Holds held v k b s
    → (s.buf b).valid ≡ true
    → Sound held v (written b s) × ((written b s).disk k ≡ v k)
written-Sound held v s b k g ok = (
  update-Sound held v v s b (record (s.buf b) { dirty = false; valid = true }) (written b s).disk
      g.sound g.low g.dev (refl, refl, refl, refl) right (λ e. own (s.buf b).blockno refl ∙ right)
      (λ n ne. (refl, other n ne)),
  own k (sym g.block) ∙ right ∙ ap v g.block,
)
  where
    right : (s.buf b).bytes ≡ v (s.buf b).blockno
    right = g.sound.cached b g.low g.dev ok

    own : (n : ℕ) → n ≡ (s.buf b).blockno → (written b s).disk n ≡ (s.buf b).bytes
    own n e = rw ((==_iff n (s.buf b).blockno).1 e) refl

    other : (n : ℕ) → n ≢ (s.buf b).blockno → (written b s).disk n ≡ s.disk n
    other n ne = rw (differ ne) refl
      where
        differ : n ≢ (s.buf b).blockno → (n == (s.buf b).blockno) ≡ false
        differ ne = ground arith

-- In a cache that agrees with the contents of the blocks: bwrite of a buffer that was read brings the
-- contents of its block to the disk, and leaves the contents of every block as the clients see them, if the
-- caller holds the lock of the buffer and the block is on the disk; if one of the two fails, it panics.
pub bwrite_lem :
    (me : ℕ) (held : List ℕ) (v : ℕ → ℕ → ℕ) (s : Cache) (b k : ℕ)
    → Holds held v k b s
    → (s.buf b).valid ≡ true
    → (holdingsleep me (s.buf b).lock ≡ true
        → k < s.disksize
        → (t : Cache) × (bwrite me b s ≡ some t) × Sound held v t × (t.disk k ≡ v k))
      × ((holdingsleep me (s.buf b).lock ≡ false) ⊎ (s.disksize ≤ k) → bwrite me b s ≡ none)
unfolding bwrite
bwrite_lem me held v s b k g ok = (
  λ own lt.
      let w = written-Sound held v t b k m (ap (λ x. x.valid) (set_same s b b _ refl) ∙ ok) in
      (written b t, held_out own ∙ fits lt, w.0, w.1),
  failed,
)
  where
    t : Cache
    t = set_buf b (record (s.buf b) { dirty = true }) s

    m : Holds held v k b t
    m = marked-Holds held v s b k g ok

    held_out :
        holdingsleep me (s.buf b).lock ≡ true
        → bwrite me b s ≡ (if leb s.disksize (t.buf b).blockno then none else some (written b t))
    held_out own = rw own (
        iderw_out me b t (ap (λ x. holdingsleep me x.lock) (set_same s b b _ refl) ∙ own)
          (ap (λ x. x.dirty) (set_same s b b _ refl)) m.dev)

    failed : (holdingsleep me (s.buf b).lock ≡ false) ⊎ (s.disksize ≤ k) → bwrite me b s ≡ none
    failed (inl bad) = rw bad refl
    failed (inr le) = elim (Bool-cases (holdingsleep me (s.buf b).lock)) [
      | inl own ↦ held_out own ∙ beyond le
      | inr bad ↦ rw bad refl
    ]
      where
        beyond :
            s.disksize ≤ k
            → (if leb s.disksize (t.buf b).blockno then none else some (written b t)) ≡ none
        beyond le = rw m.block (rw (large le) refl)
          where
            large : s.disksize ≤ k → leb s.disksize k ≡ true
            large le = ground arith

    fits :
        k < s.disksize
        → (if leb s.disksize (t.buf b).blockno then none else some (written b t))
          ≡ some (written b t)
    fits lt = rw m.block (rw (small lt) refl)
      where
        small : k < s.disksize → leb s.disksize k ≡ false
        small lt = ground arith

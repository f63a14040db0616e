-- ===== src/Bio/Blocks.antt =====
-- bread of bio.c: what the clients read.
use os_lab2_team.Prelude.{
  ◌≢◌, ℕ, ◌+◌, ◌%◌, ◌^◌, ◌<◌, ◌≡◌, refl, sym, ap, ◌∙◌, inl, inr, Bool, true, false, Option, none,
  some, List, ◌∷◌, arith, leb, if◌then◌else◌, ==_iff, Bool-cases, length,
}
use mathlib.Core.Path.{subst}
use os_lab2_team.Bio.{
  SleepLock, held_by, holdingsleep, Buf, Cache, set_buf, find_block, find_unused, recycle,
  cached_or, bget_table, Fetch, panics, waits, gets, acquired, bget, iderw, with_buf, read_in,
  bread,
}
use os_lab2_team.Bio.Search.{find_unused_total}
use os_lab2_team.Bio.View.{Sound, listed_below, lock-Sound}
use os_lab2_team.Bio.Recycle.{set_same}
use os_lab2_team.Bio.Ops.{Holds, HoldsSome, bget_table_lem, fill-Holds}

-- What bread does: the buffer of block k with its contents, locked by the caller, or a sleep for a lock
-- that is taken.
abbrev pub ReadSome : ℕ → List ℕ → (ℕ → ℕ → ℕ) → ℕ → Fetch → Type 0
ReadSome me held v k panics = Unit {0}
ReadSome me held v k (waits b s) = Holds (b ∷ held) v k b s × ((s.buf b).lock.locked ≡ true)
ReadSome me held v k (gets b s) =
    Holds (b ∷ held) v k b s
    × (holdingsleep me (s.buf b).lock ≡ true)
    × ((s.buf b).valid ≡ true)
    × ((s.buf b).bytes ≡ v k)

-- After bget.
abbrev GetSome : ℕ → List ℕ → (ℕ → ℕ → ℕ) → ℕ → Fetch → Type 0
GetSome me held v k panics = Unit {0}
GetSome me held v k (waits b s) = Holds (b ∷ held) v k b s × ((s.buf b).lock.locked ≡ true)
GetSome me held v k (gets b s) = Holds (b ∷ held) v k b s × (holdingsleep me (s.buf b).lock ≡ true)

locked-Holds :
    (held : List ℕ) (v : ℕ → ℕ → ℕ) (k b : ℕ) (s : Cache) (l : SleepLock)
    → Holds held v k b s
    → Holds held v k b (set_buf b (record (s.buf b) { lock = l }) s)
locked-Holds held v k b s l g = record {
  sound = lock-Sound held v s b l g.sound;
  low = g.low;
  dev = ap (λ x. x.dev) (set_same s b b _ refl) ∙ g.dev;
  block = ap (λ x. x.blockno) (set_same s b b _ refl) ∙ g.block;
}

own_lock : (me : ℕ) → holdingsleep me (held_by me) ≡ true
own_lock me = (==_iff me me).1 refl

acquired_lem :
    (me : ℕ) (held : List ℕ) (v : ℕ → ℕ → ℕ) (k : ℕ) (o : Option (ℕ × Cache))
    → HoldsSome held v k o
    → GetSome me held v k (acquired me o)
acquired_lem me held v k none g = tt
acquired_lem me held v k (some (b, s)) g = elim (Bool-cases (s.buf b).lock.locked) [
  | inl e ↦ rw e (g, e)
  | inr e ↦ rw e (
    locked-Holds (b ∷ held) v k b s (held_by me) g,
    ap (λ x. holdingsleep me x.lock) (set_same s b b _ refl) ∙ own_lock me,
  )
]

iderw_fill :
    (me b : ℕ) (s : Cache)
    → holdingsleep me (s.buf b).lock ≡ true
    → (s.buf b).valid ≡ false
    → (s.buf b).dirty ≡ false
    → (s.buf b).dev ≡ 1
    → iderw me b s ≡ (
        if leb s.disksize (s.buf b).blockno
        then none
        else some
            (set_buf b (record (s.buf b) { bytes = s.disk (s.buf b).blockno; valid = true }) s))
unfolding iderw
iderw_fill me b s own e d g = rw (own, e, d, (==_iff (s.buf b).dev 1).1 g) refl

read_in_lem :
    (me : ℕ) (held : List ℕ) (v : ℕ → ℕ → ℕ) (k : ℕ) (o : Fetch)
    → GetSome me held v k o
    → ReadSome me held v k (read_in me o)
read_in_lem me held v k panics g = tt
read_in_lem me held v k (waits b s) g = g
read_in_lem me held v k (gets b s) (g, own) = elim (Bool-cases (s.buf b).valid) [
  | inl e ↦ rw e (g, own, e, g.sound.cached b g.low g.dev e ∙ ap v g.block)
  | inr e ↦
      rw (e, iderw_fill me b s own e (g.sound.settled b g.low e) g.dev)
        (go (leb s.disksize (s.buf b).blockno) (fill-Holds (b ∷ held) v k b s g e))
]
  where
    w : Buf
    w = record (s.buf b) { bytes = s.disk (s.buf b).blockno; valid = true }

    go :
        (c : Bool)
        → ((t : Cache) × (set_buf b w s ≡ t)
            × Holds (b ∷ held) v k b t
            × ((t.buf b).valid ≡ true)
            × ((t.buf b).bytes ≡ v k))
        → ReadSome me held v k (with_buf b (if c then none else some (set_buf b w s)))
    go true f = tt
    go false f =
        subst (λ t. ReadSome me held v k (gets b t)) (sym f.1)
          (
            f.2,
            subst (λ t. holdingsleep me (t.buf b).lock ≡ true) f.1
                (ap (λ x. holdingsleep me x.lock) (set_same s b b w refl) ∙ own),
            f.3,
            f.4,
          )

bget_total :
    (held : List ℕ) (v : ℕ → ℕ → ℕ) (s : Cache) (k i : ℕ)
    → Sound held v s
    → i < 30
    → (s.buf i).refcnt ≡ 0
    → (s.buf i).dirty ≡ false
    → (r : ℕ × Cache) × (bget_table 1 k s ≡ some r) × (r.1.disksize ≡ s.disksize)
unfolding bget_table cached_or recycle
bget_total held v s k i h low e d =
    let u = find_unused_total s.order s.buf i (listed_below held v s h i low) e d in
    go (find_block s.order s.buf 1 k) (rec u)
  where
    rec :
        (b : ℕ) × (find_unused s.order s.buf ≡ some b)
        → (r : ℕ × Cache) × (recycle 1 k s (find_unused s.order s.buf) ≡ some r)
          × (r.1.disksize ≡ s.disksize)
    rec u = (
      (
        u.0,
        set_buf u.0
            (record (s.buf u.0) { dev = 1; blockno = k; refcnt = 1; valid = false; dirty = false })
            s,
      ),
      rw u.1 refl,
      refl,
    )

    go :
        (o : Option ℕ)
        → ((r : ℕ × Cache) × (recycle 1 k s (find_unused s.order s.buf) ≡ some r)
            × (r.1.disksize ≡ s.disksize))
        → (r : ℕ × Cache) × (cached_or 1 k s o ≡ some r) × (r.1.disksize ≡ s.disksize)
    go none r = r
    go (some b) r = (
      (b, set_buf b (record (s.buf b) { refcnt = ((s.buf b).refcnt + 1) % 2 ^ 32 }) s),
      refl,
      refl,
    )

IsDone : Fetch → Type 0
IsDone panics = ⊥
IsDone (waits b s) = Unit {0}
IsDone (gets b s) = Unit {0}

read_total :
    (me : ℕ) (held : List ℕ) (v : ℕ → ℕ → ℕ) (k b : ℕ) (s : Cache)
    → Holds held v k b s
    → holdingsleep me (s.buf b).lock ≡ true
    → k < s.disksize
    → IsDone (read_in me (gets b s))
unfolding IsDone
read_total me held v k b s g own lt = elim (Bool-cases (s.buf b).valid) [
  | inl e ↦ rw e tt
  | inr e ↦ rw (e, iderw_fill me b s own e (g.sound.settled b g.low e) g.dev, inside) tt
]
  where
    inside : leb s.disksize (s.buf b).blockno ≡ false
    inside = ground (arith, g.block)

fetch_total :
    (me : ℕ) (held : List ℕ) (v : ℕ → ℕ → ℕ) (k : ℕ) (r : ℕ × Cache)
    → Holds (r.0 ∷ held) v k r.0 r.1
    → k < r.1.disksize
    → IsDone (read_in me (acquired me (some r)))
unfolding IsDone
fetch_total me held v k (b, s) g lt = elim (Bool-cases (s.buf b).lock.locked) [
  | inl e ↦ rw e tt
  | inr e ↦ rw e (
      read_total me (b ∷ held) v k b (set_buf b (record (s.buf b) { lock = held_by me }) s)
        (locked-Holds (b ∷ held) v k b s (held_by me) g)
        (ap (λ x. holdingsleep me x.lock) (set_same s b b _ refl) ∙ own_lock me) lt)
]

not_panics : (o : Fetch) → IsDone o → o ≢ panics
unfolding IsDone
not_panics o d e = subst IsDone e d

-- In a cache that agrees with the contents of the blocks, with fewer than 2^32 - 1 holders of buffers:
-- unless bread panics, it gives a buffer of the block asked for, locked by the caller, with the contents that
-- the clients have last given to this block, wherever these are kept, or it goes to sleep for the lock of this
-- buffer, which is taken; and it disturbs no other block. It does not panic when some buffer is neither held
-- nor waits to be written, and the block is on the disk.
pub bread_lem :
    (me : ℕ) (held : List ℕ) (v : ℕ → ℕ → ℕ) (s : Cache) (k : ℕ)
    → Sound held v s
    → length held + 1 < 2 ^ 32
    → ReadSome me held v k (bread me 1 k s)
      × ((i : ℕ)
          → i < 30
          → (s.buf i).refcnt ≡ 0
          → (s.buf i).dirty ≡ false
          → k < s.disksize
          → bread me 1 k s ≢ panics)
unfolding bread bget
bread_lem me held v s k h few = (
  read_in_lem me held v k (acquired me (bget_table 1 k s))
      (acquired_lem me held v k (bget_table 1 k s) (bget_table_lem held v s k h few)),
  λ i low e d lt.
      let r = bget_total held v s k i h low e d in
      let g = subst (HoldsSome held v k) r.1 (bget_table_lem held v s k h few) in
      not_panics _ (
        subst (λ o. IsDone (read_in me (acquired me o))) (sym r.1)
          (fetch_total me held v k r.0 g (omega (arith, r.2)))),
)

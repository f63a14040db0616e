-- ===== src/Bio.antt =====
-- bio.c: the buffer cache over the disk of memide.c, with the sleep locks of its buffers (sleeplock.c).
-- `me` is the pid of the process that calls.
pub mod Search
pub mod View
pub mod Recycle
pub mod Ops
pub mod Blocks
pub mod Writes
mod Tests
use os_lab2_team.Prelude.{
  ℕ, zero, suc, ◌+◌, ◌-◌, ◌*◌, ◌/◌, ◌%◌, ◌^◌, ◌≤◌, ◌<◌, ◌≡◌, refl, sym, ap, ◌∙◌, ◌≢◌, ◌↔◌, ◌⊎◌, inl,
  inr, ℤ, pos, negsuc, sub_ℕ, Bool, true, false, not, ◌&&◌, ◌||◌, Option, none, some, List, [], ◌∷◌,
  ◌++◌, map, arith, dec_lt, ℕ_discrete, leb, ltb, lt→ltb, ◌==◌, if◌then◌else◌, ==_iff, Bool-cases,
  Option-cases, get_or, replicate, length, length-append, get_or-append_last, get_or-append,
  append_nil, append_assoc, set, times, without, times-without,
}

-- MAXOPBLOCKS * 3
abbrev nbuf : ℕ
nbuf = 30

-- `struct sleeplock` without its spinlock.
pub record SleepLock : Type 0 where
  pub locked : Bool
  pub pid : ℕ

-- What releasesleep leaves.
abbrev pub free_lock : SleepLock
free_lock = record { locked = false; pid = 0 }

-- What acquiresleep leaves.
abbrev pub held_by : ℕ → SleepLock
held_by me = record { locked = true; pid = me }

abbrev pub holdingsleep : ℕ → SleepLock → Bool
holdingsleep me l = l.locked && l.pid == me

-- `valid` and `dirty` are the two flags.
pub record Buf : Type 0 where
  pub dev : ℕ
  pub blockno : ℕ
  pub refcnt : ℕ
  pub valid : Bool
  pub dirty : Bool
  pub bytes : ℕ → ℕ
  pub lock : SleepLock

-- The list from `head.next` to `head.prev`, the buffers, and the disk.
pub record Cache : Type 0 where
  pub order : List ℕ
  pub buf : ℕ → Buf
  pub disk : ℕ → ℕ → ℕ
  pub disksize : ℕ

abbrev pub set_buf : ℕ → Buf → Cache → Cache
set_buf b v s = record s { buf = λ i. if i == b then v else s.buf i }

-- The loop of binit; the buffers are zero.
abbrev pub binit_from : ℕ → List ℕ
binit_from zero = []
binit_from (suc n) = n ∷ binit_from n

abbrev pub binit : ℕ → (ℕ → ℕ → ℕ) → Cache
binit disksize disk = record {
  order = binit_from nbuf;
  buf = λ i. record {
    dev = 0;
    blockno = 0;
    refcnt = 0;
    valid = false;
    dirty = false;
    bytes = λ j. 0;
    lock = free_lock;
  };
  disk = disk;
  disksize = disksize;
}

-- The first loop of bget.
unfoldable pub find_block : List ℕ → (ℕ → Buf) → ℕ → ℕ → Option ℕ
find_block [] buf dev blockno = none
find_block (b ∷ order) buf dev blockno =
    let rest = find_block order buf dev blockno in
    if ((buf b).dev == dev) && ((buf b).blockno == blockno) then some b else rest

abbrev pub or_this : Option ℕ → Option ℕ → Option ℕ
or_this (some c) this = some c
or_this none this = this

-- The second loop, which starts at the end of the list.
unfoldable pub find_unused : List ℕ → (ℕ → Buf) → Option ℕ
find_unused [] buf = none
find_unused (b ∷ order) buf =
    or_this (find_unused order buf)
      (if ((buf b).refcnt == 0) && not (buf b).dirty then some b else none)

unfoldable pub recycle : ℕ → ℕ → Cache → Option ℕ → Option (ℕ × Cache)
recycle dev blockno s none = none
recycle dev blockno s (some b) = some (
  b,
  set_buf b
      (record (s.buf b) { dev = dev; blockno = blockno; refcnt = 1; valid = false; dirty = false })
      s,
)

unfoldable pub cached_or : ℕ → ℕ → Cache → Option ℕ → Option (ℕ × Cache)
cached_or dev blockno s (some b) =
    some (b, set_buf b (record (s.buf b) { refcnt = ((s.buf b).refcnt + 1) % 2 ^ 32 }) s)
cached_or dev blockno s none = recycle dev blockno s (find_unused s.order s.buf)

-- bget up to the release of bcache.lock; `none` is the panic "no buffers".
unfoldable pub bget_table : ℕ → ℕ → Cache → Option (ℕ × Cache)
bget_table dev blockno s = cached_or dev blockno s (find_block s.order s.buf dev blockno)

-- What comes of a call of bget or bread: a panic, a sleep for the lock of buffer b, or the locked buffer b.
pub data Fetch : Type 0 where
  panics : Fetch
  waits : ℕ → Cache → Fetch
  gets : ℕ → Cache → Fetch

-- One visit of the loop of acquiresleep.
abbrev acquiresleep : ℕ → ℕ → Cache → Fetch
acquiresleep me b s =
    if (s.buf b).lock.locked
    then waits b s
    else gets b (set_buf b (record (s.buf b) { lock = held_by me }) s)

abbrev pub acquired : ℕ → Option (ℕ × Cache) → Fetch
acquired me none = panics
acquired me (some r) = acquiresleep me r.0 r.1

unfoldable pub bget : ℕ → ℕ → ℕ → Cache → Fetch
bget me dev blockno s = acquired me (bget_table dev blockno s)

-- iderw of memide.c; `none` is one of its panics.
unfoldable pub iderw : ℕ → ℕ → Cache → Option Cache
iderw me b s =
    let v = s.buf b in
    if not (holdingsleep me v.lock)
    then none
    else if v.valid && not v.dirty
    then none
    else if not (v.dev == 1)
    then none
    else if leb s.disksize v.blockno
    then none
    else if v.dirty
    then some (record (set_buf b (record v { dirty = false; valid = true }) s) {
      disk = λ k. if k == v.blockno then v.bytes else s.disk k;
    })
    else some (set_buf b (record v { bytes = s.disk v.blockno; valid = true }) s)

abbrev pub with_buf : ℕ → Option Cache → Fetch
with_buf b none = panics
with_buf b (some s) = gets b s

abbrev pub read_in : ℕ → Fetch → Fetch
read_in me panics = panics
read_in me (waits b s) = waits b s
read_in me (gets b s) = if (s.buf b).valid then gets b s else with_buf b (iderw me b s)

unfoldable pub bread : ℕ → ℕ → ℕ → Cache → Fetch
bread me dev blockno s = read_in me (bget me dev blockno s)

-- `none` is a panic.
unfoldable pub bwrite : ℕ → ℕ → Cache → Option Cache
bwrite me b s =
    if not (holdingsleep me (s.buf b).lock)
    then none
    else iderw me b (set_buf b (record (s.buf b) { dirty = true }) s)

-- brelse under bcache.lock.
unfoldable pub brelse_table : ℕ → Cache → Cache
brelse_table b s =
    let t = set_buf b (record (s.buf b) { refcnt = ((s.buf b).refcnt + 2 ^ 32 - 1) % 2 ^ 32 }) s in
    if (t.buf b).refcnt == 0 then record t { order = b ∷ without b t.order } else t

-- brelse, with releasesleep; `none` is the panic.
unfoldable pub brelse : ℕ → ℕ → Cache → Option Cache
brelse me b s =
    if not (holdingsleep me (s.buf b).lock)
    then none
    else some (brelse_table b (set_buf b (record (s.buf b) { lock = free_lock }) s))

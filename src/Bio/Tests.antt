-- ===== src/Bio/Tests.antt =====
-- A small disk whose block k has the byte k, and the cache on it.
use os_lab2_team.Prelude.{
  ◌⊎◌, ◌≢◌, Bool, ℕ, zero, suc, ◌≤◌, ◌<◌, ◌≡◌, refl, true, false, none, some, [], ◌∷◌, arith, ltb,
  if◌then◌else◌, times,
}
use mathlib.Core.Path.{subst}
use os_lab2_team.Bio.{
  SleepLock, free_lock, held_by, holdingsleep, Buf, Cache, set_buf, find_block, find_unused,
  recycle, cached_or, bget_table, panics, waits, gets, bget, iderw, bread, bwrite, brelse_table,
  brelse, binit, binit_from,
}
use os_lab2_team.Bio.View.{Sound, brelse_table-Sound, lock-Sound}
use os_lab2_team.Bio.Ops.{Holds}
use os_lab2_team.Bio.Blocks.{ReadSome, bread_lem}
use os_lab2_team.Bio.Writes.{bwrite_lem, edit_buf, put_block, edit-Sound}

abbrev image : ℕ → ℕ → ℕ
image k i = k

times-binit_from : (n i : ℕ) → times i (binit_from n) ≡ (if ltb i n then 1 else 0)
times-binit_from zero i = ground arith
times-binit_from (suc n) i = ground (arith, times-binit_from n i)

binit-Sound : (disksize : ℕ) (disk : ℕ → ℕ → ℕ) → Sound [] disk (binit disksize disk)
binit-Sound disksize disk = record {
  listed = times-binit_from 30;
  counts = λ i. refl;
  few = omega arith;
  unique = λ i j li lj di dj e. absurd (omega arith);
  cached = λ i li di e. absurd (omega arith);
  settled = λ i li e. refl;
  on_disk = λ k clean. refl;
}

bread_lem_example :
    ReadSome 4 [] image 5 (bread 4 1 5 (binit 10 image))
    × ((i : ℕ)
        → i < 30
        → ((binit 10 image).buf i).refcnt ≡ 0
        → ((binit 10 image).buf i).dirty ≡ false
        → 5 < 10
        → bread 4 1 5 (binit 10 image) ≢ panics)
bread_lem_example = bread_lem 4 [] image (binit 10 image) 5 (binit-Sound 10 image) (omega arith)

-- Buffer 0 with block 5, as process 4 gets it from bread.
abbrev five : Bool → (ℕ → ℕ) → SleepLock → Buf
five valid bytes lock = record {
  dev = 1;
  blockno = 5;
  refcnt = 1;
  valid = valid;
  dirty = false;
  bytes = bytes;
  lock = lock;
}

abbrev with_five : Cache
with_five = set_buf 0 (five true (image 5) (held_by 4)) (
    set_buf 0 (five false (λ j. 0) (held_by 4))
      (set_buf 0 (five false (λ j. 0) free_lock) (binit 10 image)))

read_five : bread 4 1 5 (binit 10 image) ≡ gets 0 with_five
unfolding bread bget bget_table cached_or recycle find_block find_unused iderw
read_five = refl

-- Another process waits for it.
read_twice :
    bread 7 1 5 with_five ≡ waits 0 (set_buf 0 (record (with_five.buf 0) { refcnt = 2 }) with_five)
unfolding bread bget bget_table cached_or recycle find_block find_unused iderw
read_twice = refl

with_five-Holds : Holds (0 ∷ []) image 5 0 with_five
with_five-Holds = (subst (ReadSome 4 [] image 5) read_five bread_lem_example.0).0

bwrite_lem_example :
    (holdingsleep 4 (with_five.buf 0).lock ≡ true
      → 5 < 10
      → (t : Cache) × (bwrite 4 0 with_five ≡ some t)
        × Sound (0 ∷ []) image t
        × (t.disk 5 ≡ image 5))
    × ((holdingsleep 4 (with_five.buf 0).lock ≡ false) ⊎ (10 ≤ 5) → bwrite 4 0 with_five ≡ none)
bwrite_lem_example = bwrite_lem 4 (0 ∷ []) image with_five 0 5 with_five-Holds refl

-- Block 5 is changed and given back.
abbrev changed : Cache
changed = edit_buf 0 (image 7) with_five

given_back : (t : Cache) × (brelse 4 0 changed ≡ some t) × Sound [] (put_block 5 (image 7) image) t
unfolding brelse
given_back = (
  brelse_table 0 (set_buf 0 (record (changed.buf 0) { lock = free_lock }) changed),
  refl,
  brelse_table-Sound (0 ∷ []) (put_block 5 (image 7) image)
      (set_buf 0 (record (changed.buf 0) { lock = free_lock }) changed) 0
      (lock-Sound (0 ∷ []) (put_block 5 (image 7) image) changed 0 free_lock
        (edit-Sound (0 ∷ []) image with_five 0 5 (image 7) with_five-Holds refl))
      (omega arith) (omega arith),
)

-- ===== src/Fs.antt =====
-- fs.c: the block bitmap, the blocks of a file, its contents, directories and path names. The contents
-- of the blocks are those of the buffer cache inside of one transaction of the log.
pub mod Bits
pub mod Search
pub mod Alloc
pub mod Map
pub mod Grow
pub mod Bmap
pub mod Read
pub mod Write
pub mod Rounds
pub mod Stores
pub mod Contents
pub mod Path
mod Tests
use os_lab2_team.Prelude.{
  ℕ, zero, suc, ◌+◌, ◌-◌, ◌*◌, ◌/◌, ◌%◌, ◌^◌, ◌≤◌, ◌<◌, ◌≡◌, refl, sym, ap, ◌∙◌, ◌≢◌, ◌↔◌, ◌⊎◌, inl,
  inr, ℤ, pos, negsuc, sub_ℕ, Bool, true, false, not, ◌&&◌, ◌||◌, Option, none, some, List, [], ◌∷◌,
  ◌++◌, map, arith, dec_lt, ℕ_discrete, leb, ltb, lt→ltb, ◌==◌, if◌then◌else◌, ==_iff, Bool-cases,
  Option-cases, get_or, replicate, length, length-append, get_or-append_last, get_or-append,
  append_nil, append_assoc, set, times, without, times-without,
}

abbrev pub bsize : ℕ
bsize = 512

-- Bits in a block: BSIZE * 8.
abbrev pub bpb : ℕ
bpb = 4096

abbrev ndirect : ℕ
ndirect = 12

abbrev nindirect : ℕ
nindirect = 128

abbrev pub maxfile : ℕ
maxfile = 140

-- `sb.size`, `sb.bmapstart`, and the bytes of the blocks.
pub record Fs : Type 0 where
  pub size : ℕ
  pub bmapstart : ℕ
  pub block : ℕ → ℕ → ℕ

-- Of `struct inode` what the file's contents depend on; `addrs[i]` is meant for i ≤ NDIRECT.
pub record Inode : Type 0 where
  pub size : ℕ
  pub addrs : ℕ → ℕ

-- 1 << k
abbrev pub shl1 : ℕ → ℕ
shl1 zero = 1
shl1 (suc k) = 2 * shl1 k

-- Whether x & (1 << k) is nonzero, as a number.
abbrev pub bit : ℕ → ℕ → ℕ
bit x k = x / shl1 k % 2

abbrev pub bblock : Fs → ℕ → ℕ
bblock fs b = b / bpb + fs.bmapstart

abbrev set_byte : ℕ → ℕ → ℕ → Fs → Fs
set_byte c i v fs = record fs { block = λ d j. if (d == c) && (j == i) then v else fs.block d j }

-- The bit of block b in the bitmap.
abbrev pub map_bit : Fs → ℕ → ℕ
map_bit fs b = bit (fs.block (bblock fs b) (b % bpb / 8)) (b % bpb % 8)

-- Setting a bit that is clear adds its mask, and clearing one that is set takes it away.
abbrev pub mark : ℕ → Fs → Fs
mark b fs =
    set_byte (bblock fs b) (b % bpb / 8) (fs.block (bblock fs b) (b % bpb / 8) + shl1 (b % bpb % 8))
      fs

abbrev pub unmark : ℕ → Fs → Fs
unmark b fs =
    set_byte (bblock fs b) (b % bpb / 8) (fs.block (bblock fs b) (b % bpb / 8) - shl1 (b % bpb % 8))
      fs

abbrev pub bzero : ℕ → Fs → Fs
bzero b fs = record fs { block = λ d j. if d == b then 0 else fs.block d j }

-- The inner loop of balloc: the rounds left, `b` and `bi`; the result is the free block.
unfoldable pub scan_bits : ℕ → ℕ → ℕ → Fs → Option ℕ
scan_bits zero b bi fs = none
scan_bits (suc r) b bi fs =
    let rest = scan_bits r b (bi + 1) fs in
    if ltb (b + bi) fs.size
    then (if bit (fs.block (bblock fs b) (bi / 8)) (bi % 8) == 0 then some (b + bi) else rest)
    else none

unfoldable pub or_else : Option ℕ → Option ℕ → Option ℕ
or_else (some b) rest = some b
or_else none rest = rest

-- The outer loop; it has fewer rounds than there are blocks. b is an `int`: sizes are below 2^31.
unfoldable pub scan_map : ℕ → ℕ → Fs → Option ℕ
scan_map zero b fs = none
scan_map (suc r) b fs =
    let rest = or_else (scan_bits bpb b 0 fs) (scan_map r (b + bpb) fs) in
    if ltb b fs.size then rest else none

unfoldable pub take_block : Fs → Option ℕ → Option (ℕ × Fs)
take_block fs none = none
take_block fs (some b) = some (b, bzero b (mark b fs))

-- `none` is the panic "out of blocks".
unfoldable pub balloc : Fs → Option (ℕ × Fs)
balloc fs = take_block fs (scan_map fs.size 0 fs)

-- `none` is the panic "freeing free block".
unfoldable pub bfree : Fs → ℕ → Option Fs
bfree fs b = if map_bit fs b == 0 then none else some (unmark b fs)

-- a[i] of the block seen as `uint`s.
abbrev pub load_word : Fs → ℕ → ℕ → ℕ
load_word fs a i =
    let p = fs.block a in
    p (4 * i) + 256 * p (4 * i + 1) + 65536 * p (4 * i + 2) + 16777216 * p (4 * i + 3)

abbrev pub store_word : ℕ → ℕ → ℕ → Fs → Fs
store_word a i w fs = set_byte a (4 * i) (w % 256) (
    set_byte a (4 * i + 1) (w / 256 % 256)
      (set_byte a (4 * i + 2) (w / 65536 % 256) (set_byte a (4 * i + 3) (w / 16777216 % 256) fs)))

abbrev pub set_addr : ℕ → ℕ → Inode → Inode
set_addr i b ip = record ip { addrs = λ j. if j == i then b else ip.addrs j }

-- What bmap passes on: the address, the inode and the blocks.
abbrev pub Mapping : Type 0
Mapping = ℕ × Inode × Fs

unfoldable pub give_slot : ℕ → Inode → Option (ℕ × Fs) → Option Mapping
give_slot i ip none = none
give_slot i ip (some (b, fs)) = some (b, set_addr i b ip, fs)

-- `if((addr = ip->addrs[i]) == 0) ip->addrs[i] = addr = balloc(ip->dev);`
unfoldable pub slot : Fs → Inode → ℕ → Option Mapping
slot fs ip i = if ip.addrs i == 0 then give_slot i ip (balloc fs) else some (ip.addrs i, ip, fs)

unfoldable pub give_word : ℕ → ℕ → Inode → Option (ℕ × Fs) → Option Mapping
give_word a i ip none = none
give_word a i ip (some (b, fs)) = some (b, ip, store_word a i b fs)

-- The same for the entry i of the indirect block.
unfoldable pub indirect : ℕ → Option Mapping → Option Mapping
indirect i none = none
indirect i (some (a, ip, fs)) =
    if load_word fs a i == 0 then give_word a i ip (balloc fs) else some (load_word fs a i, ip, fs)

-- `none` is a panic: out of range, or out of blocks.
unfoldable pub bmap : Fs → Inode → ℕ → Option Mapping
bmap fs ip bn =
    if ltb bn ndirect
    then slot fs ip bn
    else if ltb (bn - ndirect) nindirect
    then indirect (bn - ndirect) (slot fs ip ndirect)
    else none

abbrev pub and_then {ℓ κ} : {A : Type ℓ} {B : Type κ} → Option A → (A → Option B) → Option B
and_then none f = none
and_then (some a) f = f a

-- The bytes of a round: what is left, or up to the end of the block.
abbrev pub chunk : ℕ → ℕ → ℕ → ℕ
chunk n tot off =
    let rest = n - tot in let room = bsize - off % bsize in if ltb rest room then rest else room

abbrev pub inside : ℕ → ℕ → ℕ → Bool
inside lo m i = leb lo i && ltb i (lo + m)

-- `dst` as the bytes from its start, with the m bytes that a round copies.
abbrev pub copy_out : Fs → ℕ → ℕ → ℕ → ℕ → (ℕ → ℕ) → ℕ → ℕ
copy_out fs a o tot m dst j = if inside tot m j then fs.block a (o + (j - tot)) else dst j

-- The m bytes of `src` from tot on, copied into block a.
abbrev pub copy_in : ℕ → ℕ → ℕ → ℕ → (ℕ → ℕ) → Fs → Fs
copy_in a o tot m src fs = record fs {
  block = λ d i. if (d == a) && inside o m i then src (tot + (i - o)) else fs.block d i;
}

-- The loop of readi: `fuel` is the rounds left, of which n are enough.
unfoldable pub read_from : ℕ → ℕ → ℕ → ℕ → (ℕ → ℕ) → Inode → Fs → Option ((ℕ → ℕ) × Inode × Fs)
read_from zero tot off n dst ip fs = some (dst, ip, fs)
read_from (suc fuel) tot off n dst ip fs =
    let m = chunk n tot off in
    let rest = and_then (bmap fs ip (off / bsize)) (λ r.
      read_from fuel (tot + m) (off + m) n (copy_out r.2 r.0 (off % bsize) tot m dst) r.1 r.2) in
    if ltb tot n then rest else some (dst, ip, fs)

-- readi of a file that is no device: the result, `dst`, the inode and the blocks; `none` is a panic.
unfoldable pub readi : Fs → Inode → (ℕ → ℕ) → ℕ → ℕ → Option (ℤ × (ℕ → ℕ) × Inode × Fs)
readi fs ip dst off n0 =
    let n = if ltb ip.size (off + n0) then ip.size - off else n0 in
    if ltb ip.size off || ltb ((off + n0) % 2 ^ 32) off
    then some (negsuc 0, dst, ip, fs)
    else and_then (read_from n 0 off n dst ip fs) (λ r. some (pos n, r.0, r.1, r.2))

-- The loop of writei, likewise. log_write of the round's block is not called here: the blocks change as
-- they do inside of a transaction that has room for them, so its panic in a transaction that is too
-- large is not an outcome.
unfoldable pub write_from : ℕ → ℕ → ℕ → ℕ → (ℕ → ℕ) → Inode → Fs → Option (Inode × Fs)
write_from zero tot off n src ip fs = some (ip, fs)
write_from (suc fuel) tot off n src ip fs =
    let m = chunk n tot off in
    let rest = and_then (bmap fs ip (off / bsize)) (λ r.
      write_from fuel (tot + m) (off + m) n src r.1 (copy_in r.0 (off % bsize) tot m src r.2)) in
    if ltb tot n then rest else some (ip, fs)

-- writei of a file that is no device; behind the loop `off` has grown by n. The copy of the inode to
-- its block, iupdate, is not part of it.
unfoldable pub writei : Fs → Inode → (ℕ → ℕ) → ℕ → ℕ → Option (ℤ × Inode × Fs)
writei fs ip src off n =
    if ltb ip.size off || ltb ((off + n) % 2 ^ 32) off
    then some (negsuc 0, ip, fs)
    else if ltb (maxfile * bsize) (off + n)
    then some (negsuc 0, ip, fs)
    else and_then (write_from n 0 off n src ip fs) (λ r. some (
      pos n,
      (if ltb 0 n && ltb r.0.size (off + n) then record r.0 { size = off + n } else r.0),
      r.1,
    ))

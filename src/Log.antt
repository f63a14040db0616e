-- ===== src/Log.antt =====
-- log.c: the redo log. A block is its words; `disk` is what the disk holds and `cache` what bread
-- returns, which is newer for the blocks that log_write has pinned.
pub mod Header
pub mod Commit
pub mod Install
pub mod Recover
pub mod Ops
pub mod Reserve
pub mod Short
mod Tests
use os_lab2_team.Prelude.{
  ℕ, zero, suc, ◌+◌, ◌-◌, ◌*◌, ◌/◌, ◌%◌, ◌^◌, ◌≤◌, ◌<◌, ◌≡◌, refl, sym, ap, ◌∙◌, ◌≢◌, ◌↔◌, ◌⊎◌, inl,
  inr, ℤ, pos, negsuc, sub_ℕ, Bool, true, false, not, ◌&&◌, ◌||◌, Option, none, some, List, [], ◌∷◌,
  ◌++◌, map, arith, dec_lt, ℕ_discrete, leb, ltb, ◌==◌, if◌then◌else◌, ==_iff, Bool-cases,
  Option-cases, get_or, replicate,
}

abbrev pub Block : Type 0
Block = ℕ → ℕ

abbrev pub maxopblocks : ℕ
maxopblocks = 10

abbrev pub logsize : ℕ
logsize = 30

-- `struct log` beside the two views of the blocks. `n` and `block` are `lh`. `power` is the number of
-- block writes that still reach the disk: the machine stops there, whatever memory goes on to do.
pub record Log : Type 0 where
  pub start : ℕ
  pub size : ℕ
  pub outstanding : ℕ
  pub committing : Bool
  pub n : ℕ
  pub block : ℕ → ℕ
  pub cache : ℕ → Block
  pub disk : ℕ → Block
  pub power : ℕ

abbrev pub update {ℓ} : {A : Type ℓ} → (ℕ → A) → ℕ → A → ℕ → A
update f i v j = if i == j then v else f j

-- The buffer of block b now holds v.
abbrev pub fill : Log → ℕ → Block → Log
fill s b v = record s { cache = update s.cache b v }

-- bwrite
unfoldable pub bwrite : Log → ℕ → Log
bwrite s b =
    if s.power == 0 then s else record s { disk = update s.disk b (s.cache b); power = s.power - 1 }

-- The loop of install_trans: the rounds left, and `tail`.
unfoldable pub install_from : ℕ → ℕ → Log → Log
install_from zero tail s = s
install_from (suc r) tail s =
    install_from r (tail + 1)
      (bwrite (fill s (s.block tail) (s.cache (s.start + tail + 1))) (s.block tail))

unfoldable pub install_trans : Log → Log
install_trans s = install_from s.n 0 s

-- Words 1 to n of the header block are `block[0..n)`.
unfoldable pub read_blocks : ℕ → ℕ → Block → (ℕ → ℕ) → ℕ → ℕ
read_blocks zero i b f = f
read_blocks (suc r) i b f = read_blocks r (i + 1) b (update f i (b (i + 1)))

unfoldable pub read_head : Log → Log
read_head s = let b = s.cache s.start in record s { n = b 0; block = read_blocks (b 0) 0 b s.block }

unfoldable pub write_blocks : ℕ → ℕ → (ℕ → ℕ) → Block → Block
write_blocks zero i f b = b
write_blocks (suc r) i f b = write_blocks r (i + 1) f (update b (i + 1) (f i))

-- The header block with `n` and `block` written into it.
unfoldable pub head_block : Log → Block
head_block s = write_blocks s.n 0 s.block (update (s.cache s.start) 0 s.n)

unfoldable pub write_head : Log → Log
write_head s = bwrite (fill s s.start (head_block s)) s.start

abbrev pub clear : Log → Log
clear s = record s { n = 0 }

unfoldable pub recover_from_log : Log → Log
recover_from_log s = write_head (clear (install_trans (read_head s)))

-- A restart: memory is lost, and the cache reads the disk. `power` is what the next stop leaves.
abbrev pub reboot : Log → ℕ → Log
reboot s power = record s {
  cache = s.disk;
  n = 0;
  outstanding = 0;
  committing = false;
  power = power;
}

-- The loop of write_log.
unfoldable pub write_log_from : ℕ → ℕ → Log → Log
write_log_from zero tail s = s
write_log_from (suc r) tail s =
    write_log_from r (tail + 1)
      (bwrite (fill s (s.start + tail + 1) (s.cache (s.block tail))) (s.start + tail + 1))

unfoldable pub write_log : Log → Log
write_log s = write_log_from s.n 0 s

unfoldable pub commit : Log → Log
commit s = if ltb 0 s.n then write_head (clear (install_trans (write_head (write_log s)))) else s

-- One visit of the loop of begin_op; `none` is sleep.
unfoldable pub begin_op : Log → Option Log
begin_op s =
    if s.committing
    then none
    else if ltb logsize (s.n + (s.outstanding + 1) * maxopblocks)
    then none
    else some (record s { outstanding = s.outstanding + 1 })

-- end_op up to the release of log.lock; the Boolean is `do_commit`. `none` is the panic, or a
-- call without begin_op, which would make `outstanding` negative.
unfoldable pub end_enter : Log → Option (Bool × Log)
end_enter s =
    if s.committing || s.outstanding == 0
    then none
    else if s.outstanding == 1
    then some (true, record s { outstanding = 0; committing = true })
    else some (false, record s { outstanding = s.outstanding - 1 })

-- The rest of end_op.
unfoldable pub end_finish : Bool × Log → Log
end_finish (true, s) = record (commit s) { committing = false }
end_finish (false, s) = s

-- The index at which log_write puts the block number.
unfoldable pub slot_of : ℕ → ℕ → (ℕ → ℕ) → ℕ → ℕ
slot_of zero i block b = i
slot_of (suc r) i block b = if block i == b then i else slot_of r (i + 1) block b

-- log_write of a buffer of block b whose data the caller has modified; `none` is a panic. The
-- comparison `log.lh.n >= log.size - 1` is between `int`s.
unfoldable pub log_write : Log → ℕ → Option Log
log_write s b =
    if leb logsize s.n || leb s.size (s.n + 1)
    then none
    else if s.outstanding == 0
    then none
    else let i = slot_of s.n 0 s.block b in
      some (record s { block = update s.block i b; n = if i == s.n then s.n + 1 else s.n })

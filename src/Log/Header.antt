-- ===== src/Log/Header.antt =====
-- The log's header block holds the block numbers that were written to it.
use os_lab2_team.Prelude.{
  ℕ, zero, suc, ◌+◌, ◌-◌, ◌<◌, ◌≡◌, ◌∙◌, ◌&&◌, arith, leb, ltb, if◌then◌else◌,
}
use os_lab2_team.Log.{Block, Log, update, read_blocks, write_blocks, head_block}

write_blocks_lem :
    (r i : ℕ) (f : ℕ → ℕ) (b : Block) (j : ℕ)
    → write_blocks r i f b j ≡ (if ltb i j && leb j (i + r) then f (j - 1) else b j)
unfolding write_blocks
write_blocks_lem zero i f b j = ground arith
write_blocks_lem (suc r) i f b j =
    ground (arith, write_blocks_lem r (i + 1) f (update b (i + 1) (f i)) j)

read_blocks_lem :
    (r i : ℕ) (b : Block) (f : ℕ → ℕ) (j : ℕ)
    → read_blocks r i b f j ≡ (if leb i j && ltb j (i + r) then b (j + 1) else f j)
unfolding read_blocks
read_blocks_lem zero i b f j = ground arith
read_blocks_lem (suc r) i b f j =
    ground (arith, read_blocks_lem r (i + 1) b (update f i (b (i + 1))) j)

pub head_block_n : (s : Log) → head_block s 0 ≡ s.n
unfolding head_block
head_block_n s = write_blocks_lem s.n 0 s.block (update (s.cache s.start) 0 s.n) 0 ∙ ground arith

pub head_block_block : (s : Log) (i : ℕ) → i < s.n → head_block s (suc i) ≡ s.block i
unfolding head_block
head_block_block s i lt =
    write_blocks_lem s.n 0 s.block (update (s.cache s.start) 0 s.n) (suc i) ∙ ground arith

pub read_blocks_block :
    (n : ℕ) (b : Block) (f : ℕ → ℕ) (i : ℕ) → i < n → read_blocks n 0 b f i ≡ b (suc i)
read_blocks_block n b f i lt = read_blocks_lem n 0 b f i ∙ ground arith

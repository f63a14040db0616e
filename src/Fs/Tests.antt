-- ===== src/Fs/Tests.antt =====
-- The file system on a small disk: blocks 0 to 2 are reserved, block 1 holds the bitmap.
use os_lab2_team.Prelude.{
  ℕ, zero, suc, ◌+◌, ◌^◌, ◌≤◌, ◌<◌, ◌≡◌, refl, ◌⊎◌, ℤ, pos, negsuc, ◌&&◌, none, some, arith, ltb,
  ◌==◌, if◌then◌else◌,
}
use os_lab2_team.Fs.{
  scan_bits, or_else, scan_map, take_block, give_slot, slot, write_from, copy_in, Fs, Inode,
  map_bit, balloc, bmap, mark, bzero, set_addr, readi, writei,
}
use os_lab2_team.Fs.Alloc.{Reserved, Fresh, balloc_lem}
use os_lab2_team.Fs.Map.{lookup_place, byte_of, Mapped}
use os_lab2_team.Fs.Bmap.{Has, bmap_lem}
use os_lab2_team.Fs.Read.{Filled}
use os_lab2_team.Fs.Contents.{avail, readi_lem, readi-writei}
use os_lab2_team.Fs.Stores.{Written, writei_lem}

abbrev disk : Fs
disk = record { size = 100; bmapstart = 1; block = λ d i. if (d == 1) && (i == 0) then 7 else 0 }

-- A file of 510 bytes, all of them a hole.
abbrev file : Inode
file = record { size = 510; addrs = λ i. 0 }

abbrev letters : ℕ → ℕ
letters i = 65 + i

disk-Reserved : Reserved 3 disk
disk-Reserved = record {
  bitmap = λ b lt. omega arith;
  used = used;
  inside = omega arith;
  boot = omega arith;
}
  where
    used : (b : ℕ) → b < 3 → map_bit disk b ≡ 1
    used zero lt = refl
    used (suc zero) lt = refl
    used (suc (suc zero)) lt = refl
    used (suc (suc (suc b))) lt = absurd (omega arith)

nothing_placed : (word : ℕ → ℕ) (k : ℕ) → lookup_place (λ i. 0) word k ≡ 0
nothing_placed word k = ground arith

disk-Mapped : Mapped 3 disk file
disk-Mapped = record {
  reserved = disk-Reserved;
  small = omega arith;
  used = λ k le ne. absurd (ne (nothing_placed (λ i. 0) k));
  distinct = λ j k lj lk ne p. absurd (p (nothing_placed (λ i. 0) j));
}

balloc_first : balloc disk ≡ some (3, bzero 3 (mark 3 disk))
unfolding balloc take_block scan_map or_else scan_bits
balloc_first = refl

balloc_lem_example :
    ((b : ℕ) (fs' : Fs) → balloc disk ≡ some (b, fs') → Fresh 3 disk b fs')
    × (balloc disk ≡ none → (b : ℕ) → b < 100 → map_bit disk b ≡ 1)
balloc_lem_example = balloc_lem 3 disk disk-Reserved

taken-Reserved : Reserved 3 (bzero 3 (mark 3 disk))
taken-Reserved =
    ((balloc_lem 3 disk disk-Reserved).0 3 (bzero 3 (mark 3 disk)) balloc_first).reserved

bmap_first : bmap disk file 2 ≡ some (3, set_addr 2 3 file, bzero 3 (mark 3 disk))
unfolding bmap slot give_slot balloc take_block scan_map or_else scan_bits
bmap_first = refl

bmap_lem_example : Has 3 disk file 2 (3, set_addr 2 3 file, bzero 3 (mark 3 disk))
bmap_lem_example =
    bmap_lem 3 disk file 2 (3, set_addr 2 3 file, bzero 3 (mark 3 disk)) disk-Mapped (omega arith)
      bmap_first

writei_lem_example :
    ((510 < 509) ⊎ (71680 < 509 + 6) → writei disk file letters 509 6 ≡ some (negsuc 0, file, disk))
    × (509 ≤ 510
        → 509 + 6 ≤ 71680
        → ((k : ℤ) (ip' : Inode) (fs' : Fs)
            → writei disk file letters 509 6 ≡ some (k, ip', fs')
            → (k ≡ pos 6) × Written 3 disk file letters 509 6 ip' fs')
          × (6 ≤ 1536
              → Filled disk file 509 6
              → (r : ℤ × Inode × Fs) × (writei disk file letters 509 6 ≡ some r)))
writei_lem_example = writei_lem 3 disk file letters 509 6 disk-Mapped

-- Six bytes that end in the second block of the file.
abbrev second : Fs
second = bzero 4 (mark 4 (copy_in 3 509 0 3 letters (bzero 3 (mark 3 disk))))

abbrev written : Inode
written = record { size = 515; addrs = (set_addr 1 4 (set_addr 0 3 file)).addrs }

write_six : writei disk file letters 509 6 ≡ some (pos 6, written, copy_in 4 0 3 3 letters second)
unfolding writei write_from bmap slot give_slot balloc take_block scan_map or_else scan_bits
write_six = refl

written-Mapped : Mapped 3 (copy_in 4 0 3 3 letters second) written
written-Mapped =
    (((writei_lem 3 disk file letters 509 6 disk-Mapped).1 (omega arith) (omega arith)).0 (pos 6)
      written _ write_six).1.mapped

readi-writei_example :
    (dst' : (ℕ → ℕ)) × (readi (copy_in 4 0 3 3 letters second) written (λ i. 0) 509 6
      ≡ some (pos 6, dst', written, copy_in 4 0 3 3 letters second))
    × ((j : ℕ) → dst' j ≡ (if ltb j 6 then letters j else 0))
readi-writei_example =
    readi-writei 3 disk file letters (λ i. 0) 509 6 (pos 6) written (copy_in 4 0 3 3 letters second)
      disk-Mapped (omega arith) (omega arith) (omega arith) write_six

readi_lem_example :
    ((510 < 510) ⊎ (2 ^ 32 ≤ 510 + 8)
      → readi disk file (λ i. 1) 510 8 ≡ some (negsuc 0, (λ i. 1), file, disk))
    × (510 ≤ 510
        → 510 + 8 < 2 ^ 32
        → Filled disk file 510 (avail file 510 8)
        → (dst' : (ℕ → ℕ)) × (readi disk file (λ i. 1) 510 8
            ≡ some (pos (avail file 510 8), dst', file, disk))
          × ((j : ℕ)
              → dst' j ≡ (if ltb j (avail file 510 8) then byte_of disk file (510 + j) else 1)))
readi_lem_example = readi_lem disk file (λ i. 1) 510 8 (omega arith) (omega arith) (omega arith)

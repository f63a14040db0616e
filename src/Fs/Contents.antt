-- ===== src/Fs/Contents.antt =====
-- readi of fs.c, and what it reads after writei.
use os_lab2_team.Prelude.{
  ℕ, ◌+◌, ◌-◌, ◌%◌, ◌^◌, ◌≤◌, ◌<◌, ◌≡◌, refl, sym, ap, ◌∙◌, ◌⊎◌, inl, inr, ℤ, pos, negsuc, false,
  ◌||◌, some, arith, dec_lt, ltb, lt→ltb, if◌then◌else◌,
}
use mathlib.Core.Path.{subst}
use os_lab2_team.Fs.{Fs, Inode, writei, readi}
use os_lab2_team.Fs.Map.{byte_of, Mapped}
use os_lab2_team.Fs.Read.{Filled, filled_in, copied, left_alone, read_from_lem}
use os_lab2_team.Fs.Stores.{writei_lem}

-- The bytes that readi is to read.
abbrev pub avail : Inode → ℕ → ℕ → ℕ
avail ip off n = if ltb ip.size (off + n) then ip.size - off else n

avail_le :
    (size off n : ℕ) → off ≤ size → off + (if ltb size (off + n) then size - off else n) ≤ size
avail_le size off n le = elim (dec_lt size (off + n)) [
  | yes l ↦ rw (lt→ltb size (off + n) l) (omega arith)
  | no l ↦ rw (not_lt l) (omega arith)
]
  where
    not_lt : ¬ (size < off + n) → ltb size (off + n) ≡ false
    not_lt l = ground arith

from_start :
    (file : ℕ → ℕ) (off n : ℕ) (dst : ℕ → ℕ) (j : ℕ)
    → filled_in file off 0 n dst j ≡ (if ltb j n then file (off + j) else dst j)
from_start file off n dst j = elim (dec_lt j n) [
  | yes l ↦
      copied 0 n j _ _ (omega arith) l
      ∙ ap (λ k. file (off + k)) (omega arith)
      ∙ sym (below (file (off + j)) (dst j) l)
  | no l ↦ left_alone 0 n j _ _ (inr (omega arith)) ∙ sym (beyond (file (off + j)) (dst j) l)
]
  where
    below : (x y : ℕ) → j < n → (if ltb j n then x else y) ≡ x
    below x y l = ground arith

    beyond : (x y : ℕ) → ¬ (j < n) → (if ltb j n then x else y) ≡ y
    beyond x y l = ground arith

-- readi refuses to start behind the end of the file, and a sum of off and n that wraps around, and then
-- changes nothing. Else, where the blocks it reads are all there, it returns the number of the bytes
-- that the file has from off on, but n at most, `dst` has got these bytes of the file and is else as it
-- was, and neither the file nor a block has changed. The file is no longer than the largest one.
pub readi_lem :
    (fs : Fs) (ip : Inode) (dst : ℕ → ℕ) (off n : ℕ)
    → ip.size ≤ 71680
    → off < 2 ^ 32
    → n < 2 ^ 32
    → ((ip.size < off) ⊎ (2 ^ 32 ≤ off + n) → readi fs ip dst off n ≡ some (negsuc 0, dst, ip, fs))
      × (off ≤ ip.size
          → off + n < 2 ^ 32
          → Filled fs ip off (avail ip off n)
          → (dst' : (ℕ → ℕ)) × (readi fs ip dst off n ≡ some (pos (avail ip off n), dst', ip, fs))
            × ((j : ℕ)
                → dst' j ≡ (if ltb j (avail ip off n) then byte_of fs ip (off + j) else dst j)))
unfolding readi
readi_lem fs ip dst off n most lo ln = (
  refused,
  λ le small full.
      let m = avail ip off n in
      let r =
        read_from_lem m 0 off m dst ip fs (omega arith) (omega arith) (fits le)
          (λ x lo hi. full x lo (omega arith)) in
      (r.0, rw (in_range le small, r.1) refl, λ j. r.2 j ∙ from_start (byte_of fs ip) off m dst j),
)
  where
    refused :
        (ip.size < off) ⊎ (2 ^ 32 ≤ off + n) → readi fs ip dst off n ≡ some (negsuc 0, dst, ip, fs)
    refused (inl lt) = ground arith
    refused (inr le) = let e : (off + n) % 2 ^ 32 ≡ off + n - 2 ^ 32 = omega arith in ground arith

    in_range :
        off ≤ ip.size → off + n < 2 ^ 32 → ltb ip.size off || ltb ((off + n) % 2 ^ 32) off ≡ false
    in_range le small = let e : (off + n) % 2 ^ 32 ≡ off + n = omega arith in ground arith

    fits : off ≤ ip.size → off + (avail ip off n - 0) ≤ 71680
    fits le = omega (arith, avail_le ip.size off n le)

-- A read within the file.
read_exact :
    (fs : Fs) (ip : Inode) (dst : ℕ → ℕ) (off n : ℕ)
    → ip.size ≤ 71680
    → off + n ≤ ip.size
    → Filled fs ip off n
    → (dst' : (ℕ → ℕ)) × (readi fs ip dst off n ≡ some (pos n, dst', ip, fs))
      × ((j : ℕ) → dst' j ≡ (if ltb j n then byte_of fs ip (off + j) else dst j))
read_exact fs ip dst off n most le full =
    subst
      (λ m.
        (dst' : (ℕ → ℕ)) × (readi fs ip dst off n ≡ some (pos m, dst', ip, fs))
        × ((j : ℕ) → dst' j ≡ (if ltb j m then byte_of fs ip (off + j) else dst j)))
      all
      ((readi_lem fs ip dst off n most (omega arith) (omega arith)).1 (omega arith) (omega arith)
        (subst (Filled fs ip off) (sym all) full))
  where
    all : avail ip off n ≡ n
    all = rw (not_lt le) refl
      where
        not_lt : off + n ≤ ip.size → ltb ip.size (off + n) ≡ false
        not_lt le = ground arith

-- What writei wrote to a file whose blocks are its own is what readi reads back at the same place, into any
-- `dst`, and no more of `dst` is changed; the write is one that returned, starts within the file or at its
-- end, and stays within the largest file.
pub readi-writei :
    (meta : ℕ) (fs : Fs) (ip : Inode) (src dst : ℕ → ℕ) (off n : ℕ) (k : ℤ) (ip' : Inode) (fs' : Fs)
    → Mapped meta fs ip
    → off ≤ ip.size
    → ip.size ≤ 71680
    → off + n ≤ 71680
    → writei fs ip src off n ≡ some (k, ip', fs')
    → (dst' : (ℕ → ℕ)) × (readi fs' ip' dst off n ≡ some (pos n, dst', ip', fs'))
      × ((j : ℕ) → dst' j ≡ (if ltb j n then src j else dst j))
readi-writei meta fs ip src dst off n k ip' fs' v le most small e =
    let w = (((writei_lem meta fs ip src off n v).1 le small).0 k ip' fs' e).1 in
    let len = lengths ip.size (off + n) ip'.size w.length most small in
    let r = read_exact fs' ip' dst off n len.1 len.0 w.filled in
    (
      r.0,
      r.1,
      λ j. r.2 j ∙ elim (dec_lt j n) [
        | yes l ↦ rw (lt→ltb j n l) (
            w.bytes (off + j) (omega arith)
            ∙ copied off (off + n) (off + j) _ _ (omega arith) (omega arith)
            ∙ ap src (omega arith))
        | no l ↦ rw (not_lt j l) refl
      ],
    )
  where
    not_lt : (j : ℕ) → ¬ (j < n) → ltb j n ≡ false
    not_lt j l = ground arith

    lengths :
        (a b c : ℕ) → c ≡ (if ltb a b then b else a) → a ≤ 71680 → b ≤ 71680 → (b ≤ c) × (c ≤ 71680)
    lengths a b c e la lb = (ground arith, ground arith)

-- ===== src/Fs/Bits.antt =====
-- Bits of the bitmap: setting one and clearing one leaves the others.
use os_lab2_team.Prelude.{
  ℕ, zero, suc, ◌+◌, ◌-◌, ◌*◌, ◌/◌, ◌%◌, ◌≤◌, ◌<◌, ◌≡◌, refl, sym, ◌∙◌, inl, inr, Bool, true, false,
  ◌&&◌, arith, ◌==◌, if◌then◌else◌, Bool-cases,
}
use native.Mathlib.Nat.{div-div-eq-div-mul}
use os_lab2_team.Fs.{Fs, shl1, bit, bpb, bblock, map_bit, mark, unmark}

shl1_pos : (k : ℕ) → 0 < shl1 k
shl1_pos zero = omega arith
shl1_pos (suc k) = omega (arith, shl1_pos k)

bit-suc : (x k : ℕ) → bit x (suc k) ≡ bit (x / 2) k
bit-suc x k = rw (div-div-eq-div-mul x 2 (shl1 k)) refl

halves_add : (x m : ℕ) → (x + 2 * m) / 2 ≡ x / 2 + m
halves_add x m = omega arith

halves_sub : (x m : ℕ) → (x - 2 * m) / 2 ≡ x / 2 - m
halves_sub x m = omega arith

same_suc : (j k : ℕ) → (suc j == suc k) ≡ (j == k)
same_suc j k = ground arith

bit_zero : (x : ℕ) → bit x 0 ≡ x % 2
bit_zero x = omega arith

low_add : (x m : ℕ) → (x + 2 * m) / 1 % 2 ≡ x / 1 % 2
low_add x m = omega arith

low_sub : (x m : ℕ) → 2 * m ≤ x → (x - 2 * m) / 1 % 2 ≡ x / 1 % 2
low_sub x m le = omega arith

bit-add : (j k x : ℕ) → bit x k ≡ 0 → bit (x + shl1 k) j ≡ (if j == k then 1 else bit x j)
bit-add zero zero x h = omega arith
bit-add (suc j) zero x h =
    let e : (x + 1) / 2 ≡ x / 2 = omega arith in
    rw (bit-suc (x + 1) j, bit-suc x j, e) (ground arith)
bit-add zero (suc k) x h = ground (arith, low_add x (shl1 k))
bit-add (suc j) (suc k) x h =
    rw (bit-suc (x + 2 * shl1 k) j, bit-suc x j, halves_add x (shl1 k), same_suc j k)
      (bit-add j k (x / 2) (sym (bit-suc x k) ∙ h))

set_le : (k x : ℕ) → bit x k ≡ 1 → shl1 k ≤ x
set_le zero x h = omega arith
set_le (suc k) x h = omega (arith, set_le k (x / 2) (sym (bit-suc x k) ∙ h))

bit-sub : (j k x : ℕ) → bit x k ≡ 1 → bit (x - shl1 k) j ≡ (if j == k then 0 else bit x j)
bit-sub zero zero x h = omega arith
bit-sub (suc j) zero x h =
    let e : (x - 1) / 2 ≡ x / 2 = omega arith in
    rw (bit-suc (x - 1) j, bit-suc x j, e) (ground arith)
bit-sub zero (suc k) x h = ground (arith, low_sub x (shl1 k) (set_le (suc k) x h))
bit-sub (suc j) (suc k) x h =
    rw (bit-suc (x - 2 * shl1 k) j, bit-suc x j, halves_sub x (shl1 k), same_suc j k)
      (bit-sub j k (x / 2) (sym (bit-suc x k) ∙ h))

-- The place of a bit in the bitmap determines its block.
same_place :
    (start b c : ℕ)
    → b / 4096 + start ≡ c / 4096 + start
    → b % 4096 / 8 ≡ c % 4096 / 8
    → b % 4096 % 8 ≡ c % 4096 % 8
    → b ≡ c
same_place start b c e f g = omega arith

-- A byte of the bitmap that has changed only in the place of bit b.
module _ (start b c : ℕ) where
  here : Bool
  here = (c / 4096 + start == b / 4096 + start) && (c % 4096 / 8 == b % 4096 / 8)

  away : here ≡ false → (c == b) ≡ false
  unfolding here
  away e = ground arith

  in_byte : here ≡ true → (c % 4096 % 8 == b % 4096 % 8) ≡ (c == b)
  unfolding here
  in_byte e = ground (arith, same_place start c b)

  in_here : here ≡ true → (c / 4096 + start ≡ b / 4096 + start) × (c % 4096 / 8 ≡ b % 4096 / 8)
  unfolding here
  in_here e = ground arith

pub map_bit-mark :
    (fs : Fs) (b c : ℕ)
    → map_bit fs b ≡ 0
    → map_bit (mark b fs) c ≡ (if c == b then 1 else map_bit fs c)
unfolding here
map_bit-mark fs b c h = elim (Bool-cases (here fs.bmapstart b c)) [
  | inl e ↦
      let i = in_here fs.bmapstart b c e in
      rw
        (
          e,
          bit-add (c % 4096 % 8) (b % 4096 % 8) (fs.block (bblock fs b) (b % bpb / 8)) h,
          in_byte fs.bmapstart b c e,
          i.0,
          i.1,
        )
        refl
  | inr e ↦ rw (e, away fs.bmapstart b c e) refl
]

pub map_bit-unmark :
    (fs : Fs) (b c : ℕ)
    → map_bit fs b ≡ 1
    → map_bit (unmark b fs) c ≡ (if c == b then 0 else map_bit fs c)
unfolding here
map_bit-unmark fs b c h = elim (Bool-cases (here fs.bmapstart b c)) [
  | inl e ↦
      let i = in_here fs.bmapstart b c e in
      rw
        (
          e,
          bit-sub (c % 4096 % 8) (b % 4096 % 8) (fs.block (bblock fs b) (b % bpb / 8)) h,
          in_byte fs.bmapstart b c e,
          i.0,
          i.1,
        )
        refl
  | inr e ↦ rw (e, away fs.bmapstart b c e) refl
]

-- ===== src/Fs/Alloc.antt =====
-- balloc and bfree of fs.c on the set of used blocks.
use os_lab2_team.Prelude.{
  ℕ, ◌≤◌, ◌<◌, ◌≡◌, refl, ◌∙◌, ◌≢◌, Bool, true, false, Option, none, some, arith, dec_lt, ◌==◌,
  if◌then◌else◌,
}
use mathlib.Core.Path.{subst}
use os_lab2_team.Fs.{Fs, bblock, map_bit, mark, unmark, bzero, scan_map, take_block, balloc, bfree}
use os_lab2_team.Fs.Bits.{map_bit-mark, map_bit-unmark}
use os_lab2_team.Fs.Search.{Found, scan_map-Found}

-- The blocks below `meta`, the bitmap among them, are marked as used for good.
pub record Reserved (meta : ℕ) (fs : Fs) : Type 0 where
  pub bitmap : (b : ℕ) → b < fs.size → bblock fs b < meta
  pub used : (b : ℕ) → b < meta → map_bit fs b ≡ 1
  pub inside : meta ≤ fs.size
  pub boot : 0 < meta

-- A block that balloc gave out.
pub record Fresh (meta : ℕ) (fs : Fs) (b : ℕ) (fs' : Fs) : Type 0 where
  pub was_free : map_bit fs b ≡ 0
  pub below : b < fs.size
  pub above : meta ≤ b
  pub first : (c : ℕ) → c < b → map_bit fs c ≡ 1
  pub bits : (c : ℕ) → c < fs.size → map_bit fs' c ≡ (if c == b then 1 else map_bit fs c)
  pub zeroed : (i : ℕ) → fs'.block b i ≡ 0
  pub others : (d i : ℕ) → meta ≤ d → d ≢ b → fs'.block d i ≡ fs.block d i
  pub reserved : Reserved meta fs'
  pub size : fs'.size ≡ fs.size

clash : (x : ℕ) → x ≡ 0 → x ≡ 1 → ⊥
clash x e f = omega arith

clash_le : {x meta : ℕ} → x < meta → meta ≤ x → ⊥
clash_le lt le = omega arith

differ : (x y : ℕ) → x ≢ y → (x == y) ≡ false
differ x y ne = ground arith

either : {x : ℕ} (c : Bool) → x ≡ 1 → (if c then 1 else x) ≡ 1
either true e = refl
either false e = e

mark-Fresh :
    (meta : ℕ) (fs : Fs) (b : ℕ)
    → Reserved meta fs
    → (b < fs.size) × (map_bit fs b ≡ 0) × (0 ≤ b) × ((d : ℕ) → 0 ≤ d → d < b → map_bit fs d ≢ 0)
    → Fresh meta fs b (bzero b (mark b fs))
mark-Fresh meta fs b v f = record {
  was_free = f.1;
  below = f.0;
  above = above;
  first = λ c lt. omega (arith, f.3 c (omega arith) lt);
  bits = bits;
  zeroed = λ i. ground arith;
  others = λ d i le ne.
      rw (differ d b ne, differ d (bblock fs b) (λ e. clash_le (v.bitmap b f.0) (rw e at le))) refl;
  reserved = record {
    bitmap = v.bitmap;
    used = λ c lt. bits c (omega (arith, v.inside)) ∙ either (c == b) (v.used c lt);
    inside = v.inside;
    boot = v.boot;
  };
  size = refl;
}
  where
    above : meta ≤ b
    above = elim (dec_lt b meta) [
      | yes lt ↦ absurd (clash (map_bit fs b) f.1 (v.used b lt))
      | no ge ↦ omega arith
    ]

    bits :
        (c : ℕ)
        → c < fs.size
        → map_bit (bzero b (mark b fs)) c ≡ (if c == b then 1 else map_bit fs c)
    bits c lt =
        (rw (differ (bblock fs c) b (λ e. clash_le (v.bitmap c lt) (rw (← e) at above))) refl)
        ∙ map_bit-mark fs b c f.1

abbrev Given : ℕ → Fs → Option (ℕ × Fs) → Type 0
Given meta fs none = Unit {0}
Given meta fs (some (b, fs')) = Fresh meta fs b fs'

-- balloc finds the first free block; the block is outside of the reserved ones, is marked as used and
-- zeroed, and no other bit and no other block outside of the reserved ones changes. It panics only
-- when every block is used.
pub balloc_lem :
    (meta : ℕ) (fs : Fs)
    → Reserved meta fs
    → ((b : ℕ) (fs' : Fs) → balloc fs ≡ some (b, fs') → Fresh meta fs b fs')
      × (balloc fs ≡ none → (b : ℕ) → b < fs.size → map_bit fs b ≡ 1)
unfolding balloc take_block
balloc_lem meta fs v = go (scan_map fs.size 0 fs) (scan_map-Found fs.size 0 fs refl (omega arith))
  where
    go :
        (o : Option ℕ)
        → Found 0 fs.size (map_bit fs) o
        → ((b : ℕ) (fs' : Fs) → take_block fs o ≡ some (b, fs') → Fresh meta fs b fs')
          × (take_block fs o ≡ none → (b : ℕ) → b < fs.size → map_bit fs b ≡ 1)
    go none f = (λ b fs' e. ground arith, λ e b lt. omega (arith, f.1 refl b (omega arith) lt))
    go (some k) f = (
      λ b fs' e. subst (Given meta fs) e (mark-Fresh meta fs k v (f.0 k refl)),
      λ e. ground arith,
    )

-- bfree of a block that is used and not reserved makes exactly this block free, and changes no block
-- outside of the reserved ones; it panics exactly when the block is free.
bfree_lem :
    (meta : ℕ) (fs : Fs) (b : ℕ)
    → Reserved meta fs
    → b < fs.size
    → meta ≤ b
    → (map_bit fs b ≡ 0 → bfree fs b ≡ none)
      × (map_bit fs b ≡ 1
          → (fs' : Fs) × (bfree fs b ≡ some fs')
            × ((c : ℕ) → map_bit fs' c ≡ (if c == b then 0 else map_bit fs c))
            × ((d i : ℕ) → meta ≤ d → fs'.block d i ≡ fs.block d i)
            × Reserved meta fs')
unfolding bfree
bfree_lem meta fs b v lt le = (
  λ e. rw e refl,
  λ e. (
    unmark b fs,
    rw e refl,
    λ c. map_bit-unmark fs b c e,
    same,
    record {
      bitmap = v.bitmap;
      used =
          λ c m. map_bit-unmark fs b c e ∙ rw (differ c b (λ f. clash_le m (rw f le))) (v.used c m);
      inside = v.inside;
      boot = v.boot;
    },
  ),
)
  where
    same : (d i : ℕ) → meta ≤ d → (unmark b fs).block d i ≡ fs.block d i
    same d i far = rw (differ d (bblock fs b) (λ e. clash_le (v.bitmap b lt) (rw e at far))) refl

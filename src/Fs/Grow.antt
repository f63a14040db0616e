-- ===== src/Fs/Grow.antt =====
-- The block that bmap takes for a hole: what it changes in the map of a file.
use os_lab2_team.Prelude.{
  ℕ, ◌+◌, ◌-◌, ◌*◌, ◌/◌, ◌%◌, ◌^◌, ◌≤◌, ◌<◌, ◌≡◌, refl, sym, ap, ◌∙◌, ◌≢◌, arith, ℕ_discrete, ◌==◌,
  if◌then◌else◌,
}
use mathlib.Core.Path.{subst}
use os_lab2_team.Fs.{Fs, Inode, bpb, bit, bblock, map_bit, load_word, store_word, set_addr}
use os_lab2_team.Fs.Alloc.{Fresh}
use os_lab2_team.Fs.Map.{lookup_place, place, Mapped, Grown}

pub same_words :
    (fs fs1 : Fs) (a n : ℕ)
    → ((x : ℕ) → fs1.block a x ≡ fs.block a x)
    → load_word fs1 a n ≡ load_word fs a n
same_words fs fs1 a n h = rw (h (4 * n), h (4 * n + 1), h (4 * n + 2), h (4 * n + 3)) refl

zero_words : (fs : Fs) (a n : ℕ) → ((x : ℕ) → fs.block a x ≡ 0) → load_word fs a n ≡ 0
zero_words fs a n h = rw (h (4 * n), h (4 * n + 1), h (4 * n + 2), h (4 * n + 3)) refl

-- The words of a block in which one has been stored.
load_word-store_word :
    (fs : Fs) (a i w n : ℕ)
    → w < 2 ^ 32
    → load_word (store_word a i w fs) a n ≡ (if n == i then w else load_word fs a n)
load_word-store_word fs a i w n lt = elim (ℕ_discrete n i) [
  | yes e ↦ rw e (ground arith)
  | no ne ↦ ground arith
]

store_word_others :
    (fs : Fs) (a i w d x : ℕ) → d ≢ a → (store_word a i w fs).block d x ≡ fs.block d x
store_word_others fs a i w d x ne = ground arith

put_other : (addrs : ℕ → ℕ) (i b : ℕ) → i < 12 → (if 12 == i then b else addrs 12) ≡ addrs 12
put_other addrs i b lt = ground arith

pub apart : (x y meta : ℕ) → x < meta → meta ≤ y → x ≢ y
apart x y meta lt le e = omega arith

abbrev put_at : ℕ → ℕ → (ℕ → ℕ) → ℕ → ℕ
put_at i b addrs j = if j == i then b else addrs j

lookup_direct :
    (addrs word word' : ℕ → ℕ) (i b j : ℕ)
    → i < 12
    → (addrs 12 ≢ 0 → word' (j - 12) ≡ word (j - 12))
    → lookup_place (put_at i b addrs) word' j ≡ (if j == i then b else lookup_place addrs word j)
lookup_direct addrs word word' i b j lt h = ground (arith, h)

lookup_indirect :
    (addrs word word' : ℕ → ℕ) (b j : ℕ)
    → j ≤ 140
    → addrs 12 ≡ 0
    → word' (j - 12) ≡ 0
    → lookup_place (put_at 12 b addrs) word' j ≡ (if j == 140 then b else lookup_place addrs word j)
lookup_indirect addrs word word' b j le z h = ground (arith, h)

lookup_word :
    (addrs word word' : ℕ → ℕ) (i b j : ℕ)
    → i < 128
    → addrs 12 ≢ 0
    → word' (j - 12) ≡ (if j - 12 == i then b else word (j - 12))
    → lookup_place addrs word' j ≡ (if j == 12 + i then b else lookup_place addrs word j)
lookup_word addrs word word' i b j lt nz h = ground (arith, h)

pub lookup_at :
    (addrs word : ℕ → ℕ) (i : ℕ)
    → i < 128
    → addrs 12 ≢ 0
    → lookup_place addrs word (12 + i) ≡ word i
lookup_at addrs word i lt nz = let e : 12 + i - 12 ≡ i = omega arith in ground (arith, ap word e)

module _ (meta : ℕ) (fs : Fs) (ip : Inode) (v : Mapped meta fs ip) (b : ℕ) (fs1 : Fs)
    (f : Fresh meta fs b fs1) where
  -- The indirect block is not the new one.
  other_block : (k : ℕ) → k ≤ 140 → place fs ip k ≢ 0 → place fs ip k ≢ b
  other_block k le ne e =
      clash (map_bit fs b) f.was_free (subst (λ p. map_bit fs p ≡ 1) e (v.used k le ne).2)
    where
      clash : (x : ℕ) → x ≡ 0 → x ≡ 1 → ⊥
      clash x e f = omega arith

  kept_words :
      (n : ℕ) → ip.addrs 12 ≢ 0 → load_word fs1 (ip.addrs 12) n ≡ load_word fs (ip.addrs 12) n
  kept_words n ne = same_words fs fs1 (ip.addrs 12) n (λ x.
      f.others (ip.addrs 12) x (v.used 140 (omega arith) ne).0 (other_block 140 (omega arith) ne))

  pub direct-Grown : (i : ℕ) → i < 12 → ip.addrs i ≡ 0 → Grown meta fs ip i b fs1 (set_addr i b ip)
  direct-Grown i lt z = record {
    empty = ground arith;
    was_free = f.was_free;
    below = f.below;
    above = f.above;
    places = λ j le.
        lookup_direct ip.addrs (load_word fs (ip.addrs 12)) (load_word fs1 (put_at i b ip.addrs 12))
          i b j lt
          (λ nz.
            ap (λ a. load_word fs1 a (j - 12)) (put_other ip.addrs i b lt)
            ∙ kept_words (j - 12) nz);
    bits = f.bits;
    zeroed = f.zeroed;
    others = λ d x le ne far. f.others d x le ne;
    reserved = f.reserved;
    size = f.size;
  }

  pub indirect-Grown : ip.addrs 12 ≡ 0 → Grown meta fs ip 140 b fs1 (set_addr 12 b ip)
  indirect-Grown z = record {
    empty = z;
    was_free = f.was_free;
    below = f.below;
    above = f.above;
    places = λ j le.
        lookup_indirect ip.addrs (load_word fs (ip.addrs 12)) (load_word fs1 b) b j le z
          (zero_words fs1 b (j - 12) f.zeroed);
    bits = f.bits;
    zeroed = f.zeroed;
    others = λ d x le ne far. f.others d x le ne;
    reserved = f.reserved;
    size = f.size;
  }

  pub word-Grown :
      (i : ℕ)
      → i < 128
      → ip.addrs 12 ≢ 0
      → load_word fs (ip.addrs 12) i ≡ 0
      → Grown meta fs ip (12 + i) b (store_word (ip.addrs 12) i b fs1) ip
  word-Grown i lt nz z = record {
    empty = lookup_at ip.addrs (load_word fs (ip.addrs 12)) i lt nz ∙ z;
    was_free = f.was_free;
    below = f.below;
    above = f.above;
    places = λ j le.
        lookup_word ip.addrs (load_word fs (ip.addrs 12))
          (load_word (store_word (ip.addrs 12) i b fs1) (ip.addrs 12)) i b j lt nz (word (j - 12));
    bits = λ c lt. bit_kept c lt ∙ f.bits c lt;
    zeroed = λ x.
        store_word_others fs1 (ip.addrs 12) i b b x (λ e. other_block 140 (omega arith) nz (sym e))
        ∙ f.zeroed x;
    others = λ d x le ne far. store_word_others fs1 (ip.addrs 12) i b d x far ∙ f.others d x le ne;
    reserved = record {
      bitmap = f.reserved.bitmap;
      used = λ c lt. bit_kept c (omega (arith, v.reserved.inside)) ∙ f.reserved.used c lt;
      inside = f.reserved.inside;
      boot = f.reserved.boot;
    };
    size = f.size;
  }
    where
      word :
          (n : ℕ)
          → load_word (store_word (ip.addrs 12) i b fs1) (ip.addrs 12) n
            ≡ (if n == i then b else load_word fs (ip.addrs 12) n)
      word n =
          load_word-store_word fs1 (ip.addrs 12) i b n (omega (arith, f.below, v.small))
          ∙ ap (λ x. if n == i then b else x) (kept_words n nz)

      bit_kept :
          (c : ℕ) → c < fs.size → map_bit (store_word (ip.addrs 12) i b fs1) c ≡ map_bit fs1 c
      bit_kept c lt =
          ap (λ x. bit x (c % bpb % 8))
            (store_word_others fs1 (ip.addrs 12) i b (bblock fs1 c) (c % bpb / 8) (
              apart (bblock fs1 c) (ip.addrs 12) meta (f.reserved.bitmap c (omega (arith, f.size)))
                (v.used 140 (omega arith) nz).0))

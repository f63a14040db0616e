-- ===== src/Fs/Write.antt =====
-- The bytes that a round of writei replaces.
use os_lab2_team.Prelude.{
  ℕ, ◌+◌, ◌-◌, ◌*◌, ◌/◌, ◌%◌, ◌≤◌, ◌<◌, ◌≡◌, sym, ap, ◌∙◌, ◌≢◌, false, ◌&&◌, arith, ℕ_discrete,
  ◌==◌, if◌then◌else◌,
}
use mathlib.Core.Path.{subst}
use os_lab2_team.Fs.{Fs, Inode, bpb, bit, bblock, map_bit, load_word, inside, copy_in}
use os_lab2_team.Fs.Map.{place, lookup_place, read_at, byte_of, Mapped}
use os_lab2_team.Fs.Grow.{same_words, apart}

lookup_same :
    (addrs word word' : ℕ → ℕ) (j : ℕ)
    → (addrs 12 ≢ 0 → word' (j - 12) ≡ word (j - 12))
    → lookup_place addrs word' j ≡ lookup_place addrs word j
lookup_same addrs word word' j h = ground (arith, h)

read_other :
    (fs fs' : Fs) (p i : ℕ)
    → (p ≢ 0 → fs'.block p i ≡ fs.block p i)
    → read_at fs' p i ≡ read_at fs p i
read_other fs fs' p i h = ground (arith, h)

-- The bytes of a block of the file are replaced, and its map is not.
module _ (meta : ℕ) (fs : Fs) (ip : Inode) (v : Mapped meta fs ip) (bn a o tot m : ℕ) (src : ℕ → ℕ)
    (low : bn < 140) (here : place fs ip bn ≡ a) (nz : a ≢ 0) where
  in_file : (meta ≤ a) × (a < fs.size) × (map_bit fs a ≡ 1)
  in_file =
      subst (λ p. (meta ≤ p) × (p < fs.size) × (map_bit fs p ≡ 1)) here
        (v.used bn (omega arith) (subst (λ p. p ≢ 0) (sym here) nz))

  other_block : (d i : ℕ) → d ≢ a → (copy_in a o tot m src fs).block d i ≡ fs.block d i
  other_block d i ne = ground arith

  -- Another place holds another block.
  elsewhere : (j : ℕ) → j ≤ 140 → j ≢ bn → place fs ip j ≢ a
  elsewhere j le ne e =
      v.distinct bn j (omega arith) le (λ f. ne (sym f)) (subst (λ p. p ≢ 0) (sym here) nz)
        (here ∙ sym e)

  same_bits : (c : ℕ) → c < fs.size → map_bit (copy_in a o tot m src fs) c ≡ map_bit fs c
  same_bits c lt =
      ap (λ x. bit x (c % bpb % 8))
        (other_block (bblock fs c) (c % bpb / 8)
          (apart (bblock fs c) a meta (v.reserved.bitmap c lt) in_file.0))

  pub same_places : (j : ℕ) → place (copy_in a o tot m src fs) ip j ≡ place fs ip j
  same_places j =
      lookup_same ip.addrs (load_word fs (ip.addrs 12))
        (load_word (copy_in a o tot m src fs) (ip.addrs 12)) j
        (λ ne. same_words fs (copy_in a o tot m src fs) (ip.addrs 12) (j - 12) (λ x.
          other_block (ip.addrs 12) x (elsewhere 140 (omega arith) (λ e. absurd (omega arith)))))

  pub copy_in-Mapped : Mapped meta (copy_in a o tot m src fs) ip
  copy_in-Mapped = record {
    reserved = record {
      bitmap = v.reserved.bitmap;
      used = λ b lt. same_bits b (omega (arith, v.reserved.inside)) ∙ v.reserved.used b lt;
      inside = v.reserved.inside;
      boot = v.reserved.boot;
    };
    small = v.small;
    used = λ k le ne.
        let u = v.used k le (subst (λ p. p ≢ 0) (same_places k) ne) in
        subst (λ p. (meta ≤ p) × (p < fs.size) × (map_bit (copy_in a o tot m src fs) p ≡ 1))
          (sym (same_places k)) (u.0, u.1, same_bits (place fs ip k) u.1 ∙ u.2);
    distinct = λ j k lj lk ne p e.
        v.distinct j k lj lk ne (subst (λ p. p ≢ 0) (same_places j) p)
          (sym (same_places j) ∙ e ∙ same_places k);
  }

  pub copy_in-byte_of :
      (x : ℕ)
      → x < 140 * 512
      → byte_of (copy_in a o tot m src fs) ip x ≡ (
          if (x / 512 == bn) && inside o m (x % 512)
          then src (tot + (x % 512 - o))
          else byte_of fs ip x)
  copy_in-byte_of x lt =
      ap (λ p. read_at (copy_in a o tot m src fs) p (x % 512)) (same_places (x / 512))
      ∙ (elim (ℕ_discrete (x / 512) bn) [
        | yes e ↦ at_block (place fs ip (x / 512)) (ap (place fs ip) e ∙ here) e
        | no ne ↦ rw (no_block ne) (
            read_other fs (copy_in a o tot m src fs) (place fs ip (x / 512)) (x % 512) (λ p.
              other_block (place fs ip (x / 512)) (x % 512) (elsewhere (x / 512) (omega arith) ne)))
      ])
    where
      at_block :
          (p : ℕ)
          → p ≡ a
          → x / 512 ≡ bn
          → read_at (copy_in a o tot m src fs) p (x % 512) ≡ (
              if (x / 512 == bn) && inside o m (x % 512)
              then src (tot + (x % 512 - o))
              else read_at fs p (x % 512))
      at_block p e f = ground arith

      no_block : x / 512 ≢ bn → (x / 512 == bn) ≡ false
      no_block ne = ground arith

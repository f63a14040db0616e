-- ===== src/Fs/Map.antt =====
-- The blocks of a file: every place in its map holds another block, and a place that is filled leaves
-- the contents as they were.
use os_lab2_team.Prelude.{
  ℕ, ◌-◌, ◌*◌, ◌/◌, ◌%◌, ◌^◌, ◌≤◌, ◌<◌, ◌≡◌, refl, sym, ap, ◌∙◌, ◌≢◌, Bool, true, false, arith,
  ℕ_discrete, ltb, ◌==◌, if◌then◌else◌,
}
use mathlib.Core.Path.{subst}
use os_lab2_team.Fs.{Fs, Inode, map_bit, load_word}
use os_lab2_team.Fs.Alloc.{Reserved}

abbrev pub lookup_place : (ℕ → ℕ) → (ℕ → ℕ) → ℕ → ℕ
lookup_place addrs word k =
    if ltb k 12
    then addrs k
    else if k == 140
    then addrs 12
    else if addrs 12 == 0
    then 0
    else word (k - 12)

-- The block at place k of a file: block k of its contents, and at 140 the indirect block. 0 is none.
abbrev pub place : Fs → Inode → ℕ → ℕ
place fs ip k = lookup_place ip.addrs (load_word fs (ip.addrs 12)) k

-- A byte of a block; without a block it is 0.
abbrev pub read_at : Fs → ℕ → ℕ → ℕ
read_at fs a i = if a == 0 then 0 else fs.block a i

-- Byte `off` of the file; a hole reads as 0.
abbrev pub byte_of : Fs → Inode → ℕ → ℕ
byte_of fs ip off = read_at fs (place fs ip (off / 512)) (off % 512)

pub record Mapped (meta : ℕ) (fs : Fs) (ip : Inode) : Type 0 where
  pub reserved : Reserved meta fs
  pub small : fs.size ≤ 2 ^ 32
  pub used :
      (k : ℕ)
      → k ≤ 140
      → place fs ip k ≢ 0
      → (meta ≤ place fs ip k) × (place fs ip k < fs.size) × (map_bit fs (place fs ip k) ≡ 1)
  pub distinct :
      (j k : ℕ) → j ≤ 140 → k ≤ 140 → j ≢ k → place fs ip j ≢ 0 → place fs ip j ≢ place fs ip k

-- Place k has got the block b, and nothing else of the file has changed.
pub record Grown (meta : ℕ) (fs : Fs) (ip : Inode) (k b : ℕ) (fs' : Fs) (ip' : Inode) : Type 0 where
  pub empty : place fs ip k ≡ 0
  pub was_free : map_bit fs b ≡ 0
  pub below : b < fs.size
  pub above : meta ≤ b
  pub places : (j : ℕ) → j ≤ 140 → place fs' ip' j ≡ (if j == k then b else place fs ip j)
  pub bits : (c : ℕ) → c < fs.size → map_bit fs' c ≡ (if c == b then 1 else map_bit fs c)
  pub zeroed : (i : ℕ) → fs'.block b i ≡ 0
  pub others : (d i : ℕ) → meta ≤ d → d ≢ b → d ≢ place fs ip 140 → fs'.block d i ≡ fs.block d i
  pub reserved : Reserved meta fs'
  pub size : fs'.size ≡ fs.size

clash : (x : ℕ) → x ≡ 0 → x ≡ 1 → ⊥
clash x e f = omega arith

either : {x : ℕ} (c : Bool) → x ≡ 1 → (if c then 1 else x) ≡ 1
either true e = refl
either false e = e

zero_either : (c : Bool) (x : ℕ) → x ≡ 0 → (if c then 0 else x) ≡ 0
zero_either true x e = refl
zero_either false x e = e

pick_same : (j k b x : ℕ) → j ≡ k → (if j == k then b else x) ≡ b
pick_same j k b x e = ground arith

pick_other : (j k b x : ℕ) → j ≢ k → (if j == k then b else x) ≡ x
pick_other j k b x e = ground arith

module _ (meta : ℕ) (fs : Fs) (ip : Inode) (k b : ℕ) (fs' : Fs) (ip' : Inode)
    (v : Mapped meta fs ip) (g : Grown meta fs ip k b fs' ip') where
  pub at_k : (j : ℕ) → j ≤ 140 → j ≡ k → place fs' ip' j ≡ b
  at_k j le e = g.places j le ∙ pick_same j k b (place fs ip j) e

  pub off_k : (j : ℕ) → j ≤ 140 → j ≢ k → place fs' ip' j ≡ place fs ip j
  off_k j le ne = g.places j le ∙ pick_other j k b (place fs ip j) ne

  pub positive : b ≢ 0
  positive e = not_below b g.above e g.reserved.boot
    where
      not_below : (b : ℕ) → meta ≤ b → b ≡ 0 → 0 < meta → ⊥
      not_below b le e lt = omega arith

  -- No place held the new block.
  not_before : (j : ℕ) → j ≤ 140 → place fs ip j ≢ b
  not_before j le e =
      clash (map_bit fs b) g.was_free
        (subst (λ p. map_bit fs p ≡ 1) e (v.used j le (λ z. positive (sym e ∙ z))).2)

  in_use : (p : ℕ) → p < fs.size → map_bit fs p ≡ 1 → map_bit fs' p ≡ 1
  in_use p lt e = g.bits p lt ∙ either (p == b) e

  pub Grown-Mapped : Mapped meta fs' ip'
  Grown-Mapped = record {
    reserved = g.reserved;
    small = omega (arith, g.size, v.small);
    used = λ j le. elim (ℕ_discrete j k) [
      | yes e ↦ λ ne. subst Used (sym (at_k j le e)) (
        g.above,
        omega (arith, g.size, g.below),
        g.bits b g.below ∙ pick_same b b 1 (map_bit fs b) refl,
      )
      | no ne ↦
          λ nz. subst Used (sym (off_k j le ne)) (still (v.used j le (λ z. nz (off_k j le ne ∙ z))))
    ];
    distinct = λ i j li lj ne. elim (ℕ_discrete i k) [
      | yes on ↦
          λ nz e. not_before j lj (sym (off_k j lj (λ f. ne (on ∙ sym f))) ∙ sym e ∙ at_k i li on)
      | no off ↦ elim (ℕ_discrete j k) [
        | yes on ↦ λ nz e. not_before i li (sym (off_k i li off) ∙ e ∙ at_k j lj on)
        | no far ↦ λ nz e.
            v.distinct i j li lj ne (λ z. nz (off_k i li off ∙ z))
              (sym (off_k i li off) ∙ e ∙ off_k j lj far)
      ]
    ];
  }
    where
      Used : ℕ → Type 0
      Used p = (meta ≤ p) × (p < fs'.size) × (map_bit fs' p ≡ 1)

      still : {p : ℕ} → (meta ≤ p) × (p < fs.size) × (map_bit fs p ≡ 1) → Used p
      still {p} u = (u.0, omega (arith, u.1, g.size), in_use p u.1 u.2)

  pub Grown-byte_of : (off : ℕ) → off < 140 * 512 → byte_of fs' ip' off ≡ byte_of fs ip off
  Grown-byte_of off lt = elim (ℕ_discrete (off / 512) k) [
    | yes e ↦
        ap (λ p. read_at fs' p (off % 512)) (at_k (off / 512) (omega arith) e)
        ∙ read_zeroed
        ∙ sym (ap (λ p. read_at fs p (off % 512)) (subst (λ k. place fs ip k ≡ 0) (sym e) g.empty))
    | no ne ↦
        ap (λ p. read_at fs' p (off % 512)) (off_k (off / 512) (omega arith) ne)
        ∙ unmoved (place fs ip (off / 512)) refl
  ]
    where
      read_zeroed : read_at fs' b (off % 512) ≡ 0
      read_zeroed = zero_either (b == 0) (fs'.block b (off % 512)) (g.zeroed (off % 512))

      unmoved :
          (p : ℕ)
          → place fs ip (off / 512) ≡ p
          → read_at fs' p (off % 512) ≡ read_at fs p (off % 512)
      unmoved p e = elim (ℕ_discrete p 0) [
        | yes z ↦ rw z refl
        | no nz ↦
            ap (λ x. if p == 0 then 0 else x)
              (g.others p (off % 512)
                (subst (λ p. meta ≤ p) e (v.used (off / 512) (omega arith) (λ z. nz (sym e ∙ z))).0)
                (λ f. not_before (off / 512) (omega arith) (e ∙ f))
                (λ f.
                  v.distinct (off / 512) 140 (omega arith) (omega arith) (λ h. absurd (omega arith))
                    (λ z. nz (sym e ∙ z)) (e ∙ f)))
      ]

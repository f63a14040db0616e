-- ===== src/Bio/Recycle.antt =====
-- The second half of bget of bio.c: a buffer that is taken for another block.
use os_lab2_team.Prelude.{
  ℕ, ◌+◌, ◌^◌, ◌<◌, ◌≡◌, refl, sym, ap, ◌∙◌, ◌≢◌, true, false, none, List, ◌∷◌, arith, ℕ_discrete,
  ◌==◌, if◌then◌else◌, ==_iff, length, times,
}
use mathlib.Core.Path.{subst}
use os_lab2_team.Bio.{Buf, Cache, set_buf, find_block}
use os_lab2_team.Bio.Search.{find_block-none}
use os_lab2_team.Bio.View.{Sound, listed_below}

pub set_same : (s : Cache) (b i : ℕ) (w : Buf) → i ≡ b → (set_buf b w s).buf i ≡ w
set_same s b i w e = rw ((==_iff i b).1 e) refl

pub set_other : (s : Cache) (b i : ℕ) (w : Buf) → i ≢ b → (set_buf b w s).buf i ≡ s.buf i
set_other s b i w ne = rw (differ ne) refl
  where
    differ : i ≢ b → (i == b) ≡ false
    differ ne = ground arith

pub recycle-Sound :
    (held : List ℕ) (v : ℕ → ℕ → ℕ) (s : Cache) (b k : ℕ)
    → Sound held v s
    → length held + 1 < 2 ^ 32
    → find_block s.order s.buf 1 k ≡ none
    → (0 < times b s.order) × ((s.buf b).refcnt ≡ 0) × ((s.buf b).dirty ≡ false)
    → Sound (b ∷ held) v (
        set_buf b
          (record (s.buf b) { dev = 1; blockno = k; refcnt = 1; valid = false; dirty = false })
          s)
recycle-Sound held v s b k h few none_there f = record {
  listed = h.listed;
  counts = λ i. elim (ℕ_discrete i b) [
    | yes e ↦ ap (λ x. x.refcnt) (set_same s b i w e) ∙ first i e (h.counts b)
    | no ne ↦ ap (λ x. x.refcnt) (set_other s b i w ne) ∙ h.counts i ∙ same i ne
  ];
  few = omega arith;
  unique = λ i j li lj. elim (ℕ_discrete i b) [
    | yes e ↦ elim (ℕ_discrete j b) [
      | yes g ↦ λ di dj same. e ∙ sym g
      | no ng ↦ λ di dj same. absurd (
          fresh j lj (sym (ap (λ x. x.dev) (set_other s b j w ng)) ∙ dj) (
            sym (ap (λ x. x.blockno) (set_other s b j w ng))
            ∙ sym same
            ∙ ap (λ x. x.blockno) (set_same s b i w e)))
    ]
    | no ne ↦ elim (ℕ_discrete j b) [
      | yes g ↦ λ di dj same. absurd (
          fresh i li (sym (ap (λ x. x.dev) (set_other s b i w ne)) ∙ di) (
            sym (ap (λ x. x.blockno) (set_other s b i w ne))
            ∙ same
            ∙ ap (λ x. x.blockno) (set_same s b j w g)))
      | no ng ↦ λ di dj same.
          h.unique i j li lj (sym (ap (λ x. x.dev) (set_other s b i w ne)) ∙ di)
            (sym (ap (λ x. x.dev) (set_other s b j w ng)) ∙ dj)
            (sym (ap (λ x. x.blockno) (set_other s b i w ne))
              ∙ same
              ∙ ap (λ x. x.blockno) (set_other s b j w ng))
    ]
  ];
  cached = λ i li. elim (ℕ_discrete i b) [
    | yes e ↦ λ di ok. absurd (clash (sym (ap (λ x. x.valid) (set_same s b i w e)) ∙ ok))
    | no ne ↦
        subst (λ x. x.dev ≡ 1 → x.valid ≡ true → x.bytes ≡ v x.blockno) (sym (set_other s b i w ne))
          (h.cached i li)
  ];
  settled = λ i li. elim (ℕ_discrete i b) [
    | yes e ↦ λ bad. ap (λ x. x.dirty) (set_same s b i w e)
    | no ne ↦
        subst (λ x. x.valid ≡ false → x.dirty ≡ false) (sym (set_other s b i w ne)) (h.settled i li)
  ];
  on_disk = λ n clean. h.on_disk n (λ i li. elim (ℕ_discrete i b) [
    | yes e ↦ λ di bi. subst (λ i. (s.buf i).dirty ≡ false) (sym e) f.2
    | no ne ↦
        subst (λ x. x.dev ≡ 1 → x.blockno ≡ n → x.dirty ≡ false) (set_other s b i w ne) (clean i li)
  ]);
}
  where
    w : Buf
    w = record (s.buf b) { dev = 1; blockno = k; refcnt = 1; valid = false; dirty = false }

    clash : false ≡ true → ⊥
    clash e = ground arith

    fresh : (i : ℕ) → i < 30 → (s.buf i).dev ≡ 1 → (s.buf i).blockno ≢ k
    fresh i li = find_block-none s.order s.buf 1 k i none_there (listed_below held v s h i li)

    first : (i : ℕ) → i ≡ b → (s.buf b).refcnt ≡ times b held → 1 ≡ times i (b ∷ held)
    first i e g = subst (λ i. 1 ≡ times i (b ∷ held)) (sym e) (one (s.buf b).refcnt f.1 g)
      where
        one :
            (n : ℕ)
            → n ≡ 0
            → n ≡ times b held
            → 1 ≡ (if b == b then 1 + times b held else times b held)
        one n z g = ground arith

    same : (i : ℕ) → i ≢ b → times i held ≡ times i (b ∷ held)
    same i ne = ground arith

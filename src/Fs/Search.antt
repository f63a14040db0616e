-- ===== src/Fs/Search.antt =====
-- The loops of balloc, over any set of used blocks.
use os_lab2_team.Prelude.{
  ℕ, zero, suc, ◌+◌, ◌*◌, ◌/◌, ◌%◌, ◌≤◌, ◌<◌, ◌≡◌, refl, ◌≢◌, false, Option, none, some, arith,
  dec_lt, ℕ_discrete, ltb, lt→ltb, ◌==◌, if◌then◌else◌,
}
use os_lab2_team.Fs.{Fs, bblock, bit, map_bit, scan_bits, or_else, scan_map}

-- A bit as the loop reads it.
scanned :
    (fs : Fs) (b bi : ℕ)
    → b % 4096 ≡ 0
    → bi < 4096
    → bit (fs.block (bblock fs b) (bi / 8)) (bi % 8) ≡ map_bit fs (b + bi)
scanned fs b bi e lt =
    let p : (b + bi) / 4096 ≡ b / 4096 = omega arith in
    let q : (b + bi) % 4096 ≡ bi = omega arith in rw (p, q) refl

-- The search for a free block from c on, over any set of used blocks.
unfoldable first_free : ℕ → ℕ → ℕ → (ℕ → ℕ) → Option ℕ
first_free zero c size used = none
first_free (suc r) c size used =
    let rest = first_free r (c + 1) size used in
    if ltb c size then (if used c == 0 then some c else rest) else none

scan_bits-first_free :
    (r b bi : ℕ) (fs : Fs)
    → b % 4096 ≡ 0
    → bi + r ≤ 4096
    → scan_bits r b bi fs ≡ first_free r (b + bi) fs.size (map_bit fs)
unfolding scan_bits first_free
scan_bits-first_free zero b bi fs e le = refl
scan_bits-first_free (suc r) b bi fs e le =
    let next : b + (bi + 1) ≡ b + bi + 1 = omega arith in
    rw (scanned fs b bi e (omega arith), scan_bits-first_free r b (bi + 1) fs e (omega arith), next)
      refl

first_free-some :
    (r c size : ℕ) (used : ℕ → ℕ) (k : ℕ)
    → first_free r c size used ≡ some k
    → (k < size) × (used k ≡ 0) × (c ≤ k) × (k < c + r) × ((d : ℕ) → c ≤ d → d < k → used d ≢ 0)
unfolding first_free
first_free-some zero c size used k h = ground arith
first_free-some (suc r) c size used k h = elim (ℕ_discrete (used c) 0) [
  | yes e ↦
      (ground arith, ground arith, ground arith, ground arith, λ d le lt. absurd (ground arith))
  | no ne ↦
      let i = first_free-some r (c + 1) size used k (ground arith) in
      (i.0, i.1, omega (arith, i.2), omega (arith, i.3), λ d le lt. ground (arith, i.4 d))
]

first_free-none :
    (r c size : ℕ) (used : ℕ → ℕ)
    → first_free r c size used ≡ none
    → (d : ℕ) → c ≤ d
    → d < c + r
    → d < size
    → used d ≢ 0
unfolding first_free
first_free-none zero c size used h d lo hi lt = absurd (omega arith)
first_free-none (suc r) c size used h d lo hi lt = ground (
  arith,
  first_free-none r (c + 1) size used,
  first_free-none r (c + 1) size used (ground arith) d,
)

-- What the loops have found.
abbrev pub Found : ℕ → ℕ → (ℕ → ℕ) → Option ℕ → Type 0
Found c size used o =
    ((k : ℕ)
      → o ≡ some k
      → (k < size) × (used k ≡ 0) × (c ≤ k) × ((d : ℕ) → c ≤ d → d < k → used d ≢ 0))
    × (o ≡ none → (d : ℕ) → c ≤ d → d < size → used d ≢ 0)

or_else-Found :
    (b size : ℕ) (used : ℕ → ℕ) (o p : Option ℕ)
    → ((k : ℕ)
        → o ≡ some k
        → (k < size)
          × (used k ≡ 0)
          × (b ≤ k)
          × (k < b + 4096)
          × ((d : ℕ) → b ≤ d → d < k → used d ≢ 0))
    → (o ≡ none → (d : ℕ) → b ≤ d → d < b + 4096 → d < size → used d ≢ 0)
    → Found (b + 4096) size used p
    → Found b size used (or_else o p)
unfolding or_else
or_else-Found b size used (some k) p hs hn f =
    (λ j e. let i = hs j e in (i.0, i.1, i.2, i.4), λ e. ground arith)
or_else-Found b size used none p hs hn f = (
  λ j e.
      let g = f.0 j e in
      (
        g.0,
        g.1,
        omega (arith, g.2),
        λ d lo hi. elim (dec_lt d (b + 4096)) [
          | yes lt ↦ hn refl d lo lt (omega (arith, g.0))
          | no ge ↦ g.3 d (omega arith) hi
        ],
      ),
  λ e d lo lt. elim (dec_lt d (b + 4096)) [
    | yes near ↦ hn refl d lo near lt
    | no far ↦ f.1 e d (omega arith) lt
  ],
)

pub scan_map-Found :
    (r b : ℕ) (fs : Fs)
    → b % 4096 ≡ 0
    → fs.size ≤ b + 4096 * r
    → Found b fs.size (map_bit fs) (scan_map r b fs)
unfolding scan_map
scan_map-Found zero b fs e le = (λ k h. ground arith, λ h d lo lt. absurd (omega arith))
scan_map-Found (suc r) b fs e le = elim (dec_lt b fs.size) [
  | yes lt ↦
      rw (lt→ltb b fs.size lt, scan_bits-first_free 4096 b 0 fs e (omega arith))
        (or_else-Found b fs.size (map_bit fs) (first_free 4096 (b + 0) fs.size (map_bit fs))
          (scan_map r (b + 4096) fs)
          (λ k h.
            let i = first_free-some 4096 (b + 0) fs.size (map_bit fs) k h in
            (i.0, i.1, omega (arith, i.2), omega (arith, i.3), λ d lo hi. i.4 d (omega arith) hi))
          (λ h d lo hi lt.
            first_free-none 4096 (b + 0) fs.size (map_bit fs) h d (omega arith) (omega arith) lt)
          (scan_map-Found r (b + 4096) fs (omega arith) (omega arith)))
  | no ge ↦ rw (past ge) (λ k h. ground arith, λ h d lo lt. absurd (omega arith))
]
  where
    past : ¬ (b < fs.size) → ltb b fs.size ≡ false
    past ge = ground arith

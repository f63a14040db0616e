-- ===== src/Fs/Read.antt =====
-- readi of fs.c on the bytes of a file.
use os_lab2_team.Prelude.{
  ℕ, zero, suc, ◌+◌, ◌-◌, ◌/◌, ◌%◌, ◌≤◌, ◌<◌, ◌≡◌, refl, sym, ap, ◌∙◌, ◌≢◌, ◌⊎◌, inl, inr, false,
  ◌&&◌, some, arith, dec_lt, leb, ltb, lt→ltb, ◌==◌, if◌then◌else◌,
}
use mathlib.Core.Path.{subst}
use os_lab2_team.Fs.{Fs, Inode, bmap, slot, indirect, load_word, chunk, copy_out, read_from}
use os_lab2_team.Fs.Map.{place, lookup_place, byte_of, read_at}

pub chunk_lem :
    (n tot off : ℕ)
    → tot < n
    → (0 < chunk n tot off) × (tot + chunk n tot off ≤ n) × (off % 512 + chunk n tot off ≤ 512)
chunk_lem n tot off lt = elim (dec_lt (n - tot) (512 - off % 512)) [
  | yes l ↦ rw (lt→ltb (n - tot) (512 - off % 512) l) (omega arith, omega arith, omega arith)
  | no l ↦ rw (not_lt l) (omega arith, omega arith, omega arith)
]
  where
    not_lt : ¬ (n - tot < 512 - off % 512) → ltb (n - tot) (512 - off % 512) ≡ false
    not_lt l = ground arith

-- The places of the file from off to off + n that must be filled to read there.
abbrev pub Filled : Fs → Inode → ℕ → ℕ → Type 0
Filled fs ip off n = (x : ℕ) → off ≤ x → x < off + n → place fs ip (x / 512) ≢ 0

direct : (fs : Fs) (ip : Inode) (i : ℕ) → ip.addrs i ≢ 0 → slot fs ip i ≡ some (ip.addrs i, ip, fs)
unfolding slot
direct fs ip i ne = ground arith

through :
    (fs : Fs) (ip : Inode) (i : ℕ)
    → load_word fs (ip.addrs 12) i ≢ 0
    → indirect i (some (ip.addrs 12, ip, fs)) ≡ some (load_word fs (ip.addrs 12) i, ip, fs)
unfolding indirect
through fs ip i ne = rw (nonzero (load_word fs (ip.addrs 12) i) ne) refl
  where
    nonzero : (x : ℕ) → x ≢ 0 → (x == 0) ≡ false
    nonzero x ne = ground arith

low_place : (addrs word : ℕ → ℕ) (k : ℕ) → k < 12 → lookup_place addrs word k ≡ addrs k
low_place addrs word k lt = ground arith

high_place :
    (addrs word : ℕ → ℕ) (k : ℕ)
    → ¬ (k < 12)
    → k < 140
    → lookup_place addrs word k ≢ 0
    → (addrs 12 ≢ 0) × (lookup_place addrs word k ≡ word (k - 12))
high_place addrs word k ge lt ne = (ground arith, ground arith)

-- bmap of a block that is there changes nothing.
pub bmap-filled :
    (fs : Fs) (ip : Inode) (bn : ℕ)
    → bn < 140
    → place fs ip bn ≢ 0
    → bmap fs ip bn ≡ some (place fs ip bn, ip, fs)
unfolding bmap
bmap-filled fs ip bn lt ne = elim (dec_lt bn 12) [
  | yes l ↦
      let e = low_place ip.addrs (load_word fs (ip.addrs 12)) bn l in
      at_slot l (subst (λ p. p ≢ 0) e ne) ∙ ap (λ p. some (p, ip, fs)) (sym e)
  | no l ↦
      let h = high_place ip.addrs (load_word fs (ip.addrs 12)) bn l lt ne in
      at_word l h.0 (subst (λ p. p ≢ 0) h.1 ne) ∙ ap (λ p. some (p, ip, fs)) (sym h.1)
]
  where
    not_low : ¬ (bn < 12) → ltb bn 12 ≡ false
    not_low l = ground arith

    at_slot : bn < 12 → ip.addrs bn ≢ 0 → bmap fs ip bn ≡ some (ip.addrs bn, ip, fs)
    at_slot l ne = rw (lt→ltb bn 12 l) (direct fs ip bn ne)

    at_word :
        ¬ (bn < 12)
        → ip.addrs 12 ≢ 0
        → load_word fs (ip.addrs 12) (bn - 12) ≢ 0
        → bmap fs ip bn ≡ some (load_word fs (ip.addrs 12) (bn - 12), ip, fs)
    at_word l nz ne =
        rw (not_low l, lt→ltb (bn - 12) 128 (omega arith), direct fs ip 12 nz)
          (through fs ip (bn - 12) ne)

-- The bytes that one round copies.
round_byte :
    (fs : Fs) (ip : Inode) (tot m off j : ℕ)
    → place fs ip (off / 512) ≢ 0
    → off % 512 + m ≤ 512
    → tot ≤ j
    → j < tot + m
    → fs.block (place fs ip (off / 512)) (off % 512 + (j - tot)) ≡ byte_of fs ip (off + (j - tot))
round_byte fs ip tot m off j ne le lo hi =
    let q : (off + (j - tot)) / 512 ≡ off / 512 = omega arith in
    let r : (off + (j - tot)) % 512 ≡ off % 512 + (j - tot) = omega arith in
    rw (q, r) (at_block (place fs ip (off / 512)) ne)
  where
    at_block :
        (p : ℕ) → p ≢ 0 → fs.block p (off % 512 + (j - tot)) ≡ read_at fs p (off % 512 + (j - tot))
    at_block p ne = ground arith

-- `dst` with the bytes of the file from off on at the places from tot to n.
abbrev pub filled_in : (ℕ → ℕ) → ℕ → ℕ → ℕ → (ℕ → ℕ) → ℕ → ℕ
filled_in file off tot n dst j = if leb tot j && ltb j n then file (off + (j - tot)) else dst j

pub copied : (lo hi j x y : ℕ) → lo ≤ j → j < hi → (if leb lo j && ltb j hi then x else y) ≡ x
copied lo hi j x y le lt = ground arith

pub left_alone :
    (lo hi j x y : ℕ) → (j < lo) ⊎ (hi ≤ j) → (if leb lo j && ltb j hi then x else y) ≡ y
left_alone lo hi j x y (inl l) = ground arith
left_alone lo hi j x y (inr l) = ground arith

-- One round, then the others.
pub two_parts :
    (file : ℕ → ℕ) (off tot m n : ℕ) (dst dst1 dst2 : ℕ → ℕ) (j : ℕ)
    → tot + m ≤ n
    → (tot ≤ j → j < tot + m → dst1 j ≡ file (off + (j - tot)))
    → (¬ (tot ≤ j) → dst1 j ≡ dst j)
    → (tot + m ≤ j → dst1 j ≡ dst j)
    → dst2 j ≡ filled_in file (off + m) (tot + m) n dst1 j
    → dst2 j ≡ filled_in file off tot n dst j
two_parts file off tot m n dst dst1 dst2 j le inner before behind e = elim (dec_lt j tot) [
  | yes l ↦
      e
      ∙ left_alone (tot + m) n j _ _ (inl (omega arith))
      ∙ before (omega arith)
      ∙ sym (left_alone tot n j _ _ (inl l))
  | no l ↦ elim (dec_lt j (tot + m)) [
    | yes h ↦
        e
        ∙ left_alone (tot + m) n j _ _ (inl h)
        ∙ inner (omega arith) h
        ∙ sym (copied tot n j (file (off + (j - tot))) (dst j) (omega arith) (omega arith))
    | no h ↦ elim (dec_lt j n) [
      | yes lt ↦
          e
          ∙ copied (tot + m) n j _ _ (omega arith) lt
          ∙ ap file (omega arith)
          ∙ sym (copied tot n j (file (off + (j - tot))) (dst j) (omega arith) lt)
      | no ge ↦
          e
          ∙ left_alone (tot + m) n j _ _ (inr (omega arith))
          ∙ behind (omega arith)
          ∙ sym (left_alone tot n j _ _ (inr (omega arith)))
    ]
  ]
]

pub read_from_lem :
    (fuel tot off n : ℕ) (dst : ℕ → ℕ) (ip : Inode) (fs : Fs)
    → tot ≤ n
    → n ≤ tot + fuel
    → off + (n - tot) ≤ 71680
    → Filled fs ip off (n - tot)
    → (dst' : (ℕ → ℕ)) × (read_from fuel tot off n dst ip fs ≡ some (dst', ip, fs))
      × ((j : ℕ) → dst' j ≡ filled_in (byte_of fs ip) off tot n dst j)
unfolding read_from
read_from_lem zero tot off n dst ip fs le enough small full = (dst, refl, λ j. ground arith)
read_from_lem (suc fuel) tot off n dst ip fs le enough small full = elim (dec_lt tot n) [
  | yes lt ↦
      let c = chunk_lem n tot off lt in
      let m = chunk n tot off in
      let ne = full off (omega arith) (omega arith) in
      let dst1 = copy_out fs (place fs ip (off / 512)) (off % 512) tot m dst in
      let rest =
        read_from_lem fuel (tot + m) (off + m) n dst1 ip fs c.1 (omega (arith, c.0))
          (omega (arith, c.1)) (λ x lo hi. full x (omega arith) (omega (arith, c.1))) in
      (
        rest.0,
        rw (lt→ltb tot n lt, bmap-filled fs ip (off / 512) (omega arith) ne) rest.1,
        λ j.
            two_parts (byte_of fs ip) off tot m n dst dst1 rest.0 j c.1
              (λ lo hi. inner j lo hi ∙ round_byte fs ip tot m off j ne c.2 lo hi) (λ l. before j l)
              (λ l. behind j l) (rest.2 j),
      )
  | no ge ↦ (dst, rw (not_lt ge) refl, λ j. ground arith)
]
  where
    not_lt : ¬ (tot < n) → ltb tot n ≡ false
    not_lt l = ground arith

    inner :
        (j : ℕ)
        → tot ≤ j
        → j < tot + chunk n tot off
        → copy_out fs (place fs ip (off / 512)) (off % 512) tot (chunk n tot off) dst j
          ≡ fs.block (place fs ip (off / 512)) (off % 512 + (j - tot))
    inner j lo hi =
        copied tot (tot + chunk n tot off) j
          (fs.block (place fs ip (off / 512)) (off % 512 + (j - tot))) (dst j) lo hi

    before :
        (j : ℕ)
        → ¬ (tot ≤ j)
        → copy_out fs (place fs ip (off / 512)) (off % 512) tot (chunk n tot off) dst j ≡ dst j
    before j l =
        left_alone tot (tot + chunk n tot off) j
          (fs.block (place fs ip (off / 512)) (off % 512 + (j - tot))) (dst j) (inl (omega arith))

    behind :
        (j : ℕ)
        → tot + chunk n tot off ≤ j
        → copy_out fs (place fs ip (off / 512)) (off % 512) tot (chunk n tot off) dst j ≡ dst j
    behind j l =
        left_alone tot (tot + chunk n tot off) j
          (fs.block (place fs ip (off / 512)) (off % 512 + (j - tot))) (dst j) (inr l)

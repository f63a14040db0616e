-- ===== src/Fs/Rounds.antt =====
-- The loop of writei of fs.c.
use os_lab2_team.Prelude.{
  ℕ, zero, suc, ◌+◌, ◌-◌, ◌/◌, ◌%◌, ◌≤◌, ◌<◌, ◌≡◌, refl, sym, ap, ◌∙◌, ◌≢◌, ◌⊎◌, inl, inr, false,
  ◌&&◌, Option, none, some, arith, dec_lt, ℕ_discrete, ltb, lt→ltb, ◌==◌, if◌then◌else◌, ==_iff,
}
use mathlib.Core.Path.{subst}
use os_lab2_team.Fs.{Fs, Inode, Mapping, bmap, and_then, chunk, inside, copy_in, write_from}
use os_lab2_team.Fs.Map.{place, byte_of, Mapped}
use os_lab2_team.Fs.Bmap.{Has, bmap_lem}
use os_lab2_team.Fs.Read.{chunk_lem, Filled, filled_in, copied, left_alone, two_parts}
use os_lab2_team.Fs.Write.{copy_in-Mapped, copy_in-byte_of, same_places}

-- What the rounds of writei have done for the n - tot bytes from off on.
pub record Stored (meta : ℕ) (fs : Fs) (ip : Inode) (tot off n : ℕ) (src : ℕ → ℕ) (r : Inode × Fs)
    : Type 0 where
  pub mapped : Mapped meta r.1 r.0
  pub bytes :
      (x : ℕ)
      → x < 71680
      → byte_of r.1 r.0 x ≡ filled_in src tot off (off + (n - tot)) (byte_of fs ip) x
  pub filled : Filled r.1 r.0 off (n - tot)
  pub kept : (j : ℕ) → j ≤ 140 → place fs ip j ≢ 0 → place r.1 r.0 j ≢ 0
  pub length_kept : r.0.size ≡ ip.size

in_block :
    (x off m a b : ℕ)
    → off % 512 + m ≤ 512
    → off ≤ x
    → x < off + m
    → (if (x / 512 == off / 512) && inside (off % 512) m (x % 512) then a else b) ≡ a
in_block x off m a b le lo hi =
    let e : x / 512 ≡ off / 512 = omega arith in
    rw ((==_iff (x / 512) (off / 512)).1 e)
      (copied (off % 512) (off % 512 + m) (x % 512) a b (omega arith) (omega arith))

out_of_block :
    (x off m a b : ℕ)
    → off % 512 + m ≤ 512
    → (x < off) ⊎ (off + m ≤ x)
    → (if (x / 512 == off / 512) && inside (off % 512) m (x % 512) then a else b) ≡ b
out_of_block x off m a b le h = elim (ℕ_discrete (x / 512) (off / 512)) [
  | yes e ↦
      rw ((==_iff (x / 512) (off / 512)).1 e)
        (left_alone (off % 512) (off % 512 + m) (x % 512) a b (side e h))
  | no ne ↦ rw (differ ne) refl
]
  where
    side :
        x / 512 ≡ off / 512
        → (x < off) ⊎ (off + m ≤ x)
        → (x % 512 < off % 512) ⊎ (off % 512 + m ≤ x % 512)
    side e (inl l) = inl (omega arith)
    side e (inr l) = inr (omega arith)

    differ : x / 512 ≢ off / 512 → (x / 512 == off / 512) ≡ false
    differ ne = ground arith

-- A round, and then the others.
round-Stored :
    (meta : ℕ) (fs : Fs) (ip : Inode) (tot off m n a : ℕ) (src : ℕ → ℕ) (ip1 : Inode) (fs1 : Fs)
    (r : Inode × Fs)
    → Has meta fs ip (off / 512) (a, ip1, fs1)
    → 0 < m
    → tot + m ≤ n
    → off % 512 + m ≤ 512
    → off + (n - tot) ≤ 71680
    → Stored meta (copy_in a (off % 512) tot m src fs1) ip1 (tot + m) (off + m) n src r
    → Stored meta fs ip tot off n src r
round-Stored meta fs ip tot off m n a src ip1 fs1 r h pm le fit small s = record {
  mapped = s.mapped;
  bytes = bytes;
  filled = filled;
  kept = λ j lj ne. on j lj (h.kept j lj ne);
  length_kept = s.length_kept ∙ h.length_kept;
}
  where
    low : off / 512 < 140
    low = omega arith

    fs2 : Fs
    fs2 = copy_in a (off % 512) tot m src fs1

    on : (j : ℕ) → j ≤ 140 → place fs1 ip1 j ≢ 0 → place r.1 r.0 j ≢ 0
    on j lj ne = s.kept j lj (
        subst (λ p. p ≢ 0)
          (sym (
            same_places meta fs1 ip1 h.mapped (off / 512) a (off % 512) tot m src low h.at_bn
              h.block j))
          ne)

    filled : Filled r.1 r.0 off (n - tot)
    filled x lo hi = elim (dec_lt x (off + m)) [
      | yes l ↦
          let e : off / 512 ≡ x / 512 = omega arith in
          on (x / 512) (omega arith) (λ z. h.block (sym h.at_bn ∙ ap (place fs1 ip1) e ∙ z))
      | no l ↦ s.filled x (omega arith) (omega arith)
    ]

    after_round :
        (x : ℕ)
        → x < 71680
        → byte_of fs2 ip1 x ≡ (
            if (x / 512 == off / 512) && inside (off % 512) m (x % 512)
            then src (tot + (x % 512 - off % 512))
            else byte_of fs1 ip1 x)
    after_round x lt =
        copy_in-byte_of meta fs1 ip1 h.mapped (off / 512) a (off % 512) tot m src low h.at_bn
          h.block x lt

    outside : (x : ℕ) → x < 71680 → (x < off) ⊎ (off + m ≤ x) → byte_of fs2 ip1 x ≡ byte_of fs ip x
    outside x lt o = after_round x lt ∙ out_of_block x off m _ _ fit o ∙ h.bytes x lt

    bytes :
        (x : ℕ)
        → x < 71680
        → byte_of r.1 r.0 x ≡ filled_in src tot off (off + (n - tot)) (byte_of fs ip) x
    bytes x lt =
        two_parts src tot off m (off + (n - tot)) (byte_of fs ip) (byte_of fs2 ip1)
          (byte_of r.1 r.0) x (omega arith)
          (λ lo hi. after_round x lt ∙ in_block x off m _ _ fit lo hi ∙ ap src (omega arith))
          (λ l. outside x lt (inl (omega arith))) (λ l. outside x lt (inr l))
          (subst (λ e. byte_of r.1 r.0 x ≡ filled_in src (tot + m) (off + m) e (byte_of fs2 ip1) x)
            (omega arith) (s.bytes x lt))

abbrev pub StoredSome : ℕ → Fs → Inode → ℕ → ℕ → ℕ → (ℕ → ℕ) → Option (Inode × Fs) → Type 0
StoredSome meta fs ip tot off n src none = Unit {0}
StoredSome meta fs ip tot off n src (some r) = Stored meta fs ip tot off n src r

round-StoredSome :
    (meta : ℕ) (fs : Fs) (ip : Inode) (tot off m n a : ℕ) (src : ℕ → ℕ) (ip1 : Inode) (fs1 : Fs)
    (o : Option (Inode × Fs))
    → Has meta fs ip (off / 512) (a, ip1, fs1)
    → 0 < m
    → tot + m ≤ n
    → off % 512 + m ≤ 512
    → off + (n - tot) ≤ 71680
    → StoredSome meta (copy_in a (off % 512) tot m src fs1) ip1 (tot + m) (off + m) n src o
    → StoredSome meta fs ip tot off n src o
round-StoredSome meta fs ip tot off m n a src ip1 fs1 none h pm le fit small s = tt
round-StoredSome meta fs ip tot off m n a src ip1 fs1 (some r) h pm le fit small s =
    round-Stored meta fs ip tot off m n a src ip1 fs1 r h pm le fit small s

-- After the last round.
end-Stored :
    (meta : ℕ) (fs : Fs) (ip : Inode) (tot off n : ℕ) (src : ℕ → ℕ)
    → Mapped meta fs ip
    → n ≤ tot
    → Stored meta fs ip tot off n src (ip, fs)
end-Stored meta fs ip tot off n src v le = record {
  mapped = v;
  bytes = λ x lt. sym (left_alone off (off + (n - tot)) x _ _ (side x (dec_lt x off)));
  filled = λ x lo hi. absurd (omega arith);
  kept = λ j lj ne. ne;
  length_kept = refl;
}
  where
    side : (x : ℕ) → Dec (x < off) → (x < off) ⊎ (off + (n - tot) ≤ x)
    side x (yes l) = inl l
    side x (no l) = inr (omega arith)

pub write_from-StoredSome :
    (fuel meta tot off n : ℕ) (src : ℕ → ℕ) (ip : Inode) (fs : Fs)
    → Mapped meta fs ip
    → tot ≤ n
    → n ≤ tot + fuel
    → off + (n - tot) ≤ 71680
    → StoredSome meta fs ip tot off n src (write_from fuel tot off n src ip fs)
unfolding write_from
write_from-StoredSome zero meta tot off n src ip fs v le enough small =
    end-Stored meta fs ip tot off n src v (omega arith)
write_from-StoredSome (suc fuel) meta tot off n src ip fs v le enough small = elim (dec_lt tot n) [
  | yes lt ↦
      let c = chunk_lem n tot off lt in
      rw (lt→ltb tot n lt) (
        go (bmap fs ip (off / 512)) c (λ q e. bmap_lem meta fs ip (off / 512) q v (omega arith) e)
          (λ ip1 fs1 w.
            write_from-StoredSome fuel meta (tot + chunk n tot off) (off + chunk n tot off) n src
              ip1 fs1 w c.1 (omega (arith, c.0)) (omega (arith, c.1))))
  | no ge ↦ rw (not_lt ge) (end-Stored meta fs ip tot off n src v (omega arith))
]
  where
    not_lt : ¬ (tot < n) → ltb tot n ≡ false
    not_lt l = ground arith

    go :
        (o : Option Mapping)
        → (0 < chunk n tot off) × (tot + chunk n tot off ≤ n) × (off % 512 + chunk n tot off ≤ 512)
        → ((q : Mapping) → o ≡ some q → Has meta fs ip (off / 512) q)
        → ((ip1 : Inode) (fs1 : Fs)
            → Mapped meta fs1 ip1
            → StoredSome meta fs1 ip1
                (tot + chunk n tot off)
                (off + chunk n tot off)
                n
                src
                (write_from fuel (tot + chunk n tot off) (off + chunk n tot off) n src ip1 fs1))
        → StoredSome meta fs ip tot off n src (
            and_then o (λ r.
              write_from fuel
                (tot + chunk n tot off)
                (off + chunk n tot off)
                n
                src
                r.1
                (copy_in r.0 (off % 512) tot (chunk n tot off) src r.2)))
    go none c h more = tt
    go (some (a, ip1, fs1)) c h more =
        let has = h (a, ip1, fs1) refl in
        round-StoredSome meta fs ip tot off (chunk n tot off) n a src ip1 fs1 _ has c.0 c.1 c.2
          small
          (more ip1 _ (
            copy_in-Mapped meta fs1 ip1 has.mapped (off / 512) a (off % 512) tot (chunk n tot off)
              src (omega (arith, c.2)) has.at_bn has.block))

-- ===== src/Fs/Stores.antt =====
-- writei of fs.c on the bytes of a file.
use os_lab2_team.Prelude.{
  ℕ, zero, suc, ◌+◌, ◌-◌, ◌*◌, ◌/◌, ◌%◌, ◌^◌, ◌≤◌, ◌<◌, ◌≡◌, refl, sym, ap, ◌∙◌, ◌≢◌, ◌⊎◌, inl, inr,
  ℤ, pos, negsuc, true, false, ◌&&◌, ◌||◌, Option, none, some, arith, dec_lt, leb, ltb, lt→ltb,
  if◌then◌else◌, Bool-cases,
}
use mathlib.Core.Path.{subst}
use os_lab2_team.Fs.{Fs, Inode, bsize, maxfile, and_then, chunk, copy_in, write_from, writei}
use os_lab2_team.Fs.Map.{place, byte_of, Mapped}
use os_lab2_team.Fs.Read.{chunk_lem, Filled, bmap-filled}
use os_lab2_team.Fs.Write.{copy_in-Mapped, same_places}
use os_lab2_team.Fs.Rounds.{Stored, StoredSome, write_from-StoredSome}

-- What writei has done.
pub record Written (meta : ℕ) (fs : Fs) (ip : Inode) (src : ℕ → ℕ) (off n : ℕ) (ip' : Inode)
    (fs' : Fs) : Type 0 where
  pub mapped : Mapped meta fs' ip'
  pub bytes :
      (x : ℕ)
      → x < 71680
      → byte_of fs' ip' x
        ≡ (if leb off x && ltb x (off + n) then src (x - off) else byte_of fs ip x)
  pub filled : Filled fs' ip' off n
  pub kept : (j : ℕ) → j ≤ 140 → place fs ip j ≢ 0 → place fs' ip' j ≢ 0
  pub length : ip'.size ≡ (if ltb ip.size (off + n) then off + n else ip.size)

Stored-Written :
    (meta : ℕ) (fs : Fs) (ip : Inode) (src : ℕ → ℕ) (off n : ℕ) (r : Inode × Fs)
    → off ≤ ip.size
    → Stored meta fs ip 0 off n src r
    → Written meta fs ip src off n
        (if ltb 0 n && ltb r.0.size (off + n) then record r.0 { size = off + n } else r.0)
        r.1
Stored-Written meta fs ip src off n r le s = elim (Bool-cases (ltb 0 n && ltb r.0.size (off + n))) [
  | inl e ↦ rw e (record {
    mapped = moved;
    bytes = bytes;
    filled = filled;
    kept = s.kept;
    length = grown e s.length_kept;
  })
  | inr e ↦ rw e (record {
    mapped = s.mapped;
    bytes = bytes;
    filled = filled;
    kept = s.kept;
    length = same e s.length_kept;
  })
]
  where
    moved : Mapped meta r.1 (record r.0 { size = off + n })
    moved = record {
      reserved = s.mapped.reserved;
      small = s.mapped.small;
      used = s.mapped.used;
      distinct = s.mapped.distinct;
    }

    bytes :
        (x : ℕ)
        → x < 71680
        → byte_of r.1 r.0 x
          ≡ (if leb off x && ltb x (off + n) then src (x - off) else byte_of fs ip x)
    bytes =
        subst
          (λ k.
            (x : ℕ)
            → x < 71680
            → byte_of r.1 r.0 x
              ≡ (if leb off x && ltb x (off + k) then src (x - off) else byte_of fs ip x))
          (omega arith)
          (λ x lt.
            s.bytes x lt
            ∙ ap (λ y. if leb off x && ltb x (off + (n - 0)) then src y else byte_of fs ip x)
                (omega arith))

    filled : Filled r.1 r.0 off n
    filled = subst (Filled r.1 r.0 off) (omega arith) s.filled

    grown :
        ltb 0 n && ltb r.0.size (off + n) ≡ true
        → r.0.size ≡ ip.size
        → off + n ≡ (if ltb ip.size (off + n) then off + n else ip.size)
    grown e f = ground arith

    same :
        ltb 0 n && ltb r.0.size (off + n) ≡ false
        → r.0.size ≡ ip.size
        → r.0.size ≡ (if ltb ip.size (off + n) then off + n else ip.size)
    same e f = ground arith

abbrev WrittenSome : ℕ → Fs → Inode → (ℕ → ℕ) → ℕ → ℕ → Option (ℤ × Inode × Fs) → Type 0
WrittenSome meta fs ip src off n none = Unit {0}
WrittenSome meta fs ip src off n (some r) = (r.0 ≡ pos n) × Written meta fs ip src off n r.1 r.2

-- The rounds over blocks that are there.
write_from-filled :
    (meta fuel tot off n : ℕ) (src : ℕ → ℕ) (ip : Inode) (fs : Fs)
    → Mapped meta fs ip
    → tot ≤ n
    → n ≤ tot + fuel
    → off + (n - tot) ≤ 71680
    → Filled fs ip off (n - tot)
    → (r : Inode × Fs) × (write_from fuel tot off n src ip fs ≡ some r)
unfolding write_from
write_from-filled meta zero tot off n src ip fs v le enough small full = ((ip, fs), refl)
write_from-filled meta (suc fuel) tot off n src ip fs v le enough small full = elim (dec_lt tot n) [
  | yes lt ↦
      let c = chunk_lem n tot off lt in
      let m = chunk n tot off in
      let ne = full off (omega arith) (omega arith) in
      let low : off / 512 < 140 = omega arith in
      let a = place fs ip (off / 512) in
      let rest =
        write_from-filled meta fuel (tot + m) (off + m) n src ip
          (copy_in a (off % 512) tot m src fs)
          (copy_in-Mapped meta fs ip v (off / 512) a (off % 512) tot m src low refl ne) c.1
          (omega (arith, c.0)) (omega (arith, c.1))
          (λ x lo hi.
            subst (λ p. p ≢ 0)
              (sym (
                same_places meta fs ip v (off / 512) a (off % 512) tot m src low refl ne (x / 512)))
              (full x (omega arith) (omega (arith, c.1)))) in
      (rest.0, rw (lt→ltb tot n lt, bmap-filled fs ip (off / 512) low ne) rest.1)
  | no ge ↦ ((ip, fs), rw (not_lt ge) refl)
]
  where
    not_lt : ¬ (tot < n) → ltb tot n ≡ false
    not_lt l = ground arith

-- For a file whose blocks are its own: writei refuses to start behind the end of the file, and to
-- write past the largest file, and then changes nothing. Else, if it returns at all, it returns n;
-- the n bytes of the file from off on are those of `src` and the others are as they were, the file is
-- as long as its old length and off + n, and its blocks are still its own. It returns, with no panic
-- of its own or of bmap, for the at most 1536 bytes that filewrite writes in a transaction, when the
-- blocks it writes to are all there.
pub writei_lem :
    (meta : ℕ) (fs : Fs) (ip : Inode) (src : ℕ → ℕ) (off n : ℕ)
    → Mapped meta fs ip
    → ((ip.size < off) ⊎ (71680 < off + n) → writei fs ip src off n ≡ some (negsuc 0, ip, fs))
      × (off ≤ ip.size
          → off + n ≤ 71680
          → ((k : ℤ) (ip' : Inode) (fs' : Fs)
              → writei fs ip src off n ≡ some (k, ip', fs')
              → (k ≡ pos n) × Written meta fs ip src off n ip' fs')
            × (n ≤ 1536
                → Filled fs ip off n
                → (r : ℤ × Inode × Fs) × (writei fs ip src off n ≡ some r)))
unfolding writei
writei_lem meta fs ip src off n v = (
  refused,
  λ le small. (
    λ k ip' fs' e. subst (WrittenSome meta fs ip src off n) e (accepted le small),
    λ few full.
        let w =
          write_from-filled meta n 0 off n src ip fs v (omega arith) (omega arith) (omega arith)
            (λ x lo hi. full x lo (omega arith)) in
        (
          (
            pos n,
            (if ltb 0 n && ltb w.0.0.size (off + n)
                then record w.0.0 { size = off + n }
                else w.0.0),
            w.0.1,
          ),
          rw (in_range le small, short small, w.1) refl,
        ),
  ),
)
  where
    refused : (ip.size < off) ⊎ (71680 < off + n) → writei fs ip src off n ≡ some (negsuc 0, ip, fs)
    refused (inl lt) = ground arith
    refused (inr lt) = ground arith

    in_range :
        off ≤ ip.size → off + n ≤ 71680 → ltb ip.size off || ltb ((off + n) % 2 ^ 32) off ≡ false
    in_range le small = let e : (off + n) % 2 ^ 32 ≡ off + n = omega arith in ground arith

    short : off + n ≤ 71680 → ltb (maxfile * bsize) (off + n) ≡ false
    short small = ground arith

    finish :
        (o : Option (Inode × Fs))
        → off ≤ ip.size
        → StoredSome meta fs ip 0 off n src o
        → WrittenSome meta fs ip src off n (
            and_then o (λ r. some (
              pos n,
              (if ltb 0 n && ltb r.0.size (off + n) then record r.0 { size = off + n } else r.0),
              r.1,
            )))
    finish none le s = tt
    finish (some r) le s = (refl, Stored-Written meta fs ip src off n r le s)

    accepted :
        off ≤ ip.size → off + n ≤ 71680 → WrittenSome meta fs ip src off n (writei fs ip src off n)
    accepted le small =
        rw (in_range le small, short small)
          (finish (write_from n 0 off n src ip fs) le (
            write_from-StoredSome n meta 0 off n src ip fs v (omega arith) (omega arith)
              (omega arith)))

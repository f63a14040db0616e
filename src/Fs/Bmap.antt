-- ===== src/Fs/Bmap.antt =====
-- bmap of fs.c: it fills holes in the map of a file, and no more.
use os_lab2_team.Prelude.{
  ℕ, ◌+◌, ◌-◌, ◌*◌, ◌≤◌, ◌<◌, ◌≡◌, refl, sym, ◌∙◌, ◌≢◌, false, Option, none, some, arith, dec_lt,
  ℕ_discrete, ltb, lt→ltb, ◌==◌, if◌then◌else◌, ==_iff,
}
use mathlib.Core.Path.{subst}
use os_lab2_team.Fs.{
  Fs, Inode, balloc, load_word, store_word, set_addr, Mapping, give_slot, slot, give_word, indirect,
  bmap,
}
use os_lab2_team.Fs.Alloc.{balloc_lem}
use os_lab2_team.Fs.Map.{
  place, byte_of, Mapped, Grown, at_k, off_k, positive, Grown-Mapped, Grown-byte_of,
}
use os_lab2_team.Fs.Grow.{lookup_at, direct-Grown, indirect-Grown, word-Grown}

-- What bmap has done: the address is that of place bn, and the contents are as they were.
pub record Has (meta : ℕ) (fs : Fs) (ip : Inode) (bn : ℕ) (r : Mapping) : Type 0 where
  pub mapped : Mapped meta r.2 r.1
  pub at_bn : place r.2 r.1 bn ≡ r.0
  pub block : r.0 ≢ 0
  pub bytes : (off : ℕ) → off < 140 * 512 → byte_of r.2 r.1 off ≡ byte_of fs ip off
  pub length_kept : r.1.size ≡ ip.size
  pub kept : (j : ℕ) → j ≤ 140 → place fs ip j ≢ 0 → place r.2 r.1 j ≢ 0

abbrev HasSome : ℕ → Fs → Inode → ℕ → Option Mapping → Type 0
HasSome meta fs ip bn none = Unit {0}
HasSome meta fs ip bn (some r) = Has meta fs ip bn r

Grown-Has :
    (meta : ℕ) (fs : Fs) (ip : Inode) (k b : ℕ) (fs' : Fs) (ip' : Inode)
    → k ≤ 140
    → Mapped meta fs ip
    → Grown meta fs ip k b fs' ip'
    → ip'.size ≡ ip.size
    → Has meta fs ip k (b, ip', fs')
Grown-Has meta fs ip k b fs' ip' le v g e = record {
  mapped = Grown-Mapped meta fs ip k b fs' ip' v g;
  at_bn = at_k meta fs ip k b fs' ip' v g k le refl;
  block = positive meta fs ip k b fs' ip' v g;
  bytes = Grown-byte_of meta fs ip k b fs' ip' v g;
  length_kept = e;
  kept = λ j le nz e. elim (ℕ_discrete j k) [
    | yes f ↦ nz (subst (λ j. place fs ip j ≡ 0) (sym f) g.empty)
    | no ne ↦ nz (sym (off_k meta fs ip k b fs' ip' v g j le ne) ∙ e)
  ];
}

-- A place that is there already.
there-Has :
    (meta : ℕ) (fs : Fs) (ip : Inode) (k a : ℕ)
    → Mapped meta fs ip
    → place fs ip k ≡ a
    → a ≢ 0
    → Has meta fs ip k (a, ip, fs)
there-Has meta fs ip k a v e ne = record {
  mapped = v;
  at_bn = e;
  block = ne;
  bytes = λ off lt. refl;
  length_kept = refl;
  kept = λ j le nz. nz;
}

nonzero : (x : ℕ) → x ≢ 0 → (x == 0) ≡ false
nonzero x ne = ground arith

-- balloc at an empty place.
give_slot_lem :
    (meta : ℕ) (fs : Fs) (ip : Inode) (i k : ℕ) (r : Option (ℕ × Fs))
    → k ≤ 140
    → Mapped meta fs ip
    → ((b : ℕ) (fs' : Fs) → r ≡ some (b, fs') → Grown meta fs ip k b fs' (set_addr i b ip))
    → HasSome meta fs ip k (give_slot i ip r)
unfolding give_slot
give_slot_lem meta fs ip i k none le v g = tt
give_slot_lem meta fs ip i k (some (b, fs')) le v g =
    Grown-Has meta fs ip k b fs' (set_addr i b ip) le v (g b fs' refl) refl

slot-direct :
    (meta : ℕ) (fs : Fs) (ip : Inode) (i : ℕ)
    → i < 12
    → Mapped meta fs ip
    → HasSome meta fs ip i (slot fs ip i)
unfolding slot
slot-direct meta fs ip i lt v = elim (ℕ_discrete (ip.addrs i) 0) [
  | yes e ↦ rw ((==_iff (ip.addrs i) 0).1 e) (
      give_slot_lem meta fs ip i i (balloc fs) (omega arith) v (λ b fs' h.
        direct-Grown meta fs ip v b fs' ((balloc_lem meta fs v.reserved).0 b fs' h) i lt e))
  | no ne ↦ rw (nonzero (ip.addrs i) ne) (there-Has meta fs ip i (ip.addrs i) v (ground arith) ne)
]

slot-indirect :
    (meta : ℕ) (fs : Fs) (ip : Inode) → Mapped meta fs ip → HasSome meta fs ip 140 (slot fs ip 12)
unfolding slot
slot-indirect meta fs ip v = elim (ℕ_discrete (ip.addrs 12) 0) [
  | yes e ↦ rw ((==_iff (ip.addrs 12) 0).1 e) (
      give_slot_lem meta fs ip 12 140 (balloc fs) (omega arith) v (λ b fs' h.
        indirect-Grown meta fs ip v b fs' ((balloc_lem meta fs v.reserved).0 b fs' h) e))
  | no ne ↦ rw (nonzero (ip.addrs 12) ne) (there-Has meta fs ip 140 (ip.addrs 12) v refl ne)
]

give_word_lem :
    (meta : ℕ) (fs : Fs) (ip : Inode) (a i k : ℕ) (r : Option (ℕ × Fs))
    → k ≤ 140
    → Mapped meta fs ip
    → ((b : ℕ) (fs' : Fs) → r ≡ some (b, fs') → Grown meta fs ip k b (store_word a i b fs') ip)
    → HasSome meta fs ip k (give_word a i ip r)
unfolding give_word
give_word_lem meta fs ip a i k none le v g = tt
give_word_lem meta fs ip a i k (some (b, fs')) le v g =
    Grown-Has meta fs ip k b (store_word a i b fs') ip le v (g b fs' refl) refl

word_lem :
    (meta : ℕ) (fs : Fs) (ip : Inode) (a i : ℕ)
    → i < 128
    → ip.addrs 12 ≡ a
    → a ≢ 0
    → Mapped meta fs ip
    → HasSome meta fs ip (12 + i) (
        if load_word fs a i == 0
        then give_word a i ip (balloc fs)
        else some (load_word fs a i, ip, fs))
word_lem meta fs ip a i lt e nz v =
    subst
      (λ a. HasSome meta fs ip (12 + i) (
        if load_word fs a i == 0
        then give_word a i ip (balloc fs)
        else some (load_word fs a i, ip, fs)))
      e (at_own (subst (λ a. a ≢ 0) (sym e) nz))
  where
    at_own :
        ip.addrs 12 ≢ 0
        → HasSome meta fs ip (12 + i) (
            if load_word fs (ip.addrs 12) i == 0
            then give_word (ip.addrs 12) i ip (balloc fs)
            else some (load_word fs (ip.addrs 12) i, ip, fs))
    at_own nz = elim (ℕ_discrete (load_word fs (ip.addrs 12) i) 0) [
      | yes z ↦ rw ((==_iff (load_word fs (ip.addrs 12) i) 0).1 z) (
          give_word_lem meta fs ip (ip.addrs 12) i (12 + i) (balloc fs) (omega arith) v (λ b fs' h.
            word-Grown meta fs ip v b fs' ((balloc_lem meta fs v.reserved).0 b fs' h) i lt nz z))
      | no ne ↦ rw (nonzero (load_word fs (ip.addrs 12) i) ne) (
          there-Has meta fs ip (12 + i) (load_word fs (ip.addrs 12) i) v
            (lookup_at ip.addrs (load_word fs (ip.addrs 12)) i lt nz) ne)
    ]

chain-HasSome :
    (meta : ℕ) (fs : Fs) (ip : Inode) (j k a : ℕ) (ip1 : Inode) (fs1 : Fs) (r : Option Mapping)
    → Has meta fs ip j (a, ip1, fs1)
    → HasSome meta fs1 ip1 k r
    → HasSome meta fs ip k r
chain-HasSome meta fs ip j k a ip1 fs1 none h g = tt
chain-HasSome meta fs ip j k a ip1 fs1 (some r) h g = record {
  mapped = g.mapped;
  at_bn = g.at_bn;
  block = g.block;
  bytes = λ off lt. g.bytes off lt ∙ h.bytes off lt;
  length_kept = g.length_kept ∙ h.length_kept;
  kept = λ j le nz. g.kept j le (h.kept j le nz);
}

indirect_lem :
    (meta : ℕ) (fs : Fs) (ip : Inode) (i : ℕ) (o : Option Mapping)
    → i < 128
    → HasSome meta fs ip 140 o
    → HasSome meta fs ip (12 + i) (indirect i o)
unfolding indirect
indirect_lem meta fs ip i none lt h = tt
indirect_lem meta fs ip i (some (a, ip1, fs1)) lt h =
    chain-HasSome meta fs ip 140 (12 + i) a ip1 fs1 _ h
      (word_lem meta fs1 ip1 a i lt h.at_bn h.block h.mapped)

-- For a file whose blocks are its own: bmap of a block of the file, when it returns, gives the block that the map then has at this place, a used one outside
-- of the reserved blocks; every place of the map still has a block of its own, and no byte of the file
-- has changed: a block that bmap adds to the file is zeroed.
pub bmap_lem :
    (meta : ℕ) (fs : Fs) (ip : Inode) (bn : ℕ) (r : Mapping)
    → Mapped meta fs ip
    → bn < 140
    → bmap fs ip bn ≡ some r
    → Has meta fs ip bn r
unfolding bmap
bmap_lem meta fs ip bn r v lt e = subst (HasSome meta fs ip bn) e (all bn lt)
  where
    not_low : (bn : ℕ) → ¬ (bn < 12) → ltb bn 12 ≡ false
    not_low bn high = ground arith

    all : (bn : ℕ) → bn < 140 → HasSome meta fs ip bn (bmap fs ip bn)
    all bn lt = elim (dec_lt bn 12) [
      | yes low ↦ rw (lt→ltb bn 12 low) (slot-direct meta fs ip bn low v)
      | no high ↦
          rw (not_low bn high, lt→ltb (bn - 12) 128 (omega arith))
            (subst (λ k. HasSome meta fs ip k (indirect (bn - 12) (slot fs ip 12))) (omega arith)
              (indirect_lem meta fs ip (bn - 12) (slot fs ip 12) (omega arith)
                (slot-indirect meta fs ip v)))
    ]

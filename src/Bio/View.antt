-- ===== src/Bio/View.antt =====
-- The buffer cache against the contents of the blocks that its clients see.
use os_lab2_team.Prelude.{
  ℕ, ◌+◌, ◌-◌, ◌%◌, ◌^◌, ◌≤◌, ◌<◌, ◌≡◌, refl, sym, ap, ◌∙◌, ◌≢◌, inl, inr, Bool, true, false, List,
  [], ◌∷◌, arith, ℕ_discrete, ltb, ◌==◌, if◌then◌else◌, ==_iff, Bool-cases, length, times, without,
  times-without,
}
use mathlib.Core.Path.{subst}
use os_lab2_team.Bio.{SleepLock, Buf, Cache, set_buf, brelse_table}

-- `held` has each buffer as often as it is held, and v the contents of the blocks of disk 1: those of the
-- buffer of a block, and of the disk where no buffer waits to be written.
pub record Sound (held : List ℕ) (v : ℕ → ℕ → ℕ) (s : Cache) : Type 0 where
  pub listed : (i : ℕ) → times i s.order ≡ (if ltb i 30 then 1 else 0)
  pub counts : (i : ℕ) → (s.buf i).refcnt ≡ times i held
  pub few : length held < 2 ^ 32
  pub unique :
      (i j : ℕ)
      → i < 30
      → j < 30
      → (s.buf i).dev ≡ 1
      → (s.buf j).dev ≡ 1
      → (s.buf i).blockno ≡ (s.buf j).blockno
      → i ≡ j
  pub cached :
      (i : ℕ)
      → i < 30
      → (s.buf i).dev ≡ 1
      → (s.buf i).valid ≡ true
      → (s.buf i).bytes ≡ v (s.buf i).blockno
  pub settled : (i : ℕ) → i < 30 → (s.buf i).valid ≡ false → (s.buf i).dirty ≡ false
  pub on_disk :
      (k : ℕ)
      → ((i : ℕ) → i < 30 → (s.buf i).dev ≡ 1 → (s.buf i).blockno ≡ k → (s.buf i).dirty ≡ false)
      → s.disk k ≡ v k

-- Only the counts differ.
abbrev SameBuf : Buf → Buf → Type 0
SameBuf a b =
    (a.dev ≡ b.dev)
    × (a.blockno ≡ b.blockno)
    × (a.valid ≡ b.valid)
    × (a.dirty ≡ b.dirty)
    × (a.bytes ≡ b.bytes)

counts-Sound :
    (held held' : List ℕ) (v : ℕ → ℕ → ℕ) (s s' : Cache)
    → Sound held v s
    → ((i : ℕ) → SameBuf (s'.buf i) (s.buf i))
    → s'.disk ≡ s.disk
    → ((i : ℕ) → times i s'.order ≡ times i s.order)
    → ((i : ℕ) → (s'.buf i).refcnt ≡ times i held')
    → length held' < 2 ^ 32
    → Sound held' v s'
counts-Sound held held' v s s' h same d o c few = record {
  listed = λ i. o i ∙ h.listed i;
  counts = c;
  few = few;
  unique = λ i j li lj di dj e.
      h.unique i j li lj (sym (same i).0 ∙ di) (sym (same j).0 ∙ dj)
        (sym (same i).1 ∙ e ∙ (same j).1);
  cached = λ i li di e.
      (same i).4 ∙ h.cached i li (sym (same i).0 ∙ di) (sym (same i).2 ∙ e) ∙ ap v (sym (same i).1);
  settled = λ i li e. (same i).3 ∙ h.settled i li (sym (same i).2 ∙ e);
  on_disk = λ k clean.
      ap (λ f. f k) d
      ∙ h.on_disk k (λ i li di e. sym (same i).3 ∙ clean i li ((same i).0 ∙ di) ((same i).1 ∙ e));
}

times_le : (i : ℕ) (l : List ℕ) → times i l ≤ length l
times_le i [] = omega arith
times_le i (x ∷ l) = ground (arith, times_le i l)

pub in_range :
    (held : List ℕ) (v : ℕ → ℕ → ℕ) (s : Cache)
    → Sound held v s
    → (i : ℕ) → 0 < times i s.order
    → i < 30
in_range held v s h i lt = ground (arith, h.listed i)

pub listed_below :
    (held : List ℕ) (v : ℕ → ℕ → ℕ) (s : Cache)
    → Sound held v s
    → (i : ℕ) → i < 30
    → 0 < times i s.order
listed_below held v s h i lt = ground (arith, h.listed i)

recounted :
    (s : Cache) (b n i : ℕ)
    → SameBuf ((set_buf b (record (s.buf b) { refcnt = n }) s).buf i) (s.buf i)
recounted s b n i = elim (ℕ_discrete i b) [
  | yes e ↦ rw ((==_iff i b).1 e, e) (refl, refl, refl, refl, refl)
  | no ne ↦ rw (differ ne) (refl, refl, refl, refl, refl)
]
  where
    differ : i ≢ b → (i == b) ≡ false
    differ ne = ground arith

recount :
    (s : Cache) (b n i : ℕ)
    → ((set_buf b (record (s.buf b) { refcnt = n }) s).buf i).refcnt
      ≡ (if i == b then n else (s.buf i).refcnt)
recount s b n i = elim (Bool-cases (i == b)) [ inl e ↦ rw e refl | inr e ↦ rw e refl ]

pub hit-Sound :
    (held : List ℕ) (v : ℕ → ℕ → ℕ) (s : Cache) (b : ℕ)
    → Sound held v s
    → length held + 1 < 2 ^ 32
    → Sound
        (b ∷ held)
        v
        (set_buf b (record (s.buf b) { refcnt = ((s.buf b).refcnt + 1) % 2 ^ 32 }) s)
hit-Sound held v s b h few =
    let s' = set_buf b (record (s.buf b) { refcnt = ((s.buf b).refcnt + 1) % 2 ^ 32 }) s in
    counts-Sound held (b ∷ held) v s s' h (recounted s b _) refl (λ i. refl)
      (λ i.
        recount s b (((s.buf b).refcnt + 1) % 2 ^ 32) i
        ∙ sum i (s.buf b).refcnt (s.buf i).refcnt (h.counts b) (h.counts i) (times_le b held))
      (omega arith)
  where
    sum :
        (i m n : ℕ)
        → m ≡ times b held
        → n ≡ times i held
        → times b held ≤ length held
        → (if i == b then (m + 1) % 2 ^ 32 else n) ≡ times i (b ∷ held)
    sum i m n e f le = elim (ℕ_discrete i b) [ yes g ↦ rw g (ground arith) | no ne ↦ ground arith ]

length-without : (b : ℕ) (l : List ℕ) → length (without b l) ≤ length l
length-without b [] = omega arith
length-without b (x ∷ l) = ground (arith, length-without b l)

-- brelse, under the lock of the cache, of a buffer that is held: the clients see every block as before.
pub brelse_table-Sound :
    (held : List ℕ) (v : ℕ → ℕ → ℕ) (s : Cache) (b : ℕ)
    → Sound held v s
    → b < 30
    → 0 < times b held
    → Sound (without b held) v (brelse_table b s)
unfolding brelse_table
brelse_table-Sound held v s b h low lt = after ((t.buf b).refcnt == 0)
  where
    t : Cache
    t = set_buf b (record (s.buf b) { refcnt = ((s.buf b).refcnt + 2 ^ 32 - 1) % 2 ^ 32 }) s

    less :
        (i m n : ℕ)
        → m ≡ times b held
        → n ≡ times i held
        → times b held ≤ length held
        → length held < 2 ^ 32
        → times i held ≡ (if b == i then 1 else 0) + times i (without b held)
        → (if i == b then (m + 2 ^ 32 - 1) % 2 ^ 32 else n) ≡ times i (without b held)
    less i m n e f le few w = elim (ℕ_discrete i b) [
      | yes g ↦ rw g (
          drop m
            (subst (λ i. times i held ≡ (if b == i then 1 else 0) + times i (without b held)) g w) e
            few le)
      | no ne ↦ ground arith
    ]
      where
        drop :
            (m : ℕ)
            → times b held ≡ (if b == b then 1 else 0) + times b (without b held)
            → m ≡ times b held
            → length held < 2 ^ 32
            → times b held ≤ length held
            → (if b == b then (m + 2 ^ 32 - 1) % 2 ^ 32 else n) ≡ times b (without b held)
        drop m w e few le = ground arith

    counted : (i : ℕ) → (t.buf i).refcnt ≡ times i (without b held)
    counted i =
        recount s b (((s.buf b).refcnt + 2 ^ 32 - 1) % 2 ^ 32) i
        ∙ less i (s.buf b).refcnt (s.buf i).refcnt (h.counts b) (h.counts i) (times_le b held) h.few
            (times-without b i held lt)

    moved : (i : ℕ) → times i (b ∷ without b s.order) ≡ times i s.order
    moved i = sym (
        times-without b i s.order (listed_below held v s h b low)
        ∙ front (b == i) (times i (without b s.order)))
      where
        front : (c : Bool) (n : ℕ) → (if c then 1 else 0) + n ≡ (if c then 1 + n else n)
        front true n = refl
        front false n = omega arith

    after :
        (c : Bool)
        → Sound (without b held) v (if c then record t { order = b ∷ without b s.order } else t)
    after true =
        counts-Sound held (without b held) v s (record t { order = b ∷ without b s.order }) h
          (recounted s b _) refl moved counted (omega (arith, length-without b held, h.few))
    after false =
        counts-Sound held (without b held) v s t h (recounted s b _) refl (λ i. refl) counted
          (omega (arith, length-without b held, h.few))

-- The lock of a buffer is no matter of the contents.
pub lock-Sound :
    (held : List ℕ) (v : ℕ → ℕ → ℕ) (s : Cache) (b : ℕ) (l : SleepLock)
    → Sound held v s
    → Sound held v (set_buf b (record (s.buf b) { lock = l }) s)
lock-Sound held v s b l h =
    counts-Sound held held v s (set_buf b (record (s.buf b) { lock = l }) s) h (λ i. (same i).0)
      refl (λ i. refl) (λ i. (same i).1 ∙ h.counts i) h.few
  where
    same :
        (i : ℕ)
        → SameBuf ((set_buf b (record (s.buf b) { lock = l }) s).buf i) (s.buf i)
          × (((set_buf b (record (s.buf b) { lock = l }) s).buf i).refcnt ≡ (s.buf i).refcnt)
    same i = elim (ℕ_discrete i b) [
      | yes e ↦ rw ((==_iff i b).1 e, e) ((refl, refl, refl, refl, refl), refl)
      | no ne ↦ rw (differ ne) ((refl, refl, refl, refl, refl), refl)
    ]
      where
        differ : i ≢ b → (i == b) ≡ false
        differ ne = ground arith

-- ===== src/Bio/Ops.antt =====
-- bget of bio.c, and a change of a buffer.
use os_lab2_team.Prelude.{
  ℕ, ◌+◌, ◌^◌, ◌<◌, ◌≡◌, refl, sym, ap, ◌∙◌, ◌≢◌, true, false, Option, none, some, List, ◌∷◌, arith,
  ℕ_discrete, length, times,
}
use mathlib.Core.Path.{subst}
use os_lab2_team.Bio.{Buf, Cache, set_buf, find_block, find_unused, recycle, cached_or, bget_table}
use os_lab2_team.Bio.Search.{find_block-some, find_unused-some}
use os_lab2_team.Bio.View.{Sound, hit-Sound, in_range}
use os_lab2_team.Bio.Recycle.{recycle-Sound, set_same, set_other}

-- What a holder of buffer b of block k knows.
pub record Holds (held : List ℕ) (v : ℕ → ℕ → ℕ) (k b : ℕ) (s : Cache) : Type 0 where
  pub sound : Sound held v s
  pub low : b < 30
  pub dev : (s.buf b).dev ≡ 1
  pub block : (s.buf b).blockno ≡ k

abbrev pub HoldsSome : List ℕ → (ℕ → ℕ → ℕ) → ℕ → Option (ℕ × Cache) → Type 0
HoldsSome held v k none = Unit {0}
HoldsSome held v k (some r) = Holds (r.0 ∷ held) v k r.0 r.1

pub bget_table_lem :
    (held : List ℕ) (v : ℕ → ℕ → ℕ) (s : Cache) (k : ℕ)
    → Sound held v s
    → length held + 1 < 2 ^ 32
    → HoldsSome held v k (bget_table 1 k s)
unfolding bget_table cached_or recycle
bget_table_lem held v s k h few = go (find_block s.order s.buf 1 k) refl
  where
    fresh :
        (o : Option ℕ)
        → find_unused s.order s.buf ≡ o
        → find_block s.order s.buf 1 k ≡ none
        → HoldsSome held v k (recycle 1 k s o)
    fresh none f e = tt
    fresh (some b) f e =
        let u = find_unused-some s.order s.buf b f in
        record {
          sound = recycle-Sound held v s b k h few e u;
          low = in_range held v s h b u.0;
          dev = ap (λ x. x.dev) (set_same s b b _ refl);
          block = ap (λ x. x.blockno) (set_same s b b _ refl);
        }

    go : (o : Option ℕ) → find_block s.order s.buf 1 k ≡ o → HoldsSome held v k (cached_or 1 k s o)
    go none e = fresh (find_unused s.order s.buf) refl e
    go (some b) e =
        let f = find_block-some s.order s.buf 1 k b e in
        record {
          sound = hit-Sound held v s b h few;
          low = in_range held v s h b f.0;
          dev = ap (λ x. x.dev) (set_same s b b _ refl) ∙ f.1;
          block = ap (λ x. x.blockno) (set_same s b b _ refl) ∙ f.2;
        }

-- Buffer b gets new contents, which may reach the disk; the other blocks stay.
pub update-Sound :
    (held : List ℕ) (v v' : ℕ → ℕ → ℕ) (s : Cache) (b : ℕ) (w : Buf) (disk' : ℕ → ℕ → ℕ)
    → Sound held v s
    → b < 30
    → (s.buf b).dev ≡ 1
    → (w.dev ≡ (s.buf b).dev)
      × (w.blockno ≡ (s.buf b).blockno)
      × (w.refcnt ≡ (s.buf b).refcnt)
      × (w.valid ≡ true)
    → w.bytes ≡ v' (s.buf b).blockno
    → (w.dirty ≡ false → disk' (s.buf b).blockno ≡ v' (s.buf b).blockno)
    → ((k : ℕ) → k ≢ (s.buf b).blockno → (v' k ≡ v k) × (disk' k ≡ s.disk k))
    → Sound held v' (record (set_buf b w s) { disk = disk' })
update-Sound held v v' s b w disk' h low d same bytes clean_b others = record {
  listed = h.listed;
  counts = λ i. elim (ℕ_discrete i b) [
    | yes e ↦
        ap (λ x. x.refcnt) (set_same s b i w e)
        ∙ same.2
        ∙ subst (λ i. (s.buf i).refcnt ≡ times i held → (s.buf b).refcnt ≡ times i held) (sym e)
            (λ g. g) (h.counts i)
    | no ne ↦ ap (λ x. x.refcnt) (set_other s b i w ne) ∙ h.counts i
  ];
  few = h.few;
  unique = λ i j li lj di dj e.
      h.unique i j li lj (sym (dev_kept i) ∙ di) (sym (dev_kept j) ∙ dj)
        (sym (block_kept i) ∙ e ∙ block_kept j);
  cached = λ i li. elim (ℕ_discrete i b) [
    | yes e ↦ λ di ok.
        ap (λ x. x.bytes) (set_same s b i w e)
        ∙ bytes
        ∙ ap v' (sym (ap (λ x. x.blockno) (set_same s b i w e) ∙ same.1))
    | no ne ↦
        subst (λ x. x.dev ≡ 1 → x.valid ≡ true → x.bytes ≡ v' x.blockno)
          (sym (set_other s b i w ne))
          (λ di ok.
            h.cached i li di ok
            ∙ sym (others (s.buf i).blockno (λ e. ne (h.unique i b li low di d e))).0)
  ];
  settled = λ i li. elim (ℕ_discrete i b) [
    | yes e ↦ λ bad. absurd (clash (sym bad ∙ ap (λ x. x.valid) (set_same s b i w e) ∙ same.3))
    | no ne ↦
        subst (λ x. x.valid ≡ false → x.dirty ≡ false) (sym (set_other s b i w ne)) (h.settled i li)
  ];
  on_disk = λ k clean. elim (ℕ_discrete k (s.buf b).blockno) [
    | yes e ↦
        subst (λ k. disk' k ≡ v' k) (sym e)
          (clean_b (
            sym (ap (λ x. x.dirty) (set_same s b b w refl))
            ∙ clean b low (ap (λ x. x.dev) (set_same s b b w refl) ∙ same.0 ∙ d)
                (ap (λ x. x.blockno) (set_same s b b w refl) ∙ same.1 ∙ sym e)))
    | no ne ↦
        (others k ne).1
        ∙ h.on_disk k (λ i li. elim (ℕ_discrete i b) [
          | yes e ↦ λ di bi. absurd (ne (sym bi ∙ ap (λ x. (s.buf x).blockno) e))
          | no nb ↦
              subst (λ x. x.dev ≡ 1 → x.blockno ≡ k → x.dirty ≡ false) (set_other s b i w nb)
                (clean i li)
        ])
        ∙ sym (others k ne).0
  ];
}
  where
    clash : false ≡ true → ⊥
    clash e = ground arith

    dev_kept : (i : ℕ) → ((set_buf b w s).buf i).dev ≡ (s.buf i).dev
    dev_kept i = elim (ℕ_discrete i b) [
      | yes e ↦ ap (λ x. x.dev) (set_same s b i w e) ∙ same.0 ∙ ap (λ x. (s.buf x).dev) (sym e)
      | no ne ↦ ap (λ x. x.dev) (set_other s b i w ne)
    ]

    block_kept : (i : ℕ) → ((set_buf b w s).buf i).blockno ≡ (s.buf i).blockno
    block_kept i = elim (ℕ_discrete i b) [
      | yes e ↦
          ap (λ x. x.blockno) (set_same s b i w e) ∙ same.1 ∙ ap (λ x. (s.buf x).blockno) (sym e)
      | no ne ↦ ap (λ x. x.blockno) (set_other s b i w ne)
    ]

-- The disk has what a buffer that is not valid is to get.
clean_disk :
    (held : List ℕ) (v : ℕ → ℕ → ℕ) (k b : ℕ) (s : Cache)
    → Holds held v k b s
    → (s.buf b).valid ≡ false
    → s.disk (s.buf b).blockno ≡ v (s.buf b).blockno
clean_disk held v k b s g bad = g.sound.on_disk (s.buf b).blockno (λ i li di e.
    subst (λ i. (s.buf i).dirty ≡ false) (sym (g.sound.unique i b li g.low di g.dev e))
      (g.sound.settled b g.low bad))

pub fill-Holds :
    (held : List ℕ) (v : ℕ → ℕ → ℕ) (k b : ℕ) (s : Cache)
    → Holds held v k b s
    → (s.buf b).valid ≡ false
    → (t : Cache) × (set_buf b
          (record (s.buf b) { bytes = s.disk (s.buf b).blockno; valid = true })
          s
        ≡ t)
      × Holds held v k b t
      × ((t.buf b).valid ≡ true)
      × ((t.buf b).bytes ≡ v k)
fill-Holds held v k b s g bad = (
  set_buf b w s,
  refl,
  record {
    sound =
        update-Sound held v v s b w s.disk g.sound g.low g.dev (refl, refl, refl, refl) right
          (λ e. right) (λ n ne. (refl, refl));
    low = g.low;
    dev = ap (λ x. x.dev) (set_same s b b w refl) ∙ g.dev;
    block = ap (λ x. x.blockno) (set_same s b b w refl) ∙ g.block;
  },
  ap (λ x. x.valid) (set_same s b b w refl),
  ap (λ x. x.bytes) (set_same s b b w refl) ∙ right ∙ ap v g.block,
)
  where
    w : Buf
    w = record (s.buf b) { bytes = s.disk (s.buf b).blockno; valid = true }

    right : s.disk (s.buf b).blockno ≡ v (s.buf b).blockno
    right = clean_disk held v k b s g bad

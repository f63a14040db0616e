-- ===== src/File/Refs.antt =====
-- The reference counts of the file table are the references that are held.
use os_lab2_team.Prelude.{
  ℕ, zero, suc, ◌+◌, ◌-◌, ◌≤◌, ◌<◌, ◌≡◌, refl, sym, ◌∙◌, ◌≢◌, Option, none, some, List, ◌∷◌, arith,
  ℕ_discrete, ◌==◌, if◌then◌else◌, times, without, times-without,
}
use os_lab2_team.File.{
  nfile, Ftable, free_slot, file_at, filealloc, filedup, Last, nothing, last_of, fileclose,
}

-- The table, and a number for each reference that a process or the kernel holds.
pub record Open : Type 0 where
  pub table : Ftable
  pub held : List ℕ

-- Who holds a reference may copy it and drop it.
pub data Step (o : Open) : Open → Type 0 where
  alloc :
      (f : ℕ) (t : Ftable)
      → filealloc o.table ≡ (some f, t)
      → Step o (record { table = t; held = f ∷ o.held })
  dup :
      (f : ℕ) (t : Ftable)
      → 0 < times f o.held
      → filedup o.table f ≡ some t
      → Step o (record { table = t; held = f ∷ o.held })
  close :
      (f : ℕ) (l : Last) (t : Ftable)
      → 0 < times f o.held
      → fileclose o.table f ≡ some (l, t)
      → Step o (record { table = t; held = without f o.held })

pub data Reach (o : Open) : Open → Type 0 where
  here : Reach o o
  later : {o1 o2 : Open} → Reach o o1 → Step o1 o2 → Reach o o2

abbrev pub Counted : Open → Type 0
Counted o = (f : ℕ) → (o.table f).ref ≡ times f o.held

free_slot-some :
    (r f : ℕ) (t : Ftable) (g : ℕ)
    → free_slot r f t ≡ some g
    → ((t g).ref ≡ 0) × (f ≤ g) × (g < f + r)
unfolding free_slot
free_slot-some zero f t g e = ground arith
free_slot-some (suc r) f t g e = elim (ℕ_discrete (t f).ref 0) [
  | yes z ↦ (ground arith, ground arith, ground arith)
  | no nz ↦
      let h = free_slot-some r (f + 1) t g (ground arith) in
      (h.0, omega (arith, h), omega (arith, h))
]

filealloc-some :
    (t u : Ftable) (f : ℕ)
    → filealloc t ≡ (some f, u)
    → ((t f).ref ≡ 0) × ((g : ℕ) → (u g).ref ≡ (if g == f then 1 else (t g).ref))
unfolding filealloc
filealloc-some t u f e = go (free_slot nfile 0 t) (λ g h. (free_slot-some nfile 0 t g h).0) e
  where
    go :
        (o : Option ℕ)
        → ((g : ℕ) → o ≡ some g → (t g).ref ≡ 0)
        → file_at t o ≡ (some f, u)
        → ((t f).ref ≡ 0) × ((g : ℕ) → (u g).ref ≡ (if g == f then 1 else (t g).ref))
    go none h e = unfold file_at in ground arith
    go (some g) h e = unfold file_at in (ground (arith, h g refl), λ i. ground arith)

filedup-some :
    (t u : Ftable) (f : ℕ)
    → filedup t f ≡ some u
    → (g : ℕ) → (u g).ref ≡ (if g == f then (t g).ref + 1 else (t g).ref)
unfolding filedup
filedup-some t u f e g = ground arith

fileclose-some :
    (t u : Ftable) (f : ℕ) (l : Last)
    → fileclose t f ≡ some (l, u)
    → (0 < (t f).ref)
      × ((g : ℕ) → (u g).ref ≡ (if g == f then (t g).ref - 1 else (t g).ref))
      × (1 < (t f).ref → l ≡ nothing)
      × ((t f).ref ≡ 1 → l ≡ last_of (t f))
unfolding fileclose
fileclose-some t u f l e = (ground arith, λ g. ground arith, λ h. ground arith, λ h. ground arith)

-- From a table whose counts are the references held, whatever files are allocated, duplicated and
-- closed in whatever order by those that hold them, the counts go on to be the references held.
pub Counted-Reach : (o p : Open) → Counted o → Reach o p → Counted p
Counted-Reach o p c here = c
Counted-Reach o p c (later {o1 = m} r (alloc f t e)) =
    let h = filealloc-some m.table t f e in
    let k = Counted-Reach o m c r in λ g. ground (arith, h.0, h.1 g, k g, k f)
Counted-Reach o p c (later {o1 = m} r (dup f t lt e)) =
    let h = filedup-some m.table t f e in
    let k = Counted-Reach o m c r in λ g. ground (arith, h g, k g)
Counted-Reach o p c (later {o1 = m} r (close f l t lt e)) =
    let h = fileclose-some m.table t f l e in
    let k = Counted-Reach o m c r in λ g. ground (arith, h.1 g, k g, times-without f g m.held lt)

fileclose_some : (t : Ftable) (f : ℕ) → 0 < (t f).ref → fileclose t f ≢ none
unfolding fileclose
fileclose_some t f lt e = ground arith

filedup_some : (t : Ftable) (f : ℕ) → 0 < (t f).ref → filedup t f ≢ none
unfolding filedup
filedup_some t f lt e = ground arith

-- From a table whose counts are the references held, whatever files are allocated, duplicated and
-- closed in whatever order by those that hold them: filealloc gives a file to which no reference is
-- held; a holder's filedup and fileclose do not panic; and fileclose closes the pipe or puts the
-- inode exactly when it drops the last reference.
holders_lem :
    (o p : Open)
    → Counted o
    → Reach o p
    → ((f : ℕ) (t : Ftable) → filealloc p.table ≡ (some f, t) → times f p.held ≡ 0)
      × ((f : ℕ) → 0 < times f p.held → (filedup p.table f ≢ none) × (fileclose p.table f ≢ none))
      × ((f : ℕ) (l : Last) (t : Ftable)
          → fileclose p.table f ≡ some (l, t)
          → (1 < times f p.held → l ≡ nothing) × (times f p.held ≡ 1 → l ≡ last_of (p.table f)))
holders_lem o p c r =
    let k = Counted-Reach o p c r in
    (
      λ f t e. sym (k f) ∙ (filealloc-some p.table t f e).0,
      λ f lt. (
        filedup_some p.table f (omega (arith, k f)),
        fileclose_some p.table f (omega (arith, k f)),
      ),
      λ f l t e.
          let h = fileclose-some p.table t f l e in
          (λ lt. h.2 (omega (arith, k f)), λ one. h.3 (k f ∙ one)),
    )

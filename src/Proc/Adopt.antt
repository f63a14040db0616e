-- ===== src/Proc/Adopt.antt =====
-- What wakeup1 and the loop of exit over its children (proc.c) do to each slot of the table.
use os_lab2_team.Prelude.{
  ℕ, zero, suc, ◌+◌, ◌<◌, ◌≡◌, refl, ap, ◌∙◌, ◌≢◌, ◌⊎◌, inl, inr, true, false, ◌&&◌, Option, none,
  some, arith, ℕ_discrete, ltb, ◌==◌, if◌then◌else◌, ==_iff, Bool-cases,
}
use mathlib.Core.Path.{subst}
use os_lab2_team.Proc.Table.{
  ProcState, sleeping, runnable, zombie, same_state, Proc, Table, Chan, process, update, nproc,
  is_slot, wake, wakeup1, for_procs, same_chan,
}
use os_lab2_team.Proc.Kernel.{chan_of}
use os_lab2_team.Proc.Life.{abandon, reparent}
use os_lab2_team.Proc.Scan.{wakeup1_lem}

-- What a wakeup, or exit's loop, may do to a process: a sleeper may have become runnable, and the parent
-- may be another; nothing else of the process changes.
pub record Kept (p q : Proc) : Type 0 where
  pub pid : q.pid ≡ p.pid
  pub chan : q.chan ≡ p.chan
  pub killed : q.killed ≡ p.killed
  pub state : (q.state ≡ p.state) ⊎ ((p.state ≡ sleeping) × (q.state ≡ runnable))
  pub rest : q ≡ record p { parent = q.parent; state = q.state }

Kept-refl : (p : Proc) → Kept p p
Kept-refl p = record { pid = refl; chan = refl; killed = refl; state = inl refl; rest = refl }

pub Kept-trans : (p q r : Proc) → Kept p q → Kept q r → Kept p r
Kept-trans p q r a b = record {
  pid = b.pid ∙ a.pid;
  chan = b.chan ∙ a.chan;
  killed = b.killed ∙ a.killed;
  state = states p.state q.state r.state a.state b.state;
  rest = b.rest ∙ ap {A = Proc} (λ x. record x { parent = r.parent; state = r.state }) a.rest;
}
  where
    states :
        (x y z : ProcState)
        → (y ≡ x) ⊎ ((x ≡ sleeping) × (y ≡ runnable))
        → (z ≡ y) ⊎ ((y ≡ sleeping) × (z ≡ runnable))
        → (z ≡ x) ⊎ ((x ≡ sleeping) × (z ≡ runnable))
    states x y z a b = ground arith

Kept-wake : (chan : Chan) (p : Proc) → Kept p (wake chan p)
Kept-wake chan p = elim (Bool-cases (same_state p.state sleeping && same_chan p.chan chan)) [
  | inl e ↦ rw e (record {
    pid = refl;
    chan = refl;
    killed = refl;
    state = inr (ground arith, refl);
    rest = refl;
  })
  | inr e ↦ rw e (Kept-refl p)
]

pub Kept-wakeup1 : (chan : Chan) (t : Table) (j : ℕ) → j < nproc → Kept (t j) (wakeup1 chan t j)
Kept-wakeup1 chan t j lt = rw (wakeup1_lem chan t j lt) (Kept-wake chan (t j))

pub parent-wakeup1 :
    (chan : Chan) (t : Table) (j : ℕ) → j < nproc → (wakeup1 chan t j).parent ≡ (t j).parent
parent-wakeup1 chan t j lt = rw (wakeup1_lem chan t j lt) (ground arith)

-- A rule for the loops over the table.
for_procs_inv :
    (body : Table → ℕ → Table) (P : ℕ → Table → Type 0)
    → ((u : Table) (i : ℕ) → i < nproc → P i u → P (i + 1) (body u i))
    → (n i : ℕ) (t : Table) → i + n ≡ nproc
    → P i t
    → P nproc (for_procs body n i t)
unfolding for_procs
for_procs_inv body P keep zero i t e p = subst (λ k. P k t) (omega arith) p
for_procs_inv body P keep (suc n) i t e p =
    for_procs_inv body P keep n (i + 1) (body t i) (omega arith) (keep t i (omega arith) p)

-- The process w does not wait for its children.
abbrev pub IsAwake : Option ℕ → Table → Type 0
IsAwake none u = Unit
IsAwake (some w) u = ¬ (((u w).state ≡ sleeping) × ((u w).chan ≡ process w))

pub IsAwake-Kept :
    (w : ℕ) (t u : Table) → Kept (t w) (u w) → IsAwake (some w) t → IsAwake (some w) u
IsAwake-Kept w t u k a s = a (ground arith)

pub IsAwake-wakeup1 : (w : ℕ) (t : Table) → w < nproc → IsAwake (some w) (wakeup1 (process w) t)
IsAwake-wakeup1 w t lt s = ground (arith, wakeup1_lem (process w) t w lt, ==_iff w w)

pub still_wake :
    (chan : Chan) (p : Proc) → same_chan p.chan chan ≡ false → (wake chan p).state ≡ p.state
still_wake chan p apart = ground arith

module _ (cur : ℕ) (ip : Option ℕ) where
  Kept-adopted : (u : Table) (i j : ℕ) → Kept (u j) (update u i (record (u i) { parent = ip }) j)
  Kept-adopted u i j = elim (ℕ_discrete i j) [
    | yes e ↦
        rw ((==_iff i j).1 e, e)
          (record { pid = refl; chan = refl; killed = refl; state = inl refl; rest = refl })
    | no ne ↦ rw (differ ne) (Kept-refl (u j))
  ]
    where
      differ : i ≢ j → (i == j) ≡ false
      differ ne = ground arith

  abandon-Kept : (u : Table) (i j : ℕ) → j < nproc → Kept (u j) (abandon cur ip u i j)
  unfolding abandon
  abandon-Kept u i j lt =
      let u' = update u i (record (u i) { parent = ip }) in
      let woken : Kept (u' j) (wakeup1 (chan_of ip) u' j) = Kept-wakeup1 (chan_of ip) u' j lt in
      let adopted : Kept (u j) (u' j) = Kept-adopted u i j in
      let both = Kept-trans (u j) (u' j) (wakeup1 (chan_of ip) u' j) adopted woken in
      elim (Bool-cases (is_slot (u i).parent cur)) [
        | inl mine ↦ elim (Bool-cases (same_state (u i).state zombie)) [
          | inl dead ↦ rw (mine, dead) both
          | inr alive ↦ rw (mine, alive) adopted
        ]
        | inr other ↦ rw other (Kept-refl (u j))
      ]

  abandon-parent :
      (u : Table) (i j : ℕ)
      → j < nproc
      → (abandon cur ip u i j).parent
        ≡ (if (i == j) && is_slot (u j).parent cur then ip else (u j).parent)
  unfolding abandon
  abandon-parent u i j lt =
      let u' = update u i (record (u i) { parent = ip }) in
      let kept : (wakeup1 (chan_of ip) u' j).parent ≡ (u' j).parent =
        parent-wakeup1 (chan_of ip) u' j lt in
      ground arith

  abandon-IsAwake :
      (u : Table) (i : ℕ)
      → (w : ℕ) → ip ≡ some w
      → w < nproc
      → is_slot (u i).parent cur ≡ true
      → (u i).state ≡ zombie
      → IsAwake (some w) (abandon cur ip u i)
  unfolding abandon
  abandon-IsAwake u i w e lt mine dead =
      let u' = update u i (record (u i) { parent = ip }) in
      let awake : IsAwake (some w) (wakeup1 (process w) u') = IsAwake-wakeup1 w u' lt in
      rw (mine, dead, e) (ground arith)

  abandon-still :
      (u : Table) (i j : ℕ)
      → j < nproc
      → same_chan (u j).chan (chan_of ip) ≡ false
      → (abandon cur ip u i j).state ≡ (u j).state
  unfolding abandon
  abandon-still u i j lt apart =
      let u' = update u i (record (u i) { parent = ip }) in
      let at : wakeup1 (chan_of ip) u' j ≡ wake (chan_of ip) (u' j) =
        wakeup1_lem (chan_of ip) u' j lt in
      elim (Bool-cases (is_slot (u i).parent cur)) [
        | inl mine ↦ elim (Bool-cases (same_state (u i).state zombie)) [
          | inl dead ↦
              rw (mine, dead, at) (still_wake (chan_of ip) (u' j) (ground arith) ∙ ground arith)
          | inr alive ↦ rw (mine, alive) (ground arith)
        ]
        | inr other ↦ rw other refl
      ]

  -- What exit's loop has done to slot j before it visits slot i.
  pub record Adopted (t : Table) (i : ℕ) (u : Table) (j : ℕ) : Type 0 where
    pub kept : Kept (t j) (u j)
    pub parent : (u j).parent ≡ (if ltb j i && is_slot (t j).parent cur then ip else (t j).parent)
    pub still : same_chan (t j).chan (chan_of ip) ≡ false → (u j).state ≡ (t j).state
    pub awake :
        (w : ℕ)
        → ip ≡ some w
        → w < nproc
        → j < i
        → is_slot (t j).parent cur ≡ true
        → (t j).state ≡ zombie
        → IsAwake (some w) u

  Adopted-abandon :
      (t u : Table) (i : ℕ)
      → i < nproc
      → ((j : ℕ) → j < nproc → Adopted t i u j)
      → (j : ℕ) → j < nproc
      → Adopted t (i + 1) (abandon cur ip u i) j
  Adopted-abandon t u i it before j lt = record {
    kept = Kept-trans (t j) (u j) _ (before j lt).kept (abandon-Kept u i j lt);
    parent = ground (arith, abandon-parent u i j lt, (before j lt).parent, ==_iff i j);
    still = λ apart.
        let kept = (before j lt).kept in
        abandon-still u i j lt (rw (kept.chan) apart) ∙ (before j lt).still apart;
    awake = λ w e wlt ji mine dead. elim (ℕ_discrete j i) [
      | yes same ↦
          let at = (before j lt).parent in
          let kept = (before j lt).kept in abandon-IsAwake u i w e wlt (ground arith) (ground arith)
      | no other ↦
          IsAwake-Kept w u (abandon cur ip u i) (abandon-Kept u i w wlt)
            ((before j lt).awake w e wlt (omega arith) mine dead)
    ];
  }

  pub Adopted-loop : (t : Table) (j : ℕ) → j < nproc → Adopted t nproc (reparent cur ip t) j
  unfolding reparent
  Adopted-loop t =
      for_procs_inv (abandon cur ip) (λ i u. (j : ℕ) → j < nproc → Adopted t i u j)
        (λ u i it before. Adopted-abandon t u i it before) nproc 0 t refl
        (λ j lt. record {
          kept = Kept-refl (t j);
          parent = ground arith;
          still = λ apart. refl;
          awake = λ w e wlt ji mine dead. absurd (omega arith);
        })

-- ===== src/Proc/Scan.antt =====
-- What the loops over the process table find and change.
use os_lab2_team.Prelude.{
  ℕ, zero, suc, ◌+◌, ◌≤◌, ◌<◌, ◌≡◌, refl, ◌∙◌, ◌≢◌, ◌⊎◌, inl, inr, Bool, true, false, ◌&&◌, ◌||◌,
  none, some, arith, ℕ_discrete, leb, ltb, if◌then◌else◌, Bool-cases,
}
use os_lab2_team.Proc.Table.{
  zombie, same_state, Proc, Table, Chan, update, nproc, for_procs, find_from, find, exited, absent,
  scan_from, scan, wake, wakeup1,
}

find_from-some :
    (test : Proc → Bool) (t : Table) (n i : ℕ) {r : ℕ}
    → find_from test t n i ≡ some r
    → (i ≤ r) × (r < i + n) × (test (t r) ≡ true)
unfolding find_from
find_from-some test t zero i h = cc
find_from-some test t (suc n) i {r} h = ground (arith, find_from-some test t n (i + 1) {r = r})

find_from_before :
    (test : Proc → Bool) (t : Table) (n i j : ℕ) {r : ℕ}
    → find_from test t n i ≡ some r
    → i ≤ j
    → j < r
    → test (t j) ≡ false
unfolding find_from
find_from_before test t zero i j h le lt = cc
find_from_before test t (suc n) i j {r} h le lt = elim (Bool-cases (test (t i))) [
  | inl e ↦ ground arith
  | inr e ↦ elim (ℕ_discrete i j) [
    | yes p ↦ ground arith
    | no p ↦ find_from_before test t n (i + 1) j (ground arith) (omega arith) lt
  ]
]

find_from-none :
    (test : Proc → Bool) (t : Table) (n i j : ℕ)
    → find_from test t n i ≡ none
    → i ≤ j
    → j < i + n
    → test (t j) ≡ false
unfolding find_from
find_from-none test t zero i j h le lt = absurd (omega arith)
find_from-none test t (suc n) i j h le lt = elim (ℕ_discrete i j) [
  | yes p ↦ ground arith
  | no p ↦ find_from-none test t n (i + 1) j (ground arith) (omega arith) (omega arith)
]

find_from-congr :
    (test : Proc → Bool) (t u : Table) (n i : ℕ)
    → ((j : ℕ) → test (t j) ≡ test (u j))
    → find_from test t n i ≡ find_from test u n i
unfolding find_from
find_from-congr test t u zero i same = refl
find_from-congr test t u (suc n) i same =
    ground (arith, same i, find_from-congr test t u n (i + 1) same)

pub find-congr :
    (test : Proc → Bool) (t u : Table)
    → ((j : ℕ) → test (t j) ≡ test (u j))
    → find test t ≡ find test u
unfolding find
find-congr test t u same = find_from-congr test t u nproc 0 same

-- `find` returns the first slot that passes the test.
pub find-some :
    (test : Proc → Bool) (t : Table) {r : ℕ}
    → find test t ≡ some r
    → (r < nproc) × (test (t r) ≡ true) × ((j : ℕ) → j < r → test (t j) ≡ false)
unfolding find
find-some test t h =
    let e = find_from-some test t nproc 0 h in
    (omega (arith, e.1), e.2, λ j lt. find_from_before test t nproc 0 j h (omega arith) lt)

pub find-none :
    (test : Proc → Bool) (t : Table) → find test t ≡ none → (j : ℕ) → j < nproc → test (t j) ≡ false
unfolding find
find-none test t h j lt = find_from-none test t nproc 0 j h (omega arith) (omega arith)

scan_from_exited :
    (mine : Proc → Bool) (t : Table) (n i : ℕ) (seen : Bool) {r : ℕ}
    → scan_from mine t n i seen ≡ exited r
    → (r < i + n) × (mine (t r) ≡ true) × ((t r).state ≡ zombie)
unfolding scan_from
scan_from_exited mine t zero i seen h = cc
scan_from_exited mine t (suc n) i seen {r} h =
    ground (arith, scan_from_exited mine t n (i + 1) (seen || mine (t i)) {r = r})

scan_from_seen :
    (mine : Proc → Bool) (t : Table) (n i : ℕ) (b : Bool)
    → scan_from mine t n i true ≡ absent b
    → b ≡ true
unfolding scan_from
scan_from_seen mine t zero i b h = ground arith
scan_from_seen mine t (suc n) i b h = ground (arith, scan_from_seen mine t n (i + 1) b)

-- A scan that finds no zombie has seen every process that it looks for, and none is a zombie.
scan_from_absent :
    (mine : Proc → Bool) (t : Table) (n i : ℕ) (seen b : Bool) (j : ℕ)
    → scan_from mine t n i seen ≡ absent b
    → i ≤ j
    → j < i + n
    → mine (t j) ≡ true
    → ((t j).state ≢ zombie) × (b ≡ true)
unfolding scan_from
scan_from_absent mine t zero i seen b j h le lt m = absurd (omega arith)
scan_from_absent mine t (suc n) i seen b j h le lt m =
    let none_here : (mine (t i) && same_state (t i).state zombie) ≡ false = ground arith in
    let rest : scan_from mine t n (i + 1) (seen || mine (t i)) ≡ absent b = ground arith in
    elim (ℕ_discrete i j) [
      | yes p ↦ ground (arith, scan_from_seen mine t n (i + 1) b)
      | no p ↦
          scan_from_absent mine t n (i + 1) (seen || mine (t i)) b j rest (omega arith)
            (omega arith) m
    ]

scan_from_mine :
    (mine : Proc → Bool) (t : Table) (n i : ℕ) (seen : Bool)
    → scan_from mine t n i seen ≡ absent true
    → (seen ≡ true) ⊎ ((j : ℕ) × (j < i + n) × (mine (t j) ≡ true))
unfolding scan_from
scan_from_mine mine t zero i seen h = inl (ground arith)
scan_from_mine mine t (suc n) i seen h =
    let rest : scan_from mine t n (i + 1) (seen || mine (t i)) ≡ absent true = ground arith in
    elim (Bool-cases (mine (t i))) [
      | inl m ↦ inr (i, omega arith, m)
      | inr m ↦ elim (scan_from_mine mine t n (i + 1) (seen || mine (t i)) rest) [
        | inl e ↦ inl (ground arith)
        | inr (j, lt, e) ↦ inr (j, omega arith, e)
      ]
    ]

pub scan-exited :
    (mine : Proc → Bool) (t : Table) {r : ℕ}
    → scan mine t ≡ exited r
    → (r < nproc) × (mine (t r) ≡ true) × ((t r).state ≡ zombie)
unfolding scan
scan-exited mine t h = scan_from_exited mine t nproc 0 false h

pub scan-absent :
    (mine : Proc → Bool) (t : Table) (b : Bool) (j : ℕ)
    → scan mine t ≡ absent b
    → j < nproc
    → mine (t j) ≡ true
    → ((t j).state ≢ zombie) × (b ≡ true)
unfolding scan
scan-absent mine t b j h lt m =
    scan_from_absent mine t nproc 0 false b j h (omega arith) (omega arith) m

pub scan-mine :
    (mine : Proc → Bool) (t : Table)
    → scan mine t ≡ absent true
    → (j : ℕ) × (j < nproc) × (mine (t j) ≡ true)
unfolding scan
scan-mine mine t h = elim (scan_from_mine mine t nproc 0 false h) [
  | inl e ↦ cc
  | inr (j, lt, e) ↦ (j, lt, e)
]

for_procs-update :
    (f : Proc → Proc) (n i : ℕ) (t : Table) (j : ℕ)
    → for_procs (λ u k. update u k (f (u k))) n i t j
      ≡ (if leb i j && ltb j (i + n) then f (t j) else t j)
unfolding for_procs
for_procs-update f zero i t j = ground arith
for_procs-update f (suc n) i t j =
    ground (arith, for_procs-update f n (i + 1) (update t i (f (t i))) j)

-- `wakeup1` wakes each slot of the table by itself.
pub wakeup1_lem : (chan : Chan) (t : Table) (j : ℕ) → j < nproc → wakeup1 chan t j ≡ wake chan (t j)
unfolding wakeup1
wakeup1_lem chan t j lt = for_procs-update (wake chan) nproc 0 t j ∙ ground arith

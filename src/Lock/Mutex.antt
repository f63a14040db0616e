-- ===== src/Lock/Mutex.antt =====
-- Mutual exclusion by spinlock.c, with CPUs that interleave within acquire.
use os_lab2_team.Prelude.{ℕ, ◌<◌, ◌≡◌, ◌≢◌, true, false, none, some, arith, ◌==◌, if◌then◌else◌}
use os_lab2_team.Lock.{
  Spin, pushcli, popcli, holding, acquire_enter, acquire_try, release_cpu, release,
}

-- The lock, and where each CPU is: outside (0), in the loop of acquire (1), or behind it (2).
pub record Cpus : Type 0 where
  pub spin : Spin
  pub phase : ℕ → ℕ

abbrev move_to : ℕ → ℕ → (ℕ → ℕ) → ℕ → ℕ
move_to c v phase d = if d == c then v else phase d

pub data Step (m : Cpus) : Cpus → Type 0 where
  enter :
      (c : ℕ) (s : Spin)
      → m.phase c ≡ 0
      → acquire_enter m.spin c ≡ some s
      → Step m (record { spin = s; phase = move_to c 1 m.phase })
  win :
      (c : ℕ) (s : Spin)
      → m.phase c ≡ 1
      → acquire_try m.spin c ≡ some s
      → Step m (record { spin = s; phase = move_to c 2 m.phase })
  leave :
      (c : ℕ) (s : Spin)
      → m.phase c ≡ 2
      → release m.spin c ≡ some s
      → Step m (record { spin = s; phase = move_to c 0 m.phase })

pub data Reach (m : Cpus) : Cpus → Type 0 where
  here : Reach m m
  later : {m1 m2 : Cpus} → Reach m m1 → Step m1 m2 → Reach m m2

-- Who is behind acquire is the owner of the lock, and interrupts are off from acquire to release.
pub record Mutex (m : Cpus) : Type 0 where
  pub owner : (c : ℕ) → m.phase c ≡ 2 → (m.spin.locked ≡ true) × (m.spin.owner ≡ some c)
  pub inside : (c : ℕ) → m.spin.locked ≡ true → m.spin.owner ≡ some c → m.phase c ≡ 2
  pub off :
      (c : ℕ) → 0 < m.phase c → ((m.spin.cpu c).ncli ≡ 1) × ((m.spin.cpu c).interrupts ≡ false)
  pub none_held : (c : ℕ) → m.phase c ≡ 0 → (m.spin.cpu c).ncli ≡ 0

enter-Mutex :
    (m : Cpus) (c : ℕ) (s : Spin)
    → m.phase c ≡ 0
    → acquire_enter m.spin c ≡ some s
    → Mutex m
    → Mutex (record { spin = s; phase = move_to c 1 m.phase })
unfolding acquire_enter pushcli
enter-Mutex m c s z e v = record {
  owner = λ d p. (ground (arith, v.owner d), ground (arith, v.owner d));
  inside = λ d l o. ground (arith, v.inside d);
  off = λ d p. (ground (arith, v.off d, v.none_held c z), ground (arith, v.off d));
  none_held = λ d p. ground (arith, v.none_held d);
}

win-Mutex :
    (m : Cpus) (c : ℕ) (s : Spin)
    → m.phase c ≡ 1
    → acquire_try m.spin c ≡ some s
    → Mutex m
    → Mutex (record { spin = s; phase = move_to c 2 m.phase })
unfolding acquire_try
win-Mutex m c s z e v = record {
  owner = λ d p. (ground (arith, v.owner d), ground (arith, v.owner d));
  inside = λ d l o. ground (arith, v.inside d);
  off = λ d p. (ground (arith, v.off d, v.off c), ground (arith, v.off d, v.off c));
  none_held = λ d p. ground (arith, v.none_held d);
}

leave-Mutex :
    (m : Cpus) (c : ℕ) (s : Spin)
    → m.phase c ≡ 2
    → release m.spin c ≡ some s
    → Mutex m
    → Mutex (record { spin = s; phase = move_to c 0 m.phase })
unfolding release popcli release_cpu holding
leave-Mutex m c s z e v = record {
  owner = λ d p. absurd (ground (arith, v.owner d, v.owner c));
  inside = λ d l o. ground (arith, v.inside d);
  off = λ d p. (ground (arith, v.off d), ground (arith, v.off d));
  none_held = λ d p. ground (arith, v.none_held d, v.off c);
}

Mutex-Reach : (m n : Cpus) → Mutex m → Reach m n → Mutex n
Mutex-Reach m n v here = v
Mutex-Reach m n v (later {m1 = k} r (enter c s z e)) = enter-Mutex k c s z e (Mutex-Reach m k v r)
Mutex-Reach m n v (later {m1 = k} r (win c s z e)) = win-Mutex k c s z e (Mutex-Reach m k v r)
Mutex-Reach m n v (later {m1 = k} r (leave c s z e)) = leave-Mutex k c s z e (Mutex-Reach m k v r)

enter_some : (m : Cpus) (c : ℕ) → Mutex m → m.phase c ≡ 0 → acquire_enter m.spin c ≢ none
unfolding acquire_enter holding
enter_some m c v z e = ground (arith, v.inside c)

leave_some : (m : Cpus) (c : ℕ) → Mutex m → m.phase c ≡ 2 → release m.spin c ≢ none
unfolding release popcli release_cpu holding
leave_some m c v z e = ground (arith, v.owner c, v.off c)

-- From a state in which the CPUs behind acquire own the lock, and however the CPUs interleave in
-- acquire and release of one lock: at most one CPU is between the two, with its interrupts off; neither
-- acquire outside of the lock nor release inside of it panics.
pub mutual_exclusion :
    (m n : Cpus)
    → Mutex m
    → Reach m n
    → ((c d : ℕ) → n.phase c ≡ 2 → n.phase d ≡ 2 → c ≡ d)
      × ((c : ℕ) → n.phase c ≡ 2 → (n.spin.cpu c).interrupts ≡ false)
      × ((c : ℕ) → n.phase c ≡ 0 → acquire_enter n.spin c ≢ none)
      × ((c : ℕ) → n.phase c ≡ 2 → release n.spin c ≢ none)
mutual_exclusion m n v r =
    let w = Mutex-Reach m n v r in
    (
      λ c d p q. ground (arith, w.owner c p, w.owner d q),
      λ c p. (w.off c (omega arith)).1,
      λ c z. enter_some n c w z,
      λ c z. leave_some n c w z,
    )

-- ===== src/Lock/Tests.antt =====
-- spinlock.c with the lock free and interrupts on.
use os_lab2_team.Prelude.{ℕ, ◌≡◌, refl, ◌≢◌, true, false, none, arith, ◌==◌, if◌then◌else◌}
use os_lab2_team.Lock.{pushcli, put_cpu, holding, acquire_enter, release}
use os_lab2_team.Lock.Mutex.{Cpus, enter, Reach, here, later, Mutex, mutual_exclusion}

abbrev calm : Cpus
calm = record {
  spin = record {
    locked = false;
    owner = none;
    cpu = λ c. record { ncli = 0; intena = false; interrupts = true };
  };
  phase = λ c. 0;
}

calm-Mutex : Mutex calm
calm-Mutex = record {
  owner = λ c p. absurd (omega arith);
  inside = λ c l o. ground arith;
  off = λ c p. absurd (omega arith);
  none_held = λ c p. refl;
}

-- CPU 3 is in the loop of acquire.
abbrev spinning : Cpus
spinning = record {
  spin = put_cpu 3 (record { ncli = 1; intena = true; interrupts = false }) calm.spin;
  phase = λ c. if c == 3 then 1 else 0;
}

spinning-Reach : Reach calm spinning
unfolding acquire_enter pushcli holding
spinning-Reach = later here (enter 3 _ refl refl)

mutual_exclusion_example :
    ((c d : ℕ) → spinning.phase c ≡ 2 → spinning.phase d ≡ 2 → c ≡ d)
    × ((c : ℕ) → spinning.phase c ≡ 2 → (spinning.spin.cpu c).interrupts ≡ false)
    × ((c : ℕ) → spinning.phase c ≡ 0 → acquire_enter spinning.spin c ≢ none)
    × ((c : ℕ) → spinning.phase c ≡ 2 → release spinning.spin c ≢ none)
mutual_exclusion_example = mutual_exclusion calm spinning calm-Mutex spinning-Reach

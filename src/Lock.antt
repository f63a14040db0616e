-- ===== src/Lock.antt =====
-- spinlock.c: one spin lock, and the interrupts of each CPU.
pub mod Mutex
mod Tests
use os_lab2_team.Prelude.{
  ℕ, zero, suc, ◌+◌, ◌-◌, ◌*◌, ◌/◌, ◌%◌, ◌^◌, ◌≤◌, ◌<◌, ◌≡◌, refl, sym, ap, ◌∙◌, ◌≢◌, ◌↔◌, ◌⊎◌, inl,
  inr, ℤ, pos, negsuc, sub_ℕ, Bool, true, false, not, ◌&&◌, ◌||◌, Option, none, some, List, [], ◌∷◌,
  ◌++◌, map, arith, dec_lt, ℕ_discrete, leb, ltb, lt→ltb, ◌==◌, if◌then◌else◌, ==_iff, Bool-cases,
  Option-cases, get_or, replicate, length, set,
}

-- Of `struct cpu`: `ncli`, `intena`, and the interrupt flag of the processor.
pub record Cpu : Type 0 where
  pub ncli : ℕ
  pub intena : Bool
  pub interrupts : Bool

-- `struct spinlock` without the fields for debugging, and the CPUs.
pub record Spin : Type 0 where
  pub locked : Bool
  pub owner : Option ℕ
  pub cpu : ℕ → Cpu

unfoldable pub pushcli : Cpu → Cpu
pushcli c = record {
  ncli = c.ncli + 1;
  intena = if c.ncli == 0 then c.interrupts else c.intena;
  interrupts = false;
}

-- `none` is a panic: interruptible, or without a pushcli.
unfoldable pub popcli : Cpu → Option Cpu
popcli c =
    if c.interrupts || c.ncli == 0
    then none
    else some (record c { ncli = c.ncli - 1; interrupts = (c.ncli == 1) && c.intena })

abbrev pub put_cpu : ℕ → Cpu → Spin → Spin
put_cpu c v s = record s { cpu = λ d. if d == c then v else s.cpu d }

abbrev is_owner : Option ℕ → ℕ → Bool
is_owner none c = false
is_owner (some d) c = d == c

-- The value of holding: its pushcli and popcli leave the CPU as it was.
unfoldable pub holding : Spin → ℕ → Bool
holding s c = s.locked && is_owner s.owner c

-- acquire up to the loop; `none` is the panic.
unfoldable pub acquire_enter : Spin → ℕ → Option Spin
unfolding pushcli holding
acquire_enter s c = if holding s c then none else some (put_cpu c (pushcli (s.cpu c)) s)

-- A round of the loop with what follows its success; `none` is a round in vain.
unfoldable pub acquire_try : Spin → ℕ → Option Spin
acquire_try s c = if s.locked then none else some (record s { locked = true; owner = some c })

unfoldable pub release_cpu : Spin → ℕ → Option Cpu → Option Spin
release_cpu s c none = none
release_cpu s c (some v) = some (put_cpu c v (record s { locked = false; owner = none }))

-- `none` is a panic.
unfoldable pub release : Spin → ℕ → Option Spin
unfolding popcli holding
release s c = if holding s c then release_cpu s c (popcli (s.cpu c)) else none

-- ===== src/Proc/Caller.antt =====
-- The lab's getMostCaller, and find_next_prime_number, against descriptions of what they return.
use os_lab2_team.Prelude.{
  ℕ, zero, suc, ◌+◌, ◌≤◌, ◌<◌, ◌≡◌, refl, arith, ℕ_discrete, ltb, if◌then◌else◌, get_or,
}
use os_lab2_team.Proc.Table.{Table, nproc}
use os_lab2_team.Proc.Lab.{most_caller_from, get_most_caller}

-- How often the process in slot i has made the call.
abbrev pub calls : Table → ℕ → ℕ → ℕ
calls t call i = get_or (t i).counter call 0

-- From mostCallerCnt = call on, the pid is replaced at each process with more than `call` calls.
settled :
    (t : Table) (call n i pid : ℕ)
    → ((j : ℕ) → i ≤ j → j < i + n → calls t call j ≤ call)
    → most_caller_from t call n i call pid ≡ pid
unfolding most_caller_from
settled t call zero i pid few = refl
settled t call (suc n) i pid few =
    ground
      (arith, few i, settled t call n (i + 1) pid (λ j le lt. few j (omega arith) (omega arith)))

last_above :
    (t : Table) (call n i cnt pid r : ℕ)
    → cnt ≤ call
    → i ≤ r
    → r < i + n
    → call < calls t call r
    → ((j : ℕ) → r < j → j < i + n → calls t call j ≤ call)
    → most_caller_from t call n i cnt pid ≡ (t r).pid
unfolding most_caller_from
last_above t call zero i cnt pid r le lo hi above few = absurd (omega arith)
last_above t call (suc n) i cnt pid r le lo hi above few = elim (ℕ_discrete i r) [
  | yes e ↦
      ground
        (arith, settled t call n (i + 1) (t i).pid (λ j lo' hi'. few j (omega arith) (omega arith)))
  | no ne ↦ ground (
    arith,
    last_above t call n (i + 1) (if ltb cnt (calls t call i) then call else cnt)
        (if ltb cnt (calls t call i) then (t i).pid else pid) r (ground arith) (omega arith)
        (omega arith) above (λ j lo' hi'. few j (omega arith) (omega arith)),
  )
]

first_any :
    (t : Table) (call n i pid r : ℕ)
    → i ≤ r
    → r < i + n
    → 0 < calls t call r
    → ((j : ℕ) → i ≤ j → j < r → calls t call j ≡ 0)
    → ((j : ℕ) → i ≤ j → j < i + n → calls t call j ≤ call)
    → most_caller_from t call n i 0 pid ≡ (t r).pid
unfolding most_caller_from
first_any t call zero i pid r lo hi some_calls before few = absurd (omega arith)
first_any t call (suc n) i pid r lo hi some_calls before few = elim (ℕ_discrete i r) [
  | yes e ↦ ground (
    arith,
    few i,
    settled t call n (i + 1) (t i).pid (λ j lo' hi'. few j (omega arith) (omega arith)),
  )
  | no ne ↦ ground (
    arith,
    before i,
    first_any t call n (i + 1) pid r (omega arith) (omega arith) some_calls
        (λ j lo' hi'. before j (omega arith) hi') (λ j lo' hi'. few j (omega arith) (omega arith)),
  )
]

-- If some process has made the call more often than the call's own number, getMostCaller returns the
-- pid of the last such process in the table, however often the others have made it.
pub get_most_caller_above :
    (t : Table) (call r : ℕ)
    → r < nproc
    → call < calls t call r
    → ((j : ℕ) → r < j → j < nproc → calls t call j ≤ call)
    → get_most_caller t call ≡ (t r).pid
unfolding get_most_caller
get_most_caller_above t call r lt above few =
    last_above t call nproc 0 0 0 r (omega arith) (omega arith) (omega arith) above
      (λ j lo hi. few j lo (omega arith))

-- If no process has made the call more often than the call's own number, getMostCaller returns the
-- pid of the first process in the table that has made it at all.
get_most_caller_below :
    (t : Table) (call r : ℕ)
    → r < nproc
    → 0 < calls t call r
    → ((j : ℕ) → j < r → calls t call j ≡ 0)
    → ((j : ℕ) → j < nproc → calls t call j ≤ call)
    → get_most_caller t call ≡ (t r).pid
unfolding get_most_caller
get_most_caller_below t call r lt any before few =
    first_any t call nproc 0 0 r (omega arith) (omega arith) any (λ j lo hi. before j hi)
      (λ j lo hi. few j (omega arith))

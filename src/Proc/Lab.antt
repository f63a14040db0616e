-- ===== src/Proc/Lab.antt =====
-- The lab's additions to proc.c: find_next_prime_number, getMostCaller, waitForProcess.
use os_lab2_team.Prelude.{
  ℕ, zero, suc, ◌+◌, ◌-◌, ◌%◌, ◌^◌, ℤ, pos, negsuc, Bool, true, false, Option, none, some, ltb,
  ◌==◌, if◌then◌else◌, get_or,
}
use os_lab2_team.Proc.Table.{Table, nproc, scan}
use os_lab2_team.Proc.Kernel.{Services, Kernel}
use os_lab2_team.Proc.Signal.{has_pid}
use os_lab2_team.Proc.Wait.{Outcome, finish}

-- `for(int i = 2; i < number; i++) if(number%i == 0) flag = 1;` with the rounds that are left.
unfoldable pub divisor_flag : ℕ → ℕ → ℕ → Bool → Bool
divisor_flag zero i number flag = flag
divisor_flag (suc n) i number flag =
    divisor_flag n (i + 1) number (if number % i == 0 then true else flag)

-- The outer loop from the `number` that the `number++` above it left; `none` means that the fuel ran
-- out, or that the increment passed the largest `int`, which C leaves undefined.
unfoldable pub prime_from : ℕ → ℕ → Option ℕ
unfolding divisor_flag
prime_from zero number = none
prime_from (suc fuel) number =
    let rest = prime_from fuel (number + 1) in
    if ltb number (2 ^ 31)
    then if divisor_flag (number - 2) 2 number false then rest else some number
    else none

-- A number below 2 makes no round of the inner loop; so one below 0 returns its successor.
unfoldable pub find_next_prime_number : ℕ → ℤ → Option ℤ
unfolding prime_from
find_next_prime_number fuel (pos n) = elim (prime_from fuel (n + 1)) [
  | none ↦ none
  | some r ↦ some (pos r)
]
find_next_prime_number fuel (negsuc zero) = some (pos 0)
find_next_prime_number fuel (negsuc (suc n)) = some (negsuc n)

-- The loop of getMostCaller with the rounds left, the slot, mostCallerCnt and pid. A call number
-- outside of `counter` is not modelled: `get_or` reads 0 there. The counts are `int`s that are not
-- negative: a process makes fewer than 2^31 calls of a number.
unfoldable pub most_caller_from : Table → ℕ → ℕ → ℕ → ℕ → ℕ → ℕ
most_caller_from t call zero i cnt pid = pid
most_caller_from t call (suc n) i cnt pid =
    most_caller_from t call n (i + 1) (if ltb cnt (get_or (t i).counter call 0) then call else cnt)
      (if ltb cnt (get_or (t i).counter call 0) then (t i).pid else pid)

unfoldable pub get_most_caller : Table → ℕ → ℕ
unfolding most_caller_from
get_most_caller t call = most_caller_from t call nproc 0 0 0

module _ {M F : Type 0} (S : Services M F) where
  -- One round of the loop of waitForProcess, as for `wait`.
  unfoldable pub wait_for_process : ℕ → ℕ → Kernel M F → Outcome × Kernel M F
  unfolding finish scan
  wait_for_process pid cur k = finish S (scan (has_pid pid) k.procs) cur k

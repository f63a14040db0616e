-- ===== src/Proc/Tests.antt =====
-- proc.c on a small table: init in slot 0 runs on CPU 0, and its child in slot 1 is ready.
use os_lab2_team.Prelude.{
  ℕ, ◌+◌, ◌*◌, ◌%◌, ◌≤◌, ◌<◌, ◌≡◌, refl, ◌≢◌, pos, true, false, none, some, [], ◌∷◌, arith, ◌==◌,
  if◌then◌else◌, get_or,
}
use os_lab2_team.Proc.Table.{
  runnable, zombie, for_procs, unused, embryo, running, Proc, Table, null, nproc, is_slot, wakeup1,
  find, sleeping, process,
}
use os_lab2_team.Proc.Kernel.{Services, Kernel}
use os_lab2_team.Proc.Life.{fork, exit, reparent, allocproc, exit_files, exit_table, is_unused}
use os_lab2_team.Proc.Wait.{reaped, asleep, wait, sleep_on, is_child}
use os_lab2_team.Proc.Signal.{kill, has_pid}
use os_lab2_team.Proc.Lab.{wait_for_process}
use os_lab2_team.Proc.Machine.{await, Reach, start, later, settle}
use os_lab2_team.Proc.Running.{Running, Running-Reach}
use os_lab2_team.Proc.Inv.{Pids, Pids-Reach}
use os_lab2_team.Proc.Family.{Family, Family-Reach}
use os_lab2_team.Proc.Wakeup.{Waits, Waits-Reach}
use os_lab2_team.Proc.Kill.{kill_zero}
use os_lab2_team.Proc.Reap.{Round, wait_lem, wait_for_process_missed}
use os_lab2_team.Proc.Slots.{Forked, fork_lem}
use os_lab2_team.Proc.Caller.{get_most_caller_above}
use os_lab2_team.Proc.Prime.{IsPrime}
use os_lab2_team.Proc.Lab.{get_most_caller, find_next_prime_number, prime_from, divisor_flag}

-- Memory and files as counters of the calls.
abbrev services : Services ℕ ℕ
services = record {
  kalloc = λ m. (some (4096 * m), m + 1);
  kfree = λ _ m. m;
  setupkvm = λ m. (some (4096 * m), m + 1);
  inituvm = λ _ m. m;
  copyuvm = λ _ _ m. (some (4096 * m), m + 1);
  freevm = λ _ m. m;
  allocuvm = λ _ _ new m. (new, m);
  deallocuvm = λ _ _ new m. (new, m);
  filedup = λ _ f. f + 1;
  fileclose = λ _ f. f + 1;
  idup = λ _ f. f + 1;
  iput = λ _ f. f + 1;
  namei_root = λ f. (some 0, f);
  forkret = 7;
}

abbrev blank : Proc
blank = record {
  sz = 0;
  pgdir = 0;
  kstack = 0;
  state = unused;
  pid = 0;
  parent = none;
  tf = record { eax = 0; ebx = 0; esp = 0; eip = 0 };
  context_eip = 0;
  chan = null;
  killed = false;
  ofile = none ∷ none ∷ [];
  cwd = none;
  name = [];
  counter = [];
}

abbrev table : Table
table i =
    if i == 0
    then record blank { state = running; pid = 1; counter = 0 ∷ 0 ∷ 5 ∷ [] }
    else if i == 1
    then record blank {
      state = runnable;
      pid = 2;
      parent = some 0;
      counter = 0 ∷ 0 ∷ 3 ∷ [];
      ofile = some 4 ∷ none ∷ [];
    }
    else blank

abbrev start_state : Kernel ℕ ℕ
start_state = record {
  procs = table;
  nextpid = 3;
  initproc = some 0;
  cpu = λ c. if c == 0 then some 0 else none;
  mem = 9;
  files = 0;
}

start-Running : Running start_state
start-Running = record { valid = λ c i e. ground arith; unique = λ c d i p q. ground arith }

start-Pids : Pids start_state
start-Pids = record {
  positive = omega arith;
  fresh = λ i lt. ground arith;
  distinct = λ i j li lj e ne. ground arith;
  live = λ i lt s. ground arith;
}

start-Family : Family start_state
start-Family = record {
  init_slot = λ w e. ground arith;
  init_alive = λ w e. ground arith;
  init_parent = λ w e. ground arith;
  not_self = λ i li. ground arith;
}

start-Waits : Waits start_state
start-Waits = record { none_dead = λ w j lw lj s z. ground arith }

-- init sleeps in wait.
abbrev waiting : Kernel ℕ ℕ
waiting = settle 0 (wait services 0 start_state)

steps_to_waiting : Reach services false start_state waiting
steps_to_waiting = later start (await 0 0 refl)

Running-Reach_example : Running waiting
Running-Reach_example = Running-Reach services start-Running steps_to_waiting

Pids-Reach_example : Pids waiting
Pids-Reach_example = Pids-Reach services start-Running start-Pids steps_to_waiting

Family-Reach_example : Family waiting
Family-Reach_example = Family-Reach services start-Running start-Family steps_to_waiting

Waits-Reach_example : Waits waiting
Waits-Reach_example = Waits-Reach services start-Running start-Family start-Waits steps_to_waiting

wait_sleeps : ((waiting.procs 0).state ≡ sleeping) × (waiting.cpu 0 ≡ none)
unfolding wait settle
wait_sleeps = (refl, refl)

fork_lem_example : Forked services 0 start_state (fork services 0 start_state)
fork_lem_example = fork_lem services 0 start_state (λ e. ground arith)

wait_lem_example : Round (is_child 0) 0 start_state (wait services 0 start_state)
wait_lem_example = wait_lem services 0 start_state

find_zero : find (has_pid 0) table ≡ some 2
unfolding find
find_zero = refl

find_free : find is_unused table ≡ some 2
unfolding find
find_free = refl

kill_zero_example :
    let (done, k1) = kill 0 start_state in
    let (r, k2) = allocproc services k1 in
    (done ≡ true) × (r ≡ some 2) × ((k2.procs 2).killed ≡ true) × ((k2.procs 2).state ≡ embryo)
kill_zero_example = kill_zero services 2 36864 start_state find_zero refl find_free refl

abbrev after_exit : Kernel ℕ ℕ → Kernel ℕ ℕ
after_exit k =
    let k' = exit_files services 1 k in record k' { procs = exit_table 1 k'.initproc k'.procs }

exit_succeeds :
    (k : Kernel ℕ ℕ) → is_slot k.initproc 1 ≡ false → exit services 1 k ≡ some (after_exit k)
unfolding exit
exit_succeeds k e = rw e refl

exit_wakes : ((after_exit waiting).procs 0).state ≡ runnable
unfolding exit_files exit_table reparent wait settle for_procs wakeup1
exit_wakes = refl

collected : (wait services 0 (after_exit waiting)).0 ≡ reaped 2
unfolding exit_files exit_table reparent wait settle for_procs wakeup1
collected = refl

-- A second child of init, in slot 2, waits for the process with pid 2, which it is no parent of.
abbrev bystander : Kernel ℕ ℕ
bystander = record start_state {
  procs =
      λ i. if i == 2 then record blank { state = running; pid = 3; parent = some 0 } else table i;
}

abbrev bystander_asleep : Kernel ℕ ℕ
bystander_asleep = sleep_on (process 2) 2 bystander

bystander_sleeps : wait_for_process services 2 2 bystander ≡ (asleep, bystander_asleep)
unfolding wait_for_process
bystander_sleeps = refl

bystander_parent :
    (is_slot (bystander_asleep.procs 1).parent 2 ≡ false)
    × (is_slot bystander_asleep.initproc 2 ≡ false)
    × (is_slot bystander_asleep.initproc 1 ≡ false)
unfolding sleep_on
bystander_parent = (refl, refl, refl)

wait_for_process_missed_example :
    let k2 = after_exit bystander_asleep in
    ((k2.procs 1).state ≡ zombie)
    × ((k2.procs 1).pid ≡ (bystander_asleep.procs 1).pid)
    × ((k2.procs 2).state ≡ sleeping)
    × ((k2.procs 2).chan ≡ process 2)
wait_for_process_missed_example =
    wait_for_process_missed services 2 2 1 bystander bystander_asleep (after_exit bystander_asleep)
      bystander_sleeps (omega arith) (omega arith) (λ e. ground arith) bystander_parent.0
      bystander_parent.1 (exit_succeeds bystander_asleep bystander_parent.2)

few_calls : (j : ℕ) → 1 < j → j < nproc → get_or (table j).counter 2 0 ≤ 2
few_calls j lo hi = ground arith

-- Slot 0 has made 5 calls, slot 1 only 3; both are more than 2.
get_most_caller_above_example : get_most_caller table 2 ≡ 2
get_most_caller_above_example =
    get_most_caller_above table 2 1 (omega arith) (omega arith) few_calls

divides_3 : (d : ℕ) → 1 < d → d < 3 → 3 % d ≢ 0
divides_3 d lo hi e = let two : d ≡ 2 = omega arith in let m : 3 % 2 ≡ 0 = rw two at e in cc

IsPrime-3 : IsPrime 3
IsPrime-3 = (omega arith, divides_3)

next_after_24 : find_next_prime_number 10 (pos 24) ≡ some (pos 29)
unfolding find_next_prime_number prime_from divisor_flag
next_after_24 = refl

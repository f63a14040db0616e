-- ===== src/Log/Tests.antt =====
-- log.c with a log of 40 blocks at block 2, and a transaction of blocks 50 and 51.
use os_lab2_team.Prelude.{
  ℕ, ◌+◌, ◌*◌, ◌<◌, ◌≡◌, refl, ◌⊎◌, inr, Bool, true, false, none, some, List, [], ◌∷◌, arith,
}
use os_lab2_team.Log.{
  Log, update, logsize, bwrite, install_from, install_trans, read_blocks, read_head, write_blocks,
  head_block, write_head, write_log_from, write_log, commit, recover_from_log, reboot, begin_op,
  end_enter, slot_of, log_write,
}
use os_lab2_team.Log.Commit.{Plan, IsPlan, Untouched, Done, Agrees}
use os_lab2_team.Log.Recover.{crash_atomic}
use os_lab2_team.Log.Ops.{Ops, spend, begin, write, Reach, here, later, Reserved}
use os_lab2_team.Log.Reserve.{Reserved-Reach, no_panic}
use os_lab2_team.Log.Short.{short_log}

abbrev plan : Plan
plan = record {
  start = 2;
  size = 40;
  n = 2;
  block = λ i. 50 + i;
  data_of = λ b i. 7 * b + i;
  old = λ b i. 0;
}

plan-IsPlan : IsPlan plan
plan-IsPlan = record { home = λ i lt. inr (omega arith); room = omega arith }

-- The log before commit, with power for `power` writes.
abbrev log_at : ℕ → Log
log_at power = record {
  start = 2;
  size = 40;
  outstanding = 0;
  committing = true;
  n = 2;
  block = λ i. 50 + i;
  cache = λ b i. 7 * b + i;
  disk = λ b i. 0;
  power = power;
}

log_at-Agrees : (power : ℕ) → Agrees plan plan-IsPlan (log_at power)
log_at-Agrees power = record { start = refl; n = refl; block = λ i lt. refl; home = λ b h. refl }

zero_disk : Untouched plan (λ b i. 0)
zero_disk = record { head = refl; same = λ b h. refl }

-- Three writes: both copies and the header.
committed_block : (recover_from_log (reboot (commit (log_at 3)) 9)).disk 51 1 ≡ 358
unfolding commit write_log write_log_from write_head head_block write_blocks install_trans
    install_from bwrite recover_from_log read_head read_blocks
committed_block = refl

lost_block : (recover_from_log (reboot (commit (log_at 2)) 9)).disk 51 1 ≡ 0
unfolding commit write_log write_log_from write_head head_block write_blocks install_trans
    install_from bwrite recover_from_log read_head read_blocks
lost_block = refl

crash_atomic_example :
    let d = (recover_from_log (reboot (commit (log_at 4)) 3)).disk in Untouched plan d ⊎ Done plan d
crash_atomic_example =
    crash_atomic plan plan-IsPlan (log_at 4) 3 (log_at-Agrees 4) (omega arith) zero_disk
      (omega arith)

-- A log without operations.
abbrev idle_log : Log
idle_log = record (log_at 100) { committing = false; n = 0 }

abbrev idle : Ops
idle = record { log = idle_log; left = [] }

idle-Reserved : Reserved idle
idle-Reserved = record {
  all = refl;
  each = refl;
  space = omega arith;
  busy = λ e. ground arith;
  idle = λ e f. refl;
  distinct = λ i j lt le. absurd (omega arith);
}

abbrev one_op : Ops
one_op = record { log = record idle_log { outstanding = 1 }; left = 10 ∷ [] }

abbrev one_block : Ops
one_block = record {
  log = record idle_log { outstanding = 1; block = update (λ i. 50 + i) 0 77; n = 1 };
  left = 9 ∷ [];
}

one_block-Reach : Reach idle one_block
unfolding begin_op log_write slot_of spend
one_block-Reach = later {o1 = one_op} (later here (begin _ refl)) (write 0 77 _ _ refl refl)

Reserved-Reach_example : Reserved one_block
Reserved-Reach_example = Reserved-Reach idle one_block idle-Reserved one_block-Reach

no_panic_example :
    ((i b : ℕ) (xs : List ℕ)
      → logsize < 40
      → spend i (9 ∷ []) ≡ some xs
      → ((t : Log) × (log_write one_block.log b ≡ some t)))
    × ((i : ℕ) → i < 1 → ((r : Bool × Log) × (end_enter one_block.log ≡ some r)))
    × (begin_op one_block.log ≡ none → (false ≡ true) ⊎ (0 < 1))
no_panic_example = no_panic idle one_block idle-Reserved one_block-Reach

abbrev short : Log
short = record idle_log { size = 30 }

short_log_example :
    (p : Ops) × Reach (record { log = short; left = [] }) p
    × ((i : ℕ) × (xs : List ℕ) × (spend i p.left ≡ some xs))
    × ((b : ℕ) → log_write p.log b ≡ none)
short_log_example = short_log short refl refl refl refl

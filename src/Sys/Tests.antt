-- ===== src/Sys/Tests.antt =====
-- syscall.c at a concrete process.
use os_lab2_team.Prelude.{
  ℕ, ◌+◌, ◌≤◌, ◌<◌, ◌≡◌, refl, pos, negsuc, false, none, some, [], ◌∷◌, arith, ◌==◌, if◌then◌else◌,
  replicate,
}
use os_lab2_team.Proc.Table.{Proc, running, null}
use os_lab2_team.Proc.Kernel.{Kernel}
use os_lab2_team.Sys.{
  Space, set_eax, count_call, syscall, sys_getcallcount, fetchint, argint, argptr,
}
use os_lab2_team.Sys.Args.{argptr_lem}
use os_lab2_team.Sys.Count.{Calls, no_call, call}

-- 64 bytes: the stack pointer is 8, the first argument 48, and at 48 stands "ab".
abbrev space : Space
space = record {
  sz = 64;
  byte = λ a. if a == 12 then 48 else if a == 48 then b'a' else if a == 49 then b'b' else 0;
}

space_bytes : (b : ℕ) → space.byte b < 256
space_bytes b = ground arith

first_argument : argint space 8 0 ≡ some 48
unfolding argint fetchint
first_argument = refl

outside : fetchint space 61 ≡ none
unfolding fetchint
outside = refl

argptr_lem_example :
    ((p : ℕ)
      → argptr space 8 0 (pos 16) ≡ some p
      → (argint space 8 0 ≡ some p) × (p < 64) × (p + 16 ≤ 64))
    × ((p : ℕ)
        → argint space 8 0 ≡ some p
        → p < 64
        → p + 16 ≤ 64
        → argptr space 8 0 (pos 16) ≡ some p)
    × ((j : ℕ) → argptr space 8 0 (negsuc j) ≡ none)
argptr_lem_example = argptr_lem space 8 0 16 space_bytes (omega arith) (omega arith)

abbrev caller : Proc
caller = record {
  sz = 4096;
  pgdir = 4096;
  kstack = 8192;
  state = running;
  pid = 1;
  parent = none;
  tf = record { eax = 0; ebx = 0; esp = 0; eip = 0 };
  context_eip = 0;
  chan = null;
  killed = false;
  ofile = [];
  cwd = none;
  name = [];
  counter = replicate 100 0;
}

abbrev before : Kernel ℕ ℕ
before = record {
  procs = λ i. caller;
  nextpid = 2;
  initproc = some 0;
  cpu = λ c. some 0;
  mem = 0;
  files = 0;
}

-- Every call returns its own number.
abbrev echo_table : ℕ → Kernel ℕ ℕ → ℕ × Kernel ℕ ℕ
echo_table num k = (num, k)

-- getpid, number 11
abbrev after : Kernel ℕ ℕ
after = set_eax 0 11 (count_call 0 11 (set_eax 0 11 before))

called : Calls echo_table 0 before (11 ∷ []) after
unfolding syscall
called = call 11 no_call refl

counted_eleven : sys_getcallcount 0 (some 11) after ≡ some (pos 1)
unfolding sys_getcallcount count_call
counted_eleven = refl

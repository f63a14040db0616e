-- ===== src/Proc/Kernel.antt =====
-- The state that proc.c works on: the table, the pid counter, what each CPU runs, and behind an
-- interface the memory and the files that other source files keep.
use os_lab2_team.Prelude.{ℕ, Option, none, some}
use os_lab2_team.Proc.Table.{Proc, Table, Chan, null, process, update}

-- The calls that proc.c makes of kalloc.c and vm.c (over a state M of the memory) and of file.c,
-- log.c and fs.c (over a state F of the files). `none` is a null pointer, `allocuvm` and
-- `deallocuvm` return 0 for an error; `iput` stands for begin_op, iput and end_op.
pub record Services (M F : Type 0) : Type 0 where
  pub kalloc : M → Option ℕ × M
  pub kfree : ℕ → M → M
  pub setupkvm : M → Option ℕ × M
  pub inituvm : ℕ → M → M
  pub copyuvm : ℕ → ℕ → M → Option ℕ × M
  pub freevm : ℕ → M → M
  pub allocuvm : ℕ → ℕ → ℕ → M → ℕ × M
  pub deallocuvm : ℕ → ℕ → ℕ → M → ℕ × M
  pub filedup : ℕ → F → F
  pub fileclose : ℕ → F → F
  pub idup : ℕ → F → F
  pub iput : ℕ → F → F
  pub namei_root : F → Option ℕ × F
  pub forkret : ℕ

-- `cpu` is `cpus[c].proc`.
pub record Kernel (M F : Type 0) : Type 0 where
  pub procs : Table
  pub nextpid : ℕ
  pub initproc : Option ℕ
  pub cpu : ℕ → Option ℕ
  pub mem : M
  pub files : F

abbrev pub set_proc : {M F : Type 0} → ℕ → Proc → Kernel M F → Kernel M F
set_proc i p k = record k { procs = update k.procs i p }

-- The channel of a pointer to a process.
abbrev pub chan_of : Option ℕ → Chan
chan_of none = null
chan_of (some i) = process i

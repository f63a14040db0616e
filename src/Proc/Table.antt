-- ===== src/Proc/Table.antt =====
-- proc.h and the loops of proc.c over ptable: process states, the process record, the table.
use os_lab2_team.Prelude.{
  ℕ, zero, suc, ◌+◌, Bool, true, false, ◌&&◌, ◌||◌, Option, none, some, List, ◌==◌, if◌then◌else◌,
}

-- `enum procstate`
pub data ProcState : Type 0 where
  unused embryo sleeping runnable running zombie : ProcState

abbrev pub same_state : ProcState → ProcState → Bool
same_state unused unused = true
same_state embryo embryo = true
same_state sleeping sleeping = true
same_state runnable runnable = true
same_state running running = true
same_state zombie zombie = true
same_state _ _ = false

-- A sleep channel is an address: null, that of a process record (by its slot), or any other.
pub data Chan : Type 0 where
  null : Chan
  process : ℕ → Chan
  address : ℕ → Chan

abbrev pub same_chan : Chan → Chan → Bool
same_chan null null = true
same_chan (process i) (process j) = i == j
same_chan (address a) (address b) = a == b
same_chan _ _ = false

-- The registers of `struct trapframe` that the kernel reads or sets, as 32-bit patterns.
pub record Trapframe : Type 0 where
  pub eax : ℕ
  pub ebx : ℕ
  pub esp : ℕ
  pub eip : ℕ

-- `struct proc`. A pointer to a process, a file or an inode is the slot that it points to, and `none`
-- is null; `kstack` and `pgdir` are addresses, 0 null. `name` is the string in the 16 bytes.
-- Of `context` only the saved `eip` is kept.
pub record Proc : Type 0 where
  pub sz : ℕ
  pub pgdir : ℕ
  pub kstack : ℕ
  pub state : ProcState
  pub pid : ℕ
  pub parent : Option ℕ
  pub tf : Trapframe
  pub context_eip : ℕ
  pub chan : Chan
  pub killed : Bool
  pub ofile : List (Option ℕ)
  pub cwd : Option ℕ
  pub name : List ℕ
  pub counter : List ℕ

abbrev pub nproc : ℕ
nproc = 64

-- ptable.proc; only the slots below `nproc` are meant.
abbrev pub Table : Type 0
Table = ℕ → Proc

abbrev pub update : Table → ℕ → Proc → Table
update t i p j = if i == j then p else t j

-- `p->parent == q`, for a slot q
abbrev pub is_slot : Option ℕ → ℕ → Bool
is_slot none q = false
is_slot (some p) q = p == q

-- `for(p = &ptable.proc[i]; p < &ptable.proc[i+n]; p++) body`
unfoldable pub for_procs : (Table → ℕ → Table) → ℕ → ℕ → Table → Table
for_procs body zero i t = t
for_procs body (suc n) i t = for_procs body n (i + 1) (body t i)

-- The same loop with a `goto` or `return` at the first process that passes the test.
unfoldable pub find_from : (Proc → Bool) → Table → ℕ → ℕ → Option ℕ
find_from test t zero i = none
find_from test t (suc n) i = if test (t i) then some i else find_from test t n (i + 1)

unfoldable pub find : (Proc → Bool) → Table → Option ℕ
unfolding find_from
find test t = find_from test t nproc 0

-- The outcome of the scan of `wait` and `waitForProcess`: a zombie, or whether a process was seen.
pub data Found : Type 0 where
  exited : ℕ → Found
  absent : Bool → Found

unfoldable pub scan_from : (Proc → Bool) → Table → ℕ → ℕ → Bool → Found
scan_from mine t zero i seen = absent seen
scan_from mine t (suc n) i seen =
    if mine (t i) && same_state (t i).state zombie
    then exited i
    else scan_from mine t n (i + 1) (seen || mine (t i))

unfoldable pub scan : (Proc → Bool) → Table → Found
unfolding scan_from
scan mine t = scan_from mine t nproc 0 false

-- wakeup1
abbrev pub wake : Chan → Proc → Proc
wake chan p =
    if same_state p.state sleeping && same_chan p.chan chan
    then record p { state = runnable }
    else p

unfoldable pub wakeup1 : Chan → Table → Table
unfolding for_procs
wakeup1 chan t = for_procs (λ u i. update u i (wake chan (u i))) nproc 0 t

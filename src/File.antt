-- ===== src/File.antt =====
-- file.c: the table of open files and their reference counts.
pub mod Refs
mod Tests
use os_lab2_team.Prelude.{
  ℕ, zero, suc, ◌+◌, ◌-◌, ◌*◌, ◌/◌, ◌%◌, ◌^◌, ◌≤◌, ◌<◌, ◌≡◌, refl, sym, ap, ◌∙◌, ◌≢◌, ◌↔◌, ◌⊎◌, inl,
  inr, ℤ, pos, negsuc, sub_ℕ, Bool, true, false, not, ◌&&◌, ◌||◌, Option, none, some, List, [], ◌∷◌,
  ◌++◌, map, arith, dec_lt, ℕ_discrete, leb, ltb, lt→ltb, ◌==◌, if◌then◌else◌, ==_iff, Bool-cases,
  Option-cases, get_or, replicate, length, set,
}

-- `type` with the pointer that it selects, as the number of the pipe or of the inode.
pub data Kind : Type 0 where
  fd_none : Kind
  fd_pipe fd_inode : ℕ → Kind

-- `struct file`
pub record File : Type 0 where
  pub kind : Kind
  pub ref : ℕ
  pub readable : Bool
  pub writable : Bool
  pub off : ℕ

abbrev pub nfile : ℕ
nfile = 100

-- ftable.file; only the slots below `nfile` are meant.
abbrev pub Ftable : Type 0
Ftable = ℕ → File

abbrev pub put_file : Ftable → ℕ → File → Ftable
put_file t f v i = if i == f then v else t i

-- The loop of filealloc: the slots left, and `f`.
unfoldable pub free_slot : ℕ → ℕ → Ftable → Option ℕ
free_slot zero f t = none
free_slot (suc r) f t = let rest = free_slot r (f + 1) t in if (t f).ref == 0 then some f else rest

unfoldable pub file_at : Ftable → Option ℕ → Option ℕ × Ftable
file_at t none = (none, t)
file_at t (some f) = (some f, put_file t f (record (t f) { ref = 1 }))

unfoldable pub filealloc : Ftable → Option ℕ × Ftable
filealloc t = file_at t (free_slot nfile 0 t)

-- `none` is the panic; the result of filedup is its argument.
unfoldable pub filedup : Ftable → ℕ → Option Ftable
filedup t f =
    if (t f).ref == 0 then none else some (put_file t f (record (t f) { ref = (t f).ref + 1 }))

-- What fileclose does when the lock is released.
pub data Last : Type 0 where
  nothing : Last
  close_pipe : ℕ → Bool → Last
  put_inode : ℕ → Last

abbrev pub last_of : File → Last
last_of f = elim f.kind [
  | fd_none ↦ nothing
  | fd_pipe p ↦ close_pipe p f.writable
  | fd_inode i ↦ put_inode i
]

-- `none` is the panic.
unfoldable pub fileclose : Ftable → ℕ → Option (Last × Ftable)
fileclose t f =
    if (t f).ref == 0
    then none
    else if ltb 1 (t f).ref
    then some (nothing, put_file t f (record (t f) { ref = (t f).ref - 1 }))
    else some (last_of (t f), put_file t f (record (t f) { ref = 0; kind = fd_none }))

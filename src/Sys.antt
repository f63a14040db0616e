-- ===== src/Sys.antt =====
-- syscall.c and the system calls of sysproc.c on their arguments and on the call counters.
pub mod Args
pub mod Count
mod Tests
use os_lab2_team.Prelude.{
  ℕ, zero, suc, ◌+◌, ◌-◌, ◌*◌, ◌/◌, ◌%◌, ◌^◌, ◌≤◌, ◌<◌, ◌≡◌, refl, sym, ap, ◌∙◌, ◌≢◌, ◌↔◌, ◌⊎◌, inl,
  inr, ℤ, pos, negsuc, sub_ℕ, Bool, true, false, not, ◌&&◌, ◌||◌, Option, none, some, List, [], ◌∷◌,
  ◌++◌, map, arith, dec_lt, ℕ_discrete, leb, ltb, lt→ltb, ◌==◌, if◌then◌else◌, ==_iff, Bool-cases,
  Option-cases, get_or, replicate, length, set,
}
use os_lab2_team.Proc.Table.{Proc}
use os_lab2_team.Proc.Kernel.{Services, Kernel, set_proc}
use os_lab2_team.Proc.Life.{growproc}
use os_lab2_team.Proc.Signal.{kill}
use os_lab2_team.Proc.Lab.{get_most_caller, find_next_prime_number}

-- The memory of the process: its size, and its bytes.
pub record Space : Type 0 where
  pub sz : ℕ
  pub byte : ℕ → ℕ

-- The `int` with these 32 bits.
abbrev int_of : ℕ → ℤ
int_of u = if ltb u (2 ^ 31) then pos u else negsuc (2 ^ 32 - u - 1)

-- *(int*)addr, as its 32 bits.
abbrev pub load32 : (ℕ → ℕ) → ℕ → ℕ
load32 m a = m a + 256 * m (a + 1) + 65536 * m (a + 2) + 16777216 * m (a + 3)

unfoldable pub fetchint : Space → ℕ → Option ℕ
fetchint s addr =
    if leb s.sz addr || ltb s.sz ((addr + 4) % 2 ^ 32) then none else some (load32 s.byte addr)

-- The loop of fetchstr: the bytes up to `ep`, and `s`; the result is where the string ends.
unfoldable pub end_of : ℕ → Space → ℕ → Option ℕ
end_of zero m s = none
end_of (suc r) m s = let rest = end_of r m (s + 1) in if m.byte s == 0 then some s else rest

unfoldable pub text_at : ℕ → Option ℕ → Option (ℕ × ℕ)
text_at addr none = none
text_at addr (some e) = some (addr, e - addr)

-- The address and the length.
unfoldable pub fetchstr : Space → ℕ → Option (ℕ × ℕ)
fetchstr m addr = if leb m.sz addr then none else text_at addr (end_of (m.sz - addr) m addr)

unfoldable pub argint : Space → ℕ → ℕ → Option ℕ
argint m esp n = fetchint m ((esp + 4 + 4 * n) % 2 ^ 32)

-- The checks of argptr on the pointer that argint fetched.
unfoldable pub check_ptr : Space → ℤ → Option ℕ → Option ℕ
check_ptr m size none = none
check_ptr m (negsuc size) (some i) = none
check_ptr m (pos size) (some i) =
    if leb m.sz i || ltb m.sz ((i + size) % 2 ^ 32) then none else some i

unfoldable pub argptr : Space → ℕ → ℕ → ℤ → Option ℕ
argptr m esp n size = check_ptr m size (argint m esp n)

unfoldable pub argstr_at : Space → Option ℕ → Option (ℕ × ℕ)
argstr_at m none = none
argstr_at m (some addr) = fetchstr m addr

unfoldable pub argstr : Space → ℕ → ℕ → Option (ℕ × ℕ)
argstr m esp n = argstr_at m (argint m esp n)

-- NELEM(syscalls): every number from 1 to SYS_waitforprocess has its function.
abbrev nsyscalls : ℕ
nsyscalls = 27

-- The length of `counter` in `struct proc`.
abbrev pub ncounter : ℕ
ncounter = 100

abbrev pub set_eax : ℕ → ℕ → {M F : Type 0} → Kernel M F → Kernel M F
set_eax cur v k = let p = k.procs cur in set_proc cur (record p { tf = record p.tf { eax = v } }) k

-- curproc->counter[num] = curproc->counter[num]+1
unfoldable pub count_call : ℕ → ℕ → {M F : Type 0} → Kernel M F → Kernel M F
count_call cur num k =
    let p = k.procs cur in
    set_proc cur (record p { counter = set p.counter num ((get_or p.counter num 0 + 1) % 2 ^ 32) })
      k

module _ {M F : Type 0} where
  -- `table` is `syscalls`; the result of a call has its 32 bits. `none` is an access outside of
  -- `counter`, whose outcome C does not define: num is an `int`, negative from 2^31 on.
  unfoldable pub syscall : (ℕ → Kernel M F → ℕ × Kernel M F) → ℕ → Kernel M F → Option (Kernel M F)
  syscall table cur k =
      let num = (k.procs cur).tf.eax in
      let k1 = count_call cur num k in
      if ltb num ncounter
      then some (
          if ltb 0 num && ltb num nsyscalls
          then (let r = table num k1 in set_eax cur r.0 r.1)
          else set_eax cur (2 ^ 32 - 1) k1)
      else none

  -- The system calls of sysproc.c that take an argument from the stack; the argument is what argint
  -- fetched.
  unfoldable pub sys_kill : Option ℕ → Kernel M F → ℤ × Kernel M F
  sys_kill none k = (negsuc 0, k)
  sys_kill (some pid) k = let r = kill pid k in (if r.0 then pos 0 else negsuc 0, r.1)

  unfoldable pub sys_sbrk : Services M F → ℕ → Option ℕ → Kernel M F → ℤ × Kernel M F
  sys_sbrk S cur none k = (negsuc 0, k)
  sys_sbrk S cur (some n) k =
      let r = growproc S cur (int_of n) k in
      (if r.0 then int_of (k.procs cur).sz else negsuc 0, r.1)

  -- `none` is an access outside of `counter`.
  unfoldable pub sys_getcallcount : ℕ → Option ℕ → Kernel M F → Option ℤ
  sys_getcallcount cur none k = some (negsuc 0)
  sys_getcallcount cur (some num) k =
      if ltb num ncounter then some (int_of (get_or (k.procs cur).counter num 0)) else none

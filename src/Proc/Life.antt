-- ===== src/Proc/Life.antt =====
-- The life of a process in proc.c: allocproc, userinit, growproc, fork, exit.
use os_lab2_team.Prelude.{
  ℕ, zero, suc, ◌+◌, ◌-◌, ◌%◌, ◌^◌, ℤ, pos, negsuc, Bool, true, false, Option, none, some, List, [],
  ◌∷◌, ◌==◌, if◌then◌else◌, replicate,
}
use os_lab2_team.Proc.Table.{
  unused, embryo, runnable, zombie, same_state, Proc, Table, update, nproc, is_slot, find,
  for_procs, wakeup1,
}
use os_lab2_team.Proc.Kernel.{Services, Kernel, set_proc, chan_of}

abbrev page_size : ℕ
page_size = 4096

-- The string that safestrcpy(dst, src, 16) leaves: at most 15 characters.
abbrev copy_name : ℕ → List ℕ → List ℕ
copy_name zero s = []
copy_name (suc n) [] = []
copy_name (suc n) (c ∷ s) = c ∷ copy_name n s

abbrev pub is_unused : Proc → Bool
is_unused p = same_state p.state unused

module _ {M F : Type 0} (S : Services M F) where
  -- The record at `found:`, before the stack is allocated.
  abbrev embryo_of : Kernel M F → ℕ → Proc
  embryo_of k i = record (k.procs i) { state = embryo; pid = k.nextpid; counter = replicate 100 0 }

  abbrev count_pid : Kernel M F → M → Kernel M F
  count_pid k m = record k { nextpid = (k.nextpid + 1) % 2 ^ 32; mem = m }

  -- The rest of allocproc, from the result of kalloc. The frame and the context stand in the new
  -- stack, which is not cleared: of them only the context's `eip` is set here.
  unfoldable pub alloc_stack : Kernel M F → ℕ → Option ℕ × M → Option ℕ × Kernel M F
  alloc_stack k i (none, m) =
      (none, set_proc i (record (embryo_of k i) { kstack = 0; state = unused }) (count_pid k m))
  alloc_stack k i (some a, m) = (
    some i,
    set_proc i (record (embryo_of k i) { kstack = a; context_eip = S.forkret }) (count_pid k m),
  )

  unfoldable pub alloc_found : Kernel M F → ℕ → Option ℕ × Kernel M F
  unfolding alloc_stack
  alloc_found k i = alloc_stack k i (S.kalloc k.mem)

  unfoldable pub allocproc : Kernel M F → Option ℕ × Kernel M F
  unfolding alloc_found
  allocproc k = elim (find is_unused k.procs) [ none ↦ (none, k) | some i ↦ alloc_found k i ]

  -- `none` is a panic. A null result of allocproc would fault.
  unfoldable pub userinit : Kernel M F → Option (Kernel M F)
  unfolding allocproc
  userinit k =
      let (r, k1) = allocproc k in
      elim r [
        | none ↦ none
        | some i ↦
            let (dir, m) = S.setupkvm k1.mem in
            elim dir [
              | none ↦ none
              | some d ↦
                  let (root, f) = S.namei_root k1.files in
                  some (record k1 {
                    procs = update k1.procs i (record (k1.procs i) {
                      pgdir = d;
                      sz = page_size;
                      tf = record { eax = 0; ebx = 0; esp = page_size; eip = 0 };
                      name = b'i' ∷ b'n' ∷ b'i' ∷ b't' ∷ b'c' ∷ b'o' ∷ b'd' ∷ b'e' ∷ [];
                      cwd = root;
                      state = runnable;
                    });
                    initproc = some i;
                    mem = S.inituvm d m;
                    files = f;
                  })
            ]
      ]

  -- `sz + n` in 32 bits, for n > 0 and for -(n + 1); false is -1.
  unfoldable pub growproc : ℕ → ℤ → Kernel M F → Bool × Kernel M F
  growproc cur (pos zero) k = (true, k)
  growproc cur (pos (suc n)) k =
      let p = k.procs cur in
      let (sz, m) = S.allocuvm p.pgdir p.sz ((p.sz + suc n) % 2 ^ 32) k.mem in
      if sz == 0
      then (false, record k { mem = m })
      else (true, set_proc cur (record p { sz = sz }) (record k { mem = m }))
  growproc cur (negsuc n) k =
      let p = k.procs cur in
      let (sz, m) = S.deallocuvm p.pgdir p.sz ((p.sz + 2 ^ 32 - suc n) % 2 ^ 32) k.mem in
      if sz == 0
      then (false, record k { mem = m })
      else (true, set_proc cur (record p { sz = sz }) (record k { mem = m }))

  -- The loop of fork over `ofile`: the parent's entries, and those that the child's slot holds.
  unfoldable pub dup_files : List (Option ℕ) → List (Option ℕ) → F → List (Option ℕ) × F
  dup_files [] old f = (old, f)
  dup_files (o ∷ os) [] f = ([], f)
  dup_files (none ∷ os) (x ∷ old) f = let (rest, f') = dup_files os old f in (x ∷ rest, f')
  dup_files (some g ∷ os) (x ∷ old) f =
      let (rest, f') = dup_files os old (S.filedup g f) in (some g ∷ rest, f')

  abbrev dup_cwd : Option ℕ → F → F
  dup_cwd none f = f
  dup_cwd (some i) f = S.idup i f

  -- fork from the result of copyuvm up to `pid = np->pid`; false is its error path.
  unfoldable pub copy_into : ℕ → ℕ → Kernel M F → Option ℕ × M → Bool × Kernel M F
  copy_into cur np k (none, m) =
      let c = k.procs np in
      (
        false,
        set_proc np (record c { pgdir = 0; kstack = 0; state = unused })
            (record k { mem = S.kfree c.kstack m }),
      )
  copy_into cur np k (some d, m) =
      let p = k.procs cur in
      let c = k.procs np in
      let (files, f) = dup_files p.ofile c.ofile k.files in
      (
        true,
        set_proc np
            (record c {
              pgdir = d;
              sz = p.sz;
              parent = some cur;
              tf = record (p.tf) { eax = 0 };
              ofile = files;
              cwd = p.cwd;
              name = copy_name 15 p.name;
            })
            (record k { mem = m; files = dup_cwd p.cwd f }),
      )

  unfoldable pub fork_copy : ℕ → ℕ → Kernel M F → Bool × Kernel M F
  unfolding copy_into
  fork_copy cur np k = let p = k.procs cur in copy_into cur np k (S.copyuvm p.pgdir p.sz k.mem)

  unfoldable pub publish : ℕ → Kernel M F → Kernel M F
  publish np k = set_proc np (record (k.procs np) { state = runnable }) k

  -- The end of fork: the pid of the child, or `none` for -1.
  unfoldable pub fork_end : ℕ → Bool × Kernel M F → Option ℕ × Kernel M F
  unfolding publish
  fork_end np (true, k) = (some (k.procs np).pid, publish np k)
  fork_end np (false, k) = (none, k)

  unfoldable pub fork_from : ℕ → Option ℕ × Kernel M F → Option ℕ × Kernel M F
  fork_from cur (none, k) = (none, k)
  fork_from cur (some np, k) = fork_end np (fork_copy cur np k)

  unfoldable pub fork : ℕ → Kernel M F → Option ℕ × Kernel M F
  fork cur k = fork_from cur (allocproc k)

  -- The loop of exit over `ofile`: every open entry is closed, and set to null.
  unfoldable pub close_files : List (Option ℕ) → F → List (Option ℕ) × F
  close_files [] f = ([], f)
  close_files (none ∷ os) f = let (rest, f') = close_files os f in (none ∷ rest, f')
  close_files (some g ∷ os) f =
      let (rest, f') = close_files os (S.fileclose g f) in (none ∷ rest, f')

  abbrev put_cwd : Option ℕ → F → F
  put_cwd none f = f
  put_cwd (some i) f = S.iput i f

  -- exit up to `curproc->cwd = 0`
  unfoldable pub exit_files : ℕ → Kernel M F → Kernel M F
  unfolding close_files
  exit_files cur k =
      let p = k.procs cur in
      let (files, f) = close_files p.ofile k.files in
      set_proc cur (record p { ofile = files; cwd = none }) (record k { files = put_cwd p.cwd f })

-- The body of exit's loop over the table.
unfoldable pub abandon : ℕ → Option ℕ → Table → ℕ → Table
abandon cur initproc u i =
    let u' = update u i (record (u i) { parent = initproc }) in
    if is_slot (u i).parent cur
    then if same_state (u i).state zombie then wakeup1 (chan_of initproc) u' else u'
    else u

-- "Pass abandoned children to init."
unfoldable pub reparent : ℕ → Option ℕ → Table → Table
unfolding abandon
reparent cur initproc t = for_procs (abandon cur initproc) nproc 0 t

-- exit under ptable.lock, up to the call of sched.
unfoldable pub exit_table : ℕ → Option ℕ → Table → Table
exit_table cur initproc t =
    let u = reparent cur initproc (wakeup1 (chan_of (t cur).parent) t) in
    update u cur (record (u cur) { state = zombie })

module _ {M F : Type 0} (S : Services M F) where
  -- `none` is the panic "init exiting".
  unfoldable pub exit : ℕ → Kernel M F → Option (Kernel M F)
  exit cur k =
      let k' = exit_files S cur k in
      if is_slot k.initproc cur
      then none
      else some (record k' { procs = exit_table cur k'.initproc k'.procs })

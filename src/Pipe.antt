-- ===== src/Pipe.antt =====
-- pipe.c: a ring of PIPESIZE bytes between a reader and a writer. Each function is one critical
-- section, up to its end or to its sleep; a woken call goes on with what it has left.
pub mod Ring
pub mod Stream
pub mod Sleepers
mod Tests
use os_lab2_team.Prelude.{
  ℕ, zero, suc, ◌+◌, ◌-◌, ◌*◌, ◌/◌, ◌%◌, ◌^◌, ◌≤◌, ◌<◌, ◌≡◌, refl, sym, ap, ◌∙◌, ◌≢◌, ◌↔◌, ◌⊎◌, inl,
  inr, ℤ, pos, negsuc, sub_ℕ, Bool, true, false, not, ◌&&◌, ◌||◌, Option, none, some, List, [], ◌∷◌,
  ◌++◌, map, arith, dec_lt, ℕ_discrete, leb, ltb, lt→ltb, ◌==◌, if◌then◌else◌, ==_iff, Bool-cases,
  Option-cases, get_or, replicate,
}

abbrev pub pipesize : ℕ
pipesize = 512

-- `struct pipe`; `nread` and `nwrite` are `uint`s that count bytes modulo 2^32. `reader_asleep` and
-- `writer_asleep` say whether anyone sleeps on `&p->nread` and on `&p->nwrite`.
pub record Pipe : Type 0 where
  pub data_of : ℕ → ℕ
  pub nread : ℕ
  pub nwrite : ℕ
  pub readopen : Bool
  pub writeopen : Bool
  pub reader_asleep : Bool
  pub writer_asleep : Bool

-- What pipealloc puts into the page that kalloc gave.
unfoldable pub pipealloc : (ℕ → ℕ) → Pipe
pipealloc page = record {
  data_of = page;
  nread = 0;
  nwrite = 0;
  readopen = true;
  writeopen = true;
  reader_asleep = false;
  writer_asleep = false;
}

-- The Boolean says that the pipe's page is freed.
unfoldable pub pipeclose : Pipe → Bool → Bool × Pipe
pipeclose p true = (not p.readopen, record p { writeopen = false; reader_asleep = false })
pipeclose p false = (not p.writeopen, record p { readopen = false; writer_asleep = false })

abbrev pub is_full : Pipe → Bool
is_full p = p.nwrite == (p.nread + pipesize) % 2 ^ 32

-- p->data[p->nwrite++ % PIPESIZE] = x
abbrev pub put : Pipe → ℕ → Pipe
put p x = record p {
  data_of = λ i. if i == p.nwrite % pipesize then x else p.data_of i;
  nwrite = (p.nwrite + 1) % 2 ^ 32;
}

-- The return of n, a sleep with the bytes that are left to write, and the return of -1.
pub data Write : Type 0 where
  wrote : Write
  stuck : List ℕ → Write
  refused : Write

-- pipewrite of the bytes that are left, by a process whose `killed` is given.
unfoldable pub pipewrite : Bool → Pipe → List ℕ → Write × Pipe
pipewrite killed p [] = (wrote, record p { reader_asleep = false })
pipewrite killed p (x ∷ xs) =
    let rest = pipewrite killed (put p x) xs in
    if is_full p
    then (if not p.readopen || killed
        then (refused, p)
        else (stuck (x ∷ xs), record p { reader_asleep = false; writer_asleep = true }))
    else rest

-- The bytes that piperead returns, its sleep, and its return of -1.
pub data Read : Type 0 where
  got : List ℕ → Read
  waits : Read
  broken : Read

-- The copy loop of piperead: the rounds left.
unfoldable pub take_bytes : ℕ → Pipe → List ℕ × Pipe
take_bytes zero p = ([], p)
take_bytes (suc n) p =
    let rest = take_bytes n (record p { nread = (p.nread + 1) % 2 ^ 32 }) in
    if p.nread == p.nwrite then ([], p) else (p.data_of (p.nread % pipesize) ∷ rest.0, rest.1)

-- piperead of at most n bytes.
unfoldable pub piperead : Bool → Pipe → ℕ → Read × Pipe
piperead killed p n =
    if (p.nread == p.nwrite) && p.writeopen
    then (if killed then (broken, p) else (waits, record p { reader_asleep = true }))
    else let r = take_bytes n p in (got r.0, record r.1 { writer_asleep = false })

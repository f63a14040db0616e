-- ===== src/Pipe/Sleepers.antt =====
-- Sleep and wakeup in pipe.c: who sleeps has a reason to.
use os_lab2_team.Prelude.{
  ℕ, zero, suc, ◌+◌, ◌%◌, ◌^◌, ◌<◌, ◌≡◌, refl, sym, ap, ◌∙◌, ◌≢◌, ◌⊎◌, inl, inr, Bool, true, false,
  not, ◌&&◌, ◌||◌, List, [], ◌∷◌, ◌++◌, arith, ◌==◌, if◌then◌else◌, Bool-cases, length,
  length-append,
}
use os_lab2_team.Pipe.{
  pipesize, Pipe, pipeclose, is_full, put, Write, stuck, refused, pipewrite, Read, got, waits,
  broken, take_bytes, piperead,
}
use os_lab2_team.Pipe.Ring.{Holds}
use os_lab2_team.Pipe.Stream.{Written, pipewrite_lem, Idle, Copied, piperead_lem}

-- A reader sleeps only on an empty pipe that can be written, a writer only on a full one that can be
-- read.
pub record Reasons (p : Pipe) : Type 0 where
  pub queue : List ℕ
  pub holds : Holds p queue
  pub reader : p.reader_asleep ≡ true → (queue ≡ []) × (p.writeopen ≡ true) × (p.readopen ≡ true)
  pub writer : p.writer_asleep ≡ true → (length queue ≡ pipesize) × (p.readopen ≡ true)

record Flags (p : Pipe) (r : Write × Pipe) : Type 0 where
  readopen : r.1.readopen ≡ p.readopen
  writeopen : r.1.writeopen ≡ p.writeopen
  reader : r.1.reader_asleep ≡ true → (p.reader_asleep ≡ true) × (r.0 ≡ refused)
  writer :
      r.1.writer_asleep ≡ true → (p.writer_asleep ≡ true) ⊎ ((left : List ℕ) × (r.0 ≡ stuck left))
  kept : r.0 ≡ refused → r.1.reader_asleep ≡ p.reader_asleep

pipewrite-Flags : (killed : Bool) (p : Pipe) (bs : List ℕ) → Flags p (pipewrite killed p bs)
unfolding pipewrite
pipewrite-Flags killed p [] = record {
  readopen = refl;
  writeopen = refl;
  reader = λ e. ground arith;
  writer = λ e. inl e;
  kept = λ e. ground arith;
}
pipewrite-Flags killed p (x ∷ xs) = elim (Bool-cases (is_full p)) [
  | inl e ↦ rw e (full (not p.readopen || killed))
  | inr e ↦ rw e (more (pipewrite-Flags killed (put p x) xs))
]
  where
    full :
        (c : Bool)
        → Flags p (
            if c
            then (refused, p)
            else (stuck (x ∷ xs), record p { reader_asleep = false; writer_asleep = true }))
    full true = record {
      readopen = refl;
      writeopen = refl;
      reader = λ e. (e, refl);
      writer = λ e. inl e;
      kept = λ e. refl;
    }
    full false = record {
      readopen = refl;
      writeopen = refl;
      reader = λ e. ground arith;
      writer = λ e. inr (x ∷ xs, refl);
      kept = λ e. ground arith;
    }

    more : {r : Write × Pipe} → Flags (put p x) r → Flags p r
    more f = record {
      readopen = f.readopen;
      writeopen = f.writeopen;
      reader = f.reader;
      writer = f.writer;
      kept = f.kept;
    }

record SameFlags (p q : Pipe) : Type 0 where
  readopen : q.readopen ≡ p.readopen
  writeopen : q.writeopen ≡ p.writeopen
  reader : q.reader_asleep ≡ p.reader_asleep

take_bytes-SameFlags : (n : ℕ) (p : Pipe) → SameFlags p (take_bytes n p).1
unfolding take_bytes
take_bytes-SameFlags zero p = record { readopen = refl; writeopen = refl; reader = refl }
take_bytes-SameFlags (suc n) p =
    let h = take_bytes-SameFlags n (record p { nread = (p.nread + 1) % 2 ^ 32 }) in
    record {
      readopen = ground (arith, h.readopen);
      writeopen = ground (arith, h.writeopen);
      reader = ground (arith, h.reader);
    }

-- A call of pipe.c. A writer holds the write end open and a reader the read end, so the read end is
-- not closed while a reader sleeps.
pub data Step (p : Pipe) : Pipe → Type 0 where
  write : (bs : List ℕ) → Step p (pipewrite false p bs).1
  read : (killed : Bool) (n : ℕ) → p.readopen ≡ true → Step p (piperead killed p n).1
  close_write : Step p (pipeclose p true).1
  close_read : p.reader_asleep ≡ false → Step p (pipeclose p false).1

pub data Reach (p : Pipe) : Pipe → Type 0 where
  here : Reach p p
  later : {q r : Pipe} → Reach p q → Step q r → Reach p r

write-Reasons : (p : Pipe) (bs : List ℕ) → Reasons p → Reasons (pipewrite false p bs).1
write-Reasons p bs v =
    let w = pipewrite_lem false p v.queue bs v.holds in
    let f = pipewrite-Flags false p bs in
    record {
      queue = v.queue ++ w.done;
      holds = w.holds;
      reader = λ e. absurd (ground (arith, f.reader e, v.reader, w.ended));
      writer = λ e. (
        ground (arith, f.writer e, v.writer, w.ended, w.holds.fits, length-append v.queue w.done),
        ground (arith, f.writer e, v.writer, f.readopen, w.ended),
      );
    }

record ReadFlags (p : Pipe) (r : Read × Pipe) : Type 0 where
  readopen : r.1.readopen ≡ p.readopen
  writeopen : r.1.writeopen ≡ p.writeopen
  reader : r.1.reader_asleep ≡ true → (p.reader_asleep ≡ true) ⊎ (r.0 ≡ waits)
  writer :
      r.1.writer_asleep ≡ true → (p.writer_asleep ≡ true) × ((bytes : List ℕ) → r.0 ≢ got bytes)

piperead-ReadFlags : (p : Pipe) (killed : Bool) (n : ℕ) → ReadFlags p (piperead killed p n)
unfolding piperead
piperead-ReadFlags p killed n = go ((p.nread == p.nwrite) && p.writeopen) killed
  where
    go :
        (c killed : Bool)
        → ReadFlags p (
            if c
            then (if killed then (broken, p) else (waits, record p { reader_asleep = true }))
            else (got (take_bytes n p).0, record (take_bytes n p).1 { writer_asleep = false }))
    go true true = record {
      readopen = refl;
      writeopen = refl;
      reader = λ e. inl e;
      writer = λ e. (e, λ b f. ground arith);
    }
    go true false = record {
      readopen = refl;
      writeopen = refl;
      reader = λ e. inr refl;
      writer = λ e. (e, λ b f. ground arith);
    }
    go false k =
        let h = take_bytes-SameFlags n p in
        record {
          readopen = h.readopen;
          writeopen = h.writeopen;
          reader = λ e. inl (sym h.reader ∙ e);
          writer = λ e. ground arith;
        }

read-Reasons :
    (p : Pipe) (killed : Bool) (n : ℕ)
    → p.readopen ≡ true
    → Reasons p
    → Reasons (piperead killed p n).1
read-Reasons p killed n o v =
    go (piperead killed p n) (piperead-ReadFlags p killed n)
      (piperead_lem killed p n v.queue v.holds)
  where
    go :
        (r : Read × Pipe)
        → ReadFlags p r
        → Idle killed p v.queue r ⊎ Copied p n v.queue r
        → Reasons r.1
    go r f (inl i) = record {
      queue = [];
      holds = i.3;
      reader = λ e. (refl, f.writeopen ∙ i.1, f.readopen ∙ o);
      writer = λ e. absurd (ground (arith, f.writer e, v.writer, i.0));
    }
    go r f (inr c) = record {
      queue = c.1.1;
      holds = c.1.4;
      reader = λ e. absurd (ground (arith, f.reader e, v.reader, c.0, c.1.2));
      writer = λ e. absurd ((f.writer e).1 c.1.0 c.1.2);
    }

close-Reasons : (p : Pipe) → Reasons p → Reasons (pipeclose p true).1
unfolding pipeclose
close-Reasons p v = record {
  queue = v.queue;
  holds = record {
    nread = v.holds.nread;
    nwrite = v.holds.nwrite;
    fits = v.holds.fits;
    bytes = v.holds.bytes;
  };
  reader = λ e. ground arith;
  writer = v.writer;
}

close_read-Reasons :
    (p : Pipe) → p.reader_asleep ≡ false → Reasons p → Reasons (pipeclose p false).1
unfolding pipeclose
close_read-Reasons p a v = record {
  queue = v.queue;
  holds = record {
    nread = v.holds.nread;
    nwrite = v.holds.nwrite;
    fits = v.holds.fits;
    bytes = v.holds.bytes;
  };
  reader = λ e. ground arith;
  writer = λ e. ground arith;
}

-- From a pipe of which this holds, and whatever calls come in whatever order, if no process is
-- killed while it writes and the read end is not closed under a sleeping reader: the pipe goes on
-- to hold a queue of at most PIPESIZE bytes, a reader sleeps only on an empty pipe with both ends
-- open, and a writer only on a full one with the read end open; so they never sleep at once.
pub Reasons-Reach : (p q : Pipe) → Reasons p → Reach p q → Reasons q
Reasons-Reach p q v here = v
Reasons-Reach p q v (later r (write bs)) = write-Reasons _ bs (Reasons-Reach p _ v r)
Reasons-Reach p q v (later r (read killed n o)) = read-Reasons _ killed n o (Reasons-Reach p _ v r)
Reasons-Reach p q v (later {q = m} r close_write) = close-Reasons m (Reasons-Reach p _ v r)
Reasons-Reach p q v (later {q = m} r (close_read e)) =
    close_read-Reasons m e (Reasons-Reach p _ v r)

-- A killed process that writes more bytes than the pipe has room for fills the pipe and returns -1
-- without a wakeup: a reader that was asleep sleeps on, beside a full pipe.
pub killed_writer :
    (p : Pipe) (q bs : List ℕ)
    → Holds p q
    → pipesize < length q + length bs
    → p.reader_asleep ≡ true
    → let r = pipewrite true p bs in
      (r.0 ≡ refused)
      × (r.1.reader_asleep ≡ true)
      × ((full : List ℕ) × Holds r.1 full × (length full ≡ pipesize))
killed_writer p q bs h lt e =
    let w = pipewrite_lem true p q bs h in
    let f = pipewrite-Flags true p bs in
    let r = gave_up w in (r.0, f.kept r.0 ∙ e, (q ++ w.done, w.holds, r.1))
  where
    gave_up :
        (w : Written true p q bs (pipewrite true p bs))
        → ((pipewrite true p bs).0 ≡ refused) × (length (q ++ w.done) ≡ pipesize)
    gave_up w =
        let fits = w.holds.fits in
        let a = length-append q w.done in
        let b = length-append w.done w.left in
        let c = ap length w.split in
        elim w.ended [
          | inl d ↦ absurd (omega (arith, fits, a, b, c, ap length d.1))
          | inr (inl d) ↦ absurd (ground (arith, d.4))
          | inr (inr d) ↦ (d.0, d.2)
        ]

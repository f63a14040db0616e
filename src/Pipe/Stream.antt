-- ===== src/Pipe/Stream.antt =====
-- pipewrite and piperead on the queue, and the stream of bytes from the writers to the readers.
use os_lab2_team.Prelude.{
  ℕ, zero, suc, ◌+◌, ◌%◌, ◌^◌, ◌≤◌, ◌<◌, ◌≡◌, refl, sym, ap, ◌≢◌, ◌⊎◌, inl, inr, Bool, true, false,
  not, ◌&&◌, ◌||◌, List, [], ◌∷◌, ◌++◌, arith, ◌==◌, if◌then◌else◌, Bool-cases, length, append_nil,
  append_assoc,
}
use mathlib.Core.Path.{subst}
use os_lab2_team.Pipe.{
  pipesize, Pipe, is_full, put, Write, wrote, stuck, refused, pipewrite, Read, got, waits, broken,
  take_bytes, piperead,
}
use os_lab2_team.Pipe.Ring.{Holds, full_iff, empty_iff, Holds-put, Holds-take}

-- How pipewrite ends: all is written; or the ring is full, and the call sleeps with the rest, or gives
-- up since no one reads or the process is killed.
abbrev Ended : Bool → Pipe → List ℕ → List ℕ → Write → Type 0
Ended killed p q left o =
    ((o ≡ wrote) × (left ≡ []))
    ⊎ (((o ≡ stuck left)
          × (left ≢ [])
          × (length q ≡ pipesize)
          × (p.readopen ≡ true)
          × (killed ≡ false))
        ⊎ ((o ≡ refused)
            × (left ≢ [])
            × (length q ≡ pipesize)
            × ((p.readopen ≡ false) ⊎ (killed ≡ true))))

pub record Written (killed : Bool) (p : Pipe) (q bs : List ℕ) (r : Write × Pipe) : Type 0 where
  pub done : List ℕ
  pub left : List ℕ
  pub split : bs ≡ done ++ left
  pub holds : Holds r.1 (q ++ done)
  pub ended : Ended killed p (q ++ done) left r.0

-- The flags of the sleepers and of the open ends do not matter to the queue.
Holds-flags :
    (p : Pipe) (q : List ℕ) (a b : Bool)
    → Holds p q
    → Holds (record p { reader_asleep = a; writer_asleep = b }) q
Holds-flags p q a b h = record {
  nread = h.nread;
  nwrite = h.nwrite;
  fits = h.fits;
  bytes = h.bytes;
}

-- pipewrite appends a front part of its bytes to the queue: all of them, or as many as fill the ring.
-- It sleeps only on a full ring that someone can read, and returns -1 only on a full ring that no
-- one can read or in a killed process.
pub pipewrite_lem :
    (killed : Bool) (p : Pipe) (q bs : List ℕ)
    → Holds p q
    → Written killed p q bs (pipewrite killed p bs)
unfolding pipewrite
pipewrite_lem killed p q [] h = record {
  done = [];
  left = [];
  split = refl;
  holds = rw (append_nil q) (Holds-flags p q _ _ h);
  ended = inl (refl, refl);
}
pipewrite_lem killed p q (x ∷ xs) h = elim (Bool-cases (is_full p)) [
  | inl e ↦ rw e (full ((full_iff p q h).0 e))
  | inr e ↦ rw e (
      more (room e)
        (pipewrite_lem killed (put p x) (q ++ (x ∷ [])) xs (Holds-put p q x h (room e))))
]
  where
    room : is_full p ≡ false → length q < pipesize
    room e = ground (arith, (full_iff p q h).1, h.fits)

    full :
        length q ≡ pipesize
        → Written killed p q (x ∷ xs) (
            if not p.readopen || killed
            then (refused, p)
            else (stuck (x ∷ xs), record p { reader_asleep = false; writer_asleep = true }))
    full e = elim (Bool-cases (not p.readopen || killed)) [
      | inl f ↦ rw f (record {
        done = [];
        left = x ∷ xs;
        split = refl;
        holds = rw (append_nil q) h;
        ended = rw (append_nil q) (inr (inr (refl, λ g. ground arith, e, ground arith)));
      })
      | inr f ↦ rw f (record {
        done = [];
        left = x ∷ xs;
        split = refl;
        holds = rw (append_nil q) (Holds-flags p q _ _ h);
        ended =
            rw (append_nil q) (inr (inl (refl, λ g. ground arith, e, ground arith, ground arith)));
      })
    ]

    more :
        length q < pipesize
        → Written killed (put p x) (q ++ (x ∷ [])) xs (pipewrite killed (put p x) xs)
        → Written killed p q (x ∷ xs) (pipewrite killed (put p x) xs)
    more lt w = record {
      done = x ∷ w.done;
      left = w.left;
      split = ap (x ∷◌) w.split;
      holds = rw (sym (append_assoc q (x ∷ []) w.done)) w.holds;
      ended = rw (sym (append_assoc q (x ∷ []) w.done)) w.ended;
    }

-- How piperead ends on the queue q.
pub record Taken (n : ℕ) (q : List ℕ) (r : List ℕ × Pipe) : Type 0 where
  pub rest : List ℕ
  pub split : q ≡ r.0 ++ rest
  pub holds : Holds r.1 rest
  pub all : (length r.0 ≡ n) ⊎ ((rest ≡ []) × (length r.0 ≤ n))

take_bytes_lem : (n : ℕ) (p : Pipe) (q : List ℕ) → Holds p q → Taken n q (take_bytes n p)
unfolding take_bytes
take_bytes_lem zero p q h = record { rest = q; split = refl; holds = h; all = inl refl }
take_bytes_lem (suc n) p [] h =
    rw ((empty_iff p [] h).1 refl)
      (record { rest = []; split = refl; holds = h; all = inr (refl, omega arith) })
take_bytes_lem (suc n) p (x ∷ q) h =
    let t = Holds-take p x q h in
    rw (stay, t.0) (more (take_bytes_lem n (record p { nread = (p.nread + 1) % 2 ^ 32 }) q t.1))
  where
    stay : (p.nread == p.nwrite) ≡ false
    stay = ground (arith, (empty_iff p (x ∷ q) h).0)

    more : {r : List ℕ × Pipe} → Taken n q r → Taken (suc n) (x ∷ q) (x ∷ r.0, r.1)
    more t = record {
      rest = t.rest;
      split = ap (x ∷◌) t.split;
      holds = t.holds;
      all = ground (arith, t.all);
    }

-- piperead finds nothing, and someone may still write.
abbrev pub Idle : Bool → Pipe → List ℕ → Read × Pipe → Type 0
Idle killed p q r =
    (q ≡ []) × (p.writeopen ≡ true) × (r.0 ≡ (if killed then broken else waits)) × Holds r.1 []

-- piperead returns bytes.
abbrev pub Copied : Pipe → ℕ → List ℕ → Read × Pipe → Type 0
Copied p n q r =
    ((q ≢ []) ⊎ (p.writeopen ≡ false))
    × ((bytes rest : List ℕ) × (r.0 ≡ got bytes)
        × (q ≡ bytes ++ rest)
        × Holds r.1 rest
        × ((length bytes ≡ n) ⊎ ((rest ≡ []) × (length bytes ≤ n))))

-- piperead from the queue q: on an empty queue that someone can still write it sleeps, or returns -1
-- in a killed process, and leaves the queue empty; otherwise it returns the first n bytes of q, or all
-- of q if there are fewer, and leaves the others.
pub piperead_lem :
    (killed : Bool) (p : Pipe) (n : ℕ) (q : List ℕ)
    → Holds p q
    → Idle killed p q (piperead killed p n) ⊎ Copied p n q (piperead killed p n)
unfolding piperead
piperead_lem killed p n q h = elim (Bool-cases ((p.nread == p.nwrite) && p.writeopen)) [
  | inl e ↦ rw e (inl (idle killed (empty q h e) (ground arith) h))
  | inr e ↦ rw e (inr (ready e, copied (take_bytes_lem n p q h)))
]
  where
    empty : (q : List ℕ) → Holds p q → ((p.nread == p.nwrite) && p.writeopen) ≡ true → q ≡ []
    empty [] h e = refl
    empty (x ∷ q) h e = ground (arith, (empty_iff p (x ∷ q) h).0)

    ready : ((p.nread == p.nwrite) && p.writeopen) ≡ false → (q ≢ []) ⊎ (p.writeopen ≡ false)
    ready e = elim (Bool-cases p.writeopen) [
      | inl f ↦ inl (λ g. ground (arith, (empty_iff p q h).1 (rw g refl)))
      | inr f ↦ inr f
    ]

    idle :
        (killed : Bool)
        → q ≡ []
        → p.writeopen ≡ true
        → Holds p q
        → Idle killed p q
            (if killed then (broken, p) else (waits, record p { reader_asleep = true }))
    idle true e f h = (e, f, refl, subst (λ q. Holds p q) e h)
    idle false e f h = (e, f, refl, Holds-flags p [] _ _ (subst (λ q. Holds p q) e h))

    copied :
        {r : List ℕ × Pipe}
        → Taken n q r
        → ((bytes rest : List ℕ) × (got r.0 ≡ got bytes)
            × (q ≡ bytes ++ rest)
            × Holds (record r.1 { writer_asleep = false }) rest
            × ((length bytes ≡ n) ⊎ ((rest ≡ []) × (length bytes ≤ n))))
    copied {r = r} t = (r.0, t.rest, refl, t.split, Holds-flags r.1 t.rest _ _ t.holds, t.all)

-- ===== src/Log/Ops.antt =====
-- The operations of the file system on the log: begin_op, log_write and end_op, interleaved.
use os_lab2_team.Prelude.{
  ℕ, zero, suc, ◌+◌, ◌*◌, ◌≤◌, ◌<◌, ◌≡◌, refl, ◌≢◌, Bool, true, false, ◌&&◌, Option, none, some,
  List, [], ◌∷◌, arith, leb,
}
use os_lab2_team.Log.{
  Log, maxopblocks, logsize, begin_op, end_enter, end_finish, slot_of, log_write,
}

-- The log, and for each operation between begin_op and end_op how many blocks it may still write.
pub record Ops : Type 0 where
  pub log : Log
  pub left : List ℕ

abbrev pub total : List ℕ → ℕ
total [] = 0
total (x ∷ xs) = x + total xs

abbrev pub count : List ℕ → ℕ
count [] = 0
count (x ∷ xs) = suc (count xs)

-- No operation has more than MAXOPBLOCKS blocks left.
abbrev pub fits : List ℕ → Bool
fits [] = true
fits (x ∷ xs) = leb x maxopblocks && fits xs

unfoldable pub spend_rest : ℕ → Option (List ℕ) → Option (List ℕ)
spend_rest x none = none
spend_rest x (some ys) = some (x ∷ ys)

-- Operation i writes one block; none if it has no block left, or there is no such operation.
unfoldable pub spend : ℕ → List ℕ → Option (List ℕ)
spend i [] = none
spend zero (zero ∷ xs) = none
spend zero (suc x ∷ xs) = some (x ∷ xs)
spend (suc i) (x ∷ xs) = spend_rest x (spend i xs)

-- Operation i ends.
unfoldable pub leave : ℕ → List ℕ → List ℕ
leave i [] = []
leave zero (x ∷ xs) = xs
leave (suc i) (x ∷ xs) = x ∷ leave i xs

-- Critical sections, in any order; an operation writes at most MAXOPBLOCKS blocks.
pub data Step (o : Ops) : Ops → Type 0 where
  begin :
      (t : Log) → begin_op o.log ≡ some t → Step o (record { log = t; left = maxopblocks ∷ o.left })
  write :
      (i b : ℕ) (t : Log) (xs : List ℕ)
      → spend i o.left ≡ some xs
      → log_write o.log b ≡ some t
      → Step o (record { log = t; left = xs })
  enter :
      (i : ℕ) (last : Bool) (t : Log)
      → i < count o.left
      → end_enter o.log ≡ some (last, t)
      → Step o (record { log = t; left = leave i o.left })
  finish : o.log.committing ≡ true → Step o (record o { log = end_finish (true, o.log) })

pub data Reach (o : Ops) : Ops → Type 0 where
  here : Reach o o
  later : {o1 o2 : Ops} → Reach o o1 → Step o1 o2 → Reach o o2

-- The space that begin_op has promised is there, and the log names no block twice.
pub record Reserved (o : Ops) : Type 0 where
  pub all : count o.left ≡ o.log.outstanding
  pub each : fits o.left ≡ true
  pub space : o.log.n + total o.left ≤ logsize
  pub busy : o.log.committing ≡ true → o.log.outstanding ≡ 0
  pub idle : o.log.committing ≡ false → o.log.outstanding ≡ 0 → o.log.n ≡ 0
  pub distinct : (i j : ℕ) → i < j → j < o.log.n → o.log.block i ≢ o.log.block j

spend_rest-some :
    (x : ℕ) (xs zs : List ℕ) (r : Option (List ℕ))
    → ((ys : List ℕ)
        → r ≡ some ys
        → (count ys ≡ count xs) × (suc (total ys) ≡ total xs) × (fits xs ≡ true → fits ys ≡ true))
    → spend_rest x r ≡ some zs
    → (count zs ≡ count (x ∷ xs))
      × (suc (total zs) ≡ total (x ∷ xs))
      × (fits (x ∷ xs) ≡ true → fits zs ≡ true)
unfolding spend_rest
spend_rest-some x xs zs none h e = ground arith
spend_rest-some x xs zs (some ys) h e =
    let k = h ys refl in (ground (arith, k), ground (arith, k), ground (arith, k))

pub spend-some :
    (i : ℕ) (xs ys : List ℕ)
    → spend i xs ≡ some ys
    → (count ys ≡ count xs) × (suc (total ys) ≡ total xs) × (fits xs ≡ true → fits ys ≡ true)
unfolding spend
spend-some i [] ys e = ground arith
spend-some zero (zero ∷ xs) ys e = ground arith
spend-some zero (suc x ∷ xs) ys e = ground arith
spend-some (suc i) (x ∷ xs) ys e = spend_rest-some x xs ys (spend i xs) (spend-some i xs) e

pub leave_lem :
    (i : ℕ) (xs : List ℕ)
    → i < count xs
    → fits xs ≡ true
    → (suc (count (leave i xs)) ≡ count xs)
      × (total (leave i xs) ≤ total xs)
      × (fits (leave i xs) ≡ true)
unfolding leave
leave_lem i [] lt f = ground arith
leave_lem zero (x ∷ xs) lt f = ground arith
leave_lem (suc i) (x ∷ xs) lt f =
    let h = leave_lem i xs (omega arith) (ground arith) in ground arith

pub total_lem : (xs : List ℕ) → fits xs ≡ true → total xs ≤ count xs * maxopblocks
total_lem [] f = ground arith
total_lem (x ∷ xs) f = let h = total_lem xs (ground arith) in ground arith

pub slot_of_lem :
    (r i : ℕ) (block : ℕ → ℕ) (b : ℕ)
    → let k = slot_of r i block b in
      (i ≤ k) × (k ≤ i + r) × ((j : ℕ) → i ≤ j → j < k → block j ≢ b) × (k < i + r → block k ≡ b)
unfolding slot_of
slot_of_lem zero i block b =
    (omega arith, omega arith, λ j le lt. absurd (omega arith), λ lt. absurd (omega arith))
slot_of_lem (suc r) i block b =
    let h = slot_of_lem r (i + 1) block b in
    (ground arith, ground arith, λ j le lt. ground (arith, h.2 j), ground arith)

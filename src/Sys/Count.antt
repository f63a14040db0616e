-- ===== src/Sys/Count.antt =====
-- The call counters: syscall counts the calls of each number.
use os_lab2_team.Prelude.{
  ℕ, zero, suc, ◌+◌, ◌%◌, ◌^◌, ◌<◌, ◌≡◌, refl, some, List, [], ◌∷◌, arith, ◌==◌, if◌then◌else◌,
  get_or, length, length-set, set,
}
use os_lab2_team.Proc.Kernel.{Kernel}
use os_lab2_team.Sys.{ncounter, set_eax, count_call, syscall}

get_or-set :
    (xs : List ℕ) (i j v d : ℕ)
    → i < length xs
    → get_or (set xs i v) j d ≡ (if i == j then v else get_or xs j d)
get_or-set [] i j v d lt = absurd (omega arith)
get_or-set (x ∷ xs) zero zero v d lt = refl
get_or-set (x ∷ xs) zero (suc j) v d lt = ground arith
get_or-set (x ∷ xs) (suc i) zero v d lt = ground arith
get_or-set (x ∷ xs) (suc i) (suc j) v d lt = ground (arith, get_or-set xs i j v d (omega arith))

abbrev occurrences : ℕ → List ℕ → ℕ
occurrences n [] = 0
occurrences n (x ∷ xs) = if x == n then 1 + occurrences n xs else occurrences n xs

module _ {M F : Type 0} (table : ℕ → Kernel M F → ℕ × Kernel M F) (cur : ℕ) where
  -- The process has made calls with these numbers, the last one first.
  pub data Calls (k : Kernel M F) : List ℕ → Kernel M F → Type 0 where
    no_call : Calls k [] k
    call :
        {nums : List ℕ} {k1 k2 : Kernel M F}
        → (num : ℕ) → Calls k nums k1
        → syscall table cur (set_eax cur num k1) ≡ some k2
        → Calls k (num ∷ nums) k2

  module _
      (keep : (num : ℕ) (k : Kernel M F)
        → ((table num k).1.procs cur).counter ≡ (k.procs cur).counter) where
    counter-syscall :
        (k k' : Kernel M F)
        → syscall table cur k ≡ some k'
        → let num = (k.procs cur).tf.eax in
          let c = (k.procs cur).counter in
          (num < ncounter) × ((k'.procs cur).counter ≡ set c num ((get_or c num 0 + 1) % 2 ^ 32))
    unfolding syscall count_call
    counter-syscall k k' e = (
      ground arith,
      ground (arith, keep (k.procs cur).tf.eax (count_call cur (k.procs cur).tf.eax k)),
    )

    one_call :
        (k k' : Kernel M F) (num : ℕ)
        → length (k.procs cur).counter ≡ ncounter
        → syscall table cur (set_eax cur num k) ≡ some k'
        → (length (k'.procs cur).counter ≡ ncounter)
          × ((n : ℕ)
              → get_or (k'.procs cur).counter n 0 ≡ (
                  if num == n
                  then (get_or (k.procs cur).counter num 0 + 1) % 2 ^ 32
                  else get_or (k.procs cur).counter n 0))
    one_call k k' num len e =
        let c = (k.procs cur).counter in
        let s = counter-syscall (set_eax cur num k) k' e in
        let l = length-set c num ((get_or c num 0 + 1) % 2 ^ 32) in
        (
          ground (arith, s, l),
          λ n. ground (arith, s, get_or-set c num n ((get_or c num 0 + 1) % 2 ^ 32) 0),
        )

    -- getcallcount: if no system call itself changes the counters of its caller, then behind any calls
    -- of the process the counter of each number is what it was and the number of calls, modulo 2^32,
    -- and no number outside of the counters was called.
    pub counted :
        (k k' : Kernel M F) (nums : List ℕ)
        → length (k.procs cur).counter ≡ ncounter
        → Calls k nums k'
        → (length (k'.procs cur).counter ≡ ncounter)
          × ((n : ℕ)
              → get_or (k.procs cur).counter n 0 < 2 ^ 32
              → get_or (k'.procs cur).counter n 0
                ≡ (get_or (k.procs cur).counter n 0 + occurrences n nums) % 2 ^ 32)
    counted k k' _ len no_call = (len, λ n lt. omega arith)
    counted k k' _ len (call {nums = nums} {k1 = k1} num c e) =
        let h = counted k k1 nums len c in
        let s = one_call k1 k' num h.0 e in (s.0, λ n lt. ground (arith, s.1 n, h.1 n lt))

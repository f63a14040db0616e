-- ===== src/Str/Compare.antt =====
-- strncmp, memcmp and strlen of string.c against descriptions of what they compute.
use os_lab2_team.Prelude.{
  ℕ, zero, suc, ◌+◌, ◌^◌, ◌<◌, ◌≡◌, refl, ◌≢◌, ◌↔◌, inl, inr, pos, sub_ℕ, false, not, ◌&&◌, ◌∙◌, ap,
  ℕ_discrete, some, arith, ◌==◌, Bool-cases,
}
use os_lab2_team.Str.{Memory, ptr_add, strncmp, memcmp, strlen, strlen_from}

-- The strings at p and q agree on their first n bytes, up to and including a zero byte of the first.
abbrev SameString : Memory → ℕ → ℕ → ℕ → Type 0
SameString m p q n = (k : ℕ) → k < n → ((j : ℕ) → j < k → m (p + j) ≢ 0) → m (p + k) ≡ m (q + k)

sub-zero : (a b : ℕ) → sub_ℕ a b ≡ pos 0 → a ≡ b
sub-zero a b h = ground arith

same_step :
    (m : Memory) (p q n : ℕ) → m p ≡ m q → SameString m (p + 1) (q + 1) n → SameString m p q (suc n)
same_step m p q n e same zero lt before = ground arith
same_step m p q n e same (suc k) lt before =
    let h : m (p + 1 + k) ≡ m (q + 1 + k) =
      same k (omega arith) (λ j jk. ground (arith, before (suc j) (omega arith))) in
    ground arith

same_tail :
    (m : Memory) (p q n : ℕ) → m p ≢ 0 → SameString m p q (suc n) → SameString m (p + 1) (q + 1) n
same_tail m p q n ne same k lt before =
    let h : m (p + suc k) ≡ m (q + suc k) = same (suc k) (omega arith) nonzero in ground arith
  where
    nonzero : (j : ℕ) → j < suc k → m (p + j) ≢ 0
    nonzero zero jk = ground arith
    nonzero (suc j) jk = ground (arith, before j (omega arith))

same_end : (m : Memory) (p q n : ℕ) → m p ≡ 0 → m q ≡ 0 → SameString m p q (suc n)
same_end m p q n e f zero lt before = ground arith
same_end m p q n e f (suc k) lt before = absurd (before 0 (omega arith) (ground arith))

strncmp_more :
    (m : Memory) (p q n : ℕ)
    → m p ≢ 0
    → m p ≡ m q
    → strncmp m p q (suc n) ≡ strncmp m (ptr_add p 1) (ptr_add q 1) n
unfolding strncmp
strncmp_more m p q n ne e = ground arith

strncmp_stop :
    (m : Memory) (p q n : ℕ)
    → (not (m p == 0) && (m p == m q)) ≡ false
    → strncmp m p q (suc n) ≡ sub_ℕ (m p) (m q)
unfolding strncmp
strncmp_stop m p q n stop = ground arith

-- strncmp(p, q, n) returns 0 exactly when the two strings agree on their first n bytes, as far as the
-- first string's zero byte, if neither range passes the top of memory.
strncmp_zero_iff :
    (m : Memory) (p q n : ℕ)
    → p + n < 2 ^ 32
    → q + n < 2 ^ 32
    → (strncmp m p q n ≡ pos 0) ↔ SameString m p q n
unfolding strncmp
strncmp_zero_iff m p q zero hp hq = ((λ _ k lt. absurd (omega arith)), λ _. refl)
strncmp_zero_iff m p q (suc n) hp hq =
    let p1 : ptr_add p 1 ≡ p + 1 = omega arith in
    let q1 : ptr_add q 1 ≡ q + 1 = omega arith in
    let ih = strncmp_zero_iff m (p + 1) (q + 1) n (omega arith) (omega arith) in
    elim (Bool-cases (not (m p == 0) && (m p == m q))) [
      | inl more ↦
          rw (strncmp_more m p q n (ground arith) (ground arith), p1, q1)
            (
              (λ z. same_step m p q n (ground arith) (ih.0 z)),
              (λ same. ih.1 (same_tail m p q n (ground arith) same)),
            )
      | inr stop ↦ rw (strncmp_stop m p q n stop) (
        (λ z. let e = sub-zero (m p) (m q) z in same_end m p q n (ground arith) (ground arith)),
        (λ same.
            let e : m (p + 0) ≡ m (q + 0) = same 0 (omega arith) (λ j lt. absurd (omega arith)) in
            ground arith),
      )
    ]

memcmp_more :
    (m : Memory) (p q n : ℕ)
    → m p ≡ m q
    → memcmp m p q (suc n) ≡ memcmp m (ptr_add p 1) (ptr_add q 1) n
unfolding memcmp
memcmp_more m p q n e = ground arith

memcmp_stop : (m : Memory) (p q n : ℕ) → m p ≢ m q → memcmp m p q (suc n) ≡ sub_ℕ (m p) (m q)
unfolding memcmp
memcmp_stop m p q n d = ground arith

equal_step :
    (m : Memory) (p q n : ℕ)
    → m p ≡ m q
    → ((k : ℕ) → k < n → m (p + 1 + k) ≡ m (q + 1 + k))
    → (k : ℕ) → k < suc n
    → m (p + k) ≡ m (q + k)
equal_step m p q n e same zero lt = ground arith
equal_step m p q n e same (suc k) lt =
    let h : m (p + 1 + k) ≡ m (q + 1 + k) = same k (omega arith) in ground arith

-- memcmp(v1, v2, n) returns 0 exactly when the n bytes at v1 are those at v2, if neither range passes
-- the top of memory.
memcmp_zero_iff :
    (m : Memory) (v1 v2 n : ℕ)
    → v1 + n < 2 ^ 32
    → v2 + n < 2 ^ 32
    → (memcmp m v1 v2 n ≡ pos 0) ↔ ((k : ℕ) → k < n → m (v1 + k) ≡ m (v2 + k))
unfolding memcmp
memcmp_zero_iff m p q zero hp hq = ((λ _ k lt. absurd (omega arith)), λ _. refl)
memcmp_zero_iff m p q (suc n) hp hq =
    let p1 : ptr_add p 1 ≡ p + 1 = omega arith in
    let q1 : ptr_add q 1 ≡ q + 1 = omega arith in
    let ih = memcmp_zero_iff m (p + 1) (q + 1) n (omega arith) (omega arith) in
    elim (ℕ_discrete (m p) (m q)) [
      | yes e ↦
          rw (memcmp_more m p q n e, p1, q1)
            (
              (λ z. equal_step m p q n e (ih.0 z)),
              (λ same. ih.1 (λ k lt.
                  let h : m (p + suc k) ≡ m (q + suc k) = same (suc k) (omega arith) in
                  ground arith)),
            )
      | no d ↦ rw (memcmp_stop m p q n d) (
        (λ z. absurd (d (sub-zero (m p) (m q) z))),
        (λ same. let e : m (p + 0) ≡ m (q + 0) = same 0 (omega arith) in absurd (d (ground arith))),
      )
    ]

strlen_from_lem :
    (fuel : ℕ) (m : Memory) (s n k : ℕ)
    → k < fuel
    → s + n + k < 2 ^ 32
    → ((j : ℕ) → j < k → m (s + n + j) ≢ 0)
    → m (s + n + k) ≡ 0
    → strlen_from fuel m s n ≡ some (n + k)
unfolding strlen_from
strlen_from_lem zero m s n k lt h before end = elim lt [ ]
strlen_from_lem (suc fuel) m s n zero lt h before end =
    let sn : ptr_add s n ≡ s + n = omega arith in rw (sn, strlen_from) (ground arith)
strlen_from_lem (suc fuel) m s n (suc k) lt h before end =
    let sn : ptr_add s n ≡ s + n = omega arith in
    let ne : m (s + n + 0) ≢ 0 = before 0 (omega arith) in
    let shift : (j : ℕ) → j < k → m (s + (n + 1) + j) ≢ 0 =
      λ j jk. ground (arith, before (suc j) (omega arith)) in
    rw (sn, strlen_from)
      (ground (
        arith,
        strlen_from_lem fuel m s (n + 1) k (omega arith) (omega arith) shift (ground arith),
      ))

-- strlen(s) ends at the first zero byte and returns its offset, if that byte stands below the top of
-- memory, whatever the fuel above that offset.
pub strlen_lem :
    (fuel : ℕ) (m : Memory) (s k : ℕ)
    → k < fuel
    → s + k < 2 ^ 32
    → ((j : ℕ) → j < k → m (s + j) ≢ 0)
    → m (s + k) ≡ 0
    → strlen fuel m s ≡ some k
unfolding strlen
strlen_lem fuel m s k lt h before end =
    strlen_from_lem fuel m s 0 k lt (omega arith) (λ j jk. ground (arith, before j jk))
      (ground arith)
    ∙ ap some (omega arith)

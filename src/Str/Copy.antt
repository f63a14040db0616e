-- ===== src/Str/Copy.antt =====
-- strncpy and safestrcpy of string.c: which bytes they write.
use os_lab2_team.Prelude.{
  ℕ, zero, suc, ◌+◌, ◌-◌, ◌^◌, ◌≤◌, ◌<◌, ◌≡◌, refl, ap, ◌≢◌, ◌⊎◌, inl, inr, pos, ◌&&◌, arith,
  ℕ_discrete, leb, ltb, ◌==◌, if◌then◌else◌,
}
use os_lab2_team.Str.{Memory, ptr_add, store, pad, copy_pad, strncpy, copy_terminate, safestrcpy}

pad_lem :
    (m : Memory) (s n q : ℕ)
    → s + n < 2 ^ 32
    → pad m s n q ≡ (if leb s q && ltb q (s + n) then 0 else m q)
unfolding pad
pad_lem m s zero q h = ground arith
pad_lem m s (suc n) q h =
    let s1 : ptr_add s 1 ≡ s + 1 = omega arith in
    rw (s1, pad_lem (store m s 0) (s + 1) n q (omega arith)) (ground arith)

-- The first n bytes of the string at t, with zeros behind its end.
abbrev padded : Memory → ℕ → ℕ → ℕ
padded m t zero = m t
padded m t (suc j) = if m t == 0 then 0 else padded m (t + 1) j

padded_suc :
    (m : Memory) (t j : ℕ)
    → j ≢ 0
    → padded m t j ≡ (if m t == 0 then 0 else padded m (t + 1) (j - 1))
padded_suc m t zero ne = absurd (ne refl)
padded_suc m t (suc j) ne = ap (λ k. if m t == 0 then 0 else padded m (t + 1) k) (omega arith)

padded-store :
    (m : Memory) (p v t j : ℕ) → (p < t) ⊎ (t + j < p) → padded (store m p v) t j ≡ padded m t j
padded-store m p v t zero away = ground arith
padded-store m p v t (suc j) away = ground (arith, padded-store m p v (t + 1) j (omega arith))

copy_pad_end :
    (m : Memory) (s t n : ℕ)
    → m t ≡ 0
    → copy_pad m s t (suc n) ≡ pad (store m s (m t)) (ptr_add s 1) n
unfolding copy_pad
copy_pad_end m s t n e = ground arith

copy_pad_more :
    (m : Memory) (s t n : ℕ)
    → m t ≢ 0
    → copy_pad m s t (suc n) ≡ copy_pad (store m s (m t)) (ptr_add s 1) (ptr_add t 1) n
unfolding copy_pad
copy_pad_more m s t n ne = ground arith

copy_pad_lem :
    (m : Memory) (s t n q : ℕ)
    → s + n < 2 ^ 32
    → t + n < 2 ^ 32
    → (t + n ≤ s) ⊎ (s + n ≤ t)
    → copy_pad m s t n q ≡ (if leb s q && ltb q (s + n) then padded m t (q - s) else m q)
unfolding copy_pad
copy_pad_lem m s t zero q hs ht apart = ground arith
copy_pad_lem m s t (suc n) q hs ht apart =
    let s1 : ptr_add s 1 ≡ s + 1 = omega arith in
    let t1 : ptr_add t 1 ≡ t + 1 = omega arith in
    let after = padded_suc m t (q - s) in
    let apart' = padded-store m s (m t) (t + 1) (q - s - 1) in
    elim (ℕ_discrete (m t) 0) [
      | yes e ↦
          rw (copy_pad_end m s t n e, s1)
            (ground (arith, pad_lem (store m s (m t)) (s + 1) n q (omega arith), after))
      | no d ↦
          rw (copy_pad_more m s t n d, s1, t1)
            (ground (
              arith,
              copy_pad_lem (store m s (m t)) (s + 1) (t + 1) n q (omega arith) (omega arith)
                  (omega arith),
              after,
              apart',
            ))
    ]

-- strncpy(s, t, n) writes exactly the n bytes at s: those of the string t, then zeros from its end
-- on, and changes no other byte, if the two ranges are apart and stay in memory.
strncpy_lem :
    (m : Memory) (s t n q : ℕ)
    → s + n < 2 ^ 32
    → t + n < 2 ^ 32
    → (t + n ≤ s) ⊎ (s + n ≤ t)
    → strncpy m s t (pos n) q ≡ (if leb s q && ltb q (s + n) then padded m t (q - s) else m q)
unfolding strncpy
strncpy_lem m s t n q hs ht apart = copy_pad_lem m s t n q hs ht apart

-- m' holds at s the k bytes before the end of the string at t, or its first n, and a zero byte behind
-- them; outside of the n + 1 bytes at s it is m.
pub record IsCopy (m m' : Memory) (s t n : ℕ) : Type 0 where
  pub k : ℕ
  pub fits : k ≤ n
  pub same : (j : ℕ) → j < k → m' (s + j) ≡ m (t + j)
  pub inside : (j : ℕ) → j < k → m (t + j) ≢ 0
  pub terminated : m' (s + k) ≡ 0
  pub whole : (k ≡ n) ⊎ (m (t + k) ≡ 0)
  pub outside : (q : ℕ) → (q < s) ⊎ (s + n < q) → m' q ≡ m q

IsCopy-suc :
    (m m' : Memory) (s t n : ℕ)
    → (t + n < s) ⊎ (s + n < t)
    → m t ≢ 0
    → IsCopy (store m s (m t)) m' (s + 1) (t + 1) n
    → IsCopy m m' s t (suc n)
IsCopy-suc m m' s t n apart ne c = record {
  k = suc c.k;
  fits = omega (arith, c.fits);
  same = same;
  inside = inside;
  terminated = ground (arith, c.terminated);
  whole = ground (arith, c.whole, c.fits);
  outside = λ q away. ground (arith, c.outside q (omega arith));
}
  where
    same : (j : ℕ) → j < suc c.k → m' (s + j) ≡ m (t + j)
    same zero lt = ground (arith, c.outside s (omega arith))
    same (suc j) lt = ground (arith, c.same j (omega arith), c.fits)

    inside : (j : ℕ) → j < suc c.k → m (t + j) ≢ 0
    inside zero lt = ground arith
    inside (suc j) lt = ground (arith, c.inside j (omega arith), c.fits)

copy_terminate_end :
    (m : Memory) (s t n : ℕ)
    → m t ≡ 0
    → copy_terminate m s t (suc n) ≡ store (store m s (m t)) (ptr_add s 1) 0
unfolding copy_terminate
copy_terminate_end m s t n e = ground arith

copy_terminate_more :
    (m : Memory) (s t n : ℕ)
    → m t ≢ 0
    → copy_terminate m s t (suc n) ≡ copy_terminate (store m s (m t)) (ptr_add s 1) (ptr_add t 1) n
unfolding copy_terminate
copy_terminate_more m s t n ne = ground arith

copy_terminate_lem :
    (m : Memory) (s t n : ℕ)
    → s + n + 1 < 2 ^ 32
    → t + n + 1 < 2 ^ 32
    → (t + n < s) ⊎ (s + n < t)
    → IsCopy m (copy_terminate m s t n) s t n
unfolding copy_terminate
copy_terminate_lem m s t zero hs ht apart = record {
  k = 0;
  fits = omega arith;
  same = λ j lt. absurd (omega arith);
  inside = λ j lt. absurd (omega arith);
  terminated = ground arith;
  whole = inl refl;
  outside = λ q away. ground arith;
}
copy_terminate_lem m s t (suc n) hs ht apart =
    let s1 : ptr_add s 1 ≡ s + 1 = omega arith in
    let t1 : ptr_add t 1 ≡ t + 1 = omega arith in
    elim (ℕ_discrete (m t) 0) [
      | yes e ↦
          rw (copy_terminate_end m s t n e, s1)
            (record {
              k = 0;
              fits = omega arith;
              same = λ j lt. absurd (omega arith);
              inside = λ j lt. absurd (omega arith);
              terminated = ground arith;
              whole = inr (ground arith);
              outside = λ q away. ground arith;
            })
      | no d ↦
          rw (copy_terminate_more m s t n d, s1, t1)
            (IsCopy-suc m _ s t n (omega arith) d (
              copy_terminate_lem (store m s (m t)) (s + 1) (t + 1) n (omega arith) (omega arith)
                (omega arith)))
    ]

-- safestrcpy(s, t, n) with 0 < n leaves at s the bytes of the string t as far as n - 1 of them or its
-- end, with a zero byte behind them, and changes nothing outside of the n bytes at s, if the two
-- ranges are apart and stay in memory.
safestrcpy_lem :
    (m : Memory) (s t n : ℕ)
    → s + n + 1 < 2 ^ 32
    → t + n + 1 < 2 ^ 32
    → (t + n < s) ⊎ (s + n < t)
    → IsCopy m (safestrcpy m s t (pos (suc n))) s t n
unfolding safestrcpy
safestrcpy_lem m s t n hs ht apart = copy_terminate_lem m s t n hs ht apart

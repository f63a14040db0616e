-- ===== src/Sys/Args.antt =====
-- The arguments of system calls: what the kernel reads lies in the memory of the process.
use os_lab2_team.Prelude.{
  ℕ, zero, suc, ◌+◌, ◌-◌, ◌*◌, ◌%◌, ◌^◌, ◌≤◌, ◌<◌, ◌≡◌, refl, ◌≢◌, ◌↔◌, pos, negsuc, Option, none,
  some, arith, dec_lt, ℕ_discrete,
}
use os_lab2_team.Sys.{Space, load32, fetchint, end_of, text_at, fetchstr, argint, check_ptr, argptr}

load32_bound : (m : ℕ → ℕ) (a : ℕ) → ((b : ℕ) → m b < 256) → load32 m a < 2 ^ 32
load32_bound m a h = omega (arith, h a, h (a + 1), h (a + 2), h (a + 3))

Checked : Space → ℕ → Option ℕ → Type 0
Checked m k o =
    ((p : ℕ) → check_ptr m (pos k) o ≡ some p → (o ≡ some p) × (p < m.sz) × (p + k ≤ m.sz))
    × ((p : ℕ) → o ≡ some p → p < m.sz → p + k ≤ m.sz → check_ptr m (pos k) o ≡ some p)
    × ((j : ℕ) → check_ptr m (negsuc j) o ≡ none)

check_ptr_lem :
    (m : Space) (k : ℕ) (o : Option ℕ)
    → ((i : ℕ) → o ≡ some i → i < 2 ^ 32)
    → m.sz ≤ 2 ^ 31
    → k < 2 ^ 31
    → Checked m k o
unfolding Checked check_ptr
check_ptr_lem m k none word small lt = (λ p e. ground arith, λ p e. ground arith, λ j. refl)
check_ptr_lem m k (some i) word small lt = (
  λ p e. (ground arith, ground arith, ground (arith, word i refl)),
  λ p e. ground arith,
  λ j. refl,
)

fetchint_bound :
    (m : Space) (a i : ℕ) → ((b : ℕ) → m.byte b < 256) → fetchint m a ≡ some i → i < 2 ^ 32
unfolding fetchint
fetchint_bound m a i h e = ground (arith, load32_bound m.byte a h)

-- With at most KERNBASE bytes of user memory, argptr gives exactly the pointers that argint fetches
-- and whose block of k bytes lies in the memory of the process; a negative size it refuses.
pub argptr_lem :
    (m : Space) (esp n k : ℕ)
    → ((b : ℕ) → m.byte b < 256)
    → m.sz ≤ 2 ^ 31
    → k < 2 ^ 31
    → ((p : ℕ)
        → argptr m esp n (pos k) ≡ some p
        → (argint m esp n ≡ some p) × (p < m.sz) × (p + k ≤ m.sz))
      × ((p : ℕ)
          → argint m esp n ≡ some p
          → p < m.sz
          → p + k ≤ m.sz
          → argptr m esp n (pos k) ≡ some p)
      × ((j : ℕ) → argptr m esp n (negsuc j) ≡ none)
unfolding argptr argint Checked
argptr_lem m esp n k bytes small lt =
    check_ptr_lem m k (argint m esp n)
      (λ i e. fetchint_bound m ((esp + 4 + 4 * n) % 2 ^ 32) i bytes e) small lt

-- Bytes s to e of the memory are a string with its end at e.
abbrev Text : Space → ℕ → ℕ → Type 0
Text m s e = (s ≤ e) × (m.byte e ≡ 0) × ((k : ℕ) → s ≤ k → k < e → m.byte k ≢ 0)

end_of-some : (r : ℕ) (m : Space) (s e : ℕ) → end_of r m s ≡ some e → (e < s + r) × Text m s e
unfolding end_of
end_of-some zero m s e h = ground arith
end_of-some (suc r) m s e h = elim (ℕ_discrete (m.byte s) 0) [
  | yes z ↦ (ground arith, (ground arith, ground arith, λ k le lt. absurd (ground arith)))
  | no nz ↦
      let g = end_of-some r m (s + 1) e (ground arith) in
      (ground (arith, g), (ground (arith, g), g.1.1, λ k le lt. ground (arith, g.1.2 k)))
]

end_of-Text : (r : ℕ) (m : Space) (s e : ℕ) → e < s + r → Text m s e → end_of r m s ≡ some e
unfolding end_of
end_of-Text zero m s e lt t = absurd (omega (arith, t.0))
end_of-Text (suc r) m s e lt t = elim (ℕ_discrete s e) [
  | yes z ↦ ground (arith, t)
  | no nz ↦
      let g =
        end_of-Text r m (s + 1) e (omega arith)
          (omega (arith, t.0), t.1, λ k le kt. t.2 k (omega arith) kt) in
      ground (arith, g, t.2 s)
]

-- fetchstr returns an address and a length exactly when the string at the address, with its end,
-- lies in the memory of the process.
fetchstr_lem :
    (m : Space) (addr n : ℕ)
    → (fetchstr m addr ≡ some (addr, n)) ↔ ((addr + n < m.sz) × Text m addr (addr + n))
unfolding fetchstr text_at
fetchstr_lem m addr n = (
  found,
  λ t. ground (arith, end_of-Text (m.sz - addr) m addr (addr + n) (omega (arith, t.0)) t.1),
)
  where
    same : (e : ℕ) → addr ≤ e → text_at addr (some e) ≡ some (addr, n) → addr + n ≡ e
    same e le f = ground arith

    text :
        (o : Option ℕ)
        → ((e : ℕ) → o ≡ some e → (e < addr + (m.sz - addr)) × Text m addr e)
        → addr < m.sz
        → text_at addr o ≡ some (addr, n)
        → (addr + n < m.sz) × Text m addr (addr + n)
    text none h lt e = ground arith
    text (some e) h lt f = let g = h e refl in rw (same e g.1.0 f) (omega (arith, g.0), g.1)

    found : fetchstr m addr ≡ some (addr, n) → (addr + n < m.sz) × Text m addr (addr + n)
    found e = elim (dec_lt addr m.sz) [
      | yes lt ↦
          text (end_of (m.sz - addr) m addr) (λ e f. end_of-some (m.sz - addr) m addr e f) lt
            (ground arith)
      | no ge ↦ ground arith
    ]

-- ===== src/Str/Fill.antt =====
-- memset of string.c fills every byte, by words or by bytes.
use os_lab2_team.Prelude.{
  ℕ, zero, suc, ◌+◌, ◌*◌, ◌/◌, ◌%◌, ◌^◌, ◌<◌, ◌≡◌, refl, Bool, true, ◌&&◌, false, ℕ_discrete, arith,
  leb, ltb, ◌==◌, ==_iff, if◌then◌else◌,
}
use os_lab2_team.Str.{Memory, ptr_add, store, store32, stosb, stosl, fill_word, memset}

-- The memory after n bytes from `dst` have been set to `b`.
abbrev pub filled : Memory → ℕ → ℕ → ℕ → Memory
filled m dst b n q = if leb dst q && ltb q (dst + n) then b else m q

stosb_lem :
    (m : Memory) (dst c n q : ℕ) → dst + n < 2 ^ 32 → stosb m dst c n q ≡ filled m dst (c % 256) n q
unfolding stosb
stosb_lem m dst c zero q h = ground arith
stosb_lem m dst c (suc n) q h =
    let d1 : ptr_add dst 1 ≡ dst + 1 = omega arith in
    rw (d1, stosb_lem (store m dst (c % 256)) (dst + 1) c n q (omega arith)) (ground arith)

-- Does the test hold of each of the first n numbers?
passes : (ℕ → Bool) → ℕ → Bool
passes test zero = true
passes test (suc n) = if test n then passes test n else false

passes-lt : (test : ℕ → Bool) (n byte : ℕ) → passes test n ≡ true → byte < n → test byte ≡ true
unfolding passes
passes-lt test zero byte all lt = elim lt [ ]
passes-lt test (suc n) byte all lt = elim (ℕ_discrete byte n) [
  | yes e ↦ ground arith
  | no ne ↦ passes-lt test n byte (ground arith) (omega arith)
]

-- The shifts of a byte do not overlap, so that the disjunction is a sum.
fill_word_table : passes (λ c. fill_word c == c * 16843009) 256 ≡ true
unfolding passes fill_word
fill_word_table = refl

fill_word_sum : (c : ℕ) → c < 256 → fill_word c ≡ c * 16843009
fill_word_sum c h = (==_iff _ _).0 (passes-lt _ 256 c fill_word_table h)

store32_lem :
    (m : Memory) (p c q : ℕ)
    → c < 256
    → p + 4 < 2 ^ 32
    → store32 m p (c * 16843009) q ≡ filled m p c 4 q
unfolding store32
store32_lem m p c q hc hp =
    let p1 : ptr_add p 1 ≡ p + 1 = omega arith in
    let p2 : ptr_add p 2 ≡ p + 2 = omega arith in
    let p3 : ptr_add p 3 ≡ p + 3 = omega arith in
    let b0 : c * 16843009 % 256 ≡ c = omega arith in
    let b1 : c * 16843009 / 256 % 256 ≡ c = omega arith in
    let b2 : c * 16843009 / 65536 % 256 ≡ c = omega arith in
    let b3 : c * 16843009 / 16777216 % 256 ≡ c = omega arith in
    rw (p1, p2, p3, b0, b1, b2, b3) (ground arith)

stosl_lem :
    (m : Memory) (dst c n q : ℕ)
    → c < 256
    → dst + 4 * n < 2 ^ 32
    → stosl m dst (c * 16843009) n q ≡ filled m dst c (4 * n) q
unfolding stosl
stosl_lem m dst c zero q hc h = ground arith
stosl_lem m dst c (suc n) q hc h =
    let d4 : ptr_add dst 4 ≡ dst + 4 = omega arith in
    rw (d4, stosl_lem (store32 m dst (c * 16843009)) (dst + 4) c n q hc (omega arith))
      (ground (arith, store32_lem m dst c q hc (omega arith)))

-- memset(dst, c, n) sets the n bytes from `dst` to the low byte of `c` and changes no other byte, by
-- words where `dst` and n are multiples of 4 and by bytes elsewhere, if the range stays in memory.
memset_lem :
    (m : Memory) (dst c n q : ℕ)
    → dst + n < 2 ^ 32
    → memset m dst c n q ≡ filled m dst (c % 256) n q
unfolding memset
memset_lem m dst c n q h = rw (fill_word_sum (c % 256) (omega arith)) (
    ground (
      arith,
      stosb_lem m dst c n q h,
      stosl_lem m dst (c % 256) (n / 4) q (omega arith) (omega arith),
    ))

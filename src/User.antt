-- ===== src/User.antt =====
-- The library of the user programs: ulib.c and printf.c.
pub mod Digits
pub mod Format
mod Tests
use os_lab2_team.Prelude.{
  ℕ, zero, suc, ◌+◌, ◌-◌, ◌*◌, ◌/◌, ◌%◌, ◌^◌, ◌≤◌, ◌<◌, ◌≡◌, refl, sym, ap, ◌∙◌, ◌≢◌, ◌↔◌, ◌⊎◌, inl,
  inr, ℤ, pos, negsuc, sub_ℕ, Bool, true, false, not, ◌&&◌, ◌||◌, Option, none, some, List, [], ◌∷◌,
  ◌++◌, map, arith, dec_lt, ℕ_discrete, leb, ltb, lt→ltb, ◌==◌, if◌then◌else◌, ==_iff, Bool-cases,
  Option-cases, get_or, replicate, length, length-append, get_or-append_last, get_or-append,
  append_nil, append_assoc, set, times, without, times-without,
}
use os_lab2_team.Str.{Memory}
use os_lab2_team.Console.Print.{Args, printint, text_of}

-- strcpy, with the rounds of its loop as fuel; `none` is a loop that has not ended.
unfoldable pub strcpy : ℕ → Memory → ℕ → ℕ → Option Memory
strcpy zero m s t = none
strcpy (suc fuel) m s t =
    let m' : Memory = λ p. if p == s then m t else m p in
    let rest = strcpy fuel m' (s + 1) (t + 1) in if m t == 0 then some m' else rest

-- strcmp, likewise; the result is a difference of bytes.
unfoldable pub strcmp : ℕ → Memory → ℕ → ℕ → Option ℤ
strcmp zero m p q = none
strcmp (suc fuel) m p q =
    let rest = strcmp fuel m (p + 1) (q + 1) in
    if (m p == 0) || not (m p == m q) then some (sub_ℕ (m p) (m q)) else rest

-- strchr, likewise; the address 0 is null.
unfoldable pub strchr : ℕ → Memory → ℕ → ℕ → Option ℕ
strchr zero m s c = none
strchr (suc fuel) m s c =
    let rest = strchr fuel m (s + 1) c in
    if m s == 0 then some 0 else if m s == c then some s else rest

-- The loop of atoi over the text, in 32 bits.
unfoldable pub atoi_from : ℕ → List ℕ → ℕ
atoi_from n [] = n
atoi_from n (c ∷ s) =
    let rest = atoi_from ((n * 10 + c + 2 ^ 32 - b'0') % 2 ^ 32) s in
    if leb b'0' c && leb c b'9' then rest else n

unfoldable pub atoi : List ℕ → ℕ
atoi s = atoi_from 0 s

-- The bytes that gets stores, with the end that it writes, when read(0, &c, 1) gives these bytes one
-- after the other and then no more; `room` is max - i - 1.
unfoldable pub gets_from : ℕ → List ℕ → List ℕ
gets_from zero bytes = 0 ∷ []
gets_from (suc room) [] = 0 ∷ []
gets_from (suc room) (c ∷ bytes) =
    let rest = gets_from room bytes in if (c == 10) || (c == 13) then c ∷ 0 ∷ [] else c ∷ rest

-- The case split of printf behind a `%`.
unfoldable pub user_directive : Args → ℕ → ℕ → List ℕ × ℕ
user_directive a i c =
    if c == b'd'
    then (printint b'A' (a.arg i) 10 true, 1)
    else if (c == b'x') || (c == b'p')
    then (printint b'A' (a.arg i) 16 false, 1)
    else if c == b's'
    then (text_of a (a.arg i), 1)
    else if c == b'c'
    then (a.arg i % 256 ∷ [], 1)
    else if c == b'%'
    then (c ∷ [], 0)
    else (b'%' ∷ c ∷ [], 0)

-- The loop of printf: `state` says that a `%` came before; i arguments are used up. The result is what
-- putc writes.
unfoldable pub printf : Args → Bool → ℕ → List ℕ → List ℕ
printf a state i [] = []
printf a false i (c ∷ fmt) =
    let percent = printf a true i fmt in
    let plain = printf a false i fmt in if c == b'%' then percent else c ∷ plain
printf a true i (c ∷ fmt) = let r = user_directive a i c in r.0 ++ printf a false (i + r.1) fmt

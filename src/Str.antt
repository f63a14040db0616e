-- ===== src/Str.antt =====
-- string.c: the kernel's byte and string routines over a byte memory.
-- A pointer is a 32-bit number and `char` is read as the byte that it holds.
pub mod Move
pub mod Fill
pub mod Compare
pub mod Copy
mod Tests
use Prim.Native.Nat.{bit_or}
use os_lab2_team.Prelude.{
  ℕ, zero, suc, ◌+◌, ◌-◌, ◌*◌, ◌/◌, ◌%◌, ◌^◌, ℤ, pos, negsuc, sub_ℕ, Bool, true, false, not, ◌&&◌,
  Option, none, some, ltb, ◌==◌, if◌then◌else◌,
}

abbrev pub Memory : Type 0
Memory = ℕ → ℕ

-- Pointer arithmetic on a 32-bit machine.
abbrev pub ptr_add : ℕ → ℕ → ℕ
ptr_add p n = (p + n) % 2 ^ 32

abbrev pub ptr_sub : ℕ → ℕ → ℕ
ptr_sub p n = (p + 2 ^ 32 - n) % 2 ^ 32

-- `*p = v`
abbrev pub store : Memory → ℕ → ℕ → Memory
store m p v q = if p == q then v else m q

-- `while(n-- > 0) *d++ = *s++;`
move_up : Memory → ℕ → ℕ → ℕ → Memory
move_up m d s zero = m
move_up m d s (suc n) = move_up (store m d (m s)) (ptr_add d 1) (ptr_add s 1) n

-- `while(n-- > 0) *--d = *--s;`
move_down : Memory → ℕ → ℕ → ℕ → Memory
move_down m d s zero = m
move_down m d s (suc n) =
    move_down (store m (ptr_sub d 1) (m (ptr_sub s 1))) (ptr_sub d 1) (ptr_sub s 1) n

pub memmove : Memory → ℕ → ℕ → ℕ → Memory
memmove m dst src n =
    if ltb src dst && ltb dst (ptr_add src n)
    then move_down m (ptr_add dst n) (ptr_add src n) n
    else move_up m dst src n

-- `rep stosb`: the low byte of `c`, n times.
stosb : Memory → ℕ → ℕ → ℕ → Memory
stosb m dst c zero = m
stosb m dst c (suc n) = stosb (store m dst (c % 256)) (ptr_add dst 1) c n

-- A 32-bit store, little endian.
store32 : Memory → ℕ → ℕ → Memory
store32 m p w =
    store
      (store (store (store m p (w % 256)) (ptr_add p 1) (w / 256 % 256)) (ptr_add p 2)
        (w / 65536 % 256))
      (ptr_add p 3) (w / 16777216 % 256)

-- `rep stosl`
stosl : Memory → ℕ → ℕ → ℕ → Memory
stosl m dst w zero = m
stosl m dst w (suc n) = stosl (store32 m dst w) (ptr_add dst 4) w n

-- `(c<<24)|(c<<16)|(c<<8)|c`
fill_word : ℕ → ℕ
fill_word c = bit_or (bit_or (bit_or (c * 2 ^ 24) (c * 2 ^ 16)) (c * 2 ^ 8)) c

-- `c` is the bit pattern of the `int` argument; `c & 0xFF` is `c % 256`.
pub memset : Memory → ℕ → ℕ → ℕ → Memory
memset m dst c n =
    if (dst % 4 == 0) && (n % 4 == 0)
    then stosl m dst (fill_word (c % 256)) (n / 4)
    else stosb m dst c n

pub memcmp : Memory → ℕ → ℕ → ℕ → ℤ
memcmp m s1 s2 zero = pos 0
memcmp m s1 s2 (suc n) = elim (m s1 == m s2) [
  | true ↦ memcmp m (ptr_add s1 1) (ptr_add s2 1) n
  | false ↦ sub_ℕ (m s1) (m s2)
]

pub strncmp : Memory → ℕ → ℕ → ℕ → ℤ
strncmp m p q zero = pos 0
strncmp m p q (suc n) = elim (not (m p == 0) && (m p == m q)) [
  | true ↦ strncmp m (ptr_add p 1) (ptr_add q 1) n
  | false ↦ sub_ℕ (m p) (m q)
]

-- `while(n-- > 0) *s++ = 0;`
pad : Memory → ℕ → ℕ → Memory
pad m s zero = m
pad m s (suc n) = pad (store m s 0) (ptr_add s 1) n

copy_pad : Memory → ℕ → ℕ → ℕ → Memory
copy_pad m s t zero = m
copy_pad m s t (suc n) = elim (m t == 0) [
  | true ↦ pad (store m s (m t)) (ptr_add s 1) n
  | false ↦ copy_pad (store m s (m t)) (ptr_add s 1) (ptr_add t 1) n
]

-- A negative n copies nothing.
pub strncpy : Memory → ℕ → ℕ → ℤ → Memory
strncpy m s t (pos n) = copy_pad m s t n
strncpy m s t (negsuc n) = m

-- The loop of `safestrcpy` and the store behind it; n is the count before `--n`.
copy_terminate : Memory → ℕ → ℕ → ℕ → Memory
copy_terminate m s t zero = store m s 0
copy_terminate m s t (suc n) = elim (m t == 0) [
  | true ↦ store (store m s (m t)) (ptr_add s 1) 0
  | false ↦ copy_terminate (store m s (m t)) (ptr_add s 1) (ptr_add t 1) n
]

pub safestrcpy : Memory → ℕ → ℕ → ℤ → Memory
safestrcpy m s t (pos zero) = m
safestrcpy m s t (pos (suc n)) = copy_terminate m s t n
safestrcpy m s t (negsuc n) = m

-- The loop counts up to the first zero byte; `none` means that the fuel ran out. The count is an `int`:
-- strings are shorter than 2^31.
strlen_from : ℕ → Memory → ℕ → ℕ → Option ℕ
strlen_from zero m s n = none
strlen_from (suc fuel) m s n = elim (m (ptr_add s n) == 0) [
  | true ↦ some n
  | false ↦ strlen_from fuel m s (n + 1)
]

pub strlen : ℕ → Memory → ℕ → Option ℕ
strlen fuel m s = strlen_from fuel m s 0

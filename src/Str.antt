-- ===== src/Str.antt =====
-- xv62/xv6/kernel/string.c. A byte is a number below 256. An array that a function reads or writes
-- by itself is a function from offsets to bytes; `memmove`, whose ranges may overlap, works on one
-- memory from addresses to bytes. Addresses do not wrap.
pub mod Move
pub mod Copy
pub mod Compare
pub mod Fill
mod Tests
use os_fall.Base.{
  ℕ, zero, suc, ◌+◌, ◌-◌, ◌%◌, ◌^◌, Bool, true, false, ◌&&◌, not, ltb, ◌==◌, if◌then◌else◌, sub32,
}

abbrev pub Bytes : Type 0
Bytes = ℕ → ℕ

abbrev pub store : Bytes → ℕ → ℕ → Bytes
store m a v x = if x == a then v else m x

-- `memset`, the `stosb` loop.
pub memset : Bytes → ℕ → ℕ → ℕ → Bytes
memset m dst c zero = m
memset m dst c (suc n) = memset (store m dst (c % 256)) (dst + 1) c n

-- `while(n-- > 0) *d++ = *s++;`
pub copy_up : Bytes → ℕ → ℕ → ℕ → Bytes
copy_up m d s zero = m
copy_up m d s (suc n) = copy_up (store m d (m s)) (d + 1) (s + 1) n

-- `while(n-- > 0) *--d = *--s;`, with `d` and `s` at the start of the `n` bytes that are left.
pub copy_down : Bytes → ℕ → ℕ → ℕ → Bytes
copy_down m d s zero = m
copy_down m d s (suc n) = copy_down (store m (d + n) (m (s + n))) d s n

pub memmove : Bytes → ℕ → ℕ → ℕ → Bytes
unfolding copy_up copy_down
memmove m dst src n =
    if ltb src dst && ltb dst (src + n) then copy_down m dst src n else copy_up m dst src n

-- `memcpy` is `memmove`.
pub memcpy : Bytes → ℕ → ℕ → ℕ → Bytes
unfolding memmove
memcpy m dst src n = memmove m dst src n

-- The difference of two bytes as an `int`.
pub memcmp_from : Bytes → Bytes → ℕ → ℕ → ℕ
memcmp_from p q i zero = 0
memcmp_from p q i (suc n) =
    let rest = memcmp_from p q (i + 1) n in if p i == q i then rest else sub32 (p i) (q i)

pub memcmp : Bytes → Bytes → ℕ → ℕ
unfolding memcmp_from
memcmp p q n = memcmp_from p q 0 n

unfoldable pub strncmp_from : Bytes → Bytes → ℕ → ℕ → ℕ
strncmp_from p q i zero = 0
strncmp_from p q i (suc n) =
    let rest = strncmp_from p q (i + 1) n in
    if not (p i == 0) && p i == q i then rest else sub32 (p i) (q i)

unfoldable pub strncmp : Bytes → Bytes → ℕ → ℕ
unfolding strncmp_from
strncmp p q n = strncmp_from p q 0 n

-- The second loop of `strncpy`.
pub zero_fill : Bytes → ℕ → ℕ → Bytes
zero_fill s i zero = s
zero_fill s i (suc n) = zero_fill (store s i 0) (i + 1) n

pub strncpy_from : Bytes → Bytes → ℕ → ℕ → Bytes
unfolding zero_fill
strncpy_from s t i zero = s
strncpy_from s t i (suc n) =
    let s' = store s i (t i) in
    let rest = strncpy_from s' t (i + 1) n in if t i == 0 then zero_fill s' (i + 1) n else rest

-- For `n` that is not negative; a negative one copies nothing.
pub strncpy : Bytes → Bytes → ℕ → Bytes
unfolding strncpy_from
strncpy s t n = strncpy_from s t 0 n

-- `m` is `n - 1`, the value that `--n` compares. After a copied NUL the code writes one more NUL
-- behind it.
pub safestrcpy_from : Bytes → Bytes → ℕ → ℕ → Bytes
safestrcpy_from s t i zero = store s i 0
safestrcpy_from s t i (suc m) =
    let s' = store s i (t i) in
    let rest = safestrcpy_from s' t (i + 1) m in if t i == 0 then store s' (i + 1) 0 else rest

-- A negative `n` behaves as 0.
unfoldable pub safestrcpy : Bytes → Bytes → ℕ → Bytes
unfolding safestrcpy_from
safestrcpy s t zero = s
safestrcpy s t (suc m) = safestrcpy_from s t 0 m

-- `strlen` of a text whose NUL is within the first `fuel` bytes; the count stops there.
pub strlen_from : Bytes → ℕ → ℕ → ℕ
strlen_from s i zero = i
strlen_from s i (suc fuel) = let rest = strlen_from s (i + 1) fuel in if s i == 0 then i else rest

pub strlen : Bytes → ℕ → ℕ
unfolding strlen_from
strlen s fuel = strlen_from s 0 fuel

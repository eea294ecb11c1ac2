-- ===== src/Random.antt =====
-- xv62/xv6/kernel/random_num.c, the generator from which scheduler draws. A `uint` is below 2 ^ 32 and
-- an `unsigned long long` below 2 ^ 64, so that the test of `sizeof` at the start of rand is passed.
pub mod Carry
mod Tests
use Prim.Native.Nat.{bit_xor}
use os_fall.Base.{ℕ, zero, suc, ◌+◌, ◌-◌, ◌*◌, ◌/◌, ◌%◌, ◌^◌, ltb, if◌then◌else◌, add32, sub32}
use os_fall.Str.{Bytes, store}

-- PHI
abbrev pub phi : ℕ
phi = 0x9e3779b9

-- `Q`, `c` and the static `i` of rand.
pub record Generator : Type 0 where
  pub state : ℕ → ℕ
  pub carry : ℕ
  pub index : ℕ

-- The loop of srand, from the entry `i`.
pub fill : ℕ → ℕ → (ℕ → ℕ) → ℕ → ℕ
fill zero i q = q
fill (suc n) i q =
    fill n (i + 1) (store q i (bit_xor (bit_xor (bit_xor (q (i - 3)) (q (i - 2))) phi) i))

-- The first three entries that srand sets.
abbrev pub seed : ℕ → (ℕ → ℕ) → ℕ → ℕ
seed x q = store (store (store q 0 x) 1 (add32 x phi)) 2 (add32 (add32 x phi) phi)

-- srand leaves the carry and the index.
pub srand : ℕ → Generator → Generator
unfolding fill
srand x g = record g { state = fill 4093 3 (seed x g.state) }

-- `t`
abbrev pub product : ℕ → ℕ → ℕ
product q c = (18782 * q + c) % 2 ^ 64

abbrev pub high : ℕ → ℕ
high t = t / 2 ^ 32 % 2 ^ 32

-- `x = t + c`, with `c` the high half of `t`.
abbrev pub folded : ℕ → ℕ
folded t = (t + high t) % 2 ^ 64 % 2 ^ 32

-- `x` and `c` behind the `if`.
abbrev pub next_digit : ℕ → ℕ
next_digit t = if ltb (folded t) (high t) then add32 (folded t) 1 else folded t

abbrev pub next_carry : ℕ → ℕ
next_carry t = if ltb (folded t) (high t) then add32 (high t) 1 else high t

abbrev pub next_index : Generator → ℕ
next_index g = add32 g.index 1 % 4096

pub rand : Generator → ℕ × Generator
rand g =
    let i = next_index g in
    let t = product (g.state i) g.carry in
    let r = sub32 0xfffffffe (next_digit t) in
    (r, record { state = store g.state i r; carry = next_carry t; index = i })

-- ===== src/Str/Copy.antt =====
-- What strncpy and safestrcpy leave in the array `s`, measured by `strlen` of the source.
use os_fall.Base.{ℕ, zero, suc, ◌+◌, ◌≤◌, ◌<◌, ◌≡◌, ◌⊎◌, ◌&&◌, leb, ltb, if◌then◌else◌, arith, inr}
use os_fall.Str.{
  Bytes, store, strlen_from, strlen, safestrcpy_from, safestrcpy, zero_fill, strncpy_from, strncpy,
}

strlen_from_bounds : (t : Bytes) (i n : ℕ) → (i ≤ strlen_from t i n) × (strlen_from t i n ≤ i + n)
unfolding strlen_from
strlen_from_bounds t i zero = omega arith
strlen_from_bounds t i (suc n) = ground (arith, strlen_from_bounds t (i + 1) n)

-- The count is the offset of the first NUL, or the end of the range.
pub strlen_from_lem : (t : Bytes) (i n x : ℕ) → i ≤ x → x < strlen_from t i n → 0 < t x
unfolding strlen_from
strlen_from_lem t i zero x h k = absurd (omega arith)
strlen_from_lem t i (suc n) x h k = ground (arith, strlen_from_lem t (i + 1) n x, next)
  where
    next : i ≡ x → t i ≡ t x
    next e = cc

safestrcpy_from-outside :
    (s t : Bytes) (i m x : ℕ) → (x < i) ⊎ (i + m < x) → safestrcpy_from s t i m x ≡ s x
unfolding safestrcpy_from
safestrcpy_from-outside s t i zero x h = ground arith
safestrcpy_from-outside s t i (suc m) x h =
    ground (arith, safestrcpy_from-outside (store s i (t i)) t (i + 1) m x)

safestrcpy_from-inside :
    (s t : Bytes) (i m x : ℕ) → i ≤ x → x < strlen_from t i m → safestrcpy_from s t i m x ≡ t x
unfolding safestrcpy_from strlen_from
safestrcpy_from-inside s t i zero x h k = absurd (omega arith)
safestrcpy_from-inside s t i (suc m) x h k = ground (
  arith,
  safestrcpy_from-inside (store s i (t i)) t (i + 1) m x,
  safestrcpy_from-outside (store s i (t i)) t (i + 1) m x,
  same,
)
  where
    same : i ≡ x → t i ≡ t x
    same e = cc

safestrcpy_from-end : (s t : Bytes) (i m : ℕ) → safestrcpy_from s t i m (strlen_from t i m) ≡ 0
unfolding safestrcpy_from strlen_from
safestrcpy_from-end s t i zero = ground arith
safestrcpy_from-end s t i (suc m) =
    ground (arith, safestrcpy_from-end (store s i (t i)) t (i + 1) m)

-- With room for at least one byte, safestrcpy copies the source up to its NUL or up to the first
-- n - 1 bytes, ends what it copied with a NUL inside the n bytes, and touches nothing behind them.
pub safestrcpy-terminates :
    (s t : Bytes) (m : ℕ)
    → (strlen t m < suc m)
      × (safestrcpy s t (suc m) (strlen t m) ≡ 0)
      × ((x : ℕ) → x < strlen t m → safestrcpy s t (suc m) x ≡ t x)
      × ((x : ℕ) → m < x → safestrcpy s t (suc m) x ≡ s x)
unfolding safestrcpy strlen
safestrcpy-terminates s t m = (
  omega (arith, strlen_from_bounds t 0 m),
  safestrcpy_from-end s t 0 m,
  λ x h. safestrcpy_from-inside s t 0 m x (omega arith) h,
  λ x h. safestrcpy_from-outside s t 0 m x (inr (omega arith)),
)

zero_fill_lem :
    (s : Bytes) (i n x : ℕ) → zero_fill s i n x ≡ (if leb i x && ltb x (i + n) then 0 else s x)
unfolding zero_fill
zero_fill_lem s i zero x = ground arith
zero_fill_lem s i (suc n) x = ground (arith, zero_fill_lem (store s i 0) (i + 1) n x)

strncpy_from_lem :
    (s t : Bytes) (i n x : ℕ)
    → strncpy_from s t i n x
      ≡ (if leb i x && ltb x (i + n) then (if ltb x (strlen_from t i n) then t x else 0) else s x)
unfolding strncpy_from strlen_from
strncpy_from_lem s t i zero x = ground arith
strncpy_from_lem s t i (suc n) x = ground (
  arith,
  strncpy_from_lem (store s i (t i)) t (i + 1) n x,
  zero_fill_lem (store s i (t i)) (i + 1) n x,
  strlen_from_bounds t (i + 1) n,
  same,
)
  where
    same : i ≡ x → t i ≡ t x
    same e = cc

-- strncpy writes exactly the n bytes from offset 0: the source's text, then zeroes.
pub strncpy_lem :
    (s t : Bytes) (n x : ℕ)
    → strncpy s t n x ≡ (if ltb x n then (if ltb x (strlen t n) then t x else 0) else s x)
unfolding strncpy strlen
strncpy_lem s t n x = ground (arith, strncpy_from_lem s t 0 n x)

-- ===== src/Fcheck/Bits.antt =====
-- CHECKBIT, setbit and unsetbit of fcheck.c.
use Prim.Native.Nat.{bit_and, bit_or}
use os_fall.Base.{
  ℕ, zero, suc, ◌-◌, ◌/◌, ◌%◌, ◌^◌, ◌<◌, ◌≡◌, refl, sym, ◌≢◌, inl, inr, Bool, true, false, not,
  ◌&&◌, ◌||◌, arith, ltb, ◌==◌, ltb→lt, ==_iff, Bool-cases,
}
use os_fall.Str.{Bytes, store}
use os_fall.Str.Compare.{AreBytes}

-- CHECKBIT. The bytes of `bitarr` and of the bitmap are `char`s: with the sign bit copied upwards in
-- both, the conjunction is zero exactly when that of the low bytes is.
unfoldable pub checkbit : Bytes → ℕ → Bool
checkbit m n = not (bit_and (m (n / 8)) (2 ^ (n % 8)) == 0)

unfoldable pub setbit : Bytes → ℕ → Bytes
setbit m n = store m (n / 8) (bit_or (m (n / 8)) (2 ^ (n % 8)))

unfoldable pub unsetbit : Bytes → ℕ → Bytes
unsetbit m n = store m (n / 8) (bit_and (m (n / 8)) (255 - 2 ^ (n % 8)))

and-left : (b c : Bool) → b && c ≡ true → b ≡ true
and-left b c h = ground arith

and-right : (b c : Bool) → b && c ≡ true → c ≡ true
and-right b c h = ground arith

-- The first `n` numbers pass a test.
first_pass : (ℕ → Bool) → ℕ → Bool
first_pass test zero = true
first_pass test (suc n) = first_pass test n && test n

first_pass-elim :
    (test : ℕ → Bool) (n : ℕ) → first_pass test n ≡ true → (i : ℕ) → i < n → test i ≡ true
unfolding first_pass
first_pass-elim test zero h i below = absurd (omega arith)
first_pass-elim test (suc n) h i below = elim (Bool-cases (i == n)) [
  | inl e ↦ rw ((==_iff i n).0 e, and-right (first_pass test n) (test n) h)
  | inr d ↦ first_pass-elim test n (and-left (first_pass test n) (test n) h) i (ground arith)
]

-- Bit `j` of a byte.
abbrev bit : ℕ → ℕ → Bool
bit b j = not (bit_and b (2 ^ j) == 0)

abbrev same : Bool → Bool → Bool
same true c = c
same false c = not c

same-eq : (b c : Bool) → same b c ≡ true → b ≡ c
same-eq b c h = ground arith

table : (ℕ → ℕ → ℕ → Bool) → Bool
table p = first_pass (λ b. first_pass (λ i. first_pass (λ j. p b i j) 8) 8) 256

table_sound :
    (p : ℕ → ℕ → ℕ → Bool) (b i j : ℕ) → table p ≡ true → b < 256 → i < 8 → j < 8 → p b i j ≡ true
unfolding table
table_sound p b i j h hb hi hj =
    first_pass-elim _ 8 (first_pass-elim _ 8 (first_pass-elim _ 256 h b hb) i hi) j hj

set_table :
    table
      (λ b i j. same (bit (bit_or b (2 ^ i)) j) (i == j || bit b j) && ltb (bit_or b (2 ^ i)) 256)
    ≡ true
unfolding table first_pass
set_table = refl

unset_table :
    table (λ b i j.
      same (bit (bit_and b (255 - 2 ^ i)) j) (not (i == j) && bit b j)
      && ltb (bit_and b (255 - 2 ^ i)) 256)
    ≡ true
unfolding table first_pass
unset_table = refl

set_bit :
    (b i j : ℕ)
    → b < 256
    → i < 8
    → j < 8
    → (bit (bit_or b (2 ^ i)) j ≡ (i == j || bit b j)) × (bit_or b (2 ^ i) < 256)
set_bit b i j hb hi hj =
    let h =
      table_sound
        (λ b i j. same (bit (bit_or b (2 ^ i)) j) (i == j || bit b j) && ltb (bit_or b (2 ^ i)) 256)
        b i j set_table hb hi hj in
    (same-eq _ _ (and-left _ _ h), ltb→lt _ _ (and-right _ _ h))

unset_bit :
    (b i j : ℕ)
    → b < 256
    → i < 8
    → j < 8
    → (bit (bit_and b (255 - 2 ^ i)) j ≡ (not (i == j) && bit b j))
      × (bit_and b (255 - 2 ^ i) < 256)
unset_bit b i j hb hi hj =
    let h =
      table_sound
        (λ b i j.
          same (bit (bit_and b (255 - 2 ^ i)) j) (not (i == j) && bit b j)
          && ltb (bit_and b (255 - 2 ^ i)) 256)
        b i j unset_table hb hi hj in
    (same-eq _ _ (and-left _ _ h), ltb→lt _ _ (and-right _ _ h))

same_byte : (n k : ℕ) → n / 8 ≡ k / 8 → (n % 8 == k % 8) ≡ (n == k)
same_byte n k h = ground arith

other_byte : (n k : ℕ) → n / 8 ≢ k / 8 → (n == k) ≡ false
other_byte n k h = ground arith

module _ (m : Bytes) (bytes : AreBytes m) (n : ℕ) where
  -- setbit sets bit n and no other bit of the map.
  pub checkbit-setbit : (k : ℕ) → checkbit (setbit m n) k ≡ (n == k || checkbit m k)
  unfolding checkbit setbit
  checkbit-setbit k = elim (Bool-cases (k / 8 == n / 8)) [
    | inl e ↦
        let q : k / 8 ≡ n / 8 = (==_iff _ _).0 e in
        rw (
          e,
          q,
          (set_bit (m (n / 8)) (n % 8) (k % 8) (bytes _) (omega arith) (omega arith)).0,
          same_byte n k (sym q),
        )
    | inr d ↦ rw (d, other_byte n k (ground arith))
  ]

  -- unsetbit clears bit n and no other bit of the map.
  pub checkbit-unsetbit : (k : ℕ) → checkbit (unsetbit m n) k ≡ (not (n == k) && checkbit m k)
  unfolding checkbit unsetbit
  checkbit-unsetbit k = elim (Bool-cases (k / 8 == n / 8)) [
    | inl e ↦
        let q : k / 8 ≡ n / 8 = (==_iff _ _).0 e in
        rw (
          e,
          q,
          (unset_bit (m (n / 8)) (n % 8) (k % 8) (bytes _) (omega arith) (omega arith)).0,
          same_byte n k (sym q),
        )
    | inr d ↦ rw (d, other_byte n k (ground arith))
  ]

  pub setbit-AreBytes : AreBytes (setbit m n)
  unfolding setbit
  setbit-AreBytes x =
      ground
        (arith, bytes x, (set_bit (m (n / 8)) (n % 8) 0 (bytes _) (omega arith) (omega arith)).1)

  pub unsetbit-AreBytes : AreBytes (unsetbit m n)
  unfolding unsetbit
  unsetbit-AreBytes x =
      ground
        (arith, bytes x, (unset_bit (m (n / 8)) (n % 8) 0 (bytes _) (omega arith) (omega arith)).1)

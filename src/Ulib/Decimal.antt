-- ===== src/Ulib/Decimal.antt =====
-- printint in base 10 against atoi, and the room in its buffer.
use os_fall.Base.{
  ℕ, zero, suc, ◌+◌, ◌*◌, ◌/◌, ◌%◌, ◌≤◌, ◌<◌, ◌≡◌, refl, ◌∙◌, inl, inr, Bool, true, false, some,
  List, [], ◌∷◌, arith, ◌==◌, if◌then◌else◌, Bool-cases, length, word_size, sub32, slt,
}
use os_fall.Ulib.{is_digit, push_digit, atoi_from, atoi, digit, emit, is_negative, printint}

-- 10 ^ k
abbrev limit : ℕ → ℕ
limit zero = 1
limit (suc k) = 10 * limit k

-- With a base that divides faster than 10, a number below 10 ^ k needs at most k places.
emit_total :
    (base : ℕ) (tenth : (y : ℕ) → y / base ≤ y / 10) (k room x : ℕ) (out : List ℕ)
    → 0 < k
    → k ≤ room
    → x < limit k
    → (r : List ℕ) × (emit room base x out ≡ some r) × (length r ≤ k + length out)
unfolding emit
emit_total base tenth zero room x out p q h = absurd (omega arith)
emit_total base tenth (suc k) zero x out p q h = absurd (omega arith)
emit_total base tenth (suc zero) (suc room) x out p q h =
    let last : (x / base == 0) ≡ true = ground (arith, tenth x) in
    (digit (x % base) ∷ out, rw last refl, omega arith)
emit_total base tenth (suc (suc k)) (suc room) x out p q h = elim (Bool-cases (x / base == 0)) [
  | inl e ↦ (digit (x % base) ∷ out, rw e refl, omega arith)
  | inr e ↦
      let (r, runs, short) =
        emit_total base tenth (suc k) room (x / base) (digit (x % base) ∷ out) (omega arith)
          (omega arith) (omega (arith, tenth x)) in
      (r, rw e runs, omega (arith, short))
]

-- Reading back what the loop prints gives the number.
emit-atoi_from :
    (room x : ℕ) (out r : List ℕ)
    → x < word_size
    → emit room 10 x out ≡ some r
    → atoi_from r 0 ≡ atoi_from out x
unfolding emit atoi_from
emit-atoi_from zero x out r w h = cc
emit-atoi_from (suc room) x out r w h = elim (Bool-cases (x / 10 == 0)) [
  | inl e ↦
      let only : digit (x % 10) ∷ out ≡ r = ground arith in
      let value : push_digit 0 (digit (x % 10)) ≡ x = ground arith in
      let here : is_digit (digit (x % 10)) ≡ true = ground arith in rw (← only, here, value) refl
  | inr e ↦
      let more : emit room 10 (x / 10) (digit (x % 10) ∷ out) ≡ some r = ground arith in
      let value : push_digit (x / 10) (digit (x % 10)) ≡ x = ground arith in
      let here : is_digit (digit (x % 10)) ≡ true = ground arith in
      emit-atoi_from room (x / 10) (digit (x % 10) ∷ out) r (omega arith) more
      ∙ rw (here, value) refl
]

-- The `uint` that printint prints.
abbrev magnitude : ℕ → Bool → ℕ
magnitude xx sgn = if is_negative sgn xx then sub32 0 xx else xx

printint-emit :
    (xx base : ℕ) (sgn : Bool) (r : List ℕ)
    → emit 16 base (magnitude xx sgn) [] ≡ some r
    → length r ≤ 10
    → printint xx base sgn ≡ some (if is_negative sgn xx then b'-' ∷ r else r)
unfolding printint
printint-emit xx base sgn r runs short =
    let fits : (length r == 16) ≡ false = ground (arith, short) in
    elim (Bool-cases (is_negative sgn xx)) [
      | inl e ↦ rw (runs, e, fits) refl
      | inr e ↦ rw (runs, e) refl
    ]

magnitude-lt-word_size : (xx : ℕ) (sgn : Bool) → xx < word_size → magnitude xx sgn < word_size
magnitude-lt-word_size xx sgn w = elim (Bool-cases (is_negative sgn xx)) [
  | inl e ↦ rw e (omega arith)
  | inr e ↦ rw e w
]

-- Every number has at most ten digits, so that the loop leaves room for the sign.
printint_total :
    (base : ℕ) (tenth : (y : ℕ) → y / base ≤ y / 10) (xx : ℕ) (sgn : Bool)
    → xx < word_size
    → (r : List ℕ) × (emit 16 base (magnitude xx sgn) [] ≡ some r)
      × (printint xx base sgn ≡ some (if is_negative sgn xx then b'-' ∷ r else r))
printint_total base tenth xx sgn w =
    let small = magnitude-lt-word_size xx sgn w in
    let (r, runs, short) =
      emit_total base tenth 10 16 (magnitude xx sgn) [] (omega arith) (omega arith)
        (omega (arith, small)) in
    (r, runs, printint-emit xx base sgn r runs short)

pub printint_fits :
    (base : ℕ) (tenth : (y : ℕ) → y / base ≤ y / 10) (xx : ℕ) (sgn : Bool)
    → xx < word_size
    → (r : List ℕ) × (printint xx base sgn ≡ some r)
printint_fits base tenth xx sgn w =
    let (r, runs, prints) = printint_total base tenth xx sgn w in
    (if is_negative sgn xx then b'-' ∷ r else r, prints)

-- What "%d" prints of a word, atoi reads back if the word is not negative as an `int`; of a negative
-- one it reads 0.
pub printint-atoi :
    (xx : ℕ)
    → xx < word_size
    → (r : List ℕ) × (printint xx 10 true ≡ some r) × (atoi r ≡ (if slt xx 0 then 0 else xx))
unfolding atoi atoi_from
printint-atoi xx w =
    let (r, runs, prints) = printint_total 10 (λ y. omega arith) xx true w in
    let back = emit-atoi_from 16 (magnitude xx true) [] r (magnitude-lt-word_size xx true w) runs in
    elim (Bool-cases (slt xx 0)) [
      | inl e ↦ (b'-' ∷ r, prints ∙ rw e refl, rw e refl)
      | inr e ↦ (r, prints ∙ rw e refl, back ∙ rw e refl)
    ]

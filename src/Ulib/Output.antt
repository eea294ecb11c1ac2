-- ===== src/Ulib/Output.antt =====
-- When printf ends.
use mathlib.Core.Option
use os_fall.Base.{
  ℕ, ◌+◌, ◌%◌, ◌<◌, ◌≡◌, refl, ap, ◌↔◌, inl, inr, Bool, true, false, ◌||◌, Option, some, List, [],
  ◌∷◌, ◌++◌, arith, ◌==◌, if◌then◌else◌, Bool-cases, Option-cases, word_size,
}
use os_fall.Ulib.{string_at, taken, print_then, convert, printf_from, printf}
use os_fall.Ulib.Decimal.{printint_fits}
use os_fall.Ulib.Strings.{IsString, string_at-total, string_at-IsString}

-- A conversion other than "%s" that takes an argument.
abbrev pub takes_number : ℕ → Bool
takes_number c = c == b'd' || c == b'x' || c == b'p' || c == b'c'

-- The places of the arguments that a format prints as strings. In `percent` a conversion is next.
unfoldable pub string_args : List ℕ → ℕ → Bool → List ℕ
string_args [] next percent = []
string_args (c ∷ fmt) next false = string_args fmt next (c == b'%')
string_args (c ∷ fmt) next true =
    if c == b's'
    then next ∷ string_args fmt (next + 1) false
    else string_args fmt (if takes_number c then next + 1 else next) false

-- Each of these arguments is a null pointer or points to a string that ends.
abbrev pub AreStrings : (ℕ → ℕ) → (ℕ → ℕ) → List ℕ → Type 0
AreStrings mem args [] = Unit
AreStrings mem args (i ∷ is) = IsString mem (args i) × AreStrings mem args is

convert-plain :
    (mem : ℕ → ℕ) (c a : ℕ)
    → a < word_size
    → (c == b's') ≡ false
    → (out : List ℕ) × (convert mem c a ≡ some (out, takes_number c))
unfolding convert
convert-plain mem c a w g = elim (Bool-cases (c == b'd')) [
  | inl e ↦
      let (r, runs) = printint_fits 10 (λ y. omega arith) a true w in
      (r, rw (e, runs) (ap some (ap (λ t. (r, t)) (ground (arith, e)))))
  | inr e ↦ elim (Bool-cases (c == b'x' || c == b'p')) [
    | inl f ↦
        let (r, runs) = printint_fits 16 (λ y. omega arith) a false w in
        (r, rw (e, f, runs) (ap some (ap (λ t. (r, t)) (ground (arith, f)))))
    | inr f ↦ elim (Bool-cases (c == b'c')) [
      | inl h ↦ (
        a % 256 ∷ [],
        rw (e, f, g, h) (ap some (ap (λ t. (a % 256 ∷ [], t)) (ground (arith, h)))),
      )
      | inr h ↦
          let number : takes_number c ≡ false = ground (arith, e, f, h) in
          elim (Bool-cases (c == b'%')) [
            | inl i ↦ (
              c ∷ [],
              rw (e, f, g, h, i) (ap some (ap (λ t. (c ∷ [], t)) (ground (arith, e, f, h)))),
            )
            | inr i ↦ (
              b'%' ∷ c ∷ [],
              rw (e, f, g, h, i) (ap some (ap (λ t. (b'%' ∷ c ∷ [], t)) (ground (arith, e, f, h)))),
            )
          ]
    ]
  ]
]

convert-string :
    (mem : ℕ → ℕ) (c a : ℕ)
    → (c == b's') ≡ true
    → convert mem c a ≡ Option.map taken (string_at mem a)
unfolding convert
convert-string mem c a g =
    let e : (c == b'd') ≡ false = ground (arith, g) in
    let f : (c == b'x' || c == b'p') ≡ false = ground (arith, g) in rw (e, f, g) refl

module _ (mem args : ℕ → ℕ) (words : (i : ℕ) → args i < word_size) where
  abbrev Prints : List ℕ → ℕ → Bool → Type 0
  Prints fmt next percent = (out : List ℕ) × (printf_from mem args fmt next percent ≡ some out)

  -- The rest of the format behind what a conversion has printed.
  print_then-some :
      (out : List ℕ) (takes : Bool) (rest : Bool → Option (List ℕ)) (all : List ℕ)
      → print_then (some (out, takes)) rest ≡ some all
      → (more : List ℕ) × (rest takes ≡ some more)
  print_then-some out takes rest all h = elim (Option-cases (rest takes)) [
    | inl e ↦ absurd (let q = rw e at h in cc)
    | inr found ↦ found
  ]

  printf_from-total :
      (fmt : List ℕ) (next : ℕ) (percent : Bool)
      → AreStrings mem args (string_args fmt next percent)
      → Prints fmt next percent
  unfolding printf_from string_args
  printf_from-total [] next percent h = ([], refl)
  printf_from-total (c ∷ fmt) next false h = elim (Bool-cases (c == b'%')) [
    | inl e ↦ let (out, runs) = printf_from-total fmt next true (rw e at h) in (out, rw e runs)
    | inr e ↦
        let (out, runs) = printf_from-total fmt next false (rw e at h) in
        (c ∷ out, rw (e, runs) refl)
  ]
  printf_from-total (c ∷ fmt) next true h = elim (Bool-cases (c == b's')) [
    | inl e ↦
        let (first, others) = rw e at h in
        let (out, there) = string_at-total mem (args next) (words next) first in
        let (more, runs) = printf_from-total fmt (next + 1) false others in
        (out ++ more, rw (convert-string mem c (args next) e, there, runs) refl)
    | inr e ↦
        let (out, converts) = convert-plain mem c (args next) (words next) e in
        let (more, runs) =
          printf_from-total fmt (if takes_number c then next + 1 else next) false (rw e at h) in
        (out ++ more, rw (converts, runs) refl)
  ]

  printf_from-AreStrings :
      (fmt : List ℕ) (next : ℕ) (percent : Bool)
      → Prints fmt next percent
      → AreStrings mem args (string_args fmt next percent)
  unfolding printf_from string_args
  printf_from-AreStrings [] next percent h = tt
  printf_from-AreStrings (c ∷ fmt) next false (all, h) = elim (Bool-cases (c == b'%')) [
    | inl e ↦ rw e (printf_from-AreStrings fmt next true (all, rw e at h))
    | inr e ↦ elim (Option-cases (printf_from mem args fmt next false)) [
      | inl f ↦ absurd (let q = rw (e, f) at h in cc)
      | inr found ↦ rw e (printf_from-AreStrings fmt next false found)
    ]
  ]
  printf_from-AreStrings (c ∷ fmt) next true (all, h) = elim (Bool-cases (c == b's')) [
    | inl e ↦ elim (Option-cases (string_at mem (args next))) [
      | inl f ↦ absurd (let q = rw (convert-string mem c (args next) e, f) at h in cc)
      | inr (out, f) ↦
          let found =
            print_then-some out true
              (λ takes. printf_from mem args fmt (if takes then next + 1 else next) false) all
              (rw (convert-string mem c (args next) e, f) at h) in
          rw e (
            string_at-IsString mem (args next) out (words next) f,
            printf_from-AreStrings fmt (next + 1) false found,
          )
    ]
    | inr e ↦
        let (out, converts) = convert-plain mem c (args next) (words next) e in
        let found =
          print_then-some out (takes_number c)
            (λ takes. printf_from mem args fmt (if takes then next + 1 else next) false) all
            (rw converts at h) in
        rw e (printf_from-AreStrings fmt (if takes_number c then next + 1 else next) false found)
  ]

  -- Whatever the words of the arguments, printf ends, without writing behind the buffer of printint,
  -- exactly if each argument that the format prints with "%s" is a null pointer or an address from
  -- which on there is a NUL.
  pub printf_total :
      (fmt : List ℕ)
      → ((out : List ℕ) × (printf mem args fmt ≡ some out))
        ↔ AreStrings mem args (string_args fmt 0 false)
  unfolding printf
  printf_total fmt =
      (λ runs. printf_from-AreStrings fmt 0 false runs, λ h. printf_from-total fmt 0 false h)

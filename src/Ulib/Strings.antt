-- ===== src/Ulib/Strings.antt =====
-- The strings that "%s" prints.
use os_fall.Base.{
  ℕ, zero, suc, ◌+◌, ◌-◌, ◌%◌, ◌^◌, ◌<◌, ◌≡◌, refl, sym, ap, ◌∙◌, ◌≢◌, ◌⊎◌, inl, inr, true, some,
  List, [], ◌∷◌, arith, ◌==◌, ==_iff, Bool-cases, Option-cases, word_size, add32,
}
use os_fall.Ulib.{addresses, print_string, string_at, null_text}

-- From the address on there is a NUL, with addresses that wrap.
abbrev pub Ends : (ℕ → ℕ) → ℕ → Type 0
Ends mem s = (n : ℕ) × (n < addresses) × (mem ((s + n) % 2 ^ 32) ≡ 0)

print_string-total :
    (room : ℕ) (mem : ℕ → ℕ) (s n : ℕ)
    → s < 2 ^ 32
    → n < room
    → mem ((s + n) % 2 ^ 32) ≡ 0
    → (out : List ℕ) × (print_string room mem s ≡ some out)
unfolding print_string
print_string-total zero mem s n w lt z = absurd (omega (arith, lt))
print_string-total (suc room) mem s n w lt z = elim (Bool-cases (mem s == 0)) [
  | inl e ↦ ([], rw e refl)
  | inr e ↦
      let later : n ≢ 0 = λ q.
        let at : (s + n) % 2 ^ 32 ≡ s = omega (arith, q) in
        let here : mem s ≡ 0 = ap mem (sym at) ∙ z in ground (arith, here, e) in
      let next : (add32 s 1 + (n - 1)) % 2 ^ 32 ≡ (s + n) % 2 ^ 32 = omega (arith, later) in
      let (out, runs) =
        print_string-total room mem (add32 s 1) (n - 1) (omega arith) (omega (arith, lt, later))
          (ap mem next ∙ z) in
      (mem s ∷ out, rw (e, runs) refl)
]

print_string_ends :
    (room : ℕ) (mem : ℕ → ℕ) (s : ℕ) (out : List ℕ)
    → s < 2 ^ 32
    → print_string room mem s ≡ some out
    → (n : ℕ) × (n < room) × (mem ((s + n) % 2 ^ 32) ≡ 0)
unfolding print_string
print_string_ends zero mem s out w h = absurd (let q = h in cc)
print_string_ends (suc room) mem s out w h = elim (Bool-cases (mem s == 0)) [
  | inl e ↦
      let at : (s + 0) % 2 ^ 32 ≡ s = omega arith in
      (0, omega arith, ap mem at ∙ (==_iff (mem s) 0).0 e)
  | inr e ↦ elim (Option-cases (print_string room mem (add32 s 1))) [
    | inl f ↦ absurd (let q = rw (e, f) at h in cc)
    | inr (more, f) ↦
        let (n, lt, z) = print_string_ends room mem (add32 s 1) more (omega arith) f in
        let next : (s + suc n) % 2 ^ 32 ≡ (add32 s 1 + n) % 2 ^ 32 = omega arith in
        (suc n, omega (arith, lt), ap mem next ∙ z)
  ]
]

-- A null pointer, or a string that ends.
abbrev pub IsString : (ℕ → ℕ) → ℕ → Type 0
IsString mem a = (a ≡ 0) ⊎ Ends mem a

pub string_at-total :
    (mem : ℕ → ℕ) (a : ℕ)
    → a < word_size
    → IsString mem a
    → (out : List ℕ) × (string_at mem a ≡ some out)
unfolding string_at
string_at-total mem a w (inl z) =
    let null : (a == 0) ≡ true = (==_iff a 0).1 z in (null_text, rw null refl)
string_at-total mem a w (inr (n, lt, z)) = elim (Bool-cases (a == 0)) [
  | inl e ↦ (null_text, rw e refl)
  | inr e ↦
      let (out, runs) = print_string-total addresses mem a n (omega (arith, w)) lt z in
      (out, rw (e, runs) refl)
]

pub string_at-IsString :
    (mem : ℕ → ℕ) (a : ℕ) (out : List ℕ)
    → a < word_size
    → string_at mem a ≡ some out
    → IsString mem a
unfolding string_at
string_at-IsString mem a out w h = elim (Bool-cases (a == 0)) [
  | inl e ↦ inl ((==_iff a 0).0 e)
  | inr e ↦ inr (print_string_ends addresses mem a out (omega (arith, w)) (rw e at h))
]

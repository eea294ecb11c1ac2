-- ===== src/Ulib/Tests.antt =====
-- printf("x=%d%%\n", -42), and the theorems at such words.
use os_fall.Base.{
  ℕ, ◌-◌, ◌^◌, ◌≡◌, refl, ◌↔◌, inr, true, false, some, List, [], ◌∷◌, arith, ◌==◌, if◌then◌else◌,
}
use os_fall.Ulib.{
  print_string, string_at, atoi, atoi_from, emit, printint, convert, printf_from, printf,
}
use os_fall.Ulib.Decimal.{printint-atoi}
use os_fall.Ulib.Output.{AreStrings, string_args, printf_total}

abbrev format : List ℕ
format = b'x' ∷ b'=' ∷ b'%' ∷ b'd' ∷ b'%' ∷ b'%' ∷ []

abbrev words : ℕ → ℕ
words _ = 2 ^ 32 - 42

-- "hi" stands at the address 100.
abbrev memory : ℕ → ℕ
memory a = if a == 100 then b'h' else if a == 101 then b'i' else 0

prints_negative : printf memory words format ≡ some (b'x' ∷ b'=' ∷ b'-' ∷ b'4' ∷ b'2' ∷ b'%' ∷ [])
unfolding printf printf_from convert printint emit
prints_negative = refl

-- printf("%s!", s)
abbrev greeting : List ℕ
greeting = b'%' ∷ b's' ∷ b'!' ∷ []

abbrev pointers : ℕ → ℕ
pointers _ = 100

prints_string : printf memory pointers greeting ≡ some (b'h' ∷ b'i' ∷ b'!' ∷ [])
unfolding printf printf_from convert string_at print_string
prints_string = refl

reads_up_to_letter : atoi (b'4' ∷ b'2' ∷ b'x' ∷ b'7' ∷ []) ≡ 42
unfolding atoi atoi_from
reads_up_to_letter = refl

printint-atoi_example :
    (r : List ℕ) × (printint 2147483647 10 true ≡ some r) × (atoi r ≡ 2147483647)
printint-atoi_example = printint-atoi 2147483647 (omega arith)

printf_total_example :
    ((out : List ℕ) × (printf memory pointers greeting ≡ some out))
    ↔ AreStrings memory pointers (string_args greeting 0 false)
printf_total_example = printf_total memory pointers (λ i. omega arith) greeting

-- Both hold: the string ends two bytes on.
greeting-AreStrings : AreStrings memory pointers (string_args greeting 0 false)
unfolding string_args
greeting-AreStrings = (inr (2, omega arith, refl), tt)

-- ===== src/Ulib.antt =====
-- xv62/xv6/user/printf.c, and atoi of xv62/xv6/user/ulib.c. A C string is the list of its bytes up to
-- the NUL, but for those that "%s" prints, which stand in the memory; and what is printed is the list of
-- the bytes that putc writes.
pub mod Decimal
pub mod Strings
pub mod Output
mod Tests
use mathlib.Core.Option
use os_fall.Base.{
  ℕ, zero, suc, ◌+◌, ◌-◌, ◌*◌, ◌/◌, ◌%◌, ◌^◌, ◌≤◌, ◌<◌, min, ◌≡◌, refl, sym, ap, ◌∙◌, ◌≢◌, ◌↔◌, ◌⊎◌,
  inl, inr, Bool, true, false, not, ◌&&◌, ◌||◌, Option, none, some, List, [], ◌∷◌, ◌++◌, map, arith,
  ltb, leb, ◌==◌, if◌then◌else◌, ltb→lt, leb→le, ==_iff, Bool-cases, Option-cases, length,
  get_elem?, get_or, set, take, replicate, modify, find_index, length-append, find_index_lem,
  length-set, length-modify, modify-modify, get_elem?-set_self, get_elem?-set_ne,
  get_elem?-modify_self, get_elem?-modify_ne, get_elem?-lt, length-replicate, word_size, add32,
  sub32, slt, slt-ltb, add32-sub32,
}

-- `'0' <= *s && *s <= '9'`
abbrev pub is_digit : ℕ → Bool
is_digit c = leb b'0' c && leb c b'9'

-- `n*10 + *s++ - '0'`
abbrev pub push_digit : ℕ → ℕ → ℕ
push_digit n c = sub32 (add32 (n * 10 % 2 ^ 32) c) b'0'

-- The loop of atoi.
pub atoi_from : List ℕ → ℕ → ℕ
atoi_from [] n = n
atoi_from (c ∷ s) n = let rest = atoi_from s (push_digit n c) in if is_digit c then rest else n

pub atoi : List ℕ → ℕ
unfolding atoi_from
atoi s = atoi_from s 0

-- `digits[d]`
abbrev pub digit : ℕ → ℕ
digit d = if ltb d 10 then b'0' + d else b'A' + (d - 10)

abbrev pub buf_size : ℕ
buf_size = 16

-- The `do` loop of printint with `room` bytes left in `buf`, and `none` where it would write behind
-- them. `out` holds the bytes in the order in which the last loop prints them.
pub emit : ℕ → ℕ → ℕ → List ℕ → Option (List ℕ)
emit zero base x out = none
emit (suc room) base x out =
    let rest = emit room base (x / base) (digit (x % base) ∷ out) in
    if x / base == 0 then some (digit (x % base) ∷ out) else rest

-- `sgn && xx < 0`
abbrev pub is_negative : Bool → ℕ → Bool
is_negative sgn xx = sgn && slt xx 0

-- `buf[i++] = '-'`
abbrev pub sign : Bool → List ℕ → Option (List ℕ)
sign neg out =
    if neg then (if length out == buf_size then none else some (b'-' ∷ out)) else some out

abbrev pub add_sign : Bool → Option (List ℕ) → Option (List ℕ)
add_sign neg none = none
add_sign neg (some out) = sign neg out

pub printint : ℕ → ℕ → Bool → Option (List ℕ)
unfolding emit
printint xx base sgn =
    let neg = is_negative sgn xx in
    add_sign neg (emit buf_size base (if neg then sub32 0 xx else xx) [])

-- What a conversion prints of the argument `a`, and whether it takes the argument. A string at
-- address 0 prints as "(null)".
abbrev pub null_text : List ℕ
null_text = b'(' ∷ b'n' ∷ b'u' ∷ b'l' ∷ b'l' ∷ b')' ∷ []

-- `while(*s != 0){ putc(fd, *s); s++; }` in a memory from addresses to bytes. After a round for each
-- address the loop comes back to where it began, and never ends: `none`.
abbrev pub addresses : ℕ
addresses = 2 ^ 32

pub print_string : ℕ → (ℕ → ℕ) → ℕ → Option (List ℕ)
print_string zero mem s = none
print_string (suc room) mem s =
    let rest = print_string room mem (add32 s 1) in
    if mem s == 0 then some [] else Option.map (◌∷◌ (mem s)) rest

-- The branch of "%s".
pub string_at : (ℕ → ℕ) → ℕ → Option (List ℕ)
string_at mem a = if a == 0 then some null_text else print_string addresses mem a

abbrev pub taken : List ℕ → List ℕ × Bool
taken out = (out, true)

pub convert : (ℕ → ℕ) → ℕ → ℕ → Option (List ℕ × Bool)
unfolding printint
convert mem c a =
    if c == b'd'
    then elim (printint a 10 true) [ none ↦ none | some out ↦ some (out, true) ]
    else if c == b'x' || c == b'p'
    then elim (printint a 16 false) [ none ↦ none | some out ↦ some (out, true) ]
    else if c == b's'
    then Option.map taken (string_at mem a)
    else if c == b'c'
    then some (a % 256 ∷ [], true)
    else if c == b'%'
    then some (c ∷ [], false)
    else some (b'%' ∷ c ∷ [], false)

-- What a conversion prints, and then the rest.
abbrev pub print_then : Option (List ℕ × Bool) → (Bool → Option (List ℕ)) → Option (List ℕ)
print_then none rest = none
print_then (some (out, takes)) rest = Option.map (◌++◌ out) (rest takes)

-- The loop of printf. `args` are the words from the first argument on, `next` is the index of the next,
-- and `percent` tells the two values of `state` apart.
pub printf_from : (ℕ → ℕ) → (ℕ → ℕ) → List ℕ → ℕ → Bool → Option (List ℕ)
unfolding convert
printf_from mem args [] next percent = some []
printf_from mem args (c ∷ fmt) next false =
    if c == b'%'
    then printf_from mem args fmt next true
    else Option.map (◌∷◌ c) (printf_from mem args fmt next false)
printf_from mem args (c ∷ fmt) next true =
    print_then (convert mem c (args next))
      λ takes. printf_from mem args fmt (if takes then next + 1 else next) false

pub printf : (ℕ → ℕ) → (ℕ → ℕ) → List ℕ → Option (List ℕ)
unfolding printf_from
printf mem args fmt = printf_from mem args fmt 0 false

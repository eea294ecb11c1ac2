-- ===== src/Str/Compare.antt =====
-- strncmp and memcmp decide equality.
use os_fall.Base.{ℕ, zero, suc, ◌+◌, ◌<◌, ◌≡◌, ◌↔◌, refl, ◌==◌, if◌then◌else◌, arith, List, [], ◌∷◌}
use os_fall.Str.{Bytes, strncmp_from, strncmp}

abbrev pub AreBytes : Bytes → Type 0
AreBytes p = (i : ℕ) → p i < 256

-- The bytes before the first NUL, at most n of them, from offset i.
unfoldable pub text_from : Bytes → ℕ → ℕ → List ℕ
text_from p i zero = []
text_from p i (suc n) = if p i == 0 then [] else p i ∷ text_from p (i + 1) n

unfoldable pub text : Bytes → ℕ → List ℕ
unfolding text_from
text p n = text_from p 0 n

strncmp_from_lem :
    (p q : Bytes) (i n : ℕ)
    → AreBytes p
    → AreBytes q
    → (strncmp_from p q i n ≡ 0) ↔ (text_from p i n ≡ text_from q i n)
unfolding strncmp_from text_from
strncmp_from_lem p q i zero hp hq = ((λ _. refl), λ _. refl)
strncmp_from_lem p q i (suc n) hp hq =
    ground (arith, strncmp_from_lem p q (i + 1) n hp hq, hp i, hq i)

-- On arrays of bytes strncmp answers 0 exactly when the texts, cut at n bytes, are equal.
pub strncmp_iff :
    (p q : Bytes) (n : ℕ) → AreBytes p → AreBytes q → (strncmp p q n ≡ 0) ↔ (text p n ≡ text q n)
unfolding strncmp text
strncmp_iff p q n hp hq = strncmp_from_lem p q 0 n hp hq

-- Only the first n bytes count.
strncmp_from-cong :
    (p q r : Bytes) (i n : ℕ)
    → ((x : ℕ) → x < i + n → q x ≡ r x)
    → strncmp_from p q i n ≡ strncmp_from p r i n
unfolding strncmp_from
strncmp_from-cong p q r i zero h = refl
strncmp_from-cong p q r i (suc n) h =
    let here : q i ≡ r i = h i (omega arith) in
    let rest = strncmp_from-cong p q r (i + 1) n (λ x lt. h x (omega arith)) in rw (here, rest) refl

pub strncmp-cong :
    (p q r : Bytes) (n : ℕ) → ((x : ℕ) → x < n → q x ≡ r x) → strncmp p q n ≡ strncmp p r n
unfolding strncmp
strncmp-cong p q r n h = strncmp_from-cong p q r 0 n (λ x lt. h x (omega arith))

-- ===== src/Fs/Names/Elems.antt =====
-- What skipelem leaves in `name`, and how it splits a path.
use mathlib.Core.List.{append-nil}
use mathlib.Core.Path.{subst}
use os_fall.Base.{
  ℕ, zero, suc, ◌+◌, ◌≤◌, ◌<◌, ◌≡◌, refl, sym, ap, ◌∙◌, ◌≢◌, ◌⊎◌, inl, inr, false, Option, none,
  some, List, [], ◌∷◌, ◌++◌, arith, leb, ◌==◌, leb→le, Bool-cases, length, set, take,
}
use os_fall.Str.{Bytes, store}
use os_fall.Str.Compare.{text, text_from}
use os_fall.Fs.Names.{
  skip_slashes, split_elem, copy_name, set_name, skipelem, slashes, is_slash, Each, StartsPlain,
  skip_slashes_lem, split_elem_lem,
}

-- The bytes `cs` stand in memory from `i` on.
abbrev Holds : Bytes → ℕ → List ℕ → Type 0
Holds m i [] = Unit
Holds m i (c ∷ cs) = (m i ≡ c) × Holds m (i + 1) cs

copy_name-below : (m : Bytes) (i : ℕ) (cs : List ℕ) (x : ℕ) → x < i → copy_name m i cs x ≡ m x
unfolding copy_name
copy_name-below m i [] x lt = refl
copy_name-below m i (c ∷ cs) x lt =
    copy_name-below (store m i c) (i + 1) cs x (omega arith) ∙ ground arith

copy_name-Holds : (m : Bytes) (i : ℕ) (cs : List ℕ) → Holds (copy_name m i cs) i cs
unfolding copy_name
copy_name-Holds m i [] = tt
copy_name-Holds m i (c ∷ cs) = (
  copy_name-below (store m i c) (i + 1) cs i (omega arith) ∙ ground arith,
  copy_name-Holds (store m i c) (i + 1) cs,
)

-- A write behind the bytes.
store-Holds :
    (m : Bytes) (i : ℕ) (cs : List ℕ) (x v : ℕ)
    → i + length cs ≤ x
    → Holds m i cs
    → Holds (store m x v) i cs
store-Holds m i [] x v le h = tt
store-Holds m i (c ∷ cs) x v le (here, h) =
    (ground (arith, here), store-Holds m (i + 1) cs x v (omega arith) h)

-- The text in `n` places that hold `cs`, and a NUL if there is room.
text_from-Holds :
    (m : Bytes) (i n : ℕ) (cs : List ℕ)
    → Each (λ c. c ≢ 0) cs
    → length cs ≤ n
    → (length cs < n → m (i + length cs) ≡ 0)
    → Holds m i cs
    → text_from m i n ≡ cs
unfolding text_from
text_from-Holds m i zero [] plain le end h = refl
text_from-Holds m i (suc n) [] plain le end h = ground (arith, end (omega arith))
text_from-Holds m i zero (c ∷ cs) plain le end h = absurd (omega arith)
text_from-Holds m i (suc n) (c ∷ cs) (one, plain) le end (here, h) =
    let some_byte : (m i == 0) ≡ false = ground (arith, here) in
    let rest =
      text_from-Holds m (i + 1) n cs plain (omega arith)
        (λ lt. ap m (omega arith) ∙ end (omega arith)) h in
    rw (some_byte, here) (ap (◌∷◌ c) rest)

copy_name-above :
    (m : Bytes) (i : ℕ) (cs : List ℕ) (x : ℕ) → i + length cs ≤ x → copy_name m i cs x ≡ m x
unfolding copy_name
copy_name-above m i [] x le = refl
copy_name-above m i (c ∷ cs) x le =
    copy_name-above (store m i c) (i + 1) cs x (omega arith) ∙ ground arith

length-take : (n : ℕ) (xs : List ℕ) → n ≤ length xs → length (take n xs) ≡ n
length-take zero xs le = refl
length-take (suc n) [] le = absurd (omega arith)
length-take (suc n) (x ∷ xs) le = ap suc (length-take n xs (omega arith))

take-all : (n : ℕ) (xs : List ℕ) → length xs ≤ n → take n xs ≡ xs
take-all zero [] le = refl
take-all zero (x ∷ xs) le = absurd (omega arith)
take-all (suc n) [] le = refl
take-all (suc n) (x ∷ xs) le = ap (◌∷◌ x) (take-all n xs (omega arith))

take-Each : (P : ℕ → Type 0) (n : ℕ) (xs : List ℕ) → Each P xs → Each P (take n xs)
take-Each P zero xs h = tt
take-Each P (suc n) [] h = tt
take-Each P (suc n) (x ∷ xs) (p, h) = (p, take-Each P n xs h)

append-Each : (P : ℕ → Type 0) (xs ys : List ℕ) → Each P (xs ++ ys) → Each P xs × Each P ys
append-Each P [] ys h = (tt, h)
append-Each P (x ∷ xs) ys (p, h) = let (l, r) = append-Each P xs ys h in ((p, l), r)

-- The name is the element, cut to the size of a name.
text-set_name :
    (name : Bytes) (s : List ℕ) → Each (λ c. c ≢ 0) s → text (set_name name s) 14 ≡ take 14 s
unfolding text set_name
text-set_name name s plain = elim (Bool-cases (leb 14 (length s))) [
  | inl e ↦
      let all = length-take 14 s (leb→le 14 (length s) e) in
      rw e (
        text_from-Holds (copy_name name 0 (take 14 s)) 0 14 (take 14 s)
          (take-Each (λ c. c ≢ 0) 14 s plain) (omega (arith, all))
          (λ lt. absurd (omega (arith, all))) (copy_name-Holds name 0 (take 14 s)))
  | inr e ↦
      let short : length s < 14 = ground arith in
      rw (e, take-all 14 s (omega arith))
        (text_from-Holds (store (copy_name name 0 s) (length s) 0) 0 14 s plain (omega arith)
          (λ lt. ground arith)
          (store-Holds (copy_name name 0 s) 0 s (length s) 0 (omega arith)
            (copy_name-Holds name 0 s)))
]

-- Nothing is written behind the 14 bytes of a name.
set_name-kept : (name : Bytes) (s : List ℕ) (x : ℕ) → 14 ≤ x → set_name name s x ≡ name x
unfolding set_name
set_name-kept name s x le = elim (Bool-cases (leb 14 (length s))) [
  | inl e ↦
      let all = length-take 14 s (leb→le 14 (length s) e) in
      rw e (copy_name-above name 0 (take 14 s) x (omega (arith, all)))
  | inr e ↦
      let short : length s < 14 = ground arith in
      let other : (x == length s) ≡ false = ground arith in
      rw (e, other) (copy_name-above name 0 s x (omega arith))
]

-- A path is split into slashes, an element, slashes and a rest.
pub record Split (path : List ℕ) (name : Bytes) (rest : List ℕ) (set : Bytes) : Type 0 where
  pub before : ℕ
  pub element : List ℕ
  pub between : ℕ
  pub whole : path ≡ slashes before ++ (element ++ (slashes between ++ rest))
  pub some_byte : 0 < length element
  pub plain : Each (λ c. c ≢ b'/') element
  pub starts : StartsPlain rest
  pub apart : 0 < length rest → 0 < between
  pub named : text set 14 ≡ take 14 element
  pub kept : (x : ℕ) → 14 ≤ x → set x ≡ name x

abbrev pub Splits : List ℕ → Bytes → Option (List ℕ × Bytes) → Type 0
Splits path name none = (k : ℕ) × (path ≡ slashes k)
Splits path name (some (rest, set)) = Split path name rest set

abbrev first : List ℕ → ℕ
first [] = 0
first (c ∷ cs) = c

-- What follows an element begins with a slash, so a rest that follows stands behind one.
apart_lem :
    (k : ℕ) (path rest : List ℕ)
    → path ≡ slashes k ++ rest
    → StartsPlain rest
    → (path ≡ []) ⊎ ((t : List ℕ) × (path ≡ b'/' ∷ t))
    → 0 < length rest
    → 0 < k
apart_lem (suc k) path rest e starts behind lt = omega arith
apart_lem zero path [] e starts behind lt = absurd (omega arith)
apart_lem zero path (c ∷ rest) e starts (inl nil) lt = absurd (let q = sym e ∙ nil in cc)
apart_lem zero path (c ∷ rest) e starts (inr (t, slash)) lt =
    absurd (starts (ap first (sym e ∙ slash)))

List-cases : (xs : List ℕ) → (xs ≡ []) ⊎ ((c : ℕ) × (cs : List ℕ) × (xs ≡ c ∷ cs))
List-cases [] = inl refl
List-cases (c ∷ cs) = inr (c, cs, refl)

split_elem-some : (c : ℕ) (cs : List ℕ) → c ≢ b'/' → 0 < length (split_elem (c ∷ cs)).0
unfolding split_elem
split_elem-some c cs ne = let plain : is_slash c ≡ false = ground arith in rw plain (omega arith)

-- The split behind the leading slashes.
split_lem :
    (path : List ℕ) (name : Bytes) (k c : ℕ) (cs : List ℕ)
    → Each (λ c. c ≢ 0) path
    → path ≡ slashes k ++ (c ∷ cs)
    → c ≢ b'/'
    → Split path name (skip_slashes (split_elem (c ∷ cs)).1) (set_name name (split_elem (c ∷ cs)).0)
split_lem path name k c cs bytes split starts =
    let (parts, plain, behind) = split_elem_lem (c ∷ cs) in
    let (m, rest, rest_starts) = skip_slashes_lem (split_elem (c ∷ cs)).1 in
    let whole : path ≡ slashes k ++ ((split_elem (c ∷ cs)).0 ++ (split_elem (c ∷ cs)).1) =
      split ∙ ap (λ x. slashes k ++ x) parts in
    let nonzero = append-Each (λ c. c ≢ 0) (slashes k) _ (subst (Each (λ c. c ≢ 0)) whole bytes) in
    record {
      before = k;
      element = (split_elem (c ∷ cs)).0;
      between = m;
      whole = whole ∙ ap (λ x. slashes k ++ ((split_elem (c ∷ cs)).0 ++ x)) rest;
      some_byte = split_elem-some c cs starts;
      plain = plain;
      starts = rest_starts;
      apart = apart_lem m (split_elem (c ∷ cs)).1 _ rest rest_starts behind;
      named = text-set_name name (split_elem (c ∷ cs)).0 (append-Each (λ c. c ≢ 0) _ _ nonzero.1).0;
      kept = set_name-kept name (split_elem (c ∷ cs)).0;
    }

-- skipelem, on a path without a NUL, answers 0 only for a path of slashes. Else the path is slashes, an
-- element without a slash, slashes, and the answer, which begins with no slash and follows at least one
-- if it is not empty; `name` holds the element, cut at 14 bytes, and nothing behind the 14 is written.
pub skipelem_lem :
    (path : List ℕ) (name : Bytes) → Each (λ c. c ≢ 0) path → Splits path name (skipelem path name)
unfolding skipelem
skipelem_lem path name bytes =
    let (k, split, starts) = skip_slashes_lem path in
    elim (List-cases (skip_slashes path)) [
      | inl nil ↦
          let runs : skipelem path name ≡ none = rw (skipelem, nil) refl in
          subst (Splits path name) (sym runs)
            (k, split ∙ ap (λ x. slashes k ++ x) nil ∙ append-nil (slashes k))
      | inr (c, cs, e) ↦
          let (element, behind) = split_elem (c ∷ cs) in
          let runs : skipelem path name ≡ some (skip_slashes behind, set_name name element) =
            rw (skipelem, e) refl in
          subst (Splits path name) (sym runs) (
            split_lem path name k c cs bytes (split ∙ ap (λ x. slashes k ++ x) e)
              (subst StartsPlain e starts))
    ]

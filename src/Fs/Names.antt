-- ===== src/Fs/Names.antt =====
-- skipelem of fs.c. A path is the list of its bytes up to the NUL.
pub mod Elems
use os_fall.Base.{
  ℕ, zero, suc, ◌+◌, ◌-◌, ◌*◌, ◌/◌, ◌%◌, ◌^◌, ◌≤◌, ◌<◌, min, ◌≡◌, refl, sym, ap, ◌∙◌, ◌≢◌, ◌↔◌, ◌⊎◌,
  inl, inr, Bool, true, false, not, ◌&&◌, ◌||◌, Option, none, some, List, [], ◌∷◌, ◌++◌, map, arith,
  ltb, leb, ◌==◌, if◌then◌else◌, ltb→lt, leb→le, ==_iff, Bool-cases, Option-cases, length,
  get_elem?, get_or, set, take, replicate, modify, find_index, length-append, find_index_lem,
  length-set, length-modify, modify-modify, get_elem?-set_self, get_elem?-set_ne,
  get_elem?-modify_self, get_elem?-modify_ne, get_elem?-lt, length-replicate, word_size, add32,
  sub32, slt, slt-ltb, add32-sub32,
}
use os_fall.Str.{Bytes, store}
use os_fall.Str.Compare.{text, text_from}

-- DIRSIZ
abbrev pub name_length : ℕ
name_length = 14

abbrev pub is_slash : ℕ → Bool
is_slash c = c == b'/'

-- `while(*path == '/') path++;`
pub skip_slashes : List ℕ → List ℕ
skip_slashes [] = []
skip_slashes (c ∷ path) = let rest = skip_slashes path in if is_slash c then rest else c ∷ path

-- `while(*path != '/' && *path != 0) path++;`: the bytes between `s` and `path`, and those from `path`.
pub split_elem : List ℕ → List ℕ × List ℕ
split_elem [] = ([], [])
split_elem (c ∷ path) =
    let rest = split_elem path in if is_slash c then ([], c ∷ path) else (c ∷ rest.0, rest.1)

-- `memmove` into `name` from offset `i`.
pub copy_name : Bytes → ℕ → List ℕ → Bytes
copy_name name i [] = name
copy_name name i (c ∷ cs) = copy_name (store name i c) (i + 1) cs

-- The bytes of the element into `name`, with a NUL if they leave room for one.
pub set_name : Bytes → List ℕ → Bytes
unfolding copy_name
set_name name s =
    if leb name_length (length s)
    then copy_name name 0 (take name_length s)
    else store (copy_name name 0 s) (length s) 0

-- `none` is the answer 0.
pub skipelem : List ℕ → Bytes → Option (List ℕ × Bytes)
unfolding skip_slashes split_elem set_name
skipelem path name = elim (skip_slashes path) [
  | [] ↦ none
  | c ∷ cs ↦ let (s, rest) = split_elem (c ∷ cs) in some (skip_slashes rest, set_name name s)
]

-- `k` slashes.
abbrev pub slashes : ℕ → List ℕ
slashes zero = []
slashes (suc k) = b'/' ∷ slashes k

abbrev pub Each : (ℕ → Type 0) → List ℕ → Type 0
Each P [] = Unit
Each P (c ∷ cs) = P c × Each P cs

abbrev pub StartsPlain : List ℕ → Type 0
StartsPlain [] = Unit
StartsPlain (c ∷ cs) = c ≢ b'/'

skip_slashes_lem :
    (path : List ℕ)
    → (k : ℕ) × (path ≡ slashes k ++ skip_slashes path) × StartsPlain (skip_slashes path)
unfolding skip_slashes
skip_slashes_lem [] = (0, refl, tt)
skip_slashes_lem (c ∷ path) = elim (Bool-cases (is_slash c)) [
  | inl e ↦
      let (k, split, plain) = skip_slashes_lem path in
      let slash : c ≡ b'/' = (==_iff c b'/').0 e in
      (suc k, rw (e, slash) (ap (◌∷◌ b'/') split), rw e plain)
  | inr e ↦ (0, rw e refl, rw e (ground arith))
]

-- The element and what follows it: no slash in the element, and nothing but a slash behind it.
split_elem_lem :
    (path : List ℕ)
    → (path ≡ (split_elem path).0 ++ (split_elem path).1)
      × Each (λ c. c ≢ b'/') (split_elem path).0
      × (((split_elem path).1 ≡ []) ⊎ ((t : List ℕ) × ((split_elem path).1 ≡ b'/' ∷ t)))
unfolding split_elem
split_elem_lem [] = (refl, tt, inl refl)
split_elem_lem (c ∷ path) = elim (Bool-cases (is_slash c)) [
  | inl e ↦
      let slash : c ≡ b'/' = (==_iff c b'/').0 e in
      (rw e refl, rw e tt, rw e (inr (path, ap (λ x. x ∷ path) slash)))
  | inr e ↦
      let (whole, plain, behind) = split_elem_lem path in
      (rw e (ap (◌∷◌ c) whole), rw e (ground arith, plain), rw e behind)
]

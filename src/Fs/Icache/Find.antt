-- ===== src/Fs/Icache/Find.antt =====
-- The loop of iget, and changes of one slot of the cache.
use os_fall.Base.{
  ℕ, zero, suc, ◌+◌, ◌≡◌, refl, sym, ap, ◌∙◌, ◌≢◌, ◌⊎◌, inl, inr, true, false, Option, none, some,
  List, [], ◌∷◌, arith, Bool-cases, get_elem?, modify,
}
use os_fall.Fs.Inode.{Inode}
use os_fall.Fs.Icache.{is_cached, is_vacant, Search, cached, vacant, remember, search_from}

-- The slot `n` holds an inode with the property.
abbrev pub SlotHas : (Inode → Type 0) → List Inode → ℕ → Type 0
SlotHas P ips n = (ip : Inode) × (get_elem? ips n ≡ some ip) × P ip

-- None of the slots is an inode of that number with a reference.
abbrev pub Uncached : ℕ → ℕ → List Inode → Type 0
Uncached dev inum ips =
    (n : ℕ) (ip : Inode) → get_elem? ips n ≡ some ip → is_cached dev inum ip ≡ false

-- What the loop finds from the slot `i` on, with `empty` remembered.
abbrev pub Finds : ℕ → ℕ → List Inode → ℕ → Option ℕ → Search → Type 0
Finds dev inum ips i empty (cached n) =
    (k : ℕ) × (n ≡ i + k) × SlotHas (λ ip. is_cached dev inum ip ≡ true) ips k
Finds dev inum ips i empty (vacant o) =
    Uncached dev inum ips
    × ((o ≡ empty)
        ⊎ ((k : ℕ) × (empty ≡ none) × (o ≡ some (i + k)) × SlotHas (λ ip. ip.ref ≡ 0) ips k))

Uncached-cons :
    (dev inum : ℕ) (ip : Inode) (ips : List Inode)
    → is_cached dev inum ip ≡ false
    → Uncached dev inum ips
    → Uncached dev inum (ip ∷ ips)
Uncached-cons dev inum ip ips e h zero jp g =
    let same : ip ≡ jp = cc in ap (is_cached dev inum) (sym same) ∙ e
Uncached-cons dev inum ip ips e h (suc n) jp g = h n jp g

later :
    (dev inum i : ℕ) (ip : Inode) (ips : List Inode) (empty : Option ℕ) (s : Search)
    → is_cached dev inum ip ≡ false
    → Finds dev inum ips (i + 1) (remember empty i ip) s
    → Finds dev inum (ip ∷ ips) i empty s
later dev inum i ip ips empty (cached n) e (k, at, there) = (suc k, omega (arith, at), there)
later dev inum i ip ips (some j) (vacant o) e (none_here, inl same) =
    (Uncached-cons dev inum ip ips e none_here, inl same)
later dev inum i ip ips (some j) (vacant o) e (none_here, inr (k, conflict, at, there)) =
    absurd (let q = conflict in cc)
later dev inum i ip ips none (vacant o) e (none_here, found) = (
  Uncached-cons dev inum ip ips e none_here,
  elim (Bool-cases (is_vacant ip)) [
    | inl v ↦ elim found [
      | inl same ↦ inr (0, refl, rw v at same ∙ ap some (omega arith), (ip, refl, ground arith))
      | inr (k, conflict, at, there) ↦ absurd (let q : some i ≡ none = rw v at conflict in cc)
    ]
    | inr v ↦ elim found [
      | inl same ↦ inl (rw v at same)
      | inr (k, conflict, at, there) ↦ inr (suc k, refl, at ∙ ap some (omega arith), there)
    ]
  ],
)

pub search_from-Finds :
    (dev inum : ℕ) (ips : List Inode) (i : ℕ) (empty : Option ℕ)
    → Finds dev inum ips i empty (search_from dev inum ips i empty)
unfolding search_from
search_from-Finds dev inum [] i empty = ((λ n ip g. absurd (let q = g in cc)), inl refl)
search_from-Finds dev inum (ip ∷ ips) i empty = elim (Bool-cases (is_cached dev inum ip)) [
  | inl e ↦ rw e (0, omega arith, (ip, refl, e))
  | inr e ↦ rw e (
      later dev inum i ip ips empty _ e
        (search_from-Finds dev inum ips (i + 1) (remember empty i ip)))
]

-- A slot of the cache after a change of the slot `i`.
pub modify-cases :
    (ips : List Inode) (i : ℕ) (f : Inode → Inode) (n : ℕ) (jp : Inode)
    → get_elem? (modify ips i f) n ≡ some jp
    → ((n ≢ i) × (get_elem? ips n ≡ some jp))
      ⊎ ((n ≡ i) × ((ip : Inode) × (get_elem? ips n ≡ some ip) × (jp ≡ f ip)))
modify-cases [] i f n jp h = absurd (let q = h in cc)
modify-cases (x ∷ xs) zero f zero jp h = inr (refl, (x, refl, let q = h in cc))
modify-cases (x ∷ xs) zero f (suc n) jp h = inl ((λ e. absurd (omega (arith, e))), h)
modify-cases (x ∷ xs) (suc i) f zero jp h = inl ((λ e. absurd (omega (arith, e))), h)
modify-cases (x ∷ xs) (suc i) f (suc n) jp h = elim (modify-cases xs i f n jp h) [
  | inl (ne, g) ↦ inl ((λ e. ne (omega (arith, e))), g)
  | inr (e, found) ↦ inr (ap suc e, found)
]

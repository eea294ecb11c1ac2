-- ===== src/Bio/Invariant.antt =====
-- The states of the cache under calls in any order, and what stays true of them.
use os_fall.Base.{
  ℕ, ◌<◌, ◌≡◌, refl, sym, ap, ◌∙◌, ◌⊎◌, inl, inr, Bool, true, false, ◌||◌, Option, none, some, List,
  [], ◌∷◌, ◌++◌, arith, ◌==◌, ==_iff, Bool-cases, length,
}
use os_fall.Proc.Types.{Kernel}
use os_fall.Bio.{nbuf, no_dev, Buf, Cache, put_buf, got, binit, bget, brelse}
use os_fall.Bio.Order.{Ring}
use os_fall.Bio.Search.{first_such, reverse}

abbrev pub has : ℕ → List ℕ → Bool
has x [] = false
has x (y ∷ ys) = x == y || has x ys

-- No sector of a device has two buffers.
abbrev pub AreUnique : (ℕ → Buf) → Type 0
AreUnique bufs =
    (a b : ℕ)
    → a < nbuf
    → b < nbuf
    → (bufs a).dev ≡ (bufs b).dev
    → (bufs a).sector ≡ (bufs b).sector
    → ((bufs a).dev ≡ no_dev) ⊎ (a ≡ b)

-- The ring has every buffer once, and no sector of a device has two buffers.
pub record IsCache (c : Cache) (xs : List ℕ) : Type 0 where
  pub ring : Ring c xs
  pub size : length xs ≡ nbuf
  pub every : (b : ℕ) → b < nbuf → has b xs ≡ true
  pub bounded : (b : ℕ) → has b xs ≡ true → b < nbuf
  pub unique : AreUnique c.bufs

module _ (K : Type 0) (buf_at : ℕ → ℕ) (lock_at : ℕ) where
  -- A call that gets a buffer, a call that gives one back, and a change of B_VALID and B_DIRTY.
  pub data CacheStep : Cache → Cache → Type 0 where
    gets :
        (me : Option ℕ) (dev sector : ℕ) (k : Kernel K) {b : ℕ} {c d : Cache}
        → bget buf_at lock_at me dev sector k c ≡ got b d
        → CacheStep c d
    releases :
        (k k1 : Kernel K) {b : ℕ} {c d : Cache}
        → b < nbuf
        → brelse buf_at lock_at b k c ≡ some (d, k1)
        → CacheStep c d
    changes :
        (b : ℕ) (valid dirty : Bool) {c : Cache}
        → CacheStep c (put_buf b (record (c.bufs b) { valid = valid; dirty = dirty }) c)

  pub data CacheReach : Cache → Type 0 where
    starts : CacheReach binit
    steps : {c d : Cache} → CacheReach c → CacheStep c d → CacheReach d

pub has-append : (x : ℕ) (ys zs : List ℕ) → has x (ys ++ zs) ≡ (has x ys || has x zs)
has-append x [] zs = refl
has-append x (y ∷ ys) zs = ground (arith, has-append x ys zs)

pub has-split :
    (x : ℕ) (xs : List ℕ) → has x xs ≡ true → (ys : List ℕ) × (zs : List ℕ) × (xs ≡ ys ++ (x ∷ zs))
has-split x [] h = absurd (let q = h in cc)
has-split x (y ∷ xs) h = elim (Bool-cases (x == y)) [
  | inl e ↦ ([], xs, ap (λ z. z ∷ xs) (sym ((==_iff x y).0 e)))
  | inr e ↦ let (ys, zs, split) = has-split x xs (ground arith) in (y ∷ ys, zs, ap (◌∷◌ y) split)
]

-- An element of a list of which none passes the test.
pub none-passes :
    (test : ℕ → Bool) (x : ℕ) (xs : List ℕ)
    → has x xs ≡ true
    → first_such test xs ≡ none
    → test x ≡ false
none-passes test x [] h n = absurd (let q = h in cc)
none-passes test x (y ∷ xs) h n = elim (Bool-cases (test y)) [
  | inl e ↦ absurd (let q : some y ≡ none = rw e at n in cc)
  | inr e ↦ elim (Bool-cases (x == y)) [
    | inl s ↦ ap test ((==_iff x y).0 s) ∙ e
    | inr s ↦ none-passes test x xs (ground arith) (rw e at n)
  ]
]

pub first_such-passes :
    (test : ℕ → Bool) (x : ℕ) (xs : List ℕ) → first_such test xs ≡ some x → test x ≡ true
first_such-passes test x [] h = absurd (let q = h in cc)
first_such-passes test x (y ∷ xs) h = elim (Bool-cases (test y)) [
  | inl e ↦ let q : some y ≡ some x = rw e at h in cc
  | inr e ↦ first_such-passes test x xs (rw e at h)
]

pub first_such-has :
    (test : ℕ → Bool) (x : ℕ) (xs : List ℕ) → first_such test xs ≡ some x → has x xs ≡ true
first_such-has test x [] h = absurd (let q = h in cc)
first_such-has test x (y ∷ xs) h = elim (Bool-cases (test y)) [
  | inl e ↦ let q : some y ≡ some x = rw e at h in let same : x ≡ y = cc in ground (arith, same)
  | inr e ↦ ground (arith, first_such-has test x xs (rw e at h))
]

pub has-reverse : (x : ℕ) (xs : List ℕ) → has x (reverse xs) ≡ has x xs
has-reverse x [] = refl
has-reverse x (y ∷ xs) = ground (arith, has-append x (reverse xs) (y ∷ []), has-reverse x xs)

pub binit-IsCache : IsCache binit (9 ∷ 8 ∷ 7 ∷ 6 ∷ 5 ∷ 4 ∷ 3 ∷ 2 ∷ 1 ∷ 0 ∷ [])
unfolding binit
binit-IsCache = record {
  ring = record {
    fwd = ground arith;
    bwd = ground arith;
    fresh_head = ground arith;
    nodup = ground arith;
  };
  size = refl;
  every = λ b lt. ground arith;
  bounded = λ b h. ground (arith, h);
  unique = λ a b la lb e f. inl (ground arith);
}

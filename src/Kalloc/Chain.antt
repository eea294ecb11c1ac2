-- ===== src/Kalloc/Chain.antt =====
-- The free list of kalloc.c as a list of pages.
use mathlib.Core.Path.{subst}
use os_fall.Base.{
  ℕ, ◌%◌, ◌≤◌, ◌<◌, ◌≡◌, refl, sym, ◌≢◌, ◌⊎◌, inl, inr, true, false, none, some, List, [], ◌∷◌,
  arith, ◌==◌, Bool-cases,
}
use os_fall.Str.{store}
use os_fall.Kalloc.{Kmem, phystop, is_bad, free_page, kfree, kalloc}

-- Following the links from `h` on leads through the pages to NULL.
abbrev pub IsChain : (ℕ → ℕ) → ℕ → List ℕ → Type 0
IsChain links h [] = h ≡ 0
IsChain links h (p ∷ ps) = (h ≡ p) × (p ≢ 0) × IsChain links (links p) ps

abbrev pub IsAbsent : ℕ → List ℕ → Type 0
IsAbsent p [] = Unit
IsAbsent p (q ∷ qs) = (p ≢ q) × IsAbsent p qs

abbrev pub IsIn : ℕ → List ℕ → Type 0
IsIn p [] = ⊥
IsIn p (q ∷ qs) = (p ≡ q) ⊎ IsIn p qs

abbrev pub AreDistinct : List ℕ → Type 0
AreDistinct [] = Unit
AreDistinct (p ∷ ps) = IsAbsent p ps × AreDistinct ps

-- Page addresses between `end` and PHYSTOP.
abbrev pub ArePages : ℕ → List ℕ → Type 0
ArePages end [] = Unit
ArePages end (p ∷ ps) = (is_bad end p ≡ false) × ArePages end ps

pub record IsFreeList (end : ℕ) (s : Kmem) (ps : List ℕ) : Type 0 where
  pub chain : IsChain s.links s.freelist ps
  pub distinct : AreDistinct ps
  pub pages : ArePages end ps

store-IsChain :
    (links : ℕ → ℕ) (h v x : ℕ) (ps : List ℕ)
    → IsAbsent v ps
    → IsChain links h ps
    → IsChain (store links v x) h ps
store-IsChain links h v x [] a c = c
store-IsChain links h v x (p ∷ ps) a c =
    let (at, nonzero, tail) = c in
    let (here, rest) = a in
    let other : store links v x p ≡ links p = ground arith in
    (
      at,
      nonzero,
      subst (λ next. IsChain (store links v x) next ps) (sym other)
          (store-IsChain links (links p) v x ps rest tail),
    )

-- What the test of kfree lets pass.
pub is_bad-false : (end v : ℕ) → is_bad end v ≡ false → (v % 4096 ≡ 0) × (end ≤ v) × (v < phystop)
is_bad-false end v h = (ground arith, ground arith, ground arith)

pub is_bad-page : (end v : ℕ) → v % 4096 ≡ 0 → end ≤ v → v < phystop → is_bad end v ≡ false
is_bad-page end v a b c = ground arith

module _ (end : ℕ) (s : Kmem) (ps : List ℕ) (w : IsFreeList end s ps) where
  -- With the end of the kernel above 0, kfree of an address that is not on the free list either
  -- panics, exactly when it is no page between `end` and PHYSTOP, or puts it in front of the list.
  pub kfree_lem :
      (v : ℕ)
      → 0 < end
      → IsAbsent v ps
      → ((is_bad end v ≡ true) × (kfree end v s ≡ none))
        ⊎ ((is_bad end v ≡ false)
            × (t : Kmem) × (kfree end v s ≡ some t)
            × IsFreeList end t (v ∷ ps))
  unfolding kfree
  kfree_lem v positive a = elim (Bool-cases (is_bad end v)) [
    | inl e ↦ inl (e, rw e refl)
    | inr e ↦
        let own : store s.links v s.freelist v ≡ s.freelist = ground arith in
        inr (
          e,
          free_page v s,
          rw e refl,
          record {
            chain = (
              refl,
              (λ z. let (aligned, above, below) = is_bad-false end v e in omega arith),
              rw own (store-IsChain s.links s.freelist v s.freelist ps a w.chain),
            );
            distinct = (a, w.distinct);
            pages = (e, w.pages);
          },
        )
  ]

-- What kalloc does with the free list.
abbrev pub Allocates : ℕ → Kmem → List ℕ → ℕ × Kmem → Type 0
Allocates end s [] r = r ≡ (0, s)
Allocates end s (p ∷ ps) r =
    (r.0 ≡ p) × IsFreeList end r.1 ps × IsAbsent p ps × (is_bad end p ≡ false)

-- With no page on the free list kalloc answers NULL and changes nothing; else it hands out the page in
-- front, which is then no longer on the list.
pub kalloc_lem :
    (end : ℕ) (s : Kmem) (ps : List ℕ) → IsFreeList end s ps → Allocates end s ps (kalloc s)
unfolding kalloc
kalloc_lem end s [] w = let e : s.freelist ≡ 0 = w.chain in ground arith
kalloc_lem end s (p ∷ ps) w =
    let (at, nonzero, tail) = w.chain in
    let busy : (s.freelist == 0) ≡ false = ground arith in
    (
      at,
      rw busy (record {
        chain = subst (λ f. IsChain s.links (s.links f) ps) (sym at) tail;
        distinct = w.distinct.1;
        pages = w.pages.1;
      }),
      w.distinct.0,
      w.pages.0,
    )

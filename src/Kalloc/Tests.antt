-- ===== src/Kalloc/Tests.antt =====
-- A kernel that ends two pages below PHYSTOP.
use os_fall.Base.{ℕ, ◌≡◌, refl, ◌⊎◌, true, false, none, some, [], ◌∷◌, arith}
use os_fall.Kalloc.{Kmem, is_bad, free_page, kfree, kalloc, kinit}
use os_fall.Kalloc.Chain.{IsFreeList, Allocates, kfree_lem, kalloc_lem}
use os_fall.Kalloc.Init.{IsComplete, kinit_lem}

abbrev last_pages : ℕ
last_pages = 0xffdfff

abbrev nothing_free : Kmem
nothing_free = record { freelist = 0; links = λ _. 7; memory = λ _. 0 }

-- The last page alone.
abbrev one_free : Kmem
one_free = free_page 0xfff000 nothing_free

one_free-IsFreeList : IsFreeList last_pages one_free (0xfff000 ∷ [])
one_free-IsFreeList = record {
  chain = (refl, (λ z. omega (arith, z)), refl);
  distinct = (tt, tt);
  pages = (refl, tt);
}

kfree_lem_example :
    ((is_bad last_pages 0xffe000 ≡ true) × (kfree last_pages 0xffe000 one_free ≡ none))
    ⊎ ((is_bad last_pages 0xffe000 ≡ false)
        × (t : Kmem) × (kfree last_pages 0xffe000 one_free ≡ some t)
        × IsFreeList last_pages t (0xffe000 ∷ 0xfff000 ∷ []))
kfree_lem_example =
    kfree_lem last_pages one_free (0xfff000 ∷ []) one_free-IsFreeList 0xffe000 (omega arith)
      ((λ z. omega (arith, z)), tt)

kalloc_lem_example : Allocates last_pages one_free (0xfff000 ∷ []) (kalloc one_free)
kalloc_lem_example = kalloc_lem last_pages one_free (0xfff000 ∷ []) one_free-IsFreeList

kinit_lem_example : (t : Kmem) × (kinit last_pages nothing_free ≡ some t) × IsComplete last_pages t
kinit_lem_example = kinit_lem last_pages nothing_free (omega arith) (omega arith) refl

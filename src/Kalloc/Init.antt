-- ===== src/Kalloc/Init.antt =====
-- kinit of kalloc.c, round by round.
use os_fall.Base.{
  ℕ, zero, suc, ◌+◌, ◌*◌, ◌%◌, ◌≤◌, ◌<◌, ◌≡◌, refl, sym, ◌∙◌, ◌≢◌, inl, inr, false, some, List, [],
  ◌∷◌, arith, leb, ◌==◌, leb→le, ==_iff, Bool-cases,
}
use os_fall.Kalloc.{Kmem, phystop, page_round_up, is_bad, kfree, kinit_loop, kinit}
use os_fall.Kalloc.Chain.{IsAbsent, IsIn, IsFreeList, is_bad-false, is_bad-page, kfree_lem}

-- The pages that the loop of kinit has freed when it comes to `p`.
record IsSwept (end p : ℕ) (ps : List ℕ) : Type 0 where
  swept : (v : ℕ) → is_bad end v ≡ false → v < p → IsIn v ps
  fresh : (v : ℕ) → p ≤ v → IsAbsent v ps

-- A free list of every page between `end` and PHYSTOP.
pub record IsComplete (end : ℕ) (t : Kmem) : Type 0 where
  pub listed : List ℕ
  pub free_list : IsFreeList end t listed
  pub every : (v : ℕ) → is_bad end v ≡ false → IsIn v listed

next-IsSwept :
    (end p : ℕ) (ps : List ℕ) → p % 4096 ≡ 0 → IsSwept end p ps → IsSwept end (p + 4096) (p ∷ ps)
next-IsSwept end p ps aligned w = record {
  swept = λ v good below. elim (Bool-cases (v == p)) [
    | inl e ↦ inl ((==_iff v p).0 e)
    | inr d ↦
        let (a, b, c) = is_bad-false end v good in
        let n : v ≢ p = ground arith in inr (w.swept v good (omega (arith, n)))
  ];
  fresh = λ v above. (λ z. omega arith, w.fresh v (omega arith));
}

kinit_loop_lem :
    (end : ℕ)
    → 0 < end
    → (rounds p : ℕ) (s : Kmem) (ps : List ℕ) → end ≤ p
    → p % 4096 ≡ 0
    → phystop ≤ p + rounds * 4096
    → IsFreeList end s ps
    → IsSwept end p ps
    → (t : Kmem) × (kinit_loop rounds end p s ≡ some t) × IsComplete end t
unfolding kinit_loop kfree
kinit_loop_lem end positive zero p s ps above aligned enough w k = (
  s,
  refl,
  record {
    listed = ps;
    free_list = w;
    every = λ v good. let (a, b, c) = is_bad-false end v good in k.swept v good (omega arith);
  },
)
kinit_loop_lem end positive (suc rounds) p s ps above aligned enough w k =
    elim (Bool-cases (leb (p + 4096) phystop)) [
      | inr e ↦
          let behind : phystop < p + 4096 = ground arith in
          (
            s,
            rw e refl,
            record {
              listed = ps;
              free_list = w;
              every =
                  λ v good. let (a, b, c) = is_bad-false end v good in k.swept v good (omega arith);
            },
          )
      | inl e ↦
          let inside : p + 4096 ≤ phystop = leb→le _ _ e in
          let good = is_bad-page end p aligned above (omega arith) in
          elim (kfree_lem end s ps w p positive (k.fresh p (omega arith))) [
            | inl x ↦ absurd (let (bad, y) = x in let z = sym bad ∙ good in cc)
            | inr x ↦
                let (g, t, freed, list) = x in
                let (u, runs, all) =
                  kinit_loop_lem end positive rounds (p + 4096) t (p ∷ ps) (omega arith)
                    (omega arith) (omega arith) list (next-IsSwept end p ps aligned k) in
                (u, rw (e, freed) runs, all)
          ]
    ]

-- With the end of the kernel above 0 and at most PHYSTOP, and nothing on the free list, kinit does not
-- panic and leaves on it exactly the pages between `end` and PHYSTOP, each once.
pub kinit_lem :
    (end : ℕ) (s : Kmem)
    → 0 < end
    → end ≤ phystop
    → s.freelist ≡ 0
    → (t : Kmem) × (kinit end s ≡ some t) × IsComplete end t
unfolding kinit
kinit_lem end s positive room nothing =
    kinit_loop_lem end positive 4096 (page_round_up end) s [] (omega arith) (omega arith)
      (omega arith) (record { chain = nothing; distinct = tt; pages = tt })
      (record {
        swept = λ v good below. absurd (let (a, b, c) = is_bad-false end v good in omega arith);
        fresh = λ v above. tt;
      })

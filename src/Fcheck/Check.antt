-- ===== src/Fcheck/Check.antt =====
-- The outcome of a check of fcheck.c, and its counted loops.
use os_fall.Base.{
  ℕ, zero, suc, ◌+◌, ◌≤◌, ◌<◌, ◌≡◌, refl, ◌↔◌, inl, inr, arith, ◌==◌, ==_iff, Bool-cases,
}

-- The messages that fcheck prints before `exit(1)`.
pub data Error : Type 0 where
  bad_inode bad_direct bad_indirect no_root bad_format used_but_free marked_not_used : Error
  direct_twice indirect_twice inode_not_found inode_marked_free bad_reference_count : Error
  directory_twice : Error

-- A check returns, prints an error and exits, or writes to the image, which is mapped read-only.
pub data Check (S : Type 0) : Type 0 where
  pass : S → Check S
  fail : Error → Check S
  fault : Check S

infixl 5 ◌>>=◌
abbrev pub ◌>>=◌ : {S T : Type 0} → Check S → (S → Check T) → Check T
pass s >>= f = f s
fail e >>= f = fail e
fault >>= f = fault

-- for (i = start; i < start + n; i++) body
unfoldable pub loop : {S : Type 0} → ℕ → ℕ → (ℕ → S → Check S) → S → Check S
loop zero i body s = pass s
loop (suc n) i body s = body i s >>= loop n (i + 1) body

pub >>=-pass :
    {S T : Type 0} (m : Check S) (f : S → Check T) {t : T}
    → (m >>= f) ≡ pass t
    → (u : S) × (m ≡ pass u) × (f u ≡ pass t)
>>=-pass (pass u) f h = (u, refl, h)
>>=-pass (fail e) f h = cc
>>=-pass fault f h = cc

pub pass-injective : {S : Type 0} {s t : S} → pass s ≡ pass t → s ≡ t
pass-injective h = cc

module _ {S : Type 0} (body : ℕ → S → Check S) (P : S → Type 0) (e : ℕ)
    (keep : (i : ℕ) → i < e → (s t : S) → P s → body i s ≡ pass t → P t) where
  -- What holds before a loop and is kept by each round that passes holds after it.
  pub loop_inv : (n i : ℕ) (s t : S) → i + n ≡ e → P s → loop n i body s ≡ pass t → P t
  unfolding loop
  loop_inv zero i s t z p h = rw (← pass-injective h) p
  loop_inv (suc n) i s t z p h =
      let (u, g, k) = >>=-pass (body i s) (loop n (i + 1) body) h in
      loop_inv n (i + 1) u t (omega arith) (keep i (omega arith) s u p g) k

module _ {S : Type 0} (body : ℕ → S → Check S) (P Q : S → Type 0) (e j : ℕ)
    (keep : (i : ℕ) → i < e → (s t : S) → P s → body i s ≡ pass t → P t)
    (keep_related : (i : ℕ) → i < e → (s t : S) → P s → Q s → body i s ≡ pass t → Q t)
    (est : (s t : S) → P s → body j s ≡ pass t → Q t) where
  -- What round `j` establishes, and each round keeps, holds after a loop that passes through `j`.
  pub loop_after :
      (n i : ℕ) (s t : S) → i + n ≡ e → P s → loop n i body s ≡ pass t → i ≤ j → j < e → Q t
  unfolding loop
  loop_after zero i s t z p h l r = absurd (omega arith)
  loop_after (suc n) i s t z p h l r =
      let (u, g, k) = >>=-pass (body i s) (loop n (i + 1) body) h in
      let p' : P u = keep i (omega arith) s u p g in
      elim (Bool-cases (i == j)) [
        | inl same ↦
            let at : body j s ≡ pass u = (rw (← (==_iff i j).0 same) g) in
            (loop_inv body (λ v. P v × Q v) e
              (λ a l v w pq g. (keep a l v w pq.0 g, keep_related a l v w pq.0 pq.1 g)) n (i + 1) u
              t (omega arith) (p', est s u p at) k).1
        | inr other ↦ loop_after n (i + 1) u t (omega arith) p' k (ground arith) r
      ]

-- The loop with a body that changes nothing passes exactly when each round does.
pub loop_all :
    (body : ℕ → Unit {0} → Check (Unit {0})) (n i : ℕ)
    → (loop n i body tt ≡ pass tt) ↔ ((j : ℕ) → i ≤ j → j < i + n → body j tt ≡ pass tt)
unfolding loop
loop_all body zero i = ((λ _ j l r. absurd (omega arith)), λ _. refl)
loop_all body (suc n) i = (
  (λ h j l r.
      let (u, e, k) = >>=-pass (body i tt) (loop n (i + 1) body) h in
      elim (Bool-cases (i == j)) [
        | inl same ↦ rw (← (==_iff i j).0 same) e
        | inr other ↦ (loop_all body n (i + 1)).0 k j (ground arith) (omega arith)
      ]),
  λ all.
      rw (all i (omega arith) (omega arith))
        ((loop_all body n (i + 1)).1 (λ j l r. all j (omega arith) (omega arith))),
)

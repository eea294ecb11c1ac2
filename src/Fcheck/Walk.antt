-- ===== src/Fcheck/Walk.antt =====
-- The walk over the addresses of all inodes that checks 5 to 12 of fcheck.c have in common: the
-- thirteen addresses of each inode, then the entries of its indirect block.
use os_fall.Base.{
  ℕ, ◌+◌, ◌<◌, ◌≡◌, refl, ◌≢◌, inl, inr, true, arith, ◌==◌, if◌then◌else◌, Bool-cases,
}
use os_fall.Fcheck.Check.{Check, pass, ◌>>=◌, loop, >>=-pass, loop_inv, loop_after}
use os_fall.Fcheck.Image.{Image, addr_of, direct_count, indirect_count, known_type}

module _ {S : Type 0} (img : Image) (direct indirect : ℕ → ℕ → S → Check S) where
  unfoldable pub indirects : ℕ → S → Check S
  indirects i s =
      if addr_of img i direct_count == 0 then pass s else loop indirect_count 0 (indirect i) s

  unfoldable pub walk_inode : ℕ → S → Check S
  walk_inode i s =
      if known_type img i then (loop (direct_count + 1) 0 (direct i) s >>= indirects i) else pass s

  unfoldable pub walk : S → Check S
  walk s = loop img.ninodes 0 walk_inode s

  module _ (P : S → Type 0)
      (keep_direct : (i j : ℕ)
        → i < img.ninodes
        → known_type img i ≡ true
        → j < direct_count + 1
        → (s t : S) → P s
        → direct i j s ≡ pass t
        → P t)
      (keep_indirect : (i k : ℕ)
        → i < img.ninodes
        → known_type img i ≡ true
        → addr_of img i direct_count ≢ 0
        → k < indirect_count
        → (s t : S) → P s
        → indirect i k s ≡ pass t
        → P t) where
    directs_inv :
        (i : ℕ)
        → i < img.ninodes
        → known_type img i ≡ true
        → (s t : S) → P s
        → loop (direct_count + 1) 0 (direct i) s ≡ pass t
        → P t
    directs_inv i l known s t =
        loop_inv (direct i) P (direct_count + 1) (λ j m u v. keep_direct i j l known m u v)
          (direct_count + 1) 0 s t refl

    indirects_inv :
        (i : ℕ)
        → i < img.ninodes
        → known_type img i ≡ true
        → (s t : S) → P s
        → indirects i s ≡ pass t
        → P t
    unfolding indirects
    indirects_inv i l known s t p h = elim (Bool-cases (addr_of img i direct_count == 0)) [
      | inl none_there ↦ let same : s ≡ t = (ground arith) in rw (← same) p
      | inr there ↦
          loop_inv (indirect i) P indirect_count
            (λ k m u v. keep_indirect i k l known (ground arith) m u v) indirect_count 0 s t refl p
            (ground arith)
    ]

    walk_inode_inv : (i : ℕ) → i < img.ninodes → (s t : S) → P s → walk_inode i s ≡ pass t → P t
    unfolding walk_inode
    walk_inode_inv i l s t p h = elim (Bool-cases (known_type img i)) [
      | inl known ↦
          let (u, e, k) =
            >>=-pass (loop (direct_count + 1) 0 (direct i) s) (indirects i) (ground arith) in
          indirects_inv i l known u t (directs_inv i l known s u p e) k
      | inr unknown ↦ let same : s ≡ t = (ground arith) in rw (← same) p
    ]

    -- What each address that passes keeps is kept by the walk.
    pub walk_inv : (s t : S) → P s → walk s ≡ pass t → P t
    unfolding walk
    walk_inv s t = loop_inv walk_inode P img.ninodes walk_inode_inv img.ninodes 0 s t (omega arith)

module _ {S : Type 0} (img : Image) (direct indirect : ℕ → ℕ → S → Check S) (P Q : S → Type 0)
    (keep_direct : (i j : ℕ)
      → i < img.ninodes
      → known_type img i ≡ true
      → j < direct_count + 1
      → (s t : S) → P s
      → direct i j s ≡ pass t
      → P t)
    (keep_indirect : (i k : ℕ)
      → i < img.ninodes
      → known_type img i ≡ true
      → addr_of img i direct_count ≢ 0
      → k < indirect_count
      → (s t : S) → P s
      → indirect i k s ≡ pass t
      → P t)
    (keepQ_direct : (i j : ℕ) → (s t : S) → P s → Q s → direct i j s ≡ pass t → Q t)
    (keepQ_indirect : (i k : ℕ) → (s t : S) → P s → Q s → indirect i k s ≡ pass t → Q t) (i : ℕ)
    (l : i < img.ninodes) (known : known_type img i ≡ true) where
  KeptRel : S → Type 0
  KeptRel s = P s × Q s

  both_direct :
      (a j : ℕ)
      → a < img.ninodes
      → known_type img a ≡ true
      → j < direct_count + 1
      → (s t : S) → KeptRel s
      → direct a j s ≡ pass t
      → KeptRel t
  unfolding KeptRel
  both_direct a j m n o s t p h = (keep_direct a j m n o s t p.0 h, keepQ_direct a j s t p.0 p.1 h)

  both_indirect :
      (a k : ℕ)
      → a < img.ninodes
      → known_type img a ≡ true
      → addr_of img a direct_count ≢ 0
      → k < indirect_count
      → (s t : S) → KeptRel s
      → indirect a k s ≡ pass t
      → KeptRel t
  unfolding KeptRel
  both_indirect a k m n z o s t p h =
      (keep_indirect a k m n z o s t p.0 h, keepQ_indirect a k s t p.0 p.1 h)

  keep_related_inode :
      (a : ℕ)
      → a < img.ninodes
      → (s t : S) → P s
      → Q s
      → walk_inode img direct indirect a s ≡ pass t
      → Q t
  unfolding KeptRel
  keep_related_inode a m s t p q h =
      (walk_inode_inv img direct indirect KeptRel both_direct both_indirect a m s t (p, q) h).1

  after_inode :
      ((s t : S) → P s → walk_inode img direct indirect i s ≡ pass t → Q t)
      → (s t : S) → P s
      → walk img direct indirect s ≡ pass t
      → Q t
  unfolding walk
  after_inode est s t p h =
      loop_after (walk_inode img direct indirect) P Q img.ninodes i
        (walk_inode_inv img direct indirect P keep_direct keep_indirect) keep_related_inode est
        img.ninodes 0 s t (omega arith) p h (omega arith) l

  -- What address `j` of inode `i` establishes, and each later one keeps, holds after the walk.
  pub walk_direct :
      (j : ℕ)
      → j < direct_count + 1
      → ((s t : S) → P s → direct i j s ≡ pass t → Q t)
      → (s t : S) → P s
      → walk img direct indirect s ≡ pass t
      → Q t
  unfolding walk_inode KeptRel
  walk_direct j m est = after_inode (λ s t p h.
      let (u, e, k) =
        >>=-pass (loop (direct_count + 1) 0 (direct i) s) (indirects img direct indirect i)
          (rw known at h) in
      let q : Q u =
        loop_after (direct i) P Q (direct_count + 1) j (λ b r. keep_direct i b l known r)
          (λ b _. keepQ_direct i b) est (direct_count + 1) 0 s u refl p e (omega arith) m in
      let p' : P u =
        directs_inv img direct indirect P keep_direct keep_indirect i l known s u p e in
      (indirects_inv img direct indirect KeptRel both_direct both_indirect i l known u t (p', q)
        k).1)

  -- The same for entry `k` of its indirect block.
  pub walk_indirect :
      (k : ℕ)
      → k < indirect_count
      → addr_of img i direct_count ≢ 0
      → ((s t : S) → P s → indirect i k s ≡ pass t → Q t)
      → (s t : S) → P s
      → walk img direct indirect s ≡ pass t
      → Q t
  unfolding walk_inode indirects
  walk_indirect k m there est = after_inode (λ s t p h.
      let (u, e, g) =
        >>=-pass (loop (direct_count + 1) 0 (direct i) s) (indirects img direct indirect i)
          (rw known at h) in
      let p' : P u =
        directs_inv img direct indirect P keep_direct keep_indirect i l known s u p e in
      loop_after (indirect i) P Q indirect_count k (λ b r. keep_indirect i b l known there r)
        (λ b _. keepQ_indirect i b) est indirect_count 0 u t refl p' (ground arith) (omega arith) m)

-- ===== src/Fcheck/Used/Exact.antt =====
-- Checks 5 and 6 together make the data bitmap exact.
use os_fall.Base.{
  ℕ, ◌+◌, ◌-◌, ◌<◌, ◌≡◌, refl, ◌≢◌, ◌↔◌, ◌⊎◌, inl, inr, true, false, arith, ◌==◌, ==_iff,
  Bool-cases,
}
use os_fall.Str.{Bytes}
use os_fall.Str.Compare.{AreBytes}
use os_fall.Fcheck.Check.{pass, loop, >>=-pass, loop_after}
use os_fall.Fcheck.Image.{
  Image, addr_of, indirect_of, databitmap, metablocks, in_data, known_type, direct_count,
  indirect_count,
}
use os_fall.Fcheck.Bits.{checkbit, unsetbit, checkbit-unsetbit, unsetbit-AreBytes}
use os_fall.Fcheck.Walk.{walk, walk_inv, walk_direct, walk_indirect}
use os_fall.Fcheck.Used.{
  clear, direct_5, indirect_5, check_bitmap_consistency_5, direct_6, indirect_6, unused_round,
  check_bitmap_consistency_6,
}

module _ (img : Image) where
  -- Inode `i` names block `b` directly or in its indirect block.
  abbrev pub Names : ℕ → ℕ → Type 0
  Names i b =
      ((j : ℕ) × (j < direct_count + 1) × (addr_of img i j ≡ b))
      ⊎ ((k : ℕ) × (k < indirect_count)
          × (addr_of img i direct_count ≢ 0)
          × (indirect_of img i k ≡ b))

  -- Some inode of a known type names the block.
  abbrev pub Refers : ℕ → Type 0
  Refers b = (i : ℕ) × (i < img.ninodes) × (known_type img i ≡ true) × Names i b

  -- The working copy marks no block that the image's bitmap leaves free.
  pub record IsWithin (temp : Bytes) : Type 0 where
    pub bytes : AreBytes temp
    pub within : (b : ℕ) → checkbit temp b ≡ true → checkbit (databitmap img) b ≡ true

  -- A bit of the image's bitmap that the working copy lacks is that of a block in use.
  pub record IsAccounted (temp : Bytes) : Type 0 where
    pub bytes : AreBytes temp
    pub cleared : (b : ℕ) → checkbit (databitmap img) b ≡ true → (checkbit temp b ≡ true) ⊎ Refers b

  unset-IsWithin : (temp : Bytes) (c : ℕ) → IsWithin temp → IsWithin (unsetbit temp c)
  unset-IsWithin temp c w = record {
    bytes = unsetbit-AreBytes temp w.bytes c;
    within = λ b h. w.within b (ground (arith, checkbit-unsetbit temp w.bytes c b));
  }

  unset-IsAccounted :
      (temp : Bytes) (c : ℕ) → Refers c → IsAccounted temp → IsAccounted (unsetbit temp c)
  unset-IsAccounted temp c r a = record {
    bytes = unsetbit-AreBytes temp a.bytes c;
    cleared = λ b h. elim (Bool-cases (c == b)) [
      | inl e ↦ inr (rw (← (==_iff c b).0 e) r)
      | inr e ↦ elim (a.cleared b h) [
        | inl s ↦ inl (rw (checkbit-unsetbit temp a.bytes c b, e) s)
        | inr r' ↦ inr r'
      ]
    ];
  }

  clear-IsWithin : (temp : Bytes) (c : ℕ) → IsWithin temp → IsWithin (clear img temp c)
  clear-IsWithin temp c w = elim (Bool-cases (checkbit temp c)) [
    | inl e ↦ rw e (unset-IsWithin temp c w)
    | inr e ↦ rw e w
  ]

  clear-IsAccounted :
      (temp : Bytes) (c : ℕ) → Refers c → IsAccounted temp → IsAccounted (clear img temp c)
  clear-IsAccounted temp c r a = elim (Bool-cases (checkbit temp c)) [
    | inl e ↦ rw e (unset-IsAccounted temp c r a)
    | inr e ↦ rw e a
  ]

  -- A round of check 5 or 6 that passes leaves the map as it was or clears the address's bit.
  pub direct_5-cases :
      (i j : ℕ) (s t : Bytes)
      → direct_5 img i j s ≡ pass t
      → (t ≡ s) ⊎ (t ≡ clear img s (addr_of img i j))
  unfolding direct_5
  direct_5-cases i j s t h = ground arith

  pub indirect_5-cases :
      (i k : ℕ) (s t : Bytes)
      → indirect_5 img i k s ≡ pass t
      → (t ≡ s) ⊎ (t ≡ unsetbit s (indirect_of img i k))
  unfolding indirect_5
  indirect_5-cases i k s t h = ground arith

  pub direct_6-cases :
      (i j : ℕ) (s t : Bytes)
      → direct_6 img i j s ≡ pass t
      → (t ≡ s) ⊎ (t ≡ clear img s (addr_of img i j))
  unfolding direct_6
  direct_6-cases i j s t h = ground arith

  pub indirect_6-cases :
      (i k : ℕ) (s t : Bytes)
      → indirect_6 img i k s ≡ pass t
      → (t ≡ s) ⊎ (t ≡ unsetbit s (indirect_of img i k))
  unfolding indirect_6
  indirect_6-cases i k s t h = ground arith

  IsWithin-direct : (i j : ℕ) (s t : Bytes) → IsWithin s → direct_5 img i j s ≡ pass t → IsWithin t
  IsWithin-direct i j s t w h = elim (direct_5-cases i j s t h) [
    | inl e ↦ rw e w
    | inr e ↦ rw e (clear-IsWithin s (addr_of img i j) w)
  ]

  IsWithin-indirect :
      (i k : ℕ) (s t : Bytes) → IsWithin s → indirect_5 img i k s ≡ pass t → IsWithin t
  IsWithin-indirect i k s t w h = elim (indirect_5-cases i k s t h) [
    | inl e ↦ rw e w
    | inr e ↦ rw e (unset-IsWithin s (indirect_of img i k) w)
  ]

  -- After check 5 every data block that an inode names is marked.
  pub check_5_marks :
      (s t : Bytes) (b : ℕ)
      → IsWithin s
      → check_bitmap_consistency_5 img s ≡ pass t
      → in_data img b ≡ true
      → Refers b
      → checkbit (databitmap img) b ≡ true
  unfolding check_bitmap_consistency_5 direct_5 indirect_5 metablocks
  check_5_marks s t b w h d (i, l, known, inl (j, m, e)) =
      walk_direct img (direct_5 img) (indirect_5 img) IsWithin
        (λ _. checkbit (databitmap img) b ≡ true) (λ a c _ _ _. IsWithin-direct a c)
        (λ a c _ _ _ _. IsWithin-indirect a c) (λ _ _ _ _ _ q _. q) (λ _ _ _ _ _ q _. q) i l known j
        m (λ u v p g. ground arith) s t w h
  check_5_marks s t b w h d (i, l, known, inr (k, m, there, e)) =
      walk_indirect img (direct_5 img) (indirect_5 img) IsWithin
        (λ _. checkbit (databitmap img) b ≡ true) (λ a c _ _ _. IsWithin-direct a c)
        (λ a c _ _ _ _. IsWithin-indirect a c) (λ _ _ _ _ _ q _. q) (λ _ _ _ _ _ q _. q) i l known k
        m there (λ u v p g. ground (arith, p.within b)) s t w h

  named_direct :
      (i j : ℕ)
      → i < img.ninodes
      → known_type img i ≡ true
      → j < direct_count + 1
      → Refers (addr_of img i j)
  named_direct i j l known m = (i, l, known, inl (j, m, refl))

  named_indirect :
      (i k : ℕ)
      → i < img.ninodes
      → known_type img i ≡ true
      → addr_of img i direct_count ≢ 0
      → k < indirect_count
      → Refers (indirect_of img i k)
  named_indirect i k l known there m = (i, l, known, inr (k, m, there, refl))

  check_5-IsAccounted :
      (s t : Bytes) → IsAccounted s → check_bitmap_consistency_5 img s ≡ pass t → IsAccounted t
  unfolding check_bitmap_consistency_5
  check_5-IsAccounted s t a h =
      walk_inv img (direct_5 img) (indirect_5 img) IsAccounted
        (λ i j l known m u v p g. elim (direct_5-cases i j u v g) [
          | inl e ↦ rw e p
          | inr e ↦ rw e (clear-IsAccounted u _ (named_direct i j l known m) p)
        ])
        (λ i k l known there m u v p g. elim (indirect_5-cases i k u v g) [
          | inl e ↦ rw e p
          | inr e ↦ rw e (unset-IsAccounted u _ (named_indirect i k l known there m) p)
        ])
        s t a h

  walk_6-IsAccounted :
      (s t : Bytes)
      → IsAccounted s
      → walk img (direct_6 img) (indirect_6 img) s ≡ pass t
      → IsAccounted t
  walk_6-IsAccounted s t a h =
      walk_inv img (direct_6 img) (indirect_6 img) IsAccounted
        (λ i j l known m u v p g. elim (direct_6-cases i j u v g) [
          | inl e ↦ rw e p
          | inr e ↦ rw e (clear-IsAccounted u _ (named_direct i j l known m) p)
        ])
        (λ i k l known there m u v p g. elim (indirect_6-cases i k u v g) [
          | inl e ↦ rw e p
          | inr e ↦ rw e (unset-IsAccounted u _ (named_indirect i k l known there m) p)
        ])
        s t a h

  -- A block that check 6 accepts as marked is in use.
  check_6_used :
      (s t : Bytes) (b : ℕ)
      → IsAccounted s
      → check_bitmap_consistency_6 img s ≡ pass t
      → in_data img b ≡ true
      → checkbit (databitmap img) b ≡ true
      → Refers b
  unfolding check_bitmap_consistency_6 unused_round
  check_6_used s t b a h d marked =
      let (u, e, k) =
        >>=-pass (walk img (direct_6 img) (indirect_6 img) s)
          (loop (img.size - metablocks img) (metablocks img) (unused_round img)) h in
      let clear_bit : checkbit u b ≡ false =
        loop_after (unused_round img) (λ v. v ≡ u) (λ _. checkbit u b ≡ false) img.size b
          (λ i _ v w p g. ground arith) (λ _ _ _ _ _ q _. q) (λ v w p g. ground arith)
          (img.size - metablocks img) (metablocks img) u t (ground arith) refl k (ground arith)
          (ground arith) in
      elim ((walk_6-IsAccounted s u a e).cleared b marked) [
        | inl yet ↦ absurd (ground arith)
        | inr r ↦ r
      ]

  -- When checks 5 and 6 pass, started on a copy of the image's bitmap, a data block is marked in the
  -- bitmap exactly when some inode of a known type names it, directly or in its indirect block.
  pub bitmap_exact :
      (s t : Bytes)
      → AreBytes img.bytes
      → check_bitmap_consistency_5 img (databitmap img) ≡ pass s
      → check_bitmap_consistency_6 img s ≡ pass t
      → (b : ℕ) → in_data img b ≡ true
      → (checkbit (databitmap img) b ≡ true) ↔ Refers b
  unfolding databitmap
  bitmap_exact s t bytes h5 h6 b d = (
    (λ marked.
        check_6_used s t b
          (check_5-IsAccounted _ s (record { bytes = λ x. bytes _; cleared = λ c m. inl m }) h5) h6
          d marked),
    λ r. check_5_marks _ s b (record { bytes = λ x. bytes _; within = λ c m. m }) h5 d r,
  )

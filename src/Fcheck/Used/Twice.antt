-- ===== src/Fcheck/Used/Twice.antt =====
-- Check 8 runs on the working copy that check 5 has cleared.
use os_fall.Base.{ℕ, ◌+◌, ◌-◌, ◌<◌, ◌≡◌, refl, ◌≢◌, ◌⊎◌, inl, inr, true, false, arith, Bool-cases}
use os_fall.Str.{Bytes}
use os_fall.Str.Compare.{AreBytes}
use os_fall.Fcheck.Check.{pass, loop, >>=-pass, loop_inv}
use os_fall.Fcheck.Image.{
  Image, addr_of, indirect_of, databitmap, metablocks, in_data, known_type, direct_count,
}
use os_fall.Fcheck.Bits.{checkbit, unsetbit, checkbit-unsetbit, unsetbit-AreBytes}
use os_fall.Fcheck.Walk.{walk, walk_inv, walk_direct}
use os_fall.Fcheck.Used.{
  clear, direct_5, indirect_5, check_bitmap_consistency_5, direct_6, indirect_6, unused_round,
  check_bitmap_consistency_6, direct_8, indirect_8, check_indirect_redundent_8,
}
use os_fall.Fcheck.Used.Exact.{
  direct_5-cases, indirect_5-cases, direct_6-cases, indirect_6-cases, check_5_marks,
}

module _ (img : Image) (b : ℕ) where
  -- Bit `b` is clear.
  pub record IsClear (temp : Bytes) : Type 0 where
    pub bytes : AreBytes temp
    pub zero_bit : checkbit temp b ≡ false

  unset-IsClear : (temp : Bytes) (c : ℕ) → IsClear temp → IsClear (unsetbit temp c)
  unset-IsClear temp c z = record {
    bytes = unsetbit-AreBytes temp z.bytes c;
    zero_bit = ground (arith, checkbit-unsetbit temp z.bytes c b, z.zero_bit);
  }

  clear-IsClear : (temp : Bytes) (c : ℕ) → IsClear temp → IsClear (clear img temp c)
  clear-IsClear temp c z = elim (Bool-cases (checkbit temp c)) [
    | inl e ↦ rw e (unset-IsClear temp c z)
    | inr e ↦ rw e z
  ]

  clear_it : (temp : Bytes) → AreBytes temp → IsClear (clear img temp b)
  clear_it temp w = elim (Bool-cases (checkbit temp b)) [
    | inl e ↦ rw e (record {
      bytes = unsetbit-AreBytes temp w b;
      zero_bit = ground (arith, checkbit-unsetbit temp w b b);
    })
    | inr e ↦ rw e (record { bytes = w; zero_bit = e })
  ]

  clear-AreBytes : (temp : Bytes) (c : ℕ) → AreBytes temp → AreBytes (clear img temp c)
  clear-AreBytes temp c w = elim (Bool-cases (checkbit temp c)) [
    | inl e ↦ rw e (unsetbit-AreBytes temp w c)
    | inr e ↦ rw e w
  ]

  direct_5-AreBytes :
      (a j : ℕ) (s t : Bytes) → AreBytes s → direct_5 img a j s ≡ pass t → AreBytes t
  direct_5-AreBytes a j s t w h = elim (direct_5-cases img a j s t h) [
    | inl e ↦ rw e w
    | inr e ↦ rw e (clear-AreBytes s _ w)
  ]

  indirect_5-AreBytes :
      (a k : ℕ) (s t : Bytes) → AreBytes s → indirect_5 img a k s ≡ pass t → AreBytes t
  indirect_5-AreBytes a k s t w h = elim (indirect_5-cases img a k s t h) [
    | inl e ↦ rw e w
    | inr e ↦ rw e (unsetbit-AreBytes s w _)
  ]

  direct_5-IsClear : (a j : ℕ) (s t : Bytes) → IsClear s → direct_5 img a j s ≡ pass t → IsClear t
  direct_5-IsClear a j s t w h = elim (direct_5-cases img a j s t h) [
    | inl e ↦ rw e w
    | inr e ↦ rw e (clear-IsClear s _ w)
  ]

  indirect_5-IsClear :
      (a k : ℕ) (s t : Bytes) → IsClear s → indirect_5 img a k s ≡ pass t → IsClear t
  indirect_5-IsClear a k s t w h = elim (indirect_5-cases img a k s t h) [
    | inl e ↦ rw e w
    | inr e ↦ rw e (unset-IsClear s _ w)
  ]

  direct_6-IsClear : (a j : ℕ) (s t : Bytes) → IsClear s → direct_6 img a j s ≡ pass t → IsClear t
  direct_6-IsClear a j s t w h = elim (direct_6-cases img a j s t h) [
    | inl e ↦ rw e w
    | inr e ↦ rw e (clear-IsClear s _ w)
  ]

  indirect_6-IsClear :
      (a k : ℕ) (s t : Bytes) → IsClear s → indirect_6 img a k s ≡ pass t → IsClear t
  indirect_6-IsClear a k s t w h = elim (indirect_6-cases img a k s t h) [
    | inl e ↦ rw e w
    | inr e ↦ rw e (unset-IsClear s _ w)
  ]

  direct_8-cases :
      (a j : ℕ) (s t : Bytes)
      → direct_8 img a j s ≡ pass t
      → (t ≡ s) ⊎ (t ≡ unsetbit s (addr_of img a j))
  unfolding direct_8
  direct_8-cases a j s t h = ground arith

  indirect_8-cases :
      (a k : ℕ) (s t : Bytes)
      → indirect_8 img a k s ≡ pass t
      → (t ≡ s) ⊎ (t ≡ unsetbit s (indirect_of img a k))
  unfolding indirect_8
  indirect_8-cases a k s t h = ground arith

  direct_8-IsClear : (a j : ℕ) (s t : Bytes) → IsClear s → direct_8 img a j s ≡ pass t → IsClear t
  direct_8-IsClear a j s t w h = elim (direct_8-cases a j s t h) [
    | inl e ↦ rw e w
    | inr e ↦ rw e (unset-IsClear s _ w)
  ]

  indirect_8-IsClear :
      (a k : ℕ) (s t : Bytes) → IsClear s → indirect_8 img a k s ≡ pass t → IsClear t
  indirect_8-IsClear a k s t w h = elim (indirect_8-cases a k s t h) [
    | inl e ↦ rw e w
    | inr e ↦ rw e (unset-IsClear s _ w)
  ]

  check_6-IsClear :
      (s t : Bytes) → IsClear s → check_bitmap_consistency_6 img s ≡ pass t → IsClear t
  unfolding check_bitmap_consistency_6 unused_round
  check_6-IsClear s t z h =
      let (u, e, k) =
        >>=-pass (walk img (direct_6 img) (indirect_6 img) s)
          (loop (img.size - metablocks img) (metablocks img) (unused_round img)) h in
      loop_inv (unused_round img) IsClear (metablocks img + (img.size - metablocks img))
        (λ c _ v w p g. let same : v ≡ w = (ground arith) in rw (← same) p)
        (img.size - metablocks img) (metablocks img) u t refl
        (walk_inv img (direct_6 img) (indirect_6 img) IsClear (λ a j _ _ _. direct_6-IsClear a j)
          (λ a k _ _ _ _. indirect_6-IsClear a k) s u z e)
        k

  module _ (i j : ℕ) (l : i < img.ninodes) (known : known_type img i ≡ true)
      (m : j < direct_count + 1) (at : addr_of img i j ≡ b) (d : in_data img b ≡ true)
      (nz : b ≢ 0) where
    -- A direct block that check 5 passes is clear in the working copy afterwards.
    check_5_clears :
        (s t : Bytes) → AreBytes s → check_bitmap_consistency_5 img s ≡ pass t → IsClear t
    unfolding check_bitmap_consistency_5 direct_5
    check_5_clears s t w h =
        walk_direct img (direct_5 img) (indirect_5 img) AreBytes IsClear
          (λ a c _ _ _. direct_5-AreBytes a c) (λ a c _ _ _ _. indirect_5-AreBytes a c)
          (λ a c u v _. direct_5-IsClear a c u v) (λ a c u v _. indirect_5-IsClear a c u v) i l
          known j m
          (λ u v p g. let now : v ≡ clear img u b = (ground arith) in rw now (clear_it u p)) s t w h

    check_8_stops :
        (t r : Bytes)
        → IsClear t
        → checkbit (databitmap img) b ≡ true
        → check_indirect_redundent_8 img t ≢ pass r
    unfolding check_indirect_redundent_8 direct_8
    check_8_stops t r z marked h =
        walk_direct img (direct_8 img) (indirect_8 img) IsClear (λ _. ⊥)
          (λ a c _ _ _. direct_8-IsClear a c) (λ a c _ _ _ _. indirect_8-IsClear a c)
          (λ _ _ _ _ _ q _. q) (λ _ _ _ _ _ q _. q) i l known j m
          (λ u v p g. ground (arith, p.zero_bit)) t r z h

    -- Checks 5, 6 and 8 run in this order on one working copy of the bitmap. When 5 and 6 pass an image
    -- in which some inode of a known type has a data block among its thirteen addresses, check 8
    -- does not pass it: the block's bit is cleared by then, and counts as used twice.
    pub check_8_rejects :
        (s t r : Bytes)
        → AreBytes img.bytes
        → check_bitmap_consistency_5 img (databitmap img) ≡ pass s
        → check_bitmap_consistency_6 img s ≡ pass t
        → check_indirect_redundent_8 img t ≢ pass r
    unfolding databitmap
    check_8_rejects s t r bytes h5 h6 =
        check_8_stops t r (check_6-IsClear s t (check_5_clears _ s (λ x. bytes _) h5) h6) (
          check_5_marks img _ s b (record { bytes = λ x. bytes _; within = λ c h. h }) h5 d
            (i, l, known, inl (j, m, at)))

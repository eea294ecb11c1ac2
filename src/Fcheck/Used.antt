-- ===== src/Fcheck/Used.antt =====
-- Checks 5, 6 and 8 of fcheck.c: the data bitmap against the addresses in the inodes. The state is
-- the working copy `databitmap_temp`.
pub mod Exact
pub mod Twice
use os_fall.Base.{
  ℕ, zero, suc, ◌+◌, ◌-◌, ◌*◌, ◌/◌, ◌%◌, ◌^◌, ◌≤◌, ◌<◌, min, ◌≡◌, refl, sym, ap, ◌∙◌, ◌≢◌, ◌↔◌, ◌⊎◌,
  inl, inr, Bool, true, false, not, ◌&&◌, ◌||◌, Option, none, some, List, [], ◌∷◌, ◌++◌, map, arith,
  ltb, leb, ◌==◌, if◌then◌else◌, ltb→lt, leb→le, ==_iff, Bool-cases, Option-cases, length,
  get_elem?, get_or, set, take, replicate, modify, find_index, length-append, find_index_lem,
  length-set, length-modify, modify-modify, get_elem?-set_self, get_elem?-set_ne,
  get_elem?-modify_self, get_elem?-modify_ne, get_elem?-lt, length-replicate, word_size, add32,
  sub32, slt, slt-ltb, add32-sub32,
}
use os_fall.Str.{Bytes}
use os_fall.Fcheck.Check.{
  Check, pass, fail, ◌>>=◌, loop, used_but_free, marked_not_used, direct_twice, indirect_twice,
}
use os_fall.Fcheck.Image.{Image, addr_of, indirect_of, databitmap, metablocks, in_data}
use os_fall.Fcheck.Bits.{checkbit, unsetbit}
use os_fall.Fcheck.Walk.{walk}

module _ (img : Image) where
  -- The range test of the indirect entries goes one block too far.
  abbrev pub in_range : ℕ → Bool
  in_range b = leb (metablocks img) b && leb b img.size

  abbrev pub clear : Bytes → ℕ → Bytes
  clear temp b = if checkbit temp b then unsetbit temp b else temp

  unfoldable pub direct_5 : ℕ → ℕ → Bytes → Check Bytes
  direct_5 i j temp =
      let b = addr_of img i j in
      if not (b == 0) && in_data img b
      then (if checkbit (databitmap img) b then pass (clear temp b) else fail used_but_free)
      else pass temp

  unfoldable pub indirect_5 : ℕ → ℕ → Bytes → Check Bytes
  indirect_5 i k temp =
      let b = indirect_of img i k in
      if in_range b
      then (if checkbit temp b then pass (unsetbit temp b) else fail used_but_free)
      else pass temp

  unfoldable pub check_bitmap_consistency_5 : Bytes → Check Bytes
  check_bitmap_consistency_5 = walk img direct_5 indirect_5

  unfoldable pub direct_6 : ℕ → ℕ → Bytes → Check Bytes
  direct_6 i j temp =
      let b = addr_of img i j in
      if not (b == 0) && in_data img b && checkbit (databitmap img) b
      then pass (clear temp b)
      else pass temp

  unfoldable pub indirect_6 : ℕ → ℕ → Bytes → Check Bytes
  indirect_6 i k temp =
      let b = indirect_of img i k in
      if in_range b && checkbit temp b then pass (unsetbit temp b) else pass temp

  unfoldable pub unused_round : ℕ → Bytes → Check Bytes
  unused_round b temp = if checkbit temp b then fail marked_not_used else pass temp

  -- `for (i = metablocks; i < sb->size; i++)` after the walk.
  unfoldable pub check_bitmap_consistency_6 : Bytes → Check Bytes
  check_bitmap_consistency_6 temp =
      walk img direct_6 indirect_6 temp
      >>= loop (img.size - metablocks img) (metablocks img) unused_round

  unfoldable pub direct_8 : ℕ → ℕ → Bytes → Check Bytes
  direct_8 i j temp =
      let b = addr_of img i j in
      if not (b == 0) && in_data img b && checkbit (databitmap img) b
      then (if checkbit temp b then pass (unsetbit temp b) else fail direct_twice)
      else pass temp

  unfoldable pub indirect_8 : ℕ → ℕ → Bytes → Check Bytes
  indirect_8 i k temp =
      let b = indirect_of img i k in
      if in_range b && not (b == 0) && checkbit (databitmap img) b
      then (if checkbit temp b then pass (unsetbit temp b) else fail indirect_twice)
      else pass temp

  unfoldable pub check_indirect_redundent_8 : Bytes → Check Bytes
  check_indirect_redundent_8 = walk img direct_8 indirect_8

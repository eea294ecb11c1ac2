-- ===== src/Fcheck/Inodes.antt =====
-- check_inode_type and check_inode_addr.
pub mod Laws
use os_fall.Base.{
  ℕ, zero, suc, ◌+◌, ◌-◌, ◌*◌, ◌/◌, ◌%◌, ◌^◌, ◌≤◌, ◌<◌, min, ◌≡◌, refl, sym, ap, ◌∙◌, ◌≢◌, ◌↔◌, ◌⊎◌,
  inl, inr, Bool, true, false, not, ◌&&◌, ◌||◌, Option, none, some, List, [], ◌∷◌, ◌++◌, map, arith,
  ltb, leb, ◌==◌, if◌then◌else◌, ltb→lt, leb→le, ==_iff, Bool-cases, Option-cases, length,
  get_elem?, get_or, set, take, replicate, modify, find_index, length-append, find_index_lem,
  length-set, length-modify, modify-modify, get_elem?-set_self, get_elem?-set_ne,
  get_elem?-modify_self, get_elem?-modify_ne, get_elem?-lt, length-replicate, word_size, add32,
  sub32, slt, slt-ltb, add32-sub32,
}
use os_fall.Fcheck.Check.{Check, pass, fail, ◌>>=◌, loop, bad_inode, bad_direct, bad_indirect}
use os_fall.Fcheck.Image.{Image, type_of, addr_of, indirect_of, direct_count, in_data, known_type}

-- The loops' counter variables are all that changes.
abbrev pub Plain : Type 0
Plain = Check (Unit {0})

module _ (img : Image) where
  unfoldable pub type_round : ℕ → Unit {0} → Plain
  type_round i _ =
      if type_of img i == 2 || type_of img i == 1 || type_of img i == 3 || type_of img i == 0
      then pass tt
      else fail bad_inode

  unfoldable pub check_inode_type : Plain
  check_inode_type = loop img.ninodes 0 type_round tt

  -- Entry `k` of the indirect block.
  unfoldable pub indirect_round : ℕ → ℕ → Unit {0} → Plain
  indirect_round i k _ =
      if not (indirect_of img i k == 0) && not (in_data img (indirect_of img i k))
      then fail bad_indirect
      else pass tt

  -- The test of `addrs[j]`.
  unfoldable pub addr_test : ℕ → ℕ → Plain
  addr_test i j =
      if not (in_data img (addr_of img i j)) && not (addr_of img i j == 0)
      then fail (if j == direct_count then bad_indirect else bad_direct)
      else pass tt

  -- The body of the loop over `j`: the loop over the indirect block stands inside it, and runs to
  -- NDIRECT.
  unfoldable pub addr_round : ℕ → ℕ → Unit {0} → Plain
  addr_round i j _ =
      if known_type img i
      then (addr_test i j >>= λ _.
          if addr_of img i direct_count == 0
          then pass tt
          else loop direct_count 0 (indirect_round i) tt)
      else pass tt

  unfoldable pub inode_round : ℕ → Unit {0} → Plain
  inode_round i _ = loop (direct_count + 1) 0 (addr_round i) tt

  unfoldable pub check_inode_addr : Plain
  check_inode_addr = loop img.ninodes 0 inode_round tt

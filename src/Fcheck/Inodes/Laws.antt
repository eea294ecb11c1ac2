-- ===== src/Fcheck/Inodes/Laws.antt =====
-- What the first two checks accept.
use os_fall.Base.{ℕ, ◌+◌, ◌≤◌, ◌<◌, ◌≡◌, ◌≢◌, ◌↔◌, ◌⊎◌, inl, inr, true, false, arith, Bool-cases}
use os_fall.Fcheck.Check.{pass, loop, loop_all}
use os_fall.Fcheck.Image.{Image, type_of, addr_of, indirect_of, direct_count, in_data, known_type}
use os_fall.Fcheck.Inodes.{
  type_round, check_inode_type, indirect_round, addr_test, addr_round, inode_round,
  check_inode_addr,
}

module _ (img : Image) where
  -- check_inode_type passes exactly when every inode is free, a directory, a file or a device.
  pub check_inode_type_iff :
      (check_inode_type img ≡ pass tt) ↔ ((i : ℕ) → i < img.ninodes → type_of img i ≤ 3)
  unfolding check_inode_type type_round
  check_inode_type_iff = (
    (λ h i l.
        let e = (loop_all (type_round img) img.ninodes 0).0 h i (omega arith) (omega arith) in
        ground arith),
    λ all.
        (loop_all (type_round img) img.ninodes 0).1
          (λ i _ l. let small = all i (omega arith) in ground arith),
  )

  -- An address that the check accepts.
  abbrev pub IsGood : ℕ → Type 0
  IsGood b = (b ≡ 0) ⊎ (in_data img b ≡ true)

  -- What check_inode_addr accepts of an inode.
  abbrev pub GoodInode : ℕ → Type 0
  GoodInode i =
      ((j : ℕ) → j < direct_count + 1 → IsGood (addr_of img i j))
      × (addr_of img i direct_count ≢ 0 → (k : ℕ) → k < direct_count → IsGood (indirect_of img i k))

  indirect_loop_iff :
      (i : ℕ)
      → (loop direct_count 0 (indirect_round img i) tt ≡ pass tt)
        ↔ ((k : ℕ) → k < direct_count → IsGood (indirect_of img i k))
  unfolding indirect_round
  indirect_loop_iff i = (
    (λ h k l.
        let e =
          (loop_all (indirect_round img i) direct_count 0).0 h k (omega arith) (omega arith) in
        ground arith),
    λ all.
        (loop_all (indirect_round img i) direct_count 0).1
          (λ k _ l. let good = all k (omega arith) in ground arith),
  )

  addr_round_iff :
      (i j : ℕ)
      → known_type img i ≡ true
      → (addr_round img i j tt ≡ pass tt)
        ↔ IsGood (addr_of img i j)
          × (addr_of img i direct_count ≢ 0
              → loop direct_count 0 (indirect_round img i) tt ≡ pass tt)
  unfolding addr_round addr_test
  addr_round_iff i j known = ground arith

  unknown_round : (i j : ℕ) → known_type img i ≡ false → addr_round img i j tt ≡ pass tt
  unfolding addr_round
  unknown_round i j h = ground arith

  inode_round_iff :
      (i : ℕ) → (inode_round img i tt ≡ pass tt) ↔ (known_type img i ≡ true → GoodInode i)
  unfolding inode_round
  inode_round_iff i = (
    (λ h known.
        let each = (loop_all (addr_round img i) (direct_count + 1) 0).0 h in
        (
          λ j l. ((addr_round_iff i j known).0 (each j (omega arith) (omega arith))).0,
          λ some_block.
              (indirect_loop_iff i).0
                (((addr_round_iff i 0 known).0 (each 0 (omega arith) (omega arith))).1 some_block),
        )),
    λ good. (loop_all (addr_round img i) (direct_count + 1) 0).1 (λ j _ l.
        elim (Bool-cases (known_type img i)) [
          | inl known ↦ (addr_round_iff i j known).1 (
            (good known).0 j (omega arith),
            λ some_block. (indirect_loop_iff i).1 ((good known).1 some_block),
          )
          | inr unknown ↦ unknown_round i j unknown
        ]),
  )

  -- check_inode_addr passes exactly when, in every inode of a known type, the thirteen addresses are
  -- zero or data blocks, and so are the first twelve entries of the indirect block, if there is one.
  pub check_inode_addr_iff :
      (check_inode_addr img ≡ pass tt)
      ↔ ((i : ℕ) → i < img.ninodes → known_type img i ≡ true → GoodInode i)
  unfolding check_inode_addr
  check_inode_addr_iff = (
    (λ h i l.
        (inode_round_iff i).0
          ((loop_all (inode_round img) img.ninodes 0).0 h i (omega arith) (omega arith))),
    λ all.
        (loop_all (inode_round img) img.ninodes 0).1
          (λ i _ l. (inode_round_iff i).1 (all i (omega arith))),
  )

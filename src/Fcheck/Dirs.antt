-- ===== src/Fcheck/Dirs.antt =====
-- Checks 9 to 12 of fcheck.c: the inode bitmap, the directories and the reference counts.
use os_fall.Base.{
  ℕ, zero, suc, ◌+◌, ◌-◌, ◌/◌, ◌^◌, true, false, not, ◌&&◌, ltb, leb, ◌==◌, if◌then◌else◌, add32,
}
use os_fall.Str.{Bytes, store}
use os_fall.Fcheck.Check.{
  Check, pass, fail, fault, ◌>>=◌, loop, inode_not_found, inode_marked_free, bad_reference_count,
  directory_twice,
}
use os_fall.Fcheck.Image.{
  Image, type_of, nlink_of, size_of, addr_of, indirect_of, inum_of, name_of, databitmap, in_data,
  direct_count, indirect_count, entry_count, root_inode, t_dir, t_file,
}
use os_fall.Fcheck.Bits.{checkbit, unsetbit}
use os_fall.Fcheck.Walk.{walk, walk_inode}
use os_fall.Fcheck.Used.{in_range, clear}

-- `databitmap_temp`, `inodebitmap_temp` and `ref_bit`
pub record Work : Type 0 where
  pub temp : Bytes
  pub itemp : Bytes
  pub refs : ℕ → ℕ

-- A `short` compared with an `int`.
abbrev pub short_to_int : ℕ → ℕ
short_to_int n = if ltb n (2 ^ 15) then n else 2 ^ 32 - 2 ^ 16 + n

module _ (img : Image) (imap : Bytes) where
  pub direct_9 : ℕ → ℕ → Work → Check Work
  direct_9 i j w =
      let b = addr_of img i j in
      if not (b == 0) && in_data img b && checkbit (databitmap img) b
      then pass (record w { temp = clear img w.temp b })
      else pass w

  -- `unsetbit(databitmap, *inaddr)` writes to the mapping.
  pub indirect_9 : ℕ → ℕ → Work → Check Work
  indirect_9 i k w =
      let b = indirect_of img i k in if in_range img b && checkbit w.temp b then fault else pass w

  pub found_round : ℕ → Work → Check Work
  found_round i w = if checkbit imap i && checkbit w.itemp i then fail inode_not_found else pass w

  unfoldable pub check_inode_not_exist : Work → Check Work
  check_inode_not_exist w =
      walk img direct_9 indirect_9 w >>= loop (img.ninodes - root_inode) root_inode found_round

  -- `ref_bit[n]++` for a file with a name.
  abbrev pub count_file : ℕ → Bytes → Work → Work
  count_file n name w =
      if type_of img n == t_file && not (name 0 == 0)
      then record w { refs = store w.refs n (add32 (w.refs n) 1) }
      else w

  abbrev pub forget : ℕ → Work → Work
  forget n w = record w { itemp = unsetbit w.itemp n }

  -- A directory entry in check 10.
  pub entry_10 : ℕ → ℕ → Work → Check Work
  entry_10 b k w =
      let n = inum_of img b k in
      if n == 0
      then fail inode_marked_free
      else pass (
          forget n (
            if checkbit imap n
            then (if type_of img n == t_dir
                then (if checkbit w.itemp n then forget n w else w)
                else count_file n (name_of img b k) w)
            else w))

  -- A directory entry in check 12.
  pub entry_12 : ℕ → ℕ → Work → Check Work
  entry_12 b k w =
      let n = inum_of img b k in
      if n == 0
      then pass w
      else if checkbit imap n && type_of img n == t_dir
      then (if checkbit w.itemp n then pass (forget n (forget n w)) else fail directory_twice)
      else pass (forget n (if checkbit imap n then count_file n (name_of img b k) w else w))

  -- The number of entries that are read of a block when `n` are left.
  abbrev pub entries_of : ℕ → ℕ
  entries_of n = if ltb n entry_count then n else entry_count

  module _ (entry : ℕ → ℕ → Work → Check Work) (i : ℕ) where
    -- The loop over the direct blocks: `c` of them are left from `j`, with `n` entries.
    pub dir_blocks : ℕ → ℕ → ℕ → Work → Check Work
    dir_blocks zero j n w = pass w
    dir_blocks (suc c) j n w = loop (entries_of n) 0 (entry (addr_of img i j)) w >>= λ v.
        elim (leb n entry_count) [
          | true ↦ pass v
          | false ↦ dir_blocks c (j + 1) (n - entry_count) v
        ]

    -- The second loop: `j` runs from NDIRECT to NINDIRECT and indexes `addrs`; `n` is set anew in each
    -- round.
    pub dir_more : ℕ → ℕ → Work → Check Work
    dir_more zero j w = pass w
    dir_more (suc c) j w =
        loop (entries_of (size_of img i / 16)) 0 (entry (addr_of img i j)) w >>= λ v.
        elim (leb (size_of img i / 16) entry_count) [ true ↦ pass v | false ↦ dir_more c (j + 1) v ]

    pub dir_round : Work → Check Work
    dir_round w = walk_inode img direct_9 indirect_9 i w >>= λ v.
        if type_of img i == t_dir
        then (dir_blocks direct_count 0 (size_of img i / 16) v
            >>= dir_more (indirect_count - direct_count) direct_count)
        else pass v

  unfoldable pub check_wrong_free_inode : Work → Check Work
  check_wrong_free_inode = loop img.ninodes 0 (dir_round entry_10)

  pub reference_round : ℕ → Work → Check Work
  reference_round i w =
      if short_to_int (nlink_of img i) == w.refs i then pass w else fail bad_reference_count

  unfoldable pub check_reference_count : Work → Check Work
  check_reference_count w = walk img direct_9 indirect_9 w >>= loop img.ninodes 0 reference_round

  unfoldable pub check_dir_redundent : Work → Check Work
  check_dir_redundent = loop img.ninodes 0 (dir_round entry_12)

-- ===== src/Fcheck/Main.antt =====
-- `main` of fcheck.c, from the mapped image on.
use os_fall.Base.{ℕ, zero, suc, ◌+◌, ◌<◌, ◌≡◌, refl, ◌≢◌, true, arith, ◌==◌, if◌then◌else◌}
use os_fall.Str.{Bytes}
use os_fall.Str.Compare.{AreBytes}
use os_fall.Fcheck.Check.{Check, pass, ◌>>=◌, >>=-pass}
use os_fall.Fcheck.Image.{Image, type_of, addr_of, databitmap, in_data, known_type}
use os_fall.Fcheck.Bits.{setbit, unsetbit}
use os_fall.Fcheck.Inodes.{check_inode_type, check_inode_addr}
use os_fall.Fcheck.Inodes.Laws.{check_inode_addr_iff}
use os_fall.Fcheck.Root.{check_root_path}
use os_fall.Fcheck.Root.Laws.{check_root_path-root}
use os_fall.Fcheck.Used.{
  check_bitmap_consistency_5, check_bitmap_consistency_6, check_indirect_redundent_8,
}
use os_fall.Fcheck.Used.Twice.{check_8_rejects}
use os_fall.Fcheck.Dirs.{
  Work, check_inode_not_exist, check_wrong_free_inode, check_reference_count, check_dir_redundent,
}

module _ (img : Image) where
  -- The loop that fills `inodebitmap`, from inode `i`.
  pub fill_inodebitmap : ℕ → ℕ → Bytes → Bytes
  fill_inodebitmap zero i m = m
  fill_inodebitmap (suc n) i m =
      fill_inodebitmap n (i + 1) (if type_of img i == 0 then unsetbit m i else setbit m i)

  -- `heap` holds the bytes that `malloc` hands out for the inode bitmap.
  pub fcheck : Bytes → Check Work
  fcheck heap =
      let imap = fill_inodebitmap img.ninodes 0 heap in
      check_inode_type img >>= λ _. check_inode_addr img >>= λ _. check_root_path img >>= λ _.
      check_bitmap_consistency_5 img (databitmap img)
      >>= check_bitmap_consistency_6 img
      >>= check_indirect_redundent_8 img
      >>= λ temp.
          check_inode_not_exist img imap (record { temp = temp; itemp = imap; refs = λ _. 0 })
          >>= check_wrong_free_inode img imap
          >>= check_reference_count img imap
          >>= check_dir_redundent img imap

  -- No image with at least two inodes passes all the checks: one that passes checks 1 to 6 has a root
  -- directory with a block, and check 8 rejects every such image.
  pub fcheck_rejects :
      (heap : Bytes) (w : Work) → AreBytes img.bytes → 1 < img.ninodes → fcheck heap ≢ pass w
  unfolding fcheck
  fcheck_rejects heap w bytes big h =
      let (u1, e1, h1) = >>=-pass (check_inode_type img) _ h in
      let (u2, e2, h2) = >>=-pass (check_inode_addr img) _ h1 in
      let (u3, e3, h3) = >>=-pass (check_root_path img) _ h2 in
      let (u4, e4, h4) =
        >>=-pass
          (check_bitmap_consistency_5 img (databitmap img)
            >>= check_bitmap_consistency_6 img
            >>= check_indirect_redundent_8 img)
          _ h3 in
      let (u5, e5, h5) =
        >>=-pass
          (check_bitmap_consistency_5 img (databitmap img) >>= check_bitmap_consistency_6 img)
          (check_indirect_redundent_8 img) e4 in
      let (u6, e6, h6) =
        >>=-pass (check_bitmap_consistency_5 img (databitmap img)) (check_bitmap_consistency_6 img)
          e5 in
      let (is_dir, (j, k, hj, hz, hk, named, at), _) = check_root_path-root img u3 big e3 in
      let known : known_type img 1 ≡ true = (ground arith) in
      let good = ((check_inode_addr_iff img).0 e2 1 big known).0 j (omega arith) in
      let d : in_data img (addr_of img 1 j) ≡ true = (ground arith) in
      check_8_rejects img (addr_of img 1 j) 1 j big known (omega arith) refl d hz u6 u5 u4 bytes e6
        h6 h5

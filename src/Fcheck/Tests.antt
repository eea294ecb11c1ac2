-- ===== src/Fcheck/Tests.antt =====
-- A small image and the checks on it: two inodes, of which inode 1 is a root directory with one
-- block, block 4.
use os_fall.Base.{ℕ, ◌<◌, ◌≡◌, refl, ◌≢◌, ◌↔◌, true, false, arith}
use os_fall.Str.{Bytes, store}
use os_fall.Str.Compare.{AreBytes}
use os_fall.Fcheck.Check.{pass, fail, loop, direct_twice}
use os_fall.Fcheck.Image.{
  Image, read16, read32, metablocks, inum_of, name_of, type_of, addr_of, indirect_of, databitmap,
  known_type, t_dir,
}
use os_fall.Fcheck.Bits.{checkbit, unsetbit}
use os_fall.Fcheck.Inodes.{
  type_round, indirect_round, addr_test, addr_round, inode_round, check_inode_type,
  check_inode_addr,
}
use os_fall.Fcheck.Inodes.Laws.{check_inode_addr_iff, GoodInode}
use os_fall.Fcheck.Root.{
  root_round, other_round, check_dir, scan_blocks, scan_entries, entry_round, check_root_path,
  is_dot, is_dotdot,
}
use os_fall.Fcheck.Root.Laws.{check_root_path-root, HasEntry}
use os_fall.Fcheck.Walk.{walk, walk_inode, indirects}
use os_fall.Fcheck.Used.{
  direct_5, indirect_5, direct_6, indirect_6, unused_round, direct_8, indirect_8,
  check_bitmap_consistency_5, check_bitmap_consistency_6, check_indirect_redundent_8,
}
use os_fall.Fcheck.Used.Exact.{Refers, bitmap_exact}
use os_fall.Fcheck.Main.{fcheck, fcheck_rejects}

abbrev small_bytes : Bytes
small_bytes =
    store
      (store
        (store
          (store
            (store
              (store (store (store (store (store (λ _. 0) 1088 1) 1094 1) 1096 32) 1100 4) 1536 16)
              2048 1)
            2050 b'.')
          2064 1)
        2066 b'.')
      2067 b'.'

abbrev small : Image
small = record { bytes = small_bytes; size = 5; ninodes = 2 }

small-AreBytes : AreBytes small_bytes
small-AreBytes x = ground arith

types_pass : check_inode_type small ≡ pass tt
unfolding check_inode_type type_round loop type_of addr_of indirect_of read16 read32 databitmap
    checkbit unsetbit
types_pass = refl

addrs_pass : check_inode_addr small ≡ pass tt
unfolding check_inode_addr inode_round addr_round addr_test indirect_round metablocks loop type_of
    addr_of indirect_of read16 read32 databitmap checkbit unsetbit
addrs_pass = refl

root_passes : check_root_path small ≡ pass (record { cur = false; par = false })
unfolding check_root_path root_round other_round check_dir scan_blocks scan_entries entry_round
    inum_of name_of loop type_of addr_of indirect_of read16 read32 databitmap checkbit unsetbit
root_passes = refl

abbrev cleared : Bytes
cleared = unsetbit (databitmap small) 4

five_passes : check_bitmap_consistency_5 small (databitmap small) ≡ pass cleared
unfolding check_bitmap_consistency_5 direct_5 indirect_5 walk walk_inode indirects metablocks loop
    type_of addr_of indirect_of read16 read32 databitmap checkbit unsetbit
five_passes = refl

six_passes : check_bitmap_consistency_6 small cleared ≡ pass cleared
unfolding check_bitmap_consistency_6 direct_6 indirect_6 unused_round walk walk_inode indirects
    metablocks loop type_of addr_of indirect_of read16 read32 databitmap checkbit unsetbit
six_passes = refl

eight_fails : check_indirect_redundent_8 small cleared ≡ fail direct_twice
unfolding check_indirect_redundent_8 direct_8 indirect_8 walk walk_inode indirects metablocks loop
    type_of addr_of indirect_of read16 read32 databitmap checkbit unsetbit
eight_fails = refl

check_inode_addr_iff_example :
    (check_inode_addr small ≡ pass tt)
    ↔ ((i : ℕ) → i < 2 → known_type small i ≡ true → GoodInode small i)
check_inode_addr_iff_example = check_inode_addr_iff small

check_root_path-root_example :
    (type_of small 1 ≡ t_dir)
    × HasEntry small 1 is_dot (λ n. n ≡ 1)
    × HasEntry small 1 is_dotdot (λ n. n ≡ 1)
check_root_path-root_example = check_root_path-root small _ (omega arith) root_passes

bitmap_exact_example : (checkbit (databitmap small) 4 ≡ true) ↔ Refers small 4
unfolding metablocks
bitmap_exact_example =
    bitmap_exact small cleared cleared small-AreBytes five_passes six_passes 4 refl

fcheck_rejects_example :
    fcheck small (λ _. 0) ≢ pass (record { temp = cleared; itemp = λ _. 0; refs = λ _. 0 })
fcheck_rejects_example = fcheck_rejects small (λ _. 0) _ small-AreBytes (omega arith)

-- ===== src/Fs/Ialloc/Tests.antt =====
-- An inode taken on a small disk.
use os_fall.Base.{◌≡◌, refl, false, ◌&&◌, some, [], ◌∷◌, arith, ◌==◌, if◌then◌else◌}
use os_fall.Fcheck.Image.{read16, read32}
use os_fall.Fs.{Disk, ninodes_of}
use os_fall.Fs.Inode.{Inode}
use os_fall.Fs.Ialloc.{free_inode, ialloc}
use os_fall.Fs.Ialloc.Taken.{Takes, ialloc_lem}

-- 8 inodes; the first is in use.
abbrev disk : Disk
disk k x =
    if k == 1 && x == 0
    then 20
    else if k == 1 && x == 8
    then 8
    else if k == 2 && x == 64
    then 1
    else 0

abbrev vacancy : Inode
vacancy = record {
  dev = 0;
  inum = 0;
  ref = 0;
  busy = false;
  valid = false;
  type = 0;
  major = 0;
  minor = 0;
  nlink = 0;
  size = 0;
  addrs = λ i. 0;
}

ninodes_8 : ninodes_of disk ≡ 8
unfolding ninodes_of read32
ninodes_8 = refl

takes_second : free_inode 7 1 disk ≡ some 2
unfolding free_inode read16
takes_second = refl

ialloc_lem_example : Takes 1 2 (vacancy ∷ []) disk (ialloc 1 2 (vacancy ∷ []) disk)
ialloc_lem_example = ialloc_lem 1 2 (vacancy ∷ []) disk (omega (arith, ninodes_8)) (omega arith)

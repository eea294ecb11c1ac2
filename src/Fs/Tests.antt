-- ===== src/Fs/Tests.antt =====
-- Runs of the block allocator and of the path functions.
use os_fall.Base.{ℕ, ◌<◌, ◌≡◌, refl, ◌&&◌, some, List, [], ◌∷◌, arith, ◌==◌, if◌then◌else◌}
use os_fall.Str.{Bytes}
use os_fall.Fcheck.Image.{read32}
use os_fall.Fcheck.Bits.{setbit, checkbit}
use os_fall.Fs.{Disk, put_block, sb_size, ninodes_of, balloc, bfree}
use os_fall.Fs.Alloc.{is_used, AreBlocks, Allocates, balloc_lem}
use os_fall.Fs.Free.{bfree-balloc}
use os_fall.Fs.Names.{skipelem}
use os_fall.Fs.Names.Elems.{Splits, skipelem_lem}

-- 20 blocks and 8 inodes; the bitmap, block 4, has the first five blocks in use.
abbrev disk : Disk
disk k x =
    if k == 1 && x == 0
    then 20
    else if k == 1 && x == 8
    then 8
    else if k == 4 && x == 0
    then 31
    else 0

disk-AreBlocks : AreBlocks disk
disk-AreBlocks k x = ground arith

balloc_first : balloc disk ≡ some (5, put_block disk 4 (setbit (disk 4) 5))
unfolding balloc read32 checkbit
balloc_first = refl

balloc_example : Allocates (ninodes_of disk) disk (sb_size disk) (balloc disk)
balloc_example = balloc_lem disk disk-AreBlocks

bfree-balloc_example :
    (f : Disk) × (bfree 5 (put_block disk 4 (setbit (disk 4) 5)) ≡ some f)
    × ((j : ℕ)
        → j < sb_size disk
        → is_used (ninodes_of disk) f j ≡ is_used (ninodes_of disk) disk j)
unfolding sb_size ninodes_of read32
bfree-balloc_example =
    bfree-balloc disk (put_block disk 4 (setbit (disk 4) 5)) 5 disk-AreBlocks
      (record { behind = omega arith; inside = omega arith }) balloc_first

-- "///a//bb"
abbrev path : List ℕ
path = b'/' ∷ b'/' ∷ b'/' ∷ b'a' ∷ b'/' ∷ b'/' ∷ b'b' ∷ b'b' ∷ []

abbrev empty : Bytes
empty x = 0

skipelem_example : Splits path empty (skipelem path empty)
skipelem_example = skipelem_lem path empty (ground arith)

-- ===== src/Fs.antt =====
-- xv62/xv6/kernel/fs.c: the allocation of disk blocks and of the blocks of a file. A disk is a
-- function from block numbers to blocks, and a buffer that `bread` returns holds the block as the last
-- `bwrite` left it. Block numbers stay below 2 ^ 31. A panic is `none`.
pub mod Alloc
pub mod Free
pub mod Names
pub mod Inode
pub mod File
pub mod Icache
pub mod Dir
pub mod Ialloc
mod Tests
use os_fall.Base.{
  ℕ, zero, suc, ◌+◌, ◌-◌, ◌*◌, ◌/◌, ◌%◌, ◌^◌, ◌≤◌, ◌<◌, min, ◌≡◌, refl, sym, ap, ◌∙◌, ◌≢◌, ◌↔◌, ◌⊎◌,
  inl, inr, Bool, true, false, not, ◌&&◌, ◌||◌, Option, none, some, List, [], ◌∷◌, ◌++◌, map, arith,
  ltb, leb, ◌==◌, if◌then◌else◌, ltb→lt, leb→le, ==_iff, Bool-cases, Option-cases, length,
  get_elem?, get_or, set, take, replicate, modify, find_index, length-append, find_index_lem,
  length-set, length-modify, modify-modify, get_elem?-set_self, get_elem?-set_ne,
  get_elem?-modify_self, get_elem?-modify_ne, get_elem?-lt, length-replicate, word_size, add32,
  sub32, slt, slt-ltb, add32-sub32,
}
use os_fall.Str.{Bytes, memset}
use os_fall.Fcheck.Image.{read32}
use os_fall.Fcheck.Bits.{checkbit, setbit, unsetbit}

abbrev pub Disk : Type 0
Disk = ℕ → Bytes

-- `bwrite`
abbrev pub put_block : Disk → ℕ → Bytes → Disk
put_block d k m j = if j == k then m else d j

-- BSIZE, BPB, IPB
abbrev pub block_size : ℕ
block_size = 512

abbrev pub bits_per_block : ℕ
bits_per_block = 4096

abbrev pub ipb : ℕ
ipb = 8

-- `sb.size` and `sb.ninodes`, as readsb copies them from block 1.
pub sb_size : Disk → ℕ
sb_size d = read32 (d 1) 0

pub ninodes_of : Disk → ℕ
ninodes_of d = read32 (d 1) 8

-- BBLOCK
abbrev pub bitmap_block : ℕ → ℕ → ℕ
bitmap_block b ninodes = b / bits_per_block + ninodes / ipb + 3

pub bzero : ℕ → Disk → Disk
bzero b d = put_block d b (memset (d b) 0 0 block_size)

-- The inner loop of balloc: the first free bit from `i` on, in `rounds` rounds.
pub find_clear : ℕ → Bytes → ℕ → Option ℕ
find_clear zero m i = none
find_clear (suc rounds) m i =
    let rest = find_clear rounds m (suc i) in if checkbit m i then rest else some i

-- The outer loop of balloc from block `b` on.
pub balloc_loop : ℕ → ℕ → ℕ → ℕ → Disk → Option (ℕ × Disk)
unfolding find_clear
balloc_loop zero size ninodes b d = none
balloc_loop (suc rounds) size ninodes b d =
    let k = bitmap_block b ninodes in
    let rest = balloc_loop rounds size ninodes (b + bits_per_block) d in
    if ltb b size
    then elim (find_clear bits_per_block (d k) 0) [
      | some i ↦ some (b + i, put_block d k (setbit (d k) i))
      | none ↦ rest
    ]
    else none

-- A round for each block of the bitmap; none is left when the loop ends.
pub balloc : Disk → Option (ℕ × Disk)
unfolding balloc_loop sb_size ninodes_of
balloc d = balloc_loop (sb_size d / bits_per_block + 2) (sb_size d) (ninodes_of d) 0 d

-- bfree behind its `bzero`: the superblock is read from the disk as that left it.
pub clear_bit : ℕ → Disk → Option Disk
unfolding ninodes_of
clear_bit b d =
    let k = bitmap_block b (ninodes_of d) in
    let i = b % bits_per_block in
    if checkbit (d k) i then some (put_block d k (unsetbit (d k) i)) else none

pub bfree : ℕ → Disk → Option Disk
unfolding bzero clear_bit
bfree b d = clear_bit b (bzero b d)

-- ===== src/Fcheck/Image.antt =====
-- The disk image of fs.h as fcheck.c reads it through pointers into the mapped file. The image is
-- taken as a total function from offsets to bytes: reads behind the end of the file are not told
-- apart. Numbers are little-endian.
use os_fall.Base.{ℕ, ◌+◌, ◌*◌, ◌/◌, ◌%◌, ◌^◌, Bool, ◌&&◌, ltb, leb}
use os_fall.Str.{Bytes}

pub record Image : Type 0 where
  pub bytes : Bytes
  -- sb->size and sb->ninodes
  pub size : ℕ
  pub ninodes : ℕ

abbrev pub direct_count : ℕ
direct_count = 12

abbrev pub indirect_count : ℕ
indirect_count = 128

abbrev pub inodes_per_block : ℕ
inodes_per_block = 8

abbrev pub root_inode : ℕ
root_inode = 1

-- BSIZE / sizeof(struct dirent)
abbrev pub entry_count : ℕ
entry_count = 32

abbrev pub t_dir : ℕ
t_dir = 1

abbrev pub t_file : ℕ
t_file = 2

unfoldable pub read16 : Bytes → ℕ → ℕ
read16 m a = m a + 256 * m (a + 1)

unfoldable pub read32 : Bytes → ℕ → ℕ
read32 m a = m a + 256 * m (a + 1) + 65536 * m (a + 2) + 16777216 * m (a + 3)

-- The superblock is block 1.
pub image_of : Bytes → Image
image_of m = record { bytes = m; size = read32 m 512; ninodes = read32 m 520 }

module _ (img : Image) where
  -- `inodes[i]` stands at 1024 + 64 * i.
  unfoldable pub type_of : ℕ → ℕ
  type_of i = read16 img.bytes (1024 + 64 * i)

  unfoldable pub nlink_of : ℕ → ℕ
  nlink_of i = read16 img.bytes (1024 + 64 * i + 6)

  unfoldable pub size_of : ℕ → ℕ
  size_of i = read32 img.bytes (1024 + 64 * i + 8)

  -- `inodes[i].addrs[j]`; for j > 12 the code reads on into the inodes behind.
  unfoldable pub addr_of : ℕ → ℕ → ℕ
  addr_of i j = read32 img.bytes (1024 + 64 * i + 12 + 4 * j)

  -- The offset of a block: a product of `uint`s.
  abbrev pub block : ℕ → ℕ
  block b = b * 512 % 2 ^ 32

  -- Entry `k` of the block that `addrs[NDIRECT]` names.
  unfoldable pub indirect_of : ℕ → ℕ → ℕ
  indirect_of i k = read32 img.bytes (block (addr_of i direct_count) + 4 * k)

  -- Directory entry `k` of block `b`.
  unfoldable pub inum_of : ℕ → ℕ → ℕ
  inum_of b k = read16 img.bytes (block b + 16 * k)

  unfoldable pub name_of : ℕ → ℕ → Bytes
  name_of b k x = img.bytes (block b + 16 * k + 2 + x)

  -- `metablocks` of main, where `bitblocks` is sb->size / (BLOCK_SIZE * 8) + 1.
  unfoldable pub metablocks : ℕ
  metablocks = img.ninodes / inodes_per_block + 3 + (img.size / 4096 + 1)

  -- `databitmap` of main.
  unfoldable pub databitmap : Bytes
  databitmap x = img.bytes (1024 + (img.ninodes / inodes_per_block + 1) * 512 + x)

  -- The test `b >= metablocks && b < sb->size`.
  abbrev pub in_data : ℕ → Bool
  in_data b = leb metablocks b && ltb b img.size

  -- The test `inodes[i].type >= 0 && inodes[i].type <= 3` of a `short`.
  abbrev pub known_type : ℕ → Bool
  known_type i = leb (type_of i) 3

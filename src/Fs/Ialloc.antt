-- ===== src/Fs/Ialloc.antt =====
-- ialloc of fs.c: a free inode of the disk is taken.
pub mod Taken
mod Tests
use os_fall.Base.{
  ℕ, zero, suc, ◌+◌, ◌-◌, ◌*◌, ◌/◌, ◌%◌, ◌^◌, ◌≤◌, ◌<◌, min, ◌≡◌, refl, sym, ap, ◌∙◌, ◌≢◌, ◌↔◌, ◌⊎◌,
  inl, inr, Bool, true, false, not, ◌&&◌, ◌||◌, Option, none, some, List, [], ◌∷◌, ◌++◌, map, arith,
  ltb, leb, ◌==◌, if◌then◌else◌, ltb→lt, leb→le, ==_iff, Bool-cases, Option-cases, length,
  get_elem?, get_or, set, take, replicate, modify, find_index, length-append, find_index_lem,
  length-set, length-modify, modify-modify, get_elem?-set_self, get_elem?-set_ne,
  get_elem?-modify_self, get_elem?-modify_ne, get_elem?-lt, length-replicate, word_size, add32,
  sub32, slt, slt-ltb, add32-sub32,
}
use os_fall.Str.{Bytes, memset}
use os_fall.Fcheck.Image.{read16}
use os_fall.Fs.{Disk, put_block, ninodes_of}
use os_fall.Fs.Inode.{Inode, inode_block, inode_at, write16}
use os_fall.Fs.Icache.{iget}

-- `dip->type` of the inode on the disk.
abbrev pub dinode_type : Disk → ℕ → ℕ
dinode_type d inum = read16 (d (inode_block inum)) (inode_at inum)

-- `memset(dip, 0, sizeof(*dip)); dip->type = type;`
pub clear_dinode : Disk → ℕ → ℕ → Disk
clear_dinode d inum type =
    let a = inode_at inum in
    put_block d (inode_block inum) (write16 (memset (d (inode_block inum)) a 0 64) a type)

-- The loop, for the inodes that are left: the number of the first one that is free.
unfoldable pub free_inode : ℕ → ℕ → Disk → Option ℕ
free_inode zero inum d = none
free_inode (suc n) inum d =
    let rest = free_inode n (inum + 1) d in if dinode_type d inum == 0 then some inum else rest

-- What iget gives, and the disk with the inode taken.
abbrev pub with_disk : Disk → Option (ℕ × List Inode) → Option (ℕ × List Inode × Disk)
with_disk e none = none
with_disk e (some (i, js)) = some (i, js, e)

-- What follows the search.
abbrev pub take_inode : ℕ → ℕ → List Inode → Disk → Option ℕ → Option (ℕ × List Inode × Disk)
take_inode dev type ips d none = none
take_inode dev type ips d (some inum) = with_disk (clear_dinode d inum type) (iget dev inum ips)

-- The slot, the cache and the disk; `none` is a panic, of ialloc or of iget.
pub ialloc : ℕ → ℕ → List Inode → Disk → Option (ℕ × List Inode × Disk)
ialloc dev type ips d = take_inode dev type ips d (free_inode (ninodes_of d - 1) 1 d)

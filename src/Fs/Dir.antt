-- ===== src/Fs/Dir.antt =====
-- dirlookup of fs.c. The directory is locked by the caller and stands beside the cache of inodes.
pub mod Entries
pub mod Blocks
pub mod Lookup
pub mod Answers
mod Tests
use os_fall.Base.{
  ℕ, zero, suc, ◌+◌, ◌-◌, ◌*◌, ◌/◌, ◌%◌, ◌^◌, ◌≤◌, ◌<◌, min, ◌≡◌, refl, sym, ap, ◌∙◌, ◌≢◌, ◌↔◌, ◌⊎◌,
  inl, inr, Bool, true, false, not, ◌&&◌, ◌||◌, Option, none, some, List, [], ◌∷◌, ◌++◌, map, arith,
  ltb, leb, ◌==◌, if◌then◌else◌, ltb→lt, leb→le, ==_iff, Bool-cases, Option-cases, length,
  get_elem?, get_or, set, take, replicate, modify, find_index, length-append, find_index_lem,
  length-set, length-modify, modify-modify, get_elem?-set_self, get_elem?-set_ne,
  get_elem?-modify_self, get_elem?-modify_ne, get_elem?-lt, length-replicate, word_size, add32,
  sub32, slt, slt-ltb, add32-sub32,
}
use os_fall.Str.{Bytes, strncmp}
use os_fall.Fcheck.Image.{read16}
use os_fall.Fs.{Disk}
use os_fall.Fs.Inode.{Inode, bmap}
use os_fall.Fs.Icache.{iget}

-- T_DIR, DIRSIZ
abbrev pub type_dir : ℕ
type_dir = 1

abbrev pub dirsiz : ℕ
dirsiz = 14

abbrev pub namecmp : Bytes → Bytes → ℕ
namecmp s t = strncmp s t dirsiz

-- `de->name` of the `struct dirent` at `a`.
abbrev pub name_at : Bytes → ℕ → Bytes
name_at m a x = m (a + 2 + x)

-- `de->inum != 0` and `namecmp(name, de->name) == 0`
abbrev pub is_entry : Bytes → Bytes → ℕ → Bool
is_entry name m a = not (read16 m a == 0) && namecmp name (name_at m a) == 0

-- The inner loop of dirlookup, over the entries of a block that are left from the offset `a` on.
pub scan_dirents : ℕ → ℕ → Bytes → Bytes → Option ℕ
scan_dirents zero a name m = none
scan_dirents (suc n) a name m =
    let rest = scan_dirents n (a + 16) name m in if is_entry name m a then some a else rest

-- How the loops of dirlookup end: in the panic of bmap, at their end, or at an entry, with its offset
-- in the directory and its number.
pub data Looking : Type 0 where
  look_panics : Looking
  missing : Disk → Inode → Looking
  entry_at : ℕ → ℕ → Disk → Inode → Looking

pub look_blocks : ℕ → ℕ → Bytes → Disk → Inode → Looking
look_blocks zero off name d dp = look_panics
look_blocks (suc rounds) off name d dp =
    if ltb off dp.size
    then elim (bmap dp (off / 512) d) [
      | none ↦ look_panics
      | some (b, e, ep) ↦ elim (scan_dirents 32 0 name (e b)) [
        | none ↦ look_blocks rounds (add32 off 512) name e ep
        | some a ↦ entry_at (add32 off a) (read16 (e b) a) e ep
      ]
    ]
    else missing d dp

-- What dirlookup answers: it panics, there is no such entry, or it gives the slot of the inode, the
-- offset of the entry and the cache.
pub data Found : Type 0 where
  stops : Found
  absent : Disk → Inode → Found
  found : ℕ → ℕ → List Inode → Disk → Inode → Found

-- The answer with what iget gives, which may be a panic.
abbrev pub settle_entry : ℕ → Disk → Inode → Option (ℕ × List Inode) → Found
settle_entry off e ep none = stops
settle_entry off e ep (some (i, js)) = found i off js e ep

-- What follows the loops.
abbrev pub settle_lookup : List Inode → Looking → Found
settle_lookup ips look_panics = stops
settle_lookup ips (missing e ep) = absent e ep
settle_lookup ips (entry_at off inum e ep) = settle_entry off e ep (iget ep.dev inum ips)

-- A round of the loop for each block of the largest file, and one to end it.
pub dirlookup : Bytes → List Inode → Disk → Inode → Found
dirlookup name ips d dp =
    if not (dp.type == type_dir) then stops else settle_lookup ips (look_blocks 141 0 name d dp)

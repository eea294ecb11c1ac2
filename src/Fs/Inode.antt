-- ===== src/Fs/Inode.antt =====
-- The inodes of fs.c: a `struct inode` in memory, its copy on the disk, and the blocks of a file.
pub mod Words
pub mod Stages
pub mod Copy
pub mod Slots
pub mod Grow
pub mod Extend
pub mod Entry
pub mod Mapping
pub mod Bmap
pub mod Patch
use os_fall.Base.{
  ℕ, zero, suc, ◌+◌, ◌-◌, ◌*◌, ◌/◌, ◌%◌, ◌^◌, ◌≤◌, ◌<◌, min, ◌≡◌, refl, sym, ap, ◌∙◌, ◌≢◌, ◌↔◌, ◌⊎◌,
  inl, inr, Bool, true, false, not, ◌&&◌, ◌||◌, Option, none, some, List, [], ◌∷◌, ◌++◌, map, arith,
  ltb, leb, ◌==◌, if◌then◌else◌, ltb→lt, leb→le, ==_iff, Bool-cases, Option-cases, length,
  get_elem?, get_or, set, take, replicate, modify, find_index, length-append, find_index_lem,
  length-set, length-modify, modify-modify, get_elem?-set_self, get_elem?-set_ne,
  get_elem?-modify_self, get_elem?-modify_ne, get_elem?-lt, length-replicate, word_size, add32,
  sub32, slt, slt-ltb, add32-sub32,
}
use os_fall.Str.{Bytes, store}
use os_fall.Fcheck.Image.{read16, read32}
use os_fall.Fs.{Disk, put_block, balloc, bfree}

-- NDIRECT, NINDIRECT
abbrev pub ndirect : ℕ
ndirect = 12

abbrev pub nindirect : ℕ
nindirect = 128

-- `struct inode`; I_BUSY and I_VALID of `flags`. A `short` is a number below 2 ^ 16.
pub record Inode : Type 0 where
  pub dev : ℕ
  pub inum : ℕ
  pub ref : ℕ
  pub busy : Bool
  pub valid : Bool
  pub type : ℕ
  pub major : ℕ
  pub minor : ℕ
  pub nlink : ℕ
  pub size : ℕ
  pub addrs : ℕ → ℕ

-- IBLOCK, and where the inode stands in that block.
abbrev pub inode_block : ℕ → ℕ
inode_block inum = inum / 8 + 2

abbrev pub inode_at : ℕ → ℕ
inode_at inum = inum % 8 * 64

pub write16 : Bytes → ℕ → ℕ → Bytes
write16 m a v = store (store m a (v % 256)) (a + 1) (v / 256 % 256)

pub write32 : Bytes → ℕ → ℕ → Bytes
write32 m a v =
    store (store (store (store m a (v % 256)) (a + 1) (v / 256 % 256)) (a + 2) (v / 65536 % 256))
      (a + 3) (v / 16777216 % 256)

-- `memmove` of `n` words to `a`, from word `i` on.
pub write_words : Bytes → ℕ → (ℕ → ℕ) → ℕ → ℕ → Bytes
unfolding write32
write_words m a f i zero = m
write_words m a f i (suc n) = write_words (write32 m a (f i)) (a + 4) f (i + 1) n

-- The assignments to `dip` in iupdate.
pub write_dinode : Bytes → ℕ → Inode → Bytes
unfolding write16 write32 write_words
write_dinode m a ip =
    let m1 = write16 m a ip.type in
    let m2 = write16 m1 (a + 2) ip.major in
    let m3 = write16 m2 (a + 4) ip.minor in
    let m4 = write16 m3 (a + 6) ip.nlink in
    let m5 = write32 m4 (a + 8) ip.size in write_words m5 (a + 12) ip.addrs 0 (ndirect + 1)

pub iupdate : Inode → Disk → Disk
iupdate ip d =
    let k = inode_block ip.inum in put_block d k (write_dinode (d k) (inode_at ip.inum) ip)

-- The assignments from `dip` in ilock.
pub read_dinode : Bytes → ℕ → Inode → Inode
unfolding read16 read32
read_dinode m a ip = record ip {
  type = read16 m a;
  major = read16 m (a + 2);
  minor = read16 m (a + 4);
  nlink = read16 m (a + 6);
  size = read32 m (a + 8);
  addrs = λ i. if leb i ndirect then read32 m (a + 12 + 4 * i) else ip.addrs i;
}

-- ilock once it holds the inode: the inode is read in if it is not valid. `none` is the panic.
pub fill_inode : Disk → Inode → Option Inode
fill_inode d ip =
    let loaded : Inode = record (read_dinode (d (inode_block ip.inum)) (inode_at ip.inum) ip) {
      valid = true;
    } in
    if ip.valid then some ip else if loaded.type == 0 then none else some loaded

-- `ip->addrs[i] = b`
abbrev pub set_addr : ℕ → ℕ → Inode → Inode
set_addr i b ip = record ip { addrs = store ip.addrs i b }

-- `ip->addrs[i]`, with a fresh block if there is none.
unfoldable pub direct_block : ℕ → Disk → Inode → Option (ℕ × Disk × Inode)
direct_block i d ip =
    if ip.addrs i == 0
    then elim (balloc d) [ none ↦ none | some (b, e) ↦ some (b, e, set_addr i b ip) ]
    else some (ip.addrs i, d, ip)

-- Entry `k` of the block `addr`, with a fresh block if there is none. The buffer of `addr` is held
-- while balloc runs.
pub indirect_block : ℕ → ℕ → Disk → Inode → Option (ℕ × Disk × Inode)
indirect_block addr k d ip =
    let m = d addr in
    if read32 m (4 * k) == 0
    then elim (balloc d) [
      | none ↦ none
      | some (b, e) ↦ some (b, put_block e addr (write32 m (4 * k) b), ip)
    ]
    else some (read32 m (4 * k), d, ip)

-- `none` is a panic, its own or that of balloc.
unfoldable pub bmap : Inode → ℕ → Disk → Option (ℕ × Disk × Inode)
bmap ip bn d =
    if ltb bn ndirect
    then direct_block bn d ip
    else if ltb (bn - ndirect) nindirect
    then elim (direct_block ndirect d ip) [
      | none ↦ none
      | some (addr, e, jp) ↦ indirect_block addr (bn - ndirect) e jp
    ]
    else none

-- The first loop of itrunc, from `i` on.
pub free_direct : ℕ → ℕ → Disk → Inode → Option (Disk × Inode)
free_direct zero i d ip = some (d, ip)
free_direct (suc n) i d ip =
    let rest = free_direct n (i + 1) d ip in
    if ip.addrs i == 0 then rest else elim (bfree (ip.addrs i) d) [
      | none ↦ none
      | some e ↦ free_direct n (i + 1) e (set_addr i 0 ip)
    ]

-- The loop of itrunc over the entries of the indirect block, which is in its buffer `m`.
pub free_indirect : ℕ → ℕ → Bytes → Disk → Option Disk
free_indirect zero j m d = some d
free_indirect (suc n) j m d =
    let rest = free_indirect n (j + 1) m d in
    let b = read32 m (4 * j) in
    if b == 0 then rest else elim (bfree b d) [ none ↦ none | some e ↦ free_indirect n (j + 1) m e ]

-- itrunc between its first loop and its last two lines.
pub free_last : Disk → Inode → Option (Disk × Inode)
unfolding free_indirect
free_last d ip =
    let a = ip.addrs ndirect in
    if a == 0 then some (d, ip) else elim (free_indirect nindirect 0 (d a) d) [
      | none ↦ none
      | some e ↦ elim (bfree a e) [ none ↦ none | some f ↦ some (f, set_addr ndirect 0 ip) ]
    ]

pub itrunc : Inode → Disk → Option (Disk × Inode)
unfolding free_direct free_last iupdate
itrunc ip d = elim (free_direct ndirect 0 d ip) [
  | none ↦ none
  | some (e, jp) ↦ elim (free_last e jp) [
    | none ↦ none
    | some (f, kp) ↦ let lp : Inode = record kp { size = 0 } in some (iupdate lp f, lp)
  ]
]

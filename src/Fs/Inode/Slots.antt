-- ===== src/Fs/Inode/Slots.antt =====
-- The blocks of a file and its bytes, and what keeps the blocks of a file apart from all else.
use os_fall.Base.{
  ℕ, ◌+◌, ◌-◌, ◌*◌, ◌/◌, ◌%◌, ◌≤◌, ◌<◌, ◌≡◌, refl, sym, ap, ◌≢◌, true, false, arith, ltb, ◌==◌,
  if◌then◌else◌,
}
use os_fall.Fcheck.Image.{read32}
use os_fall.Fs.{Disk, sb_size, ninodes_of, bitmap_block}
use os_fall.Fs.Alloc.{is_used, AreBlocks}
use os_fall.Fs.Inode.{Inode}

-- Entry `k` of the indirect block, 0 if there is no such block.
abbrev pub entry : Disk → Inode → ℕ → ℕ
entry d ip k = if ip.addrs 12 == 0 then 0 else read32 (d (ip.addrs 12)) (4 * k)

-- The address of block `i` of the file, and at 140 that of the indirect block; 0 is none.
unfoldable pub slot : Disk → Inode → ℕ → ℕ
slot d ip i =
    if ltb i 12 then ip.addrs i else if ltb i 140 then entry d ip (i - 12) else ip.addrs 12

-- The bytes of a file. A block that is not there is zero.
pub byte_at : Disk → Inode → ℕ → ℕ
byte_at d ip x = if slot d ip (x / 512) == 0 then 0 else d (slot d ip (x / 512)) (x % 512)

-- The last block of the bitmap.
abbrev pub last_bitmap : Disk → ℕ
last_bitmap d = bitmap_block (sb_size d) (ninodes_of d)

-- Block `b` has a bit in the bitmap that balloc reads.
abbrev pub IsInside : Disk → ℕ → Type 0
IsInside d b = b / 4096 * 4096 < sb_size d

-- Block `b` stands behind the bitmap, and is one that balloc can give.
abbrev pub IsBehind : Disk → ℕ → Type 0
IsBehind d b = (last_bitmap d < b) × IsInside d b

-- A disk of bytes: everything up to the last block of the bitmap is in use, and a free block is zero.
pub record IsDisk (d : Disk) : Type 0 where
  pub bytes : AreBlocks d
  pub room : last_bitmap d < sb_size d
  pub meta : (j : ℕ) → j ≤ last_bitmap d → is_used (ninodes_of d) d j ≡ true
  pub clean : (b x : ℕ) → IsBehind d b → is_used (ninodes_of d) d b ≡ false → x < 512 → d b x ≡ 0

-- A file on such a disk: its blocks are in use, stand behind the bitmap, and no two are the same.
pub record IsFile (d : Disk) (ip : Inode) : Type 0 where
  pub disk : IsDisk d
  pub known : ip.inum < ninodes_of d
  pub used : (i : ℕ) → i ≤ 140 → slot d ip i ≢ 0 → is_used (ninodes_of d) d (slot d ip i) ≡ true
  pub behind : (i : ℕ) → i ≤ 140 → slot d ip i ≢ 0 → IsBehind d (slot d ip i)
  pub apart : (i j : ℕ) → i ≤ 140 → j ≤ 140 → slot d ip i ≢ 0 → slot d ip i ≡ slot d ip j → i ≡ j

-- Nothing but the bytes of block 1 is read of the superblock.
pub super_same : (d e : Disk) → d 1 ≡ e 1 → (sb_size e ≡ sb_size d) × (ninodes_of e ≡ ninodes_of d)
unfolding sb_size ninodes_of
super_same d e h = (ap (λ m. read32 m 0) (sym h), ap (λ m. read32 m 8) (sym h))

pub slot-direct : (d : Disk) (ip : Inode) (i : ℕ) → i < 12 → slot d ip i ≡ ip.addrs i
unfolding slot
slot-direct d ip i lt = ground arith

pub slot-entry : (d : Disk) (ip : Inode) (k : ℕ) → k < 128 → slot d ip (12 + k) ≡ entry d ip k
unfolding slot
slot-entry d ip k lt =
    let low : ltb (12 + k) 12 ≡ false = ground arith in
    let high : ltb (12 + k) 140 ≡ true = ground arith in
    let back : 12 + k - 12 ≡ k = omega arith in rw (low, high, back) refl

pub slot-last : (d : Disk) (ip : Inode) → slot d ip 140 ≡ ip.addrs 12
unfolding slot
slot-last d ip = refl

pub byte_at-none : (d : Disk) (ip : Inode) (x : ℕ) → slot d ip (x / 512) ≡ 0 → byte_at d ip x ≡ 0
unfolding byte_at
byte_at-none d ip x h = rw h refl

pub byte_at-some :
    (d : Disk) (ip : Inode) (x s : ℕ)
    → slot d ip (x / 512) ≡ s
    → s ≢ 0
    → byte_at d ip x ≡ d s (x % 512)
unfolding byte_at
byte_at-some d ip x s h ne =
    let some_block : (s == 0) ≡ false = ground arith in rw (h, some_block) refl

-- The blocks of a file are those of its addresses alone.
pub slot-size : (d : Disk) (ip : Inode) (s i : ℕ) → slot d (record ip { size = s }) i ≡ slot d ip i
unfolding slot
slot-size d ip s i = refl

pub size-IsFile : (d : Disk) (ip : Inode) (s : ℕ) → IsFile d ip → IsFile d (record ip { size = s })
unfolding slot
size-IsFile d ip s w = record {
  disk = w.disk;
  known = w.known;
  used = w.used;
  behind = w.behind;
  apart = w.apart;
}

pub byte_at-size :
    (d : Disk) (ip : Inode) (s x : ℕ) → byte_at d (record ip { size = s }) x ≡ byte_at d ip x
unfolding byte_at slot
byte_at-size d ip s x = refl

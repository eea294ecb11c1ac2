-- ===== src/Fs/Dir/Tests.antt =====
-- A lookup in a directory of one block.
use os_fall.Base.{
  ℕ, zero, suc, ◌≤◌, ◌≡◌, refl, sym, ap, ◌∙◌, ◌≢◌, true, false, ◌&&◌, ◌||◌, [], ◌∷◌, arith, ◌==◌,
  if◌then◌else◌,
}
use os_fall.Str.{Bytes, strncmp, strncmp_from}
use os_fall.Str.Compare.{AreBytes}
use os_fall.Fcheck.Image.{read16, read32}
use os_fall.Fcheck.Bits.{checkbit}
use os_fall.Fs.{Disk, sb_size, ninodes_of}
use os_fall.Fs.Alloc.{is_used}
use os_fall.Fs.Inode.{Inode, bmap, direct_block}
use os_fall.Fs.Inode.Slots.{slot, IsFile}
use os_fall.Fs.Icache.{iget, search_from}
use os_fall.Fs.Dir.{found, scan_dirents, look_blocks, dirlookup}
use os_fall.Fs.Dir.Answers.{LooksUp, dirlookup_lem}

-- 20 blocks and 8 inodes, of which the first six blocks are in use. Block 5 has an entry "hi" with number
-- 7 behind an entry that is not in use.
abbrev disk : Disk
disk k x =
    if k == 1 && x == 0
    then 20
    else if k == 1 && x == 8
    then 8
    else if k == 4 && x == 0
    then 63
    else if k == 5 && x == 16
    then 7
    else if k == 5 && (x == 2 || x == 18)
    then b'h'
    else if k == 5 && (x == 3 || x == 19)
    then b'i'
    else 0

abbrev folder : Inode
folder = record {
  dev = 1;
  inum = 1;
  ref = 1;
  busy = true;
  valid = true;
  type = 1;
  major = 0;
  minor = 0;
  nlink = 1;
  size = 32;
  addrs = λ i. if i == 0 then 5 else 0;
}

folder_slot : (i : ℕ) → slot disk folder i ≡ (if i == 0 then 5 else 0)
unfolding slot
folder_slot i = ground arith

size_20 : sb_size disk ≡ 20
unfolding sb_size read32
size_20 = refl

ninodes_8 : ninodes_of disk ≡ 8
unfolding ninodes_of read32
ninodes_8 = refl

low_used : (j : ℕ) → j ≤ 5 → is_used 8 disk j ≡ true
unfolding checkbit
low_used zero h = refl
low_used (suc zero) h = refl
low_used (suc (suc zero)) h = refl
low_used (suc (suc (suc zero))) h = refl
low_used (suc (suc (suc (suc zero)))) h = refl
low_used (suc (suc (suc (suc (suc zero))))) h = refl
low_used (suc (suc (suc (suc (suc (suc j)))))) h = absurd (omega arith)

only_first : (i : ℕ) → slot disk folder i ≢ 0 → i ≡ 0
only_first i ne = let s = folder_slot i in ground (arith, ne, s)

first_block : (i : ℕ) → slot disk folder i ≢ 0 → slot disk folder i ≡ 5
first_block i ne = let s = folder_slot i in ground (arith, ne, s)

free_block : (b : ℕ) → is_used 8 disk b ≡ false → b ≢ 5
free_block b free same =
    let used = low_used 5 (omega arith) in
    let clash : is_used 8 disk 5 ≡ false = ap (is_used 8 disk) (sym same) ∙ free in
    ground (arith, used, clash)

folder-IsFile : IsFile disk folder
folder-IsFile = record {
  disk = record {
    bytes = λ k x. ground arith;
    room = omega (arith, size_20, ninodes_8);
    meta = λ j le. rw ninodes_8 (low_used j (omega (arith, le, size_20, ninodes_8)));
    clean = λ b x h free lt.
        let apart = free_block b (rw ninodes_8 at free) in
        ground (arith, h.0, size_20, ninodes_8, apart);
  };
  known = omega (arith, ninodes_8);
  used = λ i le ne. rw (first_block i ne, ninodes_8) (low_used 5 (omega arith));
  behind =
      λ i le ne. rw (first_block i ne) (omega (arith, size_20, ninodes_8), omega (arith, size_20));
  apart = λ i j li lj ne same.
      let nj : slot disk folder j ≢ 0 = λ z. ne (same ∙ z) in
      only_first i ne ∙ sym (only_first j nj);
}

abbrev name : Bytes
name x = if x == 0 then b'h' else if x == 1 then b'i' else 0

name-AreBytes : AreBytes name
name-AreBytes x = ground arith

abbrev other : Bytes
other x = if x == 0 then b'h' else 0

abbrev unused_slot : Inode
unused_slot = record folder { dev = 0; inum = 0; ref = 0; busy = false; valid = false }

-- The entry in use is found, and its inode gets the free slot.
finds_hi :
    dirlookup name (folder ∷ unused_slot ∷ []) disk folder
    ≡ found 1 16 (folder ∷ record unused_slot { dev = 1; inum = 7; ref = 1 } ∷ []) disk folder
unfolding dirlookup look_blocks scan_dirents strncmp strncmp_from bmap direct_block read16 iget
    search_from
finds_hi = refl

dirlookup_lem_example :
    LooksUp name
      (folder ∷ unused_slot ∷ [])
      disk
      folder
      (dirlookup name (folder ∷ unused_slot ∷ []) disk folder)
dirlookup_lem_example =
    dirlookup_lem name (folder ∷ unused_slot ∷ []) disk folder name-AreBytes folder-IsFile refl
      (omega arith)

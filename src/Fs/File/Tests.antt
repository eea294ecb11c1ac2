-- ===== src/Fs/File/Tests.antt =====
-- Runs of the inode and file functions.
use os_fall.Base.{
  ℕ, zero, suc, ◌+◌, ◌≤◌, ◌<◌, ◌≡◌, refl, ◌≢◌, ◌⊎◌, Bool, true, false, ◌&&◌, none, some, arith, ltb,
  ◌==◌, if◌then◌else◌,
}
use os_fall.Str.{Bytes, store}
use os_fall.Str.Compare.{AreBytes}
use os_fall.Fcheck.Image.{read32}
use os_fall.Fcheck.Bits.{setbit, checkbit}
use os_fall.Fs.{Disk, put_block, sb_size, ninodes_of, balloc}
use os_fall.Fs.Inode.{Inode, inode_block, inode_at, iupdate, fill_inode, bmap, direct_block}
use os_fall.Fs.Inode.Stages.{SameCopy}
use os_fall.Fs.Inode.Copy.{ilock-iupdate}
use os_fall.Fs.Inode.Slots.{slot, IsFile}
use os_fall.Fs.Inode.Mapping.{Maps}
use os_fall.Fs.Inode.Bmap.{bmap_lem}
use os_fall.Fs.Alloc.{is_used}
use os_fall.Fs.File.{done, readi, writei, write_loop, update_size, move_in}
use os_fall.Fs.File.Calls.{ReadsFile, readi_lem, WritesFile, writei_lem}
use os_fall.Fs.File.Again.{readi-writei}

-- 20 blocks and 8 inodes; the bitmap, block 4, has the first five blocks in use.
abbrev disk : Disk
disk k x =
    if k == 1 && x == 0
    then 20
    else if k == 1 && x == 8
    then 8
    else if k == 4 && x == 0
    then 31
    else 0

-- An empty file.
abbrev blank : Inode
blank = record {
  dev = 0;
  inum = 1;
  ref = 1;
  busy = true;
  valid = true;
  type = 2;
  major = 0;
  minor = 0;
  nlink = 1;
  size = 0;
  addrs = λ i. 0;
}

blank_slot : (i : ℕ) → slot disk blank i ≡ 0
unfolding slot
blank_slot i = ground arith

size_20 : sb_size disk ≡ 20
unfolding sb_size read32
size_20 = refl

ninodes_8 : ninodes_of disk ≡ 8
unfolding ninodes_of read32
ninodes_8 = refl

low_used : (j : ℕ) → j ≤ 4 → is_used 8 disk j ≡ true
unfolding checkbit
low_used zero h = refl
low_used (suc zero) h = refl
low_used (suc (suc zero)) h = refl
low_used (suc (suc (suc zero))) h = refl
low_used (suc (suc (suc (suc zero)))) h = refl
low_used (suc (suc (suc (suc (suc j))))) h = absurd (omega arith)

blank-IsFile : IsFile disk blank
blank-IsFile = record {
  disk = record {
    bytes = λ k x. ground arith;
    room = omega (arith, size_20, ninodes_8);
    meta = λ j le. rw ninodes_8 (low_used j (omega (arith, le, size_20, ninodes_8)));
    clean = λ b x h free lt. ground (arith, h.0, size_20, ninodes_8);
  };
  known = omega (arith, ninodes_8);
  used = λ i le ne. absurd (ne (blank_slot i));
  behind = λ i le ne. absurd (ne (blank_slot i));
  apart = λ i j li lj ne same. absurd (ne (blank_slot i));
}

bmap_lem_example : Maps disk blank 0 (bmap blank 0 disk)
bmap_lem_example = bmap_lem disk blank 0 blank-IsFile (omega arith)

abbrev no_device : ℕ → Bool
no_device m = false

-- "hi!"
abbrev greeting : Bytes
greeting x = if x == 0 then b'h' else if x == 1 then b'i' else if x == 2 then b'!' else 0

greeting-AreBytes : AreBytes greeting
greeting-AreBytes x = ground arith

readi_lem_example :
    ReadsFile no_device disk blank greeting 0 5 (readi no_device disk blank greeting 0 5)
readi_lem_example =
    readi_lem no_device disk blank blank-IsFile (omega arith) greeting 0 5 (omega arith)
      (omega arith)

writei_lem_example :
    WritesFile no_device disk blank greeting 0 3 (writei no_device disk blank greeting 0 3)
writei_lem_example =
    writei_lem no_device disk blank blank-IsFile (omega arith) greeting 0 3 greeting-AreBytes
      (omega arith) (omega arith)

-- The file behind the write: block 5 is its first.
abbrev longer : Inode
longer = record blank { addrs = store (λ i. 0) 0 5; size = 3 }

abbrev disk_after : Disk
disk_after =
    iupdate longer
      (put_block (put_block disk 4 (setbit (disk 4) 5)) 5 (move_in (disk 5) 0 greeting 0 3))

writes_greeting : writei no_device disk blank greeting 0 3 ≡ done 3 (disk_after, longer)
unfolding writei write_loop bmap direct_block balloc update_size read32 checkbit
writes_greeting = refl

readi-writei_example :
    (out : Bytes) × (readi no_device disk_after longer (λ x. 0) 0 3
      ≡ done 3 (disk_after, longer, out))
    × ((x : ℕ) → out x ≡ (if ltb x 3 then greeting x else 0))
readi-writei_example =
    readi-writei no_device disk disk_after blank longer greeting (λ x. 0) 0 3 3 blank-IsFile
      (omega arith) greeting-AreBytes (omega arith) (omega arith) writes_greeting

abbrev cold : Inode
cold = record blank { valid = false; type = 0; nlink = 0 }

ilock-iupdate_example :
    (((longer.type ≡ 0) × (fill_inode (iupdate longer disk) cold ≡ none))
      ⊎ ((longer.type ≢ 0)
          × (kp : Inode) × (fill_inode (iupdate longer disk) cold ≡ some kp)
          × SameCopy longer kp))
    × ((n x : ℕ)
        → n ≢ longer.inum
        → x < 64
        → iupdate longer disk (inode_block n) (inode_at n + x)
          ≡ disk (inode_block n) (inode_at n + x))
ilock-iupdate_example =
    ilock-iupdate disk longer cold
      (record {
        type_fits = omega arith;
        major_fits = omega arith;
        minor_fits = omega arith;
        nlink_fits = omega arith;
        size_fits = omega arith;
        addrs_fit = λ i le. ground arith;
      })
      refl refl

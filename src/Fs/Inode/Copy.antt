-- ===== src/Fs/Inode/Copy.antt =====
-- The copy of an inode on the disk: iupdate writes it, and ilock reads it.
use os_fall.Base.{
  ℕ, ◌+◌, ◌%◌, ◌<◌, ◌≡◌, refl, sym, ap, ◌∙◌, ◌≢◌, ◌⊎◌, inl, inr, true, false, none, some, arith,
  ltb, ◌==◌, if◌then◌else◌, ==_iff, Bool-cases,
}
use os_fall.Str.{Bytes}
use os_fall.Str.Compare.{AreBytes}
use os_fall.Fs.{Disk}
use os_fall.Fs.Inode.{Inode, inode_block, inode_at, write_dinode, iupdate, read_dinode, fill_inode}
use os_fall.Fs.Inode.Stages.{
  Fits, SameCopy, write_dinode-outside, write_dinode-AreBytes, read_dinode-SameCopy,
}

fill_inode-eq :
    (d : Disk) (jp : Inode) (m : Bytes) (a : ℕ)
    → jp.valid ≡ false
    → d (inode_block jp.inum) ≡ m
    → inode_at jp.inum ≡ a
    → fill_inode d jp ≡ (
        if (read_dinode m a jp).type == 0
        then none
        else some (record (read_dinode m a jp) { valid = true }))
unfolding fill_inode
fill_inode-eq d jp m a valid block at = rw (valid, block, at) refl

iupdate-own :
    (d : Disk) (ip : Inode)
    → iupdate ip d (inode_block ip.inum)
      ≡ write_dinode (d (inode_block ip.inum)) (inode_at ip.inum) ip
unfolding iupdate
iupdate-own d ip =
    let own : (inode_block ip.inum == inode_block ip.inum) ≡ true = ground arith in rw own refl

pub iupdate-elsewhere :
    (d : Disk) (ip : Inode) (k : ℕ) → k ≢ inode_block ip.inum → iupdate ip d k ≡ d k
unfolding iupdate
iupdate-elsewhere d ip k ne =
    let other : (k == inode_block ip.inum) ≡ false = ground arith in rw other refl

pub iupdate-AreBytes : (d : Disk) (ip : Inode) (k : ℕ) → AreBytes (d k) → AreBytes (iupdate ip d k)
unfolding iupdate
iupdate-AreBytes d ip k h = elim (Bool-cases (k == inode_block ip.inum)) [
  | inl e ↦
      let same : inode_block ip.inum ≡ k = sym ((==_iff _ _).0 e) in
      rw e (rw same (write_dinode-AreBytes (d k) (inode_at ip.inum) ip h))
  | inr e ↦ rw e h
]

-- The other inodes of the disk.
iupdate-others :
    (d : Disk) (ip : Inode) (n x : ℕ)
    → n ≢ ip.inum
    → x < 64
    → iupdate ip d (inode_block n) (inode_at n + x) ≡ d (inode_block n) (inode_at n + x)
iupdate-others d ip n x ne lt = elim (Bool-cases (inode_block n == inode_block ip.inum)) [
  | inl e ↦
      let same : inode_block n ≡ inode_block ip.inum = (==_iff _ _).0 e in
      ap (λ k. iupdate ip d k (inode_at n + x)) same
      ∙ ap (λ m. m (inode_at n + x)) (iupdate-own d ip)
      ∙ write_dinode-outside (d (inode_block ip.inum)) (inode_at ip.inum) ip (inode_at n + x)
          (elim (Bool-cases (ltb (n % 8) (ip.inum % 8))) [
            | inl l ↦ inl (ground arith)
            | inr l ↦ inr (ground (arith, same))
          ])
      ∙ ap (λ k. d k (inode_at n + x)) (sym same)
  | inr e ↦ ap (λ m. m (inode_at n + x)) (iupdate-elsewhere d ip (inode_block n) (ground arith))
]

-- iupdate and then ilock of an inode that is not valid, with the same number: if its type is 0 ilock
-- panics, and if not, it is read in as it was written. The other inodes of the disk stay as they were.
pub ilock-iupdate :
    (d : Disk) (ip jp : Inode)
    → Fits ip
    → jp.inum ≡ ip.inum
    → jp.valid ≡ false
    → (((ip.type ≡ 0) × (fill_inode (iupdate ip d) jp ≡ none))
        ⊎ ((ip.type ≢ 0)
            × (kp : Inode) × (fill_inode (iupdate ip d) jp ≡ some kp)
            × SameCopy ip kp))
      × ((n x : ℕ)
          → n ≢ ip.inum
          → x < 64
          → iupdate ip d (inode_block n) (inode_at n + x) ≡ d (inode_block n) (inode_at n + x))
ilock-iupdate d ip jp f num valid =
    let k = inode_block ip.inum in
    let a = inode_at ip.inum in
    let m = write_dinode (d k) a ip in
    let same = read_dinode-SameCopy (d k) a ip jp f in
    let runs =
      fill_inode-eq (iupdate ip d) jp m a valid
        (ap (λ z. iupdate ip d (inode_block z)) num ∙ iupdate-own d ip) (ap inode_at num) in
    (
      elim (Bool-cases ((read_dinode m a jp).type == 0)) [
        | inl e ↦ inl (sym same.same_type ∙ (==_iff _ _).0 e, runs ∙ rw e refl)
        | inr e ↦ inr (
          (let written = same.same_type in ground (arith, e, written)),
          record (read_dinode m a jp) { valid = true },
          runs ∙ rw e refl,
          record {
            same_type = same.same_type;
            same_major = same.same_major;
            same_minor = same.same_minor;
            same_nlink = same.same_nlink;
            same_size = same.same_size;
            same_addrs = same.same_addrs;
          },
        )
      ],
      λ n x ne lt. iupdate-others d ip n x ne lt,
    )

-- ===== src/Fs/Ialloc/Taken.antt =====
-- Which inode ialloc takes, and what becomes of the disk.
use mathlib.Core.Path.{subst}
use os_fall.Base.{
  ℕ, zero, suc, ◌+◌, ◌-◌, ◌%◌, ◌≤◌, ◌<◌, ◌≡◌, refl, sym, ap, ◌∙◌, ◌≢◌, ◌⊎◌, inl, inr, true, false,
  Option, none, some, List, arith, ltb, ◌==◌, ==_iff, Bool-cases,
}
use os_fall.Str.{memset}
use os_fall.Str.Fill.{memset_lem}
use os_fall.Fcheck.Image.{read16}
use os_fall.Fs.{Disk, ninodes_of}
use os_fall.Fs.Inode.{Inode, inode_block, inode_at, write16}
use os_fall.Fs.Inode.Words.{write16-outside, read16-write16}
use os_fall.Fs.Icache.{iget}
use os_fall.Fs.Ialloc.{dinode_type, clear_dinode, free_inode, with_disk, take_inode, ialloc}

-- No inode of a number from `lo` to below `hi` is free.
abbrev pub AllInUse : Disk → ℕ → ℕ → Type 0
AllInUse d lo hi = (n : ℕ) → lo ≤ n → n < hi → dinode_type d n ≢ 0

abbrev pub FirstFreeFrom : Disk → ℕ → ℕ → Option ℕ → Type 0
FirstFreeFrom d lo hi none = AllInUse d lo hi
FirstFreeFrom d lo hi (some n) = (lo ≤ n) × (n < hi) × (dinode_type d n ≡ 0) × AllInUse d lo n

AllInUse-cons :
    (d : Disk) (lo hi : ℕ) → dinode_type d lo ≢ 0 → AllInUse d (lo + 1) hi → AllInUse d lo hi
AllInUse-cons d lo hi used h n ge lt = elim (Bool-cases (lo == n)) [
  | inl e ↦ let same : lo ≡ n = (==_iff lo n).0 e in λ z. used (ap (dinode_type d) same ∙ z)
  | inr e ↦ h n (ground arith) lt
]

FirstFreeFrom-cons :
    (d : Disk) (lo hi : ℕ) (o : Option ℕ)
    → dinode_type d lo ≢ 0
    → FirstFreeFrom d (lo + 1) hi o
    → FirstFreeFrom d lo hi o
FirstFreeFrom-cons d lo hi none used h = AllInUse-cons d lo hi used h
FirstFreeFrom-cons d lo hi (some k) used (ge, lt, is_free, before) =
    (omega (arith, ge), lt, is_free, AllInUse-cons d lo k used before)

free_inode_lem : (n lo : ℕ) (d : Disk) → FirstFreeFrom d lo (lo + n) (free_inode n lo d)
unfolding free_inode
free_inode_lem zero lo d = λ n ge lt. absurd (omega (arith, ge, lt))
free_inode_lem (suc n) lo d = elim (Bool-cases (dinode_type d lo == 0)) [
  | inl e ↦ rw e (
    omega arith,
    omega arith,
    (==_iff (dinode_type d lo) 0).0 e,
    λ k ge lt. absurd (omega (arith, ge, lt)),
  )
  | inr e ↦
      let used : dinode_type d lo ≢ 0 = ground (arith, e) in
      let next : lo + 1 + n ≡ lo + suc n = omega arith in
      rw e (
        subst (λ z. FirstFreeFrom d lo z (free_inode n (lo + 1) d)) next
          (FirstFreeFrom-cons d lo (lo + 1 + n) _ used (free_inode_lem n (lo + 1) d)))
]

-- The disk behind ialloc: the inode has its type and is zero but for that, and the others stay.
pub record Cleared (d : Disk) (inum type : ℕ) (e : Disk) : Type 0 where
  its_type : dinode_type e inum ≡ type
  zeros : (x : ℕ) → 2 ≤ x → x < 64 → e (inode_block inum) (inode_at inum + x) ≡ 0
  others :
      (n x : ℕ)
      → n ≢ inum
      → x < 64
      → e (inode_block n) (inode_at n + x) ≡ d (inode_block n) (inode_at n + x)
  elsewhere : (k : ℕ) → k ≢ inode_block inum → e k ≡ d k

clear_dinode-own :
    (d : Disk) (inum type : ℕ)
    → clear_dinode d inum type (inode_block inum)
      ≡ write16 (memset (d (inode_block inum)) (inode_at inum) 0 64) (inode_at inum) type
unfolding clear_dinode
clear_dinode-own d inum type =
    let own : (inode_block inum == inode_block inum) ≡ true = ground arith in rw own refl

clear_dinode-elsewhere :
    (d : Disk) (inum type k : ℕ) → k ≢ inode_block inum → clear_dinode d inum type k ≡ d k
unfolding clear_dinode
clear_dinode-elsewhere d inum type k ne =
    let other : (k == inode_block inum) ≡ false = ground arith in rw other refl

clear_dinode-others :
    (d : Disk) (inum type n x : ℕ)
    → n ≢ inum
    → x < 64
    → clear_dinode d inum type (inode_block n) (inode_at n + x) ≡ d (inode_block n) (inode_at n + x)
clear_dinode-others d inum type n x ne lt = elim (Bool-cases (inode_block n == inode_block inum)) [
  | inl e ↦
      let same : inode_block n ≡ inode_block inum = (==_iff _ _).0 e in
      let m = d (inode_block inum) in
      let apart : (inode_at n + x < inode_at inum) ⊎ (inode_at inum + 64 ≤ inode_at n + x) =
        elim (Bool-cases (ltb (n % 8) (inum % 8))) [
          | inl l ↦ inl (ground arith)
          | inr l ↦ inr (ground (arith, same))
        ] in
      ap (λ k. clear_dinode d inum type k (inode_at n + x)) same
      ∙ ap (λ m. m (inode_at n + x)) (clear_dinode-own d inum type)
      ∙ write16-outside (memset m (inode_at inum) 0 64) (inode_at inum) type (inode_at n + x)
          (ground (arith, apart))
      ∙ memset_lem m (inode_at inum) 0 64 (inode_at n + x)
      ∙ ground (arith, apart)
      ∙ ap (λ k. d k (inode_at n + x)) (sym same)
  | inr e ↦
      ap (λ m. m (inode_at n + x))
        (clear_dinode-elsewhere d inum type (inode_block n) (ground arith))
]

clear_dinode-Cleared :
    (d : Disk) (inum type : ℕ) → type < 65536 → Cleared d inum type (clear_dinode d inum type)
clear_dinode-Cleared d inum type fits =
    let m = memset (d (inode_block inum)) (inode_at inum) 0 64 in
    record {
      its_type =
          ap (λ z. read16 z (inode_at inum)) (clear_dinode-own d inum type)
          ∙ read16-write16 m (inode_at inum) type fits;
      zeros = λ x ge lt.
          ap (λ z. z (inode_at inum + x)) (clear_dinode-own d inum type)
          ∙ write16-outside m (inode_at inum) type (inode_at inum + x) (inr (omega (arith, ge)))
          ∙ memset_lem (d (inode_block inum)) (inode_at inum) 0 64 (inode_at inum + x)
          ∙ ground (arith, lt);
      others = λ n x ne lt. clear_dinode-others d inum type n x ne lt;
      elsewhere = λ k ne. clear_dinode-elsewhere d inum type k ne;
    }

abbrev pub Takes : ℕ → ℕ → List Inode → Disk → Option (ℕ × List Inode × Disk) → Type 0
Takes dev type ips d none =
    AllInUse d 1 (ninodes_of d)
    ⊎ ((inum : ℕ) × FirstFreeFrom d 1 (ninodes_of d) (some inum) × (iget dev inum ips ≡ none))
Takes dev type ips d (some (i, js, e)) =
    (inum : ℕ) × FirstFreeFrom d 1 (ninodes_of d) (some inum)
    × (iget dev inum ips ≡ some (i, js))
    × Cleared d inum type e

with_disk-Takes :
    (dev type inum : ℕ) (ips : List Inode) (d : Disk) (o : Option (ℕ × List Inode))
    → type < 65536
    → FirstFreeFrom d 1 (ninodes_of d) (some inum)
    → iget dev inum ips ≡ o
    → Takes dev type ips d (with_disk (clear_dinode d inum type) o)
with_disk-Takes dev type inum ips d none fits chosen h = inr (inum, chosen, h)
with_disk-Takes dev type inum ips d (some (i, js)) fits chosen h =
    (inum, chosen, h, clear_dinode-Cleared d inum type fits)

take_inode-Takes :
    (dev type : ℕ) (ips : List Inode) (d : Disk) (o : Option ℕ)
    → type < 65536
    → FirstFreeFrom d 1 (ninodes_of d) o
    → Takes dev type ips d (take_inode dev type ips d o)
take_inode-Takes dev type ips d none fits first = inl first
take_inode-Takes dev type ips d (some inum) fits first =
    with_disk-Takes dev type inum ips d (iget dev inum ips) fits first refl

-- ialloc takes the first inode of the disk, from number 1 on, that is free: it gives what iget gives for
-- this number. On the disk the inode then has the type and is zero but for that, and no other inode
-- and no other block has changed. It panics only if no inode is free or iget does so.
pub ialloc_lem :
    (dev type : ℕ) (ips : List Inode) (d : Disk)
    → 0 < ninodes_of d
    → type < 65536
    → Takes dev type ips d (ialloc dev type ips d)
unfolding ialloc
ialloc_lem dev type ips d some_inodes fits =
    let whole : 1 + (ninodes_of d - 1) ≡ ninodes_of d = omega arith in
    take_inode-Takes dev type ips d (free_inode (ninodes_of d - 1) 1 d) fits (
      subst (λ z. FirstFreeFrom d 1 z (free_inode (ninodes_of d - 1) 1 d)) whole
        (free_inode_lem (ninodes_of d - 1) 1 d))

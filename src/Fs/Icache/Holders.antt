-- ===== src/Fs/Icache/Holders.antt =====
-- Who holds references to the cached inodes, as calls of iget, idup, ilock, iunlock and iput follow
-- each other. A call that panics or sleeps makes no step.
use os_fall.Base.{
  ℕ, suc, ◌+◌, ◌^◌, ◌<◌, ◌≡◌, inr, Bool, Option, some, List, [], ◌∷◌, ◌++◌, ◌==◌, if◌then◌else◌,
  length, get_elem?, modify,
}
use os_fall.Proc.Types.{Kernel}
use os_fall.Fs.Inode.{Inode}
use os_fall.Fs.Icache.{empties, iget, idup, iput_first, iput_last, ilock, iunlock}

-- A reference: the slot that iget returned, for that device and number.
pub record Held : Type 0 where
  pub at : ℕ
  pub dev : ℕ
  pub inum : ℕ

-- How many of the references are to the slot.
abbrev pub refs : ℕ → List Held → ℕ
refs n [] = 0
refs n (h ∷ hs) = (if h.at == n then 1 else 0) + refs n hs

module _ (K : Type 0) (inode_at : ℕ → ℕ) where
  -- The caches and references that the calls lead to, from a cache without references.
  pub data IcacheRun : List Inode → List Held → Type 0 where
    starts :
        (ips : List Inode)
        → ((n : ℕ) (ip : Inode) → get_elem? ips n ≡ some ip → ip.ref ≡ 0)
        → IcacheRun ips []
    gets :
        (ips js : List Inode) (hs : List Held) (dev inum i : ℕ)
        → IcacheRun ips hs
        → suc (length hs) < 2 ^ 31
        → iget dev inum ips ≡ some (i, js)
        → IcacheRun js (record { at = i; dev = dev; inum = inum } ∷ hs)
    dups :
        (ips : List Inode) (hs : List Held) (m : ℕ) (h : Held)
        → IcacheRun ips hs
        → suc (length hs) < 2 ^ 31
        → get_elem? hs m ≡ some h
        → IcacheRun (idup h.at ips) (h ∷ hs)
    locks :
        (ips js : List Inode) (hs : List Held) (me : Option ℕ) (lock i : ℕ) (ip : Inode)
        → (k : Kernel K) → IcacheRun ips hs
        → ilock inode_at me lock i ip ips k ≡ some (inr js)
        → IcacheRun js hs
    unlocks :
        (ips js : List Inode) (hs : List Held) (i : ℕ) (ip : Inode) (k l : Kernel K)
        → IcacheRun ips hs
        → iunlock inode_at i ip ips k ≡ some (js, l)
        → IcacheRun js hs
    -- What the holder of the lock of an inode writes in it.
    writes :
        (ips : List Inode) (hs : List Held) (i : ℕ) (f : Inode → Inode)
        → ((ip : Inode) → ((f ip).dev ≡ ip.dev) × ((f ip).inum ≡ ip.inum) × ((f ip).ref ≡ ip.ref))
        → IcacheRun ips hs
        → IcacheRun (modify ips i f) hs
    emptied :
        (ips js : List Inode) (hs : List Held) (i : ℕ) (ip : Inode)
        → IcacheRun ips hs
        → iput_first i ip ips ≡ empties js
        → IcacheRun js hs
    puts :
        (ips : List Inode) (ys zs : List Held) (h : Held) (b : Bool) (k : Kernel K)
        → IcacheRun ips (ys ++ (h ∷ zs))
        → IcacheRun (iput_last inode_at b h.at ips k).0 (ys ++ zs)

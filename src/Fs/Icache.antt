-- ===== src/Fs/Icache.antt =====
-- The cache of inodes of fs.c. An inode is named by its index in `icache.inode`. A call runs under the
-- lock of the cache as one step; ilock ends at a `sleep`, and iput gives the lock up while it empties
-- the file.
pub mod Find
pub mod Holders
pub mod Counts
pub mod Unique
pub mod Sharing
mod Tests
use os_fall.Base.{
  ℕ, zero, suc, ◌+◌, ◌-◌, ◌*◌, ◌/◌, ◌%◌, ◌^◌, ◌≤◌, ◌<◌, min, ◌≡◌, refl, sym, ap, ◌∙◌, ◌≢◌, ◌↔◌, ◌⊎◌,
  inl, inr, Bool, true, false, not, ◌&&◌, ◌||◌, Option, none, some, List, [], ◌∷◌, ◌++◌, map, arith,
  ltb, leb, ◌==◌, if◌then◌else◌, ltb→lt, leb→le, ==_iff, Bool-cases, Option-cases, length,
  get_elem?, get_or, set, take, replicate, modify, find_index, length-append, find_index_lem,
  length-set, length-modify, modify-modify, get_elem?-set_self, get_elem?-set_ne,
  get_elem?-modify_self, get_elem?-modify_ne, get_elem?-lt, length-replicate, word_size, add32,
  sub32, slt, slt-ltb, add32-sub32,
}
use os_fall.Proc.Types.{Kernel, Result}
use os_fall.Proc.Sleep.{sleep, sleep_return, wakeup}
use os_fall.Fs.{Disk}
use os_fall.Fs.Inode.{Inode, fill_inode, itrunc, iupdate}

-- `ip->ref > 0 && ip->dev == dev && ip->inum == inum`
abbrev pub is_cached : ℕ → ℕ → Inode → Bool
is_cached dev inum ip = slt 0 ip.ref && ip.dev == dev && ip.inum == inum

abbrev pub is_vacant : Inode → Bool
is_vacant ip = ip.ref == 0

-- What the loop of iget comes to: the inode, or the first slot that is free.
pub data Search : Type 0 where
  cached : ℕ → Search
  vacant : Option ℕ → Search

-- `if(empty == 0 && ip->ref == 0) empty = ip;`
abbrev pub remember : Option ℕ → ℕ → Inode → Option ℕ
remember (some j) i ip = some j
remember none i ip = if is_vacant ip then some i else none

-- The loop of iget from the slot `i` on.
unfoldable pub search_from : ℕ → ℕ → List Inode → ℕ → Option ℕ → Search
search_from dev inum [] i empty = vacant empty
search_from dev inum (ip ∷ ips) i empty =
    let rest = search_from dev inum ips (i + 1) (remember empty i ip) in
    if is_cached dev inum ip then cached i else rest

-- `ip->ref++`; an `int`.
abbrev pub referred : Inode → Inode
referred ip = record ip { ref = add32 ip.ref 1 }

abbrev pub refilled : ℕ → ℕ → Inode → Inode
refilled dev inum ip = record ip { dev = dev; inum = inum; ref = 1; busy = false; valid = false }

-- What iget does with what the loop came to; `none` is the panic.
abbrev pub settle : ℕ → ℕ → List Inode → Search → Option (ℕ × List Inode)
settle dev inum ips (cached i) = some (i, modify ips i referred)
settle dev inum ips (vacant none) = none
settle dev inum ips (vacant (some i)) = some (i, modify ips i (refilled dev inum))

-- The index and the cache.
unfoldable pub iget : ℕ → ℕ → List Inode → Option (ℕ × List Inode)
iget dev inum ips = settle dev inum ips (search_from dev inum ips 0 none)

pub idup : ℕ → List Inode → List Inode
idup i ips = modify ips i referred

-- Whether iput empties the file first.
abbrev pub is_last : Inode → Bool
is_last ip = ip.ref == 1 && ip.valid && ip.nlink == 0

-- How the first part of iput ends: in its panic, with the file to be emptied, or at the second part.
pub data Putting : Type 0 where
  put_busy : Putting
  empties : List Inode → Putting
  drops : Putting

pub iput_first : ℕ → Inode → List Inode → Putting
iput_first i ip ips =
    if is_last ip
    then if ip.busy then put_busy else empties (modify ips i (λ jp. record jp { busy = true }))
    else drops

-- itrunc and the lines up to the second `acquire`, on the inode and its disk.
pub iput_empty : Inode → Disk → Option (Disk × Inode)
iput_empty ip d = elim (itrunc ip d) [
  | none ↦ none
  | some (e, jp) ↦ let kp : Inode = record jp { type = 0 } in some (iupdate kp e, kp)
]

-- `ip->ref--`
abbrev pub dropped : Inode → Inode
dropped ip = record ip { ref = sub32 ip.ref 1 }

abbrev pub unflagged : Inode → Inode
unflagged ip = record ip { busy = false; valid = false }

module _ {K : Type 0} (inode_at : ℕ → ℕ) where
  -- The second part of iput, behind an emptied file or not.
  pub iput_last : Bool → ℕ → List Inode → Kernel K → List Inode × Kernel K
  iput_last true i ips k = (modify (modify ips i unflagged) i dropped, wakeup (inode_at i) k)
  iput_last false i ips k = (modify ips i dropped, k)

  -- ilock up to the reading of the disk; `none` is the panic, and a call that sleeps starts its loop anew.
  pub ilock :
      Option ℕ → ℕ → ℕ → Inode → List Inode → Kernel K → Option (Result (Kernel K) ⊎ List Inode)
  ilock me lock i ip ips k =
      if slt ip.ref 1
      then none
      else if ip.busy
      then some (inl (sleep me (inode_at i) lock k))
      else some (inr (modify ips i (λ jp. record jp { busy = true })))

  pub iunlock : ℕ → Inode → List Inode → Kernel K → Option (List Inode × Kernel K)
  iunlock i ip ips k =
      if not ip.busy || slt ip.ref 1
      then none
      else some (modify ips i (λ jp. record jp { busy = false }), wakeup (inode_at i) k)

-- ===== src/Proc/Calls.antt =====
-- The ticket system calls of xv62/xv6/kernel/sysproc.c. An argument that `argint` could not fetch is
-- `none`. The process table is always the one of proc.c.
use os_fall.Base.{ℕ, Option, none, some, List, [], ◌∷◌, if◌then◌else◌, get_elem?, slt}
use os_fall.Proc.Types.{Proc, Kernel, Services, is_unused, minus_one}
use os_fall.Proc.Tickets.{setp_tickets}
use os_fall.Proc.Create.{growproc}
use os_fall.Proc.Sleep.{kill}

-- The entries of `struct pstat` for one slot.
pub record Stat : Type 0 where
  pub inuse : ℕ
  pub tickets : ℕ
  pub pid : ℕ
  pub ticks : ℕ

-- The loop of `sys_getpinfo`: an unused slot leaves the caller's entry as it was.
unfoldable pub fill_stats : List Proc → List Stat → List Stat
fill_stats [] ss = ss
fill_stats (p ∷ ps) [] = []
fill_stats (p ∷ ps) (s ∷ ss) =
    (if is_unused p
      then s
      else record { inuse = p.inuse; tickets = p.tickets; pid = p.pid; ticks = p.ticks })
    ∷ fill_stats ps ss

module _ {K : Type 0} where
  -- `setp_tickets(ptable.proc, n)`: slot 0, whoever calls.
  unfoldable pub sys_settickets : Option ℕ → Kernel K → ℕ × Kernel K
  sys_settickets none k = (minus_one, k)
  sys_settickets (some n) k = (0, setp_tickets k 0 n)

  unfoldable pub sys_kill : Option ℕ → Kernel K → ℕ × Kernel K
  sys_kill none k = (minus_one, k)
  sys_kill (some pid) k = kill pid k

  -- A null pointer panics.
  unfoldable pub sys_getpinfo : Option (List Stat) → Kernel K → Option (ℕ × List Stat)
  sys_getpinfo none k = none
  sys_getpinfo (some ss) k = some (0, fill_stats k.procs ss)

  unfoldable pub sys_sbrk : Services K → Option ℕ → ℕ → Kernel K → ℕ × Kernel K
  sys_sbrk os none me k = (minus_one, k)
  sys_sbrk os (some n) me k = elim (get_elem? k.procs me) [
    | none ↦ (minus_one, k)
    | some p ↦ let (r, k1) = growproc os me n k in if slt r 0 then (minus_one, k1) else (p.sz, k1)
  ]

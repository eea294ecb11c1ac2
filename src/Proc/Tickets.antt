-- ===== src/Proc/Tickets.antt =====
-- The ticket counters of proc.c. Pointer arguments are slots; one that names no slot changes nothing.
use os_fall.Base.{ℕ, none, some, get_elem?, modify, add32, sub32}
use os_fall.Proc.Types.{Proc, Kernel}

abbrev pub put_tickets : ℕ → Proc → Proc
put_tickets a p = record p { tickets = a }

module _ {K : Type 0} where
  -- `total_tickets -= p->tickets;`
  unfoldable pub store_tickets : Kernel K → ℕ → Kernel K
  store_tickets k i = elim (get_elem? k.procs i) [
    | none ↦ k
    | some p ↦ record k { total_tickets = sub32 k.total_tickets p.tickets }
  ]

  -- `total_tickets += p->tickets;`
  unfoldable pub get_tickets : Kernel K → ℕ → Kernel K
  get_tickets k i = elim (get_elem? k.procs i) [
    | none ↦ k
    | some p ↦ record k { total_tickets = add32 k.total_tickets p.tickets }
  ]

  unfoldable pub setp_tickets : Kernel K → ℕ → ℕ → Kernel K
  setp_tickets k i a = elim (get_elem? k.procs i) [
    | none ↦ k
    | some p ↦ record k {
      procs = modify k.procs i (put_tickets a);
      total_tickets = add32 (sub32 k.total_tickets p.tickets) a;
    }
  ]

-- ===== src/Proc/Balance.antt =====
-- `total_tickets` is the number of tickets of the processes that are not asleep.
use os_fall.Base.{
  ℕ, ◌+◌, ◌-◌, ◌%◌, ◌<◌, ◌≡◌, false, some, List, arith, get_elem?, modify, word_size, add32, sub32,
}
use os_fall.Proc.Types.{Proc, Kernel, is_sleeping}
use os_fall.Proc.Tickets.{setp_tickets, put_tickets}
use os_fall.Proc.Active.{
  weight, active, Words, active-modify, weight-le-active, Words-get_elem?, Words-modify,
  active-modify_same,
}

pub record IsSum (ps : List Proc) (total : ℕ) : Type 0 where
  pub sum : total ≡ active ps % word_size
  pub words : Words ps

abbrev pub Balanced : {K : Type 0} → Kernel K → Type 0
Balanced k = IsSum k.procs k.total_tickets

-- A write that keeps ticket counts words.
abbrev pub KeepsWords : (Proc → Proc) → Type 0
KeepsWords f = (p : Proc) → p.tickets < word_size → (f p).tickets < word_size

-- A write that moves the total by the change of the slot's weight keeps the sum.
pub write-IsSum :
    (ps : List Proc) (total total' i : ℕ) (f : Proc → Proc) (p : Proc)
    → IsSum ps total
    → get_elem? ps i ≡ some p
    → KeepsWords f
    → total' ≡ (total + word_size + weight (f p) - weight p) % word_size
    → IsSum (modify ps i f) total'
write-IsSum ps total total' i f p b at hw e = record {
  sum = omega (
    arith,
    b.sum,
    e,
    active-modify ps i f p at,
    weight-le-active ps i p at,
    Words-get_elem? ps i p b.words at,
    small,
  );
  words = Words-modify ps i f b.words hw;
}
  where
    small : weight p < word_size
    small = ground (arith, Words-get_elem? ps i p b.words at)

-- A write that leaves the weight of the slot as it was.
pub same-IsSum :
    (ps : List Proc) (total i : ℕ) (f : Proc → Proc)
    → IsSum ps total
    → KeepsWords f
    → ((p : Proc) → get_elem? ps i ≡ some p → weight (f p) ≡ weight p)
    → IsSum (modify ps i f) total
same-IsSum ps total i f b hw h = record {
  sum = rw (active-modify_same ps i f h) b.sum;
  words = Words-modify ps i f b.words hw;
}

module _ {K : Type 0} where
  pub setp_tickets-some :
      (k : Kernel K) (i a : ℕ) (p : Proc)
      → get_elem? k.procs i ≡ some p
      → setp_tickets k i a ≡ record k {
        procs = modify k.procs i (put_tickets a);
        total_tickets = add32 (sub32 k.total_tickets p.tickets) a;
      }
  unfolding setp_tickets
  setp_tickets-some k i a p at = rw (at, setp_tickets)

  -- setp_tickets on a process that is not asleep keeps the balance.
  pub setp_tickets-Balanced :
      (k : Kernel K) (i a : ℕ) (p : Proc)
      → Balanced k
      → get_elem? k.procs i ≡ some p
      → is_sleeping p ≡ false
      → a < word_size
      → Balanced (setp_tickets k i a)
  unfolding setp_tickets
  setp_tickets-Balanced k i a p b at awake small =
      rw (at, setp_tickets)
        (write-IsSum k.procs k.total_tickets _ i (put_tickets a) p b at (λ _ _. small)
          (ground (arith, Words-get_elem? k.procs i p b.words at)))

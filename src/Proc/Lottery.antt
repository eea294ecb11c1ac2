-- ===== src/Proc/Lottery.antt =====
-- The lottery of `scheduler` in proc.c.
pub mod Shares
pub mod Turns
use os_fall.Base.{ℕ, ◌+◌, ◌%◌, not, List, [], ◌∷◌, ◌==◌, if◌then◌else◌, add32, sub32, slt}
use os_fall.Proc.Types.{running, Proc, Kernel, is_runnable, with_slot}

-- The scan for the winner: the slot that runs next, none, or the panic.
pub data Draw : Type 0 where
  winner : ℕ → Draw
  nobody : Draw
  overrun : Draw

-- `i` is the slot of the first process in the list and `count` the tickets counted before it.
unfoldable pub draw : List Proc → ℕ → ℕ → ℕ → ℕ → Draw
draw [] ticket total count i = nobody
draw (p ∷ ps) ticket total count i =
    let sum = if is_runnable p then add32 count p.tickets else count in
    let later = draw ps ticket total sum (i + 1) in
    if not (is_runnable p)
    then later
    else if slt sum ticket
    then later
    else if slt total sum
    then overrun
    else winner i

abbrev pub start_running : Proc → Proc
start_running p = record p { state = running; inuse = 1 }

-- `p->ticks += ticks - start_bit`
abbrev pub add_ticks : ℕ → ℕ → Proc → Proc
add_ticks start now p = record p { ticks = add32 p.ticks (sub32 now start) }

-- One turn of the scheduler's loop, down to the switch to the process.
pub data Turn (K : Type 0) : Type 0 where
  runs : ℕ → Kernel K → Turn K
  idles : Turn K
  exceeds : Turn K
  divides_by_zero : Turn K

module _ {K : Type 0} where
  unfoldable pub turn_of : Draw → Kernel K → Turn K
  turn_of (winner i) k = runs i (with_slot k i start_running)
  turn_of nobody k = idles
  turn_of overrun k = exceeds

  -- `r` is the value that `rand` returned; `rand()%(total_tickets+1)` is a division of `uint`s.
  unfoldable pub turn : ℕ → Kernel K → Turn K
  turn r k =
      if add32 k.total_tickets 1 == 0
      then divides_by_zero
      else turn_of (draw k.procs (r % add32 k.total_tickets 1) k.total_tickets 0 0) k

  -- After the switch back: `start` and `now` are `ticks` at the two switches.
  unfoldable pub charge : ℕ → ℕ → ℕ → Kernel K → Kernel K
  charge i start now k = with_slot k i (add_ticks start now)

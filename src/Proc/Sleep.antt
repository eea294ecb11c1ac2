-- ===== src/Proc/Sleep.antt =====
-- sleep, wakeup1, wakeup, kill and yield of proc.c, each as one step under the table's lock. A call
-- of `sched` ends a step: what follows it in the source is a step of its own.
use os_fall.Base.{
  ℕ, Bool, true, ◌&&◌, Option, none, some, List, [], ◌∷◌, ◌==◌, if◌then◌else◌, get_elem?,
  find_index, add32,
}
use os_fall.Proc.Types.{
  ProcState, sleeping, runnable, Proc, Kernel, Result, ok, panic, sleep_without_proc,
  sleep_without_lock, is_sleeping, with_slot, minus_one,
}
use os_fall.Proc.Tickets.{store_tickets, get_tickets}

abbrev pub fall_asleep : ℕ → Proc → Proc
fall_asleep c p = record p { chan = c; state = sleeping }

abbrev pub set_state : ProcState → Proc → Proc
set_state s p = record p { state = s }

abbrev pub tidy_up : Proc → Proc
tidy_up p = record p { chan = 0 }

abbrev pub mark_killed : Proc → Proc
mark_killed p = record p { killed = true }

-- `p->state == SLEEPING && p->chan == chan`
abbrev pub sleeps_on : ℕ → Proc → Bool
sleeps_on c p = is_sleeping p && p.chan == c

-- The loop of `wakeup1`. The `if` has no braces, so that it guards `get_tickets(p)` alone.
unfoldable pub wake_loop : ℕ → List Proc → ℕ → ℕ
wake_loop c [] total = total
wake_loop c (p ∷ ps) total = wake_loop c ps (if sleeps_on c p then add32 total p.tickets else total)

module _ {K : Type 0} where
  -- `sleep` down to its call of `sched`. `me` is `proc`, and `lk` the address of the lock.
  unfoldable pub sleep : Option ℕ → ℕ → ℕ → Kernel K → Result (Kernel K)
  sleep none c lk k = panic sleep_without_proc
  sleep (some me) c lk k =
      if lk == 0
      then panic sleep_without_lock
      else ok (store_tickets (with_slot k me (fall_asleep c)) me)

  -- `sleep` after `sched` has returned.
  unfoldable pub sleep_return : ℕ → Kernel K → Kernel K
  sleep_return me k = with_slot k me tidy_up

  -- `p->state = RUNNABLE` stands behind the loop, where `p` is one slot past the table.
  unfoldable pub wakeup1 : ℕ → Kernel K → Kernel K
  wakeup1 c k = record k { total_tickets = wake_loop c k.procs k.total_tickets; past = runnable }

  -- `wakeup` takes the lock around `wakeup1`.
  unfoldable pub wakeup : ℕ → Kernel K → Kernel K
  wakeup c k = wakeup1 c k

  -- The `if` of `kill` has no braces either: the slot becomes runnable whatever its state was.
  unfoldable pub kill_slot : ℕ → Proc → Kernel K → Kernel K
  kill_slot i p k =
      let k1 = with_slot k i mark_killed in
      with_slot (if is_sleeping p then get_tickets k1 i else k1) i (set_state runnable)

  unfoldable pub kill : ℕ → Kernel K → ℕ × Kernel K
  kill pid k = elim (find_index (λ (p : Proc). p.pid == pid) k.procs) [
    | none ↦ (minus_one, k)
    | some i ↦ elim (get_elem? k.procs i) [ none ↦ (minus_one, k) | some p ↦ (0, kill_slot i p k) ]
  ]

  -- `yield` down to its call of `sched`.
  unfoldable pub yield_cpu : ℕ → Kernel K → Kernel K
  yield_cpu me k = with_slot k me (set_state runnable)

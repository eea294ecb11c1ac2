-- ===== src/Proc/Keep.antt =====
-- Which calls keep `total_tickets` equal to the tickets of the processes that are not asleep.
use os_fall.Base.{
  ℕ, ◌<◌, ◌≡◌, refl, ap, ◌∙◌, ◌≢◌, inl, inr, false, some, arith, ◌==◌, Bool-cases, Option-cases,
  get_elem?, modify, find_index, find_index_lem, modify-modify, get_elem?-modify_self,
  get_elem?-modify_ne, word_size, add32, sub32,
}
use os_fall.Proc.Types.{sleeping, runnable, Proc, Kernel, ok, is_sleeping, with_slot}
use os_fall.Proc.Calls.{sys_settickets}
use os_fall.Proc.Tickets.{put_tickets, setp_tickets, store_tickets, get_tickets}
use os_fall.Proc.Active.{Words-get_elem?}
use os_fall.Proc.Balance.{Balanced, write-IsSum, setp_tickets-Balanced}
use os_fall.Proc.Sleep.{fall_asleep, set_state, mark_killed, sleep, kill_slot, kill, yield_cpu}

-- A slot that sleeps on the channel, but for which it is as it was.
pub record Slept (c : ℕ) (p q : Proc) : Type 0 where
  asleep : q.state ≡ sleeping
  channel : q.chan ≡ c
  rest : record q { state = p.state; chan = p.chan } ≡ p

module _ {K : Type 0} where
  -- On a table with balanced tickets, sleep of a process that is awake, with a lock, succeeds: the
  -- caller is asleep on the channel and otherwise as it was, its tickets have left the total, which
  -- stays balanced, and the other slots are as before.
  pub sleep-Balanced :
      (k : Kernel K) (me c lk : ℕ) (p : Proc)
      → Balanced k
      → get_elem? k.procs me ≡ some p
      → is_sleeping p ≡ false
      → lk ≢ 0
      → (t : Kernel K) × (sleep (some me) c lk k ≡ ok t)
        × Balanced t
        × (add32 t.total_tickets p.tickets ≡ k.total_tickets)
        × ((q : Proc) × (get_elem? t.procs me ≡ some q) × Slept c p q)
        × ((j : ℕ) → me ≢ j → get_elem? t.procs j ≡ get_elem? k.procs j)
  unfolding sleep store_tickets
  sleep-Balanced k me c lk p b at awake held =
      let slept = get_elem?-modify_self k.procs me (fall_asleep c) at in
      (
        record (with_slot k me (fall_asleep c)) { total_tickets = sub32 k.total_tickets p.tickets },
        rw (lock_test, slept, store_tickets),
        write-IsSum k.procs k.total_tickets _ me (fall_asleep c) p b at (λ _ h. h)
            (ground (arith, Words-get_elem? k.procs me p b.words at, b.sum)),
        ground (arith, Words-get_elem? k.procs me p b.words at, b.sum),
        (fall_asleep c p, slept, record { asleep = refl; channel = refl; rest = refl }),
        λ j ne. get_elem?-modify_ne k.procs me j (fall_asleep c) ne,
      )
    where
      lock_test : (lk == 0) ≡ false
      lock_test = ground arith

  get_tickets-some :
      (k : Kernel K) (i : ℕ) (p : Proc)
      → get_elem? k.procs i ≡ some p
      → get_tickets k i ≡ record k { total_tickets = add32 k.total_tickets p.tickets }
  unfolding get_tickets
  get_tickets-some k i p at = rw (at, get_tickets)

  kill_slot-Balanced :
      (k : Kernel K) (i : ℕ) (p : Proc)
      → Balanced k
      → get_elem? k.procs i ≡ some p
      → Balanced (kill_slot i p k)
  unfolding kill_slot
  kill_slot-Balanced k i p b at = elim (Bool-cases (is_sleeping p)) [
    | inl asleep ↦
        rw
          (
            asleep,
            get_tickets-some (with_slot k i mark_killed) i (mark_killed p) marked,
            modify-modify k.procs i mark_killed (set_state runnable),
          )
          (write-IsSum k.procs k.total_tickets _ i (λ q. set_state runnable (mark_killed q)) p b at
            (λ _ h. h) (ground arith))
    | inr awake ↦
        rw (awake, modify-modify k.procs i mark_killed (set_state runnable))
          (write-IsSum k.procs k.total_tickets _ i (λ q. set_state runnable (mark_killed q)) p b at
            (λ _ h. h) (ground arith))
  ]
    where
      marked : get_elem? (modify k.procs i mark_killed) i ≡ some (mark_killed p)
      marked = get_elem?-modify_self k.procs i mark_killed at

  -- kill puts the tickets of a sleeping process back, and keeps the balance on every branch.
  pub kill-Balanced : (k : Kernel K) (pid : ℕ) → Balanced k → Balanced (kill pid k).1
  unfolding kill
  kill-Balanced k pid b = elim (Option-cases (find_index (λ (p : Proc). p.pid == pid) k.procs)) [
    | inl e ↦ rw (e, kill) b
    | inr (i, e) ↦
        let (p, at, _) = find_index_lem _ k.procs i e in
        rw (e, at, kill) (kill_slot-Balanced k i p b at)
  ]

  -- A process that yields, and the winner of a lottery, keep their tickets in the total.
  pub yield_cpu-Balanced :
      (k : Kernel K) (me : ℕ) (p : Proc)
      → Balanced k
      → get_elem? k.procs me ≡ some p
      → is_sleeping p ≡ false
      → Balanced (yield_cpu me k)
  unfolding yield_cpu
  yield_cpu-Balanced k me p b at awake =
      write-IsSum k.procs k.total_tickets k.total_tickets me (set_state runnable) p b at (λ _ h. h)
        (ground (arith, b.sum))

  -- On a table with balanced tickets whose slot 0 is not asleep, sys_settickets of a word gives the
  -- tickets to slot 0, whichever process calls, changes no other slot and keeps the balance.
  pub sys_settickets_lem :
      (k : Kernel K) (n : ℕ) (p : Proc)
      → Balanced k
      → get_elem? k.procs 0 ≡ some p
      → is_sleeping p ≡ false
      → n < word_size
      → ((sys_settickets (some n) k).0 ≡ 0)
        × Balanced (sys_settickets (some n) k).1
        × (get_elem? (sys_settickets (some n) k).1.procs 0 ≡ some (put_tickets n p))
        × ((j : ℕ) → 0 ≢ j → get_elem? (sys_settickets (some n) k).1.procs j ≡ get_elem? k.procs j)
  unfolding sys_settickets setp_tickets
  sys_settickets_lem k n p b at awake small =
      let changed : (setp_tickets k 0 n).procs ≡ modify k.procs 0 (put_tickets n) =
        rw (at, setp_tickets) refl in
      (
        refl,
        setp_tickets-Balanced k 0 n p b at awake small,
        ap (λ ps. get_elem? ps 0) changed ∙ get_elem?-modify_self k.procs 0 (put_tickets n) at,
        λ j other.
            ap (λ ps. get_elem? ps j) changed
            ∙ get_elem?-modify_ne k.procs 0 j (put_tickets n) other,
      )

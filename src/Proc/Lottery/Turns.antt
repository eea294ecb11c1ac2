-- ===== src/Proc/Lottery/Turns.antt =====
-- A turn of the scheduler on a table whose tickets are balanced, and the number of tickets by which
-- each process is selected.
use os_fall.Base.{
  ℕ, zero, suc, ◌+◌, ◌%◌, ◌^◌, ◌≤◌, ◌<◌, min, ◌≡◌, refl, ◌≢◌, ◌↔◌, inl, inr, Bool, true, false,
  some, List, [], ◌∷◌, arith, ◌==◌, if◌then◌else◌, Bool-cases, get_elem?, take, add32, ap, ◌∙◌,
  get_elem?-modify_self, get_elem?-modify_ne,
}
use os_fall.Proc.Types.{running, Proc, Kernel, is_runnable, with_slot}
use os_fall.Proc.Active.{active}
use os_fall.Proc.Balance.{Balanced}
use os_fall.Proc.Lottery.{
  Draw, winner, nobody, overrun, draw, runs, exceeds, divides_by_zero, turn, turn_of, start_running,
}
use os_fall.Proc.Lottery.Shares.{
  runnable_tickets, any_runnable, first_ticket, runnable_tickets-le-active, draw-ne-overrun,
  draw-winner, draw_iff, none-runnable,
}

abbrev pub won_by : Draw → ℕ → Bool
won_by (winner i) j = i == j
won_by _ j = false

-- How many of the tickets 0 to n - 1 select slot `j`.
pub tally : List Proc → ℕ → ℕ → ℕ → ℕ
tally ps total j zero = 0
tally ps total j (suc n) = tally ps total j n + (if won_by (draw ps n total 0 0) j then 1 else 0)

won_by-winner : (d : Draw) (j : ℕ) → won_by d j ≡ true → d ≡ winner j
won_by-winner (winner i) j h = ground arith
won_by-winner nobody j h = cc
won_by-winner overrun j h = cc

won_by_iff : (d : Draw) (j : ℕ) → (won_by d j ≡ true) ↔ (d ≡ winner j)
won_by_iff d j = (won_by-winner d j, λ e. rw e (ground arith))

runnable_tickets-take-le :
    (ps : List Proc) (j : ℕ) (p : Proc)
    → get_elem? ps j ≡ some p
    → is_runnable p ≡ true
    → runnable_tickets (take j ps) + p.tickets ≤ runnable_tickets ps
runnable_tickets-take-le [] j p e r = cc
runnable_tickets-take-le (q ∷ ps) zero p e r = ground arith
runnable_tickets-take-le (q ∷ ps) (suc j) p e r = omega (arith, runnable_tickets-take-le ps j p e r)

module _ (ps : List Proc) (total j : ℕ) (p : Proc) (fits : runnable_tickets ps ≤ total)
    (small : total + 1 < 2 ^ 31) (at : get_elem? ps j ≡ some p)
    (can_run : is_runnable p ≡ true) where
  selects :
      (n : ℕ)
      → n ≤ total
      → (won_by (draw ps n total 0 0) j ≡ true)
        ↔ (first_ticket ps j ≤ n) × (n ≤ runnable_tickets (take j ps) + p.tickets)
  selects n h = ground (
    arith,
    won_by_iff (draw ps n total 0 0) j,
    draw_iff ps n total 0 0 j p (omega arith) (omega arith) (omega arith) at can_run,
  )

  tally-interval :
      (n : ℕ)
      → n ≤ total + 1
      → tally ps total j n + min n (first_ticket ps j)
        ≡ min n (runnable_tickets (take j ps) + p.tickets + 1)
  unfolding tally
  tally-interval zero h = omega arith
  tally-interval (suc n) h = ground (arith, tally-interval n, selects n)

  -- On a table whose runnable tickets are at most the total, which is below 2 ^ 31 - 1: of the total + 1
  -- values that the drawn ticket can take, a runnable process is selected by as many as it has
  -- tickets, and by one more if it is the first runnable process in the table.
  pub tally-tickets :
      tally ps total j (total + 1) ≡ p.tickets + (if any_runnable (take j ps) then 0 else 1)
  tally-tickets = ground (
    arith,
    tally-interval (total + 1),
    runnable_tickets-take-le ps j p at can_run,
    none-runnable (take j ps),
  )

-- A slot that the scheduler has started, but for which it is as it was.
pub record Started (p q : Proc) : Type 0 where
  is_running : q.state ≡ running
  in_use : q.inuse ≡ 1
  rest : record q { state = p.state; inuse = p.inuse } ≡ p

module _ {K : Type 0} where
  turn_of_safe :
      (d : Draw) (k : Kernel K)
      → d ≢ overrun
      → (turn_of d k ≢ exceeds) × (turn_of d k ≢ divides_by_zero)
  unfolding turn_of
  turn_of_safe (winner i) k h = ((λ e. cc), λ e. cc)
  turn_of_safe nobody k h = ((λ e. cc), λ e. cc)
  turn_of_safe overrun k h = absurd (h refl)

module _ {K : Type 0} (k : Kernel K) (b : Balanced k) (small : active k.procs + 1 < 2 ^ 31) where
  -- The total is exact, and so is the number of values of the drawn ticket.
  total_exact : k.total_tickets ≡ active k.procs
  total_exact = omega (arith, b.sum)

  turn_draws :
      (r : ℕ)
      → (t : ℕ) × (t ≤ k.total_tickets)
        × (turn r k ≡ turn_of (draw k.procs t k.total_tickets 0 0) k)
  unfolding turn
  turn_draws r = elim (Bool-cases (add32 k.total_tickets 1 == 0)) [
    | inl e ↦ absurd (ground (arith, total_exact))
    | inr e ↦ rw e (r % add32 k.total_tickets 1, omega (arith, total_exact), refl)
  ]

  -- A turn neither panics nor divides by zero, whatever number was drawn.
  pub turn_safe : (r : ℕ) → (turn r k ≢ exceeds) × (turn r k ≢ divides_by_zero)
  turn_safe r =
      let (t, le, e) = turn_draws r in
      rw e (
        turn_of_safe _ k (
          draw-ne-overrun k.procs t k.total_tickets 0 0
            (omega (arith, total_exact, runnable_tickets-le-active k.procs))
            (omega (arith, total_exact)) (omega (arith, total_exact))))

  -- On a table whose tickets are balanced, with those of the processes that are not asleep below
  -- 2 ^ 31 - 1: when every such ticket belongs to a process that can run, and one can run, each turn
  -- selects a process of the table that can run, whatever number was drawn. Its slot is then running
  -- and in use, and is otherwise as it was, as are the other slots and the total.
  pub turn_runs :
      (r : ℕ)
      → runnable_tickets k.procs ≡ active k.procs
      → any_runnable k.procs ≡ true
      → (j : ℕ) × (p : Proc) × (t : Kernel K) × (turn r k ≡ runs j t)
        × (get_elem? k.procs j ≡ some p)
        × (is_runnable p ≡ true)
        × ((q : Proc) × (get_elem? t.procs j ≡ some q) × Started p q)
        × ((i : ℕ) → j ≢ i → get_elem? t.procs i ≡ get_elem? k.procs i)
        × (t.total_tickets ≡ k.total_tickets)
  unfolding turn_of
  turn_runs r all some_one =
      let (t, le, e) = turn_draws r in
      let (j, won, (n, p, at, there, can)) =
        draw-winner k.procs t k.total_tickets 0 0 (omega (arith, total_exact))
          (omega (arith, total_exact)) (omega (arith, total_exact)) (inl some_one) in
      let here : get_elem? k.procs j ≡ some p =
        ap (get_elem? k.procs) {x = j} {y = n} (omega (arith, at)) ∙ there in
      (
        j,
        p,
        with_slot k j start_running,
        rw (e, won) refl,
        here,
        can,
        (
          start_running p,
          get_elem?-modify_self k.procs j start_running here,
          record { is_running = refl; in_use = refl; rest = refl },
        ),
        λ i ne. get_elem?-modify_ne k.procs j i start_running ne,
        refl,
      )

-- ===== src/Proc/Lottery/Shares.antt =====
-- Which process a drawn ticket selects.
use os_fall.Base.{
  ℕ, zero, suc, ◌+◌, ◌^◌, ◌≤◌, ◌<◌, ◌≡◌, refl, ◌≢◌, ◌↔◌, ◌⊎◌, inl, inr, Bool, true, false, ◌||◌,
  some, List, [], ◌∷◌, arith, ltb, if◌then◌else◌, ltb→lt, Bool-cases, get_elem?, take, add32,
  slt-ltb,
}
use os_fall.Proc.Types.{Proc, is_runnable}
use os_fall.Proc.Active.{active}
use os_fall.Proc.Lottery.{winner, overrun, draw}

-- The tickets of the runnable processes.
abbrev pub runnable_tickets : List Proc → ℕ
runnable_tickets [] = 0
runnable_tickets (p ∷ ps) = (if is_runnable p then p.tickets else 0) + runnable_tickets ps

abbrev pub any_runnable : List Proc → Bool
any_runnable [] = false
any_runnable (p ∷ ps) = is_runnable p || any_runnable ps

-- The first ticket that falls to slot `j`: ticket 0 goes to the first runnable process.
abbrev pub first_ticket : List Proc → ℕ → ℕ
first_ticket ps j = if any_runnable (take j ps) then runnable_tickets (take j ps) + 1 else 0

pub runnable_tickets-le-active : (ps : List Proc) → runnable_tickets ps ≤ active ps
runnable_tickets-le-active [] = omega arith
runnable_tickets-le-active (p ∷ ps) = ground (arith, runnable_tickets-le-active ps)

-- The loop's step at a process that cannot run, and at one whose tickets fit.
draw-skip :
    (p : Proc) (ps : List Proc) (ticket total count i : ℕ)
    → is_runnable p ≡ false
    → draw (p ∷ ps) ticket total count i ≡ draw ps ticket total count (i + 1)
unfolding draw
draw-skip p ps ticket total count i e = ground arith

draw-count :
    (p : Proc) (ps : List Proc) (ticket total count i : ℕ)
    → is_runnable p ≡ true
    → count + p.tickets ≤ total
    → total < 2 ^ 31
    → ticket < 2 ^ 31
    → draw (p ∷ ps) ticket total count i ≡ (
        if ltb (count + p.tickets) ticket
        then draw ps ticket total (count + p.tickets) (i + 1)
        else winner i)
unfolding draw
draw-count p ps ticket total count i e h small k =
    let sum : add32 count p.tickets ≡ count + p.tickets = omega arith in
    rw
      (
        e,
        sum,
        slt-ltb (count + p.tickets) ticket (omega arith) k,
        slt-ltb total (count + p.tickets) small (omega arith),
      )
      (ground arith)

-- The loop never reaches its panic when no more tickets are counted than `total_tickets` says.
pub draw-ne-overrun :
    (ps : List Proc) (ticket total count i : ℕ)
    → count + runnable_tickets ps ≤ total
    → total < 2 ^ 31
    → ticket < 2 ^ 31
    → draw ps ticket total count i ≢ overrun
unfolding draw
draw-ne-overrun [] ticket total count i h small k = cc
draw-ne-overrun (p ∷ ps) ticket total count i h small k = ground (
  arith,
  draw-skip p ps ticket total count i,
  draw-count p ps ticket total count i,
  draw-ne-overrun ps ticket total count (i + 1),
  draw-ne-overrun ps ticket total (count + p.tickets) (i + 1),
)

-- Slot `j`, counted from `i` on, is a process of the list that can run.
abbrev pub CanRun : List Proc → ℕ → ℕ → Type 0
CanRun ps i j =
    (n : ℕ) × (p : Proc) × (j ≡ i + n) × (get_elem? ps n ≡ some p) × (is_runnable p ≡ true)

CanRun-cons : (q : Proc) (ps : List Proc) (i j : ℕ) → CanRun ps (i + 1) j → CanRun (q ∷ ps) i j
CanRun-cons q ps i j (n, p, at, there, runs) = (suc n, p, omega (arith, at), there, runs)

-- A ticket within those of the runnable processes finds a winner, which can run.
pub draw-winner :
    (ps : List Proc) (ticket total count i : ℕ)
    → count + runnable_tickets ps ≤ total
    → total < 2 ^ 31
    → ticket ≤ count + runnable_tickets ps
    → any_runnable ps ≡ true ⊎ count < ticket
    → (j : ℕ) × (draw ps ticket total count i ≡ winner j) × CanRun ps i j
draw-winner [] ticket total count i h small k a = absurd (ground arith)
draw-winner (p ∷ ps) ticket total count i h small k a = elim (Bool-cases (is_runnable p)) [
  | inr e ↦
      let (j, won, can) =
        draw-winner ps ticket total count (i + 1) (ground arith) small (ground arith)
          (ground arith) in
      (j, rw (draw-skip p ps ticket total count i e) won, CanRun-cons p ps i j can)
  | inl e ↦
      rw (draw-count p ps ticket total count i e (ground arith) small (ground arith))
        (elim (Bool-cases (ltb (count + p.tickets) ticket)) [
          | inl l ↦
              let (j, won, can) =
                draw-winner ps ticket total (count + p.tickets) (i + 1) (ground arith) small
                  (ground arith) (inr (ltb→lt _ _ l)) in
              rw l (j, won, CanRun-cons p ps i j can)
          | inr l ↦ rw l (i, refl, (0, p, omega arith, refl, e))
        ])
]

pub none-runnable : (ps : List Proc) → any_runnable ps ≡ false → runnable_tickets ps ≡ 0
none-runnable [] h = refl
none-runnable (p ∷ ps) h = ground (arith, none-runnable ps)

draw-index :
    (ps : List Proc) (ticket total count i j : ℕ) → draw ps ticket total count i ≡ winner j → i ≤ j
unfolding draw
draw-index [] ticket total count i j h = cc
draw-index (p ∷ ps) ticket total count i j h = ground (
  arith,
  draw-index ps ticket total count (i + 1) j,
  draw-index ps ticket total (add32 count p.tickets) (i + 1) j,
)

-- Slot `j` wins exactly with the tickets from its first one up to the sum over the slots to `j`.
pub draw_iff :
    (ps : List Proc) (ticket total count i j : ℕ) (p : Proc)
    → count + runnable_tickets ps ≤ total
    → total < 2 ^ 31
    → ticket < 2 ^ 31
    → get_elem? ps j ≡ some p
    → is_runnable p ≡ true
    → (draw ps ticket total count i ≡ winner (i + j))
      ↔ ((if any_runnable (take j ps) then count + runnable_tickets (take j ps) + 1 else 0)
          ≤ ticket)
        × (ticket ≤ count + runnable_tickets (take j ps) + p.tickets)
draw_iff [] ticket total count i j p h small k e r = cc
draw_iff (q ∷ ps) ticket total count i zero p h small k e r = ground (
  arith,
  draw-count q ps ticket total count i,
  draw-index ps ticket total (count + q.tickets) (i + 1) i,
)
draw_iff (q ∷ ps) ticket total count i (suc j) p h small k e r = ground (
  arith,
  draw-skip q ps ticket total count i,
  draw-count q ps ticket total count i,
  draw_iff ps ticket total count (i + 1) j p,
  draw_iff ps ticket total (count + q.tickets) (i + 1) j p,
  none-runnable (take j ps),
)

-- ===== src/Proc/Wake.antt =====
-- wakeup1 as it stands, against the waking that its callers wait for.
use os_fall.Base.{
  ℕ, ◌+◌, ◌%◌, ◌<◌, ◌≡◌, refl, ◌↔◌, inl, inr, List, [], ◌∷◌, arith, if◌then◌else◌, Bool-cases,
  word_size, add32,
}
use os_fall.Proc.Types.{runnable, Proc, Kernel}
use os_fall.Proc.Active.{active, Words}
use os_fall.Proc.Balance.{Balanced, IsSum}
use os_fall.Proc.Sleep.{sleeps_on, wake_loop, wakeup1, set_state}

-- The tickets of the processes that sleep on the channel.
abbrev pub waiting_tickets : ℕ → List Proc → ℕ
waiting_tickets c [] = 0
waiting_tickets c (p ∷ ps) = (if sleeps_on c p then p.tickets else 0) + waiting_tickets c ps

-- The table with every process that sleeps on the channel made runnable.
abbrev pub wake_all : ℕ → List Proc → List Proc
wake_all c [] = []
wake_all c (p ∷ ps) = (if sleeps_on c p then set_state runnable p else p) ∷ wake_all c ps

wake_loop_lem :
    (c : ℕ) (ps : List Proc) (total : ℕ)
    → total < word_size
    → wake_loop c ps total ≡ (total + waiting_tickets c ps) % word_size
unfolding wake_loop
wake_loop_lem c [] total h = omega arith
wake_loop_lem c (p ∷ ps) total h = elim (Bool-cases (sleeps_on c p)) [
  | inl e ↦ rw e (omega (arith, wake_loop_lem c ps (add32 total p.tickets)))
  | inr e ↦ rw e (omega (arith, wake_loop_lem c ps total h))
]

active-wake_all :
    (c : ℕ) (ps : List Proc) → active (wake_all c ps) ≡ active ps + waiting_tickets c ps
active-wake_all c [] = refl
active-wake_all c (p ∷ ps) = elim (Bool-cases (sleeps_on c p)) [
  | inl e ↦ rw e (ground (arith, active-wake_all c ps))
  | inr e ↦ rw e (omega (arith, active-wake_all c ps))
]

Words-wake_all : (c : ℕ) (ps : List Proc) → Words ps → Words (wake_all c ps)
Words-wake_all c [] w = tt
Words-wake_all c (p ∷ ps) w = elim (Bool-cases (sleeps_on c p)) [
  | inl e ↦ rw e (w.0, Words-wake_all c ps w.1)
  | inr e ↦ rw e (w.0, Words-wake_all c ps w.1)
]

module _ {K : Type 0} (c : ℕ) (k : Kernel K) (b : Balanced k) where
  -- wakeup1 counts the tickets for a table in which the sleepers on the channel have been woken, but
  -- it wakes nobody: every slot stays as it was, and the one state that it writes lies behind the
  -- table.
  pub wakeup1_counts :
      IsSum (wake_all c k.procs) (wakeup1 c k).total_tickets
      × ((wakeup1 c k).procs ≡ k.procs)
      × ((wakeup1 c k).past ≡ runnable)
  unfolding wakeup1
  wakeup1_counts = (
    record {
      sum = omega (
        arith,
        wake_loop_lem c k.procs k.total_tickets (omega (arith, b.sum)),
        active-wake_all c k.procs,
        b.sum,
      );
      words = Words-wake_all c k.procs b.words;
    },
    refl,
    refl,
  )

  -- So the tickets stay balanced exactly when those that sleep on the channel hold none, up to a
  -- multiple of 2 ^ 32.
  pub wakeup1-Balanced : Balanced (wakeup1 c k) ↔ (waiting_tickets c k.procs % word_size ≡ 0)
  unfolding wakeup1
  wakeup1-Balanced = (
    λ w. omega (arith, w.sum, count, b.sum),
    λ z. record { sum = omega (arith, count, b.sum); words = b.words },
  )
    where
      count :
          wake_loop c k.procs k.total_tickets
          ≡ (k.total_tickets + waiting_tickets c k.procs) % word_size
      count = wake_loop_lem c k.procs k.total_tickets (omega (arith, b.sum))

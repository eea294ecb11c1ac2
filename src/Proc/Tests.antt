-- ===== src/Proc/Tests.antt =====
-- A small process table, and the theorems on it. Slot 0 is init, which sleeps; slot 1 runs with three
-- tickets; slot 2 is runnable with two; slot 3 is unused.
use os_fall.Base.{
  ℕ, ◌+◌, ◌*◌, ◌≡◌, refl, ◌≢◌, ◌⊎◌, true, false, Option, none, some, List, [], ◌∷◌, arith,
  get_elem?, add32,
}
use os_fall.Proc.Types.{
  ProcState, unused, sleeping, runnable, running, zombie, TrapFrame, Proc, Kernel, Services, ok,
  panic, init_exiting, same_slot, is_runnable,
}
use os_fall.Proc.Balance.{IsSum, Balanced}
use os_fall.Proc.Create.{fork}
use os_fall.Proc.Fork.{Forks, fork_lem}
use os_fall.Proc.Sleep.{sleep, wakeup1}
use os_fall.Proc.Finish.{exit, wait, reaped, scan_children, reap}
use os_fall.Proc.Exit.{Exited, exit_lem}
use os_fall.Proc.Keep.{Slept, sleep-Balanced}
use os_fall.Proc.Reaping.{Reaps, wait-reaped}
use os_fall.Proc.Wake.{wake_all, wakeup1_counts}
use os_fall.Proc.Lottery.{turn, runs, exceeds, divides_by_zero}
use os_fall.Proc.Lottery.Turns.{tally, tally-tickets, turn_safe, Started, turn_runs}

-- A kernel whose pages, files and inodes are never used up: its state counts the calls.
abbrev plain : Services ℕ
plain = record {
  kalloc = λ r. (4096 * (r + 1), r + 1);
  kfree = λ a r. r;
  copyuvm = λ dir size r. (4096 * (r + 1), r + 1);
  freevm = λ dir r. r;
  allocuvm = λ dir old new r. (new, r);
  deallocuvm = λ dir old new r. (new, r);
  filedup = λ f r. (f, r + 1);
  fileclose = λ f r. r;
  idup = λ i r. (i, r + 1);
  iput = λ i r. r;
  table = 1048576;
  forkret = 1;
  trapret = 2;
}

abbrev no_frame : TrapFrame
no_frame = record {
  eax = 7;
  cs = 0;
  ds = 0;
  es = 0;
  ss = 0;
  eflags = 0;
  esp = 0;
  eip = 0;
  others = λ _. 0;
}

abbrev slot : ProcState → ℕ → Option ℕ → ℕ → ℕ → Proc
slot s id par c t = record {
  sz = 4096;
  pgdir = 1;
  kstack = 1;
  state = s;
  pid = id;
  parent = par;
  tf = no_frame;
  return_to = 2;
  context_eip = 1;
  chan = c;
  killed = false;
  ofile = 5 ∷ 0 ∷ [];
  cwd = 9;
  name = λ _. 0;
  tickets = t;
  inuse = 1;
  ticks = 0;
}

abbrev table_with : List Proc → ℕ → Kernel ℕ
table_with ps total = record {
  procs = ps;
  past = unused;
  initproc = some 0;
  nextpid = 4;
  total_tickets = total;
  rest = 0;
}

abbrev init_slot : Proc
init_slot = slot sleeping 1 none 77 1

abbrev busy : Kernel ℕ
busy =
    table_with
      (init_slot
        ∷ slot running 2 (some 0) 0 3
        ∷ slot runnable 3 (some 1) 0 2
        ∷ slot unused 0 none 0 0
        ∷ [])
      5

busy-Balanced : Balanced busy
busy-Balanced = record { sum = refl; words = omega arith }

fork_lem_example : Forks busy 1 (slot running 2 (some 0) 0 3) (fork plain 1 busy)
fork_lem_example = fork_lem plain busy 1 (slot running 2 (some 0) 0 3) busy-Balanced refl refl refl

sleep-Balanced_example :
    (t : Kernel ℕ) × (sleep (some 1) 77 4 busy ≡ ok t)
    × Balanced t
    × (add32 t.total_tickets 3 ≡ busy.total_tickets)
    × ((q : Proc) × (get_elem? t.procs 1 ≡ some q) × Slept 77 (slot running 2 (some 0) 0 3) q)
    × ((j : ℕ) → 1 ≢ j → get_elem? t.procs j ≡ get_elem? busy.procs j)
sleep-Balanced_example =
    sleep-Balanced busy 1 77 4 (slot running 2 (some 0) 0 3) busy-Balanced refl refl (omega arith)

wakeup1_counts_example :
    IsSum (wake_all 77 busy.procs) (wakeup1 77 busy).total_tickets
    × ((wakeup1 77 busy).procs ≡ busy.procs)
    × ((wakeup1 77 busy).past ≡ runnable)
wakeup1_counts_example = wakeup1_counts 77 busy busy-Balanced

abbrev Leaves : Proc → Type 0
Leaves p =
    ((same_slot busy.initproc 1 ≡ true) × (exit plain 1 busy ≡ panic init_exiting))
    ⊎ ((same_slot busy.initproc 1 ≡ false)
        × (t : Kernel ℕ) × (exit plain 1 busy ≡ ok t)
        × ((z : Proc) × (get_elem? t.procs 1 ≡ some z) × Exited plain 1 p z)
        × ((j : ℕ) (q : Proc) → get_elem? t.procs j ≡ some q → same_slot q.parent 1 ≡ false))

exit_lem_example : Leaves (slot running 2 (some 0) 0 3)
exit_lem_example = exit_lem plain 1 busy (slot running 2 (some 0) 0 3) refl refl

-- The child in slot 1 has exited.
abbrev waiting : Kernel ℕ
waiting =
    table_with
      (slot running 1 none 0 1 ∷ slot zombie 2 (some 0) 0 0 ∷ slot runnable 3 (some 1) 0 2 ∷ []) 3

waiting-Balanced : Balanced waiting
waiting-Balanced = record { sum = refl; words = omega arith }

wait_reaps : wait plain 0 waiting ≡ reaped 2 (reap plain 1 (slot zombie 2 (some 0) 0 0) waiting)
unfolding wait scan_children
wait_reaps = refl

wait-reaped_example : Reaps plain waiting 0 2 (reap plain 1 (slot zombie 2 (some 0) 0 0) waiting)
wait-reaped_example = wait-reaped plain waiting _ 0 2 waiting-Balanced wait_reaps

-- Two processes that can run, with three and two tickets, and a sleeper.
abbrev ready : Kernel ℕ
ready = table_with (init_slot ∷ slot runnable 2 (some 0) 0 3 ∷ slot runnable 3 (some 1) 0 2 ∷ []) 5

ready-Balanced : Balanced ready
ready-Balanced = record { sum = refl; words = omega arith }

-- Of the six tickets 0 to 5 the first process has four and the second two.
tally-tickets_example : tally ready.procs 5 1 6 ≡ 4
tally-tickets_example =
    tally-tickets ready.procs 5 1 (slot runnable 2 (some 0) 0 3) (omega arith) (omega arith) refl
      refl

second_share : tally ready.procs 5 2 6 ≡ 2
second_share =
    tally-tickets ready.procs 5 2 (slot runnable 3 (some 1) 0 2) (omega arith) (omega arith) refl
      refl

turn_safe_example : (turn 1323 ready ≢ exceeds) × (turn 1323 ready ≢ divides_by_zero)
turn_safe_example = turn_safe ready ready-Balanced (omega arith) 1323

turn_runs_example :
    (j : ℕ) × (p : Proc) × (t : Kernel ℕ) × (turn 1323 ready ≡ runs j t)
    × (get_elem? ready.procs j ≡ some p)
    × (is_runnable p ≡ true)
    × ((q : Proc) × (get_elem? t.procs j ≡ some q) × Started p q)
    × ((i : ℕ) → j ≢ i → get_elem? t.procs i ≡ get_elem? ready.procs i)
    × (t.total_tickets ≡ ready.total_tickets)
turn_runs_example = turn_runs ready ready-Balanced (omega arith) 1323 refl refl

-- Two processes that are awake, of which the first is not the caller's.
abbrev awake_pair : Kernel ℕ
awake_pair = table_with (slot runnable 1 none 0 3 ∷ slot running 2 (some 0) 0 2 ∷ []) 5

awake_pair-Balanced : Balanced awake_pair
awake_pair-Balanced = record { sum = refl; words = omega arith }

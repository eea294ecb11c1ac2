-- ===== src/Proc/Finish.antt =====
-- exit and wait of proc.c. `exit` is one step down to `sched`; `wait` is one step for each pass over
-- the table, since it sleeps between passes.
use os_fall.Base.{
  ℕ, zero, suc, ◌+◌, Bool, false, not, ◌&&◌, ◌||◌, Option, none, some, List, [], ◌∷◌, ◌==◌,
  if◌then◌else◌, length, get_elem?,
}
use os_fall.Str.{store}
use os_fall.Proc.Types.{
  unused, zombie, Proc, Kernel, Services, Result, ok, panic, init_exiting, is_zombie, same_slot,
  slot_addr, with_slot,
}
use os_fall.Proc.Tickets.{setp_tickets}
use os_fall.Proc.Sleep.{wakeup1, set_state}

abbrev pub adopt : Option ℕ → Proc → Proc
adopt i p = record p { parent = i }

abbrev pub drop_files : List ℕ → Proc → Proc
drop_files fs p = record p { ofile = fs; cwd = 0 }

-- What `wait` clears in the slot of a zombie, the tickets aside.
abbrev pub clear_slot : Proc → Proc
clear_slot p = record p {
  kstack = 0;
  state = unused;
  pid = 0;
  parent = none;
  name = store p.name 0 0;
  killed = false;
  ticks = 0;
}

-- What the scan of `wait` ends with: a zombie child, or whether there was any child.
pub data Scan : Type 0 where
  found : ℕ → Proc → Scan
  scanned : Bool → Scan

unfoldable pub scan_children : ℕ → List Proc → ℕ → Bool → Scan
scan_children me [] i kids = scanned kids
scan_children me (p ∷ ps) i kids =
    let rest = scan_children me ps (i + 1) (kids || same_slot p.parent me) in
    if same_slot p.parent me && is_zombie p then found i p else rest

-- A pass of `wait`: it returns a pid, returns -1, or goes to sleep on its own slot.
pub data Wait (K : Type 0) : Type 0 where
  reaped : ℕ → Kernel K → Wait K
  no_child : Wait K
  must_sleep : Wait K

module _ {K : Type 0} (os : Services K) where
  unfoldable pub close_files : List ℕ → K → List ℕ × K
  close_files [] r = ([], r)
  close_files (f ∷ fs) r =
      let (gs, r') = close_files fs (if f == 0 then r else os.fileclose f r) in (0 ∷ gs, r')

  -- The body of the loop that passes children to init.
  unfoldable pub adopt_child : ℕ → ℕ → Kernel K → Kernel K
  adopt_child me i k = elim (get_elem? k.procs i) [
    | none ↦ k
    | some p ↦
        if same_slot p.parent me
        then (let k1 = with_slot k i (adopt k.initproc) in
            if is_zombie p then wakeup1 (slot_addr os.table k1.initproc) k1 else k1)
        else k
  ]

  -- The loop over the `n` slots from slot `i`.
  unfoldable pub adopt_children : ℕ → ℕ → ℕ → Kernel K → Kernel K
  adopt_children me zero i k = k
  adopt_children me (suc n) i k = adopt_children me n (i + 1) (adopt_child me i k)

  unfoldable pub exit_files : ℕ → Proc → Kernel K → Kernel K
  exit_files me p k =
      let (fs, r) = close_files p.ofile k.rest in
      record (with_slot k me (drop_files fs)) { rest = os.iput p.cwd r }

  -- `exit` of the process in slot `me`, which stands in the table.
  unfoldable pub exit : ℕ → Kernel K → Result (Kernel K)
  exit me k = elim (get_elem? k.procs me) [
    | none ↦ panic init_exiting
    | some p ↦
        if same_slot k.initproc me
        then panic init_exiting
        else (let k1 = wakeup1 (slot_addr os.table p.parent) (exit_files me p k) in
            let k2 = adopt_children me (length k1.procs) 0 k1 in
            ok (with_slot (setp_tickets k2 me 0) me (set_state zombie)))
  ]

  unfoldable pub reap : ℕ → Proc → Kernel K → Kernel K
  reap i p k =
      setp_tickets
        (record (with_slot k i clear_slot) { rest = os.freevm p.pgdir (os.kfree p.kstack k.rest) })
        i 0

  unfoldable pub wait : ℕ → Kernel K → Wait K
  wait me k = elim (scan_children me k.procs 0 false) [
    | found i p ↦ reaped p.pid (reap i p k)
    | scanned kids ↦ elim (get_elem? k.procs me) [
      | none ↦ no_child
      | some q ↦ if not kids || q.killed then no_child else must_sleep
    ]
  ]

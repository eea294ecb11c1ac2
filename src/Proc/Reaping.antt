-- ===== src/Proc/Reaping.antt =====
-- wait and sys_settickets on a balanced table.
use os_fall.Base.{
  ℕ, zero, suc, ◌+◌, ◌≡◌, refl, ◌≢◌, inl, inr, Bool, true, false, ◌&&◌, ◌||◌, none, some, List, [],
  ◌∷◌, arith, Bool-cases, get_elem?, modify, modify-modify, get_elem?-modify_self,
  get_elem?-modify_ne, add32, sub32,
}
use os_fall.Proc.Types.{unused, zombie, Proc, Kernel, Services, is_zombie, with_slot, same_slot}
use os_fall.Proc.Tickets.{put_tickets}
use os_fall.Proc.Active.{Words-get_elem?}
use os_fall.Proc.Balance.{Balanced, write-IsSum, setp_tickets-some}
use os_fall.Proc.Finish.{Scan, found, scanned, scan_children, reap, clear_slot, reaped, wait}

-- The scan of wait answers a slot of the table that holds a zombie child of the caller.
pub scan_children-found :
    (me : ℕ) (ps : List Proc) (s i : ℕ) (kids : Bool) (p : Proc)
    → scan_children me ps s kids ≡ found i p
    → (n : ℕ) × (i ≡ s + n)
      × (get_elem? ps n ≡ some p)
      × (is_zombie p ≡ true)
      × (same_slot p.parent me ≡ true)
unfolding scan_children
scan_children-found me [] s i kids p h = cc
scan_children-found me (q ∷ ps) s i kids p h =
    elim (Bool-cases (same_slot q.parent me && is_zombie q)) [
      | inl e ↦ (0, ground arith, ground arith, ground arith, ground arith)
      | inr e ↦
          let (n, a, g, z, c) =
            scan_children-found me ps (s + 1) i (kids || same_slot q.parent me) p (ground arith) in
          (suc n, omega arith, g, z, c)
    ]

scan_children-kids :
    (me : ℕ) (ps : List Proc) (s : ℕ) (b : Bool) → scan_children me ps s true ≡ scanned b → b ≡ true
unfolding scan_children
scan_children-kids me [] s b h = cc
scan_children-kids me (q ∷ ps) s b h = ground (arith, scan_children-kids me ps (s + 1) b)

-- No zombie child is overlooked.
scan_children-scanned :
    (me : ℕ) (ps : List Proc) (s n : ℕ) (kids b : Bool) (p : Proc)
    → scan_children me ps s kids ≡ scanned b
    → get_elem? ps n ≡ some p
    → same_slot p.parent me ≡ true
    → (b ≡ true) × (is_zombie p ≡ false)
unfolding scan_children
scan_children-scanned me [] s n kids b p h e c = cc
scan_children-scanned me (q ∷ ps) s zero kids b p h e c =
    ground (arith, scan_children-kids me ps (s + 1) b)
scan_children-scanned me (q ∷ ps) s (suc n) kids b p h e c =
    ground (arith, scan_children-scanned me ps (s + 1) n (kids || same_slot q.parent me) b p)

abbrev reap_slot : Proc → Proc
reap_slot p = put_tickets 0 (clear_slot p)

-- A slot that wait has cleared.
pub record Vacated (q : Proc) : Type 0 where
  is_unused : q.state ≡ unused
  no_tickets : q.tickets ≡ 0
  no_pid : q.pid ≡ 0
  no_parent : q.parent ≡ none
  no_name : q.name 0 ≡ 0
  no_stack : q.kstack ≡ 0
  not_killed : q.killed ≡ false
  no_ticks : q.ticks ≡ 0

reap_slot-Vacated : (p : Proc) → Vacated (reap_slot p)
reap_slot-Vacated p = record {
  is_unused = refl;
  no_tickets = refl;
  no_pid = refl;
  no_parent = refl;
  no_name = refl;
  no_stack = refl;
  not_killed = refl;
  no_ticks = refl;
}

module _ {K : Type 0} (os : Services K) (k : Kernel K) where
  reap_lem :
      (i : ℕ) (p : Proc)
      → get_elem? k.procs i ≡ some p
      → ((reap os i p k).procs ≡ modify k.procs i reap_slot)
        × ((reap os i p k).total_tickets ≡ add32 (sub32 k.total_tickets p.tickets) 0)
  unfolding reap
  reap_lem i p at =
      rw
        (setp_tickets-some cleared i 0 (clear_slot p)
          (get_elem?-modify_self k.procs i clear_slot at))
        (modify-modify k.procs i clear_slot (put_tickets 0), refl)
    where
      cleared : Kernel K
      cleared = record (with_slot k i clear_slot) {
        rest = os.freevm p.pgdir (os.kfree p.kstack k.rest);
      }

  -- What a successful wait has done.
  abbrev pub Reaps : ℕ → ℕ → Kernel K → Type 0
  Reaps me pid t =
      (i : ℕ) × (p : Proc) × (get_elem? k.procs i ≡ some p)
      × (p.state ≡ zombie)
      × (same_slot p.parent me ≡ true)
      × (p.pid ≡ pid)
      × ((q : Proc) × (get_elem? t.procs i ≡ some q) × Vacated q)
      × ((j : ℕ) → i ≢ j → get_elem? t.procs j ≡ get_elem? k.procs j)
      × Balanced t

  reap-Reaps :
      (me i : ℕ) (p : Proc)
      → Balanced k
      → get_elem? k.procs i ≡ some p
      → is_zombie p ≡ true
      → same_slot p.parent me ≡ true
      → Reaps me p.pid (reap os i p k)
  reap-Reaps me i p b at z c =
      let (procs, total) = reap_lem i p at in
      (
        i,
        p,
        at,
        ground arith,
        c,
        refl,
        (reap_slot p, rw procs (get_elem?-modify_self k.procs i reap_slot at), reap_slot-Vacated p),
        λ j ne. rw procs (get_elem?-modify_ne k.procs i j reap_slot ne),
        rw (procs, total)
            (write-IsSum k.procs k.total_tickets _ i reap_slot p b at (λ _ _. omega arith)
              (ground (arith, Words-get_elem? k.procs i p b.words at, b.sum))),
      )

  -- When wait returns a pid on a table with balanced tickets, it is that of a zombie child of the
  -- caller. The child's slot is unused afterwards, with no tickets, pid, parent, name, kernel stack or
  -- ticks, and not killed; the other slots are as before, and the tickets stay balanced.
  pub wait-reaped :
      (t : Kernel K) (me pid : ℕ) → Balanced k → wait os me k ≡ reaped pid t → Reaps me pid t
  unfolding wait
  wait-reaped t me pid b h = go (scan_children me k.procs 0 false) refl
    where
      go : (s : Scan) → scan_children me k.procs 0 false ≡ s → Reaps me pid t
      go (found i p) e =
          let (n, a, at, z, c) = scan_children-found me k.procs 0 i false p e in
          let idx : i ≡ n = omega (arith, a) in
          let same : t ≡ reap os i p k = (ground arith) in
          let id : pid ≡ p.pid = (ground arith) in
          rw (same, id) (reap-Reaps me i p b (rw idx at) z c)
      go (scanned kids) e = absurd (ground arith)

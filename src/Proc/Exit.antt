-- ===== src/Proc/Exit.antt =====
-- What exit leaves in the table.
use mathlib.Core.Option
use os_fall.Base.{
  ℕ, zero, suc, ◌+◌, ◌≡◌, refl, sym, ap, ◌⊎◌, inl, inr, true, false, ◌&&◌, Option, none, some, List,
  [], ◌∷◌, arith, ltb, leb, ◌==◌, if◌then◌else◌, ==_iff, Bool-cases, Option-cases, length,
  get_elem?, modify, modify-modify, get_elem?-modify_self, get_elem?-lt,
}
use os_fall.Proc.Types.{
  zombie, Proc, Kernel, Services, ok, panic, init_exiting, is_zombie, same_slot, slot_addr,
  with_slot,
}
use os_fall.Proc.Tickets.{setp_tickets, put_tickets}
use os_fall.Proc.Balance.{setp_tickets-some}
use os_fall.Proc.Sleep.{wakeup1, set_state}
use os_fall.Proc.Finish.{
  adopt, drop_files, close_files, adopt_child, adopt_children, exit_files, exit,
}

-- What the loop of exit makes of a slot.
abbrev pub adopt_slot : Option ℕ → ℕ → Proc → Proc
adopt_slot init me p = if same_slot p.parent me then adopt init p else p

abbrev pub AllZero : List ℕ → Type 0
AllZero [] = Unit {0}
AllZero (f ∷ fs) = (f ≡ 0) × AllZero fs

modify_same :
    (ps : List Proc) (i : ℕ) (f g : Proc → Proc)
    → ((p : Proc) → get_elem? ps i ≡ some p → f p ≡ g p)
    → modify ps i f ≡ modify ps i g
modify_same [] i f g h = refl
modify_same (p ∷ ps) zero f g h = ap (λ q. q ∷ ps) (h p refl)
modify_same (p ∷ ps) (suc i) f g h = ap (◌∷◌ p) (modify_same ps i f g h)

modify_id :
    (ps : List Proc) (i : ℕ) (f : Proc → Proc)
    → ((p : Proc) → get_elem? ps i ≡ some p → f p ≡ p)
    → modify ps i f ≡ ps
modify_id [] i f h = refl
modify_id (p ∷ ps) zero f h = ap (λ q. q ∷ ps) (h p refl)
modify_id (p ∷ ps) (suc i) f h = ap (◌∷◌ p) (modify_id ps i f h)

get_elem?-modify :
    (ps : List Proc) (i j : ℕ) (f : Proc → Proc)
    → get_elem? (modify ps i f) j
      ≡ (if i == j then Option.map f (get_elem? ps j) else get_elem? ps j)
get_elem?-modify [] i j f = ground arith
get_elem?-modify (p ∷ ps) zero zero f = refl
get_elem?-modify (p ∷ ps) zero (suc j) f = ground arith
get_elem?-modify (p ∷ ps) (suc i) zero f = ground arith
get_elem?-modify (p ∷ ps) (suc i) (suc j) f = ground (arith, get_elem?-modify ps i j f)

adopted :
    (me : ℕ) (init : Option ℕ) (q : Proc) (o : Option Proc)
    → same_slot init me ≡ false
    → Option.map (adopt_slot init me) o ≡ some q
    → same_slot q.parent me ≡ false
adopted me init q none n h = cc
adopted me init q (some r) n h = ground arith

module _ {K : Type 0} (os : Services K) (me : ℕ) where
  -- Waking init changes no slot.
  adopt_child_lem :
      (i : ℕ) (k : Kernel K)
      → ((adopt_child os me i k).procs ≡ modify k.procs i (adopt_slot k.initproc me))
        × ((adopt_child os me i k).initproc ≡ k.initproc)
  unfolding adopt_child wakeup1
  adopt_child_lem i k = elim (Option-cases (get_elem? k.procs i)) [
    | inl e ↦ rw (e, adopt_child) (sym (modify_id k.procs i _ (λ p h. ground arith)), refl)
    | inr (p, e) ↦ elim (Bool-cases (same_slot p.parent me)) [
      | inr other ↦
          rw (e, other, adopt_child)
            (
              sym (
                  modify_id k.procs i _
                    (λ q h. let one : q ≡ p = (ground arith) in rw (one, other))),
              refl,
            )
      | inl child ↦
          let same =
            modify_same k.procs i (adopt k.initproc) (adopt_slot k.initproc me)
              (λ q h. let one : q ≡ p = (ground arith) in rw (one, child)) in
          elim (Bool-cases (is_zombie p)) [
            | inl z ↦ rw (e, child, z, adopt_child) (same, refl)
            | inr z ↦ rw (e, child, z, adopt_child) (same, refl)
          ]
    ]
  ]

  adopt_children_lem :
      (n i j : ℕ) (k : Kernel K)
      → (get_elem? (adopt_children os me n i k).procs j ≡ (
          if leb i j && ltb j (i + n)
          then Option.map (adopt_slot k.initproc me) (get_elem? k.procs j)
          else get_elem? k.procs j))
  unfolding adopt_children
  adopt_children_lem zero i j k = ground arith
  adopt_children_lem (suc n) i j k =
      let (procs, first) = adopt_child_lem i k in
      let rest = adopt_children_lem n (i + 1) j (adopt_child os me i k) in
      ground (arith, rest, procs, first, get_elem?-modify k.procs i j (adopt_slot k.initproc me))

  AllZero-close_files : (fs : List ℕ) (r : K) → AllZero (close_files os fs r).0
  unfolding close_files
  AllZero-close_files [] r = tt
  AllZero-close_files (f ∷ fs) r = (refl, AllZero-close_files fs _)

  -- The slot of a process that has exited.
  pub record Exited (p z : Proc) : Type 0 where
    pub zombie : z.state ≡ zombie
    pub no_tickets : z.tickets ≡ 0
    pub no_files : AllZero z.ofile
    pub no_cwd : z.cwd ≡ 0
    pub pid : z.pid ≡ p.pid

  -- exit of a process that is not its own parent. If it is init, exit panics. If not, it succeeds: the
  -- process is a zombie that holds no tickets, no open files and no current directory, and all its
  -- children are passed to init, so that no slot names it as parent any more.
  pub exit_lem :
      (k : Kernel K) (p : Proc)
      → get_elem? k.procs me ≡ some p
      → same_slot p.parent me ≡ false
      → ((same_slot k.initproc me ≡ true) × (exit os me k ≡ panic init_exiting))
        ⊎ ((same_slot k.initproc me ≡ false)
            × (t : Kernel K) × (exit os me k ≡ ok t)
            × ((z : Proc) × (get_elem? t.procs me ≡ some z) × Exited p z)
            × ((j : ℕ) (q : Proc) → get_elem? t.procs j ≡ some q → same_slot q.parent me ≡ false))
  unfolding exit exit_files wakeup1
  exit_lem k p at own = elim (Bool-cases (same_slot k.initproc me)) [
    | inl i ↦ inl (i, rw (at, i, exit))
    | inr n ↦ inr (
      n,
      after,
      rw (at, n, exit),
      (
        write p,
        now,
        record {
          zombie = refl;
          no_tickets = refl;
          no_files = AllZero-close_files p.ofile k.rest;
          no_cwd = refl;
          pid = refl;
        },
      ),
      orphans n,
    )
  ]
    where
      files : List ℕ
      files = (close_files os p.ofile k.rest).0

      k1 : Kernel K
      k1 = wakeup1 (slot_addr os.table p.parent) (exit_files os me p k)

      k2 : Kernel K
      k2 = adopt_children os me (length k1.procs) 0 k1

      after : Kernel K
      after = with_slot (setp_tickets k2 me 0) me (set_state zombie)

      write : Proc → Proc
      write q = set_state zombie (put_tickets 0 (drop_files files q))

      at1 : get_elem? k1.procs me ≡ some (drop_files files p)
      at1 = get_elem?-modify_self k.procs me (drop_files files) at

      at2 : get_elem? k2.procs me ≡ some (drop_files files p)
      at2 =
          ground
            (arith, adopt_children_lem (length k1.procs) 0 me k1, at1, get_elem?-lt k1.procs me at1)

      procs : after.procs ≡ modify k2.procs me (λ q. set_state zombie (put_tickets 0 q))
      procs =
          rw (setp_tickets-some k2 me 0 (drop_files files p) at2)
            (modify-modify k2.procs me (put_tickets 0) (set_state zombie))

      now : get_elem? after.procs me ≡ some (write p)
      now =
          rw procs (get_elem?-modify_self k2.procs me (λ q. set_state zombie (put_tickets 0 q)) at2)

      orphans :
          same_slot k.initproc me ≡ false
          → (j : ℕ) (q : Proc) → get_elem? after.procs j ≡ some q
          → same_slot q.parent me ≡ false
      orphans n j q h =
          let h' : get_elem? (modify k2.procs me (λ r. set_state zombie (put_tickets 0 r))) j
              ≡ some q =
            rw (← procs) h in
          elim (Bool-cases (me == j)) [
            | inl e ↦ ground (
              arith,
              get_elem?-modify k2.procs me j (λ r. set_state zombie (put_tickets 0 r)),
              ap (get_elem? k2.procs) ((==_iff me j).0 e),
              at2,
            )
            | inr e ↦ adopted me k1.initproc q (get_elem? k1.procs j) n (
                ground (
                  arith,
                  get_elem?-modify k2.procs me j (λ r. set_state zombie (put_tickets 0 r)),
                  adopt_children_lem (length k1.procs) 0 j k1,
                  get_elem?-lt k1.procs j {v = q},
                ))
          ]

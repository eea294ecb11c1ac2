-- ===== src/Proc/Fork.antt =====
-- allocproc and fork: the slot taken, the child, and the tickets.
use os_fall.Base.{
  ℕ, ◌≡◌, refl, ap, ◌∙◌, ◌≢◌, ◌⊎◌, inl, inr, true, false, Option, none, some, List, arith, ◌==◌,
  Bool-cases, Option-cases, get_elem?, modify, find_index, find_index_lem, modify-modify,
  get_elem?-modify_self, get_elem?-modify_ne, add32,
}
use os_fall.Proc.Types.{
  unused, runnable, Proc, Kernel, Services, is_unused, is_sleeping, with_slot, minus_one,
}
use os_fall.Proc.Tickets.{put_tickets}
use os_fall.Proc.Active.{Words-get_elem?}
use os_fall.Proc.Balance.{Balanced, write-IsSum, setp_tickets-some}
use os_fall.Proc.Create.{
  claim, unclaim, set_stack, copy_space, start_child, alloc_stack, allocproc, dup_files, fork_copy,
  fork_space, fork,
}

module _ {K : Type 0} where
  -- allocproc has taken slot `c`.
  pub record Allocated (os : Services K) (k : Kernel K) (c : ℕ) (p : Proc) (t : Kernel K)
      : Type 0 where
    pub stack : ℕ
    pub was : get_elem? k.procs c ≡ some p
    pub free : is_unused p ≡ true
    pub procs :
        t.procs ≡ modify k.procs c (λ q. set_stack stack os.forkret os.trapret (claim k.nextpid q))
    pub total : t.total_tickets ≡ k.total_tickets
    pub nonzero : stack ≢ 0
    pub next : t.nextpid ≡ add32 k.nextpid 1

  module _ (os : Services K) (k : Kernel K) where
    abbrev claimed : ℕ → Kernel K
    claimed i = record (with_slot k i (claim k.nextpid)) { nextpid = add32 k.nextpid 1 }

    alloc_stack_lem :
        Balanced k
        → (i : ℕ) (p : Proc) → get_elem? k.procs i ≡ some p
        → is_unused p ≡ true
        → Balanced (alloc_stack os i (claimed i)).1
          × ((c : ℕ)
              → (alloc_stack os i (claimed i)).0 ≡ some c
              → (q : Proc) × Allocated os k c q (alloc_stack os i (claimed i)).1)
    unfolding alloc_stack
    alloc_stack_lem b i p at free = elim (Bool-cases ((os.kalloc k.rest).0 == 0)) [
      | inl z ↦
          rw (z, alloc_stack, modify-modify k.procs i (claim k.nextpid) unclaim)
            (
              write-IsSum k.procs k.total_tickets _ i (λ q. unclaim (claim k.nextpid q)) p b at
                  (λ _ h. h) (ground (arith, b.sum)),
              λ c h. cc,
            )
      | inr nz ↦
          rw
            (
              nz,
              alloc_stack,
              modify-modify k.procs i (claim k.nextpid)
                  (set_stack (os.kalloc k.rest).0 os.forkret os.trapret),
            )
            (
              write-IsSum k.procs k.total_tickets _ i
                  (λ q. set_stack (os.kalloc k.rest).0 os.forkret os.trapret (claim k.nextpid q)) p
                  b at (λ _ h. h) (ground (arith, b.sum)),
              λ c h.
                  let same : c ≡ i = (ground arith) in
                  rw same (
                    p,
                    record {
                      stack = (os.kalloc k.rest).0;
                      was = at;
                      free = free;
                      procs = refl;
                      total = refl;
                      nonzero = ground arith;
                      next = refl;
                    },
                  ),
            )
    ]

    -- On success allocproc has taken an unused slot as embryo with the next pid; on failure every
    -- slot keeps its tickets and the table is balanced as before.
    pub allocproc_lem :
        Balanced k
        → Balanced (allocproc os k).1
          × ((c : ℕ)
              → (allocproc os k).0 ≡ some c
              → (p : Proc) × Allocated os k c p (allocproc os k).1)
    unfolding allocproc
    allocproc_lem b = elim (Option-cases (find_index is_unused k.procs)) [
      | inl e ↦ rw (e, allocproc) (b, λ c h. cc)
      | inr (i, e) ↦
          let (p, at, free) = find_index_lem _ k.procs i e in
          rw (e, allocproc) (alloc_stack_lem b i p at free)
    ]

  -- fork has made a runnable child in slot `c`, which was unused: it has the caller's tickets, size
  -- and trap frame but for eax, which is 0, and the pid that the caller is given. The other slots
  -- are as they were.
  pub record Forked (k : Kernel K) (me : ℕ) (p : Proc) (pid : ℕ) (t : Kernel K) : Type 0 where
    pub slot : ℕ
    pub old : Proc
    pub child : Proc
    pub was : get_elem? k.procs slot ≡ some old
    pub free : is_unused old ≡ true
    pub now : get_elem? t.procs slot ≡ some child
    pub can_run : child.state ≡ runnable
    pub tickets : child.tickets ≡ p.tickets
    pub size : child.sz ≡ p.sz
    pub parent : child.parent ≡ some me
    pub frame : child.tf ≡ record (p.tf) { eax = 0 }
    pub child_pid : child.pid ≡ k.nextpid
    pub result : pid ≡ k.nextpid
    pub others : (j : ℕ) → slot ≢ j → get_elem? t.procs j ≡ get_elem? k.procs j

  -- What a call of fork may do: fail with -1, or make a child; the tickets are balanced after both.
  abbrev pub Forks : Kernel K → ℕ → Proc → ℕ × Kernel K → Type 0
  Forks k me p r = Balanced (r.1) × ((r.0 ≡ minus_one) ⊎ Forked k me p (r.0) (r.1))

  module _ (os : Services K) (k : Kernel K) (me : ℕ) (p : Proc) (b : Balanced k)
      (at : get_elem? k.procs me ≡ some p) where
    fork_copy_lem :
        (k1 : Kernel K) (c dir : ℕ) (old np : Proc)
        → Balanced k1
        → get_elem? k1.procs c ≡ some np
        → is_sleeping np ≡ false
        → np.pid ≡ k.nextpid
        → get_elem? k.procs c ≡ some old
        → is_unused old ≡ true
        → ((j : ℕ) → c ≢ j → get_elem? k1.procs j ≡ get_elem? k.procs j)
        → Forks k me p (fork_copy os me p c np dir k1)
    unfolding fork_copy
    fork_copy_lem k1 c dir old np b1 at1 awake id was free others =
        rw
          (
            setp_tickets-some copy c p.tickets (copy_space me dir p np) copied,
            modify-modify k1.procs c (copy_space me dir p) (put_tickets p.tickets),
            modify-modify k1.procs c (λ q. put_tickets p.tickets (copy_space me dir p q))
                (start_child files cwd p),
          )
          (
            write-IsSum k1.procs k1.total_tickets _ c write np b1 at1
                (λ _ _. Words-get_elem? k.procs me p b.words at)
                (ground (
                  arith,
                  Words-get_elem? k.procs me p b.words at,
                  Words-get_elem? k1.procs c np b1.words at1,
                  b1.sum,
                )),
            inr (record {
              slot = c;
              old = old;
              child = write np;
              was = was;
              free = free;
              now = get_elem?-modify_self k1.procs c write at1;
              can_run = refl;
              tickets = refl;
              size = refl;
              parent = refl;
              frame = refl;
              child_pid = id;
              result = id;
              others = λ j ne. get_elem?-modify_ne k1.procs c j write ne ∙ others j ne;
            }),
          )
      where
        copy : Kernel K
        copy = with_slot k1 c (copy_space me dir p)

        copied :
            get_elem? (modify k1.procs c (copy_space me dir p)) c ≡ some (copy_space me dir p np)
        copied = get_elem?-modify_self k1.procs c (copy_space me dir p) at1

        files : List ℕ
        files = (dup_files os p.ofile np.ofile k1.rest).0

        cwd : ℕ
        cwd = (os.idup p.cwd (dup_files os p.ofile np.ofile k1.rest).1).0

        write : Proc → Proc
        write q = start_child files cwd p (put_tickets p.tickets (copy_space me dir p q))

    fork_space_lem :
        (k1 : Kernel K) (c : ℕ) (old np : Proc)
        → Balanced k1
        → get_elem? k1.procs c ≡ some np
        → is_sleeping np ≡ false
        → np.pid ≡ k.nextpid
        → get_elem? k.procs c ≡ some old
        → is_unused old ≡ true
        → ((j : ℕ) → c ≢ j → get_elem? k1.procs j ≡ get_elem? k.procs j)
        → Forks k me p (fork_space os me p c np k1)
    unfolding fork_space
    fork_space_lem k1 c old np b1 at1 awake id was free others =
        elim (Bool-cases ((os.copyuvm p.pgdir p.sz k1.rest).0 == 0)) [
          | inl z ↦
              rw (z, fork_space)
                (
                  write-IsSum k1.procs k1.total_tickets k1.total_tickets c
                      (λ q. record q { pgdir = 0; kstack = 0; state = unused }) np b1 at1 (λ _ h. h)
                      (ground (arith, b1.sum)),
                  inl refl,
                )
          | inr nz ↦
              rw (nz, fork_space)
                (fork_copy_lem (record k1 { rest = (os.copyuvm p.pgdir p.sz k1.rest).1 }) c _ old np
                  b1 at1 awake id was free others)
        ]

    -- With a caller that is neither asleep nor unused, fork fails with -1 or makes a runnable child in
    -- an unused slot, with the caller's tickets, size and trap frame (eax aside) and the next pid; the
    -- other slots are as they were. The tickets stay balanced in both cases.
    pub fork_lem : is_sleeping p ≡ false → is_unused p ≡ false → Forks k me p (fork os me k)
    unfolding fork
    fork_lem awake used =
        let (balanced, taken) = allocproc_lem os k b in go ((allocproc os k).0) refl balanced taken
      where
        distinct :
            (c : ℕ) (old : Proc) → get_elem? k.procs c ≡ some old → is_unused old ≡ true → c ≢ me
        distinct c old was free q =
            let same : get_elem? k.procs c ≡ get_elem? k.procs me = ap (get_elem? k.procs) q in
            let one : old ≡ p = (ground arith) in ground arith

        go :
            (slot : Option ℕ)
            → (allocproc os k).0 ≡ slot
            → Balanced (allocproc os k).1
            → ((c : ℕ)
                → (allocproc os k).0 ≡ some c
                → (q : Proc) × Allocated os k c q (allocproc os k).1)
            → Forks k me p (fork os me k)
        go none e b1 taken = rw (e, fork) (b1, inl refl)
        go (some c) e b1 taken =
            let (old, a) = taken c e in
            let write =
              λ (q : Proc). set_stack (a.stack) os.forkret os.trapret (claim k.nextpid q) in
            let at_c : get_elem? (allocproc os k).1.procs c ≡ some (write old) =
              rw (a.procs) (get_elem?-modify_self k.procs c write (a.was)) in
            let others : (j : ℕ)
                → c ≢ j
                → get_elem? (allocproc os k).1.procs j ≡ get_elem? k.procs j =
              λ j ne. rw (a.procs) (get_elem?-modify_ne k.procs c j write ne) in
            let at_me : get_elem? (allocproc os k).1.procs me ≡ some p =
              others me (distinct c old (a.was) (a.free)) ∙ at in
            rw (e, at_me, at_c, fork)
              (fork_space_lem (allocproc os k).1 c old (write old) b1 at_c refl refl (a.was)
                (a.free) others)

-- ===== src/Proc/Create.antt =====
-- allocproc, growproc and fork of proc.c. Each runs as one step: a slot in state `embryo` is touched
-- by nobody else, and the scan of the table holds its lock.
use os_fall.Base.{
  ℕ, not, ◌&&◌, Option, none, some, List, [], ◌∷◌, ◌==◌, if◌then◌else◌, get_elem?, find_index,
  add32, slt,
}
use os_fall.Str.{safestrcpy}
use os_fall.Proc.Types.{
  unused, embryo, runnable, Proc, Kernel, Services, is_unused, with_slot, minus_one, name_size,
}
use os_fall.Proc.Tickets.{setp_tickets}

-- `p->state = EMBRYO; p->pid = nextpid++;`
abbrev pub claim : ℕ → Proc → Proc
claim id p = record p { state = embryo; pid = id }

abbrev pub unclaim : Proc → Proc
unclaim p = record p { state = unused; kstack = 0 }

-- The stack that `swtch` will return through: forkret first, then trapret.
abbrev pub set_stack : ℕ → ℕ → ℕ → Proc → Proc
set_stack stack forkret trapret p = record p {
  kstack = stack;
  return_to = trapret;
  context_eip = forkret;
}

abbrev pub copy_space : ℕ → ℕ → Proc → Proc → Proc
copy_space me dir parent p = record p {
  pgdir = dir;
  sz = parent.sz;
  parent = some me;
  tf = parent.tf;
}

abbrev pub start_child : List ℕ → ℕ → Proc → Proc → Proc
start_child files dir parent p = record p {
  tf = record (p.tf) { eax = 0 };
  ofile = files;
  cwd = dir;
  state = runnable;
  name = safestrcpy p.name parent.name name_size;
}

module _ {K : Type 0} (os : Services K) where
  unfoldable pub alloc_stack : ℕ → Kernel K → Option ℕ × Kernel K
  alloc_stack i k =
      let (stack, r) = os.kalloc k.rest in
      if stack == 0
      then (none, record (with_slot k i unclaim) { rest = r })
      else (some i, record (with_slot k i (set_stack stack os.forkret os.trapret)) { rest = r })

  unfoldable pub allocproc : Kernel K → Option ℕ × Kernel K
  allocproc k = elim (find_index is_unused k.procs) [
    | none ↦ (none, k)
    | some i ↦
        alloc_stack i (record (with_slot k i (claim k.nextpid)) { nextpid = add32 k.nextpid 1 })
  ]

  -- The loop over `ofile`: a descriptor that the parent has closed leaves the child's alone.
  unfoldable pub dup_files : List ℕ → List ℕ → K → List ℕ × K
  dup_files [] gs r = (gs, r)
  dup_files (f ∷ fs) [] r = ([], r)
  dup_files (f ∷ fs) (g ∷ gs) r =
      let (h, r') = (if f == 0 then (g, r) else os.filedup f r) in
      let (hs, r'') = dup_files fs gs r' in (h ∷ hs, r'')

  -- `fork` after `copyuvm` has given the page directory `dir`; `c` is the child's slot.
  unfoldable pub fork_copy : ℕ → Proc → ℕ → Proc → ℕ → Kernel K → ℕ × Kernel K
  fork_copy me p c np dir k =
      let k1 = setp_tickets (with_slot k c (copy_space me dir p)) c p.tickets in
      let (files, r1) = dup_files p.ofile np.ofile k1.rest in
      let (cwd, r2) = os.idup p.cwd r1 in
      (np.pid, record (with_slot k1 c (start_child files cwd p)) { rest = r2 })

  -- `fork` after `allocproc` has given the slot `c`.
  unfoldable pub fork_space : ℕ → Proc → ℕ → Proc → Kernel K → ℕ × Kernel K
  fork_space me p c np k =
      let (dir, r) = os.copyuvm p.pgdir p.sz k.rest in
      if dir == 0
      then (
        minus_one,
        record (with_slot k c (λ q. record q { pgdir = 0; kstack = 0; state = unused })) {
          rest = os.kfree np.kstack r;
        },
      )
      else fork_copy me p c np dir (record k { rest = r })

  -- The caller `me` and the slot that `allocproc` returns are in the table.
  unfoldable pub fork : ℕ → Kernel K → ℕ × Kernel K
  fork me k =
      let (slot, k1) = allocproc k in
      elim slot [
        | none ↦ (minus_one, k1)
        | some c ↦ elim (get_elem? k1.procs me) [
          | none ↦ (minus_one, k1)
          | some p ↦ elim (get_elem? k1.procs c) [
            | none ↦ (minus_one, k1)
            | some np ↦ fork_space me p c np k1
          ]
        ]
      ]

  -- `n` is an `int`: positive below 2 ^ 31. A result 0 of the two allocators is a failure.
  unfoldable pub growproc : ℕ → ℕ → Kernel K → ℕ × Kernel K
  growproc me n k = elim (get_elem? k.procs me) [
    | none ↦ (minus_one, k)
    | some p ↦
        let (size, r) =
          (if n == 0
            then (p.sz, k.rest)
            else if slt 0 n
            then os.allocuvm p.pgdir p.sz (add32 p.sz n) k.rest
            else os.deallocuvm p.pgdir p.sz (add32 p.sz n) k.rest) in
        if size == 0 && not (n == 0)
        then (minus_one, record k { rest = r })
        else (0, record (with_slot k me (λ q. record q { sz = size })) { rest = r })
  ]

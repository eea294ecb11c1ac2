-- ===== src/Proc/Types.antt =====
-- The state of xv62/xv6/kernel/proc.c and proc.h: a slot of the process table, the table with the
-- counters beside it, and what proc.c asks of the rest of the kernel.
-- An `int` or `uint` is a number below 2 ^ 32, a pointer is an address with 0 for NULL, and a
-- `struct proc *` is the index of its slot.
use os_fall.Base.{ℕ, ◌+◌, ◌-◌, ◌*◌, ◌^◌, Bool, true, false, Option, none, some, List, ◌==◌, modify}
use os_fall.Str.{Bytes}

-- `enum procstate`
pub data ProcState : Type 0 where
  unused embryo sleeping runnable running zombie : ProcState

-- The fields of `struct trapframe` that proc.c sets, and one for those that it only copies.
pub record TrapFrame : Type 0 where
  pub eax : ℕ
  pub cs : ℕ
  pub ds : ℕ
  pub es : ℕ
  pub ss : ℕ
  pub eflags : ℕ
  pub esp : ℕ
  pub eip : ℕ
  pub others : ℕ → ℕ

-- `struct proc`. The frame and the return address, which stand on the kernel stack, are kept with
-- the slot; of `struct context` the code sets `eip`.
pub record Proc : Type 0 where
  pub sz : ℕ
  pub pgdir : ℕ
  pub kstack : ℕ
  pub state : ProcState
  pub pid : ℕ
  pub parent : Option ℕ
  pub tf : TrapFrame
  pub return_to : ℕ
  pub context_eip : ℕ
  pub chan : ℕ
  pub killed : Bool
  pub ofile : List ℕ
  pub cwd : ℕ
  pub name : Bytes
  pub tickets : ℕ
  pub inuse : ℕ
  pub ticks : ℕ

-- `ptable.proc`, `initproc`, `nextpid` and `total_tickets`. `past` is the word that stands where a
-- slot behind the last one would have its `state`. `rest` is the rest of the kernel.
pub record Kernel (K : Type 0) : Type 0 where
  pub procs : List Proc
  pub past : ProcState
  pub initproc : Option ℕ
  pub nextpid : ℕ
  pub total_tickets : ℕ
  pub rest : K

-- kalloc.c, vm.c, file.c and fs.c, as proc.c calls them.
pub record Services (K : Type 0) : Type 0 where
  pub kalloc : K → ℕ × K
  pub kfree : ℕ → K → K
  pub copyuvm : ℕ → ℕ → K → ℕ × K
  pub freevm : ℕ → K → K
  pub allocuvm : ℕ → ℕ → ℕ → K → ℕ × K
  pub deallocuvm : ℕ → ℕ → ℕ → K → ℕ × K
  pub filedup : ℕ → K → ℕ × K
  pub fileclose : ℕ → K → K
  pub idup : ℕ → K → ℕ × K
  pub iput : ℕ → K → K
  -- The addresses of the table and of the two entry points in assembly.
  pub table : ℕ
  pub forkret : ℕ
  pub trapret : ℕ

-- NPROC
abbrev pub max_procs : ℕ
max_procs = 64

-- sizeof(proc->name)
abbrev pub name_size : ℕ
name_size = 16

abbrev pub is_unused : Proc → Bool
is_unused p = elim p.state [ unused ↦ true | _ ↦ false ]

abbrev pub is_sleeping : Proc → Bool
is_sleeping p = elim p.state [ sleeping ↦ true | _ ↦ false ]

abbrev pub is_zombie : Proc → Bool
is_zombie p = elim p.state [ zombie ↦ true | _ ↦ false ]

abbrev pub is_runnable : Proc → Bool
is_runnable p = elim p.state [ runnable ↦ true | _ ↦ false ]

-- `*a == b` for two `struct proc *`.
abbrev pub same_slot : Option ℕ → ℕ → Bool
same_slot none i = false
same_slot (some j) i = j == i

-- Addresses of slots; `sizeof(struct proc)` is 136.
abbrev pub slot_addr : ℕ → Option ℕ → ℕ
slot_addr table none = 0
slot_addr table (some i) = table + 136 * i

-- The result -1 of an `int` function.
abbrev pub minus_one : ℕ
minus_one = 2 ^ 32 - 1

pub data Panic : Type 0 where
  init_exiting sleep_without_proc sleep_without_lock too_many_tickets zero_divide : Panic

pub data Result (A : Type 0) : Type 0 where
  ok : A → Result A
  panic : Panic → Result A

module _ {K : Type 0} where
  -- Writes to one slot.
  abbrev pub with_slot : Kernel K → ℕ → (Proc → Proc) → Kernel K
  with_slot k i f = record k { procs = modify k.procs i f }

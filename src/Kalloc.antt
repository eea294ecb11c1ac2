-- ===== src/Kalloc.antt =====
-- xv62/xv6/kernel/kalloc.c. The free pages are a linked list through the pages: `links` is the first
-- word of each page, where `struct run` stands, and `memory` the bytes that kfree fills with ones.
-- `end` is the linker's symbol, and a panic is `none`.
pub mod Chain
pub mod Init
mod Tests
use os_fall.Base.{
  ℕ, zero, suc, ◌+◌, ◌-◌, ◌*◌, Bool, true, false, ◌/◌, ◌%◌, not, ◌||◌, Option, none, some, ltb, leb,
  ◌==◌, add32, if◌then◌else◌,
}
use os_fall.Str.{Bytes, store, memset}

-- PGSIZE and PHYSTOP
abbrev pub page_size : ℕ
page_size = 4096

abbrev pub phystop : ℕ
phystop = 0x1000000

-- PGROUNDUP
abbrev pub page_round_up : ℕ → ℕ
page_round_up a = add32 a (page_size - 1) / page_size * page_size

pub record Kmem : Type 0 where
  pub freelist : ℕ
  pub links : ℕ → ℕ
  pub memory : Bytes

-- The test of kfree.
abbrev pub is_bad : ℕ → ℕ → Bool
is_bad end v = not (v % page_size == 0) || (ltb v end || leb phystop v)

abbrev pub free_page : ℕ → Kmem → Kmem
free_page v s = record {
  freelist = v;
  links = store s.links v s.freelist;
  memory = memset s.memory v 1 page_size;
}

pub kfree : ℕ → ℕ → Kmem → Option Kmem
kfree end v s = if is_bad end v then none else some (free_page v s)

pub kalloc : Kmem → ℕ × Kmem
kalloc s = (s.freelist, if s.freelist == 0 then s else record s { freelist = s.links s.freelist })

pub kinit_loop : ℕ → ℕ → ℕ → Kmem → Option Kmem
unfolding kfree
kinit_loop zero end p s = some s
kinit_loop (suc rounds) end p s =
    let rest : Option Kmem = elim (kfree end p s) [
      | none ↦ none
      | some t ↦ kinit_loop rounds end (p + page_size) t
    ] in
    if leb (p + page_size) phystop then rest else some s

-- A round for each page below PHYSTOP.
pub kinit : ℕ → Kmem → Option Kmem
unfolding kinit_loop
kinit end s = kinit_loop 4096 end (page_round_up end) s

-- ===== src/Args.antt =====
-- xv62/xv6/kernel/syscall.c: how a system call fetches its arguments from the memory of the process that
-- calls. `mem` is that memory, and an answer -1 is `none`.
pub mod Bounds
mod Tests
use os_fall.Base.{
  ℕ, zero, suc, ◌+◌, ◌-◌, ◌*◌, ◌/◌, ◌%◌, ◌^◌, ◌≤◌, ◌<◌, min, ◌≡◌, refl, sym, ap, ◌∙◌, ◌≢◌, ◌↔◌, ◌⊎◌,
  inl, inr, Bool, true, false, not, ◌&&◌, ◌||◌, Option, none, some, List, [], ◌∷◌, ◌++◌, map, arith,
  ltb, leb, ◌==◌, if◌then◌else◌, ltb→lt, leb→le, ==_iff, Bool-cases, Option-cases, length,
  get_elem?, get_or, set, take, replicate, modify, find_index, length-append, find_index_lem,
  length-set, length-modify, modify-modify, get_elem?-set_self, get_elem?-set_ne,
  get_elem?-modify_self, get_elem?-modify_ne, get_elem?-lt, length-replicate, word_size, add32,
  sub32, slt, slt-ltb, add32-sub32,
}
use os_fall.Str.{Bytes}
use os_fall.Fcheck.Image.{read32}
use os_fall.Proc.Types.{Proc}

-- `addr+4` wraps.
pub fetchint : Bytes → Proc → ℕ → Option ℕ
fetchint mem p addr =
    if leb p.sz addr || ltb p.sz (add32 addr 4) then none else some (read32 mem addr)

-- The loop of fetchstr from `s` on, in a round for each byte below `ep`.
pub find_nul : ℕ → Bytes → ℕ → Option ℕ
find_nul zero mem s = none
find_nul (suc rounds) mem s =
    let rest = find_nul rounds mem (s + 1) in if mem s == 0 then some s else rest

-- The pointer and the length of the string.
pub fetchstr : Bytes → Proc → ℕ → Option (ℕ × ℕ)
unfolding find_nul
fetchstr mem p addr =
    if leb p.sz addr
    then none
    else elim (find_nul (p.sz - addr) mem addr) [ none ↦ none | some s ↦ some (addr, s - addr) ]

-- `proc->tf->esp + 4 + 4*n`
abbrev pub arg_at : Proc → ℕ → ℕ
arg_at p n = add32 (add32 p.tf.esp 4) (4 * n)

pub argint : Bytes → Proc → ℕ → Option ℕ
unfolding fetchint
argint mem p n = fetchint mem p (arg_at p n)

-- `(uint)i+size` wraps.
pub argptr : Bytes → Proc → ℕ → ℕ → Option ℕ
unfolding argint
argptr mem p n size = elim (argint mem p n) [
  | none ↦ none
  | some i ↦ if leb p.sz i || ltb p.sz (add32 i size) then none else some i
]

pub argstr : Bytes → Proc → ℕ → Option (ℕ × ℕ)
unfolding argint fetchstr
argstr mem p n = elim (argint mem p n) [ none ↦ none | some addr ↦ fetchstr mem p addr ]

-- ===== src/Args/Tests.antt =====
-- Runs of the fetching of arguments.
use os_fall.Base.{◌+◌, ◌≤◌, ◌<◌, ◌≡◌, refl, ◌↔◌, false, none, some, [], arith, ◌==◌, if◌then◌else◌}
use os_fall.Str.{Bytes}
use os_fall.Fcheck.Image.{read32}
use os_fall.Proc.Types.{Proc, running}
use os_fall.Args.{argptr, argstr}
use os_fall.Args.Bounds.{IsArgument, argptr_lem}

-- A process with 4096 bytes and its stack pointer at 100.
abbrev caller : Proc
caller = record {
  sz = 4096;
  pgdir = 0;
  kstack = 0;
  state = running;
  pid = 3;
  parent = none;
  tf = record {
    eax = 0;
    cs = 0;
    ds = 0;
    es = 0;
    ss = 0;
    eflags = 0;
    esp = 100;
    eip = 0;
    others = λ x. 0;
  };
  return_to = 0;
  context_eip = 0;
  chan = 0;
  killed = false;
  ofile = [];
  cwd = 0;
  name = λ x. 0;
  tickets = 1;
  inuse = 1;
  ticks = 0;
}

-- The first argument is 16, where "hi" stands.
abbrev memory : Bytes
memory x = if x == 104 then 16 else if x == 16 then b'h' else if x == 17 then b'i' else 0

gives_pointer : argptr memory caller 0 100 ≡ some 16
unfolding argptr read32
gives_pointer = refl

-- A size of -1 passes.
gives_negative : argptr memory caller 0 4294967295 ≡ some 16
unfolding argptr read32
gives_negative = refl

argptr_lem_example :
    (argptr memory caller 0 100 ≡ some 16)
    ↔ (IsArgument memory caller 0 16 × (16 < caller.sz) × (16 + 100 ≤ caller.sz))
argptr_lem_example = argptr_lem memory caller 0 100 16 (omega arith) (omega arith)

gives_string : argstr memory caller 0 ≡ some (16, 2)
unfolding argstr read32
gives_string = refl

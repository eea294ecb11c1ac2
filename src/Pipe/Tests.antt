-- ===== src/Pipe/Tests.antt =====
-- A pipe whose counters are about to wrap, with two bytes in it, and one process.
use os_fall.Base.{
  ℕ, ◌-◌, ◌^◌, ◌≡◌, refl, false, none, some, [], ◌∷◌, ◌++◌, arith, ◌==◌, if◌then◌else◌,
}
use os_fall.Proc.Types.{running, Proc, Kernel, ok}
use os_fall.Proc.Sleep.{wakeup, wakeup1, wake_loop}
use os_fall.Pipe.{
  Pipe, WriteStop, ReadStop, new_pipe, write_loop, read_loop, pipewrite_from, pipewrite, piperead,
}
use os_fall.Pipe.Queue.{contents, WellFormed}
use os_fall.Pipe.Runs.{WriteStops, pipewrite_lem, ReadStops, piperead_lem}
use os_fall.Pipe.Traffic.{Traffic, quiet, writes, reads, pipe_fifo}

abbrev worker : Proc
worker = record {
  sz = 4096;
  pgdir = 1;
  kstack = 1;
  state = running;
  pid = 1;
  parent = none;
  tf = record {
    eax = 0;
    cs = 0;
    ds = 0;
    es = 0;
    ss = 0;
    eflags = 0;
    esp = 0;
    eip = 0;
    others = λ _. 0;
  };
  return_to = 0;
  context_eip = 0;
  chan = 0;
  killed = false;
  ofile = [];
  cwd = 0;
  name = λ _. 0;
  tickets = 1;
  inuse = 1;
  ticks = 0;
}

abbrev kernel : Kernel ℕ
kernel = record {
  procs = worker ∷ [];
  past = running;
  initproc = some 0;
  nextpid = 2;
  total_tickets = 1;
  rest = 0;
}

-- Two bytes, 11 and 12, of which the second stands behind the wrap.
abbrev wrapping : Pipe
wrapping = record (new_pipe 8192 (λ i. if i == 511 then 11 else 12)) {
  nread = 2 ^ 32 - 1;
  nwrite = 1;
}

wrapping-WellFormed : WellFormed wrapping
wrapping-WellFormed = record {
  nread_word = omega arith;
  nwrite_word = omega arith;
  fits = omega arith;
}

wrapping-contents : contents wrapping ≡ 11 ∷ 12 ∷ []
wrapping-contents = refl

-- A write of one byte and a read of two.
one_in_two_out :
    Traffic ℕ wrapping (13 ∷ []) (11 ∷ 12 ∷ []) (read_loop (write_loop wrapping (13 ∷ [])).0 2).0
unfolding pipewrite pipewrite_from piperead write_loop read_loop wakeup wakeup1 wake_loop
one_in_two_out = writes 0 1 (13 ∷ []) kernel _ _ refl (reads 0 2 kernel _ _ refl quiet)

pipe_fifo_example :
    (contents wrapping ++ (13 ∷ [])
      ≡ (11 ∷ 12 ∷ []) ++ contents (read_loop (write_loop wrapping (13 ∷ [])).0 2).0)
    × WellFormed (read_loop (write_loop wrapping (13 ∷ [])).0 2).0
pipe_fifo_example = pipe_fifo wrapping-WellFormed one_in_two_out

pipewrite_lem_example :
    (stop : WriteStop) × (q : Pipe) × (k1 : Kernel ℕ) × (pipewrite 0 1 (13 ∷ []) wrapping kernel
      ≡ ok (stop, q, k1))
    × WellFormed q
    × (contents q ≡ 11 ∷ 12 ∷ 13 ∷ [])
    × WriteStops 0 1 q [] kernel stop k1
pipewrite_lem_example =
    pipewrite_lem 0 1 (13 ∷ []) wrapping kernel wrapping-WellFormed (omega arith)

piperead_lem_example :
    (stop : ReadStop) × (q : Pipe) × (k1 : Kernel ℕ) × (piperead 0 1 wrapping kernel
      ≡ ok (stop, q, k1))
    × WellFormed q
    × ReadStops 0 1 wrapping kernel stop q k1
piperead_lem_example = piperead_lem 0 1 wrapping kernel wrapping-WellFormed (omega arith)

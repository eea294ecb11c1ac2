-- ===== src/Pipe.antt =====
-- xv62/xv6/kernel/pipe.c: the ring buffer of a pipe, its counters, and what a call does to the
-- process table. The counters are `uint`s and wrap. A call runs under the pipe's lock from one
-- `sched` to the next, as one step; a call that falls asleep is taken up again by its `_return`.
-- `n` is the length of the caller's buffer, which `argptr` of syscall.c has checked.
pub mod Queue
pub mod Loops
pub mod Runs
pub mod Traffic
mod Tests
use os_fall.Base.{
  ℕ, zero, suc, ◌+◌, ◌%◌, Bool, true, false, not, ◌&&◌, ◌||◌, none, some, List, [], ◌∷◌, ◌==◌,
  if◌then◌else◌, length, get_elem?, add32,
}
use os_fall.Str.{Bytes, store}
use os_fall.Proc.Types.{Kernel, Services, Result, ok, panic, minus_one}
use os_fall.Proc.Sleep.{sleep, sleep_return, wakeup}

abbrev pub pipe_size : ℕ
pipe_size = 512

-- `struct pipe` and the address where it stands.
pub record Pipe : Type 0 where
  pub address : ℕ
  pub ring : Bytes
  pub nread : ℕ
  pub nwrite : ℕ
  pub readopen : Bool
  pub writeopen : Bool

-- The addresses of `p->lock`, `p->nread` and `p->nwrite`.
abbrev pub lock_at : Pipe → ℕ
lock_at p = p.address

abbrev pub nread_at : Pipe → ℕ
nread_at p = p.address + 564

abbrev pub nwrite_at : Pipe → ℕ
nwrite_at p = p.address + 568

-- What `pipealloc` stores in a fresh page.
abbrev pub new_pipe : ℕ → Bytes → Pipe
new_pipe at junk = record {
  address = at;
  ring = junk;
  nread = 0;
  nwrite = 0;
  readopen = true;
  writeopen = true;
}

abbrev pub is_full : Pipe → Bool
is_full p = p.nwrite == add32 p.nread pipe_size

abbrev pub is_empty : Pipe → Bool
is_empty p = p.nread == p.nwrite

-- `p->data[p->nwrite++ % PIPESIZE] = addr[i]`
abbrev pub put : Pipe → ℕ → Pipe
put p c = record p { ring = store p.ring (p.nwrite % pipe_size) c; nwrite = add32 p.nwrite 1 }

-- `addr[i] = p->data[p->nread++ % PIPESIZE]`
abbrev pub front : Pipe → ℕ
front p = p.ring (p.nread % pipe_size)

abbrev pub advance : Pipe → Pipe
advance p = record p { nread = add32 p.nread 1 }

-- The `for` of `pipewrite` up to the end of the bytes or to a full ring.
pub write_loop : Pipe → List ℕ → Pipe × List ℕ
write_loop p [] = (p, [])
write_loop p (c ∷ cs) =
    let rest = write_loop (put p c) cs in if is_full p then (p, c ∷ cs) else rest

-- The `for` of `piperead`.
pub read_loop : Pipe → ℕ → Pipe × List ℕ
read_loop p zero = (p, [])
read_loop p (suc n) =
    let rest = read_loop (advance p) n in if is_empty p then (p, []) else (rest.0, front p ∷ rest.1)

-- A call of `pipewrite` returns a number, or sleeps with bytes left to write.
pub data WriteStop : Type 0 where
  wrote : ℕ → WriteStop
  write_asleep : List ℕ → WriteStop

-- A call of `piperead` returns a number and has filled that much of the buffer, or fails, or sleeps.
pub data ReadStop : Type 0 where
  got : List ℕ → ReadStop
  read_failed : ReadStop
  read_asleep : ReadStop

-- The return value of `piperead`.
abbrev pub read_value : ReadStop → ℕ
read_value (got cs) = length cs
read_value read_failed = minus_one
read_value read_asleep = 0

module _ {K : Type 0} where
  -- `proc->killed`
  abbrev pub is_killed : Kernel K → ℕ → Bool
  is_killed k me = elim (get_elem? k.procs me) [ none ↦ false | some p ↦ p.killed ]

  -- The call after a `sleep` that leaves the kernel as `r`.
  abbrev pub asleep : {A : Type 0} → A → Pipe → Result (Kernel K) → Result (A × Pipe × Kernel K)
  asleep stop p (ok k) = ok (stop, p, k)
  asleep stop p (panic e) = panic e

  pub pipewrite_from : ℕ → ℕ → Pipe → List ℕ → Kernel K → Result (WriteStop × Pipe × Kernel K)
  pipewrite_from me n p [] k = ok (wrote n, p, wakeup (nread_at p) k)
  pipewrite_from me n p (c ∷ cs) k =
      if not p.readopen || is_killed k me
      then ok (wrote minus_one, p, k)
      else asleep (write_asleep (c ∷ cs)) p
          (sleep (some me) (nwrite_at p) (lock_at p) (wakeup (nread_at p) k))

  -- `pipewrite` of the bytes that are left of `n`, down to its return or to its `sleep`.
  pub pipewrite : ℕ → ℕ → List ℕ → Pipe → Kernel K → Result (WriteStop × Pipe × Kernel K)
  pipewrite me n cs p k = let (p1, left) = write_loop p cs in pipewrite_from me n p1 left k

  -- `pipewrite` once its `sleep` returns.
  pub pipewrite_return : ℕ → ℕ → List ℕ → Pipe → Kernel K → Result (WriteStop × Pipe × Kernel K)
  pipewrite_return me n left p k = pipewrite me n left p (sleep_return me k)

  pub piperead : ℕ → ℕ → Pipe → Kernel K → Result (ReadStop × Pipe × Kernel K)
  piperead me n p k =
      if is_empty p && p.writeopen
      then if is_killed k me
        then ok (read_failed, p, k)
        else asleep read_asleep p (sleep (some me) (nread_at p) (lock_at p) k)
      else let (p1, cs) = read_loop p n in ok (got cs, p1, wakeup (nwrite_at p) k)

  -- `piperead` once its `sleep` returns.
  pub piperead_return : ℕ → ℕ → Pipe → Kernel K → Result (ReadStop × Pipe × Kernel K)
  piperead_return me n p k = piperead me n p (sleep_return me k)

  -- The page goes back once both ends are closed: there is no pipe then.
  pub pipeclose : Services K → Bool → Pipe → Kernel K → Pipe × Kernel K
  pipeclose os true p k =
      let p1 : Pipe = record p { writeopen = false } in
      let k1 = wakeup (nread_at p) k in
      (p1, if p1.readopen then k1 else record k1 { rest = os.kfree p.address k1.rest })
  pipeclose os false p k =
      let p1 : Pipe = record p { readopen = false } in
      let k1 = wakeup (nwrite_at p) k in
      (p1, if p1.writeopen then k1 else record k1 { rest = os.kfree p.address k1.rest })

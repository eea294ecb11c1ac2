-- ===== src/Pipe/Runs.antt =====
-- pipewrite and piperead down to their return or their `sleep`, against a queue of at most 512 bytes
-- and the process table of proc.c.
use mathlib.Core.Path.{subst}
use os_fall.Base.{
  ℕ, ◌≡◌, refl, sym, ◌∙◌, ◌≢◌, ◌⊎◌, inl, inr, true, false, List, [], ◌∷◌, ◌++◌, arith, ◌==◌,
  Bool-cases, take,
}
use os_fall.Proc.Types.{Kernel, ok, with_slot, minus_one}
use os_fall.Proc.Sleep.{sleep, wakeup, wakeup1, fall_asleep}
use os_fall.Proc.Tickets.{store_tickets}
use os_fall.Pipe.{
  Pipe, is_empty, nread_at, nwrite_at, lock_at, write_loop, read_loop, WriteStop, wrote,
  write_asleep, ReadStop, got, read_failed, read_asleep, is_killed, pipewrite_from, pipewrite,
  piperead,
}
use os_fall.Pipe.Queue.{drop, is_empty-contents, is_empty-ne, contents, room, WellFormed}
use os_fall.Pipe.Loops.{write_loop_lem, read_loop_lem}

module _ {K : Type 0} (me : ℕ) where
  -- The kernel with the process asleep on the channel.
  abbrev pub put_to_sleep : ℕ → Kernel K → Kernel K
  put_to_sleep c k = store_tickets (with_slot k me (fall_asleep c)) me

  -- How `pipewrite` stops with the bytes `left` that did not fit. No slot of the table changes but
  -- that of a caller that falls asleep.
  abbrev pub WriteStops : ℕ → Pipe → List ℕ → Kernel K → WriteStop → Kernel K → Type 0
  WriteStops n q [] k (wrote r) k1 = (r ≡ n) × (k1.procs ≡ k.procs)
  WriteStops n q (c ∷ cs) k (wrote r) k1 =
      (r ≡ minus_one) × ((q.readopen ≡ false) ⊎ (is_killed k me ≡ true)) × (k1 ≡ k)
  WriteStops n q [] k (write_asleep bs) k1 = ⊥
  WriteStops n q (c ∷ cs) k (write_asleep bs) k1 =
      (bs ≡ c ∷ cs)
      × (q.readopen ≡ true)
      × (is_killed k me ≡ false)
      × (k1 ≡ put_to_sleep (nwrite_at q) (wakeup (nread_at q) k))

  pipewrite_from_lem :
      (n : ℕ) (q : Pipe) (left : List ℕ) (k : Kernel K)
      → q.address ≢ 0
      → (stop : WriteStop) × (k1 : Kernel K) × (pipewrite_from me n q left k ≡ ok (stop, q, k1))
        × WriteStops n q left k stop k1
  unfolding pipewrite_from sleep wakeup wakeup1
  pipewrite_from_lem n q [] k a = (wrote n, wakeup (nread_at q) k, refl, (refl, refl))
  pipewrite_from_lem n q (c ∷ cs) k a = elim (Bool-cases q.readopen) [
    | inr e ↦ (wrote minus_one, k, rw e refl, (refl, inl e, refl))
    | inl e ↦ elim (Bool-cases (is_killed k me)) [
      | inl d ↦ (wrote minus_one, k, rw (e, d) refl, (refl, inr d, refl))
      | inr d ↦
          let lock : (lock_at q == 0) ≡ false = ground arith in
          let asleep_k = put_to_sleep (nwrite_at q) (wakeup (nread_at q) k) in
          (write_asleep (c ∷ cs), asleep_k, rw (e, d, lock) refl, (refl, e, d, refl))
    ]
  ]

  -- A call of pipewrite on a well-formed pipe at an address other than 0 never panics. It appends to
  -- the queue the bytes that fit, and it returns n when all did. When some are left it returns -1 if
  -- the read end is closed or the caller is killed, and falls asleep with them otherwise. No slot of
  -- the process table changes but that of a caller that falls asleep.
  pub pipewrite_lem :
      (n : ℕ) (cs : List ℕ) (p : Pipe) (k : Kernel K)
      → WellFormed p
      → p.address ≢ 0
      → (stop : WriteStop) × (q : Pipe) × (k1 : Kernel K) × (pipewrite me n cs p k
          ≡ ok (stop, q, k1))
        × WellFormed q
        × (contents q ≡ contents p ++ take (room p) cs)
        × WriteStops n q (drop (room p) cs) k stop k1
  unfolding pipewrite
  pipewrite_lem n cs p k w a =
      let loop = write_loop_lem p cs (room p) w refl in
      let (stop, k1, e, s) =
        pipewrite_from_lem n (write_loop p cs).0 (write_loop p cs).1 k
          (λ z. a (sym loop.placed ∙ z)) in
      (
        stop,
        (write_loop p cs).0,
        k1,
        e,
        loop.formed,
        loop.added,
        subst (λ left. WriteStops n (write_loop p cs).0 left k stop k1) loop.kept s,
      )

  -- How `piperead` stops.
  abbrev pub ReadStops : ℕ → Pipe → Kernel K → ReadStop → Pipe → Kernel K → Type 0
  ReadStops n p k (got cs) q k1 =
      ((contents p ≢ []) ⊎ (p.writeopen ≡ false))
      × (cs ≡ take n (contents p))
      × (contents q ≡ drop n (contents p))
      × (k1.procs ≡ k.procs)
  ReadStops n p k read_failed q k1 =
      (contents p ≡ []) × (p.writeopen ≡ true) × (is_killed k me ≡ true) × (q ≡ p) × (k1 ≡ k)
  ReadStops n p k read_asleep q k1 =
      (contents p ≡ [])
      × (p.writeopen ≡ true)
      × (is_killed k me ≡ false)
      × (q ≡ p)
      × (k1 ≡ put_to_sleep (nread_at p) k)

  -- A call of piperead on a well-formed pipe at an address other than 0 never panics. On an empty
  -- queue whose write end is open it fails if the caller is killed and sleeps if not; otherwise it
  -- takes the first n bytes off the queue, or all if they are fewer. No slot of the process table
  -- changes but that of a caller that falls asleep.
  pub piperead_lem :
      (n : ℕ) (p : Pipe) (k : Kernel K)
      → WellFormed p
      → p.address ≢ 0
      → (stop : ReadStop) × (q : Pipe) × (k1 : Kernel K) × (piperead me n p k ≡ ok (stop, q, k1))
        × WellFormed q
        × ReadStops n p k stop q k1
  unfolding piperead sleep wakeup wakeup1
  piperead_lem n p k w a = elim (Bool-cases (is_empty p)) [
    | inr e ↦
        let loop = read_loop_lem p n w in
        (
          got (read_loop p n).1,
          (read_loop p n).0,
          wakeup (nwrite_at p) k,
          rw e refl,
          loop.formed,
          (inl (is_empty-ne p w e), loop.taken, loop.remains, refl),
        )
    | inl e ↦
        let nothing = is_empty-contents p w e in
        elim (Bool-cases p.writeopen) [
          | inr d ↦
              let loop = read_loop_lem p n w in
              (
                got (read_loop p n).1,
                (read_loop p n).0,
                wakeup (nwrite_at p) k,
                rw (e, d) refl,
                loop.formed,
                (inr d, loop.taken, loop.remains, refl),
              )
          | inl d ↦ elim (Bool-cases (is_killed k me)) [
            | inl f ↦ (read_failed, p, k, rw (e, d, f) refl, w, (nothing, d, f, refl, refl))
            | inr f ↦
                let lock : (lock_at p == 0) ≡ false = ground arith in
                (
                  read_asleep,
                  p,
                  put_to_sleep (nread_at p) k,
                  rw (e, d, f, lock) refl,
                  w,
                  (nothing, d, f, refl, refl),
                )
          ]
        ]
  ]

-- ===== src/Pipe/Traffic.antt =====
-- What goes through a pipe when calls of its ends follow one another in any order.
use mathlib.Core.Path.{subst}
use os_fall.Base.{
  ℕ, zero, suc, ◌-◌, ◌≡◌, refl, sym, ap, ◌∙◌, inl, inr, Bool, true, false, ◌&&◌, List, [], ◌∷◌,
  ◌++◌, arith, ◌==◌, Bool-cases, length, take,
}
use os_fall.Proc.Types.{Kernel, Services, Result, ok, panic, sleep_without_lock}
use os_fall.Proc.Sleep.{sleep, wakeup}
use os_fall.Pipe.{
  Pipe, is_empty, lock_at, nread_at, nwrite_at, write_loop, read_loop, WriteStop, ReadStop, got,
  read_failed, read_asleep, is_killed, pipewrite_from, pipewrite, piperead, pipeclose,
}
use os_fall.Pipe.Runs.{put_to_sleep}
use os_fall.Pipe.Queue.{drop, contents, room, WellFormed}
use os_fall.Pipe.Loops.{append-nil, write_loop_lem, read_loop_lem}

-- The bytes of `cs` that the loop of `pipewrite` has stored.
abbrev pub stored : Pipe → List ℕ → List ℕ
stored p cs = take (length cs - length (write_loop p cs).1) cs

-- The bytes that a call of `piperead` hands over.
abbrev pub received : ReadStop → List ℕ
received (got cs) = cs
received read_failed = []
received read_asleep = []

-- Calls on one pipe, with the bytes that they store and those that they hand over. A call that has
-- been asleep comes back as a further call for what is left. Between two calls the rest of the
-- kernel may change at will.
pub data Traffic (K : Type 0) : Pipe → List ℕ → List ℕ → Pipe → Type 0 where
  quiet : {p : Pipe} → Traffic K p [] [] p
  writes :
      (me n : ℕ) (cs : List ℕ) (k k1 : Kernel K) (stop : WriteStop) {p q r : Pipe} {ss rs : List ℕ}
      → pipewrite me n cs p k ≡ ok (stop, q, k1)
      → Traffic K q ss rs r
      → Traffic K p (stored p cs ++ ss) rs r
  reads :
      (me n : ℕ) (k k1 : Kernel K) (stop : ReadStop) {p q r : Pipe} {ss rs : List ℕ}
      → piperead me n p k ≡ ok (stop, q, k1)
      → Traffic K q ss rs r
      → Traffic K p ss (received stop ++ rs) r
  closes :
      (os : Services K) (writable : Bool) (k : Kernel K) {p r : Pipe} {ss rs : List ℕ}
      → Traffic K (pipeclose os writable p k).0 ss rs r
      → Traffic K p ss rs r

append_assoc : (xs ys zs : List ℕ) → (xs ++ ys) ++ zs ≡ xs ++ (ys ++ zs)
append_assoc [] ys zs = refl
append_assoc (x ∷ xs) ys zs = ap (◌∷◌ x) (append_assoc xs ys zs)

take-drop : (n : ℕ) (xs : List ℕ) → take n xs ++ drop n xs ≡ xs
take-drop zero xs = refl
take-drop (suc n) [] = refl
take-drop (suc n) (x ∷ xs) = ap (◌∷◌ x) (take-drop n xs)

length-drop : (n : ℕ) (xs : List ℕ) → length (drop n xs) ≡ length xs - n
length-drop zero xs = omega arith
length-drop (suc n) [] = omega arith
length-drop (suc n) (x ∷ xs) = omega (arith, length-drop n xs)

take-rest : (n : ℕ) (xs : List ℕ) → take (length xs - length (drop n xs)) xs ≡ take n xs
take-rest zero xs = let e : length xs - length xs ≡ 0 = omega arith in ap (λ m. take m xs) e
take-rest (suc n) [] = refl
take-rest (suc n) (x ∷ xs) =
    let e : suc (length xs) - length (drop n xs) ≡ suc (length xs - length (drop n xs)) =
      omega (arith, length-drop n xs) in
    ap (λ m. take m (x ∷ xs)) e ∙ ap (◌∷◌ x) (take-rest n xs)

stored_lem : (p : Pipe) (cs : List ℕ) → WellFormed p → stored p cs ≡ take (room p) cs
stored_lem p cs w =
    ap (λ left. take (length cs - length left) cs) (write_loop_lem p cs (room p) w refl).kept
    ∙ take-rest (room p) cs

Splits : Pipe → ReadStop → Pipe → Type 0
Splits p stop q = (contents p ≡ received stop ++ contents q) × WellFormed q

loop-Splits : (p : Pipe) (n : ℕ) → WellFormed p → Splits p (got (read_loop p n).1) (read_loop p n).0
unfolding Splits
loop-Splits p n w =
    let loop = read_loop_lem p n w in
    (
      sym (take-drop n (contents p))
          ∙ ap (λ xs. xs ++ drop n (contents p)) (sym loop.taken)
          ∙ ap (λ xs. (read_loop p n).1 ++ xs) (sym loop.remains),
      loop.formed,
    )

module _ {K : Type 0} where
  ok-Splits :
      (p : Pipe) {s t : ReadStop} {q r : Pipe} {k l : Kernel K}
      → ◌≡◌ {A = Result (ReadStop × Pipe × Kernel K)} (ok (s, q, k)) (ok (t, r, l))
      → Splits p s q
      → Splits p t r
  ok-Splits p {s} {t} {q} {r} h x =
      let es : s ≡ t = cc in
      let eq : q ≡ r = cc in subst (λ y. Splits p t y) eq (subst (λ y. Splits p y q) es x)

  pipewrite_from-same :
      (me n : ℕ) (q q1 : Pipe) (left : List ℕ) (k k1 : Kernel K) (stop : WriteStop)
      → pipewrite_from me n q left k ≡ ok (stop, q1, k1)
      → q ≡ q1
  unfolding pipewrite_from sleep
  pipewrite_from-same me n q q1 [] k k1 stop h = cc
  pipewrite_from-same me n q q1 (c ∷ cs) k k1 stop h = ground arith

  pipewrite-adds :
      (me n : ℕ) (p q : Pipe) (cs : List ℕ) (k k1 : Kernel K) (stop : WriteStop)
      → WellFormed p
      → pipewrite me n cs p k ≡ ok (stop, q, k1)
      → (contents q ≡ contents p ++ stored p cs) × WellFormed q
  unfolding pipewrite
  pipewrite-adds me n p q cs k k1 stop w h =
      let loop = write_loop_lem p cs (room p) w refl in
      let same = pipewrite_from-same me n (write_loop p cs).0 q (write_loop p cs).1 k k1 stop h in
      (
        sym (ap contents same) ∙ loop.added ∙ ap (λ xs. contents p ++ xs) (sym (stored_lem p cs w)),
        subst WellFormed same loop.formed,
      )

  piperead-Splits :
      (me n : ℕ) (p q : Pipe) (k k1 : Kernel K) (stop : ReadStop)
      → WellFormed p
      → piperead me n p k ≡ ok (stop, q, k1)
      → Splits p stop q
  unfolding piperead sleep Splits
  piperead-Splits me n p q k k1 stop w h = elim (Bool-cases (is_empty p && p.writeopen)) [
    | inr e ↦
        let r : piperead me n p k
            ≡ ok (got (read_loop p n).1, (read_loop p n).0, wakeup (nwrite_at p) k) =
          rw e refl in
        ok-Splits p (sym r ∙ h) (loop-Splits p n w)
    | inl e ↦ elim (Bool-cases (is_killed k me)) [
      | inl d ↦
          let r : piperead me n p k ≡ ok (read_failed, p, k) = rw (e, d) refl in
          ok-Splits p (sym r ∙ h) (refl, w)
      | inr d ↦ elim (Bool-cases (lock_at p == 0)) [
        | inl f ↦
            let r : piperead me n p k ≡ panic sleep_without_lock = rw (e, d, f) refl in
            absurd (let z = sym r ∙ h in cc)
        | inr f ↦
            let r : piperead me n p k ≡ ok (read_asleep, p, put_to_sleep me (nread_at p) k) =
              rw (e, d, f) refl in
            ok-Splits p (sym r ∙ h) (refl, w)
      ]
    ]
  ]

  -- First in, first out: whatever the order of the calls, the bytes that were in the ring and those
  -- stored since are the bytes handed over, in the same order, and those that are in the ring now.
  pub pipe_fifo :
      {p q : Pipe} {ss rs : List ℕ}
      → WellFormed p
      → Traffic K p ss rs q
      → (contents p ++ ss ≡ rs ++ contents q) × WellFormed q
  unfolding Splits pipeclose
  pipe_fifo w quiet = (append-nil _, w)
  pipe_fifo w (writes me n cs k k1 stop {p} {q} {r} {ss} {rs} h t) =
      let (adds, formed) = pipewrite-adds me n p q cs k k1 stop w h in
      let (flows, end) = pipe_fifo formed t in
      (
        sym (append_assoc (contents p) (stored p cs) ss) ∙ ap (λ xs. xs ++ ss) (sym adds) ∙ flows,
        end,
      )
  pipe_fifo w (reads me n k k1 stop {p} {q} {r} {ss} {rs} h t) =
      let (splits, formed) = piperead-Splits me n p q k k1 stop w h in
      let (flows, end) = pipe_fifo formed t in
      (
        ap (λ xs. xs ++ ss) splits
            ∙ append_assoc (received stop) (contents q) ss
            ∙ ap (λ xs. received stop ++ xs) flows
            ∙ sym (append_assoc (received stop) rs (contents r)),
        end,
      )
  pipe_fifo w (closes os true k t) =
      pipe_fifo (record { nread_word = w.nread_word; nwrite_word = w.nwrite_word; fits = w.fits }) t
  pipe_fifo w (closes os false k t) =
      pipe_fifo (record { nread_word = w.nread_word; nwrite_word = w.nwrite_word; fits = w.fits }) t

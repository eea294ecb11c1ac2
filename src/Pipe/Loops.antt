-- ===== src/Pipe/Loops.antt =====
-- The loops of pipewrite and piperead on the queue.
use os_fall.Base.{
  ℕ, zero, suc, ◌≡◌, refl, sym, ap, ◌∙◌, inl, inr, true, false, List, [], ◌∷◌, ◌++◌, arith,
  Bool-cases, take,
}
use os_fall.Pipe.{Pipe, is_full, is_empty, front, advance, put, write_loop, read_loop}
use os_fall.Pipe.Queue.{
  drop, contents, room, WellFormed, put-contents, put-WellFormed, count-put, is_full-room,
  is_full-suc, is_empty-contents, advance-contents, advance-WellFormed,
}

pub append-nil : (xs : List ℕ) → xs ++ [] ≡ xs
append-nil [] = refl
append-nil (x ∷ xs) = ap (◌∷◌ x) (append-nil xs)

snoc-append : (xs : List ℕ) (c : ℕ) (ys : List ℕ) → (xs ++ (c ∷ [])) ++ ys ≡ xs ++ (c ∷ ys)
snoc-append [] c ys = refl
snoc-append (x ∷ xs) c ys = ap (◌∷◌ x) (snoc-append xs c ys)

pub take-nil : (n : ℕ) → take {A = ℕ} n [] ≡ []
take-nil zero = refl
take-nil (suc n) = refl

pub drop-nil : (n : ℕ) → drop n [] ≡ []
drop-nil zero = refl
drop-nil (suc n) = refl

-- What a loop of `pipewrite` makes of the queue when `k` bytes fit.
pub record Wrote (p : Pipe) (cs : List ℕ) (k : ℕ) (q : Pipe) (left : List ℕ) : Type 0 where
  pub added : contents q ≡ contents p ++ take k cs
  pub kept : left ≡ drop k cs
  pub placed : q.address ≡ p.address
  pub formed : WellFormed q

pub write_loop_lem :
    (p : Pipe) (cs : List ℕ) (k : ℕ)
    → WellFormed p
    → room p ≡ k
    → Wrote p cs k (write_loop p cs).0 (write_loop p cs).1
unfolding write_loop
write_loop_lem p [] k w h = record {
  added = rw (take-nil k) (sym (append-nil (contents p)));
  kept = sym (drop-nil k);
  placed = refl;
  formed = w;
}
write_loop_lem p (c ∷ cs) zero w h =
    let full : is_full p ≡ true = is_full-room p w h in
    rw full
      (record { added = sym (append-nil (contents p)); kept = refl; placed = refl; formed = w })
write_loop_lem p (c ∷ cs) (suc k) w h =
    let is_open : is_full p ≡ false = is_full-suc p k w h in
    let rest =
      write_loop_lem (put p c) cs k (put-WellFormed p c w is_open)
        (omega (arith, h, count-put p c w is_open)) in
    rw is_open (record {
      added =
          rest.added
          ∙ ap (λ xs. xs ++ take k cs) (put-contents p c w is_open)
          ∙ snoc-append (contents p) c (take k cs);
      kept = rest.kept;
      placed = rest.placed;
      formed = rest.formed;
    })

-- What the loop of `piperead` makes of the queue: the first `n` bytes, as far as there are any, are
-- taken off.
pub record Took (p : Pipe) (n : ℕ) (q : Pipe) (cs : List ℕ) : Type 0 where
  pub taken : cs ≡ take n (contents p)
  pub remains : contents q ≡ drop n (contents p)
  pub formed : WellFormed q

pub read_loop_lem : (p : Pipe) (n : ℕ) → WellFormed p → Took p n (read_loop p n).0 (read_loop p n).1
unfolding read_loop
read_loop_lem p zero w = record { taken = refl; remains = refl; formed = w }
read_loop_lem p (suc n) w = elim (Bool-cases (is_empty p)) [
  | inl e ↦
      let none_left : contents p ≡ [] = is_empty-contents p w e in
      rw e (record {
        taken = sym (ap (take (suc n)) none_left);
        remains = none_left ∙ sym (ap (drop (suc n)) none_left);
        formed = w;
      })
  | inr e ↦
      let rest = read_loop_lem (advance p) n (advance-WellFormed p w e) in
      rw e (record {
        taken = ap (◌∷◌ (front p)) rest.taken ∙ sym (ap (take (suc n)) (advance-contents p w e));
        remains = rest.remains ∙ sym (ap (drop (suc n)) (advance-contents p w e));
        formed = rest.formed;
      })
]

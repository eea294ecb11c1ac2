-- ===== src/Csmc/Counts.antt =====
-- What the counters of csmc.c count, as sums over the students' threads.
use mathlib.Core.Path.{subst}
use os_fall.Base.{
  ℕ, zero, suc, ◌+◌, ◌*◌, ◌%◌, ◌^◌, ◌≤◌, ◌<◌, ◌≡◌, refl, ap, ◌∙◌, ◌≢◌, inl, inr, arith, ◌==◌,
  ==_iff, Bool-cases, word_size, add32,
}
use os_fall.Csmc.{
  Config, StudentPc, outside, seated, waiting, helped, returning, finishing, leaving, gone, Student,
  set_at,
}

-- The sum of `f` over the first `n` students.
abbrev pub total : (Student → ℕ) → (ℕ → Student) → ℕ → ℕ
total f st zero = 0
total f st (suc n) = total f st n + f (st n)

-- A student who has asked for help and has not had it yet.
abbrev pub pending : StudentPc → ℕ
pending seated = 1
pending waiting = 1
pending helped = 1
pending _ = 0

-- A student who has been called and has not counted it yet.
abbrev pub woken : StudentPc → ℕ
woken helped = 1
woken _ = 0

abbrev pub has_finished : StudentPc → ℕ
has_finished leaving = 1
has_finished gone = 1
has_finished _ = 0

abbrev pub requests : Student → ℕ
requests v = v.helped_time + pending v.pc

abbrev pub sessions : Student → ℕ
sessions v = v.helped_time + woken v.pc

abbrev pub finished : Student → ℕ
finished v = has_finished v.pc

-- How many more times a student at this point will be helped at least, and at most.
abbrev pub HelpBounds : ℕ → ℕ → StudentPc → Type 0
HelpBounds need h outside = h ≤ need
HelpBounds need h (returning x) = h ≤ need
HelpBounds need h finishing = h ≡ need
HelpBounds need h leaving = h ≡ need
HelpBounds need h gone = h ≡ need
HelpBounds need h _ = h < need

-- A student has been helped as often as the priority says, at most as often as is needed, and leaves
-- the loop only then.
pub record IsSteady (need : ℕ) (v : Student) : Type 0 where
  pub helps : HelpBounds need v.helped_time v.pc
  pub ranked : v.priority + v.helped_time ≡ need

-- The counters `r`, `t`, `m` and `f` of requests, sessions, the tutors' semaphore and of finished
-- students, against the threads.
pub record Counted (c : Config) (r t m f : ℕ) (st : ℕ → Student) : Type 0 where
  pub asked : r ≡ total requests st c.student_total
  pub served : t ≡ (m + total sessions st c.student_total) % word_size
  pub ended : f ≡ total finished st c.student_total
  pub steady : (i : ℕ) → i < c.student_total → IsSteady c.help_need_total (st i)

total-put_above :
    (g : Student → ℕ) (st : ℕ → Student) (i : ℕ) (w : Student) (n : ℕ)
    → n ≤ i
    → total g (set_at st i w) n ≡ total g st n
total-put_above g st i w zero h = refl
total-put_above g st i w (suc n) h =
    let other : set_at st i w n ≡ st n = ground arith in
    rw other (omega (arith, total-put_above g st i w n (omega arith)))

pub total-set_at :
    (g : Student → ℕ) (st : ℕ → Student) (i : ℕ) (w : Student) (n : ℕ)
    → i < n
    → total g (set_at st i w) n + g (st i) ≡ total g st n + g w
total-set_at g st i w zero h = absurd (omega arith)
total-set_at g st i w (suc n) h = elim (Bool-cases (n == i)) [
  | inl e ↦
      let same : n ≡ i = (==_iff n i).0 e in
      let own : set_at st i w n ≡ w = ground arith in
      let here : st n ≡ st i = ap st same in
      rw (own, here) (omega (arith, total-put_above g st i w n (omega arith)))
  | inr d ↦
      let other : set_at st i w n ≡ st n = ground arith in
      let differ : i ≢ n = ground arith in
      rw other (omega (arith, total-set_at g st i w n (omega (arith, differ))))
]

-- No more than 2001 for each student.
total-le :
    (g : Student → ℕ) (st : ℕ → Student) (n : ℕ)
    → ((i : ℕ) → i < n → g (st i) ≤ 2001)
    → total g st n ≤ 2001 * n
total-le g st zero h = omega arith
total-le g st (suc n) h =
    omega (arith, total-le g st n (λ i lt. h i (omega arith)), h n (omega arith))

-- The same number for each student.
pub total-const :
    (g : Student → ℕ) (st : ℕ → Student) (k n : ℕ)
    → ((i : ℕ) → i < n → g (st i) ≡ k)
    → total g st n ≡ n * k
total-const g st k zero h = omega arith
total-const g st k (suc n) h =
    grind (arith, total-const g st k n (λ i lt. h i (omega arith)), h n (omega arith))

pending-le : (need h : ℕ) (p : StudentPc) → HelpBounds need h p → h + pending p ≤ need
pending-le need h outside b = omega arith
pending-le need h _ b = omega arith

requests-le : (need : ℕ) (v : Student) → need < 2000 → IsSteady need v → requests v ≤ 2001
requests-le need v small w = omega (arith, pending-le need v.helped_time v.pc w.helps)

has_finished-le : (p : StudentPc) → has_finished p ≤ 1
has_finished-le outside = omega arith
has_finished-le _ = omega arith

finished-le : (v : Student) → finished v ≤ 2001
finished-le v = omega (arith, has_finished-le v.pc)

finished-le-n : (st : ℕ → Student) (n : ℕ) → total finished st n ≤ n
finished-le-n st zero = omega arith
finished-le-n st (suc n) = omega (arith, finished-le-n st n, has_finished-le (st n).pc)

-- When all have finished, each has.
pub each_finished :
    (st : ℕ → Student) (n : ℕ)
    → total finished st n ≡ n
    → (i : ℕ) → i < n
    → has_finished (st i).pc ≡ 1
each_finished st zero h i lt = absurd (omega arith)
each_finished st (suc n) h i lt =
    let most = finished-le-n st n in
    let last : has_finished (st n).pc ≡ 1 = omega (arith, h, most, has_finished-le (st n).pc) in
    elim (Bool-cases (i == n)) [
      | inl e ↦ ap (λ j. has_finished (st j).pc) ((==_iff i n).0 e) ∙ last
      | inr e ↦ each_finished st n (omega (arith, h, last)) i (ground arith)
    ]

pub has_finished-helped :
    (need h : ℕ) (p : StudentPc)
    → HelpBounds need h p
    → has_finished p ≡ 1
    → (h ≡ need) × (pending p ≡ 0)
has_finished-helped need h leaving b e = (b, refl)
has_finished-helped need h gone b e = (b, refl)
has_finished-helped need h outside b e = cc
has_finished-helped need h _ b e = cc

module _ (c : Config) (few : c.student_total < 2000) (short : c.help_need_total < 2000)
    {r t m f : ℕ} {st : ℕ → Student} (w : Counted c r t m f st) where
  pub asked-small : r < 2 ^ 31
  asked-small = omega (
    arith,
    w.asked,
    total-le requests st c.student_total
        (λ i lt. requests-le c.help_need_total (st i) short (w.steady i lt)),
  )

  pub ended-small : f < 2 ^ 31
  ended-small =
      omega (arith, w.ended, total-le finished st c.student_total (λ i lt. finished-le (st i)))

  -- A student moves, and the counters with it.
  pub move-Counted :
      (i : ℕ) (v : Student) {r1 t1 m1 f1 : ℕ}
      → i < c.student_total
      → IsSteady c.help_need_total v
      → r1 + requests (st i) ≡ r + requests v
      → (t1 ≡ t) × (m1 + sessions v ≡ m + sessions (st i))
      → f1 + finished (st i) ≡ f + finished v
      → Counted c r1 t1 m1 f1 (set_at st i v)
  move-Counted i v lt ok hr (ht, hm) hf = record {
    asked = omega (arith, w.asked, hr, total-set_at requests st i v c.student_total lt);
    served = omega (arith, w.served, ht, hm, total-set_at sessions st i v c.student_total lt);
    ended = omega (arith, w.ended, hf, total-set_at finished st i v c.student_total lt);
    steady =
        λ j below. elim (Bool-cases (j == i)) [ inl e ↦ rw e ok | inr e ↦ rw e (w.steady j below) ];
  }

  pub serve-Counted : Counted c r (add32 t 1) (suc m) f st
  serve-Counted = record {
    asked = w.asked;
    served = omega (arith, w.served);
    ended = w.ended;
    steady = w.steady;
  }

  -- A student goes from one point to another.
  pub go-Counted :
      (i : ℕ) (p q : StudentPc) {r1 m1 f1 : ℕ}
      → i < c.student_total
      → (st i).pc ≡ p
      → (HelpBounds c.help_need_total (st i).helped_time p
          → HelpBounds c.help_need_total (st i).helped_time q)
      → r1 + pending p ≡ r + pending q
      → m1 + woken q ≡ m + woken p
      → f1 + has_finished p ≡ f + has_finished q
      → Counted c r1 t m1 f1 (set_at st i (record (st i) { pc = q }))
  go-Counted i p q lt at keep hr hm hf =
      let ok = w.steady i lt in
      move-Counted i (record (st i) { pc = q }) lt
        (record {
          helps = keep (subst (HelpBounds c.help_need_total (st i).helped_time) at ok.helps);
          ranked = ok.ranked;
        })
        (omega (arith, hr, ap pending at)) (refl, omega (arith, hm, ap woken at))
        (omega (arith, hf, ap has_finished at))

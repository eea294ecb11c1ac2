-- ===== src/Csmc/Safety.antt =====
-- The counters of csmc.c count what they are for, in every state that the threads reach.
use mathlib.Core.Path.{subst}
use os_fall.Base.{
  ℕ, zero, suc, ◌*◌, ◌≤◌, ◌<◌, ◌≡◌, refl, sym, ap, ◌∙◌, inl, inr, true, false, arith, ltb, ltb→lt,
  Bool-cases, add32, sub32, slt, slt-ltb,
}
use os_fall.Csmc.{
  Config, outside, arriving, admitted, seating, seated, waiting, helped, returning, finishing,
  leaving, gone, Student, Center, scan, opening, CoordinatorPc, TutorPc, scan_seat,
}
use os_fall.Csmc.Steps.{
  StudentStep, again, enough, no_chair, lost_chairs, see_chair, load_taken, take_chair, notify,
  be_called, count_help, return_chair, finish, leave, TutorStep, next_call, go_home, be_sent,
  nobody_sits, choose, end_session, clear_queue, CoordinatorStep, look, close, hear, queue_students,
  send_home, shut_down, Step, of_student, of_tutor, of_coordinator, Reach, start, later,
}
use os_fall.Csmc.Counts.{
  each_finished, has_finished-helped, total, pending, requests, sessions, finished, HelpBounds,
  Counted, asked-small, ended-small, move-Counted, go-Counted, serve-Counted, total-const, woken,
  has_finished,
}

-- The counters of a state against its threads.
abbrev pub IsCounted : Config → Center → Type 0
IsCounted c s = Counted c s.total_request s.total_session s.tutor_sem s.student_finished s.students

slt→lt : (a b : ℕ) → a ≤ b → b < 2000 → slt a b ≡ true → a < b
slt→lt a b h k e = ltb→lt a b (sym (slt-ltb a b (omega arith) (omega arith)) ∙ e)

le-slt : (a b : ℕ) → b < 2000 → a ≤ b → slt a b ≡ false → a ≡ b
le-slt a b k h e =
    let f : ltb a b ≡ false = sym (slt-ltb a b (omega arith) (omega arith)) ∙ e in ground arith

-- What is counted of two states is the same.
abbrev SameCounts : Center → Center → Type 0
SameCounts s t =
    (t.students ≡ s.students)
    × (t.total_request ≡ s.total_request)
    × (t.total_session ≡ s.total_session)
    × (t.tutor_sem ≡ s.tutor_sem)
    × (t.student_finished ≡ s.student_finished)

scan_seat-keeps : (i : ℕ) (s : Center) → SameCounts s (scan_seat i s)
scan_seat-keeps i s = elim (Bool-cases (slt 0 (s.seats i))) [
  | inl e ↦ rw e (refl, refl, refl, refl, refl)
  | inr e ↦ rw e (refl, refl, refl, refl, refl)
]

-- What the coordinator writes is none of what is counted.
scan-keeps : (n i : ℕ) (s : Center) → SameCounts s (scan n i s)
unfolding scan
scan-keeps zero i s = (refl, refl, refl, refl, refl)
scan-keeps (suc n) i s =
    let (st, r, t, m, f) = scan-keeps n (suc i) (scan_seat i s) in
    let (st', r', t', m', f') = scan_seat-keeps i s in (st ∙ st', r ∙ r', t ∙ t', m ∙ m', f ∙ f')

module _ (c : Config) (few : c.student_total < 2000) (short : c.help_need_total < 2000) where
  student-IsCounted :
      (i : ℕ) {s t : Center}
      → i < c.student_total
      → IsCounted c s
      → StudentStep c s i (s.students i) t
      → IsCounted c t
  student-IsCounted i {s} lt w (again at more) =
      go-Counted c few short w i outside arriving lt at
        (λ h. slt→lt _ _ (omega (arith, h)) short more) refl refl refl
  student-IsCounted i {s} lt w (enough at done) =
      go-Counted c few short w i outside finishing lt at (λ h. le-slt _ _ short h done) refl refl
        refl
  student-IsCounted i {s} lt w (no_chair at free none_left) =
      go-Counted c few short w i arriving outside lt at (λ h. omega arith) refl refl refl
  student-IsCounted i {s} lt w (lost_chairs at free below) =
      go-Counted c few short w i arriving outside lt at (λ h. omega arith) refl refl refl
  student-IsCounted i {s} lt w (see_chair at free some_left) =
      go-Counted c few short w i arriving admitted lt at (λ h. h) refl refl refl
  student-IsCounted i {s} lt w (load_taken at) =
      go-Counted c few short w i admitted (seating s.chair_unused) lt at (λ h. h) refl refl refl
  student-IsCounted i {s} lt w (take_chair x at) =
      let small = asked-small c few short w in
      go-Counted c few short w i (seating x) seated lt at (λ h. h) (omega (arith, small)) refl refl
  student-IsCounted i {s} lt w (notify at) =
      go-Counted c few short w i seated waiting lt at (λ h. h) refl refl refl
  student-IsCounted i {s} lt w (be_called m at up) =
      go-Counted c few short w i waiting helped lt at (λ h. h) refl (omega (arith, up)) refl
  student-IsCounted i {s} lt w (count_help at free) =
      let ok = w.steady i lt in
      let room : (s.students i).helped_time < c.help_need_total =
        subst (HelpBounds c.help_need_total (s.students i).helped_time) at ok.helps in
      move-Counted c few short w i
        (record {
          pc = returning s.chair_unused;
          helped_time = add32 (s.students i).helped_time 1;
          priority = sub32 (s.students i).priority 1;
        })
        lt (record { helps = omega (arith, room); ranked = omega (arith, room, ok.ranked) })
        (omega (arith, room, ap pending at)) (refl, omega (arith, room, ap woken at))
        (omega (arith, ap has_finished at))
  student-IsCounted i {s} lt w (return_chair x at) =
      go-Counted c few short w i (returning x) outside lt at (λ h. h) refl refl refl
  student-IsCounted i {s} lt w (finish at free) =
      let small = ended-small c few short w in
      go-Counted c few short w i finishing leaving lt at (λ h. h) refl refl (omega (arith, small))
  student-IsCounted i {s} lt w (leave at) =
      go-Counted c few short w i leaving gone lt at (λ h. h) refl refl refl

  tutor-IsCounted :
      (i : ℕ) {s t : Center} {p : TutorPc} → IsCounted c s → TutorStep c s i p t → IsCounted c t
  tutor-IsCounted i w (end_session index at free) = serve-Counted c few short w
  tutor-IsCounted i w (next_call at more) = w
  tutor-IsCounted i w (go_home at more) = w
  tutor-IsCounted i w (be_sent m at up) = w
  tutor-IsCounted i w (nobody_sits at free all) = w
  tutor-IsCounted i w (choose at free some_sit) = w
  tutor-IsCounted i w (clear_queue index at free) = w

  coordinator-IsCounted :
      {s t : Center} {p : CoordinatorPc} → IsCounted c s → CoordinatorStep c s p t → IsCounted c t
  coordinator-IsCounted w (look more) = w
  coordinator-IsCounted w (close all) = w
  coordinator-IsCounted w (hear m up) = w
  coordinator-IsCounted {s} w (queue_students free) =
      let (st, r, t, m, f) = scan-keeps c.student_total 0 s in rw (st, r, t, m, f) w
  coordinator-IsCounted w (send_home k more) = w
  coordinator-IsCounted w (shut_down k all) = w

  Step-IsCounted : {s t : Center} → IsCounted c s → Step c s t → IsCounted c t
  Step-IsCounted w (of_student i lt st) = student-IsCounted i lt w st
  Step-IsCounted w (of_tutor i lt st) = tutor-IsCounted i w st
  Step-IsCounted w (of_coordinator st) = coordinator-IsCounted w st

  -- With fewer than 2000 students, each of whom needs help fewer than 2000 times, in every state that
  -- the threads reach, whatever malloc has left in the entries that main does not set: total_request is the sum over the students of the times they have been helped
  -- and of those who wait for help; total_session is the tutors' semaphore, the times that the students
  -- have counted and those who have been called but have not counted it, modulo 2 ^ 32;
  -- student_finished is the number of students who have finished; and every student's priority and
  -- helped_time add up to the times that help is needed, which are reached before the thread ends.
  pub Reach-IsCounted : {s : Center} → Reach c s → IsCounted c s
  Reach-IsCounted (start seats ids) =
      let none_of : (g : Student → ℕ)
          → g (record { pc = outside; helped_time = 0; priority = c.help_need_total }) ≡ 0
          → total g (opening c seats ids).students c.student_total ≡ 0 =
        λ g e.
          total-const g (opening c seats ids).students 0 c.student_total (λ i lt. e)
          ∙ omega arith in
      record {
        asked = sym (none_of requests refl);
        served = omega (arith, none_of sessions refl);
        ended = sym (none_of finished refl);
        steady = λ i lt. record { helps = omega arith; ranked = omega arith };
      }
  Reach-IsCounted (later r st) = Step-IsCounted (Reach-IsCounted r) st

  -- When student_finished has come to student_total, in a state that the threads reach with fewer than
  -- 2000 students who need help fewer than 2000 times, every student has been helped as often as is
  -- needed, and total_request is the product of the two.
  pub all_helped :
      {s : Center}
      → Reach c s
      → s.student_finished ≡ c.student_total
      → ((i : ℕ) → i < c.student_total → (s.students i).helped_time ≡ c.help_need_total)
        × (s.total_request ≡ c.student_total * c.help_need_total)
  all_helped {s} r e =
      let w = Reach-IsCounted r in
      let each = λ (i : ℕ) (lt : i < c.student_total).
        has_finished-helped c.help_need_total (s.students i).helped_time (s.students i).pc
          (w.steady i lt).helps (each_finished s.students c.student_total (sym w.ended ∙ e) i lt) in
      (
        λ i lt. (each i lt).0,
        w.asked
            ∙ total-const requests s.students c.help_need_total c.student_total
                (λ i lt. omega (arith, each i lt)),
      )

-- ===== src/Csmc/Steps.antt =====
-- The steps of the threads, and the states that they reach.
use os_fall.Base.{ℕ, suc, ◌≤◌, ◌<◌, ◌≡◌, ◌≢◌, true, false, Option, add32, sub32, slt}
use os_fall.Proc.Types.{minus_one}
use os_fall.Csmc.{
  Config, StudentPc, outside, arriving, admitted, seating, seated, waiting, helped, returning,
  finishing, leaving, gone, TutorPc, resting, called, choosing, tutoring, clearing, home,
  CoordinatorPc, looking, listening, scanning, closing, closed, Student, Center, set_at, put_at,
  pick, scan, opening,
}

abbrev pub go : Student → StudentPc → Student
go v p = record v { pc = p }

-- thread_function_student of the student `i`, who stands as `v`.
pub data StudentStep (c : Config) (s : Center) (i : ℕ) (v : Student) : Center → Type 0 where
  again :
      v.pc ≡ outside
      → slt v.helped_time c.help_need_total ≡ true
      → StudentStep c s i v (record s { students = set_at s.students i (go v arriving) })
  enough :
      v.pc ≡ outside
      → slt v.helped_time c.help_need_total ≡ false
      → StudentStep c s i v (record s { students = set_at s.students i (go v finishing) })
  no_chair :
      v.pc ≡ arriving
      → s.student_lock ≡ false
      → s.chair_unused ≡ 0
      → StudentStep c s i v (record s { students = set_at s.students i (go v outside) })
  -- Below 0 neither branch is taken, and the lock is kept.
  lost_chairs :
      v.pc ≡ arriving
      → s.student_lock ≡ false
      → slt s.chair_unused 0 ≡ true
      → StudentStep c s i v
          (record s { student_lock = true; students = set_at s.students i (go v outside) })
  see_chair :
      v.pc ≡ arriving
      → s.student_lock ≡ false
      → slt 0 s.chair_unused ≡ true
      → StudentStep c s i v
          (record s { student_lock = true; students = set_at s.students i (go v admitted) })
  load_taken :
      v.pc ≡ admitted
      → StudentStep c s i v
          (record s { students = set_at s.students i (go v (seating s.chair_unused)) })
  take_chair :
      (x : ℕ)
      → v.pc ≡ seating x
      → StudentStep c s i v (record s {
        chair_unused = sub32 x 1;
        total_request = add32 s.total_request 1;
        seats = set_at s.seats i (add32 s.total_request 1);
        student_lock = false;
        students = set_at s.students i (go v seated);
      })
  notify :
      v.pc ≡ seated
      → StudentStep c s i v (record s {
        student_sem = suc s.student_sem;
        students = set_at s.students i (go v waiting);
      })
  be_called :
      (m : ℕ)
      → v.pc ≡ waiting
      → s.tutor_sem ≡ suc m
      → StudentStep c s i v
          (record s { tutor_sem = m; students = set_at s.students i (go v helped) })
  count_help :
      v.pc ≡ helped
      → s.tutor_lock ≡ false
      → StudentStep c s i v (record s {
        tutor_lock = true;
        queues = set_at s.queues i minus_one;
        students = set_at s.students i (record {
          pc = returning s.chair_unused;
          helped_time = add32 v.helped_time 1;
          priority = sub32 v.priority 1;
        });
      })
  return_chair :
      (x : ℕ)
      → v.pc ≡ returning x
      → StudentStep c s i v (record s {
        chair_unused = add32 x 1;
        tutor_lock = false;
        students = set_at s.students i (go v outside);
      })
  finish :
      v.pc ≡ finishing
      → s.student_lock ≡ false
      → StudentStep c s i v (record s {
        student_finished = add32 s.student_finished 1;
        seats = set_at s.seats i minus_one;
        queues = set_at s.queues i minus_one;
        students = set_at s.students i (go v leaving);
      })
  leave :
      v.pc ≡ leaving
      → StudentStep c s i v
          (record s { student_sem = suc s.student_sem; students = set_at s.students i (go v gone) })

-- thread_function_tutor of the tutor `t`. The write to `students[i].arriving_order` behind the loop,
-- where `i` is `student_total`, falls outside of the array. tutor_aviliable only goes down.
pub data TutorStep (c : Config) (s : Center) (t : ℕ) (p : TutorPc) : Center → Type 0 where
  next_call :
      p ≡ resting
      → slt s.student_finished c.student_total ≡ true
      → TutorStep c s t p (record s { tutors = set_at s.tutors t called })
  go_home :
      p ≡ resting
      → slt s.student_finished c.student_total ≡ false
      → TutorStep c s t p (record s { tutors = set_at s.tutors t home })
  be_sent :
      (m : ℕ)
      → p ≡ called
      → s.coordinator_sem ≡ suc m
      → TutorStep c s t p (record s { coordinator_sem = m; tutors = set_at s.tutors t choosing })
  nobody_sits :
      p ≡ choosing
      → s.student_lock ≡ false
      → s.chair_unused ≡ c.chair_total
      → TutorStep c s t p (record s { tutors = set_at s.tutors t resting })
  choose :
      p ≡ choosing
      → s.student_lock ≡ false
      → s.chair_unused ≢ c.chair_total
      → TutorStep c s t p (record s {
        tutoring_on_going = add32 s.tutoring_on_going 1;
        tutor_aviliable = sub32 s.tutor_aviliable 1;
        queues = put_at s.queues (pick c s) t;
        tutors = set_at s.tutors t (tutoring (pick c s));
      })
  end_session :
      (index : Option ℕ)
      → p ≡ tutoring index
      → s.student_lock ≡ false
      → TutorStep c s t p (record s {
        tutoring_on_going = sub32 s.tutoring_on_going 1;
        total_session = add32 s.total_session 1;
        tutor_sem = suc s.tutor_sem;
        global_tutor_id = put_at s.global_tutor_id index t;
        tutors = set_at s.tutors t (clearing index);
      })
  clear_queue :
      (index : Option ℕ)
      → p ≡ clearing index
      → s.tutor_lock ≡ false
      → TutorStep c s t p (record s {
        queues = put_at s.queues index minus_one;
        tutors = set_at s.tutors t resting;
      })

-- thread_function_chair.
pub data CoordinatorStep (c : Config) (s : Center) : CoordinatorPc → Center → Type 0 where
  look :
      slt s.student_finished c.student_total ≡ true
      → CoordinatorStep c s looking (record s { coordinator = listening })
  close :
      slt s.student_finished c.student_total ≡ false
      → CoordinatorStep c s looking (record s { coordinator = closing 0 })
  hear :
      (m : ℕ)
      → s.student_sem ≡ suc m
      → CoordinatorStep c s listening (record s { student_sem = m; coordinator = scanning })
  queue_students :
      s.student_lock ≡ false
      → CoordinatorStep c s scanning (record (scan c.student_total 0 s) { coordinator = looking })
  send_home :
      (k : ℕ)
      → k < c.tutor_total
      → CoordinatorStep c s
          (closing k)
          (record s { coordinator_sem = suc s.coordinator_sem; coordinator = closing (suc k) })
  shut_down :
      (k : ℕ)
      → c.tutor_total ≤ k
      → CoordinatorStep c s (closing k) (record s { coordinator = closed })

pub data Step (c : Config) (s : Center) : Center → Type 0 where
  of_student :
      (i : ℕ) {t : Center} → i < c.student_total → StudentStep c s i (s.students i) t → Step c s t
  of_tutor : (i : ℕ) {t : Center} → i < c.tutor_total → TutorStep c s i (s.tutors i) t → Step c s t
  of_coordinator : {t : Center} → CoordinatorStep c s s.coordinator t → Step c s t

pub data Reach (c : Config) : Center → Type 0 where
  start : (seats ids : ℕ → ℕ) → Reach c (opening c seats ids)
  later : {s t : Center} → Reach c s → Step c s t → Reach c t

-- ===== src/Csmc/Tests.antt =====
-- Two students, one chair and one tutor; each needs help once.
use os_fall.Base.{ℕ, suc, ◌+◌, ◌*◌, ◌<◌, ◌≡◌, refl, some, arith}
use os_fall.Csmc.{scan, Config, StudentPc, Center, set_at, pick, pick_from, opening}
use os_fall.Csmc.Steps.{
  of_tutor, of_coordinator, load_taken, take_chair, notify, look, hear, queue_students, next_call,
  be_sent, choose, end_session, be_called, count_help, return_chair, enough, finish, go, of_student,
  again, see_chair, Reach, start, later, load_taken, take_chair, notify,
}
use os_fall.Csmc.Safety.{IsCounted, Reach-IsCounted, all_helped}

abbrev small : Config
small = record { student_total = 2; tutor_total = 1; chair_total = 1; help_need_total = 1 }

-- What malloc leaves.
abbrev garbage : ℕ → ℕ
garbage i = 7 + i

abbrev at_first : Center
at_first = opening small garbage garbage

abbrev one_arrives : Center
one_arrives = record at_first {
  students = set_at at_first.students 1 (go (at_first.students 1) StudentPc.arriving);
}

one_arrives-Reach : Reach small one_arrives
one_arrives-Reach = later (start garbage garbage) (of_student 1 (omega arith) (again refl refl))

Reach-IsCounted_example : IsCounted small one_arrives
Reach-IsCounted_example = Reach-IsCounted small (omega arith) (omega arith) one_arrives-Reach

-- Two students with equal priorities are queued: the second is picked.
abbrev both_queued : Center
both_queued = record at_first { orders = λ i. suc i }

second_picked : pick small both_queued ≡ some 1
unfolding pick pick_from
second_picked = refl

-- The only student sits, is queued, tutored and called, gives the chair back and leaves.
abbrev single : Config
single = record { student_total = 1; tutor_total = 1; chair_total = 1; help_need_total = 1 }

leaves : (s : Center) × Reach single s × (s.student_finished ≡ 1)
unfolding scan pick pick_from
leaves = (
  _,
  later
      (later
        (later
          (later
            (later
              (later
                (later
                  (later
                    (later
                      (later
                        (later
                          (later
                            (later
                              (later
                                (later
                                  (later
                                    (later (start garbage garbage)
                                      (of_student 0 (omega arith) (again refl refl)))
                                    (of_student 0 (omega arith) (see_chair refl refl refl)))
                                  (of_student 0 (omega arith) (load_taken refl)))
                                (of_student 0 (omega arith) (take_chair 1 refl)))
                              (of_student 0 (omega arith) (notify refl)))
                            (of_coordinator (look refl)))
                          (of_coordinator (hear 0 refl)))
                        (of_coordinator (queue_students refl)))
                      (of_tutor 0 (omega arith) (next_call refl refl)))
                    (of_tutor 0 (omega arith) (be_sent 0 refl refl)))
                  (of_tutor 0 (omega arith) (choose refl refl (λ e. omega (arith, e)))))
                (of_tutor 0 (omega arith) (end_session (some 0) refl refl)))
              (of_student 0 (omega arith) (be_called 0 refl refl)))
            (of_student 0 (omega arith) (count_help refl refl)))
          (of_student 0 (omega arith) (return_chair 0 refl)))
        (of_student 0 (omega arith) (enough refl refl)))
      (of_student 0 (omega arith) (finish refl refl)),
  refl,
)

all_helped_example :
    ((i : ℕ) → i < 1 → (leaves.0.students i).helped_time ≡ 1) × (leaves.0.total_request ≡ 1 * 1)
all_helped_example = all_helped single (omega arith) (omega arith) leaves.1 leaves.2

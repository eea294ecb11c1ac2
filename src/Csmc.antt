-- ===== src/Csmc.antt =====
-- project3/csmc.c: the threads of the tutoring center. An `int` is a word; a semaphore is its value.
-- A thread stands at a program counter, and a step takes it from one to the next: a critical section
-- is one step, except where it changes `chair_unused`. That variable is guarded by `student_lock` in
-- one section and by `tutor_lock` in another, so its load and its store are steps of their own.
pub mod Steps
pub mod Counts
pub mod Safety
pub mod Pick
mod Tests
use os_fall.Base.{
  ℕ, zero, suc, ◌+◌, ◌-◌, ◌*◌, ◌/◌, ◌%◌, ◌^◌, ◌≤◌, ◌<◌, min, ◌≡◌, refl, sym, ap, ◌∙◌, ◌≢◌, ◌↔◌, ◌⊎◌,
  inl, inr, Bool, true, false, not, ◌&&◌, ◌||◌, Option, none, some, List, [], ◌∷◌, ◌++◌, map, arith,
  ltb, leb, ◌==◌, if◌then◌else◌, ltb→lt, leb→le, ==_iff, Bool-cases, Option-cases, length,
  get_elem?, get_or, set, take, replicate, modify, find_index, length-append, find_index_lem,
  length-set, length-modify, modify-modify, get_elem?-set_self, get_elem?-set_ne,
  get_elem?-modify_self, get_elem?-modify_ne, get_elem?-lt, length-replicate, word_size, add32,
  sub32, slt, slt-ltb, add32-sub32,
}
use os_fall.Proc.Types.{minus_one}

-- `student_total`, `tutor_total`, `chair_total` and `help_need_total`.
pub record Config : Type 0 where
  pub student_total : ℕ
  pub tutor_total : ℕ
  pub chair_total : ℕ
  pub help_need_total : ℕ

-- Where a student's thread stands.
pub data StudentPc : Type 0 where
  outside : StudentPc  -- head of the loop
  arriving : StudentPc  -- before `student_lock`
  admitted : StudentPc  -- has seen a free chair, and holds `student_lock`
  seating : ℕ → StudentPc  -- has loaded `chair_unused`
  seated : StudentPc  -- before `sem_post(&student_sem)`
  waiting : StudentPc  -- before `sem_wait(&tutor_sem)`
  helped : StudentPc  -- before `tutor_lock`
  returning : ℕ → StudentPc  -- holds `tutor_lock`, and has loaded `chair_unused`
  finishing : StudentPc  -- behind the loop
  leaving : StudentPc  -- before the last `sem_post`
  gone : StudentPc

pub data TutorPc : Type 0 where
  resting : TutorPc  -- head of the loop
  called : TutorPc  -- before `sem_wait(&coordinator_sem)`
  choosing : TutorPc  -- before the first `student_lock`
  tutoring : Option ℕ → TutorPc  -- with `student_index`
  clearing : Option ℕ → TutorPc  -- before `tutor_lock`
  home : TutorPc

pub data CoordinatorPc : Type 0 where
  looking : CoordinatorPc  -- head of the loop
  listening : CoordinatorPc  -- before `sem_wait(&student_sem)`
  scanning : CoordinatorPc  -- before `student_lock`
  closing : ℕ → CoordinatorPc  -- in the last loop
  closed : CoordinatorPc

-- A student's thread, with the fields of `struct student` that only it writes.
pub record Student : Type 0 where
  pub pc : StudentPc
  pub helped_time : ℕ
  pub priority : ℕ

-- The shared variables, semaphores and locks. `orders`, `queues` and `seats` hold the fields
-- `students[i].arriving_order`, `students[i].student_queue` and `queues[i].student_queue`.
pub record Center : Type 0 where
  pub chair_unused : ℕ
  pub total_request : ℕ
  pub student_finished : ℕ
  pub total_session : ℕ
  pub tutoring_on_going : ℕ
  pub tutor_aviliable : ℕ
  pub student_sem : ℕ
  pub tutor_sem : ℕ
  pub coordinator_sem : ℕ
  pub student_lock : Bool
  pub tutor_lock : Bool
  pub students : ℕ → Student
  pub orders : ℕ → ℕ
  pub queues : ℕ → ℕ
  pub seats : ℕ → ℕ
  pub global_tutor_id : ℕ → ℕ
  pub tutors : ℕ → TutorPc
  pub coordinator : CoordinatorPc

abbrev pub set_at : {A : Type 0} → (ℕ → A) → ℕ → A → ℕ → A
set_at m i x j = if j == i then x else m j

-- A write through an index that may be -1, where it falls outside of the array.
abbrev pub put_at : (ℕ → ℕ) → Option ℕ → ℕ → ℕ → ℕ
put_at m none x = m
put_at m (some i) x = set_at m i x

-- A student who has been queued and whose priority is not below `best`.
abbrev pub is_better : Center → ℕ → ℕ → Bool
is_better s i best = not (s.orders i == minus_one) && not (slt (s.students i).priority best)

-- The loop of the tutor that looks for a student: the best index so far and its priority.
pub pick_from : ℕ → ℕ → Center → ℕ → Option ℕ → Option ℕ
pick_from zero i s best index = index
pick_from (suc n) i s best index =
    pick_from n (suc i) s (if is_better s i best then (s.students i).priority else best)
      (if is_better s i best then some i else index)

pub pick : Config → Center → Option ℕ
unfolding pick_from
pick c s = pick_from c.student_total 0 s 0 none

-- A round of the coordinator: a student who sits is queued, and a tutor is called.
abbrev pub scan_seat : ℕ → Center → Center
scan_seat i s =
    if slt 0 (s.seats i)
    then record s {
      orders = set_at s.orders i (s.seats i);
      seats = set_at s.seats i minus_one;
      coordinator_sem = suc s.coordinator_sem;
    }
    else s

pub scan : ℕ → ℕ → Center → Center
scan zero i s = s
scan (suc n) i s = scan n (suc i) (scan_seat i s)

-- What main sets up. Its last loop sets `queues[i].student_queue` to -1 for the chairs alone: `seats` gives
-- what malloc left in the other entries, and `ids` what it left in `global_tutor_ID`.
abbrev pub opening : Config → (ℕ → ℕ) → (ℕ → ℕ) → Center
opening c seats ids = record {
  chair_unused = c.chair_total;
  total_request = 0;
  student_finished = 0;
  total_session = 0;
  tutoring_on_going = 0;
  tutor_aviliable = c.tutor_total;
  student_sem = 0;
  tutor_sem = 0;
  coordinator_sem = 0;
  student_lock = false;
  tutor_lock = false;
  students = λ _. record { pc = outside; helped_time = 0; priority = c.help_need_total };
  orders = λ _. minus_one;
  queues = λ _. minus_one;
  seats = λ i. if slt i c.chair_total then minus_one else seats i;
  global_tutor_id = ids;
  tutors = λ _. resting;
  coordinator = looking;
}

-- ===== src/Csmc/Pick.antt =====
-- Whom a tutor picks.
use os_fall.Base.{ℕ, ◌≤◌, ◌<◌, ◌≡◌, Bool, true, false, not, Option, none, some, ◌==◌}
use os_fall.Proc.Types.{minus_one}
use os_fall.Csmc.{Center}

-- A student who has been queued; the tutors never take the mark away.
abbrev pub is_queued : Center → ℕ → Bool
is_queued s i = not (s.orders i == minus_one)

abbrev pub rank : Center → ℕ → ℕ
rank s i = (s.students i).priority

-- `index` is the last of the queued students among the first `n` whose priority no other exceeds.
pub record IsBest (s : Center) (n : ℕ) (index : ℕ) : Type 0 where
  pub inside : index < n
  pub queued : is_queued s index ≡ true
  pub top : (j : ℕ) → j < n → is_queued s j ≡ true → rank s j ≤ rank s index
  pub last : (j : ℕ) → j < n → is_queued s j ≡ true → index < j → rank s j < rank s index

-- The best of the first `n` students, if any is queued.
abbrev pub Picked : Center → ℕ → Option ℕ → Type 0
Picked s n none = (j : ℕ) → j < n → is_queued s j ≡ false
Picked s n (some i) = IsBest s n i

abbrev best_rank : Center → Option ℕ → ℕ
best_rank s none = 0
best_rank s (some i) = rank s i

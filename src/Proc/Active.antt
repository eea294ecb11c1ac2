-- ===== src/Proc/Active.antt =====
-- The tickets of the processes that are not asleep, and how a write to one slot changes their sum.
use os_fall.Base.{
  ℕ, zero, suc, ◌+◌, ◌≤◌, ◌<◌, ◌≡◌, refl, some, List, [], ◌∷◌, arith, if◌then◌else◌, get_elem?,
  modify, word_size,
}
use os_fall.Proc.Types.{Proc, is_sleeping}

abbrev pub weight : Proc → ℕ
weight p = if is_sleeping p then 0 else p.tickets

abbrev pub active : List Proc → ℕ
active [] = 0
active (p ∷ ps) = weight p + active ps

-- Every ticket count is a 32-bit word.
abbrev pub Words : List Proc → Type 0
Words [] = Unit {0}
Words (p ∷ ps) = (p.tickets < word_size) × Words ps

pub active-modify :
    (ps : List Proc) (i : ℕ) (f : Proc → Proc) (p : Proc)
    → get_elem? ps i ≡ some p
    → active (modify ps i f) + weight p ≡ active ps + weight (f p)
active-modify [] i f p h = cc
active-modify (q ∷ ps) zero f p h = let e : q ≡ p = (cc) in rw e (omega arith)
active-modify (q ∷ ps) (suc i) f p h = omega (arith, active-modify ps i f p h)

pub weight-le-active :
    (ps : List Proc) (i : ℕ) (p : Proc) → get_elem? ps i ≡ some p → weight p ≤ active ps
weight-le-active [] i p h = cc
weight-le-active (q ∷ ps) zero p h = let e : q ≡ p = (cc) in rw e (omega arith)
weight-le-active (q ∷ ps) (suc i) p h = omega (arith, weight-le-active ps i p h)

pub Words-get_elem? :
    (ps : List Proc) (i : ℕ) (p : Proc) → Words ps → get_elem? ps i ≡ some p → p.tickets < word_size
Words-get_elem? [] i p w h = cc
Words-get_elem? (q ∷ ps) zero p w h = let e : q ≡ p = (cc) in rw (← e) w.0
Words-get_elem? (q ∷ ps) (suc i) p w h = Words-get_elem? ps i p w.1 h

pub Words-modify :
    (ps : List Proc) (i : ℕ) (f : Proc → Proc)
    → Words ps
    → ((p : Proc) → p.tickets < word_size → (f p).tickets < word_size)
    → Words (modify ps i f)
Words-modify [] i f w h = tt
Words-modify (q ∷ ps) zero f w h = (h q w.0, w.1)
Words-modify (q ∷ ps) (suc i) f w h = (w.0, Words-modify ps i f w.1 h)

-- A write that leaves the weight of every slot leaves the sum.
pub active-modify_same :
    (ps : List Proc) (i : ℕ) (f : Proc → Proc)
    → ((p : Proc) → get_elem? ps i ≡ some p → weight (f p) ≡ weight p)
    → active (modify ps i f) ≡ active ps
active-modify_same [] i f h = refl
active-modify_same (q ∷ ps) zero f h = omega (arith, h q refl)
active-modify_same (q ∷ ps) (suc i) f h = omega (arith, active-modify_same ps i f h)

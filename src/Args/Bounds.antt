-- ===== src/Args/Bounds.antt =====
-- What a system call may take from the arguments that it has fetched.
use mathlib.Core.Path.{subst}
use os_fall.Base.{
  ℕ, zero, suc, ◌+◌, ◌-◌, ◌≤◌, ◌<◌, ◌≡◌, refl, sym, ap, ◌∙◌, ◌≢◌, ◌↔◌, ◌⊎◌, inl, inr, Option, none,
  some, arith, leb, ◌==◌, ==_iff, Bool-cases,
}
use os_fall.Str.{Bytes}
use os_fall.Fcheck.Image.{read32}
use os_fall.Proc.Types.{Proc}
use os_fall.Args.{fetchint, find_nul, fetchstr, arg_at, argint, argptr, argstr}

-- The `n`th argument stands in the memory of the process and is `i`.
abbrev pub IsArgument : Bytes → Proc → ℕ → ℕ → Type 0
IsArgument mem p n i = (arg_at p n + 4 ≤ p.sz) × (read32 mem (arg_at p n) ≡ i)

argint-cases :
    (mem : Bytes) (p : Proc) (n : ℕ)
    → p.sz ≤ 655360
    → ((argint mem p n ≡ none) × (p.sz < arg_at p n + 4))
      ⊎ ((argint mem p n ≡ some (read32 mem (arg_at p n))) × (arg_at p n + 4 ≤ p.sz))
unfolding argint fetchint
argint-cases mem p n top = ground arith

-- A pointer that argptr gives for a size that is not negative is the argument, and the whole block
-- stands in the memory of the process; and argptr gives every such pointer. The memory ends at most at
-- 640 KB.
pub argptr_lem :
    (mem : Bytes) (p : Proc) (n size i : ℕ)
    → p.sz ≤ 655360
    → size < 2147483648
    → (argptr mem p n size ≡ some i) ↔ (IsArgument mem p n i × (i < p.sz) × (i + size ≤ p.sz))
unfolding argptr
argptr_lem mem p n size i top small = elim (argint-cases mem p n top) [
  | inl (e, far) ↦ rw (argptr, e) (ground (arith, far))
  | inr (e, near) ↦ rw (argptr, e) (ground (arith, near))
]

-- The bytes from `a` to `s` are not 0.
abbrev pub NoNul : Bytes → ℕ → ℕ → Type 0
NoNul mem a s = (x : ℕ) → a ≤ x → x < s → mem x ≢ 0

-- The first NUL among the places.
abbrev FirstNul : Bytes → ℕ → ℕ → Option ℕ → Type 0
FirstNul mem a e none = NoNul mem a e
FirstNul mem a e (some s) = (a ≤ s) × (s < e) × (mem s ≡ 0) × NoNul mem a s

extend-FirstNul :
    (mem : Bytes) (a e : ℕ) (o : Option ℕ)
    → mem a ≢ 0
    → FirstNul mem (a + 1) e o
    → FirstNul mem a e o
extend-FirstNul mem a e none ne w = λ x lo hi. elim (Bool-cases (x == a)) [
  | inl q ↦ λ z. ne (sym (ap mem ((==_iff x a).0 q)) ∙ z)
  | inr q ↦ w x (ground arith) hi
]
extend-FirstNul mem a e (some s) ne w = (
  omega (arith, w.0),
  w.1,
  w.2,
  λ x lo hi. elim (Bool-cases (x == a)) [
    | inl q ↦ λ z. ne (sym (ap mem ((==_iff x a).0 q)) ∙ z)
    | inr q ↦ w.3 x (ground arith) hi
  ],
)

find_nul-FirstNul :
    (rounds : ℕ) (mem : Bytes) (a e : ℕ) → a + rounds ≡ e → FirstNul mem a e (find_nul rounds mem a)
unfolding find_nul
find_nul-FirstNul zero mem a e h = λ x lo hi. absurd (omega arith)
find_nul-FirstNul (suc rounds) mem a e h = elim (Bool-cases (mem a == 0)) [
  | inl z ↦ rw z (omega arith, omega arith, ground arith, λ x lo hi. absurd (omega arith))
  | inr z ↦ rw z (
      extend-FirstNul mem a e (find_nul rounds mem (a + 1)) (ground arith)
        (find_nul-FirstNul rounds mem (a + 1) e (omega arith)))
]

-- argstr gives a string: the pointer is the argument, the string ends in the memory of the process,
-- and the length counts the bytes in front of its NUL.
pub record IsString (mem : Bytes) (p : Proc) (n a len : ℕ) : Type 0 where
  pub argument : IsArgument mem p n a
  pub inside : a + len < p.sz
  pub ends : mem (a + len) ≡ 0
  pub plain : NoNul mem a (a + len)

-- argstr gives none: the argument cannot be read, or no NUL stands behind it in the memory.
abbrev pub HasNoString : Bytes → Proc → ℕ → Type 0
HasNoString mem p n = (p.sz < arg_at p n + 4) ⊎ NoNul mem (read32 mem (arg_at p n)) p.sz

abbrev pub GivesString : Bytes → Proc → ℕ → Option (ℕ × ℕ) → Type 0
GivesString mem p n none = HasNoString mem p n
GivesString mem p n (some (a, len)) = IsString mem p n a len

fetched :
    (mem : Bytes) (p : Proc) (n : ℕ) (o : Option ℕ)
    → arg_at p n + 4 ≤ p.sz
    → (let a = read32 mem (arg_at p n) in FirstNul mem a p.sz o)
    → GivesString mem p n
        (let a = read32 mem (arg_at p n) in elim o [ none ↦ none | some s ↦ some (a, s - a) ])
fetched mem p n none near w = inr w
fetched mem p n (some s) near (lo, hi, nul, plain) =
    let a = read32 mem (arg_at p n) in
    let at : a + (s - a) ≡ s = omega arith in
    record {
      argument = (near, refl);
      inside = rw at hi;
      ends = ap mem at ∙ nul;
      plain = subst (NoNul mem a) (sym at) plain;
    }

fetchstr-GivesString :
    (mem : Bytes) (p : Proc) (n : ℕ)
    → arg_at p n + 4 ≤ p.sz
    → GivesString mem p n (fetchstr mem p (read32 mem (arg_at p n)))
unfolding fetchstr
fetchstr-GivesString mem p n near =
    let a = read32 mem (arg_at p n) in
    elim (Bool-cases (leb p.sz a)) [
      | inl e ↦ rw e (inr (λ x lo hi. absurd (ground arith)))
      | inr e ↦ rw e (
          fetched mem p n (find_nul (p.sz - a) mem a) near
            (find_nul-FirstNul (p.sz - a) mem a p.sz (ground arith)))
    ]

-- argstr gives the argument as a pointer and the number of bytes in front of the first NUL behind it,
-- which stands in the memory of the process; it fails only if the argument cannot be read or no NUL
-- stands between it and the end of the memory. The memory ends at most at 640 KB.
pub argstr_lem :
    (mem : Bytes) (p : Proc) (n : ℕ) → p.sz ≤ 655360 → GivesString mem p n (argstr mem p n)
unfolding argstr
argstr_lem mem p n top = elim (argint-cases mem p n top) [
  | inl (e, far) ↦
      let runs : argstr mem p n ≡ none = rw (argstr, e) refl in
      subst (GivesString mem p n) (sym runs) (inl far)
  | inr (e, near) ↦
      let runs : argstr mem p n ≡ fetchstr mem p (read32 mem (arg_at p n)) = rw (argstr, e) refl in
      subst (GivesString mem p n) (sym runs) (fetchstr-GivesString mem p n near)
]

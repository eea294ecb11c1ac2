-- ===== src/Fcheck/Root/Laws.antt =====
-- What check_root_path has seen of the root directory when it passes.
use os_fall.Base.{
  ℕ, zero, suc, ◌+◌, ◌<◌, ◌≡◌, refl, ap, ◌≢◌, ◌⊎◌, inl, inr, Bool, true, arith, ◌==◌, if◌then◌else◌,
  Bool-cases,
}
use os_fall.Str.{Bytes}
use os_fall.Fcheck.Check.{Check, pass, loop, >>=-pass}
use os_fall.Fcheck.Image.{
  Image, type_of, addr_of, inum_of, name_of, direct_count, entry_count, t_dir,
}
use os_fall.Fcheck.Root.{
  Flags, no_flags, both, is_dot, is_dotdot, entry_round, scan_entries, scan_blocks, check_dir,
  root_round, check_root_path,
}

module _ (img : Image) (i : ℕ) where
  -- Some entry in a direct block of the directory has the name and the inode number asked for.
  abbrev pub HasEntry : (Bytes → Bool) → (ℕ → Type 0) → Type 0
  HasEntry named P =
      (j k : ℕ) × (j < direct_count)
      × (addr_of img i j ≢ 0)
      × (k < entry_count)
      × (named (name_of img (addr_of img i j) k) ≡ true)
      × P (inum_of img (addr_of img i j) k)

  abbrev pub IsParent : ℕ → Type 0
  IsParent n = (i ≡ 1 → n ≡ 1) × (i ≢ 1 → n ≢ i)

  -- What a flag stands for.
  pub record IsSeen (f : Flags) : Type 0 where
    pub dot : f.cur ≡ true → HasEntry is_dot (λ n. n ≡ i)
    pub dotdot : f.par ≡ true → HasEntry is_dotdot IsParent

  entry_round-cases :
      (b k : ℕ) (f g : Flags)
      → entry_round img i b k f ≡ pass g
      → (g ≡ f)
        ⊎ ((is_dot (name_of img b k) ≡ true)
            × (inum_of img b k ≡ i)
            × (g ≡ record f { cur = true }))
        ⊎ ((is_dotdot (name_of img b k) ≡ true)
            × IsParent (inum_of img b k)
            × (g ≡ record f { par = true }))
  unfolding entry_round
  entry_round-cases b k f g h = ground arith

  entry_round-IsSeen :
      (j k : ℕ) (f g : Flags)
      → j < direct_count
      → addr_of img i j ≢ 0
      → k < entry_count
      → IsSeen f
      → entry_round img i (addr_of img i j) k f ≡ pass g
      → IsSeen g
  entry_round-IsSeen j k f g hj hz hk s h = elim (entry_round-cases (addr_of img i j) k f g h) [
    | inl e ↦ rw e s
    | inr (inl (named, at, e)) ↦
        rw e (record { dot = λ _. (j, k, hj, hz, hk, named, at); dotdot = s.dotdot })
    | inr (inr (named, at, e)) ↦
        rw e (record { dot = s.dot; dotdot = λ _. (j, k, hj, hz, hk, named, at) })
  ]

  scan_entries-IsSeen :
      (j n k : ℕ) (f g : Flags)
      → j < direct_count
      → addr_of img i j ≢ 0
      → k + n ≡ entry_count
      → IsSeen f
      → scan_entries img i (addr_of img i j) n k f ≡ pass g
      → IsSeen g
  unfolding scan_entries
  scan_entries-IsSeen j zero k f g hj hz e s h = let same : f ≡ g = (ground arith) in rw (← same) s
  scan_entries-IsSeen j (suc n) k f g hj hz e s h =
      let (u, a, r) = >>=-pass (entry_round img i (addr_of img i j) k f) _ h in
      let s' : IsSeen u = entry_round-IsSeen j k f u hj hz (omega arith) s a in
      elim (Bool-cases (both u)) [
        | inl done ↦ let same : u ≡ g = (ground arith) in rw (← same) s'
        | inr more ↦ scan_entries-IsSeen j n (k + 1) u g hj hz (omega arith) s' (ground arith)
      ]

  scan_blocks-IsSeen :
      (n j : ℕ) (f g : Flags)
      → j + n ≡ direct_count
      → IsSeen f
      → scan_blocks img i n j f ≡ pass g
      → IsSeen g
  unfolding scan_blocks
  scan_blocks-IsSeen zero j f g e s h = let same : f ≡ g = (ground arith) in rw (← same) s
  scan_blocks-IsSeen (suc n) j f g e s h =
      let (u, a, r) =
        >>=-pass
          (if addr_of img i j == 0
            then pass f
            else scan_entries img i (addr_of img i j) entry_count 0 f)
          _ h in
      let s' : IsSeen u = elim (Bool-cases (addr_of img i j == 0)) [
        | inl none_there ↦ let same : f ≡ u = (ground arith) in rw (← same) s
        | inr there ↦
            scan_entries-IsSeen j entry_count 0 f u (omega arith) (ground arith) refl s
              (ground arith)
      ] in
      elim (Bool-cases (both u)) [
        | inl done ↦ let same : u ≡ g = (ground arith) in rw (← same) s'
        | inr more ↦ scan_blocks-IsSeen n (j + 1) u g (omega arith) s' (ground arith)
      ]

  -- What a directory has that passed with the flags cleared.
  abbrev pub HasBoth : Type 0
  HasBoth = HasEntry is_dot (λ n. n ≡ i) × HasEntry is_dotdot IsParent

  check_dir-HasBoth : (g : Flags) → check_dir img i no_flags ≡ pass g → HasBoth
  unfolding check_dir
  check_dir-HasBoth g h =
      let (u, a, r) = >>=-pass (scan_blocks img i direct_count 0 no_flags) _ h in
      let s =
        scan_blocks-IsSeen direct_count 0 no_flags u refl
          (record { dot = λ e. cc; dotdot = λ e. cc }) a in
      (s.dot (ground arith), s.dotdot (ground arith))

first_rounds :
    {S : Type 0} (body : ℕ → S → Check S) (n : ℕ) (s t : S)
    → 1 < n
    → loop n 0 body s ≡ pass t
    → (u : S) × (v : S) × (body 0 s ≡ pass u) × (body 1 u ≡ pass v)
unfolding loop
first_rounds body zero s t l h = absurd (omega arith)
first_rounds body (suc zero) s t l h = absurd (omega arith)
first_rounds body (suc (suc n)) s t l h =
    let (u, a, r) = >>=-pass (body 0 s) _ h in
    let (v, b, q) = >>=-pass (body 1 u) _ r in (u, v, a, b)

-- When check_root_path passes an image with at least two inodes, inode 1 is a directory, and its
-- direct blocks hold an entry `.` and an entry `..`, both with inode number 1.
pub check_root_path-root :
    (img : Image) (g : Flags)
    → 1 < img.ninodes
    → check_root_path img ≡ pass g
    → (type_of img 1 ≡ t_dir)
      × HasEntry img 1 is_dot (λ n. n ≡ 1)
      × HasEntry img 1 is_dotdot (λ n. n ≡ 1)
unfolding check_root_path root_round
check_root_path-root img g big h =
    let (u, a, r) = >>=-pass (loop img.ninodes 0 (root_round img) no_flags) _ h in
    let (v, w, zero_round, one_round) =
      first_rounds (root_round img) img.ninodes no_flags u big a in
    let same : no_flags ≡ v = (ground (arith, zero_round)) in
    let one : root_round img 1 no_flags ≡ pass w =
      (ground (arith, zero_round, one_round, ap (root_round img 1) same)) in
    let is_dir : type_of img 1 ≡ t_dir = (ground arith) in
    let (dot, (j, k, hj, hz, hk, named, at)) = check_dir-HasBoth img 1 w (ground arith) in
    (is_dir, dot, (j, k, hj, hz, hk, named, at.0 refl))

-- ===== src/Fs/Alloc.antt =====
-- balloc against the bitmap as a set of blocks.
use mathlib.Core.Path.{subst}
use os_fall.Base.{
  ℕ, zero, suc, ◌+◌, ◌-◌, ◌*◌, ◌/◌, ◌%◌, ◌≤◌, ◌<◌, ◌≡◌, refl, ap, ◌∙◌, ◌≢◌, inl, inr, Bool, true,
  false, ◌||◌, Option, none, some, arith, ltb, ◌==◌, ltb→lt, ==_iff, Bool-cases, Option-cases,
}
use os_fall.Str.{Bytes}
use os_fall.Str.Compare.{AreBytes}
use os_fall.Fcheck.Bits.{checkbit, setbit, checkbit-setbit, setbit-AreBytes}
use os_fall.Fs.{Disk, put_block, sb_size, ninodes_of, bitmap_block, find_clear, balloc_loop, balloc}

-- The bit of a block.
abbrev pub is_used : ℕ → Disk → ℕ → Bool
is_used ninodes d b = checkbit (d (bitmap_block b ninodes)) (b % 4096)

-- The blocks of a disk are bytes.
abbrev pub AreBlocks : Disk → Type 0
AreBlocks d = (k : ℕ) → AreBytes (d k)

-- The first free bit: every one before it is set.
abbrev pub FirstClear : Bytes → ℕ → ℕ → Option ℕ → Type 0
FirstClear m i j none = (k : ℕ) → i ≤ k → k < j → checkbit m k ≡ true
FirstClear m i j (some n) =
    (i ≤ n) × (n < j) × (checkbit m n ≡ false) × ((k : ℕ) → i ≤ k → k < n → checkbit m k ≡ true)

extend-FirstClear :
    (m : Bytes) (i j : ℕ) (o : Option ℕ)
    → checkbit m i ≡ true
    → FirstClear m (suc i) j o
    → FirstClear m i j o
extend-FirstClear m i j none c w = λ k lo hi. elim (Bool-cases (k == i)) [
  | inl e ↦ ap (checkbit m) ((==_iff k i).0 e) ∙ c
  | inr e ↦ w k (ground arith) hi
]
extend-FirstClear m i j (some n) c w = (
  omega arith,
  w.1,
  w.2,
  λ k lo hi. elim (Bool-cases (k == i)) [
    | inl e ↦ ap (checkbit m) ((==_iff k i).0 e) ∙ c
    | inr e ↦ w.3 k (ground arith) hi
  ],
)

find_clear-FirstClear :
    (rounds : ℕ) (m : Bytes) (i j : ℕ) → i + rounds ≡ j → FirstClear m i j (find_clear rounds m i)
unfolding find_clear
find_clear-FirstClear zero m i j e = λ k lo hi. absurd (omega arith)
find_clear-FirstClear (suc rounds) m i j e = elim (Bool-cases (checkbit m i)) [
  | inr c ↦ rw c (omega arith, omega arith, c, λ k lo hi. absurd (omega arith))
  | inl c ↦ rw c (
      extend-FirstClear m i j (find_clear rounds m (suc i)) c
        (find_clear-FirstClear rounds m (suc i) j (omega arith)))
]

-- A block is handed out: it was free and the first of the free ones, its bit and no other is set, and
-- only its block of the bitmap changes.
pub record Allocated (ninodes : ℕ) (d : Disk) (b : ℕ) (e : Disk) : Type 0 where
  pub free : is_used ninodes d b ≡ false
  pub first : (j : ℕ) → j < b → is_used ninodes d j ≡ true
  pub marked : (j : ℕ) → is_used ninodes e j ≡ (j == b || is_used ninodes d j)
  pub kept : (k : ℕ) → k ≢ bitmap_block b ninodes → e k ≡ d k
  pub blocks : AreBlocks e

-- Without a block, all below `size` are in use. A block handed out stands below the size rounded up to
-- a full block of the bitmap.
abbrev pub Allocates : ℕ → Disk → ℕ → Option (ℕ × Disk) → Type 0
Allocates ninodes d size none = (j : ℕ) → j < size → is_used ninodes d j ≡ true
Allocates ninodes d size (some (b, e)) = Allocated ninodes d b e × (b / 4096 * 4096 < size)

module _ (ninodes : ℕ) (d : Disk) (bytes : AreBlocks d) (b : ℕ) (aligned : b % 4096 ≡ 0) where
  same_bitmap : (j : ℕ) → j / 4096 ≡ b / 4096 → bitmap_block j ninodes ≡ bitmap_block b ninodes
  same_bitmap j h = omega (arith, h)

  -- The bit `i` of the bitmap block of `b`.
  used_at : (i : ℕ) → i < 4096 → is_used ninodes d (b + i) ≡ checkbit (d (bitmap_block b ninodes)) i
  used_at i h =
      let k : bitmap_block (b + i) ninodes ≡ bitmap_block b ninodes = omega arith in
      let r : (b + i) % 4096 ≡ i = omega arith in
      ap (λ x. checkbit (d x) ((b + i) % 4096)) k ∙ ap (checkbit (d (bitmap_block b ninodes))) r

  all_used :
      (n : ℕ)
      → n ≤ 4096
      → ((j : ℕ) → j < b → is_used ninodes d j ≡ true)
      → ((k : ℕ) → 0 ≤ k → k < n → checkbit (d (bitmap_block b ninodes)) k ≡ true)
      → (j : ℕ) → j < b + n
      → is_used ninodes d j ≡ true
  all_used n h below here j lt = elim (Bool-cases (ltb j b)) [
    | inl e ↦ below j (ground arith)
    | inr e ↦
        let from : b ≤ j = ground arith in
        let split : j ≡ b + (j - b) = omega arith in
        ap (is_used ninodes d) split
        ∙ used_at (j - b) (omega arith)
        ∙ here (j - b) (omega arith) (omega arith)
  ]

  marks :
      (i : ℕ)
      → i < 4096
      → (j : ℕ)
      → is_used ninodes
          (put_block d (bitmap_block b ninodes) (setbit (d (bitmap_block b ninodes)) i))
          j
        ≡ (j == b + i || is_used ninodes d j)
  marks i h j =
      let k = bitmap_block b ninodes in
      elim (Bool-cases (bitmap_block j ninodes == k)) [
        | inl e ↦
            let same : bitmap_block j ninodes ≡ k = (==_iff _ _).0 e in
            let bit : (i == j % 4096) ≡ (j == b + i) = ground (arith, same) in
            rw (e, same)
              (checkbit-setbit (d k) (bytes k) i (j % 4096)
                ∙ ap (λ x. x || checkbit (d k) (j % 4096)) bit)
        | inr e ↦ let other : (j == b + i) ≡ false = ground arith in rw (e, other) refl
      ]

  found-Allocated :
      (i : ℕ)
      → ((j : ℕ) → j < b → is_used ninodes d j ≡ true)
      → FirstClear (d (bitmap_block b ninodes)) 0 4096 (some i)
      → Allocated ninodes d
          (b + i)
          (put_block d (bitmap_block b ninodes) (setbit (d (bitmap_block b ninodes)) i))
  found-Allocated i below (_, hi, clear, here) =
      let k = bitmap_block b ninodes in
      let at : bitmap_block (b + i) ninodes ≡ k = omega arith in
      record {
        free = used_at i hi ∙ clear;
        first = all_used i (omega arith) below here;
        marked = marks i hi;
        kept = λ m ne. let other : (m == k) ≡ false = ground (arith, at) in rw other refl;
        blocks = λ m. elim (Bool-cases (m == k)) [
          | inl e ↦ rw e (setbit-AreBytes (d k) (bytes k) i)
          | inr e ↦ rw e (bytes m)
        ];
      }

balloc_loop-Allocates :
    (ninodes : ℕ) (d : Disk)
    → AreBlocks d
    → (size rounds b : ℕ) → b % 4096 ≡ 0
    → size < b + rounds * 4096
    → ((j : ℕ) → j < b → is_used ninodes d j ≡ true)
    → Allocates ninodes d size (balloc_loop rounds size ninodes b d)
unfolding balloc_loop
balloc_loop-Allocates ninodes d bytes size zero b aligned room below = λ j lt. below j (omega arith)
balloc_loop-Allocates ninodes d bytes size (suc rounds) b aligned room below =
    elim (Bool-cases (ltb b size)) [
      | inr e ↦ rw e (λ j lt. below j (ground arith))
      | inl e ↦
          let k = bitmap_block b ninodes in
          let found = find_clear-FirstClear 4096 (d k) 0 4096 refl in
          elim (Option-cases (find_clear 4096 (d k) 0)) [
            | inl f ↦
                rw (e, f)
                  (balloc_loop-Allocates ninodes d bytes size rounds (b + 4096) (omega arith)
                    (omega arith)
                    (all_used ninodes d bytes b aligned 4096 (omega arith) below
                      (subst (FirstClear (d k) 0 4096) f found)))
            | inr (i, f) ↦
                let first = subst (FirstClear (d k) 0 4096) f found in
                let inside : b < size = ltb→lt b size e in
                rw (e, f)
                  (
                    found-Allocated ninodes d bytes b aligned i below first,
                    omega (arith, inside, first.1),
                  )
          ]
    ]

-- On a disk of bytes balloc hands out the first free block of the bitmap and sets its bit and no
-- other; no other block of the disk changes. It panics only if every block of the disk is in use. The
-- block stands below the disk's size rounded up to a multiple of 4096, not below the size itself.
pub balloc_lem : (d : Disk) → AreBlocks d → Allocates (ninodes_of d) d (sb_size d) (balloc d)
unfolding balloc
balloc_lem d bytes =
    balloc_loop-Allocates (ninodes_of d) d bytes (sb_size d) (sb_size d / 4096 + 2) 0 refl
      (omega arith) (λ j lt. absurd (omega arith))

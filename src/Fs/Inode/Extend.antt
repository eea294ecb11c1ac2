-- ===== src/Fs/Inode/Extend.antt =====
-- The three ways in which bmap gives a file one more block.
use mathlib.Core.Path.{subst}
use os_fall.Base.{
  ℕ, ◌+◌, ◌-◌, ◌*◌, ◌≤◌, ◌<◌, ◌≡◌, refl, sym, ap, ◌∙◌, ◌≢◌, ◌⊎◌, inl, inr, false, arith, ltb, ◌==◌,
  if◌then◌else◌, ltb→lt, ==_iff, Bool-cases,
}
use os_fall.Str.{Bytes, store}
use os_fall.Str.Compare.{AreBytes}
use os_fall.Fcheck.Image.{read32}
use os_fall.Fs.{Disk, sb_size, ninodes_of}
use os_fall.Fs.Alloc.{AreBlocks, Allocated}
use os_fall.Fs.Inode.{Inode, set_addr}
use os_fall.Fs.Inode.Slots.{
  entry, slot, last_bitmap, IsInside, IsBehind, IsFile, slot-direct, slot-entry, slot-last,
}
use os_fall.Fs.Inode.Grow.{Grown}

pub slot-cases : (j : ℕ) → j ≤ 140 → (j < 12) ⊎ (((k : ℕ) × (k < 128) × (j ≡ 12 + k)) ⊎ (j ≡ 140))
slot-cases j le = elim (Bool-cases (ltb j 12)) [
  | inl e ↦ inl (ltb→lt j 12 e)
  | inr e ↦ elim (Bool-cases (j == 140)) [
    | inl f ↦ inr (inr ((==_iff j 140).0 f))
    | inr f ↦ inr (inl (j - 12, ground arith, ground arith))
  ]
]

read32-zero : (m : Bytes) (a : ℕ) → ((x : ℕ) → a ≤ x → x < a + 4 → m x ≡ 0) → read32 m a ≡ 0
unfolding read32
read32-zero m a h = omega (
  arith,
  h a (omega arith) (omega arith),
  h (a + 1) (omega arith) (omega arith),
  h (a + 2) (omega arith) (omega arith),
  h (a + 3) (omega arith) (omega arith),
)

pub read32-lt : (m : Bytes) (a : ℕ) → AreBytes m → read32 m a < 4294967296
unfolding read32
read32-lt m a h = omega (arith, h a, h (a + 1), h (a + 2), h (a + 3))

pub sb_size-lt : (d : Disk) → AreBlocks d → sb_size d < 4294967296
unfolding sb_size
sb_size-lt d h = read32-lt (d 1) 0 (h 1)

module _ (d : Disk) (ip : Inode) (w : IsFile d ip) (b : ℕ) (e : Disk)
    (a : Allocated (ninodes_of d) d b e) (inside : IsInside d b) where
  pub given-IsBehind : IsBehind d b
  given-IsBehind = elim (Bool-cases (ltb (last_bitmap d) b)) [
    | inl l ↦ (ltb→lt _ _ l, inside)
    | inr l ↦ absurd (let q = sym (w.disk.meta b (ground arith)) ∙ a.free in cc)
  ]

  given-ne-zero : b ≢ 0
  given-ne-zero z = omega (arith, z, given-IsBehind.0)

  pub given_super : e 1 ≡ d 1
  given_super = a.kept 1 (λ z. omega (arith, z))

  pub given_kept : (k : ℕ) → last_bitmap d < k → e k ≡ d k
  given_kept k lt = a.kept k (λ z. omega (arith, z, lt, inside))

  -- The indirect block, if there is one, is not changed.
  kept_entry : (jp : Inode) (k : ℕ) → jp.addrs 12 ≡ ip.addrs 12 → entry e jp k ≡ entry d ip k
  kept_entry jp k same = elim (Bool-cases (ip.addrs 12 == 0)) [
    | inl z ↦ rw (same, z) refl
    | inr z ↦
        let at = slot-last d ip in
        let behind : last_bitmap d < ip.addrs 12 =
          subst (λ q. last_bitmap d < q) at
            (w.behind 140 (omega arith) (λ q. ground (arith, at, q))).0 in
        rw (same, z) (ap (λ m. read32 m (4 * k)) (given_kept (ip.addrs 12) behind))
  ]

  module _ (i : ℕ) (low : i < 12) (empty : ip.addrs i ≡ 0) where
    direct_slots :
        (j : ℕ) → j ≤ 140 → slot e (set_addr i b ip) j ≡ (if j == i then b else slot d ip j)
    direct_slots j le = elim (slot-cases j le) [
      | inl lt ↦
          slot-direct e (set_addr i b ip) j lt
          ∙ ap (λ z. if j == i then b else z) (sym (slot-direct d ip j lt))
      | inr (inl (k, lt, at)) ↦
          let other : (j == i) ≡ false = ground arith in
          let same : store ip.addrs i b 12 ≡ ip.addrs 12 = ground arith in
          rw (other, at)
            (slot-entry e (set_addr i b ip) k lt
              ∙ kept_entry (set_addr i b ip) k same
              ∙ sym (slot-entry d ip k lt))
      | inr (inr at) ↦
          let other : (j == i) ≡ false = ground arith in
          let same : store ip.addrs i b 12 ≡ ip.addrs 12 = ground arith in
          rw (other, at) (slot-last e (set_addr i b ip) ∙ same ∙ sym (slot-last d ip))
    ]

    pub direct-Grown : Grown d ip i b e (set_addr i b ip)
    direct-Grown = record {
      index = omega arith;
      was_empty = slot-direct d ip i low ∙ empty;
      was_free = a.free;
      is_behind = given-IsBehind;
      super = given_super;
      same_inum = refl;
      marked = λ j h. a.marked j;
      slots = direct_slots;
      kept = λ k lt ne. given_kept k lt;
      blocks = a.blocks;
    }

  module _ (empty : ip.addrs 12 ≡ 0) where
    abbrev with_indirect : Inode
    with_indirect = set_addr 12 b ip

    fresh_entry : (k : ℕ) → k < 128 → entry e with_indirect k ≡ 0
    fresh_entry k lt =
        let own : store ip.addrs 12 b 12 ≡ b = ground arith in
        let some_block : (b == 0) ≡ false = ground (arith, given-ne-zero) in
        rw (own, some_block)
          (read32-zero (e b) (4 * k) (λ x lo hi.
            ap (λ m. m x) (given_kept b given-IsBehind.0)
            ∙ w.disk.clean b x given-IsBehind a.free (omega arith)))

    indirect_slots :
        (j : ℕ) → j ≤ 140 → slot e with_indirect j ≡ (if j == 140 then b else slot d ip j)
    indirect_slots j le = elim (slot-cases j le) [
      | inl lt ↦
          let other : (j == 140) ≡ false = ground arith in
          let same : store ip.addrs 12 b j ≡ ip.addrs j = ground arith in
          rw other (slot-direct e with_indirect j lt ∙ same ∙ sym (slot-direct d ip j lt))
      | inr (inl (k, lt, at)) ↦
          let other : (j == 140) ≡ false = ground arith in
          let none_before : entry d ip k ≡ 0 = rw empty refl in
          rw (other, at)
            (slot-entry e with_indirect k lt
              ∙ fresh_entry k lt
              ∙ sym none_before
              ∙ sym (slot-entry d ip k lt))
      | inr (inr at) ↦ rw at (slot-last e with_indirect ∙ ground arith)
    ]

    pub indirect-Grown : Grown d ip 140 b e with_indirect
    indirect-Grown = record {
      index = omega arith;
      was_empty = slot-last d ip ∙ empty;
      was_free = a.free;
      is_behind = given-IsBehind;
      super = given_super;
      same_inum = refl;
      marked = λ j h. a.marked j;
      slots = indirect_slots;
      kept = λ k lt ne. given_kept k lt;
      blocks = a.blocks;
    }

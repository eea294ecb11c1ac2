-- ===== src/Fs/Inode/Grow.antt =====
-- A file that is given one more block.
use mathlib.Core.Path.{subst}
use os_fall.Base.{
  ℕ, ◌/◌, ◌%◌, ◌≤◌, ◌<◌, ◌≡◌, refl, sym, ap, ◌∙◌, ◌≢◌, inl, inr, true, false, ◌||◌, arith, ◌==◌,
  if◌then◌else◌, ==_iff, Bool-cases,
}
use os_fall.Fs.{Disk, sb_size, ninodes_of}
use os_fall.Fs.Alloc.{is_used, AreBlocks}
use os_fall.Fs.Inode.{Inode}
use os_fall.Fs.Inode.Slots.{
  slot, byte_at, byte_at-none, byte_at-some, last_bitmap, IsInside, IsBehind, IsDisk, IsFile,
  super_same,
}

-- Block `b`, which was free, has become block `i` of the file; no other block behind the bitmap has
-- changed but the indirect one.
pub record Grown (d : Disk) (ip : Inode) (i b : ℕ) (e : Disk) (jp : Inode) : Type 0 where
  pub index : i ≤ 140
  pub was_empty : slot d ip i ≡ 0
  pub was_free : is_used (ninodes_of d) d b ≡ false
  pub is_behind : IsBehind d b
  pub super : e 1 ≡ d 1
  pub same_inum : jp.inum ≡ ip.inum
  pub marked :
      (j : ℕ) → IsInside d j → is_used (ninodes_of d) e j ≡ (j == b || is_used (ninodes_of d) d j)
  pub slots : (j : ℕ) → j ≤ 140 → slot e jp j ≡ (if j == i then b else slot d ip j)
  pub kept : (k : ℕ) → last_bitmap d < k → k ≢ slot e jp 140 → e k ≡ d k
  pub blocks : AreBlocks e

module _ (d : Disk) (ip : Inode) (w : IsFile d ip) (i b : ℕ) (e : Disk) (jp : Inode)
    (g : Grown d ip i b e jp) where
  abbrev n : ℕ
  n = ninodes_of d

  same_ninodes : ninodes_of e ≡ n
  same_ninodes = (super_same d e (sym g.super)).1

  same_size : sb_size e ≡ sb_size d
  same_size = (super_same d e (sym g.super)).0

  same_last : last_bitmap e ≡ last_bitmap d
  same_last = rw (same_ninodes, same_size) refl

  to-IsInside : (j : ℕ) → IsInside e j → IsInside d j
  to-IsInside j h = omega (arith, h, same_size)

  to-IsBehind : (j : ℕ) → IsBehind e j → IsBehind d j
  to-IsBehind j h = (omega (arith, h.0, same_last), to-IsInside j h.1)

  from-IsBehind : (j : ℕ) → IsBehind d j → IsBehind e j
  from-IsBehind j h = (omega (arith, h.0, same_last), omega (arith, h.1, same_size))

  is_used-e : (j : ℕ) → IsInside d j → is_used (ninodes_of e) e j ≡ (j == b || is_used n d j)
  is_used-e j h = ap (λ z. is_used z e j) same_ninodes ∙ g.marked j h

  still_used : (j : ℕ) → IsInside d j → is_used n d j ≡ true → is_used (ninodes_of e) e j ≡ true
  still_used j h u = is_used-e j h ∙ rw u (ground arith)

  own_used : is_used (ninodes_of e) e b ≡ true
  own_used = is_used-e b g.is_behind.1 ∙ ground arith

  slot-own : slot e jp i ≡ b
  slot-own = g.slots i g.index ∙ ground arith

  slot-other : (j : ℕ) → j ≤ 140 → j ≢ i → slot e jp j ≡ slot d ip j
  slot-other j le ne = g.slots j le ∙ ground arith

  new_used : (j : ℕ) → j ≤ 140 → slot e jp j ≢ 0 → is_used (ninodes_of e) e (slot e jp j) ≡ true
  new_used j le ne = elim (Bool-cases (j == i)) [
    | inl q ↦
        let at : slot e jp j ≡ b = ap (slot e jp) ((==_iff j i).0 q) ∙ slot-own in
        ap (is_used (ninodes_of e) e) at ∙ own_used
    | inr q ↦
        let at = slot-other j le (ground arith) in
        let some_block : slot d ip j ≢ 0 = λ z. ne (at ∙ z) in
        ap (is_used (ninodes_of e) e) at
        ∙ still_used (slot d ip j) (w.behind j le some_block).1 (w.used j le some_block)
  ]

  new-IsBehind : (j : ℕ) → j ≤ 140 → slot e jp j ≢ 0 → IsBehind e (slot e jp j)
  new-IsBehind j le ne = elim (Bool-cases (j == i)) [
    | inl q ↦
        let at : slot e jp j ≡ b = ap (slot e jp) ((==_iff j i).0 q) ∙ slot-own in
        subst (IsBehind e) (sym at) (from-IsBehind b g.is_behind)
    | inr q ↦
        let at = slot-other j le (ground arith) in
        subst (IsBehind e) (sym at) (from-IsBehind (slot d ip j) (w.behind j le (λ z. ne (at ∙ z))))
  ]

  -- The fresh block is none of the file's.
  fresh_slot : (j : ℕ) → j ≤ 140 → slot d ip j ≢ b
  fresh_slot j le same =
      let some_block : slot d ip j ≢ 0 = λ z. omega (arith, same, z, g.is_behind.0) in
      let u : is_used n d b ≡ true =
        subst (λ z. is_used n d z ≡ true) same (w.used j le some_block) in
      let q = sym u ∙ g.was_free in cc

  new_apart : (j k : ℕ) → j ≤ 140 → k ≤ 140 → slot e jp j ≢ 0 → slot e jp j ≡ slot e jp k → j ≡ k
  new_apart j k lj lk ne same = elim (Bool-cases (j == i)) [
    | inl q ↦ elim (Bool-cases (k == i)) [
      | inl r ↦ ground arith
      | inr r ↦ absurd (
          fresh_slot k lk (
            sym (slot-other k lk (ground arith))
            ∙ sym same
            ∙ ap (slot e jp) ((==_iff j i).0 q)
            ∙ slot-own))
    ]
    | inr q ↦ elim (Bool-cases (k == i)) [
      | inl r ↦ absurd (
          fresh_slot j lj (
            sym (slot-other j lj (ground arith))
            ∙ same
            ∙ ap (slot e jp) ((==_iff k i).0 r)
            ∙ slot-own))
      | inr r ↦
          let at = slot-other j lj (ground arith) in
          w.apart j k lj lk (λ z. ne (at ∙ z)) (sym at ∙ same ∙ slot-other k lk (ground arith))
    ]
  ]

  -- A block other than the indirect one, if it is the file's or free.
  kept_slot : (j : ℕ) → j < 140 → slot e jp j ≢ 0 → e (slot e jp j) ≡ d (slot e jp j)
  kept_slot j lt ne =
      g.kept (slot e jp j) (to-IsBehind (slot e jp j) (new-IsBehind j (omega arith) ne)).0
        (λ same. omega (arith, lt, new_apart j 140 (omega arith) (omega arith) ne same))

  free_block : (k : ℕ) → IsBehind e k → is_used (ninodes_of e) e k ≡ false → e k ≡ d k
  free_block k h free = g.kept k (to-IsBehind k h).0 (λ same.
      let u = new_used 140 (omega arith) (λ z. omega (arith, z, same, h.0)) in
      let q = sym (ap (is_used (ninodes_of e) e) same ∙ u) ∙ free in cc)

  new_disk : IsDisk e
  new_disk = record {
    bytes = g.blocks;
    room = omega (arith, w.disk.room, same_last, same_size);
    meta = λ j le.
        let le' : j ≤ last_bitmap d = omega (arith, le, same_last) in
        still_used j (omega (arith, le', w.disk.room)) (w.disk.meta j le');
    clean = λ k x h free lt.
        let before : is_used n d k ≡ false =
          ground (arith, is_used-e k (to-IsInside k h.1), free) in
        ap (λ m. m x) (free_block k h free) ∙ w.disk.clean k x (to-IsBehind k h) before lt;
  }

  pub Grown-IsFile : IsFile e jp
  Grown-IsFile = record {
    disk = new_disk;
    known = omega (arith, w.known, g.same_inum, same_ninodes);
    used = new_used;
    behind = new-IsBehind;
    apart = new_apart;
  }

  -- The bytes of the file are what they were.
  pub Grown-byte_at : (x : ℕ) → x < 71680 → byte_at e jp x ≡ byte_at d ip x
  Grown-byte_at x lt =
      let k = x / 512 in
      let low : k < 140 = omega arith in
      elim (Bool-cases (k == i)) [
        | inl q ↦
            let same : k ≡ i = (==_iff k i).0 q in
            let at : slot e jp k ≡ b = ap (slot e jp) same ∙ slot-own in
            let some_block : b ≢ 0 = λ z. omega (arith, z, g.is_behind.0) in
            let kept : e b ≡ d b =
              subst (λ z. e z ≡ d z) at (kept_slot k low (λ z. some_block (sym at ∙ z))) in
            byte_at-some e jp x b at some_block
            ∙ ap (λ m. m (x % 512)) kept
            ∙ w.disk.clean b (x % 512) g.is_behind g.was_free (omega arith)
            ∙ sym (byte_at-none d ip x (ap (slot d ip) same ∙ g.was_empty))
        | inr q ↦
            let at = slot-other k (omega arith) (ground arith) in
            elim (Bool-cases (slot e jp k == 0)) [
              | inl z ↦
                  let none_here : slot e jp k ≡ 0 = (==_iff _ _).0 z in
                  byte_at-none e jp x none_here ∙ sym (byte_at-none d ip x (sym at ∙ none_here))
              | inr z ↦
                  let some_block : slot e jp k ≢ 0 = ground arith in
                  byte_at-some e jp x (slot e jp k) refl some_block
                  ∙ ap (λ m. m (x % 512)) (kept_slot k low some_block)
                  ∙ sym (byte_at-some d ip x (slot e jp k) (sym at) some_block)
            ]
      ]

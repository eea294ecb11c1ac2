-- ===== src/Fs/Inode/Entry.antt =====
-- A new entry in the indirect block of a file.
use mathlib.Core.Path.{subst}
use os_fall.Base.{
  ℕ, ◌+◌, ◌*◌, ◌≤◌, ◌<◌, ◌≡◌, refl, sym, ap, ◌∙◌, ◌≢◌, inl, inr, true, false, arith, ltb, ◌==◌,
  if◌then◌else◌, ==_iff, Bool-cases,
}
use os_fall.Fcheck.Image.{read32}
use os_fall.Fs.{Disk, put_block, ninodes_of, bitmap_block}
use os_fall.Fs.Alloc.{Allocated}
use os_fall.Fs.Inode.{Inode, write32}
use os_fall.Fs.Inode.Words.{read32-write32, read32-cong, write32-outside, write32-AreBytes}
use os_fall.Fs.Inode.Slots.{
  entry, slot, IsInside, IsBehind, IsFile, slot-direct, slot-entry, slot-last,
}
use os_fall.Fs.Inode.Grow.{Grown}
use os_fall.Fs.Inode.Extend.{slot-cases, given-IsBehind, given_super, given_kept, sb_size-lt}

module _ (d : Disk) (ip : Inode) (w : IsFile d ip) (b : ℕ) (e : Disk)
    (a : Allocated (ninodes_of d) d b e) (inside : IsInside d b) (k : ℕ) (low : k < 128)
    (there : ip.addrs 12 ≢ 0) (empty : read32 (d (ip.addrs 12)) (4 * k) ≡ 0) where
  abbrev with_entry : Disk
  with_entry = put_block e (ip.addrs 12) (write32 (d (ip.addrs 12)) (4 * k) b)

  indirect-IsBehind : IsBehind d (ip.addrs 12)
  indirect-IsBehind =
      let at = slot-last d ip in
      subst (IsBehind d) at (w.behind 140 (omega arith) (λ q. there (sym at ∙ q)))

  given-lt : b < 4294967296
  given-lt = omega (arith, inside, sb_size-lt d w.disk.bytes)

  entry-own : entry with_entry ip k ≡ b
  entry-own =
      let some_block : (ip.addrs 12 == 0) ≡ false = ground arith in
      let own : (ip.addrs 12 == ip.addrs 12) ≡ true = ground arith in
      rw (some_block, own) (read32-write32 (d (ip.addrs 12)) (4 * k) b given-lt)

  entry-other : (j : ℕ) → j ≢ k → entry with_entry ip j ≡ entry d ip j
  entry-other j ne =
      let some_block : (ip.addrs 12 == 0) ≡ false = ground arith in
      let own : (ip.addrs 12 == ip.addrs 12) ≡ true = ground arith in
      rw (some_block, own)
        (read32-cong (write32 (d (ip.addrs 12)) (4 * k) b) (d (ip.addrs 12)) (4 * j) (λ x lo hi.
          write32-outside (d (ip.addrs 12)) (4 * k) b x (elim (Bool-cases (ltb j k)) [
            | inl l ↦ inl (ground arith)
            | inr l ↦ inr (ground arith)
          ])))

  entry_slots : (j : ℕ) → j ≤ 140 → slot with_entry ip j ≡ (if j == 12 + k then b else slot d ip j)
  entry_slots j le = elim (slot-cases j le) [
    | inl lt ↦
        let other : (j == 12 + k) ≡ false = ground arith in
        rw other (slot-direct with_entry ip j lt ∙ sym (slot-direct d ip j lt))
    | inr (inl (l, lt, at)) ↦ elim (Bool-cases (l == k)) [
      | inl q ↦
          let same : l ≡ k = (==_iff l k).0 q in
          let own : (12 + l == 12 + k) ≡ true = ground arith in
          rw (at, own) (slot-entry with_entry ip l lt ∙ ap (entry with_entry ip) same ∙ entry-own)
      | inr q ↦
          let other : (12 + l == 12 + k) ≡ false = ground arith in
          rw (at, other)
            (slot-entry with_entry ip l lt
              ∙ entry-other l (ground arith)
              ∙ sym (slot-entry d ip l lt))
    ]
    | inr (inr at) ↦
        let other : (140 == 12 + k) ≡ false = ground arith in
        rw (at, other) (slot-last with_entry ip ∙ sym (slot-last d ip))
  ]

  pub entry-Grown : Grown d ip (12 + k) b with_entry ip
  entry-Grown = record {
    index = omega arith;
    was_empty =
        slot-entry d ip k low
        ∙ (let some_block : (ip.addrs 12 == 0) ≡ false = ground arith in rw some_block empty);
    was_free = a.free;
    is_behind = given-IsBehind d ip w b e a inside;
    super =
        let other : (1 == ip.addrs 12) ≡ false = ground (arith, indirect-IsBehind.0) in
        rw other (given_super d ip w b e a inside);
    same_inum = refl;
    marked = λ j h.
        let other : (bitmap_block j (ninodes_of d) == ip.addrs 12) ≡ false =
          ground (arith, indirect-IsBehind.0, h) in
        rw other (a.marked j);
    slots = entry_slots;
    kept = λ z lt ne.
        let other : (z == ip.addrs 12) ≡ false = ground (arith, slot-last with_entry ip, ne) in
        rw other (given_kept d ip w b e a inside z lt);
    blocks = λ z. elim (Bool-cases (z == ip.addrs 12)) [
      | inl q ↦ rw q (write32-AreBytes (d (ip.addrs 12)) (4 * k) b (w.disk.bytes (ip.addrs 12)))
      | inr q ↦ rw q (a.blocks z)
    ];
  }

-- ===== src/Fs/Inode/Mapping.antt =====
-- The two places where bmap finds the address of a block, or gives the file a fresh one.
use mathlib.Core.Path.{subst}
use os_fall.Base.{
  ℕ, ◌+◌, ◌*◌, ◌≤◌, ◌<◌, ◌≡◌, refl, sym, ap, ◌∙◌, ◌≢◌, inl, inr, true, false, Option, none, some,
  arith, ◌==◌, ==_iff, Bool-cases, Option-cases,
}
use os_fall.Fcheck.Image.{read32}
use os_fall.Fs.{Disk, put_block, sb_size, ninodes_of, balloc}
use os_fall.Fs.Alloc.{is_used, Allocated, Allocates, balloc_lem}
use os_fall.Fs.Inode.{Inode, set_addr, write32, direct_block, indirect_block}
use os_fall.Fs.Inode.Slots.{slot, byte_at, IsInside, IsFile, super_same, slot-entry}
use os_fall.Fs.Inode.Grow.{Grown, Grown-IsFile, Grown-byte_at}
use os_fall.Fs.Inode.Entry.{entry-Grown}

-- Every block of the disk is in use.
abbrev pub IsFull : Disk → Type 0
IsFull d = (j : ℕ) → j < sb_size d → is_used (ninodes_of d) d j ≡ true

-- At most one block of the disk is free.
abbrev pub AlmostFull : Disk → Type 0
AlmostFull d = (b : ℕ) × ((j : ℕ) → j < sb_size d → j ≢ b → is_used (ninodes_of d) d j ≡ true)

-- Block `i` of the file is `b`: nothing else of the file changes, and nothing at all if it was there.
pub record Mapped (d : Disk) (ip : Inode) (i b : ℕ) (e : Disk) (jp : Inode) : Type 0 where
  pub file : IsFile e jp
  pub at : slot e jp i ≡ b
  pub some_block : b ≢ 0
  pub bytes : (x : ℕ) → x < 71680 → byte_at e jp x ≡ byte_at d ip x
  pub rest : jp ≡ record ip { addrs = jp.addrs }
  pub super : (sb_size e ≡ sb_size d) × (ninodes_of e ≡ ninodes_of d)
  pub stays : (j : ℕ) → j ≤ 140 → slot d ip j ≢ 0 → slot e jp j ≢ 0
  pub present : slot d ip i ≢ 0 → (e ≡ d) × (jp ≡ ip)

abbrev pub Maps : Disk → Inode → ℕ → Option (ℕ × Disk × Inode) → Type 0
Maps d ip i none = AlmostFull d
Maps d ip i (some (b, e, jp)) = Mapped d ip i b e jp

-- One block at most is taken.
abbrev pub MapsOnce : Disk → Inode → ℕ → Option (ℕ × Disk × Inode) → Type 0
MapsOnce d ip i none = IsFull d
MapsOnce d ip i (some (b, e, jp)) = Mapped d ip i b e jp × (IsFull e → AlmostFull d)

module _ (d : Disk) (ip : Inode) (w : IsFile d ip) where
  there-Mapped : (i b : ℕ) → slot d ip i ≡ b → b ≢ 0 → Mapped d ip i b d ip
  there-Mapped i b h ne = record {
    file = w;
    at = h;
    some_block = ne;
    bytes = λ x lt. refl;
    rest = refl;
    super = (refl, refl);
    stays = λ j le ne. ne;
    present = λ _. (refl, refl);
  }

  Grown-Mapped :
      (i b : ℕ) (e : Disk) (jp : Inode)
      → Grown d ip i b e jp
      → jp ≡ record ip { addrs = jp.addrs }
      → Mapped d ip i b e jp
  Grown-Mapped i b e jp g rest = record {
    file = Grown-IsFile d ip w i b e jp g;
    at = g.slots i g.index ∙ ground arith;
    some_block = λ z. omega (arith, z, g.is_behind.0);
    bytes = Grown-byte_at d ip w i b e jp g;
    rest = rest;
    super = super_same d e (sym g.super);
    stays = λ j le ne. elim (Bool-cases (j == i)) [
      | inl q ↦ λ z. omega (arith, rw q at (g.slots j le), z, g.is_behind.0)
      | inr q ↦ λ z. ne (sym (rw q at (g.slots j le)) ∙ z)
    ];
    present = λ ne. absurd (ne g.was_empty);
  }

  Grown-AlmostFull :
      (i b : ℕ) (e : Disk) (jp : Inode) → Grown d ip i b e jp → IsFull e → AlmostFull d
  Grown-AlmostFull i b e jp g full =
      let same = super_same d e (sym g.super) in
      (
        b,
        λ j lt ne.
            let other : (j == b) ≡ false = ground arith in
            let used : is_used (ninodes_of d) e j ≡ true =
              ap (λ z. is_used z e j) (sym same.1) ∙ full j (omega (arith, lt, same.0)) in
            let marks = g.marked j (omega (arith, lt)) in sym (rw other at marks) ∙ used,
      )

  -- balloc, as bmap calls it.
  given :
      (T : Option (ℕ × Disk) → Type 0)
      → (IsFull d → T none)
      → ((b : ℕ) (e : Disk) → Allocated (ninodes_of d) d b e → IsInside d b → T (some (b, e)))
      → T (balloc d)
  given T full block = elim (Option-cases (balloc d)) [
    | inl h ↦
        subst T (sym h)
          (full (subst (Allocates (ninodes_of d) d (sb_size d)) h (balloc_lem d w.disk.bytes)))
    | inr ((b, e), h) ↦
        let (a, inside) =
          subst (Allocates (ninodes_of d) d (sb_size d)) h (balloc_lem d w.disk.bytes) in
        subst T (sym h) (block b e a inside)
  ]

  pub direct_block-MapsOnce :
      (i s : ℕ)
      → slot d ip s ≡ ip.addrs i
      → ((b : ℕ) (e : Disk)
          → Allocated (ninodes_of d) d b e
          → IsInside d b
          → ip.addrs i ≡ 0
          → Grown d ip s b e (set_addr i b ip))
      → MapsOnce d ip s (direct_block i d ip)
  unfolding direct_block
  direct_block-MapsOnce i s at grows = elim (Bool-cases (ip.addrs i == 0)) [
    | inl z ↦ rw z (
        given
          (λ o.
            MapsOnce d ip s (elim o [ none ↦ none | some (b, e) ↦ some (b, e, set_addr i b ip) ]))
          (λ full. full)
          (λ b e a inside.
            let g = grows b e a inside ((==_iff _ _).0 z) in
            (
              Grown-Mapped s b e (set_addr i b ip) g refl,
              Grown-AlmostFull s b e (set_addr i b ip) g,
            )))
    | inr z ↦
        rw z (there-Mapped s (ip.addrs i) at (ground arith), λ full. (0, λ j lt ne. full j lt))
  ]

  pub indirect_block-MapsOnce :
      (k : ℕ)
      → k < 128
      → ip.addrs 12 ≢ 0
      → MapsOnce d ip (12 + k) (indirect_block (ip.addrs 12) k d ip)
  unfolding indirect_block
  indirect_block-MapsOnce k low there =
      let a = ip.addrs 12 in
      let some_block : (a == 0) ≡ false = ground arith in
      elim (Bool-cases (read32 (d a) (4 * k) == 0)) [
        | inl z ↦ rw z (
            given
              (λ o. MapsOnce d ip (12 + k) (elim o [
                | none ↦ none
                | some (b, e) ↦ some (b, put_block e a (write32 (d a) (4 * k) b), ip)
              ]))
              (λ full. full)
              (λ b e g inside.
                let grown = entry-Grown d ip w b e g inside k low there ((==_iff _ _).0 z) in
                let f = put_block e a (write32 (d a) (4 * k) b) in
                (Grown-Mapped (12 + k) b f ip grown refl, Grown-AlmostFull (12 + k) b f ip grown)))
        | inr z ↦
            let at : slot d ip (12 + k) ≡ read32 (d a) (4 * k) =
              slot-entry d ip k low ∙ rw some_block refl in
            rw z (
              there-Mapped (12 + k) (read32 (d a) (4 * k)) at (ground arith),
              λ full. (0, λ j lt ne. full j lt),
            )
      ]

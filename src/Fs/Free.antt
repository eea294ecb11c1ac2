-- ===== src/Fs/Free.antt =====
-- bfree against the bitmap as a set of blocks, and after balloc.
use mathlib.Core.Path.{subst}
use os_fall.Base.{
  ℕ, ◌%◌, ◌<◌, ◌≡◌, refl, sym, ap, ◌∙◌, ◌≢◌, ◌⊎◌, inl, inr, Bool, true, false, not, ◌&&◌, ◌||◌,
  none, some, arith, ◌==◌, if◌then◌else◌, ==_iff, Bool-cases,
}
use os_fall.Str.{memset}
use os_fall.Str.Fill.{memset_lem}
use os_fall.Fcheck.Image.{read32}
use os_fall.Fcheck.Bits.{checkbit, unsetbit, checkbit-unsetbit}
use os_fall.Fs.{Disk, put_block, sb_size, ninodes_of, bitmap_block, bzero, clear_bit, bfree, balloc}
use os_fall.Fs.Alloc.{is_used, AreBlocks, balloc_lem, Allocates}

-- A block has been freed: it is zero, its bit and no other is clear, and no block changes but the one
-- and the block of the bitmap.
pub record Freed (ninodes size : ℕ) (d : Disk) (b : ℕ) (e : Disk) : Type 0 where
  pub zeroed : (x : ℕ) → x < 512 → e b x ≡ 0
  pub cleared : (j : ℕ) → j < size → is_used ninodes e j ≡ (not (j == b) && is_used ninodes d j)
  pub kept : (k : ℕ) → k ≢ b → k ≢ bitmap_block b ninodes → e k ≡ d k

-- A block behind the bitmap.
pub record IsData (d : Disk) (b : ℕ) : Type 0 where
  pub behind : bitmap_block (sb_size d) (ninodes_of d) < b
  pub inside : b < sb_size d

ninodes_of-eq : (d e : Disk) → d 1 ≡ e 1 → ninodes_of d ≡ ninodes_of e
unfolding ninodes_of
ninodes_of-eq d e h = ap (λ m. read32 m 8) h

-- What clear_bit does when the number of inodes is known.
clear_bit-eq :
    (b : ℕ) (d : Disk) (n : ℕ)
    → ninodes_of d ≡ n
    → clear_bit b d ≡ (
        let k = bitmap_block b n in
        if checkbit (d k) (b % 4096)
        then some (put_block d k (unsetbit (d k) (b % 4096)))
        else none)
unfolding clear_bit
clear_bit-eq b d n h =
    ap
      (λ n.
        let k = bitmap_block b n in
        if checkbit (d k) (b % 4096)
        then some (put_block d k (unsetbit (d k) (b % 4096)))
        else none)
      h

module _ (d : Disk) (bytes : AreBlocks d) (b : ℕ) (block : IsData d b) where
  -- `bzero` touches neither the superblock nor the bitmap.
  bzero-elsewhere : (k : ℕ) → k ≢ b → bzero b d k ≡ d k
  unfolding bzero
  bzero-elsewhere k ne = let other : (k == b) ≡ false = ground arith in rw other refl

  bzero-own : bzero b d b ≡ memset (d b) 0 0 512
  unfolding bzero
  bzero-own = let own : (b == b) ≡ true = ground arith in rw own refl

  bzero-ninodes_of : ninodes_of (bzero b d) ≡ ninodes_of d
  bzero-ninodes_of =
      ninodes_of-eq (bzero b d) d (bzero-elsewhere 1 (λ e. omega (arith, block.behind, e)))

  abbrev own_bits : ℕ
  own_bits = bitmap_block b (ninodes_of d)

  -- The bitmap stands in front of the block.
  bitmap-elsewhere : (j : ℕ) → j < sb_size d → bitmap_block j (ninodes_of d) ≢ b
  bitmap-elsewhere j lt e = omega (arith, block.behind, e)

  abbrev after : Disk
  after = put_block (bzero b d) own_bits (unsetbit (bzero b d own_bits) (b % 4096))

  bfree-eq : bfree b d ≡ (if is_used (ninodes_of d) d b then some after else none)
  unfolding bfree
  bfree-eq =
      clear_bit-eq b (bzero b d) (ninodes_of d) bzero-ninodes_of
      ∙ ap (λ m. if checkbit m (b % 4096) then some after else none)
          (bzero-elsewhere own_bits (bitmap-elsewhere b block.inside))

  clears :
      (j : ℕ)
      → j < sb_size d
      → is_used (ninodes_of d) after j ≡ (not (j == b) && is_used (ninodes_of d) d j)
  clears j lt =
      let k = bitmap_block j (ninodes_of d) in
      let own = bzero-elsewhere own_bits (bitmap-elsewhere b block.inside) in
      elim (Bool-cases (k == own_bits)) [
        | inl e ↦
            let same : k ≡ own_bits = (==_iff _ _).0 e in
            let bit : (b % 4096 == j % 4096) ≡ (j == b) = ground (arith, same) in
            rw (e, own, same)
              (checkbit-unsetbit (d own_bits) (bytes own_bits) (b % 4096) (j % 4096)
                ∙ ap (λ x. not x && checkbit (d own_bits) (j % 4096)) bit)
        | inr e ↦
            let other : (j == b) ≡ false = ground arith in
            rw (e, other)
              (ap (λ m. checkbit m (j % 4096)) (bzero-elsewhere k (bitmap-elsewhere j lt)))
      ]

  after-Freed : Freed (ninodes_of d) (sb_size d) d b after
  after-Freed = record {
    zeroed = λ x lt.
        let other : (b == own_bits) ≡ false = ground (arith, bitmap-elsewhere b block.inside) in
        rw other (ap (λ m. m x) bzero-own ∙ memset_lem (d b) 0 0 512 x ∙ ground arith);
    cleared = clears;
    kept = λ k ne na.
        let other : (k == own_bits) ≡ false = ground arith in rw other (bzero-elsewhere k ne);
  }

  -- bfree of a block behind the bitmap clears the block and its bit, and leaves the bits of the other
  -- blocks as they were; it panics exactly if the block is free.
  pub bfree_lem :
      ((is_used (ninodes_of d) d b ≡ false) × (bfree b d ≡ none))
      ⊎ ((is_used (ninodes_of d) d b ≡ true)
          × (e : Disk) × (bfree b d ≡ some e)
          × Freed (ninodes_of d) (sb_size d) d b e)
  bfree_lem = elim (Bool-cases (is_used (ninodes_of d) d b)) [
    | inr e ↦ inl (e, bfree-eq ∙ rw e refl)
    | inl e ↦ inr (e, after, bfree-eq ∙ rw e refl, after-Freed)
  ]

sb_size-eq : (d e : Disk) → d 1 ≡ e 1 → sb_size d ≡ sb_size e
unfolding sb_size
sb_size-eq d e h = ap (λ m. read32 m 0) h

-- Marking a free block and unmarking it again.
unmark :
    (before marked : ℕ → Bool) (b : ℕ)
    → before b ≡ false
    → ((j : ℕ) → marked j ≡ (j == b || before j))
    → (j : ℕ) → (not (j == b) && marked j) ≡ before j
unmark before marked b free marks j = elim (Bool-cases (j == b)) [
  | inl e ↦ let same : j ≡ b = (==_iff j b).0 e in rw e (sym (ap before same ∙ free))
  | inr e ↦ rw e (marks j ∙ rw e refl)
]

-- A block that balloc has handed out, if it stands behind the bitmap and inside the disk, can be freed:
-- bfree does not panic, and the bits of all the blocks of the disk are again what they were.
pub bfree-balloc :
    (d e : Disk) (b : ℕ)
    → AreBlocks d
    → IsData d b
    → balloc d ≡ some (b, e)
    → (f : Disk) × (bfree b e ≡ some f)
      × ((j : ℕ) → j < sb_size d → is_used (ninodes_of d) f j ≡ is_used (ninodes_of d) d j)
bfree-balloc d e b bytes block h =
    let a = (subst (Allocates (ninodes_of d) d (sb_size d)) h (balloc_lem d bytes)).0 in
    let super : e 1 ≡ d 1 = a.kept 1 (λ z. omega (arith, z)) in
    let n = ninodes_of-eq e d super in
    let z = sb_size-eq e d super in
    let own : is_used (ninodes_of d) e b ≡ true = a.marked b ∙ ground arith in
    let there : IsData e b = record {
      behind = rw (n, z) block.behind;
      inside = rw z block.inside;
    } in
    elim (bfree_lem e a.blocks b there) [
      | inl (clear, _) ↦ absurd (let q = sym (ap (λ m. is_used m e b) n ∙ own) ∙ clear in cc)
      | inr (_, f, runs, freed) ↦ (
        f,
        runs,
        λ j lt.
            let back = freed.cleared j (rw z lt) in
            let now : is_used (ninodes_of d) f j ≡ (not (j == b) && is_used (ninodes_of d) e j) =
              subst (λ m. is_used m f j ≡ (not (j == b) && is_used m e j)) n back in
            now ∙ unmark (is_used (ninodes_of d) d) (is_used (ninodes_of d) e) b a.free a.marked j,
      )
    ]

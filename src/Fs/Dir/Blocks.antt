-- ===== src/Fs/Dir/Blocks.antt =====
-- The entries in the blocks of a directory, as the bytes of its file.
use os_fall.Base.{
  ℕ, ◌+◌, ◌-◌, ◌*◌, ◌/◌, ◌%◌, ◌≤◌, ◌<◌, ◌≡◌, sym, ap, ◌∙◌, inl, inr, false, arith, ltb, ltb→lt,
  Bool-cases,
}
use os_fall.Str.{Bytes}
use os_fall.Fcheck.Image.{read16}
use os_fall.Fs.{Disk}
use os_fall.Fs.Inode.{Inode}
use os_fall.Fs.Inode.Slots.{slot, byte_at}
use os_fall.Fs.Inode.Mapping.{Mapped}
use os_fall.Fs.File.Pieces.{piece-byte_at}
use os_fall.Fs.Dir.{is_entry}
use os_fall.Fs.Dir.Entries.{is_entry-cong}

-- None of the entries from the block `i` on to the offset `o` has the name.
abbrev pub NoneIn : Bytes → Bytes → ℕ → ℕ → Type 0
NoneIn name m i o = (k : ℕ) → 32 * i ≤ k → 16 * k < o → is_entry name m (16 * k) ≡ false

-- The end of the last block that the directory has bytes in.
abbrev pub whole_blocks : ℕ → ℕ
whole_blocks size = (size + 511) / 512 * 512

-- An entry in a block that bmap has found.
pub dirent-byte_at :
    (name : Bytes) (i b : ℕ) (d e : Disk) (dp ep : Inode)
    → i < 140
    → Mapped d dp i b e ep
    → (k : ℕ) → k < 32
    → (is_entry name (e b) (0 + 16 * k) ≡ is_entry name (byte_at d dp) (16 * (32 * i + k)))
      × (read16 (e b) (0 + 16 * k) ≡ read16 (byte_at d dp) (16 * (32 * i + k)))
dirent-byte_at name i b d e dp ep lt m k few =
    let at : 512 * i / 512 ≡ i = omega arith in
    is_entry-cong name (e b) (byte_at d dp) (0 + 16 * k) (16 * (32 * i + k)) (λ y small.
      let from : 0 + 16 * k + y ≡ 512 * i % 512 + (16 * k + y) = omega arith in
      let to : 512 * i + (16 * k + y) ≡ 16 * (32 * i + k) + y = omega arith in
      ap (e b) from
      ∙ piece-byte_at (512 * i) b e ep m.file (omega arith) (ap (slot e ep) at ∙ m.at) m.some_block
          512 (omega arith) (16 * k + y) (omega arith)
      ∙ ap (byte_at e ep) to
      ∙ m.bytes (16 * (32 * i + k) + y) (omega arith))

-- The entries of one block, none of them with the name.
pub block_none :
    (name : Bytes) (i b : ℕ) (d e : Disk) (dp ep : Inode)
    → i < 140
    → Mapped d dp i b e ep
    → (n : ℕ) → n ≤ 32
    → ((k : ℕ) → k < n → is_entry name (e b) (0 + 16 * k) ≡ false)
    → NoneIn name (byte_at d dp) i (512 * i + 16 * n)
block_none name i b d e dp ep lt m n le h k lo hi =
    let (same, num) = dirent-byte_at name i b d e dp ep lt m (k - 32 * i) (omega arith) in
    let back : 16 * k ≡ 16 * (32 * i + (k - 32 * i)) = omega arith in
    ap (is_entry name (byte_at d dp)) back ∙ sym same ∙ h (k - 32 * i) (omega arith)

pub NoneIn-join :
    (name m n : Bytes) (i o : ℕ)
    → o ≤ 71680
    → ((x : ℕ) → x < 71680 → n x ≡ m x)
    → NoneIn name m i (512 * i + 16 * 32)
    → NoneIn name n (i + 1) o
    → o % 16 ≡ 0
    → NoneIn name m i o
NoneIn-join name m n i o le same now later whole k lo hi =
    elim (Bool-cases (ltb k (32 * (i + 1)))) [
      | inl e ↦ now k lo (let lt = ltb→lt k (32 * (i + 1)) e in omega (arith, lt))
      | inr e ↦
          let ge : 32 * (i + 1) ≤ k = ground (arith, e) in
          sym (is_entry-cong name n m (16 * k) (16 * k) (λ y lt. same (16 * k + y) (omega arith))).0
          ∙ later k ge hi
    ]

pub entry_same :
    (name m n : Bytes) (k : ℕ)
    → 16 * k + 16 ≤ 71680
    → ((x : ℕ) → x < 71680 → n x ≡ m x)
    → (is_entry name n (16 * k) ≡ is_entry name m (16 * k))
      × (read16 n (16 * k) ≡ read16 m (16 * k))
entry_same name m n k le same =
    is_entry-cong name n m (16 * k) (16 * k) (λ y lt. same (16 * k + y) (omega arith))

-- ===== src/Fs/Inode/Stages.antt =====
-- The fields of an inode as they are written to its place on the disk.
use os_fall.Base.{ℕ, ◌+◌, ◌≤◌, ◌<◌, ◌≡◌, ap, ◌∙◌, ◌⊎◌, inl, inr, true, arith, leb}
use os_fall.Str.{Bytes}
use os_fall.Str.Compare.{AreBytes}
use os_fall.Fs.Inode.{ndirect, Inode, write16, write32, write_dinode, read_dinode}
use os_fall.Fs.Inode.Words.{
  write16-outside, write32-outside, read16-write16, read32-write32, write32-AreBytes,
  write16-AreBytes, read32-cong, read16-cong, write_words-outside, write_words-AreBytes,
  read32-write_words,
}

-- The fields that are copied fit the `short`s and `uint`s of the disk.
pub record Fits (ip : Inode) : Type 0 where
  pub type_fits : ip.type < 65536
  pub major_fits : ip.major < 65536
  pub minor_fits : ip.minor < 65536
  pub nlink_fits : ip.nlink < 65536
  pub size_fits : ip.size < 4294967296
  pub addrs_fit : (i : ℕ) → i ≤ 12 → ip.addrs i < 4294967296

-- The fields that are copied are the same.
pub record SameCopy (ip jp : Inode) : Type 0 where
  pub same_type : jp.type ≡ ip.type
  pub same_major : jp.major ≡ ip.major
  pub same_minor : jp.minor ≡ ip.minor
  pub same_nlink : jp.nlink ≡ ip.nlink
  pub same_size : jp.size ≡ ip.size
  pub same_addrs : (i : ℕ) → i ≤ 12 → jp.addrs i ≡ ip.addrs i

zero_add : (i : ℕ) → 0 + i ≡ i
zero_add i = omega arith

-- The stages of the write, one for each field.
module _ (m : Bytes) (a : ℕ) (ip : Inode) where
  abbrev stage1 : Bytes
  stage1 = write16 m a ip.type

  abbrev stage2 : Bytes
  stage2 = write16 stage1 (a + 2) ip.major

  abbrev stage3 : Bytes
  stage3 = write16 stage2 (a + 4) ip.minor

  abbrev stage4 : Bytes
  stage4 = write16 stage3 (a + 6) ip.nlink

  abbrev stage5 : Bytes
  stage5 = write32 stage4 (a + 8) ip.size

  abbrev Outside : ℕ → ℕ → ℕ → Type 0
  Outside o n x = (x < a + o) ⊎ (a + o + n ≤ x)

  after5 : (x : ℕ) → Outside 12 52 x → write_dinode m a ip x ≡ stage5 x
  unfolding write_dinode
  after5 x h =
      write_words-outside stage5 (a + 12) ip.addrs 0 13 x
        (elim h [ inl e ↦ inl e | inr e ↦ inr (omega arith) ])

  after4 : (x : ℕ) → Outside 8 56 x → write_dinode m a ip x ≡ stage4 x
  after4 x h =
      after5 x (elim h [ inl e ↦ inl (omega arith) | inr e ↦ inr (omega arith) ])
      ∙ write32-outside stage4 (a + 8) ip.size x
          (elim h [ inl e ↦ inl e | inr e ↦ inr (omega arith) ])

  after3 : (x : ℕ) → Outside 6 58 x → write_dinode m a ip x ≡ stage3 x
  after3 x h =
      after4 x (elim h [ inl e ↦ inl (omega arith) | inr e ↦ inr (omega arith) ])
      ∙ write16-outside stage3 (a + 6) ip.nlink x
          (elim h [ inl e ↦ inl e | inr e ↦ inr (omega arith) ])

  after2 : (x : ℕ) → Outside 4 60 x → write_dinode m a ip x ≡ stage2 x
  after2 x h =
      after3 x (elim h [ inl e ↦ inl (omega arith) | inr e ↦ inr (omega arith) ])
      ∙ write16-outside stage2 (a + 4) ip.minor x
          (elim h [ inl e ↦ inl e | inr e ↦ inr (omega arith) ])

  after1 : (x : ℕ) → Outside 2 62 x → write_dinode m a ip x ≡ stage1 x
  after1 x h =
      after2 x (elim h [ inl e ↦ inl (omega arith) | inr e ↦ inr (omega arith) ])
      ∙ write16-outside stage1 (a + 2) ip.major x
          (elim h [ inl e ↦ inl e | inr e ↦ inr (omega arith) ])

  pub write_dinode-outside : (x : ℕ) → (x < a) ⊎ (a + 64 ≤ x) → write_dinode m a ip x ≡ m x
  write_dinode-outside x h =
      after1 x (elim h [ inl e ↦ inl (omega arith) | inr e ↦ inr (omega arith) ])
      ∙ write16-outside m a ip.type x (elim h [ inl e ↦ inl e | inr e ↦ inr (omega arith) ])

  pub write_dinode-AreBytes : AreBytes m → AreBytes (write_dinode m a ip)
  unfolding write_dinode
  write_dinode-AreBytes h = write_words-AreBytes stage5 (a + 12) ip.addrs 0 13 (
      write32-AreBytes stage4 (a + 8) ip.size (
        write16-AreBytes stage3 (a + 6) ip.nlink (
          write16-AreBytes stage2 (a + 4) ip.minor
            (write16-AreBytes stage1 (a + 2) ip.major (write16-AreBytes m a ip.type h)))))

  copied_addr :
      (jp : Inode)
      → Fits ip
      → (i : ℕ) → i ≤ 12
      → (read_dinode (write_dinode m a ip) a jp).addrs i ≡ ip.addrs i
  unfolding read_dinode write_dinode
  copied_addr jp f i le =
      let there : leb i ndirect ≡ true = ground arith in
      rw there (
        read32-write_words stage5 (a + 12) ip.addrs 0 13 i (omega arith)
          (omega (arith, f.addrs_fit i le, ap ip.addrs (zero_add i)))
        ∙ ap ip.addrs (zero_add i))

  -- What is read back from the copy.
  pub read_dinode-SameCopy :
      (jp : Inode) → Fits ip → SameCopy ip (read_dinode (write_dinode m a ip) a jp)
  unfolding read_dinode
  read_dinode-SameCopy jp f = record {
    same_type =
        read16-cong (write_dinode m a ip) stage1 a (λ x lo hi. after1 x (inl (omega arith)))
        ∙ read16-write16 m a ip.type f.type_fits;
    same_major =
        read16-cong (write_dinode m a ip) stage2 (a + 2) (λ x lo hi. after2 x (inl (omega arith)))
        ∙ read16-write16 stage1 (a + 2) ip.major f.major_fits;
    same_minor =
        read16-cong (write_dinode m a ip) stage3 (a + 4) (λ x lo hi. after3 x (inl (omega arith)))
        ∙ read16-write16 stage2 (a + 4) ip.minor f.minor_fits;
    same_nlink =
        read16-cong (write_dinode m a ip) stage4 (a + 6) (λ x lo hi. after4 x (inl (omega arith)))
        ∙ read16-write16 stage3 (a + 6) ip.nlink f.nlink_fits;
    same_size =
        read32-cong (write_dinode m a ip) stage5 (a + 8) (λ x lo hi. after5 x (inl (omega arith)))
        ∙ read32-write32 stage4 (a + 8) ip.size f.size_fits;
    same_addrs = λ i le. copied_addr jp f i le;
  }

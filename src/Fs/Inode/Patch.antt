-- ===== src/Fs/Inode/Patch.antt =====
-- A change of one block of the disk that is not part of what maps the blocks of a file.
use mathlib.Core.Path.{subst}
use os_fall.Base.{
  ℕ, ◌*◌, ◌/◌, ◌%◌, ◌≤◌, ◌<◌, ◌≡◌, refl, sym, ap, ◌∙◌, ◌≢◌, inl, inr, true, arith, ◌==◌, ==_iff,
  Bool-cases,
}
use os_fall.Fcheck.Image.{read32}
use os_fall.Fs.{Disk, sb_size, ninodes_of, bitmap_block}
use os_fall.Fs.Alloc.{is_used, AreBlocks}
use os_fall.Fs.Inode.{Inode}
use os_fall.Fs.Inode.Slots.{
  entry, slot, byte_at, byte_at-none, byte_at-some, last_bitmap, IsInside, IsBehind, IsDisk, IsFile,
  super_same, slot-direct, slot-entry, slot-last,
}
use os_fall.Fs.Inode.Extend.{slot-cases}

-- Only block `c` differs, and it is neither the superblock nor one of the bitmap, nor the file's
-- indirect block, nor free.
pub record Patch (d : Disk) (ip : Inode) (c : ℕ) (e : Disk) : Type 0 where
  pub elsewhere : (k : ℕ) → k ≢ c → e k ≡ d k
  pub blocks : AreBlocks e
  pub not_super : c ≢ 1
  pub not_bitmap : (j : ℕ) → IsInside d j → bitmap_block j (ninodes_of d) ≢ c
  pub not_indirect : slot d ip 140 ≢ 0 → slot d ip 140 ≢ c
  pub taken : IsBehind d c → is_used (ninodes_of d) d c ≡ true

module _ (d : Disk) (ip : Inode) (w : IsFile d ip) (c : ℕ) (e : Disk) (p : Patch d ip c e) where
  pub patch_super : (sb_size e ≡ sb_size d) × (ninodes_of e ≡ ninodes_of d)
  patch_super = super_same d e (sym (p.elsewhere 1 (λ z. p.not_super (sym z))))

  patch_used : (j : ℕ) → IsInside d j → is_used (ninodes_of e) e j ≡ is_used (ninodes_of d) d j
  patch_used j h =
      rw (patch_super.1, p.elsewhere (bitmap_block j (ninodes_of d)) (p.not_bitmap j h)) refl

  patch_entry : (k : ℕ) → entry e ip k ≡ entry d ip k
  patch_entry k = elim (Bool-cases (ip.addrs 12 == 0)) [
    | inl z ↦ rw z refl
    | inr z ↦
        let at = slot-last d ip in
        let there : slot d ip 140 ≢ 0 = λ q. ground (arith, sym at ∙ q) in
        rw z (
          ap (λ m. read32 m (4 * k))
            (p.elsewhere (ip.addrs 12) (λ q. p.not_indirect there (at ∙ q))))
  ]

  pub patch_slot : (j : ℕ) → j ≤ 140 → slot e ip j ≡ slot d ip j
  patch_slot j le = elim (slot-cases j le) [
    | inl lt ↦ slot-direct e ip j lt ∙ sym (slot-direct d ip j lt)
    | inr (inl (k, lt, at)) ↦
        rw at (slot-entry e ip k lt ∙ patch_entry k ∙ sym (slot-entry d ip k lt))
    | inr (inr at) ↦ rw at (slot-last e ip ∙ sym (slot-last d ip))
  ]

  patch_last : last_bitmap e ≡ last_bitmap d
  patch_last = rw (patch_super.0, patch_super.1) refl

  patch-IsInside : (j : ℕ) → IsInside e j → IsInside d j
  patch-IsInside j h = omega (arith, h, patch_super.0)

  patch-IsBehind : (j : ℕ) → IsBehind e j → IsBehind d j
  patch-IsBehind j h = (omega (arith, h.0, patch_last), patch-IsInside j h.1)

  unpatch-IsBehind : (j : ℕ) → IsBehind d j → IsBehind e j
  unpatch-IsBehind j h = (omega (arith, h.0, patch_last), omega (arith, h.1, patch_super.0))

  patch-IsDisk : IsDisk e
  patch-IsDisk = record {
    bytes = p.blocks;
    room = omega (arith, w.disk.room, patch_last, patch_super.0);
    meta = λ j le.
        let le' : j ≤ last_bitmap d = omega (arith, le, patch_last) in
        patch_used j (omega (arith, le', w.disk.room)) ∙ w.disk.meta j le';
    clean = λ k x h free lt.
        let h' = patch-IsBehind k h in
        let before = sym (patch_used k h'.1) ∙ free in
        let other : k ≢ c = λ z.
          let u : is_used (ninodes_of d) d k ≡ true =
            ap (is_used (ninodes_of d) d) z ∙ p.taken (subst (IsBehind d) z h') in
          let q = sym u ∙ before in cc in
        ap (λ m. m x) (p.elsewhere k other) ∙ w.disk.clean k x h' before lt;
  }

  pub patch-IsFile : IsFile e ip
  patch-IsFile = record {
    disk = patch-IsDisk;
    known = omega (arith, w.known, patch_super.1);
    used = λ i le ne.
        let at = patch_slot i le in
        let there : slot d ip i ≢ 0 = λ z. ne (at ∙ z) in
        ap (is_used (ninodes_of e) e) at
        ∙ patch_used (slot d ip i) (w.behind i le there).1
        ∙ w.used i le there;
    behind = λ i le ne.
        let at = patch_slot i le in
        subst (IsBehind e) (sym at)
          (unpatch-IsBehind (slot d ip i) (w.behind i le (λ z. ne (at ∙ z))));
    apart = λ i j li lj ne same.
        let at = patch_slot i li in
        w.apart i j li lj (λ z. ne (at ∙ z)) (sym at ∙ same ∙ patch_slot j lj);
  }

  -- The bytes of the other blocks of the file.
  pub patch-byte_at :
      (x : ℕ) → x < 71680 → slot d ip (x / 512) ≢ c → byte_at e ip x ≡ byte_at d ip x
  patch-byte_at x lt ne =
      let at = patch_slot (x / 512) (omega arith) in
      elim (Bool-cases (slot d ip (x / 512) == 0)) [
        | inl z ↦
            let nothing : slot d ip (x / 512) ≡ 0 = (==_iff _ _).0 z in
            byte_at-none e ip x (at ∙ nothing) ∙ sym (byte_at-none d ip x nothing)
        | inr z ↦
            let there : slot d ip (x / 512) ≢ 0 = ground arith in
            byte_at-some e ip x (slot d ip (x / 512)) at there
            ∙ ap (λ m. m (x % 512)) (p.elsewhere (slot d ip (x / 512)) ne)
            ∙ sym (byte_at-some d ip x (slot d ip (x / 512)) refl there)
      ]

-- ===== src/Fs/File/Size.antt =====
-- The last lines of writei: the size of a file, in memory and on the disk.
use os_fall.Base.{
  ℕ, ◌/◌, ◌≤◌, ◌<◌, ◌≡◌, refl, ◌∙◌, ◌≢◌, inl, inr, ◌&&◌, arith, ltb, if◌then◌else◌, Bool-cases,
}
use os_fall.Fs.{Disk}
use os_fall.Fs.Inode.{Inode, inode_block, iupdate}
use os_fall.Fs.Inode.Copy.{iupdate-elsewhere, iupdate-AreBytes}
use os_fall.Fs.Inode.Slots.{slot, byte_at, IsFile, slot-size, size-IsFile, byte_at-size}
use os_fall.Fs.Inode.Patch.{Patch, patch-IsFile, patch-byte_at, patch_slot}
use os_fall.Fs.File.{update_size}

-- iupdate writes one block, in front of the bitmap.
iupdate-Patch :
    (d : Disk) (ip jp : Inode)
    → IsFile d ip
    → jp.inum ≡ ip.inum
    → Patch d ip (inode_block jp.inum) (iupdate jp d)
iupdate-Patch d ip jp w num = record {
  elsewhere = iupdate-elsewhere d jp;
  blocks = λ k. iupdate-AreBytes d jp k (w.disk.bytes k);
  not_super = λ z. omega (arith, z);
  not_bitmap = λ j h z. omega (arith, z, w.known, num);
  not_indirect = λ ne z. omega (arith, z, w.known, num, (w.behind 140 (omega arith) ne).0);
  taken = λ h. absurd (omega (arith, h.0, w.known, num));
}

-- The size afterwards.
abbrev pub new_size : ℕ → ℕ → Inode → ℕ
new_size n off ip = if ltb 0 n && ltb ip.size off then off else ip.size

-- Only the size has changed.
pub record Sized (n off : ℕ) (d : Disk) (ip : Inode) (e : Disk) (jp : Inode) : Type 0 where
  pub file : IsFile e jp
  pub rest : jp ≡ record ip { size = new_size n off ip }
  pub bytes : (x : ℕ) → x < 71680 → byte_at e jp x ≡ byte_at d ip x
  pub slots : (j : ℕ) → j ≤ 140 → slot e jp j ≡ slot d ip j

pub update_size-Sized :
    (n off : ℕ) (d : Disk) (ip : Inode)
    → IsFile d ip
    → Sized n off d ip (update_size n off d ip).0 (update_size n off d ip).1
unfolding update_size
update_size-Sized n off d ip w = elim (Bool-cases (ltb 0 n && ltb ip.size off)) [
  | inr q ↦ rw q (record { file = w; rest = rw q refl; bytes = λ x lt. refl; slots = λ j le. refl })
  | inl q ↦
      let jp : Inode = record ip { size = off } in
      let v = size-IsFile d ip off w in
      let p = iupdate-Patch d jp jp v refl in
      rw q (record {
        file = patch-IsFile d jp v (inode_block ip.inum) (iupdate jp d) p;
        rest = rw q refl;
        bytes = λ x lt.
            patch-byte_at d jp v (inode_block ip.inum) (iupdate jp d) p x lt (λ z.
              let there : slot d jp (x / 512) ≢ 0 = λ y. omega (arith, y, z) in
              omega (arith, z, (v.behind (x / 512) (omega arith) there).0, v.known))
            ∙ byte_at-size d ip off x;
        slots = λ j le.
            patch_slot d jp v (inode_block ip.inum) (iupdate jp d) p j le ∙ slot-size d ip off j;
      })
]

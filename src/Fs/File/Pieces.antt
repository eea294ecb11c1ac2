-- ===== src/Fs/File/Pieces.antt =====
-- One round of the loops of readi and writei: a piece of one block.
use mathlib.Core.Path.{subst}
use os_fall.Base.{
  ℕ, ◌+◌, ◌-◌, ◌/◌, ◌%◌, ◌≤◌, ◌<◌, ◌≡◌, refl, sym, ap, ◌∙◌, ◌≢◌, inl, inr, true, false, ◌&&◌, arith,
  ltb, leb, ◌==◌, if◌then◌else◌, ==_iff, Bool-cases,
}
use os_fall.Str.{Bytes}
use os_fall.Str.Compare.{AreBytes}
use os_fall.Fs.{Disk, put_block, sb_size, ninodes_of}
use os_fall.Fs.Alloc.{is_used}
use os_fall.Fs.Inode.{Inode}
use os_fall.Fs.Inode.Slots.{slot, byte_at, byte_at-some, IsBehind, IsFile}
use os_fall.Fs.Inode.Mapping.{Mapped}
use os_fall.Fs.Inode.Patch.{Patch, patch_slot, patch-byte_at}
use os_fall.Fs.File.{move_in, portion}

-- The file is as it was, but for blocks that it may have been given.
pub record Kept (d : Disk) (ip : Inode) (e : Disk) (jp : Inode) : Type 0 where
  pub file : IsFile e jp
  pub bytes : (x : ℕ) → x < 71680 → byte_at e jp x ≡ byte_at d ip x
  pub rest : jp ≡ record ip { addrs = jp.addrs }
  pub stays : (j : ℕ) → j ≤ 140 → slot d ip j ≢ 0 → slot e jp j ≢ 0
  pub super : (sb_size e ≡ sb_size d) × (ninodes_of e ≡ ninodes_of d)

pub Kept-refl : (d : Disk) (ip : Inode) → IsFile d ip → Kept d ip d ip
Kept-refl d ip w = record {
  file = w;
  bytes = λ x lt. refl;
  rest = refl;
  stays = λ j le ne. ne;
  super = (refl, refl);
}

abbrev pub with_addrs : (ℕ → ℕ) → Inode → Inode
with_addrs addrs ip = record ip { addrs = addrs }

pub Kept-trans :
    (d e f : Disk) (ip jp kp : Inode) → Kept d ip e jp → Kept e jp f kp → Kept d ip f kp
Kept-trans d e f ip jp kp k l = record {
  file = l.file;
  bytes = λ x lt. l.bytes x lt ∙ k.bytes x lt;
  rest = l.rest ∙ ap (with_addrs kp.addrs) k.rest;
  stays = λ j le ne. l.stays j le (k.stays j le ne);
  super = (l.super.0 ∙ k.super.0, l.super.1 ∙ k.super.1);
}

pub Mapped-Kept :
    (d : Disk) (ip : Inode) (i b : ℕ) (e : Disk) (jp : Inode)
    → Mapped d ip i b e jp
    → Kept d ip e jp
Mapped-Kept d ip i b e jp m = record {
  file = m.file;
  bytes = m.bytes;
  rest = m.rest;
  stays = m.stays;
  super = m.super;
}

-- A portion is not empty, and ends with the bytes wanted or with its block at the latest.
pub portion_bounds :
    (n tot off : ℕ)
    → tot < n
    → (0 < portion n tot off)
      × (tot + portion n tot off ≤ n)
      × (off % 512 + portion n tot off ≤ 512)
portion_bounds n tot off lt = ground arith

-- Places inside one block.
block_of_place : (off y m : ℕ) → off % 512 + m ≤ 512 → y < m → (off + y) / 512 ≡ off / 512
block_of_place off y m h lt = omega arith

place_in_block : (off y m : ℕ) → off % 512 + m ≤ 512 → y < m → (off + y) % 512 ≡ off % 512 + y
place_in_block off y m h lt = omega arith

module _ (off b : ℕ) (e : Disk) (jp : Inode) (w : IsFile e jp) (low : off < 71680)
    (at : slot e jp (off / 512) ≡ b) (there : b ≢ 0) (m : ℕ) (fits : off % 512 + m ≤ 512) where
  -- What the file has there.
  pub piece-byte_at : (y : ℕ) → y < m → e b (off % 512 + y) ≡ byte_at e jp (off + y)
  piece-byte_at y lt = sym (
      byte_at-some e jp (off + y) b (ap (slot e jp) (block_of_place off y m fits lt) ∙ at) there
      ∙ ap (e b) (place_in_block off y m fits lt))

  some_slot : slot e jp (off / 512) ≢ 0
  some_slot z = there (sym at ∙ z)

  own-IsBehind : IsBehind e b
  own-IsBehind = subst (IsBehind e) at (w.behind (off / 512) (omega arith) some_slot)

  own_used : is_used (ninodes_of e) e b ≡ true
  own_used = ap (is_used (ninodes_of e) e) (sym at) ∙ w.used (off / 512) (omega arith) some_slot

  module _ (src : Bytes) (tot : ℕ) (bytes : AreBytes src) where
    abbrev pub written : Disk
    written = put_block e b (move_in (e b) (off % 512) src tot m)

    pub written-Patch : Patch e jp b written
    written-Patch = record {
      elsewhere = λ k ne. let other : (k == b) ≡ false = ground arith in rw other refl;
      blocks = λ k x. elim (Bool-cases (k == b)) [
        | inl q ↦ rw q (ground (arith, w.disk.bytes b x, bytes (tot + (x - off % 512))))
        | inr q ↦ rw q (w.disk.bytes k x)
      ];
      not_super = λ z. omega (arith, z, own-IsBehind.0);
      not_bitmap = λ j h z. omega (arith, z, h, own-IsBehind.0);
      not_indirect = λ ne same.
          omega
            (arith, low, w.apart 140 (off / 512) (omega arith) (omega arith) ne (same ∙ sym at));
      taken = λ _. own_used;
    }

    -- The bytes of the file once the piece has been written.
    pub written-byte_at :
        (x : ℕ)
        → x < 71680
        → byte_at written jp x
          ≡ (if leb off x && ltb x (off + m) then src (tot + (x - off)) else byte_at e jp x)
    written-byte_at x lt = elim (Bool-cases (x / 512 == off / 512)) [
      | inl q ↦
          let same : x / 512 ≡ off / 512 = (==_iff _ _).0 q in
          let here = ap (slot e jp) same ∙ at in
          let own : (b == b) ≡ true = ground arith in
          byte_at-some written jp x b
            (patch_slot e jp w b written written-Patch (x / 512) (omega arith) ∙ here) there
          ∙ rw own (ground (arith, same, byte_at-some e jp x b here there))
      | inr q ↦
          let other : (leb off x && ltb x (off + m)) ≡ false = ground arith in
          rw other (
            patch-byte_at e jp w b written written-Patch x lt (λ z.
              let same =
                w.apart (off / 512) (x / 512) (omega arith) (omega arith) some_slot (at ∙ sym z) in
              ground (arith, same)))
    ]

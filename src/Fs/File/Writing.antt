-- ===== src/Fs/File/Writing.antt =====
-- The loop of writei against the bytes of a file.
use mathlib.Core.Path.{subst}
use os_fall.Base.{
  ℕ, zero, suc, ◌+◌, ◌-◌, ◌/◌, ◌%◌, ◌≤◌, ◌<◌, ◌≡◌, refl, sym, ap, ◌∙◌, ◌≢◌, inl, inr, ◌&&◌, Option,
  none, some, arith, ltb, leb, if◌then◌else◌, ltb→lt, leb→le, Bool-cases, Option-cases,
}
use os_fall.Str.{Bytes}
use os_fall.Str.Compare.{AreBytes}
use os_fall.Fs.{Disk, put_block, sb_size, ninodes_of}
use os_fall.Fs.Inode.{Inode, bmap}
use os_fall.Fs.Inode.Slots.{slot, byte_at, IsFile}
use os_fall.Fs.Inode.Mapping.{Mapped, Maps, AlmostFull}
use os_fall.Fs.Inode.Bmap.{bmap_lem}
use os_fall.Fs.Inode.Patch.{patch_slot, patch-IsFile, patch_super}
use os_fall.Fs.File.{move_in, portion, write_loop}
use os_fall.Fs.File.Pieces.{with_addrs, portion_bounds, written-Patch, written-byte_at}

-- The file after a write: its bytes from `off` to `end` are those of `src` from `tot` on, and the blocks
-- that hold them are there.
pub record Written (d : Disk) (ip : Inode) (tot off end : ℕ) (src : Bytes) (e : Disk) (jp : Inode)
    : Type 0 where
  pub file : IsFile e jp
  pub rest : jp ≡ record ip { addrs = jp.addrs }
  pub super : (sb_size e ≡ sb_size d) × (ninodes_of e ≡ ninodes_of d)
  pub bytes :
      (x : ℕ)
      → x < 71680
      → byte_at e jp x ≡ (if leb off x && ltb x end then src (tot + (x - off)) else byte_at d ip x)
  pub stays : (j : ℕ) → j ≤ 140 → slot d ip j ≢ 0 → slot e jp j ≢ 0
  pub there : (x : ℕ) → off ≤ x → x < end → slot e jp (x / 512) ≢ 0

-- A run has left the disk with at most one free block.
pub record WriteRunsOut (d : Disk) (ip : Inode) (e : Disk) (jp : Inode) : Type 0 where
  pub file : IsFile e jp
  pub rest : jp ≡ record ip { addrs = jp.addrs }
  pub super : (sb_size e ≡ sb_size d) × (ninodes_of e ≡ ninodes_of d)
  pub full : AlmostFull e

abbrev pub Writes : Disk → Inode → ℕ → ℕ → ℕ → Bytes → Option (ℕ × Disk × Inode) → Type 0
Writes d ip n tot off src none = (e : Disk) × (jp : Inode) × WriteRunsOut d ip e jp
Writes d ip n tot off src (some (end, e, jp)) =
    (end ≡ off + (n - tot)) × Written d ip tot off end src e jp

-- A round: the block is mapped and the piece is written.
round-Written :
    (d : Disk) (ip : Inode) (b : ℕ) (e : Disk) (jp : Inode) (tot off m : ℕ) (src : Bytes)
    → Mapped d ip (off / 512) b e jp
    → off < 71680
    → off % 512 + m ≤ 512
    → AreBytes src
    → Written d ip tot off (off + m) src (put_block e b (move_in (e b) (off % 512) src tot m)) jp
round-Written d ip b e jp tot off m src g low fits bytes =
    let f = put_block e b (move_in (e b) (off % 512) src tot m) in
    let p = written-Patch off b e jp g.file low g.at g.some_block m fits src tot bytes in
    let super = patch_super e jp g.file b f p in
    record {
      file = patch-IsFile e jp g.file b f p;
      rest = g.rest;
      super = (super.0 ∙ g.super.0, super.1 ∙ g.super.1);
      bytes = λ x lt.
          written-byte_at off b e jp g.file low g.at g.some_block m fits src tot bytes x lt
          ∙ ap (λ z. if leb off x && ltb x (off + m) then src (tot + (x - off)) else z)
              (g.bytes x lt);
      stays = λ j le ne z. g.stays j le ne (sym (patch_slot e jp g.file b f p j le) ∙ z);
      there = λ x lo hi z.
          let same : x / 512 ≡ off / 512 = omega arith in
          g.some_block (
            sym g.at
            ∙ ap (slot e jp) (sym same)
            ∙ sym (patch_slot e jp g.file b f p (x / 512) (omega arith))
            ∙ z);
    }

-- A write and one behind it.
Written-trans :
    (d e f : Disk) (ip jp kp : Inode) (tot off m end : ℕ) (src : Bytes)
    → off + m ≤ end
    → end ≤ 71680
    → Written d ip tot off (off + m) src e jp
    → Written e jp (tot + m) (off + m) end src f kp
    → Written d ip tot off end src f kp
Written-trans d e f ip jp kp tot off m end src le top k l = record {
  file = l.file;
  rest = l.rest ∙ ap (with_addrs kp.addrs) k.rest;
  super = (l.super.0 ∙ k.super.0, l.super.1 ∙ k.super.1);
  bytes = λ x lt.
      let at : off + m ≤ x → tot + m + (x - (off + m)) ≡ tot + (x - off) = λ q. omega (arith, q) in
      l.bytes x lt ∙ elim (Bool-cases (leb (off + m) x)) [
        | inl q ↦ ground (arith, ap src (at (leb→le (off + m) x q)), k.bytes x lt)
        | inr q ↦ ground (arith, k.bytes x lt)
      ];
  stays = λ j jle ne. l.stays j jle (k.stays j jle ne);
  there = λ x lo hi. elim (Bool-cases (leb (off + m) x)) [
    | inl q ↦ l.there x (ground arith) hi
    | inr q ↦ l.stays (x / 512) (omega arith) (k.there x lo (ground arith))
  ];
}

Writes-none :
    (d : Disk) (ip : Inode) (tot off end : ℕ) (src : Bytes) (e : Disk) (jp : Inode)
    → Written d ip tot off end src e jp
    → (f : Disk) × (kp : Inode) × WriteRunsOut e jp f kp
    → (f : Disk) × (kp : Inode) × WriteRunsOut d ip f kp
Writes-none d ip tot off end src e jp k (f, kp, l) = (
  f,
  kp,
  record {
    file = l.file;
    rest = l.rest ∙ ap (with_addrs kp.addrs) k.rest;
    super = (l.super.0 ∙ k.super.0, l.super.1 ∙ k.super.1);
    full = l.full;
  },
)

pub write_loop-Writes :
    (rounds n tot off : ℕ) (d : Disk) (ip : Inode) (src : Bytes)
    → IsFile d ip
    → AreBytes src
    → n - tot < rounds
    → off + (n - tot) ≤ 71680
    → Writes d ip n tot off src (write_loop rounds n tot off d ip src)
unfolding write_loop
write_loop-Writes zero n tot off d ip src w bytes fuel fits = absurd (omega arith)
write_loop-Writes (suc rounds) n tot off d ip src w bytes fuel fits =
    elim (Bool-cases (ltb tot n)) [
      | inr e ↦ rw e (
        ground arith,
        record {
          file = w;
          rest = refl;
          super = (refl, refl);
          bytes = λ x lt. ground arith;
          stays = λ j le ne. ne;
          there = λ x lo hi. absurd (omega arith);
        },
      )
      | inl e ↦
          let more : tot < n = ltb→lt tot n e in
          let low : off < 71680 = omega arith in
          let maps = bmap_lem d ip (off / 512) w (omega arith) in
          elim (Option-cases (bmap ip (off / 512) d)) [
            | inl h ↦
                rw (e, h)
                  (
                    d,
                    ip,
                    record {
                      file = w;
                      rest = refl;
                      super = (refl, refl);
                      full = subst (Maps d ip (off / 512)) h maps;
                    },
                  )
            | inr ((b, f, jp), h) ↦
                let g = subst (Maps d ip (off / 512)) h maps in
                let m = portion n tot off in
                let (some_bytes, inside, whole) = portion_bounds n tot off more in
                let f' = put_block f b (move_in (f b) (off % 512) src tot m) in
                let k = round-Written d ip b f jp tot off m src g low whole bytes in
                let rest =
                  write_loop-Writes rounds n (tot + m) (off + m) f' jp src k.file bytes
                    (omega arith) (omega arith) in
                rw (e, h)
                  (elim (Option-cases (write_loop rounds n (tot + m) (off + m) f' jp src)) [
                    | inl r ↦ rw r (
                        Writes-none d ip tot off (off + m) src f' jp k
                          (subst (Writes f' jp n (tot + m) (off + m) src) r rest))
                    | inr ((end, q, kp), r) ↦
                        let (at, l) = subst (Writes f' jp n (tot + m) (off + m) src) r rest in
                        rw r (
                          omega (arith, at),
                          Written-trans d f' q ip jp kp tot off m end src (omega (arith, at))
                              (omega (arith, at)) k l,
                        )
                  ])
          ]
    ]

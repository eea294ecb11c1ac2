-- ===== src/Fs/Dir/Lookup.antt =====
-- What dirlookup finds, in terms of the bytes of the directory.
use mathlib.Core.Path.{subst}
use os_fall.Base.{
  ℕ, zero, suc, ◌+◌, ◌-◌, ◌*◌, ◌/◌, ◌≤◌, ◌<◌, ◌≡◌, sym, ap, ◌∙◌, inl, inr, true, none, some, arith,
  ltb, ltb→lt, Bool-cases, Option-cases, add32,
}
use os_fall.Str.{Bytes}
use os_fall.Fcheck.Image.{read16}
use os_fall.Fs.{Disk}
use os_fall.Fs.Inode.{Inode, bmap}
use os_fall.Fs.Inode.Slots.{byte_at, IsFile}
use os_fall.Fs.Inode.Mapping.{Mapped, Maps}
use os_fall.Fs.Inode.Bmap.{bmap_lem}
use os_fall.Fs.File.Pieces.{Kept, Kept-refl, Kept-trans, Mapped-Kept}
use os_fall.Fs.File.Reading.{RunsOut, Reads-none}
use os_fall.Fs.Dir.{is_entry, scan_dirents, Looking, look_panics, missing, entry_at, look_blocks}
use os_fall.Fs.Dir.Blocks.{
  NoneIn, whole_blocks, dirent-byte_at, block_none, NoneIn-join, entry_same,
}
use os_fall.Fs.Dir.Entries.{Scanned, scan_dirents-Scanned}

abbrev pub FirstAt : Bytes → Bytes → ℕ → ℕ → ℕ → Type 0
FirstAt name m i size o =
    (k : ℕ) × (o ≡ 16 * k)
    × (32 * i ≤ k)
    × (o < whole_blocks size)
    × (is_entry name m o ≡ true)
    × NoneIn name m i o

-- What the loop finds from the block `i` on.
abbrev pub Looks : Bytes → ℕ → Disk → Inode → Looking → Type 0
Looks name i d dp look_panics = RunsOut d dp
Looks name i d dp (missing e ep) =
    Kept d dp e ep × NoneIn name (byte_at d dp) i (whole_blocks dp.size)
Looks name i d dp (entry_at o inum e ep) =
    Kept d dp e ep × FirstAt name (byte_at d dp) i dp.size o × (inum ≡ read16 (byte_at d dp) o)

-- A block without the name, and the blocks behind it.
Looks-next :
    (name : Bytes) (i b : ℕ) (d e : Disk) (dp ep : Inode) (r : Looking)
    → i < 140
    → dp.size ≤ 71680
    → Mapped d dp i b e ep
    → NoneIn name (byte_at d dp) i (512 * i + 16 * 32)
    → Looks name (i + 1) e ep r
    → Looks name i d dp r
Looks-next name i b d e dp ep look_panics lt le m now later =
    Reads-none d dp e ep (Mapped-Kept d dp i b e ep m) later
Looks-next name i b d e dp ep (missing f fp) lt le m now (k, later) =
    let size : ep.size ≡ dp.size = ap (λ z. z.size) m.rest in
    (
      Kept-trans d e f dp ep fp (Mapped-Kept d dp i b e ep m) k,
      NoneIn-join name (byte_at d dp) (byte_at e ep) i (whole_blocks dp.size) (omega (arith, le))
          m.bytes now (subst (λ z. NoneIn name (byte_at e ep) (i + 1) (whole_blocks z)) size later)
          (omega arith),
    )
Looks-next name i b d e dp ep (entry_at o inum f fp) lt le m now
      (k, (j, at, lo, hi, hit, before), num) =
    let size : ep.size ≡ dp.size = ap (λ z. z.size) m.rest in
    let below : o < whole_blocks dp.size = subst (λ z. o < whole_blocks z) size hi in
    let (same, same_num) =
      entry_same name (byte_at d dp) (byte_at e ep) j (omega (arith, at, below, le)) m.bytes in
    (
      Kept-trans d e f dp ep fp (Mapped-Kept d dp i b e ep m) k,
      (
        j,
        at,
        omega (arith, lo),
        below,
        ap (is_entry name (byte_at d dp)) at
            ∙ sym same
            ∙ ap (is_entry name (byte_at e ep)) (sym at)
            ∙ hit,
        NoneIn-join name (byte_at d dp) (byte_at e ep) i o (omega (arith, below, le)) m.bytes now
            before (omega (arith, at)),
      ),
      num ∙ ap (read16 (byte_at e ep)) at ∙ same_num ∙ ap (read16 (byte_at d dp)) (sym at),
    )

-- An entry of the block.
Looks-here :
    (name : Bytes) (i b a : ℕ) (d e : Disk) (dp ep : Inode)
    → i < 140
    → 512 * i < dp.size
    → Mapped d dp i b e ep
    → Scanned name (e b) 0 32 (some a)
    → Looks name i d dp (entry_at (add32 (512 * i) a) (read16 (e b) a) e ep)
Looks-here name i b a d e dp ep lt low m (j, at, few, hit, before) =
    let (same, same_num) = dirent-byte_at name i b d e dp ep lt m j few in
    let o : add32 (512 * i) a ≡ 16 * (32 * i + j) = omega (arith, at) in
    (
      Mapped-Kept d dp i b e ep m,
      (
        32 * i + j,
        o,
        omega arith,
        omega (arith, o, few, low),
        ap (is_entry name (byte_at d dp)) o ∙ sym same ∙ hit,
        subst (NoneIn name (byte_at d dp) i) (omega (arith, o))
            (block_none name i b d e dp ep lt m j (omega arith) before),
      ),
      ap (read16 (e b)) at ∙ same_num ∙ ap (read16 (byte_at d dp)) (sym o),
    )

pub look_blocks-Looks :
    (rounds i : ℕ) (name : Bytes) (d : Disk) (dp : Inode)
    → IsFile d dp
    → dp.size ≤ 71680
    → i ≤ 140
    → 140 - i < rounds
    → Looks name i d dp (look_blocks rounds (512 * i) name d dp)
unfolding look_blocks
look_blocks-Looks zero i name d dp w le low fuel = absurd (omega arith)
look_blocks-Looks (suc rounds) i name d dp w le low fuel =
    elim (Bool-cases (ltb (512 * i) dp.size)) [
      | inr e ↦
          let ge : dp.size ≤ 512 * i = ground (arith, e) in
          rw e (Kept-refl d dp w, λ k lo hi. absurd (omega (arith, ge, lo, hi)))
      | inl e ↦
          let more : 512 * i < dp.size = ltb→lt (512 * i) dp.size e in
          let lt : i < 140 = omega arith in
          let at : 512 * i / 512 ≡ i = omega arith in
          let maps = bmap_lem d dp i w lt in
          elim (Option-cases (bmap dp i d)) [
            | inl h ↦ rw (e, at, h) (d, dp, Kept-refl d dp w, subst (Maps d dp i) h maps)
            | inr ((b, f, ep), h) ↦
                let m = subst (Maps d dp i) h maps in
                let scanned = scan_dirents-Scanned 32 0 name (f b) in
                elim (Option-cases (scan_dirents 32 0 name (f b))) [
                  | inl s ↦
                      let next : add32 (512 * i) 512 ≡ 512 * (i + 1) = omega arith in
                      let size : ep.size ≡ dp.size = ap (λ z. z.size) m.rest in
                      let nothing : Scanned name (f b) 0 32 none =
                        subst (Scanned name (f b) 0 32) s scanned in
                      rw (e, at, h, s, next)
                        (Looks-next name i b d f dp ep _ lt le m
                          (block_none name i b d f dp ep lt m 32 (omega arith) nothing)
                          (look_blocks-Looks rounds (i + 1) name f ep m.file (omega (arith, size))
                            (omega arith) (omega arith)))
                  | inr (a, s) ↦
                      rw (e, at, h, s)
                        (Looks-here name i b a d f dp ep lt more m
                          (subst (Scanned name (f b) 0 32) s scanned))
                ]
          ]
    ]

-- ===== src/Fs/File/Again.antt =====
-- A read behind a write of the same bytes.
use mathlib.Core.Path.{subst}
use os_fall.Base.{
  ℕ, ◌+◌, ◌-◌, ◌≤◌, ◌<◌, ◌≡◌, refl, ap, ◌∙◌, ◌≢◌, inl, inr, Bool, true, false, ◌||◌, none, some,
  arith, ltb, leb, ◌==◌, if◌then◌else◌, ltb→lt, Bool-cases, add32,
}
use os_fall.Str.{Bytes}
use os_fall.Str.Compare.{AreBytes}
use os_fall.Fs.{Disk}
use os_fall.Fs.Inode.{Inode}
use os_fall.Fs.Inode.Slots.{byte_at, IsFile}
use os_fall.Fs.File.{Answer, panics, done, read_loop, readi, writei}
use os_fall.Fs.File.Reading.{Reads, read_loop-Reads, read_loop-present}
use os_fall.Fs.File.Calls.{WrittenFile, WritesFile, writei_lem}

module _ (has : ℕ → Bool) (d e : Disk) (ip jp : Inode) (src : Bytes) (off c : ℕ)
    (plain : ip.type ≢ 3) (start : off ≤ ip.size) (whole : off + c ≤ 71680) (top : ip.size ≤ 71680)
    (k : WrittenFile d ip off c src e jp) where
  -- The size is no smaller than the end of what was written, and what is read is what was written.
  enough : (off + c ≤ jp.size) × (jp.size ≤ 71680)
  enough = ground (arith, ap (λ z. z.size) k.rest)

  same_type : jp.type ≡ ip.type
  same_type = ap (λ z. z.type) k.rest

  runs_readi :
      (dst out : Bytes)
      → read_loop (c + 1) c 0 off e jp dst ≡ some (e, jp, out)
      → readi has e jp dst off c ≡ done c (e, jp, out)
  unfolding readi
  runs_readi dst out runs =
      let type_test : (jp.type == 3) ≡ false = ground (arith, same_type) in
      let range_test : (ltb jp.size off || ltb (add32 off c) off) ≡ false =
        ground (arith, enough) in
      let count : (if ltb jp.size (add32 off c) then jp.size - off else c) ≡ c =
        ground (arith, enough) in
      rw (type_test, range_test)
        (ap {B = Answer (Disk × Inode × Bytes)}
            (λ z. elim (read_loop (z + 1) z 0 off e jp dst) [ none ↦ panics | some r ↦ done z r ])
            count
          ∙ rw runs refl)

  written_bytes : (x : ℕ) → x < c → byte_at e jp (off + x) ≡ src x
  written_bytes x lt =
      let back : off + x - off ≡ x = omega arith in
      k.bytes (off + x) (omega arith) ∙ ground (arith, ap src back)

  read_back :
      (dst : Bytes)
      → (out : Bytes) × (readi has e jp dst off c ≡ done c (e, jp, out))
        × ((x : ℕ) → out x ≡ (if ltb x c then src x else dst x))
  read_back dst =
      let (out, runs) =
        read_loop-present (c + 1) c 0 off e jp dst (omega arith) (omega arith)
          (λ x lo hi. k.there x lo (omega arith)) in
      let (kept, filled) =
        subst (Reads e jp c 0 off dst) runs
          (read_loop-Reads (c + 1) c 0 off e jp dst k.file (omega arith) (omega arith)) in
      (
        out,
        runs_readi dst out runs,
        λ x. filled x ∙ elim (Bool-cases (ltb x c)) [
          | inl q ↦
              let lowest : leb 0 x ≡ true = ground arith in
              let same : x - 0 ≡ x = omega arith in
              rw (q, lowest, same) (written_bytes x (ltb→lt x c q))
          | inr q ↦ ground (arith, q)
        ],
      )

-- What writei has written, a readi of as many bytes at the same offset reads back, without a panic and
-- with nothing changed, and no other place of the buffer is touched. The file has at most MAXFILE blocks,
-- and the disk is as IsFile says.
pub readi-writei :
    (has : ℕ → Bool) (d e : Disk) (ip jp : Inode) (src dst : Bytes) (off n c : ℕ)
    → IsFile d ip
    → ip.size ≤ 71680
    → AreBytes src
    → off < 4294967296
    → n < 4294967296
    → writei has d ip src off n ≡ done c (e, jp)
    → (out : Bytes) × (readi has e jp dst off c ≡ done c (e, jp, out))
      × ((x : ℕ) → out x ≡ (if ltb x c then src x else dst x))
readi-writei has d e ip jp src dst off n c w top bytes ho hn h =
    let (range, count, k) =
      subst (WritesFile has d ip src off n) h (writei_lem has d ip w top src off n bytes ho hn) in
    read_back has d e ip jp src off c range.0 range.1 (ground arith) top k dst

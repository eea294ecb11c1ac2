-- ===== src/Fs/File/Reading.antt =====
-- readi against the bytes of a file.
use mathlib.Core.Path.{subst}
use os_fall.Base.{
  ℕ, zero, suc, ◌+◌, ◌-◌, ◌/◌, ◌%◌, ◌≤◌, ◌<◌, ◌≡◌, refl, ◌∙◌, ◌≢◌, inl, inr, true, false, ◌&&◌,
  Option, none, some, arith, ltb, leb, if◌then◌else◌, ltb→lt, Bool-cases, Option-cases,
}
use os_fall.Str.{Bytes}
use os_fall.Fs.{Disk}
use os_fall.Fs.Inode.{Inode, bmap}
use os_fall.Fs.Inode.Slots.{slot, byte_at, IsFile}
use os_fall.Fs.Inode.Mapping.{Maps, AlmostFull}
use os_fall.Fs.Inode.Bmap.{bmap_lem, bmap-present}
use os_fall.Fs.File.{move_in, portion, read_loop}
use os_fall.Fs.File.Pieces.{Kept, Kept-refl, Kept-trans, Mapped-Kept, portion_bounds, piece-byte_at}

-- A run has left the disk with at most one free block.
abbrev pub RunsOut : Disk → Inode → Type 0
RunsOut d ip = (e : Disk) × (jp : Inode) × Kept d ip e jp × AlmostFull e

-- The places of `dst` from `tot` to `n` hold the bytes of the file from `off` on.
abbrev pub Filled : Disk → Inode → ℕ → ℕ → ℕ → Bytes → Bytes → Type 0
Filled d ip n tot off dst out =
    (x : ℕ) → out x ≡ (if leb tot x && ltb x n then byte_at d ip (off + (x - tot)) else dst x)

abbrev pub Reads : Disk → Inode → ℕ → ℕ → ℕ → Bytes → Option (Disk × Inode × Bytes) → Type 0
Reads d ip n tot off dst none = RunsOut d ip
Reads d ip n tot off dst (some (e, jp, out)) = Kept d ip e jp × Filled d ip n tot off dst out

pub Reads-none :
    (d : Disk) (ip : Inode) (e : Disk) (jp : Inode) → Kept d ip e jp → RunsOut e jp → RunsOut d ip
Reads-none d ip e jp k (f, kp, l, full) = (f, kp, Kept-trans d e f ip jp kp k l, full)

-- A round and the rounds behind it.
Filled-step :
    (d : Disk) (ip : Inode) (e : Disk) (jp : Inode) (b n tot off m : ℕ) (dst out : Bytes)
    → off + (n - tot) ≤ 71680
    → tot + m ≤ n
    → ((x : ℕ) → x < 71680 → byte_at e jp x ≡ byte_at d ip x)
    → ((y : ℕ) → y < m → e b (off % 512 + y) ≡ byte_at e jp (off + y))
    → Filled e jp n (tot + m) (off + m) (move_in dst tot (e b) (off % 512) m) out
    → Filled d ip n tot off dst out
Filled-step d ip e jp b n tot off m dst out fits le same piece h x =
    elim (Bool-cases (leb tot x && ltb x n)) [
      | inr q ↦ rw q (h x ∙ ground arith)
      | inl q ↦ elim (Bool-cases (ltb x (tot + m))) [
        | inl l ↦
            let later : (leb (tot + m) x && ltb x n) ≡ false = ground arith in
            let now : (leb tot x && ltb x (tot + m)) ≡ true = ground arith in
            rw q (
              h x
              ∙ rw (later, now)
                  (piece (x - tot) (ground arith) ∙ same (off + (x - tot)) (ground arith)))
        | inr l ↦
            let later : (leb (tot + m) x && ltb x n) ≡ true = ground arith in
            let at : off + m + (x - (tot + m)) ≡ off + (x - tot) = ground arith in
            rw q (h x ∙ rw (later, at) (same (off + (x - tot)) (ground arith)))
      ]
    ]

pub read_loop-Reads :
    (rounds n tot off : ℕ) (d : Disk) (ip : Inode) (dst : Bytes)
    → IsFile d ip
    → n - tot < rounds
    → off + (n - tot) ≤ 71680
    → Reads d ip n tot off dst (read_loop rounds n tot off d ip dst)
unfolding read_loop
read_loop-Reads zero n tot off d ip dst w fuel fits = absurd (omega arith)
read_loop-Reads (suc rounds) n tot off d ip dst w fuel fits = elim (Bool-cases (ltb tot n)) [
  | inr e ↦ rw e (Kept-refl d ip w, λ x. ground arith)
  | inl e ↦
      let more : tot < n = ltb→lt tot n e in
      let low : off < 71680 = omega arith in
      let maps = bmap_lem d ip (off / 512) w (omega arith) in
      elim (Option-cases (bmap ip (off / 512) d)) [
        | inl h ↦ rw (e, h) (d, ip, Kept-refl d ip w, subst (Maps d ip (off / 512)) h maps)
        | inr ((b, f, jp), h) ↦
            let m = subst (Maps d ip (off / 512)) h maps in
            let k = Mapped-Kept d ip (off / 512) b f jp m in
            let p = portion n tot off in
            let (some_bytes, inside, whole) = portion_bounds n tot off more in
            let dst' = move_in dst tot (f b) (off % 512) p in
            let rest =
              read_loop-Reads rounds n (tot + p) (off + p) f jp dst' m.file (omega arith)
                (omega arith) in
            rw (e, h)
              (elim (Option-cases (read_loop rounds n (tot + p) (off + p) f jp dst')) [
                | inl r ↦
                    rw r (
                      Reads-none d ip f jp k (subst (Reads f jp n (tot + p) (off + p) dst') r rest))
                | inr ((g, kp, out), r) ↦
                    let (l, filled) = subst (Reads f jp n (tot + p) (off + p) dst') r rest in
                    rw r (
                      Kept-trans d f g ip jp kp k l,
                      Filled-step d ip f jp b n tot off p dst out fits inside m.bytes
                          (piece-byte_at off b f jp m.file low m.at m.some_block p whole) filled,
                    )
              ])
      ]
]

-- A read of blocks that the file has changes nothing.
pub read_loop-present :
    (rounds n tot off : ℕ) (d : Disk) (ip : Inode) (dst : Bytes)
    → n - tot < rounds
    → off + (n - tot) ≤ 71680
    → ((x : ℕ) → off ≤ x → x < off + (n - tot) → slot d ip (x / 512) ≢ 0)
    → (out : Bytes) × (read_loop rounds n tot off d ip dst ≡ some (d, ip, out))
unfolding read_loop
read_loop-present zero n tot off d ip dst fuel fits there = absurd (omega arith)
read_loop-present (suc rounds) n tot off d ip dst fuel fits there = elim (Bool-cases (ltb tot n)) [
  | inr e ↦ (dst, rw e refl)
  | inl e ↦
      let more : tot < n = ltb→lt tot n e in
      let found =
        bmap-present d ip (off / 512) (omega arith) (there off (omega arith) (omega arith)) in
      let p = portion n tot off in
      let (some_bytes, inside, whole) = portion_bounds n tot off more in
      let (out, runs) =
        read_loop-present rounds n (tot + p) (off + p) d ip
          (move_in dst tot (d (slot d ip (off / 512))) (off % 512) p) (omega arith) (omega arith)
          (λ x lo hi. there x (omega arith) (omega arith)) in
      (out, rw (e, found) runs)
]

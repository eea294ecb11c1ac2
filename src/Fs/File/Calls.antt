-- ===== src/Fs/File/Calls.antt =====
-- readi and writei against the bytes of a file.
use mathlib.Core.Path.{subst}
use os_fall.Base.{
  ℕ, ◌+◌, ◌-◌, ◌/◌, ◌≤◌, ◌<◌, ◌≡◌, sym, ap, ◌∙◌, ◌≢◌, ◌⊎◌, inl, inr, Bool, true, false, ◌&&◌, ◌||◌,
  none, some, arith, ltb, leb, ◌==◌, if◌then◌else◌, Bool-cases, Option-cases, add32, sub32,
}
use os_fall.Str.{Bytes}
use os_fall.Str.Compare.{AreBytes}
use os_fall.Fs.{Disk}
use os_fall.Fs.Inode.{Inode}
use os_fall.Fs.Inode.Slots.{slot, byte_at, IsFile}
use os_fall.Fs.File.{
  ndev, max_bytes, Answer, refused, device, panics, done, read_loop, readi, write_loop, update_size,
  writei,
}
use os_fall.Fs.File.Pieces.{Kept}
use os_fall.Fs.File.Reading.{RunsOut, Reads, read_loop-Reads}
use os_fall.Fs.File.Writing.{Written, WriteRunsOut, Writes, write_loop-Writes}
use os_fall.Fs.File.Size.{new_size, Sized, update_size-Sized}

-- Why a call returns -1: the device has no such function, or the offset lies behind the end of the file
-- or the range wraps.
abbrev pub IsRefused : (ℕ → Bool) → Inode → ℕ → ℕ → Type 0
IsRefused has ip off n =
    ((ip.type ≡ 3) × ((ip.major < ndev) → has ip.major ≡ false))
    ⊎ ((ip.type ≢ 3) × ((ip.size < off) ⊎ (4294967296 ≤ off + n)))

-- The function of a device answers.
abbrev pub IsDevice : (ℕ → Bool) → Inode → ℕ → Type 0
IsDevice has ip m = (ip.type ≡ 3) × (m ≡ ip.major) × (m < ndev) × (has m ≡ true)

-- The range that a call takes.
abbrev pub InRange : Inode → ℕ → ℕ → Type 0
InRange ip off n = (ip.type ≢ 3) × (off ≤ ip.size) × (off + n < 4294967296)

abbrev pub ReadsFile :
    (ℕ → Bool) → Disk → Inode → Bytes → ℕ → ℕ → Answer (Disk × Inode × Bytes) → Type 0
ReadsFile has d ip dst off n refused = IsRefused has ip off n
ReadsFile has d ip dst off n (device m) = IsDevice has ip m
ReadsFile has d ip dst off n panics = InRange ip off n × RunsOut d ip
ReadsFile has d ip dst off n (done c (e, jp, out)) =
    InRange ip off n
    × (c ≡ (if ltb ip.size (off + n) then ip.size - off else n))
    × Kept d ip e jp
    × ((x : ℕ) → out x ≡ (if ltb x c then byte_at d ip (off + x) else dst x))

read_part :
    (has : ℕ → Bool) (d : Disk) (ip : Inode) (dst : Bytes) (off n c : ℕ)
    → InRange ip off n
    → c ≡ (if ltb ip.size (off + n) then ip.size - off else n)
    → Reads d ip c 0 off dst (read_loop (c + 1) c 0 off d ip dst)
    → ReadsFile has d ip dst off n
        (elim (read_loop (c + 1) c 0 off d ip dst) [ none ↦ panics | some r ↦ done c r ])
read_part has d ip dst off n c range count h =
    elim (Option-cases (read_loop (c + 1) c 0 off d ip dst)) [
      | inl r ↦ rw r (range, subst (Reads d ip c 0 off dst) r h)
      | inr ((e, jp, out), r) ↦
          let (kept, filled) = subst (Reads d ip c 0 off dst) r h in
          rw r (range, count, kept, λ x. filled x ∙ ground arith)
    ]

out_of_range :
    (ip : Inode) (off n : ℕ)
    → (ltb ip.size off || ltb (add32 off n) off) ≡ true
    → (ip.size < off) ⊎ (4294967296 ≤ off + n)
out_of_range ip off n q = elim (Bool-cases (ltb ip.size off)) [
  | inl l ↦ inl (ground arith)
  | inr l ↦ inr (ground arith)
]

-- The file after a write of `c` bytes: the bytes are there, and the others and all but the size and the
-- addresses of the inode are as they were.
pub record WrittenFile (d : Disk) (ip : Inode) (off c : ℕ) (src : Bytes) (e : Disk) (jp : Inode)
    : Type 0 where
  pub file : IsFile e jp
  pub rest : jp ≡ record ip { addrs = jp.addrs; size = new_size c (off + c) ip }
  pub bytes :
      (x : ℕ)
      → x < 71680
      → byte_at e jp x ≡ (if leb off x && ltb x (off + c) then src (x - off) else byte_at d ip x)
  pub there : (x : ℕ) → off ≤ x → x < off + c → slot e jp (x / 512) ≢ 0

abbrev pub WritesFile : (ℕ → Bool) → Disk → Inode → Bytes → ℕ → ℕ → Answer (Disk × Inode) → Type 0
WritesFile has d ip src off n refused = IsRefused has ip off n
WritesFile has d ip src off n (device m) = IsDevice has ip m
WritesFile has d ip src off n panics =
    InRange ip off n × (e : Disk) × (jp : Inode) × WriteRunsOut d ip e jp
WritesFile has d ip src off n (done c (e, jp)) =
    InRange ip off n
    × (c ≡ (if ltb 71680 (off + n) then 71680 - off else n))
    × WrittenFile d ip off c src e jp

abbrev sized : ℕ → ℕ → Inode → Inode
sized c end ip = record ip { size = new_size c end ip }

abbrev with_both : (ℕ → ℕ) → ℕ → Inode → Inode
with_both addrs size ip = record ip { addrs = addrs; size = size }

Sized-WrittenFile :
    (d : Disk) (ip : Inode) (off c end : ℕ) (src : Bytes) (e : Disk) (jp : Inode) (f : Disk)
    (kp : Inode)
    → end ≡ off + c
    → off + c ≤ 71680
    → Written d ip 0 off end src e jp
    → Sized c end e jp f kp
    → WrittenFile d ip off c src f kp
Sized-WrittenFile d ip off c end src e jp f kp at top k s = record {
  file = s.file;
  rest =
      s.rest
      ∙ ap (sized c end) k.rest
      ∙ ap (λ z. with_both jp.addrs (new_size c z ip) ip) at
      ∙ ap (λ z. with_both z (new_size c (off + c) ip) ip) (sym (ap (λ z. z.addrs) s.rest));
  bytes = λ x lt. s.bytes x lt ∙ k.bytes x lt ∙ ground (arith, at);
  there = λ x lo hi z. k.there x lo (omega (arith, at)) (sym (s.slots (x / 512) (omega arith)) ∙ z);
}

write_part :
    (has : ℕ → Bool) (d : Disk) (ip : Inode) (src : Bytes) (off n c : ℕ)
    → InRange ip off n
    → (c ≡ (if ltb 71680 (off + n) then 71680 - off else n)) × (off + c ≤ 71680)
    → Writes d ip c 0 off src (write_loop (c + 1) c 0 off d ip src)
    → WritesFile has d ip src off n (elim (write_loop (c + 1) c 0 off d ip src) [
      | none ↦ panics
      | some (end, e, jp) ↦ done c (update_size c end e jp)
    ])
write_part has d ip src off n c range count h =
    elim (Option-cases (write_loop (c + 1) c 0 off d ip src)) [
      | inl r ↦ let (e, jp, l) = subst (Writes d ip c 0 off src) r h in rw r (range, e, jp, l)
      | inr ((end, e, jp), r) ↦
          let (at, written) = subst (Writes d ip c 0 off src) r h in
          rw r (
            range,
            count.0,
            Sized-WrittenFile d ip off c end src e jp (update_size c end e jp).0
                (update_size c end e jp).1 (omega (arith, at)) count.1 written
                (update_size-Sized c end e jp written.file),
          )
    ]

module _ (has : ℕ → Bool) (d : Disk) (ip : Inode) (w : IsFile d ip) (top : ip.size ≤ 71680) where
  -- readi of a file of at most MAXFILE blocks: what it returns on every branch. It gives the bytes from
  -- `off` on, as many as are asked for or as the file has, and changes no other place of the buffer and no
  -- byte of the file; it panics only once at most one block of the disk is free.
  pub readi_lem :
      (dst : Bytes) (off n : ℕ)
      → off < 4294967296
      → n < 4294967296
      → ReadsFile has d ip dst off n (readi has d ip dst off n)
  unfolding readi
  readi_lem dst off n ho hn = elim (Bool-cases (ip.type == 3)) [
    | inl e ↦ elim (Bool-cases (ltb ip.major ndev && has ip.major)) [
      | inl q ↦ rw (e, q) (ground arith)
      | inr q ↦ rw (e, q) (inl (ground arith, λ lt. ground arith))
    ]
    | inr e ↦ elim (Bool-cases (ltb ip.size off || ltb (add32 off n) off)) [
      | inl q ↦ rw (e, q) (inr (ground arith, out_of_range ip off n q))
      | inr q ↦
          let c = if ltb ip.size (add32 off n) then ip.size - off else n in
          let range : InRange ip off n = (ground arith, ground arith, ground arith) in
          rw (e, q)
            (read_part has d ip dst off n c range (ground arith)
              (read_loop-Reads (c + 1) c 0 off d ip dst w (omega arith) (ground arith)))
    ]
  ]

  -- writei of a file of at most MAXFILE blocks: what it returns on every branch. It takes the bytes that
  -- the largest file has room for and puts them at `off` on; no other byte of the file changes, its size
  -- grows to their end if it was less, and all else of the inode but its addresses stays. It panics only
  -- once at most one block of the disk is free.
  pub writei_lem :
      (src : Bytes) (off n : ℕ)
      → AreBytes src
      → off < 4294967296
      → n < 4294967296
      → WritesFile has d ip src off n (writei has d ip src off n)
  unfolding writei
  writei_lem src off n bytes ho hn = elim (Bool-cases (ip.type == 3)) [
    | inl e ↦ elim (Bool-cases (ltb ip.major ndev && has ip.major)) [
      | inl q ↦ rw (e, q) (ground arith)
      | inr q ↦ rw (e, q) (inl (ground arith, λ lt. ground arith))
    ]
    | inr e ↦ elim (Bool-cases (ltb ip.size off || ltb (add32 off n) off)) [
      | inl q ↦ rw (e, q) (inr (ground arith, out_of_range ip off n q))
      | inr q ↦
          let c = if ltb max_bytes (add32 off n) then sub32 max_bytes off else n in
          let range : InRange ip off n = (ground arith, ground arith, ground arith) in
          rw (e, q)
            (write_part has d ip src off n c range (ground arith)
              (write_loop-Writes (c + 1) c 0 off d ip src w bytes (omega arith) (ground arith)))
    ]
  ]

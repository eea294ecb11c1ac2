-- ===== src/Fs/File.antt =====
-- readi and writei of fs.c: the bytes of a file. Another array of bytes stands at the caller's pointer.
pub mod Pieces
pub mod Reading
pub mod Writing
pub mod Size
pub mod Calls
pub mod Again
mod Tests
use os_fall.Base.{
  ℕ, zero, suc, ◌+◌, ◌-◌, ◌*◌, ◌/◌, ◌%◌, ◌^◌, ◌≤◌, ◌<◌, min, ◌≡◌, refl, sym, ap, ◌∙◌, ◌≢◌, ◌↔◌, ◌⊎◌,
  inl, inr, Bool, true, false, not, ◌&&◌, ◌||◌, Option, none, some, List, [], ◌∷◌, ◌++◌, map, arith,
  ltb, leb, ◌==◌, if◌then◌else◌, ltb→lt, leb→le, ==_iff, Bool-cases, Option-cases, length,
  get_elem?, get_or, set, take, replicate, modify, find_index, length-append, find_index_lem,
  length-set, length-modify, modify-modify, get_elem?-set_self, get_elem?-set_ne,
  get_elem?-modify_self, get_elem?-modify_ne, get_elem?-lt, length-replicate, word_size, add32,
  sub32, slt, slt-ltb, add32-sub32,
}
use os_fall.Str.{Bytes}
use os_fall.Fs.{Disk, put_block}
use os_fall.Fs.Inode.{Inode, bmap, iupdate}

-- T_DEV, NDEV, MAXFILE*BSIZE
abbrev pub t_dev : ℕ
t_dev = 3

abbrev pub ndev : ℕ
ndev = 10

abbrev pub max_bytes : ℕ
max_bytes = 71680

-- `memmove` of `n` bytes from one array to another.
abbrev pub move_in : Bytes → ℕ → Bytes → ℕ → ℕ → Bytes
move_in dst at src from n x = if leb at x && ltb x (at + n) then src (from + (x - at)) else dst x

-- `m = min(n - tot, BSIZE - off%BSIZE)`
abbrev pub portion : ℕ → ℕ → ℕ → ℕ
portion n tot off = if leb (n - tot) (512 - off % 512) then n - tot else 512 - off % 512

-- How a call ends: it returns -1, the function of a device answers, it panics, or it returns a count.
pub data Answer (A : Type 0) : Type 0 where
  refused : Answer A
  device : ℕ → Answer A
  panics : Answer A
  done : ℕ → A → Answer A

-- The loop of readi. `none` is the panic of bmap.
pub read_loop : ℕ → ℕ → ℕ → ℕ → Disk → Inode → Bytes → Option (Disk × Inode × Bytes)
read_loop zero n tot off d ip dst = none
read_loop (suc rounds) n tot off d ip dst =
    if ltb tot n
    then elim (bmap ip (off / 512) d) [
      | none ↦ none
      | some (b, e, jp) ↦
          let m = portion n tot off in
          read_loop rounds n (tot + m) (off + m) e jp (move_in dst tot (e b) (off % 512) m)
    ]
    else some (d, ip, dst)

-- `ip->major < 0 || ip->major >= NDEV || !devsw[ip->major].read`, where `has` tells the devices that have
-- the function.
abbrev pub device_answer : {A : Type 0} → (ℕ → Bool) → Inode → Answer A
device_answer has ip = if ltb ip.major ndev && has ip.major then device ip.major else refused

-- A round moves a byte at least, so that `n` rounds and one to end the loop suffice.
pub readi : (ℕ → Bool) → Disk → Inode → Bytes → ℕ → ℕ → Answer (Disk × Inode × Bytes)
readi has d ip dst off n =
    if ip.type == t_dev
    then device_answer has ip
    else if ltb ip.size off || ltb (add32 off n) off
    then refused
    else (let count = if ltb ip.size (add32 off n) then ip.size - off else n in
        elim (read_loop (count + 1) count 0 off d ip dst) [ none ↦ panics | some r ↦ done count r ])

-- The loop of writei.
pub write_loop : ℕ → ℕ → ℕ → ℕ → Disk → Inode → Bytes → Option (ℕ × Disk × Inode)
write_loop zero n tot off d ip src = none
write_loop (suc rounds) n tot off d ip src =
    if ltb tot n
    then elim (bmap ip (off / 512) d) [
      | none ↦ none
      | some (b, e, jp) ↦
          let m = portion n tot off in
          write_loop rounds n (tot + m) (off + m)
            (put_block e b (move_in (e b) (off % 512) src tot m)) jp src
    ]
    else some (off, d, ip)

-- The last lines of writei, with the offset behind the bytes.
pub update_size : ℕ → ℕ → Disk → Inode → Disk × Inode
update_size n off d ip =
    if ltb 0 n && ltb ip.size off
    then (let jp : Inode = record ip { size = off } in (iupdate jp d, jp))
    else (d, ip)

pub writei : (ℕ → Bool) → Disk → Inode → Bytes → ℕ → ℕ → Answer (Disk × Inode)
writei has d ip src off n =
    if ip.type == t_dev
    then device_answer has ip
    else if ltb ip.size off || ltb (add32 off n) off
    then refused
    else (let count = if ltb max_bytes (add32 off n) then sub32 max_bytes off else n in
        elim (write_loop (count + 1) count 0 off d ip src) [
          | none ↦ panics
          | some (end, e, jp) ↦ done count (update_size count end e jp)
        ])

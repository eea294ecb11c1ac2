-- ===== src/Fs/Dir/Answers.antt =====
-- What dirlookup answers.
use os_fall.Base.{
  ℕ, ◌*◌, ◌/◌, ◌%◌, ◌≤◌, ◌<◌, ◌≡◌, refl, sym, ap, ◌∙◌, ◌≢◌, ◌⊎◌, inl, inr, false, not, Option, none,
  some, List, arith, ◌==◌, ==_iff, Bool-cases,
}
use os_fall.Str.{Bytes}
use os_fall.Str.Compare.{AreBytes}
use os_fall.Fcheck.Image.{read16}
use os_fall.Fs.{Disk}
use os_fall.Fs.Inode.{Inode}
use os_fall.Fs.Inode.Slots.{slot, byte_at, byte_at-none, byte_at-some, IsFile}
use os_fall.Fs.Icache.{iget}
use os_fall.Fs.File.Pieces.{Kept}
use os_fall.Fs.File.Reading.{RunsOut}
use os_fall.Fs.Dir.{
  type_dir, Looking, look_panics, missing, entry_at, look_blocks, settle_lookup, settle_entry,
  Found, stops, absent, found, dirlookup,
}
use os_fall.Fs.Dir.Entries.{IsEntry, is_entry-IsEntry}
use os_fall.Fs.Dir.Blocks.{NoneIn, whole_blocks}
use os_fall.Fs.Dir.Lookup.{Looks, FirstAt, look_blocks-Looks}

-- Before the offset `end` no entry in use has the name.
abbrev pub NoEntry : Bytes → Bytes → ℕ → Type 0
NoEntry name m end = (k : ℕ) → 16 * k < end → ¬ IsEntry name m (16 * k)

-- The first entry in use that has the name is at `o`, in a block that the directory has bytes in.
abbrev pub FirstEntry : Bytes → Bytes → ℕ → ℕ → Type 0
FirstEntry name m size o =
    (o % 16 ≡ 0) × (o < whole_blocks size) × IsEntry name m o × NoEntry name m o

abbrev pub LooksUp : Bytes → List Inode → Disk → Inode → Found → Type 0
LooksUp name ips d dp stops =
    RunsOut d dp
    ⊎ ((o : ℕ) × FirstEntry name (byte_at d dp) dp.size o
        × (iget dp.dev (read16 (byte_at d dp) o) ips ≡ none))
LooksUp name ips d dp (absent e ep) =
    Kept d dp e ep × NoEntry name (byte_at d dp) (whole_blocks dp.size)
LooksUp name ips d dp (found i o js e ep) =
    Kept d dp e ep
    × FirstEntry name (byte_at d dp) dp.size o
    × (iget dp.dev (read16 (byte_at d dp) o) ips ≡ some (i, js))

byte_at-AreBytes : (d : Disk) (dp : Inode) → IsFile d dp → AreBytes (byte_at d dp)
byte_at-AreBytes d dp w x = elim (Bool-cases (slot d dp (x / 512) == 0)) [
  | inl e ↦
      let zero_byte = byte_at-none d dp x ((==_iff (slot d dp (x / 512)) 0).0 e) in
      omega (arith, zero_byte)
  | inr e ↦
      let there : slot d dp (x / 512) ≢ 0 = ground (arith, e) in
      let at = byte_at-some d dp x (slot d dp (x / 512)) refl there in
      let small = w.disk.bytes (slot d dp (x / 512)) (x % 512) in omega (arith, at, small)
]

module _ (name : Bytes) (d : Disk) (dp : Inode) (w : IsFile d dp) (hn : AreBytes name) where
  NoneIn-NoEntry : (end : ℕ) → NoneIn name (byte_at d dp) 0 end → NoEntry name (byte_at d dp) end
  NoneIn-NoEntry end h k lt is =
      let hit = (is_entry-IsEntry name (byte_at d dp) (16 * k) hn (byte_at-AreBytes d dp w)).1 is in
      let miss = h k (omega arith) lt in ground (arith, hit, miss)

  FirstAt-FirstEntry :
      (o : ℕ) → FirstAt name (byte_at d dp) 0 dp.size o → FirstEntry name (byte_at d dp) dp.size o
  FirstAt-FirstEntry o (k, at, lo, hi, hit, before) = (
    omega (arith, at),
    hi,
    (is_entry-IsEntry name (byte_at d dp) o hn (byte_at-AreBytes d dp w)).0 hit,
    NoneIn-NoEntry o before,
  )

  settle_entry-LooksUp :
      (ips : List Inode) (o : ℕ) (e : Disk) (ep : Inode) (r : Option (ℕ × List Inode))
      → Kept d dp e ep
      → FirstEntry name (byte_at d dp) dp.size o
      → iget dp.dev (read16 (byte_at d dp) o) ips ≡ r
      → LooksUp name ips d dp (settle_entry o e ep r)
  settle_entry-LooksUp ips o e ep none k entry h = inr (o, entry, h)
  settle_entry-LooksUp ips o e ep (some (i, js)) k entry h = (k, entry, h)

  settle-LooksUp :
      (ips : List Inode) (r : Looking)
      → Looks name 0 d dp r
      → LooksUp name ips d dp (settle_lookup ips r)
  settle-LooksUp ips look_panics h = inl h
  settle-LooksUp ips (missing e ep) (k, none_there) =
      (k, NoneIn-NoEntry (whole_blocks dp.size) none_there)
  settle-LooksUp ips (entry_at o inum e ep) (k, first, num) =
      settle_entry-LooksUp ips o e ep (iget ep.dev inum ips) k (FirstAt-FirstEntry o first) (
        ap {B = Option (ℕ × List Inode)} (λ z. iget z (read16 (byte_at d dp) o) ips)
          (sym (ap (λ z. z.dev) k.rest))
        ∙ ap (λ z. iget ep.dev z ips) (sym num))

-- dirlookup in a directory of at most MAXFILE blocks: what it answers on every branch. It finds the first
-- entry in use whose name agrees with the name up to a NUL or 14 bytes, and answers with its offset and
-- what iget gives for its number; it answers that there is none only if no entry up to the end of the
-- last block agrees. The bytes of the directory stay. It panics only once at most one block of the
-- disk is free, or if iget does so for that entry.
pub dirlookup_lem :
    (name : Bytes) (ips : List Inode) (d : Disk) (dp : Inode)
    → AreBytes name
    → IsFile d dp
    → dp.type ≡ type_dir
    → dp.size ≤ 71680
    → LooksUp name ips d dp (dirlookup name ips d dp)
unfolding dirlookup
dirlookup_lem name ips d dp hn w dir le =
    let test : (not (dp.type == type_dir)) ≡ false = ground (arith, dir) in
    rw test (
      settle-LooksUp name d dp w hn ips (look_blocks 141 0 name d dp)
        (look_blocks-Looks 141 0 name d dp w le (omega arith) (omega arith)))

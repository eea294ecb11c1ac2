-- ===== src/Fs/Inode/Bmap.antt =====
-- bmap: the address of a block of a file, with a fresh block where there was none.
use mathlib.Core.Path.{subst}
use os_fall.Base.{
  ℕ, ◌+◌, ◌-◌, ◌*◌, ◌<◌, ◌≡◌, refl, sym, ap, ◌∙◌, ◌≢◌, inl, inr, true, false, Option, none, some,
  arith, ltb, ◌==◌, ltb→lt, Bool-cases, Option-cases,
}
use os_fall.Fcheck.Image.{read32}
use os_fall.Fs.{Disk}
use os_fall.Fs.Inode.{Inode, direct_block, indirect_block, bmap}
use os_fall.Fs.Inode.Slots.{entry, slot, IsFile, slot-direct, slot-entry, slot-last}
use os_fall.Fs.Inode.Extend.{direct-Grown, indirect-Grown}
use os_fall.Fs.Inode.Mapping.{
  IsFull, AlmostFull, Mapped, Maps, MapsOnce, direct_block-MapsOnce, indirect_block-MapsOnce,
}

abbrev with_addrs : (ℕ → ℕ) → Inode → Inode
with_addrs addrs ip = record ip { addrs = addrs }

no_entry : (d : Disk) (ip : Inode) (k : ℕ) → k < 128 → ip.addrs 12 ≡ 0 → slot d ip (12 + k) ≡ 0
no_entry d ip k low h = slot-entry d ip k low ∙ rw h refl

-- The indirect block first, and then the entry.
chain-Maps :
    (d e : Disk) (ip jp : Inode) (a k : ℕ) (o : Option (ℕ × Disk × Inode))
    → k < 128
    → Mapped d ip 140 a e jp
    → (IsFull e → AlmostFull d)
    → MapsOnce e jp (12 + k) o
    → Maps d ip (12 + k) o
chain-Maps d e ip jp a k none low m nearly full = nearly full
chain-Maps d e ip jp a k (some (b, f, kp)) low m nearly (l, _) = record {
  file = l.file;
  at = l.at;
  some_block = l.some_block;
  bytes = λ x lt. l.bytes x lt ∙ m.bytes x lt;
  rest = l.rest ∙ ap (with_addrs kp.addrs) m.rest;
  super = (l.super.0 ∙ m.super.0, l.super.1 ∙ m.super.1);
  stays = λ j le ne. l.stays j le (m.stays j le ne);
  present = λ ne.
      let had : slot d ip 140 ≢ 0 = λ z. ne (no_entry d ip k low (sym (slot-last d ip) ∙ z)) in
      let (same_disk, same_inode) = m.present had in
      let same_slot : slot e jp (12 + k) ≡ slot d ip (12 + k) =
        ap (λ z. slot z jp (12 + k)) same_disk ∙ ap (λ z. slot d z (12 + k)) same_inode in
      let (disk_kept, inode_kept) = l.present (λ z. ne (sym same_slot ∙ z)) in
      (disk_kept ∙ same_disk, inode_kept ∙ same_inode);
}

once-Maps :
    (d : Disk) (ip : Inode) (i : ℕ) (o : Option (ℕ × Disk × Inode))
    → MapsOnce d ip i o
    → Maps d ip i o
once-Maps d ip i none h = (0, λ j lt ne. h j lt)
once-Maps d ip i (some (b, e, jp)) h = h.0

through_indirect :
    (d : Disk) (ip : Inode) (k : ℕ)
    → IsFile d ip
    → k < 128
    → Maps d ip (12 + k) (elim (direct_block 12 d ip) [
      | none ↦ none
      | some (addr, e, jp) ↦ indirect_block addr k e jp
    ])
through_indirect d ip k w low =
    let first =
      direct_block-MapsOnce d ip w 12 140 (slot-last d ip)
        (λ b e a inside z. indirect-Grown d ip w b e a inside z) in
    elim (Option-cases (direct_block 12 d ip)) [
      | inl h ↦ rw h (once-Maps d ip (12 + k) none (subst (MapsOnce d ip 140) h first))
      | inr ((a, e, jp), h) ↦
          let (m, nearly) = subst (MapsOnce d ip 140) h first in
          let at : jp.addrs 12 ≡ a = sym (slot-last e jp) ∙ m.at in
          let second = indirect_block-MapsOnce e jp m.file k low (λ z. m.some_block (sym at ∙ z)) in
          rw h (
            chain-Maps d e ip jp a k (indirect_block a k e jp) low m nearly
              (subst (λ z. MapsOnce e jp (12 + k) (indirect_block z k e jp)) at second))
    ]

-- bmap of a block below the 140 that a file can have gives its address. It panics only if at most one
-- block of the disk is free. If the file had the block, nothing changes; if not, it is a fresh one that
-- no other block of the file shares, and the bytes of the file are what they were.
pub bmap_lem :
    (d : Disk) (ip : Inode) (bn : ℕ) → IsFile d ip → bn < 140 → Maps d ip bn (bmap ip bn d)
unfolding bmap
bmap_lem d ip bn w lt = elim (Bool-cases (ltb bn 12)) [
  | inl e ↦ rw e (
      once-Maps d ip bn (direct_block bn d ip) (
        direct_block-MapsOnce d ip w bn bn (slot-direct d ip bn (ltb→lt bn 12 e))
          (λ b f a inside z. direct-Grown d ip w b f a inside bn (ltb→lt bn 12 e) z)))
  | inr e ↦
      let high : ltb (bn - 12) 128 ≡ true = ground arith in
      let split : 12 + (bn - 12) ≡ bn = ground arith in
      rw (e, high)
        (subst
          (λ z. Maps d ip z (elim (direct_block 12 d ip) [
            | none ↦ none
            | some (addr, e, jp) ↦ indirect_block addr (bn - 12) e jp
          ]))
          split (through_indirect d ip (bn - 12) w (ground arith)))
]

-- A block that the file has is found, and nothing changes.
pub bmap-present :
    (d : Disk) (ip : Inode) (bn : ℕ)
    → bn < 140
    → slot d ip bn ≢ 0
    → bmap ip bn d ≡ some (slot d ip bn, d, ip)
unfolding bmap direct_block indirect_block
bmap-present d ip bn lt ne = elim (Bool-cases (ltb bn 12)) [
  | inl e ↦
      let at = slot-direct d ip bn (ltb→lt bn 12 e) in
      let there : (ip.addrs bn == 0) ≡ false = ground arith in rw (e, there, at) refl
  | inr e ↦
      let k = bn - 12 in
      let high : ltb k 128 ≡ true = ground arith in
      let split : 12 + k ≡ bn = ground arith in
      let at : slot d ip bn ≡ entry d ip k =
        ap (slot d ip) (sym split) ∙ slot-entry d ip k (ground arith) in
      elim (Bool-cases (ip.addrs 12 == 0)) [
        | inl z ↦ absurd (ne (at ∙ rw z refl))
        | inr z ↦
            let found : slot d ip bn ≡ read32 (d (ip.addrs 12)) (4 * k) = at ∙ rw z refl in
            let there : (read32 (d (ip.addrs 12)) (4 * k) == 0) ≡ false = ground arith in
            rw (e, high, z, there, found) refl
      ]
]

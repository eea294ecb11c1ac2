-- ===== src/Fs/Icache/Sharing.antt =====
-- Every call on the cache of inodes keeps the references counted, so that they are shared rightly.
use mathlib.Core.Path.{subst}
use os_fall.Base.{
  ℕ, suc, ◌+◌, ◌^◌, ◌<◌, ◌≡◌, refl, sym, ◌∙◌, inl, inr, Bool, true, false, not, ◌||◌, Option, some,
  List, ◌∷◌, ◌++◌, arith, ◌==◌, if◌then◌else◌, ==_iff, Bool-cases, length, get_elem?, modify,
  length-append, modify-modify, sub32, slt,
}
use os_fall.Proc.Types.{Kernel}
use os_fall.Fs.Inode.{Inode}
use os_fall.Fs.Icache.{
  dropped, unflagged, is_last, empties, idup, iput_first, iput_last, ilock, iunlock,
}
use os_fall.Fs.Icache.Find.{SlotHas}
use os_fall.Fs.Icache.Holders.{
  Held, refs, IcacheRun, starts, gets, dups, locks, unlocks, writes, emptied, puts,
}
use os_fall.Fs.Icache.Counts.{
  Names, IsCounted, refs-append, refs-length, Lives-elem, Lives-split, Keeps, change-IsCounted,
}
use os_fall.Fs.Icache.Unique.{Gives, iget-Gives, refer-IsCounted, claim-IsCounted}

-- A change of a slot that keeps its inode and its count.
still-IsCounted :
    (ips : List Inode) (hs : List Held) (i : ℕ) (f : Inode → Inode)
    → ((ip : Inode) → ((f ip).dev ≡ ip.dev) × ((f ip).inum ≡ ip.inum) × ((f ip).ref ≡ ip.ref))
    → IsCounted ips hs
    → IsCounted (modify ips i f) hs
still-IsCounted ips hs i f keeps c =
    change-IsCounted ips hs hs i f (λ ip. ((keeps ip).0, (keeps ip).1))
      (λ ip g.
        let count = c.counts i ip g in
        let same = (keeps ip).2 in (same ∙ count, λ pos. omega (arith, pos, same)))
      (λ n ne. refl) c.lives c.few c

busy-IsCounted :
    (ips : List Inode) (hs : List Held) (i : ℕ) (b : Bool)
    → IsCounted ips hs
    → IsCounted (modify ips i (λ jp. record jp { busy = b })) hs
busy-IsCounted ips hs i b c =
    still-IsCounted ips hs i (λ jp. record jp { busy = b }) (λ ip. (refl, refl, refl)) c

gets-IsCounted :
    (ips js : List Inode) (hs : List Held) (dev inum i : ℕ)
    → suc (length hs) < 2 ^ 31
    → Gives dev inum ips i js
    → IsCounted ips hs
    → IsCounted js (record { at = i; dev = dev; inum = inum } ∷ hs)
gets-IsCounted ips js hs dev inum i few (inl (e, (ip, there, hit))) c =
    let count = c.counts i ip there in
    let all = refs-length i hs in
    let h : Held = record { at = i; dev = dev; inum = inum } in
    rw e (
      refer-IsCounted ips hs h few (ip, there, (ground (arith, hit), ground (arith, hit)))
        (ground (arith, hit, count, all, few)) c)
gets-IsCounted ips js hs dev inum i few (inr (e, unseen, there)) c =
    rw e (claim-IsCounted ips hs (record { at = i; dev = dev; inum = inum }) few unseen there c)

refs-split :
    (n : ℕ) (ys zs : List Held) (h : Held)
    → refs n (ys ++ (h ∷ zs)) ≡ (if h.at == n then 1 else 0) + refs n (ys ++ zs)
refs-split n ys zs h =
    let whole = refs-append n ys (h ∷ zs) in
    let others = refs-append n ys zs in omega (arith, whole, others)

-- A reference given up, by a change that takes one from the count.
drop-IsCounted :
    (ips : List Inode) (ys zs : List Held) (h : Held) (f : Inode → Inode)
    → Keeps f
    → ((ip : Inode) → (f ip).ref ≡ sub32 ip.ref 1)
    → IsCounted ips (ys ++ (h ∷ zs))
    → IsCounted (modify ips h.at f) (ys ++ zs)
drop-IsCounted ips ys zs h f keeps down c =
    let sizes = length-append ys (h ∷ zs) in
    let rests = length-append ys zs in
    let bound = c.few in
    change-IsCounted ips (ys ++ (h ∷ zs)) (ys ++ zs) h.at f keeps
      (λ ip g.
        let count = c.counts h.at ip g in
        let all = refs-length h.at (ys ++ (h ∷ zs)) in
        let self : (h.at == h.at) ≡ true = (==_iff h.at h.at).1 refl in
        let more : refs h.at (ys ++ (h ∷ zs)) ≡ 1 + refs h.at (ys ++ zs) =
          rw self at (refs-split h.at ys zs h) in
        let less = down ip in
        (omega (arith, count, all, more, less, bound), λ pos. omega (arith, count, more)))
      (λ n ne.
        let apart : (h.at == n) ≡ false = ground (arith, ne) in
        let same : refs n (ys ++ (h ∷ zs)) ≡ 0 + refs n (ys ++ zs) =
          rw apart at (refs-split n ys zs h) in
        omega (arith, same))
      (Lives-split ips ys zs h c.lives) (omega (arith, sizes, rests, bound)) c

module _ (K : Type 0) (inode_at : ℕ → ℕ) where
  ilock-busy :
      (me : Option ℕ) (lock i : ℕ) (ip : Inode) (ips js : List Inode) (k : Kernel K)
      → ilock inode_at me lock i ip ips k ≡ some (inr js)
      → modify ips i (λ jp. record jp { busy = true }) ≡ js
  unfolding ilock
  ilock-busy me lock i ip ips js k h = elim (Bool-cases (slt ip.ref 1)) [
    | inl e ↦ absurd (let q = rw e at h in cc)
    | inr e ↦ elim (Bool-cases ip.busy) [
      | inl b ↦ absurd (let q = rw (e, b) at h in cc)
      | inr b ↦ let q = rw (e, b) at h in cc
    ]
  ]

  iunlock-idle :
      (i : ℕ) (ip : Inode) (ips js : List Inode) (k l : Kernel K)
      → iunlock inode_at i ip ips k ≡ some (js, l)
      → modify ips i (λ jp. record jp { busy = false }) ≡ js
  unfolding iunlock
  iunlock-idle i ip ips js k l h = elim (Bool-cases (not ip.busy || slt ip.ref 1)) [
    | inl e ↦ absurd (let q = rw e at h in cc)
    | inr e ↦ let q = rw e at h in cc
  ]

  iput_first-busy :
      (i : ℕ) (ip : Inode) (ips js : List Inode)
      → iput_first i ip ips ≡ empties js
      → modify ips i (λ jp. record jp { busy = true }) ≡ js
  unfolding iput_first
  iput_first-busy i ip ips js h = elim (Bool-cases (is_last ip)) [
    | inl e ↦ elim (Bool-cases ip.busy) [
      | inl b ↦ absurd (let q = rw (e, b) at h in cc)
      | inr b ↦ let q = rw (e, b) at h in cc
    ]
    | inr e ↦ absurd (let q = rw e at h in cc)
  ]

  puts-IsCounted :
      (ips : List Inode) (ys zs : List Held) (h : Held) (b : Bool) (k : Kernel K)
      → IsCounted ips (ys ++ (h ∷ zs))
      → IsCounted (iput_last inode_at b h.at ips k).0 (ys ++ zs)
  unfolding iput_last
  puts-IsCounted ips ys zs h true k c =
      subst (λ js. IsCounted js (ys ++ zs)) (sym (modify-modify ips h.at unflagged dropped))
        (drop-IsCounted ips ys zs h (λ ip. dropped (unflagged ip)) (λ ip. (refl, refl)) (λ ip. refl)
          c)
  puts-IsCounted ips ys zs h false k c =
      drop-IsCounted ips ys zs h dropped (λ ip. (refl, refl)) (λ ip. refl) c

  dups-IsCounted :
      (ips : List Inode) (hs : List Held) (m : ℕ) (h : Held)
      → suc (length hs) < 2 ^ 31
      → get_elem? hs m ≡ some h
      → IsCounted ips hs
      → IsCounted (idup h.at ips) (h ∷ hs)
  unfolding idup
  dups-IsCounted ips hs m h few there c =
      let (slot, pos) = Lives-elem ips hs m h c.lives there in
      refer-IsCounted ips hs h few slot pos c

  run-IsCounted :
      (ips : List Inode) (hs : List Held) → IcacheRun K inode_at ips hs → IsCounted ips hs
  run-IsCounted ips hs (starts _ unused) = record {
    counts = unused;
    lives = tt;
    distinct =
        λ n m ip jp a b pa pb dev inum. absurd (let q = unused n ip a in omega (arith, q, pa));
    few = omega arith;
  }
  run-IsCounted js gs (gets ips _ hs dev inum i r few h) =
      gets-IsCounted ips js hs dev inum i few (iget-Gives dev inum ips i js h)
        (run-IsCounted ips hs r)
  run-IsCounted js gs (dups ips hs m h r few there) =
      dups-IsCounted ips hs m h few there (run-IsCounted ips hs r)
  run-IsCounted js hs (locks ips _ _ me lock i ip k r h) =
      subst (λ z. IsCounted z hs) (ilock-busy me lock i ip ips js k h)
        (busy-IsCounted ips hs i true (run-IsCounted ips hs r))
  run-IsCounted js hs (unlocks ips _ _ i ip k l r h) =
      subst (λ z. IsCounted z hs) (iunlock-idle i ip ips js k l h)
        (busy-IsCounted ips hs i false (run-IsCounted ips hs r))
  run-IsCounted js hs (writes ips _ i f keeps r) =
      still-IsCounted ips hs i f keeps (run-IsCounted ips hs r)
  run-IsCounted js hs (emptied ips _ _ i ip r h) =
      subst (λ z. IsCounted z hs) (iput_first-busy i ip ips js h)
        (busy-IsCounted ips hs i true (run-IsCounted ips hs r))
  run-IsCounted js gs (puts ips ys zs h b k r) =
      puts-IsCounted ips ys zs h b k (run-IsCounted ips (ys ++ (h ∷ zs)) r)

  -- After any calls of iget, idup, ilock, iunlock and iput that start from a cache without references,
  -- never with 2^31 references, two references that were got for one device and number are to the same
  -- slot; that slot still has this device and number, and its count is the number of references to it,
  -- which is not 0.
  pub one_slot :
      (ips : List Inode) (hs : List Held) (m n : ℕ) (h g : Held)
      → IcacheRun K inode_at ips hs
      → get_elem? hs m ≡ some h
      → get_elem? hs n ≡ some g
      → g.dev ≡ h.dev
      → g.inum ≡ h.inum
      → (g.at ≡ h.at)
        × SlotHas (λ ip. Names h ip × (ip.ref ≡ refs h.at hs) × (0 < refs h.at hs)) ips h.at
  one_slot ips hs m n h g r ath atg dev inum =
      let c = run-IsCounted ips hs r in
      let ((ip, there, named), pos) = Lives-elem ips hs m h c.lives ath in
      let ((jp, here, known), more) = Lives-elem ips hs n g c.lives atg in
      let count = c.counts h.at ip there in
      let total = c.counts g.at jp here in
      let (named_dev, named_inum) = named in
      let (known_dev, known_inum) = known in
      (
        c.distinct g.at h.at jp ip here there (omega (arith, total, more))
            (omega (arith, count, pos)) (known_dev ∙ dev ∙ sym named_dev)
            (known_inum ∙ inum ∙ sym named_inum),
        (ip, there, (named, count, pos)),
      )

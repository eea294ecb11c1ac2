-- ===== src/Fs/Icache/Counts.antt =====
-- The references to each slot of the cache of inodes, counted.
use mathlib.Core.Path.{subst}
use os_fall.Base.{
  ℕ, zero, suc, ◌+◌, ◌^◌, ◌≤◌, ◌<◌, ◌≡◌, refl, sym, ap, ◌∙◌, ◌≢◌, inl, inr, true, false, some, List,
  [], ◌∷◌, ◌++◌, arith, ◌==◌, if◌then◌else◌, ==_iff, Bool-cases, length, get_elem?, modify,
  get_elem?-modify_self, get_elem?-modify_ne,
}
use os_fall.Fs.Inode.{Inode}
use os_fall.Fs.Icache.Find.{SlotHas, modify-cases}
use os_fall.Fs.Icache.Holders.{Held, refs}

abbrev pub Names : Held → Inode → Type 0
Names h ip = (ip.dev ≡ h.dev) × (ip.inum ≡ h.inum)

-- The slot of each reference has the inode that it was got for.
abbrev pub Lives : List Inode → List Held → Type 0
Lives ips [] = Unit
Lives ips (h ∷ hs) = SlotHas (Names h) ips h.at × Lives ips hs

-- No inode is in two slots with references.
abbrev pub Distinct : List Inode → Type 0
Distinct ips =
    (n m : ℕ) (ip jp : Inode)
    → get_elem? ips n ≡ some ip
    → get_elem? ips m ≡ some jp
    → 0 < ip.ref
    → 0 < jp.ref
    → ip.dev ≡ jp.dev
    → ip.inum ≡ jp.inum
    → n ≡ m

pub record IsCounted (ips : List Inode) (hs : List Held) : Type 0 where
  pub counts : (n : ℕ) (ip : Inode) → get_elem? ips n ≡ some ip → ip.ref ≡ refs n hs
  pub lives : Lives ips hs
  pub distinct : Distinct ips
  pub few : length hs < 2 ^ 31

pub refs-append : (n : ℕ) (ys zs : List Held) → refs n (ys ++ zs) ≡ refs n ys + refs n zs
refs-append n [] zs = omega arith
refs-append n (y ∷ ys) zs =
    ap (λ x. (if y.at == n then 1 else 0) + x) (refs-append n ys zs) ∙ omega arith

pub refs-length : (n : ℕ) (hs : List Held) → refs n hs ≤ length hs
refs-length n [] = omega arith
refs-length n (h ∷ hs) = let rest = refs-length n hs in ground (arith, rest)

pub refs_other : (n : ℕ) (h : Held) (hs : List Held) → n ≢ h.at → refs n (h ∷ hs) ≡ refs n hs
refs_other n h hs ne =
    let apart : (h.at == n) ≡ false = elim (Bool-cases (h.at == n)) [
      | inl e ↦ absurd (ne (sym ((==_iff h.at n).0 e)))
      | inr e ↦ e
    ] in
    rw apart (omega arith)

pub refs_self : (h : Held) (hs : List Held) → refs h.at (h ∷ hs) ≡ suc (refs h.at hs)
refs_self h hs =
    let same : (h.at == h.at) ≡ true = (==_iff h.at h.at).1 refl in rw same (omega arith)

pub Lives-elem :
    (ips : List Inode) (hs : List Held) (m : ℕ) (h : Held)
    → Lives ips hs
    → get_elem? hs m ≡ some h
    → SlotHas (Names h) ips h.at × (0 < refs h.at hs)
Lives-elem ips [] m h l e = absurd (let q = e in cc)
Lives-elem ips (g ∷ hs) zero h (first, l) e =
    let same : g ≡ h = cc in
    subst (λ z. SlotHas (Names z) ips z.at × (0 < refs z.at (g ∷ hs))) same
      (first, let count = refs_self g hs in omega (arith, count))
Lives-elem ips (g ∷ hs) (suc m) h (first, l) e =
    let (there, some_ref) = Lives-elem ips hs m h l e in (there, omega (arith, some_ref))

-- A reference among others, and the others.
pub Lives-split :
    (ips : List Inode) (ys zs : List Held) (h : Held)
    → Lives ips (ys ++ (h ∷ zs))
    → Lives ips (ys ++ zs)
Lives-split ips [] zs h (first, l) = l
Lives-split ips (y ∷ ys) zs h (first, l) = (first, Lives-split ips ys zs h l)

-- A change of one slot that keeps what inode it has.
abbrev pub Keeps : (Inode → Inode) → Type 0
Keeps f = (ip : Inode) → ((f ip).dev ≡ ip.dev) × ((f ip).inum ≡ ip.inum)

kept_slot :
    (ips : List Inode) (i : ℕ) (f : Inode → Inode) (h : Held) (n : ℕ)
    → Keeps f
    → SlotHas (Names h) ips n
    → SlotHas (Names h) (modify ips i f) n
kept_slot ips i f h n keeps (ip, there, (dev, inum)) = elim (Bool-cases (i == n)) [
  | inl e ↦
      let same : i ≡ n = (==_iff i n).0 e in
      (
        f ip,
        subst (λ z. get_elem? (modify ips z f) n ≡ some (f ip)) (sym same)
            (get_elem?-modify_self ips n f there),
        ((keeps ip).0 ∙ dev, (keeps ip).1 ∙ inum),
      )
  | inr e ↦
      let apart : i ≢ n = λ same. let clash = (==_iff i n).1 same in ground (arith, clash, e) in
      (ip, get_elem?-modify_ne ips i n f apart ∙ there, (dev, inum))
]

Lives-modify :
    (ips : List Inode) (i : ℕ) (f : Inode → Inode) (hs : List Held)
    → Keeps f
    → Lives ips hs
    → Lives (modify ips i f) hs
Lives-modify ips i f [] keeps l = tt
Lives-modify ips i f (h ∷ hs) keeps (first, l) =
    (kept_slot ips i f h h.at keeps first, Lives-modify ips i f hs keeps l)

-- Where a slot with references comes from.
came_from :
    (ips : List Inode) (i : ℕ) (f : Inode → Inode) (n : ℕ) (jp : Inode)
    → Keeps f
    → ((ip : Inode) → get_elem? ips i ≡ some ip → 0 < (f ip).ref → 0 < ip.ref)
    → get_elem? (modify ips i f) n ≡ some jp
    → 0 < jp.ref
    → (ip : Inode) × (get_elem? ips n ≡ some ip)
      × (0 < ip.ref)
      × (jp.dev ≡ ip.dev)
      × (jp.inum ≡ ip.inum)
came_from ips i f n jp keeps had there pos = elim (modify-cases ips i f n jp there) [
  | inl (ne, g) ↦ (jp, g, pos, refl, refl)
  | inr (e, (ip, g, same)) ↦ (
    ip,
    g,
    had ip (subst (λ z. get_elem? ips z ≡ some ip) e g) (subst (λ z. 0 < z.ref) same pos),
    ap (λ z. z.dev) same ∙ (keeps ip).0,
    ap (λ z. z.inum) same ∙ (keeps ip).1,
  )
]

-- A change of one slot and of the references to it.
pub change-IsCounted :
    (ips : List Inode) (hs gs : List Held) (i : ℕ) (f : Inode → Inode)
    → Keeps f
    → ((ip : Inode)
        → get_elem? ips i ≡ some ip
        → ((f ip).ref ≡ refs i gs) × (0 < (f ip).ref → 0 < ip.ref))
    → ((n : ℕ) → n ≢ i → refs n gs ≡ refs n hs)
    → Lives ips gs
    → length gs < 2 ^ 31
    → IsCounted ips hs
    → IsCounted (modify ips i f) gs
change-IsCounted ips hs gs i f keeps self others l few c = record {
  counts = λ n jp there. elim (modify-cases ips i f n jp there) [
    | inl (ne, g) ↦ c.counts n jp g ∙ sym (others n ne)
    | inr (e, (ip, g, same)) ↦
        ap (λ z. z.ref) same
        ∙ (self ip (subst (λ z. get_elem? ips z ≡ some ip) e g)).0
        ∙ ap (λ z. refs z gs) (sym e)
  ];
  lives = Lives-modify ips i f gs keeps l;
  distinct = λ n m ip jp a b pa pb dev inum.
      let had : (kp : Inode) → get_elem? ips i ≡ some kp → 0 < (f kp).ref → 0 < kp.ref =
        λ kp g. (self kp g).1 in
      let (ip', a', pa', da, ia) = came_from ips i f n ip keeps had a pa in
      let (jp', b', pb', db, ib) = came_from ips i f m jp keeps had b pb in
      c.distinct n m ip' jp' a' b' pa' pb' (sym da ∙ dev ∙ db) (sym ia ∙ inum ∙ ib);
  few = few;
}

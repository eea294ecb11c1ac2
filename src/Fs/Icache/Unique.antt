-- ===== src/Fs/Icache/Unique.antt =====
-- A reference to a cached inode stays good: its slot keeps the inode, and all references to an inode
-- are to one slot.
use mathlib.Core.Path.{subst}
use os_fall.Base.{
  ℕ, suc, ◌+◌, ◌^◌, ◌<◌, ◌≡◌, refl, sym, ap, ◌∙◌, ◌≢◌, ◌⊎◌, inl, inr, true, Option, none, some,
  List, [], ◌∷◌, arith, ◌==◌, ==_iff, Bool-cases, length, get_elem?, modify, get_elem?-modify_self,
  get_elem?-modify_ne,
}
use os_fall.Fs.Inode.{Inode}
use os_fall.Fs.Icache.{
  is_cached, Search, cached, vacant, search_from, referred, refilled, settle, iget,
}
use os_fall.Fs.Icache.Find.{SlotHas, Uncached, Finds, search_from-Finds, modify-cases}
use os_fall.Fs.Icache.Holders.{Held, refs}
use os_fall.Fs.Icache.Counts.{
  Names, Lives, Distinct, IsCounted, refs-length, refs_other, refs_self, change-IsCounted,
}

-- The slot that iget gives, and the cache after it.
abbrev pub Gives : ℕ → ℕ → List Inode → ℕ → List Inode → Type 0
Gives dev inum ips i js =
    ((js ≡ modify ips i referred) × SlotHas (λ ip. is_cached dev inum ip ≡ true) ips i)
    ⊎ ((js ≡ modify ips i (refilled dev inum))
        × Uncached dev inum ips
        × SlotHas (λ ip. ip.ref ≡ 0) ips i)

some_pair :
    {A B : Type 0} (a c : A) (b d : B)
    → Path (Option (A × B)) (some (a, b)) (some (c, d))
    → (a ≡ c) × (b ≡ d)
some_pair {A} {B} a c b d h =
    let first : Option (A × B) → A = λ o. elim o [ none ↦ a | some p ↦ p.0 ] in
    let second : Option (A × B) → B = λ o. elim o [ none ↦ b | some p ↦ p.1 ] in
    (ap first h, ap second h)

settle-Gives :
    (dev inum : ℕ) (ips : List Inode) (s : Search) (i : ℕ) (js : List Inode)
    → Finds dev inum ips 0 none s
    → settle dev inum ips s ≡ some (i, js)
    → Gives dev inum ips i js
settle-Gives dev inum ips (cached n) i js (k, at, there) h =
    let (ni, mj) = some_pair n i (modify ips n referred) js h in
    inl (
      sym mj ∙ ap (λ z. modify ips z referred) ni,
      subst (SlotHas (λ ip. is_cached dev inum ip ≡ true) ips) (omega (arith, at, ni)) there,
    )
settle-Gives dev inum ips (vacant none) i js found h = absurd (let q = h in cc)
settle-Gives dev inum ips (vacant (some n)) i js (unseen_any, inl same) h =
    absurd (let q = same in cc)
settle-Gives dev inum ips (vacant (some n)) i js (unseen_any, inr (k, unseen, at, there)) h =
    let (ni, mj) = some_pair n i (modify ips n (refilled dev inum)) js h in
    let nk : n ≡ 0 + k = let q = at in cc in
    inr (
      sym mj ∙ ap (λ z. modify ips z (refilled dev inum)) ni,
      unseen_any,
      subst (SlotHas (λ ip. ip.ref ≡ 0) ips) (omega (arith, nk, ni)) there,
    )

pub iget-Gives :
    (dev inum : ℕ) (ips : List Inode) (i : ℕ) (js : List Inode)
    → iget dev inum ips ≡ some (i, js)
    → Gives dev inum ips i js
unfolding iget
iget-Gives dev inum ips i js h =
    settle-Gives dev inum ips (search_from dev inum ips 0 none) i js
      (search_from-Finds dev inum ips 0 none) h

-- A new reference to a slot that has one.
pub refer-IsCounted :
    (ips : List Inode) (hs : List Held) (h : Held)
    → suc (length hs) < 2 ^ 31
    → SlotHas (Names h) ips h.at
    → 0 < refs h.at hs
    → IsCounted ips hs
    → IsCounted (modify ips h.at referred) (h ∷ hs)
refer-IsCounted ips hs h few there pos c =
    change-IsCounted ips hs (h ∷ hs) h.at referred (λ ip. (refl, refl))
      (λ ip g.
        let count = c.counts h.at ip g in
        let all = refs-length h.at hs in
        let more = refs_self h hs in
        (ground (arith, few, count, all, more), λ up. omega (arith, count, pos)))
      (λ n ne. refs_other n h hs ne) (there, c.lives) few c

Lives-refilled :
    (ips : List Inode) (dev inum i : ℕ) (hs : List Held)
    → refs i hs ≡ 0
    → Lives ips hs
    → Lives (modify ips i (refilled dev inum)) hs
Lives-refilled ips dev inum i [] none_there l = tt
Lives-refilled ips dev inum i (h ∷ hs) none_there ((ip, there, named), l) =
    elim (Bool-cases (h.at == i)) [
      | inl e ↦ absurd (omega (arith, rw e at none_there))
      | inr e ↦
          let apart : i ≢ h.at =
            λ same. let clash = (==_iff h.at i).1 (sym same) in ground (arith, clash, e) in
          (
            (ip, get_elem?-modify_ne ips i h.at (refilled dev inum) apart ∙ there, named),
            Lives-refilled ips dev inum i hs (omega (arith, rw e at none_there)) l,
          )
    ]

Distinct-refilled :
    (ips : List Inode) (dev inum i : ℕ)
    → ((n : ℕ) (ip : Inode) → get_elem? ips n ≡ some ip → ip.ref < 2 ^ 31)
    → Uncached dev inum ips
    → Distinct ips
    → Distinct (modify ips i (refilled dev inum))
Distinct-refilled ips dev inum i small unseen_any d n m ip jp a b pa pb sd si =
    let clash : (x : ℕ) (kp lp : Inode)
        → get_elem? ips x ≡ some kp
        → 0 < kp.ref
        → lp.dev ≡ kp.dev
        → lp.inum ≡ kp.inum
        → ((lp.dev ≡ dev) × (lp.inum ≡ inum))
        → ⊥ =
      λ x kp lp g pos sd si its.
        let unseen = unseen_any x kp g in
        let bound = small x kp g in
        let (td, ti) = its in ground (arith, unseen, bound, pos, sd, si, td, ti) in
    elim (modify-cases ips i (refilled dev inum) n ip a) [
      | inl (ne, g) ↦ elim (modify-cases ips i (refilled dev inum) m jp b) [
        | inl (me, h) ↦ d n m ip jp g h pa pb sd si
        | inr (e, (kp, h, same)) ↦
            absurd
              (clash n ip jp g pa (sym sd) (sym si) (ap (λ z. z.dev) same, ap (λ z. z.inum) same))
      ]
      | inr (e, (kp, g, same)) ↦ elim (modify-cases ips i (refilled dev inum) m jp b) [
        | inl (me, h) ↦
            absurd (clash m jp ip h pb sd si (ap (λ z. z.dev) same, ap (λ z. z.inum) same))
        | inr (f, there) ↦ e ∙ sym f
      ]
    ]

pub claim-IsCounted :
    (ips : List Inode) (hs : List Held) (h : Held)
    → suc (length hs) < 2 ^ 31
    → Uncached h.dev h.inum ips
    → SlotHas (λ ip. ip.ref ≡ 0) ips h.at
    → IsCounted ips hs
    → IsCounted (modify ips h.at (refilled h.dev h.inum)) (h ∷ hs)
claim-IsCounted ips hs h few unseen_any (ip, there, zero_ref) c =
    let unheld : refs h.at hs ≡ 0 = sym (c.counts h.at ip there) ∙ zero_ref in
    let change = refilled h.dev h.inum in
    record {
      counts = λ n jp g. elim (modify-cases ips h.at change n jp g) [
        | inl (ne, old) ↦ c.counts n jp old ∙ sym (refs_other n h hs ne)
        | inr (e, (kp, old, same)) ↦
            let more = refs_self h hs in
            let one : 1 ≡ refs h.at (h ∷ hs) = omega (arith, more, unheld) in
            ap (λ z. z.ref) same ∙ one ∙ ap (λ z. refs z (h ∷ hs)) (sym e)
      ];
      lives = (
        (change ip, get_elem?-modify_self ips h.at change there, (refl, refl)),
        Lives-refilled ips h.dev h.inum h.at hs unheld c.lives,
      );
      distinct =
          Distinct-refilled ips h.dev h.inum h.at
            (λ n jp g.
              let count = c.counts n jp g in
              let all = refs-length n hs in omega (arith, count, all, few))
            unseen_any c.distinct;
      few = few;
    }

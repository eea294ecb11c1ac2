-- ===== src/Bio/Users.antt =====
-- A buffer that bget gives has one user at a time.
use mathlib.Core.Path.{subst}
use os_fall.Base.{
  ℕ, ◌<◌, ◌≡◌, refl, sym, ap, ◌∙◌, ◌⊎◌, inl, inr, true, false, Option, some, List, [], ◌∷◌, ◌++◌,
  arith, ◌==◌, if◌then◌else◌, ==_iff, Bool-cases, length-append,
}
use os_fall.Proc.Types.{Kernel}
use os_fall.Proc.Sleep.{wakeup}
use os_fall.Bio.{nbuf, no_dev, Buf, Cache, put_buf, holds, got, bget, brelse}
use os_fall.Bio.Order.{Released, brelse_lem}
use os_fall.Bio.Invariant.{
  has, has-append, has-split, AreUnique, IsCache, CacheStep, gets, releases, changes, CacheReach,
  starts, steps, binit-IsCache,
}
use os_fall.Bio.Grant.{Grants, holds_lem, bget-Grants}

-- Buffers that hold the same sectors as before.
same-AreUnique :
    (f g : ℕ → Buf)
    → ((x : ℕ) → (g x).dev ≡ (f x).dev)
    → ((x : ℕ) → (g x).sector ≡ (f x).sector)
    → AreUnique f
    → AreUnique g
same-AreUnique f g dev sector u a b la lb e h =
    elim (u a b la lb (sym (dev a) ∙ e ∙ dev b) (sym (sector a) ∙ h ∙ sector b)) [
      | inl z ↦ inl (dev a ∙ z)
      | inr z ↦ inr z
    ]

-- One buffer with another sector, which no buffer held.
fresh-AreUnique :
    (f : ℕ → Buf) (dev sector b : ℕ) (v : Buf)
    → v.dev ≡ dev
    → v.sector ≡ sector
    → ((x : ℕ) → x < nbuf → holds dev sector (f x) ≡ false)
    → AreUnique f
    → AreUnique (λ x. if x == b then v else f x)
fresh-AreUnique f dev sector b v hd hs unheld u x y lx ly e h =
    let clash : (z : ℕ) → z < nbuf → (f z).dev ≡ v.dev → (f z).sector ≡ v.sector → ⊥ =
      λ z lz d t. let n = unheld z lz in ground (arith, n, d, t, hd, hs) in
    elim (Bool-cases (x == b)) [
      | inl p ↦ elim (Bool-cases (y == b)) [
        | inl q ↦ inr ((==_iff x b).0 p ∙ sym ((==_iff y b).0 q))
        | inr q ↦ absurd (clash y ly (sym (rw (p, q) at e)) (sym (rw (p, q) at h)))
      ]
      | inr p ↦ elim (Bool-cases (y == b)) [
        | inl q ↦ absurd (clash x lx (rw (p, q) at e) (rw (p, q) at h))
        | inr q ↦ rw p (u x y lx ly (rw (p, q) at e) (rw (p, q) at h))
      ]
    ]

-- The links stay when a buffer's content changes.
put_buf-IsCache :
    (c : Cache) (xs : List ℕ) (b : ℕ) (v : Buf)
    → IsCache c xs
    → AreUnique (put_buf b v c).bufs
    → IsCache (put_buf b v c) xs
put_buf-IsCache c xs b v s u = record {
  ring = record {
    fwd = s.ring.fwd;
    bwd = s.ring.bwd;
    fresh_head = s.ring.fresh_head;
    nodup = s.ring.nodup;
  };
  size = s.size;
  every = s.every;
  bounded = s.bounded;
  unique = u;
}

same_field :
    (get : Buf → ℕ) (f : ℕ → Buf) (b : ℕ) (v : Buf)
    → get v ≡ get (f b)
    → (x : ℕ) → get (if x == b then v else f x) ≡ get (f x)
same_field get f b v h x = elim (Bool-cases (x == b)) [
  | inl e ↦ rw e (h ∙ ap (λ z. get (f z)) (sym ((==_iff x b).0 e)))
  | inr e ↦ rw e refl
]

-- A write of a buffer with the sector that it had.
put_same-IsCache :
    (c : Cache) (xs : List ℕ) (b : ℕ) (v : Buf)
    → v.dev ≡ (c.bufs b).dev
    → v.sector ≡ (c.bufs b).sector
    → IsCache c xs
    → IsCache (put_buf b v c) xs
put_same-IsCache c xs b v hd hs s = put_buf-IsCache c xs b v s (
    same-AreUnique c.bufs (put_buf b v c).bufs (same_field (λ v. v.dev) c.bufs b v hd)
      (same_field (λ v. v.sector) c.bufs b v hs) s.unique)

Grants-IsCache :
    (dev sector : ℕ) (c d : Cache) (xs : List ℕ) (b : ℕ)
    → IsCache c xs
    → Grants dev sector c b d
    → IsCache d xs
Grants-IsCache dev sector c d xs b s g =
    subst (λ z. IsCache z xs) (sym g.after)
      (elim g.source [
        | inl held ↦
            let (hd, hs) = holds_lem dev sector (c.bufs b) held in
            put_same-IsCache c xs b g.content (g.its_dev ∙ sym hd) (g.its_sector ∙ sym hs) s
        | inr unheld ↦
            put_buf-IsCache c xs b g.content s
              (fresh-AreUnique c.bufs dev sector b g.content g.its_dev g.its_sector unheld s.unique)
      ])

-- The list with one element moved to the front.
has-moved :
    (x : ℕ) (ys : List ℕ) (b : ℕ) (zs : List ℕ) → has x (b ∷ (ys ++ zs)) ≡ has x (ys ++ (b ∷ zs))
has-moved x ys b zs = ground (arith, has-append x ys zs, has-append x ys (b ∷ zs))

Released-field :
    (get : Buf → ℕ) (c d : Cache) (ys : List ℕ) (b : ℕ) (zs : List ℕ)
    → Released c ys b zs d
    → get (record (c.bufs b) { busy = false }) ≡ get (c.bufs b)
    → (x : ℕ) → get (d.bufs x) ≡ get (c.bufs x)
Released-field get c d ys b zs r h x = elim (Bool-cases (x == b)) [
  | inl e ↦
      let same : x ≡ b = (==_iff x b).0 e in
      ap (λ z. get (d.bufs z)) same ∙ ap get r.freed ∙ h ∙ ap (λ z. get (c.bufs z)) (sym same)
  | inr e ↦ ap get (r.others x (ground arith))
]

Released-IsCache :
    (c d : Cache) (ys : List ℕ) (b : ℕ) (zs : List ℕ)
    → IsCache c (ys ++ (b ∷ zs))
    → Released c ys b zs d
    → IsCache d (b ∷ (ys ++ zs))
Released-IsCache c d ys b zs s r = record {
  ring = r.order;
  size = omega (arith, s.size, length-append ys zs, length-append ys (b ∷ zs));
  every = λ x lt. has-moved x ys b zs ∙ s.every x lt;
  bounded = λ x h. s.bounded x (sym (has-moved x ys b zs) ∙ h);
  unique =
      same-AreUnique c.bufs d.bufs (Released-field (λ v. v.dev) c d ys b zs r refl)
        (Released-field (λ v. v.sector) c d ys b zs r refl) s.unique;
}

module _ {K : Type 0} (buf_at : ℕ → ℕ) (lock_at : ℕ) where
  brelse-IsCache :
      (k k1 : Kernel K) (c d : Cache) (xs : List ℕ) (b : ℕ)
      → b < nbuf
      → IsCache c xs
      → brelse buf_at lock_at b k c ≡ some (d, k1)
      → (zs : List ℕ) × IsCache d zs
  brelse-IsCache k k1 c d xs b lt s h =
      let (ys, zs, split) = has-split b xs (s.every b lt) in
      let t : IsCache c (ys ++ (b ∷ zs)) = subst (IsCache c) split s in
      elim (brelse_lem buf_at lock_at k c ys b zs t.ring) [
        | inl (_, panics) ↦ absurd (let q = sym h ∙ panics in cc)
        | inr (_, e, runs, r) ↦
            let q : ◌≡◌ {A = Option (Cache × Kernel K)} (some (e, wakeup (buf_at b) k))
                (some (d, k1)) =
              sym runs ∙ h in
            let same : e ≡ d = cc in
            (
              b ∷ (ys ++ zs),
              subst (λ z. IsCache z (b ∷ (ys ++ zs))) same (Released-IsCache c e ys b zs t r),
            )
      ]

  CacheStep-IsCache :
      {c d : Cache} (xs : List ℕ)
      → IsCache c xs
      → CacheStep K buf_at lock_at c d
      → (zs : List ℕ) × IsCache d zs
  CacheStep-IsCache xs s (gets me dev sector k {b} {c} {d} h) = (
    xs,
    Grants-IsCache dev sector c d xs b s (bget-Grants buf_at lock_at me dev sector k c d xs b s h),
  )
  CacheStep-IsCache xs s (releases k k1 {b} {c} {d} lt h) = brelse-IsCache k k1 c d xs b lt s h
  CacheStep-IsCache xs s (changes b valid dirty {c}) =
      (xs, put_same-IsCache c xs b (record (c.bufs b) { valid = valid; dirty = dirty }) refl refl s)

  pub CacheReach-IsCache :
      {c : Cache} → CacheReach K buf_at lock_at c → (xs : List ℕ) × IsCache c xs
  CacheReach-IsCache starts = (9 ∷ 8 ∷ 7 ∷ 6 ∷ 5 ∷ 4 ∷ 3 ∷ 2 ∷ 1 ∷ 0 ∷ [], binit-IsCache)
  CacheReach-IsCache (steps r step) =
      let (xs, s) = CacheReach-IsCache r in CacheStep-IsCache xs s step

  -- bget, in a cache that the calls reach, gives a buffer that nobody uses: it was not busy and is now,
  -- it is one of the array's and holds the sector, and no other buffer holds it, unless the device is -1.
  pub one_user :
      (me : Option ℕ) (dev sector : ℕ) (k : Kernel K) (c d : Cache) (b : ℕ)
      → CacheReach K buf_at lock_at c
      → bget buf_at lock_at me dev sector k c ≡ got b d
      → ((c.bufs b).busy ≡ false)
        × ((d.bufs b).busy ≡ true)
        × (b < nbuf)
        × (holds dev sector (d.bufs b) ≡ true)
        × ((x : ℕ) → x < nbuf → holds dev sector (d.bufs x) ≡ true → (dev ≡ no_dev) ⊎ (x ≡ b))
  one_user me dev sector k c d b r h =
      let (xs, s) = CacheReach-IsCache r in
      let g = bget-Grants buf_at lock_at me dev sector k c d xs b s h in
      let t = Grants-IsCache dev sector c d xs b s g in
      let own : (b == b) ≡ true = ground arith in
      let now : d.bufs b ≡ g.content = ap (λ z. z.bufs b) g.after ∙ rw own refl in
      let its_dev : (d.bufs b).dev ≡ dev = ap (λ v. v.dev) now ∙ g.its_dev in
      let its_sector : (d.bufs b).sector ≡ sector = ap (λ v. v.sector) now ∙ g.its_sector in
      (
        g.was_free,
        ap (λ v. v.busy) now ∙ g.is_busy,
        g.inside,
        ground (arith, its_dev, its_sector),
        λ x lt e.
            let (hd, hs) = holds_lem dev sector (d.bufs x) e in
            elim (t.unique x b lt g.inside (hd ∙ sym its_dev) (hs ∙ sym its_sector)) [
              | inl z ↦ inl (sym hd ∙ z)
              | inr z ↦ inr z
            ],
      )

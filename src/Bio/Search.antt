-- ===== src/Bio/Search.antt =====
-- The search of bget for a buffer, on the list of the buffers.
use mathlib.Core.Path.{subst}
use os_fall.Base.{
  ℕ, zero, suc, ◌+◌, ◌<◌, ◌≡◌, refl, sym, ap, ◌∙◌, ◌≢◌, ◌⊎◌, inl, inr, Bool, true, false, not, ◌&&◌,
  Option, none, some, List, [], ◌∷◌, ◌++◌, arith, ◌==◌, if◌then◌else◌, ==_iff, Bool-cases, length,
  length-append,
}
use os_fall.Proc.Types.{Kernel}
use os_fall.Proc.Sleep.{sleep}
use os_fall.Bio.{
  nbuf, head, Buf, Cache, put_buf, holds, is_free, scan_links, Ending, got, waits, no_buffers,
  busied, fresh, take_cached, bget,
}
use os_fall.Bio.Ring.{Fresh, Fwd, Bwd}
use os_fall.Bio.Order.{Ring}

-- The first element that passes a test.
abbrev pub first_such : (ℕ → Bool) → List ℕ → Option ℕ
first_such test [] = none
first_such test (x ∷ xs) = if test x then some x else first_such test xs

abbrev pub reverse : List ℕ → List ℕ
reverse [] = []
reverse (x ∷ xs) = reverse xs ++ (x ∷ [])

length-reverse : (xs : List ℕ) → length (reverse xs) ≡ length xs
length-reverse [] = refl
length-reverse (x ∷ xs) = omega (arith, length-append (reverse xs) (x ∷ []), length-reverse xs)

Fresh-snoc : (p : ℕ) (xs : List ℕ) (x : ℕ) → p ≢ x → Fresh p xs → Fresh p (xs ++ (x ∷ []))
Fresh-snoc p [] x ne f = (ne, tt)
Fresh-snoc p (y ∷ xs) x ne (ny, f) = (ny, Fresh-snoc p xs x ne f)

Fresh-reverse : (p : ℕ) (xs : List ℕ) → Fresh p xs → Fresh p (reverse xs)
Fresh-reverse p [] f = tt
Fresh-reverse p (x ∷ xs) (ne, f) = Fresh-snoc p (reverse xs) x ne (Fresh-reverse p xs f)

Fwd-snoc :
    (link : ℕ → ℕ) (p : ℕ) (xs : List ℕ) (x q : ℕ)
    → Fwd link p xs x
    → link x ≡ q
    → Fwd link p (xs ++ (x ∷ [])) q
Fwd-snoc link p [] x q h e = (h, e)
Fwd-snoc link p (y ∷ xs) x q (here, h) e = (here, Fwd-snoc link y xs x q h e)

-- The back links lead over the list in reverse.
Bwd-reverse :
    (link : ℕ → ℕ) (p : ℕ) (xs : List ℕ) (q : ℕ) → Bwd link p xs q → Fwd link q (reverse xs) p
Bwd-reverse link p [] q h = h
Bwd-reverse link p (x ∷ xs) q (here, h) =
    Fwd-snoc link q (reverse xs) x p (Bwd-reverse link x xs q h) here

-- A loop along the links finds what stands first in the list.
scan_links-first_such :
    (link : ℕ → ℕ) (test : ℕ → Bool) (p : ℕ) (xs : List ℕ) (rounds : ℕ)
    → Fwd link p xs head
    → Fresh head xs
    → length xs < rounds
    → scan_links link test rounds (link p) ≡ first_such test xs
unfolding scan_links
scan_links-first_such link test p xs zero h f lt = absurd (omega arith)
scan_links-first_such link test p [] (suc rounds) h f lt = rw h refl
scan_links-first_such link test p (x ∷ xs) (suc rounds) (here, h) (ne, f) lt =
    let other : (x == head) ≡ false = ground arith in
    rw (here, other, scan_links-first_such link test x xs rounds h f (omega arith)) refl

-- The first buffer of the list that has the sector, and the last that is not busy.
abbrev pub cached_in : ℕ → ℕ → Cache → List ℕ → Option ℕ
cached_in dev sector c xs =
    first_such (λ b. (c.bufs b).dev == dev && (c.bufs b).sector == sector) xs

abbrev pub free_in : Cache → List ℕ → Option ℕ
free_in c xs = first_such (λ b. not (c.bufs b).busy) (reverse xs)

-- The cache with the buffer taken: it is busy and for the sector, and its flags are these. The other
-- buffers and the ring are as they were.
pub record Taken (dev sector : ℕ) (valid dirty : Bool) (c : Cache) (b : ℕ) (d : Cache)
    : Type 0 where
  is_busy : (d.bufs b).busy ≡ true
  its_dev : (d.bufs b).dev ≡ dev
  its_sector : (d.bufs b).sector ≡ sector
  its_valid : (d.bufs b).valid ≡ valid
  its_dirty : (d.bufs b).dirty ≡ dirty
  others : (x : ℕ) → x ≢ b → d.bufs x ≡ c.bufs x
  same_ring : (d.next ≡ c.next) × (d.prev ≡ c.prev)

put_buf-Taken :
    (dev sector : ℕ) (valid dirty : Bool) (c : Cache) (b : ℕ) (v : Buf)
    → v ≡ record { busy = true; valid = valid; dirty = dirty; dev = dev; sector = sector }
    → Taken dev sector valid dirty c b (put_buf b v c)
put_buf-Taken dev sector valid dirty c b v h =
    let own : (b == b) ≡ true = (==_iff b b).1 refl in
    let at : (put_buf b v c).bufs b ≡ v = rw own refl in
    record {
      is_busy = ap (λ z. z.busy) (at ∙ h);
      its_dev = ap (λ z. z.dev) (at ∙ h);
      its_sector = ap (λ z. z.sector) (at ∙ h);
      its_valid = ap (λ z. z.valid) (at ∙ h);
      its_dirty = ap (λ z. z.dirty) (at ∙ h);
      others = λ x ne. let other : (x == b) ≡ false = ground (arith, ne) in rw other refl;
      same_ring = (refl, refl);
    }

-- What the first buffer that passes a test is like.
first_such-passes :
    (test : ℕ → Bool) (xs : List ℕ) (b : ℕ) → first_such test xs ≡ some b → test b ≡ true
first_such-passes test [] b h = absurd (let q = h in cc)
first_such-passes test (x ∷ xs) b h = elim (Bool-cases (test x)) [
  | inl e ↦
      let found : Path (Option ℕ) (some x) (some b) = rw e at h in
      let same : x ≡ b = cc in ap test (sym same) ∙ e
  | inr e ↦ first_such-passes test xs b (rw e at h)
]

module _ {K : Type 0} (buf_at : ℕ → ℕ) (lock_at : ℕ) where
  abbrev pub answer : Option ℕ → ℕ → ℕ → Kernel K → Cache → Option ℕ → Option ℕ → Ending K
  answer me dev sector k c (some b) free = take_cached buf_at lock_at me k c b
  answer me dev sector k c none (some b) = got b (put_buf b (fresh dev sector) c)
  answer me dev sector k c none none = no_buffers

  bget-answer :
      (me : Option ℕ) (dev sector : ℕ) (k : Kernel K) (c : Cache) (o p : Option ℕ)
      → scan_links c.next (λ b. holds dev sector (c.bufs b)) (nbuf + 1) (c.next head) ≡ o
      → scan_links c.prev (λ b. is_free (c.bufs b)) (nbuf + 1) (c.prev head) ≡ p
      → bget buf_at lock_at me dev sector k c ≡ answer me dev sector k c o p
  unfolding bget
  bget-answer me dev sector k c (some b) p cached free = rw (bget, cached) refl
  bget-answer me dev sector k c none (some b) cached free = rw (bget, cached, free) refl
  bget-answer me dev sector k c none none cached free = rw (bget, cached, free) refl

  pub bget-eq-answer :
      (me : Option ℕ) (dev sector : ℕ) (k : Kernel K) (c : Cache) (xs : List ℕ)
      → Ring c xs
      → length xs ≡ nbuf
      → bget buf_at lock_at me dev sector k c
        ≡ answer me dev sector k c (cached_in dev sector c xs) (free_in c xs)
  bget-eq-answer me dev sector k c xs r size =
      bget-answer me dev sector k c _ _
        (scan_links-first_such c.next (λ b. holds dev sector (c.bufs b)) head xs (nbuf + 1) r.fwd
          r.fresh_head (omega (arith, size)))
        (scan_links-first_such c.prev (λ b. is_free (c.bufs b)) head (reverse xs) (nbuf + 1)
          (Bwd-reverse c.prev head xs head r.bwd) (Fresh-reverse head xs r.fresh_head)
          (omega (arith, size, length-reverse xs)))

  -- How bget ends when a buffer has the sector, or none does, and a buffer is free, or none is.
  abbrev pub Answers : Option ℕ → ℕ → ℕ → Kernel K → Cache → Option ℕ → Option ℕ → Ending K → Type 0
  Answers me dev sector k c (some b) free e =
      (((c.bufs b).busy ≡ true) × (e ≡ waits b (sleep me (buf_at b) lock_at k)))
      ⊎ (((c.bufs b).busy ≡ false)
          × (d : Cache) × (e ≡ got b d)
          × Taken dev sector (c.bufs b).valid (c.bufs b).dirty c b d)
  Answers me dev sector k c none (some b) e =
      (d : Cache) × (e ≡ got b d) × Taken dev sector false false c b d
  Answers me dev sector k c none none e = e ≡ no_buffers

  answer-Answers :
      (me : Option ℕ) (dev sector : ℕ) (k : Kernel K) (c : Cache) (xs : List ℕ) (o p : Option ℕ)
      → cached_in dev sector c xs ≡ o
      → Answers me dev sector k c o p (answer me dev sector k c o p)
  answer-Answers me dev sector k c xs (some b) p h =
      let held =
        first_such-passes (λ b. (c.bufs b).dev == dev && (c.bufs b).sector == sector) xs b h in
      let its_dev : (c.bufs b).dev ≡ dev = ground (arith, held) in
      let its_sector : (c.bufs b).sector ≡ sector = ground (arith, held) in
      elim (Bool-cases (c.bufs b).busy) [
        | inl e ↦ inl (e, rw e refl)
        | inr e ↦ inr (
          e,
          put_buf b (busied (c.bufs b)) c,
          rw e refl,
          put_buf-Taken dev sector (c.bufs b).valid (c.bufs b).dirty c b (busied (c.bufs b))
              (rw (its_dev, its_sector) refl),
        )
      ]
  answer-Answers me dev sector k c xs none (some b) h =
      (put_buf b (fresh dev sector) c, refl, put_buf-Taken dev sector false false c b _ refl)
  answer-Answers me dev sector k c xs none none h = refl

  -- bget on a ring of all the buffers looks for the most recently used buffer that has the sector. If
  -- it is busy, bget sleeps on it; if not, it is taken, with its flags. If there is none, the
  -- least recently used buffer that is not busy is taken for the sector, neither valid nor dirty; and
  -- bget panics if every buffer is busy. A buffer that is taken is busy, and the other buffers and
  -- the ring stay as they were.
  pub bget_lem :
      (me : Option ℕ) (dev sector : ℕ) (k : Kernel K) (c : Cache) (xs : List ℕ)
      → Ring c xs
      → length xs ≡ nbuf
      → Answers me dev sector k c
          (cached_in dev sector c xs)
          (free_in c xs)
          (bget buf_at lock_at me dev sector k c)
  bget_lem me dev sector k c xs r size =
      subst (Answers me dev sector k c (cached_in dev sector c xs) (free_in c xs))
        (sym (bget-eq-answer me dev sector k c xs r size))
        (answer-Answers me dev sector k c xs (cached_in dev sector c xs) (free_in c xs) refl)

-- ===== src/Bio/Grant.antt =====
-- What it is for bget to give a buffer.
use mathlib.Core.Path.{subst}
use os_fall.Base.{
  ℕ, ◌<◌, ◌≡◌, refl, sym, ◌∙◌, ◌⊎◌, inl, inr, true, false, Option, none, some, List, arith,
  Bool-cases,
}
use os_fall.Proc.Types.{Kernel}
use os_fall.Proc.Sleep.{sleep}
use os_fall.Bio.{nbuf, Buf, Cache, put_buf, holds, is_free, Ending, got, waits, fresh, busied, bget}
use os_fall.Bio.Search.{reverse, answer, cached_in, free_in, bget-eq-answer}
use os_fall.Bio.Invariant.{none-passes, first_such-passes, first_such-has, has-reverse, IsCache}

-- bget gives the buffer `b`: it was free, it is now busy and holds the sector, and either held it
-- before or nobody did.
pub record Grants (dev sector : ℕ) (c : Cache) (b : ℕ) (d : Cache) : Type 0 where
  pub content : Buf
  pub after : d ≡ put_buf b content c
  pub inside : b < nbuf
  pub was_free : (c.bufs b).busy ≡ false
  pub is_busy : content.busy ≡ true
  pub its_dev : content.dev ≡ dev
  pub its_sector : content.sector ≡ sector
  pub source :
      (holds dev sector (c.bufs b) ≡ true)
      ⊎ ((x : ℕ) → x < nbuf → holds dev sector (c.bufs x) ≡ false)

pub holds_lem :
    (dev sector : ℕ) (v : Buf) → holds dev sector v ≡ true → (v.dev ≡ dev) × (v.sector ≡ sector)
holds_lem dev sector v h = ground (arith, h)

module _ {K : Type 0} (buf_at : ℕ → ℕ) (lock_at : ℕ) where
  -- The grant of the buffer that the answer names.
  named-Grants :
      (dev sector : ℕ) (c d : Cache) (b i : ℕ) (e : Cache)
      → ◌≡◌ {A = Ending K} (got i e) (got b d)
      → Grants dev sector c i e
      → Grants dev sector c b d
  named-Grants dev sector c d b i e h g =
      let same : i ≡ b = cc in
      let cache : e ≡ d = cc in
      subst (λ z. Grants dev sector c z d) same (subst (Grants dev sector c i) cache g)

  answer-Grants :
      (me : Option ℕ) (dev sector : ℕ) (k : Kernel K) (c d : Cache) (xs : List ℕ) (b : ℕ)
      (o p : Option ℕ)
      → IsCache c xs
      → cached_in dev sector c xs ≡ o
      → free_in c xs ≡ p
      → answer buf_at lock_at me dev sector k c o p ≡ got b d
      → Grants dev sector c b d
  answer-Grants me dev sector k c d xs b (some i) p s ho hp h = elim (Bool-cases (c.bufs i).busy) [
    | inl e ↦ let q : waits i (sleep me (buf_at i) lock_at k) ≡ got b d = rw e at h in absurd cc
    | inr e ↦
        let held = first_such-passes (λ x. holds dev sector (c.bufs x)) i xs ho in
        let at = holds_lem dev sector (c.bufs i) held in
        named-Grants dev sector c d b i (put_buf i (busied (c.bufs i)) c) (rw e at h) (record {
          content = busied (c.bufs i);
          after = refl;
          inside = s.bounded i (first_such-has (λ x. holds dev sector (c.bufs x)) i xs ho);
          was_free = e;
          is_busy = refl;
          its_dev = at.0;
          its_sector = at.1;
          source = inl held;
        })
  ]
  answer-Grants me dev sector k c d xs b none none s ho hp h = absurd (let q = h in cc)
  answer-Grants me dev sector k c d xs b none (some i) s ho hp h =
      let free = first_such-passes (λ x. is_free (c.bufs x)) i (reverse xs) hp in
      named-Grants dev sector c d b i (put_buf i (fresh dev sector) c) h (record {
        content = fresh dev sector;
        after = refl;
        inside =
            s.bounded i
              (sym (has-reverse i xs) ∙ first_such-has (λ x. is_free (c.bufs x)) i (reverse xs) hp);
        was_free = ground (arith, free);
        is_busy = refl;
        its_dev = refl;
        its_sector = refl;
        source =
            inr (λ x lt. none-passes (λ x. holds dev sector (c.bufs x)) x xs (s.every x lt) ho);
      })

  pub bget-Grants :
      (me : Option ℕ) (dev sector : ℕ) (k : Kernel K) (c d : Cache) (xs : List ℕ) (b : ℕ)
      → IsCache c xs
      → bget buf_at lock_at me dev sector k c ≡ got b d
      → Grants dev sector c b d
  bget-Grants me dev sector k c d xs b s h =
      answer-Grants me dev sector k c d xs b _ _ s refl refl
        (sym (bget-eq-answer buf_at lock_at me dev sector k c xs s.ring s.size) ∙ h)

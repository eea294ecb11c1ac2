-- ===== src/Bio/Order.antt =====
-- The ring of buffers as a list, the most recently used first, and what bget and brelse do to it.
use mathlib.Core.Path.{subst}
use os_fall.Base.{
  ℕ, ◌≡◌, refl, sym, ◌≢◌, ◌⊎◌, inl, inr, true, false, none, some, List, ◌∷◌, ◌++◌, arith, ◌==◌,
  Bool-cases,
}
use os_fall.Str.{store}
use os_fall.Proc.Types.{Kernel}
use os_fall.Proc.Sleep.{wakeup}
use os_fall.Bio.{head, Cache, push_front, unlink, set_free, brelse}
use os_fall.Bio.Ring.{
  Fresh, Nodup, Fwd, Bwd, first, last, Nodup-split, Fresh-split, Fresh-first, Fwd-first, Fwd-at,
  Bwd-at, Fwd-unlink, Bwd-unlink, Fwd-push, Bwd-push,
}

-- The links of the cache lead over the buffers `xs` and back.
pub record Ring (c : Cache) (xs : List ℕ) : Type 0 where
  pub fwd : Fwd c.next head xs head
  pub bwd : Bwd c.prev head xs head
  pub fresh_head : Fresh head xs
  pub nodup : Nodup xs

pub push_front-Ring :
    (c : Cache) (b : ℕ) (xs : List ℕ)
    → b ≢ head
    → Fresh b xs
    → Ring c xs
    → Ring (push_front b c) (b ∷ xs)
unfolding push_front
push_front-Ring c b xs ne f r =
    let at : c.next head ≡ first xs head = Fwd-first c.next head xs head r.fwd in
    let kept : store c.next b (c.next head) head ≡ first xs head = ground (arith, ne, at) in
    record {
      fwd = Fwd-push c.next head b xs head ne f r.fresh_head r.fwd;
      bwd =
          subst (λ z. Bwd (store (store c.prev b head) z b) head (b ∷ xs) head) (sym kept)
            (Bwd-push c.prev head b xs head ne f r.fresh_head r.nodup r.bwd);
      fresh_head = ((λ e. ne (sym e)), r.fresh_head);
      nodup = (f, r.nodup);
    }

pub unlink-Ring :
    (c : Cache) (ys : List ℕ) (b : ℕ) (zs : List ℕ)
    → Ring c (ys ++ (b ∷ zs))
    → Ring (unlink b c) (ys ++ zs)
unfolding unlink
unlink-Ring c ys b zs r =
    let after : c.next b ≡ first zs head = Fwd-at c.next head ys b zs head r.fwd in
    let before : c.prev b ≡ last head ys = Bwd-at c.prev head ys b zs head r.bwd in
    let (apart, nodup) = Nodup-split ys b zs r.nodup in
    let (ne, fresh_head) = Fresh-split head ys b zs r.fresh_head in
    let other : b ≢ first zs head = Fresh-first b ys zs head (λ e. ne (sym e)) apart in
    let kept : store c.prev (c.next b) (c.prev b) b ≡ last head ys =
      ground (arith, after, before, other) in
    record {
      fwd =
          subst (λ z. Fwd (store c.next z (c.next b)) head (ys ++ zs) head) (sym kept)
            (Fwd-unlink c.next head ys b zs head r.fresh_head r.nodup r.fwd);
      bwd =
          subst (λ z. Bwd (store c.prev z (c.prev b)) head (ys ++ zs) head) (sym after)
            (subst (λ z. Bwd (store c.prev (first zs head) z) head (ys ++ zs) head) (sym before)
              (Bwd-unlink c.prev head ys b zs head r.fresh_head r.nodup r.bwd));
      fresh_head = fresh_head;
      nodup = nodup;
    }

-- The cache after the release of `b`: the buffer is free, is the most recently used, and no other changes.
pub record Released (c : Cache) (ys : List ℕ) (b : ℕ) (zs : List ℕ) (d : Cache) : Type 0 where
  pub order : Ring d (b ∷ (ys ++ zs))
  pub freed : d.bufs b ≡ record (c.bufs b) { busy = false }
  pub others : (x : ℕ) → x ≢ b → d.bufs x ≡ c.bufs x

set_free-Released :
    (c : Cache) (ys : List ℕ) (b : ℕ) (zs : List ℕ)
    → Ring c (ys ++ (b ∷ zs))
    → Released c ys b zs (set_free b c)
unfolding set_free
set_free-Released c ys b zs r =
    let ring =
      push_front-Ring (unlink b c) b (ys ++ zs)
        (λ e. (Fresh-split head ys b zs r.fresh_head).0 (sym e)) (Nodup-split ys b zs r.nodup).0
        (unlink-Ring c ys b zs r) in
    record {
      order = record {
        fwd = ring.fwd;
        bwd = ring.bwd;
        fresh_head = ring.fresh_head;
        nodup = ring.nodup;
      };
      freed = let own : (b == b) ≡ true = ground arith in rw own refl;
      others = λ x ne. let other : (x == b) ≡ false = ground arith in rw other refl;
    }

module _ {K : Type 0} (buf_at : ℕ → ℕ) (lock_at : ℕ) where
  -- brelse of a buffer that the ring has panics exactly if it is not busy. Else the buffer is busy no
  -- more, the ring has it in front of the others, which keep their order in both directions, nothing
  -- else of the cache changes, and its address has been given to wakeup.
  pub brelse_lem :
      (k : Kernel K) (c : Cache) (ys : List ℕ) (b : ℕ) (zs : List ℕ)
      → Ring c (ys ++ (b ∷ zs))
      → (((c.bufs b).busy ≡ false) × (brelse buf_at lock_at b k c ≡ none))
        ⊎ (((c.bufs b).busy ≡ true)
            × (d : Cache) × (brelse buf_at lock_at b k c ≡ some (d, wakeup (buf_at b) k))
            × Released c ys b zs d)
  unfolding brelse
  brelse_lem k c ys b zs r = elim (Bool-cases (c.bufs b).busy) [
    | inr e ↦ inl (e, rw e refl)
    | inl e ↦ inr (e, set_free b c, rw e refl, set_free-Released c ys b zs r)
  ]

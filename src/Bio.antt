-- ===== src/Bio.antt =====
-- xv62/xv6/kernel/bio.c: the cache of disk blocks, its buffers on a ring in both directions. A buffer is
-- named by its index in `bcache.buf`, and the index behind the last stands for `bcache.head`. A call
-- runs under the lock of the cache as one step; bget ends at a `sleep`, and starts anew when it
-- returns. The bytes of a block are not touched here.
pub mod Ring
pub mod Order
pub mod Search
pub mod Invariant
pub mod Grant
pub mod Users
mod Tests
use os_fall.Base.{
  ℕ, zero, suc, ◌+◌, ◌-◌, ◌*◌, ◌/◌, ◌%◌, ◌^◌, ◌≤◌, ◌<◌, min, ◌≡◌, refl, sym, ap, ◌∙◌, ◌≢◌, ◌↔◌, ◌⊎◌,
  inl, inr, Bool, true, false, not, ◌&&◌, ◌||◌, Option, none, some, List, [], ◌∷◌, ◌++◌, map, arith,
  ltb, leb, ◌==◌, if◌then◌else◌, ltb→lt, leb→le, ==_iff, Bool-cases, Option-cases, length,
  get_elem?, get_or, set, take, replicate, modify, find_index, length-append, find_index_lem,
  length-set, length-modify, modify-modify, get_elem?-set_self, get_elem?-set_ne,
  get_elem?-modify_self, get_elem?-modify_ne, get_elem?-lt, length-replicate, word_size, add32,
  sub32, slt, slt-ltb, add32-sub32,
}
use os_fall.Str.{store}
use os_fall.Proc.Types.{Kernel, Result}
use os_fall.Proc.Sleep.{sleep, sleep_return, wakeup}

-- NBUF
abbrev pub nbuf : ℕ
nbuf = 10

-- `&bcache.head`
abbrev pub head : ℕ
head = nbuf

-- The device -1.
abbrev pub no_dev : ℕ
no_dev = 4294967295

-- `struct buf` without its links and bytes; B_BUSY, B_VALID and B_DIRTY of `flags`.
pub record Buf : Type 0 where
  pub busy : Bool
  pub valid : Bool
  pub dirty : Bool
  pub dev : ℕ
  pub sector : ℕ

-- `bcache`: the buffers, and the links of the buffers and of `head`.
pub record Cache : Type 0 where
  pub bufs : ℕ → Buf
  pub next : ℕ → ℕ
  pub prev : ℕ → ℕ

abbrev pub put_buf : ℕ → Buf → Cache → Cache
put_buf b v c = record c { bufs = λ x. if x == b then v else c.bufs x }

-- A buffer in front of all the others, by its four writes.
pub push_front : ℕ → Cache → Cache
push_front b c =
    let c1 : Cache = record c { next = store c.next b (c.next head); prev = store c.prev b head } in
    let c2 : Cache = record c1 { prev = store c1.prev (c1.next head) b } in
    record c2 { next = store c2.next head b }

-- `b->next->prev = b->prev; b->prev->next = b->next;`
pub unlink : ℕ → Cache → Cache
unlink b c =
    let c1 : Cache = record c { prev = store c.prev (c.next b) (c.prev b) } in
    record c1 { next = store c1.next (c1.prev b) (c1.next b) }

-- The loop of binit, from the buffer `b` on.
pub link_from : ℕ → ℕ → Cache → Cache
unfolding push_front
link_from zero b c = c
link_from (suc n) b c =
    link_from n (b + 1) (push_front b (put_buf b (record (c.bufs b) { dev = no_dev }) c))

-- The cache before binit is zero.
pub binit : Cache
unfolding link_from
binit = link_from nbuf 0 (record {
  bufs = λ x. record { busy = false; valid = false; dirty = false; dev = 0; sector = 0 };
  next = λ x. if x == head then head else 0;
  prev = λ x. if x == head then head else 0;
})

-- `b->dev == dev && b->sector == sector`
abbrev pub holds : ℕ → ℕ → Buf → Bool
holds dev sector v = v.dev == dev && v.sector == sector

abbrev pub is_free : Buf → Bool
is_free v = not v.busy

-- A loop from the buffer `p` along the links down to `head`, for a buffer that passes a test.
pub scan_links : (ℕ → ℕ) → (ℕ → Bool) → ℕ → ℕ → Option ℕ
scan_links link test zero p = none
scan_links link test (suc rounds) p =
    let rest = scan_links link test rounds (link p) in
    if p == head then none else if test p then some p else rest

-- How a run of bget ends: with a buffer, in a `sleep` on one, or in its panic.
pub data Ending (K : Type 0) : Type 0 where
  got : ℕ → Cache → Ending K
  waits : ℕ → Result (Kernel K) → Ending K
  no_buffers : Ending K

-- The buffer with the flag B_BUSY set.
abbrev pub busied : Buf → Buf
busied v = record v { busy = true }

abbrev pub fresh : ℕ → ℕ → Buf
fresh d s = record { busy = true; valid = false; dirty = false; dev = d; sector = s }

-- brelse behind its test: the buffer in front, without B_BUSY.
pub set_free : ℕ → Cache → Cache
unfolding unlink push_front
set_free b c =
    let c1 = push_front b (unlink b c) in put_buf b (record (c1.bufs b) { busy = false }) c1

-- `buf_at` gives the addresses of the buffers, `lock_at` is that of the lock.
module _ {K : Type 0} (buf_at : ℕ → ℕ) (lock_at : ℕ) where
  -- A buffer that holds the sector: it is taken, or waited for.
  abbrev pub take_cached : Option ℕ → Kernel K → Cache → ℕ → Ending K
  take_cached me k c b =
      if (c.bufs b).busy
      then waits b (sleep me (buf_at b) lock_at k)
      else got b (put_buf b (busied (c.bufs b)) c)

  -- The rounds suffice for `nbuf` buffers and `head`.
  pub bget : Option ℕ → ℕ → ℕ → Kernel K → Cache → Ending K
  unfolding scan_links
  bget me dev sector k c =
      elim (scan_links c.next (λ b. holds dev sector (c.bufs b)) (nbuf + 1) (c.next head)) [
        | some b ↦ take_cached me k c b
        | none ↦ elim (scan_links c.prev (λ b. is_free (c.bufs b)) (nbuf + 1) (c.prev head)) [
          | some b ↦ got b (put_buf b (fresh dev sector) c)
          | none ↦ no_buffers
        ]
      ]

  -- `goto loop`, once the `sleep` returns.
  pub bget_return : ℕ → ℕ → ℕ → Kernel K → Cache → Ending K
  unfolding bget
  bget_return me dev sector k c = bget (some me) dev sector (sleep_return me k) c

  -- `none` is the panic.
  pub brelse : ℕ → Kernel K → Cache → Option (Cache × Kernel K)
  unfolding set_free
  brelse b k c = if (c.bufs b).busy then some (set_free b c, wakeup (buf_at b) k) else none

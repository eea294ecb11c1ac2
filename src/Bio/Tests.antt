-- ===== src/Bio/Tests.antt =====
-- Runs of bget and brelse.
use os_fall.Base.{ℕ, ◌+◌, ◌<◌, ◌≡◌, refl, ◌⊎◌, true, false, none, some, [], ◌∷◌}
use os_fall.Proc.Types.{Kernel, unused}
use os_fall.Proc.Sleep.{wakeup}
use os_fall.Bio.{nbuf, no_dev, Cache, put_buf, holds, got, fresh, binit, bget, brelse}
use os_fall.Bio.Order.{Ring, Released, brelse_lem}
use os_fall.Bio.Search.{Answers, cached_in, free_in, bget_lem}
use os_fall.Bio.Invariant.{starts, binit-IsCache}
use os_fall.Bio.Users.{one_user}

abbrev kernel : Kernel Unit
kernel = record {
  procs = [];
  past = unused;
  initproc = none;
  nextpid = 1;
  total_tickets = 0;
  rest = tt;
}

abbrev at : ℕ → ℕ
at b = 1000 + b

abbrev first_got : Cache
first_got = put_buf 0 (fresh 1 7) binit

-- Nothing is in the cache: the least recently used buffer is taken.
gets_first : bget at 900 (some 0) 1 7 kernel binit ≡ got 0 first_got
unfolding bget binit
gets_first = refl

bget_lem_example :
    Answers at 900
      (some 0)
      1
      7
      kernel
      binit
      (cached_in 1 7 binit (9 ∷ 8 ∷ 7 ∷ 6 ∷ 5 ∷ 4 ∷ 3 ∷ 2 ∷ 1 ∷ 0 ∷ []))
      (free_in binit (9 ∷ 8 ∷ 7 ∷ 6 ∷ 5 ∷ 4 ∷ 3 ∷ 2 ∷ 1 ∷ 0 ∷ []))
      (bget at 900 (some 0) 1 7 kernel binit)
bget_lem_example =
    bget_lem at 900 (some 0) 1 7 kernel binit (9 ∷ 8 ∷ 7 ∷ 6 ∷ 5 ∷ 4 ∷ 3 ∷ 2 ∷ 1 ∷ 0 ∷ [])
      binit-IsCache.ring refl

first_got-Ring : Ring first_got (9 ∷ 8 ∷ 7 ∷ 6 ∷ 5 ∷ 4 ∷ 3 ∷ 2 ∷ 1 ∷ 0 ∷ [])
first_got-Ring = record {
  fwd = binit-IsCache.ring.fwd;
  bwd = binit-IsCache.ring.bwd;
  fresh_head = binit-IsCache.ring.fresh_head;
  nodup = binit-IsCache.ring.nodup;
}

brelse_lem_example :
    (((first_got.bufs 0).busy ≡ false) × (brelse at 900 0 kernel first_got ≡ none))
    ⊎ (((first_got.bufs 0).busy ≡ true)
        × (d : Cache) × (brelse at 900 0 kernel first_got ≡ some (d, wakeup (at 0) kernel))
        × Released first_got (9 ∷ 8 ∷ 7 ∷ 6 ∷ 5 ∷ 4 ∷ 3 ∷ 2 ∷ 1 ∷ []) 0 [] d)
brelse_lem_example =
    brelse_lem at 900 kernel first_got (9 ∷ 8 ∷ 7 ∷ 6 ∷ 5 ∷ 4 ∷ 3 ∷ 2 ∷ 1 ∷ []) 0 [] first_got-Ring

one_user_example :
    ((binit.bufs 0).busy ≡ false)
    × ((first_got.bufs 0).busy ≡ true)
    × (0 < nbuf)
    × (holds 1 7 (first_got.bufs 0) ≡ true)
    × ((x : ℕ) → x < nbuf → holds 1 7 (first_got.bufs x) ≡ true → (1 ≡ no_dev) ⊎ (x ≡ 0))
one_user_example = one_user at 900 (some 0) 1 7 kernel binit first_got 0 starts gets_first

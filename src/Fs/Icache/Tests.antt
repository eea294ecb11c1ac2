-- ===== src/Fs/Icache/Tests.antt =====
-- Runs of the calls on a cache with two slots.
use os_fall.Base.{
  ℕ, zero, suc, ◌+◌, ◌<◌, ◌≡◌, refl, inr, Bool, true, false, none, some, List, [], ◌∷◌, arith,
  get_elem?,
}
use os_fall.Proc.Types.{Kernel, unused}
use os_fall.Fs.Inode.{Inode}
use os_fall.Fs.Icache.{iget, ilock, iunlock, search_from}
use os_fall.Fs.Icache.Find.{SlotHas}
use os_fall.Fs.Icache.Holders.{Held, refs, IcacheRun, starts, gets, locks}
use os_fall.Fs.Icache.Counts.{Names}
use os_fall.Fs.Icache.Sharing.{one_slot}

abbrev kernel : Kernel Unit
kernel = record {
  procs = [];
  past = unused;
  initproc = none;
  nextpid = 1;
  total_tickets = 0;
  rest = tt;
}

abbrev chan : ℕ → ℕ
chan i = 1000 + i

-- A slot with this device, number, count and I_BUSY.
abbrev slot : ℕ → ℕ → ℕ → Bool → Inode
slot dev inum ref busy = record {
  dev = dev;
  inum = inum;
  ref = ref;
  busy = busy;
  valid = false;
  type = 0;
  major = 0;
  minor = 0;
  nlink = 0;
  size = 0;
  addrs = λ i. 0;
}

abbrev empty_cache : List Inode
empty_cache = slot 0 0 0 false ∷ slot 0 0 0 false ∷ []

gets_first_free : iget 1 7 empty_cache ≡ some (0, slot 1 7 1 false ∷ slot 0 0 0 false ∷ [])
unfolding iget search_from
gets_first_free = refl

gets_cached :
    iget 1 7 (slot 1 7 1 true ∷ slot 1 8 1 false ∷ [])
    ≡ some (0, slot 1 7 2 true ∷ slot 1 8 1 false ∷ [])
unfolding iget search_from
gets_cached = refl

cache_full : iget 1 9 (slot 1 7 2 true ∷ slot 1 8 1 false ∷ []) ≡ none
unfolding iget search_from
cache_full = refl

unlocks_busy_only : iunlock chan 0 (slot 1 7 1 false) empty_cache kernel ≡ none
unfolding iunlock
unlocks_busy_only = refl

abbrev one_held : List Inode
one_held = slot 1 7 1 false ∷ slot 0 0 0 false ∷ []

empty_unused : (n : ℕ) (ip : Inode) → get_elem? empty_cache n ≡ some ip → ip.ref ≡ 0
empty_unused zero ip h = let q = h in cc
empty_unused (suc zero) ip h = let q = h in cc
empty_unused (suc (suc n)) ip h = absurd (let q = h in cc)

abbrev held : ℕ → ℕ → Held
held i inum = record { at = i; dev = 1; inum = inum }

run_one : IcacheRun Unit chan one_held (held 0 7 ∷ [])
run_one =
    gets empty_cache one_held [] 1 7 0 (starts empty_cache empty_unused) (omega arith)
      gets_first_free

locks_it :
    ilock chan (some 0) 900 0 (slot 1 7 1 false) one_held kernel
    ≡ some (inr (slot 1 7 1 true ∷ slot 0 0 0 false ∷ []))
unfolding ilock
locks_it = refl

run_locked : IcacheRun Unit chan (slot 1 7 1 true ∷ slot 0 0 0 false ∷ []) (held 0 7 ∷ [])
run_locked =
    locks one_held (slot 1 7 1 true ∷ slot 0 0 0 false ∷ []) (held 0 7 ∷ []) (some 0) 900 0
      (slot 1 7 1 false) kernel run_one locks_it

gets_other :
    iget 1 8 (slot 1 7 1 true ∷ slot 0 0 0 false ∷ [])
    ≡ some (1, slot 1 7 1 true ∷ slot 1 8 1 false ∷ [])
unfolding iget search_from
gets_other = refl

run_two : IcacheRun Unit chan (slot 1 7 1 true ∷ slot 1 8 1 false ∷ []) (held 1 8 ∷ held 0 7 ∷ [])
run_two =
    gets (slot 1 7 1 true ∷ slot 0 0 0 false ∷ []) _ _ 1 8 1 run_locked (omega arith) gets_other

abbrev shared_cache : List Inode
shared_cache = slot 1 7 2 true ∷ slot 1 8 1 false ∷ []

run_shared : IcacheRun Unit chan shared_cache (held 0 7 ∷ held 1 8 ∷ held 0 7 ∷ [])
run_shared =
    gets (slot 1 7 1 true ∷ slot 1 8 1 false ∷ []) shared_cache (held 1 8 ∷ held 0 7 ∷ []) 1 7 0
      run_two (omega arith) gets_cached

one_slot_example :
    ((held 0 7).at ≡ (held 0 7).at)
    × SlotHas
        (λ ip.
          Names (held 0 7) ip
          × (ip.ref ≡ refs 0 (held 0 7 ∷ held 1 8 ∷ held 0 7 ∷ []))
          × (0 < refs 0 (held 0 7 ∷ held 1 8 ∷ held 0 7 ∷ [])))
        shared_cache
        0
one_slot_example =
    one_slot Unit chan shared_cache (held 0 7 ∷ held 1 8 ∷ held 0 7 ∷ []) 2 0 (held 0 7) (held 0 7)
      run_shared refl refl refl refl

-- ===== src/Fcheck/Root.antt =====
-- check_root_path: the entries `.` and `..` of the directories.
pub mod Laws
use os_fall.Base.{
  ℕ, zero, suc, ◌+◌, ◌-◌, ◌*◌, ◌/◌, ◌%◌, ◌^◌, ◌≤◌, ◌<◌, min, ◌≡◌, refl, sym, ap, ◌∙◌, ◌≢◌, ◌↔◌, ◌⊎◌,
  inl, inr, Bool, true, false, not, ◌&&◌, ◌||◌, Option, none, some, List, [], ◌∷◌, ◌++◌, map, arith,
  ltb, leb, ◌==◌, if◌then◌else◌, ltb→lt, leb→le, ==_iff, Bool-cases, Option-cases, length,
  get_elem?, get_or, set, take, replicate, modify, find_index, length-append, find_index_lem,
  length-set, length-modify, modify-modify, get_elem?-set_self, get_elem?-set_ne,
  get_elem?-modify_self, get_elem?-modify_ne, get_elem?-lt, length-replicate, word_size, add32,
  sub32, slt, slt-ltb, add32-sub32,
}
use os_fall.Str.{Bytes}
use os_fall.Fcheck.Check.{Check, pass, fail, ◌>>=◌, loop, no_root, bad_format}
use os_fall.Fcheck.Image.{
  Image, type_of, addr_of, inum_of, name_of, direct_count, entry_count, root_inode, t_dir,
}

-- `cur_path` and `par_path`
pub record Flags : Type 0 where
  pub cur : Bool
  pub par : Bool

abbrev pub no_flags : Flags
no_flags = record { cur = false; par = false }

abbrev pub both : Flags → Bool
both f = f.par && f.cur

-- `strcmp(".", name) == 0` and `strcmp("..", name) == 0`
abbrev pub is_dot : Bytes → Bool
is_dot n = n 0 == b'.' && n 1 == 0

abbrev pub is_dotdot : Bytes → Bool
is_dotdot n = n 0 == b'.' && n 1 == b'.' && n 2 == 0

module _ (img : Image) (i : ℕ) where
  -- Entry `k` of block `b`, in a directory with inode `i`. In the loop over the root the code writes 1
  -- for `i`.
  unfoldable pub entry_round : ℕ → ℕ → Flags → Check Flags
  entry_round b k f =
      if is_dot (name_of img b k)
      then (if inum_of img b k == i then pass (record f { cur = true }) else fail bad_format)
      else if is_dotdot (name_of img b k)
      then (if (not (i == 1) && inum_of img b k == i) || (i == 1 && not (inum_of img b k == i))
          then fail no_root
          else pass (record f { par = true }))
      else pass f

  -- The loop over `n` entries from entry `k`, left when both were seen.
  unfoldable pub scan_entries : ℕ → ℕ → ℕ → Flags → Check Flags
  scan_entries b zero k f = pass f
  scan_entries b (suc n) k f = entry_round b k f >>= λ g. elim (both g) [
    | true ↦ pass g
    | false ↦ scan_entries b n (k + 1) g
  ]

  -- The loop over `n` direct addresses from address `j`.
  unfoldable pub scan_blocks : ℕ → ℕ → Flags → Check Flags
  scan_blocks zero j f = pass f
  scan_blocks (suc n) j f =
      (if addr_of img i j == 0 then pass f else scan_entries (addr_of img i j) entry_count 0 f)
      >>= λ g. elim (both g) [ true ↦ pass g | false ↦ scan_blocks n (j + 1) g ]

  unfoldable pub check_dir : Flags → Check Flags
  check_dir f = scan_blocks direct_count 0 f >>= λ g.
      if not g.par || not g.cur then fail bad_format else pass g

module _ (img : Image) where
  unfoldable pub root_round : ℕ → Flags → Check Flags
  root_round i f =
      if i == root_inode
      then (if not (type_of img i == t_dir) then fail no_root else check_dir img i f)
      else pass f

  -- The flags are cleared before the loop and not in it.
  unfoldable pub other_round : ℕ → Flags → Check Flags
  other_round i f =
      if not (i == root_inode) && type_of img i == t_dir then check_dir img i f else pass f

  unfoldable pub check_root_path : Check Flags
  check_root_path =
      loop img.ninodes 0 root_round no_flags >>= λ _. loop img.ninodes 0 other_round no_flags

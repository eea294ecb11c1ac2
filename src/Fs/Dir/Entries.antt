-- ===== src/Fs/Dir/Entries.antt =====
-- The entries of a directory as the bytes of its file, and the loop over a block.
use os_fall.Base.{
  ℕ, zero, suc, ◌+◌, ◌*◌, ◌<◌, ◌≡◌, refl, sym, ap, ◌∙◌, ◌≢◌, ◌↔◌, inl, inr, true, false, Option,
  none, some, arith, Bool-cases,
}
use os_fall.Str.{Bytes}
use os_fall.Str.Compare.{AreBytes, text, strncmp_iff, strncmp-cong}
use os_fall.Fcheck.Image.{read16}
use os_fall.Fs.Dir.{namecmp, name_at, is_entry, scan_dirents}

-- An entry in use at offset `o` with the name.
abbrev pub IsEntry : Bytes → Bytes → ℕ → Type 0
IsEntry name m o = (read16 m o ≢ 0) × (text name 14 ≡ text (name_at m o) 14)

pub is_entry-IsEntry :
    (name m : Bytes) (o : ℕ)
    → AreBytes name
    → AreBytes m
    → (is_entry name m o ≡ true) ↔ IsEntry name m o
is_entry-IsEntry name m o hn hm =
    let same = strncmp_iff name (name_at m o) 14 hn (λ x. hm (o + 2 + x)) in
    (
      (λ e. (ground (arith, e), same.0 (ground (arith, e)))),
      (λ (used, named). let z = same.1 named in ground (arith, used, z)),
    )

-- The test reads 16 bytes.
pub is_entry-cong :
    (name m n : Bytes) (a o : ℕ)
    → ((y : ℕ) → y < 16 → m (a + y) ≡ n (o + y))
    → (is_entry name m a ≡ is_entry name n o) × (read16 m a ≡ read16 n o)
unfolding read16
is_entry-cong name m n a o h =
    let first : m a ≡ n o = ap m (omega arith) ∙ h 0 (omega arith) ∙ ap n (omega arith) in
    let second : m (a + 1) ≡ n (o + 1) = h 1 (omega arith) in
    let numbers : read16 m a ≡ read16 n o = rw (first, second) refl in
    let names : namecmp name (name_at m a) ≡ namecmp name (name_at n o) =
      strncmp-cong name (name_at m a) (name_at n o) 14
        (λ x lt. ap m (omega arith) ∙ h (2 + x) (omega arith) ∙ ap n (omega arith)) in
    (rw (numbers, names) refl, numbers)

-- What the loop over a block finds from the offset `a` on.
abbrev pub Scanned : Bytes → Bytes → ℕ → ℕ → Option ℕ → Type 0
Scanned name m a n none = (k : ℕ) → k < n → is_entry name m (a + 16 * k) ≡ false
Scanned name m a n (some c) =
    (j : ℕ) × (c ≡ a + 16 * j)
    × (j < n)
    × (is_entry name m (a + 16 * j) ≡ true)
    × ((k : ℕ) → k < j → is_entry name m (a + 16 * k) ≡ false)

no_entry_before :
    (name m : Bytes) (a j : ℕ)
    → is_entry name m a ≡ false
    → ((k : ℕ) → k < j → is_entry name m (a + 16 + 16 * k) ≡ false)
    → (k : ℕ) → k < suc j
    → is_entry name m (a + 16 * k) ≡ false
no_entry_before name m a j e h zero lt =
    let z : a + 16 * 0 ≡ a = omega arith in ap (is_entry name m) z ∙ e
no_entry_before name m a j e h (suc k) lt =
    let z : a + 16 * suc k ≡ a + 16 + 16 * k = omega arith in
    ap (is_entry name m) z ∙ h k (omega arith)

Scanned-cons :
    (name m : Bytes) (a n : ℕ) (o : Option ℕ)
    → is_entry name m a ≡ false
    → Scanned name m (a + 16) n o
    → Scanned name m a (suc n) o
Scanned-cons name m a n none e h = no_entry_before name m a n e h
Scanned-cons name m a n (some c) e (j, at, lt, hit, before) =
    let z : a + 16 + 16 * j ≡ a + 16 * suc j = omega arith in
    (
      suc j,
      at ∙ z,
      omega (arith, lt),
      ap (is_entry name m) (sym z) ∙ hit,
      no_entry_before name m a j e before,
    )

pub scan_dirents-Scanned : (n a : ℕ) (name m : Bytes) → Scanned name m a n (scan_dirents n a name m)
unfolding scan_dirents
scan_dirents-Scanned zero a name m = λ k lt. absurd (omega (arith, lt))
scan_dirents-Scanned (suc n) a name m = elim (Bool-cases (is_entry name m a)) [
  | inl e ↦
      let z : a + 16 * 0 ≡ a = omega arith in
      rw e (0, sym z, omega arith, ap (is_entry name m) z ∙ e, λ k lt. absurd (omega (arith, lt)))
  | inr e ↦ rw e (Scanned-cons name m a n _ e (scan_dirents-Scanned n (a + 16) name m))
]

-- ===== src/Fs/Inode/Words.antt =====
-- The words that a write leaves in memory.
use os_fall.Base.{ℕ, zero, suc, ◌+◌, ◌*◌, ◌≤◌, ◌<◌, ◌≡◌, refl, sym, ap, ◌∙◌, ◌⊎◌, inl, inr, arith}
use os_fall.Str.{Bytes}
use os_fall.Str.Compare.{AreBytes}
use os_fall.Fcheck.Image.{read16, read32}
use os_fall.Fs.Inode.{write16, write32, write_words}

pub write16-outside : (m : Bytes) (a v x : ℕ) → (x < a) ⊎ (a + 2 ≤ x) → write16 m a v x ≡ m x
unfolding write16
write16-outside m a v x h = ground (arith, h)

pub write32-outside : (m : Bytes) (a v x : ℕ) → (x < a) ⊎ (a + 4 ≤ x) → write32 m a v x ≡ m x
unfolding write32
write32-outside m a v x h = ground (arith, h)

pub read16-write16 : (m : Bytes) (a v : ℕ) → v < 65536 → read16 (write16 m a v) a ≡ v
unfolding read16 write16
read16-write16 m a v h = ground arith

pub read32-write32 : (m : Bytes) (a v : ℕ) → v < 4294967296 → read32 (write32 m a v) a ≡ v
unfolding read32 write32
read32-write32 m a v h = ground arith

pub write32-AreBytes : (m : Bytes) (a v : ℕ) → AreBytes m → AreBytes (write32 m a v)
unfolding write32
write32-AreBytes m a v h x = ground (arith, h x)

pub write16-AreBytes : (m : Bytes) (a v : ℕ) → AreBytes m → AreBytes (write16 m a v)
unfolding write16
write16-AreBytes m a v h x = ground (arith, h x)

-- Words that four places agree on.
pub read32-cong :
    (m k : Bytes) (a : ℕ) → ((x : ℕ) → a ≤ x → x < a + 4 → m x ≡ k x) → read32 m a ≡ read32 k a
unfolding read32
read32-cong m k a h = omega (
  arith,
  h a (omega arith) (omega arith),
  h (a + 1) (omega arith) (omega arith),
  h (a + 2) (omega arith) (omega arith),
  h (a + 3) (omega arith) (omega arith),
)

pub read16-cong :
    (m k : Bytes) (a : ℕ) → ((x : ℕ) → a ≤ x → x < a + 2 → m x ≡ k x) → read16 m a ≡ read16 k a
unfolding read16
read16-cong m k a h =
    omega (arith, h a (omega arith) (omega arith), h (a + 1) (omega arith) (omega arith))

pub write_words-outside :
    (m : Bytes) (a : ℕ) (f : ℕ → ℕ) (i n x : ℕ)
    → (x < a) ⊎ (a + 4 * n ≤ x)
    → write_words m a f i n x ≡ m x
unfolding write_words
write_words-outside m a f i zero x h = refl
write_words-outside m a f i (suc n) x h =
    write_words-outside (write32 m a (f i)) (a + 4) f (i + 1) n x
      (elim h [ inl e ↦ inl (omega arith) | inr e ↦ inr (omega arith) ])
    ∙ write32-outside m a (f i) x (elim h [ inl e ↦ inl e | inr e ↦ inr (omega arith) ])

pub write_words-AreBytes :
    (m : Bytes) (a : ℕ) (f : ℕ → ℕ) (i n : ℕ) → AreBytes m → AreBytes (write_words m a f i n)
unfolding write_words
write_words-AreBytes m a f i zero h = h
write_words-AreBytes m a f i (suc n) h =
    write_words-AreBytes (write32 m a (f i)) (a + 4) f (i + 1) n (write32-AreBytes m a (f i) h)

pub read32-write_words :
    (m : Bytes) (a : ℕ) (f : ℕ → ℕ) (i n j : ℕ)
    → j < n
    → f (i + j) < 4294967296
    → read32 (write_words m a f i n) (a + 4 * j) ≡ f (i + j)
unfolding write_words
read32-write_words m a f i zero j lt w = absurd (omega arith)
read32-write_words m a f i (suc n) zero lt w =
    let here : a + 4 * 0 ≡ a = omega arith in
    let same : f (i + 0) ≡ f i = ap f (omega arith) in
    ap (read32 (write_words (write32 m a (f i)) (a + 4) f (i + 1) n)) here
    ∙ read32-cong (write_words (write32 m a (f i)) (a + 4) f (i + 1) n) (write32 m a (f i)) a
        (λ x lo hi.
          write_words-outside (write32 m a (f i)) (a + 4) f (i + 1) n x (inl (omega arith)))
    ∙ read32-write32 m a (f i) (omega (arith, w, same))
    ∙ sym same
read32-write_words m a f i (suc n) (suc j) lt w =
    let there : a + 4 * suc j ≡ a + 4 + 4 * j = omega arith in
    let same : f (i + suc j) ≡ f (i + 1 + j) = ap f (omega arith) in
    ap (read32 (write_words (write32 m a (f i)) (a + 4) f (i + 1) n)) there
    ∙ read32-write_words (write32 m a (f i)) (a + 4) f (i + 1) n j (omega arith)
        (omega (arith, w, same))
    ∙ sym same

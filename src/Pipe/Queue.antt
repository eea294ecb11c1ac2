-- ===== src/Pipe/Queue.antt =====
-- The ring of a pipe as a queue of at most 512 bytes.
use os_fall.Base.{
  ℕ, zero, suc, ◌-◌, ◌%◌, ◌≤◌, ◌<◌, ◌≡◌, refl, sym, ap, ◌∙◌, ◌≢◌, true, false, List, [], ◌∷◌, ◌++◌,
  arith, ==_iff, length, word_size, add32, sub32,
}
use os_fall.Str.{Bytes, store}
use os_fall.Pipe.{Pipe, is_full, is_empty, put, front, advance}

abbrev pub drop : ℕ → List ℕ → List ℕ
drop zero xs = xs
drop (suc n) [] = []
drop (suc n) (x ∷ xs) = drop n xs

-- `n` bytes of the ring from the counter `r` on.
abbrev pub window : Bytes → ℕ → ℕ → List ℕ
window m r zero = []
window m r (suc n) = m (r % 512) ∷ window m (add32 r 1) n

-- The bytes between the counters.
abbrev pub count : Pipe → ℕ
count p = sub32 p.nwrite p.nread

abbrev pub contents : Pipe → List ℕ
contents p = window p.ring p.nread (count p)

abbrev pub room : Pipe → ℕ
room p = 512 - count p

-- The counters are words, and at most 512 apart.
pub record WellFormed (p : Pipe) : Type 0 where
  pub nread_word : p.nread < word_size
  pub nwrite_word : p.nwrite < word_size
  pub fits : count p ≤ 512

length-window : (m : Bytes) (r n : ℕ) → length (window m r n) ≡ n
length-window m r zero = refl
length-window m r (suc n) = ap suc (length-window m (add32 r 1) n)

pub length-contents : (p : Pipe) → length (contents p) ≡ count p
length-contents p = length-window p.ring p.nread (count p)

-- A write behind the window does not show in it.
window-store :
    (m : Bytes) (r d n at c : ℕ)
    → at ≡ add32 r d % 512
    → r < word_size
    → n ≤ d
    → d < 512
    → window (store m at c) r n ≡ window m r n
window-store m r d zero at c e hr hn hd = refl
window-store m r zero (suc n) at c e hr hn hd = absurd (omega arith)
window-store m r (suc d) (suc n) at c e hr hn hd =
    let other : store m at c (r % 512) ≡ m (r % 512) = ground arith in
    let tail =
      window-store m (add32 r 1) d n at c (omega arith) (omega arith) (omega arith) (omega arith) in
    ap (λ x. x ∷ window (store m at c) (add32 r 1) n) other ∙ ap (◌∷◌ (m (r % 512))) tail

snoc-eq : {xs ys : List ℕ} {a b : ℕ} → xs ≡ ys → a ≡ b → xs ++ (a ∷ []) ≡ ys ++ (b ∷ [])
snoc-eq p q = cc

window-snoc :
    (m : Bytes) (r n : ℕ)
    → r < word_size
    → window m r (suc n) ≡ window m r n ++ (m (add32 r n % 512) ∷ [])
window-snoc m r zero hr = let same : add32 r 0 ≡ r = omega arith in rw same
window-snoc m r (suc n) hr =
    let same : add32 r (suc n) ≡ add32 (add32 r 1) n = omega arith in
    ap (◌∷◌ (m (r % 512))) (rw (same, window-snoc m (add32 r 1) n (omega arith)))

pub count-put :
    (p : Pipe) (c : ℕ)
    → WellFormed p
    → is_full p ≡ false
    → (count (put p c) ≡ suc (count p)) × (count p < 512)
count-put p c w h =
    let n : p.nwrite ≢ add32 p.nread 512 = ground arith in
    (
      omega (arith, w.nread_word, w.nwrite_word, w.fits),
      omega (arith, w.nread_word, w.nwrite_word, w.fits),
    )

pub put-contents :
    (p : Pipe) (c : ℕ)
    → WellFormed p
    → is_full p ≡ false
    → contents (put p c) ≡ contents p ++ (c ∷ [])
put-contents p c w h =
    let (grows, below) = count-put p c w h in
    let same : add32 p.nread (count p) ≡ p.nwrite = omega (arith, w.nread_word, w.nwrite_word) in
    let at = p.nwrite % 512 in
    ap (window (put p c).ring p.nread) grows
    ∙ window-snoc (put p c).ring p.nread (count p) w.nread_word
    ∙ snoc-eq
        (window-store p.ring p.nread (count p) (count p) at c (ap (λ n. n % 512) (sym same))
          w.nread_word (omega arith) below)
        (ground (arith, same))

pub put-WellFormed : (p : Pipe) (c : ℕ) → WellFormed p → is_full p ≡ false → WellFormed (put p c)
put-WellFormed p c w h = record {
  nread_word = w.nread_word;
  nwrite_word = omega arith;
  fits = omega (arith, count-put p c w h);
}

count-advance : (p : Pipe) → WellFormed p → is_empty p ≡ false → count p ≡ suc (count (advance p))
count-advance p w h =
    let n : p.nread ≢ p.nwrite = ground arith in omega (arith, w.nread_word, w.nwrite_word, w.fits)

pub advance-contents :
    (p : Pipe) → WellFormed p → is_empty p ≡ false → contents p ≡ front p ∷ contents (advance p)
advance-contents p w h = ap (window p.ring p.nread) (count-advance p w h)

pub advance-WellFormed : (p : Pipe) → WellFormed p → is_empty p ≡ false → WellFormed (advance p)
advance-WellFormed p w h = record {
  nread_word = omega arith;
  nwrite_word = w.nwrite_word;
  fits = omega (arith, count-advance p w h, w.fits);
}

is_empty-count : (p : Pipe) → WellFormed p → is_empty p ≡ true → count p ≡ 0
is_empty-count p w h = let e : p.nread ≡ p.nwrite = (==_iff _ _).0 h in omega (arith, w.nwrite_word)

pub is_full-room : (p : Pipe) → WellFormed p → room p ≡ 0 → is_full p ≡ true
is_full-room p w h =
    let e : p.nwrite ≡ add32 p.nread 512 = omega (arith, w.nread_word, w.nwrite_word, w.fits) in
    (==_iff _ _).1 e

pub is_full-suc : (p : Pipe) (k : ℕ) → WellFormed p → room p ≡ suc k → is_full p ≡ false
is_full-suc p k w h =
    let e : p.nwrite ≢ add32 p.nread 512 = λ q. omega (arith, w.nread_word, w.nwrite_word, q) in
    ground arith

pub is_empty-contents : (p : Pipe) → WellFormed p → is_empty p ≡ true → contents p ≡ []
is_empty-contents p w h = ap (window p.ring p.nread) (is_empty-count p w h)

pub is_empty-ne : (p : Pipe) → WellFormed p → is_empty p ≡ false → contents p ≢ []
is_empty-ne p w h z = let e = sym (advance-contents p w h) ∙ z in cc

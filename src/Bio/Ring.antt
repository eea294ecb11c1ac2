-- ===== src/Bio/Ring.antt =====
-- Runs of links from one buffer to another: what the writes of bio.c do to them.
use os_fall.Base.{ℕ, ◌≡◌, sym, ◌≢◌, List, [], ◌∷◌, ◌++◌, arith}
use os_fall.Str.{store}

-- Every element differs from `p`.
abbrev pub Fresh : ℕ → List ℕ → Type 0
Fresh p [] = Unit
Fresh p (x ∷ xs) = (p ≢ x) × Fresh p xs

abbrev pub Nodup : List ℕ → Type 0
Nodup [] = Unit
Nodup (x ∷ xs) = Fresh x xs × Nodup xs

-- The links lead from `p` over `xs` to `q`.
abbrev pub Fwd : (ℕ → ℕ) → ℕ → List ℕ → ℕ → Type 0
Fwd link p [] q = link p ≡ q
Fwd link p (x ∷ xs) q = (link p ≡ x) × Fwd link x xs q

-- The back links lead from `q` over `xs`, from its end on, to `p`.
abbrev pub Bwd : (ℕ → ℕ) → ℕ → List ℕ → ℕ → Type 0
Bwd link p [] q = link q ≡ p
Bwd link p (x ∷ xs) q = (link x ≡ p) × Bwd link x xs q

pub Fresh-split :
    (p : ℕ) (ys : List ℕ) (b : ℕ) (zs : List ℕ)
    → Fresh p (ys ++ (b ∷ zs))
    → (p ≢ b) × Fresh p (ys ++ zs)
Fresh-split p [] b zs h = h
Fresh-split p (y ∷ ys) b zs (ne, h) = let (l, r) = Fresh-split p ys b zs h in (l, (ne, r))

-- An element of a list without duplicates is fresh for the others.
pub Nodup-split :
    (ys : List ℕ) (b : ℕ) (zs : List ℕ)
    → Nodup (ys ++ (b ∷ zs))
    → Fresh b (ys ++ zs) × Nodup (ys ++ zs)
Nodup-split [] b zs h = h
Nodup-split (y ∷ ys) b zs (f, h) =
    let (l, r) = Nodup-split ys b zs h in
    let (ne, g) = Fresh-split y ys b zs f in (((λ e. ne (sym e)), l), (g, r))

-- A write elsewhere.
Fwd-store :
    (link : ℕ → ℕ) (a v p : ℕ) (xs : List ℕ) (q : ℕ)
    → a ≢ p
    → Fresh a xs
    → Fwd link p xs q
    → Fwd (store link a v) p xs q
Fwd-store link a v p [] q ne f h = ground (arith, h)
Fwd-store link a v p (x ∷ xs) q ne (nx, f) (here, h) =
    (ground (arith, here), Fwd-store link a v x xs q nx f h)

Bwd-store :
    (link : ℕ → ℕ) (a v p : ℕ) (xs : List ℕ) (q : ℕ)
    → a ≢ q
    → Fresh a xs
    → Bwd link p xs q
    → Bwd (store link a v) p xs q
Bwd-store link a v p [] q ne f h = ground (arith, h)
Bwd-store link a v p (x ∷ xs) q ne (nx, f) (here, h) =
    (ground (arith, here), Bwd-store link a v x xs q ne f h)

-- The first element, or what follows the list.
abbrev pub first : List ℕ → ℕ → ℕ
first [] q = q
first (x ∷ xs) q = x

-- The last element, or what stands before the list.
abbrev pub last : ℕ → List ℕ → ℕ
last p [] = p
last p (x ∷ xs) = last x xs

pub Fwd-first : (link : ℕ → ℕ) (p : ℕ) (xs : List ℕ) (q : ℕ) → Fwd link p xs q → link p ≡ first xs q
Fwd-first link p [] q h = h
Fwd-first link p (x ∷ xs) q h = h.0

-- A link of `p` to where the one of `b` leads.
pub Fwd-redirect :
    (link : ℕ → ℕ) (b p : ℕ) (xs : List ℕ) (q : ℕ)
    → Fresh p xs
    → Fwd link b xs q
    → Fwd (store link p (link b)) p xs q
Fwd-redirect link b p [] q f h = ground (arith, h)
Fwd-redirect link b p (x ∷ xs) q (ne, f) (here, h) =
    (ground (arith, here), Fwd-store link p (link b) x xs q ne f h)

-- A back link to `p` of the first element.
pub Bwd-redirect :
    (link : ℕ → ℕ) (b p : ℕ) (xs : List ℕ) (q : ℕ)
    → Fresh q xs
    → Nodup xs
    → Bwd link b xs q
    → Bwd (store link (first xs q) p) p xs q
Bwd-redirect link b p [] q f n h = ground arith
Bwd-redirect link b p (x ∷ xs) q (ne, f) (nx, n) (here, h) =
    (ground arith, Bwd-store link x p x xs q (λ e. ne (sym e)) nx h)

Fresh-last : (p y : ℕ) (ys zs : List ℕ) → p ≢ y → Fresh p (ys ++ zs) → p ≢ last y ys
Fresh-last p y [] zs ne f = ne
Fresh-last p y (x ∷ ys) zs ne (nx, f) = Fresh-last p x ys zs nx f

pub Fresh-first : (p : ℕ) (ys zs : List ℕ) (q : ℕ) → p ≢ q → Fresh p (ys ++ zs) → p ≢ first zs q
Fresh-first p [] [] q ne f = ne
Fresh-first p [] (z ∷ zs) q ne f = f.0
Fresh-first p (y ∷ ys) zs q ne f = Fresh-first p ys zs q ne f.1

-- Where the link of an element leads, and where its back link does.
pub Fwd-at :
    (link : ℕ → ℕ) (p : ℕ) (ys : List ℕ) (b : ℕ) (zs : List ℕ) (q : ℕ)
    → Fwd link p (ys ++ (b ∷ zs)) q
    → link b ≡ first zs q
Fwd-at link p [] b zs q h = Fwd-first link b zs q h.1
Fwd-at link p (y ∷ ys) b zs q h = Fwd-at link y ys b zs q h.1

pub Bwd-at :
    (link : ℕ → ℕ) (p : ℕ) (ys : List ℕ) (b : ℕ) (zs : List ℕ) (q : ℕ)
    → Bwd link p (ys ++ (b ∷ zs)) q
    → link b ≡ last p ys
Bwd-at link p [] b zs q h = h.0
Bwd-at link p (y ∷ ys) b zs q h = Bwd-at link y ys b zs q h.1

-- The links once an element has been taken out.
pub Fwd-unlink :
    (link : ℕ → ℕ) (p : ℕ) (ys : List ℕ) (b : ℕ) (zs : List ℕ) (q : ℕ)
    → Fresh p (ys ++ (b ∷ zs))
    → Nodup (ys ++ (b ∷ zs))
    → Fwd link p (ys ++ (b ∷ zs)) q
    → Fwd (store link (last p ys) (link b)) p (ys ++ zs) q
Fwd-unlink link p [] b zs q f n h = Fwd-redirect link b p zs q f.1 h.1
Fwd-unlink link p (y ∷ ys) b zs q (ne, f) (g, n) (here, h) =
    let other = Fresh-last p y ys (b ∷ zs) ne f in
    (ground (arith, here), Fwd-unlink link y ys b zs q g n h)

pub Bwd-unlink :
    (link : ℕ → ℕ) (p : ℕ) (ys : List ℕ) (b : ℕ) (zs : List ℕ) (q : ℕ)
    → Fresh q (ys ++ (b ∷ zs))
    → Nodup (ys ++ (b ∷ zs))
    → Bwd link p (ys ++ (b ∷ zs)) q
    → Bwd (store link (first zs q) (last p ys)) p (ys ++ zs) q
Bwd-unlink link p [] b zs q f n h = Bwd-redirect link b p zs q f.1 n.1 h.1
Bwd-unlink link p (y ∷ ys) b zs q (ne, f) (g, n) (here, h) =
    let other = Fresh-first y ys zs q (λ e. ne (sym e)) (Fresh-split y ys b zs g).1 in
    (ground (arith, here), Bwd-unlink link y ys b zs q f n h)

-- The links once a new element has been put in front.
pub Fwd-push :
    (link : ℕ → ℕ) (p b : ℕ) (xs : List ℕ) (q : ℕ)
    → b ≢ p
    → Fresh b xs
    → Fresh p xs
    → Fwd link p xs q
    → Fwd (store (store link b (link p)) p b) p (b ∷ xs) q
Fwd-push link p b xs q ne fb fp h = (
  ground arith,
  Fwd-store (store link b (link p)) p b b xs q (λ e. ne (sym e)) fp
      (Fwd-redirect link p b xs q fb h),
)

pub Bwd-push :
    (link : ℕ → ℕ) (p b : ℕ) (xs : List ℕ) (q : ℕ)
    → b ≢ q
    → Fresh b xs
    → Fresh q xs
    → Nodup xs
    → Bwd link p xs q
    → Bwd (store (store link b p) (first xs q) b) p (b ∷ xs) q
Bwd-push link p b xs q ne fb fq n h =
    let other = Fresh-first b [] xs q ne fb in
    (ground arith, Bwd-redirect (store link b p) p b xs q fq n (Bwd-store link b p p xs q ne fb h))

-- ===== src/Str/Move.antt =====
-- What memset and memmove leave at each address.
use os_fall.Base.{
  ℕ, zero, suc, ◌+◌, ◌-◌, ◌%◌, ◌<◌, ◌≡◌, ap, ◌&&◌, false, ltb, leb, if◌then◌else◌, arith,
  Bool-cases, inl, inr,
}
use os_fall.Str.{Bytes, store, memset, copy_up, copy_down, memmove}

-- memset writes the low byte of `c` to the n bytes from `dst`, and nothing else.
pub memset_lem :
    (m : Bytes) (dst c n x : ℕ)
    → memset m dst c n x ≡ (if leb dst x && ltb x (dst + n) then c % 256 else m x)
unfolding memset
memset_lem m dst c zero x = ground arith
memset_lem m dst c (suc n) x = ground (arith, memset_lem (store m dst (c % 256)) (dst + 1) c n x)

shift : (m : Bytes) (d s x : ℕ) → d < x → m (s + 1 + (x - (d + 1))) ≡ m (s + (x - d))
shift m d s x h = ap m (omega arith)

-- Copying upwards is right when the destination does not start inside the source.
copy_up_lem :
    (m : Bytes) (d s n x : ℕ)
    → ltb s d && ltb d (s + n) ≡ false
    → copy_up m d s n x ≡ (if leb d x && ltb x (d + n) then m (s + (x - d)) else m x)
unfolding copy_up
copy_up_lem m d s zero x h = ground arith
copy_up_lem m d s (suc n) x h =
    ground (arith, copy_up_lem (store m d (m s)) (d + 1) (s + 1) n x, shift m d s x)

-- Copying downwards is right when the destination starts behind the source.
copy_down_lem :
    (m : Bytes) (d s n x : ℕ)
    → s < d
    → copy_down m d s n x ≡ (if leb d x && ltb x (d + n) then m (s + (x - d)) else m x)
unfolding copy_down
copy_down_lem m d s zero x h = ground arith
copy_down_lem m d s (suc n) x h =
    ground (arith, copy_down_lem (store m (d + n) (m (s + n))) d s n x)

-- memmove copies the n source bytes as they were before the call, also when the ranges overlap,
-- and changes no other address.
pub memmove_lem :
    (m : Bytes) (dst src n x : ℕ)
    → memmove m dst src n x ≡ (if leb dst x && ltb x (dst + n) then m (src + (x - dst)) else m x)
unfolding memmove
memmove_lem m dst src n x = elim (Bool-cases (ltb src dst && ltb dst (src + n))) [
  | inl e ↦ rw e (copy_down_lem m dst src n x (ground arith))
  | inr e ↦ rw e (copy_up_lem m dst src n x e)
]

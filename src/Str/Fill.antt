-- ===== src/Str/Fill.antt =====
-- memset of string.c.
use os_fall.Base.{ℕ, zero, suc, ◌+◌, ◌%◌, ◌≡◌, ◌&&◌, arith, ltb, leb, if◌then◌else◌}
use os_fall.Str.{Bytes, store, memset}

-- memset writes its byte to each of the `n` places, and nowhere else.
pub memset_lem :
    (m : Bytes) (dst c n x : ℕ)
    → memset m dst c n x ≡ (if leb dst x && ltb x (dst + n) then c % 256 else m x)
unfolding memset
memset_lem m dst c zero x = ground arith
memset_lem m dst c (suc n) x = ground (arith, memset_lem (store m dst (c % 256)) (dst + 1) c n x)

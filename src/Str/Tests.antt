-- ===== src/Str/Tests.antt =====
-- Runs of the string functions, and the theorems at concrete arrays.
use os_fall.Base.{◌%◌, ◌≡◌, refl}
use os_fall.Str.{Bytes, store, memmove, safestrcpy, strncpy}
use os_fall.Str.Move.{memmove_lem}

-- "ab" and "ac", each with its NUL.
abbrev ab : Bytes
ab = store (store (λ _. 0) 0 b'a') 1 b'b'

abbrev ac : Bytes
ac = store (store (λ _. 0) 0 b'a') 1 b'c'

abbrev counting : Bytes
counting x = x % 256

-- Overlapping move by one byte upwards.
memmove_overlap : memmove counting 1 0 4 4 ≡ 3
unfolding memmove
memmove_overlap = refl

strncpy_pads : strncpy counting ab 5 4 ≡ 0
unfolding strncpy
strncpy_pads = refl

safestrcpy_cuts : safestrcpy counting ab 2 1 ≡ 0
unfolding safestrcpy
safestrcpy_cuts = refl

memmove_lem_example : memmove counting 1 0 4 4 ≡ counting 3
memmove_lem_example = memmove_lem counting 1 0 4 4

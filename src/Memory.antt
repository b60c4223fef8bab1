-- ===== src/Memory.antt =====
-- Byte arrays of C: `memcpy`, stores by index and copying loops, as RPi/serialize.cpp and
-- server/serialize.cpp use them. An array is the list of its bytes, and an access past its end
-- is a fault, `none`.
use cg2111a_b.Base.{ℕ, zero, suc, ◌+◌, ◌*◌, ◌/◌, ◌%◌, ◌==◌, List, [], ◌∷◌, ◌++◌}
use cg2111a_b.Base.{Option, none, some, ◌>>=◌, ◌&&◌, if◌then◌else◌, leb, length, get_elem?, take}
pub mod Splice
pub mod Words

-- `dest[i] = v`.
abbrev pub store : List ℕ → ℕ → ℕ → Option (List ℕ)
store [] i v = none
store (x ∷ xs) zero v = some (v ∷ xs)
store (x ∷ xs) (suc i) v = do xs' ← store xs i v; some (x ∷ xs')

-- `dest[di++] = src[si++]`, `left` times.
unfoldable pub copy : List ℕ → ℕ → ℕ → List ℕ → ℕ → Option (List ℕ)
copy src zero si dest di = some dest
copy src (suc left) si dest di = do
  b ← get_elem? src si
  dest' ← store dest di b
  copy src left (suc si) dest' (suc di)

-- `bs` written over the front of an array.
abbrev pub overwrite : List ℕ → List ℕ → List ℕ
overwrite dest [] = dest
overwrite [] (b ∷ bs) = []
overwrite (x ∷ dest) (b ∷ bs) = b ∷ overwrite dest bs

-- `memcpy(dest, src, n)`.
unfoldable pub memcpy : List ℕ → List ℕ → ℕ → Option (List ℕ)
memcpy dest src n =
    if leb n (length dest) && leb n (length src) then some (overwrite dest (take n src)) else none

-- A word of `n` bytes in memory, the lowest byte first.
abbrev pub le_bytes : ℕ → ℕ → List ℕ
le_bytes zero w = []
le_bytes (suc n) w = (w % 256) ∷ le_bytes n (w / 256)

abbrev pub le_word : List ℕ → ℕ
le_word [] = 0
le_word (b ∷ bs) = b + 256 * le_word bs

-- The string in an array; one without an end is read past the array's end, a fault.
abbrev pub c_string : List ℕ → Option (List ℕ)
c_string [] = none
c_string (c ∷ cs) =
    let rest = (do name ← c_string cs; some (c ∷ name)) in if c == 0 then some [] else rest

-- ===== src/Serialize/Checksum.antt =====
-- The checksum of RPi/serialize.cpp: the exclusive or of the data bytes.
use cg2111a_b.Base.{
  ℕ, zero, suc, ◌+◌, ◌%◌, ◌≤◌, ◌<◌, ◌≡◌, ◌≢◌, refl, arith, bit_xor, List, [], ◌∷◌, ◌++◌, none, some,
  length, take, drop, drop_cons, get_elem?-some, get_elem?-none, IsBytes,
}
use cg2111a_b.Base.Xor.{bit_xor-lt, bit_xor_cancel, bit_xor_cancel_left}
use native.Mathlib.Decide.{dec_lt}
use cg2111a_b.Serialize.{checksum_loop}

abbrev pub xor_all : ℕ → List ℕ → ℕ
xor_all acc [] = acc
xor_all acc (b ∷ bs) = xor_all (bit_xor acc b % 256) bs

-- The loop reads the `left` bytes from index `i` on, when the buffer has them.
pub checksum_loop_lem :
    (buffer : List ℕ) (left i acc : ℕ)
    → i + left ≤ length buffer
    → checksum_loop buffer left i acc ≡ some (xor_all acc (take left (drop i buffer)))
unfolding checksum_loop
checksum_loop_lem buffer zero i acc h = refl
checksum_loop_lem buffer (suc left) i acc h =
    let (b, e) = get_elem?-some buffer i (omega arith) in
    rw (e, drop_cons i buffer e)
      (checksum_loop_lem buffer left (suc i) (bit_xor acc b % 256) (omega arith))

-- Otherwise it runs past the end.
pub checksum_loop_fault :
    (buffer : List ℕ) (left i acc : ℕ)
    → i ≤ length buffer
    → length buffer < i + left
    → checksum_loop buffer left i acc ≡ none
unfolding checksum_loop
checksum_loop_fault buffer zero i acc h k = absurd (omega arith)
checksum_loop_fault buffer (suc left) i acc h k = elim (dec_lt i (length buffer)) [
  | yes p ↦
      let (b, e) = get_elem?-some buffer i p in
      rw e
        (checksum_loop_fault buffer left (suc i) (bit_xor acc b % 256) (omega arith) (omega arith))
  | no p ↦ rw (get_elem?-none buffer i (omega arith))
]

xor_byte : (a b : ℕ) → a < 256 → b < 256 → bit_xor a b % 256 ≡ bit_xor a b
xor_byte a b p q = omega (arith, bit_xor-lt 8 a b p q)

-- Equal checksums over the same bytes come from equal starting values.
xor_all_cancel :
    (bs : List ℕ) (a b : ℕ) → IsBytes bs → a < 256 → b < 256 → xor_all a bs ≡ xor_all b bs → a ≡ b
xor_all_cancel [] a b h p q e = e
xor_all_cancel (c ∷ bs) a b h p q e =
    let rest : bit_xor a c % 256 ≡ bit_xor b c % 256 =
      xor_all_cancel bs (bit_xor a c % 256) (bit_xor b c % 256) h.1 (omega arith) (omega arith) e in
    bit_xor_cancel a b c (omega (arith, xor_byte a c p h.0, xor_byte b c q h.0))

-- Changing one byte changes the checksum.
pub xor_all-ne :
    (xs : List ℕ) (x y : ℕ) (ys : List ℕ) (acc : ℕ)
    → IsBytes xs
    → IsBytes ys
    → x < 256
    → y < 256
    → acc < 256
    → x ≢ y
    → xor_all acc (xs ++ (x ∷ ys)) ≢ xor_all acc (xs ++ (y ∷ ys))
xor_all-ne [] x y ys acc hx hy p q r ne e = ne (
    bit_xor_cancel_left x y acc (
      omega (
        arith,
        xor_byte acc x r p,
        xor_byte acc y r q,
        xor_all_cancel ys (bit_xor acc x % 256) (bit_xor acc y % 256) hy (omega arith) (omega arith)
            e,
      )))
xor_all-ne (z ∷ xs) x y ys acc hx hy p q r ne e =
    xor_all-ne xs x y ys (bit_xor acc z % 256) hx.1 hy p q (omega arith) ne e

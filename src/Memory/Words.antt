-- ===== src/Memory/Words.antt =====
-- Words in memory read back as they were written.
use cg2111a_b.Base.{
  ℕ, zero, suc, ◌/◌, ◌^◌, ◌<◌, ◌≡◌, refl, ap, arith, length, List, [], ◌∷◌, take, IsBytes,
}
use cg2111a_b.Memory.{le_bytes, le_word}
use native.Mathlib.Nat.{pow-suc}

pub length-le_bytes : (n w : ℕ) → length (le_bytes n w) ≡ n
length-le_bytes zero w = refl
length-le_bytes (suc n) w = ap suc (length-le_bytes n _)

pub le_word-le_bytes : (n w : ℕ) → w < 256 ^ n → le_word (le_bytes n w) ≡ w
le_word-le_bytes zero w h = omega arith
le_word-le_bytes (suc n) w h =
    omega (arith, le_word-le_bytes n (w / 256) (omega (arith, pow-suc 256 n)))

-- The first `n` bytes make a word of `n` bytes.
pub le_word-lt : (n : ℕ) (bs : List ℕ) → IsBytes bs → le_word (take n bs) < 256 ^ n
le_word-lt zero bs h = omega arith
le_word-lt (suc n) [] h = omega (arith, pow-suc 256 n, le_word-lt n [] tt)
le_word-lt (suc n) (b ∷ bs) h = omega (arith, pow-suc 256 n, le_word-lt n bs h.1, h.0)

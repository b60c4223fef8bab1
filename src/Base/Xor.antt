-- ===== src/Base/Xor.antt =====
-- The laws of `^` on words that a checksum rests on.
use Prim.Native.Nat.{ℕ, zero, suc, ◌+◌, ◌*◌, ◌/◌, ◌%◌, ◌^◌, ◌≤◌, ◌<◌}
use Prim.Native.Nat.{bit_xor, digits, bit_xor-bitwise, differ}
use mathlib.Core.Path.{◌≡◌, refl, sym, ◌∙◌}
use native.Mathlib.Nat.{pow-suc}
use native.Mathlib.Omega.{arith}

-- The digit recursion that `bit_xor` stands for does not depend on spare fuel.
xor_digits_spare :
    (n m a b : ℕ) → a ≤ n → a ≤ m → digits (λ y. y) differ n a b ≡ digits (λ y. y) differ m a b
xor_digits_spare zero zero a b p q = refl
xor_digits_spare zero (suc m) zero b p q = refl
xor_digits_spare (suc n) zero zero b p q = refl
xor_digits_spare (suc n) (suc m) zero b p q = refl
xor_digits_spare zero m (suc a) b p q = absurd (omega arith)
xor_digits_spare (suc n) zero (suc a) b p q = absurd (omega arith)
xor_digits_spare (suc n) (suc m) (suc a) b p q =
    rw (xor_digits_spare n m (suc a / 2) (b / 2) (omega arith) (omega arith))

zero-bit_xor : (b : ℕ) → bit_xor 0 b ≡ b
zero-bit_xor b = bit_xor-bitwise 0 b

differ_zero : (d : ℕ) → d < 2 → differ 0 d ≡ d
differ_zero zero h = refl
differ_zero (suc zero) h = refl
differ_zero (suc (suc d)) h = absurd (omega arith)

-- The lowest digit of an exclusive or, and the rest of it.
pub bit_xor_step : (a b : ℕ) → bit_xor a b ≡ bit_xor (a / 2) (b / 2) * 2 + differ (a % 2) (b % 2)
bit_xor_step zero b =
    omega (arith, zero-bit_xor b, zero-bit_xor (b / 2), differ_zero (b % 2) (omega arith))
bit_xor_step (suc a) b = omega (
  arith,
  bit_xor-bitwise (suc a) b,
  bit_xor-bitwise (suc a / 2) (b / 2),
  xor_digits_spare a (suc a / 2) (suc a / 2) (b / 2) (omega arith) (omega arith),
)

differ-lt : (c d : ℕ) → c < 2 → d < 2 → differ c d < 2
differ-lt zero zero p q = omega arith
differ-lt zero (suc zero) p q = omega arith
differ-lt (suc zero) zero p q = omega arith
differ-lt (suc zero) (suc zero) p q = omega arith
differ-lt (suc (suc c)) d p q = absurd (omega arith)
differ-lt c (suc (suc d)) p q = absurd (omega arith)

differ_cancel : (a b c : ℕ) → a < 2 → b < 2 → c < 2 → differ a c ≡ differ b c → a ≡ b
differ_cancel zero zero c p q r e = refl
differ_cancel (suc zero) (suc zero) c p q r e = refl
differ_cancel zero (suc zero) zero p q r e = e
differ_cancel zero (suc zero) (suc zero) p q r e = sym e
differ_cancel (suc zero) zero zero p q r e = e
differ_cancel (suc zero) zero (suc zero) p q r e = sym e
differ_cancel (suc (suc a)) b c p q r e = absurd (omega arith)
differ_cancel a (suc (suc b)) c p q r e = absurd (omega arith)
differ_cancel a b (suc (suc c)) p q r e = absurd (omega arith)

-- Words of `k` bits stay words of `k` bits.
pub bit_xor-lt : (k a b : ℕ) → a < 2 ^ k → b < 2 ^ k → bit_xor a b < 2 ^ k
bit_xor-lt zero a b p q =
    let ea : a ≡ 0 = omega arith in let eb : b ≡ 0 = omega arith in rw (ea, eb) (omega arith)
bit_xor-lt (suc k) a b p q = omega (
  arith,
  pow-suc 2 k,
  bit_xor_step a b,
  bit_xor-lt k (a / 2) (b / 2) (omega (arith, pow-suc 2 k)) (omega (arith, pow-suc 2 k)),
  differ-lt (a % 2) (b % 2) (omega arith) (omega arith),
)

bit_xor_cancel_fuel : (n a b c : ℕ) → a ≤ n → b ≤ n → bit_xor a c ≡ bit_xor b c → a ≡ b
bit_xor_cancel_fuel zero a b c p q e = omega arith
bit_xor_cancel_fuel (suc n) a b c p q e =
    omega
      (arith, low, bit_xor_cancel_fuel n (a / 2) (b / 2) (c / 2) (omega arith) (omega arith) high)
  where
    bits : (differ (a % 2) (c % 2) < 2) × (differ (b % 2) (c % 2) < 2)
    bits = (
      differ-lt (a % 2) (c % 2) (omega arith) (omega arith),
      differ-lt (b % 2) (c % 2) (omega arith) (omega arith),
    )

    low : a % 2 ≡ b % 2
    low =
        differ_cancel (a % 2) (b % 2) (c % 2) (omega arith) (omega arith) (omega arith)
          (omega (arith, bits, bit_xor_step a c, bit_xor_step b c))

    high : bit_xor (a / 2) (c / 2) ≡ bit_xor (b / 2) (c / 2)
    high = omega (arith, bits, bit_xor_step a c, bit_xor_step b c)

-- A word is known from its exclusive or with another.
pub bit_xor_cancel : (a b c : ℕ) → bit_xor a c ≡ bit_xor b c → a ≡ b
bit_xor_cancel a b c e = bit_xor_cancel_fuel (a + b) a b c (omega arith) (omega arith) e

differ_comm : (c d : ℕ) → differ c d ≡ differ d c
differ_comm zero zero = refl
differ_comm zero (suc d) = refl
differ_comm (suc c) zero = refl
differ_comm (suc c) (suc d) = differ_comm c d

bit_xor_comm_fuel : (n a b : ℕ) → a ≤ n → b ≤ n → bit_xor a b ≡ bit_xor b a
bit_xor_comm_fuel zero a b p q =
    let ea : a ≡ 0 = omega arith in let eb : b ≡ 0 = omega arith in rw (ea, eb) refl
bit_xor_comm_fuel (suc n) a b p q = omega (
  arith,
  bit_xor_step a b,
  bit_xor_step b a,
  differ_comm (a % 2) (b % 2),
  bit_xor_comm_fuel n (a / 2) (b / 2) (omega arith) (omega arith),
)

pub bit_xor_comm : (a b : ℕ) → bit_xor a b ≡ bit_xor b a
bit_xor_comm a b = bit_xor_comm_fuel (a + b) a b (omega arith) (omega arith)

pub bit_xor_cancel_left : (a b c : ℕ) → bit_xor c a ≡ bit_xor c b → a ≡ b
bit_xor_cancel_left a b c e = bit_xor_cancel a b c (bit_xor_comm a c ∙ (e ∙ bit_xor_comm c b))

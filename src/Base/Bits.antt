-- ===== src/Base/Bits.antt =====
-- `&` with a mask of high ones, as the rounding to a power of two uses it. A native `bit_and` has no
-- law but the recursion on its digits, from which these are proved by induction on the mask.
use Prim.Native.Nat.{
  ℕ, zero, suc, ◌+◌, ◌-◌, ◌*◌, ◌/◌, ◌%◌, ◌^◌, ◌≤◌, ◌<◌, min, bit_and, digits, bit_and-bitwise,
}
use mathlib.Core.Path.{◌≡◌, refl, ap}
use native.Mathlib.Nat.{pow-suc, one-le-pow}
use native.Mathlib.Omega.{arith}

abbrev digits_and : ℕ → ℕ → ℕ → ℕ
digits_and fuel a b = digits (λ _. zero) min fuel a b

-- Any fuel that is not below the first number gives the same digits.
digits_and-fuel : (j k a b : ℕ) → a ≤ j → a ≤ k → digits_and j a b ≡ digits_and k a b
digits_and-fuel zero zero a b hj hk = refl
digits_and-fuel zero (suc k) zero b hj hk = refl
digits_and-fuel zero (suc k) (suc a) b hj hk = absurd (omega arith)
digits_and-fuel (suc j) zero zero b hj hk = refl
digits_and-fuel (suc j) zero (suc a) b hj hk = absurd (omega arith)
digits_and-fuel (suc j) (suc k) zero b hj hk = refl
digits_and-fuel (suc j) (suc k) (suc a) b hj hk =
    omega (arith, digits_and-fuel j k (suc a / 2) (b / 2) (omega arith) (omega arith))

bit_and-digits : (a b : ℕ) → bit_and a b ≡ bit_and (a / 2) (b / 2) * 2 + min (a % 2) (b % 2)
bit_and-digits zero b = omega (arith, bit_and-bitwise 0 b, bit_and-bitwise 0 (b / 2))
bit_and-digits (suc a) b =
    let half = suc a / 2 in
    omega (
      arith,
      bit_and-bitwise (suc a) b,
      bit_and-bitwise half (b / 2),
      digits_and-fuel a half half (b / 2) (omega arith) (omega arith),
    )

bit_and-le_fuel : (n a b : ℕ) → a ≤ n → bit_and a b ≤ a
bit_and-le_fuel n zero b h = omega (arith, bit_and-bitwise 0 b)
bit_and-le_fuel zero (suc a) b h = absurd (omega arith)
bit_and-le_fuel (suc n) (suc a) b h =
    omega (arith, bit_and-digits (suc a) b, bit_and-le_fuel n (suc a / 2) (b / 2) (omega arith))

-- A mask takes bits away.
pub bit_and-le : (a b : ℕ) → bit_and a b ≤ a
bit_and-le a b = bit_and-le_fuel a a b (omega arith)

pub two_pow_pos : (k : ℕ) → 0 < 2 ^ k
two_pow_pos k = one-le-pow k 2 (omega arith)

bit_and-ones : (w a : ℕ) → a < 2 ^ w → bit_and a (2 ^ w - 1) ≡ a
bit_and-ones zero a h = omega (arith, bit_and-le a (2 ^ 0 - 1))
bit_and-ones (suc w) a h = omega (
  arith,
  pow-suc 2 w,
  two_pow_pos w,
  half,
  bit_and-digits a (2 ^ suc w - 1),
  bit_and-ones w (a / 2) (omega (arith, pow-suc 2 w)),
)
  where
    half : bit_and (a / 2) ((2 ^ suc w - 1) / 2) ≡ bit_and (a / 2) (2 ^ w - 1)
    half =
        let e : (2 ^ suc w - 1) / 2 ≡ 2 ^ w - 1 = omega (arith, pow-suc 2 w, two_pow_pos w) in rw e

-- `r` is `a` rounded down to a multiple of 2 ^ k.
pub record IsFloor (k a r : ℕ) : Type 0 where
  pub below : r ≤ a
  pub near : a < r + 2 ^ k
  pub quotient : ℕ
  pub multiple : r ≡ quotient * 2 ^ k

IsFloor-double :
    (k a m : ℕ)
    → bit_and a m ≡ bit_and (a / 2) (m / 2) * 2
    → IsFloor k (a / 2) (bit_and (a / 2) (m / 2))
    → IsFloor (suc k) a (bit_and a m)
IsFloor-double k a m double f = record {
  below = bit_and-le a m;
  near = omega (arith, double, f.near, pow-suc 2 k);
  quotient = f.quotient;
  multiple = omega (arith, double, ap (λ (t : ℕ). t * 2) f.multiple, pow-suc 2 k, product);
}
  where
    product : f.quotient * 2 ^ suc k ≡ f.quotient * 2 ^ k * 2
    product = rw (pow-suc 2 k) (omega arith)

-- Ones over `k` zeros round a number of `w` bits down.
pub bit_and-IsFloor :
    (k w a m : ℕ) → a < 2 ^ w → k ≤ w → m + 2 ^ k ≡ 2 ^ w → IsFloor k a (bit_and a m)
bit_and-IsFloor zero w a m h le e =
    let ones : m ≡ 2 ^ w - 1 = omega arith in
    let same : bit_and a m ≡ a = rw ones (bit_and-ones w a h) in
    record { below = omega arith; near = omega arith; quotient = a; multiple = omega arith }
bit_and-IsFloor (suc k) zero a m h le e = absurd (omega arith)
bit_and-IsFloor (suc k) (suc w) a m h le e =
    IsFloor-double k a m (omega (arith, bit_and-digits a m, pow-suc 2 w, pow-suc 2 k)) (
      bit_and-IsFloor k w (a / 2) (m / 2) (omega (arith, pow-suc 2 w)) (omega arith)
        (omega (arith, pow-suc 2 w, pow-suc 2 k)))

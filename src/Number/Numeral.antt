-- ===== src/Number/Numeral.antt =====
-- Digits in a base, the last one first, and the loop of simple_strtoull on them.
use shield_tv_loader.Base.{
  ℕ, ◌+◌, ◌*◌, ◌/◌, ◌%◌, ◌<◌, ◌≡◌, refl, sym, ap, true, false, List, [], ◌∷◌, All, all_cons,
  u64_mod, arith,
}
use shield_tv_loader.Text.{peek}
use shield_tv_loader.Ctype.{is_xdigit}
use shield_tv_loader.Number.{digit_value, read_digits}
use native.Mathlib.Nat.{add-mul-mod_self_left, add-mul, mul_assoc}

pub record IsDigitOf (b c : ℕ) : Type 0 where
  pub hex : is_xdigit c ≡ true
  pub small : digit_value c < b

-- The number that digits stand for.
unfoldable pub numeral_value : ℕ → List ℕ → ℕ
numeral_value b [] = 0
numeral_value b (c ∷ ds) = digit_value c + numeral_value b ds * b

-- The digits in reading order, with more of the string behind them.
unfoldable pub reverse_onto : List ℕ → List ℕ → List ℕ
reverse_onto [] rest = rest
reverse_onto (c ∷ ds) rest = reverse_onto ds (c ∷ rest)

right_product : (r q b : ℕ) → (r + u64_mod * q) * b ≡ r * b + u64_mod * (q * b)
right_product r q b = ground (arith, add-mul r (u64_mod * q) b, mul_assoc u64_mod q b)

wrapped : (a b v : ℕ) → (a % u64_mod * b + v) % u64_mod ≡ (v + a * b) % u64_mod
wrapped a b v =
    let q = a / u64_mod in
    let r = a % u64_mod in
    let whole : a ≡ r + u64_mod * q = omega arith in
    let product : v + a * b ≡ r * b + v + u64_mod * (q * b) =
      let split : (r + u64_mod * q) * b ≡ r * b + u64_mod * (q * b) = right_product r q b in
      omega (arith, split, ap (λ (t : ℕ). t * b) whole) in
    rw product (sym (add-mul-mod_self_left (r * b + v) u64_mod (q * b)))

-- The digits are read to the end, whatever follows.
pub read_digits-reverse_onto :
    (ds : List ℕ) (b : ℕ) (rest : List ℕ)
    → All (IsDigitOf b) ds
    → read_digits (reverse_onto ds rest) b 0 ≡ read_digits rest b (numeral_value b ds % u64_mod)
unfolding read_digits reverse_onto numeral_value
read_digits-reverse_onto [] b rest h = refl
read_digits-reverse_onto (c ∷ ds) b rest (all_cons hc hs) =
    rw
      (
        read_digits-reverse_onto ds b (c ∷ rest) hs,
        hc.hex,
        wrapped (numeral_value b ds) b (digit_value c),
      )
      (ground (arith, hc.small))

-- What is no digit ends the number.
pub read_digits-stop :
    (rest : List ℕ) (b n : ℕ) → is_xdigit (peek rest) ≡ false → read_digits rest b n ≡ (n, rest)
unfolding read_digits
read_digits-stop [] b n h = refl
read_digits-stop (c ∷ rest) b n h = rw h refl

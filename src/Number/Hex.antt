-- ===== src/Number/Hex.antt =====
-- A number printed by %lx, and the way back through simple_strtoull.
use shield_tv_loader.Base.{
  ℕ, zero, suc, ◌-◌, ◌/◌, ◌%◌, ◌^◌, ◌<◌, ◌≤◌, ◌+◌, ◌≡◌, refl, sym, ◌∙◌, ap, Bool, true, false, ◌&&◌,
  List, [], ◌∷◌, ◌++◌, ◌==◌, u64_mod, arith, All, all_nil, all_cons, all_below_holds, ℕ_discrete,
  length, ==→eq,
}
use shield_tv_loader.Text.{peek}
use shield_tv_loader.Ctype.{is_digit, is_xdigit}
use shield_tv_loader.Number.{digit_value, simple_strtoull}
use shield_tv_loader.Number.Format.{
  PrintfSpec, digit_of, shift_digits, number_digits, sign_char, number, from_last, sub16,
  pad_rounds, pad_after,
}
use shield_tv_loader.Number.Numeral.{IsDigitOf, numeral_value, reverse_onto}
use shield_tv_loader.Number.Prefix.{simple_strtoull-hex}
use native.Mathlib.Nat.{pow-suc}

-- What %lx asks of number(): neither a width nor a precision, both -1.
abbrev pub hex_spec : PrintfSpec
hex_spec = record {
  zeropad = false;
  sign = false;
  plus = false;
  space = false;
  left = false;
  small = true;
  special = false;
  base = 16;
  field_width = 65535;
  precision = 65535;
}

is_hex_digit : ℕ → ℕ → Bool
is_hex_digit x c = is_xdigit c && digit_value c == x % 16

and-left : (a b : Bool) → (a && b) ≡ true → a ≡ true
and-left a b e = ground arith

and-right : (a b : Bool) → (a && b) ≡ true → b ≡ true
and-right a b e = ground arith

digit_of-hex : (num : ℕ) → is_hex_digit (num % 256) (digit_of 16 true (num % 256)) ≡ true
unfolding digit_of is_hex_digit is_xdigit digit_value is_digit
digit_of-hex num =
    all_below_holds 256 (λ (x : ℕ). is_hex_digit x (digit_of 16 true x)) refl (num % 256)
      (omega arith)

digit_of-mod : (num : ℕ) → digit_of 16 true (num % 256) ≡ digit_of 16 true num
unfolding digit_of
digit_of-mod num = let e : num % 256 % 256 ≡ num % 256 = omega arith in rw e refl

digit_of-xdigit : (num : ℕ) → is_xdigit (digit_of 16 true num) ≡ true
unfolding is_hex_digit
digit_of-xdigit num = rw (sym (digit_of-mod num)) (and-left _ _ (digit_of-hex num))

digit_of-value : (num : ℕ) → digit_value (digit_of 16 true num) ≡ num % 16
unfolding is_hex_digit
digit_of-value num =
    let c = digit_of 16 true (num % 256) in
    let e =
      ==→eq (digit_value c) (num % 256 % 16)
        (and-right (is_xdigit c) (digit_value c == num % 256 % 16) (digit_of-hex num)) in
    rw (sym (digit_of-mod num)) (omega (arith, e))

-- Hexadecimal digits, the last one first, at least one, that stand for the number.
pub record IsHex (num : ℕ) (ds : List ℕ) : Type 0 where
  pub first : ℕ
  pub others : List ℕ
  pub form : ds ≡ first ∷ others
  pub each : All (IsDigitOf 16) (first ∷ others)
  pub value : numeral_value 16 (first ∷ others) ≡ num

digit_of-IsDigitOf : (num : ℕ) → IsDigitOf 16 (digit_of 16 true num)
digit_of-IsDigitOf num = record {
  hex = digit_of-xdigit num;
  small = omega (arith, digit_of-value num);
}

IsHex-one : (num : ℕ) → num < 16 → IsHex num (digit_of 16 true num ∷ [])
unfolding numeral_value
IsHex-one num h = record {
  first = digit_of 16 true num;
  others = [];
  form = refl;
  each = all_cons (digit_of-IsDigitOf num) all_nil;
  value = omega (arith, digit_of-value num);
}

IsHex-more : (num : ℕ) (ds : List ℕ) → IsHex (num / 16) ds → IsHex num (digit_of 16 true num ∷ ds)
unfolding numeral_value
IsHex-more num ds h = record {
  first = digit_of 16 true num;
  others = h.first ∷ h.others;
  form = rw h.form refl;
  each = all_cons (digit_of-IsDigitOf num) h.each;
  value = omega (arith, digit_of-value num, h.value);
}

-- Each round of fuel is enough for one more digit.
shift_digits-IsHex : (n num : ℕ) → num < 16 ^ suc n → IsHex num (shift_digits (suc n) 16 true num)
unfolding shift_digits
shift_digits-IsHex zero num h =
    let e : num / 16 ≡ 0 = omega arith in rw e (IsHex-one num (omega arith))
shift_digits-IsHex (suc n) num h = elim (ℕ_discrete (num / 16) 0) [
  | yes e ↦ rw e (IsHex-one num (omega arith))
  | no ne ↦
      let more : (num / 16 == 0) ≡ false = ground arith in
      rw more
        (IsHex-more num _ (shift_digits-IsHex n (num / 16) (omega (arith, pow-suc 16 (suc n)))))
]

zero-IsHex : IsHex 0 (b'0' ∷ [])
unfolding numeral_value is_xdigit digit_value is_digit
zero-IsHex = record {
  first = b'0';
  others = [];
  form = refl;
  each = all_cons (record { hex = refl; small = omega arith }) all_nil;
  value = refl;
}

number_digits-IsHex : (num : ℕ) → num < u64_mod → IsHex num (number_digits 16 true num)
unfolding number_digits
number_digits-IsHex num h = elim (ℕ_discrete num 0) [
  | yes e ↦ rw e zero-IsHex
  | no ne ↦
      let some_digit : (num == 0) ≡ false = ground arith in
      rw some_digit (shift_digits-IsHex 21 num (omega arith))
]

from_last-reverse_onto :
    (ds tail rest : List ℕ) → from_last ds tail ++ rest ≡ reverse_onto ds (tail ++ rest)
unfolding reverse_onto
from_last-reverse_onto [] tail rest = refl
from_last-reverse_onto (c ∷ ds) tail rest = from_last-reverse_onto ds (c ∷ tail) rest

pub pad_rounds-small : (w : ℕ) → w ≤ 32768 → pad_rounds w ≡ w
unfolding pad_rounds
pad_rounds-small w h = ground (arith, h)

pub pad_rounds-negative : (w : ℕ) → 32768 < w → pad_rounds w ≡ 0
unfolding pad_rounds
pad_rounds-negative w h = ground (arith, h)

pub pad_after-small : (w : ℕ) → w ≤ 32768 → pad_after w ≡ 65535
unfolding pad_after
pad_after-small w h = ground (arith, h)

pad_after-negative : (w : ℕ) → 32768 < w → pad_after w ≡ w - 1
unfolding pad_after
pad_after-negative w h = ground (arith, h)

shift_digits-rounds : (n num : ℕ) → length (shift_digits n 16 true num) ≤ n
unfolding shift_digits
shift_digits-rounds zero num = omega arith
shift_digits-rounds (suc n) num = ground (arith, shift_digits-rounds n (num / 16))

number_digits-rounds : (num : ℕ) → length (number_digits 16 true num) ≤ 22
unfolding number_digits
number_digits-rounds num = ground (arith, shift_digits-rounds 22 num)

-- %lx puts out the digits and nothing else.
number-hex :
    (num : ℕ) (rest : List ℕ)
    → number num hex_spec ++ rest ≡ reverse_onto (number_digits 16 true num) rest
unfolding number sign_char
number-hex num rest =
    let n = length (number_digits 16 true num) in
    let few = number_digits-rounds num in
    let none_left : n - n ≡ 0 = omega arith in
    let width : sub16 65535 (0 + 0 + n) ≡ 65535 - n = omega (arith, few) in
    let after = pad_after-negative (65535 - n) (omega (arith, few)) in
    let later = pad_after-negative (65535 - n - 1) (omega (arith, few)) in
    let leading = pad_rounds-negative (65535 - n) (omega (arith, few)) in
    let padding = pad_rounds-negative (65535 - n - 1) (omega (arith, few)) in
    let trailing = pad_rounds-negative (65535 - n - 1 - 1) (omega (arith, few)) in
    rw (none_left, width, after, later, leading, padding, trailing)
      (from_last-reverse_onto (number_digits 16 true num) [] rest)

-- simple_strtoull in base 0 reads a 64-bit number back from 0x and what number prints of it with %lx,
-- and stops at what follows, if that is not a hexadecimal digit.
pub hex_print_read :
    (num : ℕ) (rest : List ℕ)
    → num < u64_mod
    → is_xdigit (peek rest) ≡ false
    → simple_strtoull (b'0' ∷ b'x' ∷ number num hex_spec ++ rest) 0 ≡ (num, rest)
hex_print_read num rest h stop =
    let d = number_digits-IsHex num h in
    let small : numeral_value 16 (d.first ∷ d.others) % u64_mod ≡ num = omega (arith, d.value) in
    ap (λ (s : List ℕ). simple_strtoull (b'0' ∷ b'x' ∷ s) 0)
      (number-hex num rest ∙ ap (λ (ds : List ℕ). reverse_onto ds rest) d.form)
    ∙ simple_strtoull-hex d.first d.others rest d.each stop
    ∙ rw small refl

-- ===== src/Number/Format.antt =====
-- number() of vsprintf.c: the bytes that it puts out, in their order. The width and the precision are
-- int16_t, here as words of 16 bits: 65535 is -1, and 32768 the least number.
use shield_tv_loader.Base.{
  ℕ, zero, suc, ◌+◌, ◌-◌, ◌/◌, ◌%◌, ◌^◌, Bool, not, ◌&&◌, ◌||◌, List, [], ◌∷◌, ◌++◌, Option, none,
  some, ltb, leb, ◌==◌, if◌then◌else◌, bit_and, bit_or, sub64, nth, length, take,
}
use shield_tv_loader.Number.{put_dec}

-- struct printf_spec, with a field for each bit of `flags`.
pub record PrintfSpec : Type 0 where
  pub zeropad : Bool
  pub sign : Bool
  pub plus : Bool
  pub space : Bool
  pub left : Bool
  pub small : Bool
  pub special : Bool
  pub base : ℕ
  pub field_width : ℕ
  pub precision : ℕ

abbrev digits : List ℕ
digits =
    b'0' ∷ b'1' ∷ b'2' ∷ b'3' ∷ b'4' ∷ b'5' ∷ b'6' ∷ b'7' ∷ b'8' ∷ b'9' ∷ b'A' ∷ b'B' ∷ b'C' ∷ b'D'
    ∷ b'E' ∷ b'F' ∷ []

-- digits[((unsigned char)num) & mask] | locase
unfoldable pub digit_of : ℕ → Bool → ℕ → ℕ
digit_of base small num =
    bit_or (nth digits (bit_and (num % 256) (base - 1))) (if small then 0x20 else 0)

-- The loop for the bases 8 and 16, on fuel: the digits, the last one first.
unfoldable pub shift_digits : ℕ → ℕ → Bool → ℕ → List ℕ
shift_digits zero base small num = []
shift_digits (suc fuel) base small num =
    let shifted = num / 2 ^ (if base == 16 then 4 else 3) in
    let rest = shift_digits fuel base small shifted in
    if shifted == 0 then digit_of base small num ∷ [] else digit_of base small num ∷ rest

abbrev put_out : Option (List ℕ) → List ℕ
put_out none = []
put_out (some ds) = ds

-- What is left in `tmp`.
unfoldable pub number_digits : ℕ → Bool → ℕ → List ℕ
number_digits base small num =
    if num == 0
    then b'0' ∷ []
    else if not (base == 10)
    then shift_digits 22 base small num
    else put_out (put_dec 4 num)

abbrev pub repeated : ℕ → ℕ → List ℕ
repeated zero c = []
repeated (suc n) c = c ∷ repeated n c

abbrev pub from_last : List ℕ → List ℕ → List ℕ
from_last [] rest = rest
from_last (c ∷ ds) rest = from_last ds (c ∷ rest)

-- The sign's byte, or none.
unfoldable pub sign_char : PrintfSpec → ℕ → List ℕ
sign_char spec num =
    if not spec.sign
    then []
    else if leb (2 ^ 63) num
    then b'-' ∷ []
    else if spec.plus
    then b'+' ∷ []
    else if spec.space
    then b' ' ∷ []
    else []

abbrev prefix : PrintfSpec → List ℕ
prefix spec =
    if spec.special && not (spec.base == 10)
    then if spec.base == 16
      then b'0' ∷ bit_or b'X' (if spec.small then 0x20 else 0) ∷ []
      else b'0' ∷ []
    else []

-- Subtraction in 16 bits.
abbrev pub sub16 : ℕ → ℕ → ℕ
sub16 a b = (a + 65536 - b % 65536) % 65536

-- The rounds of `while (--width >= 0)`; the least number wraps around.
unfoldable pub pad_rounds : ℕ → ℕ
pad_rounds width = if leb width 32768 then width else 0

-- The width after the loop.
unfoldable pub pad_after : ℕ → ℕ
pad_after width = if leb width 32768 then 65535 else width - 1

unfoldable pub number : ℕ → PrintfSpec → List ℕ
number num spec =
    let zeropad = spec.zeropad && not spec.left in
    let sign = sign_char spec num in
    let magnitude = if spec.sign && leb (2 ^ 63) num then sub64 0 num else num in
    let tmp = number_digits spec.base spec.small magnitude in
    let precision =
      if leb 32768 spec.precision || ltb spec.precision (length tmp)
      then length tmp
      else spec.precision in
    let width = sub16 spec.field_width (length sign + length (prefix spec) + precision) in
    let spaced = not (zeropad || spec.left) in
    let leading = if spaced then pad_rounds width else 0 in
    let width1 = if spaced then pad_after width else width in
    let padding = if not spec.left then pad_rounds width1 else 0 in
    let width2 = if not spec.left then pad_after width1 else width1 in
    repeated leading b' '
    ++ sign
    ++ prefix spec
    ++ repeated padding (if zeropad then b'0' else b' ')
    ++ repeated (precision - length tmp) b'0'
    ++ from_last tmp (repeated (pad_rounds width2) b' ')

-- What vscnprintf leaves of a text in a buffer of `size` bytes, without the NUL.
unfoldable pub cut_text : ℕ → List ℕ → List ℕ
cut_text size text =
    if ltb (length text) size then text else if not (size == 0) then take (size - 1) text else []

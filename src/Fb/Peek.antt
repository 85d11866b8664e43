-- ===== src/Fb/Peek.antt =====
-- What peek prints fits into one report.
use shield_tv_loader.Base.{
  ℕ, zero, suc, ◌+◌, ◌-◌, ◌*◌, ◌/◌, ◌%◌, ◌^◌, ◌≤◌, ◌<◌, ◌≡◌, refl, ap, true, ◌&&◌, List, [], ◌∷◌,
  ◌++◌, leb, length, take, arith, Bool-cases, inl, inr, add64,
}
use shield_tv_loader.Number.Format.{
  number, number_digits, shift_digits, sign_char, cut_text, repeated, from_last, sub16,
}
use shield_tv_loader.Ctype.{is_graph}
use shield_tv_loader.Number.Hex.{hex_spec, pad_rounds-small, pad_rounds-negative, pad_after-small}
use shield_tv_loader.Fb.{FbPeek, read_le, peek_text, peek_item}
use native.Mathlib.Nat.{pow-suc, suc-mul}

length-append : (s t : List ℕ) → length (s ++ t) ≡ length s + length t
length-append [] t = omega arith
length-append (c ∷ s) t = omega (arith, length-append s t)

length-repeated : (n c : ℕ) → length (repeated n c) ≡ n
length-repeated zero c = refl
length-repeated (suc n) c = ap suc (length-repeated n c)

length-from_last : (ds rest : List ℕ) → length (from_last ds rest) ≡ length ds + length rest
length-from_last [] rest = omega arith
length-from_last (c ∷ ds) rest = omega (arith, length-from_last ds (c ∷ rest))

length-take : (n : ℕ) (s : List ℕ) → length (take n s) ≤ length s
length-take zero s = omega arith
length-take (suc n) [] = omega arith
length-take (suc n) (c ∷ s) = omega (arith, length-take n s)

cut_text-length : (size : ℕ) (text : List ℕ) → length (cut_text size text) ≤ length text
unfolding cut_text
cut_text-length size text = ground (arith, length-take (size - 1) text)

shift_digits-length : (n k num : ℕ) → num < 16 ^ suc k → length (shift_digits n 16 true num) ≤ suc k
unfolding shift_digits
shift_digits-length zero k num h = omega arith
shift_digits-length (suc n) zero num h = let e : num / 16 ≡ 0 = omega arith in rw e (omega arith)
shift_digits-length (suc n) (suc k) num h =
    ground (arith, shift_digits-length n k (num / 16) (omega (arith, pow-suc 16 (suc k))))

number_digits-length : (k num : ℕ) → num < 16 ^ suc k → length (number_digits 16 true num) ≤ suc k
unfolding number_digits
number_digits-length k num h = ground (arith, shift_digits-length 22 k num h)

-- %0*lx of a number that has no more digits than the width takes the width.
number-width :
    (num k : ℕ)
    → num < 16 ^ suc k
    → suc k ≤ 32768
    → length (number num (record hex_spec { zeropad = true; field_width = suc k })) ≡ suc k
unfolding number sign_char
number-width num k h wide =
    let n = length (number_digits 16 true num) in
    let small = number_digits-length k num h in
    let none_left : n - n ≡ 0 = omega arith in
    let pad = suc k - n in
    let width : sub16 (suc k) (0 + 0 + n) ≡ pad = omega (arith, small, wide) in
    let padding = pad_rounds-small pad (omega (arith, wide)) in
    let after = pad_after-small pad (omega (arith, wide)) in
    let trailing = pad_rounds-negative 65535 (omega arith) in
    rw
      (
        none_left,
        width,
        padding,
        after,
        trailing,
        length-append (repeated pad b'0' ++ []) (from_last (number_digits 16 true num) []),
        length-append (repeated pad b'0') [],
        length-repeated pad b'0',
        length-from_last (number_digits 16 true num) [],
      )
      (omega (arith, small))

read_le-lt : (mem : ℕ → ℕ) (n addr : ℕ) → ((a : ℕ) → mem a < 256) → read_le mem addr n < 256 ^ n
unfolding read_le
read_le-lt mem zero addr h = omega arith
read_le-lt mem (suc n) addr h =
    omega (arith, pow-suc 256 n, read_le-lt mem n (add64 addr 1) h, h addr)

-- The sizes that peek and poke accept.
pub data IsAccess : ℕ → Type 0 where
  access_1 : IsAccess 1
  access_2 : IsAccess 2
  access_4 : IsAccess 4
  access_8 : IsAccess 8

hex_item-length :
    (mem : ℕ → ℕ) (access addr : ℕ)
    → ((a : ℕ) → mem a < 256)
    → IsAccess access
    → length (
        number
          (read_le mem addr access)
          (record hex_spec { zeropad = true; field_width = access * 2 }))
      ≡ access * 2
hex_item-length mem access addr h access_1 =
    number-width (read_le mem addr 1) 1 (omega (arith, read_le-lt mem 1 addr h)) (omega arith)
hex_item-length mem access addr h access_2 =
    number-width (read_le mem addr 2) 3 (omega (arith, read_le-lt mem 2 addr h)) (omega arith)
hex_item-length mem access addr h access_4 =
    number-width (read_le mem addr 4) 7 (omega (arith, read_le-lt mem 4 addr h)) (omega arith)
hex_item-length mem access addr h access_8 =
    number-width (read_le mem addr 8) 15 (omega (arith, read_le-lt mem 8 addr h)) (omega arith)

IsAccess-positive : {access : ℕ} → IsAccess access → 1 ≤ access
IsAccess-positive access_1 = omega arith
IsAccess-positive access_2 = omega arith
IsAccess-positive access_4 = omega arith
IsAccess-positive access_8 = omega arith

peek_item-length :
    (peek : FbPeek) (mem : ℕ → ℕ) (addr len : ℕ)
    → ((a : ℕ) → mem a < 256)
    → IsAccess peek.access
    → length (peek_item peek mem addr len) ≤ peek.access * 2 + 1
peek_item-length peek mem addr len h size =
    let value = read_le mem addr peek.access in
    let hex = number value (record hex_spec { zeropad = true; field_width = peek.access * 2 }) in
    elim (Bool-cases (peek.ascii && (leb (value % 256) 0x7f && is_graph value))) [
      | inl e ↦ rw e (
          omega
            (arith, cut_text-length len (b' ' ∷ value % 256 ∷ b' ' ∷ []), IsAccess-positive size))
      | inr e ↦ rw e (
          omega (
            arith,
            cut_text-length len (hex ++ b' ' ∷ []),
            length-append hex (b' ' ∷ []),
            hex_item-length mem peek.access addr h size,
          ))
    ]

pub peek_text-length :
    (n : ℕ) (peek : FbPeek) (mem : ℕ → ℕ) (addr len : ℕ)
    → ((a : ℕ) → mem a < 256)
    → IsAccess peek.access
    → length (peek_text n peek mem addr len) ≤ n * (peek.access * 2 + 1)
unfolding peek_text
peek_text-length zero peek mem addr len h size = omega arith
peek_text-length (suc n) peek mem addr len h size =
    let next = add64 addr peek.access in
    let less = len - (peek.access * 2 + 1) in
    omega (
      arith,
      suc-mul n (peek.access * 2 + 1),
      length-append (peek_item peek mem addr len) (peek_text n peek mem next less),
      peek_item-length peek mem addr len h size,
      peek_text-length n peek mem next less h size,
    )

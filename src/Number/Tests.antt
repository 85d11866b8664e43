-- ===== src/Number/Tests.antt =====
-- The theorems on the numbers of vsprintf.c at numbers.
use shield_tv_loader.Base.{ℕ, ◌≡◌, refl, true, ◌++◌, List, [], ◌∷◌, some, arith}
use shield_tv_loader.Ctype.{is_digit, is_xdigit}
use shield_tv_loader.Number.{
  put_dec, put_dec_trunc, put_dec_full, trunc_low, trunc_middle, trunc_top, simple_strtoull,
  read_digits, skip_prefix, simple_guess_base, digit_value,
}
use shield_tv_loader.Number.Format.{
  pad_rounds, pad_after, number, number_digits, shift_digits, digit_of, sign_char,
}
use shield_tv_loader.Number.Hex.{hex_spec, hex_print_read}

put_dec_run : put_dec 2 1234567 ≡ some (b'7' ∷ b'6' ∷ b'5' ∷ b'4' ∷ b'3' ∷ b'2' ∷ b'1' ∷ [])
unfolding put_dec put_dec_trunc put_dec_full trunc_low trunc_middle trunc_top
put_dec_run = refl

strtoull_run :
    ◌≡◌ {A = ℕ × List ℕ} (simple_strtoull (b'0' ∷ b'X' ∷ b'1' ∷ b'F' ∷ b'@' ∷ []) 0) (31, b'@' ∷ [])
unfolding simple_strtoull read_digits skip_prefix simple_guess_base digit_value is_digit is_xdigit
strtoull_run = refl

hex_print_read_example :
    simple_strtoull (b'0' ∷ b'x' ∷ number 0xbeef hex_spec ++ b'-' ∷ []) 0 ≡ (0xbeef, b'-' ∷ [])
unfolding is_xdigit
hex_print_read_example = hex_print_read 0xbeef (b'-' ∷ []) (omega arith) refl

number_run :
    number 0xbeef (record hex_spec { zeropad = true; field_width = 8 })
    ≡ b'0' ∷ b'0' ∷ b'0' ∷ b'0' ∷ b'b' ∷ b'e' ∷ b'e' ∷ b'f' ∷ []
unfolding number pad_rounds pad_after number_digits shift_digits digit_of sign_char
number_run = refl

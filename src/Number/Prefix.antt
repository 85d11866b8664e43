-- ===== src/Number/Prefix.antt =====
-- simple_strtoull on numbers in decimal and, behind 0x, in hexadecimal.
use shield_tv_loader.Base.{
  ℕ, ◌%◌, ◌<◌, ◌≡◌, true, false, List, [], ◌∷◌, All, all_cons, ◌==◌, nth, u64_mod, arith,
}
use shield_tv_loader.Text.{peek}
use shield_tv_loader.Ctype.{is_xdigit}
use shield_tv_loader.Number.{simple_guess_base, skip_prefix, simple_strtoull}
use shield_tv_loader.Number.Numeral.{
  IsDigitOf, numeral_value, reverse_onto, read_digits-reverse_onto, read_digits-stop,
}

-- In a base other than 0 and 16, simple_strtoull reads digits of the base up to what is no digit: the
-- number modulo 2 ^ 64, and the rest.
simple_strtoull-numeral :
    (b : ℕ) (ds rest : List ℕ)
    → 0 < b
    → (b == 16) ≡ false
    → All (IsDigitOf b) ds
    → is_xdigit (peek rest) ≡ false
    → simple_strtoull (reverse_onto ds rest) b ≡ (numeral_value b ds % u64_mod, rest)
unfolding simple_strtoull skip_prefix
simple_strtoull-numeral b ds rest h ne digits stop =
    let some_base : (b == 0) ≡ false = ground arith in
    rw (some_base, ne, read_digits-reverse_onto ds b rest digits)
      (read_digits-stop rest b (numeral_value b ds % u64_mod) stop)

peek-reverse_onto :
    (ds : List ℕ) (b d : ℕ) (rest : List ℕ)
    → All (IsDigitOf b) ds
    → is_xdigit d ≡ true
    → is_xdigit (nth (reverse_onto ds (d ∷ rest)) 0) ≡ true
unfolding reverse_onto
peek-reverse_onto [] b d rest h e = e
peek-reverse_onto (c ∷ ds) b d rest (all_cons hc hs) e =
    peek-reverse_onto ds b c (d ∷ rest) hs hc.hex

first_digit :
    (d : ℕ) (ds rest : List ℕ)
    → All (IsDigitOf 16) (d ∷ ds)
    → is_xdigit (nth (reverse_onto (d ∷ ds) rest) 0) ≡ true
unfolding reverse_onto
first_digit d ds rest (all_cons hd hs) = peek-reverse_onto ds 16 d rest hs hd.hex

-- With the base 0, hexadecimal digits behind 0x are read in base 16.
pub simple_strtoull-hex :
    (d : ℕ) (ds rest : List ℕ)
    → All (IsDigitOf 16) (d ∷ ds)
    → is_xdigit (peek rest) ≡ false
    → simple_strtoull (48 ∷ 120 ∷ reverse_onto (d ∷ ds) rest) 0
      ≡ (numeral_value 16 (d ∷ ds) % u64_mod, rest)
unfolding simple_strtoull skip_prefix simple_guess_base
simple_strtoull-hex d ds rest digits stop =
    rw (first_digit d ds rest digits, read_digits-reverse_onto (d ∷ ds) 16 rest digits)
      (read_digits-stop rest 16 (numeral_value 16 (d ∷ ds) % u64_mod) stop)

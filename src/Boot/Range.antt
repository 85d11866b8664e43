-- ===== src/Boot/Range.antt =====
-- parse_range on a command line that holds `name=SIZE@BASE`.
use shield_tv_loader.Base.{
  ℕ, ◌*◌, ◌%◌, ◌^◌, ◌≡◌, refl, ap, ◌∙◌, false, List, [], ◌∷◌, ◌++◌, some, All, u64_mod, arith, drop,
}
use shield_tv_loader.Text.{IsText, peek, strlen}
use shield_tv_loader.Text.Find.{first_match, strstr-first_match}
use shield_tv_loader.Ctype.{is_xdigit}
use shield_tv_loader.Number.Numeral.{IsDigitOf, numeral_value, reverse_onto}
use shield_tv_loader.Boot.{parse_memloc, parse_range, range_at}
use shield_tv_loader.Boot.Memparse.{unit_bits, after_unit, memparse-hex}

-- A number as the command line spells it: 0x, its digits, given here the last one first, and the rest.
abbrev pub hex_number : List ℕ → List ℕ → List ℕ
hex_number ds rest = b'0' ∷ b'x' ∷ reverse_onto ds rest

parse_memloc-at :
    (d e : ℕ) (ds es rest : List ℕ)
    → All (IsDigitOf 16) (d ∷ ds)
    → All (IsDigitOf 16) (e ∷ es)
    → is_xdigit (peek rest) ≡ false
    → parse_memloc (hex_number (d ∷ ds) (b'@' ∷ hex_number (e ∷ es) rest)) ≡ (
      numeral_value 16 (d ∷ ds) % u64_mod,
      numeral_value 16 (e ∷ es) * 2 ^ unit_bits (peek rest) % u64_mod,
    )
unfolding parse_memloc unit_bits after_unit is_xdigit
parse_memloc-at d e ds es rest hd he stop =
    let scaled : numeral_value 16 (d ∷ ds) * 2 ^ 0 % u64_mod ≡ numeral_value 16 (d ∷ ds) % u64_mod =
      omega arith in
    rw (memparse-hex d ds (b'@' ∷ hex_number (e ∷ es) rest) hd refl)
      (rw (memparse-hex e es rest he stop) (rw scaled refl))

drop-strlen : (s t : List ℕ) → drop (strlen s) (s ++ t) ≡ t
unfolding strlen
drop-strlen [] t = refl
drop-strlen (c ∷ s) t = drop-strlen s t

-- Where the first match of a name in the command line goes on with a hexadecimal size, `@` and a
-- hexadecimal base, parse_range gives the base, scaled by its unit, and the size.
pub parse_range-hex :
    (cmdline name : List ℕ) (d e : ℕ) (ds es rest : List ℕ)
    → IsText name
    → first_match name cmdline
      ≡ some (name ++ hex_number (d ∷ ds) (b'@' ∷ hex_number (e ∷ es) rest))
    → All (IsDigitOf 16) (d ∷ ds)
    → All (IsDigitOf 16) (e ∷ es)
    → is_xdigit (peek rest) ≡ false
    → parse_range (some cmdline) name
      ≡ some (
        numeral_value 16 (e ∷ es) * 2 ^ unit_bits (peek rest) % u64_mod,
        numeral_value 16 (d ∷ ds) % u64_mod,
      )
unfolding parse_range range_at
parse_range-hex cmdline name d e ds es rest text found hd he stop =
    ap (range_at name) (strstr-first_match cmdline name text ∙ found)
    ∙ rw
        (
          drop-strlen name (hex_number (d ∷ ds) (b'@' ∷ hex_number (e ∷ es) rest)),
          parse_memloc-at d e ds es rest hd he stop,
        )
        refl

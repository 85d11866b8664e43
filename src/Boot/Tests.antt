-- ===== src/Boot/Tests.antt =====
-- main.c on a command line and a tree of a board.
use shield_tv_loader.Base.{
  ℕ, ◌+◌, ◌-◌, ◌*◌, ap, true, drop, ◌%◌, ◌^◌, ◌≡◌, refl, List, [], ◌∷◌, ◌++◌, none, some, All,
  all_nil, all_cons, arith, u64_mod, pos,
}
use shield_tv_loader.Ctype.{is_digit, is_xdigit}
use shield_tv_loader.Text.{IsText, peek}
use shield_tv_loader.Text.Find.{first_match, starts_with}
use shield_tv_loader.Number.{digit_value}
use shield_tv_loader.Number.Numeral.{IsDigitOf, numeral_value, reverse_onto}
use shield_tv_loader.Lmb.{Lmb, LmbProperty, lmb_init}
use shield_tv_loader.Boot.{memparse, parse_range, Fdt, add_memory, main_tables}
use shield_tv_loader.Boot.Memparse.{unit_bits, after_unit, memparse-hex}
use shield_tv_loader.Boot.Range.{hex_number, parse_range-hex}
use shield_tv_loader.Video.{Console}
use shield_tv_loader.Boot.Cmdline.{
  IsString, Shows, cmdline_format, dump_cmdline, joined, dump_cmdline-Shows,
}
use shield_tv_loader.Boot.Tables.{main_tables-memory}
use shield_tv_loader.Boot.{reserve_ranges, reserve_found, add_reg}
use shield_tv_loader.Lmb.{lmb_tag}
use shield_tv_loader.Lmb.Ops.{lmb_add}

digits_1f : All (IsDigitOf 16) (b'f' ∷ b'1' ∷ [])
unfolding is_xdigit digit_value is_digit
digits_1f =
    all_cons (record { hex = refl; small = omega arith })
      (all_cons (record { hex = refl; small = omega arith }) all_nil)

abbrev vpr : List ℕ
vpr = b'v' ∷ b'p' ∷ b'r' ∷ b'=' ∷ []

vpr-IsText : IsText vpr
vpr-IsText =
    all_cons (record { positive = omega arith; byte = omega arith })
      (all_cons (record { positive = omega arith; byte = omega arith })
        (all_cons (record { positive = omega arith; byte = omega arith })
          (all_cons (record { positive = omega arith; byte = omega arith }) all_nil)))

-- "0x1f@0x1fM" and a space.
abbrev vpr_value : List ℕ
vpr_value = hex_number (b'f' ∷ b'1' ∷ []) (b'@' ∷ hex_number (b'f' ∷ b'1' ∷ []) (b'M' ∷ b' ' ∷ []))

abbrev cmdline : List ℕ
cmdline = b'a' ∷ b' ' ∷ vpr ++ vpr_value

memparse-hex_example :
    memparse (b'0' ∷ b'x' ∷ reverse_onto (b'f' ∷ b'1' ∷ []) (b'M' ∷ b' ' ∷ [])) ≡ (
      numeral_value 16 (b'f' ∷ b'1' ∷ []) * 2 ^ unit_bits (peek (b'M' ∷ b' ' ∷ [])) % u64_mod,
      after_unit (b'M' ∷ b' ' ∷ []),
    )
unfolding is_xdigit
memparse-hex_example = memparse-hex b'f' (b'1' ∷ []) (b'M' ∷ b' ' ∷ []) digits_1f refl

parse_range-hex_example :
    parse_range (some cmdline) vpr
    ≡ some (
      numeral_value 16 (b'f' ∷ b'1' ∷ []) * 2 ^ unit_bits (peek (b'M' ∷ b' ' ∷ [])) % u64_mod,
      numeral_value 16 (b'f' ∷ b'1' ∷ []) % u64_mod,
    )
unfolding is_xdigit first_match starts_with
parse_range-hex_example =
    parse_range-hex cmdline vpr b'f' b'f' (b'1' ∷ []) (b'1' ∷ []) (b'M' ∷ b' ' ∷ []) vpr-IsText refl
      digits_1f digits_1f refl

-- The string "a c" stands from 0x9000_0000 on, and the empty one everywhere else.
abbrev string_abc : ℕ → List ℕ
string_abc a = drop (a - 0x9000_0000) (b'a' ∷ b' ' ∷ b'c' ∷ [])

abc-IsString : IsString string_abc 0x9000_0000 (b'a' ∷ b' ' ∷ b'c' ∷ [])
unfolding IsString
abc-IsString k h =
    let e : 0x9000_0000 + k - 0x9000_0000 ≡ k = omega arith in
    ap (λ n. drop n (b'a' ∷ b' ' ∷ b'c' ∷ [])) e

abbrev screen : Console
screen = record {
  video_fb_address = 0x9200_0000;
  video_console_address = 0x9200_0000;
  console_col = 0;
  console_row = 0;
  eorx = 0xa0_a0a0;
  fgx = 0xa0_a0a0;
  bgx = 0;
  nl = true;
  mem = λ a. a % 256;
}

dump_cmdline-Shows_example :
    (ts : List (List ℕ)) × (v : Console) × (dump_cmdline
        (λ i. i % 256)
        string_abc
        (λ a. a % 256)
        0x8000_0000
        screen
        0x9000_0000
      ≡ some v)
    × Shows (λ i. i % 256) 0x8000_0000 screen (cmdline_format ∷ ts) v
    × (joined ts ≡ b'a' ∷ b' ' ∷ b'c' ∷ b'\n' ∷ [])
dump_cmdline-Shows_example =
    dump_cmdline-Shows (λ i. i % 256) string_abc (λ a. a % 256) 0x8000_0000 (λ i. omega arith)
      (omega arith) 0x9000_0000 (b'a' ∷ b' ' ∷ b'c' ∷ []) screen (omega arith) (omega arith)
      abc-IsString (record { at_start = refl; col = omega arith; row = omega arith })

abbrev blank : LmbProperty
blank = record { base = 0; size = 0; tag = 0; type = 0 }

abbrev stale : Lmb
stale = record {
  memory = record { cnt = 0; region = λ _. blank };
  reserved = record { cnt = 0; region = λ _. blank };
}

-- A gigabyte from 2 GiB on, and no command line.
abbrev tree : Fdt
tree = record {
  address = 0x8300_0000;
  header = pos 0;
  chosen = pos 8;
  bootargs = none;
  memory = some (0 ∷ 0x8000_0000 ∷ 0 ∷ 0x4000_0000 ∷ []) ∷ [];
  totalsize = 0x1_0000;
  mem_rsv = [];
}

abbrev with_memory : Lmb
with_memory = (lmb_add (lmb_init stale) 0x8000_0000 0x4000_0000 (lmb_tag b'R' b'A' b'M' b'R')).1

main_tables-memory_example :
    (l0 : Lmb) × (add_memory (lmb_init stale) tree.memory ≡ some l0)
    × ((reserve_ranges tree 0x8008_0000 0x800a_0000 with_memory).memory ≡ l0.memory)
unfolding main_tables reserve_found add_memory add_reg
main_tables-memory_example =
    main_tables-memory tree 0x8008_0000 0x800a_0000 stale
      (reserve_ranges tree 0x8008_0000 0x800a_0000 with_memory) refl

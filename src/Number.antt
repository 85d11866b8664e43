-- ===== src/Number.antt =====
-- vsprintf.c, the reading of numbers and their decimal digits. A string is the list of its bytes
-- before the NUL, and a parser returns what is left of it beside the number.
pub mod Numeral
pub mod Prefix
pub mod Format
pub mod Hex
mod Tests
use shield_tv_loader.Base.{
  ℕ, zero, suc, ◌+◌, ◌-◌, ◌*◌, ◌/◌, ◌%◌, ◌^◌, Bool, ◌&&◌, ◌||◌, not, List, [], ◌∷◌, ◌++◌, Option,
  none, some, ltb, leb, ◌==◌, if◌then◌else◌, bit_or, u64_mod, sub64, nth, drop,
}
use shield_tv_loader.Ctype.{is_digit, is_xdigit}

-- TOLOWER
abbrev pub lower_bit : ℕ → ℕ
lower_bit x = bit_or x 0x20

unfoldable pub simple_guess_base : List ℕ → ℕ
simple_guess_base cp =
    if nth cp 0 == 48
    then if lower_bit (nth cp 1) == 120 && is_xdigit (nth cp 2) then 16 else 8
    else 10

unfoldable pub digit_value : ℕ → ℕ
digit_value c = if is_digit c then c - 48 else lower_bit c - 97 + 10

-- The loop: the number so far is in `result`.
unfoldable pub read_digits : List ℕ → ℕ → ℕ → ℕ × List ℕ
read_digits [] base result = (result, [])
read_digits (c ∷ cp) base result =
    let rest = read_digits cp base ((result * base + digit_value c) % u64_mod) in
    if is_xdigit c
    then if leb base (digit_value c) then (result, c ∷ cp) else rest
    else (result, c ∷ cp)

unfoldable pub skip_prefix : List ℕ → ℕ → List ℕ
skip_prefix cp base =
    if base == 16 && (nth cp 0 == 48 && lower_bit (nth cp 1) == 120) then drop 2 cp else cp

-- The number, and where `*endp` points.
unfoldable pub simple_strtoull : List ℕ → ℕ → ℕ × List ℕ
simple_strtoull cp base =
    let b = if base == 0 then simple_guess_base cp else base in read_digits (skip_prefix cp b) b 0

unfoldable pub simple_strtoul : List ℕ → ℕ → ℕ × List ℕ
simple_strtoul cp base = simple_strtoull cp base

-- -n, as the 64 bits of a `long`
abbrev negated : ℕ × List ℕ → ℕ × List ℕ
negated (n, rest) = (sub64 0 n, rest)

-- The result is the 64 bits of the `long`.
unfoldable pub simple_strtol : List ℕ → ℕ → ℕ × List ℕ
simple_strtol cp base =
    if nth cp 0 == 45 then negated (simple_strtoul (drop 1 cp) base) else simple_strtoul cp base

unfoldable pub simple_strtoll : List ℕ → ℕ → ℕ × List ℕ
simple_strtoll cp base =
    if nth cp 0 == 45 then negated (simple_strtoull (drop 1 cp) base) else simple_strtoull cp base

abbrev pub u32_mod : ℕ
u32_mod = 2 ^ 32

-- The store of d - 10 * q + '0' in a `char`.
abbrev pub digit_char : ℕ → ℕ → ℕ
digit_char d q = ((d + u32_mod - 10 * q % u32_mod) % u32_mod + 48) % 256

-- The two leading digits, of d3 = q + 4 * d3.
unfoldable pub trunc_top : ℕ → List ℕ
trunc_top d3 =
    let q = d3 * 0xcd / 2048 in
    let last = if not (q == 0) then (q + 48) % 256 ∷ [] else [] in
    if not (d3 == 0) then digit_char d3 q ∷ last else []

-- From d2 = q + 2 * d2 on.
unfoldable pub trunc_middle : ℕ → ℕ → List ℕ
trunc_middle d2 d3 =
    let q = d2 * 0xd / 128 in
    let rest = trunc_top (q + 4 * d3) in
    if not (d2 == 0) || not (d3 == 0) then digit_char d2 q ∷ rest else []

-- From d1 = q + 9 * d3 + 5 * d2 + d1 on.
unfoldable pub trunc_low : ℕ → ℕ → ℕ → List ℕ
trunc_low d1 d2 d3 =
    let q = d1 * 0xcd / 2048 in
    let rest = trunc_middle (q + 2 * d2) d3 in if not (d1 == 0) then digit_char d1 q ∷ rest else []

-- The digits of `q`, the last one first. `& 0xf` is the remainder of 16.
unfoldable pub put_dec_trunc : ℕ → List ℕ
put_dec_trunc q =
    let d1 = q / 16 % 16 in
    let d2 = q / 256 % 16 in
    let d3 = q / 4096 in
    let d0 = 6 * (d3 + d2 + d1) + q % 16 in
    let q0 = d0 * 0xcd / 2048 in digit_char d0 q0 ∷ trunc_low (q0 + 9 * d3 + 5 * d2 + d1) d2 d3

-- Always five digits.
unfoldable pub put_dec_full : ℕ → List ℕ
put_dec_full q =
    let d1 = q / 16 % 16 in
    let d2 = q / 256 % 16 in
    let d3 = q / 4096 in
    let d0 = 6 * (d3 + d2 + d1) + q % 16 in
    let q0 = d0 * 0xcd / 2048 in
    let e1 = q0 + 9 * d3 + 5 * d2 + d1 in
    let q1 = e1 * 0xcd / 2048 in
    let e2 = q1 + 2 * d2 in
    let q2 = e2 * 0xd / 128 in
    let e3 = q2 + 4 * d3 in
    let q3 = e3 * 0xcd / 2048 in
    digit_char d0 q0 ∷ digit_char e1 q1 ∷ digit_char e2 q2 ∷ digit_char e3 q3 ∷ (q3 + 48) % 256 ∷ []

abbrev append_digits : List ℕ → Option (List ℕ) → Option (List ℕ)
append_digits ds none = none
append_digits ds (some rest) = some (ds ++ rest)

-- The loop on `n` rounds of fuel; `none` if they do not suffice.
unfoldable pub put_dec : ℕ → ℕ → Option (List ℕ)
put_dec zero num = none
put_dec (suc n) num =
    let rest = put_dec n (num / 100000) in
    if ltb num 100000
    then some (put_dec_trunc num)
    else append_digits (put_dec_full (num % 100000)) rest

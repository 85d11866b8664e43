-- ===== src/Printf.antt =====
-- format_decode() of vsprintf.c: what a format asks for. A format is the list of its bytes before the NUL,
-- a pointer into it the list from there on.
pub mod Convert
pub mod Buffer
pub mod Bounds
pub mod Later
pub mod Reads
pub mod Rounds
pub mod Texts
pub mod Kept
pub mod Prints
pub mod Console
mod Tests
use shield_tv_loader.Base.{
  ℕ, ◌+◌, ◌-◌, ◌*◌, ◌%◌, Bool, true, false, ◌&&◌, ◌||◌, List, [], ◌∷◌, ℤ, pos, negsuc, ltb, ◌==◌,
  if◌then◌else◌,
}
use shield_tv_loader.Text.{peek, advance}
use shield_tv_loader.Ctype.{is_digit}
use shield_tv_loader.Number.{lower_bit}
use shield_tv_loader.Number.Format.{PrintfSpec}

-- enum format_type, in part at the beginning of the file.
pub data FormatType : Type 0 where
  format_type_none : FormatType
  format_type_width : FormatType
  format_type_precision : FormatType
  format_type_char : FormatType
  format_type_str : FormatType
  format_type_ptr : FormatType
  format_type_percent_char : FormatType
  format_type_invalid : FormatType
  format_type_long_long : FormatType
  format_type_ulong : FormatType
  format_type_long : FormatType
  format_type_ubyte : FormatType
  format_type_byte : FormatType
  format_type_ushort : FormatType
  format_type_short : FormatType
  format_type_uint : FormatType
  format_type_int : FormatType
  format_type_nrchars : FormatType
  format_type_size_t : FormatType
  format_type_ptrdiff : FormatType

-- struct printf_spec: `spec` has the flags and the base, and the width and the precision are signed.
pub record FormatSpec : Type 0 where
  pub kind : FormatType
  pub spec : PrintfSpec
  pub qualifier : ℕ
  pub field_width : ℤ
  pub precision : ℤ

-- What one call reads: text without a conversion, or the next part of a conversion.
pub record Decoded : Type 0 where
  pub plain : List ℕ
  pub rest : List ℕ
  pub format : FormatSpec

-- An int that is stored in an int16_t.
abbrev pub as_i16 : ℕ → ℤ
as_i16 n = if ltb (n % 65536) 32768 then pos (n % 65536) else negsuc (65535 - n % 65536)

-- The count of skip_atoi and the rest of the string.
unfoldable pub skip_atoi : List ℕ → ℕ → ℕ × List ℕ
skip_atoi [] i = (i, [])
skip_atoi (c ∷ s) i =
    let more = skip_atoi s (i * 10 + c - b'0') in if is_digit c then more else (i, c ∷ s)

-- The text up to the next %, and the rest.
unfoldable pub until_percent : List ℕ → List ℕ × List ℕ
until_percent [] = ([], [])
until_percent (c ∷ s) =
    let more = until_percent s in if c == b'%' then ([], c ∷ s) else (c ∷ more.0, more.1)

abbrev pub no_flags : PrintfSpec
no_flags = record {
  zeropad = false;
  sign = false;
  plus = false;
  space = false;
  left = false;
  small = false;
  special = false;
  base = 0;
  field_width = 0;
  precision = 0;
}

abbrev pub is_flag : ℕ → Bool
is_flag c = c == b'-' || (c == b'+' || (c == b' ' || (c == b'#' || c == b'0')))

abbrev pub set_flag : ℕ → PrintfSpec → PrintfSpec
set_flag c spec =
    if c == b'-'
    then record spec { left = true }
    else if c == b'+'
    then record spec { plus = true }
    else if c == b' '
    then record spec { space = true }
    else if c == b'#'
    then record spec { special = true }
    else record spec { zeropad = true }

-- The type of an integer from its qualifier.
unfoldable pub int_type : ℕ → Bool → FormatType
int_type qualifier sign =
    if qualifier == b'L'
    then format_type_long_long
    else if qualifier == b'l'
    then if sign then format_type_long else format_type_ulong
    else if lower_bit qualifier == b'z'
    then format_type_size_t
    else if qualifier == b't'
    then format_type_ptrdiff
    else if qualifier == b'H'
    then if sign then format_type_byte else format_type_ubyte
    else if qualifier == b'h'
    then if sign then format_type_short else format_type_ushort
    else if sign
    then format_type_int
    else format_type_uint

abbrev decoded : List ℕ → FormatSpec → Decoded
decoded rest f = record { plain = []; rest = rest; format = f }

abbrev pub of_type : FormatSpec → FormatType → FormatSpec
of_type f kind = record f { kind = kind; spec = record f.spec { base = 10 } }

abbrev pub of_int : FormatSpec → PrintfSpec → FormatSpec
of_int f spec = record f { kind = int_type f.qualifier spec.sign; spec = spec }

-- From the default base on. The byte of a conversion that is not known is not read, nor the `p` of %p.
unfoldable pub read_conversion : List ℕ → FormatSpec → Decoded
read_conversion fmt f =
    let c = peek fmt in
    let next = advance fmt in
    if c == b'c'
    then decoded next (of_type f format_type_char)
    else if c == b's'
    then decoded next (of_type f format_type_str)
    else if c == b'p'
    then decoded fmt (of_type f format_type_ptr)
    else if c == b'n'
    then decoded next (of_type f format_type_nrchars)
    else if c == b'%'
    then decoded next (of_type f format_type_percent_char)
    else if c == b'o'
    then decoded next (of_int f (record f.spec { base = 8 }))
    else if c == b'x'
    then decoded next (of_int f (record f.spec { base = 16; small = true }))
    else if c == b'X'
    then decoded next (of_int f (record f.spec { base = 16 }))
    else if c == b'd' || c == b'i'
    then decoded next (of_int f (record f.spec { base = 10; sign = true }))
    else if c == b'u'
    then decoded next (of_int f (record f.spec { base = 10 }))
    else decoded fmt (of_type f format_type_invalid)

-- From the label `qualifier` on; -1 is 255 in a byte.
unfoldable pub read_qualifier : List ℕ → FormatSpec → Decoded
unfolding read_conversion
read_qualifier fmt f =
    let c = peek fmt in
    let next = advance fmt in
    if c == b'h' || (lower_bit c == b'l' || (lower_bit c == b'z' || c == b't'))
    then if c == peek next && c == b'l'
      then read_conversion (advance next) (record f { qualifier = b'L' })
      else if c == peek next && c == b'h'
      then read_conversion (advance next) (record f { qualifier = b'H' })
      else read_conversion next (record f { qualifier = c })
    else read_conversion fmt (record f { qualifier = 255 })

abbrev pub at_least_zero : ℤ → ℤ
at_least_zero (pos n) = pos n
at_least_zero (negsuc n) = pos 0

-- From the label `precision` on.
unfoldable pub read_precision : List ℕ → FormatSpec → Decoded
unfolding read_qualifier
read_precision fmt f0 =
    let f = record f0 { precision = negsuc 0 } in
    let next = advance fmt in
    let number = skip_atoi next 0 in
    if peek fmt == b'.'
    then if is_digit (peek next)
      then read_qualifier number.1 (record f { precision = at_least_zero (as_i16 number.0) })
      else if peek next == b'*'
      then decoded (advance next) (record f { kind = format_type_precision })
      else read_qualifier next f
    else read_qualifier fmt f

unfoldable pub read_width : List ℕ → FormatSpec → Decoded
unfolding read_precision
read_width fmt f0 =
    let f = record f0 { field_width = negsuc 0 } in
    let number = skip_atoi fmt 0 in
    if is_digit (peek fmt)
    then read_precision number.1 (record f { field_width = as_i16 number.0 })
    else if peek fmt == b'*'
    then decoded (advance fmt) (record f { kind = format_type_width })
    else read_precision fmt f

unfoldable pub read_flags : List ℕ → FormatSpec → Decoded
unfolding read_width
read_flags [] f = read_width [] f
read_flags (c ∷ s) f =
    let more = read_flags s (record f { spec = set_flag c f.spec }) in
    if is_flag c then more else read_width (c ∷ s) f

-- A call that begins with a new part of the format.
unfoldable pub read_part : List ℕ → FormatSpec → Decoded
unfolding read_flags until_percent
read_part [] f = decoded [] (record f { kind = format_type_none })
read_part (c ∷ s) f =
    let text = until_percent (c ∷ s) in
    if c == b'%'
    then read_flags s (record f { kind = format_type_none; spec = no_flags })
    else record { plain = text.0; rest = text.1; format = record f { kind = format_type_none } }

-- A negative width that was an argument stands for the flag `-`.
unfoldable pub turned_left : FormatSpec → ℤ → FormatSpec
turned_left f (pos n) = f
turned_left f (negsuc n) = record f {
  field_width = as_i16 (n + 1);
  spec = record f.spec { left = true };
}

unfoldable pub decode_after : FormatType → List ℕ → FormatSpec → Decoded
unfolding read_part read_precision read_qualifier turned_left
decode_after format_type_width fmt f =
    read_precision fmt (record (turned_left f f.field_width) { kind = format_type_none })
decode_after format_type_precision fmt f =
    read_qualifier fmt (record f { precision = at_least_zero f.precision; kind = format_type_none })
decode_after kind fmt f = read_part fmt f

unfoldable pub format_decode : List ℕ → FormatSpec → Decoded
unfolding decode_after
format_decode fmt f = decode_after f.kind fmt f

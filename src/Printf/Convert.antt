-- ===== src/Printf/Convert.antt =====
-- The conversions of vsprintf.c: string(), uuid_string(), pointer() and the cases of vsnprintf(). Each
-- gives the bytes that it puts out. The arguments are 64-bit words; one that is missing counts as 0. What
-- stands at an address is given by `strings`, the bytes before the NUL, and `bytes`; it lies apart from what
-- is written. Widths are counted in 16 bits, as int16_t, and wrap around.
use shield_tv_loader.Base.{
  ℕ, ◌+◌, ◌-◌, ◌/◌, ◌%◌, ◌^◌, Bool, true, false, ◌||◌, ◌&&◌, List, [], ◌∷◌, ◌++◌, map, Option, none,
  some, ℤ, pos, negsuc, ltb, leb, ◌==◌, if◌then◌else◌, length, take,
}
use shield_tv_loader.Text.{peek, advance}
use shield_tv_loader.Ctype.{is_alnum, to_upper}
use shield_tv_loader.Number.Format.{PrintfSpec, number, repeated, sub16}
use shield_tv_loader.Printf.{
  FormatType, format_type_none, format_type_width, format_type_precision, format_type_char,
  format_type_str, format_type_ptr, format_type_percent_char, format_type_invalid,
  format_type_long_long, format_type_ulong, format_type_long, format_type_ubyte, format_type_byte,
  format_type_ushort, format_type_short, format_type_int, format_type_nrchars, format_type_size_t,
  format_type_ptrdiff, FormatSpec, Decoded, as_i16,
}

-- What a part of the format does: put bytes out, or store the count of bytes, in as many bytes, at an
-- address.
pub data Action : Type 0 where
  puts : List ℕ → Action
  stores : ℕ → ℕ → Action

-- An action, the arguments that are left, the rest of the format and the state of format_decode.
pub record Step : Type 0 where
  pub action : Action
  pub args : List ℕ
  pub rest : List ℕ
  pub format : FormatSpec

-- An int16_t as a word of 16 bits.
abbrev pub word16 : ℤ → ℕ
word16 (pos n) = n
word16 (negsuc n) = 65535 - n

abbrev pub cut_to : ℤ → List ℕ → List ℕ
cut_to (pos n) s = take n s
cut_to (negsuc n) s = s

abbrev pub page_size : ℕ
page_size = 4096

abbrev pub null_text : List ℕ
null_text = b'(' ∷ b'n' ∷ b'u' ∷ b'l' ∷ b'l' ∷ b')' ∷ []

-- The rounds of `while (len < spec.field_width--)`.
abbrev text_pad : ℕ → ℕ → ℕ
text_pad len width = if ltb width 32768 then width - len else 0

-- The width after that loop.
abbrev text_pad_after : ℕ → ℕ → ℕ
text_pad_after len width = if ltb width 32768 && ltb len width then sub16 len 1 else sub16 width 1

-- string(), of the bytes at `s`.
unfoldable pub string : FormatSpec → List ℕ → List ℕ
string f s =
    let text = cut_to f.precision s in
    let len = length text in
    let width = word16 f.field_width in
    let leading = if f.spec.left then 0 else text_pad len width in
    let width1 = if f.spec.left then width else text_pad_after len width in
    repeated leading b' ' ++ text ++ repeated (text_pad len width1) b' '

-- The rounds of `while (--spec.field_width > 0)`.
abbrev char_pad : ℕ → ℕ
char_pad width = if leb width 32768 then width - 1 else 0

abbrev char_pad_after : ℕ → ℕ
char_pad_after width = if leb 2 width && leb width 32768 then 0 else sub16 width 1

-- FORMAT_TYPE_CHAR
unfoldable pub char : FormatSpec → ℕ → List ℕ
char f c =
    let width = word16 f.field_width in
    let leading = if f.spec.left then 0 else char_pad width in
    let width1 = if f.spec.left then width else char_pad_after width in
    repeated leading b' ' ++ (c % 256 ∷ []) ++ repeated (char_pad width1) b' '

-- A byte of a hexadecimal number, from `hex_asc`.
abbrev hex_asc : ℕ → ℕ
hex_asc n = if ltb n 10 then b'0' + n else b'a' + n - 10

abbrev pub pack_hex_byte : ℕ → List ℕ
pack_hex_byte b = hex_asc (b % 256 / 16) ∷ hex_asc (b % 16) ∷ []

abbrev be : List ℕ
be = 0 ∷ 1 ∷ 2 ∷ 3 ∷ 4 ∷ 5 ∷ 6 ∷ 7 ∷ 8 ∷ 9 ∷ 10 ∷ 11 ∷ 12 ∷ 13 ∷ 14 ∷ 15 ∷ []

abbrev le : List ℕ
le = 3 ∷ 2 ∷ 1 ∷ 0 ∷ 5 ∷ 4 ∷ 7 ∷ 6 ∷ 8 ∷ 9 ∷ 10 ∷ 11 ∷ 12 ∷ 13 ∷ 14 ∷ 15 ∷ []

abbrev dash_after : ℕ → List ℕ
dash_after i = if i == 3 || (i == 5 || (i == 7 || i == 9)) then b'-' ∷ [] else []

-- The loop over the bytes, from the one with the number `i` on.
abbrev pub uuid_from : (ℕ → ℕ) → ℕ → ℕ → List ℕ → List ℕ
uuid_from bytes addr i [] = []
uuid_from bytes addr i (k ∷ index) =
    pack_hex_byte (bytes (addr + k)) ++ dash_after i ++ uuid_from bytes addr (i + 1) index

-- `letter` follows the U.
unfoldable pub uuid_string : (ℕ → ℕ) → FormatSpec → ℕ → ℕ → List ℕ
unfolding string to_upper
uuid_string bytes f addr letter =
    let index = if letter == b'L' || letter == b'l' then le else be in
    let uuid = uuid_from bytes addr 0 index in
    string f (if letter == b'L' || letter == b'B' then map to_upper uuid else uuid)

abbrev is_minus_one : ℤ → Bool
is_minus_one (pos n) = false
is_minus_one (negsuc n) = n == 0

-- What number() gets.
abbrev pub number_spec : FormatSpec → PrintfSpec
number_spec f = record f.spec { field_width = word16 f.field_width; precision = word16 f.precision }

unfoldable pub null_pointer : FormatSpec → List ℕ
unfolding string
null_pointer f =
    string (if is_minus_one f.field_width then record f { field_width = pos 16 } else f) null_text

-- The call of number() at the end of pointer().
unfoldable pub plain_pointer : FormatSpec → ℕ → List ℕ
unfolding number
plain_pointer f ptr =
    let spec = record (number_spec f) { base = 16; small = true } in
    number ptr (
      if is_minus_one f.field_width then record spec { field_width = 16; zeropad = true } else spec)

-- pointer(), of the format after the `p`. None stands for %pV, a format within the format.
unfoldable pub pointer : (ℕ → ℕ) → FormatSpec → ℕ → List ℕ → Option (List ℕ)
unfolding null_pointer plain_pointer uuid_string
pointer bytes f ptr fmt =
    if ptr == 0
    then some (null_pointer f)
    else if peek fmt == b'U'
    then some (uuid_string bytes f ptr (peek (advance fmt)))
    else if peek fmt == b'V'
    then none
    else some (plain_pointer f ptr)

unfoldable pub skip_alnum : List ℕ → List ℕ
unfolding is_alnum
skip_alnum [] = []
skip_alnum (c ∷ fmt) = let rest = skip_alnum fmt in if is_alnum c then rest else c ∷ fmt

-- The low bits of an argument, as a 64-bit number with its sign.
abbrev extended : ℕ → ℕ → ℕ
extended bits n =
    let low = n % 2 ^ bits in if leb (2 ^ (bits - 1)) low then low + 2 ^ 64 - 2 ^ bits else low

-- `num` of vsnprintf.
unfoldable pub int_argument : FormatType → ℕ → ℕ
int_argument format_type_long_long n = n % 2 ^ 64
int_argument format_type_ulong n = n % 2 ^ 64
int_argument format_type_long n = n % 2 ^ 64
int_argument format_type_size_t n = n % 2 ^ 64
int_argument format_type_ptrdiff n = n % 2 ^ 64
int_argument format_type_ubyte n = n % 2 ^ 8
int_argument format_type_byte n = extended 8 n
int_argument format_type_ushort n = n % 2 ^ 16
int_argument format_type_short n = extended 16 n
int_argument format_type_int n = extended 32 n
int_argument kind n = n % 2 ^ 32

abbrev pub after_pointer : Decoded → List ℕ → Option (List ℕ) → Option Step
after_pointer d args none = none
after_pointer d args (some text) =
    some (record { action = puts text; args = args; rest = skip_alnum d.rest; format = d.format })

abbrev pub count_size : ℕ → ℕ
count_size qualifier = if qualifier == b'l' || qualifier == b'z' || qualifier == b'Z' then 8 else 4

module _ (strings : ℕ → List ℕ) (bytes : ℕ → ℕ) where
  -- The cases of the switch of vsnprintf, after format_decode.
  unfoldable pub convert : FormatType → Decoded → List ℕ → Option Step
  unfolding string char pointer int_argument number skip_alnum
  convert format_type_none d args =
      some (record { action = puts d.plain; args = args; rest = d.rest; format = d.format })
  convert format_type_width d args = some (record {
    action = puts [];
    args = advance args;
    rest = d.rest;
    format = record d.format { field_width = as_i16 (peek args) };
  })
  convert format_type_precision d args = some (record {
    action = puts [];
    args = advance args;
    rest = d.rest;
    format = record d.format { precision = as_i16 (peek args) };
  })
  convert format_type_char d args = some (record {
    action = puts (char d.format (peek args));
    args = advance args;
    rest = d.rest;
    format = d.format;
  })
  convert format_type_str d args =
      let s = if ltb (peek args) page_size then null_text else strings (peek args) in
      some (record {
        action = puts (string d.format s);
        args = advance args;
        rest = d.rest;
        format = d.format;
      })
  convert format_type_ptr d args =
      after_pointer d (advance args) (pointer bytes d.format (peek args) (advance d.rest))
  convert format_type_percent_char d args =
      some (record { action = puts (b'%' ∷ []); args = args; rest = d.rest; format = d.format })
  convert format_type_invalid d args =
      some (record { action = puts (b'%' ∷ []); args = args; rest = d.rest; format = d.format })
  convert format_type_nrchars d args = some (record {
    action = stores (count_size d.format.qualifier) (peek args);
    args = advance args;
    rest = d.rest;
    format = d.format;
  })
  convert kind d args = some (record {
    action = puts (number (int_argument kind (peek args)) (number_spec d.format));
    args = advance args;
    rest = d.rest;
    format = d.format;
  })

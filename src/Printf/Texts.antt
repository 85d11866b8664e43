-- ===== src/Printf/Texts.antt =====
-- The formats of fb.c, and the texts that the replies of Fb are built with.
use shield_tv_loader.Base.{
  ℕ, ◌%◌, ◌^◌, ◌<◌, ◌≡◌, ◌≢◌, refl, sym, ap, ◌∙◌, List, [], ◌∷◌, ◌++◌, Bool, Option, none, some,
  if◌then◌else◌, ◌==◌, arith, sub64, add64, true, false,
}
use shield_tv_loader.Ctype.{is_digit, is_alnum}
use shield_tv_loader.Number.Format.{number}
use shield_tv_loader.Number.Hex.{hex_spec}
use shield_tv_loader.Text.{peek, advance}
use shield_tv_loader.Printf.{
  FormatSpec, format_decode, decode_after, read_part, read_flags, read_width, read_precision,
  read_qualifier, read_conversion, until_percent, skip_atoi, int_type,
}
use shield_tv_loader.Printf.Convert.{
  after_pointer, convert, int_argument, pointer, plain_pointer, skip_alnum,
}
use shield_tv_loader.Printf.Buffer.{zero_spec, format_step, text_loop, text_loop-suc, formatted}
use shield_tv_loader.Fb.{Fb, data_text, loaded_text, pointer_spec}
use shield_tv_loader.Fb.Service.{hex_text, smccc_text}

-- "DATA%08x"
abbrev pub data_format : List ℕ
data_format = b'D' ∷ b'A' ∷ b'T' ∷ b'A' ∷ b'%' ∷ b'0' ∷ b'8' ∷ b'x' ∷ []

-- "0x%lx"
abbrev pub hex_format : List ℕ
hex_format = b'0' ∷ b'x' ∷ b'%' ∷ b'l' ∷ b'x' ∷ []

-- "0x%lx 0x%lx 0x%lx 0x%lx"
abbrev pub smccc_format : List ℕ
smccc_format = hex_format ++ b' ' ∷ hex_format ++ b' ' ∷ hex_format ++ b' ' ∷ hex_format

-- "Loaded at %p-%p"
abbrev pub loaded_format : List ℕ
loaded_format =
    b'L' ∷ b'o' ∷ b'a' ∷ b'd' ∷ b'e' ∷ b'd' ∷ b' ' ∷ b'a' ∷ b't' ∷ b' ' ∷ b'%' ∷ b'p' ∷ b'-' ∷ b'%'
    ∷ b'p' ∷ []

pub append_nil : (s : List ℕ) → s ++ [] ≡ s
append_nil [] = refl
append_nil (c ∷ s) = ap (λ t. c ∷ t) (append_nil s)

word_mod : (a : ℕ) → a < 2 ^ 64 → a % 2 ^ 64 ≡ a
word_mod a h = omega (arith, h)

-- The text with the words cut to 64 bits.
abbrev smccc_flat : ℕ → ℕ → ℕ → List ℕ → List ℕ
smccc_flat a b c t =
    b'0'
    ∷ b'x'
    ∷ (number (a % 2 ^ 64) hex_spec
        ++ b' '
          ∷ b'0'
          ∷ b'x'
          ∷ (number (b % 2 ^ 64) hex_spec
              ++ b' ' ∷ b'0' ∷ b'x' ∷ (number (c % 2 ^ 64) hex_spec ++ b' ' ∷ b'0' ∷ b'x' ∷ t)))

append_assoc : (x y z : List ℕ) → (x ++ y) ++ z ≡ x ++ (y ++ z)
append_assoc [] y z = refl
append_assoc (c ∷ x) y z = ap (λ t. c ∷ t) (append_assoc x y z)

append_four : (w x y z : List ℕ) → ((w ++ x) ++ y) ++ z ≡ w ++ (x ++ (y ++ z))
append_four w x y z = append_assoc (w ++ x) y z ∙ append_assoc w x (y ++ z)

smccc_last :
    (a b c d : ℕ) (o : Option (List ℕ))
    → o ≡ some (smccc_flat a b c (number (d % 2 ^ 64) hex_spec ++ []))
    → o ≡ some (smccc_text (a % 2 ^ 64 ∷ b % 2 ^ 64 ∷ c % 2 ^ 64 ∷ d % 2 ^ 64 ∷ []))
smccc_last a b c d o e =
    let h = λ (n : ℕ). hex_text (n % 2 ^ 64) in
    e
    ∙ ap (λ t. some (smccc_flat a b c t)) (append_nil (number (d % 2 ^ 64) hex_spec))
    ∙ ap some (sym (append_four (h a) (b' ' ∷ h b) (b' ' ∷ h c) (b' ' ∷ h d)))

smccc_words :
    (a b c d : ℕ)
    → a < 2 ^ 64
    → b < 2 ^ 64
    → c < 2 ^ 64
    → d < 2 ^ 64
    → ◌≡◌ {A = Option (List ℕ)}
        (some (smccc_text (a % 2 ^ 64 ∷ b % 2 ^ 64 ∷ c % 2 ^ 64 ∷ d % 2 ^ 64 ∷ [])))
        (some (smccc_text (a ∷ b ∷ c ∷ d ∷ [])))
smccc_words a b c d ha hb hc hd =
    let text = λ (w x y z : ℕ). some (smccc_text (w ∷ x ∷ y ∷ z ∷ [])) in
    ap (λ w. text w (b % 2 ^ 64) (c % 2 ^ 64) (d % 2 ^ 64)) (word_mod a ha)
    ∙ ap (λ x. text a x (c % 2 ^ 64) (d % 2 ^ 64)) (word_mod b hb)
    ∙ ap (λ y. text a b y (d % 2 ^ 64)) (word_mod c hc)
    ∙ ap (λ z. text a b c z) (word_mod d hd)

plain_if :
    (t u v : Bool) (p q r : Option (List ℕ))
    → t ≡ false
    → u ≡ false
    → v ≡ false
    → (if t then p else if u then q else if v then none else r) ≡ r
plain_if true u v p q r d e f = absurd (cc d)
plain_if false true v p q r d e f = absurd (cc e)
plain_if false false true p q r d e f = absurd (cc f)
plain_if false false false p q r d e f = refl

-- A pointer that is not null, before a byte that is not U or V.
pointer-plain :
    (bytes : ℕ → ℕ) (f : FormatSpec) (ptr : ℕ) (fmt : List ℕ)
    → ptr ≢ 0
    → (peek fmt == b'U') ≡ false
    → (peek fmt == b'V') ≡ false
    → pointer bytes f ptr fmt ≡ some (plain_pointer f ptr)
unfolding pointer
pointer-plain bytes f ptr fmt h d e =
    plain_if (ptr == 0) (peek fmt == b'U') (peek fmt == b'V') _ _ _ (ground (arith, h)) d e

module _ (strings : ℕ → List ℕ) (bytes : ℕ → ℕ) where
  formatted-data :
      (size : ℕ) → formatted strings bytes data_format (size ∷ []) ≡ some (data_text size)
  unfolding text_loop format_step format_decode decode_after read_part read_flags read_width
      read_precision read_qualifier read_conversion until_percent skip_atoi int_type convert
      int_argument is_digit
  formatted-data size =
      ap (λ t. some (b'D' ∷ b'A' ∷ b'T' ∷ b'A' ∷ t))
        (append_nil (number (size % 2 ^ 32) (record hex_spec { zeropad = true; field_width = 8 })))

  formatted-hex :
      (a : ℕ) → a < 2 ^ 64 → formatted strings bytes hex_format (a ∷ []) ≡ some (hex_text a)
  unfolding text_loop format_step format_decode decode_after read_part read_flags read_width
      read_precision read_qualifier read_conversion until_percent skip_atoi int_type convert
      int_argument is_digit
  formatted-hex a h =
      ap (λ t. some (b'0' ∷ b'x' ∷ t))
        (append_nil (number (a % 2 ^ 64) hex_spec) ∙ ap (λ n. number n hex_spec) (word_mod a h))

  formatted-smccc :
      (a b c d : ℕ)
      → a < 2 ^ 64
      → b < 2 ^ 64
      → c < 2 ^ 64
      → d < 2 ^ 64
      → formatted strings bytes smccc_format (a ∷ b ∷ c ∷ d ∷ [])
        ≡ some (smccc_text (a ∷ b ∷ c ∷ d ∷ []))
  unfolding text_loop format_step format_decode decode_after read_part read_flags read_width
      read_precision read_qualifier read_conversion until_percent skip_atoi int_type convert
      int_argument is_digit
  formatted-smccc a b c d ha hb hc hd =
      smccc_last a b c d (formatted strings bytes smccc_format (a ∷ b ∷ c ∷ d ∷ [])) refl
      ∙ smccc_words a b c d ha hb hc hd

  formatted-loaded :
      (fb : Fb)
      → fb.last_loaded ≢ 0
      → sub64 (add64 fb.last_loaded fb.load_size) 1 ≢ 0
      → formatted strings bytes loaded_format
          (fb.last_loaded ∷ sub64 (add64 fb.last_loaded fb.load_size) 1 ∷ [])
        ≡ some (loaded_text fb)
  unfolding text_loop format_step format_decode decode_after read_part read_flags read_width
      read_precision read_qualifier read_conversion until_percent skip_atoi int_type convert
      int_argument is_digit plain_pointer skip_alnum is_alnum
  formatted-loaded fb first last =
      let a = fb.last_loaded in
      let b = sub64 (add64 fb.last_loaded fb.load_size) 1 in
      let d1 = format_decode (b'%' ∷ b'p' ∷ b'-' ∷ b'%' ∷ b'p' ∷ []) zero_spec in
      let d3 = format_decode (b'%' ∷ b'p' ∷ []) d1.format in
      let s1 =
        ap (after_pointer d1 (b ∷ []))
          (pointer-plain bytes d1.format a (advance d1.rest) first refl refl) in
      let s3 =
        ap (after_pointer d3 [])
          (pointer-plain bytes d3.format b (advance d3.rest) last refl refl) in
      let r3 =
        text_loop-suc strings bytes 27 b'%' (b ∷ []) d1.format (b'p' ∷ []) _ [] _ s3 refl refl in
      let r2 =
        text_loop-suc strings bytes 28 b'-' (b ∷ []) d1.format (b'%' ∷ b'p' ∷ []) _ _ _ refl refl
          r3 in
      let r1 =
        text_loop-suc strings bytes 29 b'%' (a ∷ b ∷ []) zero_spec (b'p' ∷ b'-' ∷ b'%' ∷ b'p' ∷ [])
          _ _ _ s1 refl r2 in
      text_loop-suc strings bytes 30 b'L' (a ∷ b ∷ []) zero_spec (advance loaded_format) _ _ _ refl
        refl r1
      ∙ ap
          (λ t. some (
            b'L'
            ∷ b'o'
            ∷ b'a'
            ∷ b'd'
            ∷ b'e'
            ∷ b'd'
            ∷ b' '
            ∷ b'a'
            ∷ b't'
            ∷ b' '
            ∷ (number a pointer_spec ++ b'-' ∷ t)))
          (append_nil (number b pointer_spec))

  -- The texts of the replies of fb.c are what vsnprintf makes of their formats: of DATA%08x for any
  -- size, of 0x%lx and of the four numbers of smccc for 64-bit words, and of Loaded at %p-%p where
  -- neither pointer is null.
  pub reply_texts :
      (size addr a b c d : ℕ) (fb : Fb)
      → addr < 2 ^ 64
      → a < 2 ^ 64
      → b < 2 ^ 64
      → c < 2 ^ 64
      → d < 2 ^ 64
      → fb.last_loaded ≢ 0
      → sub64 (add64 fb.last_loaded fb.load_size) 1 ≢ 0
      → (formatted strings bytes data_format (size ∷ []) ≡ some (data_text size))
        × (formatted strings bytes hex_format (addr ∷ []) ≡ some (hex_text addr))
        × (formatted strings bytes smccc_format (a ∷ b ∷ c ∷ d ∷ [])
            ≡ some (smccc_text (a ∷ b ∷ c ∷ d ∷ [])))
        × (formatted strings bytes loaded_format
              (fb.last_loaded ∷ sub64 (add64 fb.last_loaded fb.load_size) 1 ∷ [])
            ≡ some (loaded_text fb))
  reply_texts size addr a b c d fb h ha hb hc hd first last = (
    formatted-data size,
    formatted-hex addr h,
    formatted-smccc a b c d ha hb hc hd,
    formatted-loaded fb first last,
  )

-- ===== src/Printf/Tests.antt =====
-- The theorems on vsnprintf and printk at formats of fb.c and usbd.c, and runs of other conversions.
use shield_tv_loader.Base.{
  ◌++◌, take, ℕ, ◌+◌, ◌%◌, ◌^◌, ◌<◌, ◌≡◌, refl, true, List, [], ◌∷◌, some, length, nth, arith, All,
  all_nil, all_cons,
}
use shield_tv_loader.Ctype.{is_digit}
use shield_tv_loader.Number.{put_dec, put_dec_trunc, trunc_low, trunc_middle, trunc_top}
use shield_tv_loader.Number.Format.{
  number, number_digits, sign_char, pad_rounds, pad_after, cut_text,
}
use shield_tv_loader.Number.Hex.{hex_spec}
use shield_tv_loader.Video.{Console}
use shield_tv_loader.Printf.{
  format_decode, decode_after, read_part, read_flags, read_width, read_precision, read_qualifier,
  read_conversion, until_percent, skip_atoi, int_type, turned_left,
}
use shield_tv_loader.Printf.Convert.{convert, string, char, int_argument}
use shield_tv_loader.Printf.Buffer.{
  Printed, format_step, text_loop, formatted, vsnprintf, vscnprintf,
}
use shield_tv_loader.Printf.Bounds.{IsPrinted}
use shield_tv_loader.Printf.Later.{IsSimple}
use shield_tv_loader.Printf.Rounds.{conversions, vsnprintf-IsPrinted_total}
use shield_tv_loader.Printf.Prints.{echo_format, word_format, printed_texts}
use shield_tv_loader.Printf.Kept.{vscnprintf-cut_text}
use shield_tv_loader.Printf.Console.{IsShown, printk, printk-IsShown}

abbrev test_strings : ℕ → List ℕ
test_strings a = b'a' ∷ b'b' ∷ b'c' ∷ []

abbrev test_bytes : ℕ → ℕ
test_bytes a = a % 256

-- "<%-*.2s"
width_run :
    formatted test_strings test_bytes
      (b'<' ∷ b'%' ∷ b'-' ∷ b'*' ∷ b'.' ∷ b'2' ∷ b's' ∷ [])
      (4 ∷ 5000 ∷ [])
    ≡ some (b'<' ∷ b'a' ∷ b'b' ∷ b' ' ∷ b' ' ∷ [])
unfolding text_loop format_step format_decode decode_after read_part read_flags read_width
    read_precision read_qualifier read_conversion until_percent skip_atoi int_type convert
    int_argument is_digit string turned_left
width_run = refl

-- "%d%c%q%s", of a negative int, and of a null pointer.
mixed_run :
    formatted test_strings test_bytes
      (b'%' ∷ b'd' ∷ b'%' ∷ b'c' ∷ b'%' ∷ b'q' ∷ b'%' ∷ b's' ∷ [])
      (0xffff_fffe ∷ b'!' ∷ 0 ∷ [])
    ≡ some (b'-' ∷ b'2' ∷ b'!' ∷ b'%' ∷ b'q' ∷ b'(' ∷ b'n' ∷ b'u' ∷ b'l' ∷ b'l' ∷ b')' ∷ [])
unfolding text_loop format_step format_decode decode_after read_part read_flags read_width
    read_precision read_qualifier read_conversion until_percent skip_atoi int_type convert
    int_argument is_digit string char number pad_rounds pad_after number_digits sign_char put_dec
    put_dec_trunc trunc_low trunc_middle trunc_top
mixed_run = refl

abbrev usb_error : List ℕ
usb_error = b'e' ∷ b' ' ∷ b'0' ∷ b'x' ∷ b'%' ∷ b'x' ∷ b'\n' ∷ []

usb_error-IsSimple : All IsSimple (conversions usb_error)
unfolding until_percent
usb_error-IsSimple = all_cons refl (all_cons refl (all_cons refl all_nil))

-- Five bytes are too few for the text.
vsnprintf-IsPrinted_total_example :
    (text : List ℕ) × (r : Printed) × (formatted test_strings test_bytes usb_error (0xabc ∷ [])
      ≡ some text)
    × (vsnprintf test_strings test_bytes test_bytes 0x1000 5 usb_error (0xabc ∷ []) ≡ some r)
    × IsPrinted test_bytes 0x1000 5 text r
vsnprintf-IsPrinted_total_example =
    vsnprintf-IsPrinted_total test_strings test_bytes test_bytes 0x1000 5 usb_error (0xabc ∷ [])
      usb_error-IsSimple (omega arith) (omega arith)

vscnprintf-cut_text_example :
    (text : List ℕ) × (r : Printed) × (formatted test_strings test_bytes usb_error (0xabc ∷ [])
      ≡ some text)
    × (vscnprintf test_strings test_bytes test_bytes 0x1000 5 usb_error (0xabc ∷ []) ≡ some r)
    × (length text < 2 ^ 32 → r.count ≡ length (cut_text 5 text))
    × ((i : ℕ) → i < length (cut_text 5 text) → r.mem (0x1000 + i) ≡ nth (cut_text 5 text) i)
vscnprintf-cut_text_example =
    vscnprintf-cut_text test_strings test_bytes test_bytes 0x1000 5 usb_error (0xabc ∷ [])
      usb_error-IsSimple (omega arith) (omega arith)

abbrev test_console : Console
test_console = record {
  video_fb_address = 0x9200_0000;
  video_console_address = 0x9200_0000;
  console_col = 159;
  console_row = 48;
  eorx = 0xa0_a0a0;
  fgx = 0xa0_a0a0;
  bgx = 0;
  nl = true;
  mem = test_bytes;
}

printk-IsShown_example :
    (text : List ℕ) × (v : Console) × (formatted test_strings test_bytes usb_error (0xabc ∷ [])
      ≡ some text)
    × (printk test_bytes test_strings test_bytes 0x8000_0000 test_console usb_error (0xabc ∷ [])
        ≡ some v)
    × IsShown test_bytes 0x8000_0000 test_console text v
printk-IsShown_example =
    printk-IsShown test_bytes test_strings test_bytes 0x8000_0000 test_console usb_error
      (0xabc ∷ []) (λ i. omega arith) usb_error-IsSimple (omega arith)
      (record { at_start = refl; col = omega arith; row = omega arith })

printed_texts_example :
    ((v : Console) × (printk test_bytes test_strings test_bytes 0x8000_0000 test_console echo_format
          (0x9000_0000 ∷ [])
        ≡ some v)
      × IsShown test_bytes 0x8000_0000 test_console (test_strings 0x9000_0000 ++ b'\n' ∷ []) v)
    × ((v : Console) × (printk test_bytes test_strings test_bytes 0x8000_0000 test_console
            word_format
            (2 ∷ 0x9000_0000 ∷ [])
          ≡ some v)
        × IsShown test_bytes 0x8000_0000 test_console (take 2 (test_strings 0x9000_0000)) v)
printed_texts_example =
    printed_texts test_bytes test_strings test_bytes 0x8000_0000 test_console (λ i. omega arith)
      (omega arith) (record { at_start = refl; col = omega arith; row = omega arith }) 0x9000_0000 2
      0x9000_0000 (omega arith) (omega arith) (omega arith)

-- "%.32767d": the width wraps around to 32767 and 32768 spaces follow the number.
wrapped_width :
    length (number 0 (record hex_spec { base = 10; sign = true; precision = 32767 }))
    ≡ 32767 + 32768
unfolding number pad_rounds pad_after number_digits sign_char put_dec put_dec_trunc trunc_low
    trunc_middle trunc_top
wrapped_width = refl

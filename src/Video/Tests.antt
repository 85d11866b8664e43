-- ===== src/Video/Tests.antt =====
-- The theorems on the console at a console whose cursor is in the last column of the last row.
use shield_tv_loader.Base.{ℕ, ◌%◌, ◌<◌, ◌≡◌, refl, true, [], ◌∷◌, arith}
use shield_tv_loader.Video.{
  Console, video_putchar, video_putc, video_puts, video_init, console_scrollup, console_newline,
  stepped_back,
}
use shield_tv_loader.Video.Draw.{IsDrawn, video_putchar-IsDrawn}
use shield_tv_loader.Video.Scroll.{IsScrolled, console_scrollup-IsScrolled}
use shield_tv_loader.Video.Cursor.{
  IsConsole, IsKept, IsStarted, video_puts-IsKept, video_init-IsStarted, tabbed_col, video_putc_tab,
}

-- A font whose bytes count up.
abbrev test_font : ℕ → ℕ
test_font i = i % 256

abbrev test_console : Console
test_console = record {
  video_fb_address = 0x9200_0000;
  video_console_address = 0x9200_0000;
  console_col = 159;
  console_row = 48;
  eorx = 0xa0_a0a0;
  fgx = 0xa0_a0a0;
  bgx = 0;
  nl = true;
  mem = λ a. a % 251;
}

test_console-IsConsole : IsConsole test_console
test_console-IsConsole = record { at_start = refl; col = omega arith; row = omega arith }

test_font-bytes : (i : ℕ) → test_font i < 256
test_font-bytes i = omega arith

-- A line feed on the last row scrolls and keeps the row.
newline_run : (video_putc test_font test_console 10).console_row ≡ 48
unfolding video_putc console_newline console_scrollup
newline_run = refl

-- A backspace from the first column goes to the end of the row above.
back_run : (stepped_back (record test_console { console_col = 0 })).console_col ≡ 159
unfolding stepped_back
back_run = refl

tab_run : (video_putc test_font (record test_console { console_col = 10 }) 9).console_col ≡ 8
unfolding video_putc
tab_run = refl

video_putchar-IsDrawn_example :
    IsDrawn test_font test_console 1908 1056 b'A'
      (video_putchar test_font test_console 1908 1056 b'A').mem
video_putchar-IsDrawn_example =
    video_putchar-IsDrawn test_font test_console 1908 1056 b'A' test_font-bytes

console_scrollup-IsScrolled_example :
    IsScrolled test_console.mem test_console.video_console_address
      (console_scrollup test_console).mem
console_scrollup-IsScrolled_example = console_scrollup-IsScrolled test_console

video_puts-IsKept_example :
    IsKept test_console (video_puts test_font test_console (b'A' ∷ 10 ∷ 9 ∷ 8 ∷ []))
video_puts-IsKept_example =
    video_puts-IsKept test_font test_font-bytes test_console (b'A' ∷ 10 ∷ 9 ∷ 8 ∷ [])
      test_console-IsConsole

video_init-IsStarted_example :
    IsStarted test_console 0x8000_0000 (video_init test_console 0x8000_0000)
video_init-IsStarted_example = video_init-IsStarted test_console 0x8000_0000

video_putc_tab_example :
    video_putc test_font test_console 9 ≡ record test_console { console_col = tabbed_col 159 }
video_putc_tab_example = video_putc_tab test_font test_console (omega arith)

-- ===== src/Video.antt =====
-- cfb_console.c, with the settings of video_fb.h and the sizes of video_font_large.h: a console of 49
-- rows of 160 characters in a frame buffer of 1920 by 1080 pixels of 32 bits. Memory is a function from
-- the address to the byte; the frame buffer does not wrap around the address space.
pub mod Draw
pub mod Scroll
pub mod Cursor
mod Tests
use shield_tv_loader.Base.{
  ℕ, zero, suc, ◌+◌, ◌-◌, ◌*◌, ◌/◌, ◌%◌, ◌^◌, Bool, true, false, not, ◌&&◌, ◌||◌, List, [], ◌∷◌,
  ◌++◌, ltb, leb, ◌==◌, if◌then◌else◌, bit_and, bit_or, bit_xor, update,
}
use shield_tv_loader.Memory.{memcpy}

abbrev pub video_cols : ℕ
video_cols = 1920

abbrev pub video_rows : ℕ
video_rows = 1080

-- CONFIG_VIDEO_PIXEL_SIZE
abbrev pub pixel_size : ℕ
pixel_size = 4

abbrev pub video_line_len : ℕ
video_line_len = video_cols * pixel_size

abbrev pub video_size : ℕ
video_size = video_rows * video_cols * pixel_size

abbrev pub font_width : ℕ
font_width = 12

abbrev pub font_height : ℕ
font_height = 22

-- WIDTH_BYTES
abbrev pub width_bytes : ℕ
width_bytes = (font_width + 7) / 8

abbrev pub console_rows : ℕ
console_rows = video_rows / font_height

abbrev pub console_cols : ℕ
console_cols = video_cols / font_width

abbrev pub console_row_size : ℕ
console_row_size = font_height * video_line_len

abbrev pub console_size : ℕ
console_size = console_row_size * console_rows

abbrev pub console_scroll_size : ℕ
console_scroll_size = console_size - console_row_size

-- The words of a nibble of the font, from the left.
abbrev pub video_font_draw_table32 : List (List ℕ)
video_font_draw_table32 =
    (0 ∷ 0 ∷ 0 ∷ 0 ∷ [])
    ∷ (0 ∷ 0 ∷ 0 ∷ 0x00ff_ffff ∷ [])
    ∷ (0 ∷ 0 ∷ 0x00ff_ffff ∷ 0 ∷ [])
    ∷ (0 ∷ 0 ∷ 0x00ff_ffff ∷ 0x00ff_ffff ∷ [])
    ∷ (0 ∷ 0x00ff_ffff ∷ 0 ∷ 0 ∷ [])
    ∷ (0 ∷ 0x00ff_ffff ∷ 0 ∷ 0x00ff_ffff ∷ [])
    ∷ (0 ∷ 0x00ff_ffff ∷ 0x00ff_ffff ∷ 0 ∷ [])
    ∷ (0 ∷ 0x00ff_ffff ∷ 0x00ff_ffff ∷ 0x00ff_ffff ∷ [])
    ∷ (0x00ff_ffff ∷ 0 ∷ 0 ∷ 0 ∷ [])
    ∷ (0x00ff_ffff ∷ 0 ∷ 0 ∷ 0x00ff_ffff ∷ [])
    ∷ (0x00ff_ffff ∷ 0 ∷ 0x00ff_ffff ∷ 0 ∷ [])
    ∷ (0x00ff_ffff ∷ 0 ∷ 0x00ff_ffff ∷ 0x00ff_ffff ∷ [])
    ∷ (0x00ff_ffff ∷ 0x00ff_ffff ∷ 0 ∷ 0 ∷ [])
    ∷ (0x00ff_ffff ∷ 0x00ff_ffff ∷ 0 ∷ 0x00ff_ffff ∷ [])
    ∷ (0x00ff_ffff ∷ 0x00ff_ffff ∷ 0x00ff_ffff ∷ 0 ∷ [])
    ∷ (0x00ff_ffff ∷ 0x00ff_ffff ∷ 0x00ff_ffff ∷ 0x00ff_ffff ∷ [])
    ∷ []

-- The file's variables, the static `nl` of video_putc, and memory. The cursor is never negative between
-- two calls.
pub record Console : Type 0 where
  pub video_fb_address : ℕ
  pub video_console_address : ℕ
  pub console_col : ℕ
  pub console_row : ℕ
  pub eorx : ℕ
  pub fgx : ℕ
  pub bgx : ℕ
  pub nl : Bool
  pub mem : ℕ → ℕ

-- The store of a 32-bit word, the low byte first.
abbrev pub store32 : (ℕ → ℕ) → ℕ → ℕ → ℕ → ℕ
store32 m a v =
    update
      (update (update (update m a (v % 256)) (a + 1) (v / 256 % 256)) (a + 2) (v / 65536 % 256))
      (a + 3) (v / 16777216 % 256)

abbrev pub table_row : List (List ℕ) → ℕ → List ℕ
table_row [] n = []
table_row (r ∷ t) zero = r
table_row (r ∷ t) (suc n) = table_row t n

-- The words of the eight columns of a byte of the font.
unfoldable pub columns : ℕ → List ℕ
columns bits =
    table_row video_font_draw_table32 (bits / 16) ++ table_row video_font_draw_table32 (bits % 16)

-- SWAP32 is the identity here.
unfoldable pub colored : ℕ → ℕ → ℕ → ℕ
colored eorx bgx pattern = bit_xor (bit_and pattern eorx) bgx

unfoldable pub put_words : ℕ → ℕ → (ℕ → ℕ) → ℕ → List ℕ → ℕ → ℕ
unfolding colored
put_words eorx bgx m dest [] = m
put_words eorx bgx m dest (p ∷ ps) =
    put_words eorx bgx (store32 m dest (colored eorx bgx p)) (dest + 4) ps

-- memsetl
unfoldable pub memsetl : (ℕ → ℕ) → ℕ → ℕ → ℕ → ℕ → ℕ
memsetl m p zero v = m
memsetl m p (suc c) v = memsetl (store32 m p v) (p + 4) c v

unfoldable pub console_scrollup : Console → Console
console_scrollup w =
    let first = w.video_console_address in
    let copied = memcpy w.mem first (first + console_row_size) console_scroll_size in
    record w {
      mem = memsetl copied (first + console_size - console_row_size) (console_row_size / 4) 0;
    }

unfoldable pub console_newline : Console → Console
unfolding console_scrollup
console_newline w =
    let w1 = record w { console_row = w.console_row + 1; console_col = 0 } in
    let w2 = console_scrollup w1 in
    if leb console_rows w1.console_row then record w2 { console_row = w2.console_row - 1 } else w1

unfoldable pub console_cr : Console → Console
console_cr w = record w { console_col = 0 }

-- console_col |= 8, then &= ~7
abbrev pub tab_stop : ℕ → ℕ
tab_stop col = bit_and (bit_or col 8) 0xffff_fff8

-- The cursor of console_back before it draws.
unfoldable pub stepped_back : Console → Console
stepped_back w =
    if w.console_col == 0
    then record w { console_col = console_cols - 1; console_row = w.console_row - 1 }
    else record w { console_col = w.console_col - 1 }

-- video_fontdata of video_font_large.h.
module _ (video_fontdata : ℕ → ℕ) where
  -- The loop over the bytes of a line of the font, while `tbits` is above 0.
  unfoldable pub draw_columns : ℕ → ℕ → ℕ → (ℕ → ℕ) → ℕ → ℕ → ℕ → ℕ
  draw_columns eorx bgx zero m dest cdat = m
  draw_columns eorx bgx (suc n) m dest cdat =
      draw_columns eorx bgx n (put_words eorx bgx m dest (columns (video_fontdata cdat)))
        (dest + 32) (cdat + 1)

  unfoldable pub draw_rows : ℕ → ℕ → ℕ → (ℕ → ℕ) → ℕ → ℕ → ℕ → ℕ
  draw_rows eorx bgx zero m dest cdat = m
  draw_rows eorx bgx (suc rows) m dest cdat =
      draw_rows eorx bgx rows (draw_columns eorx bgx width_bytes m dest cdat)
        (dest + video_line_len) (cdat + width_bytes)

  -- The loop over the characters.
  unfoldable pub draw_string : ℕ → ℕ → (ℕ → ℕ) → ℕ → List ℕ → ℕ → ℕ
  draw_string eorx bgx m dest0 [] = m
  draw_string eorx bgx m dest0 (c ∷ s) =
      draw_string eorx bgx
        (draw_rows eorx bgx font_height m dest0 (c * (font_height * width_bytes)))
        (dest0 + font_width * pixel_size) s

  -- The branch of GDF_32BIT_X888RGB.
  unfoldable pub video_drawchars : Console → ℕ → ℕ → List ℕ → Console
  video_drawchars w xx yy s = record w {
    mem =
        draw_string w.eorx w.bgx w.mem
          (w.video_fb_address + (yy * video_line_len + xx * pixel_size)) s;
  }

  -- video_logo_height is 0.
  unfoldable pub video_putchar : Console → ℕ → ℕ → ℕ → Console
  video_putchar w xx yy c = video_drawchars w xx yy (c ∷ [])

  -- What is drawn at the cursor.
  abbrev pub at_cursor : Console → ℕ → Console
  at_cursor w c = video_putchar w (w.console_col * font_width) (w.console_row * font_height) c

  unfoldable pub console_back : Console → Console
  unfolding stepped_back
  console_back w = at_cursor (stepped_back w) b' '

  unfoldable pub video_putc : Console → ℕ → Console
  unfolding console_cr console_newline console_back video_putchar
  video_putc w c =
      let tabbed = record w { console_col = tab_stop w.console_col } in
      let lined = console_newline w in
      let drawn = at_cursor w c in
      let next = record drawn { console_col = drawn.console_col + 1 } in
      if c == 13
      then console_cr w
      else if c == 10
      then record (if not (w.console_col == 0) || w.nl then lined else w) { nl = true }
      else if c == 9
      then if leb console_cols tabbed.console_col then console_newline tabbed else tabbed
      else if c == 8
      then console_back w
      else if leb console_cols next.console_col
      then record (console_newline next) { nl = false }
      else next

  -- Each byte before the NUL.
  unfoldable pub video_puts : Console → List ℕ → Console
  unfolding video_putc
  video_puts w [] = w
  video_puts w (c ∷ s) = video_puts (video_putc w c) s

-- `nl` keeps its value.
unfoldable pub video_init : Console → ℕ → Console
unfolding memsetl
video_init w videobase =
    let fgx : ℕ = 0xa0_a0a0 in
    let bgx : ℕ = 0 in
    record w {
      video_fb_address = videobase;
      video_console_address = videobase;
      fgx = fgx;
      bgx = bgx;
      eorx = bit_xor fgx bgx;
      console_col = 0;
      console_row = 0;
      mem = memsetl w.mem videobase (video_cols * video_rows) 0;
    }

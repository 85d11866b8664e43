-- ===== src/Video/Cursor.antt =====
-- The cursor of the console stays on it, and what is printed stays in the frame buffer.
use shield_tv_loader.Base.{
  ℕ, ◌+◌, ◌*◌, ◌/◌, ◌%◌, ◌≤◌, ◌<◌, ◌≡◌, refl, sym, ap, subst, ◌∙◌, ◌⊎◌, inl, inr, Bool, true, false,
  List, [], ◌∷◌, leb, ◌==◌, if◌then◌else◌, arith, dec_lt, all_below_holds, ==→eq,
}
use shield_tv_loader.Video.{
  Console, video_size, video_cols, video_rows, video_line_len, pixel_size, font_width, font_height,
  console_rows, console_cols, console_scrollup, console_newline, console_cr, console_back,
  at_cursor, video_putchar, video_drawchars, draw_string, tab_stop, stepped_back, video_putc,
  video_puts, video_init,
}
use shield_tv_loader.Video.Draw.{Outside, Apart, draw_rows-Apart}
use shield_tv_loader.Video.Scroll.{console_scrollup-IsScrolled, memsetl-Outside, memsetl-zero}

-- The console begins where the frame buffer does, and the cursor is on it.
pub record IsConsole (w : Console) : Type 0 where
  pub at_start : w.video_console_address ≡ w.video_fb_address
  pub col : w.console_col < console_cols
  pub row : w.console_row < console_rows

-- `v` is a console at the same place, and memory differs in the frame buffer only.
pub record IsKept (w v : Console) : Type 0 where
  pub console : IsConsole v
  pub place : v.video_fb_address ≡ w.video_fb_address
  pub memory : Outside w.video_fb_address (w.video_fb_address + video_size) w.mem v.mem

-- What is kept from `v` on is kept from `w` on.
IsKept-after :
    (w v u : Console)
    → v.video_fb_address ≡ w.video_fb_address
    → Outside w.video_fb_address (w.video_fb_address + video_size) w.mem v.mem
    → IsKept v u
    → IsKept w u
IsKept-after w v u e m k = record {
  console = k.console;
  place = k.place ∙ e;
  memory = λ a o. k.memory a (subst (λ f. (a < f) ⊎ (f + video_size ≤ a)) (sym e) o) ∙ m a o;
}

IsKept-nl : (w v : Console) (b : Bool) → IsKept w v → IsKept w (record v { nl = b })
IsKept-nl w v b k = record {
  console = record { at_start = k.console.at_start; col = k.console.col; row = k.console.row };
  place = k.place;
  memory = k.memory;
}

IsKept-if :
    (w v u : Console) (t : Bool)
    → (t ≡ true → IsKept w v)
    → (t ≡ false → IsKept w u)
    → IsKept w (if t then v else u)
IsKept-if w v u true h k = h refl
IsKept-if w v u false h k = k refl

-- A move of the cursor.
moved_to :
    (w v : Console)
    → IsConsole w
    → v.video_fb_address ≡ w.video_fb_address
    → v.video_console_address ≡ w.video_console_address
    → v.mem ≡ w.mem
    → v.console_col < console_cols
    → v.console_row < console_rows
    → IsKept w v
moved_to w v h f c m x y = record {
  console = record { at_start = c ∙ h.at_start ∙ sym f; col = x; row = y };
  place = f;
  memory = λ a o. ap (λ g. g a) m;
}

newline-IsKept :
    (w : Console)
    → w.video_console_address ≡ w.video_fb_address
    → w.console_row < console_rows
    → IsKept w (console_newline w)
unfolding console_newline console_scrollup
newline-IsKept w s h = elim (dec_lt (w.console_row + 1) console_rows) [
  | yes k ↦
      let e : leb console_rows (w.console_row + 1) ≡ false = ground (arith, k) in
      rw e (record {
        console = record { at_start = s; col = omega arith; row = k };
        place = refl;
        memory = λ a o. refl;
      })
  | no k ↦
      let e : leb console_rows (w.console_row + 1) ≡ true = ground (arith, k) in
      let w1 = record w { console_row = w.console_row + 1; console_col = 0 } in
      let moved = console_scrollup-IsScrolled w1 in
      rw e (record {
        console = record { at_start = s; col = omega arith; row = omega (arith, h) };
        place = refl;
        memory = λ a o. moved.outside a (ground (arith, o, s));
      })
]

stepped_back-IsKept : (w : Console) → IsConsole w → IsKept w (stepped_back w)
unfolding stepped_back
stepped_back-IsKept w h =
    IsKept-if w _ _ (w.console_col == 0)
      (λ e. moved_to w _ h refl refl refl (omega arith) (omega (arith, h.row)))
      (λ e. moved_to w _ h refl refl refl (omega (arith, h.col)) h.row)

module _ (font : ℕ → ℕ) (bytes : (i : ℕ) → font i < 256) where
  drawn-Outside :
      (w : Console) (c : ℕ)
      → IsConsole w
      → Outside w.video_fb_address (w.video_fb_address + video_size) w.mem (at_cursor font w c).mem
  unfolding video_putchar video_drawchars draw_string
  drawn-Outside w c h a o =
      let dest =
        w.video_fb_address
        + (w.console_row * font_height * video_line_len
            + w.console_col * font_width * pixel_size) in
      let apart : Apart dest font_height a = λ y k. elim o [
        | inl below ↦ inl (omega (arith, below))
        | inr above ↦ inr (omega (arith, above, h.row, h.col, k))
      ] in
      draw_rows-Apart font bytes w.eorx w.bgx font_height w.mem dest _ a apart

  -- A character is drawn at the cursor, which does not move.
  drawn-IsKept : (w : Console) (c : ℕ) → IsConsole w → IsKept w (at_cursor font w c)
  unfolding video_putchar video_drawchars
  drawn-IsKept w c h = record {
    console = record { at_start = h.at_start; col = h.col; row = h.row };
    place = refl;
    memory = drawn-Outside w c h;
  }

  back-IsKept : (w : Console) → IsConsole w → IsKept w (console_back font w)
  unfolding console_back
  back-IsKept w h =
      let k = stepped_back-IsKept w h in
      let v = stepped_back w in
      IsKept-after w v (at_cursor font v b' ') k.place k.memory (drawn-IsKept v b' ' k.console)

  video_putc-IsKept : (w : Console) (c : ℕ) → IsConsole w → IsKept w (video_putc font w c)
  unfolding video_putc console_cr video_putchar video_drawchars
  video_putc-IsKept w c h =
      let drawn = at_cursor font w c in
      let next = record drawn { console_col = drawn.console_col + 1 } in
      let tabbed = record w { console_col = tab_stop w.console_col } in
      IsKept-if w _ _ (c == 13)
        (λ e. moved_to w (console_cr w) h refl refl refl (omega arith) h.row)
        (λ e.
          IsKept-if w _ _ (c == 10)
            (λ f. IsKept-nl w _ true (
              IsKept-if w (console_newline w) w _ (λ g. newline-IsKept w h.at_start h.row)
                (λ g. moved_to w w h refl refl refl h.col h.row)))
            (λ f.
              IsKept-if w _ _ (c == 9)
                (λ g.
                  IsKept-if w (console_newline tabbed) tabbed (leb console_cols tabbed.console_col)
                    (λ k.
                      IsKept-after w tabbed (console_newline tabbed) refl (λ a o. refl)
                        (newline-IsKept tabbed h.at_start h.row))
                    (λ k. moved_to w tabbed h refl refl refl (ground (arith, k)) h.row))
                (λ g.
                  IsKept-if w _ _ (c == 8) (λ k. back-IsKept w h)
                    (λ k.
                      IsKept-if w (record (console_newline next) { nl = false }) next
                        (leb console_cols next.console_col)
                        (λ l. IsKept-nl w (console_newline next) false (
                          IsKept-after w next (console_newline next) refl (drawn-Outside w c h)
                            (newline-IsKept next h.at_start h.row)))
                        (λ l. IsKept-after w drawn next refl (drawn-Outside w c h) (
                          moved_to drawn next (drawn-IsKept w c h).console refl refl refl
                            (ground (arith, l)) h.row))))))

  -- For a font of bytes and a cursor on the console, which begins where the frame buffer does,
  -- video_puts leaves the cursor on the console, the frame buffer in its place, and memory outside
  -- the frame buffer as it was, whatever it prints.
  pub video_puts-IsKept : (w : Console) (s : List ℕ) → IsConsole w → IsKept w (video_puts font w s)
  unfolding video_puts
  video_puts-IsKept w [] h = moved_to w w h refl refl refl h.col h.row
  video_puts-IsKept w (c ∷ s) h =
      let k = video_putc-IsKept w c h in
      let v = video_putc font w c in
      IsKept-after w v (video_puts font v s) k.place k.memory (video_puts-IsKept v s k.console)

-- The console after video_init: its cursor is in the corner, the frame buffer is black, and other memory
-- is kept.
pub record IsStarted (w : Console) (base : ℕ) (v : Console) : Type 0 where
  pub console : IsConsole v
  pub corner : ◌≡◌ {A = ℕ × ℕ} (v.console_col, v.console_row) (0, 0)
  pub place : v.video_fb_address ≡ base
  pub black : (i : ℕ) → i < video_size → v.mem (base + i) ≡ 0
  pub others : Outside base (base + video_size) w.mem v.mem

-- video_init puts the cursor in the corner of a console at the given address, blackens each pixel
-- of the frame buffer there and leaves all other memory as it was.
pub video_init-IsStarted : (w : Console) (base : ℕ) → IsStarted w base (video_init w base)
unfolding video_init
video_init-IsStarted w base = record {
  console = record { at_start = refl; col = omega arith; row = omega arith };
  corner = refl;
  place = refl;
  black = λ i h.
      memsetl-zero (video_cols * video_rows) w.mem base (base + i) (omega arith) (omega (arith, h));
  others = λ a o. memsetl-Outside (video_cols * video_rows) w.mem base 0 a o;
}

tab_if : (t : Bool) (v u : Console) → t ≡ false → (if t then v else u) ≡ u
tab_if true v u e = absurd (cc e)
tab_if false v u e = refl

-- Where a tab goes from a column.
unfoldable pub tabbed_col : ℕ → ℕ
tabbed_col col = if col / 8 % 2 == 1 then col / 8 * 8 else (col / 8 + 1) * 8

all_tabs : ℕ → Bool
unfolding tabbed_col
all_tabs col = tab_stop col == tabbed_col col

tab_stop-tabbed_col : (col : ℕ) → col < console_cols → tab_stop col ≡ tabbed_col col
unfolding all_tabs tabbed_col
tab_stop-tabbed_col col h =
    ==→eq (tab_stop col) (tabbed_col col) (all_below_holds console_cols all_tabs refl col h)

tabbed_col-inside : (col : ℕ) → col < console_cols → leb console_cols (tabbed_col col) ≡ false
unfolding tabbed_col
tabbed_col-inside col h = ground (arith, h)

-- A tab at a column of the console moves the cursor and nothing else: to the next multiple of 8
-- where the group of 8 columns that it is in has an even number, and back to the start of the group
-- otherwise.
pub video_putc_tab :
    (font : ℕ → ℕ) (w : Console)
    → w.console_col < console_cols
    → video_putc font w 9 ≡ record w { console_col = tabbed_col w.console_col }
unfolding video_putc
video_putc_tab font w h =
    let e = tab_stop-tabbed_col w.console_col h in
    let moved : video_putc font w 9 ≡ (
        if leb console_cols (tabbed_col w.console_col)
        then console_newline (record w { console_col = tabbed_col w.console_col })
        else record w { console_col = tabbed_col w.console_col }) =
      ap
        (λ c.
          if leb console_cols c
          then console_newline (record w { console_col = c })
          else record w { console_col = c })
        e in
    moved
    ∙ tab_if (leb console_cols (tabbed_col w.console_col)) _ _ (tabbed_col-inside w.console_col h)

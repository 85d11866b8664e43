-- ===== src/Video/Draw.antt =====
-- The drawing of characters: which bytes of the frame buffer it writes, and what it writes there.
use shield_tv_loader.Base.{
  ℕ, zero, suc, ◌+◌, ◌-◌, ◌*◌, ◌/◌, ◌%◌, ◌^◌, ◌≤◌, ◌<◌, ◌≡◌, refl, sym, subst, ◌∙◌, ap, ◌⊎◌, inl,
  Bool, List, [], ◌∷◌, ◌==◌, if◌then◌else◌, length, nth, all_below_holds, ==→eq, arith, dec_lt,
}
use shield_tv_loader.Video.{
  Console, video_putchar, video_drawchars, store32, put_words, columns, colored, draw_columns,
  draw_rows, draw_string, font_height, width_bytes, pixel_size, video_line_len,
}

-- Memory differs between `lo` and `hi` only.
abbrev pub Outside : ℕ → ℕ → (ℕ → ℕ) → (ℕ → ℕ) → Type 0
Outside lo hi m m1 = (a : ℕ) → (a < lo) ⊎ (hi ≤ a) → m1 a ≡ m a

-- The byte `b` of a word.
abbrev pub byte_of : ℕ → ℕ → ℕ
byte_of v zero = v % 256
byte_of v (suc zero) = v / 256 % 256
byte_of v (suc (suc zero)) = v / 65536 % 256
byte_of v (suc (suc (suc b))) = v / 16777216 % 256

pub store32-Outside : (m : ℕ → ℕ) (a v : ℕ) → Outside a (a + 4) m (store32 m a v)
store32-Outside m a v x h = ground (arith, h)

pub store32-at : (m : ℕ → ℕ) (a v b : ℕ) → b < 4 → store32 m a v (a + b) ≡ byte_of v b
store32-at m a v zero h = ground arith
store32-at m a v (suc zero) h = ground arith
store32-at m a v (suc (suc zero)) h = ground arith
store32-at m a v (suc (suc (suc zero))) h = ground arith
store32-at m a v (suc (suc (suc (suc b)))) h = absurd (omega (arith, h))

pub put_words-Outside :
    (eorx bgx : ℕ) (ps : List ℕ) (m : ℕ → ℕ) (dest : ℕ)
    → Outside dest (dest + 4 * length ps) m (put_words eorx bgx m dest ps)
unfolding put_words
put_words-Outside eorx bgx [] m dest x h = refl
put_words-Outside eorx bgx (p ∷ ps) m dest x h =
    put_words-Outside eorx bgx ps (store32 m dest (colored eorx bgx p)) (dest + 4) x
      (ground (arith, h))
    ∙ store32-Outside m dest (colored eorx bgx p) x (ground (arith, h))

-- The word `k` of those that are put.
pub put_words-at :
    (eorx bgx : ℕ) (ps : List ℕ) (m : ℕ → ℕ) (dest k b a : ℕ)
    → a ≡ dest + 4 * k + b
    → k < length ps
    → b < 4
    → put_words eorx bgx m dest ps a ≡ byte_of (colored eorx bgx (nth ps k)) b
unfolding put_words
put_words-at eorx bgx [] m dest k b a e h i = absurd (omega (arith, h))
put_words-at eorx bgx (p ∷ ps) m dest zero b a e h i =
    let v = colored eorx bgx p in
    let here : a ≡ dest + b = omega (arith, e) in
    put_words-Outside eorx bgx ps (store32 m dest v) (dest + 4) a (inl (omega (arith, here, i)))
    ∙ subst (λ x. store32 m dest v x ≡ byte_of v b) (sym here) (store32-at m dest v b i)
put_words-at eorx bgx (p ∷ ps) m dest (suc k) b a e h i =
    put_words-at eorx bgx ps (store32 m dest (colored eorx bgx p)) (dest + 4) k b a
      (omega (arith, e)) (omega (arith, h)) i

-- The column `x` of a byte of the font, whose highest bit is on the left.
abbrev pub pattern_of : ℕ → ℕ → ℕ
pattern_of bits x = if bits / 2 ^ (7 - x) % 2 == 1 then 0x00ff_ffff else 0

all_columns : ℕ → Bool
unfolding columns
all_columns j = nth (columns (j / 8)) (j % 8) == pattern_of (j / 8) (j % 8)

pub length-columns : (bits : ℕ) → bits < 256 → length (columns bits) ≡ 8
unfolding columns
length-columns bits h =
    ==→eq (length (columns bits)) 8 (all_below_holds 256 (λ n. length (columns n) == 8) refl bits h)

columns_table : (j : ℕ) → j < 2048 → nth (columns (j / 8)) (j % 8) ≡ pattern_of (j / 8) (j % 8)
unfolding all_columns columns
columns_table j h =
    ==→eq (nth (columns (j / 8)) (j % 8)) (pattern_of (j / 8) (j % 8))
      (all_below_holds 2048 all_columns refl j h)

pub nth-columns : (bits x : ℕ) → bits < 256 → x < 8 → nth (columns bits) x ≡ pattern_of bits x
nth-columns bits x h k =
    let j = bits * 8 + x in
    let hi : j / 8 ≡ bits = omega (arith, k) in
    let lo : j % 8 ≡ x = omega (arith, k) in
    subst (λ n. nth (columns bits) n ≡ pattern_of bits n) lo
      (subst (λ n. nth (columns n) (j % 8) ≡ pattern_of n (j % 8)) hi
        (columns_table j (omega (arith, h, k))))

-- The lines of a character stand below each other, 16 pixels wide.
abbrev pub Apart : ℕ → ℕ → ℕ → Type 0
Apart dest rows a =
    (y : ℕ) → y < rows → (a < dest + video_line_len * y) ⊎ (dest + video_line_len * y + 64 ≤ a)

-- The color of the column `x` of a line of the font.
abbrev pub ink : (ℕ → ℕ) → ℕ → ℕ → ℕ → ℕ → ℕ
ink font eorx bgx cdat x = colored eorx bgx (pattern_of (font (cdat + x / 8)) (x % 8))

module _ (font : ℕ → ℕ) (bytes : (i : ℕ) → font i < 256) (eorx bgx : ℕ) where
  ink_first :
      (cdat x : ℕ)
      → x < 8
      → colored eorx bgx (nth (columns (font cdat)) x) ≡ ink font eorx bgx cdat x
  ink_first cdat x h =
      let hi : cdat + x / 8 ≡ cdat = omega (arith, h) in
      let lo : x % 8 ≡ x = omega (arith, h) in
      rw (hi, lo) (ap (colored eorx bgx) (nth-columns (font cdat) x (bytes cdat) h))

  ink_rest : (cdat x : ℕ) → 8 ≤ x → ink font eorx bgx (cdat + 1) (x - 8) ≡ ink font eorx bgx cdat x
  ink_rest cdat x h =
      let hi : cdat + 1 + (x - 8) / 8 ≡ cdat + x / 8 = omega (arith, h) in
      let lo : (x - 8) % 8 ≡ x % 8 = omega (arith, h) in rw (hi, lo) refl

  pub draw_columns-Outside :
      (n : ℕ) (m : ℕ → ℕ) (dest cdat : ℕ)
      → Outside dest (dest + 32 * n) m (draw_columns font eorx bgx n m dest cdat)
  unfolding draw_columns
  draw_columns-Outside zero m dest cdat a h = refl
  draw_columns-Outside (suc n) m dest cdat a h =
      let eight = length-columns (font cdat) (bytes cdat) in
      draw_columns-Outside n (put_words eorx bgx m dest (columns (font cdat))) (dest + 32)
        (cdat + 1) a (ground (arith, h))
      ∙ put_words-Outside eorx bgx (columns (font cdat)) m dest a (ground (arith, h, eight))

  pub draw_columns-at :
      (n : ℕ) (m : ℕ → ℕ) (dest cdat x b a : ℕ)
      → a ≡ dest + 4 * x + b
      → x < 8 * n
      → b < 4
      → draw_columns font eorx bgx n m dest cdat a ≡ byte_of (ink font eorx bgx cdat x) b
  unfolding draw_columns
  draw_columns-at zero m dest cdat x b a e h i = absurd (omega (arith, h))
  draw_columns-at (suc n) m dest cdat x b a e h i =
      let first = put_words eorx bgx m dest (columns (font cdat)) in
      let eight = length-columns (font cdat) (bytes cdat) in
      elim (dec_lt x 8) [
        | yes k ↦
            draw_columns-Outside n first (dest + 32) (cdat + 1) a (inl (omega (arith, e, k, i)))
            ∙ put_words-at eorx bgx (columns (font cdat)) m dest x b a e (omega (arith, k, eight)) i
            ∙ ap (λ v. byte_of v b) (ink_first cdat x k)
        | no k ↦
            draw_columns-at n first (dest + 32) (cdat + 1) (x - 8) b a (omega (arith, e, k))
              (omega (arith, h, k)) i
            ∙ ap (λ v. byte_of v b) (ink_rest cdat x (omega (arith, k)))
      ]

  pub draw_rows-Apart :
      (rows : ℕ) (m : ℕ → ℕ) (dest cdat a : ℕ)
      → Apart dest rows a
      → draw_rows font eorx bgx rows m dest cdat a ≡ m a
  unfolding draw_rows
  draw_rows-Apart zero m dest cdat a h = refl
  draw_rows-Apart (suc rows) m dest cdat a h =
      let below : Apart (dest + video_line_len) rows a =
        λ y k. ground (arith, h (suc y) (omega (arith, k))) in
      draw_rows-Apart rows (draw_columns font eorx bgx width_bytes m dest cdat)
        (dest + video_line_len) (cdat + width_bytes) a below
      ∙ draw_columns-Outside width_bytes m dest cdat a (ground (arith, h 0 (omega arith)))

  pub draw_rows-at :
      (rows : ℕ) (m : ℕ → ℕ) (dest cdat y x b a : ℕ)
      → a ≡ dest + video_line_len * y + 4 * x + b
      → y < rows
      → x < 16
      → b < 4
      → draw_rows font eorx bgx rows m dest cdat a ≡ byte_of (ink font eorx bgx (cdat + 2 * y) x) b
  unfolding draw_rows
  draw_rows-at zero m dest cdat y x b a e h j i = absurd (omega (arith, h))
  draw_rows-at (suc rows) m dest cdat zero x b a e h j i =
      let line = draw_columns font eorx bgx width_bytes m dest cdat in
      let above : Apart (dest + video_line_len) rows a = λ y k. inl (omega (arith, e, j, i)) in
      let same : cdat + 2 * 0 ≡ cdat = omega arith in
      draw_rows-Apart rows line (dest + video_line_len) (cdat + width_bytes) a above
      ∙ draw_columns-at width_bytes m dest cdat x b a (omega (arith, e)) (omega (arith, j)) i
      ∙ ap (λ c. byte_of (ink font eorx bgx c x) b) (sym same)
  draw_rows-at (suc rows) m dest cdat (suc y) x b a e h j i =
      let next : cdat + width_bytes + 2 * y ≡ cdat + 2 * suc y = omega arith in
      draw_rows-at rows (draw_columns font eorx bgx width_bytes m dest cdat) (dest + video_line_len)
        (cdat + width_bytes) y x b a (omega (arith, e)) (omega (arith, h)) j i
      ∙ ap (λ c. byte_of (ink font eorx bgx c x) b) next

-- What the frame buffer holds after a character was drawn with its corner at `xx`, `yy`.
pub record IsDrawn (font : ℕ → ℕ) (w : Console) (xx yy c : ℕ) (m : ℕ → ℕ) : Type 0 where
  pub pixels :
      (x y b : ℕ)
      → x < 16
      → y < font_height
      → b < 4
      → m (w.video_fb_address + (yy + y) * video_line_len + (xx + x) * pixel_size + b)
        ≡ byte_of (ink font w.eorx w.bgx (c * 44 + 2 * y) x) b
  pub others :
      (a : ℕ)
      → Apart (w.video_fb_address + (yy * video_line_len + xx * pixel_size)) font_height a
      → m a ≡ w.mem a

-- For a font of bytes, video_putchar writes the 16 bits of each of the 22 lines of the character as
-- 16 pixels from its corner on, each in the color that its bit selects, the highest bit on the
-- left, and writes nothing else.
pub video_putchar-IsDrawn :
    (font : ℕ → ℕ) (w : Console) (xx yy c : ℕ)
    → ((i : ℕ) → font i < 256)
    → IsDrawn font w xx yy c (video_putchar font w xx yy c).mem
unfolding video_putchar video_drawchars draw_string
video_putchar-IsDrawn font w xx yy c bytes =
    let dest = w.video_fb_address + (yy * video_line_len + xx * pixel_size) in
    record {
      pixels = λ x y b h k i.
          draw_rows-at font bytes w.eorx w.bgx font_height w.mem dest
            (c * (font_height * width_bytes)) y x b _ (omega arith) k h i;
      others = λ a apart. draw_rows-Apart font bytes w.eorx w.bgx font_height w.mem dest _ a apart;
    }

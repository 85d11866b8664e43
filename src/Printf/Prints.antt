-- ===== src/Printf/Prints.antt =====
-- The formats of printk in fb_oem_cmd_echo and dump_cmdline, and what reaches the screen.
use shield_tv_loader.Base.{
  ℕ, ◌+◌, ◌%◌, ◌^◌, ◌≤◌, ◌<◌, ◌≡◌, refl, ap, ◌∙◌, true, false, List, [], ◌∷◌, ◌++◌, some, ltb, ℤ,
  pos, if◌then◌else◌, take, arith, All, all_nil, all_cons, sym, subst,
}
use shield_tv_loader.Ctype.{is_digit}
use shield_tv_loader.Printf.{
  format_decode, decode_after, read_part, read_flags, read_width, read_precision, read_qualifier,
  read_conversion, until_percent, skip_atoi, as_i16, at_least_zero,
}
use shield_tv_loader.Printf.Convert.{convert, string, cut_to, null_text, page_size}
use shield_tv_loader.Printf.Buffer.{format_step, text_loop, formatted}
use shield_tv_loader.Printf.Texts.{append_nil}
use shield_tv_loader.Video.{Console}
use shield_tv_loader.Video.Cursor.{IsConsole}
use shield_tv_loader.Printf.Later.{IsSimple}
use shield_tv_loader.Printf.Rounds.{conversions}
use shield_tv_loader.Printf.Console.{printk, printk-IsShown, IsShown}
use mathlib.Core.Option.{some-injective}

-- "%s\n"
abbrev pub echo_format : List ℕ
echo_format = b'%' ∷ b's' ∷ b'\n' ∷ []

-- "%.*s"
abbrev pub word_format : List ℕ
word_format = b'%' ∷ b'.' ∷ b'*' ∷ b's' ∷ []

as_i16-pos : (n : ℕ) → n < 2 ^ 15 → as_i16 n ≡ pos n
as_i16-pos n h =
    let small : n % 65536 ≡ n = omega (arith, h) in
    let fits : ltb n 32768 ≡ true = ground (arith, h) in rw (small, fits) refl

not_null : (s : ℕ) (t u : List ℕ) → page_size ≤ s → (if ltb s page_size then t else u) ≡ u
not_null s t u h = let far : ltb s page_size ≡ false = ground (arith, h) in rw far refl

module _ (strings : ℕ → List ℕ) (bytes : ℕ → ℕ) where
  pub formatted-echo :
      (s : ℕ)
      → page_size ≤ s
      → formatted strings bytes echo_format (s ∷ []) ≡ some (strings s ++ b'\n' ∷ [])
  unfolding text_loop format_step format_decode decode_after read_part read_flags read_width
      read_precision read_qualifier read_conversion until_percent skip_atoi convert is_digit string
  formatted-echo s h =
      ap (λ t. some ((t ++ []) ++ b'\n' ∷ [])) (not_null s null_text (strings s) h)
      ∙ ap (λ t. some (t ++ b'\n' ∷ [])) (append_nil (strings s))

  pub formatted-word :
      (n s : ℕ)
      → n < 2 ^ 15
      → page_size ≤ s
      → formatted strings bytes word_format (n ∷ s ∷ []) ≡ some (take n (strings s))
  unfolding text_loop format_step format_decode decode_after read_part read_flags read_width
      read_precision read_qualifier read_conversion until_percent skip_atoi convert is_digit string
  formatted-word n s h k =
      let text = λ (p : ℤ) (t : List ℕ). cut_to (at_least_zero p) t in
      let out = λ (t : List ℕ). some ((t ++ []) ++ []) in
      ap (λ p. out (text p (if ltb s page_size then null_text else strings s))) (as_i16-pos n h)
      ∙ ap (λ t. out (text (pos n) t)) (not_null s null_text (strings s) k)
      ∙ ap (λ t. some (t ++ [])) (append_nil (take n (strings s)))
      ∙ ap some (append_nil (take n (strings s)))

module _ (font : ℕ → ℕ) (strings : ℕ → List ℕ) (bytes : ℕ → ℕ) (stack : ℕ) (w : Console)
    (font_bytes : (i : ℕ) → font i < 256) (room : stack + 512 < 2 ^ 64) (h : IsConsole w) where
  -- printk of a format whose text is known.
  pub printk_text :
      (fmt args text : List ℕ)
      → All IsSimple (conversions fmt)
      → formatted strings bytes fmt args ≡ some text
      → (v : Console) × (printk font strings bytes stack w fmt args ≡ some v)
        × IsShown font stack w text v
  printk_text fmt args text simple e =
      let p = printk-IsShown font strings bytes stack w fmt args font_bytes simple room h in
      let same = some-injective p.0 text (sym p.2 ∙ e) in
      (p.1, p.3, subst (λ t. IsShown font stack w t p.1) same p.4)

  pub printk-echo :
      (s : ℕ)
      → page_size ≤ s
      → (v : Console) × (printk font strings bytes stack w echo_format (s ∷ []) ≡ some v)
        × IsShown font stack w (strings s ++ b'\n' ∷ []) v
  unfolding until_percent
  printk-echo s k =
      printk_text echo_format (s ∷ []) _ (all_cons refl (all_cons refl (all_cons refl all_nil)))
        (formatted-echo strings bytes s k)

  pub printk-word :
      (n s : ℕ)
      → n < 2 ^ 15
      → page_size ≤ s
      → (v : Console) × (printk font strings bytes stack w word_format (n ∷ s ∷ []) ≡ some v)
        × IsShown font stack w (take n (strings s)) v
  unfolding until_percent
  printk-word n s small k =
      printk_text word_format (n ∷ s ∷ []) _
        (all_cons refl (all_cons refl (all_cons refl (all_cons refl all_nil))))
        (formatted-word strings bytes n s small k)

  -- For a font of bytes, a buffer on the stack that does not reach the end of the address space, a
  -- cursor on the console, strings that stand behind the first page and n below 2 ^ 15, the printk
  -- of echo shows its argument and a line feed, and that with %.*s of dump_cmdline the first n
  -- bytes of its string, each text cut to 511 bytes and at its first NUL.
  pub printed_texts :
      (cmd n s : ℕ)
      → n < 2 ^ 15
      → page_size ≤ cmd
      → page_size ≤ s
      → ((v : Console) × (printk font strings bytes stack w echo_format (cmd ∷ []) ≡ some v)
          × IsShown font stack w (strings cmd ++ b'\n' ∷ []) v)
        × ((v : Console) × (printk font strings bytes stack w word_format (n ∷ s ∷ []) ≡ some v)
            × IsShown font stack w (take n (strings s)) v)
  printed_texts cmd n s small k l = (printk-echo cmd k, printk-word n s small l)

-- ===== src/Boot/Cmdline.antt =====
-- dump_cmdline of main.c: the command line on the screen, word by word.
use shield_tv_loader.Base.{
  ℕ, zero, suc, ◌+◌, ◌-◌, ◌^◌, ◌≤◌, ◌<◌, ◌≡◌, refl, sym, ◌∙◌, ap, subst, List, [], ◌∷◌, ◌++◌,
  Option, none, some, if◌then◌else◌, ◌==◌, arith, take, drop, length, Bool-cases, inl, inr, all_nil,
  false,
}
use shield_tv_loader.Text.{advance, strchr}
use shield_tv_loader.Video.{Console}
use shield_tv_loader.Video.Cursor.{IsConsole}
use shield_tv_loader.Printf.{format_decode, decode_after, read_part, until_percent}
use shield_tv_loader.Printf.Convert.{convert, page_size}
use shield_tv_loader.Printf.Buffer.{and_then, format_step, text_loop}
use shield_tv_loader.Printf.Console.{printk, IsShown}
use shield_tv_loader.Printf.Prints.{echo_format, word_format, printk_text, printk-echo, printk-word}

-- "Cmdline: "
abbrev pub cmdline_format : List ℕ
cmdline_format = b'C' ∷ b'm' ∷ b'd' ∷ b'l' ∷ b'i' ∷ b'n' ∷ b'e' ∷ b':' ∷ b' ' ∷ []

-- "No cmdline\n"
abbrev pub no_cmdline_format : List ℕ
no_cmdline_format = b'N' ∷ b'o' ∷ b' ' ∷ b'c' ∷ b'm' ∷ b'd' ∷ b'l' ∷ b'i' ∷ b'n' ∷ b'e' ∷ b'\n' ∷ []

module _ (font : ℕ → ℕ) (strings : ℕ → List ℕ) (bytes : ℕ → ℕ) (stack : ℕ) where
  -- The loop over the words, and the printk behind it; `s` is an address.
  unfoldable pub dump_loop : ℕ → Console → ℕ → Option Console
  unfolding strchr printk
  dump_loop zero w s = none
  dump_loop (suc fuel) w s = elim (strchr (strings s) b' ') [
    | none ↦ printk font strings bytes stack w echo_format (s ∷ [])
    | some n ↦
        let len = length (strings s) - length n in
        and_then (printk font strings bytes stack w word_format ((len + 1) ∷ s ∷ []))
          (λ v. dump_loop fuel v (s + (len + 1)))
  ]

  unfoldable pub dump_cmdline : Console → ℕ → Option Console
  unfolding dump_loop
  dump_cmdline w s =
      let line =
        and_then (printk font strings bytes stack w cmdline_format [])
          (λ v. dump_loop (length (strings s) + 1) v s) in
      if s == 0 then printk font strings bytes stack w no_cmdline_format [] else line

-- The texts in their order, joined.
pub joined : List (List ℕ) → List ℕ
joined [] = []
joined (t ∷ ts) = t ++ joined ts

-- One text after the other is shown on the screen.
pub data Shows (font : ℕ → ℕ) (stack : ℕ) : Console → List (List ℕ) → Console → Type 0 where
  shows_none : {w : Console} → Shows font stack w [] w
  shows_text :
      {w v u : Console} {t : List ℕ} {ts : List (List ℕ)}
      → IsShown font stack w t v
      → Shows font stack v ts u
      → Shows font stack w (t ∷ ts) u

-- The string `t` stands at `a`.
unfoldable pub IsString : (ℕ → List ℕ) → ℕ → List ℕ → Type 0
IsString strings a t = (k : ℕ) → k ≤ length t → strings (a + k) ≡ drop k t

-- What strchr finds is a part of the string, and the bytes up to and with the first of it come before
-- the rest of it.
record IsSplit (s n : List ℕ) : Type 0 where
  less : length n ≤ length s
  some_byte : 0 < length n
  parts : take (length s - length n + 1) s ++ advance n ≡ s
  after : (k : ℕ) → drop (length s - length n + 1 + k) s ≡ drop k (advance n)

strchr-IsSplit : (s n : List ℕ) → strchr s b' ' ≡ some n → IsSplit s n
unfolding strchr
strchr-IsSplit [] n e = absurd (ground arith)
strchr-IsSplit (c ∷ s) n e = elim (Bool-cases (c == b' ')) [
  | inl space ↦ let same : (c ∷ s) ≡ n = ground arith in subst (IsSplit (c ∷ s)) same first
  | inr other ↦
      let f : IsSplit s n = strchr-IsSplit s n (ground arith) in
      let count : suc (length s) - length n + 1 ≡ suc (length s - length n + 1) =
        omega (arith, f.less) in
      record {
        less = omega (arith, f.less);
        some_byte = f.some_byte;
        parts = rw count (ap (λ (t : List ℕ). c ∷ t) f.parts);
        after = λ k.
            let more : suc (length s) - length n + 1 + k ≡ suc (length s - length n + 1 + k) =
              omega (arith, f.less) in
            rw more (f.after k);
      }
]
  where
    first : IsSplit (c ∷ s) (c ∷ s)
    first =
        let count : suc (length s) - suc (length s) + 1 ≡ 1 = omega arith in
        record {
          less = omega arith;
          some_byte = omega arith;
          parts = rw count refl;
          after = λ k.
              let more : suc (length s) - suc (length s) + 1 + k ≡ suc k = omega arith in
              rw more refl;
        }

length-advance : (n : List ℕ) → 0 < length n → length (advance n) + 1 ≡ length n
length-advance [] h = absurd (omega arith)
length-advance (c ∷ n) h = omega arith

IsString-at : (strings : ℕ → List ℕ) (a : ℕ) (t : List ℕ) → IsString strings a t → strings a ≡ t
unfolding IsString
IsString-at strings a t h =
    let e : a + 0 ≡ a = omega arith in subst (λ x. strings x ≡ t) e (h 0 (omega arith))

-- The string behind the first blank.
IsString-next :
    (strings : ℕ → List ℕ) (a : ℕ) (t n : List ℕ)
    → IsString strings a t
    → IsSplit t n
    → IsString strings (a + (length t - length n + 1)) (advance n)
unfolding IsString
IsString-next strings a t n h f k l =
    let len = length t - length n + 1 in
    let e : a + (len + k) ≡ a + len + k = omega arith in
    let inside : len + k ≤ length t = omega (arith, l, f.less, length-advance n f.some_byte) in
    subst (λ x. strings x ≡ drop (len + k) t) e (h (len + k) inside) ∙ f.after k

-- What the screen shows of a command line from the address `a` on.
abbrev IsDumped : (ℕ → ℕ) → (ℕ → List ℕ) → (ℕ → ℕ) → ℕ → ℕ → Console → ℕ → List ℕ → Type 0
IsDumped font strings bytes stack fuel w a t =
    (ts : List (List ℕ)) × (v : Console) × (dump_loop font strings bytes stack fuel w a ≡ some v)
    × Shows font stack w ts v
    × (joined ts ≡ t ++ b'\n' ∷ [])

append_assoc : (x y z : List ℕ) → (x ++ y) ++ z ≡ x ++ (y ++ z)
append_assoc [] y z = refl
append_assoc (c ∷ x) y z = ap (λ t. c ∷ t) (append_assoc x y z)

append_nil : (x : List ℕ) → x ++ [] ≡ x
append_nil [] = refl
append_nil (c ∷ x) = ap (λ t. c ∷ t) (append_nil x)

module _ (font : ℕ → ℕ) (strings : ℕ → List ℕ) (bytes : ℕ → ℕ) (stack : ℕ)
    (font_bytes : (i : ℕ) → font i < 256) (room : stack + 512 < 2 ^ 64) where
  last-IsDumped :
      (fuel a : ℕ) (t : List ℕ) (w : Console)
      → page_size ≤ a
      → strings a ≡ t
      → strchr t b' ' ≡ none
      → IsConsole w
      → IsDumped font strings bytes stack (suc fuel) w a t
  unfolding dump_loop joined
  last-IsDumped fuel a t w far same e h =
      let p = printk-echo font strings bytes stack w font_bytes room h a far in
      (
        (strings a ++ b'\n' ∷ []) ∷ [],
        p.0,
        rw (dump_loop, same, e) p.1,
        shows_text p.2 shows_none,
        append_nil _ ∙ ap (λ x. x ++ b'\n' ∷ []) same,
      )

  word-IsDumped :
      (fuel a : ℕ) (t n : List ℕ) (w : Console)
      → page_size ≤ a
      → length t < 2 ^ 15
      → strings a ≡ t
      → strchr t b' ' ≡ some n
      → IsConsole w
      → ((v : Console)
          → IsConsole v
          → IsDumped font strings bytes stack fuel v (a + (length t - length n + 1)) (advance n))
      → IsDumped font strings bytes stack (suc fuel) w a t
  unfolding dump_loop joined
  word-IsDumped fuel a t n w far short same e h rest =
      let f = strchr-IsSplit t n e in
      let len = length t - length n + 1 in
      let small : len < 2 ^ 15 = omega (arith, f.less, f.some_byte, short) in
      let p = printk-word font strings bytes stack w font_bytes room h len a small far in
      let r = rest p.0 p.2.console in
      (
        take len (strings a) ∷ r.0,
        r.1,
        rw (dump_loop, same, e, same, p.1) r.2,
        shows_text p.2 r.3,
        ap (λ x. take len x ++ joined r.0) same
            ∙ ap (λ x. take len t ++ x) r.4
            ∙ sym (append_assoc (take len t) (advance n) (b'\n' ∷ []))
            ∙ ap (λ x. x ++ b'\n' ∷ []) f.parts,
      )

  loop-IsDumped :
      (fuel a : ℕ) (t : List ℕ) (w : Console) (o : Option (List ℕ))
      → strchr t b' ' ≡ o
      → page_size ≤ a
      → length t < 2 ^ 15
      → length t < fuel
      → IsString strings a t
      → IsConsole w
      → IsDumped font strings bytes stack fuel w a t
  loop-IsDumped zero a t w o e far short enough s h = absurd (omega (arith, enough))
  loop-IsDumped (suc fuel) a t w none e far short enough s h =
      last-IsDumped fuel a t w far (IsString-at strings a t s) e h
  loop-IsDumped (suc fuel) a t w (some n) e far short enough s h =
      let f = strchr-IsSplit t n e in
      let one = length-advance n f.some_byte in
      word-IsDumped fuel a t n w far short (IsString-at strings a t s) e h (λ v k.
        loop-IsDumped fuel (a + (length t - length n + 1)) (advance n) v (strchr (advance n) b' ')
          refl (omega (arith, far)) (omega (arith, short, f.less, one))
          (omega (arith, enough, f.less, one)) (IsString-next strings a t n s f) k)

  -- For a font of bytes, a buffer on the stack that does not reach the end of the address space, a
  -- cursor on the console, and a command line of less than 2 ^ 15 bytes that stands behind the
  -- first page, dump_cmdline returns; it shows Cmdline: and then texts that, joined, are the
  -- command line and a line feed, each by a printk that cuts it to 511 bytes and at its first NUL.
  pub dump_cmdline-Shows :
      (s : ℕ) (line : List ℕ) (w : Console)
      → page_size ≤ s
      → length line < 2 ^ 15
      → IsString strings s line
      → IsConsole w
      → (ts : List (List ℕ)) × (v : Console) × (dump_cmdline font strings bytes stack w s ≡ some v)
        × Shows font stack w (cmdline_format ∷ ts) v
        × (joined ts ≡ line ++ b'\n' ∷ [])
  unfolding dump_cmdline text_loop format_step format_decode decode_after read_part until_percent
      convert
  dump_cmdline-Shows s line w far short whole h =
      let p =
        printk_text font strings bytes stack w font_bytes room h cmdline_format [] cmdline_format
          all_nil refl in
      let same = IsString-at strings s line whole in
      let r =
        loop-IsDumped (length line + 1) s line p.0 (strchr line b' ') refl far short (omega arith)
          whole p.2.console in
      let there : (s == 0) ≡ false = ground (arith, far) in
      (r.0, r.1, rw (there, p.1, same) r.2, shows_text p.2 r.3, r.4)

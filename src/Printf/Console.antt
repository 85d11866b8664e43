-- ===== src/Printf/Console.antt =====
-- printk() of lib.c: the text is made in a buffer of 512 bytes on the stack and printed.
use shield_tv_loader.Base.{
  ℕ, zero, suc, ◌+◌, ◌^◌, ◌≤◌, ◌<◌, ◌≡◌, refl, sym, ap, subst, ◌∙◌, ◌⊎◌, inl, inr, true, List, [],
  ◌∷◌, Option, some, ltb, ◌==◌, if◌then◌else◌, length, nth, take, arith, All, All,
}
use shield_tv_loader.Video.{Console, video_puts, video_size}
use shield_tv_loader.Video.Cursor.{IsConsole, video_puts-IsKept}
use shield_tv_loader.Printf.Buffer.{Printed, and_then, vsnprintf, formatted}
use shield_tv_loader.Printf.Bounds.{IsPrinted}
use shield_tv_loader.Printf.Later.{IsSimple}
use shield_tv_loader.Printf.Kept.{nth-take, length-take_min}
use shield_tv_loader.Printf.Rounds.{conversions, vsnprintf-IsPrinted_total}

-- The bytes before the NUL, of at most `n`.
unfoldable pub string_at : ℕ → (ℕ → ℕ) → ℕ → List ℕ
string_at zero mem a = []
string_at (suc n) mem a =
    let rest = string_at n mem (a + 1) in if mem a == 0 then [] else mem a ∷ rest

-- `stack` is the address of buf, which lies apart from the frame buffer.
unfoldable pub printk :
    (ℕ → ℕ) → (ℕ → List ℕ) → (ℕ → ℕ) → ℕ → Console → List ℕ → List ℕ → Option Console
unfolding vsnprintf video_puts
printk font strings bytes stack w fmt args =
    and_then (vsnprintf strings bytes w.mem stack 512 fmt args)
      (λ r. some (video_puts font (record w { mem = r.mem }) (string_at 512 r.mem stack)))

abbrev pub before_nul : List ℕ → List ℕ
before_nul [] = []
before_nul (c ∷ s) = if c == 0 then [] else c ∷ before_nul s

string_at-before_nul :
    (s : List ℕ) (n a : ℕ) (mem : ℕ → ℕ)
    → length s < n
    → ((i : ℕ) → i < length s → mem (a + i) ≡ nth s i)
    → mem (a + length s) ≡ 0
    → string_at n mem a ≡ before_nul s
unfolding string_at
string_at-before_nul s zero a mem h k z = absurd (omega (arith, h))
string_at-before_nul [] (suc n) a mem h k z =
    let e : a + 0 ≡ a = omega arith in
    let f : (mem a == 0) ≡ true = ground (arith, subst (λ x. mem x ≡ 0) e z) in rw f refl
string_at-before_nul (c ∷ s) (suc n) a mem h k z =
    let e : a + 0 ≡ a = omega arith in
    let first : mem a ≡ c = subst (λ x. mem x ≡ c) e (k 0 (omega arith)) in
    let rest =
      string_at-before_nul s n (a + 1) mem (omega (arith, h))
        (λ i l. let f : a + 1 + i ≡ a + suc i = omega arith in rw f (k (suc i) (omega (arith, l))))
        (let f : a + 1 + length s ≡ a + suc (length s) = omega arith in rw f z) in
    rw (first, rest) refl

kept_short : (k len : ℕ) → k ≡ (if ltb 511 len then 511 else len) → k < 512
kept_short k len e = ground (arith, e)

kept_inside : (k len i : ℕ) → k ≡ (if ltb 511 len then 511 else len) → i < k → (i < len) × (i < 511)
kept_inside k len i e h = (ground (arith, e, h), ground (arith, e, h))

kept_last :
    (k len : ℕ) → k ≡ (if ltb 511 len then 511 else len) → k ≡ (if ltb len 512 then len else 511)
kept_last k len e = ground (arith, e)

-- What the buffer holds, read back.
string_at-IsPrinted :
    (mem : ℕ → ℕ) (buf : ℕ) (text : List ℕ) (r : Printed)
    → IsPrinted mem buf 512 text r
    → string_at 512 r.mem buf ≡ before_nul (take 511 text)
string_at-IsPrinted mem buf text r h =
    let n = length-take_min 511 text in
    let k = length (take 511 text) in
    string_at-before_nul (take 511 text) 512 buf r.mem (kept_short k (length text) n)
      (λ i l.
        let b = kept_inside k (length text) i n l in
        h.inside i b.0 (omega (arith, b.1)) ∙ sym (nth-take 511 text i b.1))
      (subst (λ j. r.mem (buf + j) ≡ 0) (sym (kept_last k (length text) n)) (h.nul (omega arith)))

-- What printk does: it prints the text, cut to 511 bytes and at its first NUL. Nothing but the frame
-- buffer and the buffer on the stack changes, and the cursor stays on the console.
pub record IsShown (font : ℕ → ℕ) (stack : ℕ) (w : Console) (text : List ℕ) (v : Console)
    : Type 0 where
  pub prints :
      (m : ℕ → ℕ) × (v ≡ video_puts font (record w { mem = m }) (before_nul (take 511 text)))
      × ((a : ℕ) → (a < stack) ⊎ (stack + 512 ≤ a) → m a ≡ w.mem a)
  pub console : IsConsole v
  pub place : v.video_fb_address ≡ w.video_fb_address
  pub others :
      (a : ℕ)
      → (a < w.video_fb_address) ⊎ (w.video_fb_address + video_size ≤ a)
      → (a < stack) ⊎ (stack + 512 ≤ a)
      → v.mem a ≡ w.mem a

past_stack :
    (stack len a : ℕ)
    → (a < stack) ⊎ (stack + 512 ≤ a)
    → (a < stack) ⊎ ((stack + 512 ≤ a) ⊎ (stack + len < a))
past_stack stack len a (inl h) = inl h
past_stack stack len a (inr h) = inr (inl h)

shown :
    (font : ℕ → ℕ) (stack : ℕ) (w : Console) (text : List ℕ) (r : Printed)
    → ((i : ℕ) → font i < 256)
    → IsConsole w
    → IsPrinted w.mem stack 512 text r
    → IsShown font stack w text
        (video_puts font (record w { mem = r.mem }) (string_at 512 r.mem stack))
shown font stack w text r bytes h p =
    let w1 = record w { mem = r.mem } in
    let k =
      video_puts-IsKept font bytes w1 (string_at 512 r.mem stack)
        (record { at_start = h.at_start; col = h.col; row = h.row }) in
    let same = λ (a : ℕ) (o : (a < stack) ⊎ (stack + 512 ≤ a)).
      p.others a (past_stack stack (length text) a o) in
    record {
      prints = (r.mem, ap (video_puts font w1) (string_at-IsPrinted w.mem stack text r p), same);
      console = k.console;
      place = k.place;
      others = λ a o s. k.memory a o ∙ same a s;
    }

-- For a font of bytes, a format without the bytes n and V from its first % on, a buffer on the
-- stack that does not reach the end of the address space and a cursor on the console, printk
-- returns; it prints the text of the format, cut to 511 bytes and at its first NUL, leaves the
-- cursor on the console, and changes no memory but the frame buffer and its buffer.
pub printk-IsShown :
    (font : ℕ → ℕ) (strings : ℕ → List ℕ) (bytes : ℕ → ℕ) (stack : ℕ) (w : Console)
    (fmt args : List ℕ)
    → ((i : ℕ) → font i < 256)
    → All IsSimple (conversions fmt)
    → stack + 512 < 2 ^ 64
    → IsConsole w
    → (text : List ℕ) × (v : Console) × (formatted strings bytes fmt args ≡ some text)
      × (printk font strings bytes stack w fmt args ≡ some v)
      × IsShown font stack w text v
unfolding printk
printk-IsShown font strings bytes stack w fmt args font_bytes known room h =
    let p =
      vsnprintf-IsPrinted_total strings bytes w.mem stack 512 fmt args known (omega arith) room in
    let print = λ (r : Printed).
      some (video_puts font (record w { mem = r.mem }) (string_at 512 r.mem stack)) in
    (
      p.0,
      video_puts font (record w { mem = p.1.mem }) (string_at 512 p.1.mem stack),
      p.2,
      ap (λ o. and_then o print) p.3,
      shown font stack w p.0 p.1 font_bytes h p.4,
    )

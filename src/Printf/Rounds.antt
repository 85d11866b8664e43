-- ===== src/Printf/Rounds.antt =====
-- The loop of vsnprintf ends: each round reads a byte of the format or takes a width or a precision that
-- was an argument.
use shield_tv_loader.Base.{
  ℕ, zero, suc, ◌+◌, ◌*◌, ◌^◌, ◌≤◌, ◌<◌, ◌≡◌, refl, ap, subst, Bool, true, false, List, [], ◌∷◌,
  ◌++◌, Option, none, some, ◌==◌, if◌then◌else◌, length, arith, All, all_nil, all_cons,
}
use shield_tv_loader.Text.{peek, advance}
use shield_tv_loader.Printf.{
  FormatType, format_type_none, format_type_width, format_type_precision, format_type_char,
  format_type_str, format_type_percent_char, format_type_invalid, format_type_long_long,
  format_type_ulong, format_type_long, format_type_ubyte, format_type_byte, format_type_ushort,
  format_type_short, format_type_uint, format_type_int, format_type_nrchars, format_type_size_t,
  format_type_ptrdiff, format_type_ptr, FormatSpec, Decoded, until_percent, no_flags, read_flags,
  read_part, decode_after, format_decode,
}
use shield_tv_loader.Printf.Convert.{
  Step, puts, convert, pointer, after_pointer, null_pointer, plain_pointer, uuid_string,
}
use shield_tv_loader.Printf.Later.{
  IsSimple, counts, left_over, Later, Later-refl, Later-skip_alnum, Later-advance,
  Later-until_percent,
}
use shield_tv_loader.Printf.Reads.{format_decode-Reads}
use shield_tv_loader.Printf.Buffer.{
  Printed, zero_spec, text_of, text_loop-suc, rounds, format_step, vsnprintf, text_loop, formatted,
}
use shield_tv_loader.Printf.Bounds.{IsPrinted, vsnprintf-IsPrinted}

peek-IsSimple : (fmt : List ℕ) → All IsSimple fmt → (peek fmt == b'V') ≡ false
peek-IsSimple [] all_nil = refl
peek-IsSimple (c ∷ fmt) (all_cons h hs) = ground (arith, h)

two_cases :
    (t u v : Bool) (p q r : List ℕ)
    → v ≡ false
    → (text : List ℕ) × ((if t then some p else if u then some q else if v then none else some r)
        ≡ some text)
two_cases true u v p q r e = (p, refl)
two_cases false true v p q r e = (q, refl)
two_cases false false true p q r e = absurd (cc e)
two_cases false false false p q r e = (r, refl)

pointer_total :
    (bytes : ℕ → ℕ) (f : FormatSpec) (ptr : ℕ) (fmt : List ℕ)
    → All IsSimple fmt
    → (text : List ℕ) × (pointer bytes f ptr fmt ≡ some text)
unfolding pointer
pointer_total bytes f ptr fmt h =
    two_cases (ptr == 0) (peek fmt == b'U') (peek fmt == b'V') (null_pointer f)
      (uuid_string bytes f ptr (peek (advance fmt))) (plain_pointer f ptr) (peek-IsSimple fmt h)

-- A step of a call that read `d`.
record IsStep (d : Decoded) (o : Option Step) : Type 0 where
  pub step : Step
  pub is_some : o ≡ some step
  pub kind : step.format.kind ≡ d.format.kind
  rest : Later d.rest step.rest 0
  text : List ℕ
  has_text : text_of step.action ≡ some text

whole_step :
    (d : Decoded) (st : Step) (text : List ℕ)
    → st.format.kind ≡ d.format.kind
    → text_of st.action ≡ some text
    → Later d.rest st.rest 0
    → IsStep d (some st)
whole_step d st text k e h = record {
  step = st;
  is_some = refl;
  kind = k;
  rest = h;
  text = text;
  has_text = e;
}

convert-IsStep :
    (strings : ℕ → List ℕ) (bytes : ℕ → ℕ) (kind : FormatType) (d : Decoded) (args : List ℕ)
    → counts kind ≡ false
    → All IsSimple d.rest
    → IsStep d (convert strings bytes kind d args)
unfolding convert
convert-IsStep strings bytes format_type_ptr d args k h =
    let p =
      pointer_total bytes d.format (peek args) (advance d.rest) ((Later-advance d.rest).same h) in
    record {
      step = _;
      is_some = ap (after_pointer d (advance args)) p.1;
      kind = refl;
      rest = Later-skip_alnum d.rest;
      text = p.0;
      has_text = refl;
    }
convert-IsStep strings bytes format_type_none d args k h =
    whole_step d _ _ refl refl (Later-refl d.rest)
convert-IsStep strings bytes format_type_width d args k h =
    whole_step d _ _ refl refl (Later-refl d.rest)
convert-IsStep strings bytes format_type_precision d args k h =
    whole_step d _ _ refl refl (Later-refl d.rest)
convert-IsStep strings bytes format_type_char d args k h =
    whole_step d _ _ refl refl (Later-refl d.rest)
convert-IsStep strings bytes format_type_str d args k h =
    whole_step d _ _ refl refl (Later-refl d.rest)
convert-IsStep strings bytes format_type_percent_char d args k h =
    whole_step d _ _ refl refl (Later-refl d.rest)
convert-IsStep strings bytes format_type_invalid d args k h =
    whole_step d _ _ refl refl (Later-refl d.rest)
convert-IsStep strings bytes format_type_long_long d args k h =
    whole_step d _ _ refl refl (Later-refl d.rest)
convert-IsStep strings bytes format_type_ulong d args k h =
    whole_step d _ _ refl refl (Later-refl d.rest)
convert-IsStep strings bytes format_type_long d args k h =
    whole_step d _ _ refl refl (Later-refl d.rest)
convert-IsStep strings bytes format_type_ubyte d args k h =
    whole_step d _ _ refl refl (Later-refl d.rest)
convert-IsStep strings bytes format_type_byte d args k h =
    whole_step d _ _ refl refl (Later-refl d.rest)
convert-IsStep strings bytes format_type_ushort d args k h =
    whole_step d _ _ refl refl (Later-refl d.rest)
convert-IsStep strings bytes format_type_short d args k h =
    whole_step d _ _ refl refl (Later-refl d.rest)
convert-IsStep strings bytes format_type_uint d args k h =
    whole_step d _ _ refl refl (Later-refl d.rest)
convert-IsStep strings bytes format_type_int d args k h =
    whole_step d _ _ refl refl (Later-refl d.rest)
convert-IsStep strings bytes format_type_nrchars d args k h = absurd (cc k)
convert-IsStep strings bytes format_type_size_t d args k h =
    whole_step d _ _ refl refl (Later-refl d.rest)
convert-IsStep strings bytes format_type_ptrdiff d args k h =
    whole_step d _ _ refl refl (Later-refl d.rest)

text_loop_total :
    (strings : ℕ → List ℕ) (bytes : ℕ → ℕ) (fuel : ℕ) (args : List ℕ) (f : FormatSpec)
    (fmt : List ℕ)
    → All IsSimple fmt
    → 2 * length fmt + left_over f.kind ≤ fuel
    → (text : List ℕ) × (text_loop strings bytes fuel args f fmt ≡ some text)
unfolding text_loop format_step
text_loop_total strings bytes fuel args f [] h l = ([], refl)
text_loop_total strings bytes zero args f (c ∷ fmt) h l = absurd (omega (arith, l))
text_loop_total strings bytes (suc fuel) args f (c ∷ fmt) h l =
    let d = format_decode (c ∷ fmt) f in
    let reads = format_decode-Reads c fmt f in
    let all = reads.later.same h in
    let s = convert-IsStep strings bytes d.format.kind d args (reads.no_count h) all in
    let st = s.step in
    let left = ap left_over s.kind in
    let rest =
      text_loop_total strings bytes fuel st.args st.format st.rest (s.rest.same all)
        (omega (arith, l, left, reads.later.shorter, s.rest.shorter)) in
    (
      s.text ++ rest.0,
      text_loop-suc strings bytes fuel c args f fmt s.text rest.0 st s.is_some s.has_text rest.1,
    )

-- The rest of a format from its first % on.
abbrev pub conversions : List ℕ → List ℕ
conversions fmt = (until_percent fmt).1

conversions-percent : (c : ℕ) (fmt : List ℕ) → (c == b'%') ≡ true → conversions (c ∷ fmt) ≡ c ∷ fmt
unfolding until_percent
conversions-percent c fmt e =
    let more = until_percent fmt in
    ap (λ t. (if◌then◌else◌ {A = List ℕ × List ℕ} t ([], c ∷ fmt) (c ∷ more.0, more.1)).1) e

-- The round that puts out the text before the first %.
abbrev plain_step : List ℕ → List ℕ → Step
plain_step fmt args = record {
  action = puts (until_percent fmt).0;
  args = args;
  rest = conversions fmt;
  format = zero_spec;
}

format_step-plain :
    (strings : ℕ → List ℕ) (bytes : ℕ → ℕ) (c : ℕ) (fmt args : List ℕ)
    → (c == b'%') ≡ false
    → format_step strings bytes args zero_spec (c ∷ fmt) ≡ some (plain_step (c ∷ fmt) args)
unfolding format_step format_decode decode_after read_part convert
format_step-plain strings bytes c fmt args e =
    let flags = read_flags fmt (record zero_spec { kind = format_type_none; spec = no_flags }) in
    let text = until_percent (c ∷ fmt) in
    let plain : Decoded = record { plain = text.0; rest = text.1; format = zero_spec } in
    ap (λ t. let d = if t then flags else plain in convert strings bytes d.format.kind d args) e

formatted_if :
    (strings : ℕ → List ℕ) (bytes : ℕ → ℕ) (c : ℕ) (fmt args : List ℕ) (t : Bool)
    → (c == b'%') ≡ t
    → All IsSimple (conversions (c ∷ fmt))
    → (text : List ℕ) × (formatted strings bytes (c ∷ fmt) args ≡ some text)
formatted_if strings bytes c fmt args true e h =
    let all : All IsSimple (c ∷ fmt) = subst (All IsSimple) (conversions-percent c fmt e) h in
    text_loop_total strings bytes (rounds (c ∷ fmt)) args zero_spec (c ∷ fmt) all (omega arith)
formatted_if strings bytes c fmt args false e h =
    let st = plain_step (c ∷ fmt) args in
    let fuel = 2 * suc (length fmt) in
    let short = (Later-until_percent (c ∷ fmt)).shorter in
    let rest = text_loop_total strings bytes fuel args zero_spec st.rest h (omega (arith, short)) in
    let text = (until_percent (c ∷ fmt)).0 ++ rest.0 in
    let whole =
      text_loop-suc strings bytes fuel c args zero_spec fmt (until_percent (c ∷ fmt)).0 rest.0 st
        (format_step-plain strings bytes c fmt args e) refl rest.1 in
    let same : suc fuel ≡ rounds (c ∷ fmt) = omega arith in
    (text, subst (λ n. text_loop strings bytes n args zero_spec (c ∷ fmt) ≡ some text) same whole)

formatted_total :
    (strings : ℕ → List ℕ) (bytes : ℕ → ℕ) (fmt args : List ℕ)
    → All IsSimple (conversions fmt)
    → (text : List ℕ) × (formatted strings bytes fmt args ≡ some text)
unfolding text_loop
formatted_total strings bytes [] args h = ([], refl)
formatted_total strings bytes (c ∷ fmt) args h =
    formatted_if strings bytes c fmt args (c == b'%') refl h

-- For a format without the bytes n and V from its first % on, a size below 2 ^ 31 and a buffer that
-- does not reach the end of the address space, vsnprintf returns, within two rounds for each byte
-- of the format and one more; the buffer holds the text as far as it fits before a NUL, memory
-- behind the NUL and outside the buffer is as it was, and the result is the length of the whole
-- text modulo 2 ^ 32.
pub vsnprintf-IsPrinted_total :
    (strings : ℕ → List ℕ) (bytes mem : ℕ → ℕ) (buf size : ℕ) (fmt args : List ℕ)
    → All IsSimple (conversions fmt)
    → size < 2 ^ 31
    → buf + size < 2 ^ 64
    → (text : List ℕ) × (r : Printed) × (formatted strings bytes fmt args ≡ some text)
      × (vsnprintf strings bytes mem buf size fmt args ≡ some r)
      × IsPrinted mem buf size text r
vsnprintf-IsPrinted_total strings bytes mem buf size fmt args h small room =
    let t = formatted_total strings bytes fmt args h in
    let p = vsnprintf-IsPrinted strings bytes mem buf size fmt args t.0 small room t.1 in
    (t.0, p.0, t.1, p.1, p.2)

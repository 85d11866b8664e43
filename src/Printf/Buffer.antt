-- ===== src/Printf/Buffer.antt =====
-- vsnprintf() of vsprintf.c and the functions that call it. Memory is a function from the address to the
-- byte; the text does not reach the end of the address space.
use shield_tv_loader.Base.{
  ℕ, zero, suc, ◌+◌, ◌-◌, ◌*◌, ◌/◌, ◌%◌, ◌^◌, ◌≡◌, ap, ◌∙◌, List, [], ◌∷◌, ◌++◌, Option, none, some,
  pos, ltb, leb, ◌==◌, not, if◌then◌else◌, update, length, add64, u64_mod,
}
use shield_tv_loader.Printf.{FormatSpec, no_flags, format_type_none, format_decode}
use shield_tv_loader.Printf.Convert.{Action, puts, stores, Step, convert}

-- Memory, and where the next byte goes.
pub record Buffer : Type 0 where
  pub mem : ℕ → ℕ
  pub str : ℕ

-- if (str < end) *str = c; ++str, for each byte; memcpy of what fits does the same.
unfoldable pub put_bytes : ℕ → Buffer → List ℕ → Buffer
put_bytes end b [] = b
put_bytes end b (c ∷ s) =
    put_bytes end
      (record b { mem = if ltb b.str end then update b.mem b.str c else b.mem; str = b.str + 1 }) s

-- *ip = str - buf, the low byte first.
abbrev store_le : ℕ → (ℕ → ℕ) → ℕ → ℕ → ℕ → ℕ
store_le zero m a v = m
store_le (suc size) m a v = store_le size (update m a (v % 256)) (a + 1) (v / 256)

unfoldable pub act : ℕ → ℕ → Buffer → Action → Buffer
unfolding put_bytes
act start end b (puts s) = put_bytes end b s
act start end b (stores size addr) = record b {
  mem = store_le size b.mem addr ((b.str - start) % 2 ^ (8 * size));
}

-- struct printf_spec spec = {0}
abbrev pub zero_spec : FormatSpec
zero_spec = record {
  kind = format_type_none;
  spec = no_flags;
  qualifier = 0;
  field_width = pos 0;
  precision = pos 0;
}

-- The result of vsnprintf, an int as 32 bits.
pub record Printed : Type 0 where
  pub count : ℕ
  pub mem : ℕ → ℕ

-- The NUL at the end.
unfoldable pub ended : ℕ → ℕ → Buffer → Printed
ended start end b = record {
  count = (b.str - start) % 2 ^ 32;
  mem =
      if ltb 0 (end - start)
      then if ltb b.str end then update b.mem b.str 0 else update b.mem (end - 1) 0
      else b.mem;
}

-- `end`, which is not below `buf`.
abbrev pub end_of : ℕ → ℕ → ℕ
end_of buf size = if ltb (add64 buf size) buf then u64_mod - 1 else add64 buf size

-- Each round reads a byte or ends a width or a precision that was an argument.
abbrev pub rounds : List ℕ → ℕ
rounds fmt = 2 * length fmt + 1

-- The text of an action, none for a store.
abbrev pub text_of : Action → Option (List ℕ)
text_of (puts s) = some s
text_of (stores size addr) = none

abbrev pub and_then {ℓ κ} : {A : Type ℓ} {B : Type κ} → Option A → (A → Option B) → Option B
and_then none k = none
and_then (some a) k = k a

abbrev pub kept_count : ℕ → ℕ → ℕ
kept_count i size = if ltb i size then i else if not (size == 0) then size - 1 else 0

abbrev int_max : ℕ
int_max = 0x7fff_ffff

module _ (strings : ℕ → List ℕ) (bytes : ℕ → ℕ) where
  -- One round of the loop.
  unfoldable pub format_step : List ℕ → FormatSpec → List ℕ → Option Step
  unfolding convert format_decode
  format_step args f fmt = let d = format_decode fmt f in convert strings bytes d.format.kind d args

  -- The loop of vsnprintf, on fuel.
  unfoldable pub format_loop : ℕ → ℕ → ℕ → Buffer → List ℕ → FormatSpec → List ℕ → Option Buffer
  unfolding format_step act
  format_loop start end fuel b args f [] = some b
  format_loop start end zero b args f (c ∷ fmt) = none
  format_loop start end (suc fuel) b args f (c ∷ fmt) =
      and_then (format_step args f (c ∷ fmt))
        (λ st. format_loop start end fuel (act start end b st.action) st.args st.format st.rest)

  -- None stands for the BUG_ON and for a format with %pV.
  unfoldable pub vsnprintf : (ℕ → ℕ) → ℕ → ℕ → List ℕ → List ℕ → Option Printed
  unfolding ended
  vsnprintf mem buf size fmt args =
      let end = end_of buf size in
      let b : Buffer = record { mem = mem; str = buf } in
      let loop = format_loop buf end (rounds fmt) b args zero_spec fmt in
      let done = and_then loop (λ b1. some (ended buf end b1)) in
      if leb (2 ^ 31) (size % 2 ^ 32) then none else done

  unfoldable pub vscnprintf : (ℕ → ℕ) → ℕ → ℕ → List ℕ → List ℕ → Option Printed
  unfolding vsnprintf
  vscnprintf mem buf size fmt args =
      and_then (vsnprintf mem buf size fmt args)
        (λ r. some (record r { count = kept_count r.count size }))

  unfoldable pub snprintf : (ℕ → ℕ) → ℕ → ℕ → List ℕ → List ℕ → Option Printed
  unfolding vsnprintf
  snprintf mem buf size fmt args = vsnprintf mem buf size fmt args

  unfoldable pub scnprintf : (ℕ → ℕ) → ℕ → ℕ → List ℕ → List ℕ → Option Printed
  unfolding vscnprintf
  scnprintf mem buf size fmt args = vscnprintf mem buf size fmt args

  unfoldable pub vsprintf : (ℕ → ℕ) → ℕ → List ℕ → List ℕ → Option Printed
  unfolding vsnprintf
  vsprintf mem buf fmt args = vsnprintf mem buf int_max fmt args

  unfoldable pub sprintf : (ℕ → ℕ) → ℕ → List ℕ → List ℕ → Option Printed
  unfolding vsnprintf
  sprintf mem buf fmt args = vsnprintf mem buf int_max fmt args

  -- The text of a format, without a buffer; none for a format with %n or %pV.
  unfoldable pub text_loop : ℕ → List ℕ → FormatSpec → List ℕ → Option (List ℕ)
  unfolding format_step
  text_loop fuel args f [] = some []
  text_loop zero args f (c ∷ fmt) = none
  text_loop (suc fuel) args f (c ∷ fmt) = and_then (format_step args f (c ∷ fmt)) (λ st.
      and_then (text_of st.action)
        (λ s. and_then (text_loop fuel st.args st.format st.rest) (λ more. some (s ++ more))))

  abbrev pub formatted : List ℕ → List ℕ → Option (List ℕ)
  formatted fmt args = text_loop (rounds fmt) args zero_spec fmt

  -- A round of the loop, and the others.
  pub text_loop-suc :
      (n c : ℕ) (args : List ℕ) (f : FormatSpec) (fmt s more : List ℕ) (st : Step)
      → format_step args f (c ∷ fmt) ≡ some st
      → text_of st.action ≡ some s
      → text_loop n st.args st.format st.rest ≡ some more
      → text_loop (suc n) args f (c ∷ fmt) ≡ some (s ++ more)
  unfolding text_loop
  text_loop-suc n c args f fmt s more st e h g =
      ap
        (λ o. and_then o (λ x.
          and_then (text_of x.action)
            (λ u. and_then (text_loop n x.args x.format x.rest) (λ t. some (u ++ t)))))
        e
      ∙ ap
          (λ o.
            and_then o (λ u. and_then (text_loop n st.args st.format st.rest) (λ t. some (u ++ t))))
          h
      ∙ ap (λ o. and_then o (λ t. some (s ++ t))) g

-- ===== src/Printf/Reads.antt =====
-- format_decode: how much of the format a call reads.
use shield_tv_loader.Base.{
  ℕ, suc, ◌+◌, ◌-◌, ◌≤◌, ◌≡◌, refl, Bool, true, false, ◌||◌, ◌&&◌, List, [], ◌∷◌, negsuc, ◌==◌,
  if◌then◌else◌, arith, All, all_cons,
}
use shield_tv_loader.Text.{peek, advance}
use shield_tv_loader.Ctype.{is_digit}
use shield_tv_loader.Printf.{
  FormatType, format_type_none, format_type_width, format_type_precision, format_type_char,
  format_type_str, format_type_ptr, format_type_percent_char, format_type_invalid,
  format_type_long_long, format_type_ulong, format_type_long, format_type_ubyte, format_type_byte,
  format_type_ushort, format_type_short, format_type_uint, format_type_int, format_type_nrchars,
  format_type_size_t, format_type_ptrdiff, FormatSpec, Decoded, at_least_zero, as_i16, no_flags,
  is_flag, set_flag, of_int, of_type, skip_atoi, int_type, read_conversion, read_qualifier,
  read_precision, read_width, read_flags, read_part, decode_after, turned_left, format_decode,
}
use shield_tv_loader.Number.{lower_bit}
use shield_tv_loader.Number.Format.{PrintfSpec}
use shield_tv_loader.Printf.Later.{
  IsSimple, counts, left_over, Later, Later-refl, Later-then, Later-less, Later-tail, Later-advance,
  Later-read, Later-skip_atoi, until_percent-reads,
}

-- A call of format_decode reads `n` bytes at least, and one more where it stops in the middle.
pub record Reads (fmt : List ℕ) (d : Decoded) (n : ℕ) : Type 0 where
  pub later : Later fmt d.rest (n + left_over d.format.kind)
  pub no_count : All IsSimple fmt → counts d.format.kind ≡ false

Reads-if :
    (fmt : List ℕ) (n : ℕ) (t : Bool) (d e : Decoded)
    → (t ≡ true → Reads fmt d n)
    → (t ≡ false → Reads fmt e n)
    → Reads fmt (if t then d else e) n
Reads-if fmt n true d e h k = h refl
Reads-if fmt n false d e h k = k refl

Reads-then : (a b : List ℕ) (d : Decoded) (n m : ℕ) → Later a b n → Reads b d m → Reads a d (n + m)
Reads-then a b d n m h k = record {
  later =
      Later-less a d.rest (n + (m + left_over d.format.kind)) _ (omega arith)
        (Later-then a b d.rest n _ h k.later);
  no_count = λ v. k.no_count (h.same v);
}

-- The next call begins with a new part.
record IsWhole (kind : FormatType) : Type 0 where
  pub none_left : left_over kind ≡ 0
  pub no_count : counts kind ≡ false

IsWhole-if : (t : Bool) (k l : FormatType) → IsWhole k → IsWhole l → IsWhole (if t then k else l)
IsWhole-if true k l h i = h
IsWhole-if false k l h i = i

int_type-IsWhole : (qualifier : ℕ) (sign : Bool) → IsWhole (int_type qualifier sign)
unfolding int_type
int_type-IsWhole qualifier sign =
    let long =
      IsWhole-if sign format_type_long format_type_ulong
        (record { none_left = refl; no_count = refl })
        (record { none_left = refl; no_count = refl }) in
    let byte =
      IsWhole-if sign format_type_byte format_type_ubyte
        (record { none_left = refl; no_count = refl })
        (record { none_left = refl; no_count = refl }) in
    let short =
      IsWhole-if sign format_type_short format_type_ushort
        (record { none_left = refl; no_count = refl })
        (record { none_left = refl; no_count = refl }) in
    let int =
      IsWhole-if sign format_type_int format_type_uint
        (record { none_left = refl; no_count = refl })
        (record { none_left = refl; no_count = refl }) in
    IsWhole-if (qualifier == b'L') format_type_long_long _
      (record { none_left = refl; no_count = refl })
      (IsWhole-if (qualifier == b'l') _ _ long (
        IsWhole-if (lower_bit qualifier == b'z') format_type_size_t _
          (record { none_left = refl; no_count = refl })
          (IsWhole-if (qualifier == b't') format_type_ptrdiff _
            (record { none_left = refl; no_count = refl })
            (IsWhole-if (qualifier == b'H') _ _ byte
              (IsWhole-if (qualifier == b'h') _ _ short int)))))

-- A conversion whose byte is read, and one whose byte is left.
whole_next :
    (fmt : List ℕ) (f : FormatSpec)
    → IsWhole f.kind
    → Reads fmt (record { plain = []; rest = advance fmt; format = f }) 0
whole_next fmt f e = record {
  later = rw e.none_left (Later-advance fmt);
  no_count = λ v. e.no_count;
}

whole_here :
    (fmt : List ℕ) (f : FormatSpec)
    → IsWhole f.kind
    → Reads fmt (record { plain = []; rest = fmt; format = f }) 0
whole_here fmt f e = record { later = rw e.none_left (Later-refl fmt); no_count = λ v. e.no_count }

-- %n
peek-IsSimple : (s : List ℕ) → All IsSimple s → (peek s == b'n') ≡ false
peek-IsSimple [] h = refl
peek-IsSimple (c ∷ s) (all_cons h hs) = ground (arith, h)

count_next :
    (fmt : List ℕ) (f : FormatSpec)
    → left_over f.kind ≡ 0
    → (peek fmt == b'n') ≡ true
    → Reads fmt (record { plain = []; rest = advance fmt; format = f }) 0
count_next fmt f k e = record {
  later = rw k (Later-advance fmt);
  no_count = λ v. absurd (cc (e, peek-IsSimple fmt v));
}

read_conversion-Reads : (fmt : List ℕ) (f : FormatSpec) → Reads fmt (read_conversion fmt f) 0
unfolding read_conversion
read_conversion-Reads fmt f =
    let c = peek fmt in
    let int = λ (spec : PrintfSpec).
      whole_next fmt (of_int f spec) (int_type-IsWhole f.qualifier spec.sign) in
    let next = λ (kind : FormatType) (h : IsWhole kind). whole_next fmt (of_type f kind) h in
    let here = λ (kind : FormatType) (h : IsWhole kind). whole_here fmt (of_type f kind) h in
    Reads-if fmt 0 (c == b'c') _ _
      (λ e. next format_type_char (record { none_left = refl; no_count = refl }))
      (λ e.
        Reads-if fmt 0 (c == b's') _ _
          (λ e. next format_type_str (record { none_left = refl; no_count = refl }))
          (λ e.
            Reads-if fmt 0 (c == b'p') _ _
              (λ e. here format_type_ptr (record { none_left = refl; no_count = refl }))
              (λ e.
                Reads-if fmt 0 (c == b'n') _ _
                  (λ e. count_next fmt (of_type f format_type_nrchars) refl e)
                  (λ e.
                    Reads-if fmt 0 (c == b'%') _ _
                      (λ e.
                        next format_type_percent_char
                          (record { none_left = refl; no_count = refl }))
                      (λ e.
                        Reads-if fmt 0 (c == b'o') _ _ (λ e. int (record f.spec { base = 8 }))
                          (λ e.
                            Reads-if fmt 0 (c == b'x') _ _
                              (λ e. int (record f.spec { base = 16; small = true }))
                              (λ e.
                                Reads-if fmt 0 (c == b'X') _ _
                                  (λ e. int (record f.spec { base = 16 }))
                                  (λ e.
                                    Reads-if fmt 0 (c == b'd' || c == b'i') _ _
                                      (λ e. int (record f.spec { base = 10; sign = true }))
                                      (λ e.
                                        Reads-if fmt 0 (c == b'u') _ _
                                          (λ e. int (record f.spec { base = 10 }))
                                          (λ e.
                                            here format_type_invalid (record {
                                              none_left = refl;
                                              no_count = refl;
                                            })))))))))))

-- A test of the first byte that it passes, before a byte is read.
Reads-passed :
    (fmt : List ℕ) (c : ℕ) (d : Decoded)
    → (peek fmt == suc c) ≡ true
    → Reads (advance fmt) d 0
    → Reads fmt d 1
Reads-passed fmt c d e h = Reads-then fmt (advance fmt) d 1 0 (Later-read fmt c e) h

Reads-less : (fmt : List ℕ) (d : Decoded) (n m : ℕ) → m ≤ n → Reads fmt d n → Reads fmt d m
Reads-less fmt d n m l h = record {
  later = Later-less fmt d.rest _ _ (omega (arith, l)) h.later;
  no_count = h.no_count;
}

-- What is read after a byte that may be there.
Reads-advance : (fmt : List ℕ) (d : Decoded) → Reads (advance fmt) d 0 → Reads fmt d 0
Reads-advance fmt d h = Reads-then fmt (advance fmt) d 0 0 (Later-advance fmt) h

read_qualifier-Reads : (fmt : List ℕ) (f : FormatSpec) → Reads fmt (read_qualifier fmt f) 0
unfolding read_qualifier
read_qualifier-Reads fmt f =
    let c = peek fmt in
    let next = advance fmt in
    let twice = λ (q : ℕ).
      Reads-advance fmt _ (
        Reads-advance next _ (read_conversion-Reads (advance next) (record f { qualifier = q }))) in
    Reads-if fmt 0 (c == b'h' || (lower_bit c == b'l' || (lower_bit c == b'z' || c == b't'))) _ _
      (λ e.
        Reads-if fmt 0 (c == peek next && c == b'l') _ _ (λ g. twice b'L')
          (λ g.
            Reads-if fmt 0 (c == peek next && c == b'h') _ _ (λ k. twice b'H')
              (λ k. Reads-advance fmt _ (read_conversion-Reads next (record f { qualifier = c })))))
      (λ e. read_conversion-Reads fmt (record f { qualifier = 255 }))

-- A * is read, and the next call goes on behind it.
star-Reads :
    (fmt : List ℕ) (f : FormatSpec)
    → (peek fmt == b'*') ≡ true
    → left_over f.kind ≡ 1
    → counts f.kind ≡ false
    → Reads fmt (record { plain = []; rest = advance fmt; format = f }) 0
star-Reads fmt f e k l = record { later = rw k (Later-read fmt 41 e); no_count = λ v. l }

read_precision-Reads : (fmt : List ℕ) (f : FormatSpec) → Reads fmt (read_precision fmt f) 0
unfolding read_precision
read_precision-Reads fmt f0 =
    let f = record f0 { precision = negsuc 0 } in
    let next = advance fmt in
    let number = skip_atoi next 0 in
    Reads-if fmt 0 (peek fmt == b'.') _ _
      (λ e. Reads-advance fmt _ (
        Reads-if next 0 (is_digit (peek next)) _ _
          (λ g. Reads-then next number.1 _ 0 0 (Later-skip_atoi next 0) (
            read_qualifier-Reads number.1
              (record f { precision = at_least_zero (as_i16 number.0) })))
          (λ g.
            Reads-if next 0 (peek next == b'*') _ _
              (λ k. star-Reads next (record f { kind = format_type_precision }) k refl refl)
              (λ k. read_qualifier-Reads next f))))
      (λ e. read_qualifier-Reads fmt f)

read_width-Reads : (fmt : List ℕ) (f : FormatSpec) → Reads fmt (read_width fmt f) 0
unfolding read_width
read_width-Reads fmt f0 =
    let f = record f0 { field_width = negsuc 0 } in
    let number = skip_atoi fmt 0 in
    Reads-if fmt 0 (is_digit (peek fmt)) _ _
      (λ e.
        Reads-then fmt number.1 _ 0 0 (Later-skip_atoi fmt 0)
          (read_precision-Reads number.1 (record f { field_width = as_i16 number.0 })))
      (λ e.
        Reads-if fmt 0 (peek fmt == b'*') _ _
          (λ g. star-Reads fmt (record f { kind = format_type_width }) g refl refl)
          (λ g. read_precision-Reads fmt f))

read_flags-Reads : (fmt : List ℕ) (f : FormatSpec) → Reads fmt (read_flags fmt f) 0
unfolding read_flags
read_flags-Reads [] f = read_width-Reads [] f
read_flags-Reads (c ∷ s) f =
    Reads-if (c ∷ s) 0 (is_flag c) _ _
      (λ e. Reads-advance (c ∷ s) _ (read_flags-Reads s (record f { spec = set_flag c f.spec })))
      (λ e. read_width-Reads (c ∷ s) f)

-- A call that begins with a new part reads at least a byte.
read_part-Reads : (c : ℕ) (s : List ℕ) (f : FormatSpec) → Reads (c ∷ s) (read_part (c ∷ s) f) 1
unfolding read_part
read_part-Reads c s f =
    Reads-if (c ∷ s) 1 (c == b'%') _ _
      (λ e.
        Reads-then (c ∷ s) s _ 1 0 (Later-tail c s)
          (read_flags-Reads s (record f { kind = format_type_none; spec = no_flags })))
      (λ e. record { later = until_percent-reads c s e; no_count = λ v. refl })

decode_after-Reads :
    (kind : FormatType) (c : ℕ) (s : List ℕ) (f : FormatSpec)
    → Reads (c ∷ s) (decode_after kind (c ∷ s) f) (1 - left_over kind)
unfolding decode_after
decode_after-Reads format_type_width c s f =
    read_precision-Reads (c ∷ s) (record (turned_left f f.field_width) { kind = format_type_none })
decode_after-Reads format_type_precision c s f =
    read_qualifier-Reads (c ∷ s)
      (record f { precision = at_least_zero f.precision; kind = format_type_none })
decode_after-Reads format_type_none c s f = read_part-Reads c s f
decode_after-Reads format_type_char c s f = read_part-Reads c s f
decode_after-Reads format_type_str c s f = read_part-Reads c s f
decode_after-Reads format_type_ptr c s f = read_part-Reads c s f
decode_after-Reads format_type_percent_char c s f = read_part-Reads c s f
decode_after-Reads format_type_invalid c s f = read_part-Reads c s f
decode_after-Reads format_type_long_long c s f = read_part-Reads c s f
decode_after-Reads format_type_ulong c s f = read_part-Reads c s f
decode_after-Reads format_type_long c s f = read_part-Reads c s f
decode_after-Reads format_type_ubyte c s f = read_part-Reads c s f
decode_after-Reads format_type_byte c s f = read_part-Reads c s f
decode_after-Reads format_type_ushort c s f = read_part-Reads c s f
decode_after-Reads format_type_short c s f = read_part-Reads c s f
decode_after-Reads format_type_uint c s f = read_part-Reads c s f
decode_after-Reads format_type_int c s f = read_part-Reads c s f
decode_after-Reads format_type_nrchars c s f = read_part-Reads c s f
decode_after-Reads format_type_size_t c s f = read_part-Reads c s f
decode_after-Reads format_type_ptrdiff c s f = read_part-Reads c s f

pub format_decode-Reads :
    (c : ℕ) (s : List ℕ) (f : FormatSpec)
    → Reads (c ∷ s) (format_decode (c ∷ s) f) (1 - left_over f.kind)
unfolding format_decode
format_decode-Reads c s f = decode_after-Reads f.kind c s f

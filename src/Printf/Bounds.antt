-- ===== src/Printf/Bounds.antt =====
-- What vsnprintf leaves in memory.
use shield_tv_loader.Base.{
  ℕ, zero, suc, ◌+◌, ◌-◌, ◌%◌, ◌^◌, ◌≤◌, ◌<◌, ◌≡◌, refl, ap, subst, ◌∙◌, Bool, true, false, ◌&&◌,
  List, [], ◌∷◌, ◌++◌, Option, none, some, ltb, leb, ◌==◌, ◌⊎◌, if◌then◌else◌, update, length, nth,
  arith, ℕ_discrete,
}
use mathlib.Core.Option.{some-injective}
use shield_tv_loader.Printf.{FormatSpec}
use shield_tv_loader.Printf.Convert.{Action, puts, stores}
use shield_tv_loader.Printf.Buffer.{
  Buffer, put_bytes, act, zero_spec, Printed, ended, end_of, rounds, text_of, and_then, format_step,
  format_loop, vsnprintf, text_loop, formatted,
}

-- `l` in memory from `p` on, as far as it fits before `end`.
pub laid : ℕ → (ℕ → ℕ) → ℕ → List ℕ → ℕ → ℕ
laid end m p l a = if leb p a && (ltb a (p + length l) && ltb a end) then nth l (a - p) else m a

laid-nil : (end : ℕ) (m : ℕ → ℕ) (p a : ℕ) → m a ≡ laid end m p [] a
unfolding laid
laid-nil end m p a = ground arith

length-append : (l t : List ℕ) → length (l ++ t) ≡ length l + length t
length-append [] t = omega arith
length-append (c ∷ l) t = omega (arith, length-append l t)

nth-append :
    (l t : List ℕ) (k : ℕ)
    → nth (l ++ t) k ≡ (if ltb k (length l) then nth l k else nth t (k - length l))
nth-append [] t k = let e : k - 0 ≡ k = omega arith in rw e (ground arith)
nth-append (c ∷ l) t zero = ground arith
nth-append (c ∷ l) t (suc k) = nth-append l t k ∙ ground arith

laid-append :
    (end : ℕ) (m : ℕ → ℕ) (p : ℕ) (l t : List ℕ) (a : ℕ)
    → laid end (laid end m p l) (p + length l) t a ≡ laid end m p (l ++ t) a
unfolding laid
laid-append end m p l t a =
    let shift : a - (p + length l) ≡ a - p - length l = omega arith in
    rw (shift) (ground (arith, length-append l t, nth-append l t (a - p)))

-- `c` has put `l` out from `b` on.
pub record IsLaid (end : ℕ) (b : Buffer) (l : List ℕ) (c : Buffer) : Type 0 where
  pub at : c.str ≡ b.str + length l
  pub bytes : (a : ℕ) → c.mem a ≡ laid end b.mem b.str l a

IsLaid-nil : (end : ℕ) (b c : Buffer) → c.str ≡ b.str → c.mem ≡ b.mem → IsLaid end b [] c
IsLaid-nil end b c e m = record {
  at = omega (arith, e);
  bytes = λ a. ap (λ g. g a) m ∙ laid-nil end b.mem b.str a;
}

laid-under :
    (end : ℕ) (m n : ℕ → ℕ) (p : ℕ) (t : List ℕ) (a : ℕ)
    → m a ≡ n a
    → laid end m p t a ≡ laid end n p t a
unfolding laid
laid-under end m n p t a e = ground (arith, e)

IsLaid-append :
    (end : ℕ) (b c d : Buffer) (l t : List ℕ)
    → IsLaid end b l c
    → IsLaid end c t d
    → IsLaid end b (l ++ t) d
IsLaid-append end b c d l t h k = record {
  at = omega (arith, k.at, h.at, length-append l t);
  bytes = λ a.
      k.bytes a
      ∙ laid-under end c.mem (laid end b.mem b.str l) c.str t a (h.bytes a)
      ∙ ap (λ p. laid end (laid end b.mem b.str l) p t a) h.at
      ∙ laid-append end b.mem b.str l t a;
}

if_at : (t : Bool) (m n : ℕ → ℕ) (a : ℕ) → (if t then m else n) a ≡ (if t then m a else n a)
if_at true m n a = refl
if_at false m n a = refl

byte-laid :
    (end : ℕ) (m : ℕ → ℕ) (p c a : ℕ)
    → (if ltb p end then update m p c a else m a) ≡ laid end m p (c ∷ []) a
unfolding laid
byte-laid end m p c a = elim (ℕ_discrete a p) [
  | yes e ↦ let z : a - p ≡ 0 = omega (arith, e) in rw z (ground (arith, e))
  | no n ↦ ground (arith, n)
]

one-IsLaid :
    (end : ℕ) (b : Buffer) (c : ℕ)
    → IsLaid end b
        (c ∷ [])
        (record b { mem = if ltb b.str end then update b.mem b.str c else b.mem; str = b.str + 1 })
unfolding laid
one-IsLaid end b c = record {
  at = refl;
  bytes = λ a. if_at (ltb b.str end) _ b.mem a ∙ byte-laid end b.mem b.str c a;
}

put_bytes-IsLaid : (end : ℕ) (l : List ℕ) (b : Buffer) → IsLaid end b l (put_bytes end b l)
unfolding put_bytes
put_bytes-IsLaid end [] b = IsLaid-nil end b b refl refl
put_bytes-IsLaid end (c ∷ l) b =
    let next = record b {
      mem = if ltb b.str end then update b.mem b.str c else b.mem;
      str = b.str + 1;
    } in
    IsLaid-append end b next (put_bytes end next l) (c ∷ []) l (one-IsLaid end b c)
      (put_bytes-IsLaid end l next)

act-IsLaid :
    (start end : ℕ) (b : Buffer) (x : Action) (s : List ℕ)
    → text_of x ≡ some s
    → IsLaid end b s (act start end b x)
unfolding act
act-IsLaid start end b (puts t) s e =
    subst (λ u. IsLaid end b u (put_bytes end b t)) (some-injective t s e)
      (put_bytes-IsLaid end t b)
act-IsLaid start end b (stores size addr) s e = absurd (cc e)

after_step :
    {A B : Type 0} (o : Option A) (k : A → Option B) (x : B)
    → and_then o k ≡ some x
    → (a : A) × (o ≡ some a) × (k a ≡ some x)
after_step none k x e = absurd (cc e)
after_step (some a) k x e = (a, refl, e)

-- What a round of the loop puts out comes before what the others do.
loop-IsLaid :
    (strings : ℕ → List ℕ) (bytes : ℕ → ℕ) (start end fuel : ℕ) (b : Buffer) (args : List ℕ)
    (f : FormatSpec) (fmt text : List ℕ)
    → text_loop strings bytes fuel args f fmt ≡ some text
    → (c : Buffer) × (format_loop strings bytes start end fuel b args f fmt ≡ some c)
      × IsLaid end b text c
unfolding text_loop format_loop
loop-IsLaid strings bytes start end fuel b args f [] text e = (
  b,
  refl,
  subst (λ t. IsLaid end b t b) (some-injective [] text e) (IsLaid-nil end b b refl refl),
)
loop-IsLaid strings bytes start end zero b args f (c ∷ fmt) text e = absurd (cc e)
loop-IsLaid strings bytes start end (suc fuel) b args f (c ∷ fmt) text e =
    let round = after_step (format_step strings bytes args f (c ∷ fmt)) _ text e in
    let st = round.0 in
    let out = after_step (text_of st.action) _ text round.2 in
    let more = after_step (text_loop strings bytes fuel st.args st.format st.rest) _ text out.2 in
    let b1 = act start end b st.action in
    let rest =
      loop-IsLaid strings bytes start end fuel b1 st.args st.format st.rest more.0 more.1 in
    let first = act-IsLaid start end b st.action out.0 out.1 in
    let whole = IsLaid-append end b b1 rest.0 out.0 more.0 first rest.2 in
    (
      rest.0,
      ap
            (λ o. and_then o (λ x.
              format_loop strings bytes start end fuel (act start end b x.action) x.args x.format
                x.rest))
            round.1
          ∙ rest.1,
      subst (λ t. IsLaid end b t rest.0) (some-injective _ text more.2) whole,
    )

-- What vsnprintf leaves: the text as far as it fits with a NUL behind it, and its whole length.
pub record IsPrinted (mem : ℕ → ℕ) (buf size : ℕ) (text : List ℕ) (r : Printed) : Type 0 where
  pub count : r.count ≡ length text % 2 ^ 32
  pub inside : (i : ℕ) → i < length text → i + 1 < size → r.mem (buf + i) ≡ nth text i
  pub nul : 0 < size → r.mem (buf + (if ltb (length text) size then length text else size - 1)) ≡ 0
  pub others : (a : ℕ) → (a < buf) ⊎ ((buf + size ≤ a) ⊎ (buf + length text < a)) → r.mem a ≡ mem a

end_of-eq : (buf size : ℕ) → buf + size < 2 ^ 64 → end_of buf size ≡ buf + size
end_of-eq buf size h = ground (arith, h)

if_at_two :
    (t u : Bool) (m n k : ℕ → ℕ) (a : ℕ)
    → (if t then if u then m else n else k) a ≡ (if t then if u then m a else n a else k a)
if_at_two true true m n k a = refl
if_at_two true false m n k a = refl
if_at_two false u m n k a = refl

-- Where the NUL is put.
abbrev last_of : ℕ → Buffer → ℕ
last_of end b = if ltb b.str end then b.str else end - 1

-- The byte at `a` after the NUL was put.
ended_at :
    (start end : ℕ) (b : Buffer) (a : ℕ)
    → (ended start end b).mem a ≡ (if ltb start end && a == last_of end b then 0 else b.mem a)
unfolding ended
ended_at start end b a =
    if_at_two (ltb 0 (end - start)) (ltb b.str end) (update b.mem b.str 0)
      (update b.mem (end - 1) 0) b.mem a
    ∙ ground arith

module _ (mem : ℕ → ℕ) (buf size : ℕ) (text : List ℕ) (c : Buffer)
    (h : IsLaid (buf + size) (record { mem = mem; str = buf }) text c) where
  text_byte : (i : ℕ) → i < length text → i < size → c.mem (buf + i) ≡ nth text i
  unfolding laid
  text_byte i k l =
      let z : buf + i - buf ≡ i = omega arith in h.bytes (buf + i) ∙ rw z (ground (arith, k, l))

  other_byte : (a : ℕ) → (a < buf) ⊎ ((buf + size ≤ a) ⊎ (buf + length text < a)) → c.mem a ≡ mem a
  unfolding laid
  other_byte a o = h.bytes a ∙ ground (arith, o)

  ended-IsPrinted : IsPrinted mem buf size text (ended buf (buf + size) c)
  unfolding ended
  ended-IsPrinted = record {
    count = let e : c.str - buf ≡ length text = omega (arith, h.at) in ap (λ n. n % 2 ^ 32) e;
    inside = λ i k l.
        ended_at buf (buf + size) c (buf + i)
        ∙ ground (arith, h.at, k, l)
        ∙ text_byte i k (omega (arith, l));
    nul = λ k. ended_at buf (buf + size) c _ ∙ ground (arith, h.at, k);
    others = λ a o. ended_at buf (buf + size) c a ∙ ground (arith, h.at, o) ∙ other_byte a o;
  }

-- A format that has a text.
pub vsnprintf-IsPrinted :
    (strings : ℕ → List ℕ) (bytes mem : ℕ → ℕ) (buf size : ℕ) (fmt args text : List ℕ)
    → size < 2 ^ 31
    → buf + size < 2 ^ 64
    → formatted strings bytes fmt args ≡ some text
    → (r : Printed) × (vsnprintf strings bytes mem buf size fmt args ≡ some r)
      × IsPrinted mem buf size text r
unfolding vsnprintf
vsnprintf-IsPrinted strings bytes mem buf size fmt args text small room e =
    let end = end_of-eq buf size room in
    let fits : leb (2 ^ 31) (size % 2 ^ 32) ≡ false = ground (arith, small) in
    let b : Buffer = record { mem = mem; str = buf } in
    let loop =
      loop-IsLaid strings bytes buf (buf + size) (rounds fmt) b args zero_spec fmt text e in
    (
      ended buf (buf + size) loop.0,
      rw (fits, end) (ap (λ o. and_then o (λ c. some (ended buf (buf + size) c))) loop.1),
      ended-IsPrinted mem buf size text loop.0 loop.2,
    )

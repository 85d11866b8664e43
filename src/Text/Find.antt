-- ===== src/Text/Find.antt =====
-- strstr, strchr and strrchr.
use shield_tv_loader.Base.{
  ℕ, suc, ◌%◌, ◌≤◌, ◌<◌, ◌≡◌, refl, Bool, true, false, ◌&&◌, List, [], ◌∷◌, Option, none, some,
  all_cons, ◌==◌, if◌then◌else◌, arith, Bool-cases, inl, inr,
}
use shield_tv_loader.Text.{
  IsText, peek, advance, memcmp, is_zero_int, strlen, find_sub, strstr, strchr, strrchr,
}

unfoldable pub starts_with : List ℕ → List ℕ → Bool
starts_with [] s = true
starts_with (d ∷ t) [] = false
starts_with (d ∷ t) (c ∷ s) = d == c && starts_with t s

-- The first place at which `t` stands in a string.
unfoldable pub first_match : List ℕ → List ℕ → Option (List ℕ)
first_match t [] = if starts_with t [] then some [] else none
first_match t (c ∷ s) =
    let rest = first_match t s in if starts_with t (c ∷ s) then some (c ∷ s) else rest

-- memcmp over the bytes of `t` tells whether they stand at the front.
memcmp-starts_with :
    (t s : List ℕ) → IsText t → is_zero_int (memcmp s t (strlen t)) ≡ starts_with t s
unfolding memcmp strlen starts_with
memcmp-starts_with [] s h = refl
memcmp-starts_with (d ∷ t) [] (all_cons hd ht) = ground (arith, hd.positive)
memcmp-starts_with (d ∷ t) (c ∷ s) (all_cons hd ht) = ground (arith, memcmp-starts_with t s ht)

starts_with-strlen : (t s : List ℕ) → starts_with t s ≡ true → strlen t ≤ strlen s
unfolding starts_with strlen
starts_with-strlen [] s e = omega arith
starts_with-strlen (d ∷ t) [] e = ground arith
starts_with-strlen (d ∷ t) (c ∷ s) e = ground (arith, starts_with-strlen t s)

strlen-nil : strlen [] ≡ 0
unfolding strlen
strlen-nil = refl

first_match-short : (s t : List ℕ) → strlen s < strlen t → first_match t s ≡ none
unfolding first_match strlen
first_match-short [] t short = ground (arith, starts_with-strlen t [])
first_match-short (c ∷ s) t short =
    ground (arith, starts_with-strlen t (c ∷ s), first_match-short s t)

find_sub-first_match :
    (s t : List ℕ) → IsText t → 0 < strlen t → find_sub s t (strlen t) (strlen s) ≡ first_match t s
unfolding find_sub first_match strlen
find_sub-first_match [] t h long = ground (arith, starts_with-strlen t [])
find_sub-first_match (c ∷ s) t h long = ground (
  arith,
  find_sub-first_match s t h long,
  memcmp-starts_with t (c ∷ s) h,
  starts_with-strlen t (c ∷ s),
  first_match-short s t,
)

first_match-nil : (s : List ℕ) → first_match [] s ≡ some s
unfolding first_match starts_with
first_match-nil [] = refl
first_match-nil (c ∷ s) = refl

strlen-cons : (c : ℕ) (s : List ℕ) → strlen (c ∷ s) ≡ suc (strlen s)
unfolding strlen
strlen-cons c s = refl

-- strstr gives the first place at which the other string stands, or NULL if there is none.
pub strstr-first_match : (s t : List ℕ) → IsText t → strstr s t ≡ first_match t s
unfolding strstr
strstr-first_match s [] h = nil
  where
    nil :
        (if strlen [] == 0 then some s else find_sub s [] (strlen []) (strlen s)) ≡ first_match [] s
    nil = rw (first_match-nil s) (ground (arith, strlen-nil))
strstr-first_match s (d ∷ t) h =
    ground
      (arith, strlen-cons d t, find_sub-first_match s (d ∷ t) h (omega (arith, strlen-cons d t)))

-- What strrchr promises of its result.
pub IsLast : ℕ → List ℕ → Option (List ℕ) → Type 0
IsLast c s none = strchr s c ≡ none
IsLast c s (some p) = (peek p ≡ c % 256) × (strchr (advance p) c ≡ none)

-- strrchr gives, for a byte other than NUL, a place where the byte stands and after which it does not
-- stand, and gives NULL only where strchr does.
strrchr-IsLast : (s : List ℕ) (c : ℕ) → 0 < c % 256 → IsLast c s (strrchr s c)
unfolding strrchr strchr IsLast
strrchr-IsLast [] c h = ground arith
strrchr-IsLast (x ∷ s) c h = step (strrchr s c) refl (strrchr-IsLast s c h)
  where
    step :
        (o : Option (List ℕ))
        → strrchr s c ≡ o
        → IsLast c s o
        → IsLast c (x ∷ s) (strrchr (x ∷ s) c)
    step (some p) e last = rw e last
    step none e f = elim (Bool-cases (x == c % 256)) [
      | inl t ↦ rw (e, t) (ground (arith, f))
      | inr t ↦ rw (e, t) (ground (arith, f))
    ]

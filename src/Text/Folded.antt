-- ===== src/Text/Folded.antt =====
-- strcasecmp, strncasecmp and strnicmp.
use shield_tv_loader.Base.{
  ℕ, ◌+◌, ◌-◌, ◌<◌, ◌≡◌, refl, ◌↔◌, List, [], ◌∷◌, map, all_cons, pos, arith, u64_mod, sub64,
}
use shield_tv_loader.Text.{IsText, advance, strcasecmp, strncasecmp, strlen}
use shield_tv_loader.Ctype.{to_lower, is_upper}
use shield_tv_loader.Ctype.Ranges.{to_lower-positive}

to_lower_nul : to_lower 0 ≡ 0
unfolding to_lower is_upper
to_lower_nul = refl

-- Equal but for the case of letters.
abbrev pub SameFolded : List ℕ → List ℕ → Type 0
SameFolded s t = map to_lower s ≡ map to_lower t

strcasecmp-same : (s t : List ℕ) → SameFolded s t → strcasecmp s t ≡ pos 0
unfolding strcasecmp
strcasecmp-same [] [] e = ground arith
strcasecmp-same [] (d ∷ t) e = absurd (ground arith)
strcasecmp-same (c ∷ s) [] e = absurd (ground arith)
strcasecmp-same (c ∷ s) (d ∷ t) e = ground (arith, strcasecmp-same s t)

strcasecmp-zero : (s t : List ℕ) → IsText s → IsText t → strcasecmp s t ≡ pos 0 → SameFolded s t
unfolding strcasecmp
strcasecmp-zero [] [] hs ht e = refl
strcasecmp-zero [] (d ∷ t) hs (all_cons hd ht) e =
    absurd (ground (arith, to_lower_nul, to_lower-positive d hd.byte hd.positive))
strcasecmp-zero (c ∷ s) [] (all_cons hc hs) ht e =
    absurd (ground (arith, to_lower_nul, to_lower-positive c hc.byte hc.positive))
strcasecmp-zero (c ∷ s) (d ∷ t) (all_cons hc hs) (all_cons hd ht) e =
    let first : to_lower c ≡ to_lower d = ground (arith, to_lower-positive c hc.byte hc.positive) in
    let rest : SameFolded s t =
      strcasecmp-zero s t hs ht (ground (arith, to_lower-positive c hc.byte hc.positive)) in
    rw (first, rest) refl

-- strcasecmp of two strings is 0 exactly when they are equal but for the case of letters.
strcasecmp_zero_iff :
    (s t : List ℕ) → IsText s → IsText t → (strcasecmp s t ≡ pos 0) ↔ SameFolded s t
strcasecmp_zero_iff s t hs ht = (strcasecmp-zero s t hs ht, strcasecmp-same s t)

strncasecmp-long :
    (s t : List ℕ) (n : ℕ) → strlen s + 1 < n → n < u64_mod → strncasecmp s t n ≡ strcasecmp s t
unfolding strncasecmp strcasecmp strlen
strncasecmp-long [] t n h k = refl
strncasecmp-long (c ∷ s) t n h k =
    let less : sub64 n 1 ≡ n - 1 = omega arith in
    rw (less, strncasecmp-long s (advance t) (n - 1) (omega arith) (omega arith)) (ground arith)

-- With the length 0, strncasecmp compares the strings to their ends.
pub strncasecmp_zero : (s t : List ℕ) → strlen s + 2 < u64_mod → strncasecmp s t 0 ≡ strcasecmp s t
unfolding strncasecmp strcasecmp strlen
strncasecmp_zero [] t h = refl
strncasecmp_zero (c ∷ s) t h =
    rw (strncasecmp-long s (advance t) (u64_mod - 1) (omega arith) (omega arith)) (ground arith)

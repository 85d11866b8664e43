-- ===== src/Text/Compare.antt =====
-- strcmp, strncmp and memcmp.
use shield_tv_loader.Base.{ℕ, zero, suc, ◌≡◌, refl, ◌↔◌, List, [], ◌∷◌, all_cons, pos, arith, take}
use shield_tv_loader.Text.{IsText, strcmp, strncmp}

strcmp-same : (s : List ℕ) → strcmp s s ≡ pos 0
unfolding strcmp
strcmp-same [] = refl
strcmp-same (c ∷ s) = ground (arith, strcmp-same s)

strcmp-zero : (s t : List ℕ) → IsText s → IsText t → strcmp s t ≡ pos 0 → s ≡ t
unfolding strcmp
strcmp-zero [] [] hs ht e = refl
strcmp-zero [] (d ∷ t) hs (all_cons hd ht) e = absurd (ground (arith, hd.positive))
strcmp-zero (c ∷ s) [] (all_cons hc hs) ht e = absurd (ground (arith, hc.positive))
strcmp-zero (c ∷ s) (d ∷ t) (all_cons hc hs) (all_cons hd ht) e =
    let first : c ≡ d = ground (arith, hc.positive) in
    let rest : s ≡ t = strcmp-zero s t hs ht (ground (arith, hc.positive)) in rw (first, rest) refl

-- strcmp of two strings is 0 exactly when they are equal.
pub strcmp_zero_iff : (s t : List ℕ) → IsText s → IsText t → (strcmp s t ≡ pos 0) ↔ (s ≡ t)
strcmp_zero_iff s t hs ht = (strcmp-zero s t hs ht, λ e. rw e (strcmp-same t))

-- strncmp is strcmp of the first `count` bytes of both strings.
strncmp-take :
    (count : ℕ) (s t : List ℕ)
    → IsText s
    → IsText t
    → strncmp s t count ≡ strcmp (take count s) (take count t)
unfolding strcmp strncmp
strncmp-take zero s t hs ht = refl
strncmp-take (suc n) [] [] hs ht = refl
strncmp-take (suc n) [] (d ∷ t) hs (all_cons hd ht) = ground (arith, hd.positive)
strncmp-take (suc n) (c ∷ s) [] (all_cons hc hs) ht = ground (arith, hc.positive)
strncmp-take (suc n) (c ∷ s) (d ∷ t) (all_cons hc hs) (all_cons hd ht) =
    ground (arith, hc.positive, strncmp-take n s t hs ht)

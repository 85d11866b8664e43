-- ===== src/Text/Split.antt =====
-- strspn, strcspn, strpbrk and strsep.
use shield_tv_loader.Base.{
  ℕ, zero, suc, ◌+◌, ◌-◌, ◌≤◌, ◌<◌, ◌≡◌, refl, ap, List, [], ◌∷◌, none, some, ◌==◌, if◌then◌else◌,
  arith, take, drop, length, ℕ_discrete, Bool-cases, inl, inr,
}
use shield_tv_loader.Text.{advance, is_one_of, strlen, strcspn, strpbrk, strsep, cut_before}

strcspn-le : (s ct : List ℕ) → strcspn s ct ≤ strlen s
unfolding strcspn strlen
strcspn-le [] ct = omega arith
strcspn-le (c ∷ s) ct = ground (arith, strcspn-le s ct)

-- strpbrk finds the byte that strcspn stops at.
pub strpbrk-strcspn :
    (s ct : List ℕ)
    → strpbrk s ct ≡ (if strcspn s ct == strlen s then none else some (drop (strcspn s ct) s))
unfolding strpbrk strcspn strlen
strpbrk-strcspn [] ct = refl
strpbrk-strcspn (c ∷ s) ct = elim (Bool-cases (is_one_of c ct)) [
  | inl e ↦ rw e (ground arith)
  | inr e ↦ rw e (rw (strpbrk-strcspn s ct) (ground arith))
]

length-strlen : (s : List ℕ) → length s ≡ strlen s
unfolding strlen
length-strlen [] = refl
length-strlen (c ∷ s) = ap suc (length-strlen s)

strlen-drop : (n : ℕ) (s : List ℕ) → n ≤ strlen s → strlen (drop n s) + n ≡ strlen s
unfolding strlen
strlen-drop zero s h = omega arith
strlen-drop (suc n) [] h = omega arith
strlen-drop (suc n) (c ∷ s) h = omega (arith, strlen-drop n s (omega arith))

cut_before-take : (n : ℕ) (s : List ℕ) → n < strlen s → cut_before s (strlen s - n) ≡ take n s
unfolding cut_before strlen
cut_before-take n [] h = absurd (omega arith)
cut_before-take zero (c ∷ s) h = ground (arith, length-strlen s)
cut_before-take (suc n) (c ∷ s) h =
    let less : suc (strlen s) - suc n ≡ strlen s - n = omega arith in
    rw less (ground (arith, length-strlen s, cut_before-take n s))

advance-drop : (n : ℕ) (s : List ℕ) → advance (drop n s) ≡ drop (suc n) s
advance-drop zero [] = refl
advance-drop zero (c ∷ s) = refl
advance-drop (suc n) [] = refl
advance-drop (suc n) (c ∷ s) = advance-drop n s

take-all : (s : List ℕ) → take (strlen s) s ≡ s
unfolding strlen
take-all [] = refl
take-all (c ∷ s) = ap (λ (t : List ℕ). c ∷ t) (take-all s)

-- strsep cuts the string at the byte that strcspn stops at and goes on behind it; without one the
-- whole string is the token and nothing is left.
strsep-strcspn :
    (s ct : List ℕ)
    → strsep (some s) ct ≡ (
      some (take (strcspn s ct) s),
      if strcspn s ct == strlen s then none else some (drop (suc (strcspn s ct)) s),
    )
unfolding strsep
strsep-strcspn s ct = elim (ℕ_discrete (strcspn s ct) (strlen s)) [
  | yes e ↦ ground (arith, strpbrk-strcspn s ct, take-all s)
  | no ne ↦ ground (
    arith,
    strpbrk-strcspn s ct,
    strcspn-le s ct,
    length-strlen (drop (strcspn s ct) s),
    strlen-drop (strcspn s ct) s,
    cut_before-take (strcspn s ct) s,
    advance-drop (strcspn s ct) s,
  )
]

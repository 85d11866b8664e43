-- ===== src/Fb/Parsing.antt =====
-- The parsers of fb.c: what simple_strtoull leaves is no longer than what it was given, so that the
-- loop of poke ends.
use shield_tv_loader.Base.{
  ℕ, zero, suc, ◌+◌, ◌*◌, ◌%◌, ◌≤◌, ◌≡◌, refl, Bool, true, false, not, ◌&&◌, List, [], ◌∷◌, ◌==◌,
  if◌then◌else◌, Result, ok, length, drop, arith, Bool-cases, inl, inr, u64_mod, ℕ_discrete, add64,
}
use shield_tv_loader.Text.{peek, advance}
use shield_tv_loader.Number.{
  simple_strtoull, read_digits, skip_prefix, digit_value, simple_guess_base,
}
use shield_tv_loader.Fb.Oem.{poke_items, write_le}

read_digits-length : (cp : List ℕ) (base n : ℕ) → length (read_digits cp base n).1 ≤ length cp
unfolding read_digits
read_digits-length [] base n = omega arith
read_digits-length (c ∷ cp) base n =
    ground (arith, read_digits-length cp base ((n * base + digit_value c) % u64_mod))

length-drop : (n : ℕ) (s : List ℕ) → length (drop n s) ≤ length s
length-drop zero s = omega arith
length-drop (suc n) [] = omega arith
length-drop (suc n) (c ∷ s) = omega (arith, length-drop n s)

skip_prefix-length : (cp : List ℕ) (base : ℕ) → length (skip_prefix cp base) ≤ length cp
unfolding skip_prefix
skip_prefix-length cp base = ground (arith, length-drop 2 cp)

pub strtoull-length : (cp : List ℕ) (base : ℕ) → length (simple_strtoull cp base).1 ≤ length cp
unfolding simple_strtoull
strtoull-length cp base =
    let b = if base == 0 then simple_guess_base cp else base in
    omega (arith, read_digits-length (skip_prefix cp b) b 0, skip_prefix-length cp b)

-- A run of the loop of poke comes to a result.
pub data Ends {ℓ} {A : Type ℓ} : Result A → Type ℓ where
  ends : (a : A) → Ends (ok a)

Ends-if {ℓ} : {A : Type ℓ} (t : Bool) (m n : Result A) → Ends m → Ends n → Ends (if t then m else n)
Ends-if true m n h k = h
Ends-if false m n h k = k

poke_items-nul :
    (fuel : ℕ) (ascii : Bool) (access addr : ℕ) (s : List ℕ) (mem : ℕ → ℕ)
    → peek s ≡ 0
    → Ends (poke_items fuel ascii access addr s mem)
unfolding poke_items
poke_items-nul zero ascii access addr [] mem e = ends _
poke_items-nul (suc fuel) ascii access addr [] mem e = ends _
poke_items-nul zero ascii access addr (c ∷ s) mem e = rw e (ends (true, mem))
poke_items-nul (suc fuel) ascii access addr (c ∷ s) mem e = rw e (ends (true, mem))

-- Fuel as long as the rest of the command is enough.
pub poke_items-Ends :
    (fuel : ℕ) (ascii : Bool) (access addr : ℕ) (s : List ℕ) (mem : ℕ → ℕ)
    → length s ≤ fuel
    → Ends (poke_items fuel ascii access addr s mem)
unfolding poke_items
poke_items-Ends zero ascii access addr [] mem h = ends _
poke_items-Ends (suc fuel) ascii access addr [] mem h = ends _
poke_items-Ends zero ascii access addr (c ∷ s) mem h = absurd (omega arith)
poke_items-Ends (suc fuel) ascii access addr (c ∷ s) mem h =
    let rest = (simple_strtoull (c ∷ s) 0).1 in
    let value = (simple_strtoull (c ∷ s) 0).0 in
    let addr1 = add64 addr access in
    let wrong = not (peek rest == b' ') && not (peek rest == 0) in
    let next_item = if peek rest == b' ' then advance rest else rest in
    let by_char = poke_items fuel ascii access addr1 s (write_le mem addr 1 c) in
    let by_number =
      if wrong
      then ok (false, mem)
      else poke_items fuel ascii access addr1 next_item (write_le mem addr access value) in
    Ends-if (c == 0) (ok (true, mem)) (if ascii then by_char else by_number) (ends (true, mem)) (
      Ends-if ascii by_char by_number
        (poke_items-Ends fuel ascii access addr1 s (write_le mem addr 1 c) (omega (arith, h)))
        (elim (Bool-cases wrong) [
          | inl e ↦ rw e (ends (false, mem))
          | inr e ↦ rw e (
              next rest value addr1 e (strtoull-length (c ∷ s) 0) (λ u k.
                poke_items-Ends fuel ascii access addr1 u (write_le mem addr access value) k))
        ]))
  where
    next :
        (rest : List ℕ) (value addr1 : ℕ)
        → (not (peek rest == b' ') && not (peek rest == 0)) ≡ false
        → length rest ≤ suc (length s)
        → ((u : List ℕ)
            → length u ≤ fuel
            → Ends (poke_items fuel ascii access addr1 u (write_le mem addr access value)))
        → Ends (
            poke_items fuel ascii access addr1
              (if peek rest == b' ' then advance rest else rest)
              (write_le mem addr access value))
    next [] value addr1 b k loop = loop [] (omega arith)
    next (d ∷ rest) value addr1 b k loop = elim (ℕ_discrete d b' ') [
      | yes e ↦ rw e (loop rest (omega arith))
      | no ne ↦
          let nul : d ≡ 0 = ground arith in
          rw nul (poke_items-nul fuel ascii access addr1 (0 ∷ rest) _ refl)
    ]

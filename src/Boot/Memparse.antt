-- ===== src/Boot/Memparse.antt =====
-- memparse on hexadecimal numbers with a unit.
use shield_tv_loader.Base.{
  ℕ, ◌*◌, ◌%◌, ◌^◌, ◌≡◌, refl, false, ◌||◌, List, ◌∷◌, All, ◌==◌, if◌then◌else◌, u64_mod, arith,
  Bool-cases, inl, inr,
}
use shield_tv_loader.Text.{peek, advance}
use shield_tv_loader.Ctype.{is_xdigit}
use shield_tv_loader.Number.Numeral.{IsDigitOf, numeral_value, reverse_onto}
use shield_tv_loader.Number.Prefix.{simple_strtoull-hex}
use shield_tv_loader.Boot.{memparse, scale}

-- The number of bits that a unit shifts by: 30 for G, 20 for M, 10 for K, in either case.
unfoldable pub unit_bits : ℕ → ℕ
unit_bits c =
    if c == b'G' || c == b'g'
    then 30
    else if c == b'M' || c == b'm'
    then 20
    else if c == b'K' || c == b'k'
    then 10
    else 0

-- What is left behind the unit, if there is one.
unfoldable pub after_unit : List ℕ → List ℕ
after_unit rest = if unit_bits (peek rest) == 0 then rest else advance rest

scale-unit :
    (v : ℕ) (rest : List ℕ)
    → scale (v % u64_mod, rest) ≡ (v * 2 ^ unit_bits (peek rest) % u64_mod, after_unit rest)
unfolding scale unit_bits after_unit
scale-unit v rest = elim (Bool-cases (peek rest == b'G' || peek rest == b'g')) [
  | inl g ↦ rw g (pair (omega arith))
  | inr g ↦ elim (Bool-cases (peek rest == b'M' || peek rest == b'm')) [
    | inl m ↦ rw (g, m) (pair (omega arith))
    | inr m ↦ elim (Bool-cases (peek rest == b'K' || peek rest == b'k')) [
      | inl k ↦ rw (g, m, k) (pair (omega arith))
      | inr k ↦ rw (g, m, k) (pair (omega arith))
    ]
  ]
]
  where
    pair : {a b : ℕ} {r : List ℕ} → a ≡ b → ◌≡◌ {A = ℕ × List ℕ} (a, r) (b, r)
    pair e = rw e refl

-- memparse of a hexadecimal number gives it, scaled by the unit behind it, modulo 2 ^ 64, and what
-- follows the unit.
pub memparse-hex :
    (d : ℕ) (ds rest : List ℕ)
    → All (IsDigitOf 16) (d ∷ ds)
    → is_xdigit (peek rest) ≡ false
    → memparse (b'0' ∷ b'x' ∷ reverse_onto (d ∷ ds) rest)
      ≡ (numeral_value 16 (d ∷ ds) * 2 ^ unit_bits (peek rest) % u64_mod, after_unit rest)
unfolding memparse
memparse-hex d ds rest digits stop =
    rw (simple_strtoull-hex d ds rest digits stop) (scale-unit (numeral_value 16 (d ∷ ds)) rest)

-- ===== src/Base/Lists.antt =====
-- Lists measured by native numbers, and checks of all numbers below a bound.
use Prim.Native.Nat.{ℕ, zero, suc, ◌<◌}
use mathlib.Core.Path.{◌≡◌}
use mathlib.Core.Logic.{inl, inr}
use mathlib.Core.Bool.{Bool, true, ◌&&◌}
use mathlib.Core.List.{List, [], ◌∷◌}
use native.Mathlib.Decide.{ℕ_discrete}
use native.Mathlib.Omega.{arith}
use shield_tv_loader.Base.Tests.{Bool-cases}

abbrev pub length {ℓ} : {A : Type ℓ} → List A → ℕ
length [] = 0
length (x ∷ xs) = suc (length xs)

-- The entry at an index, 0 past the end.
abbrev pub nth : List ℕ → ℕ → ℕ
nth [] n = 0
nth (x ∷ xs) zero = x
nth (x ∷ xs) (suc n) = nth xs n

abbrev pub take {ℓ} : {A : Type ℓ} → ℕ → List A → List A
take zero xs = []
take (suc n) [] = []
take (suc n) (x ∷ xs) = x ∷ take n xs

abbrev pub drop {ℓ} : {A : Type ℓ} → ℕ → List A → List A
drop zero xs = xs
drop (suc n) [] = []
drop (suc n) (x ∷ xs) = drop n xs

pub data All {ℓ m} {A : Type ℓ} (P : A → Type m) : List A → Type (ℓ ⊔ m) where
  all_nil : All P []
  all_cons : {x : A} {xs : List A} → P x → All P xs → All P (x ∷ xs)

abbrev pub all_below : ℕ → (ℕ → Bool) → Bool
all_below zero f = true
all_below (suc n) f = f n && all_below n f

-- A test that was computed for all numbers below a bound holds for each of them.
pub all_below_holds : (n : ℕ) (f : ℕ → Bool) → all_below n f ≡ true → (c : ℕ) → c < n → f c ≡ true
all_below_holds zero f e c h = absurd (omega arith)
all_below_holds (suc n) f e c h = elim (Bool-cases (f n)) [
  | inl top ↦ elim (ℕ_discrete c n) [
    | yes same ↦ rw same top
    | no below ↦ all_below_holds n f (rest top) c (omega arith)
  ]
  | inr top ↦ ground arith
]
  where
    rest : f n ≡ true → all_below n f ≡ true
    rest top = ground arith

-- ===== src/Ctype/Ranges.antt =====
-- What the table of ctype.c says of each byte, computed for all 256.
use shield_tv_loader.Base.{ℕ, ◌<◌, ◌≡◌, refl, Bool, true, not, ◌&&◌, ◌||◌, leb, ◌==◌}
use shield_tv_loader.Base.{all_below_holds, ==→eq, false}
use shield_tv_loader.Base.{arith}
use shield_tv_loader.Ctype.{is_digit, is_xdigit, is_upper, to_lower}

abbrev same : Bool → Bool → Bool
same true b = b
same false b = not b

same→eq : (a b : Bool) → same a b ≡ true → a ≡ b
same→eq true true h = refl
same→eq true false h = ground arith
same→eq false true h = ground arith
same→eq false false h = refl

-- isdigit: the bytes of 0 to 9.
pub is_digit-range : (c : ℕ) → c < 256 → is_digit c ≡ (leb 48 c && leb c 57)
unfolding is_digit
is_digit-range c h =
    same→eq _ _ (all_below_holds 256 (λ (x : ℕ). same (is_digit x) (leb 48 x && leb x 57)) refl c h)

-- isxdigit: 0 to 9, A to F and a to f.
pub is_xdigit-range :
    (c : ℕ)
    → c < 256
    → is_xdigit c ≡ (leb 48 c && leb c 57 || (leb 65 c && leb c 70 || leb 97 c && leb c 102))
unfolding is_xdigit
is_xdigit-range c h = same→eq _ _ (
    all_below_holds 256
      (λ (x : ℕ).
        same (is_xdigit x)
          (leb 48 x && leb x 57 || (leb 65 x && leb x 70 || leb 97 x && leb x 102)))
      refl c h)

-- tolower changes no byte twice and gives no upper-case letter.
pub to_lower_idem : (c : ℕ) → c < 256 → to_lower (to_lower c) ≡ to_lower c
unfolding to_lower is_upper
to_lower_idem c h =
    ==→eq _ _ (all_below_holds 256 (λ (x : ℕ). to_lower (to_lower x) == to_lower x) refl c h)

pub to_lower-below : (c : ℕ) → c < 256 → to_lower c < 256
unfolding to_lower
to_lower-below c h = ground arith

nonzero : (x y : ℕ) → (x == 0 || not (y == 0)) ≡ true → 0 < x → 0 < y
nonzero x y e h = ground arith

-- Only NUL becomes NUL.
pub to_lower-positive : (c : ℕ) → c < 256 → 0 < c → 0 < to_lower c
unfolding to_lower is_upper
to_lower-positive c h k =
    nonzero c (to_lower c)
      (all_below_holds 256 (λ (x : ℕ). x == 0 || not (to_lower x == 0)) refl c h) k

-- ===== src/Lmb/Ops/Align.antt =====
-- Rounding to an alignment, `lmb_align_down` and `lmb_align_up`.
use native.Mathlib.Nat.{pow-le-pow_right}
use shield_tv_loader.Base.{
  ℕ, ◌+◌, ◌-◌, ◌*◌, ◌^◌, ◌≤◌, ◌<◌, ◌≡◌, arith, u64_mod, add64, sub64, not64, bit_and-le, IsFloor,
  bit_and-IsFloor, two_pow_pos,
}
use shield_tv_loader.Lmb.Ops.{lmb_align_down, lmb_align_up}

-- For any alignment, rounding down does not go up.
pub align_down-le : (addr align : ℕ) → lmb_align_down addr align ≤ addr
unfolding lmb_align_down
align_down-le addr align = bit_and-le addr (not64 (sub64 align 1))

mask-pow : (k : ℕ) → k < 64 → not64 (sub64 (2 ^ k) 1) + 2 ^ k ≡ 2 ^ 64
mask-pow k h =
    omega
      (arith, two_pow_pos k, pow-le-pow_right {n = 2} (omega arith) {i = k} {j = 63} (omega arith))

-- For a power of two, it gives the greatest multiple that is not above the address.
pub align_down-IsFloor :
    (k addr : ℕ) → k < 64 → addr < u64_mod → IsFloor k addr (lmb_align_down addr (2 ^ k))
unfolding lmb_align_down
align_down-IsFloor k addr h small =
    bit_and-IsFloor k 64 addr (not64 (sub64 (2 ^ k) 1)) small (omega arith) (mask-pow k h)

-- A multiple of 2 ^ k that is not below `size`, and less than 2 ^ k above it.
pub record IsCeiling (k size r : ℕ) : Type 0 where
  pub above : size ≤ r
  pub near : r < size + 2 ^ k
  pub quotient : ℕ
  pub multiple : r ≡ quotient * 2 ^ k

-- Rounding up gives the least multiple that is not below the size, where that is a 64-bit number.
pub align_up-IsCeiling :
    (k size : ℕ) → k < 64 → size + 2 ^ k ≤ u64_mod → IsCeiling k size (lmb_align_up size (2 ^ k))
unfolding lmb_align_up
align_up-IsCeiling k size h fits = record {
  above = omega (arith, f.near, top);
  near = omega (arith, f.below, top, two_pow_pos k);
  quotient = f.quotient;
  multiple = f.multiple;
}
  where
    top : sub64 (add64 size (2 ^ k)) 1 ≡ size + 2 ^ k - 1
    top = omega (arith, two_pow_pos k)

    f : IsFloor k (sub64 (add64 size (2 ^ k)) 1) (lmb_align_up size (2 ^ k))
    f =
        bit_and-IsFloor k 64 (sub64 (add64 size (2 ^ k)) 1) (not64 (sub64 (2 ^ k) 1)) (omega arith)
          (omega arith) (mask-pow k h)

-- ===== src/Lmb/Ops/Limit.antt =====
-- The limit of `__lmb_alloc_base`, where the size is above it.
use shield_tv_loader.Base.{
  ℕ, ◌+◌, ◌-◌, ◌^◌, ◌≤◌, ◌<◌, ◌≡◌, subst, some, arith, u64_mod, sub64, IsFloor,
}
use shield_tv_loader.Lmb.{LmbProperty}
use shield_tv_loader.Lmb.Sorted.{IsSolid, end_of}
use shield_tv_loader.Lmb.Ops.{first_base, lmb_align_down}
use shield_tv_loader.Lmb.Ops.Align.{align_down-IsFloor}

-- A region that begins under the limit and ends above it is tried for a size above the limit too, if
-- it is as large. The first address tried then is the wrapped difference rounded down, and, unless the
-- region reaches up to there, it lies past the region's end.
pub first_base_wraps :
    (k size max_addr type tag : ℕ) (p : LmbProperty)
    → k < 64
    → IsSolid p
    → size ≤ p.size
    → p.base < max_addr
    → max_addr < size
    → end_of p + size + 2 ^ k ≤ u64_mod + max_addr
    → (base : ℕ) × (first_base size (2 ^ k) max_addr type tag p ≡ some base)
      × IsFloor k (u64_mod + max_addr - size) base
      × (end_of p ≤ base)
unfolding first_base
first_base_wraps k size max_addr type tag p small solid fits under above far =
    let top = sub64 max_addr size in
    let base = lmb_align_down top (2 ^ k) in
    let wrapped : top ≡ u64_mod + max_addr - size = omega arith in
    let f = subst (λ x. IsFloor k x base) wrapped (align_down-IsFloor k top small (omega arith)) in
    (base, ground arith, f, omega (arith, f.near))

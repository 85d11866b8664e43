-- ===== src/Lmb/Ops/Alloc.antt =====
-- `__lmb_alloc_base`: the search ends, and what it finds.
use shield_tv_loader.Base.{
  ℕ, zero, suc, ◌+◌, ◌≤◌, ◌<◌, ◌≡◌, ◌≢◌, inl, inr, true, false, none, some, ltb, arith,
  Option-cases, sub64,
}
use shield_tv_loader.Lmb.{LmbProperty, LmbRegion, Lmb, lmb_addrs_overlap}
use shield_tv_loader.Lmb.Ops.{
  out_of_fuel, overlaps_from, lmb_overlaps_region, search_down, take_area, first_base, alloc_from,
  lmb_align_down, lmb_align_up, lmb_alloc_base_unchecked, lmb_alloc_base,
}
use shield_tv_loader.Lmb.Ops.Align.{align_down-le}

overlaps_from-some :
    (base size n i : ℕ) (region : ℕ → LmbProperty) (j : ℕ)
    → overlaps_from base size n i region ≡ some j
    → (i ≤ j) × (j < i + n) × (lmb_addrs_overlap base size (region j).base (region j).size ≡ true)
unfolding overlaps_from
overlaps_from-some base size zero i region j e = cc
overlaps_from-some base size (suc n) i region j e =
    ground (arith, overlaps_from-some base size n (i + 1) region j)

pub overlaps_from-none :
    (base size n i : ℕ) (region : ℕ → LmbProperty) (j : ℕ)
    → overlaps_from base size n i region ≡ none
    → i ≤ j
    → j < i + n
    → lmb_addrs_overlap base size (region j).base (region j).size ≡ false
unfolding overlaps_from
overlaps_from-none base size zero i region j e le h = absurd (omega arith)
overlaps_from-none base size (suc n) i region j e le h =
    ground (arith, overlaps_from-none base size n (i + 1) region j)

module _ (size align max_addr type tag : ℕ) where
  -- A reserved region that overlaps the candidate starts below the candidate's end, so the next
  -- candidate is lower.
  pub next_base_lt :
      (rgn : LmbRegion) (base j : ℕ)
      → lmb_overlaps_region rgn base size ≡ some j
      → ltb (rgn.region j).base size ≡ false
      → lmb_align_down (sub64 (rgn.region j).base size) align < base
  unfolding lmb_overlaps_region lmb_addrs_overlap
  next_base_lt rgn base j e le = ground (
    arith,
    overlaps_from-some base size rgn.cnt 0 rgn.region j e,
    align_down-le (sub64 (rgn.region j).base size) align,
  )

  take_area-ends :
      (lmb : Lmb) (base : ℕ) → take_area size align max_addr type tag lmb base ≢ out_of_fuel
  unfolding take_area
  take_area-ends lmb base e = ground arith

  search_down-ends :
      (fuel : ℕ) (lmb : Lmb) (lmbbase base : ℕ)
      → base < fuel
      → search_down size align max_addr type tag fuel lmb lmbbase base ≢ out_of_fuel
  unfolding search_down
  search_down-ends zero lmb lmbbase base h e = absurd (omega arith)
  search_down-ends (suc fuel) lmb lmbbase base h e =
      elim (Option-cases (lmb_overlaps_region lmb.reserved base size)) [
        | inl free ↦ ground (arith, take_area-ends lmb base)
        | inr (j, taken) ↦
            let next = lmb_align_down (sub64 (lmb.reserved.region j).base size) align in
            ground (
              arith,
              next_base_lt lmb.reserved base j taken,
              search_down-ends fuel lmb lmbbase next,
            )
      ]

  alloc_from-ends : (n : ℕ) (lmb : Lmb) → alloc_from size align max_addr type tag n lmb ≢ none
  unfolding alloc_from
  alloc_from-ends zero lmb e = cc
  alloc_from-ends (suc n) lmb e =
      elim (Option-cases (first_base size align max_addr type tag (lmb.memory.region n))) [
        | inl skip ↦ ground (arith, alloc_from-ends n lmb)
        | inr (base, try) ↦ ground (
          arith,
          alloc_from-ends n lmb,
          search_down-ends (suc base) lmb (lmb.memory.region n).base base (omega arith),
        )
      ]

-- The allocation ends, for any tables, size, alignment and limit.
pub lmb_alloc_base_total :
    (lmb : Lmb) (size align max_addr type tag : ℕ)
    → (addr : ℕ) × (lmb' : Lmb) × (lmb_alloc_base lmb size align max_addr type tag
        ≡ some (addr, lmb'))
unfolding lmb_alloc_base lmb_alloc_base_unchecked
lmb_alloc_base_total lmb size align max_addr type tag =
    elim (Option-cases (lmb_alloc_base lmb size align max_addr type tag)) [
      | inl stuck ↦ ground (
        arith,
        alloc_from-ends (lmb_align_up size align) align max_addr type tag lmb.memory.cnt lmb,
      )
      | inr ((addr, lmb'), done) ↦ (addr, lmb', done)
    ]

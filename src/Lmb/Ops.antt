-- ===== src/Lmb/Ops.antt =====
-- lmb.c: the operations on the pair of tables. `type` and `tag` are those of the source.
pub mod Align
pub mod Alloc
pub mod Placed
pub mod Allocation
pub mod Twice
pub mod Free
pub mod Release
pub mod Returned
pub mod Known
pub mod Limit
pub mod Board
mod Tests
mod ReserveTests
use Prim.Native.Nat.{min}
use shield_tv_loader.Base.{
  ℕ, zero, suc, ◌+◌, Bool, true, false, not, ◌&&◌, ◌||◌, Option, none, some, ltb, leb, ◌==◌,
  if◌then◌else◌, ℤ, pos, negsuc, is_neg, update, add64, sub64, not64, bit_and,
}
use shield_tv_loader.Lmb.{
  LmbProperty, LmbRegion, Lmb, lmb_free_type, lmb_boot, lmb_runtime, lmb_mmio, lmb_alloc_anywhere,
  lmb_addrs_overlap, lmb_remove_region, lmb_add_region,
}

pub lmb_align_down : ℕ → ℕ → ℕ
lmb_align_down addr size = bit_and addr (not64 (sub64 size 1))

pub lmb_align_up : ℕ → ℕ → ℕ
lmb_align_up addr size = bit_and (sub64 (add64 addr size) 1) (not64 (sub64 size 1))

pub lmb_add : Lmb → ℕ → ℕ → ℕ → ℤ × Lmb
lmb_add lmb base size tag =
    let (ret, memory) = lmb_add_region lmb.memory base size lmb_free_type tag in
    (ret, record lmb { memory = memory })

is_zero : ℤ → Bool
is_zero (pos zero) = true
is_zero (pos (suc n)) = false
is_zero (negsuc n) = false

pub lmb_add_mmio : Lmb → ℕ → ℕ → ℕ → ℤ × Lmb
unfolding is_zero
lmb_add_mmio lmb base size tag =
    let (ret, memory) = lmb_add_region lmb.memory base size lmb_mmio tag in
    let reserved = (lmb_add_region lmb.reserved base size lmb_mmio tag).1 in
    if is_zero ret
    then (ret, record { memory = memory; reserved = reserved })
    else (ret, record lmb { memory = memory })

-- The index of the first region that holds all of [base, end), or `cnt`.
pub find_holder : ℕ → ℕ → ℕ → ℕ → (ℕ → LmbProperty) → ℕ
find_holder base end zero i region = i
find_holder base end (suc n) i region =
    let rest = find_holder base end n (i + 1) region in
    if leb (region i).base base && leb end (add64 (region i).base (region i).size) then i else rest

-- The part of `lmb_free` after the search: region `i` holds [base, end), of `size` bytes.
pub free_at : LmbRegion → ℕ → ℕ → ℕ → ℕ → ℤ × LmbRegion
free_at rgn i base size end =
    let p = rgn.region i in
    let rgnend = add64 p.base p.size in
    let head : LmbProperty = record p { base = end; size = sub64 p.size size } in
    let tail : LmbProperty = record p { size = sub64 p.size size } in
    let before : LmbProperty = record p { size = sub64 base p.base } in
    if (p.base == base) && (rgnend == end)
    then (pos 0, lmb_remove_region rgn i)
    else if p.base == base
    then (pos 0, record rgn { region = update rgn.region i head })
    else if rgnend == end
    then (pos 0, record rgn { region = update rgn.region i tail })
    else lmb_add_region (record rgn { region = update rgn.region i before }) end (sub64 rgnend end)
        p.type p.tag

pub free_region : LmbRegion → ℕ → ℕ → ℤ × LmbRegion
unfolding find_holder free_at
free_region rgn base size =
    let end = add64 base size in
    let i = find_holder base end rgn.cnt 0 rgn.region in
    if i == rgn.cnt
    then (negsuc 0, rgn)
    else if (rgn.region i).type == lmb_mmio
    then (negsuc 0, rgn)
    else free_at rgn i base size end

pub lmb_free : Lmb → ℕ → ℕ → ℕ → ℤ × Lmb
unfolding lmb_align_up free_region
lmb_free lmb base size align =
    let (ret, reserved) = free_region lmb.reserved base (lmb_align_up size align) in
    (ret, record lmb { reserved = reserved })

pub known_from : ℕ → ℕ → ℕ → ℕ → (ℕ → LmbProperty) → Bool
known_from addr size zero i region = false
known_from addr size (suc n) i region =
    let p = region i in
    let upper = add64 p.base p.size in
    (leb p.base addr
      && leb addr (sub64 upper 1)
      && leb p.base (add64 addr size)
      && leb (add64 addr size) upper)
    || known_from addr size n (i + 1) region

pub lmb_is_known : Lmb → ℕ → ℕ → Bool
unfolding known_from
lmb_is_known lmb addr size = known_from addr size lmb.memory.cnt 0 lmb.memory.region

pub reserved_from : ℕ → ℕ → ℕ → (ℕ → LmbProperty) → Bool
reserved_from addr zero i region = false
reserved_from addr (suc n) i region =
    let p = region i in
    (leb p.base addr && leb addr (sub64 (add64 p.base p.size) 1))
    || reserved_from addr n (i + 1) region

pub lmb_is_reserved : Lmb → ℕ → Bool
unfolding reserved_from
lmb_is_reserved lmb addr = reserved_from addr lmb.reserved.cnt 0 lmb.reserved.region

pub lmb_reserve : Lmb → ℕ → ℕ → ℕ → ℕ → ℤ × Lmb
lmb_reserve lmb base size type tag =
    let (ret, reserved) = lmb_add_region lmb.reserved base size type tag in
    if not (type == lmb_boot) && not (type == lmb_runtime)
    then (negsuc 0, lmb)
    else if not (lmb_is_known lmb base size)
    then (negsuc 0, lmb)
    else (ret, record lmb { reserved = reserved })

pub overlaps_from : ℕ → ℕ → ℕ → ℕ → (ℕ → LmbProperty) → Option ℕ
overlaps_from base size zero i region = none
overlaps_from base size (suc n) i region =
    let rest = overlaps_from base size n (i + 1) region in
    if lmb_addrs_overlap base size (region i).base (region i).size then some i else rest

-- `none` is the source's -1.
pub lmb_overlaps_region : LmbRegion → ℕ → ℕ → Option ℕ
unfolding overlaps_from
lmb_overlaps_region rgn base size = overlaps_from base size rgn.cnt 0 rgn.region

-- How the `while` loop over one memory region ends: without fuel, by its test or `break`, or by
-- `return` with the address and the new tables.
pub data Search : Type 0 where
  out_of_fuel : Search
  next_region : Search
  returns : ℕ → Lmb → Search

module _ (size align max_addr type tag : ℕ) where
  pub take_area : Lmb → ℕ → Search
  take_area lmb base =
      let (ret, reserved) = lmb_add_region lmb.reserved base size type tag in
      if is_neg ret
      then returns 0 (record lmb { reserved = reserved })
      else returns base (record lmb { reserved = reserved })

  pub search_down : ℕ → Lmb → ℕ → ℕ → Search
  unfolding take_area
  search_down zero lmb lmbbase base = out_of_fuel
  search_down (suc fuel) lmb lmbbase base =
      if not (base == 0) && leb lmbbase base
      then (elim (lmb_overlaps_region lmb.reserved base size) [
        | none ↦ take_area lmb base
        | some j ↦
            let res_base = (lmb.reserved.region j).base in
            let rest = search_down fuel lmb lmbbase (lmb_align_down (sub64 res_base size) align) in
            if ltb res_base size then next_region else rest
      ])
      else next_region

  -- The first `base` tried in a memory region; `none` is `continue`.
  pub first_base : LmbProperty → Option ℕ
  first_base p =
      if ltb p.size size
      then none
      else if max_addr == lmb_alloc_anywhere
      then some (lmb_align_down (sub64 (add64 p.base p.size) size) align)
      else if ltb p.base max_addr
      then some (lmb_align_down (sub64 (min (add64 p.base p.size) max_addr) size) align)
      else none

  -- `for (i = n - 1; i >= 0; i--)`; the fuel of a region's search is its first base and one more.
  pub alloc_from : ℕ → Lmb → Option (ℕ × Lmb)
  unfolding search_down first_base
  alloc_from zero lmb = some (0, lmb)
  alloc_from (suc n) lmb =
      let rest = alloc_from n lmb in
      let p = lmb.memory.region n in
      elim (first_base p) [
        | none ↦ rest
        | some base ↦ elim (search_down (suc base) lmb p.base base) [
          | out_of_fuel ↦ none
          | next_region ↦ rest
          | returns addr lmb' ↦ some (addr, lmb')
        ]
      ]

-- `__lmb_alloc_base`: the address, 0 for a failure, and the new tables. `none` is a search that runs
-- out of fuel.
pub lmb_alloc_base_unchecked : Lmb → ℕ → ℕ → ℕ → ℕ → ℕ → Option (ℕ × Lmb)
unfolding alloc_from
lmb_alloc_base_unchecked lmb size align max_addr type tag =
    alloc_from (lmb_align_up size align) align max_addr type tag lmb.memory.cnt lmb

pub lmb_alloc_base : Lmb → ℕ → ℕ → ℕ → ℕ → ℕ → Option (ℕ × Lmb)
unfolding lmb_alloc_base_unchecked
lmb_alloc_base lmb size align max_addr type tag =
    if type == lmb_mmio
    then some (0, lmb)
    else lmb_alloc_base_unchecked lmb size align max_addr type tag

pub lmb_alloc : Lmb → ℕ → ℕ → ℕ → ℕ → Option (ℕ × Lmb)
unfolding lmb_alloc_base
lmb_alloc lmb size align type tag = lmb_alloc_base lmb size align lmb_alloc_anywhere type tag

pub lmb_size_bytes : LmbRegion → ℕ → ℕ
lmb_size_bytes rgn region_nr = (rgn.region region_nr).size

-- ===== src/Lmb/Ops/ReserveTests.antt =====
-- The theorems on `lmb_free`, `lmb_reserve` and the rounding, at the tables of the tests.
use shield_tv_loader.Base.{
  ℕ, ◌+◌, ◌-◌, ◌^◌, ◌≤◌, ◌≡◌, ◌≢◌, ◌↔◌, refl, ◌⊎◌, inr, true, some, arith, negsuc, u64_mod, IsFloor,
}
use shield_tv_loader.Lmb.{
  lmb_add_region, new_property, lmb_boot, lmb_runtime, lmb_alloc_32bit, LmbProperty,
}
use shield_tv_loader.Lmb.Add.Result.{Outcome}
use shield_tv_loader.Lmb.Ops.{
  lmb_free, lmb_reserve, lmb_is_known, lmb_align_up, lmb_align_down, first_base,
}
use shield_tv_loader.Lmb.Ops.Align.{align_down-IsFloor, align_up-IsCeiling, IsCeiling}
use shield_tv_loader.Lmb.Ops.Returned.{HoldsRange, Returned, lmb_free-Returned}
use shield_tv_loader.Lmb.Ops.Known.{lmb_is_known_iff, lmb_reserve_cases}
use shield_tv_loader.Lmb.Ops.Limit.{first_base_wraps}
use shield_tv_loader.Lmb.Ops.Board.{ramr, fbrq, bank, board, board_memory-IsWf, board_reserved-IsWf}

align_down-IsFloor_example : IsFloor 12 0xbfff_ff00 (lmb_align_down 0xbfff_ff00 (2 ^ 12))
align_down-IsFloor_example = align_down-IsFloor 12 0xbfff_ff00 (omega arith) (omega arith)

align_up-IsCeiling_example : IsCeiling 12 0x1001 (lmb_align_up 0x1001 (2 ^ 12))
align_up-IsCeiling_example = align_up-IsCeiling 12 0x1001 (omega arith) (omega arith)

page_up : lmb_align_up 0x100 0x1000 ≡ 0x1000
unfolding lmb_align_up
page_up = refl

lmb_free-Returned_example :
    let r = lmb_free board 0x92ca_7000 0x100 0x1000 in
    (r.1.memory ≡ board.memory)
    × Returned board.reserved 0x92ca_7000 (lmb_align_up 0x100 0x1000) (r.0, r.1.reserved)
lmb_free-Returned_example =
    lmb_free-Returned board 0x92ca_7000 0x100 0x1000 board_reserved-IsWf
      (λ k t. ground (arith, t.touch, t.inside)) (omega (arith, page_up)) (omega (arith, page_up))

lmb_is_known_iff_example :
    (lmb_is_known board 0x9000_0000 0x1000 ≡ true)
    ↔ ((i : ℕ) × HoldsRange board.memory 0x9000_0000 0x1000 i)
lmb_is_known_iff_example =
    lmb_is_known_iff board 0x9000_0000 0x1000 board_memory-IsWf (omega arith) (omega arith)

lmb_reserve_cases_example :
    let r = lmb_reserve board 0x9000_0000 0x1000 lmb_boot ramr in
    ((r ≡ (negsuc 0, board))
      × (((lmb_boot ≢ lmb_boot) × (lmb_boot ≢ lmb_runtime))
          ⊎ ((i : ℕ) → ¬ HoldsRange board.memory 0x9000_0000 0x1000 i)))
    ⊎ (((lmb_boot ≡ lmb_boot) ⊎ (lmb_boot ≡ lmb_runtime))
        × ((i : ℕ) × HoldsRange board.memory 0x9000_0000 0x1000 i)
        × (let added = lmb_add_region board.reserved 0x9000_0000 0x1000 lmb_boot ramr in
            r ≡ (added.0, record board { reserved = added.1 }))
        × Outcome board.reserved
            (new_property 0x9000_0000 0x1000 lmb_boot ramr)
            (r.0, r.1.reserved))
lmb_reserve_cases_example =
    lmb_reserve_cases board 0x9000_0000 0x1000 lmb_boot ramr board_memory-IsWf
      (inr board_reserved-IsWf) (omega arith) (omega arith) (λ i h. ground arith)

-- Eight gigabytes of memory from 1 GiB on, and a request for five below 4 GiB.
abbrev big_bank : LmbProperty
big_bank = record bank { base = 0x4000_0000; size = 0x2_0000_0000 }

first_base_wraps_example :
    (base : ℕ) × (first_base 0x1_4000_0000 (2 ^ 12) lmb_alloc_32bit lmb_boot fbrq big_bank
      ≡ some base)
    × IsFloor 12 (u64_mod + lmb_alloc_32bit - 0x1_4000_0000) base
    × (0x2_4000_0000 ≤ base)
first_base_wraps_example =
    first_base_wraps 12 0x1_4000_0000 lmb_alloc_32bit lmb_boot fbrq big_bank (omega arith)
      (omega arith) (omega arith) (omega arith) (omega arith) (omega arith)

-- ===== src/Lmb/Ops/Tests.antt =====
-- Runs of lmb.c, and its theorems at the tables of a board with one bank of memory.
use shield_tv_loader.Base.{ℕ, ◌+◌, ◌^◌, ◌≤◌, ◌≡◌, refl, ◌⊎◌, inr, false, some, arith, pos, is_neg}
use shield_tv_loader.Lmb.{Lmb, lmb_boot, lmb_runtime, lmb_init, lmb_add_region, new_property}
use shield_tv_loader.Lmb.{merges_next, lmb_alloc_32bit}
use shield_tv_loader.Lmb.Ops.{lmb_overlaps_region, lmb_align_down}
use shield_tv_loader.Lmb.Sorted.{Covers, Holds}
use shield_tv_loader.Lmb.Init.{lmb_init-IsTable}
use shield_tv_loader.Lmb.Add.Result.{IsTable, Outcome, lmb_add_region-Outcome}
use shield_tv_loader.Lmb.Add.Defects.{
  lmb_add_region-lost, lmb_add_region-revived, lmb_add_region-overlap,
}
use shield_tv_loader.Lmb.Ops.{
  lmb_add, lmb_reserve, lmb_free, lmb_alloc_base, lmb_align_up, lmb_is_known,
}
use shield_tv_loader.Lmb.Ops.Alloc.{lmb_alloc_base_total}
use shield_tv_loader.Lmb.Ops.Allocation.{Allocated, lmb_alloc_base-Allocated}
use shield_tv_loader.Lmb.Ops.Twice.{Request, IsSensible, allocate, rounded, allocate_twice}
use shield_tv_loader.Lmb.Ops.Board.{
  ramr, fbmm, fbrq, board, empty_lmb, board_memory-IsWf, board_reserved-IsWf, after, addr_of, three,
  three-IsWf,
}

-- The steps of `main` on this board.
boot_run :
    let l0 = lmb_init empty_lmb in
    let l1 = (lmb_add l0 0x8000_0000 0x4000_0000 ramr).1 in
    let (ret, l2) = lmb_reserve l1 0x92ca_6000 0x7e_9000 lmb_runtime fbmm in
    (ret ≡ pos 0) × (l2.reserved.cnt ≡ 1) × (◌≡◌ {A = ℕ} (l2.reserved.region 0).base 0x92ca_6000)
unfolding lmb_init lmb_add lmb_reserve lmb_is_known lmb_add_region
boot_run = (refl, refl, refl)

-- An allocation below 4 GiB lies at the top of memory. Freed and asked for again, it is the same.
alloc_run :
    let a = lmb_alloc_base board 0x100 4096 lmb_alloc_32bit lmb_boot fbrq in
    let l1 = after board a in
    let (ret, l2) = lmb_free l1 (addr_of a) 0x100 4096 in
    (◌≡◌ {A = ℕ} (addr_of a) 0xbfff_f000)
    × (l1.reserved.cnt ≡ 3)
    × (ret ≡ pos 0)
    × (addr_of (lmb_alloc_base l2 0x100 4096 lmb_alloc_32bit lmb_boot fbrq) ≡ addr_of a)
unfolding lmb_alloc_base lmb_add_region lmb_free lmb_overlaps_region lmb_align_down lmb_align_up
alloc_run = (refl, refl, refl, refl)

lmb_add_region-Outcome_example :
    Outcome board.reserved
      (new_property 0xa000_1000 0x1000 lmb_boot ramr)
      (lmb_add_region board.reserved 0xa000_1000 0x1000 lmb_boot ramr)
unfolding new_property
lmb_add_region-Outcome_example =
    lmb_add_region-Outcome board.reserved 0xa000_1000 0x1000 lmb_boot ramr (inr board_reserved-IsWf)
      (omega arith) (λ i h. ground arith)

lmb_add_region-lost_example :
    let r = lmb_add_region three 0x9fff_f000 0x1000 lmb_boot fbmm in
    (is_neg r.0 ≡ false)
    × ((a : ℕ) → Holds (new_property 0x9fff_f000 0x1000 lmb_boot fbmm) a → ¬ Covers r.1 a)
unfolding new_property
lmb_add_region-lost_example =
    lmb_add_region-lost three 0x9fff_f000 0x1000 lmb_boot fbmm three-IsWf (omega arith)
      (record { inside = omega arith; touch = refl; same_tag = refl; same_type = refl }) refl
      (omega arith) (λ i h. ground arith)

lmb_add_region-revived_example :
    lmb_add_region
      (record { cnt = 0; region = board.reserved.region })
      0xa000_0000
      0x1000
      lmb_boot
      fbrq
    ≡ (pos 0, record { cnt = 1; region = board.reserved.region })
unfolding merges_next
lmb_add_region-revived_example =
    lmb_add_region-revived board.reserved.region 0xa000_0000 0x1000 lmb_boot fbrq refl (omega arith)

lmb_add_region-overlap_example :
    let r = lmb_add_region board.reserved 0x9348_f000 0xd00_0000 lmb_runtime fbmm in
    (r.0 ≡ pos 1) × Holds (r.1.region 0) 0xa000_0000 × Holds (r.1.region 1) 0xa000_0000
lmb_add_region-overlap_example =
    lmb_add_region-overlap board.reserved 0xd00_0000 board_reserved-IsWf (omega arith) (omega arith)
      (omega arith) (omega arith)

lmb_init-IsTable_example : IsTable (lmb_init board).reserved
lmb_init-IsTable_example = (lmb_init-IsTable board).1

page_up : lmb_align_up 0x100 (2 ^ 12) ≡ 0x1000
unfolding lmb_align_up
page_up = refl

lmb_alloc_base_total_example :
    (addr : ℕ) × (lmb' : Lmb) × (lmb_alloc_base board 0x100 4096 lmb_alloc_32bit lmb_boot fbrq
      ≡ some (addr, lmb'))
lmb_alloc_base_total_example = lmb_alloc_base_total board 0x100 4096 lmb_alloc_32bit lmb_boot fbrq

abbrev allocated : Lmb
allocated = after board (lmb_alloc_base board 0x100 (2 ^ 12) lmb_alloc_32bit lmb_boot fbrq)

alloc_result :
    lmb_alloc_base board 0x100 (2 ^ 12) lmb_alloc_32bit lmb_boot fbrq
    ≡ some (0xbfff_f000, allocated)
unfolding lmb_alloc_base lmb_add_region lmb_overlaps_region lmb_align_down lmb_align_up
alloc_result = refl

lmb_alloc_base-Allocated_example :
    ((◌≡◌ {A = ℕ} 0xbfff_f000 0) × (allocated ≡ board))
    ⊎ Allocated 12
        (lmb_align_up 0x100 (2 ^ 12))
        lmb_alloc_32bit
        lmb_boot
        fbrq
        board
        0xbfff_f000
        allocated
lmb_alloc_base-Allocated_example =
    lmb_alloc_base-Allocated board 12 0x100 lmb_alloc_32bit lmb_boot fbrq 0xbfff_f000 allocated
      (omega arith) board_memory-IsWf (inr board_reserved-IsWf) (omega (arith, page_up))
      (λ _. omega (arith, page_up)) alloc_result

abbrev page_request : Request
page_request = record {
  k = 12;
  size = 0x100;
  max_addr = lmb_alloc_32bit;
  type = lmb_boot;
  tag = fbrq;
}

page_request-IsSensible : IsSensible page_request
page_request-IsSensible = record {
  word = omega arith;
  pos_size = omega (arith, page_up);
  limit = λ _. omega (arith, page_up);
}

abbrev allocated_twice : Lmb
allocated_twice = after allocated (allocate allocated page_request)

first_request : allocate board page_request ≡ some (0xbfff_f000, allocated)
first_request = alloc_result

second_request : allocate allocated page_request ≡ some (0xbfff_e000, allocated_twice)
unfolding lmb_alloc_base lmb_add_region lmb_overlaps_region lmb_align_down lmb_align_up
second_request = refl

allocate_twice_example :
    (0xbfff_f000 + rounded page_request ≤ 0xbfff_e000)
    ⊎ (0xbfff_e000 + rounded page_request ≤ 0xbfff_f000)
allocate_twice_example =
    allocate_twice board allocated allocated_twice page_request page_request 0xbfff_f000 0xbfff_e000
      board_memory-IsWf (inr board_reserved-IsWf) (λ k t. ground (arith, t.touch, t.inside))
      page_request-IsSensible page_request-IsSensible first_request (omega arith) second_request
      (omega arith)

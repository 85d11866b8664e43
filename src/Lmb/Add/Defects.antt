-- ===== src/Lmb/Add/Defects.antt =====
-- Tables and ranges on which `lmb_add_region` reports success and does not do what it means to.
use shield_tv_loader.Base.{
  ℕ, zero, suc, ◌+◌, ◌≤◌, ◌<◌, ◌≡◌, ◌≢◌, refl, true, false, arith, u64_mod, pos, is_neg, update,
  add64-eq, ltb-false,
}
use shield_tv_loader.Lmb.{
  LmbProperty, LmbRegion, stopped, coalesce_scan, new_property, merges_next, merge_next,
  lmb_add_region, after_scan, grow_up,
}
use shield_tv_loader.Lmb.Sorted.{IsWf, IsClear, IsSolid, end_of, Covers, Holds}
use shield_tv_loader.Lmb.Add.Merge.{merge_next-SameCover, Touch}
use shield_tv_loader.Lmb.Add.Result.{
  IsWf-is_dummy, merge_next-count_pos, finish_grown, merge_next-kept,
}

merges_next-true : (rgn : LmbRegion) (k : ℕ) → IsWf rgn → Touch rgn k → merges_next rgn k ≡ true
unfolding merges_next
merges_next-true rgn k w t = ground (
  arith,
  t.inside,
  t.touch,
  t.same_tag,
  t.same_type,
  w.room,
  w.sorted.solid k,
  w.sorted.solid (k + 1),
)

-- A scan that meets a region of another kind above the new one stops there.
coalesce_scan-other :
    (base size type tag n : ℕ) (region : ℕ → LmbProperty)
    → 0 < n
    → IsSolid (new_property base size type tag)
    → IsSolid (region 0)
    → base + size ≡ (region 0).base
    → tag ≢ (region 0).tag
    → coalesce_scan base size type tag n 0 region ≡ stopped 0 region 0
unfolding coalesce_scan new_property
coalesce_scan-other base size type tag zero region h solid first touch other = absurd (omega arith)
coalesce_scan-other base size type tag (suc n) region h solid first touch other =
    ground (arith, add64-eq base size, add64-eq (region 0).base (region 0).size)

-- A scan that meets a region of its own kind below the new one grows it.
coalesce_scan-same :
    (size n : ℕ) (region : ℕ → LmbProperty)
    → 0 < n
    → 0 < size
    → IsSolid (region 0)
    → end_of (region 0) + size < u64_mod
    → let p = region 0 in
      coalesce_scan (end_of p) size p.type p.tag n 0 region
      ≡ stopped 0 (update region 0 (grow_up (end_of p) size p.type p.tag p)) 1
unfolding coalesce_scan new_property
coalesce_scan-same size zero region h pos_size first fits = absurd (omega arith)
coalesce_scan-same size (suc n) region h pos_size first fits =
    ground (arith, add64-eq (end_of (region 0)) size, add64-eq (region 0).base (region 0).size)

-- The new range lies right below the first region, which has another tag and touches the second, of
-- its own tag and type. Then those two are merged, the result is 1, and no address of the new range is
-- covered.
pub lmb_add_region-lost :
    (rgn : LmbRegion) (base size type tag : ℕ)
    → IsWf rgn
    → IsSolid (new_property base size type tag)
    → Touch rgn 0
    → base + size ≡ (rgn.region 0).base
    → tag ≢ (rgn.region 0).tag
    → IsClear base size rgn.cnt rgn.region
    → let r = lmb_add_region rgn base size type tag in
      (is_neg r.0 ≡ false) × ((a : ℕ) → Holds (new_property base size type tag) a → ¬ Covers r.1 a)
unfolding lmb_add_region after_scan new_property
lmb_add_region-lost rgn base size type tag w solid t touch other clear =
    let merged = merges_next-true rgn 0 w t in
    rw
      (
        IsWf-is_dummy rgn w,
        coalesce_scan-other base size type tag rgn.cnt rgn.region w.nonempty solid
            (w.sorted.solid 0 w.nonempty) touch other,
        finish_grown base size type tag (merge_next rgn 0 0) (merge_next-count_pos rgn 0 0 merged),
      )
      (refl, λ a held c. uncovered a held ((merge_next-SameCover rgn 0 0 w).only a c))
  where
    uncovered : (a : ℕ) → Holds (new_property base size type tag) a → ¬ Covers rgn a
    uncovered a held (i, h, inside) = ground (arith, clear i h)

-- A table that has lost its last region keeps that region's old entry at the head of its array. A new
-- range that does not lie below it is then reported as added, and the old entry is in use again instead
-- of the new range, unless it touches the next old entry.
pub lmb_add_region-revived :
    (region : ℕ → LmbProperty) (base size type tag : ℕ)
    → merges_next (record { cnt = 0; region = region }) 0 ≡ false
    → (region 0).base ≤ base
    → lmb_add_region (record { cnt = 0; region = region }) base size type tag
      ≡ (pos 0, record { cnt = 1; region = region })
unfolding lmb_add_region
lmb_add_region-revived region base size type tag apart above =
    rw (merge_next-kept (record { cnt = 0; region = region }) 0 0 apart)
      (rw (ltb-false base (region 0).base above))

-- The first region grown over the start of the second does not merge with it.
overlap_kept :
    (rgn : LmbRegion) (size : ℕ)
    → IsWf rgn
    → 1 < rgn.cnt
    → end_of (rgn.region 0) + size < u64_mod
    → (rgn.region 1).base < end_of (rgn.region 0) + size
    → let p = rgn.region 0 in
      merges_next
        (record rgn { region = update rgn.region 0 (grow_up (end_of p) size p.type p.tag p) })
        0
      ≡ false
unfolding merges_next grow_up
overlap_kept rgn size w two fits into = ground (
  arith,
  w.sorted.solid 0,
  w.sorted.solid 1,
  w.sorted.ordered 0,
  add64-eq (rgn.region 0).size size,
)

-- In an ordered table with a gap between the first region and the second, where the new range
-- begins at the end of the first, has its tag and type, does not wrap and reaches into the second,
-- lmb_add_region returns 1 and both regions hold the first address of the second.
pub lmb_add_region-overlap :
    (rgn : LmbRegion) (size : ℕ)
    → IsWf rgn
    → 1 < rgn.cnt
    → let p = rgn.region 0 in
      end_of p < (rgn.region 1).base
      → end_of (rgn.region 0) + size < u64_mod
      → (rgn.region 1).base < end_of (rgn.region 0) + size
      → let r =
          lmb_add_region rgn (end_of (rgn.region 0)) size (rgn.region 0).type (rgn.region 0).tag in
        (r.0 ≡ pos 1)
        × Holds (r.1.region 0) (rgn.region 1).base
        × Holds (r.1.region 1) (rgn.region 1).base
unfolding lmb_add_region after_scan grow_up
lmb_add_region-overlap rgn size w two gap fits into =
    let first = w.sorted.solid 0 w.nonempty in
    let p = rgn.region 0 in
    rw
      (
        IsWf-is_dummy rgn w,
        coalesce_scan-same size rgn.cnt rgn.region w.nonempty (omega arith) first fits,
        merge_next-kept
            (record rgn { region = update rgn.region 0 (grow_up (end_of p) size p.type p.tag p) }) 0
            1 (overlap_kept rgn size w two fits into),
      )
      (
        refl,
        (ground (arith, w.sorted.ordered 0), ground (arith, add64-eq p.size size)),
        (omega arith, ground (arith, w.sorted.solid 1)),
      )

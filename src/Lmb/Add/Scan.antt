-- ===== src/Lmb/Add/Scan.antt =====
-- The first loop of `lmb_add_region`: how it ends where the new region overlaps none.
use shield_tv_loader.Base.{
  ℕ, zero, suc, ◌+◌, ◌<◌, ◌≡◌, inl, inr, true, arith, update, add64-eq, Bool-cases, u64_mod, is_neg,
}
use shield_tv_loader.Lmb.{
  LmbProperty, Scan, stopped, coalesce_scan, new_property, same_kind, grow_down, grow_up,
  lmb_addrs_adjacent, is_pos,
}
use shield_tv_loader.Lmb.Sorted.{IsSorted, IsClear, IsSolid, end_of, IsApart-overlap}

module _ (base size type tag : ℕ) where
  -- The loop stops with the table as it was, or with region `k` grown down or up to hold the new one.
  pub data Scanned (n : ℕ) (region : ℕ → LmbProperty) : Scan → Type 0 where
    kept : (k : ℕ) → Scanned n region (stopped k region 0)
    lowered :
        (k : ℕ)
        → k < n
        → base + size ≡ (region k).base
        → Scanned n region (stopped k (update region k (grow_down base size type tag (region k))) 1)
    raised :
        (k : ℕ)
        → k < n
        → end_of (region k) ≡ base
        → Scanned n region (stopped k (update region k (grow_up base size type tag (region k))) 1)

  adjacent_lower :
      (p : LmbProperty)
      → base + size < u64_mod
      → IsSolid p
      → is_pos (lmb_addrs_adjacent base size p.base p.size) ≡ true
      → base + size ≡ p.base
  unfolding lmb_addrs_adjacent is_pos
  adjacent_lower p fits solid e = ground (arith, add64-eq base size)

  adjacent_upper :
      (p : LmbProperty)
      → base + size < u64_mod
      → IsSolid p
      → is_neg (lmb_addrs_adjacent base size p.base p.size) ≡ true
      → end_of p ≡ base
  unfolding lmb_addrs_adjacent
  adjacent_upper p fits solid e = ground (arith, add64-eq p.base p.size)

  module _ (n : ℕ) (region : ℕ → LmbProperty) (s : IsSorted n region)
      (solid : IsSolid (new_property base size type tag)) (clear : IsClear base size n region) where
    pub coalesce_scan-Scanned :
        (rounds i : ℕ)
        → i + rounds ≡ n
        → Scanned n region (coalesce_scan base size type tag rounds i region)
    unfolding coalesce_scan new_property
    coalesce_scan-Scanned zero i e = kept i
    coalesce_scan-Scanned (suc rounds) i e =
        let p = region i in
        let h : i < n = omega arith in
        let same = same_kind base size type tag p in
        let adjacent = lmb_addrs_adjacent base size p.base p.size in
        rw (IsApart-overlap base size p solid.1 (s.solid i h) (clear i h))
          (elim (Bool-cases (is_pos adjacent)) [
            | inl below ↦ rw below (elim (Bool-cases same) [
              | inl e ↦ rw e (lowered i h (adjacent_lower p solid.1 (s.solid i h) below))
              | inr e ↦ rw e (kept i)
            ])
            | inr above ↦ rw above (elim (Bool-cases (is_neg adjacent)) [
              | inl up ↦ rw up (elim (Bool-cases same) [
                | inl e ↦ rw e (raised i h (adjacent_upper p solid.1 (s.solid i h) up))
                | inr e ↦ rw e (kept i)
              ])
              | inr far ↦ rw far (coalesce_scan-Scanned rounds (i + 1) (omega arith))
            ])
          ])

-- ===== src/Lmb/Ops/Placed.antt =====
-- What the allocation finds: an aligned range of one memory region that no reservation touches.
use Prim.Native.Nat.{min}
use shield_tv_loader.Base.{
  ℕ, zero, suc, ◌+◌, ◌*◌, ◌^◌, ◌≤◌, ◌<◌, ◌≡◌, ◌≢◌, refl, ap, subst, ◌⊎◌, inl, inr, false, not, ◌&&◌,
  none, some, ltb, leb, ◌==◌, arith, Bool-cases, Option-cases, u64_mod, add64, sub64, is_neg,
}
use shield_tv_loader.Lmb.{LmbProperty, LmbRegion, Lmb, lmb_add_region, new_property}
use shield_tv_loader.Lmb.Sorted.{IsClear, IsSolid, end_of, overlap-IsApart}
use shield_tv_loader.Lmb.Add.Result.{
  IsTable, Outcome, lmb_add_region-Outcome, is_dummy-cnt, is_dummy-size,
}
use shield_tv_loader.Lmb.Ops.{
  Search, out_of_fuel, next_region, returns, lmb_overlaps_region, search_down, take_area,
  first_base, lmb_align_down,
}
use shield_tv_loader.Lmb.Ops.Align.{align_down-IsFloor}
use shield_tv_loader.Lmb.Ops.Alloc.{overlaps_from-none, next_base_lt}

IsTable-end :
    (rgn : LmbRegion) → IsTable rgn → (i : ℕ) → i < rgn.cnt → end_of (rgn.region i) < u64_mod
IsTable-end rgn (inl (dummy, small)) i h =
    ground (arith, is_dummy-cnt rgn dummy, is_dummy-size rgn dummy)
IsTable-end rgn (inr w) i h = (w.sorted.solid i h).1

-- Where the search of the overlaps finds none, the range is clear.
pub overlaps_none-IsClear :
    (rgn : LmbRegion) (base size : ℕ)
    → IsTable rgn
    → base + size < u64_mod
    → lmb_overlaps_region rgn base size ≡ none
    → IsClear base size rgn.cnt rgn.region
unfolding lmb_overlaps_region
overlaps_none-IsClear rgn base size t fits e i h =
    overlap-IsApart base size (rgn.region i) fits (IsTable-end rgn t i h)
      (overlaps_from-none base size rgn.cnt 0 rgn.region i e (omega arith) (omega arith))

-- The range at `addr` lies in `p` under the limit, at a multiple of 2 ^ k, and apart from all
-- reservations; the new tables are those that `lmb_add_region` gives, on success.
pub record Placed (k size max_addr type tag : ℕ) (lmb : Lmb) (p : LmbProperty) (addr : ℕ)
    (lmb' : Lmb) : Type 0 where
  pub quotient : ℕ
  pub aligned : addr ≡ quotient * 2 ^ k
  pub low : p.base ≤ addr
  pub high : addr + size ≤ end_of p
  pub limited : max_addr ≢ 0 → addr + size ≤ max_addr
  pub clear : IsClear addr size lmb.reserved.cnt lmb.reserved.region
  pub accepted : is_neg (lmb_add_region lmb.reserved addr size type tag).0 ≡ false
  pub stored : lmb' ≡ record lmb { reserved = (lmb_add_region lmb.reserved addr size type tag).1 }

module _ (k size max_addr type tag : ℕ) (small : k < 64) where
  -- What a search may return: 0 with the tables as they were, or a range.
  abbrev pub Good : Lmb → LmbProperty → Search → Type 0
  Good lmb p out_of_fuel = Unit {0}
  Good lmb p next_region = Unit {0}
  Good lmb p (returns addr lmb') =
      ((addr ≡ 0) × (lmb' ≡ lmb)) ⊎ ((addr ≢ 0) × Placed k size max_addr type tag lmb p addr lmb')

  -- What the loop keeps true of its candidate.
  pub record Candidate (p : LmbProperty) (base : ℕ) : Type 0 where
    pub quotient : ℕ
    pub aligned : base ≡ quotient * 2 ^ k
    pub high : base + size ≤ end_of p
    pub limited : max_addr ≢ 0 → base + size ≤ max_addr

  module _ (lmb : Lmb) (p : LmbProperty) (t : IsTable lmb.reserved) (solid : IsSolid p)
      (pos_size : 0 < size) where
    add_region-Outcome :
        (base : ℕ)
        → IsSolid (new_property base size type tag)
        → IsClear base size lmb.reserved.cnt lmb.reserved.region
        → Outcome lmb.reserved
            (new_property base size type tag)
            (lmb_add_region lmb.reserved base size type tag)
    add_region-Outcome base = lmb_add_region-Outcome lmb.reserved base size type tag t

    lower :
        (base j : ℕ)
        → Candidate p base
        → lmb_overlaps_region lmb.reserved base size ≡ some j
        → ltb (lmb.reserved.region j).base size ≡ false
        → Candidate p (lmb_align_down (sub64 (lmb.reserved.region j).base size) (2 ^ k))
    lower base j c taken ok =
        let f =
          align_down-IsFloor k (sub64 (lmb.reserved.region j).base size) small (omega arith) in
        let below = next_base_lt size (2 ^ k) max_addr type tag lmb.reserved base j taken ok in
        record {
          quotient = f.quotient;
          aligned = f.multiple;
          high = omega (arith, below, c.high);
          limited = λ ne. omega (arith, below, c.limited ne);
        }

    take_area-Good :
        (base : ℕ)
        → Candidate p base
        → p.base ≤ base
        → base ≢ 0
        → lmb_overlaps_region lmb.reserved base size ≡ none
        → Good lmb p (take_area size (2 ^ k) max_addr type tag lmb base)
    unfolding take_area new_property
    take_area-Good base c low ne free =
        let added = lmb_add_region lmb.reserved base size type tag in
        let fits : base + size < u64_mod = omega (arith, c.high) in
        let clear = overlaps_none-IsClear lmb.reserved base size t fits free in
        elim (Bool-cases (is_neg added.0)) [
          | inl full ↦
              let outcome = add_region-Outcome base (ground arith) clear in
              rw full (inl (refl, ap (λ rsv. record lmb { reserved = rsv }) (outcome.full full).0))
          | inr ok ↦ rw ok (
              inr (
                ne,
                record {
                  quotient = c.quotient;
                  aligned = c.aligned;
                  low = low;
                  high = c.high;
                  limited = c.limited;
                  clear = clear;
                  accepted = ok;
                  stored = refl;
                },
              ))
        ]

    pub search_down-Good :
        (fuel base : ℕ)
        → Candidate p base
        → Good lmb p (search_down size (2 ^ k) max_addr type tag fuel lmb p.base base)
    unfolding search_down
    search_down-Good zero base c = tt
    search_down-Good (suc fuel) base c = elim (Bool-cases (not (base == 0) && leb p.base base)) [
      | inr stop ↦ rw stop tt
      | inl go ↦ rw go (elim (Option-cases (lmb_overlaps_region lmb.reserved base size)) [
        | inl free ↦ rw free (take_area-Good base c (ground arith) (ground arith) free)
        | inr (j, taken) ↦
            let next = lmb_align_down (sub64 (lmb.reserved.region j).base size) (2 ^ k) in
            rw taken (elim (Bool-cases (ltb (lmb.reserved.region j).base size)) [
              | inl low ↦ rw low tt
              | inr ok ↦ rw ok (search_down-Good fuel next (lower base j c taken ok))
            ])
      ])
    ]

  top_Candidate :
      (p : LmbProperty) (top : ℕ)
      → size ≤ top
      → top ≤ end_of p
      → top < u64_mod
      → (max_addr ≢ 0 → top ≤ max_addr)
      → Candidate p (lmb_align_down (sub64 top size) (2 ^ k))
  top_Candidate p top fits high word limit =
      let f = align_down-IsFloor k (sub64 top size) small (omega arith) in
      record {
        quotient = f.quotient;
        aligned = f.multiple;
        high = omega (arith, f.below);
        limited = λ ne. omega (arith, f.below, limit ne);
      }

  pub first_base-Candidate :
      (p : LmbProperty) (base : ℕ)
      → IsSolid p
      → (max_addr ≢ 0 → size ≤ max_addr)
      → first_base size (2 ^ k) max_addr type tag p ≡ some base
      → Candidate p base
  unfolding first_base
  first_base-Candidate p base solid limit e = elim (Bool-cases (max_addr == 0)) [
    | inl any ↦ subst (Candidate p) (ground arith) (
        top_Candidate p (add64 p.base p.size) (ground arith) (ground arith) (ground arith)
          (λ ne. ground arith))
    | inr limited ↦ subst (Candidate p) (ground arith) (
        top_Candidate p (min (add64 p.base p.size) max_addr) (ground (arith, limit)) (ground arith)
          (ground arith) (λ ne. omega arith))
  ]

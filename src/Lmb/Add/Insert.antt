-- ===== src/Lmb/Add/Insert.antt =====
-- The insertion of `lmb_add_region`: the new region goes to its place in the order.
use shield_tv_loader.Base.{
  ℕ, zero, suc, ◌+◌, ◌-◌, ◌≤◌, ◌<◌, ◌≡◌, ◌⊎◌, inl, inr, ltb, leb, ◌==◌, ◌&&◌, if◌then◌else◌, arith,
  dec_lt, ℕ_discrete, fun_ext,
}
use shield_tv_loader.Lmb.{LmbProperty, LmbRegion, new_property, insert_region}
use shield_tv_loader.Lmb.Entries.{slot, slot-le, shift_up-get}
use shield_tv_loader.Lmb.Sorted.{IsSorted, IsWf, IsClear, Covered, Holds, end_of, base-le, IsSolid}

-- `rgn'` is in order and covers what `rgn` covers and the new region, and nothing else.
pub record Adds (n : ℕ) (region : ℕ → LmbProperty) (p : LmbProperty) (n' : ℕ)
    (region' : ℕ → LmbProperty) : Type 0 where
  pub sorted : IsSorted n' region'
  pub old : (a : ℕ) → Covered n region a → Covered n' region' a
  pub new : (a : ℕ) → Holds p a → Covered n' region' a
  pub only : (a : ℕ) → Covered n' region' a → Covered n region a ⊎ Holds p a

IsSorted-shorter : (n : ℕ) (region : ℕ → LmbProperty) → IsSorted (suc n) region → IsSorted n region
IsSorted-shorter n region s = record {
  solid = λ i h. s.solid i (omega arith);
  ordered = λ i h. s.ordered i (omega arith);
}

module _ (base size type tag : ℕ) where
  slot_lower :
      (n : ℕ) (region : ℕ → LmbProperty) (i : ℕ)
      → IsSorted n region
      → i < slot base size type tag n region
      → (region i).base ≤ base
  unfolding slot
  slot_lower zero region i s h = absurd (omega arith)
  slot_lower (suc n) region i s h =
      ground
        (arith, slot_lower n region i (IsSorted-shorter n region s), base-le (suc n) region i n s)

  slot_upper :
      (n : ℕ) (region : ℕ → LmbProperty) (i : ℕ)
      → slot base size type tag n region ≤ i
      → i < n
      → base < (region i).base
  unfolding slot
  slot_upper zero region i h below = absurd (omega arith)
  slot_upper (suc n) region i h below = ground (arith, slot_upper n region i)

  abbrev inserted : ℕ → ℕ → (ℕ → LmbProperty) → ℕ → LmbProperty
  inserted at n region j =
      if j == at
      then new_property base size type tag
      else if ltb at j && leb j n
      then region (j - 1)
      else region j

  insert_region-get :
      (rgn : LmbRegion) (j : ℕ)
      → 0 < rgn.cnt
      → IsSorted rgn.cnt rgn.region
      → (insert_region base size type tag rgn).region j
        ≡ inserted (slot base size type tag rgn.cnt rgn.region) rgn.cnt rgn.region j
  unfolding insert_region
  insert_region-get rgn j h s = ground (
    arith,
    shift_up-get base size type tag rgn.cnt rgn.region j,
    shift_up-get base size type tag rgn.cnt rgn.region 0,
    slot_lower rgn.cnt rgn.region 0 s,
    slot_upper rgn.cnt rgn.region 0,
  )

  module _ (n : ℕ) (region : ℕ → LmbProperty) (at : ℕ) (s : IsSorted n region) (le : at ≤ n)
      (solid : IsSolid (new_property base size type tag))
      (below : (i : ℕ) → i < at → end_of (region i) ≤ base)
      (above : (i : ℕ) → at ≤ i → i < n → base + size ≤ (region i).base) where
    inserted-IsSolid : (i : ℕ) → i < suc n → IsSolid (inserted at n region i)
    unfolding new_property
    inserted-IsSolid i h = ground (arith, s.solid i, s.solid (i - 1))

    inserted-ordered :
        (i : ℕ)
        → i + 1 < suc n
        → end_of (inserted at n region i) ≤ (inserted at n region (i + 1)).base
    unfolding new_property
    inserted-ordered i h = ground (arith, below i, above i, s.ordered i, s.ordered (i - 1))

    inserted_old : (a : ℕ) → Covered n region a → Covered (suc n) (inserted at n region) a
    inserted_old a (i, h, held) = elim (dec_lt i at) [
      | yes before ↦ (i, omega arith, ground arith)
      | no after ↦ (i + 1, omega arith, ground arith)
    ]

    inserted_only :
        (a : ℕ)
        → Covered (suc n) (inserted at n region) a
        → Covered n region a ⊎ Holds (new_property base size type tag) a
    inserted_only a (i, h, held) = elim (ℕ_discrete i at) [
      | yes here ↦ inr (ground arith)
      | no other ↦ elim (dec_lt i at) [
        | yes before ↦ inl (i, omega arith, ground arith)
        | no after ↦ inl (i - 1, omega arith, ground arith)
      ]
    ]

    inserted-Adds : Adds n region (new_property base size type tag) (suc n) (inserted at n region)
    inserted-Adds = record {
      sorted = record { solid = inserted-IsSolid; ordered = inserted-ordered };
      old = inserted_old;
      new = λ a h. (at, omega arith, ground arith);
      only = inserted_only;
    }

  pub cnt-insert_region :
      (rgn : LmbRegion) → IsWf rgn → (insert_region base size type tag rgn).cnt ≡ suc rgn.cnt
  unfolding insert_region
  cnt-insert_region rgn w = omega arith

  -- A region apart from all those of a table is added by the insertion.
  pub insert_region-Adds :
      (rgn : LmbRegion)
      → IsWf rgn
      → IsSolid (new_property base size type tag)
      → IsClear base size rgn.cnt rgn.region
      → let rgn' = insert_region base size type tag rgn in
        Adds rgn.cnt rgn.region (new_property base size type tag) rgn'.cnt rgn'.region
  unfolding new_property
  insert_region-Adds rgn w solid clear =
      let n = rgn.cnt in
      let region = rgn.region in
      let at = slot base size type tag n region in
      let le : at ≤ n = slot-le base size type tag n region in
      let regions : (insert_region base size type tag rgn).region ≡ inserted at n region =
        fun_ext λ j. insert_region-get rgn j w.nonempty w.sorted in
      rw (cnt-insert_region rgn w, regions)
        (inserted-Adds n region at w.sorted le solid
          (λ i h. ground (arith, clear i, slot_lower n region i w.sorted h, w.sorted.solid i))
          (λ i h below. ground (arith, clear i, slot_upper n region i h below)))

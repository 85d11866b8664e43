-- ===== src/Lmb/Remove.antt =====
-- `lmb_remove_region` and `lmb_coalesce_regions`: one region leaves the table.
use shield_tv_loader.Base.{
  ℕ, ◌+◌, ◌-◌, ◌≤◌, ◌<◌, ◌≡◌, ◌≢◌, ltb, leb, ◌&&◌, if◌then◌else◌, arith, u64_mod, dec_lt, sub64-eq,
  fun_ext,
}
use shield_tv_loader.Lmb.{LmbProperty, LmbRegion, lmb_remove_region}
use shield_tv_loader.Lmb.Entries.{shift_down-get}
use shield_tv_loader.Lmb.Sorted.{IsSorted, Covered, Holds, end_of, IsSolid}

abbrev pub removed : ℕ → ℕ → (ℕ → LmbProperty) → ℕ → LmbProperty
removed r n region j = if leb r j && ltb (j + 1) n then region (j + 1) else region j

lmb_remove_region-get :
    (rgn : LmbRegion) (r j : ℕ)
    → r < rgn.cnt
    → rgn.cnt < u64_mod
    → (lmb_remove_region rgn r).region j ≡ removed r rgn.cnt rgn.region j
unfolding lmb_remove_region
lmb_remove_region-get rgn r j h small =
    ground (arith, shift_down-get (rgn.cnt - 1 - r) r rgn.region j, sub64-eq rgn.cnt 1)

pub lmb_remove_region-cnt :
    (rgn : LmbRegion) (r : ℕ)
    → r < rgn.cnt
    → rgn.cnt < u64_mod
    → (lmb_remove_region rgn r).cnt ≡ rgn.cnt - 1
unfolding lmb_remove_region
lmb_remove_region-cnt rgn r h small = omega arith

pub lmb_remove_region-region :
    (rgn : LmbRegion) (r : ℕ)
    → r < rgn.cnt
    → rgn.cnt < u64_mod
    → (lmb_remove_region rgn r).region ≡ removed r rgn.cnt rgn.region
lmb_remove_region-region rgn r h small = fun_ext λ j. lmb_remove_region-get rgn r j h small

-- Without region `r` the others keep their order, if the two beside it are in order.
module _ (n : ℕ) (region : ℕ → LmbProperty) (r : ℕ)
    (solid : (i : ℕ) → i < n → i ≢ r → IsSolid (region i))
    (ordered : (i : ℕ) → i + 1 < n → i ≢ r → i + 1 ≢ r → end_of (region i) ≤ (region (i + 1)).base)
    (beside : (i : ℕ) → i + 1 ≡ r → i + 2 < n → end_of (region i) ≤ (region (i + 2)).base) where
  removed-ordered :
      (i : ℕ) → i + 1 < n - 1 → end_of (removed r n region i) ≤ (removed r n region (i + 1)).base
  removed-ordered i h = ground (arith, ordered i, ordered (i + 1), beside i)

  pub removed-IsSorted : IsSorted (n - 1) (removed r n region)
  removed-IsSorted = record {
    solid = λ i h. ground (arith, solid i, solid (i + 1));
    ordered = removed-ordered;
  }

pub removed_keeps :
    (n : ℕ) (region : ℕ → LmbProperty) (r a i : ℕ)
    → i < n
    → i ≢ r
    → r < n
    → Holds (region i) a
    → Covered (n - 1) (removed r n region) a
removed_keeps n region r a i h other below held = elim (dec_lt i r) [
  | yes before ↦ (i, omega arith, ground arith)
  | no after ↦ (i - 1, omega arith, ground arith)
]

pub removed_only :
    (n : ℕ) (region : ℕ → LmbProperty) (r a : ℕ)
    → Covered (n - 1) (removed r n region) a
    → (i : ℕ) × (i < n) × (i ≢ r) × Holds (region i) a
removed_only n region r a (i, h, held) = elim (dec_lt i r) [
  | yes before ↦ (i, omega arith, omega arith, ground arith)
  | no after ↦ (i + 1, omega arith, omega arith, ground arith)
]

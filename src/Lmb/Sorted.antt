-- ===== src/Lmb/Sorted.antt =====
-- The invariant of a table: its regions hold memory, do not wrap, and stand in order without overlap.
use shield_tv_loader.Base.{
  ℕ, zero, suc, ◌+◌, ◌≤◌, ◌<◌, ◌≡◌, ◌⊎◌, false, arith, add64-eq, u64_mod, dec_lt,
}
use shield_tv_loader.Lmb.{LmbProperty, LmbRegion, max_lmb_regions, lmb_addrs_overlap}

-- The first address past a region that does not wrap.
abbrev pub end_of : LmbProperty → ℕ
end_of p = p.base + p.size

-- A region holds at least a byte, and its end does not wrap.
abbrev pub IsSolid : LmbProperty → Type 0
IsSolid p = (0 < p.size) × (end_of p < u64_mod)

pub record IsSorted (n : ℕ) (region : ℕ → LmbProperty) : Type 0 where
  pub solid : (i : ℕ) → i < n → IsSolid (region i)
  pub ordered : (i : ℕ) → i + 1 < n → end_of (region i) ≤ (region (i + 1)).base

pub record IsWf (rgn : LmbRegion) : Type 0 where
  pub nonempty : 0 < rgn.cnt
  pub room : rgn.cnt ≤ max_lmb_regions
  pub sorted : IsSorted rgn.cnt rgn.region

-- Address `a` lies in a region.
abbrev pub Holds : LmbProperty → ℕ → Type 0
Holds p a = (p.base ≤ a) × (a < end_of p)

-- Address `a` lies in one of the first `n` regions.
abbrev pub Covered : ℕ → (ℕ → LmbProperty) → ℕ → Type 0
Covered n region a = (i : ℕ) × (i < n) × Holds (region i) a

abbrev pub Covers : LmbRegion → ℕ → Type 0
Covers rgn = Covered rgn.cnt rgn.region

-- No address of [base, base + size) is in `p`.
abbrev pub IsApart : ℕ → ℕ → LmbProperty → Type 0
IsApart base size p = (end_of p ≤ base) ⊎ (base + size ≤ p.base)

abbrev pub IsClear : ℕ → ℕ → ℕ → (ℕ → LmbProperty) → Type 0
IsClear base size n region = (i : ℕ) → i < n → IsApart base size (region i)

-- A region that stands before another ends before it.
pub ordered_far :
    (n : ℕ) (region : ℕ → LmbProperty) (i j : ℕ)
    → IsSorted n region
    → i < j
    → j < n
    → end_of (region i) ≤ (region j).base
ordered_far n region i zero s below h = absurd (omega arith)
ordered_far n region i (suc j) s below h = elim (dec_lt i j) [
  | yes far ↦ ground (arith, ordered_far n region i j s far (omega arith), s.ordered j)
  | no near ↦ ground (arith, s.ordered j)
]

pub base-le :
    (n : ℕ) (region : ℕ → LmbProperty) (i j : ℕ)
    → IsSorted n region
    → i ≤ j
    → j < n
    → (region i).base ≤ (region j).base
base-le n region i j s le h = elim (dec_lt i j) [
  | yes far ↦ omega (arith, ordered_far n region i j s far h)
  | no near ↦ ground arith
]

-- The overlap test of the source is exact for ranges that do not wrap.
pub overlap-IsApart :
    (base size : ℕ) (p : LmbProperty)
    → base + size < u64_mod
    → end_of p < u64_mod
    → lmb_addrs_overlap base size p.base p.size ≡ false
    → IsApart base size p
unfolding lmb_addrs_overlap
overlap-IsApart base size p fits solid e =
    ground (arith, add64-eq p.base p.size, add64-eq base size)

pub IsApart-overlap :
    (base size : ℕ) (p : LmbProperty)
    → base + size < u64_mod
    → IsSolid p
    → IsApart base size p
    → lmb_addrs_overlap base size p.base p.size ≡ false
unfolding lmb_addrs_overlap
IsApart-overlap base size p fits solid apart =
    ground (arith, add64-eq p.base p.size, add64-eq base size)

-- ===== src/Lmb/Ops/Returned.antt =====
-- `lmb_free` as a whole, with the search for the region that holds the range.
use shield_tv_loader.Base.{
  ℕ, zero, suc, ◌+◌, ◌≤◌, ◌<◌, ◌≡◌, ◌≢◌, refl, ◌⊎◌, inl, inr, arith, Bool-cases, u64_mod, add64, ℤ,
  negsuc, ◌==◌, ℕ_discrete,
}
use shield_tv_loader.Lmb.{LmbProperty, LmbRegion, Lmb, lmb_mmio}
use shield_tv_loader.Lmb.Sorted.{IsWf, end_of}
use shield_tv_loader.Lmb.Add.Result.{IsSeparated}
use shield_tv_loader.Lmb.Ops.{find_holder, free_at, free_region, lmb_free, lmb_align_up}
use shield_tv_loader.Lmb.Ops.Free.{Freed, others, find_holder_sound, find_holder-le}
use shield_tv_loader.Lmb.Ops.Release.{free_at-Freed}

-- Region `i` holds the whole range.
abbrev pub HoldsRange : LmbRegion → ℕ → ℕ → ℕ → Type 0
HoldsRange rgn base size i =
    (i < rgn.cnt) × ((rgn.region i).base ≤ base) × (base + size ≤ end_of (rgn.region i))

find_holder-none :
    (base end n i j : ℕ) (region : ℕ → LmbProperty)
    → find_holder base end n i region ≡ i + n
    → i ≤ j
    → j < i + n
    → (region j).base ≤ base
    → ¬ (end ≤ add64 (region j).base (region j).size)
unfolding find_holder
find_holder-none base end zero i j region e le h low high = absurd (omega arith)
find_holder-none base end (suc n) i j region e le h low high =
    ground (arith, find_holder-none base end n (i + 1) j region)

-- The range is given back from the region that holds it, or it is refused: then the table is as it
-- was, and no region but one of memory-mapped I/O holds the range.
abbrev pub Returned : LmbRegion → ℕ → ℕ → ℤ × LmbRegion → Type 0
Returned rgn base size r =
    ((i : ℕ) × HoldsRange rgn base size i
      × ((rgn.region i).type ≢ lmb_mmio)
      × Freed rgn base size r)
    ⊎ ((r ≡ (negsuc 0, rgn))
        × ((i : ℕ) → HoldsRange rgn base size i → (rgn.region i).type ≡ lmb_mmio))

module _ (rgn : LmbRegion) (base size : ℕ) (w : IsWf rgn) (sep : IsSeparated rgn)
    (pos_size : 0 < size) (fits : base + size < u64_mod) where
  same_holder : (i j : ℕ) → HoldsRange rgn base size i → HoldsRange rgn base size j → i ≡ j
  same_holder i j (hi, low_i, high_i) (hj, low_j, high_j) = elim (ℕ_discrete j i) [
    | yes e ↦ omega arith
    | no ne ↦ absurd (
        others rgn i base size w hi pos_size low_i high_i j base hj ne (low_j, omega arith)
          (omega arith, omega arith))
  ]

  abbrev holder : ℕ
  holder = find_holder base (base + size) rgn.cnt 0 rgn.region

  holder_holds : holder ≢ rgn.cnt → HoldsRange rgn base size holder
  holder_holds ne =
      let le = find_holder-le base (base + size) rgn.cnt 0 rgn.region in
      let h : holder < rgn.cnt = omega arith in
      let (low, high) = find_holder_sound base (base + size) rgn.cnt 0 rgn.region (omega arith) in
      (h, low, omega (arith, w.sorted.solid holder h))

  no_holder : holder ≡ rgn.cnt → (i : ℕ) → ¬ HoldsRange rgn base size i
  no_holder e i (h, low, high) =
      find_holder-none base (base + size) rgn.cnt 0 i rgn.region (omega arith) (omega arith)
        (omega arith) low (omega (arith, w.sorted.solid i h))

  found-Returned :
      holder ≢ rgn.cnt
      → (rgn.region holder).type ≢ lmb_mmio
      → Returned rgn base size (free_at rgn holder base size (base + size))
  found-Returned ne other =
      let (h, low, high) = holder_holds ne in
      inl (
        holder,
        (h, low, high),
        other,
        free_at-Freed rgn holder base size w sep h pos_size low high,
      )

  free_region-Returned : Returned rgn base size (free_region rgn base size)
  unfolding free_region
  free_region-Returned =
      let exact : add64 base size ≡ base + size = omega arith in
      rw exact (elim (Bool-cases (holder == rgn.cnt)) [
        | inl missing ↦ rw missing (inr (refl, λ i held. absurd (no_holder (ground arith) i held)))
        | inr found ↦ elim (Bool-cases ((rgn.region holder).type == lmb_mmio)) [
          | inl mmio ↦
              rw (found, mmio)
                (inr (
                  refl,
                  λ i held. ground (arith, same_holder i holder held (holder_holds (ground arith))),
                ))
          | inr other ↦ rw (found, other) (found-Returned (ground arith) (ground arith))
        ]
      ])

-- Where the reservations are in order and no two of one tag and type touch, lmb_free of a range
-- that does not wrap, rounded up and not empty, leaves the memory table alone; it takes exactly the
-- range out of the covered addresses of the region that holds it, or refuses with the table
-- unchanged where no region but one of memory-mapped I/O holds it; if it fails after that, the
-- table was full.
pub lmb_free-Returned :
    (lmb : Lmb) (base size align : ℕ)
    → IsWf lmb.reserved
    → IsSeparated lmb.reserved
    → 0 < lmb_align_up size align
    → base + lmb_align_up size align < u64_mod
    → let r = lmb_free lmb base size align in
      (r.1.memory ≡ lmb.memory)
      × Returned lmb.reserved base (lmb_align_up size align) (r.0, r.1.reserved)
unfolding lmb_free
lmb_free-Returned lmb base size align w sep pos_size fits =
    (refl, free_region-Returned lmb.reserved base (lmb_align_up size align) w sep pos_size fits)

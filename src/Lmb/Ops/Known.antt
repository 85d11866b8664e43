-- ===== src/Lmb/Ops/Known.antt =====
-- `lmb_is_known`, `lmb_is_reserved` and `lmb_reserve` against the addresses that the tables cover.
use shield_tv_loader.Base.{
  ℕ, zero, suc, ◌+◌, ◌≤◌, ◌<◌, ◌≡◌, ◌≢◌, ◌↔◌, refl, ◌⊎◌, inl, inr, true, not, ◌&&◌, arith,
  Bool-cases, u64_mod, add64, sub64, leb, ◌==◌, negsuc,
}
use shield_tv_loader.Lmb.{LmbProperty, Lmb, lmb_add_region, new_property, lmb_boot, lmb_runtime}
use shield_tv_loader.Lmb.Sorted.{IsWf, IsSolid, IsClear, end_of, Covers, Covered}
use shield_tv_loader.Lmb.Add.Result.{IsTable, Outcome, lmb_add_region-Outcome}
use shield_tv_loader.Lmb.Ops.{known_from, lmb_is_known, reserved_from, lmb_is_reserved, lmb_reserve}
use shield_tv_loader.Lmb.Ops.Returned.{HoldsRange}

-- The test on one region, for a range that does not wrap.
known_one :
    (addr size : ℕ) (p : LmbProperty)
    → IsSolid p
    → addr + size < u64_mod
    → (leb p.base addr
        && leb addr (sub64 (add64 p.base p.size) 1)
        && leb p.base (add64 addr size)
        && leb (add64 addr size) (add64 p.base p.size))
      ≡ true
    → (p.base ≤ addr) × (addr + size ≤ end_of p)
known_one addr size p solid fits e = ground arith

one_known :
    (addr size : ℕ) (p : LmbProperty)
    → IsSolid p
    → 0 < size
    → addr + size < u64_mod
    → p.base ≤ addr
    → addr + size ≤ end_of p
    → (leb p.base addr
        && leb addr (sub64 (add64 p.base p.size) 1)
        && leb p.base (add64 addr size)
        && leb (add64 addr size) (add64 p.base p.size))
      ≡ true
one_known addr size p solid pos_size fits low high = ground arith

module _ (addr size : ℕ) (region : ℕ → LmbProperty) (fits : addr + size < u64_mod) where
  known_from_sound :
      (n i : ℕ)
      → ((j : ℕ) → j < i + n → IsSolid (region j))
      → known_from addr size n i region ≡ true
      → (j : ℕ) × (j < i + n) × ((region j).base ≤ addr) × (addr + size ≤ end_of (region j))
  unfolding known_from
  known_from_sound zero i solid e = cc
  known_from_sound (suc n) i solid e =
      let p = region i in
      elim (Bool-cases (
        leb p.base addr
        && leb addr (sub64 (add64 p.base p.size) 1)
        && leb p.base (add64 addr size)
        && leb (add64 addr size) (add64 p.base p.size))) [
          | inl here ↦
              let (low, high) = known_one addr size p (solid i (omega arith)) fits here in
              (i, omega arith, low, high)
          | inr later ↦
              let (j, h, low, high) =
                known_from_sound n (i + 1) (λ j h. solid j (omega arith)) (rw later at e) in
              (j, omega arith, low, high)
        ]

  known_from_complete :
      (n i j : ℕ)
      → 0 < size
      → IsSolid (region j)
      → i ≤ j
      → j < i + n
      → (region j).base ≤ addr
      → addr + size ≤ end_of (region j)
      → known_from addr size n i region ≡ true
  unfolding known_from
  known_from_complete zero i j pos_size solid le h low high = absurd (omega arith)
  known_from_complete (suc n) i j pos_size solid le h low high = ground (
    arith,
    one_known addr size (region j) solid pos_size fits low high,
    known_from_complete n (i + 1) j pos_size solid,
  )

-- A range that holds a byte and does not wrap is known exactly when one region of memory holds it.
pub lmb_is_known_iff :
    (lmb : Lmb) (addr size : ℕ)
    → IsWf lmb.memory
    → 0 < size
    → addr + size < u64_mod
    → (lmb_is_known lmb addr size ≡ true) ↔ ((i : ℕ) × HoldsRange lmb.memory addr size i)
unfolding lmb_is_known
lmb_is_known_iff lmb addr size w pos_size fits = (
  λ e.
      let (j, h, low, high) =
        known_from_sound addr size lmb.memory.region fits lmb.memory.cnt 0
          (λ j h. w.sorted.solid j (omega arith)) e in
      (j, (omega arith, low, high)),
  λ held.
      let (i, range) = held in
      let (h, low, high) = range in
      known_from_complete addr size lmb.memory.region fits lmb.memory.cnt 0 i pos_size
        (w.sorted.solid i h) (omega arith) (omega arith) low high,
)

-- Where both tables are in order, lmb_reserve of a range that holds a byte, does not wrap and
-- overlaps no reservation refuses, with both tables unchanged, a type other than boot and runtime
-- and a range that no memory region holds; for any other range it is lmb_add_region on the
-- reservations with the same base, size, type and tag, with the outcome of a range that overlaps no
-- region.
pub lmb_reserve_cases :
    (lmb : Lmb) (base size type tag : ℕ)
    → IsWf lmb.memory
    → IsTable lmb.reserved
    → 0 < size
    → base + size < u64_mod
    → IsClear base size lmb.reserved.cnt lmb.reserved.region
    → let r = lmb_reserve lmb base size type tag in
      ((r ≡ (negsuc 0, lmb))
        × (((type ≢ lmb_boot) × (type ≢ lmb_runtime))
            ⊎ ((i : ℕ) → ¬ HoldsRange lmb.memory base size i)))
      ⊎ (((type ≡ lmb_boot) ⊎ (type ≡ lmb_runtime))
          × ((i : ℕ) × HoldsRange lmb.memory base size i)
          × (let added = lmb_add_region lmb.reserved base size type tag in
              r ≡ (added.0, record lmb { reserved = added.1 }))
          × Outcome lmb.reserved (new_property base size type tag) (r.0, r.1.reserved))
unfolding lmb_reserve new_property
lmb_reserve_cases lmb base size type tag w t pos_size fits clear =
    elim (Bool-cases (not (type == lmb_boot) && not (type == lmb_runtime))) [
      | inl other ↦ rw other (inl (refl, inl (ground arith, ground arith)))
      | inr kind ↦ elim (Bool-cases (lmb_is_known lmb base size)) [
        | inr unknown ↦
            rw (kind, unknown)
              (inl (
                refl,
                inr λ i held.
                    cc (unknown, (lmb_is_known_iff lmb base size w pos_size fits).1 (i, held)),
              ))
        | inl known ↦
            rw (kind, known)
              (inr (
                ground arith,
                (lmb_is_known_iff lmb base size w pos_size fits).0 known,
                refl,
                lmb_add_region-Outcome lmb.reserved base size type tag t (pos_size, fits) clear,
              ))
      ]
    ]

reserved_from_sound :
    (a n i : ℕ) (region : ℕ → LmbProperty)
    → ((j : ℕ) → j < i + n → IsSolid (region j))
    → reserved_from a n i region ≡ true
    → Covered (i + n) region a
unfolding reserved_from
reserved_from_sound a zero i region solid e = cc
reserved_from_sound a (suc n) i region solid e =
    let p = region i in
    elim (Bool-cases (leb p.base a && leb a (sub64 (add64 p.base p.size) 1))) [
      | inl here ↦ (i, omega arith, ground (arith, solid i))
      | inr later ↦
          let (j, h, held) =
            reserved_from_sound a n (i + 1) region (λ j h. solid j (omega arith)) (rw later at e) in
          (j, omega arith, held)
    ]

reserved_from_complete :
    (a n i j : ℕ) (region : ℕ → LmbProperty)
    → IsSolid (region j)
    → i ≤ j
    → j < i + n
    → (region j).base ≤ a
    → a < end_of (region j)
    → reserved_from a n i region ≡ true
unfolding reserved_from
reserved_from_complete a zero i j region solid le h low high = absurd (omega arith)
reserved_from_complete a (suc n) i j region solid le h low high =
    ground (arith, reserved_from_complete a n (i + 1) j region solid)

-- An address is reserved exactly when a region of the reservations covers it.
lmb_is_reserved_iff :
    (lmb : Lmb) (a : ℕ) → IsWf lmb.reserved → (lmb_is_reserved lmb a ≡ true) ↔ Covers lmb.reserved a
unfolding lmb_is_reserved
lmb_is_reserved_iff lmb a w = (
  λ e.
      let (j, h, held) =
        reserved_from_sound a lmb.reserved.cnt 0 lmb.reserved.region
          (λ j h. w.sorted.solid j (omega arith)) e in
      (j, omega arith, held),
  λ c.
      let (j, h, held) = c in
      reserved_from_complete a lmb.reserved.cnt 0 j lmb.reserved.region (w.sorted.solid j h)
        (omega arith) (omega arith) held.0 held.1,
)

-- `lmb_reserve` leaves the memory table alone.
pub lmb_reserve_memory :
    (lmb : Lmb) (base size type tag : ℕ)
    → (lmb_reserve lmb base size type tag).1.memory ≡ lmb.memory
unfolding lmb_reserve
lmb_reserve_memory lmb base size type tag =
    elim (Bool-cases (not (type == lmb_boot) && not (type == lmb_runtime))) [
      | inl other ↦ rw other refl
      | inr kind ↦ elim (Bool-cases (lmb_is_known lmb base size)) [
        | inl known ↦ rw (kind, known) refl
        | inr unknown ↦ rw (kind, unknown) refl
      ]
    ]

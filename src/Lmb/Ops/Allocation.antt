-- ===== src/Lmb/Ops/Allocation.antt =====
-- `lmb_alloc_base` as a whole: what a caller may rely on.
use shield_tv_loader.Base.{
  ℕ, zero, suc, ◌+◌, ◌^◌, ◌≤◌, ◌<◌, ◌≡◌, ◌≢◌, refl, ◌⊎◌, inl, inr, Option, none, some, ◌==◌, arith,
  Bool-cases, Option-cases, dec_lt, subst,
}
use mathlib.Core.Option.{some-injective}
use shield_tv_loader.Lmb.{LmbRegion, Lmb, lmb_add_region, lmb_mmio, new_property}
use shield_tv_loader.Lmb.Sorted.{IsWf, IsClear, IsSolid, Covers}
use shield_tv_loader.Lmb.Add.Result.{IsTable, IsSeparated, Outcome, lmb_add_region-Outcome}
use shield_tv_loader.Lmb.Ops.{
  Search, out_of_fuel, next_region, returns, search_down, first_base, alloc_from, lmb_align_up,
  lmb_alloc_base_unchecked, lmb_alloc_base,
}
use shield_tv_loader.Lmb.Ops.Placed.{Placed, Good, search_down-Good, first_base-Candidate}

-- A range of `size` bytes at `addr`, in one region of memory.
pub record Allocated (k size max_addr type tag : ℕ) (lmb : Lmb) (addr : ℕ) (lmb' : Lmb)
    : Type 0 where
  pub nonzero : addr ≢ 0
  pub index : ℕ
  pub inside : index < lmb.memory.cnt
  pub placed : Placed k size max_addr type tag lmb (lmb.memory.region index) addr lmb'

module _ (k size max_addr type tag : ℕ) (small : k < 64) where
  -- Either the address is 0 and the tables are as they were, or the range is allocated.
  abbrev Answer : Lmb → ℕ → Lmb → Type 0
  Answer lmb addr lmb' =
      ((addr ≡ 0) × (lmb' ≡ lmb)) ⊎ Allocated k size max_addr type tag lmb addr lmb'

  module _ (lmb : Lmb) (w : IsWf lmb.memory) (t : IsTable lmb.reserved) (pos_size : 0 < size)
      (limit : max_addr ≢ 0 → size ≤ max_addr) where
    found-Answer :
        (n : ℕ) (search : Search) (rest : Option (ℕ × Lmb)) (addr : ℕ) (lmb' : Lmb)
        → n < lmb.memory.cnt
        → Good k size max_addr type tag small lmb (lmb.memory.region n) search
        → (rest ≡ some (addr, lmb') → Answer lmb addr lmb')
        → (elim search as (λ _. Option (ℕ × Lmb)) [
          | out_of_fuel ↦ none
          | next_region ↦ rest
          | returns a l ↦ some (a, l)
        ])
          ≡ some (addr, lmb')
        → Answer lmb addr lmb'
    found-Answer n out_of_fuel rest addr lmb' h good later e = cc
    found-Answer n next_region rest addr lmb' h good later e = later e
    found-Answer n (returns a l) rest addr lmb' h good later e =
        subst (λ (r : ℕ × Lmb). Answer lmb r.0 r.1) (some-injective _ _ e)
          (elim good [
            | inl kept ↦ inl kept
            | inr (ne, placed) ↦
                inr (record { nonzero = ne; index = n; inside = h; placed = placed })
          ])

    alloc_from-Answer :
        (n addr : ℕ) (lmb' : Lmb)
        → n ≤ lmb.memory.cnt
        → alloc_from size (2 ^ k) max_addr type tag n lmb ≡ some (addr, lmb')
        → Answer lmb addr lmb'
    unfolding alloc_from
    alloc_from-Answer zero addr lmb' h e =
        subst (λ (r : ℕ × Lmb). Answer lmb r.0 r.1) (some-injective _ _ e) (inl (refl, refl))
    alloc_from-Answer (suc n) addr lmb' h e =
        let p = lmb.memory.region n in
        let solid = w.sorted.solid n (omega arith) in
        elim (Option-cases (first_base size (2 ^ k) max_addr type tag p)) [
          | inl skip ↦ alloc_from-Answer n addr lmb' (omega arith) (ground arith)
          | inr (base, try) ↦
              found-Answer n (search_down size (2 ^ k) max_addr type tag (suc base) lmb p.base base)
                (alloc_from size (2 ^ k) max_addr type tag n lmb) addr lmb' (omega arith)
                (search_down-Good k size max_addr type tag small lmb p t solid pos_size (suc base)
                  base (first_base-Candidate k size max_addr type tag small p base solid limit try))
                (alloc_from-Answer n addr lmb' (omega arith)) (rw (try, alloc_from) at e)
        ]

-- What `lmb_alloc_base` returns is 0, with the tables as they were, or an address at a multiple of
-- the alignment, from which the rounded size fits into one region of memory, under the limit if there
-- is one, and touches no reservation; then the reservations are those that `lmb_add_region` made.
pub lmb_alloc_base-Allocated :
    (lmb : Lmb) (k size max_addr type tag addr : ℕ) (lmb' : Lmb)
    → k < 64
    → IsWf lmb.memory
    → IsTable lmb.reserved
    → 0 < lmb_align_up size (2 ^ k)
    → (max_addr ≢ 0 → lmb_align_up size (2 ^ k) ≤ max_addr)
    → lmb_alloc_base lmb size (2 ^ k) max_addr type tag ≡ some (addr, lmb')
    → ((addr ≡ 0) × (lmb' ≡ lmb))
      ⊎ Allocated k (lmb_align_up size (2 ^ k)) max_addr type tag lmb addr lmb'
unfolding lmb_alloc_base lmb_alloc_base_unchecked
lmb_alloc_base-Allocated lmb k size max_addr type tag addr lmb' small w t pos_size limit e =
    elim (Bool-cases (type == lmb_mmio)) [
      | inl mmio ↦
          subst
            (λ (r : ℕ × Lmb).
              Answer k (lmb_align_up size (2 ^ k)) max_addr type tag small lmb r.0 r.1)
            (some-injective _ _ (rw mmio at e)) (inl (refl, refl))
      | inr other ↦
          alloc_from-Answer k (lmb_align_up size (2 ^ k)) max_addr type tag small lmb w t pos_size
            limit lmb.memory.cnt addr lmb' (omega arith) (rw other at e)
    ]

module _ (lmb : Lmb) (k size max_addr type tag addr : ℕ) (lmb' : Lmb) where
  -- The range of an allocation holds a byte and does not wrap.
  pub Allocated-IsSolid :
      IsWf lmb.memory
      → 0 < size
      → Allocated k size max_addr type tag lmb addr lmb'
      → IsSolid (new_property addr size type tag)
  unfolding new_property
  Allocated-IsSolid w pos_size a =
      ground (arith, pos_size, a.placed.high, w.sorted.solid a.index a.inside)

  pub Allocated-Outcome :
      IsWf lmb.memory
      → IsTable lmb.reserved
      → 0 < size
      → Allocated k size max_addr type tag lmb addr lmb'
      → Outcome lmb.reserved
          (new_property addr size type tag)
          (lmb_add_region lmb.reserved addr size type tag)
  Allocated-Outcome w t pos_size a =
      lmb_add_region-Outcome lmb.reserved addr size type tag t (Allocated-IsSolid w pos_size a)
        a.placed.clear

  -- After an allocation all its addresses are reserved.
  pub Allocated-Covers :
      IsWf lmb.memory
      → IsTable lmb.reserved
      → IsSeparated lmb.reserved
      → 0 < size
      → Allocated k size max_addr type tag lmb addr lmb'
      → (a : ℕ) → addr ≤ a
      → a < addr + size
      → Covers lmb'.reserved a
  unfolding new_property
  Allocated-Covers w t sep pos_size al a low high =
      let outcome = Allocated-Outcome w t pos_size al in
      rw al.placed.stored (outcome.new sep al.placed.accepted a (low, high))

clear_not-Covers :
    (rgn : LmbRegion) (base size a : ℕ)
    → IsClear base size rgn.cnt rgn.region
    → Covers rgn a
    → base ≤ a
    → ¬ (a < base + size)
clear_not-Covers rgn base size a clear (i, h, held) low high = ground (arith, clear i h)

pub Allocated-twice :
    (lmb lmb1 lmb2 : Lmb) (k1 size1 max1 type1 tag1 addr1 k2 size2 max2 type2 tag2 addr2 : ℕ)
    → IsWf lmb.memory
    → IsTable lmb.reserved
    → IsSeparated lmb.reserved
    → 0 < size1
    → 0 < size2
    → Allocated k1 size1 max1 type1 tag1 lmb addr1 lmb1
    → Allocated k2 size2 max2 type2 tag2 lmb1 addr2 lmb2
    → (addr1 + size1 ≤ addr2) ⊎ (addr2 + size2 ≤ addr1)
Allocated-twice lmb lmb1 lmb2 k1 size1 max1 type1 tag1 addr1 k2 size2 max2 type2 tag2 addr2 w t sep
      pos1 pos2 a1 a2 =
    elim (dec_lt addr2 (addr1 + size1)) [
      | no apart ↦ inl (omega arith)
      | yes low ↦ elim (dec_lt addr1 (addr2 + size2)) [
        | no apart ↦ inr (omega arith)
        | yes high ↦ absurd (clash low high)
      ]
    ]
  where
    shared : (a : ℕ) → addr1 ≤ a → a < addr1 + size1 → addr2 ≤ a → ¬ (a < addr2 + size2)
    shared a low1 high1 =
        clear_not-Covers lmb1.reserved addr2 size2 a a2.placed.clear
          (Allocated-Covers lmb k1 size1 max1 type1 tag1 addr1 lmb1 w t sep pos1 a1 a low1 high1)

    clash : addr2 < addr1 + size1 → ¬ (addr1 < addr2 + size2)
    clash low high = elim (dec_lt addr1 addr2) [
      | yes below ↦ shared addr2 (omega arith) low (omega arith) (omega arith)
      | no above ↦ shared addr1 (omega arith) (omega arith) (omega arith) high
    ]

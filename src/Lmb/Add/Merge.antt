-- ===== src/Lmb/Add/Merge.antt =====
-- The merge of two regions that touch, after the scan of `lmb_add_region`.
use shield_tv_loader.Base.{
  ℕ, ◌+◌, ◌-◌, ◌<◌, ◌≡◌, refl, inl, inr, true, arith, dec_lt, ℕ_discrete, update, add64, sub64-eq,
  Bool-cases,
}
use shield_tv_loader.Lmb.{LmbProperty, LmbRegion, lmb_coalesce_regions, merges_next, merge_next}
use shield_tv_loader.Lmb.Sorted.{IsSorted, IsWf, Covered, Covers, end_of}
use shield_tv_loader.Lmb.Remove.{
  removed, removed-IsSorted, removed_keeps, removed_only, lmb_remove_region-cnt,
  lmb_remove_region-region,
}

-- What the test of the merge finds out.
pub record Touch (rgn : LmbRegion) (k : ℕ) : Type 0 where
  pub inside : k + 1 < rgn.cnt
  pub touch : end_of (rgn.region k) ≡ (rgn.region (k + 1)).base
  pub same_tag : (rgn.region k).tag ≡ (rgn.region (k + 1)).tag
  pub same_type : (rgn.region k).type ≡ (rgn.region (k + 1)).type

pub merges_next-Touch :
    (rgn : LmbRegion) (k : ℕ) → IsWf rgn → merges_next rgn k ≡ true → Touch rgn k
unfolding merges_next
merges_next-Touch rgn k w e =
    ground (arith, w.sorted.solid k, w.sorted.solid (k + 1), w.sorted.ordered k, sub64-eq rgn.cnt 1)

-- Region `k` takes over region `k + 1`, where it ends.
module _ (rgn : LmbRegion) (k : ℕ) (w : IsWf rgn) (t : Touch rgn k) where
  grown : LmbProperty
  grown = let p = rgn.region k in record p { size = add64 p.size (rgn.region (k + 1)).size }

  grown_size : grown.size ≡ (rgn.region k).size + (rgn.region (k + 1)).size
  unfolding grown
  grown_size = ground (arith, t.touch, t.inside, w.sorted.solid k, w.sorted.solid (k + 1))

  grown_base : grown.base ≡ (rgn.region k).base
  unfolding grown
  grown_base = refl

  abbrev widened : ℕ → LmbProperty
  widened = update rgn.region k grown

  coalesce-cnt : (lmb_coalesce_regions rgn k (k + 1)).cnt ≡ rgn.cnt - 1
  unfolding lmb_coalesce_regions grown
  coalesce-cnt =
      lmb_remove_region-cnt (record rgn { region = widened }) (k + 1) t.inside
        (omega (arith, w.room))

  coalesce-region : (lmb_coalesce_regions rgn k (k + 1)).region ≡ removed (k + 1) rgn.cnt widened
  unfolding lmb_coalesce_regions grown
  coalesce-region = lmb_remove_region-region _ (k + 1) t.inside (omega (arith, w.room))

  coalesced-IsSorted : IsSorted (rgn.cnt - 1) (removed (k + 1) rgn.cnt widened)
  coalesced-IsSorted =
      removed-IsSorted rgn.cnt widened (k + 1)
        (λ i h other. ground (
          arith,
          grown_size,
          grown_base,
          t.touch,
          t.inside,
          w.sorted.solid i,
          w.sorted.solid (k + 1),
        ))
        (λ i h other next. ground (arith, grown_size, grown_base, w.sorted.ordered i))
        (λ i next h. ground (arith, grown_size, grown_base, t.touch, w.sorted.ordered (k + 1)))

  coalesced-old : (a : ℕ) → Covers rgn a → Covered (rgn.cnt - 1) (removed (k + 1) rgn.cnt widened) a
  coalesced-old a (i, h, held) = elim (ℕ_discrete i (k + 1)) [
    | yes gone ↦
        removed_keeps rgn.cnt widened (k + 1) a k (omega (arith, t.inside)) (omega arith) t.inside
          (ground (arith, grown_size, grown_base, t.touch))
    | no other ↦
        removed_keeps rgn.cnt widened (k + 1) a i h other t.inside
          (ground (arith, grown_size, grown_base))
  ]

  coalesced-only :
      (a : ℕ) → Covered (rgn.cnt - 1) (removed (k + 1) rgn.cnt widened) a → Covers rgn a
  coalesced-only a c =
      let (i, h, other, held) = removed_only rgn.cnt widened (k + 1) a c in
      elim (ℕ_discrete i k) [
        | yes here ↦ elim (dec_lt a (end_of (rgn.region k))) [
          | yes low ↦ (k, omega arith, ground (arith, grown_size, grown_base))
          | no high ↦ (k + 1, t.inside, ground (arith, grown_size, grown_base, t.touch))
        ]
        | no apart ↦ (i, h, ground arith)
      ]

-- The merge changes no address, and keeps the invariant.
pub record SameCover (rgn rgn' : LmbRegion) : Type 0 where
  pub wf : IsWf rgn'
  pub old : (a : ℕ) → Covers rgn a → Covers rgn' a
  pub only : (a : ℕ) → Covers rgn' a → Covers rgn a

coalesce-SameCover :
    (rgn : LmbRegion) (k : ℕ)
    → IsWf rgn
    → Touch rgn k
    → SameCover rgn (lmb_coalesce_regions rgn k (k + 1))
coalesce-SameCover rgn k w t = record {
  wf = record {
    nonempty = omega (arith, coalesce-cnt rgn k w t, t.inside);
    room = omega (arith, coalesce-cnt rgn k w t, w.room);
    sorted = rw (coalesce-cnt rgn k w t, coalesce-region rgn k w t) (coalesced-IsSorted rgn k w t);
  };
  old = rw (coalesce-cnt rgn k w t, coalesce-region rgn k w t) (coalesced-old rgn k w t);
  only = rw (coalesce-cnt rgn k w t, coalesce-region rgn k w t) (coalesced-only rgn k w t);
}

pub merge_next-SameCover :
    (rgn : LmbRegion) (k coalesced : ℕ) → IsWf rgn → SameCover rgn (merge_next rgn k coalesced).0
unfolding merge_next
merge_next-SameCover rgn k coalesced w = elim (Bool-cases (merges_next rgn k)) [
  | inl e ↦ rw e (coalesce-SameCover rgn k w (merges_next-Touch rgn k w e))
  | inr e ↦ rw e (record { wf = w; old = λ a c. c; only = λ a c. c })
]

-- ===== src/Lmb/Ops/Release.antt =====
-- `lmb_free` on every branch: the whole region, its front, its end, its middle, and the refusals.
use shield_tv_loader.Base.{
  ℕ, ◌+◌, ◌-◌, ◌≤◌, ◌<◌, ◌≡◌, refl, ◌⊎◌, inl, inr, false, ◌==◌, arith, Bool-cases, add64, sub64, ℤ,
  pos, is_neg, update, dec_lt, ℕ_discrete,
}
use shield_tv_loader.Lmb.{LmbProperty, LmbRegion, lmb_add_region, new_property}
use shield_tv_loader.Lmb.Sorted.{IsWf, IsSolid, IsClear, end_of, Covers, Holds, ordered_far}
use shield_tv_loader.Lmb.Add.Result.{IsSeparated, Outcome, lmb_add_region-Outcome}
use shield_tv_loader.Lmb.Ops.{free_at}
use shield_tv_loader.Lmb.Ops.Free.{
  Freed, InRange, whole-Freed, shrunk-IsWf, shrunk-only, shrunk-Freed, shrunk-IsSeparated,
}

module _ (rgn : LmbRegion) (i base size : ℕ) (w : IsWf rgn) (sep : IsSeparated rgn)
    (inside : i < rgn.cnt) (pos_size : 0 < size) (low : (rgn.region i).base ≤ base)
    (high : base + size ≤ end_of (rgn.region i)) where
  solid : IsSolid (rgn.region i)
  solid = w.sorted.solid i inside

  abbrev front : LmbProperty
  front = let p = rgn.region i in record p { size = sub64 base p.base }

  abbrev middle_table : LmbRegion
  middle_table = record rgn { region = update rgn.region i front }

  abbrev back_size : ℕ
  back_size = sub64 (add64 (rgn.region i).base (rgn.region i).size) (base + size)

  -- The range lies inside the region: the front stays, and the back is added as a new region.
  module _ (after : (rgn.region i).base < base) (before : base + size < end_of (rgn.region i)) where
    front_parts :
        (front.size ≡ base - (rgn.region i).base)
        × (back_size ≡ end_of (rgn.region i) - (base + size))
    front_parts = ground (arith, solid)

    front-IsSolid : IsSolid front
    front-IsSolid = ground (arith, solid, front_parts)

    front_apart : (a : ℕ) → Holds front a → ¬ InRange base size a
    front_apart a held range = ground (arith, front_parts)

    front_end : end_of front ≡ base
    front_end = ground (arith, front_parts)

    middle_IsWf : IsWf middle_table
    middle_IsWf =
        shrunk-IsWf rgn i base size w inside pos_size low high front front-IsSolid (omega arith)
          (omega (arith, front_end)) front_apart

    back-IsClear : IsClear (base + size) back_size rgn.cnt middle_table.region
    back-IsClear j h = elim (ℕ_discrete j i) [
      | yes here ↦ inl (ground (arith, front_end))
      | no other ↦ elim (dec_lt j i) [
        | yes lower ↦ inl (ground (arith, ordered_far rgn.cnt rgn.region j i w.sorted lower inside))
        | no upper ↦
            inr (ground (arith, ordered_far rgn.cnt rgn.region i j w.sorted (omega arith) h))
      ]
    ]

    back_Outcome :
        Outcome middle_table
          (new_property (base + size) back_size (rgn.region i).type (rgn.region i).tag)
          (lmb_add_region middle_table
            (base + size)
            back_size
            (rgn.region i).type
            (rgn.region i).tag)
    unfolding new_property
    back_Outcome =
        lmb_add_region-Outcome middle_table (base + size) back_size (rgn.region i).type
          (rgn.region i).tag (inr middle_IsWf) (ground (arith, solid, front_parts)) back-IsClear

    middle_only :
        (a : ℕ)
        → Covers middle_table a
          ⊎ Holds (new_property (base + size) back_size (rgn.region i).type (rgn.region i).tag) a
        → Covers rgn a × (¬ InRange base size a)
    unfolding new_property
    middle_only a (inl kept) =
        shrunk-only rgn i base size w inside pos_size low high front front-IsSolid (omega arith)
          (omega (arith, front_end)) front_apart a kept
    middle_only a (inr back) =
        ((i, inside, ground (arith, front_parts)), λ range. ground (arith, front_parts))

    middle_IsSeparated : IsSeparated middle_table
    middle_IsSeparated =
        shrunk-IsSeparated rgn i base size w inside pos_size low high front front-IsSolid
          (omega arith) (omega (arith, front_end)) front_apart refl refl refl
          (omega (arith, front_end)) sep

    middle_rest :
        (r : ℤ × LmbRegion)
        → Outcome middle_table
            (new_property (base + size) back_size (rgn.region i).type (rgn.region i).tag)
            r
        → is_neg r.0 ≡ false
        → (a : ℕ) → Covers rgn a
        → (¬ InRange base size a)
        → Covers r.1 a
    unfolding new_property
    middle_rest r o ok a (j, h, held) out = elim (ℕ_discrete j i) [
      | no other ↦ o.old a (j, h, ground arith)
      | yes here ↦ elim (dec_lt a base) [
        | yes before_range ↦ o.old a (i, inside, ground (arith, front_end))
        | no past ↦ o.new middle_IsSeparated ok a (elim (dec_lt a (base + size)) [
          | yes within ↦ absurd (out (omega arith, within))
          | no after_range ↦ ground (arith, front_parts)
        ])
      ]
    ]

    pub middle-Freed :
        Freed rgn base size (
          lmb_add_region middle_table
            (base + size)
            back_size
            (rgn.region i).type
            (rgn.region i).tag)
    middle-Freed =
        let o = back_Outcome in
        record {
          only = λ a c. middle_only a (o.only a c);
          rest = middle_rest _ o;
          refused = λ e. (o.full e).1;
          wf = inl o.wf;
        }

  head_Freed :
      (rgn.region i).base ≡ base
      → base + size < end_of (rgn.region i)
      → let p = rgn.region i in
        let head : LmbProperty = record p { base = base + size; size = sub64 p.size size } in
        Freed rgn base size (pos 0, record rgn { region = update rgn.region i head })
  head_Freed begins before =
      shrunk-Freed rgn i base size w inside pos_size low high _ (ground (arith, solid))
        (ground (arith, solid)) (ground (arith, solid)) (λ a held range. ground (arith, solid))
        (λ a held out. elim (dec_lt a (base + size)) [
          | yes within ↦ absurd (out (ground arith))
          | no past ↦ ground (arith, solid)
        ])

  tail_Freed :
      (rgn.region i).base < base
      → end_of (rgn.region i) ≡ base + size
      → let p = rgn.region i in
        let tail : LmbProperty = record p { size = sub64 p.size size } in
        Freed rgn base size (pos 0, record rgn { region = update rgn.region i tail })
  tail_Freed after ends =
      shrunk-Freed rgn i base size w inside pos_size low high _ (ground (arith, solid))
        (ground (arith, solid)) (ground (arith, solid)) (λ a held range. ground (arith, solid))
        (λ a held out. elim (dec_lt a base) [
          | yes before ↦ ground (arith, solid)
          | no past ↦ absurd (out (ground (arith, solid)))
        ])

  pub free_at-Freed : Freed rgn base size (free_at rgn i base size (base + size))
  unfolding free_at
  free_at-Freed = elim (Bool-cases ((rgn.region i).base == base)) [
    | inl begins ↦
        elim (Bool-cases (add64 (rgn.region i).base (rgn.region i).size == base + size)) [
          | inl ends ↦
              rw (begins, ends)
                (whole-Freed rgn i base size w inside pos_size low high (ground arith)
                  (ground (arith, solid)))
          | inr more ↦ rw (begins, more) (head_Freed (ground arith) (ground (arith, solid)))
        ]
    | inr later ↦ elim (Bool-cases (add64 (rgn.region i).base (rgn.region i).size == base + size)) [
      | inl ends ↦ rw (later, ends) (tail_Freed (ground arith) (ground (arith, solid)))
      | inr more ↦ rw (later, more) (middle-Freed (ground arith) (ground (arith, solid)))
    ]
  ]

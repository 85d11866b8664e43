-- ===== src/Lmb/Ops/Free.antt =====
-- `lmb_free`: the addresses that it gives back.
use shield_tv_loader.Base.{
  ℕ, zero, suc, ◌+◌, ◌-◌, ◌≤◌, ◌<◌, ◌≡◌, ◌≢◌, ◌⊎◌, inl, inr, true, false, arith, u64_mod, add64, ℤ,
  pos, is_neg, update, dec_lt, ℕ_discrete,
}
use shield_tv_loader.Lmb.{LmbProperty, LmbRegion, lmb_remove_region, max_lmb_regions}
use shield_tv_loader.Lmb.Sorted.{
  IsSorted, IsWf, IsSolid, end_of, Covered, Covers, Holds, ordered_far,
}
use shield_tv_loader.Lmb.Remove.{
  removed, removed-IsSorted, removed_keeps, removed_only, lmb_remove_region-cnt,
  lmb_remove_region-region,
}
use shield_tv_loader.Lmb.Add.Result.{IsSeparated}
use shield_tv_loader.Lmb.Ops.{find_holder}

pub find_holder_sound :
    (base end n i : ℕ) (region : ℕ → LmbProperty)
    → find_holder base end n i region < i + n
    → let p = region (find_holder base end n i region) in
      (p.base ≤ base) × (end ≤ add64 p.base p.size)
unfolding find_holder
find_holder_sound base end zero i region h = absurd (omega arith)
find_holder_sound base end (suc n) i region h =
    ground (arith, find_holder_sound base end n (i + 1) region)

pub find_holder-le :
    (base end n i : ℕ) (region : ℕ → LmbProperty) → find_holder base end n i region ≤ i + n
unfolding find_holder
find_holder-le base end zero i region = omega arith
find_holder-le base end (suc n) i region = ground (arith, find_holder-le base end n (i + 1) region)

abbrev pub InRange : ℕ → ℕ → ℕ → Type 0
InRange base size a = (base ≤ a) × (a < base + size)

-- No address of the range is covered afterwards, and none is covered that was not; on success all
-- others are covered as before; a refusal leaves the table as it was, or found it full. The table
-- keeps the invariant, or has no region left.
pub record Freed (rgn : LmbRegion) (base size : ℕ) (r : ℤ × LmbRegion) : Type 0 where
  pub only : (a : ℕ) → Covers r.1 a → Covers rgn a × (¬ InRange base size a)
  pub rest : is_neg r.0 ≡ false → (a : ℕ) → Covers rgn a → (¬ InRange base size a) → Covers r.1 a
  pub refused : is_neg r.0 ≡ true → max_lmb_regions ≤ rgn.cnt
  pub wf : IsWf r.1 ⊎ (r.1.cnt ≡ 0)

-- The range lies in region `i`.
module _ (rgn : LmbRegion) (i base size : ℕ) (w : IsWf rgn) (inside : i < rgn.cnt)
    (pos_size : 0 < size) (low : (rgn.region i).base ≤ base)
    (high : base + size ≤ end_of (rgn.region i)) where
  -- The other regions do not meet the range.
  pub others : (j a : ℕ) → j < rgn.cnt → j ≢ i → Holds (rgn.region j) a → ¬ InRange base size a
  others j a h ne held range = elim (dec_lt i j) [
    | yes after ↦ omega (arith, ordered_far rgn.cnt rgn.region i j w.sorted after h)
    | no before ↦ omega (arith, ordered_far rgn.cnt rgn.region j i w.sorted (omega arith) inside)
  ]

  small : rgn.cnt < u64_mod
  small = omega (arith, w.room)

  remaining-IsSorted : IsSorted (rgn.cnt - 1) (removed i rgn.cnt rgn.region)
  remaining-IsSorted =
      removed-IsSorted rgn.cnt rgn.region i (λ j h _. w.sorted.solid j h)
        (λ j h _ _. w.sorted.ordered j h)
        (λ j e h. ordered_far rgn.cnt rgn.region j (j + 2) w.sorted (omega arith) h)

  removed-IsWf : IsWf (lmb_remove_region rgn i) ⊎ ((lmb_remove_region rgn i).cnt ≡ 0)
  removed-IsWf =
      let cnts = lmb_remove_region-cnt rgn i inside small in
      elim (ℕ_discrete rgn.cnt 1) [
        | yes one ↦ inr (omega arith)
        | no more ↦ inl (record {
          nonempty = omega (arith, w.nonempty);
          room = omega (arith, w.room);
          sorted = rw (cnts, lmb_remove_region-region rgn i inside small) remaining-IsSorted;
        })
      ]

  removed-out :
      (a : ℕ)
      → Covered (rgn.cnt - 1) (removed i rgn.cnt rgn.region) a
      → Covers rgn a × (¬ InRange base size a)
  removed-out a c =
      let (j, h, ne, held) = removed_only rgn.cnt rgn.region i a c in
      ((j, h, held), others j a h ne held)

  removed-rest :
      (rgn.region i).base ≡ base
      → end_of (rgn.region i) ≡ base + size
      → (a : ℕ) → Covers rgn a
      → (¬ InRange base size a)
      → Covered (rgn.cnt - 1) (removed i rgn.cnt rgn.region) a
  removed-rest begins ends a (j, h, held) out = elim (ℕ_discrete j i) [
    | yes here ↦ absurd (out (ground arith))
    | no other ↦ removed_keeps rgn.cnt rgn.region i a j h other inside held
  ]

  pub whole-Freed :
      (rgn.region i).base ≡ base
      → end_of (rgn.region i) ≡ base + size
      → Freed rgn base size (pos 0, lmb_remove_region rgn i)
  whole-Freed begins ends =
      let cnts = lmb_remove_region-cnt rgn i inside small in
      let regions = lmb_remove_region-region rgn i inside small in
      record {
        only = rw (cnts, regions) removed-out;
        rest = λ _. rw (cnts, regions) (removed-rest begins ends);
        refused = λ e. cc;
        wf = removed-IsWf;
      }

  -- Region `i` gives way to a part of it outside the range.
  module _ (q : LmbProperty) (solid : IsSolid q) (from : (rgn.region i).base ≤ q.base)
      (to : end_of q ≤ end_of (rgn.region i))
      (apart : (a : ℕ) → Holds q a → ¬ InRange base size a) where
    abbrev pub shrunk : LmbRegion
    shrunk = record rgn { region = update rgn.region i q }

    pub shrunk-IsWf : IsWf shrunk
    shrunk-IsWf = record {
      nonempty = w.nonempty;
      room = w.room;
      sorted = record {
        solid = λ j h. ground (arith, w.sorted.solid j);
        ordered = λ j h. ground (arith, w.sorted.ordered j);
      };
    }

    pub shrunk-only : (a : ℕ) → Covers shrunk a → Covers rgn a × (¬ InRange base size a)
    shrunk-only a (j, h, held) = elim (ℕ_discrete j i) [
      | yes here ↦ ((i, inside, ground arith), apart a (ground arith))
      | no other ↦ ((j, h, ground arith), others j a h other (ground arith))
    ]

    pub shrunk-rest :
        ((a : ℕ) → Holds (rgn.region i) a → (¬ InRange base size a) → Holds q a)
        → (a : ℕ) → Covers rgn a
        → (¬ InRange base size a)
        → Covers shrunk a
    shrunk-rest keeps a (j, h, held) out = elim (ℕ_discrete j i) [
      | yes here ↦ (i, inside, ground (arith, keeps a (ground arith) out))
      | no other ↦ (j, h, ground arith)
    ]

    pub shrunk-Freed :
        ((a : ℕ) → Holds (rgn.region i) a → (¬ InRange base size a) → Holds q a)
        → Freed rgn base size (pos 0, shrunk)
    shrunk-Freed keeps = record {
      only = shrunk-only;
      rest = λ _. shrunk-rest keeps;
      refused = λ e. cc;
      wf = inl shrunk-IsWf;
    }

    pub shrunk-IsSeparated :
        q.base ≡ (rgn.region i).base
        → q.tag ≡ (rgn.region i).tag
        → q.type ≡ (rgn.region i).type
        → end_of q < end_of (rgn.region i)
        → IsSeparated rgn
        → IsSeparated shrunk
    shrunk-IsSeparated same_base same_tag same_type less sep k t = sep k (record {
      inside = t.inside;
      touch = ground (arith, t.touch, t.inside, w.sorted.ordered k);
      same_tag = ground (arith, t.touch, t.inside, t.same_tag, w.sorted.ordered k);
      same_type = ground (arith, t.touch, t.inside, t.same_type, w.sorted.ordered k);
    })

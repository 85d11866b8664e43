-- ===== src/Lmb/Add/Result.antt =====
-- `lmb_add_region` as a whole, on a range that overlaps no region of the table.
use shield_tv_loader.Base.{
  ℕ, ◌≤◌, u64_mod, ◌<◌, ◌≡◌, refl, ◌⊎◌, inl, inr, true, false, arith, update, leb, Bool-cases, ℤ,
  pos, negsuc, is_neg,
}
use mathlib.Core.Bool.{true≢false}
use shield_tv_loader.Lmb.{
  LmbProperty, LmbRegion, Scan, new_property, merges_next, merge_next, finish_add, is_dummy,
  lmb_add_region, after_scan, max_lmb_regions, insert_region,
}
use shield_tv_loader.Lmb.Sorted.{IsWf, IsClear, IsSolid, Covers, Holds}
use shield_tv_loader.Lmb.Add.Insert.{Adds, insert_region-Adds, cnt-insert_region}
use shield_tv_loader.Lmb.Add.Grow.{grow_down-Adds, grow_up-Adds}
use shield_tv_loader.Lmb.Add.Merge.{merge_next-SameCover, Touch, merges_next-Touch}
use shield_tv_loader.Lmb.Add.Scan.{Scanned, kept, lowered, raised, coalesce_scan-Scanned}

-- A table in use, or the one with the empty entry of `lmb_init`.
abbrev pub IsTable : LmbRegion → Type 0
IsTable rgn = ((is_dummy rgn ≡ true) × ((rgn.region 0).base < u64_mod)) ⊎ IsWf rgn

-- No region touches the next one with the same tag and type.
abbrev pub IsSeparated : LmbRegion → Type 0
IsSeparated rgn = (k : ℕ) → ¬ Touch rgn k

-- The invariant holds again; no address is given up; no address is taken but those of the new
-- region; on success the new region is covered, where no two regions of one kind touched before; on
-- failure the table is full and left as it was.
pub record Outcome (rgn : LmbRegion) (p : LmbProperty) (r : ℤ × LmbRegion) : Type 0 where
  pub wf : IsWf r.1
  pub old : (a : ℕ) → Covers rgn a → Covers r.1 a
  pub only : (a : ℕ) → Covers r.1 a → Covers rgn a ⊎ Holds p a
  pub new : IsSeparated rgn → is_neg r.0 ≡ false → (a : ℕ) → Holds p a → Covers r.1 a
  pub full : is_neg r.0 ≡ true → (r.1 ≡ rgn) × (max_lmb_regions ≤ rgn.cnt)

merge_next-count : (rgn : LmbRegion) (k c : ℕ) → c ≤ (merge_next rgn k c).1
unfolding merge_next
merge_next-count rgn k c = ground arith

pub merge_next-kept :
    (rgn : LmbRegion) (k c : ℕ) → merges_next rgn k ≡ false → merge_next rgn k c ≡ (rgn, c)
unfolding merge_next
merge_next-kept rgn k c e = rw e

pub merge_next-count_pos :
    (rgn : LmbRegion) (k c : ℕ) → merges_next rgn k ≡ true → 0 < (merge_next rgn k c).1
unfolding merge_next
merge_next-count_pos rgn k c e = ground arith

module _ (base size type tag : ℕ) where
  abbrev finished : LmbRegion → ℕ → ℕ → ℤ × LmbRegion
  finished rgn k c = finish_add base size type tag (merge_next rgn k c)

  pub finish_grown :
      (r : LmbRegion × ℕ) → 0 < r.1 → finish_add base size type tag r ≡ (pos r.1, r.0)
  unfolding finish_add
  finish_grown (rgn, c) h = ground arith

  grown-Outcome :
      (rgn : LmbRegion) (region : ℕ → LmbProperty) (k : ℕ)
      → IsWf rgn
      → Adds rgn.cnt rgn.region (new_property base size type tag) rgn.cnt region
      → Outcome rgn
          (new_property base size type tag)
          (finished (record rgn { region = region }) k 1)
  grown-Outcome rgn region k w adds =
      let rgn' : LmbRegion = record rgn { region = region } in
      let w' : IsWf rgn' = record { nonempty = w.nonempty; room = w.room; sorted = adds.sorted } in
      let same = merge_next-SameCover rgn' k 1 w' in
      rw (finish_grown (merge_next rgn' k 1) (merge_next-count rgn' k 1)) (record {
        wf = same.wf;
        old = λ a c. same.old a (adds.old a c);
        only = λ a c. adds.only a (same.only a c);
        new = λ _ _ a held. same.old a (adds.new a held);
        full = λ e. cc;
      })

  -- Two regions touch and merge, and the new one is not added.
  merged-Outcome :
      (rgn : LmbRegion) (k : ℕ)
      → IsWf rgn
      → merges_next rgn k ≡ true
      → Outcome rgn (new_property base size type tag) (finished rgn k 0)
  merged-Outcome rgn k w e =
      let same = merge_next-SameCover rgn k 0 w in
      rw (finish_grown (merge_next rgn k 0) (merge_next-count_pos rgn k 0 e)) (record {
        wf = same.wf;
        old = same.old;
        only = λ a c. inl (same.only a c);
        new = λ separated _ a held. absurd (separated k (merges_next-Touch rgn k w e));
        full = λ f. cc;
      })

  inserted-Outcome :
      (rgn : LmbRegion)
      → IsWf rgn
      → rgn.cnt < max_lmb_regions
      → IsSolid (new_property base size type tag)
      → IsClear base size rgn.cnt rgn.region
      → Outcome rgn (new_property base size type tag) (pos 0, insert_region base size type tag rgn)
  inserted-Outcome rgn w room solid clear =
      let adds = insert_region-Adds base size type tag rgn w solid clear in
      let cnts = cnt-insert_region base size type tag rgn w in
      record {
        wf = record { nonempty = omega arith; room = omega arith; sorted = adds.sorted };
        old = adds.old;
        only = adds.only;
        new = λ _ _ a held. adds.new a held;
        full = λ f. cc;
      }

  full-Outcome :
      (rgn : LmbRegion) (p : LmbProperty)
      → IsWf rgn
      → max_lmb_regions ≤ rgn.cnt
      → Outcome rgn p (negsuc 0, rgn)
  full-Outcome rgn p w h = record {
    wf = w;
    old = λ a c. c;
    only = λ a c. inl c;
    new = λ _ f a held. absurd (true≢false f);
    full = λ _. (refl, h);
  }

  kept-Outcome :
      (rgn : LmbRegion) (k : ℕ)
      → IsWf rgn
      → IsSolid (new_property base size type tag)
      → IsClear base size rgn.cnt rgn.region
      → Outcome rgn (new_property base size type tag) (finished rgn k 0)
  unfolding finish_add
  kept-Outcome rgn k w solid clear = elim (Bool-cases (merges_next rgn k)) [
    | inl e ↦ merged-Outcome rgn k w e
    | inr e ↦ rw (merge_next-kept rgn k 0 e) (elim (Bool-cases (leb max_lmb_regions rgn.cnt)) [
      | inl h ↦ rw h (full-Outcome rgn _ w (ground arith))
      | inr h ↦ rw h (inserted-Outcome rgn w (ground arith) solid clear)
    ])
  ]

  after_scan-Outcome :
      (rgn : LmbRegion) {scan : Scan}
      → IsWf rgn
      → IsSolid (new_property base size type tag)
      → IsClear base size rgn.cnt rgn.region
      → Scanned base size type tag rgn.cnt rgn.region scan
      → Outcome rgn (new_property base size type tag) (after_scan rgn base size type tag scan)
  unfolding after_scan
  after_scan-Outcome rgn w solid clear (kept k) = kept-Outcome rgn k w solid clear
  after_scan-Outcome rgn w solid clear (lowered k h e) =
      grown-Outcome rgn _ k w
        (grow_down-Adds base size type tag rgn.cnt rgn.region k w.sorted h solid clear e)
  after_scan-Outcome rgn w solid clear (raised k h e) =
      grown-Outcome rgn _ k w
        (grow_up-Adds base size type tag rgn.cnt rgn.region k w.sorted h solid clear e)

pub is_dummy-cnt : (rgn : LmbRegion) → is_dummy rgn ≡ true → rgn.cnt ≡ 1
unfolding is_dummy
is_dummy-cnt rgn e = ground arith

pub is_dummy-size : (rgn : LmbRegion) → is_dummy rgn ≡ true → (rgn.region 0).size ≡ 0
unfolding is_dummy
is_dummy-size rgn e = ground arith

pub not-Covers-dummy : (rgn : LmbRegion) (a : ℕ) → is_dummy rgn ≡ true → ¬ Covers rgn a
not-Covers-dummy rgn a e (i, h, held) = ground (arith, is_dummy-cnt rgn e, is_dummy-size rgn e)

pub IsWf-is_dummy : (rgn : LmbRegion) → IsWf rgn → is_dummy rgn ≡ false
unfolding is_dummy
IsWf-is_dummy rgn w = ground (arith, w.nonempty, w.sorted.solid 0)

filled-Outcome :
    (rgn : LmbRegion) (p : LmbProperty)
    → is_dummy rgn ≡ true
    → IsSolid p
    → Outcome rgn p (pos 0, record rgn { region = update rgn.region 0 p })
filled-Outcome rgn p e solid =
    let one : rgn.cnt ≡ 1 = is_dummy-cnt rgn e in
    record {
      wf = record {
        nonempty = omega arith;
        room = omega arith;
        sorted = record { solid = λ i h. ground arith; ordered = λ i h. absurd (omega arith) };
      };
      old = λ a c. absurd (not-Covers-dummy rgn a e c);
      only = λ a c. inr (ground arith);
      new = λ _ _ a held. (0, omega arith, held);
      full = λ f. cc;
    }

-- The whole of `lmb_add_region`, on every branch.
pub lmb_add_region-Outcome :
    (rgn : LmbRegion) (base size type tag : ℕ)
    → IsTable rgn
    → IsSolid (new_property base size type tag)
    → IsClear base size rgn.cnt rgn.region
    → Outcome rgn (new_property base size type tag) (lmb_add_region rgn base size type tag)
unfolding lmb_add_region
lmb_add_region-Outcome rgn base size type tag (inl (dummy, _)) solid clear =
    rw dummy (filled-Outcome rgn (new_property base size type tag) dummy solid)
lmb_add_region-Outcome rgn base size type tag (inr w) solid clear = rw (IsWf-is_dummy rgn w) (
    after_scan-Outcome base size type tag rgn w solid clear (
      coalesce_scan-Scanned base size type tag rgn.cnt rgn.region w.sorted solid clear rgn.cnt 0
        (omega arith)))

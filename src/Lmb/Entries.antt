-- ===== src/Lmb/Entries.antt =====
-- The array loops of lmb.c, entry by entry: what each entry is after regions are moved down or up.
use shield_tv_loader.Base.{
  ℕ, zero, suc, ◌+◌, ◌-◌, ◌≤◌, ◌≡◌, refl, ◌&&◌, ltb, leb, ◌==◌, if◌then◌else◌, update, arith,
  Bool-cases, inl, inr,
}
use shield_tv_loader.Lmb.{LmbProperty, shift_down, new_property, shift_up}

pub shift_down-get :
    (n i : ℕ) (region : ℕ → LmbProperty) (j : ℕ)
    → shift_down n i region j ≡ (if leb i j && ltb j (i + n) then region (j + 1) else region j)
unfolding shift_down
shift_down-get zero i region j = ground arith
shift_down-get (suc n) i region j =
    ground (arith, shift_down-get n (i + 1) (update region i (region (i + 1))) j)

module _ (base size type tag : ℕ) where
  -- Where the insertion puts the new region among the first `n`.
  unfoldable pub slot : ℕ → (ℕ → LmbProperty) → ℕ
  slot zero region = zero
  slot (suc n) region = if ltb base (region n).base then slot n region else suc n

  pub slot-le : (n : ℕ) (region : ℕ → LmbProperty) → slot n region ≤ n
  unfolding slot
  slot-le zero region = omega arith
  slot-le (suc n) region = ground (arith, slot-le n region)

  slot-update :
      (m n : ℕ) (region : ℕ → LmbProperty) (p : LmbProperty)
      → m ≤ n
      → slot m (update region n p) ≡ slot m region
  unfolding slot
  slot-update zero n region p h = refl
  slot-update (suc m) n region p h = ground (arith, slot-update m n region p)

  -- The first `n` regions with a new one at `at` below them.
  abbrev pub opened : ℕ → ℕ → (ℕ → LmbProperty) → ℕ → LmbProperty
  opened at n region j =
      if j == at && ltb 0 j
      then new_property base size type tag
      else if ltb at j && leb j n
      then region (j - 1)
      else region j

  opened-update :
      (at n : ℕ) (region : ℕ → LmbProperty) (j : ℕ)
      → at ≤ n
      → opened at n (update region (n + 1) (region n)) j ≡ opened at (suc n) region j
  opened-update at n region j h = ground arith

  opened-last :
      (n : ℕ) (region : ℕ → LmbProperty) (j : ℕ)
      → update region (n + 1) (new_property base size type tag) j ≡ opened (suc n) (suc n) region j
  opened-last n region j = ground arith

  pub shift_up-get :
      (n : ℕ) (region : ℕ → LmbProperty) (j : ℕ)
      → shift_up base size type tag n region j ≡ opened (slot n region) n region j
  unfolding shift_up slot
  shift_up-get zero region j = ground arith
  shift_up-get (suc n) region j = elim (Bool-cases (ltb base (region n).base)) [
    | inl above ↦
        let moved : ℕ → LmbProperty = update region (n + 1) (region n) in
        rw (above, shift_up-get n moved j, slot-update n (n + 1) region (region n) (omega arith))
          (opened-update (slot n region) n region j (slot-le n region))
    | inr here ↦ rw here (opened-last n region j)
  ]

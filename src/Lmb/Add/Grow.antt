-- ===== src/Lmb/Add/Grow.antt =====
-- The two ways in which `lmb_add_region` grows a region that the new one touches.
use shield_tv_loader.Base.{ℕ, ◌+◌, ◌≤◌, ◌<◌, ◌≡◌, ◌⊎◌, inl, inr, arith, ℕ_discrete, update}
use shield_tv_loader.Lmb.{LmbProperty, new_property, grow_down, grow_up}
use shield_tv_loader.Lmb.Sorted.{IsSorted, IsClear, Covered, Holds, end_of, IsSolid, ordered_far}
use shield_tv_loader.Lmb.Add.Insert.{Adds}

-- Region `k` is replaced by one that covers it and the new region.
module _ (n : ℕ) (region : ℕ → LmbProperty) (k : ℕ) (p q : LmbProperty) (s : IsSorted n region)
    (h : k < n) (solid : IsSolid q) (below : (i : ℕ) → i < k → end_of (region i) ≤ q.base)
    (above : (i : ℕ) → k < i → i < n → end_of q ≤ (region i).base)
    (both : (a : ℕ) → Holds (region k) a ⊎ Holds p a → Holds q a)
    (only : (a : ℕ) → Holds q a → Holds (region k) a ⊎ Holds p a) where
  update-ordered :
      (i : ℕ) → i + 1 < n → end_of (update region k q i) ≤ (update region k q (i + 1)).base
  update-ordered i below_n = ground (arith, s.ordered i, below i, above (i + 1))

  update-only : (a : ℕ) → Covered n (update region k q) a → Covered n region a ⊎ Holds p a
  update-only a (i, below_n, held) = elim (ℕ_discrete i k) [
    | yes here ↦ elim (only a (ground arith)) [ inl there ↦ inl (k, h, there) | inr new ↦ inr new ]
    | no other ↦ inl (i, below_n, ground arith)
  ]

  update-old : (a : ℕ) → Covered n region a → Covered n (update region k q) a
  update-old a (i, below_n, held) = elim (ℕ_discrete i k) [
    | yes here ↦ (k, h, ground (arith, both a (inl (ground arith))))
    | no other ↦ (i, below_n, ground arith)
  ]

  update-Adds : Adds n region p n (update region k q)
  update-Adds = record {
    sorted = record { solid = λ i below_n. ground (arith, s.solid i); ordered = update-ordered };
    old = update-old;
    new = λ a held. (k, h, ground (arith, both a (inr held)));
    only = update-only;
  }

module _ (base size type tag n : ℕ) (region : ℕ → LmbProperty) (k : ℕ) (s : IsSorted n region)
    (h : k < n) (solid : IsSolid (new_property base size type tag))
    (clear : IsClear base size n region) where
  -- The new region ends where region `k` begins.
  pub grow_down-Adds :
      base + size ≡ (region k).base
      → Adds n region
          (new_property base size type tag)
          n
          (update region k (grow_down base size type tag (region k)))
  unfolding new_property grow_down
  grow_down-Adds touch =
      update-Adds n region k (new_property base size type tag)
        (grow_down base size type tag (region k)) s h (ground (arith, s.solid k h))
        (λ i below.
          ground (arith, s.solid k h, ordered_far n region i k s below h, s.solid i, clear i))
        (λ i above below_n. ground (arith, s.solid k h, ordered_far n region k i s above below_n))
        (λ a held. ground (arith, s.solid k h)) (λ a held. ground (arith, s.solid k h))

  -- The new region begins where region `k` ends.
  pub grow_up-Adds :
      end_of (region k) ≡ base
      → Adds n region
          (new_property base size type tag)
          n
          (update region k (grow_up base size type tag (region k)))
  unfolding new_property grow_up
  grow_up-Adds touch =
      update-Adds n region k (new_property base size type tag)
        (grow_up base size type tag (region k)) s h (ground (arith, s.solid k h))
        (λ i below. ground (arith, s.solid k h, ordered_far n region i k s below h))
        (λ i above below_n.
          ground (arith, s.solid k h, ordered_far n region k i s above below_n, s.solid i, clear i))
        (λ a held. ground (arith, s.solid k h)) (λ a held. ground (arith, s.solid k h))

-- ===== src/Lmb/Init.antt =====
-- `lmb_init`.
use shield_tv_loader.Base.{ℕ, ◌≡◌, refl, inl, true, arith}
use shield_tv_loader.Lmb.{Lmb, LmbProperty, dummy_region, is_dummy, lmb_init}
use shield_tv_loader.Lmb.Sorted.{Covers}
use shield_tv_loader.Lmb.Add.Result.{IsTable, not-Covers-dummy}

dummy_region-is_dummy : (region : ℕ → LmbProperty) → is_dummy (dummy_region region) ≡ true
unfolding is_dummy dummy_region
dummy_region-is_dummy region = refl

-- Whatever the arrays held, the tables that `lmb_init` leaves are fit for use and cover nothing.
pub lmb_init-IsTable :
    (lmb : Lmb)
    → IsTable (lmb_init lmb).memory
      × IsTable (lmb_init lmb).reserved
      × ((a : ℕ) → ¬ Covers (lmb_init lmb).memory a)
      × ((a : ℕ) → ¬ Covers (lmb_init lmb).reserved a)
unfolding lmb_init
lmb_init-IsTable lmb =
    let memory = dummy_region-is_dummy lmb.memory.region in
    let reserved = dummy_region-is_dummy lmb.reserved.region in
    (
      inl (memory, omega arith),
      inl (reserved, omega arith),
      λ a. not-Covers-dummy (dummy_region lmb.memory.region) a memory,
      λ a. not-Covers-dummy (dummy_region lmb.reserved.region) a reserved,
    )

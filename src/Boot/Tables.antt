-- ===== src/Boot/Tables.antt =====
-- The tables that main hands to fb_launch.
use shield_tv_loader.Base.{
  ℕ, ◌≡◌, refl, sym, ◌∙◌, ap, List, [], ◌∷◌, Option, none, some, arith, Option-cases, inl, inr,
}
use mathlib.Core.Option.{some-injective}
use shield_tv_loader.Lmb.{Lmb, lmb_init, lmb_boot, lmb_tag}
use shield_tv_loader.Lmb.Ops.Known.{lmb_reserve_memory}
use shield_tv_loader.Boot.{
  parse_range, parse_and_reserve_range, Fdt, reserve_all, add_memory, reserve_ranges, reserve_found,
  main_tables,
}

reserve_all-memory :
    (ranges : List (ℕ × ℕ)) (lmb : Lmb) → (reserve_all lmb ranges).memory ≡ lmb.memory
unfolding reserve_all
reserve_all-memory [] lmb = refl
reserve_all-memory ((base, size) ∷ rest) lmb =
    reserve_all-memory rest _
    ∙ lmb_reserve_memory lmb base size lmb_boot (lmb_tag b'R' b'E' b'S' b'V')

parse_and_reserve_range-memory :
    (lmb : Lmb) (cmdline : Option (List ℕ)) (name : List ℕ) (type tag : ℕ)
    → (parse_and_reserve_range lmb cmdline name type tag).1.memory ≡ lmb.memory
unfolding parse_and_reserve_range
parse_and_reserve_range-memory lmb cmdline name type tag = step (parse_range cmdline name) refl
  where
    step :
        (o : Option (ℕ × ℕ))
        → parse_range cmdline name ≡ o
        → (parse_and_reserve_range lmb cmdline name type tag).1.memory ≡ lmb.memory
    step none e = rw (e, parse_and_reserve_range) refl
    step (some (b, s)) e = rw (e, parse_and_reserve_range) (lmb_reserve_memory lmb b s type tag)

reserve_ranges-memory :
    (fdt : Fdt) (image_start image_end : ℕ) (lmb : Lmb)
    → (reserve_ranges fdt image_start image_end lmb).memory ≡ lmb.memory
unfolding reserve_ranges
reserve_ranges-memory fdt image_start image_end lmb =
    simp (reserve_all-memory, lmb_reserve_memory, parse_and_reserve_range-memory) refl

-- When main reaches fb_launch, its memory table is what the loop over the memory nodes made of the
-- one that lmb_init leaves: no reservation changes it.
pub main_tables-memory :
    (fdt : Fdt) (image_start image_end : ℕ) (lmb l : Lmb)
    → main_tables fdt image_start image_end lmb ≡ some l
    → (l0 : Lmb) × (add_memory (lmb_init lmb) fdt.memory ≡ some l0) × (l.memory ≡ l0.memory)
unfolding main_tables reserve_found
main_tables-memory fdt image_start image_end lmb l e =
    elim (Option-cases (add_memory (lmb_init lmb) fdt.memory)) [
      | inl f ↦
          let stop : none ≡ some l = sym (ap (reserve_found fdt image_start image_end) f) ∙ e in
          absurd (ground (arith, stop))
      | inr (l0, f) ↦
          let same : some (reserve_ranges fdt image_start image_end l0) ≡ some l =
            sym (ap (reserve_found fdt image_start image_end) f) ∙ e in
          (
            l0,
            f,
            sym (ap (λ (t : Lmb). t.memory) (some-injective _ _ same))
                ∙ reserve_ranges-memory fdt image_start image_end l0,
          )
    ]

-- ===== src/Lmb.antt =====
-- lmb.c and lmb.h: the table of memory regions and the table of reservations, the operations on
-- one table, and the operations on both. A table's array has 33 entries, of which `cnt` are in use;
-- it is a function from the index, so that the entries past `cnt` keep their old values as in C.
pub mod Ops
pub mod Entries
pub mod Sorted
pub mod Remove
pub mod Init
pub mod Add
use shield_tv_loader.Base.{
  ℕ, zero, suc, ◌+◌, ◌-◌, ◌*◌, ◌^◌, Bool, true, false, ◌&&◌, ◌||◌, ltb, leb, ◌==◌, if◌then◌else◌, ℤ,
  pos, negsuc, is_neg, update, add64, sub64,
}

abbrev pub lmb_invalid : ℕ
lmb_invalid = 0

abbrev pub lmb_free_type : ℕ
lmb_free_type = 1

abbrev pub lmb_boot : ℕ
lmb_boot = 2

abbrev pub lmb_runtime : ℕ
lmb_runtime = 3

abbrev pub lmb_mmio : ℕ
lmb_mmio = 4

abbrev pub max_lmb_regions : ℕ
max_lmb_regions = 32

abbrev pub lmb_alloc_anywhere : ℕ
lmb_alloc_anywhere = 0

abbrev pub lmb_alloc_32bit : ℕ
lmb_alloc_32bit = 0xffff_ffff

-- `_LMB_TAG(a, b, c, d)`: four bytes, the first lowest.
abbrev pub lmb_tag : ℕ → ℕ → ℕ → ℕ → ℕ
lmb_tag a b c d = d * 2 ^ 24 + c * 2 ^ 16 + b * 2 ^ 8 + a

abbrev pub lmb_tag_none : ℕ
lmb_tag_none = lmb_tag b'N' b'O' b'N' b'E'

pub record LmbProperty : Type 0 where
  pub base : ℕ
  pub size : ℕ
  pub tag : ℕ
  pub type : ℕ

pub record LmbRegion : Type 0 where
  pub cnt : ℕ
  pub region : ℕ → LmbProperty

pub record Lmb : Type 0 where
  pub memory : LmbRegion
  pub reserved : LmbRegion

pub lmb_addrs_overlap : ℕ → ℕ → ℕ → ℕ → Bool
lmb_addrs_overlap base1 size1 base2 size2 =
    ltb base1 (add64 base2 size2) && ltb base2 (add64 base1 size1)

pub lmb_addrs_adjacent : ℕ → ℕ → ℕ → ℕ → ℤ
lmb_addrs_adjacent base1 size1 base2 size2 =
    if base2 == add64 base1 size1
    then pos 1
    else if base1 == add64 base2 size2
    then negsuc 0
    else pos 0

pub lmb_regions_adjacent : LmbRegion → ℕ → ℕ → ℤ
unfolding lmb_addrs_adjacent
lmb_regions_adjacent rgn r1 r2 =
    lmb_addrs_adjacent (rgn.region r1).base (rgn.region r1).size (rgn.region r2).base
      (rgn.region r2).size

-- `for (; n; n--, i++) region[i] = region[i + 1]`, field by field in the source.
pub shift_down : ℕ → ℕ → (ℕ → LmbProperty) → ℕ → LmbProperty
shift_down zero i region = region
shift_down (suc n) i region = shift_down n (i + 1) (update region i (region (i + 1)))

pub lmb_remove_region : LmbRegion → ℕ → LmbRegion
unfolding shift_down
lmb_remove_region rgn r = record {
  cnt = sub64 rgn.cnt 1;
  region = shift_down (sub64 rgn.cnt 1 - r) r rgn.region;
}

pub lmb_coalesce_regions : LmbRegion → ℕ → ℕ → LmbRegion
unfolding lmb_remove_region
lmb_coalesce_regions rgn r1 r2 =
    let grown : LmbProperty = record (rgn.region r1) {
      size = add64 (rgn.region r1).size (rgn.region r2).size;
    } in
    lmb_remove_region (record rgn { region = update rgn.region r1 grown }) r2

-- A table with the one empty entry that `lmb_init` makes. The entries above 0 are not written.
pub dummy_region : (ℕ → LmbProperty) → LmbRegion
dummy_region region =
    let empty : LmbProperty = record {
      base = 0;
      size = 0;
      tag = lmb_tag_none;
      type = lmb_invalid;
    } in
    record { cnt = 1; region = update region 0 empty }

pub lmb_init : Lmb → Lmb
unfolding dummy_region
lmb_init lmb = record {
  memory = dummy_region lmb.memory.region;
  reserved = dummy_region lmb.reserved.region;
}

pub is_pos : ℤ → Bool
is_pos (pos zero) = false
is_pos (pos (suc n)) = true
is_pos (negsuc n) = false

-- How the first loop of `lmb_add_region` ends: by `return -1`, or with the index that it leaves in
-- `i`, the array and the count of regions grown.
pub data Scan : Type 0 where
  overlaps : Scan
  stopped : ℕ → (ℕ → LmbProperty) → ℕ → Scan

-- The parameters of `lmb_add_region` but for the table.
module _ (base size type tag : ℕ) where
  pub new_property : LmbProperty
  new_property = record { base = base; size = size; tag = tag; type = type }

  pub same_kind : LmbProperty → Bool
  same_kind p = (tag == p.tag) && (type == p.type)

  pub grow_down : LmbProperty → LmbProperty
  grow_down p = record p { base = sub64 p.base size; size = add64 p.size size }

  pub grow_up : LmbProperty → LmbProperty
  grow_up p = record p { size = add64 p.size size }

  -- `n` rounds are left, from index `i`.
  pub coalesce_scan : ℕ → ℕ → (ℕ → LmbProperty) → Scan
  unfolding lmb_addrs_overlap lmb_addrs_adjacent is_pos same_kind grow_down grow_up
  coalesce_scan zero i region = stopped i region 0
  coalesce_scan (suc n) i region =
      let p = region i in
      let rest = coalesce_scan n (i + 1) region in
      let adjacent = lmb_addrs_adjacent base size p.base p.size in
      let same = same_kind p in
      if lmb_addrs_overlap base size p.base p.size
      then overlaps
      else if is_pos adjacent
      then (if same then stopped i (update region i (grow_down p)) 1 else stopped i region 0)
      else if is_neg adjacent
      then (if same then stopped i (update region i (grow_up p)) 1 else stopped i region 0)
      else rest

  -- `for (i = n - 1; i >= 0; i--)` of the insertion.
  pub shift_up : ℕ → (ℕ → LmbProperty) → ℕ → LmbProperty
  unfolding new_property
  shift_up zero region = region
  shift_up (suc n) region =
      let rest = shift_up n (update region (n + 1) (region n)) in
      if ltb base (region n).base then rest else update region (n + 1) new_property

  pub insert_region : LmbRegion → LmbRegion
  unfolding shift_up new_property
  insert_region rgn =
      let moved = shift_up rgn.cnt rgn.region in
      record {
        cnt = add64 rgn.cnt 1;
        region = if ltb base (moved 0).base then update moved 0 new_property else moved;
      }

-- Whether the region at `i` is merged with the next one, after the scan.
pub merges_next : LmbRegion → ℕ → Bool
unfolding lmb_regions_adjacent is_pos
merges_next rgn i =
    ltb i (sub64 rgn.cnt 1)
    && (is_neg (lmb_regions_adjacent rgn i (i + 1)) || is_pos (lmb_regions_adjacent rgn i (i + 1)))
    && ((rgn.region i).tag == (rgn.region (i + 1)).tag)
    && ((rgn.region i).type == (rgn.region (i + 1)).type)

pub merge_next : LmbRegion → ℕ → ℕ → LmbRegion × ℕ
unfolding merges_next lmb_coalesce_regions
merge_next rgn i coalesced =
    if merges_next rgn i
    then (lmb_coalesce_regions rgn i (i + 1), coalesced + 1)
    else (rgn, coalesced)

-- What follows the scan.
pub finish_add : ℕ → ℕ → ℕ → ℕ → LmbRegion × ℕ → ℤ × LmbRegion
unfolding insert_region
finish_add base size type tag (rgn, coalesced) =
    if ltb 0 coalesced
    then (pos coalesced, rgn)
    else if leb max_lmb_regions rgn.cnt
    then (negsuc 0, rgn)
    else (pos 0, insert_region base size type tag rgn)

-- The scan's result decides what is left to do.
pub after_scan : LmbRegion → ℕ → ℕ → ℕ → ℕ → Scan → ℤ × LmbRegion
unfolding merge_next finish_add
after_scan rgn base size type tag overlaps = (negsuc 0, rgn)
after_scan rgn base size type tag (stopped i region coalesced) =
    finish_add base size type tag (merge_next (record rgn { region = region }) i coalesced)

-- The first test of `lmb_add_region`: the table holds one empty region.
pub is_dummy : LmbRegion → Bool
is_dummy rgn = (rgn.cnt == 1) && ((rgn.region 0).size == 0)

pub lmb_add_region : LmbRegion → ℕ → ℕ → ℕ → ℕ → ℤ × LmbRegion
unfolding is_dummy new_property coalesce_scan after_scan
lmb_add_region rgn base size type tag =
    if is_dummy rgn
    then (pos 0, record rgn { region = update rgn.region 0 (new_property base size type tag) })
    else after_scan rgn base size type tag (coalesce_scan base size type tag rgn.cnt 0 rgn.region)

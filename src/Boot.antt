-- ===== src/Boot.antt =====
-- main.c: the command line and the memory tables that main sets up before fb_launch. What main asks
-- of libfdt is the record Fdt; the linker's image_start and image_end are arguments.
pub mod Memparse
pub mod Range
pub mod Cmdline
pub mod Tables
mod Tests
use shield_tv_loader.Base.{
  ℕ, zero, suc, ◌+◌, ◌-◌, ◌*◌, ◌%◌, ◌^◌, Bool, true, false, not, ◌&&◌, ◌||◌, List, [], ◌∷◌, Option,
  none, some, ltb, leb, ◌==◌, if◌then◌else◌, ℤ, pos, negsuc, is_neg, u64_mod, sub64, drop, take,
  length,
}
use shield_tv_loader.Text.{peek, advance, strlen, strstr, strchr}
use shield_tv_loader.Number.{simple_strtoull}
use shield_tv_loader.Lmb.{Lmb, lmb_init, lmb_boot, lmb_runtime, lmb_tag}
use shield_tv_loader.Lmb.Ops.{lmb_add, lmb_reserve}

-- ret <<= 10
abbrev shift_10 : ℕ → ℕ
shift_10 ret = ret * 2 ^ 10 % u64_mod

abbrev is_char : ℕ → ℕ → ℕ → Bool
is_char upper lower c = c == upper || c == lower

-- The switch on `*endptr`, whose cases fall through.
pub scale : ℕ × List ℕ → ℕ × List ℕ
scale (ret, endptr) =
    let c = peek endptr in
    if is_char b'G' b'g' c
    then (shift_10 (shift_10 (shift_10 ret)), advance endptr)
    else if is_char b'M' b'm' c
    then (shift_10 (shift_10 ret), advance endptr)
    else if is_char b'K' b'k' c
    then (shift_10 ret, advance endptr)
    else (ret, endptr)

pub memparse : List ℕ → ℕ × List ℕ
unfolding scale
memparse ptr = scale (simple_strtoull ptr 0)

abbrev page_size : ℕ
page_size = 4096

-- The size and the location.
pub parse_memloc : List ℕ → ℕ × ℕ
unfolding memparse
parse_memloc arg =
    let (size, at) = memparse arg in
    if not (peek at == b'@') then (page_size, size) else (size, (memparse (advance at)).0)

-- What strstr found, read as the base and the size.
pub range_at : List ℕ → Option (List ℕ) → Option (ℕ × ℕ)
unfolding parse_memloc
range_at range_name none = none
range_at range_name (some param) =
    let (s, b) = parse_memloc (drop (strlen range_name) param) in some (b, s)

-- The base and the size, where the command line holds the name.
pub parse_range : Option (List ℕ) → List ℕ → Option (ℕ × ℕ)
unfolding range_at
parse_range none range_name = none
parse_range (some cmdline) range_name = range_at range_name (strstr cmdline range_name)

pub parse_and_reserve_range : Lmb → Option (List ℕ) → List ℕ → ℕ → ℕ → Bool × Lmb
unfolding parse_range
parse_and_reserve_range lmb cmdline range_name type tag = elim (parse_range cmdline range_name) [
  | none ↦ (false, lmb)
  | some (b, s) ↦ (true, (lmb_reserve lmb b s type tag).1)
]

-- What libfdt answers on the tree that main is given: the results of fdt_check_header and of
-- fdt_path_offset of "/chosen", its property "bootargs", the property "reg" of each memory node as
-- words in the order of the bytes, fdt_totalsize, and the entries of fdt_get_mem_rsv.
pub record Fdt : Type 0 where
  pub address : ℕ
  pub header : ℤ
  pub chosen : ℤ
  pub bootargs : Option (List ℕ)
  pub memory : List (Option (List ℕ))
  pub totalsize : ℕ
  pub mem_rsv : List (ℕ × ℕ)

pub fdt_get_cmdline : Fdt → Option (List ℕ)
fdt_get_cmdline fdt =
    if is_neg fdt.header then none else if is_neg fdt.chosen then none else fdt.bootargs

-- The loop over one `reg`, two words to an address and two to a size. It ends where no byte is left,
-- and reads past the property if their number is not a multiple of 16: `none`.
pub add_reg : Lmb → List ℕ → Option Lmb
add_reg lmb [] = some lmb
add_reg lmb (b1 ∷ b0 ∷ s1 ∷ s0 ∷ prop) =
    add_reg (lmb_add lmb (b0 + b1 * 2 ^ 32) (s0 + s1 * 2 ^ 32) (lmb_tag b'R' b'A' b'M' b'R')).1 prop
add_reg lmb (b1 ∷ prop) = none

-- The loop over the memory nodes; one without `reg` stops the program.
pub add_memory : Lmb → List (Option (List ℕ)) → Option Lmb
unfolding add_reg
add_memory lmb [] = some lmb
add_memory lmb (none ∷ nodes) = none
add_memory lmb (some prop ∷ nodes) = elim (add_reg lmb prop) [
  | none ↦ none
  | some l ↦ add_memory l nodes
]

pub reserve_all : Lmb → List (ℕ × ℕ) → Lmb
reserve_all lmb [] = lmb
reserve_all lmb ((base, size) ∷ rest) =
    reserve_all (lmb_reserve lmb base size lmb_boot (lmb_tag b'R' b'E' b'S' b'V')).1 rest

abbrev name_fbmem : List ℕ
name_fbmem = b't' ∷ b'e' ∷ b'g' ∷ b'r' ∷ b'a' ∷ b'_' ∷ b'f' ∷ b'b' ∷ b'm' ∷ b'e' ∷ b'm' ∷ b'=' ∷ []

abbrev name_tsec : List ℕ
name_tsec = b't' ∷ b's' ∷ b'e' ∷ b'c' ∷ b'=' ∷ []

abbrev name_vpr : List ℕ
name_vpr = b'v' ∷ b'p' ∷ b'r' ∷ b'=' ∷ []

abbrev name_lp0_vec : List ℕ
name_lp0_vec = b'l' ∷ b'p' ∷ b'0' ∷ b'_' ∷ b'v' ∷ b'e' ∷ b'c' ∷ b'=' ∷ []

abbrev name_nvdumper : List ℕ
name_nvdumper =
    b'n' ∷ b'v' ∷ b'd' ∷ b'u' ∷ b'm' ∷ b'p' ∷ b'e' ∷ b'r' ∷ b'_' ∷ b'r' ∷ b'e' ∷ b's' ∷ b'e' ∷ b'r'
    ∷ b'v' ∷ b'e' ∷ b'd' ∷ b'=' ∷ []

-- The frame buffer: the range of tegra_fbmem, or the firmware's default.
pub frame_buffer_range : Option (List ℕ) → ℕ × ℕ
unfolding parse_range
frame_buffer_range cmdline = elim (parse_range cmdline name_fbmem) [
  | none ↦ (0x92ca_6000, 1920 * 1080 * 4)
  | some range ↦ range
]

-- The reservations, in their order.
pub reserve_ranges : Fdt → ℕ → ℕ → Lmb → Lmb
unfolding fdt_get_cmdline parse_and_reserve_range frame_buffer_range reserve_all
reserve_ranges fdt image_start image_end lmb =
    let cmdline = fdt_get_cmdline fdt in
    let (fb_base, fb_size) = frame_buffer_range cmdline in
    let tsec = lmb_tag b'T' b'S' b'E' b'C' in
    let vprr = lmb_tag b'V' b'P' b'R' b'R' in
    let lp0v = lmb_tag b'L' b'P' b'0' b'V' in
    let nvdr = lmb_tag b'N' b'V' b'D' b'R' in
    let l1 = (parse_and_reserve_range lmb cmdline name_tsec lmb_runtime tsec).1 in
    let l2 = (parse_and_reserve_range l1 cmdline name_vpr lmb_runtime vprr).1 in
    let l3 = (parse_and_reserve_range l2 cmdline name_lp0_vec lmb_runtime lp0v).1 in
    let l4 = (parse_and_reserve_range l3 cmdline name_nvdumper lmb_runtime nvdr).1 in
    let fbmm = lmb_tag b'F' b'B' b'M' b'M' in
    let l5 = (lmb_reserve l4 fb_base fb_size lmb_runtime fbmm).1 in
    let fdtb = lmb_tag b'F' b'D' b'T' b'B' in
    let l6 = (lmb_reserve l5 fdt.address fdt.totalsize lmb_boot fdtb).1 in
    let ldrs = lmb_tag b'L' b'D' b'R' b'S' in
    let image_size = sub64 image_end image_start in
    let l7 = (lmb_reserve l6 image_start image_size lmb_boot ldrs).1 in reserve_all l7 fdt.mem_rsv

pub reserve_found : Fdt → ℕ → ℕ → Option Lmb → Option Lmb
unfolding reserve_ranges
reserve_found fdt image_start image_end none = none
reserve_found fdt image_start image_end (some l) = some (reserve_ranges fdt image_start image_end l)

-- The tables when main calls fb_launch, or `none` where it stops or reads past a `reg`.
pub main_tables : Fdt → ℕ → ℕ → Lmb → Option Lmb
unfolding add_memory reserve_found
main_tables fdt image_start image_end lmb =
    reserve_found fdt image_start image_end (add_memory (lmb_init lmb) fdt.memory)

-- ===== src/Fb/Service.antt =====
-- fb.c: the commands behind "oem " that manage memory, call the secure monitor and reboot.
use shield_tv_loader.Base.{
  ℕ, zero, suc, ◌+◌, ◌%◌, ◌^◌, Bool, not, List, [], ◌∷◌, ◌++◌, Option, none, some, ◌==◌,
  if◌then◌else◌, out_of_fuel, length, nth,
}
use shield_tv_loader.Text.{peek, advance, memcmp, strcmp, is_zero_int}
use shield_tv_loader.Number.{simple_strtoull}
use shield_tv_loader.Number.Format.{number}
use shield_tv_loader.Number.Hex.{hex_spec}
use shield_tv_loader.Lmb.{Lmb, lmb_tag, lmb_boot, lmb_runtime, lmb_alloc_anywhere, lmb_alloc_32bit}
use shield_tv_loader.Lmb.Ops.{lmb_alloc_base, lmb_free}
use shield_tv_loader.Usbd.{reboot_complete}
use shield_tv_loader.Fb.{
  World, set_ctx, fb_end_command, fb_end_command_with_info, fb_end_command_with_custom_complete,
}
use shield_tv_loader.Fb.Oem.{bad_command, out_of_memory, Answer, refused, reported, first_of}

abbrev boot_word : List ℕ
boot_word = b'b' ∷ b'o' ∷ b'o' ∷ b't' ∷ []

abbrev runtime_word : List ℕ
runtime_word = b'r' ∷ b'u' ∷ b'n' ∷ b't' ∷ b'i' ∷ b'm' ∷ b'e' ∷ []

-- memcmp(cmd, "word", sizeof("word")), with the NUL.
abbrev is_word : List ℕ → List ℕ → Bool
is_word word cmd = is_zero_int (memcmp cmd word (length word + 1))

unfoldable pub alloc_type : List ℕ → Option ℕ
alloc_type cmd =
    if not (peek cmd == b' ')
    then some lmb_boot
    else if is_word boot_word (advance cmd)
    then some lmb_boot
    else if is_word runtime_word (advance cmd)
    then some lmb_runtime
    else none

abbrev pub hex_text : ℕ → List ℕ
hex_text a = b'0' ∷ b'x' ∷ number a hex_spec

abbrev pub fbrq_tag : ℕ
fbrq_tag = lmb_tag b'F' b'B' b'R' b'Q'

-- What becomes of the answer of lmb_alloc_base.
unfoldable pub alloc_answer : World → Option (ℕ × Lmb) → Answer
alloc_answer w none = out_of_fuel
alloc_answer w (some (addr, lmb)) =
    let w1 = set_ctx w (record w.ctx { lmb = lmb }) in
    if addr == 0
    then refused w1 out_of_memory
    else reported (fb_end_command_with_info w1 (hex_text addr))

unfoldable pub alloc_with : World → ℕ → ℕ → ℕ → Option ℕ → Answer
unfolding alloc_answer
alloc_with w size align max_addr none = refused w bad_command
alloc_with w size align max_addr (some type) =
    alloc_answer w (lmb_alloc_base w.ctx.lmb size align max_addr type fbrq_tag)

unfoldable pub fb_oem_cmd_alloc_ex : World → List ℕ → ℕ → Answer
unfolding alloc_type alloc_with
fb_oem_cmd_alloc_ex w cmd max_addr =
    let (size, cmd1) = simple_strtoull cmd 0 in
    let (align, cmd2) = simple_strtoull (advance cmd1) 0 in
    if not (peek cmd1 == b' ')
    then refused w bad_command
    else alloc_with w size align max_addr (alloc_type cmd2)

unfoldable pub fb_oem_cmd_alloc : World → List ℕ → Answer
unfolding fb_oem_cmd_alloc_ex
fb_oem_cmd_alloc w cmd = fb_oem_cmd_alloc_ex w cmd lmb_alloc_anywhere

unfoldable pub fb_oem_cmd_alloc32 : World → List ℕ → Answer
unfolding fb_oem_cmd_alloc_ex
fb_oem_cmd_alloc32 w cmd = fb_oem_cmd_alloc_ex w cmd lmb_alloc_32bit

unfoldable pub fb_oem_cmd_free : World → List ℕ → Answer
fb_oem_cmd_free w cmd =
    let (addr, cmd1) = simple_strtoull cmd 0 in
    let (size, cmd2) = simple_strtoull (advance cmd1) 0 in
    let (align, cmd3) = simple_strtoull (advance cmd2) 0 in
    if not (peek cmd1 == b' ')
    then refused w bad_command
    else if not (peek cmd2 == b' ')
    then refused w bad_command
    else if not (peek cmd3 == 0)
    then refused w bad_command
    else reported (
        fb_end_command (set_ctx w (record w.ctx { lmb = (lmb_free w.ctx.lmb addr size align).1 }))
          none)

-- The loop of smccc over the arguments that are left: those read, with zeros for the others, or
-- `none` for a byte that ends no number.
unfoldable pub read_args : ℕ → List ℕ → Option (List ℕ)
read_args zero cmd = if peek cmd == 0 then some [] else none
read_args (suc n) cmd =
    let (value, cmd1) = simple_strtoull cmd 0 in
    let rest = read_args n (advance cmd1) in
    if peek cmd1 == 0
    then some (value ∷ zeros n)
    else if not (peek cmd1 == b' ')
    then none
    else elim rest [ none ↦ none | some vs ↦ some (value ∷ vs) ]
  where
    zeros : ℕ → List ℕ
    zeros zero = []
    zeros (suc n) = 0 ∷ zeros n

abbrev pub smccc_text : List ℕ → List ℕ
smccc_text inout =
    hex_text (nth inout 0)
    ++ b' ' ∷ hex_text (nth inout 1)
    ++ b' ' ∷ hex_text (nth inout 2)
    ++ b' ' ∷ hex_text (nth inout 3)

unfoldable pub fb_cmd_reboot : World → ℕ → Answer
fb_cmd_reboot w type = reported (
    fb_end_command_with_custom_complete (set_ctx w (record w.ctx { reboot_type = type })) none
      reboot_complete)

abbrev pub is_string : List ℕ → List ℕ → Bool
is_string word cmd = is_zero_int (strcmp cmd word)

abbrev pub reboot_bootloader : ℕ
reboot_bootloader = 2 ^ 30

unfoldable pub reboot_chain : World → List ℕ → ℕ → List (Bool × Answer)
unfolding fb_cmd_reboot
reboot_chain w cmd end =
    (is_string (b'n' ∷ b'o' ∷ b'r' ∷ b'm' ∷ b'a' ∷ b'l' ∷ []) cmd, fb_cmd_reboot w 0)
    ∷ (
      is_string (b'b' ∷ b'o' ∷ b'o' ∷ b't' ∷ b'l' ∷ b'o' ∷ b'a' ∷ b'd' ∷ b'e' ∷ b'r' ∷ []) cmd,
      fb_cmd_reboot w reboot_bootloader,
    )
    ∷ (is_string (b'r' ∷ b'c' ∷ b'm' ∷ []) cmd, fb_cmd_reboot w (2 ^ 1))
    ∷ (
      is_string (b'r' ∷ b'e' ∷ b'c' ∷ b'o' ∷ b'v' ∷ b'e' ∷ b'r' ∷ b'y' ∷ []) cmd,
      fb_cmd_reboot w (2 ^ 31),
    )
    ∷ (not (end == 0), refused w bad_command)
    ∷ []

unfoldable pub fb_oem_cmd_reboot : World → List ℕ → Answer
unfolding reboot_chain fb_cmd_reboot first_of
fb_oem_cmd_reboot w cmd =
    let (s, cmd1) = simple_strtoull cmd 0 in
    first_of (reboot_chain w cmd (peek cmd1)) (fb_cmd_reboot w (s % 2 ^ 32))

-- smc_call, of start.S, changes the eight words.
module _ (smc_call : List ℕ → List ℕ) where
  unfoldable pub smccc_with : World → Option (List ℕ) → Answer
  smccc_with w none = refused w bad_command
  smccc_with w (some inout) = reported (fb_end_command_with_info w (smccc_text (smc_call inout)))

  unfoldable pub fb_oem_cmd_smccc : World → List ℕ → Answer
  unfolding read_args smccc_with
  fb_oem_cmd_smccc w cmd = smccc_with w (read_args 8 cmd)

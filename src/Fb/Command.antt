-- ===== src/Fb/Command.antt =====
-- fb.c: the commands reboot, download and flash, and the dispatch of a command that was received.
use shield_tv_loader.Base.{
  ℕ, zero, suc, ◌-◌, Bool, true, false, not, List, [], ◌∷◌, ◌++◌, Option, none, some, ◌==◌,
  if◌then◌else◌, Result, ok, out_of_fuel, launched, rebooted, ◌>>=◌, length, drop, take, add64,
}
use shield_tv_loader.Text.{peek, memcmp, is_zero_int}
use shield_tv_loader.Number.{simple_strtoull}
use shield_tv_loader.Lmb.{Lmb, lmb_tag, lmb_boot, lmb_alloc_32bit}
use shield_tv_loader.Lmb.Ops.{lmb_alloc_base, lmb_free}
use shield_tv_loader.Usbd.{
  ReqId, ep1_out, ep1_in, Callback, flash_complete, usbd_req_cancel, set_request,
}
use shield_tv_loader.Fb.{
  Fb, World, set_ctx, FbStatus, fb_end_command, fb_end_command_with_custom_complete,
  fb_request_data, fb_rx_data, fb_rx_cmd, small_size, read_le,
}
use shield_tv_loader.Fb.Oem.{
  Answer, refused, reported, first_of, bad_command, out_of_memory, fb_oem_cmd_peek, fb_oem_cmd_poke,
  fb_oem_cmd_echo,
}
use shield_tv_loader.Fb.Service.{
  is_string, fb_oem_cmd_alloc, fb_oem_cmd_alloc32, fb_oem_cmd_free, fb_oem_cmd_smccc,
  fb_oem_cmd_reboot, fb_cmd_reboot, reboot_bootloader,
}

abbrev pub unknown_command : FbStatus
unknown_command = some (
    b'F' ∷ b'A' ∷ b'I' ∷ b'L' ∷ b'U' ∷ b'n' ∷ b'k' ∷ b'n' ∷ b'o' ∷ b'w' ∷ b'n' ∷ b' ' ∷ b'c' ∷ b'o'
    ∷ b'm' ∷ b'm' ∷ b'a' ∷ b'n' ∷ b'd' ∷ [])

abbrev pub not_downloaded : FbStatus
not_downloaded = some (
    b'F' ∷ b'A' ∷ b'I' ∷ b'L' ∷ b'N' ∷ b'o' ∷ b't' ∷ b'h' ∷ b'i' ∷ b'n' ∷ b'g' ∷ b' ' ∷ b'd' ∷ b'o'
    ∷ b'w' ∷ b'n' ∷ b'l' ∷ b'o' ∷ b'a' ∷ b'd' ∷ b'e' ∷ b'd' ∷ [])

-- memcmp(cmd, "word", sizeof("word") - 1)
abbrev pub begins : List ℕ → List ℕ → Bool
begins word cmd = is_zero_int (memcmp cmd word (length word))

abbrev pub download_alignment : ℕ
download_alignment = 0x10_0000

abbrev pub dlod_tag : ℕ
dlod_tag = lmb_tag b'D' b'L' b'O' b'D'

-- The last download is given back.
unfoldable pub free_last : Fb → Fb
free_last fb = if fb.last_loaded == 0 then fb else record fb {
  lmb = (lmb_free fb.lmb fb.last_loaded fb.load_size fb.load_align).1;
  last_loaded = 0;
  load_size = 0;
  load_align = 0;
}

-- reboot_type is the argument of tegra_reboot. What usbd_fini writes before is not seen any more.
unfoldable pub fb_cmd_reboot_complete : World → Result World
fb_cmd_reboot_complete w = rebooted w.ctx.reboot_type

abbrev boot_magic : List ℕ
boot_magic = b'A' ∷ b'N' ∷ b'D' ∷ b'R' ∷ b'O' ∷ b'I' ∷ b'D' ∷ b'!' ∷ []

-- The bytes of memory from an address on.
abbrev bytes_at : (ℕ → ℕ) → ℕ → ℕ → List ℕ
bytes_at mem addr zero = []
bytes_at mem addr (suc n) = mem addr ∷ bytes_at mem (add64 addr 1) n

-- page_size is the word at offset 36 of struct boot_img. usbd_fini stops the controller before.
unfoldable pub fb_cmd_flash_complete : World → Result World
fb_cmd_flash_complete w =
    let fb = w.ctx in
    let page_size = read_le fb.mem (add64 fb.last_loaded 36) 4 in
    launched (
      if begins boot_magic (bytes_at fb.mem fb.last_loaded 8)
      then add64 page_size fb.last_loaded
      else fb.last_loaded)

unfoldable pub fb_cmd_flash : World → List ℕ → Answer
fb_cmd_flash w cmd =
    if not (is_string (b'r' ∷ b'u' ∷ b'n' ∷ []) cmd)
    then refused w bad_command
    else if w.ctx.last_loaded == 0
    then refused w not_downloaded
    else reported (fb_end_command_with_custom_complete w none flash_complete)

-- The bytes before the first NUL.
unfoldable pub c_string : List ℕ → List ℕ
c_string [] = []
c_string (c ∷ s) = let rest = c_string s in if c == 0 then [] else c ∷ rest

-- smc_call of start.S, and the functions that `complete` points to.
module _ (smc_call : List ℕ → List ℕ) (run : Callback → ReqId → World → Result World) where
  -- The transfers that follow a successful allocation.
  unfoldable pub start_download : World → Answer
  start_download w =
      reported do w1 ← usbd_req_cancel run w ep1_out; w2 ← fb_request_data w1; fb_rx_data w2

  -- What becomes of the answer of lmb_alloc_base.
  unfoldable pub download_answer : World → ℕ → Option (ℕ × Lmb) → Answer
  unfolding start_download
  download_answer w size none = out_of_fuel
  download_answer w size (some (addr, lmb)) =
      let fb = record w.ctx { lmb = lmb; last_loaded = addr } in
      let loaded = record fb {
        load_size = size;
        load_rem = size;
        load_align = download_alignment;
      } in
      if addr == 0 then refused (set_ctx w fb) out_of_memory else start_download (set_ctx w loaded)

  unfoldable pub fb_cmd_download : World → List ℕ → Answer
  unfolding free_last download_answer
  fb_cmd_download w cmd =
      let (size, cmd1) = simple_strtoull cmd 16 in
      let w1 = set_ctx w (free_last w.ctx) in
      if not (peek cmd1 == 0)
      then refused w1 bad_command
      else download_answer w1 size
          (lmb_alloc_base w1.ctx.lmb size download_alignment lmb_alloc_32bit lmb_boot dlod_tag)

  unfoldable pub oem_chain : World → List ℕ → List (Bool × Answer)
  oem_chain w cmd =
      (begins (b'p' ∷ b'e' ∷ b'e' ∷ b'k' ∷ b' ' ∷ []) cmd, fb_oem_cmd_peek w (drop 5 cmd))
      ∷ (begins (b'p' ∷ b'o' ∷ b'k' ∷ b'e' ∷ b' ' ∷ []) cmd, fb_oem_cmd_poke w (drop 5 cmd))
      ∷ (begins (b'e' ∷ b'c' ∷ b'h' ∷ b'o' ∷ b' ' ∷ []) cmd, fb_oem_cmd_echo w (drop 5 cmd))
      ∷ (begins (b'a' ∷ b'l' ∷ b'l' ∷ b'o' ∷ b'c' ∷ b' ' ∷ []) cmd, fb_oem_cmd_alloc w (drop 6 cmd))
      ∷ (
        begins (b'a' ∷ b'l' ∷ b'l' ∷ b'o' ∷ b'c' ∷ b'3' ∷ b'2' ∷ b' ' ∷ []) cmd,
        fb_oem_cmd_alloc32 w (drop 8 cmd),
      )
      ∷ (begins (b'f' ∷ b'r' ∷ b'e' ∷ b'e' ∷ b' ' ∷ []) cmd, fb_oem_cmd_free w (drop 5 cmd))
      ∷ (
        begins (b's' ∷ b'm' ∷ b'c' ∷ b'c' ∷ b'c' ∷ b' ' ∷ []) cmd,
        fb_oem_cmd_smccc smc_call w (drop 6 cmd),
      )
      ∷ (
        begins (b'r' ∷ b'e' ∷ b'b' ∷ b'o' ∷ b'o' ∷ b't' ∷ b' ' ∷ []) cmd,
        fb_oem_cmd_reboot w (drop 7 cmd),
      )
      ∷ []

  unfoldable pub fb_cmd_oem : World → List ℕ → Answer
  unfolding oem_chain first_of
  fb_cmd_oem w cmd = first_of (oem_chain w cmd) (refused w unknown_command)

  abbrev reboot_word : List ℕ
  reboot_word = b'r' ∷ b'e' ∷ b'b' ∷ b'o' ∷ b'o' ∷ b't' ∷ []

  abbrev reboot_bootloader_word : List ℕ
  reboot_bootloader_word =
      b'r' ∷ b'e' ∷ b'b' ∷ b'o' ∷ b'o' ∷ b't' ∷ b'-' ∷ b'b' ∷ b'o' ∷ b'o' ∷ b't' ∷ b'l' ∷ b'o'
      ∷ b'a' ∷ b'd' ∷ b'e' ∷ b'r' ∷ []

  unfoldable pub command_chain : World → List ℕ → List (Bool × Answer)
  unfolding fb_cmd_oem fb_cmd_download fb_cmd_flash
  command_chain w cbuf =
      (begins (b'o' ∷ b'e' ∷ b'm' ∷ b' ' ∷ []) cbuf, fb_cmd_oem w (drop 4 cbuf))
      ∷ (is_string reboot_word cbuf, fb_cmd_reboot w 0)
      ∷ (is_string reboot_bootloader_word cbuf, fb_cmd_reboot w reboot_bootloader)
      ∷ (
        begins (b'd' ∷ b'o' ∷ b'w' ∷ b'n' ∷ b'l' ∷ b'o' ∷ b'a' ∷ b'd' ∷ b':' ∷ []) cbuf,
        fb_cmd_download w (drop 9 cbuf),
      )
      ∷ (begins (b'f' ∷ b'l' ∷ b'a' ∷ b's' ∷ b'h' ∷ b':' ∷ []) cbuf, fb_cmd_flash w (drop 6 cbuf))
      ∷ []

  unfoldable pub run_command : World → List ℕ → Answer
  unfolding command_chain first_of
  run_command w cbuf = first_of (command_chain w cbuf) (refused w unknown_command)

  -- A status other than FB_OK is reported.
  unfoldable pub report : FbStatus × World → Result World
  report (none, w) = ok w
  report (some text, w) = fb_end_command w (some text)

  -- The command before is given up, if it has not ended.
  unfoldable pub end_previous : World → Result World
  end_previous w =
      if not w.ctx.in_command
      then ok w
      else usbd_req_cancel run (set_ctx w (record w.ctx { in_command = false })) ep1_in

  -- fb_rx_cmd_complete from `fb->in_command = true` on.
  unfoldable pub execute : ReqId → World → Result World
  unfolding run_command report
  execute r w =
      let w1 = set_ctx w (record w.ctx { in_command = true }) in
      let q = w1.request r in
      let cbuf = take (small_size - 1) q.small_buffer in
      let w2 = set_request w1 r (record q { small_buffer = cbuf ++ 0 ∷ [] }) in
      run_command w2 (c_string cbuf) >>= report

  unfoldable pub fb_rx_cmd_complete : ReqId → World → Result World
  unfolding end_previous execute
  fb_rx_cmd_complete r w = do
    w1 ← if (w.request r).cancel then ok w else fb_rx_cmd w
    if (w1.request r).error then ok w1 else (end_previous w1 >>= execute r)

-- ===== src/Fb/Dispatch.antt =====
-- The functions that `complete` points to, the configuration of fb.c, and its launch and loop.
use shield_tv_loader.Base.{
  ℕ, zero, suc, false, List, [], ◌∷◌, ltb, ◌==◌, if◌then◌else◌, Result, ok, out_of_fuel, ◌>>=◌,
}
use shield_tv_loader.Usbd.{
  ep_of, ReqId, ep1_out, ep1_in, Callback, ep0_in_req_complete, end_command_complete,
  end_command_with_info_complete, peek_exe, reboot_complete, flash_complete, rx_cmd_complete,
  rx_data_complete, usbd_req_cancel,
}
use shield_tv_loader.Usbd.Setup.{
  UsbdStatus, usbd_success, usbd_config_unsupported, usbd_ep_enable, usbd_ep_disable,
  usbd_ep0_in_req_complete,
}
use shield_tv_loader.Usbd.Poll.{Registers, usbd_init, usbd_poll, usbd_req_init}
use shield_tv_loader.Fb.{
  World, set_ctx, fb_end_command_complete, fb_end_command_with_info_complete, fb_oem_cmd_peek_exe,
  fb_rx_data_complete, fb_rx_cmd,
}
use shield_tv_loader.Fb.Command.{fb_cmd_reboot_complete, fb_cmd_flash_complete, fb_rx_cmd_complete}

abbrev pub fb_eps : List ReqId
fb_eps = ep1_out ∷ ep1_in ∷ []

module _ (smc_call : List ℕ → List ℕ) where
  -- The call through `complete`. Only fb_rx_cmd_complete calls further ones, through usbd_req_cancel;
  -- the fuel bounds how deep.
  unfoldable pub run_complete : ℕ → Callback → ReqId → World → Result World
  run_complete zero c r w = out_of_fuel
  run_complete (suc depth) ep0_in_req_complete r w = usbd_ep0_in_req_complete r w
  run_complete (suc depth) end_command_complete r w = ok (fb_end_command_complete w)
  run_complete (suc depth) end_command_with_info_complete r w = fb_end_command_with_info_complete w
  run_complete (suc depth) peek_exe r w = fb_oem_cmd_peek_exe (w.request r).error w
  run_complete (suc depth) reboot_complete r w = fb_cmd_reboot_complete w
  run_complete (suc depth) flash_complete r w = fb_cmd_flash_complete w
  run_complete (suc depth) rx_cmd_complete r w =
      fb_rx_cmd_complete smc_call (run_complete depth) r w
  run_complete (suc depth) rx_data_complete r w = fb_rx_data_complete r w

  unfoldable pub fb_set_config : ℕ → World → Result (UsbdStatus × World)
  unfolding run_complete
  fb_set_config config w =
      if ltb 1 config
      then ok (usbd_config_unsupported, w)
      else if config == 1
      then (fb_rx_cmd (usbd_ep_enable w (ep_of ep1_out) (ep_of ep1_in)) >>= λ w1.
          ok (usbd_success, w1))
      else do
        w1 ← usbd_ep_disable w (ep_of ep1_out) (ep_of ep1_in)
        w2 ←
            usbd_req_cancel (run_complete 2) (set_ctx w1 (record w1.ctx { in_command = false }))
              ep1_in
        w3 ← usbd_req_cancel (run_complete 2) w2 ep1_out
        ok (usbd_success, w3)

  -- One round of the loop of fb_launch, for what the registers read. `qtds` is the address of fb->qtds.
  unfoldable pub fb_poll : ℕ → Registers → World → Result (UsbdStatus × World)
  unfolding fb_set_config run_complete
  fb_poll qtds regs w = usbd_poll fb_eps fb_set_config qtds 4 (run_complete 2) regs w

  -- fb_launch from usbd_req_init on, on the memory that it has cleared.
  unfoldable pub fb_start : ℕ → World → Result (UsbdStatus × World)
  unfolding fb_set_config
  fb_start qtds w = do
    w1 ← usbd_req_init w ep1_out
    w2 ← usbd_req_init w1 ep1_in
    usbd_init fb_eps fb_set_config qtds 4 w2

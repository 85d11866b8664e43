-- ===== src/Fb/Race.antt =====
-- fb.c: the completion of a download whose announcement is still in flight.
use shield_tv_loader.Base.{
  ℕ, suc, ◌^◌, ◌≤◌, ◌<◌, ◌≡◌, refl, false, not, List, none, some, ◌==◌, bug, ◌>>=◌, arith, sub64,
  bit_and,
}
use shield_tv_loader.Usbd.{ep1_out, ep1_in, rx_data_complete, usbd_req_complete, set_request, sub32}
use shield_tv_loader.Usbd.Slots.{clipped, submit-busy, residue, completed_req, complete-run}
use shield_tv_loader.Fb.{
  World, set_ctx, fb_rx_cmd, fb_rx_data_complete, fb_end_command_with_info, loaded_text,
}
use shield_tv_loader.Fb.Before.{rearmed_lem, rearmed-IsRearmed}
use shield_tv_loader.Fb.Dispatch.{run_complete}
use shield_tv_loader.Fb.Download.{IsLoading, IsChunk}

busy-bug :
    (w : World) (text : World → List ℕ)
    → w.usbd_reqs 1 ≡ none
    → w.usbd_reqs 17 ≡ some ep1_in
    → (fb_rx_cmd w >>= λ w1. fb_end_command_with_info w1 (text w1)) ≡ bug
unfolding fb_end_command_with_info
busy-bug w text e1 e17 =
    let f = rearmed_lem w e1 in
    let s = rearmed-IsRearmed w in rw f (submit-busy _ ep1_in ep1_in (rw (s.slots) e17))

data_complete-bug :
    (w : World)
    → w.ctx.load_rem < 2 ^ 32
    → (w.request ep1_out).error ≡ false
    → (w.request ep1_out).io_done ≡ w.ctx.load_rem
    → w.usbd_reqs 1 ≡ none
    → w.usbd_reqs 17 ≡ some ep1_in
    → fb_rx_data_complete ep1_out w ≡ bug
unfolding fb_rx_data_complete
data_complete-bug w small error done e1 e17 =
    let below : sub64 w.ctx.load_rem w.ctx.load_rem ≡ 0 = omega (arith, small) in
    let last =
      busy-bug (set_ctx w (record w.ctx { load_rem = 0 })) (λ w1. loaded_text w1.ctx) e1 e17 in
    rw (error, done, below) last

-- The completion of the last transfer of a download of at most 0x5000 bytes, all of which came, meets
-- BUG_ON if the announcement of the download is still in flight.
pub download_race :
    (smc_call : List ℕ → List ℕ) (n : ℕ) (w : World)
    → IsLoading w.ctx
    → IsChunk w
    → w.usbd_reqs 1 ≡ none
    → w.usbd_reqs 17 ≡ some ep1_in
    → bit_and (w.td ep1_out).size_ioc_sts 0x68 ≡ 0
    → residue (w.td ep1_out) ≡ 0
    → w.ctx.load_rem ≤ 0x5000
    → usbd_req_complete (run_complete smc_call (suc n)) w ep1_out ≡ bug
unfolding run_complete
download_race smc_call n w h c e1 e17 good short small =
    let all : clipped w.ctx.load_rem ≡ w.ctx.load_rem = ground (arith, small) in
    let done : sub32 (w.request ep1_out).buffer_length (residue (w.td ep1_out)) ≡ w.ctx.load_rem =
      rw (c.size, all, short) (omega (arith, small)) in
    let fine : not (bit_and (w.td ep1_out).size_ioc_sts 0x68 == 0) ≡ false = rw good refl in
    let e = complete-run (run_complete smc_call (suc n)) w ep1_out rx_data_complete c.called in
    rw e (
      data_complete-bug (set_request w ep1_out (completed_req w ep1_out)) (omega (arith, small))
        fine done e1 e17)

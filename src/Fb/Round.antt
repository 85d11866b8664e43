-- ===== src/Fb/Round.antt =====
-- A round of the loop of fb_launch in which a command arrives.
use shield_tv_loader.Base.{ℕ, ◌≡◌, refl, not, ◌==◌, false, List, none, some, Result, ok, bit_and}
use shield_tv_loader.Usbd.{
  ep1_out, rx_cmd_complete, out32, set_slot, set_request, usbd_req_complete,
}
use shield_tv_loader.Usbd.Setup.{UsbdStatus, usbd_success}
use shield_tv_loader.Usbd.Poll.{Registers}
use shield_tv_loader.Usbd.Poll.Round.{poll-first}
use shield_tv_loader.Usbd.Slots.{completed_req, complete-run}
use shield_tv_loader.Fb.{World}
use shield_tv_loader.Fb.Dispatch.{run_complete, fb_set_config, fb_eps, fb_poll}
use shield_tv_loader.Fb.Answer.{IsReplying, Replies, replies}
use shield_tv_loader.Fb.Reply.{IsMemory}
use shield_tv_loader.Fb.Before.{IsOver, idle, unasked, ending, peeking}
use shield_tv_loader.Fb.Answered.{fb_rx_cmd_complete-Replies}

-- The round ends well, with a report under way.
pub data Serves : Result (UsbdStatus × World) → Type 0 where
  serves : {w : World} → IsReplying w → Serves (ok (usbd_success, w))

-- What usbd_completions makes of the world before it calls the function of the request.
abbrev taken : World → World
taken w = set_slot (out32 w 0x218 2) 1 none

taken-IsOver :
    (w : World)
    → IsOver w
    → IsOver (set_request (taken w) ep1_out (completed_req (taken w) ep1_out))
taken-IsOver w (idle e) = idle e
taken-IsOver w (unasked i b c) = unasked i b c
taken-IsOver w (ending i b c) = ending i b c
taken-IsOver w (peeking i b c) = peeking i b c

-- A round of the loop of fb_launch in which only the completion of a command is read, without
-- error, ends with success, and with a transfer of endpoint 1 out, for the next command or for the
-- data of a download, and a report to the host both under way, whatever the bytes of the command,
-- if memory holds bytes, the command is not being given up, and the report before is over, ends its
-- command, has no function, or goes on with a peek.
pub fb_poll-Serves :
    (smc_call : List ℕ → List ℕ) (qtds : ℕ) (regs : Registers) (w : World)
    → regs.usbsts ≡ 0
    → regs.eptcomplete ≡ 2
    → regs.eptsetupst ≡ 0
    → w.usbd_reqs 1 ≡ some ep1_out
    → (w.request ep1_out).complete ≡ some rx_cmd_complete
    → (w.request ep1_out).cancel ≡ false
    → bit_and (w.td ep1_out).size_ioc_sts 0x68 ≡ 0
    → IsMemory w
    → IsOver w
    → Serves (fb_poll smc_call qtds regs w)
unfolding fb_poll
fb_poll-Serves smc_call qtds regs w quiet one no_setup slot called cancel good m over =
    let u = set_request (taken w) ep1_out (completed_req (taken w) ep1_out) in
    let fine : not (bit_and (w.td ep1_out).size_ioc_sts 0x68 == 0) ≡ false = rw good refl in
    let e = complete-run (run_complete smc_call 2) (taken w) ep1_out rx_cmd_complete called in
    polled e (fb_rx_cmd_complete-Replies smc_call 0 u m fine cancel refl (taken-IsOver w over))
  where
    polled :
        {o : Result World}
        → usbd_req_complete (run_complete smc_call 2) (taken w) ep1_out ≡ o
        → Replies o
        → Serves (fb_poll smc_call qtds regs w)
    polled e (replies {w = v} h) =
        let all =
          poll-first (run_complete smc_call 2) fb_eps (fb_set_config smc_call) qtds 4 regs w v
            ep1_out quiet one no_setup slot e in
        rw all (serves h)

-- ===== src/Usbd/Poll/Round.antt =====
-- A round of usbd_poll in which one transfer of endpoint 1 out is complete.
use shield_tv_loader.Base.{ℕ, zero, suc, ◌≡◌, refl, ◌∙◌, ap, List, none, some, Result, ok, ◌>>=◌}
use shield_tv_loader.Usbd.{ReqId, Callback, Usbd, set_slot, out32, usbd_req_complete}
use shield_tv_loader.Usbd.Setup.{UsbdStatus, CtrlRequest, usbd_success, usbd_port_setup}
use shield_tv_loader.Usbd.Poll.{Registers, complete_slot, usbd_completions, usbd_poll}

module _ {F : Type 0} (run : Callback → ReqId → Usbd F → Result (Usbd F)) where
  completions-none : (n ep_ix : ℕ) (w : Usbd F) → usbd_completions run n ep_ix 0 w ≡ ok w
  unfolding usbd_completions
  completions-none zero ep_ix w = refl
  completions-none (suc n) ep_ix w = refl

  completions-last :
      (n ep_ix : ℕ) (w v : Usbd F)
      → complete_slot run ep_ix w (w.usbd_reqs ep_ix) ≡ ok v
      → usbd_completions run (suc n) ep_ix 1 w ≡ ok v
  unfolding usbd_completions
  completions-last n ep_ix w v e =
      ap (λ o. o >>= usbd_completions run n (suc ep_ix) 0) e ∙ completions-none n (suc ep_ix) v

  completions-skip :
      (n ep_ix : ℕ) (w : Usbd F)
      → usbd_completions run (suc n) ep_ix 2 w ≡ usbd_completions run n (suc ep_ix) 1 w
  unfolding usbd_completions
  completions-skip n ep_ix w = refl

  slot-run :
      (w : Usbd F) (ep_ix : ℕ) (r : ReqId)
      → w.usbd_reqs ep_ix ≡ some r
      → complete_slot run ep_ix w (w.usbd_reqs ep_ix)
        ≡ usbd_req_complete run (set_slot w ep_ix none) r
  unfolding complete_slot
  slot-run w ep_ix r e = ap (complete_slot run ep_ix w) e

  module _ (eps : List ReqId) (set_config : ℕ → Usbd F → Result (UsbdStatus × Usbd F))
      (qtds qtd_count : ℕ) where
    setup-none :
        (n ep_ix : ℕ) (requests : ℕ → CtrlRequest) (w : Usbd F)
        → usbd_port_setup set_config n ep_ix 0 requests w ≡ ok w
    unfolding usbd_port_setup
    setup-none zero ep_ix requests w = refl
    setup-none (suc n) ep_ix requests w = refl

    pub poll-first :
        (regs : Registers) (w v : Usbd F) (r : ReqId)
        → regs.usbsts ≡ 0
        → regs.eptcomplete ≡ 2
        → regs.eptsetupst ≡ 0
        → w.usbd_reqs 1 ≡ some r
        → usbd_req_complete run (set_slot (out32 w 0x218 2) 1 none) r ≡ ok v
        → usbd_poll eps set_config qtds qtd_count run regs w ≡ ok (usbd_success, v)
    unfolding usbd_poll
    poll-first regs w v r quiet one no_setup e out =
        let w1 = out32 w 0x218 2 in
        let done : usbd_completions run 32 0 2 w1 ≡ ok v =
          completions-skip 31 0 w1 ∙ completions-last 30 1 w1 v (slot-run w1 1 r e ∙ out) in
        let rest = setup-none 32 0 regs.setup_buffer v in rw (quiet, one, no_setup, done, rest) refl

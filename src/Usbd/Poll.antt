-- ===== src/Usbd/Poll.antt =====
-- usbd.c: usbd_init, usbd_fini, the reset of the port, completions, and usbd_poll.
pub mod Round
use shield_tv_loader.Base.{
  ℕ, zero, suc, ◌+◌, ◌-◌, ◌*◌, ◌/◌, ◌%◌, ◌^◌, Bool, true, false, not, ◌&&◌, List, [], ◌∷◌, Option,
  none, some, ltb, ◌==◌, if◌then◌else◌, bit_and, bit_or, Result, ok, bug, null_pointer, ◌>>=◌,
}
use shield_tv_loader.Usbd.{
  ReqId, ep0_out, ep0_in, Callback, ep_type_none, ep_of, UsbdReq, Usbd, update_req, max_eps, out32,
  flush_all, set_request, set_slot, call_complete, usbd_req_complete,
}
use shield_tv_loader.Usbd.Setup.{
  UsbdStatus, usbd_success, usbd_usbsts_error, CtrlRequest, usbd_hw_ep_init, usbd_port_change,
  usbd_port_setup,
}

-- What usbd_poll reads: USBSTS, the mode of USBDEVLC, EPTCOMPLETE, EPTSETUPST, and the setup buffers.
pub record Registers : Type 0 where
  pub usbsts : ℕ
  pub devlc_mode : ℕ
  pub eptcomplete : ℕ
  pub eptsetupst : ℕ
  pub setup_buffer : ℕ → CtrlRequest

abbrev same_bool : Bool → Bool → Bool
same_bool true b = b
same_bool false b = not b

-- The search over context->eps.
pub find_ep : List ReqId → ℕ → Bool → Option ReqId
find_ep [] ep send = none
find_ep (pe ∷ eps) ep send =
    let rest = find_ep eps ep send in
    if (ep_of pe).num == ep && same_bool (ep_of pe).send send then some pe else rest

pub usbd_get_ep : List ReqId → ℕ → Bool → Option ReqId
unfolding find_ep
usbd_get_ep eps ep send =
    if ep == 0 then some (if send then ep0_in else ep0_out) else find_ep eps ep send

-- The loop that gives each endpoint a descriptor, from `i` on. A descriptor takes 32 bytes.
pub assign_qtds : ℕ → ℕ → List ReqId → ℕ → ℕ → (ReqId → ℕ) → Result (ReqId → ℕ)
unfolding usbd_get_ep
assign_qtds zero i eps qtds count addr = ok addr
assign_qtds (suc n) i eps qtds count addr = elim (usbd_get_ep eps (i / 2) (i % 2 == 1)) [
  | none ↦ assign_qtds n (suc i) eps qtds count addr
  | some r ↦
      let rest = assign_qtds n (suc i) eps (qtds + 32) (count - 1) (update_req addr r qtds) in
      if count == 0 then bug else rest
]

-- The checks of the descriptors' addresses.
pub qtds_fit : ℕ → ℕ → Bool
qtds_fit zero qtds = true
qtds_fit (suc count) qtds =
    let rest = qtds_fit count (qtds + 32) in
    if not (bit_and qtds 31 == 0) then false else if ltb 0xffff_ffff qtds then false else rest

abbrev itc_default : ℕ
itc_default = 8 * 2 ^ 16

-- usbd_req_init; the buffer of every request lies below MAX_DMA_ADDR.
abbrev pub blank_req : ℕ → UsbdReq
blank_req buffer = record {
  error = false;
  cancel = false;
  buffer = buffer;
  io_done = 0;
  buffer_length = 0;
  complete = none;
  small_buffer = [];
}

module _ {F : Type 0} where
  pub usbd_req_init : Usbd F → ReqId → Result (Usbd F)
  usbd_req_init w r =
      if ltb 0xffff_ffff (w.small_addr r)
      then bug
      else ok (set_request w r (blank_req (w.small_addr r)))

  pub usbd_fini : Usbd F → Usbd F
  usbd_fini w = out32 w 0x130 (bit_or itc_default 2)

  -- The endpoints that usbd_port_reset disables, from `ep` on.
  pub disable_all : ℕ → ℕ → Usbd F → Usbd F
  disable_all zero ep w = w
  disable_all (suc n) ep w = disable_all n (suc ep) (usbd_hw_ep_init w ep ep_type_none ep_type_none)

  module _ (run : Callback → ReqId → Usbd F → Result (Usbd F)) where
    -- The loop of usbd_port_reset over usbd_reqs.
    pub reset_reqs : ℕ → ℕ → Usbd F → Result (Usbd F)
    unfolding call_complete
    reset_reqs zero i w = ok w
    reset_reqs (suc n) i w = elim (w.usbd_reqs i) [
      | none ↦ reset_reqs n (suc i) w
      | some r ↦ do
        w1 ←
            call_complete run
              (set_request (set_slot w i none) r (record (w.request r) { error = true })) r
        reset_reqs n (suc i) w1
    ]

    -- context->port_reset is NULL in fb.c.
    pub usbd_port_reset : Registers → Usbd F → Result (UsbdStatus × Usbd F)
    unfolding reset_reqs disable_all
    usbd_port_reset regs w = do
      let w1 = out32 w 0x218 regs.eptcomplete
      let w2 = flush_all (out32 w1 0x208 regs.eptsetupst)
      w3 ← reset_reqs (max_eps * 2) 0 w2
      ok (usbd_success, disable_all max_eps 0 w3)

    -- One bit of EPTCOMPLETE that is set. The request of an idle endpoint is NULL.
    pub complete_slot : ℕ → Usbd F → Option ReqId → Result (Usbd F)
    complete_slot ep_ix w none = null_pointer
    complete_slot ep_ix w (some r) = usbd_req_complete run (set_slot w ep_ix none) r

    -- The loop over the bits of EPTCOMPLETE, from the lowest on.
    pub usbd_completions : ℕ → ℕ → ℕ → Usbd F → Result (Usbd F)
    usbd_completions zero ep_ix complete w = ok w
    usbd_completions (suc n) ep_ix complete w =
        let one = if complete % 2 == 0 then ok w else complete_slot ep_ix w (w.usbd_reqs ep_ix) in
        let rest = one >>= usbd_completions n (suc ep_ix) (complete / 2) in
        if complete == 0 then ok w else rest

  module _ (eps : List ReqId) (set_config : ℕ → Usbd F → Result (UsbdStatus × Usbd F)) where
    pub usbd_init : ℕ → ℕ → Usbd F → Result (UsbdStatus × Usbd F)
    unfolding qtds_fit assign_qtds usbd_req_init
    usbd_init qtds qtd_count w = do
      addr ←
          if qtds_fit qtd_count qtds
          then assign_qtds (max_eps * 2) 0 eps qtds qtd_count w.qtd_addr
          else bug
      w1 ← usbd_req_init (record w { qtd_addr = addr }) ep0_out
      w2 ← usbd_req_init w1 ep0_in
      answer ← set_config 0 (record w2 { hs = false; descs = none; current_config = 0 })
      let w3 = out32 answer.1 0x130 (bit_or itc_default 2)
      let w4 = flush_all (out32 w3 0x1f8 2)
      ok (usbd_success, out32 (out32 w4 0x148 0x1000) 0x130 (bit_or itc_default 1))

    module _ (qtds qtd_count : ℕ) (run : Callback → ReqId → Usbd F → Result (Usbd F)) where
      -- `status && USBSTS_PORT_CHANGE` is a test of `status` alone.
      pub poll_status : Registers → Usbd F → Result (UsbdStatus × Usbd F)
      unfolding usbd_init usbd_port_reset
      poll_status regs w =
          let w1 = out32 w 0x134 regs.usbsts in
          if not (bit_and regs.usbsts (2 ^ 8) == 0)
          then usbd_init qtds qtd_count w1
          else if not (bit_and regs.usbsts (2 ^ 6) == 0)
          then usbd_port_reset run regs w1
          else if not (regs.usbsts == 0)
          then ok (usbd_port_change regs.devlc_mode w1)
          else ok (usbd_usbsts_error, w1)

      pub usbd_poll : Registers → Usbd F → Result (UsbdStatus × Usbd F)
      usbd_poll regs w = if not (regs.usbsts == 0) then poll_status regs w else do
        w1 ←
            if regs.eptcomplete == 0
            then ok w
            else usbd_completions run (max_eps * 2) 0 regs.eptcomplete
                (out32 w 0x218 regs.eptcomplete)
        w2 ← usbd_port_setup set_config (max_eps * 2) 0 regs.eptsetupst regs.setup_buffer w1
        ok (usbd_success, w2)

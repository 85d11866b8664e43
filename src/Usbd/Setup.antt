-- ===== src/Usbd/Setup.antt =====
-- usbd.c: the port, the control requests of endpoint 0, and the start of the controller.
use shield_tv_loader.Base.{
  not, bug, drop, ◌++◌, ℕ, zero, suc, ◌+◌, ◌-◌, ◌*◌, ◌/◌, ◌%◌, ◌^◌, Bool, true, false, ◌&&◌, List,
  [], ◌∷◌, Option, none, some, ltb, ◌==◌, if◌then◌else◌, bit_or, Result, ok, ◌>>=◌, length, take,
}
use shield_tv_loader.Usbd.{
  UsbdEp, u32, ReqId, ep0_out, ep0_in, ep0_in_req_complete, EpType, ep_type_none, ep_type_ctlr,
  ep_type_iso, ep_type_bulk, ep_type_intr, DescTable, Usbd, out32, set_request, usbd_req_submit,
  u32,
}

pub data UsbdStatus : Type 0 where
  usbd_success usbd_port_change_error usbd_usbsts_error : UsbdStatus
  usbd_setup_packet_unsupported usbd_config_unsupported : UsbdStatus

pub record CtrlRequest : Type 0 where
  pub b_request_type : ℕ
  pub b_request : ℕ
  pub w_value : ℕ
  pub w_index : ℕ
  pub w_length : ℕ

-- The value of the enumeration.
abbrev ep_type_code : EpType → ℕ
ep_type_code ep_type_none = 0
ep_type_code ep_type_ctlr = 1
ep_type_code ep_type_iso = 2
ep_type_code ep_type_bulk = 3
ep_type_code ep_type_intr = 4

-- The bits of EP_CTRL for one direction: I(type - 1, shift + 3, shift + 2), the enable and the reset bit.
abbrev ep_bits : ℕ → EpType → ℕ
ep_bits shift ep_type_none = 0
ep_bits shift type =
    bit_or (u32 ((ep_type_code type - 1) * 2 ^ (shift + 2)))
      (bit_or (2 ^ (shift + 7)) (2 ^ (shift + 6)))

-- The first descriptor of the id that is asked for.
pub find_desc : ℕ → DescTable → Option (List ℕ)
find_desc id [] = none
find_desc id ((key, bytes) ∷ table) =
    let rest = find_desc id table in if id == key then some bytes else rest

abbrev min_length : ℕ → ℕ → ℕ
min_length a b = if ltb a b then a else b

-- ST(bRequestType, bRequest)
abbrev is_request : CtrlRequest → ℕ → ℕ → Bool
is_request request type code = request.b_request_type == type && request.b_request == code

abbrev is_success : UsbdStatus → Bool
is_success usbd_success = true
is_success status = false

module _ {F : Type 0} where
  pub usbd_hw_ep_init : Usbd F → ℕ → EpType → EpType → Usbd F
  usbd_hw_ep_init w ep rx_type tx_type =
      if ep == 0
      then w
      else out32 w (0x21c + ep * 4) (bit_or (ep_bits 0 rx_type) (ep_bits 16 tx_type))

  pub usbd_ep_enable : Usbd F → UsbdEp → UsbdEp → Usbd F
  unfolding usbd_hw_ep_init
  usbd_ep_enable w out_ep in_ep = usbd_hw_ep_init w out_ep.num out_ep.type in_ep.type

  pub usbd_ep_disable : Usbd F → UsbdEp → UsbdEp → Result (Usbd F)
  unfolding usbd_hw_ep_init
  usbd_ep_disable w out_ep in_ep =
      if not (out_ep.num == in_ep.num)
      then bug
      else ok (usbd_hw_ep_init w out_ep.num ep_type_none ep_type_none)

  pub usbd_hw_ep_stall : Usbd F → ℕ → Usbd F
  usbd_hw_ep_stall w ep = out32 w (0x21c + ep * 4) (bit_or (2 ^ 0) (2 ^ 16))

  -- `mode` is the field of USBDEVLC.
  pub usbd_port_change : ℕ → Usbd F → UsbdStatus × Usbd F
  usbd_port_change mode w =
      if mode == 0
      then (usbd_success, record w { hs = false; descs = some w.fs_descs })
      else if mode == 2
      then (usbd_success, record w { hs = true; descs = some w.hs_descs })
      else (usbd_port_change_error, w)

  pub usbd_ep0_setup_ack : Usbd F → Result (Usbd F)
  usbd_ep0_setup_ack w =
      usbd_req_submit
        (set_request w ep0_in (record (w.request ep0_in) { buffer_length = 0; complete = none }))
        ep0_in

  pub usbd_ep0_in_req_complete : ReqId → Usbd F → Result (Usbd F)
  usbd_ep0_in_req_complete r w =
      let q = record (w.request ep0_out) { buffer_length = 0; complete = none } in
      if (w.request r).error then ok w else usbd_req_submit (set_request w ep0_out q) ep0_out

  -- The bytes of `buf` are copied into the small buffer of the request.
  pub usbd_ep0_setup_tx : Usbd F → List ℕ → ℕ → Result (Usbd F)
  usbd_ep0_setup_tx w buf buffer_length =
      usbd_req_submit
        (set_request w ep0_in (record (w.request ep0_in) {
          buffer_length = buffer_length;
          small_buffer =
              take buffer_length buf ++ drop buffer_length (w.request ep0_in).small_buffer;
          complete = some ep0_in_req_complete;
        }))
        ep0_in

  abbrev success_after : Result (Usbd F) → Result (UsbdStatus × Usbd F)
  success_after m = m >>= λ w. ok (usbd_success, w)

  abbrev success : Usbd F → UsbdStatus × Usbd F
  success w = (usbd_success, w)

  pub get_descriptor : Usbd F → CtrlRequest → Option DescTable → Result (UsbdStatus × Usbd F)
  unfolding usbd_ep0_setup_tx find_desc
  get_descriptor w request none = ok (usbd_setup_packet_unsupported, w)
  get_descriptor w request (some table) = elim (find_desc request.w_value table) [
    | none ↦ ok (usbd_setup_packet_unsupported, w)
    | some bytes ↦
        success_after (usbd_ep0_setup_tx w bytes (min_length (length bytes) request.w_length))
  ]

  -- What the code does once set_config has answered.
  pub finish_config : CtrlRequest → UsbdStatus × Usbd F → Result (UsbdStatus × Usbd F)
  unfolding usbd_ep0_setup_ack
  finish_config request (usbd_success, w) =
      success_after (usbd_ep0_setup_ack (record w { current_config = request.w_value % 256 }))
  finish_config request (status, w) = ok (status, w)

  module _ (set_config : ℕ → Usbd F → Result (UsbdStatus × Usbd F)) where
    pub set_configuration : Usbd F → CtrlRequest → Result (UsbdStatus × Usbd F)
    unfolding finish_config
    set_configuration w request =
        if request.w_value == w.current_config
        then finish_config request (success w)
        else (set_config (request.w_value % 256) w >>= finish_config request)

    pub usbd_ep0_setup : Usbd F → CtrlRequest → Result (UsbdStatus × Usbd F)
    unfolding set_configuration get_descriptor usbd_ep0_setup_ack usbd_ep0_setup_tx
    usbd_ep0_setup w request =
        if is_request request 0x00 0x5
        then success_after
            (usbd_ep0_setup_ack (out32 w 0x144 (bit_or (2 ^ 24) (u32 (request.w_value * 2 ^ 25)))))
        else if is_request request 0x80 0x6
        then get_descriptor w request w.descs
        else if is_request request 0x00 0x9
        then set_configuration w request
        else if is_request request 0x80 0x8
        then success_after (usbd_ep0_setup_tx w (w.current_config ∷ []) 1)
        else ok (usbd_setup_packet_unsupported, w)

    -- What is done for one endpoint whose bit is set. context->port_setup is NULL in fb.c, and an
    -- endpoint other than 0 is stalled.
    pub setup_one : ℕ → (ℕ → CtrlRequest) → Usbd F → Result (Usbd F)
    unfolding usbd_ep0_setup usbd_hw_ep_stall
    setup_one ep_ix requests w = do
      let w1 = out32 w 0x208 (2 ^ ep_ix)
      answer ←
          if ep_ix == 0
          then usbd_ep0_setup w1 (requests 0)
          else ok (usbd_setup_packet_unsupported, w1)
      ok (if is_success answer.0 then answer.1 else usbd_hw_ep_stall answer.1 ep_ix)

    -- The loop over the bits of EPTSETUPST, from the lowest on.
    unfoldable pub usbd_port_setup : ℕ → ℕ → ℕ → (ℕ → CtrlRequest) → Usbd F → Result (Usbd F)
    unfolding setup_one
    usbd_port_setup zero ep_ix setupst requests w = ok w
    usbd_port_setup (suc n) ep_ix setupst requests w = if setupst == 0 then ok w else do
      w1 ← if setupst % 2 == 1 then setup_one ep_ix requests w else ok w
      usbd_port_setup n (suc ep_ix) (setupst / 2) requests w1

-- ===== src/Usbd.antt =====
-- usbd.c: the driver of the USB device controller. The registers are inputs where they are read; what
-- is written to them is kept in `writes`, the last write first, by its offset from EHCI_BASE. The loops
-- that wait for a register are left out: the controller clears it.
pub mod Setup
pub mod Poll
pub mod Pages
pub mod Slots
mod Tests
use shield_tv_loader.Base.{
  ℕ, zero, suc, ◌+◌, ◌-◌, ◌*◌, ◌/◌, ◌%◌, ◌^◌, Bool, true, false, not, ◌&&◌, ◌||◌, List, [], ◌∷◌,
  Option, none, some, ltb, leb, ◌==◌, if◌then◌else◌, bit_and, bit_or, update, Result, ok, bug,
  null_pointer, ◌>>=◌,
}

-- A 32-bit number.
abbrev pub u32 : ℕ → ℕ
u32 a = a % 2 ^ 32

abbrev pub sub32 : ℕ → ℕ → ℕ
sub32 a b = (a + 2 ^ 32 - b % 2 ^ 32) % 2 ^ 32

-- The requests of the program: those of endpoint 0 in struct usbd, and those of endpoint 1 in fb_mem.
pub data ReqId : Type 0 where
  ep0_out ep0_in ep1_out ep1_in : ReqId

abbrev pub same_req : ReqId → ReqId → Bool
same_req ep0_out ep0_out = true
same_req ep0_in ep0_in = true
same_req ep1_out ep1_out = true
same_req ep1_in ep1_in = true
same_req r s = false

-- The functions that the program stores in `complete`.
pub data Callback : Type 0 where
  ep0_in_req_complete : Callback
  end_command_complete end_command_with_info_complete peek_exe : Callback
  reboot_complete flash_complete rx_cmd_complete rx_data_complete : Callback

pub data EpType : Type 0 where
  ep_type_none ep_type_ctlr ep_type_iso ep_type_bulk ep_type_intr : EpType

pub record UsbdEp : Type 0 where
  pub num : ℕ
  pub send : Bool
  pub type : EpType

-- The endpoint that usbd_req_init gave each request.
abbrev pub ep_of : ReqId → UsbdEp
ep_of ep0_out = record { num = 0; send = false; type = ep_type_ctlr }
ep_of ep0_in = record { num = 0; send = true; type = ep_type_ctlr }
ep_of ep1_out = record { num = 1; send = false; type = ep_type_bulk }
ep_of ep1_in = record { num = 1; send = true; type = ep_type_bulk }

pub record UsbdTd : Type 0 where
  pub next_td_ptr : ℕ
  pub size_ioc_sts : ℕ
  pub buff_ptr0 : ℕ
  pub buff_ptr1 : ℕ
  pub buff_ptr2 : ℕ
  pub buff_ptr3 : ℕ
  pub buff_ptr4 : ℕ

pub record UsbdQh : Type 0 where
  pub max_pkt_length : ℕ
  pub curr_dtd_ptr : ℕ
  pub next_dtd_ptr : ℕ

-- `small_buffer` holds the bytes, `buffer` is an address.
pub record UsbdReq : Type 0 where
  pub error : Bool
  pub cancel : Bool
  pub buffer : ℕ
  pub io_done : ℕ
  pub buffer_length : ℕ
  pub complete : Option Callback
  pub small_buffer : List ℕ

-- A descriptor: its id and its bytes.
abbrev pub DescTable : Type 0
DescTable = List (ℕ × List ℕ)

-- struct usbd with the requests, and the array usbd_reqs; `F` is what `ctx` points to. The place of
-- each request's small_buffer and of each endpoint's descriptor is fixed.
pub record Usbd (F : Type 0) : Type 0 where
  pub ctx : F
  pub hs : Bool
  pub fs_descs : DescTable
  pub hs_descs : DescTable
  pub descs : Option DescTable
  pub current_config : ℕ
  pub request : ReqId → UsbdReq
  pub usbd_reqs : ℕ → Option ReqId
  pub td : ReqId → UsbdTd
  pub qh : ReqId → UsbdQh
  pub small_addr : ReqId → ℕ
  pub qtd_addr : ReqId → ℕ
  pub writes : List (ℕ × ℕ)

abbrev pub update_req {ℓ} : {A : Type ℓ} → (ReqId → A) → ReqId → A → ReqId → A
update_req f r v s = if same_req s r then v else f s

abbrev pub max_eps : ℕ
max_eps = 16

abbrev pub slot_of : ReqId → ℕ
slot_of r = if (ep_of r).send then (ep_of r).num + max_eps else (ep_of r).num

abbrev td_terminate : ℕ
td_terminate = bit_or 0xffff_ffe0 1

abbrev next_page : ℕ → ℕ
next_page p = u32 (p + 0x1000)

pub usbd_td_init : ℕ → ℕ → UsbdTd
usbd_td_init size buf =
    let sts = bit_or (u32 (size * 2 ^ 16)) 0x80 in
    let p0 = u32 buf in
    let p1 = next_page (bit_and p0 0xffff_f000) in
    let p2 = next_page p1 in
    let p3 = next_page p2 in
    let p4 = next_page p3 in
    let td : UsbdTd = record {
      next_td_ptr = td_terminate;
      size_ioc_sts = sts;
      buff_ptr0 = p0;
      buff_ptr1 = 0;
      buff_ptr2 = 0;
      buff_ptr3 = 0;
      buff_ptr4 = 0;
    } in
    if leb size 0x1000
    then td
    else if leb size 0x2000
    then record td { buff_ptr1 = p1 }
    else if leb size 0x3000
    then record td { buff_ptr1 = p1; buff_ptr2 = p2 }
    else if leb size 0x4000
    then record td { buff_ptr1 = p1; buff_ptr2 = p2; buff_ptr3 = p3 }
    else record td { buff_ptr1 = p1; buff_ptr2 = p2; buff_ptr3 = p3; buff_ptr4 = p4 }

pub usbd_ep_get_max_packet : Bool → EpType → ℕ
usbd_ep_get_max_packet hs ep_type_ctlr = 64
usbd_ep_get_max_packet hs ep_type_bulk = if hs then 512 else 64
usbd_ep_get_max_packet hs ep_type_intr = if hs then 1024 else 64
usbd_ep_get_max_packet hs ep_type_iso = if hs then 1024 else 1023
usbd_ep_get_max_packet hs ep_type_none = if hs then 1024 else 1023

pub usbd_qh_init : Bool → UsbdEp → ℕ → UsbdQh
unfolding usbd_ep_get_max_packet
usbd_qh_init hs ep qtd =
    let packet = bit_or (usbd_ep_get_max_packet hs ep.type * 2 ^ 16) 0x2000_0000 in
    record {
      max_pkt_length = if not ep.send && ep.num == 0 then bit_or packet 0x8000 else packet;
      curr_dtd_ptr = td_terminate;
      next_dtd_ptr = u32 qtd;
    }

abbrev pub eptflush : ℕ
eptflush = 0x210

abbrev pub is_none {ℓ} : {A : Type ℓ} → Option A → Bool
is_none none = true
is_none (some a) = false

abbrev pub holds_req : Option ReqId → ReqId → Bool
holds_req none r = false
holds_req (some s) r = same_req s r

module _ {F : Type 0} where
  -- OUT32(value, EHCI_BASE + reg)
  abbrev pub out32 : Usbd F → ℕ → ℕ → Usbd F
  out32 w reg value = record w { writes = (reg, value) ∷ w.writes }

  -- One endpoint; usbd_hw_ep_flush(context, -1, ...) is flush_all.
  pub usbd_hw_ep_flush : Usbd F → ℕ → Bool → Usbd F
  usbd_hw_ep_flush w ep is_in =
      if ep == 0
      then out32 w eptflush (bit_or (2 ^ 16) 1)
      else if is_in
      then out32 w eptflush (2 ^ (16 + ep))
      else out32 w eptflush (2 ^ ep)

  pub flush_all : Usbd F → Usbd F
  flush_all w = out32 w eptflush 0xffff_ffff

  pub usbd_ep_prime : Usbd F → UsbdEp → Usbd F
  usbd_ep_prime w ep = out32 w 0x20c (if ep.send then 2 ^ (16 + ep.num) else 2 ^ ep.num)

  -- req->field = ...
  abbrev pub set_request : Usbd F → ReqId → UsbdReq → Usbd F
  set_request w r q = record w { request = update_req w.request r q }

  abbrev pub set_slot : Usbd F → ℕ → Option ReqId → Usbd F
  set_slot w ix o = record w { usbd_reqs = update w.usbd_reqs ix o }

  -- The transfer of a request is handed to the controller.
  pub start_transfer : Usbd F → ReqId → Usbd F
  unfolding usbd_hw_ep_flush usbd_td_init usbd_qh_init usbd_ep_prime
  start_transfer w r =
      let ep = ep_of r in
      let q = w.request r in
      let w1 = usbd_hw_ep_flush w ep.num ep.send in
      let w2 = record w1 { td = update_req w1.td r (usbd_td_init q.buffer_length q.buffer) } in
      let w3 = record w2 { qh = update_req w2.qh r (usbd_qh_init w2.hs ep (w2.qtd_addr r)) } in
      usbd_ep_prime w3 ep

  pub usbd_req_submit : Usbd F → ReqId → Result (Usbd F)
  unfolding start_transfer
  usbd_req_submit w r =
      let q = w.request r in
      let length = if ltb q.buffer_length 0x5000 then q.buffer_length else 0x5000 in
      let w1 = set_request w r (record q { buffer_length = length }) in
      if not (is_none (w1.usbd_reqs (slot_of r)))
      then bug
      else ok (set_slot (start_transfer w1 r) (slot_of r) (some r))

  -- `run` calls a function that `complete` points to, for a request.
  module _ (run : Callback → ReqId → Usbd F → Result (Usbd F)) where
    pub call_complete : Usbd F → ReqId → Result (Usbd F)
    call_complete w r = elim ((w.request r).complete) [ none ↦ ok w | some c ↦ run c r w ]

    pub usbd_req_complete : Usbd F → ReqId → Result (Usbd F)
    unfolding call_complete
    usbd_req_complete w r =
        let q = w.request r in
        let sts = (w.td r).size_ioc_sts in
        let w1 = set_request w r (record q {
          io_done = sub32 q.buffer_length (bit_and sts 0x7fff_0000 / 2 ^ 16);
          error = not (bit_and sts 0x68 == 0);
        }) in
        if is_none q.complete then ok w else call_complete w1 r

    pub usbd_req_cancel : Usbd F → ReqId → Result (Usbd F)
    unfolding usbd_hw_ep_flush call_complete
    usbd_req_cancel w r =
        let ep = ep_of r in
        let w1 = set_slot (usbd_hw_ep_flush w ep.num ep.send) (slot_of r) none in
        let w2 = set_request w1 r (record (w1.request r) { error = true; cancel = true }) in
        if not (holds_req (w.usbd_reqs (slot_of r)) r) then ok w else do
          w3 ← call_complete w2 r
          ok (set_request w3 r (record (w3.request r) { cancel = false }))

-- ===== src/Fb.antt =====
-- fb.c: the fastboot commands. struct fb_mem is the record Fb, with the program's memory tables, the
-- memory that peek and poke reach and what echo prints; its requests are those of the driver.
pub mod Oem
pub mod Service
pub mod Command
pub mod Dispatch
pub mod Download
pub mod Race
pub mod Protocol
pub mod Answer
pub mod Peek
pub mod Parsing
pub mod Reply
pub mod Outcome
pub mod Before
pub mod Answered
pub mod Round
mod Tests
use shield_tv_loader.Base.{
  ℕ, zero, suc, ◌+◌, ◌-◌, ◌*◌, ◌/◌, ◌%◌, ◌^◌, Bool, true, false, not, ◌&&◌, ◌||◌, List, [], ◌∷◌,
  ◌++◌, Option, none, some, ltb, leb, ◌==◌, if◌then◌else◌, Result, ok, bug, ◌>>=◌, length, drop,
  add64, sub64, update,
}
use shield_tv_loader.Ctype.{is_graph}
use shield_tv_loader.Number.Format.{PrintfSpec, number, cut_text}
use shield_tv_loader.Number.Hex.{hex_spec}
use shield_tv_loader.Lmb.{Lmb}
use shield_tv_loader.Usbd.{
  ReqId, ep1_out, ep1_in, Callback, end_command_complete, end_command_with_info_complete, peek_exe,
  rx_cmd_complete, rx_data_complete, UsbdReq, Usbd, set_request, usbd_req_submit,
}

pub record FbPeek : Type 0 where
  pub addr : ℕ
  pub access : ℕ
  pub items : ℕ
  pub ascii : Bool

pub record Fb : Type 0 where
  pub in_command : Bool
  -- NULL is 0.
  pub last_loaded : ℕ
  pub load_size : ℕ
  pub load_rem : ℕ
  pub load_align : ℕ
  pub peek : FbPeek
  pub reboot_type : ℕ
  pub lmb : Lmb
  pub mem : ℕ → ℕ
  pub console : List (List ℕ)

abbrev pub World : Type 0
World = Usbd Fb

abbrev pub set_ctx : World → Fb → World
set_ctx w fb = record w { ctx = fb }

-- sizeof(small_buffer)
abbrev pub small_size : ℕ
small_size = 64

-- FB_OK is `none`.
abbrev pub FbStatus : Type 0
FbStatus = Option (List ℕ)

abbrev pub okay : List ℕ
okay = b'O' ∷ b'K' ∷ b'A' ∷ b'Y' ∷ []

abbrev pub info : List ℕ
info = b'I' ∷ b'N' ∷ b'F' ∷ b'O' ∷ []

-- Bytes written over the front of a buffer.
abbrev pub overwrite : List ℕ → List ℕ → List ℕ
overwrite bytes old = bytes ++ drop (length bytes) old

abbrev pub fb_end_command_complete : World → World
fb_end_command_complete w = set_ctx w (record w.ctx { in_command = false })

abbrev pub status_text : FbStatus → List ℕ
status_text none = okay
status_text (some text) = text

-- The request of the endpoint to the host, filled.
abbrev pub filled : World → List ℕ → ℕ → Option Callback → World
filled w bytes length complete =
    let q = w.request ep1_in in
    set_request w ep1_in (record q {
      buffer = w.small_addr ep1_in;
      buffer_length = length;
      small_buffer = overwrite bytes q.small_buffer;
      complete = complete;
    })

pub fb_end_command_with_custom_complete : World → FbStatus → Callback → Result World
fb_end_command_with_custom_complete w status complete =
    let text = status_text status in
    if ltb small_size (length text + 1)
    then bug
    else usbd_req_submit (filled w (text ++ 0 ∷ []) (length text + 1) (some complete)) ep1_in

pub fb_end_command : World → FbStatus → Result World
unfolding fb_end_command_with_custom_complete
fb_end_command w status = fb_end_command_with_custom_complete w status end_command_complete

pub fb_end_command_with_info_complete : World → Result World
unfolding fb_end_command
fb_end_command_with_info_complete w = fb_end_command w none

-- `text` is what the format gives.
pub fb_end_command_with_info : World → List ℕ → Result World
fb_end_command_with_info w text =
    let kept = cut_text (small_size - 4) text in
    usbd_req_submit
      (filled w (info ++ kept ++ 0 ∷ []) (length kept + 4) (some end_command_with_info_complete))
      ep1_in

-- %08x, of an unsigned int.
abbrev pub data_text : ℕ → List ℕ
data_text size =
    b'D'
    ∷ b'A'
    ∷ b'T'
    ∷ b'A'
    ∷ number (size % 2 ^ 32) (record hex_spec { zeropad = true; field_width = 8 })

pub fb_request_data : World → Result World
fb_request_data w =
    let kept = cut_text small_size (data_text w.ctx.load_size) in
    usbd_req_submit (filled w (kept ++ 0 ∷ []) (length kept) none) ep1_in

pub fb_rx_data : World → Result World
fb_rx_data w =
    let fb = w.ctx in
    usbd_req_submit
      (set_request w ep1_out (record (w.request ep1_out) {
        buffer = add64 fb.last_loaded (sub64 fb.load_size fb.load_rem);
        buffer_length = fb.load_rem % 2 ^ 32;
        complete = some rx_data_complete;
      }))
      ep1_out

pub fb_rx_cmd : World → Result World
fb_rx_cmd w =
    usbd_req_submit
      (set_request w ep1_out (record (w.request ep1_out) {
        buffer = w.small_addr ep1_out;
        buffer_length = 64;
        complete = some rx_cmd_complete;
      }))
      ep1_out

-- "Loaded at %p-%p"
abbrev pub pointer_spec : PrintfSpec
pointer_spec = record hex_spec { zeropad = true; field_width = 16 }

abbrev pub loaded_text : Fb → List ℕ
loaded_text fb =
    b'L'
    ∷ b'o'
    ∷ b'a'
    ∷ b'd'
    ∷ b'e'
    ∷ b'd'
    ∷ b' '
    ∷ b'a'
    ∷ b't'
    ∷ b' '
    ∷ (number fb.last_loaded pointer_spec
        ++ b'-' ∷ number (sub64 (add64 fb.last_loaded fb.load_size) 1) pointer_spec)

pub fb_rx_data_complete : ReqId → World → Result World
fb_rx_data_complete r w =
    let q = w.request r in
    let fb = w.ctx in
    let w1 =
      if q.error then w else set_ctx w (record fb { load_rem = sub64 fb.load_rem q.io_done }) in
    if q.error && q.cancel
    then ok w
    else if w1.ctx.load_rem == 0
    then (fb_rx_cmd w1 >>= λ w2. fb_end_command_with_info w2 (loaded_text w2.ctx))
    else fb_rx_data w1

-- IN8 to IN64: the value of `n` bytes of memory.
pub read_le : (ℕ → ℕ) → ℕ → ℕ → ℕ
read_le mem addr zero = 0
read_le mem addr (suc n) = mem addr + 256 * read_le mem (add64 addr 1) n

-- One item that peek prints, in what is left of the buffer.
abbrev pub peek_item : FbPeek → (ℕ → ℕ) → ℕ → ℕ → List ℕ
peek_item peek mem addr len =
    let value = read_le mem addr peek.access in
    let hex = number value (record hex_spec { zeropad = true; field_width = peek.access * 2 }) in
    if peek.ascii && (leb (value % 256) 0x7f && is_graph value)
    then cut_text len (b' ' ∷ value % 256 ∷ b' ' ∷ [])
    else cut_text len (hex ++ b' ' ∷ [])

pub peek_text : ℕ → FbPeek → (ℕ → ℕ) → ℕ → ℕ → List ℕ
unfolding read_le
peek_text zero peek mem addr len = []
peek_text (suc n) peek mem addr len =
    peek_item peek mem addr len
    ++ peek_text n peek mem (add64 addr peek.access) (len - (peek.access * 2 + 1))

abbrev pub min_of : ℕ → ℕ → ℕ
min_of a b = if ltb a b then a else b

-- `failed` is `req != NULL && req->error`.
pub fb_oem_cmd_peek_exe : Bool → World → Result World
unfolding peek_text fb_end_command
fb_oem_cmd_peek_exe failed w =
    let fb = w.ctx in
    let peek = fb.peek in
    let len_to_fill = small_size - 4 - 1 in
    let items = min_of (len_to_fill / (peek.access * 2 + 1)) peek.items in
    let text = peek_text items peek fb.mem peek.addr len_to_fill in
    let rest = record peek {
      items = peek.items - items;
      addr = add64 peek.addr (peek.access * items);
    } in
    let length1 = length text + 5 in
    if failed
    then ok w
    else if items == 0
    then fb_end_command w none
    else if ltb small_size length1
    then bug
    else usbd_req_submit
        (filled (set_ctx w (record fb { peek = rest })) (info ++ text ++ 0 ∷ []) length1
          (some peek_exe))
        ep1_in

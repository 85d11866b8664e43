-- ===== src/Fb/Tests.antt =====
-- The theorems on fb.c at commands and downloads.
use shield_tv_loader.Base.{
  ℕ, ◌≡◌, ◌<◌, ◌≤◌, refl, true, false, List, Result, ok, [], ◌∷◌, Option, none, some, bug, arith,
  update, ◌^◌, ◌*◌,
}
use shield_tv_loader.Lmb.Ops.Board.{board}
use shield_tv_loader.Usbd.{
  ReqId, ep1_out, ep1_in, UsbdTd, UsbdQh, UsbdReq, rx_cmd_complete, rx_data_complete,
  usbd_req_complete,
}
use shield_tv_loader.Fb.{Fb, World, data_text, loaded_text}
use shield_tv_loader.Fb.Service.{hex_text, smccc_text}
use shield_tv_loader.Printf.Buffer.{formatted}
use shield_tv_loader.Printf.Texts.{
  data_format, hex_format, smccc_format, loaded_format, reply_texts,
}
use shield_tv_loader.Usbd.Poll.{Registers}
use shield_tv_loader.Fb.Dispatch.{run_complete, fb_poll}
use shield_tv_loader.Fb.Race.{download_race}
use shield_tv_loader.Fb.Protocol.{
  loading, shows_loading, Completes, completion, no_completion, arrive, Refines, Downloads-Refines,
}
use shield_tv_loader.Fb.Round.{Serves, fb_poll-Serves}
use shield_tv_loader.Fb.Answer.{Replies}
use shield_tv_loader.Fb.Before.{idle}
use shield_tv_loader.Fb.Answered.{fb_rx_cmd_complete-Replies}
use shield_tv_loader.Fb.Download.{
  Advances, more, finished, IsLoading, IsChunk, usbd_req_complete-Advances,
}

abbrev no_td : UsbdTd
no_td = record {
  next_td_ptr = 1;
  size_ioc_sts = 0;
  buff_ptr0 = 0;
  buff_ptr1 = 0;
  buff_ptr2 = 0;
  buff_ptr3 = 0;
  buff_ptr4 = 0;
}

abbrev no_qh : UsbdQh
no_qh = record { max_pkt_length = 0; curr_dtd_ptr = 1; next_dtd_ptr = 1 }

abbrev a_request : List ℕ → UsbdReq
a_request bytes = record {
  error = false;
  cancel = false;
  buffer = 0x9000_0000;
  io_done = 0;
  buffer_length = 64;
  complete = some rx_cmd_complete;
  small_buffer = bytes;
}

abbrev a_fb : Fb
a_fb = record {
  in_command = false;
  last_loaded = 0;
  load_size = 0;
  load_rem = 0;
  load_align = 0;
  peek = record { addr = 0; access = 1; items = 0; ascii = false };
  reboot_type = 0;
  lmb = board;
  mem = λ a. 0xa5;
  console = [];
}

abbrev a_world : Fb → (ℕ → Option ReqId) → UsbdReq → UsbdTd → World
a_world fb slots request td = record {
  ctx = fb;
  hs = true;
  fs_descs = [];
  hs_descs = [];
  descs = none;
  current_config = 1;
  request = λ r. request;
  usbd_reqs = slots;
  td = λ r. td;
  qh = λ r. no_qh;
  small_addr = λ r. 0x9000_0000;
  qtd_addr = λ r. 0x9000_1000;
  writes = [];
}

abbrev peek_command : List ℕ
peek_command =
    b'o' ∷ b'e' ∷ b'm' ∷ b' ' ∷ b'p' ∷ b'e' ∷ b'e' ∷ b'k' ∷ b' ' ∷ b'0' ∷ b'x' ∷ b'4' ∷ b'0' ∷ b' '
    ∷ b'4' ∷ 0 ∷ []

abbrev peek_world : World
peek_world = a_world a_fb (λ i. none) (a_request peek_command) no_td

fb_rx_cmd_complete-Replies_example :
    Replies (run_complete (λ inout. inout) 2 rx_cmd_complete ep1_out peek_world)
fb_rx_cmd_complete-Replies_example =
    fb_rx_cmd_complete-Replies (λ inout. inout) 0 peek_world (λ a. omega arith) refl refl refl
      (idle refl)

-- A download of 0x6000 bytes, of which nothing has come.
abbrev loading_fb : ℕ → Fb
loading_fb size = record a_fb {
  in_command = true;
  last_loaded = 0x8000_0000;
  load_size = size;
  load_rem = size;
  load_align = 0x10_0000;
}

abbrev data_request : ℕ → UsbdReq
data_request size = record (a_request []) {
  buffer = 0x8000_0000;
  buffer_length = size;
  complete = some rx_data_complete;
}

-- The controller left 0x1000 bytes over.
abbrev loading_world : World
loading_world =
    a_world (loading_fb 0x6000) (λ i. none) (data_request 0x5000)
      (record no_td { size_ioc_sts = 0x1000 * 2 ^ 16 })

loading_fb-IsLoading : (size : ℕ) → 0 < size → size ≤ 0x8000 → IsLoading (loading_fb size)
loading_fb-IsLoading size h k = record {
  loaded = omega arith;
  left = h;
  part = omega arith;
  fits = omega (arith, k);
}

usbd_req_complete-Advances_example :
    Advances
      (loading_fb 0x6000)
      0x4000
      (usbd_req_complete (run_complete (λ inout. inout) 1) loading_world ep1_out)
usbd_req_complete-Advances_example =
    usbd_req_complete-Advances (λ inout. inout) 0 loading_world
      (loading_fb-IsLoading 0x6000 (omega arith) (omega arith))
      (record { called = refl; start = refl; size = refl }) refl refl refl (omega arith)

-- All of a download of 0x800 bytes has come, and its announcement is still in flight.
abbrev racing_world : World
racing_world =
    a_world (loading_fb 0x800) (update (λ i. none) 17 (some ep1_in)) (data_request 0x800) no_td

download_race_example :
    usbd_req_complete (run_complete (λ inout. inout) 1) racing_world ep1_out ≡ bug
download_race_example =
    download_race (λ inout. inout) 0 racing_world
      (loading_fb-IsLoading 0x800 (omega arith) (omega arith))
      (record { called = refl; start = refl; size = refl }) refl refl refl refl (omega arith)

-- The command has arrived.
abbrev arrived_world : World
arrived_world = a_world a_fb (update (λ i. none) 1 (some ep1_out)) (a_request peek_command) no_td

abbrev arrived : Registers
arrived = record {
  usbsts = 0;
  devlc_mode = 2;
  eptcomplete = 2;
  eptsetupst = 0;
  setup_buffer =
      λ ep. record { b_request_type = 0; b_request = 0; w_value = 0; w_index = 0; w_length = 0 };
}

fb_poll-Serves_example : Serves (fb_poll (λ inout. inout) 0x9000_1000 arrived arrived_world)
fb_poll-Serves_example =
    fb_poll-Serves (λ inout. inout) 0x9000_1000 arrived arrived_world refl refl refl refl refl refl
      refl (λ a. omega arith) (idle refl)

-- The transfer of the first 0x5000 bytes, in flight.
abbrev in_flight : World
in_flight =
    a_world (loading_fb 0x6000) (update (λ i. none) 1 (some ep1_out)) (data_request 0x5000) no_td

abbrev value_of : Result World → World
value_of (ok w) = w
value_of o = in_flight

Advances-ok : {fb : Fb} {n : ℕ} {o : Result World} → Advances fb n o → o ≡ ok (value_of o)
Advances-ok (more h c e1 e17 e) = refl
Advances-ok (finished r c e) = refl

abbrev first_outcome : Result World
first_outcome = usbd_req_complete (run_complete (λ inout. inout) 1) (arrive 0 in_flight) ep1_out

in_flight-IsChunk : IsChunk in_flight
in_flight-IsChunk = record { called = refl; start = refl; size = refl }

in_flight-IsLoading : IsLoading in_flight.ctx
in_flight-IsLoading = loading_fb-IsLoading 0x6000 (omega arith) (omega arith)

first_chunk : Completes (λ inout. inout) 0 in_flight 0x5000 (value_of first_outcome)
unfolding arrive
first_chunk =
    let chunk : IsChunk (arrive 0 in_flight) = record {
      called = refl;
      start = refl;
      size = refl;
    } in
    record {
      sts = 0;
      data_transfer = refl;
      no_error = refl;
      short = omega arith;
      came = refl;
      run = Advances-ok (
          usbd_req_complete-Advances (λ inout. inout) 0 (arrive 0 in_flight) in_flight-IsLoading
            chunk refl refl refl (omega arith));
    }

Downloads-Refines_example : Refines (loading 0x6000) (0x5000 ∷ []) (value_of first_outcome)
Downloads-Refines_example =
    Downloads-Refines (λ inout. inout) 0 in_flight (value_of first_outcome) (loading 0x6000)
      (0x5000 ∷ []) (shows_loading in_flight-IsLoading in_flight-IsChunk refl refl)
      (completion no_completion first_chunk)

reply_texts_example :
    (formatted (λ a. []) (λ a. 0) data_format (0x6000 ∷ []) ≡ some (data_text 0x6000))
    × (formatted (λ a. []) (λ a. 0) hex_format (0x9000_0000 ∷ []) ≡ some (hex_text 0x9000_0000))
    × (formatted (λ a. []) (λ a. 0) smccc_format (1 ∷ 2 ∷ 3 ∷ 4 ∷ [])
        ≡ some (smccc_text (1 ∷ 2 ∷ 3 ∷ 4 ∷ [])))
    × (formatted (λ a. []) (λ a. 0) loaded_format (0x8000_0000 ∷ 0x8000_5fff ∷ [])
        ≡ some (loaded_text (loading_fb 0x6000)))
reply_texts_example =
    reply_texts (λ a. []) (λ a. 0) 0x6000 0x9000_0000 1 2 3 4 (loading_fb 0x6000) (omega arith)
      (omega arith) (omega arith) (omega arith) (omega arith) (λ e. omega (arith, e))
      (λ e. omega (arith, e))

-- ===== src/Fb/Outcome.antt =====
-- Every command that the device receives is answered.
use shield_tv_loader.Base.{
  ℕ, ◌%◌, ◌^◌, ◌≡◌, refl, ap, ◌∙◌, inr, Bool, true, not, List, [], ◌∷◌, Option, none, some, ◌==◌,
  if◌then◌else◌, Result, ok, ◌>>=◌, drop, arith,
}
use shield_tv_loader.Text.{peek, advance}
use shield_tv_loader.Number.{simple_strtoull}
use shield_tv_loader.Lmb.{lmb_alloc_32bit}
use shield_tv_loader.Lmb.Ops.{lmb_free}
use shield_tv_loader.Usbd.{
  ReqId, ep1_out, ep1_in, Callback, reboot_complete, flash_complete, rx_cmd_complete,
  rx_data_complete, usbd_req_cancel, usbd_req_submit, holds_req,
}
use shield_tv_loader.Usbd.Slots.{
  submit-free, submitted, submitted-IsSubmitted, cancelled, uncancelled, cancelled-IsCancelled,
  cancel-run,
}
use shield_tv_loader.Fb.{
  World, set_ctx, fb_end_command, fb_end_command_with_custom_complete, fb_request_data, fb_rx_data,
}
use shield_tv_loader.Fb.Oem.{Answer, refused, reported, bad_command, first_of}
use shield_tv_loader.Fb.Service.{
  fb_oem_cmd_alloc, fb_oem_cmd_alloc32, fb_oem_cmd_free, read_args, smccc_with, fb_oem_cmd_smccc,
  fb_cmd_reboot, fb_oem_cmd_reboot, is_string, reboot_chain,
}
use shield_tv_loader.Fb.Command.{
  unknown_command, not_downloaded, fb_cmd_flash, start_download, fb_cmd_oem, oem_chain,
}
use shield_tv_loader.Fb.Answer.{
  IsListening, Replies, replies, Answers, refuses, custom_complete-Replies, info-Replies,
  reported-Answers, Answers-if, IsListening-same,
}
use shield_tv_loader.Fb.Reply.{
  IsMemory, bad-Answers, end-Answers, peek-Answers, poke-Answers, echo-Answers, alloc_ex-Answers,
}

free-Answers : (w : World) (cmd : List ℕ) → IsListening w → Answers (fb_oem_cmd_free w cmd)
unfolding fb_oem_cmd_free
free-Answers w cmd h =
    let (addr, cmd1) = simple_strtoull cmd 0 in
    let (size, cmd2) = simple_strtoull (advance cmd1) 0 in
    let (align, cmd3) = simple_strtoull (advance cmd2) 0 in
    let bad = refused w bad_command in
    let freed = set_ctx w (record w.ctx { lmb = (lmb_free w.ctx.lmb addr size align).1 }) in
    let done = reported (fb_end_command freed none) in
    Answers-if (not (peek cmd1 == b' ')) bad
      (if not (peek cmd2 == b' ') then bad else if not (peek cmd3 == 0) then bad else done)
      (bad-Answers w h)
      (Answers-if (not (peek cmd2 == b' ')) bad (if not (peek cmd3 == 0) then bad else done)
        (bad-Answers w h)
        (Answers-if (not (peek cmd3 == 0)) bad done (bad-Answers w h)
          (end-Answers freed h refl refl)))

pub reboot-Answers : (w : World) (type : ℕ) → IsListening w → Answers (fb_cmd_reboot w type)
unfolding fb_cmd_reboot
reboot-Answers w type h =
    let w1 = set_ctx w (record w.ctx { reboot_type = type }) in
    reported-Answers (
      custom_complete-Replies w1 none reboot_complete (IsListening-same w1 h refl refl)
        (omega arith))

-- The entries of a chain that are answered.
pub data Entries : List (Bool × Answer) → Type 0 where
  no_entry : Entries []
  an_entry :
      {t : Bool} {a : Answer} {chain : List (Bool × Answer)}
      → Answers a
      → Entries chain
      → Entries ((t, a) ∷ chain)

pub first_of-Answers :
    (chain : List (Bool × Answer)) (otherwise : Answer)
    → Entries chain
    → Answers otherwise
    → Answers (first_of chain otherwise)
unfolding first_of
first_of-Answers [] otherwise no_entry h = h
first_of-Answers ((t, a) ∷ chain) otherwise (an_entry ha hs) h =
    Answers-if t a (first_of chain otherwise) ha (first_of-Answers chain otherwise hs h)

reboot_chain-Entries :
    (w : World) (cmd : List ℕ) (end : ℕ) → IsListening w → Entries (reboot_chain w cmd end)
unfolding reboot_chain
reboot_chain-Entries w cmd end h = an_entry (reboot-Answers w _ h) (
    an_entry (reboot-Answers w _ h) (
      an_entry (reboot-Answers w _ h)
        (an_entry (reboot-Answers w _ h) (an_entry (bad-Answers w h) no_entry))))

oem_reboot-Answers : (w : World) (cmd : List ℕ) → IsListening w → Answers (fb_oem_cmd_reboot w cmd)
unfolding fb_oem_cmd_reboot
oem_reboot-Answers w cmd h =
    let (s, cmd1) = simple_strtoull cmd 0 in
    first_of-Answers (reboot_chain w cmd (peek cmd1)) (fb_cmd_reboot w (s % 2 ^ 32))
      (reboot_chain-Entries w cmd (peek cmd1) h) (reboot-Answers w _ h)

pub flash-Answers : (w : World) (cmd : List ℕ) → IsListening w → Answers (fb_cmd_flash w cmd)
unfolding fb_cmd_flash
flash-Answers w cmd h =
    let done = reported (fb_end_command_with_custom_complete w none flash_complete) in
    let missing = refused w not_downloaded in
    Answers-if (not (is_string (b'r' ∷ b'u' ∷ b'n' ∷ []) cmd)) (refused w bad_command)
      (if w.ctx.last_loaded == 0 then missing else done) (bad-Answers w h)
      (Answers-if (w.ctx.last_loaded == 0) missing done (refuses h (omega arith))
        (reported-Answers (custom_complete-Replies w none flash_complete h (omega arith))))

-- The command that is taken back for a download is the one that fb_rx_cmd has just submitted.
pub record IsArmed (w : World) : Type 0 where
  pub listening : IsListening w
  pub command : (w.request ep1_out).complete ≡ some rx_cmd_complete

-- A submission to the host, then one from it.
both-Replies :
    (w v : World) (next : World → World)
    → w.usbd_reqs 1 ≡ none
    → w.usbd_reqs 17 ≡ none
    → v.usbd_reqs ≡ w.usbd_reqs
    → ((u : World) → (next u).usbd_reqs ≡ u.usbd_reqs)
    → ((u : World) → ((next u).request ep1_out).complete ≡ some rx_data_complete)
    → Replies (usbd_req_submit v ep1_in >>= λ u. usbd_req_submit (next u) ep1_out)
both-Replies w v next e1 e17 e same for_data =
    let s = (submitted-IsSubmitted v ep1_in).slots in
    let n = next (submitted v ep1_in) in
    let ns = same (submitted v ep1_in) in
    let t = (submitted-IsSubmitted n ep1_out).slots in
    let free17 : v.usbd_reqs 17 ≡ none = rw (e, e17) refl in
    let free1 : n.usbd_reqs 1 ≡ none = rw (ns, s, e) e1 in
    let first = submit-free v ep1_in free17 in
    let second = submit-free n ep1_out free1 in
    let asked =
      ap (λ f. (f ep1_out).complete) (submitted-IsSubmitted n ep1_out).request
      ∙ for_data (submitted v ep1_in) in
    rw first (
      rw second
        (replies (record { listens = rw t refl; asked = inr asked; reply = rw (t, ns, s) refl })))

-- The transfers of a download, from a world in which no other is under way.
transfers-Replies :
    (w : World)
    → w.usbd_reqs 1 ≡ none
    → w.usbd_reqs 17 ≡ none
    → Replies (fb_request_data w >>= fb_rx_data)
unfolding fb_request_data fb_rx_data
transfers-Replies w e1 e17 = both-Replies w _ _ e1 e17 refl (λ u. refl) (λ u. refl)

module _ (smc_call : List ℕ → List ℕ) (run : Callback → ReqId → World → Result World)
    (gives_up : (w : World)
      → (w.request ep1_out).error ≡ true
      → (w.request ep1_out).cancel ≡ true
      → run rx_cmd_complete ep1_out w ≡ ok w) where
  smccc-Answers :
      (w : World) (cmd : List ℕ) → IsListening w → Answers (fb_oem_cmd_smccc smc_call w cmd)
  unfolding fb_oem_cmd_smccc
  smccc-Answers w cmd h = with_args (read_args 8 cmd)
    where
      with_args : (o : Option (List ℕ)) → Answers (smccc_with smc_call w o)
      with_args none = bad-Answers w h
      with_args (some inout) = reported-Answers (info-Replies w _ h)

  oem_chain-Entries :
      (w : World) (cmd : List ℕ)
      → IsListening w
      → IsMemory w
      → Entries (oem_chain smc_call run w cmd)
  unfolding oem_chain fb_oem_cmd_alloc fb_oem_cmd_alloc32
  oem_chain-Entries w cmd h m = an_entry (peek-Answers w (drop 5 cmd) h m) (
      an_entry (poke-Answers w (drop 5 cmd) h) (
        an_entry (echo-Answers w (drop 5 cmd) h) (
          an_entry (alloc_ex-Answers w (drop 6 cmd) 0 h) (
            an_entry (alloc_ex-Answers w (drop 8 cmd) lmb_alloc_32bit h) (
              an_entry (free-Answers w (drop 5 cmd) h) (
                an_entry (smccc-Answers w (drop 6 cmd) h)
                  (an_entry (oem_reboot-Answers w (drop 7 cmd) h) no_entry)))))))

  pub oem-Answers :
      (w : World) (cmd : List ℕ)
      → IsListening w
      → IsMemory w
      → Answers (fb_cmd_oem smc_call run w cmd)
  unfolding fb_cmd_oem
  oem-Answers w cmd h m =
      first_of-Answers (oem_chain smc_call run w cmd) (refused w unknown_command)
        (oem_chain-Entries w cmd h m) (refuses h (omega arith))

  -- The command that fb_rx_cmd has submitted is taken back.
  withdraw :
      (w : World)
      → IsArmed w
      → usbd_req_cancel run w ep1_out ≡ ok (uncancelled (cancelled w ep1_out) ep1_out)
  withdraw w a =
      let held : holds_req (w.usbd_reqs 1) ep1_out ≡ true = rw a.listening.listens refl in
      let c = cancelled-IsCancelled w ep1_out in
      let q = c.request in
      cancel-run run w (cancelled w ep1_out) ep1_out rx_cmd_complete held (rw q a.command)
        (gives_up (cancelled w ep1_out) (rw q refl) (rw q refl))

  pub start_download-Answers : (w : World) → IsArmed w → Answers (start_download smc_call run w)
  unfolding start_download
  start_download-Answers w a =
      let s = (cancelled-IsCancelled w ep1_out).slots in
      let e = withdraw w a in
      rw e (
        reported-Answers (
          transfers-Replies (uncancelled (cancelled w ep1_out) ep1_out) (rw s refl)
            (rw s a.listening.free)))

-- ===== src/Fb/Before.antt =====
-- The start of fb_rx_cmd_complete: the next command is asked for, and the report before is given up.
use shield_tv_loader.Base.{
  ℕ, ◌≡◌, refl, ap, true, false, List, none, some, Result, ok, update, Bool-cases, inl, inr,
}
use shield_tv_loader.Usbd.{
  ReqId, ep1_out, ep1_in, Callback, end_command_complete, peek_exe, rx_cmd_complete,
  usbd_req_cancel, set_request, holds_req, UsbdReq,
}
use shield_tv_loader.Usbd.Slots.{
  submit-free, submitted, submitted-IsSubmitted, cancelled, uncancelled, cancelled-IsCancelled,
  cancel-run, cancel-silent, cancel-other,
}
use shield_tv_loader.Fb.{World, set_ctx, fb_end_command_complete, fb_rx_cmd}
use shield_tv_loader.Fb.Command.{end_previous}
use shield_tv_loader.Fb.Answer.{IsListening-same}
use shield_tv_loader.Fb.Outcome.{IsArmed}

pub IsArmed-same :
    {w : World} (v : World)
    → IsArmed w
    → v.usbd_reqs ≡ w.usbd_reqs
    → v.request ≡ w.request
    → IsArmed v
IsArmed-same v a e q = record {
  listening = IsListening-same v a.listening e (ap (λ f. (f ep1_out).complete) q);
  command = rw q a.command;
}

-- The report of the command before is over: none is in flight, or it is one that asks for nothing.
pub data IsOver (w : World) : Type 0 where
  idle : w.usbd_reqs 17 ≡ none → IsOver w
  unasked :
      w.ctx.in_command ≡ true
      → w.usbd_reqs 17 ≡ some ep1_in
      → (w.request ep1_in).complete ≡ none
      → IsOver w
  ending :
      w.ctx.in_command ≡ true
      → w.usbd_reqs 17 ≡ some ep1_in
      → (w.request ep1_in).complete ≡ some end_command_complete
      → IsOver w
  peeking :
      w.ctx.in_command ≡ true
      → w.usbd_reqs 17 ≡ some ep1_in
      → (w.request ep1_in).complete ≡ some peek_exe
      → IsOver w

-- The command before is given up.
pub data Clears (mem : ℕ → ℕ) : Result World → Type 0 where
  clears : {v : World} → IsArmed v → v.ctx.mem ≡ mem → Clears mem (ok v)

-- A report in flight, taken back.
taken_back :
    (w u : World)
    → w.usbd_reqs 1 ≡ some ep1_out
    → (w.request ep1_out).complete ≡ some rx_cmd_complete
    → u.usbd_reqs ≡ (cancelled w ep1_in).usbd_reqs
    → u.request ≡ (cancelled w ep1_in).request
    → IsArmed (uncancelled u ep1_in)
taken_back w u l c e q =
    let k = cancelled-IsCancelled w ep1_in in
    record {
      listening = record {
        listens = rw (e, k.slots) l;
        free = rw (e, k.slots) refl;
        command = rw (q, k.request) c;
      };
      command = rw (q, k.request) c;
    }

-- What is called for a transfer that is given up.
pub record GivesUp (run : Callback → ReqId → World → Result World) : Type 0 where
  pub command :
      (w : World)
      → (w.request ep1_out).error ≡ true
      → (w.request ep1_out).cancel ≡ true
      → run rx_cmd_complete ep1_out w ≡ ok w
  pub report_end : (w : World) → run end_command_complete ep1_in w ≡ ok (fb_end_command_complete w)
  pub report_peek : (w : World) → (w.request ep1_in).error ≡ true → run peek_exe ep1_in w ≡ ok w

-- The world after fb_rx_cmd.
pub rearmed : World → World
rearmed w =
    submitted
      (set_request w ep1_out (record (w.request ep1_out) {
        buffer = w.small_addr ep1_out;
        buffer_length = 64;
        complete = some rx_cmd_complete;
      }))
      ep1_out

pub rearmed_lem : (w : World) → w.usbd_reqs 1 ≡ none → fb_rx_cmd w ≡ ok (rearmed w)
unfolding fb_rx_cmd rearmed
rearmed_lem w e = submit-free _ ep1_out e

-- The request for a command.
abbrev pub listening_req : World → UsbdReq
listening_req w = record (w.request ep1_out) {
  buffer = w.small_addr ep1_out;
  buffer_length = 64;
  complete = some rx_cmd_complete;
}

pub record IsRearmed (w v : World) : Type 0 where
  pub slots : v.usbd_reqs ≡ update w.usbd_reqs 1 (some ep1_out)
  pub same_ctx : v.ctx ≡ w.ctx
  pub out_request : v.request ep1_out ≡ listening_req w
  pub in_request : v.request ep1_in ≡ w.request ep1_in

pub rearmed-IsRearmed : (w : World) → IsRearmed w (rearmed w)
unfolding rearmed
rearmed-IsRearmed w =
    let s = submitted-IsSubmitted (set_request w ep1_out (listening_req w)) ep1_out in
    record {
      slots = s.slots;
      same_ctx = s.same_ctx;
      out_request = ap (λ f. f ep1_out) s.request;
      in_request = ap (λ f. f ep1_in) s.request;
    }

pub rearmed-IsOver : (w : World) → IsOver w → IsOver (rearmed w)
rearmed-IsOver w over = kept over (rearmed-IsRearmed w)
  where
    kept : {v : World} → IsOver w → IsRearmed w v → IsOver v
    kept (idle e) s = idle (rw (s.slots) e)
    kept (unasked i b c) s = unasked (rw (s.same_ctx) i) (rw (s.slots) b) (rw (s.in_request) c)
    kept (ending i b c) s = ending (rw (s.same_ctx) i) (rw (s.slots) b) (rw (s.in_request) c)
    kept (peeking i b c) s = peeking (rw (s.same_ctx) i) (rw (s.slots) b) (rw (s.in_request) c)

module _ (smc_call : List ℕ → List ℕ) (run : Callback → ReqId → World → Result World)
    (gives_up : GivesUp run) where
  -- What was in flight is taken back, where its function leaves the transfers alone.
  over-Clears :
      (w u : World) (c : Callback)
      → w.usbd_reqs 1 ≡ some ep1_out
      → (w.request ep1_out).complete ≡ some rx_cmd_complete
      → w.usbd_reqs 17 ≡ some ep1_in
      → (w.request ep1_in).complete ≡ some c
      → run c ep1_in (cancelled w ep1_in) ≡ ok u
      → u.usbd_reqs ≡ (cancelled w ep1_in).usbd_reqs
      → u.request ≡ (cancelled w ep1_in).request
      → u.ctx.mem ≡ w.ctx.mem
      → Clears w.ctx.mem (usbd_req_cancel run w ep1_in)
  over-Clears w u c l lc b bc out e q m =
      let held : holds_req (w.usbd_reqs 17) ep1_in ≡ true = rw b refl in
      let k = cancelled-IsCancelled w ep1_in in
      let f = cancel-run run w u ep1_in c held (rw (k.request) bc) out in
      rw f (clears (taken_back w u l lc e q) m)

  pub end_previous-Clears :
      (w : World)
      → w.usbd_reqs 1 ≡ some ep1_out
      → (w.request ep1_out).complete ≡ some rx_cmd_complete
      → IsOver w
      → Clears w.ctx.mem (end_previous smc_call run w)
  unfolding end_previous
  end_previous-Clears w l lc (idle e) =
      let v = set_ctx w (record w.ctx { in_command = false }) in
      let held : holds_req (v.usbd_reqs 17) ep1_in ≡ false = rw e refl in
      let f = cancel-other run v ep1_in held in
      let armed : IsArmed w = record {
        listening = record { listens = l; command = lc; free = e };
        command = lc;
      } in
      elim (Bool-cases w.ctx.in_command) [
        | inl i ↦ rw (i, f) (clears (IsArmed-same v armed refl refl) refl)
        | inr i ↦ simp i (clears armed refl)
      ]
  end_previous-Clears w l lc (unasked i b bc) =
      let v = set_ctx w (record w.ctx { in_command = false }) in
      let held : holds_req (v.usbd_reqs 17) ep1_in ≡ true = rw b refl in
      let k = cancelled-IsCancelled v ep1_in in
      let f = cancel-silent run v ep1_in held (rw (k.request) bc) in
      rw (i, f)
        (clears (taken_back v (cancelled v ep1_in) l lc refl refl) (ap (λ fb. fb.mem) k.same_ctx))
  end_previous-Clears w l lc (ending i b bc) =
      let v = set_ctx w (record w.ctx { in_command = false }) in
      let k = cancelled-IsCancelled v ep1_in in
      let out = gives_up.report_end (cancelled v ep1_in) in
      rw i (
        over-Clears v (fb_end_command_complete (cancelled v ep1_in)) end_command_complete l lc b bc
          out refl refl (ap (λ fb. fb.mem) k.same_ctx))
  end_previous-Clears w l lc (peeking i b bc) =
      let v = set_ctx w (record w.ctx { in_command = false }) in
      let k = cancelled-IsCancelled v ep1_in in
      let out = gives_up.report_peek (cancelled v ep1_in) (rw (k.request) refl) in
      rw i (
        over-Clears v (cancelled v ep1_in) peek_exe l lc b bc out refl refl
          (ap (λ fb. fb.mem) k.same_ctx))

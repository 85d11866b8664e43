-- ===== src/Usbd/Slots.antt =====
-- What usbd_req_submit and usbd_req_cancel do to usbd_reqs.
use shield_tv_loader.Base.{
  ℕ, ◌≡◌, refl, ap, ◌∙◌, true, false, not, none, some, ltb, ◌==◌, if◌then◌else◌, Result, ok, bug,
  ◌>>=◌, update, bit_and, ◌/◌, ◌^◌,
}
use shield_tv_loader.Usbd.{
  ReqId, ep0_out, ep0_in, ep1_out, ep1_in, Callback, UsbdReq, UsbdTd, Usbd, update_req, slot_of,
  ep_of, set_request, set_slot, start_transfer, usbd_hw_ep_flush, usbd_ep_prime, usbd_td_init,
  usbd_req_submit, usbd_req_cancel, usbd_req_complete, sub32, call_complete, is_none, holds_req,
}

-- The length that is asked for, at most 0x5000.
abbrev pub clipped : ℕ → ℕ
clipped n = if ltb n 0x5000 then n else 0x5000

-- The bytes that the controller left over, in the status of a transfer.
abbrev pub residue : UsbdTd → ℕ
residue td = bit_and td.size_ioc_sts 0x7fff_0000 / 2 ^ 16

module _ {F : Type 0} where
  -- What usbd_req_submit makes of a world in which the request's slot is free.
  pub record IsSubmitted (w : Usbd F) (r : ReqId) (w1 : Usbd F) : Type 0 where
    pub slots : w1.usbd_reqs ≡ update w.usbd_reqs (slot_of r) (some r)
    pub same_ctx : w1.ctx ≡ w.ctx
    pub request :
        w1.request
        ≡ update_req w.request r
            (record (w.request r) { buffer_length = clipped (w.request r).buffer_length })
    pub td : w1.td r ≡ usbd_td_init (clipped (w.request r).buffer_length) (w.request r).buffer

  -- The world after a submission.
  pub submitted : Usbd F → ReqId → Usbd F
  unfolding start_transfer
  submitted w r =
      let q = record (w.request r) { buffer_length = clipped (w.request r).buffer_length } in
      set_slot (start_transfer (set_request w r q) r) (slot_of r) (some r)

  pub submit-free :
      (w : Usbd F) (r : ReqId)
      → w.usbd_reqs (slot_of r) ≡ none
      → usbd_req_submit w r ≡ ok (submitted w r)
  unfolding usbd_req_submit submitted
  submit-free w r e = rw e refl

  pub submit-busy :
      (w : Usbd F) (r s : ReqId) → w.usbd_reqs (slot_of r) ≡ some s → usbd_req_submit w r ≡ bug
  unfolding usbd_req_submit
  submit-busy w r s e = rw e refl

  pub submitted-IsSubmitted : (w : Usbd F) (r : ReqId) → IsSubmitted w r (submitted w r)
  unfolding submitted start_transfer usbd_hw_ep_flush usbd_ep_prime
  submitted-IsSubmitted w ep0_out = record {
    slots = refl;
    same_ctx = refl;
    request = refl;
    td = refl;
  }
  submitted-IsSubmitted w ep0_in = record {
    slots = refl;
    same_ctx = refl;
    request = refl;
    td = refl;
  }
  submitted-IsSubmitted w ep1_out = record {
    slots = refl;
    same_ctx = refl;
    request = refl;
    td = refl;
  }
  submitted-IsSubmitted w ep1_in = record {
    slots = refl;
    same_ctx = refl;
    request = refl;
    td = refl;
  }

  -- The world in which a request that is given up is completed.
  pub cancelled : Usbd F → ReqId → Usbd F
  unfolding usbd_hw_ep_flush
  cancelled w r =
      let w1 = set_slot (usbd_hw_ep_flush w (ep_of r).num (ep_of r).send) (slot_of r) none in
      set_request w1 r (record (w1.request r) { error = true; cancel = true })

  -- What usbd_req_cancel makes of a world before it calls `complete`.
  pub record IsCancelled (w : Usbd F) (r : ReqId) (w1 : Usbd F) : Type 0 where
    pub slots : w1.usbd_reqs ≡ update w.usbd_reqs (slot_of r) none
    pub same_ctx : w1.ctx ≡ w.ctx
    pub request :
        w1.request ≡ update_req w.request r (record (w.request r) { error = true; cancel = true })

  pub cancelled-IsCancelled : (w : Usbd F) (r : ReqId) → IsCancelled w r (cancelled w r)
  unfolding cancelled usbd_hw_ep_flush
  cancelled-IsCancelled w ep0_out = record { slots = refl; same_ctx = refl; request = refl }
  cancelled-IsCancelled w ep0_in = record { slots = refl; same_ctx = refl; request = refl }
  cancelled-IsCancelled w ep1_out = record { slots = refl; same_ctx = refl; request = refl }
  cancelled-IsCancelled w ep1_in = record { slots = refl; same_ctx = refl; request = refl }

  abbrev pub uncancelled : Usbd F → ReqId → Usbd F
  uncancelled w r = set_request w r (record (w.request r) { cancel = false })

  -- The request as its completion finds it.
  abbrev pub completed_req : Usbd F → ReqId → UsbdReq
  completed_req w r = record (w.request r) {
    io_done = sub32 (w.request r).buffer_length (residue (w.td r));
    error = not (bit_and (w.td r).size_ioc_sts 0x68 == 0);
  }

  set_request-complete :
      (w : Usbd F) (r : ReqId) (q : UsbdReq) → ((set_request w r q).request r).complete ≡ q.complete
  set_request-complete w ep0_out q = refl
  set_request-complete w ep0_in q = refl
  set_request-complete w ep1_out q = refl
  set_request-complete w ep1_in q = refl

  module _ (run : Callback → ReqId → Usbd F → Result (Usbd F)) where
    pub cancel-other :
        (w : Usbd F) (r : ReqId)
        → holds_req (w.usbd_reqs (slot_of r)) r ≡ false
        → usbd_req_cancel run w r ≡ ok w
    unfolding usbd_req_cancel
    cancel-other w r e = rw e refl

    pub cancel-flight :
        (w : Usbd F) (r : ReqId)
        → holds_req (w.usbd_reqs (slot_of r)) r ≡ true
        → usbd_req_cancel run w r
          ≡ (call_complete run (cancelled w r) r >>= λ w1. ok (uncancelled w1 r))
    unfolding usbd_req_cancel cancelled
    cancel-flight w r e = rw e refl

    call_complete-some :
        (w : Usbd F) (r : ReqId) (c : Callback)
        → (w.request r).complete ≡ some c
        → call_complete run w r ≡ run c r w
    unfolding call_complete
    call_complete-some w r c e = rw (e, call_complete) refl

    call_complete-none :
        (w : Usbd F) (r : ReqId) → (w.request r).complete ≡ none → call_complete run w r ≡ ok w
    unfolding call_complete
    call_complete-none w r e = rw (e, call_complete) refl

    -- A request that is in flight is given up: its function runs once, for a free slot.
    pub cancel-run :
        (w v : Usbd F) (r : ReqId) (c : Callback)
        → holds_req (w.usbd_reqs (slot_of r)) r ≡ true
        → ((cancelled w r).request r).complete ≡ some c
        → run c r (cancelled w r) ≡ ok v
        → usbd_req_cancel run w r ≡ ok (uncancelled v r)
    cancel-run w v r c e called out =
        let all : call_complete run (cancelled w r) r ≡ ok v =
          call_complete-some (cancelled w r) r c called ∙ out in
        cancel-flight w r e ∙ ap (λ m. m >>= λ w1. ok (uncancelled w1 r)) all

    -- A request in flight that nothing is to be called for.
    pub cancel-silent :
        (w : Usbd F) (r : ReqId)
        → holds_req (w.usbd_reqs (slot_of r)) r ≡ true
        → ((cancelled w r).request r).complete ≡ none
        → usbd_req_cancel run w r ≡ ok (uncancelled (cancelled w r) r)
    cancel-silent w r e called =
        let all : call_complete run (cancelled w r) r ≡ ok (cancelled w r) =
          call_complete-none (cancelled w r) r called in
        cancel-flight w r e ∙ ap (λ m. m >>= λ w1. ok (uncancelled w1 r)) all

    -- A completion runs the request's function, on what the controller left in the descriptor.
    pub complete-run :
        (w : Usbd F) (r : ReqId) (c : Callback)
        → (w.request r).complete ≡ some c
        → usbd_req_complete run w r ≡ run c r (set_request w r (completed_req w r))
    unfolding usbd_req_complete
    complete-run w r c e =
        let v = set_request w r (completed_req w r) in
        let called : (v.request r).complete ≡ some c =
          set_request-complete w r (completed_req w r) ∙ e in
        let go : is_none (w.request r).complete ≡ false = rw e refl in
        rw go (call_complete-some v r c called)

-- ===== src/Fb/Download.antt =====
-- The data of a download: fb_rx_data asks for it one transfer after the other, each of at most 0x5000
-- bytes, and fb_rx_data_complete counts what came.
use shield_tv_loader.Base.{
  ℕ, suc, ◌+◌, ◌-◌, ◌%◌, ◌^◌, ◌≤◌, ◌<◌, ◌≡◌, refl, ◌∙◌, ap, inl, Bool, true, false, not, List, none,
  some, ◌==◌, if◌then◌else◌, Result, ok, ◌>>=◌, update, arith, add64, sub64, add64-eq, sub64-eq,
  bit_and,
}
use shield_tv_loader.Usbd.{
  ep1_out, ep1_in, rx_cmd_complete, usbd_req_submit, rx_data_complete, usbd_req_complete,
  set_request, UsbdReq, sub32,
}
use shield_tv_loader.Usbd.Slots.{
  submit-free, submitted, submitted-IsSubmitted, clipped, residue, completed_req, complete-run,
}
use shield_tv_loader.Fb.{
  Fb, World, set_ctx, fb_rx_cmd, fb_rx_data, fb_rx_data_complete, fb_end_command_with_info,
  loaded_text,
}
use shield_tv_loader.Fb.Answer.{IsListening, IsReplying}
use shield_tv_loader.Fb.Before.{rearmed, rearmed_lem, rearmed-IsRearmed}
use shield_tv_loader.Fb.Dispatch.{run_complete}

clipped-le : (n : ℕ) → clipped n ≤ n
clipped-le n = ground arith

clipped-lt : (n : ℕ) → clipped n < 2 ^ 32
clipped-lt n = ground arith

sub32-eq : (a b : ℕ) → b ≤ a → a < 2 ^ 32 → sub32 a b ≡ a - b
sub32-eq a b h k = omega arith

-- What is left to load, in the buffer below 4 GiB.
pub record IsLoading (fb : Fb) : Type 0 where
  pub loaded : 0 < fb.last_loaded
  pub left : 0 < fb.load_rem
  pub part : fb.load_rem ≤ fb.load_size
  pub fits : fb.last_loaded + fb.load_size ≤ 2 ^ 32

-- The transfer of a download: it starts behind the bytes that came.
pub record IsChunk (w : World) : Type 0 where
  pub called : (w.request ep1_out).complete ≡ some rx_data_complete
  pub start : (w.request ep1_out).buffer ≡ w.ctx.last_loaded + (w.ctx.load_size - w.ctx.load_rem)
  pub size : (w.request ep1_out).buffer_length ≡ clipped w.ctx.load_rem

-- What a completion of `n` bytes comes to.
pub data Advances (fb : Fb) (n : ℕ) : Result World → Type 0 where
  more :
      {v : World}
      → IsLoading v.ctx
      → IsChunk v
      → v.usbd_reqs 1 ≡ some ep1_out
      → v.usbd_reqs 17 ≡ none
      → v.ctx ≡ record fb { load_rem = fb.load_rem - n }
      → Advances fb n (ok v)
  finished :
      {v : World}
      → IsReplying v
      → (v.request ep1_out).complete ≡ some rx_cmd_complete
      → n ≡ fb.load_rem
      → Advances fb n (ok v)

-- The request of the next transfer.
abbrev data_req : World → UsbdReq
data_req w =
    let fb = w.ctx in
    record (w.request ep1_out) {
      buffer = add64 fb.last_loaded (sub64 fb.load_size fb.load_rem);
      buffer_length = fb.load_rem % 2 ^ 32;
      complete = some rx_data_complete;
    }

abbrev fetched : World → World
fetched w = submitted (set_request w ep1_out (data_req w)) ep1_out

fb_rx_data_lem : (w : World) → w.usbd_reqs 1 ≡ none → fb_rx_data w ≡ ok (fetched w)
unfolding fb_rx_data
fb_rx_data_lem w e = submit-free _ ep1_out e

chunk_start :
    (fb : Fb)
    → IsLoading fb
    → add64 fb.last_loaded (sub64 fb.load_size fb.load_rem)
      ≡ fb.last_loaded + (fb.load_size - fb.load_rem)
chunk_start fb h =
    let e = sub64-eq fb.load_size fb.load_rem h.part (omega (arith, h.fits)) in
    rw e (add64-eq fb.last_loaded (fb.load_size - fb.load_rem) (omega (arith, h.fits)))

record IsFetched (w v : World) : Type 0 where
  slots : v.usbd_reqs ≡ update w.usbd_reqs 1 (some ep1_out)
  same_ctx : v.ctx ≡ w.ctx
  request :
      v.request ep1_out ≡ record (data_req w) { buffer_length = clipped (data_req w).buffer_length }

fetched-IsFetched : (w : World) → IsFetched w (fetched w)
fetched-IsFetched w =
    let s = submitted-IsSubmitted (set_request w ep1_out (data_req w)) ep1_out in
    record { slots = s.slots; same_ctx = s.same_ctx; request = ap (λ f. f ep1_out) s.request }

IsFetched-IsChunk : (w v : World) → IsLoading w.ctx → IsFetched w v → IsChunk v
IsFetched-IsChunk w v h s =
    let below : w.ctx.load_rem < 2 ^ 32 = omega (arith, h.fits, h.part, h.loaded) in
    let small : w.ctx.load_rem % 2 ^ 32 ≡ w.ctx.load_rem = omega (arith, below) in
    let size = ap (λ q. q.buffer_length) s.request ∙ ap clipped small in
    let start = ap (λ q. q.buffer) s.request ∙ chunk_start w.ctx h in
    record {
      called = ap (λ q. q.complete) s.request;
      start = rw (s.same_ctx) start;
      size = rw (s.same_ctx) size;
    }

-- The next transfer is asked for.
next-Advances :
    (fb : Fb) (n : ℕ) (w : World)
    → IsLoading w.ctx
    → w.usbd_reqs 1 ≡ none
    → w.usbd_reqs 17 ≡ none
    → w.ctx ≡ record fb { load_rem = fb.load_rem - n }
    → Advances fb n (fb_rx_data w)
next-Advances fb n w h e1 e17 e =
    let f = fb_rx_data_lem w e1 in
    let s = fetched-IsFetched w in
    rw f (
      more (rw (s.same_ctx) h) (IsFetched-IsChunk w (fetched w) h s) (rw (s.slots) refl)
        (rw (s.slots) e17) (s.same_ctx ∙ e))

-- A report that leaves the request for commands alone.
data Informs (w : World) : Result World → Type 0 where
  informs : {v : World} → IsReplying v → v.request ep1_out ≡ w.request ep1_out → Informs w (ok v)

info-Informs :
    (w : World) (text : List ℕ) → IsListening w → Informs w (fb_end_command_with_info w text)
unfolding fb_end_command_with_info
info-Informs w text h = sent _ h refl refl
  where
    sent :
        (v : World)
        → IsListening w
        → v.usbd_reqs ≡ w.usbd_reqs
        → v.request ep1_out ≡ w.request ep1_out
        → Informs w (usbd_req_submit v ep1_in)
    sent v h e q =
        let free : v.usbd_reqs 17 ≡ none = rw e h.free in
        let s = submitted-IsSubmitted v ep1_in in
        rw (submit-free v ep1_in free) (
          informs
            (record {
              listens = rw (s.slots, e) h.listens;
              asked =
                  inl
                    (ap (λ f. (f ep1_out).complete) s.request ∙ ap (λ r. r.complete) q ∙ h.command);
              reply = rw s.slots refl;
            })
            (ap (λ f. f ep1_out) s.request ∙ q))

-- The last bytes have come.
last-Advances :
    (fb : Fb) (n : ℕ) (w : World) (text : World → List ℕ)
    → w.usbd_reqs 1 ≡ none
    → w.usbd_reqs 17 ≡ none
    → n ≡ fb.load_rem
    → Advances fb n (fb_rx_cmd w >>= λ w1. fb_end_command_with_info w1 (text w1))
last-Advances fb n w text e1 e17 all =
    let f = rearmed_lem w e1 in
    let s = rearmed-IsRearmed w in
    let h : IsListening (rearmed w) = record {
      listens = rw (s.slots) refl;
      command = ap (λ q. q.complete) s.out_request;
      free = rw (s.slots) e17;
    } in
    rw f
      (ended (info-Informs (rearmed w) (text (rearmed w)) h) (ap (λ q. q.complete) s.out_request))
  where
    ended :
        {o : Result World}
        → Informs (rearmed w) o
        → ((rearmed w).request ep1_out).complete ≡ some rx_cmd_complete
        → Advances fb n o
    ended (informs r q) c = finished r (rw q c) all

Advances-if :
    {fb : Fb} {n : ℕ} (t : Bool) (m o : Result World)
    → (t ≡ true → Advances fb n m)
    → (t ≡ false → Advances fb n o)
    → Advances fb n (if t then m else o)
Advances-if true m o h k = h refl
Advances-if false m o h k = k refl

-- `n` bytes have come.
data_complete-Advances :
    (n : ℕ) (w : World)
    → IsLoading w.ctx
    → n ≤ w.ctx.load_rem
    → (w.request ep1_out).error ≡ false
    → (w.request ep1_out).io_done ≡ n
    → w.usbd_reqs 1 ≡ none
    → w.usbd_reqs 17 ≡ none
    → Advances w.ctx n (fb_rx_data_complete ep1_out w)
unfolding fb_rx_data_complete
data_complete-Advances n w h le error done e1 e17 =
    let below : sub64 w.ctx.load_rem n ≡ w.ctx.load_rem - n =
      sub64-eq w.ctx.load_rem n le (omega (arith, h.fits, h.part, h.loaded)) in
    let v = set_ctx w (record w.ctx { load_rem = w.ctx.load_rem - n }) in
    let loading : 0 < w.ctx.load_rem - n → IsLoading v.ctx =
      λ k. record { loaded = h.loaded; left = k; part = omega (arith, h.part); fits = h.fits } in
    rw (error, done, below)
      (Advances-if (w.ctx.load_rem - n == 0) _ _
        (λ e. last-Advances w.ctx n v (λ w1. loaded_text w1.ctx) e1 e17 (ground (arith, e, le)))
        (λ e. next-Advances w.ctx n v (loading (ground (arith, e))) e1 e17 refl))

-- A completion without error of a transfer of a download, from which the controller left no more bytes
-- over than were asked for, takes the bytes that came from load_rem; while some are left the next
-- transfer is in flight, behind the bytes that came, of at most 0x5000 bytes and of no more than are
-- left, and after the last ones the device listens for a command and a report is under way; if the
-- buffer lies below 4 GiB and no other transfer of endpoint 1 is in flight.
pub usbd_req_complete-Advances :
    (smc_call : List ℕ → List ℕ) (n : ℕ) (w : World)
    → IsLoading w.ctx
    → IsChunk w
    → w.usbd_reqs 1 ≡ none
    → w.usbd_reqs 17 ≡ none
    → bit_and (w.td ep1_out).size_ioc_sts 0x68 ≡ 0
    → residue (w.td ep1_out) ≤ clipped w.ctx.load_rem
    → Advances w.ctx
        (clipped w.ctx.load_rem - residue (w.td ep1_out))
        (usbd_req_complete (run_complete smc_call (suc n)) w ep1_out)
unfolding run_complete
usbd_req_complete-Advances smc_call n w h c e1 e17 good short =
    let came = clipped w.ctx.load_rem - residue (w.td ep1_out) in
    let done : sub32 (w.request ep1_out).buffer_length (residue (w.td ep1_out)) ≡ came =
      rw (c.size) (sub32-eq _ _ short (clipped-lt w.ctx.load_rem)) in
    let fine : not (bit_and (w.td ep1_out).size_ioc_sts 0x68 == 0) ≡ false = rw good refl in
    let few : came ≤ w.ctx.load_rem = omega (arith, clipped-le w.ctx.load_rem) in
    let e = complete-run (run_complete smc_call (suc n)) w ep1_out rx_data_complete c.called in
    rw e (
      data_complete-Advances came (set_request w ep1_out (completed_req w ep1_out)) h few fine done
        e1 e17)

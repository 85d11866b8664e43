-- ===== src/Fb/Answer.antt =====
-- The reports of fb.c: each command of Fb/Oem and Fb/Command that runs while the request to the host
-- is free ends with a report under way, or with a status that fits into one.
use shield_tv_loader.Base.{
  ℕ, ◌+◌, ◌<◌, ◌≡◌, refl, ap, ◌∙◌, ◌⊎◌, inl, Bool, true, false, List, none, some, ltb,
  if◌then◌else◌, Result, ok, length, arith, ltb-false,
}
use shield_tv_loader.Usbd.{
  ep1_out, ep1_in, Callback, usbd_req_submit, end_command_complete, rx_cmd_complete,
  rx_data_complete,
}
use shield_tv_loader.Usbd.Slots.{submit-free, submitted-IsSubmitted}
use shield_tv_loader.Fb.{
  World, FbStatus, fb_end_command, fb_end_command_with_info, fb_end_command_with_custom_complete,
  status_text,
}
use shield_tv_loader.Fb.Oem.{Answer, reported}

-- The device listens for a command, and may report.
pub record IsListening (w : World) : Type 0 where
  pub listens : w.usbd_reqs 1 ≡ some ep1_out
  pub command : (w.request ep1_out).complete ≡ some rx_cmd_complete
  pub free : w.usbd_reqs 17 ≡ none

-- The device listens for a command or for the data of a download, and a report is under way.
pub record IsReplying (w : World) : Type 0 where
  pub listens : w.usbd_reqs 1 ≡ some ep1_out
  pub asked :
      ((w.request ep1_out).complete ≡ some rx_cmd_complete)
      ⊎ ((w.request ep1_out).complete ≡ some rx_data_complete)
  pub reply : w.usbd_reqs 17 ≡ some ep1_in

-- The run comes to a world in which a report is under way.
pub data Replies : Result World → Type 0 where
  replies : {w : World} → IsReplying w → Replies (ok w)

-- The command reports, or leaves a status that fits into a report.
pub data Answers : Answer → Type 0 where
  answers : {w : World} → IsReplying w → Answers (ok (none, w))
  refuses :
      {text : List ℕ} {w : World} → IsListening w → length text < 64 → Answers (ok (some text, w))

-- A submission to the host from a world that differs from `w` in other things than usbd_reqs.
pub submit-Replies :
    (w v : World)
    → IsListening w
    → v.usbd_reqs ≡ w.usbd_reqs
    → v.request ep1_out ≡ w.request ep1_out
    → Replies (usbd_req_submit v ep1_in)
submit-Replies w v h e q =
    let free : v.usbd_reqs 17 ≡ none = rw e h.free in
    let s = submitted-IsSubmitted v ep1_in in
    rw (submit-free v ep1_in free) (
      replies (record {
        listens = rw (s.slots, e) h.listens;
        asked = inl (ap (λ f. (f ep1_out).complete) s.request ∙ ap (λ r. r.complete) q ∙ h.command);
        reply = rw s.slots refl;
      }))

pub custom_complete-Replies :
    (w : World) (status : FbStatus) (complete : Callback)
    → IsListening w
    → length (status_text status) < 64
    → Replies (fb_end_command_with_custom_complete w status complete)
unfolding fb_end_command_with_custom_complete
custom_complete-Replies w status complete h small =
    let fits : ltb 64 (length (status_text status) + 1) ≡ false =
      ltb-false _ _ (omega (arith, small)) in
    rw fits (submit-Replies w _ h refl refl)

pub fb_end_command-Replies :
    (w : World) (status : FbStatus)
    → IsListening w
    → length (status_text status) < 64
    → Replies (fb_end_command w status)
unfolding fb_end_command
fb_end_command-Replies w status = custom_complete-Replies w status end_command_complete

pub info-Replies :
    (w : World) (text : List ℕ) → IsListening w → Replies (fb_end_command_with_info w text)
unfolding fb_end_command_with_info
info-Replies w text h = submit-Replies w _ h refl refl

pub reported-Answers : {m : Result World} → Replies m → Answers (reported m)
reported-Answers (replies h) = answers h

pub Answers-if : (t : Bool) (m n : Answer) → Answers m → Answers n → Answers (if t then m else n)
Answers-if true m n h k = h
Answers-if false m n h k = k

pub Replies-if :
    (t : Bool) (m n : Result World)
    → (t ≡ true → Replies m)
    → (t ≡ false → Replies n)
    → Replies (if t then m else n)
Replies-if true m n h k = h refl
Replies-if false m n h k = k refl

-- A world that differs in other things than usbd_reqs listens as well.
pub IsListening-same :
    {w : World} (v : World)
    → IsListening w
    → v.usbd_reqs ≡ w.usbd_reqs
    → (v.request ep1_out).complete ≡ (w.request ep1_out).complete
    → IsListening v
IsListening-same v h e q = record {
  listens = rw e h.listens;
  command = q ∙ h.command;
  free = rw e h.free;
}

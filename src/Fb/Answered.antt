-- ===== src/Fb/Answered.antt =====
-- fb_rx_cmd_complete answers every command: a report is under way when it comes back.
use shield_tv_loader.Base.{
  ℕ, suc, ◌<◌, ◌≡◌, refl, false, not, List, none, some, ◌==◌, Result, ◌>>=◌, drop, arith,
}
use shield_tv_loader.Text.{peek}
use shield_tv_loader.Number.{simple_strtoull}
use shield_tv_loader.Lmb.{Lmb, lmb_boot, lmb_alloc_32bit}
use shield_tv_loader.Lmb.Ops.Alloc.{lmb_alloc_base_total}
use shield_tv_loader.Usbd.{ReqId, ep1_out, Callback, rx_cmd_complete}
use shield_tv_loader.Fb.{World, set_ctx, fb_oem_cmd_peek_exe}
use shield_tv_loader.Fb.Oem.{Answer, refused, bad_command, out_of_memory}
use shield_tv_loader.Fb.Command.{
  unknown_command, download_alignment, dlod_tag, free_last, start_download, download_answer,
  fb_cmd_download, command_chain, run_command, report, fb_rx_cmd_complete, execute,
}
use shield_tv_loader.Fb.Answer.{
  Replies, replies, Answers, answers, refuses, fb_end_command-Replies, Answers-if, IsListening-same,
}
use shield_tv_loader.Fb.Reply.{IsMemory, bad-Answers}
use shield_tv_loader.Fb.Outcome.{
  IsArmed, Entries, no_entry, an_entry, first_of-Answers, reboot-Answers, flash-Answers,
  oem-Answers, start_download-Answers,
}
use shield_tv_loader.Fb.Before.{
  IsArmed-same, GivesUp, IsOver, rearmed, rearmed_lem, rearmed-IsRearmed, rearmed-IsOver, Clears,
  clears, end_previous-Clears,
}
use shield_tv_loader.Fb.Dispatch.{run_complete}

module _ (smc_call : List ℕ → List ℕ) (run : Callback → ReqId → World → Result World)
    (gives_up : GivesUp run) where
  download_answer-Answers :
      (w : World) (size addr : ℕ) (lmb : Lmb)
      → IsArmed w
      → Answers (download_answer smc_call run w size (some (addr, lmb)))
  unfolding download_answer
  download_answer-Answers w size addr lmb a =
      let fb = record w.ctx { lmb = lmb; last_loaded = addr } in
      let loaded = record fb {
        load_size = size;
        load_rem = size;
        load_align = download_alignment;
      } in
      let v = set_ctx w loaded in
      Answers-if (addr == 0) (refused (set_ctx w fb) out_of_memory) (start_download smc_call run v)
        (refuses (IsListening-same (set_ctx w fb) a.listening refl refl) (omega arith))
        (start_download-Answers smc_call run gives_up.command v (IsArmed-same v a refl refl))

  download-Answers :
      (w : World) (cmd : List ℕ) → IsArmed w → Answers (fb_cmd_download smc_call run w cmd)
  unfolding fb_cmd_download
  download-Answers w cmd a =
      let (size, cmd1) = simple_strtoull cmd 16 in
      let v = set_ctx w (free_last w.ctx) in
      let (addr, lmb, e) =
        lmb_alloc_base_total v.ctx.lmb size download_alignment lmb_alloc_32bit lmb_boot dlod_tag in
      let go = download_answer smc_call run v size (some (addr, lmb)) in
      rw e (
        Answers-if (not (peek cmd1 == 0)) (refused v bad_command) go
          (bad-Answers v (IsListening-same v a.listening refl refl))
          (download_answer-Answers v size addr lmb (IsArmed-same v a refl refl)))

  command_chain-Entries :
      (w : World) (cbuf : List ℕ)
      → IsArmed w
      → IsMemory w
      → Entries (command_chain smc_call run w cbuf)
  unfolding command_chain
  command_chain-Entries w cbuf a m =
      an_entry (oem-Answers smc_call run gives_up.command w (drop 4 cbuf) a.listening m) (
        an_entry (reboot-Answers w _ a.listening) (
          an_entry (reboot-Answers w _ a.listening) (
            an_entry (download-Answers w (drop 9 cbuf) a)
              (an_entry (flash-Answers w (drop 6 cbuf) a.listening) no_entry))))

  run_command-Answers :
      (w : World) (cbuf : List ℕ)
      → IsArmed w
      → IsMemory w
      → Answers (run_command smc_call run w cbuf)
  unfolding run_command
  run_command-Answers w cbuf a m =
      first_of-Answers (command_chain smc_call run w cbuf) (refused w unknown_command)
        (command_chain-Entries w cbuf a m) (refuses a.listening (omega arith))

  report-Replies : {a : Answer} → Answers a → Replies (a >>= report smc_call run)
  unfolding report
  report-Replies (answers h) = replies h
  report-Replies (refuses {text} {w} h small) = fb_end_command-Replies w (some text) h small

  execute-Replies : (w : World) → IsArmed w → IsMemory w → Replies (execute smc_call run ep1_out w)
  unfolding execute
  execute-Replies w a m = report-Replies (
      run_command-Answers _ _
        (record { listening = IsListening-same _ a.listening refl refl; command = a.command }) m)

  cleared-Replies :
      {mem : ℕ → ℕ} {o : Result World}
      → Clears mem o
      → ((a : ℕ) → mem a < 256)
      → Replies (o >>= execute smc_call run ep1_out)
  cleared-Replies (clears {v} a e) m = execute-Replies v a (rw e m)

  -- A command that was received.
  pub received-Replies :
      (w : World)
      → IsMemory w
      → (w.request ep1_out).error ≡ false
      → (w.request ep1_out).cancel ≡ false
      → w.usbd_reqs 1 ≡ none
      → IsOver w
      → Replies (fb_rx_cmd_complete smc_call run ep1_out w)
  unfolding fb_rx_cmd_complete
  received-Replies w m error cancel free over =
      let s = rearmed-IsRearmed w in
      let e = rearmed_lem w free in
      let fine : ((rearmed w).request ep1_out).error ≡ false = rw (s.out_request) error in
      let slot : (rearmed w).usbd_reqs 1 ≡ some ep1_out = rw (s.slots) refl in
      let called : ((rearmed w).request ep1_out).complete ≡ some rx_cmd_complete =
        rw (s.out_request) refl in
      let bytes : IsMemory (rearmed w) = rw (s.same_ctx) m in
      rw (cancel, e, fine)
        (cleared-Replies
          (end_previous-Clears smc_call run gives_up (rearmed w) slot called
            (rearmed-IsOver w over))
          bytes)

run_complete-GivesUp :
    (smc_call : List ℕ → List ℕ) (n : ℕ) → GivesUp (run_complete smc_call (suc n))
unfolding run_complete fb_rx_cmd_complete fb_oem_cmd_peek_exe
run_complete-GivesUp smc_call n = record {
  command = λ w error cancel. rw (cancel, error) refl;
  report_end = λ w. refl;
  report_peek = λ w error. rw error refl;
}

-- The completion of a command that was received without error comes back with a transfer of
-- endpoint 1 out, for the next command or for the data of a download, and a report to the host both
-- under way, whatever the bytes of the command, if no transfer of endpoint 1 out is in flight,
-- memory holds bytes, and the report before is over, ends its command, has no function, or goes on
-- with a peek; with two or more levels of fuel, no BUG_ON, null pointer or end of the fuel is met.
pub fb_rx_cmd_complete-Replies :
    (smc_call : List ℕ → List ℕ) (n : ℕ) (w : World)
    → IsMemory w
    → (w.request ep1_out).error ≡ false
    → (w.request ep1_out).cancel ≡ false
    → w.usbd_reqs 1 ≡ none
    → IsOver w
    → Replies (run_complete smc_call (suc (suc n)) rx_cmd_complete ep1_out w)
unfolding run_complete
fb_rx_cmd_complete-Replies smc_call n =
    received-Replies smc_call (run_complete smc_call (suc n)) (run_complete-GivesUp smc_call n)

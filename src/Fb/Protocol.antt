-- ===== src/Fb/Protocol.antt =====
-- What a download promises, whatever the sizes of the transfers: a counter of the bytes that are left.
use shield_tv_loader.Base.{
  ℕ, suc, ◌-◌, ◌≤◌, ◌<◌, ◌≡◌, refl, sym, ap, subst, List, [], ◌∷◌, none, some, ok, arith, bit_and,
}
use shield_tv_loader.Usbd.{
  ep1_out, rx_cmd_complete, rx_data_complete, update_req, set_slot, usbd_req_complete,
}
use shield_tv_loader.Usbd.Slots.{clipped, residue}
use shield_tv_loader.Fb.{Fb, World}
use shield_tv_loader.Fb.Dispatch.{run_complete}
use shield_tv_loader.Fb.Answer.{IsReplying}
use shield_tv_loader.Fb.Download.{
  IsLoading, IsChunk, Advances, more, finished, usbd_req_complete-Advances,
}

-- The states of a download.
pub data Phase : Type 0 where
  loading : ℕ → Phase
  loaded : Phase

-- `n` bytes come.
pub data Takes : Phase → ℕ → Phase → Type 0 where
  takes_some : {left n : ℕ} → n ≤ 0x5000 → n < left → Takes (loading left) n (loading (left - n))
  takes_all : {left : ℕ} → left ≤ 0x5000 → Takes (loading left) left loaded

-- A sequence of such steps, the last one first.
pub data TakesAll (p : Phase) : List ℕ → Phase → Type 0 where
  no_steps : TakesAll p [] p
  one_more :
      {ns : List ℕ} {n : ℕ} {q r : Phase} → TakesAll p ns q → Takes q n r → TakesAll p (n ∷ ns) r

-- The world is in the state of the download.
pub data Shows : World → Phase → Type 0 where
  shows_loading :
      {w : World}
      → IsLoading w.ctx
      → IsChunk w
      → w.usbd_reqs 1 ≡ some ep1_out
      → w.usbd_reqs 17 ≡ none
      → Shows w (loading w.ctx.load_rem)
  shows_loaded :
      {w : World}
      → IsReplying w
      → (w.request ep1_out).complete ≡ some rx_cmd_complete
      → Shows w loaded

-- The controller has completed the transfer with a status, and usbd_completions has cleared its slot.
unfoldable pub arrive : ℕ → World → World
arrive sts w = record (set_slot w 1 none) {
  td = update_req w.td ep1_out (record (w.td ep1_out) { size_ioc_sts = sts });
}

clipped-le_max : (n : ℕ) → clipped n ≤ 0x5000
clipped-le_max n = ground arith

-- A state that the download is in after a step.
data Simulates (p : Phase) (n : ℕ) (v : World) : Type 0 where
  simulates : {q : Phase} → Takes p n q → Shows v q → Simulates p n v

advances-Simulates :
    {fb : Fb} {n : ℕ} {v : World}
    → n ≤ 0x5000
    → Advances fb n (ok v)
    → Simulates (loading fb.load_rem) n v
advances-Simulates {fb} {n} {v} small (more h c e1 e17 e) =
    let left = ap (λ f. f.load_rem) e in
    simulates (takes_some small (omega (arith, h.left, left)))
      (subst (λ m. Shows v (loading m)) left (shows_loading h c e1 e17))
advances-Simulates {fb} {n} small (finished r c e) =
    simulates (subst (λ m. Takes (loading m) n loaded) e (takes_all small)) (shows_loaded r c)

-- The state that a download has come to.
pub data Refines (p : Phase) (ns : List ℕ) (v : World) : Type 0 where
  refines : {q : Phase} → TakesAll p ns q → Shows v q → Refines p ns v

module _ (smc_call : List ℕ → List ℕ) (depth : ℕ) where
  -- The completion, without an error, of a transfer of the data of a download.
  pub record Completes (w : World) (n : ℕ) (v : World) : Type 0 where
    pub sts : ℕ
    pub data_transfer : (w.request ep1_out).complete ≡ some rx_data_complete
    pub no_error : bit_and sts 0x68 ≡ 0
    pub short : residue ((arrive sts w).td ep1_out) ≤ clipped w.ctx.load_rem
    pub came : n ≡ clipped w.ctx.load_rem - residue ((arrive sts w).td ep1_out)
    pub run : usbd_req_complete (run_complete smc_call (suc depth)) (arrive sts w) ep1_out ≡ ok v

  -- A sequence of completions, the last one first.
  pub data Downloads (w : World) : List ℕ → World → Type 0 where
    no_completion : Downloads w [] w
    completion :
        {ns : List ℕ} {n : ℕ} {u v : World}
        → Downloads w ns u
        → Completes u n v
        → Downloads w (n ∷ ns) v

  step-Simulates : {w v : World} {n : ℕ} {p : Phase} → Shows w p → Completes w n v → Simulates p n v
  unfolding arrive
  step-Simulates {w} {v} {n} (shows_loading h c e1 e17) d =
      let chunk : IsChunk (arrive d.sts w) = record {
        called = c.called;
        start = c.start;
        size = c.size;
      } in
      let adv =
        usbd_req_complete-Advances smc_call depth (arrive d.sts w) h chunk refl e17 d.no_error
          d.short in
      let small : n ≤ 0x5000 = omega (arith, d.came, clipped-le_max w.ctx.load_rem) in
      let outcome =
        usbd_req_complete (run_complete smc_call (suc depth)) (arrive d.sts w) ep1_out in
      let counted = subst (λ m. Advances w.ctx m outcome) (sym d.came) adv in
      advances-Simulates small (subst (Advances w.ctx n) d.run counted)
  step-Simulates (shows_loaded r c) d = absurd (cc (c, d.data_transfer))

  -- A download that is in a state of the counter refines it: after any sequence of completions without
  -- error of its data transfers, each of some number of bytes, it is in a state that the counter
  -- reaches by taking the same numbers of bytes in turn, each of them at most 0x5000; while bytes are
  -- left the transfer in flight asks for bytes behind those that came, and once none is left a report
  -- is under way and the device listens for a command.
  pub Downloads-Refines :
      (w v : World) (p : Phase) (ns : List ℕ) → Shows w p → Downloads w ns v → Refines p ns v
  Downloads-Refines w v p [] h no_completion = refines no_steps h
  Downloads-Refines w v p (n ∷ ns) h (completion {u = u} before last) =
      then_last (Downloads-Refines w u p ns h before) last
    where
      then_last : {u : World} → Refines p ns u → Completes u n v → Refines p (n ∷ ns) v
      then_last (refines steps k) last = with_step steps (step-Simulates k last)
        where
          with_step : {q : Phase} → TakesAll p ns q → Simulates q n v → Refines p (n ∷ ns) v
          with_step steps (simulates step k) = refines (one_more steps step) k

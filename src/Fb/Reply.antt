-- ===== src/Fb/Reply.antt =====
-- Each command behind "oem " reports, or refuses with a status that fits into a report.
use shield_tv_loader.Base.{
  ℕ, ◌+◌, ◌-◌, ◌*◌, ◌/◌, ◌≤◌, ◌<◌, ◌≡◌, refl, sym, Bool, true, false, not, List, [], ◌∷◌, ◌++◌,
  Option, none, some, ltb, ◌==◌, if◌then◌else◌, Result, bug, ◌>>=◌, length, arith, Bool-cases, inl,
  inr, subst, ==→eq, add64,
}
use shield_tv_loader.Text.{peek, advance}
use shield_tv_loader.Number.{simple_strtoull}
use shield_tv_loader.Lmb.{Lmb}
use shield_tv_loader.Lmb.Ops.Alloc.{lmb_alloc_base_total}
use shield_tv_loader.Usbd.{ep1_out, ep1_in, peek_exe, usbd_req_submit}
use shield_tv_loader.Fb.{
  World, set_ctx, fb_end_command, fb_oem_cmd_peek_exe, fb_end_command_with_info, peek_text, min_of,
  filled, info,
}
use shield_tv_loader.Fb.Oem.{
  refused, reported, bad_command, out_of_memory, read_access, read_items, fb_oem_cmd_peek,
  poke_items, fb_oem_cmd_poke, fb_oem_cmd_echo, is_access, after_poke, set_peek, set_mem, peek_with,
  poke_with,
}
use shield_tv_loader.Fb.Service.{
  alloc_type, alloc_answer, fb_oem_cmd_alloc_ex, alloc_with, hex_text, fbrq_tag,
}
use shield_tv_loader.Fb.Answer.{
  IsListening, Replies, Answers, refuses, submit-Replies, fb_end_command-Replies, info-Replies,
  reported-Answers, Answers-if, Replies-if, IsListening-same,
}
use shield_tv_loader.Fb.Peek.{IsAccess, access_1, access_2, access_4, access_8, peek_text-length}
use shield_tv_loader.Fb.Parsing.{Ends, ends, poke_items-Ends}
use native.Mathlib.Nat.{div-mul-le_self, mul-le-mul_right}

is_access-IsAccess : (a : ℕ) → is_access a ≡ true → IsAccess a
is_access-IsAccess a e = elim (Bool-cases (a == 1)) [
  | inl f ↦ subst IsAccess (sym (==→eq a 1 f)) access_1
  | inr f1 ↦ elim (Bool-cases (a == 2)) [
    | inl f ↦ subst IsAccess (sym (==→eq a 2 f)) access_2
    | inr f2 ↦ elim (Bool-cases (a == 4)) [
      | inl f ↦ subst IsAccess (sym (==→eq a 4 f)) access_4
      | inr f4 ↦
          let f : (a == 8) ≡ true = ground (arith, f1, f2, f4, e) in
          subst IsAccess (sym (==→eq a 8 f)) access_8
    ]
  ]
]

-- What read_access accepts.
data Reads : Option (ℕ × Bool × List ℕ) → Type 0 where
  no_access : Reads none
  an_access : {a : ℕ} → IsAccess a → (t : Bool) (s : List ℕ) → Reads (some (a, t, s))

Reads-if :
    (t : Bool) (m n : Option (ℕ × Bool × List ℕ))
    → (t ≡ true → Reads m)
    → (t ≡ false → Reads n)
    → Reads (if t then m else n)
Reads-if true m n h k = h refl
Reads-if false m n h k = k refl

read_access-Reads : (cmd : List ℕ) → Reads (read_access cmd)
unfolding read_access
read_access-Reads cmd =
    let (access, rest) = simple_strtoull cmd 0 in
    let sized = if is_access access then some (access, false, rest) else none in
    Reads-if (peek cmd == b'c') (some (1, true, advance cmd)) sized
      (λ e. an_access access_1 true (advance cmd))
      (λ e.
        Reads-if (is_access access) (some (access, false, rest)) none
          (λ f. an_access (is_access-IsAccess access f) false rest) (λ f. no_access))

-- Bytes of memory.
abbrev pub IsMemory : World → Type 0
IsMemory w = (a : ℕ) → w.ctx.mem a < 256

peek_exe-Replies :
    (w : World)
    → IsListening w
    → IsMemory w
    → IsAccess w.ctx.peek.access
    → Replies (fb_oem_cmd_peek_exe false w)
unfolding fb_oem_cmd_peek_exe
peek_exe-Replies w h m a =
    let peek = w.ctx.peek in
    let size = peek.access * 2 + 1 in
    let items = min_of (59 / size) peek.items in
    let text = peek_text items peek w.ctx.mem peek.addr 59 in
    let length1 = length text + 5 in
    let few : items ≤ 59 / size = ground arith in
    let fits : length text ≤ 59 = omega (
      arith,
      peek_text-length items peek w.ctx.mem peek.addr 59 m a,
      mul-le-mul_right size few,
      div-mul-le_self 59 size,
    ) in
    let rest = record peek {
      items = peek.items - items;
      addr = add64 peek.addr (peek.access * items);
    } in
    let next =
      filled (set_ctx w (record w.ctx { peek = rest })) (info ++ text ++ 0 ∷ []) length1
        (some peek_exe) in
    Replies-if (items == 0) (fb_end_command w none)
      (if ltb 64 length1 then bug else usbd_req_submit next ep1_in)
      (λ e. fb_end_command-Replies w none h (omega arith))
      (λ e.
        Replies-if (ltb 64 length1) bug (usbd_req_submit next ep1_in)
          (λ f. absurd (ground (arith, f, fits))) (λ f. submit-Replies w next h refl refl))

pub bad-Answers : (w : World) → IsListening w → Answers (refused w bad_command)
bad-Answers w h = refuses h (omega arith)

pub end-Answers :
    {w : World} (v : World)
    → IsListening w
    → v.usbd_reqs ≡ w.usbd_reqs
    → (v.request ep1_out).complete ≡ (w.request ep1_out).complete
    → Answers (reported (fb_end_command v none))
end-Answers v h e q =
    reported-Answers (fb_end_command-Replies v none (IsListening-same v h e q) (omega arith))

peek_with-Answers :
    (w : World) (addr : ℕ) {o : Option (ℕ × Bool × List ℕ)}
    → IsListening w
    → IsMemory w
    → Reads o
    → Answers (peek_with w addr o)
unfolding peek_with
peek_with-Answers w addr h m no_access = bad-Answers w h
peek_with-Answers w addr h m (an_access {a} size t s) =
    let set = set_peek w addr a (read_items s).0 t in
    Answers-if (not (peek (read_items s).1 == 0)) (refused w bad_command)
      (reported (fb_oem_cmd_peek_exe false set)) (bad-Answers w h)
      (reported-Answers (peek_exe-Replies set (IsListening-same set h refl refl) m size))

pub peek-Answers :
    (w : World) (cmd : List ℕ) → IsListening w → IsMemory w → Answers (fb_oem_cmd_peek w cmd)
unfolding fb_oem_cmd_peek
peek-Answers w cmd h m =
    let (addr, cmd1) = simple_strtoull cmd 0 in
    Answers-if (not (peek cmd1 == b' ')) (refused w bad_command)
      (peek_with w addr (read_access (advance cmd1))) (bad-Answers w h)
      (peek_with-Answers w addr h m (read_access-Reads (advance cmd1)))

after_poke-Answers :
    (w : World) {m : Result (Bool × (ℕ → ℕ))}
    → IsListening w
    → Ends m
    → Answers (m >>= after_poke w)
after_poke-Answers w h (ends (true, mem)) = end-Answers (set_mem w mem) h refl refl
after_poke-Answers w h (ends (false, mem)) =
    bad-Answers (set_mem w mem) (IsListening-same (set_mem w mem) h refl refl)

poke_with-Answers :
    (w : World) (addr : ℕ) (o : Option (ℕ × Bool × List ℕ))
    → IsListening w
    → Answers (poke_with w addr o)
unfolding poke_with
poke_with-Answers w addr none h = bad-Answers w h
poke_with-Answers w addr (some (access, ascii, cmd)) h =
    let loop = poke_items (length (advance cmd)) ascii access addr (advance cmd) w.ctx.mem in
    Answers-if (not (peek cmd == b' ')) (refused w bad_command) (loop >>= after_poke w)
      (bad-Answers w h)
      (after_poke-Answers w h (
        poke_items-Ends (length (advance cmd)) ascii access addr (advance cmd) w.ctx.mem
          (omega arith)))

pub poke-Answers : (w : World) (cmd : List ℕ) → IsListening w → Answers (fb_oem_cmd_poke w cmd)
unfolding fb_oem_cmd_poke
poke-Answers w cmd h =
    let (addr, cmd1) = simple_strtoull cmd 0 in
    Answers-if (not (peek cmd1 == b' ')) (refused w bad_command)
      (poke_with w addr (read_access (advance cmd1))) (bad-Answers w h)
      (poke_with-Answers w addr (read_access (advance cmd1)) h)

pub echo-Answers : (w : World) (cmd : List ℕ) → IsListening w → Answers (fb_oem_cmd_echo w cmd)
unfolding fb_oem_cmd_echo
echo-Answers w cmd h = end-Answers _ h refl refl

alloc_answer-Answers :
    (w : World) (addr : ℕ) (lmb : Lmb) → IsListening w → Answers (alloc_answer w (some (addr, lmb)))
unfolding alloc_answer
alloc_answer-Answers w addr lmb h =
    let w1 = set_ctx w (record w.ctx { lmb = lmb }) in
    let same = IsListening-same w1 h refl refl in
    Answers-if (addr == 0) (refused w1 out_of_memory)
      (reported (fb_end_command_with_info w1 (hex_text addr))) (refuses same (omega arith))
      (reported-Answers (info-Replies w1 (hex_text addr) same))

alloc_with-Answers :
    (w : World) (size align max_addr : ℕ) (o : Option ℕ)
    → IsListening w
    → Answers (alloc_with w size align max_addr o)
unfolding alloc_with
alloc_with-Answers w size align max_addr none h = bad-Answers w h
alloc_with-Answers w size align max_addr (some type) h =
    let (addr, lmb, e) = lmb_alloc_base_total w.ctx.lmb size align max_addr type fbrq_tag in
    rw e (alloc_answer-Answers w addr lmb h)

pub alloc_ex-Answers :
    (w : World) (cmd : List ℕ) (max_addr : ℕ)
    → IsListening w
    → Answers (fb_oem_cmd_alloc_ex w cmd max_addr)
unfolding fb_oem_cmd_alloc_ex
alloc_ex-Answers w cmd max_addr h =
    let (size, cmd1) = simple_strtoull cmd 0 in
    let (align, cmd2) = simple_strtoull (advance cmd1) 0 in
    Answers-if (not (peek cmd1 == b' ')) (refused w bad_command)
      (alloc_with w size align max_addr (alloc_type cmd2)) (bad-Answers w h)
      (alloc_with-Answers w size align max_addr (alloc_type cmd2) h)

-- ===== src/Video/Scroll.antt =====
-- console_scrollup moves the rows up by one and clears the last.
use shield_tv_loader.Base.{
  ℕ, zero, suc, ◌+◌, ◌-◌, ◌*◌, ◌/◌, ◌≤◌, ◌<◌, ◌≡◌, refl, ◌∙◌, inl, arith, dec_lt,
}
use shield_tv_loader.Memory.{memcpy}
use shield_tv_loader.Memory.Copy.{moved_inside, moved_outside, memcpy-moved}
use shield_tv_loader.Video.{
  Console, store32, memsetl, console_scrollup, console_size, console_row_size, console_scroll_size,
}
use shield_tv_loader.Video.Draw.{Outside, store32-Outside}

pub memsetl-Outside : (c : ℕ) (m : ℕ → ℕ) (p v : ℕ) → Outside p (p + 4 * c) m (memsetl m p c v)
unfolding memsetl
memsetl-Outside zero m p v a h = refl
memsetl-Outside (suc c) m p v a h =
    memsetl-Outside c (store32 m p v) (p + 4) v a (ground (arith, h))
    ∙ store32-Outside m p v a (ground (arith, h))

store32-zero : (m : ℕ → ℕ) (p a : ℕ) → p ≤ a → a < p + 4 → store32 m p 0 a ≡ 0
store32-zero m p a h k = ground (arith, h, k)

pub memsetl-zero : (c : ℕ) (m : ℕ → ℕ) (p a : ℕ) → p ≤ a → a < p + 4 * c → memsetl m p c 0 a ≡ 0
unfolding memsetl
memsetl-zero zero m p a h k = absurd (omega (arith, h, k))
memsetl-zero (suc c) m p a h k = elim (dec_lt a (p + 4)) [
  | yes here ↦ memsetl-Outside c (store32 m p 0) (p + 4) 0 a (inl here) ∙ store32-zero m p a h here
  | no later ↦ memsetl-zero c (store32 m p 0) (p + 4) a (omega (arith, later)) (omega (arith, k))
]

-- What the frame buffer holds after the rows have moved up.
pub record IsScrolled (m : ℕ → ℕ) (first : ℕ) (m1 : ℕ → ℕ) : Type 0 where
  pub up : (i : ℕ) → i < console_scroll_size → m1 (first + i) ≡ m (first + console_row_size + i)
  pub cleared : (i : ℕ) → console_scroll_size ≤ i → i < console_size → m1 (first + i) ≡ 0
  pub outside : Outside first (first + console_size) m m1

-- console_scrollup moves each row of the console but the first up by one, clears the last and
-- leaves all other memory as it was.
pub console_scrollup-IsScrolled :
    (w : Console) → IsScrolled w.mem w.video_console_address (console_scrollup w).mem
unfolding console_scrollup
console_scrollup-IsScrolled w =
    let first = w.video_console_address in
    let copied = memcpy w.mem first (first + console_row_size) console_scroll_size in
    let last = first + console_size - console_row_size in
    let copy = λ (a : ℕ).
      memcpy-moved console_scroll_size w.mem first (first + console_row_size) a
        (inl (omega arith)) in
    let same = memsetl-Outside (console_row_size / 4) copied last 0 in
    record {
      up = λ i h.
          same (first + i) (inl (omega (arith, h)))
          ∙ copy (first + i)
          ∙ moved_inside w.mem first (first + console_row_size) console_scroll_size i h;
      cleared = λ i h k.
          memsetl-zero (console_row_size / 4) copied last (first + i) (omega (arith, h))
            (omega (arith, k));
      outside = λ a h.
          same a (ground (arith, h))
          ∙ copy a
          ∙ moved_outside w.mem first (first + console_row_size) console_scroll_size a
              (ground (arith, h));
    }

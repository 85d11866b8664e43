-- ===== src/Printf/Kept.antt =====
-- vscnprintf, and cut_text, which stands for it in the replies of Fb.
use shield_tv_loader.Base.{
  ℕ, zero, suc, ◌+◌, ◌-◌, ◌%◌, ◌^◌, ◌<◌, ◌≡◌, refl, sym, ap, ◌∙◌, Bool, true, false, not, List, [],
  ◌∷◌, some, ltb, ◌==◌, if◌then◌else◌, length, nth, take, arith, All,
}
use shield_tv_loader.Number.Format.{cut_text}
use shield_tv_loader.Printf.Buffer.{Printed, and_then, vscnprintf, kept_count, formatted}
use shield_tv_loader.Printf.Later.{IsSimple}
use shield_tv_loader.Printf.Rounds.{conversions, vsnprintf-IsPrinted_total}

pub nth-take : (n : ℕ) (s : List ℕ) (i : ℕ) → i < n → nth (take n s) i ≡ nth s i
nth-take zero s i h = absurd (omega (arith, h))
nth-take (suc n) [] i h = refl
nth-take (suc n) (c ∷ s) zero h = refl
nth-take (suc n) (c ∷ s) (suc i) h = nth-take n s i (omega (arith, h))

pub length-take_min :
    (n : ℕ) (s : List ℕ) → length (take n s) ≡ (if ltb n (length s) then n else length s)
length-take_min zero s = ground arith
length-take_min (suc n) [] = ground arith
length-take_min (suc n) (c ∷ s) = ground (arith, length-take_min n s)

-- What the branches of cut_text hold.
length-if :
    (t u : Bool) (x y z : List ℕ)
    → length (if t then x else if u then y else z)
      ≡ (if t then length x else if u then length y else length z)
length-if true u x y z = refl
length-if false true x y z = refl
length-if false false x y z = refl

nth-if :
    (t u : Bool) (x y z : List ℕ) (i : ℕ)
    → nth (if t then x else if u then y else z) i
      ≡ (if t then nth x i else if u then nth y i else nth z i)
nth-if true u x y z i = refl
nth-if false true x y z i = refl
nth-if false false x y z i = refl

length-cut_text :
    (size : ℕ) (text : List ℕ)
    → length text < 2 ^ 32
    → kept_count (length text % 2 ^ 32) size ≡ length (cut_text size text)
unfolding cut_text
length-cut_text size text h =
    let e : length text % 2 ^ 32 ≡ length text = omega (arith, h) in
    rw (e, length-if (ltb (length text) size) (not (size == 0)) text (take (size - 1) text) [])
      (ground (arith, length-take_min (size - 1) text))

cut_length :
    (size : ℕ) (text : List ℕ)
    → length (cut_text size text) ≡ (if ltb (length text) size then length text else size - 1)
unfolding cut_text
cut_length size text =
    length-if (ltb (length text) size) (not (size == 0)) text (take (size - 1) text) []
    ∙ ground (arith, length-take_min (size - 1) text)

cut_inside :
    (k len size i : ℕ)
    → k ≡ (if ltb len size then len else size - 1)
    → i < k
    → (i < len) × (i + 1 < size)
cut_inside k len size i e h = (ground (arith, e, h), ground (arith, e, h))

nth-cut_text :
    (size : ℕ) (text : List ℕ) (i : ℕ) → i + 1 < size → nth (cut_text size text) i ≡ nth text i
unfolding cut_text
nth-cut_text size text i h =
    nth-if (ltb (length text) size) (not (size == 0)) text (take (size - 1) text) [] i
    ∙ ground (arith, h, nth-take (size - 1) text i (omega (arith, h)))

-- For a format without the bytes n and V from its first % on, a size below 2 ^ 31 and a buffer that
-- does not reach the end of the address space, vscnprintf returns; the buffer begins with the cut
-- text, and where the whole text is shorter than 2 ^ 32 bytes, the result is the length of the cut
-- text.
pub vscnprintf-cut_text :
    (strings : ℕ → List ℕ) (bytes mem : ℕ → ℕ) (buf size : ℕ) (fmt args : List ℕ)
    → All IsSimple (conversions fmt)
    → size < 2 ^ 31
    → buf + size < 2 ^ 64
    → (text : List ℕ) × (r : Printed) × (formatted strings bytes fmt args ≡ some text)
      × (vscnprintf strings bytes mem buf size fmt args ≡ some r)
      × (length text < 2 ^ 32 → r.count ≡ length (cut_text size text))
      × ((i : ℕ) → i < length (cut_text size text) → r.mem (buf + i) ≡ nth (cut_text size text) i)
unfolding vscnprintf
vscnprintf-cut_text strings bytes mem buf size fmt args known small room =
    let p = vsnprintf-IsPrinted_total strings bytes mem buf size fmt args known small room in
    let text = p.0 in
    let printed = p.4 in
    (
      text,
      record p.1 { count = kept_count p.1.count size },
      p.2,
      ap (λ o. and_then o (λ (r : Printed). some (record r { count = kept_count r.count size })))
          p.3,
      λ h. ap (λ n. kept_count n size) printed.count ∙ length-cut_text size text h,
      λ i h.
          let b =
            cut_inside (length (cut_text size text)) (length text) size i (cut_length size text)
              h in
          printed.inside i b.0 b.1 ∙ sym (nth-cut_text size text i b.1),
    )

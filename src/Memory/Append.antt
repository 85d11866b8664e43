-- ===== src/Memory/Append.antt =====
-- strcat, strncat and strlcat, byte by byte.
use shield_tv_loader.Base.{
  ℕ, zero, suc, ◌+◌, ◌-◌, ◌<◌, ◌≡◌, refl, ◌∙◌, some, List, [], ◌∷◌, false, leb, ◌==◌, update, add64,
  sub64, sub64-eq, u64_mod, take, length, arith,
}
use shield_tv_loader.Text.{strlen}
use shield_tv_loader.Memory.{strcat, append_in, strncat, copy_in, strlcpy, strlcat}
use shield_tv_loader.Memory.Strings.{written, written-nul, written-suc, strcpy-written}

-- strcat writes the string and its NUL behind the one that stands there.
strcat-written :
    (m : ℕ → ℕ) (dest : ℕ) (d src : List ℕ) (a : ℕ)
    → strcat m dest d src a ≡ written m (dest + strlen d) src (suc (strlen src)) a
unfolding strcat
strcat-written m dest d src a = strcpy-written src m (dest + strlen d) a

append_in-written :
    (count : ℕ) (src : List ℕ) (m : ℕ → ℕ) (dest a : ℕ)
    → append_in m dest src count a
      ≡ written m dest (take (suc count) src) (suc (length (take (suc count) src))) a
unfolding append_in
append_in-written count [] m dest a = written-nul m dest a
append_in-written zero (c ∷ src) m dest a =
    written-nul (update m dest c) (dest + 1) a ∙ written-suc m dest (c ∷ []) 1 a
append_in-written (suc count) (c ∷ src) m dest a =
    let s = take (suc count) src in
    append_in-written count src (update m dest c) (dest + 1) a
    ∙ written-suc m dest (c ∷ s) (suc (length s)) a

-- strncat writes at most `count` bytes of the string and a NUL behind them, and nothing for the count 0.
strncat-written :
    (m : ℕ → ℕ) (dest : ℕ) (d src : List ℕ) (count a : ℕ)
    → 0 < count
    → strncat m dest d src count a
      ≡ written m (dest + strlen d) (take count src) (suc (length (take count src))) a
unfolding strncat
strncat-written m dest d src zero a h = absurd (omega (arith, h))
strncat-written m dest d src (suc count) a h = append_in-written count src m (dest + strlen d) a

-- Where the string that stands there is shorter than `count`, strlcat is strlcpy behind it, with the room
-- that is left.
strlcat-strlcpy :
    (m : ℕ → ℕ) (dest : ℕ) (d src : List ℕ) (count : ℕ)
    → strlen d < count
    → count < u64_mod
    → strlcat m dest d src count
      ≡ some (add64 (strlen d) (strlen src), (strlcpy m (dest + strlen d) src (count - strlen d)).1)
unfolding strlcat strlcpy
strlcat-strlcpy m dest d src count h k =
    let room = sub64-eq count (strlen d) (omega (arith, h)) k in
    let some_room : (count - strlen d == 0) ≡ false = ground (arith, h) in rw (room, some_room) refl

-- Where it is longer, the room wraps and the whole string is copied, past the end of the buffer.
strlcat_overflow :
    (m : ℕ → ℕ) (dest : ℕ) (d src : List ℕ) (count : ℕ)
    → count < strlen d
    → strlen d + strlen src < u64_mod
    → strlcat m dest d src count
      ≡ some (
        strlen d + strlen src,
        update (copy_in m (dest + strlen d) src (strlen src)) (dest + strlen d + strlen src) 0,
      )
unfolding strlcat
strlcat_overflow m dest d src count h k =
    let room : leb (sub64 count (strlen d)) (strlen src) ≡ false = ground (arith, h, k) in
    let some_room : (sub64 count (strlen d) == 0) ≡ false = ground (arith, h, k) in
    let whole : add64 (strlen d) (strlen src) ≡ strlen d + strlen src = omega (arith, k) in
    rw (room, some_room, whole) refl

-- ===== src/Memory/Strings.antt =====
-- strcpy, strncpy and strlcpy, byte by byte.
use shield_tv_loader.Base.{
  ℕ, zero, suc, ◌+◌, ◌-◌, ◌≤◌, ◌<◌, ◌≡◌, refl, List, [], ◌∷◌, ◌&&◌, leb, ltb, if◌then◌else◌, update,
  arith, nth, ◌⊎◌,
}
use shield_tv_loader.Text.{strlen, peek, advance}
use shield_tv_loader.Memory.{strcpy, strncpy, copy_in, strlcpy}

-- Memory with the first `n` bytes of `src` at `dest`; past the end of `src` they are NUL.
pub written : (ℕ → ℕ) → ℕ → List ℕ → ℕ → ℕ → ℕ
written m dest src n a = if leb dest a && ltb a (dest + n) then nth src (a - dest) else m a

nth-advance : (s : List ℕ) (i : ℕ) → nth (advance s) i ≡ nth s (suc i)
nth-advance [] i = refl
nth-advance (c ∷ s) i = refl

nth-peek : (s : List ℕ) → nth s 0 ≡ peek s
nth-peek [] = refl
nth-peek (c ∷ s) = refl

written-none : (m : ℕ → ℕ) (dest : ℕ) (src : List ℕ) (a : ℕ) → m a ≡ written m dest src 0 a
unfolding written
written-none m dest src a = ground arith

pub written-nul : (m : ℕ → ℕ) (dest a : ℕ) → update m dest 0 a ≡ written m dest [] 1 a
unfolding written
written-nul m dest a = ground arith

-- One byte written first, then the others.
pub written-suc :
    (m : ℕ → ℕ) (dest : ℕ) (src : List ℕ) (n a : ℕ)
    → written (update m dest (peek src)) (dest + 1) (advance src) n a ≡ written m dest src (suc n) a
unfolding written
written-suc m dest src n a =
    let shift : dest < a → nth (advance src) (a - (dest + 1)) ≡ nth src (a - dest) = λ h.
      let e : a - dest ≡ suc (a - (dest + 1)) = omega arith in
      rw (nth-advance src (a - (dest + 1)), e) refl in
    let first : a ≡ dest → nth src (a - dest) ≡ peek src =
      λ h. let e : a - dest ≡ 0 = omega arith in rw e (nth-peek src) in
    ground (arith, shift, first)

pub copy_in-written :
    (n : ℕ) (m : ℕ → ℕ) (dest : ℕ) (src : List ℕ) (a : ℕ)
    → copy_in m dest src n a ≡ written m dest src n a
unfolding copy_in
copy_in-written zero m dest src a = written-none m dest src a
copy_in-written (suc n) m dest src a =
    rw (copy_in-written n (update m dest (peek src)) (dest + 1) (advance src) a)
      (written-suc m dest src n a)

-- strncpy writes exactly `count` bytes: those of the string, then NULs.
strncpy-written :
    (count : ℕ) (m : ℕ → ℕ) (dest : ℕ) (src : List ℕ) (a : ℕ)
    → strncpy m dest src count a ≡ written m dest src count a
unfolding strncpy
strncpy-written zero m dest src a = written-none m dest src a
strncpy-written (suc count) m dest src a =
    rw (strncpy-written count (update m dest (peek src)) (dest + 1) (advance src) a)
      (written-suc m dest src count a)

-- strcpy writes the string and its NUL.
pub strcpy-written :
    (src : List ℕ) (m : ℕ → ℕ) (dest a : ℕ)
    → strcpy m dest src a ≡ written m dest src (suc (strlen src)) a
unfolding strcpy strlen
strcpy-written [] m dest a = written-nul m dest a
strcpy-written (c ∷ src) m dest a =
    rw (strcpy-written src (update m dest c) (dest + 1) a)
      (written-suc m dest (c ∷ src) (suc (strlen src)) a)

-- A buffer after strlcpy: what stands at each of its addresses.
pub record IsBounded (m : ℕ → ℕ) (dest : ℕ) (src : List ℕ) (size : ℕ) (m1 : ℕ → ℕ) : Type 0 where
  pub outside : (a : ℕ) → (a < dest) ⊎ (dest + size ≤ a) → m1 a ≡ m a
  pub kept : (i : ℕ) → i + 1 < size → i < strlen src → m1 (dest + i) ≡ nth src i
  pub short : strlen src < size → m1 (dest + strlen src) ≡ 0
  pub long : size ≤ strlen src → m1 (dest + (size - 1)) ≡ 0

-- strlcpy returns the length of the source. It leaves memory outside the buffer alone; the buffer, if
-- it has a byte, holds the string up to its size less one and then a NUL.
pub strlcpy-IsBounded :
    (m : ℕ → ℕ) (dest : ℕ) (src : List ℕ) (size : ℕ)
    → 0 < size
    → ((strlcpy m dest src size).0 ≡ strlen src)
      × IsBounded m dest src size (strlcpy m dest src size).1
unfolding strlcpy written
strlcpy-IsBounded m dest src size pos_size = (
  ground arith,
  record {
    outside = λ a h. ground (arith, copy a);
    kept = λ i h k.
        let e : dest + i - dest ≡ i = omega arith in
        let byte : nth src (dest + i - dest) ≡ nth src i = rw e refl in
        ground (arith, copy (dest + i), byte);
    short = λ h. ground (arith, copy (dest + strlen src));
    long = λ h. ground (arith, copy (dest + (size - 1)));
  },
)
  where
    copy :
        (a : ℕ)
        → copy_in m dest src (if leb size (strlen src) then size - 1 else strlen src) a
          ≡ written m dest src (if leb size (strlen src) then size - 1 else strlen src) a
    copy a = copy_in-written _ m dest src a

-- ===== src/Memory/Copy.antt =====
-- memcpy, memmove, memset and memscan, byte by byte.
use shield_tv_loader.Base.{
  ℕ, zero, suc, ◌+◌, ◌-◌, ◌%◌, ◌≤◌, ◌<◌, ◌≡◌, ap, ◌≢◌, ◌⊎◌, ◌&&◌, leb, ltb, if◌then◌else◌, update,
  arith, ℕ_discrete,
}
use shield_tv_loader.Memory.{memset, memcpy, copy_back, memmove, memscan}

-- Memory after `n` bytes at `src` were moved to `dest` all at once.
pub moved : (ℕ → ℕ) → ℕ → ℕ → ℕ → ℕ → ℕ
moved m dest src n a = if leb dest a && ltb a (dest + n) then m (src + (a - dest)) else m a

pub moved_inside :
    (m : ℕ → ℕ) (dest src n i : ℕ) → i < n → moved m dest src n (dest + i) ≡ m (src + i)
unfolding moved
moved_inside m dest src n i h =
    let e : dest + i - dest ≡ i = omega arith in ground (arith, h, ap (λ j. m (src + j)) e)

pub moved_outside :
    (m : ℕ → ℕ) (dest src n a : ℕ) → (a < dest) ⊎ (dest + n ≤ a) → moved m dest src n a ≡ m a
unfolding moved
moved_outside m dest src n a h = ground (arith, h)

pub memcpy-moved :
    (n : ℕ) (m : ℕ → ℕ) (dest src a : ℕ)
    → (dest ≤ src) ⊎ (src + n ≤ dest)
    → memcpy m dest src n a ≡ moved m dest src n a
unfolding memcpy moved
memcpy-moved zero m dest src a apart = ground arith
memcpy-moved (suc n) m dest src a apart =
    let rest = memcpy-moved n (update m dest (m src)) (dest + 1) (src + 1) a (ground arith) in
    let shift : dest < a → src + 1 + (a - (dest + 1)) ≡ src + (a - dest) = λ h. omega arith in
    rw rest (ground (arith, shift))

copy_back-moved :
    (n : ℕ) (m : ℕ → ℕ) (dest src a : ℕ)
    → src ≤ dest
    → copy_back m dest src n a ≡ moved m dest src n a
unfolding copy_back moved
copy_back-moved zero m dest src a apart = ground arith
copy_back-moved (suc n) m dest src a apart =
    let rest = copy_back-moved n (update m (dest + n) (m (src + n))) dest src a apart in
    let last : a ≡ dest + n → src + (a - dest) ≡ src + n = λ h. omega arith in
    rw rest (ground (arith, last))

-- memmove has the effect of a move of all bytes at once, wherever the two areas lie.
pub memmove-moved :
    (m : ℕ → ℕ) (dest src count a : ℕ) → memmove m dest src count a ≡ moved m dest src count a
unfolding memmove
memmove-moved m dest src count a =
    ground (arith, memcpy-moved count m dest src a, copy_back-moved count m dest src a)

-- memset writes the low byte of `c` to each address of the area and to no other.
memset-fill :
    (n : ℕ) (m : ℕ → ℕ) (s c a : ℕ)
    → memset m s c n a ≡ (if leb s a && ltb a (s + n) then c % 256 else m a)
unfolding memset
memset-fill zero m s c a = ground arith
memset-fill (suc n) m s c a = rw (memset-fill n (update m s (c % 256)) (s + 1) c a) (ground arith)

-- What memscan promises: the first address of the area that holds `c`, or the end of the area.
record IsScan (m : ℕ → ℕ) (addr c size r : ℕ) : Type 0 where
  pub low : addr ≤ r
  pub high : r ≤ addr + size
  pub before : (a : ℕ) → addr ≤ a → a < r → m a ≢ c
  pub at : r < addr + size → m r ≡ c

memscan-IsScan : (size : ℕ) (m : ℕ → ℕ) (addr c : ℕ) → IsScan m addr c size (memscan m addr c size)
unfolding memscan
memscan-IsScan zero m addr c = record {
  low = omega arith;
  high = omega arith;
  before = λ a h k. absurd (omega arith);
  at = λ h. absurd (omega arith);
}
memscan-IsScan (suc size) m addr c =
    let rest = memscan-IsScan size m (addr + 1) c in
    record {
      low = ground (arith, rest.low);
      high = ground (arith, rest.high);
      before = λ a h k. elim (ℕ_discrete a addr) [
        | yes e ↦ rw e (ground arith)
        | no ne ↦ ground (arith, rest.before a)
      ];
      at = λ h. ground (arith, rest.at);
    }

-- ===== src/Memory.antt =====
-- string.c, the routines on memory. Memory is a function from the address to the byte; the areas do
-- not wrap around the address space. A source string is the list of its bytes before the NUL.
pub mod Copy
pub mod Strings
pub mod Append
mod Tests
use shield_tv_loader.Base.{
  ℕ, zero, suc, ◌+◌, ◌-◌, ◌%◌, Option, none, some, add64, sub64, List, [], ◌∷◌, leb, ◌==◌,
  if◌then◌else◌, update,
}
use shield_tv_loader.Text.{peek, advance, strlen}

pub memset : (ℕ → ℕ) → ℕ → ℕ → ℕ → ℕ → ℕ
memset m s c zero = m
memset m s c (suc count) = memset (update m s (c % 256)) (s + 1) c count

pub memcpy : (ℕ → ℕ) → ℕ → ℕ → ℕ → ℕ → ℕ
memcpy m dest src zero = m
memcpy m dest src (suc count) = memcpy (update m dest (m src)) (dest + 1) (src + 1) count

-- while (count--) *--tmp = *--s, from the ends of the areas
pub copy_back : (ℕ → ℕ) → ℕ → ℕ → ℕ → ℕ → ℕ
copy_back m dest src zero = m
copy_back m dest src (suc count) =
    copy_back (update m (dest + count) (m (src + count))) dest src count

pub memmove : (ℕ → ℕ) → ℕ → ℕ → ℕ → ℕ → ℕ
memmove m dest src count =
    if leb dest src then memcpy m dest src count else copy_back m dest src count

pub memscan : (ℕ → ℕ) → ℕ → ℕ → ℕ → ℕ
memscan m addr c zero = addr
memscan m addr c (suc size) =
    let rest = memscan m (addr + 1) c size in if m addr == c then addr else rest

-- NULL is none.
pub memchr : (ℕ → ℕ) → ℕ → ℕ → ℕ → Option ℕ
memchr m s c zero = none
memchr m s c (suc n) = let rest = memchr m (s + 1) c n in if c % 256 == m s then some s else rest

pub strcpy : (ℕ → ℕ) → ℕ → List ℕ → ℕ → ℕ
strcpy m dest [] = update m dest 0
strcpy m dest (c ∷ src) = strcpy (update m dest c) (dest + 1) src

pub strncpy : (ℕ → ℕ) → ℕ → List ℕ → ℕ → ℕ → ℕ
strncpy m dest src zero = m
strncpy m dest src (suc count) = strncpy (update m dest (peek src)) (dest + 1) (advance src) count

-- memcpy(dest, src, len) of a string's bytes
pub copy_in : (ℕ → ℕ) → ℕ → List ℕ → ℕ → ℕ → ℕ
copy_in m dest src zero = m
copy_in m dest src (suc len) = copy_in (update m dest (peek src)) (dest + 1) (advance src) len

pub strlcpy : (ℕ → ℕ) → ℕ → List ℕ → ℕ → ℕ × (ℕ → ℕ)
strlcpy m dest src size =
    let ret = strlen src in
    if size == 0
    then (ret, m)
    else let len = if leb size ret then size - 1 else ret in
      (ret, update (copy_in m dest src len) (dest + len) 0)

-- `d` is the string that stands at `dest`; the second loop is that of strcpy.
pub strcat : (ℕ → ℕ) → ℕ → List ℕ → List ℕ → ℕ → ℕ
unfolding strcpy
strcat m dest d src = strcpy m (dest + strlen d) src

-- The second loop of strncat, of at least one byte.
pub append_in : (ℕ → ℕ) → ℕ → List ℕ → ℕ → ℕ → ℕ
append_in m dest [] count = update m dest 0
append_in m dest (c ∷ src) zero = update (update m dest c) (dest + 1) 0
append_in m dest (c ∷ src) (suc count) = append_in (update m dest c) (dest + 1) src count

pub strncat : (ℕ → ℕ) → ℕ → List ℕ → List ℕ → ℕ → ℕ → ℕ
unfolding append_in
strncat m dest d src zero = m
strncat m dest d src (suc count) = append_in m (dest + strlen d) src count

-- None where memcpy gets the length 0 - 1, more than the address space.
pub strlcat : (ℕ → ℕ) → ℕ → List ℕ → List ℕ → ℕ → Option (ℕ × (ℕ → ℕ))
unfolding copy_in
strlcat m dest d src count =
    let end = dest + strlen d in
    let room = sub64 count (strlen d) in
    let len = if leb room (strlen src) then room - 1 else strlen src in
    if room == 0
    then none
    else some (add64 (strlen d) (strlen src), update (copy_in m end src len) (end + len) 0)

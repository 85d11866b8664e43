-- ===== src/Text.antt =====
-- string.c, the routines that read strings. A string is the list of its bytes before the NUL, a
-- pointer into it the list from there on, and NULL is `none`. Routines that write are in Memory.
pub mod Compare
pub mod Folded
pub mod Find
pub mod Split
mod Tests
use shield_tv_loader.Base.{
  ℕ, zero, suc, ◌+◌, ◌-◌, ◌%◌, Bool, true, false, not, ◌&&◌, ◌||◌, List, [], ◌∷◌, Option, none,
  some, ltb, leb, ◌==◌, if◌then◌else◌, ℤ, pos, negsuc, sub64, length,
}
use shield_tv_loader.Base.{All, ◌<◌}
use shield_tv_loader.Ctype.{to_lower, is_space}

-- The bytes of a string.
pub record IsChar (c : ℕ) : Type 0 where
  pub positive : 0 < c
  pub byte : c < 256

abbrev pub IsText : List ℕ → Type 0
IsText s = All IsChar s

-- *s
abbrev pub peek : List ℕ → ℕ
peek [] = 0
peek (c ∷ s) = c

-- s + 1, which no routine computes past the NUL
abbrev pub advance : List ℕ → List ℕ
advance [] = []
advance (c ∷ s) = s

-- (int) c1 - (int) c2
abbrev pub diff : ℕ → ℕ → ℤ
diff c1 c2 = if ltb c1 c2 then negsuc (c2 - c1 - 1) else pos (c1 - c2)

unfoldable pub strnicmp : List ℕ → List ℕ → ℕ → ℤ
strnicmp s1 s2 zero = pos 0
strnicmp s1 s2 (suc len) =
    let rest = strnicmp (advance s1) (advance s2) len in
    let c1 = peek s1 in
    let c2 = peek s2 in
    if c1 == 0 || c2 == 0
    then diff c1 c2
    else if c1 == c2
    then rest
    else if to_lower c1 == to_lower c2
    then rest
    else diff (to_lower c1) (to_lower c2)

unfoldable pub strcasecmp : List ℕ → List ℕ → ℤ
strcasecmp [] s2 = diff (to_lower 0) (to_lower (peek s2))
strcasecmp (c ∷ s1) s2 =
    let rest = strcasecmp s1 (advance s2) in
    let c1 = to_lower c in
    let c2 = to_lower (peek s2) in if c1 == c2 && not (c1 == 0) then rest else diff c1 c2

-- `--n > 0` wraps at 0.
unfoldable pub strncasecmp : List ℕ → List ℕ → ℕ → ℤ
strncasecmp [] s2 n = diff (to_lower 0) (to_lower (peek s2))
strncasecmp (c ∷ s1) s2 n =
    let rest = strncasecmp s1 (advance s2) (sub64 n 1) in
    let c1 = to_lower c in
    let c2 = to_lower (peek s2) in
    if ltb 0 (sub64 n 1) && (c1 == c2 && not (c1 == 0)) then rest else diff c1 c2

unfoldable pub strcmp : List ℕ → List ℕ → ℤ
strcmp [] ct = if 0 == peek ct then pos 0 else if ltb 0 (peek ct) then negsuc 0 else pos 1
strcmp (c1 ∷ cs) ct =
    let rest = strcmp cs (advance ct) in
    if not (c1 == peek ct)
    then if ltb c1 (peek ct) then negsuc 0 else pos 1
    else if c1 == 0
    then pos 0
    else rest

unfoldable pub strncmp : List ℕ → List ℕ → ℕ → ℤ
strncmp cs ct zero = pos 0
strncmp cs ct (suc count) =
    let rest = strncmp (advance cs) (advance ct) count in
    let c1 = peek cs in
    let c2 = peek ct in
    if not (c1 == c2)
    then if ltb c1 c2 then negsuc 0 else pos 1
    else if c1 == 0
    then pos 0
    else rest

-- (char) c is the low byte.
unfoldable pub strchr : List ℕ → ℕ → Option (List ℕ)
strchr [] c = if 0 == c % 256 then some [] else none
strchr (x ∷ s) c = let rest = strchr s c in if x == c % 256 then some (x ∷ s) else rest

-- From the end back to the start.
unfoldable pub strrchr : List ℕ → ℕ → Option (List ℕ)
strrchr [] c = if 0 == c % 256 then some [] else none
strrchr (x ∷ s) c = elim (strrchr s c) [
  | some p ↦ some p
  | none ↦ if x == c % 256 then some (x ∷ s) else none
]

unfoldable pub strnchr : List ℕ → ℕ → ℕ → Option (List ℕ)
strnchr s zero c = none
strnchr [] (suc count) c = none
strnchr (x ∷ s) (suc count) c =
    let rest = strnchr s count c in if x == c % 256 then some (x ∷ s) else rest

unfoldable pub skip_spaces : List ℕ → List ℕ
skip_spaces [] = []
skip_spaces (c ∷ str) = let rest = skip_spaces str in if is_space c then rest else c ∷ str

-- The loop of strim from the last byte back.
unfoldable pub trim_end : List ℕ → List ℕ
trim_end [] = []
trim_end (c ∷ s) = elim (trim_end s) [ [] ↦ if is_space c then [] else c ∷ [] | d ∷ r ↦ c ∷ d ∷ r ]

unfoldable pub strim : List ℕ → List ℕ
strim s = let s1 = skip_spaces s in if length s1 == 0 then s1 else trim_end s1

unfoldable pub strlen : List ℕ → ℕ
strlen [] = 0
strlen (c ∷ s) = suc (strlen s)

unfoldable pub strnlen : List ℕ → ℕ → ℕ
strnlen s zero = 0
strnlen [] (suc count) = 0
strnlen (c ∷ s) (suc count) = suc (strnlen s count)

-- The inner loops over `accept`, `reject` and `ct`.
unfoldable pub is_one_of : ℕ → List ℕ → Bool
is_one_of c [] = false
is_one_of c (a ∷ set) = let rest = is_one_of c set in if c == a then true else rest

unfoldable pub strspn : List ℕ → List ℕ → ℕ
strspn [] accept = 0
strspn (c ∷ s) accept = let rest = strspn s accept in if is_one_of c accept then suc rest else 0

unfoldable pub strcspn : List ℕ → List ℕ → ℕ
strcspn [] reject = 0
strcspn (c ∷ s) reject = let rest = strcspn s reject in if is_one_of c reject then 0 else suc rest

unfoldable pub strpbrk : List ℕ → List ℕ → Option (List ℕ)
strpbrk [] ct = none
strpbrk (c ∷ cs) ct = let rest = strpbrk cs ct in if is_one_of c ct then some (c ∷ cs) else rest

-- `s` up to where `n` bytes are left, as the NUL written there cuts it.
unfoldable pub cut_before : List ℕ → ℕ → List ℕ
cut_before [] n = []
cut_before (c ∷ s) n = let rest = cut_before s n in if suc (length s) == n then [] else c ∷ rest

-- The token that `*end++ = '\0'` cuts off, and the new `*s`.
unfoldable pub strsep : Option (List ℕ) → List ℕ → Option (List ℕ) × Option (List ℕ)
strsep none ct = (none, none)
strsep (some sbegin) ct = elim (strpbrk sbegin ct) [
  | none ↦ (some sbegin, none)
  | some end ↦ (some (cut_before sbegin (length end)), some (advance end))
]

unfoldable pub memcmp : List ℕ → List ℕ → ℕ → ℤ
memcmp su1 su2 zero = pos 0
memcmp su1 su2 (suc count) =
    let rest = memcmp (advance su1) (advance su2) count in
    if peek su1 == peek su2 then rest else diff (peek su1) (peek su2)

abbrev pub is_zero_int : ℤ → Bool
is_zero_int (pos n) = n == 0
is_zero_int (negsuc n) = false

-- while (len >= l2), the loop of strstr and strnstr
unfoldable pub find_sub : List ℕ → List ℕ → ℕ → ℕ → Option (List ℕ)
find_sub s1 s2 l2 zero = none
find_sub s1 s2 l2 (suc len) =
    let rest = find_sub (advance s1) s2 l2 len in
    if leb l2 (suc len) then if is_zero_int (memcmp s1 s2 l2) then some s1 else rest else none

unfoldable pub strstr : List ℕ → List ℕ → Option (List ℕ)
strstr s1 s2 = if strlen s2 == 0 then some s1 else find_sub s1 s2 (strlen s2) (strlen s1)

unfoldable pub strnstr : List ℕ → List ℕ → ℕ → Option (List ℕ)
strnstr s1 s2 len = if strlen s2 == 0 then some s1 else find_sub s1 s2 (strlen s2) len

-- ===== src/Memory/Tests.antt =====
-- The theorems on the memory routines of string.c at areas that overlap, and at a short buffer.
use shield_tv_loader.Base.{ℕ, ◌%◌, ◌≡◌, List, [], ◌∷◌, arith}
use shield_tv_loader.Text.{strlen}
use shield_tv_loader.Memory.{memmove, strlcpy}
use shield_tv_loader.Memory.Copy.{moved, memmove-moved}
use shield_tv_loader.Memory.Strings.{IsBounded, strlcpy-IsBounded}

abbrev ramp : ℕ → ℕ
ramp a = a % 256

abbrev abc : List ℕ
abc = b'a' ∷ b'b' ∷ b'c' ∷ []

memmove-moved_example : memmove ramp 12 10 8 15 ≡ moved ramp 12 10 8 15
memmove-moved_example = memmove-moved ramp 12 10 8 15

strlcpy-IsBounded_example :
    ((strlcpy ramp 3 abc 2).0 ≡ strlen abc) × IsBounded ramp 3 abc 2 (strlcpy ramp 3 abc 2).1
strlcpy-IsBounded_example = strlcpy-IsBounded ramp 3 abc 2 (omega arith)

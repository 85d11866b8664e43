-- ===== src/Fb/Oem.antt =====
-- fb.c: the commands behind "oem ". Each gets the rest of the command, and returns a status to report,
-- or FB_OK where the report is under way.
use shield_tv_loader.Base.{
  ℕ, zero, suc, ◌/◌, ◌%◌, Bool, true, false, not, ◌&&◌, ◌||◌, List, [], ◌∷◌, Option, none, some,
  ◌==◌, if◌then◌else◌, Result, ok, out_of_fuel, ◌>>=◌, length, add64, update,
}
use shield_tv_loader.Text.{peek, advance}
use shield_tv_loader.Number.{simple_strtoull}
use shield_tv_loader.Fb.{World, set_ctx, FbStatus, fb_end_command, fb_oem_cmd_peek_exe}

abbrev pub bad_command : FbStatus
bad_command = some (
    b'F' ∷ b'A' ∷ b'I' ∷ b'L' ∷ b'B' ∷ b'a' ∷ b'd' ∷ b' ' ∷ b'c' ∷ b'o' ∷ b'm' ∷ b'm' ∷ b'a' ∷ b'n'
    ∷ b'd' ∷ [])

abbrev pub out_of_memory : FbStatus
out_of_memory = some (
    b'F' ∷ b'A' ∷ b'I' ∷ b'L' ∷ b'O' ∷ b'u' ∷ b't' ∷ b' ' ∷ b'o' ∷ b'f' ∷ b' ' ∷ b'm' ∷ b'e' ∷ b'm'
    ∷ b'o' ∷ b'r' ∷ b'y' ∷ [])

abbrev pub Answer : Type 0
Answer = Result (FbStatus × World)

abbrev pub refused : World → FbStatus → Answer
refused w status = ok (status, w)

-- FB_OK, once the report is under way.
abbrev pub reported : Result World → Answer
reported m = m >>= λ w. ok (none, w)

-- A chain of `if` and `else if`.
unfoldable pub first_of : List (Bool × Answer) → Answer → Answer
first_of [] otherwise = otherwise
first_of ((t, answer) ∷ chain) otherwise =
    let rest = first_of chain otherwise in if t then answer else rest

abbrev pub is_access : ℕ → Bool
is_access a = a == 1 || a == 2 || a == 4 || a == 8

-- The access at the front of `cmd`, whether it is `c`, and the rest; `none` for a size that is not one.
unfoldable pub read_access : List ℕ → Option (ℕ × Bool × List ℕ)
read_access cmd =
    let (access, rest) = simple_strtoull cmd 0 in
    if peek cmd == b'c'
    then some (1, true, advance cmd)
    else if is_access access
    then some (access, false, rest)
    else none

-- The number of items, 1 if none is given, and the rest.
unfoldable pub read_items : List ℕ → ℕ × List ℕ
read_items cmd = if peek cmd == b' ' then simple_strtoull (advance cmd) 0 else (1, cmd)

abbrev pub set_peek : World → ℕ → ℕ → ℕ → Bool → World
set_peek w addr access items ascii =
    set_ctx w (record w.ctx {
      peek = record { addr = addr; access = access; items = items; ascii = ascii };
    })

-- What follows the access.
unfoldable pub peek_with : World → ℕ → Option (ℕ × Bool × List ℕ) → Answer
unfolding read_items
peek_with w addr none = refused w bad_command
peek_with w addr (some (access, ascii, cmd)) =
    let (items, cmd1) = read_items cmd in
    if not (peek cmd1 == 0)
    then refused w bad_command
    else reported (fb_oem_cmd_peek_exe false (set_peek w addr access items ascii))

unfoldable pub fb_oem_cmd_peek : World → List ℕ → Answer
unfolding read_access peek_with
fb_oem_cmd_peek w cmd =
    let (addr, cmd1) = simple_strtoull cmd 0 in
    if not (peek cmd1 == b' ')
    then refused w bad_command
    else peek_with w addr (read_access (advance cmd1))

-- OUT8 to OUT64: the low `n` bytes of a value.
unfoldable pub write_le : (ℕ → ℕ) → ℕ → ℕ → ℕ → ℕ → ℕ
write_le mem addr zero value = mem
write_le mem addr (suc n) value =
    write_le (update mem addr (value % 256)) (add64 addr 1) n (value / 256)

-- The loop of poke, on fuel. It has written what came before a bad item.
unfoldable pub poke_items : ℕ → Bool → ℕ → ℕ → List ℕ → (ℕ → ℕ) → Result (Bool × (ℕ → ℕ))
unfolding write_le
poke_items fuel ascii access addr [] mem = ok (true, mem)
poke_items zero ascii access addr (c ∷ cmd) mem = if c == 0 then ok (true, mem) else out_of_fuel
poke_items (suc fuel) ascii access addr (c ∷ cmd) mem =
    let (value, rest) = simple_strtoull (c ∷ cmd) 0 in
    let next = if peek rest == b' ' then advance rest else rest in
    if c == 0
    then ok (true, mem)
    else if ascii
    then poke_items fuel ascii access (add64 addr access) cmd (write_le mem addr 1 c)
    else if not (peek rest == b' ') && not (peek rest == 0)
    then ok (false, mem)
    else poke_items fuel ascii access (add64 addr access) next (write_le mem addr access value)

abbrev pub set_mem : World → (ℕ → ℕ) → World
set_mem w mem = set_ctx w (record w.ctx { mem = mem })

abbrev pub after_poke : World → Bool × (ℕ → ℕ) → Answer
after_poke w (true, mem) = reported (fb_end_command (set_mem w mem) none)
after_poke w (false, mem) = refused (set_mem w mem) bad_command

-- What follows the access.
unfoldable pub poke_with : World → ℕ → Option (ℕ × Bool × List ℕ) → Answer
unfolding poke_items
poke_with w addr none = refused w bad_command
poke_with w addr (some (access, ascii, cmd)) =
    if not (peek cmd == b' ')
    then refused w bad_command
    else (poke_items (length (advance cmd)) ascii access addr (advance cmd) w.ctx.mem
        >>= after_poke w)

unfoldable pub fb_oem_cmd_poke : World → List ℕ → Answer
unfolding read_access poke_with
fb_oem_cmd_poke w cmd =
    let (addr, cmd1) = simple_strtoull cmd 0 in
    if not (peek cmd1 == b' ')
    then refused w bad_command
    else poke_with w addr (read_access (advance cmd1))

unfoldable pub fb_oem_cmd_echo : World → List ℕ → Answer
fb_oem_cmd_echo w cmd =
    reported (fb_end_command (set_ctx w (record w.ctx { console = cmd ∷ w.ctx.console })) none)

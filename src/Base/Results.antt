-- ===== src/Base/Results.antt =====
-- What a run of the loader comes to: a value, or one of the ways in which it does not go on.
use Prim.Native.Nat.{ℕ}

pub data Result {ℓ} (A : Type ℓ) : Type ℓ where
  ok : A → Result A
  -- BUG_ON stops the program.
  bug : Result A
  -- A null pointer is followed.
  null_pointer : Result A
  -- tegra_reboot, with its argument, and the jump to a loaded binary do not come back.
  rebooted : ℕ → Result A
  launched : ℕ → Result A
  -- A loop of the model was cut off.
  out_of_fuel : Result A

infixl 5 ◌>>=◌
abbrev pub ◌>>=◌ {ℓ κ} : {A : Type ℓ} {B : Type κ} → Result A → (A → Result B) → Result B
ok a >>= f = f a
bug >>= f = bug
null_pointer >>= f = null_pointer
rebooted type >>= f = rebooted type
launched entry >>= f = launched entry
out_of_fuel >>= f = out_of_fuel

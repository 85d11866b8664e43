-- ===== src/Printf/Later.antt =====
-- The rest of a format that a reader leaves.
use shield_tv_loader.Base.{
  ℕ, suc, ◌+◌, ◌-◌, ◌*◌, ◌≤◌, ◌≡◌, Bool, true, false, List, [], ◌∷◌, ◌==◌, ◌||◌, if◌then◌else◌,
  length, arith, All, all_cons,
}
use shield_tv_loader.Text.{peek, advance}
use shield_tv_loader.Ctype.{is_digit, is_alnum}
use shield_tv_loader.Printf.{
  FormatType, format_type_width, format_type_precision, format_type_nrchars, skip_atoi,
  until_percent,
}
use shield_tv_loader.Printf.Convert.{skip_alnum}

-- No byte of %n or %pV.
abbrev pub IsSimple : ℕ → Type 0
IsSimple c = (c == b'n' || c == b'V') ≡ false

-- %n
abbrev pub counts : FormatType → Bool
counts format_type_nrchars = true
counts kind = false

-- 1 where the next call goes on in the middle of a conversion.
abbrev pub left_over : FormatType → ℕ
left_over format_type_width = 1
left_over format_type_precision = 1
left_over kind = 0

-- `rest` is what is left of `fmt` after `n` bytes at least.
pub record Later (fmt rest : List ℕ) (n : ℕ) : Type 0 where
  pub shorter : length rest + n ≤ length fmt
  pub same : All IsSimple fmt → All IsSimple rest

pub Later-refl : (fmt : List ℕ) → Later fmt fmt 0
Later-refl fmt = record { shorter = omega arith; same = λ h. h }

pub Later-then : (a b c : List ℕ) (n m : ℕ) → Later a b n → Later b c m → Later a c (n + m)
Later-then a b c n m h k = record {
  shorter = omega (arith, h.shorter, k.shorter);
  same = λ v. k.same (h.same v);
}

pub Later-less : (a b : List ℕ) (n m : ℕ) → m ≤ n → Later a b n → Later a b m
Later-less a b n m l h = record { shorter = omega (arith, h.shorter, l); same = h.same }

All-tail : (c : ℕ) (s : List ℕ) → All IsSimple (c ∷ s) → All IsSimple s
All-tail c s (all_cons h hs) = hs

pub Later-tail : (c : ℕ) (s : List ℕ) → Later (c ∷ s) s 1
Later-tail c s = record { shorter = omega arith; same = All-tail c s }

-- What comes later than the tail.
Later-cons : (c : ℕ) (s r : List ℕ) (n : ℕ) → Later s r n → Later (c ∷ s) r n
Later-cons c s r n h =
    Later-less (c ∷ s) r (1 + n) n (omega arith) (Later-then (c ∷ s) s r 1 n (Later-tail c s) h)

pub Later-advance : (s : List ℕ) → Later s (advance s) 0
Later-advance [] = Later-refl []
Later-advance (c ∷ s) = Later-less (c ∷ s) s 1 0 (omega arith) (Later-tail c s)

-- A byte was there.
pub Later-read : (s : List ℕ) (c : ℕ) → (peek s == suc c) ≡ true → Later s (advance s) 1
Later-read [] c e = absurd (ground (arith, e))
Later-read (d ∷ s) c e = Later-tail d s

Later-if :
    {A : Type 0} (a : List ℕ) (n : ℕ) (t : Bool) (p q : A × List ℕ)
    → Later a p.1 n
    → Later a q.1 n
    → Later a (if t then p else q).1 n
Later-if a n true p q h k = h
Later-if a n false p q h k = k

pub Later-skip_atoi : (s : List ℕ) (i : ℕ) → Later s (skip_atoi s i).1 0
unfolding skip_atoi
Later-skip_atoi [] i = Later-refl []
Later-skip_atoi (c ∷ s) i =
    Later-if (c ∷ s) 0 (is_digit c) _ (i, c ∷ s)
      (Later-cons c s _ 0 (Later-skip_atoi s (i * 10 + c - b'0'))) (Later-refl (c ∷ s))

pub Later-until_percent : (s : List ℕ) → Later s (until_percent s).1 0
unfolding until_percent
Later-until_percent [] = Later-refl []
Later-until_percent (c ∷ s) =
    Later-if {A = List ℕ} (c ∷ s) 0 (c == b'%') ([], c ∷ s)
      (c ∷ (until_percent s).0, (until_percent s).1) (Later-refl (c ∷ s))
      (Later-cons c s _ 0 (Later-until_percent s))

-- Text that does not begin with % is read.
pub until_percent-reads :
    (c : ℕ) (s : List ℕ) → (c == b'%') ≡ false → Later (c ∷ s) (until_percent (c ∷ s)).1 1
unfolding until_percent
until_percent-reads c s e =
    rw e (Later-then (c ∷ s) s _ 1 0 (Later-tail c s) (Later-until_percent s))

skip_alnum-if :
    (a s r : List ℕ) (t : Bool) → Later a s 0 → Later a r 0 → Later a (if t then s else r) 0
skip_alnum-if a s r true h k = h
skip_alnum-if a s r false h k = k

pub Later-skip_alnum : (s : List ℕ) → Later s (skip_alnum s) 0
unfolding skip_alnum
Later-skip_alnum [] = Later-refl []
Later-skip_alnum (c ∷ s) =
    skip_alnum-if (c ∷ s) (skip_alnum s) (c ∷ s) (is_alnum c)
      (Later-cons c s _ 0 (Later-skip_alnum s)) (Later-refl (c ∷ s))

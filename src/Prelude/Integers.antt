-- ===== src/Prelude/Integers.antt =====
-- Go's `int`, as far as the program subtracts and compares.
use Prim.Native.Nat.{ℕ, ◌-◌}
use mathlib.Core.Bool.{Bool, true, false}
use llm_dating_app.Prelude.Tests.{ltb, leb, ◌==◌, if◌then◌else◌}

-- `negsuc n` is -(n + 1).
pub data ℤ : Type 0 where
  pos : ℕ → ℤ
  negsuc : ℕ → ℤ

-- a - b, as an integer.
abbrev pub sub_ℕ : ℕ → ℕ → ℤ
sub_ℕ a b = if leb b a then pos (a - b) else negsuc (b - a - 1)

-- i < n
abbrev pub is_below : ℕ → ℤ → Bool
is_below n (pos i) = if leb n i then false else true
is_below n (negsuc i) = true

abbrev pub pos_part : ℤ → ℕ
pos_part (pos n) = n
pos_part (negsuc n) = 0

abbrev pub same_int : ℤ → ℤ → Bool
same_int (pos a) (pos b) = a == b
same_int (pos a) (negsuc b) = false
same_int (negsuc a) (pos b) = false
same_int (negsuc a) (negsuc b) = a == b

-- Whether the distance from 0 is at most n.
abbrev pub is_within : ℕ → ℤ → Bool
is_within n (pos i) = leb i n
is_within n (negsuc i) = ltb i n

abbrev pub is_le : ℤ → ℤ → Bool
is_le (pos a) (pos b) = leb a b
is_le (pos a) (negsuc b) = false
is_le (negsuc a) (pos b) = true
is_le (negsuc a) (negsuc b) = leb b a

-- ===== src/Base/Words.antt =====
-- Go's fixed-width integers and byte slices. A number is its bit pattern, below 2 ^ 64.
use Prim.Native.Nat.{ℕ, ◌+◌, ◌%◌, ◌^◌, ◌<◌}
use mathlib.Core.Bool.{Bool}
use mathlib.Core.List.{List}
use erigon_lib.Base.Tests.{ltb}
use erigon_lib.Base.Lists.{length, All}

abbrev pub IsByte : ℕ → Type 0
IsByte b = b < 256

-- A byte slice: no allocation of a Go program reaches 2 ^ 48 bytes.
abbrev pub IsSlice : List ℕ → Type 0
IsSlice xs = All IsByte xs × (length xs < 2 ^ 48)

-- `a + b` of an `int` or a `uint64`, on the bit patterns.
abbrev pub add64 : ℕ → ℕ → ℕ
add64 a b = (a + b) % 2 ^ 64

-- `a < b` of an `int`: the patterns from 2 ^ 63 on stand for the negative numbers.
abbrev pub int_lt : ℕ → ℕ → Bool
int_lt a b = ltb ((a + 2 ^ 63) % 2 ^ 64) ((b + 2 ^ 63) % 2 ^ 64)

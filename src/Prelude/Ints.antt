-- ===== src/Prelude/Ints.antt =====
-- An int of 32 bits as its bit pattern.
use Prim.Native.Nat.{ℕ, ◌+◌, ◌-◌, ◌*◌, ◌%◌, ◌^◌}
use softwrap.Prelude.Tests.{ltb, if◌then◌else◌}

-- `i % m`, which has the sign of `i`.
abbrev pub int_rem : ℕ → ℕ → ℕ
int_rem i m = if ltb i (2 ^ 31) then i % m else (2 ^ 32 - (2 ^ 32 - i) % m) % 2 ^ 32

-- The address behind `base` by `i` objects of `width` bytes, or before it.
abbrev pub offset : ℕ → ℕ → ℕ → ℕ
offset base width i = if ltb i (2 ^ 31) then base + width * i else base - width * (2 ^ 32 - i)

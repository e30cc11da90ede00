-- ===== src/Bloom.antt =====
-- src/main/bloom.h: one bit for each granule of four bytes, in 1024 words of 64 bits. The bit is
-- `1 << (i & 63)` on an int, which C++ defines only below 31: the shift is the parameter `int_shift`,
-- its value as the unsigned long that the code combines.
pub mod Ranges
use softwrap.Prelude.{
  ℕ, zero, suc, ◌+◌, ◌-◌, ◌/◌, ◌%◌, ◌^◌, ◌≤◌, Bool, bit_and, bit_or, ltb, leb, not, ◌==◌,
  if◌then◌else◌, ◌||◌,
}

-- `BloomField` by index.
abbrev pub Bloom : Type 0
Bloom = ℕ → ℕ

unfoldable pub get_bloom : ℕ → ℕ
get_bloom ptr = bit_and (ptr / 2 ^ 2) (2 ^ 16 - 1)

module _ (int_shift : ℕ → ℕ) where
  -- The result is an `int`: the low 32 bits of the conjunction.
  unfoldable pub check_bloom : Bloom → ℕ → Bool
  unfolding get_bloom
  check_bloom field ptr =
      let i = get_bloom ptr in not (bit_and (field (i / 64)) (int_shift (i % 64)) % 2 ^ 32 == 0)

  unfoldable pub set_bloom : Bloom → ℕ → Bloom
  unfolding get_bloom
  set_bloom field ptr =
      let i = get_bloom ptr in
      λ j. if j == i / 64 then bit_or (field (i / 64)) (int_shift (i % 64)) else field j

  -- `for (i = ptr; i <= ptr+size; i += 4)`, by the rounds: size / 4 + 1 of them.
  unfoldable pub set_bloom_loop : ℕ → ℕ → Bloom → Bloom
  set_bloom_loop zero i field = field
  set_bloom_loop (suc n) i field = set_bloom_loop n (i + 4) (set_bloom field i)

  unfoldable pub set_bloom_range : Bloom → ℕ → ℕ → Bloom
  unfolding set_bloom_loop
  set_bloom_range field ptr size = set_bloom_loop (size / 4 + 1) ptr field

  unfoldable pub check_bloom_loop : ℕ → ℕ → Bloom → Bool
  check_bloom_loop zero i field = Bool.false
  check_bloom_loop (suc n) i field = check_bloom field i || check_bloom_loop n (i + 4) field

  unfoldable pub check_bloom_range : Bloom → ℕ → ℕ → Bool
  unfolding check_bloom_loop
  check_bloom_range field ptr size = check_bloom_loop (size / 4 + 1) ptr field

unfoldable pub clear_bloom : Bloom → Bloom
clear_bloom field i = if ltb i 1024 then 0 else field i

-- ===== src/WrapVar.antt =====
-- include/WrapVar.h: a variable in persistent memory, read and written through the calls of a wrap.
-- A value of type T is its bit pattern, of `size` bytes.
pub mod Operators
use softwrap.Prelude.{ℕ, ◌+◌, ◌-◌, ◌%◌, ◌^◌, ◌==◌, leb, if◌then◌else◌, Run, ok, abort, ◌>>=◌}
use softwrap.WrapImpl.{WrapMemory}

-- Sums and differences of T.
abbrev pub plus : ℕ → ℕ → ℕ → ℕ
plus size a b = (a + b) % 256 ^ size

abbrev pub minus : ℕ → ℕ → ℕ → ℕ
minus size a b = (a + (256 ^ size - b % 256 ^ size)) % 256 ^ size

module _ (w : WrapMemory) (size : ℕ) where
  open w use {State, read, write}

  unfoldable pub set : ℕ → ℕ → State → Run State
  set var val s =
      if size == 4
      then ok (write var 4 (val % 2 ^ 32) s)
      else if leb size 8
      then ok (write var 8 (val % 2 ^ 64) s)
      else abort

  unfoldable pub get : ℕ → State → Run ℕ
  get var s =
      if size == 8 then ok (read var 8 s) else if size == 4 then ok (read var 4 s) else abort

  -- `operator=(const WrapVar<T> &)`, and the constructor from a variable
  unfoldable pub copy_var : ℕ → ℕ → State → Run State
  copy_var var other s = get other s >>= λ (v : ℕ). set var v s

  -- `operator+=(T)`
  unfoldable pub add_assign : ℕ → ℕ → State → Run State
  add_assign var rhs s = get var s >>= λ (v : ℕ). set var (plus size v rhs) s

  -- `operator+=(const WrapVar<T>&)`
  unfoldable pub add_assign_var : ℕ → ℕ → State → Run State
  add_assign_var var rhs s =
      get var s >>= λ (v : ℕ). get rhs s >>= λ (u : ℕ). set var (plus size v u) s

  unfoldable pub sub_assign_var : ℕ → ℕ → State → Run State
  sub_assign_var var rhs s =
      get var s >>= λ (v : ℕ). get rhs s >>= λ (u : ℕ). set var (minus size v u) s

  unfoldable pub pre_increment : ℕ → State → Run State
  pre_increment var s = get var s >>= λ (v : ℕ). set var (plus size v 1) s

  unfoldable pub post_increment : ℕ → State → Run (ℕ × State)
  post_increment var s = get var s >>= λ (t : ℕ). pre_increment var s >>= λ (s' : State). ok (t, s')

  unfoldable pub pre_decrement : ℕ → State → Run State
  pre_decrement var s = get var s >>= λ (v : ℕ). set var (minus size v 1) s

  unfoldable pub post_decrement : ℕ → State → Run (ℕ × State)
  post_decrement var s = get var s >>= λ (t : ℕ). pre_decrement var s >>= λ (s' : State). ok (t, s')

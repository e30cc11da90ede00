-- ===== src/WrapArray.antt =====
-- include/WrapArray.h: an array in persistent memory that grows, read and written through the calls
-- of a wrap. An element is a bit pattern of `width` bytes, an index an int that is not negative,
-- and `fresh` what pmalloc returns where it is called.
pub mod Loops
pub mod Items
pub mod Changes
pub mod Calls
use softwrap.Prelude.{ℕ, zero, suc, ◌+◌, ◌-◌, ◌*◌, ◌%◌, ◌^◌, offset, ◌==◌, leb, if◌then◌else◌}
use softwrap.WrapImpl.{WrapMemory}

abbrev pub size_incr : ℕ
size_incr = 4096

-- The addresses of `_pa`, `_length` and `_nextIndex`.
pub record WrapArray : Type 0 where
  pub pa_var : ℕ
  pub length_var : ℕ
  pub next_var : ℕ

-- `&a[i]`, for elements of `width` bytes.
abbrev pub item : ℕ → ℕ → ℕ → ℕ
item width a i = a + i * width

-- The rounds of a loop of an int from `start` to `stop`, both numbers that are converted to an int.
abbrev pub rounds : ℕ → ℕ → ℕ
rounds start stop = (stop + 2 ^ 31) % 2 ^ 32 - (start + 2 ^ 31) % 2 ^ 32

module _ (w : WrapMemory) where
  open w use {State, read, write}

  -- `for (int i = 0; i < nexti; i++)`, by the rounds left.
  unfoldable pub copy_items : ℕ → ℕ → ℕ → ℕ → ℕ → State → State
  copy_items width zero i pold pnew s = s
  copy_items width (suc n) i pold pnew s =
      copy_items width n (i + 1) pold pnew
        (write (item width pnew i) width (read (item width pold i) width s) s)

  -- A loop that clears bytes, by the rounds left.
  unfoldable pub zero_bytes : ℕ → ℕ → ℕ → State → State
  zero_bytes zero j a s = s
  zero_bytes (suc n) j a s = zero_bytes n (j + 1) a (write (a + j) 1 0 s)

  -- `for (int j = start; j < (int)stop; j++)`
  unfoldable pub clear_bytes : ℕ → ℕ → ℕ → State → State
  clear_bytes start stop a s = zero_bytes (rounds start stop) 0 (offset a 1 (start % 2 ^ 32)) s

  abbrev pub size : WrapArray → State → ℕ
  size m s = read m.length_var 4 s

module _ (w : WrapMemory) (width : ℕ) where
  open w use {State, read, write}

  unfoldable pub resize : ℕ → ℕ → WrapArray → State → State
  resize fresh size m s =
      let grown = size + size_incr in
      let pold = read m.pa_var 8 s in
      let nexti = read m.next_var 4 s in
      let copied = copy_items w width (rounds 0 nexti) 0 pold fresh s in
      let zeroed = clear_bytes w (nexti * width) (grown * width) fresh copied in
      write m.pa_var 8 fresh (write m.length_var 4 grown zeroed)

  unfoldable pub new_array : ℕ → ℕ → WrapArray → State → State
  new_array arr size m s =
      write m.next_var 4 0
        (write m.length_var 4 size (write m.pa_var 8 arr (clear_bytes w 0 (size * width) arr s)))

  abbrev pub grow : ℕ → ℕ → WrapArray → State → State
  grow fresh index m s = if leb (read m.length_var 4 s) index then resize fresh index m s else s

  -- `operator[]`, which gives the address of the element.
  unfoldable pub at_index : ℕ → ℕ → WrapArray → State → ℕ × State
  at_index fresh index m s =
      let s1 = grow fresh index m s in
      let s2 = if leb (read m.next_var 4 s1) index then write m.next_var 4 (index + 1) s1 else s1 in
      (item width (read m.pa_var 8 s2) index, s2)

  unfoldable pub add : ℕ → ℕ → WrapArray → State → State
  add fresh val m s =
      let nexti = read m.next_var 4 s in
      let s1 = if nexti == read m.length_var 4 s then resize fresh nexti m s else s in
      write m.next_var 4 (nexti + 1) (write (item width (read m.pa_var 8 s1) nexti) width val s1)

  unfoldable pub get : ℕ → ℕ → WrapArray → State → ℕ × State
  get fresh index m s =
      let s1 = grow fresh index m s in (read (item width (read m.pa_var 8 s1) index) width s1, s1)

  unfoldable pub set : ℕ → ℕ → ℕ → WrapArray → State → State
  set fresh index value m s = let r = at_index fresh index m s in write r.0 width value r.1

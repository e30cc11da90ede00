-- ===== src/WrapMap.antt =====
-- include/WrapMap.h: the hash map in persistent memory, with keys and values of four bytes. The
-- chains are nodes that point to one another; all reads and writes are those of a wrap. A key is
-- the bit pattern of an int.
pub mod Chains
pub mod Frames
pub mod Laid
pub mod Sets
pub mod Links
pub mod News
pub mod Cuts
pub mod Runs
pub mod Starts
pub mod Maps
use softwrap.Prelude.{
  ℕ, zero, suc, ◌+◌, ◌-◌, ◌*◌, ◌/◌, ◌%◌, ◌^◌, ◌==◌, int_rem, offset, if◌then◌else◌, Run, ok,
  no_fuel, ◌>>=◌,
}
use softwrap.WrapImpl.{WrapMemory}

abbrev pub table_size : ℕ
table_size = 4096

-- The addresses of `_table` and `_size`.
pub record WrapMap : Type 0 where
  pub table_var : ℕ
  pub size_var : ℕ

-- Of an int and as an int.
abbrev pub hash_func : ℕ → ℕ
hash_func key = int_rem key table_size

-- `-1`
abbrev pub missing : ℕ
missing = 2 ^ 32 - 1

module _ (w : WrapMemory) where
  open w use {State, read, write}

  -- The members of a `HashNode` and of the map.
  abbrev pub key_of : ℕ → State → ℕ
  key_of entry s = read entry 4 s

  abbrev pub value_of : ℕ → State → ℕ
  value_of entry s = read (entry + 4) 4 s

  abbrev pub next_of : ℕ → State → ℕ
  next_of entry s = read (entry + 8) 8 s

  abbrev pub table_of : WrapMap → State → ℕ
  table_of m s = read m.table_var 8 s

  -- `for (int i = 0; i < size / sizeof(long); ++i)`, by the rounds left.
  unfoldable pub zero_slots : ℕ → ℕ → WrapMap → State → State
  zero_slots zero i m s = s
  zero_slots (suc n) i m s = zero_slots n (i + 1) m (write (table_of m s + 8 * i) 8 0 s)

  -- `table` is what pmalloc returned.
  unfoldable pub new_map : ℕ → ℕ → WrapMap → State → State
  unfolding zero_slots
  new_map table size m s =
      zero_slots (size / 8) 0 m (write m.size_var 4 size (write m.table_var 8 table s))

  unfoldable pub get_loop : ℕ → ℕ → ℕ → State → Run ℕ
  get_loop zero key entry s = no_fuel
  get_loop (suc fuel) key entry s =
      let rest = get_loop fuel key (next_of entry s) s in
      if entry == 0
      then ok missing
      else if key_of entry s == key
      then ok (value_of entry s)
      else rest

  unfoldable pub get : ℕ → ℕ → WrapMap → State → Run ℕ
  unfolding get_loop
  get fuel key m s = get_loop fuel key (read (offset (table_of m s) 8 (hash_func key)) 8 s) s

  -- The loop of `Put` and of `Remove`: `prev` and `entry` behind it.
  unfoldable pub find : ℕ → ℕ → ℕ → ℕ → State → Run (ℕ × ℕ)
  find zero key prev entry s = no_fuel
  find (suc fuel) key prev entry s =
      let rest = find fuel key entry (next_of entry s) s in
      if entry == 0
      then ok (prev, entry)
      else if key_of entry s == key
      then ok (prev, entry)
      else rest

  -- A new successor of `prev`, or of the table's slot.
  abbrev pub set_link : ℕ → ℕ → ℕ → WrapMap → State → State
  set_link prev hash entry m s =
      if prev == 0
      then write (offset (table_of m s) 8 hash) 8 entry s
      else write (prev + 8) 8 entry s

  -- `setKey`, `setValue` and `setNext` of a new node.
  abbrev pub new_node : ℕ → ℕ → ℕ → State → State
  new_node entry key value s =
      write (entry + 8) 8 0 (write (entry + 4) 4 value (write entry 4 key s))

  -- `fresh` is what pmalloc returns where it is called.
  unfoldable pub put : ℕ → ℕ → ℕ → ℕ → WrapMap → State → Run State
  unfolding find
  put fuel fresh key value m s =
      find fuel key 0 (read (offset (table_of m s) 8 (hash_func key)) 8 s) s >>= λ (r : ℕ × ℕ). ok (
        if r.1 == 0
        then set_link r.0 (hash_func key) fresh m (new_node fresh key value s)
        else write (r.1 + 4) 4 value s)

  -- `pfree` does nothing.
  unfoldable pub remove : ℕ → ℕ → WrapMap → State → Run State
  unfolding find
  remove fuel key m s =
      find fuel key 0 (read (offset (table_of m s) 8 (hash_func key)) 8 s) s >>= λ (r : ℕ × ℕ).
      ok (if r.1 == 0 then s else set_link r.0 (hash_func key) (next_of r.1 s) m s)

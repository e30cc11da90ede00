-- ===== src/Lfht.antt =====
-- src/main/LFHT.cpp: the open-addressing hash table, used by one thread. With `m_mt` set, the
-- compare-and-swap of a free key succeeds at once, so that both branches are one.
pub mod Scan
pub mod Probe
pub mod Items
pub mod Room
use softwrap.Prelude.{
  ℕ, zero, suc, ◌+◌, ◌-◌, ◌*◌, ◌/◌, ◌%◌, ◌^◌, bit_and, bit_xor, ltb, ◌==◌, if◌then◌else◌, Option,
  none, some, Run, ok, abort, no_fuel, ◌>>=◌,
}
use softwrap.Bloom.{Bloom, check_bloom, set_bloom, clear_bloom}

unfoldable pub integer_hash : ℕ → ℕ
integer_hash h =
    let h1 = bit_xor h (h / 2 ^ 2) in
    let h2 = h1 * 0x85ebca6b % 2 ^ 64 in
    let h3 = bit_xor h2 (h2 / 2 ^ 13) in
    let h4 = h3 * 0xc2b2ae35 % 2 ^ 64 in bit_xor h4 (h4 / 2 ^ 16)

pub record Entry : Type 0 where
  pub key : ℕ
  pub value : ℕ
  pub size : ℕ

-- `m_entries` by index; the code masks every index with `m_arraySize - 1`.
pub record Lfht : Type 0 where
  pub entries : ℕ → Entry
  pub array_size : ℕ
  pub num_items : ℕ
  pub bloom : Bloom

abbrev pub update : (ℕ → Entry) → ℕ → Entry → ℕ → Entry
update entries i e j = if j == i then e else entries j

abbrev pub empty_entry : Entry
empty_entry = record { key = 0; value = 0; size = 0 }

unfoldable pub clear : Lfht → Lfht
clear t = record t {
  entries = λ i. if ltb i t.array_size then empty_entry else t.entries i;
  bloom = clear_bloom t.bloom;
}

-- The constructor, on whatever `malloc` returned.
unfoldable pub new_lfht : (ℕ → Entry) → ℕ → Lfht
unfolding clear
new_lfht raw size =
    clear (record { entries = raw; array_size = size; num_items = 0; bloom = λ i. 0 })

-- `idx++` and `idx &= m_arraySize - 1` of the next round
abbrev pub mask : Lfht → ℕ → ℕ
mask t idx = bit_and idx (t.array_size - 1)

-- The value and the size under the key, zeros where a free entry ends the probe. `no_fuel` after
-- `m_arraySize` probes: every entry has been seen, and the code probes on for ever.
unfoldable pub get_loop : ℕ → Lfht → ℕ → ℕ → Run (ℕ × ℕ)
get_loop zero t key idx = no_fuel
get_loop (suc fuel) t key idx =
    let i = mask t idx in
    let probed = (t.entries i).key in
    let rest = get_loop fuel t key (i + 1) in
    if probed == key
    then ok ((t.entries i).value, (t.entries i).size)
    else if probed == 0
    then ok (0, 0)
    else rest

unfoldable pub get_item : Lfht → ℕ → Run (ℕ × ℕ)
unfolding get_loop
get_item t key = get_loop t.array_size t key (integer_hash key)

-- The index of the entry whose value's address is returned; `none` for the null pointer.
unfoldable pub address_loop : ℕ → Lfht → ℕ → ℕ → Run (Option ℕ)
address_loop zero t key idx = no_fuel
address_loop (suc fuel) t key idx =
    let i = mask t idx in
    let probed = (t.entries i).key in
    let rest = address_loop fuel t key (i + 1) in
    if probed == key then ok (some i) else if probed == 0 then ok none else rest

unfoldable pub get_item_address : (ℕ → ℕ) → Lfht → ℕ → Run (Option ℕ)
unfolding address_loop
get_item_address int_shift t key =
    if check_bloom int_shift t.bloom key
    then address_loop t.array_size t key (integer_hash key)
    else ok none

-- Storing value and size in entry i, under its key.
abbrev pub store_at : Lfht → ℕ → ℕ → ℕ → ℕ → Lfht
store_at t i key value size = record t {
  entries = update t.entries i (record { key = key; value = value; size = size });
}

-- `l` counts the probes; the assertion fails at the last one that could see a new entry.
unfoldable pub set_loop : ℕ → ℕ → Lfht → ℕ → ℕ → ℕ → ℕ → Run (ℕ × Lfht)
set_loop zero l t key value size idx = no_fuel
set_loop (suc fuel) l t key value size idx =
    let i = mask t idx in
    let probed = (t.entries i).key in
    let rest = set_loop fuel (l + 1) t key value size (i + 1) in
    if ltb (l + 1) t.array_size
    then (if probed == key
        then ok (i, store_at t i key value size)
        else if probed == 0
        then ok (i, store_at (record t { num_items = t.num_items + 1 }) i key value size)
        else rest)
    else abort

unfoldable pub set_item : (ℕ → ℕ) → Lfht → ℕ → ℕ → ℕ → Run (ℕ × Lfht)
unfolding set_loop
set_item int_shift t key value size =
    set_loop t.array_size 0 (record t { bloom = set_bloom int_shift t.bloom key }) key value size
      (integer_hash key)

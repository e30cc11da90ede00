-- ===== src/StoreBuffer.antt =====
-- src/main/memtool.c with MODELBUFFER: the ring of writes on their way to memory, each of which takes
-- `getSCMtwr()` nanoseconds. A write to a cache line that is in the ring is combined with it.
pub mod Pacing
pub mod Room
use softwrap.Prelude.{
  ℕ, zero, suc, ◌+◌, ◌-◌, ◌*◌, ◌/◌, ◌%◌, ◌^◌, Bool, true, false, ltb, ◌==◌, ◌&&◌, ◌||◌, not,
  if◌then◌else◌, Run, ok, abort, no_fuel, ◌>>=◌,
}

-- `dest` and `start` are the fields of `storeBuffer` by index, `twr` is `getSCMtwr()`.
pub record StoreBuffer : Type 0 where
  pub dest : ℕ → ℕ
  pub start : ℕ → ℕ
  pub head : ℕ
  pub tail : ℕ
  pub buff_size : ℕ
  pub twr : ℕ
  pub num_write_comb : ℕ

abbrev pub set_at : (ℕ → ℕ) → ℕ → ℕ → ℕ → ℕ
set_at f i v j = if j == i then v else f j

-- `(t - storeBuffer[i].startTime) > getSCMtwr()`; the difference is signed in the source, and `twr`
-- is not negative.
abbrev pub expired : StoreBuffer → ℕ → ℕ → Bool
expired b t i = ltb b.twr (t - b.start i)

abbrev pub drop_head : StoreBuffer → StoreBuffer
drop_head b = record b { dest = set_at b.dest b.head 0; head = (b.head + 1) % b.buff_size }

-- The `while` loop of `processBuffer`, entered with a ring that is not empty.
unfoldable pub process_loop : ℕ → ℕ → StoreBuffer → Run StoreBuffer
process_loop zero t b = no_fuel
process_loop (suc fuel) t b =
    let b' = drop_head b in
    let rest = process_loop fuel t b' in
    if expired b t b.head then (if b'.head == b'.tail then ok b' else rest) else ok b

unfoldable pub process_buffer : ℕ → StoreBuffer → Run StoreBuffer
unfolding process_loop
process_buffer t b = if b.head == b.tail then ok b else process_loop b.buff_size t b

-- The test of the loop over the ring that looks for the line.
abbrev pub combines : StoreBuffer → ℕ → ℕ → ℕ → Bool
combines b line l i = line == b.dest i && (not (i == b.head) || ltb l (b.start i + b.twr))

unfoldable pub combines_below : ℕ → StoreBuffer → ℕ → ℕ → Bool
combines_below zero b line l = false
combines_below (suc n) b line l = combines_below n b line l || combines b line l n

-- `while (((tail + 1) % BuffSize) == head)`; `clock` gives what `getNsTime` returns, call by call.
unfoldable pub wait_for_room : ℕ → (ℕ → ℕ) → ℕ → StoreBuffer → Run (ℕ × StoreBuffer)
wait_for_room zero clock l b = no_fuel
wait_for_room (suc fuel) clock l b =
    if (b.tail + 1) % b.buff_size == b.head
    then (process_buffer l b >>= λ b'. wait_for_room fuel (λ i. clock (suc i)) (clock 0) b')
    else ok (l, b)

abbrev pub before : StoreBuffer → ℕ
before b = if b.tail == 0 then b.buff_size - 1 else b.tail - 1

-- The start time of a write that is added at time `l`.
abbrev pub start_time : StoreBuffer → ℕ → ℕ
start_time b l =
    if b.head == b.tail
    then l
    else if ltb (l - b.start (before b)) b.twr
    then b.start (before b) + b.twr
    else l

unfoldable pub add_write : ℕ → ℕ → StoreBuffer → StoreBuffer
add_write line l b = record b {
  dest = set_at b.dest b.tail line;
  start = set_at b.start b.tail (start_time b l);
  tail = (b.tail + 1) % b.buff_size;
}

unfoldable pub streaming_store_delay : ℕ → (ℕ → ℕ) → ℕ → ℕ → StoreBuffer → Run StoreBuffer
unfolding combines_below wait_for_room add_write
streaming_store_delay fuel clock dest l b =
    let line = dest / 2 ^ 6 in
    if not (ltb 0 b.twr)
    then abort
    else if combines_below b.buff_size b line l
    then ok (record b { num_write_comb = b.num_write_comb + 1 })
    else (do (l', b') ← wait_for_room fuel clock l b; ok (add_write line l' b'))

-- `flushBuffer`
unfoldable pub flush_buffer : ℕ → (ℕ → ℕ) → StoreBuffer → Run StoreBuffer
flush_buffer zero clock b = no_fuel
flush_buffer (suc fuel) clock b =
    if b.head == b.tail
    then ok b
    else (process_buffer (clock 0) b >>= λ b'. flush_buffer fuel (λ i. clock (suc i)) b')

-- ===== src/Tests/Rings.antt =====
-- A ring of nine slots with two writes on their way.
use softwrap.Prelude.{ℕ, suc, ◌+◌, ◌*◌, ◌/◌, ◌^◌, ◌≡◌, ◌⊎◌, ◌==◌, if◌then◌else◌, arith, Returns}
use softwrap.StoreBuffer.Pacing.{IsBuffer, flush_buffer-Returns}
use softwrap.StoreBuffer.Room.{Combined, Queued, streaming_store_delay-Returns}
use softwrap.StoreBuffer.{StoreBuffer, flush_buffer, streaming_store_delay}

abbrev ring : StoreBuffer
ring = record {
  dest = λ i. i + 1;
  start = λ i. if i == 0 then 120 else 100;
  head = 8;
  tail = 1;
  buff_size = 9;
  twr = 20;
  num_write_comb = 0;
}

ring-IsBuffer : IsBuffer ring
ring-IsBuffer = record { head_below = omega arith; tail_below = omega arith }

-- The clock reads 0, 50, 100, 150 and so on.
abbrev clock : ℕ → ℕ
clock i = i * 50

flush_buffer-Returns_example :
    Returns (flush_buffer 5 clock ring) λ b'. (b'.head ≡ b'.tail) × IsBuffer b' × (b'.tail ≡ 1)
flush_buffer-Returns_example =
    flush_buffer-Returns 3 5 clock ring ring-IsBuffer (λ i. ground arith) (omega arith)

streaming_store_delay-Returns_example :
    Returns
      (streaming_store_delay 5 (λ i. clock (suc i)) 6400 (clock 0) ring)
      λ b'. Combined (6400 / 2 ^ 6) (clock 0) ring b' ⊎ Queued (6400 / 2 ^ 6) (clock 0) ring b'
streaming_store_delay-Returns_example =
    streaming_store_delay-Returns 3 5 clock 6400 ring ring-IsBuffer (omega arith) (omega arith)
      (λ i. ground arith) (omega arith)

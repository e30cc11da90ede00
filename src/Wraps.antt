-- ===== src/Wraps.antt =====
-- src/main/wrap.cpp and the statistics of src/main/WrapImpl.h: the calls of the program, with nested
-- wraps and streams, on software wraps.
pub mod Streams
use softwrap.Prelude.{
  ℕ, ◌+◌, ◌-◌, ◌*◌, ◌/◌, ◌%◌, ◌^◌, List, length, ltb, ◌==◌, if◌then◌else◌, Run, ok, abort, ◌>>=◌,
}
use softwrap.Scm.Bytes.{Mem, le}
use softwrap.Scm.{ntstore_bytes}
use softwrap.Software.{
  Software, wrap_impl_open, wrap_impl_close, wrap_impl_write, wrap_impl_store, wrap_impl_read,
}

pub record Stats : Type 0 where
  pub tot_wrap_open : ℕ
  pub tot_wrap_close : ℕ
  pub max_wrap_depth : ℕ
  pub tot_unique_wraps : ℕ
  pub tot_wrap_streams : ℕ
  pub tot_bytes_streamed : ℕ
  pub tot_wrap_read : ℕ
  pub tot_bytes_read : ℕ
  pub max_bytes_read : ℕ
  pub tot_wrap_write : ℕ
  pub tot_bytes_write : ℕ
  pub max_bytes_write : ℕ

unfoldable pub wrap_stat_open : Stats → Stats
wrap_stat_open s =
    let opened = s.tot_wrap_open + 1 in
    let depth = opened - s.tot_wrap_close in
    record s {
      tot_wrap_open = opened;
      max_wrap_depth = if ltb s.max_wrap_depth depth then depth else s.max_wrap_depth;
      tot_unique_wraps = if depth == 1 then s.tot_unique_wraps + 1 else s.tot_unique_wraps;
    }

unfoldable pub wrap_stat_close : Stats → Stats
wrap_stat_close s = record s { tot_wrap_close = s.tot_wrap_close + 1 }

unfoldable pub wrap_stat_stream : Stats → Stats
wrap_stat_stream s = record s { tot_wrap_streams = s.tot_wrap_streams + 1 }

unfoldable pub wrap_stat_stream_write : ℕ → Stats → Stats
wrap_stat_stream_write nbytes s = record s { tot_bytes_streamed = s.tot_bytes_streamed + nbytes }

unfoldable pub wrap_stat_read : ℕ → Stats → Stats
wrap_stat_read nbytes s = record s {
  tot_wrap_read = s.tot_wrap_read + 1;
  tot_bytes_read = s.tot_bytes_read + nbytes;
  max_bytes_read = if ltb s.max_bytes_read nbytes then nbytes else s.max_bytes_read;
}

unfoldable pub wrap_stat_write : ℕ → Stats → Stats
wrap_stat_write nbytes s = record s {
  tot_wrap_write = s.tot_wrap_write + 1;
  tot_bytes_write = s.tot_bytes_write + nbytes;
  max_bytes_write = if ltb s.max_bytes_write nbytes then nbytes else s.max_bytes_write;
}

-- `>>= 1` on an int of 32 bits, given as the unsigned number of its bits: the sign is kept.
abbrev pub shift_right : ℕ → ℕ
shift_right bits = if ltb bits (2 ^ 31) then bits / 2 else bits / 2 + 2 ^ 31

-- `stack` is `wrapStreamStack`, one bit for each open wrap: set for a stream.
pub record Wraps : Type 0 where
  pub n_wraps_open : ℕ
  pub stack : ℕ
  pub is_stream_open : ℕ
  pub top_token : ℕ
  pub stats : Stats
  pub impl : Software

unfoldable pub wrap_open : Wraps → Wraps
wrap_open s =
    let impl = wrap_impl_open s.impl in
    record s {
      n_wraps_open = s.n_wraps_open + 1;
      stack = s.stack * 2 % 2 ^ 32;
      is_stream_open = 0;
      top_token = impl.wrap_token;
      stats = wrap_stat_open s.stats;
      impl = impl;
    }

unfoldable pub wrap_close : Wraps → Run Wraps
wrap_close s =
    let s' = record s {
      n_wraps_open = s.n_wraps_open - 1;
      stack = shift_right s.stack;
      is_stream_open = shift_right s.stack % 2;
      stats = wrap_stat_close s.stats;
    } in
    if s.is_stream_open % 2 == 0
    then (wrap_impl_close s.impl >>= λ impl. ok (record s' { impl = impl }))
    else abort

-- The token that is returned is `top_token`.
unfoldable pub wrap_stream_open : Wraps → Wraps
wrap_stream_open s = record s {
  n_wraps_open = s.n_wraps_open + 1;
  stack = s.stack * 2 % 2 ^ 32 + 1;
  is_stream_open = 1;
  stats = wrap_stat_open (wrap_stat_stream s.stats);
}

unfoldable pub wrap_stream_close : Wraps → Run Wraps
wrap_stream_close s =
    if s.is_stream_open % 2 == 1
    then ok (record s {
      n_wraps_open = s.n_wraps_open - 1;
      stack = shift_right s.stack;
      is_stream_open = shift_right s.stack % 2;
      stats = wrap_stat_close s.stats;
    })
    else abort

-- A write of the open stream goes to memory at once.
abbrev pub stream_write : ℕ → List ℕ → Wraps → Wraps
stream_write ptr bytes s = record s {
  stats = wrap_stat_stream_write (length bytes) s.stats;
  impl = record s.impl { scm = ntstore_bytes ptr bytes s.impl.scm };
}

module _ (int_shift : ℕ → ℕ) where
  unfoldable pub wrap_write : ℕ → ℕ → List ℕ → ℕ → Wraps → Run Wraps
  wrap_write ptr src bytes w s =
      if s.is_stream_open == 0
      then (wrap_impl_write int_shift ptr src bytes w s.impl >>= λ impl.
          ok (record s { stats = wrap_stat_write (length bytes) s.stats; impl = impl }))
      else ok (stream_write ptr bytes s)

  -- `wrapStore64`, `Store32`, `Store16` and `StoreByte`, for a size of 8, 4, 2 and 1.
  unfoldable pub wrap_store : ℕ → ℕ → ℕ → ℕ → Wraps → Run Wraps
  wrap_store ptr value size w s =
      if s.is_stream_open == 0
      then (wrap_impl_store int_shift ptr value size w s.impl >>= λ impl.
          ok (record s { stats = wrap_stat_write size s.stats; impl = impl }))
      else ok (stream_write ptr (le size value) s)

  -- The buffer after the read, and the state. The loads are reads of 8, 4, 2 and 1 bytes.
  unfoldable pub wrap_read : ℕ → ℕ → Mem → Wraps → Mem × Wraps
  wrap_read src size out s = (
    wrap_impl_read int_shift src size s.impl out,
    record s { stats = wrap_stat_read size s.stats },
  )

-- ===== src/Tests/Wraps.antt =====
-- A whole wrap with three entries, on the state in which the library starts.
use softwrap.Lat.Wrap.{total}
use softwrap.LogBlock.{LogBlock}
use softwrap.Prelude.{[], ◌∷◌, ◌≡◌, inr, refl, none, arith, Returns, ◌>>=◌}
use softwrap.Software.Atomic.{Ready, unclosed, unclosed-Returns}
use softwrap.Software.Calls.{to_writes}
use softwrap.Software.{Software, wrap_impl_read}
use softwrap.Tests.Data.{
  scm, x86_shift, x86_shift-ShiftsToLowBit, lat, small_log, entries, entries-Fits,
}
use softwrap.WrapLogger.Entries.{replay}
use softwrap.Wraps.Streams.{Streamed, wrap_stream_close-Returns}
use softwrap.Wraps.{Stats, Wraps, wrap_stream_open, wrap_stream_close, wrap_write}

abbrev pub block : LogBlock
block = record {
  logs = λ i. small_log;
  log_size = 200;
  active_threads = 0;
  current_id = none;
  current_free = 0;
}

abbrev state : Software
state = record {
  last_token = 1;
  wrap_token = 0;
  num_open = 0;
  log = 0;
  block = block;
  table = lat;
  options = 2;
  scm = scm;
}

state-Ready : Ready x86_shift 9000 entries state
unfolding to_writes total
state-Ready = record {
  shifts = x86_shift-ShiftsToLowBit;
  none_open = refl;
  fits = entries-Fits;
  elsewhere = (omega arith, (omega arith, (omega arith, tt)));
  aligned = (refl, (refl, (refl, tt)));
  entries = omega arith;
  room = omega arith;
}

unclosed-Returns_example : Returns (unclosed x86_shift 9000 entries state) λ s'.
    (s'.scm.mem 5006 ≡ scm.mem 5006)
    × (wrap_impl_read x86_shift 5000 8 s' (λ i. 0) 6 ≡ replay entries scm.mem 5006)
unclosed-Returns_example =
    unclosed-Returns x86_shift 9000 entries state 5000 8 6 (λ i. 0) state-Ready refl (omega arith)
      (inr (omega arith))

abbrev inside : Software
inside = record state { wrap_token = 2; num_open = 1 }

abbrev no_stats : Stats
no_stats = record {
  tot_wrap_open = 1;
  tot_wrap_close = 0;
  max_wrap_depth = 1;
  tot_unique_wraps = 1;
  tot_wrap_streams = 0;
  tot_bytes_streamed = 0;
  tot_wrap_read = 0;
  tot_bytes_read = 0;
  max_bytes_read = 0;
  tot_wrap_write = 0;
  tot_bytes_write = 0;
  max_bytes_write = 0;
}

-- A wrap is open, with no stream.
abbrev nested : Wraps
nested = record {
  n_wraps_open = 1;
  stack = 0;
  is_stream_open = 0;
  top_token = 2;
  stats = no_stats;
  impl = inside;
}

wrap_stream_close-Returns_example :
    Returns
      (wrap_write x86_shift 7000 9000 (1 ∷ 2 ∷ []) 2 (wrap_stream_open nested)
        >>= wrap_stream_close)
      (Streamed 7000 (1 ∷ 2 ∷ []) nested)
wrap_stream_close-Returns_example =
    wrap_stream_close-Returns x86_shift 7000 9000 2 (1 ∷ 2 ∷ []) nested
      (record { top = refl; room = omega arith })

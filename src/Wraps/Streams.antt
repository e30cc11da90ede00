-- ===== src/Wraps/Streams.antt =====
-- A stream inside a wrap: its write is in memory at once and leaves the wrap as it was.
use softwrap.Prelude.{
  ℕ, ◌+◌, ◌*◌, ◌%◌, ◌^◌, ◌<◌, ◌≡◌, refl, sym, ap, ◌∙◌, List, arith, lt→ltb, Returns, ◌>>=◌,
}
use softwrap.Scm.Bytes.{write_bytes}
use softwrap.Scm.NtStore.{mem-ntstore_bytes}
use softwrap.Wraps.{Wraps, shift_right, wrap_stream_open, wrap_stream_close, wrap_write}

-- The top bit of the stack says whether a stream is open, and the stack has room for one wrap more.
pub record IsWraps (s : Wraps) : Type 0 where
  pub top : s.is_stream_open ≡ s.stack % 2
  pub room : s.stack < 2 ^ 30

-- What a stream with one write leaves.
pub record Streamed (ptr : ℕ) (bytes : List ℕ) (s s' : Wraps) : Type 0 where
  pub written : s'.impl.scm.mem ≡ write_bytes ptr bytes s.impl.scm.mem
  pub table : s'.impl.table ≡ s.impl.table
  pub block : s'.impl.block ≡ s.impl.block
  pub depth : s'.n_wraps_open ≡ s.n_wraps_open
  pub stack : s'.stack ≡ s.stack
  pub mode : s'.is_stream_open ≡ s.is_stream_open

-- A stream is opened, writes once and is closed, anywhere in the nesting of wraps: the calls end
-- normally, the bytes are in memory, the log and the table are untouched, and the nesting is as it
-- was.
pub wrap_stream_close-Returns :
    (int_shift : ℕ → ℕ) (ptr src w : ℕ) (bytes : List ℕ) (s : Wraps)
    → IsWraps s
    → Returns
        (wrap_write int_shift ptr src bytes w (wrap_stream_open s) >>= wrap_stream_close)
        (Streamed ptr bytes s)
unfolding wrap_write wrap_stream_open wrap_stream_close
wrap_stream_close-Returns int_shift ptr src w bytes s ready =
    let back : shift_right (s.stack * 2 % 2 ^ 32 + 1) ≡ s.stack =
      rw (lt→ltb (s.stack * 2 % 2 ^ 32 + 1) (2 ^ 31) (omega (arith, ready.room)))
        (omega (arith, ready.room)) in
    (
      _,
      refl,
      record {
        written = mem-ntstore_bytes ptr bytes s.impl.scm;
        table = refl;
        block = refl;
        depth = omega arith;
        stack = back;
        mode = ap (λ (x : ℕ). x % 2) back ∙ sym ready.top;
      },
    )

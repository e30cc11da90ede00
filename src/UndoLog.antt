-- ===== src/UndoLog.antt =====
-- src/main/WrapImplUndoLog.cpp and .h: wraps that write home at once, and log what was there before.
-- The objects that are written lie outside the log, and are not its source buffers.
pub mod Olds
pub mod Logged
pub mod Rollback
pub mod Committed
use softwrap.LogBlock.{LogBlock, with_log, get_wrap_log}
use softwrap.Prelude.{ℕ, ◌+◌, ◌-◌, List, length, ◌==◌, ◌||◌, if◌then◌else◌, Run, ok, abort, ◌>>=◌}
use softwrap.Scm.Bytes.{Mem, le, read_bytes, write_bytes}
use softwrap.Scm.{Scm, ntstore_bytes, p_msync}
use softwrap.WrapLogger.{Logger, wrap_log_open, wrap_log_close, add_wrap_log_entry}

-- `last_token` is `WOUL`, `log` the index of `_log` in the block.
pub record UndoLog : Type 0 where
  pub last_token : ℕ
  pub wrap_token : ℕ
  pub num_open : ℕ
  pub log : ℕ
  pub block : LogBlock
  pub scm : Scm

abbrev pub logger : UndoLog → Logger
logger s = s.block.logs s.log

abbrev pub with_logger : UndoLog → Logger × Scm → UndoLog
with_logger s (lg, st) = record s {
  block = record s.block { logs = with_log s.block.logs s.log lg };
  scm = st;
}

unfoldable pub open_first : UndoLog → UndoLog
open_first s =
    let token = s.last_token + 1 in
    let (index, block) = get_wrap_log s.block in
    let s1 = record s { last_token = token; wrap_token = token; log = index; block = block } in
    with_logger s1 (wrap_log_open token (logger s1, s1.scm))

-- The token that is returned is `wrap_token`; the block's `addLog` does nothing.
unfoldable pub wrap_impl_open : UndoLog → UndoLog
unfolding open_first
wrap_impl_open s =
    let s' = if s.num_open == 0 then open_first s else s in record s' { num_open = s'.num_open + 1 }

-- The block's `removeLog` does nothing; the option 99 prints.
unfoldable pub wrap_impl_close : UndoLog → Run UndoLog
wrap_impl_close s =
    let s' = record s { num_open = s.num_open - 1 } in
    let last = with_logger (record s' { wrap_token = 0 }) (wrap_log_close (logger s, s.scm)) in
    if s.wrap_token == 0 || s.num_open == 0
    then abort
    else if s.num_open - 1 == 0
    then ok last
    else ok s'

-- `addWrapLogEntry(ptr, ptr, size, w); p_msync(); ntstore(ptr, src, size);`
unfoldable pub logged_write : ℕ → List ℕ → ℕ → Logger × Scm → Run (Logger × Scm)
logged_write ptr bytes w (lg, st) = do
  (lg', st') ← add_wrap_log_entry ptr (read_bytes (length bytes) ptr st.mem) w (lg, st)
  ok (lg', ntstore_bytes ptr bytes (p_msync st'))

-- `bytes` is the content of the buffer at `src`.
unfoldable pub wrap_impl_write : ℕ → ℕ → List ℕ → ℕ → UndoLog → Run UndoLog
unfolding logged_write
wrap_impl_write ptr src bytes w s =
    let written = logged_write ptr bytes w (logger s, s.scm) >>= λ r. ok (with_logger s r) in
    if ptr == src then ok s else written

-- `wrapImplStore64`, `Store32`, `Store16` and `StoreByte`, for a size of 8, 4, 2 and 1.
unfoldable pub wrap_impl_store : ℕ → ℕ → ℕ → ℕ → UndoLog → Run UndoLog
unfolding logged_write
wrap_impl_store ptr value size w s =
    logged_write ptr (le size value) w (logger s, s.scm) >>= λ r. ok (with_logger s r)

-- The loads of 8, 4, 2 and 1 bytes read in the same way.
unfoldable pub wrap_impl_read : ℕ → ℕ → UndoLog → Mem → Mem
wrap_impl_read src size s out = write_bytes 0 (read_bytes size src s.scm.mem) out

-- ===== src/Software.antt =====
-- src/main/WrapImplSoftware.cpp: a wrap as the program sees it, on one thread that uses the alias
-- table LAT (`useReadInto` is 1) and the block of logs.
pub mod Calls
pub mod Atomic
use softwrap.Lat.{Lat, read_into, write, store, restore_to_cache_hierarchy, on_wrap_open}
use softwrap.LogBlock.{LogBlock, with_log, get_wrap_log}
use softwrap.Prelude.{
  ℕ, zero, suc, ◌+◌, ◌-◌, List, length, ◌==◌, ◌||◌, if◌then◌else◌, Run, ok, abort, ◌>>=◌,
}
use softwrap.Scm.Bytes.{Mem, le}
use softwrap.Scm.{Scm}
use softwrap.WrapLogger.{Logger, wrap_log_open, wrap_log_close, add_wrap_log_entry}

-- `last_token` is `WO`, `log` the index of `_log` in the block.
pub record Software : Type 0 where
  pub last_token : ℕ
  pub wrap_token : ℕ
  pub num_open : ℕ
  pub log : ℕ
  pub block : LogBlock
  pub table : Lat
  pub options : ℕ
  pub scm : Scm

abbrev pub logger : Software → Logger
logger s = s.block.logs s.log

-- The state after a call on the log.
abbrev pub with_logger : Software → Logger × Scm → Software
with_logger s (lg, st) = record s {
  block = record s.block { logs = with_log s.block.logs s.log lg };
  scm = st;
}

-- The state after a call on the table.
abbrev pub with_table : Software → Lat × Scm → Software
with_table s (t, st) = record s { table = t; scm = st }

-- The part of `wrapImplOpen` for the outermost wrap.
unfoldable pub open_first : Software → Software
open_first s =
    let token = s.last_token + 1 in
    let (index, block) = get_wrap_log s.block in
    let s1 = record s { last_token = token; wrap_token = token; log = index; block = block } in
    let s2 = with_logger s1 (wrap_log_open token (logger s1, s1.scm)) in
    record s2 { table = on_wrap_open s2.table }

-- The token that is returned is `wrap_token`.
unfoldable pub wrap_impl_open : Software → Software
unfolding open_first
wrap_impl_open s =
    let s' = if s.num_open == 0 then open_first s else s in record s' { num_open = s'.num_open + 1 }

-- The block's `addLog`, `restoreAllLogs` and `removeAllLogs` do nothing.
unfoldable pub cleanup : Software → Run Software
cleanup s =
    if s.options == 0
    then ok s
    else if s.options == 1
    then ok s
    else if s.options == 2
    then ok (with_table s (restore_to_cache_hierarchy s.table s.scm))
    else if s.options == 99
    then ok s
    else abort

unfoldable pub close_last : Software → Run Software
unfolding cleanup
close_last s =
    let s1 = with_logger s (wrap_log_close (logger s, s.scm)) in
    let s2 = with_table s1 (restore_to_cache_hierarchy s1.table s1.scm) in
    cleanup (record s2 { wrap_token = 0 })

unfoldable pub wrap_impl_close : Software → Run Software
unfolding close_last
wrap_impl_close s =
    let s' = record s { num_open = s.num_open - 1 } in
    if s.wrap_token == 0 || s.num_open == 0
    then abort
    else if s.num_open - 1 == 0
    then close_last s'
    else ok s'

module _ (int_shift : ℕ → ℕ) where
  -- `bytes` is the content of the buffer at `src`.
  unfoldable pub wrap_impl_write : ℕ → ℕ → List ℕ → ℕ → Software → Run Software
  wrap_impl_write ptr src bytes w s =
      let added = add_wrap_log_entry ptr bytes w (logger s, s.scm) in
      if ptr == src then ok s else (do
        r ← added
        t ← write int_shift ptr bytes s.table
        ok (record (with_logger s r) { table = t }))

  -- `wrapImplStore64`, `Store32`, `Store16` and `StoreByte`, for a size of 8, 4, 2 and 1.
  unfoldable pub wrap_impl_store : ℕ → ℕ → ℕ → ℕ → Software → Run Software
  wrap_impl_store ptr value size w s = do
    r ← add_wrap_log_entry ptr (le size value) w (logger s, s.scm)
    t ← store int_shift ptr value size s.table
    ok (record (with_logger s r) { table = t })

  -- The loads of 8, 4, 2 and 1 bytes read into a local variable in the same way.
  unfoldable pub wrap_impl_read : ℕ → ℕ → Software → Mem → Mem
  wrap_impl_read src size s out = read_into int_shift s.table src size s.scm.mem out

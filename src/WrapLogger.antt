-- ===== src/WrapLogger.antt =====
-- src/main/WrapLogger.cpp, WrapLogger.h: one log of a wrap in persistent memory. A header of 20
-- bytes (size, continuation pointer, wrap id, flag), then the entries.
pub mod Entries
pub mod Adding
pub mod Restoring
pub mod Session
pub mod Recovery
pub mod Crash
pub mod Bounds
pub mod FourBytes
use softwrap.Prelude.{
  ℕ, zero, suc, ◌+◌, ◌*◌, ◌/◌, ◌%◌, ◌^◌, Bool, true, List, [], ◌∷◌, length, ltb, leb, ◌==◌, not,
  if◌then◌else◌, Run, ok, abort, no_fuel, ◌>>=◌,
}
use softwrap.Scm.{Scm, ntstore, ntstore_bytes, p_msync}
use softwrap.Scm.Bytes.{Mem, le, load}

-- The object's fields; addresses and sizes are in bytes.
pub record Logger : Type 0 where
  pub log : ℕ
  pub current : ℕ
  pub size_of_log : ℕ
  pub wrap_id : ℕ
  pub flag_entry : ℕ

-- The constructor on an area at `ptr`.
unfoldable pub new_logger : ℕ → ℕ → Scm → Logger × Scm
new_logger size ptr st = (
  record { log = ptr; current = ptr + 20; size_of_log = size; wrap_id = 0; flag_entry = 0 },
  ntstore_bytes (ptr + 16) (le 4 0) (
      ntstore_bytes (ptr + 12) (le 4 0)
        (ntstore_bytes (ptr + 4) (le 8 0) (ntstore_bytes ptr (le 4 size) st))),
)

-- `if (_flagEntry & 1) _flagEntry = 0; else _flagEntry = 1;`
abbrev pub next_flag : ℕ → ℕ
next_flag flag = if flag % 2 == 1 then 0 else 1

unfoldable pub wrap_log_open : ℕ → Logger × Scm → Logger × Scm
wrap_log_open w (lg, st) =
    let flag = next_flag lg.flag_entry in
    (
      record lg { current = lg.log + 20; wrap_id = w; flag_entry = flag },
      ntstore_bytes (lg.log + 12) (le 4 w) (ntstore_bytes (lg.log + 16) (le 4 flag) st),
    )

-- `_flagEntry |= 2`
abbrev pub or_two : ℕ → ℕ
or_two flag = if flag / 2 % 2 == 1 then flag else flag + 2

unfoldable pub wrap_log_close : Logger × Scm → Logger × Scm
wrap_log_close (lg, st) =
    let flag = or_two lg.flag_entry in
    (
      record lg { flag_entry = flag },
      p_msync (
          ntstore_bytes (lg.log + 16) (le 4 flag)
            (ntstore_bytes (lg.current + 8) (le 8 0) (ntstore_bytes lg.current (le 8 0) st))),
    )

-- The header of an entry: for four bytes the code streams eight bytes *from* the address
-- `ptr + (flag & 1)`, for any other size the mask and the address.
unfoldable pub add_header : ℕ → ℕ → Logger × Scm → Logger × Scm
add_header ptr size (lg, st) =
    if size == 4
    then (record lg { current = lg.current + 8 }, ntstore lg.current (ptr + lg.flag_entry % 2) 8 st)
    else (
      record lg { current = lg.current + 4 + 8 },
      ntstore_bytes (lg.current + 4) (le 8 ptr)
          (ntstore_bytes lg.current (le 4 (size * 4 + 2 + lg.flag_entry % 2)) st),
    )

-- `ntstore(_currentLocation, src, size); _currentLocation += size;`
unfoldable pub add_payload : List ℕ → Logger × Scm → Logger × Scm
add_payload src (lg, st) =
    (record lg { current = lg.current + length src }, ntstore_bytes lg.current src st)

-- `src` is the content of the source buffer, `size` bytes.
unfoldable pub add_wrap_log_entry : ℕ → List ℕ → ℕ → Logger × Scm → Run (Logger × Scm)
unfolding add_header add_payload
add_wrap_log_entry ptr src w (lg, st) =
    if not (w == lg.wrap_id)
    then abort
    else if not (ltb lg.flag_entry 2)
    then abort
    else if not (ltb (lg.current + 12 + length src) (lg.log + lg.size_of_log))
    then abort
    else ok (add_payload src (add_header ptr (length src) (lg, st)))

unfoldable pub is_wrap_log_complete : ℕ → Mem → Bool
is_wrap_log_complete log m = load 4 (log + 16) m / 2 % 2 == 1

-- `while (1)` over the entries. A size with the sign bit set, which no entry written by
-- `add_wrap_log_entry` has, is outside the model and counts as a fault.
unfoldable pub restore_loop : ℕ → ℕ → ℕ → ℕ → Scm → Run (ℕ × Scm)
restore_loop zero flag current num st = no_fuel
restore_loop (suc fuel) flag current num st =
    let i = load 4 current st.mem in
    let dest = load 8 (current + 4) st.mem in
    let rest =
      restore_loop fuel flag (current + 4 + (8 + i / 4)) (num + 1)
        (ntstore dest (current + 4 + 8) (i / 4) st) in
    if i % 2 == flag
    then (if dest == 0 then ok (num, st) else if leb (2 ^ 31) i then abort else rest)
    else ok (num, st)

-- The number of entries that were restored, and the memory after it.
unfoldable pub restore_wrap_log_entries : ℕ → ℕ → Scm → Run (ℕ × Scm)
unfolding restore_loop is_wrap_log_complete
restore_wrap_log_entries fuel log st =
    if is_wrap_log_complete log st.mem
    then (do
      let flag = load 4 (log + 16) st.mem % 2
      (num, st') ← restore_loop fuel flag (log + 20) 0 st
      ok (
        num,
        p_msync (
            ntstore_bytes (log + 12) (le 4 0) (ntstore_bytes (log + 16) (le 4 flag) (p_msync st'))),
      ))
    else abort

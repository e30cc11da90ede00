-- ===== src/WrapLogger/Adding.antt =====
-- What `add_wrap_log_entry`, and a run of it between open and close, leave in memory.
use softwrap.Prelude.{
  ℕ, ◌+◌, ◌*◌, ◌%◌, ◌<◌, ◌≡◌, ◌≢◌, refl, ap, ◌∙◌, List, [], ◌∷◌, ◌++◌, length, length-append, arith,
  lt→ltb, ==_refl, ne→==_false, Run, ok, ◌>>=◌,
}
use softwrap.Scm.Bytes.{write_bytes, write_bytes-append, le, length-le}
use softwrap.Scm.NtStore.{mem-ntstore_bytes}
use softwrap.Scm.{Scm}
use softwrap.WrapLogger.Entries.{Entry, encode, encode_all, length-encode, All}
use softwrap.WrapLogger.{Logger, add_header, add_payload, add_wrap_log_entry}

abbrev pub advanced : Logger → ℕ → Logger
advanced lg n = record lg { current = lg.current + n }

-- The guards let an entry of a matching token pass that fits before the end of the log.
add_passes :
    (ptr : ℕ) (src : List ℕ) (lg : Logger) (st : Scm)
    → lg.flag_entry < 2
    → lg.current + 12 + length src < lg.log + lg.size_of_log
    → add_wrap_log_entry ptr src lg.wrap_id (lg, st)
      ≡ ok (add_payload src (add_header ptr (length src) (lg, st)))
unfolding add_wrap_log_entry
add_passes ptr src lg st flag fits =
    rw (==_refl lg.wrap_id, lt→ltb lg.flag_entry 2 flag, lt→ltb _ _ fits)

add_state :
    (ptr : ℕ) (src : List ℕ) (lg : Logger) (st : Scm)
    → length src ≢ 4
    → (add_payload src (add_header ptr (length src) (lg, st))).0 ≡ advanced lg (12 + length src)
unfolding add_payload add_header
add_state ptr src lg st h =
    let e : lg.current + 4 + 8 + length src ≡ lg.current + (12 + length src) = omega arith in
    rw (ne→==_false (length src) 4 h) (rw e)

add_memory :
    (ptr : ℕ) (src : List ℕ) (lg : Logger) (st : Scm)
    → length src ≢ 4
    → lg.flag_entry < 2
    → (add_payload src (add_header ptr (length src) (lg, st))).1.mem
      ≡ write_bytes lg.current (encode lg.flag_entry (record { dest = ptr; bytes = src })) st.mem
unfolding add_payload add_header encode
add_memory ptr src lg st h flag =
    let f : lg.flag_entry % 2 ≡ lg.flag_entry = omega arith in
    let mask = le 4 (length src * 4 + 2 + lg.flag_entry) in
    rw (ne→==_false (length src) 4 h) (
      rw
        (
          f,
          mem-ntstore_bytes (lg.current + 4 + 8) src _,
          mem-ntstore_bytes (lg.current + 4),
          mem-ntstore_bytes lg.current,
        )
        (rw (
          write_bytes-append lg.current mask,
          length-le 4 (length src * 4 + 2 + lg.flag_entry),
          write_bytes-append (lg.current + 4) (le 8 ptr),
          length-le 8 ptr,
        )))

-- An entry that is not of four bytes, added under the log's token where it fits, appends its
-- encoding at the current position and moves the position behind it.
pub add_lem :
    (e : Entry) (lg : Logger) (st : Scm)
    → length e.bytes ≢ 4
    → lg.flag_entry < 2
    → lg.current + 12 + length e.bytes < lg.log + lg.size_of_log
    → (st' : Scm) × (add_wrap_log_entry e.dest e.bytes lg.wrap_id (lg, st)
        ≡ ok (advanced lg (12 + length e.bytes), st'))
      × (st'.mem ≡ write_bytes lg.current (encode lg.flag_entry e) st.mem)
add_lem e lg st h flag fits =
    let s = add_payload e.bytes (add_header e.dest (length e.bytes) (lg, st)) in
    let moved = ap (λ (l : Logger). ok (l, s.1)) (add_state e.dest e.bytes lg st h) in
    (s.1, add_passes e.dest e.bytes lg st flag fits ∙ moved, add_memory e.dest e.bytes lg st h flag)

-- The calls of `addWrapLogEntry` between open and close.
unfoldable pub log_all : List Entry → ℕ → Logger × Scm → Run (Logger × Scm)
log_all [] w s = ok s
log_all (e ∷ es) w s = add_wrap_log_entry e.dest e.bytes w s >>= log_all es w

-- A run of calls moves the position behind the entries, and leaves their encoding there.
pub log_all_lem :
    (es : List Entry) (lg : Logger) (st : Scm)
    → lg.flag_entry < 2
    → All (λ e. length e.bytes ≢ 4) es
    → lg.current + length (encode_all lg.flag_entry es) < lg.log + lg.size_of_log
    → (st' : Scm) × (log_all es lg.wrap_id (lg, st)
        ≡ ok (advanced lg (length (encode_all lg.flag_entry es)), st'))
      × (st'.mem ≡ write_bytes lg.current (encode_all lg.flag_entry es) st.mem)
unfolding log_all encode_all
log_all_lem [] lg st flag sizes fits =
    let e : lg.current + 0 ≡ lg.current = omega arith in (st, rw e, unfold write_bytes in refl)
log_all_lem (e ∷ es) lg st flag sizes fits =
    let f = lg.flag_entry in
    let n = length-append (encode f e) (encode_all f es) in
    let k = length-encode f e in
    let (st1, run1, mem1) = add_lem e lg st sizes.0 flag (omega (arith, n, k)) in
    let (st2, run2, mem2) =
      log_all_lem es (advanced lg (12 + length e.bytes)) st1 flag sizes.1 (omega (arith, n, k)) in
    let far : lg.current + (12 + length e.bytes) + length (encode_all f es)
        ≡ lg.current + length (encode f e ++ encode_all f es) =
      omega (arith, n, k) in
    (st2, rw run1 (run2 ∙ rw far), mem2 ∙ rw (write_bytes-append lg.current (encode f e), mem1, k))

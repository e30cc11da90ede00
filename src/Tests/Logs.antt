-- ===== src/Tests/Logs.antt =====
-- A log of 200 bytes at 1000, and the copies of memory.
use softwrap.Prelude.{
  leb, ltb, ◌&&◌, ℕ, ◌+◌, ◌≡◌, refl, inl, inr, [], ◌∷◌, length, arith, ok, abort,
}
use softwrap.Scm.Bytes.{put, read_bytes, write_bytes}
use softwrap.Scm.NtStore.{mem-ntstore}
use softwrap.Scm.{Scm, ntstore}
use softwrap.Tests.Data.{small_log, entries, entries-Fits, scm}
use softwrap.WrapLogger.Adding.{log_all}
use softwrap.WrapLogger.Bounds.{close-overruns}
use softwrap.WrapLogger.Crash.{Untouched, restore_torn}
use softwrap.WrapLogger.Session.{session-Closed, session}
use softwrap.WrapLogger.Recovery.{Recovered, landed_only, restore-session, restore-log_all}
use softwrap.WrapLogger.{
  Logger, wrap_log_open, wrap_log_close, add_wrap_log_entry, restore_wrap_log_entries,
}

mem-ntstore_example :
    (ntstore 100 200 7 scm).mem ≡ write_bytes 100 (read_bytes 7 200 scm.mem) scm.mem
mem-ntstore_example = mem-ntstore 100 200 7 scm (inr (inl (omega arith)))

restore-session_example :
    (s : Logger × Scm) × (session 7 entries (small_log, scm) ≡ ok s)
    × ((r : ℕ × Scm) × (restore_wrap_log_entries (length entries + 1) 1000 s.1 ≡ ok r)
        × Recovered small_log entries scm.mem r)
restore-session_example = restore-session 7 entries small_log scm entries-Fits

-- Only the flag has reached memory.
restore-log_all_example :
    (s : Logger × Scm) × (log_all entries 7 (wrap_log_open 7 (small_log, scm)) ≡ ok s)
    × (restore_wrap_log_entries 100 1000
          (record s.1 { mem = landed_only (λ a. leb 1016 a && ltb a 1020) s.1.mem scm.mem })
        ≡ abort)
restore-log_all_example =
    restore-log_all 7 entries small_log scm 100 (λ a. leb 1016 a && ltb a 1020) scm.mem entries-Fits
      (λ a lo hi. ground (arith, lo, hi))

-- The state after the close, and one in which a part of the first entry has been written home.
abbrev closed : Logger × Scm
closed = (session-Closed 7 entries small_log scm entries-Fits).0

abbrev half_written : Scm
half_written = record closed.1 { mem = put closed.1.mem 5003 4 }

half_written_lem : (a : ℕ) → Untouched entries a → half_written.mem a ≡ closed.1.mem a
half_written_lem a (free, others) = ground arith

restore_torn_example :
    (r : ℕ × Scm) × (restore_wrap_log_entries (length entries + 1) 1000 half_written ≡ ok r)
    × Recovered small_log entries scm.mem r
restore_torn_example =
    restore_torn 7 entries small_log scm closed half_written entries-Fits
      (session-Closed 7 entries small_log scm entries-Fits).1 half_written_lem

-- The log with 20 bytes left, an entry of which takes 14.
abbrev late : Logger
late = record { log = 1000; current = 1180; size_of_log = 200; wrap_id = 7; flag_entry = 1 }

close-overruns_example :
    (s : Logger × Scm) × (add_wrap_log_entry 5000 (3 ∷ 4 ∷ []) 7 (late, scm) ≡ ok s)
    × ((wrap_log_close s).1.mem 1203 ≡ 0)
close-overruns_example =
    close-overruns (record { dest = 5000; bytes = 3 ∷ 4 ∷ [] }) late scm 1203 (omega arith)
      (omega arith) (omega arith) (omega arith) (omega arith) (omega arith)

same_bytes : read_bytes 8 5121 scm.mem ≡ read_bytes 8 6145 scm.mem
unfolding read_bytes
same_bytes = refl

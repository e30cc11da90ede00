-- ===== src/Tests/Queues.antt =====
-- Two closed logs in a queue, whose wraps write at common addresses.
use softwrap.LogQueue.Replays.{Closed, replay_all, restore_all_logs-replay}
use softwrap.LogQueue.{restore_all_logs}
use softwrap.Prelude.{◌≡◌, ◌≤◌, inl, inr, List, [], ◌∷◌, arith, Returns}
use softwrap.Scm.Bytes.{le}
use softwrap.Scm.{Scm}
use softwrap.Tests.Data.{small_log, entries, entries-Fits, entry-IsSound, double, scm}
use softwrap.WrapLogger.Crash.{Sealed-congr}
use softwrap.WrapLogger.Entries.{IsSound, Entry, encode_all, encode}
use softwrap.WrapLogger.Session.{Fits, session-Closed}
use softwrap.WrapLogger.{Logger}

abbrev next_log : Logger
next_log = record small_log { log = 2000; current = 2020 }

abbrev next_entries : List Entry
next_entries = record { dest = 5006; bytes = 11 ∷ 12 ∷ 13 ∷ [] } ∷ []

away : (e : Entry) → IsSound 1000 216 e → 2216 ≤ e.dest → IsSound 2000 216 e
away e sound far = record {
  not_four = sound.not_four;
  small = sound.small;
  not_null = sound.not_null;
  address = sound.address;
  apart = inr (omega arith);
}

next_entries-Fits : Fits next_log next_entries
unfolding encode_all encode le
next_entries-Fits = record {
  sound = (
    away (record { dest = 5006; bytes = 11 ∷ 12 ∷ 13 ∷ [] })
        (entry-IsSound 5006 (11 ∷ 12 ∷ 13 ∷ []) (omega arith) (omega arith) (omega arith)
          (omega arith))
        (omega arith),
    tt,
  );
  room = omega arith;
}

abbrev first : Closed
first = record { logger = small_log; entries = entries }

abbrev second : Closed
second = record { logger = next_log; entries = next_entries }

abbrev one_closed : Scm
one_closed = (session-Closed 7 entries small_log scm entries-Fits).0.1

abbrev both_closed : Scm
both_closed = (session-Closed 8 next_entries next_log one_closed next_entries-Fits).0.1

restore_all_logs-replay_example :
    Returns (restore_all_logs 4 (record { size = 200; queue = 1000 ∷ 2000 ∷ [] }, both_closed)) λ r.
      (r.0 ≡ 2)
      × (r.1.0.queue ≡ [])
      × (r.1.1.mem 5006 ≡ replay_all (first ∷ second ∷ []) both_closed.mem 5006)
restore_all_logs-replay_example =
    let one = (session-Closed 7 entries small_log scm entries-Fits).2 in
    let two = (session-Closed 8 next_entries next_log one_closed next_entries-Fits).2 in
    restore_all_logs-replay (first ∷ second ∷ []) 4 200 both_closed 5006 (omega arith)
      (
        omega arith,
        entries-Fits,
        Sealed-congr small_log entries one_closed.mem both_closed.mem entries-Fits
            (λ a lo hi. two.kept a (inl (omega arith))) one.sealed,
        (
          record {
            logs = inl (omega arith);
            entries = (
              away (record { dest = 5000; bytes = double }) entries-Fits.sound.0 (omega arith),
              (
                away (record { dest = 6000; bytes = 9 ∷ 8 ∷ [] }) entries-Fits.sound.1.0
                    (omega arith),
                (
                  away (record { dest = 5004; bytes = 7 ∷ [] }) entries-Fits.sound.1.1.0
                      (omega arith),
                  tt,
                ),
              ),
            );
          },
          tt,
        ),
        (omega arith, next_entries-Fits, two.sealed, tt, tt),
      )
      (inr (omega arith), (inr (omega arith), tt))

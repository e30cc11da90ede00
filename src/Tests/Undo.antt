-- ===== src/Tests/Undo.antt =====
-- A wrap with two entries on the undo log.
use softwrap.Prelude.{[], ◌∷◌, ◌≡◌, List, inr, refl, arith, abort, Returns}
use softwrap.Scm.Bytes.{read_bytes, le}
use softwrap.Tests.Data.{scm, small_log, double, entry-IsSound}
use softwrap.Tests.Wraps.{block}
use softwrap.UndoLog.Committed.{Ready, unclosed, restore-unclosed}
use softwrap.UndoLog.Olds.{olds}
use softwrap.UndoLog.Rollback.{FitsOlds}
use softwrap.UndoLog.{UndoLog}
use softwrap.WrapLogger.Entries.{Entry, encode, encode_all, replay}
use softwrap.WrapLogger.{restore_wrap_log_entries}

abbrev state : UndoLog
state = record { last_token = 1; wrap_token = 0; num_open = 0; log = 0; block = block; scm = scm }

abbrev pair : List Entry
pair = record { dest = 5000; bytes = double } ∷ record { dest = 6000; bytes = 9 ∷ 8 ∷ [] } ∷ []

pair-Fits : FitsOlds small_log pair scm.mem
unfolding encode_all encode olds read_bytes le
pair-Fits = record {
  sound = (
    entry-IsSound 5000 double (omega arith) (omega arith) (omega arith) (omega arith),
    (entry-IsSound 6000 (9 ∷ 8 ∷ []) (omega arith) (omega arith) (omega arith) (omega arith), tt),
  );
  room = omega arith;
}

state-Ready : Ready 9000 pair state
state-Ready = record {
  none_open = refl;
  fits = pair-Fits;
  elsewhere = (omega arith, (omega arith, tt));
}

restore-unclosed_example : Returns (unclosed 9000 pair state) λ s'.
    (s'.scm.mem 5003 ≡ replay pair scm.mem 5003) × (restore_wrap_log_entries 7 1000 s'.scm ≡ abort)
restore-unclosed_example = restore-unclosed 9000 pair state state-Ready 7 5003 (inr (omega arith))

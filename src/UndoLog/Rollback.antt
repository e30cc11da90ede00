-- ===== src/UndoLog/Rollback.antt =====
-- A log of old values from open to close, and its recovery.
use softwrap.Prelude.{
  ℕ, ◌+◌, ◌≤◌, ◌<◌, ◌≡◌, ◌⊎◌, inl, ◌∙◌, List, ◌++◌, length, length-append, arith, ok,
}
use softwrap.Scm.Bytes.{
  Holds_congr, Mem, Holds, Holds-join, Holds-write_self, Holds-write_other, write_bytes_outside, le,
  length-le,
}
use softwrap.Scm.{Scm}
use softwrap.UndoLog.Logged.{log_olds, log_olds_lem}
use softwrap.UndoLog.Olds.{olds, olds_congr}
use softwrap.WrapLogger.Adding.{advanced}
use softwrap.WrapLogger.Entries.{Entry, IsSound, encode_all, replay, replay_congr, All}
use softwrap.WrapLogger.Restoring.{terminator}
use softwrap.WrapLogger.Session.{Sealed, mem-open, mem-close, next_flag-lt}
use softwrap.WrapLogger.{Logger, next_flag, wrap_log_open, wrap_log_close}

abbrev pub Outside : Logger → ℕ → Type 0
Outside lg a = (a < lg.log) ⊎ (lg.log + lg.size_of_log + 16 ≤ a)

-- The entries can be logged, and their old values fit the log.
pub record FitsOlds (lg : Logger) (es : List Entry) (m : Mem) : Type 0 where
  pub sound : All (IsSound lg.log (lg.size_of_log + 16)) es
  pub room : 20 + length (encode_all (next_flag lg.flag_entry) (olds es m)) < lg.size_of_log

-- The state before the close.
pub record Pending (lg : Logger) (es : List Entry) (m k : Mem) : Type 0 where
  pub home : (a : ℕ) → Outside lg a → k a ≡ replay es m a
  pub logged : Holds k (lg.log + 20) (encode_all (next_flag lg.flag_entry) (olds es m))
  pub flagged : Holds k (lg.log + 16) (le 4 (next_flag lg.flag_entry))

pub pending_lem :
    (w : ℕ) (es : List Entry) (lg : Logger) (st : Scm)
    → FitsOlds lg es st.mem
    → let flag = next_flag lg.flag_entry in
      (st' : Scm) × (log_olds es w (wrap_log_open w (lg, st))
        ≡ ok (
          advanced (wrap_log_open w (lg, st)).0 (length (encode_all flag (olds es st.mem))),
          st',
        ))
      × Pending lg es st.mem st'.mem
unfolding wrap_log_open
pending_lem w es lg st fits =
    let (lg1, st1) = wrap_log_open w (lg, st) in
    let flag = next_flag lg.flag_entry in
    let outside : (a : ℕ) → Outside lg a → st1.mem a ≡ st.mem a = λ a h. rw (mem-open w lg st) (
      write_bytes_outside (lg.log + 12) (le 4 w) _ a (omega (arith, length-le 4 w, fits.room))
      ∙ write_bytes_outside (lg.log + 16) (le 4 flag) st.mem a
          (omega (arith, length-le 4 flag, fits.room))) in
    let same : olds es st1.mem ≡ olds es st.mem =
      olds_congr lg.log (lg.size_of_log + 16) es st1.mem st.mem fits.sound
        (λ a h. outside a (omega arith)) in
    let (st2, run, wrote) =
      log_olds_lem es lg1 st1 (lg.size_of_log + 16) (next_flag-lt lg.flag_entry) (omega arith)
        (omega arith) fits.sound (rw same (omega (arith, fits.room))) in
    let marked : Holds st1.mem (lg.log + 16) (le 4 flag) = rw (mem-open w lg st) (
      Holds-write_other (lg.log + 12) (le 4 w) _ (lg.log + 16) (le 4 flag)
        (omega (arith, length-le 4 w)) (Holds-write_self (lg.log + 16) _ _)) in
    (
      st2,
      rw same at run,
      record {
        home = λ a h. wrote.home a (omega arith) ∙ replay_congr es st1.mem st.mem a (outside a h);
        logged = rw same at wrote.logged;
        flagged =
            Holds_congr st1.mem st2.mem (lg.log + 16) (le 4 flag)
              (λ a p q.
                wrote.kept a (omega arith) (omega (arith, length-le 4 flag, fits.room))
                  (inl (omega (arith, length-le 4 flag))))
              marked;
      },
    )

-- The close seals the old values and leaves memory outside the log.
pub closed_lem :
    (es : List Entry) (lg lg' : Logger) (m : Mem) (st : Scm)
    → let flag = next_flag lg.flag_entry in
      lg'.log ≡ lg.log
      → lg'.flag_entry ≡ flag
      → lg'.current ≡ lg.log + 20 + length (encode_all flag (olds es m))
      → 20 + length (encode_all flag (olds es m)) < lg.size_of_log
      → Pending lg es m st.mem
      → Sealed lg (olds es m) (wrap_log_close (lg', st)).1.mem
        × ((a : ℕ) → Outside lg a → (wrap_log_close (lg', st)).1.mem a ≡ st.mem a)
closed_lem es lg lg' m st start bit at room p =
    let flag = next_flag lg.flag_entry in
    let lt = next_flag-lt lg.flag_entry in
    let enc = encode_all flag (olds es m) in
    let end : length terminator ≡ 16 = rw (length-append (le 8 0), length-le 8 0) in
    let span = length-append enc terminator in
    let mark = length-le 4 (flag + 2) in
    rw (mem-close lg' st (omega (arith, bit, lt))) (
      rw (start, bit, at)
        (
          record {
            marked = Holds-write_self (lg.log + 16) _ _;
            entries =
                Holds-write_other (lg.log + 16) (le 4 (flag + 2)) _ (lg.log + 20)
                  (enc ++ terminator) (omega (arith, mark))
                  (Holds-join _ (lg.log + 20) enc terminator
                    (Holds-write_other (lg.log + 20 + length enc) terminator st.mem (lg.log + 20)
                      enc (omega arith) p.logged)
                    (Holds-write_self (lg.log + 20 + length enc) terminator st.mem));
          },
          λ a h.
              write_bytes_outside (lg.log + 16) (le 4 (flag + 2)) _ a (omega (arith, mark))
              ∙ write_bytes_outside (lg.log + 20 + length enc) terminator st.mem a
                  (omega (arith, end)),
        ))

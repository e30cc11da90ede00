-- ===== src/WrapLogger/Session.antt =====
-- A whole session of a log, open, entries, close, and its recovery.
use softwrap.Prelude.{
  ℕ, ◌+◌, ◌≤◌, ◌<◌, ◌≡◌, ◌≢◌, ◌⊎◌, ◌∙◌, List, [], ◌∷◌, ◌++◌, length, length-append, arith, Run, ok,
  ◌>>=◌,
}
use softwrap.Scm.Bytes.{
  Mem, Holds, Holds-write_self, Holds-write_other, write_bytes, write_bytes-append,
  write_bytes_outside, le, length-le,
}
use softwrap.Scm.NtStore.{mem-ntstore_bytes}
use softwrap.Scm.{Scm, p_msync}
use softwrap.WrapLogger.Adding.{advanced, log_all, log_all_lem}
use softwrap.WrapLogger.Entries.{Entry, IsSound, encode_all, All}
use softwrap.WrapLogger.Restoring.{terminator}
use softwrap.WrapLogger.{Logger, next_flag, or_two, wrap_log_open, wrap_log_close}

-- The entries of one wrap, logged between `wrapLogOpen` and `wrapLogClose`.
unfoldable pub session : ℕ → List Entry → Logger × Scm → Run (Logger × Scm)
session w es s = log_all es w (wrap_log_open w s) >>= λ r. ok (wrap_log_close r)

-- Memory after the open, and after the close, of a log at `log`.
abbrev opened_image : ℕ → ℕ → ℕ → Mem → Mem
opened_image log w flag m = write_bytes (log + 12) (le 4 w) (write_bytes (log + 16) (le 4 flag) m)

abbrev closed_image : ℕ → ℕ → ℕ → List Entry → Mem → Mem
closed_image log w flag es m =
    write_bytes (log + 16) (le 4 (flag + 2))
      (write_bytes (log + 20) (encode_all flag es ++ terminator) (opened_image log w flag m))

pub next_flag-lt : (flag : ℕ) → next_flag flag < 2
next_flag-lt flag = ground arith

or_two_lem : (flag : ℕ) → flag < 2 → or_two flag ≡ flag + 2
or_two_lem flag h = ground arith

pub mem-open :
    (w : ℕ) (lg : Logger) (st : Scm)
    → (wrap_log_open w (lg, st)).1.mem ≡ opened_image lg.log w (next_flag lg.flag_entry) st.mem
unfolding wrap_log_open
mem-open w lg st = rw (mem-ntstore_bytes (lg.log + 12), mem-ntstore_bytes (lg.log + 16))

pub mem-close :
    (lg : Logger) (st : Scm)
    → lg.flag_entry < 2
    → (wrap_log_close (lg, st)).1.mem
      ≡ write_bytes
          (lg.log + 16)
          (le 4 (lg.flag_entry + 2))
          (write_bytes lg.current terminator st.mem)
unfolding wrap_log_close p_msync
mem-close lg st bit = rw (or_two_lem lg.flag_entry bit) (
    rw
      (
        mem-ntstore_bytes (lg.log + 16),
        mem-ntstore_bytes (lg.current + 8),
        mem-ntstore_bytes lg.current,
      )
      (rw (write_bytes-append lg.current (le 8 0), length-le 8 0)))

-- The hypotheses on a session: the entries are sound and fit.
pub record Fits (lg : Logger) (es : List Entry) : Type 0 where
  pub sound : All (IsSound lg.log (lg.size_of_log + 16)) es
  pub room : 20 + length (encode_all (next_flag lg.flag_entry) es) < lg.size_of_log

All-not_four :
    (from width : ℕ) (es : List Entry)
    → All (IsSound from width) es
    → All (λ e. length e.bytes ≢ 4) es
All-not_four from width [] h = tt
All-not_four from width (e ∷ es) h = (h.0.not_four, All-not_four from width es h.1)

-- The entries up to the close.
pub logged_lem :
    (w : ℕ) (es : List Entry) (lg : Logger) (st : Scm)
    → Fits lg es
    → let flag = next_flag lg.flag_entry in
      (st' : Scm) × (log_all es w (wrap_log_open w (lg, st))
        ≡ ok (advanced (wrap_log_open w (lg, st)).0 (length (encode_all flag es)), st'))
      × (st'.mem
          ≡ write_bytes (lg.log + 20) (encode_all flag es) (opened_image lg.log w flag st.mem))
unfolding wrap_log_open
logged_lem w es lg st fits =
    let (lg', st1) = wrap_log_open w (lg, st) in
    let (st2, run, mem) =
      log_all_lem es lg' st1 (next_flag-lt lg.flag_entry) (All-not_four _ _ es fits.sound)
        (omega (arith, fits.room)) in
    (st2, run, mem ∙ rw (mem-open w lg st))

-- Up to the close nothing outside the log has changed.
pub logged_outside :
    (w flag log size : ℕ) (es : List Entry) (m : Mem) (a : ℕ)
    → 20 + length (encode_all flag es) < size
    → (a < log) ⊎ (log + size + 16 ≤ a)
    → write_bytes (log + 20) (encode_all flag es) (opened_image log w flag m) a ≡ m a
logged_outside w flag log size es m a room h =
    write_bytes_outside (log + 20) (encode_all flag es) _ a (omega arith)
    ∙ write_bytes_outside (log + 12) (le 4 w) _ a (omega (arith, length-le 4 w))
    ∙ write_bytes_outside (log + 16) (le 4 flag) m a (omega (arith, length-le 4 flag))

session_lem :
    (w : ℕ) (es : List Entry) (lg : Logger) (st : Scm)
    → Fits lg es
    → (s : Logger × Scm) × (session w es (lg, st) ≡ ok s)
      × (s.1.mem ≡ closed_image lg.log w (next_flag lg.flag_entry) es st.mem)
unfolding session wrap_log_open
session_lem w es lg st fits =
    let (st2, run, mem) = logged_lem w es lg st fits in
    let flag = next_flag lg.flag_entry in
    let enc = encode_all flag es in
    let lg' = advanced (wrap_log_open w (lg, st)).0 (length enc) in
    (
      wrap_log_close (lg', st2),
      rw run,
      mem-close lg' st2 (next_flag-lt lg.flag_entry)
          ∙ rw (mem, write_bytes-append (lg.log + 20) enc),
    )

-- Closing changes memory only from the wrap id to the end of the terminator.
closed_outside :
    (log w flag : ℕ) (es : List Entry) (m : Mem) (a : ℕ)
    → (a < log) ⊎ (log + 36 + length (encode_all flag es) ≤ a)
    → closed_image log w flag es m a ≡ m a
closed_outside log w flag es m a h =
    let close = length-le 4 (flag + 2) in
    let token = length-le 4 w in
    let open' = length-le 4 flag in
    let span = length-append (encode_all flag es) terminator in
    let end : length terminator ≡ 16 = rw (length-append (le 8 0), length-le 8 0) in
    write_bytes_outside (log + 16) (le 4 (flag + 2)) _ a (omega (arith, close))
    ∙ write_bytes_outside (log + 20) (encode_all flag es ++ terminator) _ a
        (omega (arith, span, end))
    ∙ write_bytes_outside (log + 12) (le 4 w) _ a (omega (arith, token))
    ∙ write_bytes_outside (log + 16) (le 4 flag) m a (omega (arith, open'))

closed_entries :
    (log w flag : ℕ) (es : List Entry) (m : Mem)
    → Holds (closed_image log w flag es m) (log + 20) (encode_all flag es ++ terminator)
closed_entries log w flag es m =
    Holds-write_other (log + 16) (le 4 (flag + 2)) _ (log + 20) (encode_all flag es ++ terminator)
      (omega (arith, length-le 4 (flag + 2))) (Holds-write_self (log + 20) _ _)

-- A log whose entries are there and whose flag marks it complete.
pub record Sealed (lg : Logger) (es : List Entry) (m : Mem) : Type 0 where
  pub marked : Holds m (lg.log + 16) (le 4 (next_flag lg.flag_entry + 2))
  pub entries : Holds m (lg.log + 20) (encode_all (next_flag lg.flag_entry) es ++ terminator)

closed_image-Sealed :
    (w : ℕ) (es : List Entry) (lg : Logger) (m : Mem)
    → Sealed lg es (closed_image lg.log w (next_flag lg.flag_entry) es m)
closed_image-Sealed w es lg m = record {
  marked = Holds-write_self (lg.log + 16) _ _;
  entries = closed_entries lg.log w (next_flag lg.flag_entry) es m;
}

-- What the calls of a wrap leave: the sealed log, and memory as before outside the log.
pub record Closed (lg : Logger) (es : List Entry) (m : Mem) (s : Logger × Scm) : Type 0 where
  pub sealed : Sealed lg es s.1.mem
  pub kept : (a : ℕ) → (a < lg.log) ⊎ (lg.log + lg.size_of_log + 16 ≤ a) → s.1.mem a ≡ m a

pub session-Closed :
    (w : ℕ) (es : List Entry) (lg : Logger) (st : Scm)
    → Fits lg es
    → (s : Logger × Scm) × (session w es (lg, st) ≡ ok s) × Closed lg es st.mem s
session-Closed w es lg st fits =
    let (s, run, image) = session_lem w es lg st fits in
    let flag = next_flag lg.flag_entry in
    (
      s,
      run,
      record {
        sealed = rw image (closed_image-Sealed w es lg st.mem);
        kept =
            λ a h. rw image (closed_outside lg.log w flag es st.mem a (omega (arith, fits.room)));
      },
    )

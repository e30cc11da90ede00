-- ===== src/WrapLogger/Recovery.antt =====
-- Recovery of a log after its close, and in a memory in which it was not closed.
use softwrap.Prelude.{
  ℕ, ◌+◌, ◌/◌, ◌%◌, ◌≤◌, ◌<◌, ◌≡◌, ◌⊎◌, ap, ◌∙◌, refl, List, length, arith, ok, abort, Bool, true,
  if◌then◌else◌,
}
use softwrap.Scm.Bytes.{
  Holds_congr, Mem, Holds, Holds-write_self, Holds-write_other, write_bytes, write_bytes_outside,
  le, load, load-Holds, length-le,
}
use softwrap.Scm.NtStore.{mem-ntstore_bytes}
use softwrap.Scm.{Scm, ntstore_bytes, p_msync}
use softwrap.WrapLogger.Adding.{advanced, log_all}
use softwrap.WrapLogger.Entries.{Entry, encode_all, replay, replay_congr}
use softwrap.WrapLogger.Restoring.{restore_loop-replay}
use softwrap.WrapLogger.{Logger, next_flag, wrap_log_open, restore_wrap_log_entries}
use softwrap.WrapLogger.Session.{session, Fits, Sealed, session-Closed, logged_lem, next_flag-lt}

-- What recovery gives for a closed log.
pub record Recovered (lg : Logger) (es : List Entry) (m : Mem) (r : ℕ × Scm) : Type 0 where
  pub counted : r.0 ≡ length es
  pub replayed :
      (a : ℕ) → (a < lg.log) ⊎ (lg.log + lg.size_of_log + 16 ≤ a) → r.1.mem a ≡ replay es m a
  -- the complete bit is gone, so that the log is not replayed again
  pub cleared : load 4 (lg.log + 16) r.1.mem ≡ next_flag lg.flag_entry

-- Recovery of a sealed log, with fuel for more turns than there are entries, replays them on memory
-- as it is.
pub restore_fuel-Sealed :
    (fuel : ℕ) (es : List Entry) (lg : Logger) (st : Scm)
    → length es < fuel
    → Fits lg es
    → Sealed lg es st.mem
    → (r : ℕ × Scm) × (restore_wrap_log_entries fuel lg.log st ≡ ok r) × Recovered lg es st.mem r
unfolding restore_wrap_log_entries p_msync
restore_fuel-Sealed fuel es lg st enough fits image =
    let flag = next_flag lg.flag_entry in
    let bit = next_flag-lt lg.flag_entry in
    let loaded : load 4 (lg.log + 16) st.mem ≡ flag + 2 =
      load-Holds 4 (flag + 2) st.mem (lg.log + 16) (omega arith) image.marked in
    let complete : (flag + 2) / 2 % 2 ≡ 1 = omega arith in
    let parity : (flag + 2) % 2 ≡ flag = omega arith in
    let (st', run, mem) =
      restore_loop-replay es fuel flag (lg.log + 20) 0 lg.log (lg.size_of_log + 16) st (omega arith)
        bit (omega arith) (omega (arith, fits.room)) fits.sound image.entries in
    let last =
      ntstore_bytes (lg.log + 12) (le 4 0)
        (ntstore_bytes (lg.log + 16) (le 4 flag) (p_msync st')) in
    let final : last.mem
        ≡ write_bytes (lg.log + 12) (le 4 0) (write_bytes (lg.log + 16) (le 4 flag) st'.mem) =
      rw (mem-ntstore_bytes (lg.log + 12), mem-ntstore_bytes (lg.log + 16)) in
    (
      (0 + length es, p_msync last),
      rw (loaded, complete) (rw parity (rw run)),
      record {
        counted = omega arith;
        replayed = λ a h. rw final (
            write_bytes_outside (lg.log + 12) (le 4 0) _ a (omega (arith, length-le 4 0, fits.room))
            ∙ write_bytes_outside (lg.log + 16) (le 4 flag) _ a
                (omega (arith, length-le 4 flag, fits.room))
            ∙ ap (λ (k : Mem). k a) mem);
        cleared = rw final (
            load-Holds 4 flag _ (lg.log + 16) (omega arith) (
              Holds-write_other (lg.log + 12) (le 4 0) _ (lg.log + 16) (le 4 flag)
                (omega (arith, length-le 4 0)) (Holds-write_self (lg.log + 16) _ _)));
      },
    )

pub restore-Sealed :
    (es : List Entry) (lg : Logger) (st : Scm)
    → Fits lg es
    → Sealed lg es st.mem
    → (r : ℕ × Scm) × (restore_wrap_log_entries (length es + 1) lg.log st ≡ ok r)
      × Recovered lg es st.mem r
restore-Sealed es lg st = restore_fuel-Sealed (length es + 1) es lg st (omega arith)

-- Entries that are not of four bytes, each sound and all fitting the log, are logged and closed
-- without a failed assertion. Recovery of the closed log, with fuel for one turn more than there are
-- entries, then ends normally and has counted every entry; outside the log's area memory is what the
-- entries' writes, applied in order, make of it; and the log is no longer marked complete.
pub restore-session :
    (w : ℕ) (es : List Entry) (lg : Logger) (st : Scm)
    → Fits lg es
    → (s : Logger × Scm) × (session w es (lg, st) ≡ ok s)
      × ((r : ℕ × Scm) × (restore_wrap_log_entries (length es + 1) lg.log s.1 ≡ ok r)
          × Recovered lg es st.mem r)
restore-session w es lg st fits =
    let (s, run, closed) = session-Closed w es lg st fits in
    let (r, run', back) = restore-Sealed es lg s.1 fits closed.sealed in
    (
      s,
      run,
      (
        r,
        run',
        record {
          counted = back.counted;
          replayed = λ a h. back.replayed a h ∙ replay_congr es s.1.mem st.mem a (closed.kept a h);
          cleared = back.cleared;
        },
      ),
    )

-- Recovery refuses a log whose flag is not marked complete.
pub restore_unmarked :
    (fuel log flag : ℕ) (st : Scm)
    → flag < 2
    → Holds st.mem (log + 16) (le 4 flag)
    → restore_wrap_log_entries fuel log st ≡ abort
unfolding restore_wrap_log_entries
restore_unmarked fuel log flag st bit there =
    let loaded = load-Holds 4 flag st.mem (log + 16) (omega arith) there in
    let incomplete : flag / 2 % 2 ≡ 0 = omega arith in rw loaded (rw incomplete)

-- Memory of which only some bytes are what the program wrote.
abbrev pub landed_only : (ℕ → Bool) → Mem → Mem → Mem
landed_only landed written before a = if landed a then written a else before a

-- Before the close of a wrap of sound entries that fit, none of them of four bytes, all calls have
-- ended normally; and recovery fails its assertion, with any fuel, and so writes nothing, in any
-- memory that has of all that the calls wrote at least the flag of wrapLogOpen, and elsewhere, of
-- each byte, what they wrote or anything else. That the flag has landed is an assumption: the code
-- does not wait for it.
pub restore-log_all :
    (w : ℕ) (es : List Entry) (lg : Logger) (st : Scm) (fuel : ℕ) (landed : ℕ → Bool) (before : Mem)
    → Fits lg es
    → ((a : ℕ) → lg.log + 16 ≤ a → a < lg.log + 20 → landed a ≡ true)
    → (s : Logger × Scm) × (log_all es w (wrap_log_open w (lg, st)) ≡ ok s)
      × (restore_wrap_log_entries fuel lg.log
            (record s.1 { mem = landed_only landed s.1.mem before })
          ≡ abort)
restore-log_all w es lg st fuel landed before fits flag_landed =
    let (st2, run, mem) = logged_lem w es lg st fits in
    let flag = next_flag lg.flag_entry in
    let bit = next_flag-lt lg.flag_entry in
    let enc = encode_all flag es in
    let torn = landed_only landed st2.mem before in
    let there : Holds st2.mem (lg.log + 16) (le 4 flag) = rw mem (
      Holds-write_other (lg.log + 20) enc _ (lg.log + 16) (le 4 flag)
        (omega (arith, length-le 4 flag))
        (Holds-write_other (lg.log + 12) (le 4 w) _ (lg.log + 16) (le 4 flag)
          (omega (arith, length-le 4 w)) (Holds-write_self (lg.log + 16) _ _))) in
    let still : Holds torn (lg.log + 16) (le 4 flag) =
      Holds_congr st2.mem torn (lg.log + 16) (le 4 flag)
        (λ a lo hi. rw (flag_landed a lo (omega (arith, hi, length-le 4 flag))) refl) there in
    (
      (advanced (wrap_log_open w (lg, st)).0 (length enc), st2),
      run,
      restore_unmarked fuel lg.log flag (record st2 { mem = torn }) bit still,
    )

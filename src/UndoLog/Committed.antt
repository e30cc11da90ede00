-- ===== src/UndoLog/Committed.antt =====
-- Whole wraps on the undo log: what recovery makes of them, before and after the close.
use softwrap.LogBlock.Slots.{logs-get_wrap_log}
use softwrap.LogBlock.{get_wrap_log}
use softwrap.Prelude.{
  ℕ, ◌+◌, ◌≡◌, ◌≢◌, refl, ap, ◌∙◌, List, [], ◌∷◌, length, ◌==◌, arith, true, ==_refl, ne→==_false,
  bind-ok, ok_injective, Run, ok, abort, Returns, ◌>>=◌,
}
use softwrap.Scm.{Scm, ntstore_bytes}
use softwrap.UndoLog.Logged.{log_olds}
use softwrap.UndoLog.Olds.{olds}
use softwrap.UndoLog.Rollback.{Outside, FitsOlds, Pending, pending_lem}
use softwrap.UndoLog.{UndoLog, logger, with_logger, wrap_impl_open, open_first, wrap_impl_write}
use softwrap.WrapLogger.Adding.{advanced}
use softwrap.WrapLogger.Entries.{Entry, encode_all, All, replay}
use softwrap.WrapLogger.Recovery.{restore_unmarked}
use softwrap.WrapLogger.Session.{next_flag-lt}
use softwrap.WrapLogger.{Logger, next_flag, wrap_log_open, restore_wrap_log_entries}

abbrev pub next_logger : UndoLog → Logger
next_logger s = s.block.logs (get_wrap_log s.block).0

-- The calls of `wrapImplWrite` of a wrap, from a buffer at `src`.
unfoldable pub write_all : ℕ → ℕ → List Entry → UndoLog → Run UndoLog
write_all src w [] s = ok s
write_all src w (e ∷ es) s = wrap_impl_write e.dest src e.bytes w s >>= write_all src w es

-- The calls of a wrap up to the close.
pub unclosed : ℕ → List Entry → UndoLog → Run UndoLog
unclosed src es s = let s' = wrap_impl_open s in write_all src s'.wrap_token es s'

record Written (s : UndoLog) (r : Logger × Scm) (s' : UndoLog) : Type 0 where
  pub logged : logger s' ≡ r.0
  pub memory : s'.scm ≡ r.1
  pub depth : s'.num_open ≡ s.num_open
  pub token : s'.wrap_token ≡ s.wrap_token

write_all_lem :
    (src w : ℕ) (es : List Entry) (s : UndoLog) (r : Logger × Scm)
    → All (λ e. e.dest ≢ src) es
    → log_olds es w (logger s, s.scm) ≡ ok r
    → (s' : UndoLog) × (write_all src w es s ≡ ok s') × Written s r s'
unfolding log_olds write_all wrap_impl_write
write_all_lem src w [] s r ne logs = (
  s,
  refl,
  record {
    logged = ap (λ (x : Logger × Scm). x.0) (ok_injective logs);
    memory = ap (λ (x : Logger × Scm). x.1) (ok_injective logs);
    depth = refl;
    token = refl;
  },
)
write_all_lem src w (e ∷ es) s r ne logs =
    let (r1, one, logs') = bind-ok _ (log_olds es w) r logs in
    let s1 = with_logger s r1 in
    let here : (logger s1, s1.scm) ≡ r1 = rw (==_refl s.log) in
    let (s2, rest, w2) = write_all_lem src w es s1 r ne.1 (rw here logs') in
    (
      s2,
      rw (ne→==_false e.dest src ne.0, one) rest,
      record { logged = w2.logged; memory = w2.memory; depth = w2.depth; token = w2.token },
    )

-- The hypotheses on a wrap: none is open, its entries, none of four bytes, lie off null and the log,
-- they fit the log with their old values, and they come from a buffer at `src`, at which none of them
-- is written.
pub record Ready (src : ℕ) (es : List Entry) (s : UndoLog) : Type 0 where
  pub none_open : s.num_open ≡ 0
  pub fits : FitsOlds (next_logger s) es s.scm.mem
  pub elsewhere : All (λ e. e.dest ≢ src) es

open_first_lem :
    (s : UndoLog)
    → (logger (open_first s), (open_first s).scm)
      ≡ wrap_log_open (s.last_token + 1) (next_logger s, s.scm)
unfolding open_first wrap_log_open get_wrap_log ntstore_bytes
open_first_lem s =
    let e : ((get_wrap_log s.block).0 == (get_wrap_log s.block).0) ≡ true = ==_refl _ in
    rw e (rw (logs-get_wrap_log s.block))

record Opened (s o : UndoLog) : Type 0 where
  pub depth : o.num_open ≡ 1
  pub token : o.wrap_token ≡ s.last_token + 1
  pub logged : (logger o, o.scm) ≡ wrap_log_open (s.last_token + 1) (next_logger s, s.scm)

wrap_impl_open_lem : (s : UndoLog) → s.num_open ≡ 0 → Opened s (wrap_impl_open s)
unfolding wrap_impl_open open_first
wrap_impl_open_lem s none_open =
    let e : (s.num_open == 0) ≡ true = ground arith in
    rw e (record { depth = rw none_open; token = refl; logged = open_first_lem s })

module _ (src : ℕ) (es : List Entry) (s : UndoLog) (ready : Ready src es s) where
  abbrev span : ℕ
  span = length (encode_all (next_flag (next_logger s).flag_entry) (olds es s.scm.mem))

  record Middle (s' : UndoLog) : Type 0 where
    pub depth : s'.num_open ≡ 1
    pub token : s'.wrap_token ≡ s.last_token + 1
    pub logged :
        logger s' ≡ advanced (wrap_log_open (s.last_token + 1) (next_logger s, s.scm)).0 span
    pub pending : Pending (next_logger s) es s.scm.mem s'.scm.mem

  unclosed_lem : (s' : UndoLog) × (unclosed src es s ≡ ok s') × Middle s'
  unfolding unclosed
  unclosed_lem =
      let token = s.last_token + 1 in
      let o = wrap_impl_open s in
      let opened = wrap_impl_open_lem s ready.none_open in
      let (st, logs, pending) = pending_lem token es (next_logger s) s.scm ready.fits in
      let lg = advanced (wrap_log_open token (next_logger s, s.scm)).0 span in
      let (s', run, w) =
        write_all_lem src token es o (lg, st) ready.elsewhere (rw opened.logged logs) in
      (
        s',
        ap (λ (w : ℕ). write_all src w es o) opened.token ∙ run,
        record {
          depth = w.depth ∙ opened.depth;
          token = w.token ∙ opened.token;
          logged = w.logged;
          pending = rw w.memory pending;
        },
      )

  -- Before the close of a wrap with no wrap open before, of entries that have less than 2^29 bytes
  -- but not four, lie off null and the log, fit the log with their old values, and are not written
  -- at the buffer that they come from: all calls have ended normally, memory outside the log has
  -- the writes, and recovery, with any fuel, refuses the log that could undo them.
  pub restore-unclosed :
      (fuel a : ℕ)
      → Outside (next_logger s) a
      → Returns (unclosed src es s) λ s'.
        (s'.scm.mem a ≡ replay es s.scm.mem a)
        × (restore_wrap_log_entries fuel (next_logger s).log s'.scm ≡ abort)
  restore-unclosed fuel a outside =
      let (s', run, middle) = unclosed_lem in
      (
        s',
        run,
        (
          middle.pending.home a outside,
          restore_unmarked fuel (next_logger s).log _ s'.scm
              (next_flag-lt (next_logger s).flag_entry) middle.pending.flagged,
        ),
      )

-- ===== src/Software/Atomic.antt =====
-- Whole wraps: their state before the close and after it, and a memory torn while the close is on
-- its way.
use softwrap.Bloom.Ranges.{ShiftsToLowBit}
use softwrap.Lat.Reads.{view, IsLat, read_into-view}
use softwrap.Lat.Wrap.{Aligned, run_writes-Returns, total}
use softwrap.Lat.{copy_all, max_lat_entries, max_lat_data, on_wrap_open}
use softwrap.LogBlock.Slots.{logs-get_wrap_log}
use softwrap.LogBlock.{get_wrap_log}
use softwrap.Prelude.{
  ℕ, ◌+◌, ◌%◌, ◌≤◌, ◌<◌, ◌≡◌, ◌≢◌, ◌⊎◌, refl, ap, ◌∙◌, List, length, true, ◌==◌, arith, ==_refl,
  Run, ok, Returns,
}
use softwrap.Scm.Bytes.{Mem}
use softwrap.Scm.{Scm, ntstore_bytes}
use softwrap.Software.Calls.{to_writes, apply_writes-to_writes, write_all, write_all_lem}
use softwrap.Software.{Software, logger, wrap_impl_open, open_first, wrap_impl_read}
use softwrap.WrapLogger.Adding.{advanced, log_all}
use softwrap.WrapLogger.Entries.{Entry, encode_all, All, replay, replay_congr}
use softwrap.WrapLogger.Session.{Fits, Sealed, logged_lem, logged_outside}
use softwrap.WrapLogger.{Logger, next_flag, wrap_log_open}

-- The log that the next wrap will be given.
abbrev pub next_logger : Software → Logger
next_logger s = s.block.logs (get_wrap_log s.block).0

-- The hypotheses on a wrap: the int shift of the filter keeps a low bit, no wrap is open, and its
-- entries, none of four bytes, sound and written at multiples of four, fit the log and the table.
-- They come from a buffer at `src`, at which none of them is written.
pub record Ready (int_shift : ℕ → ℕ) (src : ℕ) (es : List Entry) (s : Software) : Type 0 where
  pub shifts : ShiftsToLowBit int_shift
  pub none_open : s.num_open ≡ 0
  pub fits : Fits (next_logger s) es
  pub elsewhere : All (λ e. e.dest ≢ src) es
  pub aligned : Aligned (to_writes es)
  pub entries : length (to_writes es) ≤ max_lat_entries
  pub room : total (to_writes es) < max_lat_data

abbrev pub Outside : Logger → ℕ → Type 0
Outside lg a = (a < lg.log) ⊎ (lg.log + lg.size_of_log + 16 ≤ a)

-- The calls of a wrap up to the close.
pub unclosed : (ℕ → ℕ) → ℕ → List Entry → Software → Run Software
unclosed int_shift src es s =
    let s' = wrap_impl_open s in write_all int_shift src s'.wrap_token es s'

-- What the outermost open leaves.
record Opened (s o : Software) : Type 0 where
  pub depth : o.num_open ≡ 1
  pub token : o.wrap_token ≡ s.last_token + 1
  pub option : o.options ≡ s.options
  pub logged : (logger o, o.scm) ≡ wrap_log_open (s.last_token + 1) (next_logger s, s.scm)
  pub tabled : o.table ≡ on_wrap_open s.table

open_first_lem :
    (s : Software)
    → (logger (open_first s), (open_first s).scm)
      ≡ wrap_log_open (s.last_token + 1) (next_logger s, s.scm)
unfolding open_first wrap_log_open get_wrap_log ntstore_bytes
open_first_lem s =
    let e : ((get_wrap_log s.block).0 == (get_wrap_log s.block).0) ≡ true = ==_refl _ in
    rw e (rw (logs-get_wrap_log s.block))

wrap_impl_open_lem : (s : Software) → s.num_open ≡ 0 → Opened s (wrap_impl_open s)
unfolding wrap_impl_open open_first
wrap_impl_open_lem s none_open =
    let e : (s.num_open == 0) ≡ true = ground arith in
    rw e (record {
      depth = rw none_open;
      token = refl;
      option = refl;
      logged = open_first_lem s;
      tabled = refl;
    })

module _ (int_shift : ℕ → ℕ) (src : ℕ) (es : List Entry) (s : Software) where
  -- The state before the close, as the log and the table have it.
  record Middle (s' : Software) : Type 0 where
    pub depth : s'.num_open ≡ 1
    pub token : s'.wrap_token ≡ s.last_token + 1
    pub option : s'.options ≡ s.options
    pub logged :
        log_all es (s.last_token + 1) (wrap_log_open (s.last_token + 1) (next_logger s, s.scm))
        ≡ ok (logger s', s'.scm)
    pub lat : IsLat int_shift s'.table
    pub seen : (m : Mem) → view s'.table m ≡ replay es m
    pub kept : (a : ℕ) → Outside (next_logger s) a → s'.scm.mem a ≡ s.scm.mem a

  unclosed_lem :
      Ready int_shift src es s → (s' : Software) × (unclosed int_shift src es s ≡ ok s') × Middle s'
  unfolding unclosed on_wrap_open copy_all
  unclosed_lem ready =
      let token = s.last_token + 1 in
      let (st, logs, mem) = logged_lem token es (next_logger s) s.scm ready.fits in
      let (t, writes, (lat, seen)) =
        run_writes-Returns int_shift (to_writes es) (on_wrap_open s.table) ready.shifts tt
          ready.aligned (omega (arith, ready.entries)) (omega (arith, ready.room)) in
      let o = wrap_impl_open s in
      let opened = wrap_impl_open_lem s ready.none_open in
      let lg =
        advanced (wrap_log_open token (next_logger s, s.scm)).0
          (length (encode_all (next_flag (next_logger s).flag_entry) es)) in
      let (s', run, w) =
        write_all_lem int_shift src token es o (lg, st) t ready.elsewhere (rw opened.logged logs)
          (rw opened.tabled writes) in
      (
        s',
        ap (λ (w : ℕ). write_all int_shift src w es o) opened.token ∙ run,
        record {
          depth = w.depth ∙ opened.depth;
          token = w.token ∙ opened.token;
          option = w.option ∙ opened.option;
          logged = rw (w.logged, w.memory) logs;
          lat = rw w.tabled lat;
          seen = λ m. rw w.tabled (seen m ∙ apply_writes-to_writes es m);
          kept = λ a h.
              rw (w.memory, mem)
                (logged_outside token (next_flag (next_logger s).flag_entry) (next_logger s).log
                  (next_logger s).size_of_log es s.scm.mem a ready.fits.room h);
        },
      )

  -- Isolation and reading one's own writes. Where the int shift of the filter keeps a low bit, no
  -- wrap is open, and the entries, none of four bytes, lie off null and the log, are written at
  -- multiples of four, none at the buffer that they come from, and fit the log and the alias table:
  -- they are logged and stored in the table without a failed assertion. Before the close memory
  -- outside the log is as it was before the wrap, and a read in the wrap, of bytes that lie outside
  -- the log, from a multiple of four, gives in each byte what the entries written in order would
  -- make of memory.
  pub unclosed-Returns :
      (from size i : ℕ) (out : Mem)
      → Ready int_shift src es s
      → from % 4 ≡ 0
      → i < size
      → Outside (next_logger s) (from + i)
      → Returns (unclosed int_shift src es s) λ s'.
        (s'.scm.mem (from + i) ≡ s.scm.mem (from + i))
        × (wrap_impl_read int_shift from size s' out i ≡ replay es s.scm.mem (from + i))
  unfolding wrap_impl_read
  unclosed-Returns from size i out ready at lt outside =
      let (s', run, middle) = unclosed_lem ready in
      let same = middle.kept (from + i) outside in
      (
        s',
        run,
        (
          same,
          read_into-view int_shift s'.table from size s'.scm.mem out i ready.shifts middle.lat at lt
              ∙ ap (λ (m : Mem). m (from + i)) (middle.seen s'.scm.mem)
              ∙ replay_congr es s'.scm.mem s.scm.mem (from + i) same,
        ),
      )

  -- What a wrap leaves: no wrap is open, memory outside the log has the entries written in order, and
  -- the log is sealed with them, so that recovery would write them again.
  pub record Durable (s' : Software) : Type 0 where
    pub depth : s'.num_open ≡ 0
    pub token : s'.wrap_token ≡ 0
    pub home : (a : ℕ) → Outside (next_logger s) a → s'.scm.mem a ≡ replay es s.scm.mem a
    pub sealed : Sealed (next_logger s) es s'.scm.mem

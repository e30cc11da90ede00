-- ===== src/WrapLogger/Bounds.antt =====
-- Where `wrapLogClose` writes: the bounds check of `addWrapLogEntry` leaves no room for it.
use softwrap.Prelude.{
  ℕ, zero, suc, ◌+◌, ◌≤◌, ◌<◌, ◌≡◌, ◌≢◌, ◌⊎◌, ◌∙◌, length, length-append, replicate, arith, ok,
}
use native.Mathlib.Decide.{dec_lt}
use softwrap.Scm.Bytes.{
  Mem, Holds, Holds-write_self, write_bytes, write_bytes_outside, le, length-le,
}
use softwrap.Scm.{Scm}
use softwrap.WrapLogger.Adding.{advanced, add_lem}
use softwrap.WrapLogger.Entries.{Entry}
use softwrap.WrapLogger.Restoring.{terminator}
use softwrap.WrapLogger.Session.{mem-close}
use softwrap.WrapLogger.{Logger, wrap_log_close, add_wrap_log_entry}

length-terminator : length terminator ≡ 16
length-terminator = rw (length-append (le 8 0), length-le 8 0)

Holds-zeros : (m : Mem) (a n b : ℕ) → Holds m a (replicate n 0) → a ≤ b → b < a + n → m b ≡ 0
Holds-zeros m a zero b h lo hi = absurd (omega arith)
Holds-zeros m a (suc n) b h lo hi = elim (dec_lt a b) [
  | yes p ↦ Holds-zeros m (a + 1) n b h.1 (omega arith) (omega arith)
  | no p ↦ let e : b ≡ a = omega arith in rw e h.0
]

-- The close writes its sixteen bytes at the current position and the flag in the header, and
-- nothing else; it does so whether or not they lie inside the log.
pub close_outside :
    (lg : Logger) (st : Scm) (a : ℕ)
    → lg.flag_entry < 2
    → (a < lg.current) ⊎ (lg.current + 16 ≤ a)
    → (a < lg.log + 16) ⊎ (lg.log + 20 ≤ a)
    → (wrap_log_close (lg, st)).1.mem a ≡ st.mem a
close_outside lg st a bit h k = rw (mem-close lg st bit) (
    write_bytes_outside (lg.log + 16) _ _ a (omega (arith, length-le 4 (lg.flag_entry + 2)))
    ∙ write_bytes_outside lg.current terminator st.mem a (omega (arith, length-terminator)))

close_zeros :
    (lg : Logger) (st : Scm) (a : ℕ)
    → lg.flag_entry < 2
    → lg.current ≤ a
    → a < lg.current + 16
    → lg.log + 20 ≤ a
    → (wrap_log_close (lg, st)).1.mem a ≡ 0
unfolding le
close_zeros lg st a bit lo hi header = rw (mem-close lg st bit) (
    write_bytes_outside (lg.log + 16) _ _ a (omega (arith, length-le 4 (lg.flag_entry + 2)))
    ∙ Holds-zeros (write_bytes lg.current terminator st.mem) lg.current 16 a
        (Holds-write_self lg.current terminator st.mem) lo hi)

-- An entry of other than four bytes that `addWrapLogEntry` accepts with less than sixteen bytes
-- left behind it: the close that follows zeroes every byte from the log's end up to the end of the
-- terminator, which is memory of whatever lies behind the log.
pub close-overruns :
    (e : Entry) (lg : Logger) (st : Scm) (a : ℕ)
    → length e.bytes ≢ 4
    → lg.flag_entry < 2
    → lg.log + 20 ≤ lg.current
    → lg.current + 12 + length e.bytes < lg.log + lg.size_of_log
    → lg.log + lg.size_of_log ≤ a
    → a < lg.current + 12 + length e.bytes + 16
    → (s : Logger × Scm) × (add_wrap_log_entry e.dest e.bytes lg.wrap_id (lg, st) ≡ ok s)
      × ((wrap_log_close s).1.mem a ≡ 0)
close-overruns e lg st a four bit at fits end near =
    let (st', run, _) = add_lem e lg st four bit fits in
    let lg' = advanced lg (12 + length e.bytes) in
    ((lg', st'), run, close_zeros lg' st' a bit (omega arith) (omega arith) (omega arith))

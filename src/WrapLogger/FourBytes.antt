-- ===== src/WrapLogger/FourBytes.antt =====
-- Entries of four bytes, for which the code passes the encoded address to `ntstore` as its source.
use softwrap.Prelude.{
  ℕ, ◌+◌, ◌%◌, ◌≤◌, ◌<◌, ◌≡◌, ◌⊎◌, inr, ap, ◌∙◌, sym, List, length, arith, ==_refl, lt→ltb, ok,
}
use softwrap.Scm.Bytes.{read_bytes, write_bytes}
use softwrap.Scm.NtStore.{mem-ntstore, mem-ntstore_bytes}
use softwrap.Scm.{Scm}
use softwrap.WrapLogger.{Logger, add_header, add_payload, add_wrap_log_entry}

-- The image of a four-byte entry: eight bytes of the destination's old content, then the data.
pub mem-add_four :
    (ptr : ℕ) (src : List ℕ) (lg : Logger) (st : Scm)
    → length src ≡ 4
    → lg.flag_entry < 2
    → lg.current + 12 + length src < lg.log + lg.size_of_log
    → (lg.current + 8 ≤ ptr) ⊎ (ptr + 9 ≤ lg.current)
    → (s : Logger × Scm) × (add_wrap_log_entry ptr src lg.wrap_id (lg, st) ≡ ok s)
      × (s.1.mem
          ≡ write_bytes
              (lg.current + 8)
              src
              (write_bytes lg.current (read_bytes 8 (ptr + lg.flag_entry) st.mem) st.mem))
unfolding add_wrap_log_entry add_header add_payload
mem-add_four ptr src lg st four bit fits apart =
    let f : lg.flag_entry % 2 ≡ lg.flag_entry = omega arith in
    (
      add_payload src (add_header ptr (length src) (lg, st)),
      rw (==_refl lg.wrap_id, lt→ltb lg.flag_entry 2 bit, lt→ltb _ _ fits),
      rw four (
          rw f (
            mem-ntstore_bytes (lg.current + 8) src _
            ∙ ap (write_bytes (lg.current + 8) src)
                (mem-ntstore lg.current (ptr + lg.flag_entry) 8 st (inr (omega arith))))),
    )

-- The destination of a four-byte entry is not in the log: two destinations outside the log that hold
-- the same eight bytes (from the flag bit on) leave the same memory behind, so no recovery can tell
-- them apart.
add_four_forgets :
    (p q : ℕ) (src : List ℕ) (lg : Logger) (st : Scm)
    → length src ≡ 4
    → lg.flag_entry < 2
    → lg.current + 12 + length src < lg.log + lg.size_of_log
    → (lg.current + 8 ≤ p) ⊎ (p + 9 ≤ lg.current)
    → (lg.current + 8 ≤ q) ⊎ (q + 9 ≤ lg.current)
    → read_bytes 8 (p + lg.flag_entry) st.mem ≡ read_bytes 8 (q + lg.flag_entry) st.mem
    → (s t : Logger × Scm) × (add_wrap_log_entry p src lg.wrap_id (lg, st) ≡ ok s)
      × (add_wrap_log_entry q src lg.wrap_id (lg, st) ≡ ok t)
      × (s.1.mem ≡ t.1.mem)
add_four_forgets p q src lg st four bit fits hp hq same =
    let (s, run, mem) = mem-add_four p src lg st four bit fits hp in
    let (t, run', mem') = mem-add_four q src lg st four bit fits hq in
    (s, t, run, run', mem ∙ (rw same) ∙ sym mem')

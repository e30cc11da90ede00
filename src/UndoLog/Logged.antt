-- ===== src/UndoLog/Logged.antt =====
-- The writes of a wrap: memory has them at once, and the log has the old values.
use softwrap.Prelude.{
  ℕ, ◌+◌, ◌≤◌, ◌<◌, ◌≡◌, ◌≢◌, ◌⊎◌, inl, refl, ◌∙◌, List, [], ◌∷◌, ◌++◌, length, length-append,
  arith, Run, ok, ◌>>=◌,
}
use softwrap.Scm.Bytes.{
  Holds_congr, Mem, Holds, Holds-join, Holds-write_self, Holds-write_other, length-read_bytes,
  write_bytes, write_bytes_outside,
}
use softwrap.Scm.NtStore.{mem-ntstore_bytes}
use softwrap.Scm.{Scm, p_msync, ntstore_bytes}
use softwrap.UndoLog.Olds.{old, olds, olds_congr}
use softwrap.UndoLog.{logged_write}
use softwrap.WrapLogger.Adding.{advanced, add_lem}
use softwrap.WrapLogger.Entries.{
  Entry, IsSound, encode, encode_all, length-encode, replay, replay_congr, write_bytes_congr, All,
}
use softwrap.WrapLogger.{Logger}

-- The calls on the log and on memory of a wrap's writes.
unfoldable pub log_olds : List Entry → ℕ → Logger × Scm → Run (Logger × Scm)
log_olds [] w s = ok s
log_olds (e ∷ es) w s = logged_write e.dest e.bytes w s >>= log_olds es w

-- What the writes of `es` leave, from memory `m` to memory `k`, where the log's area is `from` and
-- the `width` bytes behind it, and `at` its position.
pub record Wrote (es : List Entry) (flag from width at : ℕ) (m k : Mem) : Type 0 where
  pub home : (a : ℕ) → (a < from) ⊎ (from + width ≤ a) → k a ≡ replay es m a
  pub logged : Holds k at (encode_all flag (olds es m))
  pub kept :
      (a : ℕ)
      → from ≤ a
      → a < from + width
      → (a < at) ⊎ (at + length (encode_all flag (olds es m)) ≤ a)
      → k a ≡ m a

logged_write_lem :
    (e : Entry) (lg : Logger) (st : Scm)
    → length e.bytes ≢ 4
    → lg.flag_entry < 2
    → lg.current + 12 + length e.bytes < lg.log + lg.size_of_log
    → (st' : Scm) × (logged_write e.dest e.bytes lg.wrap_id (lg, st)
        ≡ ok (advanced lg (12 + length e.bytes), st'))
      × (st'.mem
          ≡ write_bytes e.dest e.bytes
              (write_bytes lg.current (encode lg.flag_entry (old e st.mem)) st.mem))
unfolding logged_write p_msync
logged_write_lem e lg st four bit fits =
    let n = length-read_bytes (length e.bytes) e.dest st.mem in
    let (st1, run, mem) =
      add_lem (old e st.mem) lg st (λ h. four (omega (arith, n, h))) bit (omega (arith, n)) in
    (
      ntstore_bytes e.dest e.bytes (p_msync st1),
      rw run (rw n),
      mem-ntstore_bytes e.dest e.bytes _ ∙ rw mem,
    )

pub log_olds_lem :
    (es : List Entry) (lg : Logger) (st : Scm) (width : ℕ)
    → lg.flag_entry < 2
    → lg.size_of_log ≤ width
    → lg.log ≤ lg.current
    → All (IsSound lg.log width) es
    → lg.current + length (encode_all lg.flag_entry (olds es st.mem)) < lg.log + lg.size_of_log
    → (st' : Scm) × (log_olds es lg.wrap_id (lg, st)
        ≡ ok (advanced lg (length (encode_all lg.flag_entry (olds es st.mem))), st'))
      × Wrote es lg.flag_entry lg.log width lg.current st.mem st'.mem
unfolding log_olds olds encode_all replay
log_olds_lem [] lg st width bit wide lo sound fits =
    let e : lg.current + 0 ≡ lg.current = omega arith in
    (st, rw e, record { home = λ a h. refl; logged = tt; kept = λ a p q h. refl })
log_olds_lem (e ∷ es) lg st width bit wide lo sound fits =
    let f = lg.flag_entry in
    let o = old e st.mem in
    let m1 = write_bytes e.dest e.bytes st.mem in
    let n = length-read_bytes (length e.bytes) e.dest st.mem in
    let k = length-encode f o in
    let total = length-append (encode f o) (encode_all f (olds es m1)) in
    let (st1, run1, mem1) =
      logged_write_lem e lg st sound.0.not_four bit (omega (arith, n, k, total)) in
    let outside : (a : ℕ) → (a < lg.log) ⊎ (lg.log + width ≤ a) → st1.mem a ≡ m1 a = λ a h.
      rw mem1 (
        write_bytes_congr e.dest e.bytes _ st.mem a
          (write_bytes_outside lg.current (encode f o) st.mem a (omega (arith, n, k, total)))) in
    let same : olds es st1.mem ≡ olds es m1 =
      olds_congr lg.log width es st1.mem m1 sound.1 outside in
    let lg1 = advanced lg (12 + length e.bytes) in
    let (st2, run2, w) =
      log_olds_lem es lg1 st1 width bit wide (omega arith) sound.1
        (rw same (omega (arith, n, k, total))) in
    let far : lg.current + (12 + length e.bytes) + length (encode_all f (olds es st1.mem))
        ≡ lg.current + length (encode f o ++ encode_all f (olds es m1)) =
      rw same (omega (arith, n, k, total)) in
    let rest_at : lg.current + length (encode f o) ≡ lg1.current = omega (arith, n, k) in
    let span : length (encode_all f (olds es st1.mem)) ≡ length (encode_all f (olds es m1)) =
      rw same in
    let first : Holds st1.mem lg.current (encode f o) = rw mem1 (
      Holds-write_other e.dest e.bytes _ lg.current (encode f o)
        (omega (arith, sound.0.apart, n, k, total)) (Holds-write_self lg.current _ st.mem)) in
    (
      st2,
      rw run1 (run2 ∙ rw far),
      record {
        home = λ a h. w.home a h ∙ replay_congr es st1.mem m1 a (outside a h);
        logged =
            Holds-join st2.mem lg.current (encode f o) _
              (Holds_congr st1.mem st2.mem lg.current (encode f o)
                (λ a p q.
                  w.kept a (omega arith) (omega (arith, n, k, total)) (inl (omega (arith, n, k))))
                first)
              (rw rest_at (rw same at w.logged));
        kept = λ a p q h.
            w.kept a p q (omega (arith, n, k, total, span))
            ∙ rw mem1 (
                write_bytes_outside e.dest e.bytes _ a (omega (arith, sound.0.apart))
                ∙ write_bytes_outside lg.current (encode f o) st.mem a
                    (omega (arith, n, k, total)));
      },
    )

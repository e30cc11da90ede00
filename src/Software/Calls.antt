-- ===== src/Software/Calls.antt =====
-- The calls of a wrap, in terms of the calls on the log and on the table.
use native.Mathlib.Decide.{dec_lt}
use softwrap.Lat.Reads.{view}
use softwrap.Lat.Wrap.{Writes, apply_writes, run_writes, mem-restore}
use softwrap.Lat.{Lat, write, restore_to_cache_hierarchy}
use softwrap.Prelude.{
  ok_injective, bind-ok, ℕ, ◌+◌, ◌-◌, ◌<◌, ◌≡◌, ◌≢◌, refl, ap, ◌∙◌, List, [], ◌∷◌, ◌==◌, arith,
  ==_refl, ne→==_false, Run, true, false, ok, ◌>>=◌, ◌||◌,
}
use softwrap.Scm.{Scm}
use softwrap.Scm.Bytes.{Mem}
use softwrap.Software.{
  Software, logger, with_logger, with_table, wrap_impl_open, wrap_impl_write, wrap_impl_close,
  close_last, cleanup,
}
use softwrap.WrapLogger.Adding.{log_all}
use softwrap.WrapLogger.Entries.{Entry, replay, All}
use softwrap.WrapLogger.{Logger, wrap_log_close, add_wrap_log_entry}

-- The entries as writes.
unfoldable pub to_writes : List Entry → Writes
to_writes [] = []
to_writes (e ∷ es) = (e.dest, e.bytes) ∷ to_writes es

pub apply_writes-to_writes :
    (es : List Entry) (m : Mem) → apply_writes (to_writes es) m ≡ replay es m
unfolding apply_writes to_writes replay
apply_writes-to_writes [] m = refl
apply_writes-to_writes (e ∷ es) m = apply_writes-to_writes es _

module _ (int_shift : ℕ → ℕ) (src w : ℕ) where
  -- The calls of `wrapImplWrite` of a wrap, from a buffer at `src`.
  unfoldable pub write_all : List Entry → Software → Run Software
  write_all [] s = ok s
  write_all (e ∷ es) s = wrap_impl_write int_shift e.dest src e.bytes w s >>= write_all es

  -- The log is at `r` and the table at `t`; the rest is as it was.
  pub record Written (s : Software) (r : Logger × Scm) (t : Lat) (s' : Software) : Type 0 where
    pub logged : logger s' ≡ r.0
    pub memory : s'.scm ≡ r.1
    pub tabled : s'.table ≡ t
    pub depth : s'.num_open ≡ s.num_open
    pub token : s'.wrap_token ≡ s.wrap_token
    pub option : s'.options ≡ s.options

  write_one :
      (e : Entry) (s : Software) (r : Logger × Scm) (t : Lat)
      → e.dest ≢ src
      → add_wrap_log_entry e.dest e.bytes w (logger s, s.scm) ≡ ok r
      → write int_shift e.dest e.bytes s.table ≡ ok t
      → (s' : Software) × (wrap_impl_write int_shift e.dest src e.bytes w s ≡ ok s')
        × Written s r t s'
  unfolding wrap_impl_write
  write_one e s r t ne added written = (
    record (with_logger s r) { table = t },
    rw (ne→==_false e.dest src ne, added) (rw written),
    record {
      logged = rw (==_refl s.log);
      memory = refl;
      tabled = refl;
      depth = refl;
      token = refl;
      option = refl;
    },
  )

  -- Where the calls on the log and those on the table end normally, so do the calls of the wrap.
  pub write_all_lem :
      (es : List Entry) (s : Software) (r : Logger × Scm) (t : Lat)
      → All (λ e. e.dest ≢ src) es
      → log_all es w (logger s, s.scm) ≡ ok r
      → run_writes int_shift (to_writes es) s.table ≡ ok t
      → (s' : Software) × (write_all es s ≡ ok s') × Written s r t s'
  unfolding log_all run_writes to_writes write_all
  write_all_lem [] s r t ne logs writes = (
    s,
    refl,
    record {
      logged = ap (λ (x : Logger × Scm). x.0) (ok_injective logs);
      memory = ap (λ (x : Logger × Scm). x.1) (ok_injective logs);
      tabled = ok_injective writes;
      depth = refl;
      token = refl;
      option = refl;
    },
  )
  write_all_lem (e ∷ es) s r t ne logs writes =
      let (r1, added, logs') = bind-ok _ (log_all es w) r logs in
      let (t1, written, writes') = bind-ok _ (run_writes int_shift (to_writes es)) t writes in
      let (s1, one, w1) = write_one e s r1 t1 ne.0 added written in
      let here : (logger s1, s1.scm) ≡ r1 = cc (w1.logged, w1.memory) in
      let (s2, rest, w2) = write_all_lem es s1 r t ne.1 (rw here logs') (rw (w1.tabled) writes') in
      (
        s2,
        rw one rest,
        record {
          logged = w2.logged;
          memory = w2.memory;
          tabled = w2.tabled;
          depth = w2.depth ∙ w1.depth;
          token = w2.token ∙ w1.token;
          option = w2.option ∙ w1.option;
        },
      )

-- The cleanup after a close finds nothing left to copy.
cleanup_lem :
    (s : Software)
    → s.options < 3
    → ((m : Mem) → view s.table m ≡ m)
    → (s' : Software) × (cleanup s ≡ ok s')
      × (s'.scm.mem ≡ s.scm.mem)
      × (s'.num_open ≡ s.num_open)
      × (s'.wrap_token ≡ s.wrap_token)
unfolding cleanup
cleanup_lem s small empty = elim (dec_lt s.options 2) [
  | yes p ↦ (s, ground arith, refl, refl, refl)
  | no p ↦
      let two : s.options ≡ 2 = omega arith in
      (
        with_table s (restore_to_cache_hierarchy s.table s.scm),
        rw two,
        (mem-restore s.table s.scm).0 ∙ empty s.scm.mem,
        refl,
        refl,
      )
]

-- The outermost close seals the log and brings home what the table shows.
pub wrap_impl_close_lem :
    (s : Software)
    → s.options < 3
    → s.num_open ≡ 1
    → s.wrap_token ≢ 0
    → (s' : Software) × (wrap_impl_close s ≡ ok s')
      × (s'.scm.mem ≡ view s.table (wrap_log_close (logger s, s.scm)).1.mem)
      × (s'.num_open ≡ 0)
      × (s'.wrap_token ≡ 0)
unfolding wrap_impl_close close_last
wrap_impl_close_lem s small one nz =
    let s1 =
      with_logger (record s { num_open = s.num_open - 1 }) (wrap_log_close (logger s, s.scm)) in
    let s2 = with_table s1 (restore_to_cache_hierarchy s1.table s1.scm) in
    let (s', run, mem, depth, token) =
      cleanup_lem (record s2 { wrap_token = 0 }) small (mem-restore s1.table s1.scm).1 in
    let none : s.num_open - 1 ≡ 0 = omega arith in
    let open' : (s.wrap_token == 0 || s.num_open == 0) ≡ false = ground arith in
    let last : (s.num_open - 1 == 0) ≡ true = ground arith in
    (s', rw (open', last) run, mem ∙ (mem-restore s1.table s1.scm).0, depth ∙ none, token)

-- Where a wrap is open, opening and closing another one changes nothing: the log and the table belong
-- to the outermost wrap.
wrap_impl_close-open :
    (s : Software) → 0 < s.num_open → s.wrap_token ≢ 0 → wrap_impl_close (wrap_impl_open s) ≡ ok s
unfolding wrap_impl_close wrap_impl_open
wrap_impl_close-open s pos nz =
    let inner : (s.num_open == 0) ≡ false = ne→==_false s.num_open 0 (omega arith) in
    let some : (s.num_open + 1 == 0) ≡ false = ne→==_false (s.num_open + 1) 0 (omega arith) in
    let last : (s.num_open + 1 - 1 == 0) ≡ false =
      ne→==_false (s.num_open + 1 - 1) 0 (omega arith) in
    let back : s.num_open + 1 - 1 ≡ s.num_open = omega arith in
    rw inner (rw (ne→==_false s.wrap_token 0 nz, some, last) (rw back))

-- ===== src/Lat/Wrap.antt =====
-- One wrap on the alias table: open, writes, reads, and the restore at the close.
use native.Mathlib.Decide.{dec_lt}
use softwrap.Bloom.Ranges.{ShiftsToLowBit}
use softwrap.Lat.Reads.{view, IsLat, read_into-view}
use softwrap.Lat.Writes.{write-Returns}
use softwrap.Lat.{
  Entry, Lat, alias, read_into, write, copy_entry_to_cache, copy_all, writeback_entry,
  writeback_all, restore_to_cache_hierarchy, on_wrap_open, max_lat_entries, max_lat_data,
}
use softwrap.Prelude.{
  ℕ, ◌+◌, ◌%◌, ◌≤◌, ◌<◌, ◌≡◌, ◌⊎◌, inl, inr, refl, sym, ap, ◌∙◌, fun_ext, List, [], ◌∷◌, length,
  arith, Bool-cases, Run, ok, Returns, ◌>>=◌,
}
use softwrap.Scm.Bytes.{Mem, read_bytes, write_bytes, write-read}
use softwrap.Scm.NtStore.{mem-ntstore_bytes}
use softwrap.Scm.{Scm, ntstore_bytes}

-- The writes of a wrap: an address and the bytes stored there.
abbrev pub Writes : Type 0
Writes = List (ℕ × List ℕ)

unfoldable pub apply_writes : Writes → Mem → Mem
apply_writes [] m = m
apply_writes ((ptr, src) ∷ ws) m = apply_writes ws (write_bytes ptr src m)

unfoldable pub total : Writes → ℕ
total [] = 0
total ((ptr, src) ∷ ws) = length src + total ws

abbrev pub Aligned : Writes → Type 0
Aligned [] = Unit
Aligned ((ptr, src) ∷ ws) = (ptr % 4 ≡ 0) × Aligned ws

-- Whether an entry decides the byte at an address, or no entry touches it.
abbrev Decided : Mem → List Entry → ℕ → Type 0
Decided area es a =
    ((m k : Mem) → copy_all area es m a ≡ copy_all area es k a)
    ⊎ ((m : Mem) → copy_all area es m a ≡ m a)

copy_entry_cases :
    (area : Mem) (e : Entry) (a : ℕ)
    → ((m k : Mem) → copy_entry_to_cache area e m a ≡ copy_entry_to_cache area e k a)
      ⊎ ((m : Mem) → copy_entry_to_cache area e m a ≡ m a)
unfolding copy_entry_to_cache
copy_entry_cases area e a =
    let copied = λ (m : Mem). write-read e.key e.size 0 (alias area e.value) m a in
    elim (dec_lt a e.key) [
      | yes p ↦ inr λ m. copied m ∙ ground arith
      | no p ↦ elim (dec_lt a (e.key + e.size)) [
        | yes q ↦ inl λ m k. copied m ∙ ground arith ∙ sym (copied k)
        | no q ↦ inr λ m. copied m ∙ ground arith
      ]
    ]

copy_all_congr_at :
    (area : Mem) (es : List Entry) (m k : Mem) (a : ℕ)
    → m a ≡ k a
    → copy_all area es m a ≡ copy_all area es k a
unfolding copy_all
copy_all_congr_at area [] m k a h = h
copy_all_congr_at area (e ∷ es) m k a h =
    copy_all_congr_at area es _ _ a (elim (copy_entry_cases area e a) [
      | inl same ↦ same m k
      | inr kept ↦ kept m ∙ h ∙ sym (kept k)
    ])

decided : (area : Mem) (es : List Entry) (a : ℕ) → Decided area es a
unfolding copy_all
decided area [] a = inr λ m. refl
decided area (e ∷ es) a = elim (copy_entry_cases area e a) [
  | inl same ↦ inl λ m k. copy_all_congr_at area es _ _ a (same m k)
  | inr kept ↦ elim (decided area es a) [
    | inl fixed' ↦ inl λ m k. fixed' _ _
    | inr rest ↦ inr λ m. rest _ ∙ kept m
  ]
]

-- Copying the entries home a second time changes nothing.
copy_all_twice :
    (area : Mem) (es : List Entry) (m : Mem)
    → copy_all area es (copy_all area es m) ≡ copy_all area es m
copy_all_twice area es m =
    fun_ext λ a. elim (decided area es a) [ inl fixed' ↦ fixed' _ _ | inr kept ↦ kept _ ]

mem-writeback_all :
    (area : Mem) (es : List Entry) (st : Scm)
    → (writeback_all area es st).mem ≡ copy_all area es st.mem
unfolding writeback_all copy_all writeback_entry copy_entry_to_cache
mem-writeback_all area [] st = refl
mem-writeback_all area (e ∷ es) st =
    let home = read_bytes e.size 0 (alias area e.value) in
    mem-writeback_all area es (ntstore_bytes e.key home st)
    ∙ ap (copy_all area es) (mem-ntstore_bytes e.key home st)

-- The restore makes memory what the wrap saw, with or without the write-back by streaming stores,
-- and leaves a table that shows memory as it is.
pub mem-restore :
    (t : Lat) (st : Scm)
    → ((restore_to_cache_hierarchy t st).1.mem ≡ view t st.mem)
      × ((m : Mem) → view (restore_to_cache_hierarchy t st).0 m ≡ m)
unfolding restore_to_cache_hierarchy copy_all
mem-restore t st = elim (Bool-cases t.delay_write_back) [
  | inl late ↦ (rw late, λ m. refl)
  | inr now ↦ (
    rw now (mem-writeback_all t.bytes t.entries _ ∙ copy_all_twice t.bytes t.entries st.mem),
    λ m. refl,
  )
]

module _ (int_shift : ℕ → ℕ) where
  -- The calls of `write` of a wrap.
  unfoldable pub run_writes : Writes → Lat → Run Lat
  run_writes [] t = ok t
  run_writes ((ptr, src) ∷ ws) t = write int_shift ptr src t >>= run_writes ws

  pub run_writes-Returns :
      (ws : Writes) (t : Lat)
      → ShiftsToLowBit int_shift
      → IsLat int_shift t
      → Aligned ws
      → length t.entries + length ws ≤ max_lat_entries
      → t.last_data + total ws < max_lat_data
      → Returns
          (run_writes ws t)
          λ t'. IsLat int_shift t' × ((m : Mem) → view t' m ≡ apply_writes ws (view t m))
  unfolding run_writes apply_writes total
  run_writes-Returns [] t shifts lat aligned room space = (t, refl, (lat, λ m. refl))
  run_writes-Returns ((ptr, src) ∷ ws) t shifts lat aligned room space =
      let (t1, run, wrote) =
        write-Returns int_shift ptr src t shifts lat aligned.0 (omega arith) (omega arith) in
      let (t2, run', (lat', seen)) =
        run_writes-Returns ws t1 shifts wrote.lat aligned.1 (omega (arith, wrote.counted))
          (omega (arith, wrote.spent)) in
      (t2, rw run run', (lat', λ m. seen m ∙ rw (wrote.seen m)))

  -- A whole wrap: from an opened table, writes to aligned addresses that fit the table all end
  -- normally. After them a read of a given size from an aligned address, into any buffer, returns in
  -- each byte what the writes applied in order to memory would show, while memory itself is as
  -- before; and the restore makes memory exactly that.
  pub run_writes_lem :
      (ws : Writes) (t : Lat) (st : Scm) (src size i : ℕ) (out : Mem)
      → ShiftsToLowBit int_shift
      → Aligned ws
      → length ws ≤ max_lat_entries
      → total ws < max_lat_data
      → src % 4 ≡ 0
      → i < size
      → Returns (run_writes ws (on_wrap_open t)) λ t'.
        (read_into int_shift t' src size st.mem out i ≡ apply_writes ws st.mem (src + i))
        × ((restore_to_cache_hierarchy t' st).1.mem ≡ apply_writes ws st.mem)
  unfolding on_wrap_open
  run_writes_lem ws t st src size i out shifts aligned room space at lt =
      let (t', run, (lat, seen)) =
        run_writes-Returns ws (on_wrap_open t) shifts tt aligned (omega arith) (omega arith) in
      let all : view t' st.mem ≡ apply_writes ws st.mem = seen st.mem ∙ unfold copy_all in refl in
      (
        t',
        run,
        (
          read_into-view int_shift t' src size st.mem out i shifts lat at lt
              ∙ ap (λ (m : Mem). m (src + i)) all,
          (mem-restore t' st).0 ∙ all,
        ),
      )

-- ===== src/WrapMap/Starts.antt =====
-- The constructor.
use softwrap.Prelude.{
  ℕ, zero, suc, ◌+◌, ◌*◌, ◌/◌, ◌^◌, ◌<◌, ◌≤◌, ◌≡◌, ◌≢◌, ◌⊎◌, inl, inr, ◌∙◌, arith, [], ◌==◌, ==→eq,
  Bool-cases,
}
use softwrap.WrapImpl.{WrapMemory}
use softwrap.WrapMap.{WrapMap, table_size, table_of, zero_slots, new_map}
use softwrap.WrapImpl.Places.{Away}
use softwrap.WrapMap.Laid.{IsMap, slot}

module _ (w : WrapMemory) (m : WrapMap) (table size : ℕ)
    (off_table : Away m.table_var 8 table (8 * size)) where
  open w use {State, read, write, read_self, read_apart}

  -- The rounds of the loop from `i` on clear what is not clear yet.
  zero_slots_lem :
      (n i : ℕ) (s : State)
      → i + n ≤ size
      → table_of w m s ≡ table
      → ((j : ℕ) → j < size → (j < i) ⊎ (i + n ≤ j) → read (slot table j) 8 s ≡ 0)
      → (table_of w m (zero_slots w n i m s) ≡ table)
        × ((j : ℕ) → j < size → read (slot table j) 8 (zero_slots w n i m s) ≡ 0)
  unfolding zero_slots
  zero_slots_lem zero i s fits at clear = (at, λ j lt. clear j lt (omega arith))
  zero_slots_lem (suc n) i s fits at clear =
      zero_slots_lem n (i + 1) (write (table_of w m s + 8 * i) 8 0 s) (omega (arith, fits))
        (read_apart m.table_var 8 (table_of w m s + 8 * i) 8 0 s
            (omega (arith, off_table, at, fits))
          ∙ at)
        (λ j lt where'. elim (Bool-cases (j == i)) [
          | inl e ↦ rw (at, ==→eq j i e) (read_self (slot table i) 8 0 s (omega arith))
          | inr e ↦
              let ne : j ≢ i = λ z. ground (arith, z, e) in
              read_apart (slot table j) 8 (table_of w m s + 8 * i) 8 0 s (omega (arith, at, ne))
              ∙ clear j lt (omega (arith, where', ne))
        ])

  -- The constructor with no fewer slots than the hash function has values leaves an empty map, if
  -- the slots that its loop does not clear, seven of eight, are clear already.
  pub new_map-IsMap :
      (s : State)
      → table_size ≤ size
      → table < 256 ^ 8
      → Away m.size_var 4 m.table_var 8
      → Away m.size_var 4 table (8 * size)
      → ((j : ℕ) → size / 8 ≤ j → j < size → read (slot table j) 8 s ≡ 0)
      → IsMap w m table (λ i. []) (new_map w table size m s)
  unfolding new_map
  new_map-IsMap s large small off_var off_size clear =
      let s' = write m.size_var 4 size (write m.table_var 8 table s) in
      let (at, zeros) =
        zero_slots_lem (size / 8) 0 s' (omega arith)
          (read_apart m.table_var 8 m.size_var 4 size _ (omega (arith, off_var))
            ∙ read_self m.table_var 8 table s small)
          (λ j lt where'.
            read_apart (slot table j) 8 m.size_var 4 size _ (omega (arith, off_size))
            ∙ read_apart (slot table j) 8 m.table_var 8 table s (omega (arith, off_table))
            ∙ clear j (omega (arith, where')) lt) in
      record {
        at = at;
        laid = record {
          outside = λ i lt. tt;
          within = λ i lt. tt;
          across = λ i j lt lt' ne. tt;
          var_off_table = omega (arith, off_table, large);
        };
        chain = λ i lt. zeros i (omega (arith, large));
        placed = λ i lt. tt;
        nodup = λ i lt. tt;
      }

-- ===== src/WrapMap/Links.antt =====
-- A pointer of a chain is written: what stays, and when the map is one again.
use softwrap.Prelude.{
  ℕ, ◌+◌, ◌%◌, ◌<◌, ◌≡◌, ◌≢◌, inl, inr, sym, ◌∙◌, arith, List, ◌++◌, ◌==◌, ==→eq, ne→==_false,
  Bool-cases,
}
use mathlib.Core.Path.{subst}
use softwrap.WrapImpl.{WrapMemory}
use softwrap.WrapLogger.Entries.{All}
use softwrap.WrapMap.{WrapMap, table_size, key_of}
use softwrap.WrapMap.Chains.{Chain, Same}
use softwrap.WrapImpl.Places.{
  Away, Away-sym, Apart, Pairwise, Across, Keeps, write-Keeps, All_map, All_split, Across-flip,
  Pairwise-split,
}
use softwrap.WrapMap.Frames.{
  Chain-Keeps, Same-Keeps, SameKeys, NoDup, NoDup-SameKeys, end_cell, end_cell-Away, end_cell-first,
  end_cell-Across, Trail, Trail-write,
}
use softwrap.WrapMap.Laid.{Outside, IsLaid, IsMap, slot, with_chain}
use softwrap.WrapMap.Sets.{keys_placed}

-- One chain is replaced by nodes that are laid out well.
pub IsLaid-with_chain :
    (var table : ℕ) (chains : ℕ → List ℕ) (i : ℕ) (ns : List ℕ)
    → IsLaid var table chains
    → All (Outside var table) ns
    → Pairwise ns
    → ((j : ℕ) → j < table_size → i ≢ j → Across ns (chains j))
    → IsLaid var table (with_chain chains i ns)
IsLaid-with_chain var table chains i ns laid off within across = record {
  outside =
      λ j lt. elim (Bool-cases (j == i)) [ inl e ↦ rw e off | inr e ↦ rw e (laid.outside j lt) ];
  within =
      λ j lt. elim (Bool-cases (j == i)) [ inl e ↦ rw e within | inr e ↦ rw e (laid.within j lt) ];
  across = λ j l lt lt' ne. elim (Bool-cases (j == i)) [
    | inl e ↦
        let same = ==→eq j i e in
        let other : i ≢ l = λ z. ne (same ∙ z) in
        rw (e, ne→==_false l i (λ z. other (sym z))) (across l lt' other)
    | inr e ↦ elim (Bool-cases (l == i)) [
      | inl f ↦
          let same = ==→eq l i f in
          let other : i ≢ j = λ z. ground (arith, z, e) in
          rw (e, f) (Across-flip ns (chains j) (across j lt other))
      | inr f ↦ rw (e, f) (laid.across j l lt lt' ne)
    ]
  ];
  var_off_table = laid.var_off_table;
}

module _ (w : WrapMemory) (m : WrapMap) (table : ℕ) (chains : ℕ → List ℕ) (s : WrapMemory.State w)
    (inv : IsMap w m table chains s) (i : ℕ) (in_table : i < table_size) (xs zs : List ℕ)
    (split : chains i ≡ xs ++ zs) (p : ℕ) where
  open w use {State, read, write, read_self}

  abbrev c : ℕ
  c = slot table i

  abbrev pub end : ℕ
  end = end_cell c xs

  abbrev pub linked : State
  linked = write end 8 p s

  keeps : Keeps w s linked end 8
  keeps = write-Keeps w end 8 p s

  parts : Pairwise xs × Pairwise zs × Across xs zs
  parts = Pairwise-split xs zs (subst Pairwise split (inv.laid.within i in_table))

  outside : All (Outside m.table_var table) xs × All (Outside m.table_var table) zs
  outside =
      All_split (Outside m.table_var table) xs zs
        (subst (All (Outside m.table_var table)) split (inv.laid.outside i in_table))

  off_slot :
      (j : ℕ) (ns : List ℕ)
      → j < table_size
      → All (Outside m.table_var table) ns
      → All (λ n. Away (slot table j) 8 n 16) ns
  off_slot j ns lt off = All_map ns (λ n o. omega (arith, o.off_table, lt)) off

  pub xs_first : All (λ n. Away end 8 n 8) xs
  xs_first = end_cell-first c xs (off_slot i xs in_table outside.0) parts.0

  pub zs-Away : All (λ n. Away end 8 n 16) zs
  zs-Away = end_cell-Across c xs zs (off_slot i zs in_table outside.1) (Across-flip xs zs parts.2)

  other-Away : (j : ℕ) → j < table_size → i ≢ j → All (λ n. Away end 8 n 16) (chains j)
  other-Away j lt ne =
      let all = subst (λ ns. Across ns (chains j)) split (inv.laid.across i j in_table lt ne) in
      let (mine, rest) = All_split (λ x. All (Apart x) (chains j)) xs zs all in
      end_cell-Across c xs (chains j) (off_slot i (chains j) in_table (inv.laid.outside j lt))
        (Across-flip xs (chains j) mine)

  slot-Away : (j : ℕ) → j < table_size → i ≢ j → Away end 8 (slot table j) 8
  slot-Away j lt ne =
      Away-sym (slot table j) 8 end 8
        (end_cell-Away (slot table j) 8 c xs (omega (arith, ne)) (off_slot j xs lt outside.0))

  pub linked-at : w.read m.table_var 8 linked ≡ table
  linked-at =
      keeps m.table_var 8 (
        Away-sym m.table_var 8 end 8 (
          end_cell-Away m.table_var 8 c xs (omega (arith, inv.laid.var_off_table, in_table))
            (All_map xs (λ n o. omega (arith, o.off_var)) outside.0)))
      ∙ inv.at

  pub linked-Trail : Trail w s c xs → Trail w linked c xs
  linked-Trail path = Trail-write w s p c xs (off_slot i xs in_table outside.0) parts.0 path

  first_Same : (ns : List ℕ) → All (λ n. Away end 8 n 8) ns → Same w s linked ns
  first_Same ns away =
      All_map ns (λ n a. (keeps n 4 (omega (arith, a)), keeps (n + 4) 4 (omega (arith, a)))) away

  pub linked-Same-xs : Same w s linked xs
  linked-Same-xs = first_Same xs xs_first

  pub linked-Same-zs : Same w s linked zs
  linked-Same-zs = Same-Keeps w s linked end 8 zs keeps zs-Away

  pub linked-Same-other : (j : ℕ) → j < table_size → i ≢ j → Same w s linked (chains j)
  linked-Same-other j lt ne = Same-Keeps w s linked end 8 (chains j) keeps (other-Away j lt ne)

  -- The map is one again, where the chain with the new pointer is one.
  pub linked-IsMap :
      (ns : List ℕ)
      → Chain w linked c ns
      → All (λ n. key_of w n linked % table_size ≡ i) ns
      → NoDup w linked ns
      → IsLaid m.table_var table (with_chain chains i ns)
      → IsMap w m table (with_chain chains i ns) linked
  linked-IsMap ns chain placed nodup laid = record {
    at = linked-at;
    laid = laid;
    chain = λ j lt. elim (Bool-cases (j == i)) [
      | inl e ↦ rw e (rw (==→eq j i e) chain)
      | inr e ↦
          let ne : i ≢ j = λ z. ground (arith, z, e) in
          rw e (
            Chain-Keeps w s linked end 8 (slot table j) (chains j) keeps (slot-Away j lt ne)
              (All_map (chains j) (λ n a. omega (arith, a)) (other-Away j lt ne)) (inv.chain j lt))
    ];
    placed = λ j lt. elim (Bool-cases (j == i)) [
      | inl e ↦ rw e (rw (==→eq j i e) placed)
      | inr e ↦
          let ne : i ≢ j = λ z. ground (arith, z, e) in
          rw e (keys_placed w s linked j (chains j) (keys j lt ne) (inv.placed j lt))
    ];
    nodup = λ j lt. elim (Bool-cases (j == i)) [
      | inl e ↦ rw e nodup
      | inr e ↦
          let ne : i ≢ j = λ z. ground (arith, z, e) in
          rw e (NoDup-SameKeys w s linked (chains j) (keys j lt ne) (inv.nodup j lt))
    ];
  }
    where
      keys : (j : ℕ) → j < table_size → i ≢ j → SameKeys w s linked (chains j)
      keys j lt ne = All_map (chains j) (λ n h. h.0) (linked-Same-other j lt ne)

-- ===== src/WrapMap/News.antt =====
-- A new node behind the last one of a chain.
use mathlib.Core.List.{append-nil}
use mathlib.Core.Path.{subst}
use softwrap.Prelude.{
  ℕ, ◌+◌, ◌%◌, ◌^◌, ◌<◌, ◌≡◌, ◌≢◌, inl, inr, refl, sym, ap, ◌∙◌, arith, List, [], ◌∷◌, ◌++◌, ◌==◌,
  ==→eq, ne→==_false, if◌then◌else◌, Bool-cases,
}
use softwrap.WrapImpl.{WrapMemory}
use softwrap.WrapLogger.Entries.{All}
use softwrap.WrapMap.{WrapMap, table_size, key_of, value_of, new_node}
use softwrap.WrapMap.Chains.{Chain, Lacks, Same, look, look-new, look-Same}
use softwrap.WrapImpl.Places.{
  Away, Apart, Keeps, All_map, All-append, All_zip, Across-flip, Pairwise-join,
}
use softwrap.WrapMap.Frames.{
  Chain-Keeps, Same-Keeps, SameKeys, NoDup-SameKeys, NoDup-new, Lacks-SameKeys, end_cell,
  end_cell-Away, Chain-split, Chain-join,
}
use softwrap.WrapMap.Laid.{Outside, IsLaid, IsMap, IsFresh, slot, with_chain}
use softwrap.WrapMap.Links.{
  IsLaid-with_chain, linked-Trail, linked-Same-xs, linked-Same-other, linked-IsMap,
}
use softwrap.WrapMap.Sets.{keys_placed}

module _ (w : WrapMemory) (m : WrapMap) (table : ℕ) (chains : ℕ → List ℕ) (s : WrapMemory.State w)
    (inv : IsMap w m table chains s) (fresh key v : ℕ)
    (free : IsFresh m.table_var table chains fresh) (small_fresh : fresh < 256 ^ 8)
    (small_key : key < 256 ^ 4) (small : v < 256 ^ 4)
    (lacks : Lacks w s key (chains (key % table_size))) where
  open w use {State, read, write, read_self, read_apart}

  abbrev pub i : ℕ
  i = key % table_size

  abbrev pub xs : List ℕ
  xs = chains i

  in_table : i < table_size
  in_table = omega arith

  abbrev pub filled : State
  filled = new_node w fresh key v s

  keeps : Keeps w s filled fresh 16
  keeps a n away =
      read_apart a n (fresh + 8) 8 0 _ (omega (arith, away))
      ∙ read_apart a n (fresh + 4) 4 v _ (omega (arith, away))
      ∙ read_apart a n fresh 4 key s (omega (arith, away))

  filled-Same : (j : ℕ) → j < table_size → Same w s filled (chains j)
  filled-Same j lt = Same-Keeps w s filled fresh 16 (chains j) keeps (free.apart j lt)

  filled-SameKeys : (j : ℕ) → j < table_size → SameKeys w s filled (chains j)
  filled-SameKeys j lt = All_map (chains j) (λ n h. h.0) (filled-Same j lt)

  pub filled-IsMap : IsMap w m table chains filled
  filled-IsMap = record {
    at = keeps m.table_var 8 (omega (arith, free.outside.off_var)) ∙ inv.at;
    laid = inv.laid;
    chain = λ j lt.
        Chain-Keeps w s filled fresh 16 (slot table j) (chains j) keeps
          (omega (arith, free.outside.off_table, lt))
          (All_map (chains j) (λ n a. omega (arith, a)) (free.apart j lt)) (inv.chain j lt);
    placed = λ j lt. keys_placed w s filled j (chains j) (filled-SameKeys j lt) (inv.placed j lt);
    nodup = λ j lt. NoDup-SameKeys w s filled (chains j) (filled-SameKeys j lt) (inv.nodup j lt);
  }

  no_more : xs ≡ xs ++ []
  no_more = sym (append-nil xs)

  abbrev pub last : ℕ
  last = end_cell (slot table i) xs

  abbrev pub now : State
  now = write last 8 fresh filled

  off_end : Away fresh 16 last 8
  off_end =
      end_cell-Away fresh 16 (slot table i) xs (omega (arith, free.outside.off_table, in_table))
        (free.apart i in_table)

  now-key : key_of w fresh now ≡ key
  now-key =
      read_apart fresh 4 last 8 fresh filled (omega (arith, off_end))
      ∙ read_apart fresh 4 (fresh + 8) 8 0 _ (inl (omega arith))
      ∙ read_apart fresh 4 (fresh + 4) 4 v _ (inl (omega arith))
      ∙ read_self fresh 4 key s small_key

  now-value : value_of w fresh now ≡ v
  now-value =
      read_apart (fresh + 4) 4 last 8 fresh filled (omega (arith, off_end))
      ∙ read_apart (fresh + 4) 4 (fresh + 8) 8 0 _ (inl (omega arith))
      ∙ read_self (fresh + 4) 4 v _ small

  now-Chain : Chain w now (slot table i) (xs ++ fresh ∷ [])
  now-Chain =
      let path =
        (Chain-split w filled (slot table i) xs []
          (subst (Chain w filled (slot table i)) no_more (filled-IsMap.chain i in_table))).0 in
      Chain-join w now (slot table i) xs (fresh ∷ [])
        (linked-Trail w m table chains filled filled-IsMap i in_table xs [] no_more fresh path)
        (
          read_self last 8 fresh filled small_fresh,
          free.not_null,
          read_apart (fresh + 8) 8 last 8 fresh filled (omega (arith, off_end))
              ∙ read_self (fresh + 8) 8 0 _ (omega arith),
        )

  now-Same-xs : Same w filled now xs
  now-Same-xs = linked-Same-xs w m table chains filled filled-IsMap i in_table xs [] no_more fresh

  now-IsLaid : IsLaid m.table_var table (with_chain chains i (xs ++ fresh ∷ []))
  now-IsLaid =
      IsLaid-with_chain m.table_var table chains i (xs ++ fresh ∷ []) inv.laid
        (All-append (Outside m.table_var table) xs (fresh ∷ []) (inv.laid.outside i in_table)
          (free.outside, tt))
        (Pairwise-join xs (fresh ∷ []) (inv.laid.within i in_table) (tt, tt)
          (Across-flip (fresh ∷ []) xs (free.apart i in_table, tt)))
        (λ j lt ne.
          All-append (λ x. All (Apart x) (chains j)) xs (fresh ∷ [])
            (inv.laid.across i j in_table lt ne) (free.apart j lt, tt))

  pub now-IsMap : IsMap w m table (with_chain chains i (xs ++ fresh ∷ [])) now
  now-IsMap =
      let keys = All_map xs (λ n h. h.0) now-Same-xs in
      linked-IsMap w m table chains filled filled-IsMap i in_table xs [] no_more fresh
        (xs ++ fresh ∷ []) now-Chain
        (All-append (λ n. key_of w n now % table_size ≡ i) xs (fresh ∷ [])
          (keys_placed w filled now i xs keys (filled-IsMap.placed i in_table))
          (rw now-key refl, tt))
        (NoDup-new w filled now fresh xs keys
          (rw now-key (Lacks-SameKeys w s filled key xs (filled-SameKeys i in_table) lacks))
          (filled-IsMap.nodup i in_table))
        now-IsLaid

  pub now-look :
      (k : ℕ)
      → look w now k (with_chain chains i (xs ++ fresh ∷ []) (k % table_size))
        ≡ (if key == k then v else look w s k (chains (k % table_size)))
  now-look k = elim (Bool-cases (k % table_size == i)) [
    | inl e ↦
        let same : k % table_size ≡ i = ==→eq (k % table_size) i e in
        let kept =
          All_zip xs (λ n a b. (a.0 ∙ b.0, a.1 ∙ b.1)) now-Same-xs (filled-Same i in_table) in
        rw e (rw same (look-new w s now key v k xs fresh lacks kept now-key now-value))
    | inr e ↦
        let other : i ≢ k % table_size = λ z. ground (arith, z, e) in
        let not_key : key ≢ k = λ z. other (ap (λ (x : ℕ). x % table_size) z) in
        rw (e, ne→==_false key k not_key)
          (look-Same w filled now k (chains (k % table_size)) (
              linked-Same-other w m table chains filled filled-IsMap i in_table xs [] no_more fresh
                (k % table_size) (omega arith) other)
            ∙ look-Same w s filled k (chains (k % table_size))
                (filled-Same (k % table_size) (omega arith)))
  ]

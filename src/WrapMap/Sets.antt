-- ===== src/WrapMap/Sets.antt =====
-- A new value for a key that the map has.
use softwrap.Prelude.{
  ℕ, ◌+◌, ◌%◌, ◌^◌, ◌<◌, ◌≡◌, ◌≢◌, inl, inr, sym, ap, ◌∙◌, arith, List, ◌∷◌, ◌++◌, ◌==◌, ==→eq,
  ne→==_false, if◌then◌else◌, Bool-cases,
}
use mathlib.Core.Path.{subst}
use softwrap.WrapImpl.{WrapMemory}
use softwrap.WrapLogger.Entries.{All}
use softwrap.WrapMap.{WrapMap, table_size, key_of}
use softwrap.WrapMap.Chains.{Lacks, Same, look, look-set, look-Same}
use softwrap.WrapImpl.Places.{
  Away, Apart, Pairwise, Keeps, write-Keeps, All_map, All-append, All_split, All_zip, Across-flip,
  Pairwise-split,
}
use softwrap.WrapMap.Frames.{Chain-Keeps, Same-Keeps, SameKeys, SameKeys-Keeps, NoDup-SameKeys}
use softwrap.WrapMap.Laid.{Outside, IsMap, slot}

-- The keys that are found in the slot of a hash.
pub keys_placed :
    (w : WrapMemory) (s s' : WrapMemory.State w) (i : ℕ) (ns : List ℕ)
    → SameKeys w s s' ns
    → All (λ n. key_of w n s % table_size ≡ i) ns
    → All (λ n. key_of w n s' % table_size ≡ i) ns
keys_placed w s s' i ns same placed = All_zip ns (λ n e h. rw e h) same placed

module _ (w : WrapMemory) (m : WrapMap) (table : ℕ) (chains : ℕ → List ℕ) (s : WrapMemory.State w)
    (inv : IsMap w m table chains s) (key v : ℕ) (xs : List ℕ) (n : ℕ) (ys : List ℕ)
    (split : chains (key % table_size) ≡ xs ++ n ∷ ys) (lacks : Lacks w s key xs)
    (there : key_of w n s ≡ key) (small : v < 256 ^ 4) where
  open w use {State, read, write, read_self}

  abbrev i : ℕ
  i = key % table_size

  abbrev s' : State
  s' = write (n + 4) 4 v s

  in_table : i < table_size
  in_table = omega arith

  keeps : Keeps w s s' (n + 4) 4
  keeps = write-Keeps w (n + 4) 4 v s

  -- Of a predicate on all nodes of the chain, at the node.
  at_node : (P : ℕ → Type 0) → All P (chains i) → All P xs × P n × All P ys
  at_node P all = let (a, (b, c)) = All_split P xs (n ∷ ys) (subst (All P) split all) in (a, b, c)

  outside : Outside m.table_var table n
  outside = (at_node (Outside m.table_var table) (inv.laid.outside i in_table)).1

  near : All (Apart n) xs × All (Apart n) ys
  near =
      let (p, (first, q), r) =
        Pairwise-split xs (n ∷ ys) (subst Pairwise split (inv.laid.within i in_table)) in
      ((Across-flip xs (n ∷ ys) r).0, first)

  -- The value's place is away from the rest of all nodes.
  apart :
      (j : ℕ) → j < table_size → All (λ y. Away (n + 4) 4 y 4 × Away (n + 4) 4 (y + 8) 8) (chains j)
  apart j lt = elim (Bool-cases (j == i)) [
    | inl e ↦
        let same : j ≡ i = ==→eq j i e in
        let rest = λ (ns : List ℕ) (h : All (Apart n) ns).
          All_map {Q = λ y. Away (n + 4) 4 y 4 × Away (n + 4) 4 (y + 8) 8} ns
            (λ y a. (omega (arith, a), omega (arith, a))) h in
        rw same (
          subst (All (λ y. Away (n + 4) 4 y 4 × Away (n + 4) 4 (y + 8) 8)) (sym split) (
            All-append (λ y. Away (n + 4) 4 y 4 × Away (n + 4) 4 (y + 8) 8) xs (n ∷ ys)
              (rest xs near.0) ((inr (omega arith), inl (omega arith)), rest ys near.1)))
    | inr ne ↦
        let other : i ≢ j = λ z. ground (arith, z, ne) in
        All_map (chains j) (λ y a. (omega (arith, a), omega (arith, a)))
          (at_node (λ x. All (Apart x) (chains j)) (inv.laid.across i j in_table lt other)).1
  ]

  same_keys : (j : ℕ) → j < table_size → SameKeys w s s' (chains j)
  same_keys j lt =
      SameKeys-Keeps w s s' (n + 4) 4 (chains j) keeps
        (All_map (chains j) (λ y h. h.0) (apart j lt))

  pub set-IsMap : IsMap w m table chains s'
  set-IsMap = record {
    at = keeps m.table_var 8 (omega (arith, outside.off_var)) ∙ inv.at;
    laid = inv.laid;
    chain = λ j lt.
        Chain-Keeps w s s' (n + 4) 4 (slot table j) (chains j) keeps
          (omega (arith, outside.off_table, lt)) (All_map (chains j) (λ y h. h.1) (apart j lt))
          (inv.chain j lt);
    placed = λ j lt. keys_placed w s s' j (chains j) (same_keys j lt) (inv.placed j lt);
    nodup = λ j lt. NoDup-SameKeys w s s' (chains j) (same_keys j lt) (inv.nodup j lt);
  }

  Same-near : (ns : List ℕ) → All (Apart n) ns → Same w s s' ns
  Same-near ns h = Same-Keeps w s s' (n + 4) 4 ns keeps (All_map ns (λ y a. omega (arith, a)) h)

  pub set-look :
      (k : ℕ)
      → look w s' k (chains (k % table_size))
        ≡ (if key == k then v else look w s k (chains (k % table_size)))
  set-look k = elim (Bool-cases (k % table_size == i)) [
    | inl e ↦
        let same : k % table_size ≡ i = ==→eq (k % table_size) i e in
        rw same (
          rw split (
            look-set w s s' key v k xs n ys lacks there (Same-near xs near.0) (Same-near ys near.1)
              (keeps n 4 (inr (omega arith)) ∙ there) (read_self (n + 4) 4 v s small)))
    | inr ne ↦
        let other : i ≢ k % table_size = λ z. ground (arith, z, ne) in
        let not_key : key ≢ k = λ z. other (ap (λ (x : ℕ). x % table_size) z) in
        rw (ne→==_false key k not_key) (
          look-Same w s s' k (chains (k % table_size)) (
            Same-near (chains (k % table_size))
              (at_node (λ x. All (Apart x) (chains (k % table_size)))
                (inv.laid.across i (k % table_size) in_table (omega arith) other)).1))
  ]

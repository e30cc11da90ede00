-- ===== src/WrapMap/Cuts.antt =====
-- A node is taken out of its chain.
use mathlib.Core.Path.{subst}
use softwrap.Prelude.{
  ℕ, ◌+◌, ◌%◌, ◌^◌, ◌<◌, ◌≡◌, ◌≢◌, inl, inr, ap, ◌∙◌, arith, List, [], ◌∷◌, ◌++◌, ◌==◌, ==→eq,
  ne→==_false, if◌then◌else◌, Bool-cases,
}
use softwrap.WrapImpl.{WrapMemory}
use softwrap.WrapLogger.Entries.{All}
use softwrap.WrapMap.{WrapMap, table_size, key_of, next_of, missing}
use softwrap.WrapMap.Chains.{Chain, Lacks, Same, look, look-cut, look-Same}
use softwrap.WrapImpl.Places.{
  Away, Apart, Pairwise, Across, write-Keeps, All_map, All-append, All_split, Pairwise-split,
  Pairwise-join,
}
use softwrap.WrapMap.Frames.{
  Chain-Keeps, SameKeys, NoDup, NoDup-cut, end_cell, Trail, Chain-split, Chain-join,
}
use softwrap.WrapMap.Laid.{Outside, IsLaid, IsMap, slot, with_chain}
use softwrap.WrapMap.Links.{
  IsLaid-with_chain, linked-Trail, linked-Same-xs, linked-Same-zs, linked-Same-other, linked-IsMap,
  zs-Away,
}
use softwrap.WrapMap.Sets.{keys_placed}

module _ (w : WrapMemory) where
  open w use {State, read, write, read_self}

  -- The successor of a node is linked behind the pointer `e`.
  Chain-cut :
      (s : State) (e n : ℕ) (ys : List ℕ)
      → All (λ y. Away e 8 y 16) (n ∷ ys)
      → All (λ y. y < 256 ^ 8) ys
      → Chain w s (n + 8) ys
      → Chain w (write e 8 (next_of w n s) s) e ys
  Chain-cut s e n [] away small chain =
      read_self e 8 (next_of w n s) s (rw chain (omega arith)) ∙ chain
  Chain-cut s e n (y ∷ ys) (_, (one, away)) (lt, small) (at, nz, chain) = (
    read_self e 8 (next_of w n s) s (rw at lt) ∙ at,
    nz,
    Chain-Keeps w s (write e 8 (next_of w n s) s) e 8 (y + 8) ys
        (write-Keeps w e 8 (next_of w n s) s) (omega (arith, one))
        (All_map ys (λ z a. omega (arith, a)) away) chain,
  )

module _ (w : WrapMemory) (m : WrapMap) (table : ℕ) (chains : ℕ → List ℕ) (s : WrapMemory.State w)
    (inv : IsMap w m table chains s) (key : ℕ) (xs : List ℕ) (n : ℕ) (ys : List ℕ)
    (split : chains (key % table_size) ≡ xs ++ n ∷ ys) (lacks : Lacks w s key xs)
    (there : key_of w n s ≡ key) where
  open w use {State, read, write}

  abbrev pub i : ℕ
  i = key % table_size

  in_table : i < table_size
  in_table = omega arith

  abbrev pub last : ℕ
  last = end_cell (slot table i) xs

  abbrev pub now : State
  now = write last 8 (next_of w n s) s

  parts : Trail w s (slot table i) xs × Chain w s last (n ∷ ys)
  parts =
      Chain-split w s (slot table i) xs (n ∷ ys)
        (subst (Chain w s (slot table i)) split (inv.chain i in_table))

  outside : All (Outside m.table_var table) xs × All (Outside m.table_var table) (n ∷ ys)
  outside =
      All_split (Outside m.table_var table) xs (n ∷ ys)
        (subst (All (Outside m.table_var table)) split (inv.laid.outside i in_table))

  apart : Pairwise xs × Pairwise (n ∷ ys) × Across xs (n ∷ ys)
  apart = Pairwise-split xs (n ∷ ys) (subst Pairwise split (inv.laid.within i in_table))

  Same-all : Same w s now xs × Same w s now (n ∷ ys)
  Same-all = (
    linked-Same-xs w m table chains s inv i in_table xs (n ∷ ys) split (next_of w n s),
    linked-Same-zs w m table chains s inv i in_table xs (n ∷ ys) split (next_of w n s),
  )

  same_keys : SameKeys w s now (xs ++ ys)
  same_keys =
      All-append (λ x. key_of w x now ≡ key_of w x s) xs ys (All_map xs (λ x h. h.0) Same-all.0)
        (All_map ys (λ x h. h.0) Same-all.1.1)

  unique : NoDup w now (xs ++ ys) × Lacks w s (key_of w n s) ys
  unique = NoDup-cut w s now n xs ys same_keys (subst (NoDup w s) split (inv.nodup i in_table))

  now-Chain : Chain w now (slot table i) (xs ++ ys)
  now-Chain =
      Chain-join w now (slot table i) xs ys
        (linked-Trail w m table chains s inv i in_table xs (n ∷ ys) split (next_of w n s) parts.0)
        (Chain-cut w s last n ys
          (zs-Away w m table chains s inv i in_table xs (n ∷ ys) split (next_of w n s))
          (All_map ys (λ y o. o.small) outside.1.1) parts.1.2)

  now-IsLaid : IsLaid m.table_var table (with_chain chains i (xs ++ ys))
  now-IsLaid =
      IsLaid-with_chain m.table_var table chains i (xs ++ ys) inv.laid
        (All-append (Outside m.table_var table) xs ys outside.0 outside.1.1)
        (Pairwise-join xs ys apart.0 apart.1.1 (All_map xs (λ x h. h.1) apart.2))
        (λ j lt ne.
          let all =
            subst (All (λ x. All (Apart x) (chains j))) split
              (inv.laid.across i j in_table lt ne) in
          let (before, (_, behind)) = All_split (λ x. All (Apart x) (chains j)) xs (n ∷ ys) all in
          All-append (λ x. All (Apart x) (chains j)) xs ys before behind)

  placed : All (λ x. key_of w x s % table_size ≡ i) (xs ++ ys)
  placed =
      let all = subst (All (λ x. key_of w x s % table_size ≡ i)) split (inv.placed i in_table) in
      let (before, (_, behind)) = All_split (λ x. key_of w x s % table_size ≡ i) xs (n ∷ ys) all in
      All-append (λ x. key_of w x s % table_size ≡ i) xs ys before behind

  pub cut-IsMap : IsMap w m table (with_chain chains i (xs ++ ys)) now
  cut-IsMap =
      linked-IsMap w m table chains s inv i in_table xs (n ∷ ys) split (next_of w n s) (xs ++ ys)
        now-Chain (keys_placed w s now i (xs ++ ys) same_keys placed) unique.0 now-IsLaid

  pub cut-look :
      (k : ℕ)
      → look w now k (with_chain chains i (xs ++ ys) (k % table_size))
        ≡ (if key == k then missing else look w s k (chains (k % table_size)))
  cut-look k = elim (Bool-cases (k % table_size == i)) [
    | inl e ↦
        let same : k % table_size ≡ i = ==→eq (k % table_size) i e in
        rw e (
          rw same (
            rw split (
              look-cut w s now key missing k xs n ys lacks there
                (subst (λ a. Lacks w s a ys) there unique.1) Same-all.0 Same-all.1.1)))
    | inr e ↦
        let other : i ≢ k % table_size = λ z. ground (arith, z, e) in
        let not_key : key ≢ k = λ z. other (ap (λ (x : ℕ). x % table_size) z) in
        rw (e, ne→==_false key k not_key)
          (look-Same w s now k (chains (k % table_size)) (
            linked-Same-other w m table chains s inv i in_table xs (n ∷ ys) split (next_of w n s)
              (k % table_size) (omega arith) other))
  ]

-- ===== src/WrapMap/Runs.antt =====
-- Get, Put and Remove on a map of chains.
use softwrap.Prelude.{
  ℕ, suc, ◌+◌, ◌%◌, ◌^◌, ◌<◌, ◌≤◌, ◌≡◌, ◌≢◌, inl, inr, refl, ap, arith, List, [], ◌∷◌, ◌++◌, length,
  ◌==◌, ==→eq, ne→==_false, lt→ltb, offset, ◌^◌, if◌then◌else◌, Bool-cases, ok, Returns,
}
use mathlib.Core.Path.{subst}
use softwrap.WrapImpl.{WrapMemory}
use softwrap.WrapLogger.Entries.{All}
use softwrap.WrapMap.{
  WrapMap, table_size, hash_func, table_of, next_of, new_node, missing, find, get, put, remove,
  set_link,
}
use softwrap.WrapMap.Chains.{
  Chain, Lacks, look, last_or, first, look-Lacks, ahead, from, get_loop-look, find_lem, find_cases,
}
use softwrap.WrapMap.Cuts.{cut-IsMap, cut-look}
use softwrap.WrapImpl.Places.{All-append, All_split}
use softwrap.WrapMap.Frames.{Trail, Chain-split, end_cell}
use softwrap.WrapMap.Laid.{IsMap, IsFresh, slot, with_chain}
use softwrap.WrapMap.News.{filled-IsMap, now-IsMap, now-look}
use softwrap.WrapMap.Sets.{set-IsMap, set-look}

-- `fuel` is more than the nodes of each chain.
abbrev pub IsEnough : ℕ → (ℕ → List ℕ) → Type 0
IsEnough fuel chains = (i : ℕ) → i < table_size → length (chains i) < fuel

length-with_chain :
    (fuel i : ℕ) (ns : List ℕ) (chains : ℕ → List ℕ)
    → IsEnough fuel chains
    → length ns < fuel
    → IsEnough fuel (with_chain chains i ns)
length-with_chain fuel i ns chains enough few j lt = elim (Bool-cases (j == i)) [
  | inl e ↦ rw e few
  | inr e ↦ rw e (enough j lt)
]

length-new : (xs : List ℕ) (n : ℕ) → length (xs ++ n ∷ []) ≡ suc (length xs)
length-new [] n = refl
length-new (x ∷ xs) n = ap suc (length-new xs n)

length-cut : (xs ys : List ℕ) (n : ℕ) → length (xs ++ n ∷ ys) ≡ suc (length (xs ++ ys))
length-cut [] ys n = refl
length-cut (x ∷ xs) ys n = ap suc (length-cut xs ys n)

end-last_or : (n : ℕ) (ns : List ℕ) → end_cell (n + 8) ns ≡ last_or n ns + 8
end-last_or n [] = refl
end-last_or n (x ∷ ns) = end-last_or x ns

module _ (w : WrapMemory) where
  open w use {State, write}

  last_not_null :
      (s : State) (n : ℕ) (ns : List ℕ) → n ≢ 0 → Trail w s (n + 8) ns → last_or n ns ≢ 0
  last_not_null s n [] nz path = nz
  last_not_null s n (x ∷ ns) nz (at, nz', path) = last_not_null s x ns nz' path

  Chain-Trail : (s : State) (c : ℕ) (ns : List ℕ) → Chain w s c ns → Trail w s c ns
  Chain-Trail s c [] chain = tt
  Chain-Trail s c (n ∷ ns) (at, nz, chain) = (at, nz, Chain-Trail s (n + 8) ns chain)

  set_link_lem :
      (m : WrapMap) (table i p : ℕ) (xs : List ℕ) (s : State)
      → i < table_size
      → table_of w m s ≡ table
      → Trail w s (slot table i) xs
      → set_link w (last_or 0 xs) i p m s ≡ write (end_cell (slot table i) xs) 8 p s
  set_link_lem m table i p [] s lt at path = rw (at, lt→ltb i (2 ^ 31) (omega arith)) refl
  set_link_lem m table i p (x ∷ xs) s lt at (_, nz, path) =
      rw (ne→==_false (last_or x xs) 0 (last_not_null s x xs nz path), end-last_or x xs) refl

module _ (w : WrapMemory) (m : WrapMap) (table : ℕ) (chains : ℕ → List ℕ) (s : WrapMemory.State w)
    (inv : IsMap w m table chains s) (fuel : ℕ) (enough : IsEnough fuel chains) where
  -- Get ends, with the value of the chain's node that has the key, or -1.
  pub get-look :
      (key : ℕ) → key < 2 ^ 31 → get w fuel key m s ≡ ok (look w s key (chains (key % table_size)))
  unfolding get
  get-look key int =
      rw (inv.at, lt→ltb key (2 ^ 31) int, lt→ltb (key % table_size) (2 ^ 31) (omega arith))
        (get_loop-look w fuel key (slot table (key % table_size)) (chains (key % table_size)) s
          (inv.chain (key % table_size) (omega arith)) (enough (key % table_size) (omega arith)))

-- A map whose chains say that `f` has the values.
pub record IsAfter (w : WrapMemory) (m : WrapMap) (table most : ℕ) (chains : ℕ → List ℕ)
    (s : WrapMemory.State w) (f : ℕ → ℕ) : Type 0 where
  pub map : IsMap w m table chains s
  pub few : IsEnough most chains
  pub looks : (k : ℕ) → look w s k (chains (k % table_size)) ≡ f k

-- What holds of the old nodes and of the new ones holds of all nodes.
abbrev pub IsKept : (ℕ → Type 0) → (ℕ → List ℕ) → (ℕ → List ℕ) → Type 1
IsKept New chains chains' =
    (P : ℕ → Type 0)
    → ((n : ℕ) → New n → P n)
    → ((i : ℕ) → i < table_size → All P (chains i))
    → (i : ℕ) → i < table_size
    → All P (chains' i)

IsKept-with_chain :
    {New : ℕ → Type 0} (i : ℕ)
    → i < table_size
    → (ns : List ℕ) (chains : ℕ → List ℕ)
    → ((P : ℕ → Type 0) → ((n : ℕ) → New n → P n) → All P (chains i) → All P ns)
    → IsKept New chains (with_chain chains i ns)
IsKept-with_chain i lt ns chains h P new old j lt' = elim (Bool-cases (j == i)) [
  | inl e ↦ rw e (h P new (old i lt))
  | inr e ↦ rw e (old j lt')
]

module _ (w : WrapMemory) (m : WrapMap) (table : ℕ) (chains : ℕ → List ℕ) (s : WrapMemory.State w)
    (inv : IsMap w m table chains s) (fuel most : ℕ) (enough : IsEnough most chains)
    (fits : most ≤ fuel) (key : ℕ) (int : key < 2 ^ 31) where
  open w use {read, write}

  abbrev i : ℕ
  i = key % table_size

  in_table : i < table_size
  in_table = omega arith

  -- What the loop of Put and of Remove finds.
  found :
      find w fuel key 0 (read (offset (table_of w m s) 8 (hash_func key)) 8 s) s
      ≡ ok (last_or 0 (ahead w s key (chains i)), first (from w s key (chains i)))
  found =
      rw (inv.at, lt→ltb key (2 ^ 31) int, lt→ltb i (2 ^ 31) (omega arith))
        (find_lem w fuel key 0 (slot table i) (chains i) s (inv.chain i in_table)
          (omega (arith, fits, enough i in_table)))

  module _ (v fresh : ℕ) (free : IsFresh m.table_var table chains fresh) (small : v < 256 ^ 4) where
    small_key : key < 256 ^ 4
    small_key = omega (arith, int)

    -- Behind the last node.
    new_link :
        Lacks w s key (chains i)
        → set_link w (last_or 0 (chains i)) i fresh m (new_node w fresh key v s)
          ≡ write (end_cell (slot table i) (chains i)) 8 fresh (new_node w fresh key v s)
    new_link lacks =
        let filled =
          filled-IsMap w m table chains s inv fresh key v free free.outside.small small_key small
            lacks in
        set_link_lem w m table i fresh (chains i) (new_node w fresh key v s) in_table filled.at (
          Chain-Trail w (new_node w fresh key v s) (slot table i) (chains i)
            (filled.chain i in_table))

    newly :
        Lacks w s key (chains i)
        → IsMap w m table
            (with_chain chains i (chains i ++ fresh ∷ []))
            (set_link w (last_or 0 (chains i)) i fresh m (new_node w fresh key v s))
          × ((k : ℕ)
              → look w
                  (set_link w (last_or 0 (chains i)) i fresh m (new_node w fresh key v s))
                  k
                  (with_chain chains i (chains i ++ fresh ∷ []) (k % table_size))
                ≡ (if key == k then v else look w s k (chains (k % table_size))))
    newly lacks = rw (new_link lacks) (
      now-IsMap w m table chains s inv fresh key v free free.outside.small small_key small lacks,
      now-look w m table chains s inv fresh key v free free.outside.small small_key small lacks,
    )

    -- Put ends with a map, whose chains are the same but for a new node where the key was absent.
    pub put-look : Returns (put w fuel fresh key v m s) λ s'.
        (chains' : ℕ → List ℕ) × IsAfter w m table
          (suc most)
          chains'
          s'
          (λ k. if key == k then v else look w s k (chains (k % table_size)))
        × IsKept (λ n. n ≡ fresh) chains chains'
    unfolding put
    put-look = elim (find_cases w s key (chains i)) [
      | inl (all, none', lacks) ↦
          let keys = newly lacks in
          (
            set_link w (last_or 0 (chains i)) i fresh m (new_node w fresh key v s),
            rw (found, lt→ltb key (2 ^ 31) int, none', all) refl,
            (
              with_chain chains i (chains i ++ fresh ∷ []),
              record {
                map = keys.0;
                few =
                    length-with_chain (suc most) i (chains i ++ fresh ∷ []) chains
                      (λ j lt. omega (arith, enough j lt))
                      (rw (length-new (chains i) fresh) (omega (arith, enough i in_table)));
                looks = keys.1;
              },
              IsKept-with_chain i in_table (chains i ++ fresh ∷ []) chains
                  (λ P new all'. All-append P (chains i) (fresh ∷ []) all' (new fresh refl, tt)),
            ),
          )
      | inr (n, ys, at, split, lacks, there) ↦
          let nz =
            (Chain-split w s (slot table i) (ahead w s key (chains i)) (n ∷ ys)
              (subst (Chain w s (slot table i)) split (inv.chain i in_table))).1.1 in
          let inv' =
            set-IsMap w m table chains s inv key v (ahead w s key (chains i)) n ys split lacks there
              small in
          (
            write (n + 4) 4 v s,
            rw (found, at, ne→==_false n 0 nz) refl,
            (
              chains,
              record {
                map = inv';
                few = λ j lt. omega (arith, enough j lt);
                looks =
                    set-look w m table chains s inv key v (ahead w s key (chains i)) n ys split
                      lacks there small;
              },
              λ P new old. old,
            ),
          )
    ]

  -- Remove ends with a map, whose chains are the same but for the node with the key.
  pub remove-look : Returns (remove w fuel key m s) λ s'.
      (chains' : ℕ → List ℕ) × IsAfter w m table most chains' s'
        (λ k. if key == k then missing else look w s k (chains (k % table_size)))
      × IsKept (λ n. ⊥) chains chains'
  unfolding remove
  remove-look = elim (find_cases w s key (chains i)) [
    | inl (all, none', lacks) ↦
        let absent : (k : ℕ)
            → look w s k (chains (k % table_size))
              ≡ (if key == k then missing else look w s k (chains (k % table_size))) =
          λ k. elim (Bool-cases (key == k)) [
            | inl e ↦ rw e (
                subst (λ x. look w s x (chains (x % table_size)) ≡ missing) (==→eq key k e)
                  (look-Lacks w s key (chains i) lacks))
            | inr e ↦ rw e refl
          ] in
        (
          s,
          rw (found, none') refl,
          (chains, record { map = inv; few = enough; looks = absent }, λ P new old. old),
        )
    | inr (n, ys, at, split, lacks, there) ↦
        let path =
          Chain-split w s (slot table i) (ahead w s key (chains i)) (n ∷ ys)
            (subst (Chain w s (slot table i)) split (inv.chain i in_table)) in
        let xs = ahead w s key (chains i) in
        (
          write (end_cell (slot table i) xs) 8 (next_of w n s) s,
          rw (found, lt→ltb key (2 ^ 31) int, at, ne→==_false n 0 path.1.1)
              (ap ok (set_link_lem w m table i (next_of w n s) xs s in_table inv.at path.0)),
          (
            with_chain chains i (xs ++ ys),
            record {
              map = cut-IsMap w m table chains s inv key xs n ys split lacks there;
              few =
                  length-with_chain most i (xs ++ ys) chains enough
                    (omega (arith, enough i in_table, length-cut xs ys n, ap length split));
              looks = cut-look w m table chains s inv key xs n ys split lacks there;
            },
            IsKept-with_chain i in_table (xs ++ ys) chains (λ P new all.
                let (before, (_, behind)) = All_split P xs (n ∷ ys) (subst (All P) split all) in
                All-append P xs ys before behind),
          ),
        )
  ]

-- ===== src/AliasTable/Chains.antt =====
-- The chains as a map from keys to nodes.
use softwrap.AliasTable.{
  AliasTable, Node, Value, number, Chain, chain_of, set_chain, find_next, find_node, set_next,
  set_node, put_node, with_chain, get_hash, place, store, load,
}
use softwrap.Prelude.{
  ℕ, ◌+◌, ◌≡◌, ◌≢◌, refl, sym, ap, ◌∙◌, inl, inr, List, [], ◌∷◌, Option, none, some, Option-cases,
  ◌==◌, if◌then◌else◌, ==→eq, ne→==_false, Bool-cases, arith, ok, Returns,
}

-- Looking up `q` where the node under `node.key` has changed, or is new.
find_next-set_next :
    (node old : Node) (q : ℕ) (ns : List Node)
    → find_next node.key ns ≡ some old
    → find_next q (set_next node.key node ns)
      ≡ (if node.key == q then some node else find_next q ns)
unfolding find_next set_next
find_next-set_next node old q [] found = cc found
find_next-set_next node old q (n ∷ ns) found =
    let ih = find_next-set_next node old q ns in ground (arith, ih)

find_node-set_node :
    (node old : Node) (q : ℕ) (c : Chain)
    → find_node node.key c ≡ some old
    → find_node q (set_node node.key node c) ≡ (if node.key == q then some node else find_node q c)
unfolding find_node find_next set_node
find_node-set_node node old q c found =
    let rest = find_next-set_next node old q c.next in ground (arith, rest)

find_node-put_node :
    (node : Node) (q : ℕ) (c : Chain)
    → find_node node.key c ≡ none
    → q ≢ 0
    → find_node q (put_node node c) ≡ (if node.key == q then some node else find_node q c)
unfolding find_node find_next put_node
find_node-put_node node q c absent nz = ground arith

-- The map of the whole table.
abbrev pub lookup : AliasTable → ℕ → Option Node
lookup t q = find_node q (chain_of t q)

lookup-set_chain :
    (t t' : AliasTable) (node : Node) (c : Chain) (q : ℕ)
    → t'.chains ≡ set_chain t.chains (get_hash node.key) c
    → (find_node q c ≡ (if node.key == q then some node else find_node q (chain_of t node.key)))
    → lookup t' q ≡ (if node.key == q then some node else lookup t q)
lookup-set_chain t t' node c q chains found = elim (Bool-cases (get_hash q == get_hash node.key)) [
  | inl e ↦
      rw (chains, e)
        (found
          ∙ ap (λ h. if node.key == q then some node else find_node q (t.chains h))
              (sym (==→eq (get_hash q) (get_hash node.key) e)))
  | inr e ↦ elim (Bool-cases (node.key == q)) [
    | inl k ↦ let h = ap get_hash (sym (==→eq node.key q k)) in ground (arith, h, e)
    | inr k ↦ rw (chains, e, k)
  ]
]

place_new :
    (node : Node) (t : AliasTable)
    → find_node node.key (chain_of t node.key) ≡ none
    → place node t
      ≡ with_chain
          (record t { num_elements = t.num_elements + 1 })
          node.key
          (put_node node (chain_of t node.key))
unfolding place
place_new node t e = rw (place, e)

place_old :
    (node old : Node) (t : AliasTable)
    → find_node node.key (chain_of t node.key) ≡ some old
    → place node t ≡ with_chain t node.key (set_node node.key node (chain_of t node.key))
unfolding place
place_old node old t e = rw (place, e)

pub lookup-place :
    (node : Node) (t : AliasTable) (q : ℕ)
    → q ≢ 0
    → lookup (place node t) q ≡ (if node.key == q then some node else lookup t q)
lookup-place node t q nz =
    let c = chain_of t node.key in
    let see = λ (u : AliasTable). lookup u q in
    elim (Option-cases (find_node node.key c)) [
      | inl e ↦
          ap see (place_new node t e)
          ∙ lookup-set_chain t
              (with_chain (record t { num_elements = t.num_elements + 1 }) node.key
                (put_node node c))
              node (put_node node c) q refl (find_node-put_node node q c e nz)
      | inr (old, e) ↦
          ap see (place_old node old t e)
          ∙ lookup-set_chain t (with_chain t node.key (set_node node.key node c)) node
              (set_node node.key node c) q refl (find_node-set_node node old q c e)
    ]

abbrev value_of : Option Node → Option Value
value_of found = elim found [ none ↦ none | some n ↦ some n.value ]

load-lookup : (q : ℕ) (t : AliasTable) → q ≢ 0 → load q t ≡ ok (value_of (lookup t q))
unfolding load
load-lookup q t nz = rw (ne→==_false q 0 nz)

store-place :
    (ptr value size : ℕ) (t : AliasTable)
    → ptr ≢ 0
    → store ptr value size t
      ≡ ok (place (record { key = ptr; value = number value; size = size }) t)
unfolding store
store-place ptr value size t nz = rw (ne→==_false ptr 0 nz)

-- A store under an address other than 0 ends normally, and the table is then the map that it was, but
-- for the stored number under its address: a load of any address other than 0 points to the number
-- where the addresses are equal, and else where it pointed before.
pub load-store :
    (ptr value size q : ℕ) (t : AliasTable)
    → ptr ≢ 0
    → q ≢ 0
    → Returns
        (store ptr value size t)
        λ t'. load q t' ≡ (if ptr == q then ok (some (number value)) else load q t)
load-store ptr value size q t nz qnz =
    let node : Node = record { key = ptr; value = number value; size = size } in
    let seen = ap value_of (lookup-place node t q qnz) in
    (
      place node t,
      store-place ptr value size t nz,
      load-lookup q (place node t) qnz ∙ elim (Bool-cases (ptr == q)) [
        | inl e ↦ rw e (ap ok (rw e at seen))
        | inr e ↦ rw e (ap ok (rw e at seen) ∙ sym (load-lookup q t qnz))
      ],
    )

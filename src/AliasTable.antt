-- ===== src/AliasTable.antt =====
-- src/main/AliasTable.cpp and .h: the alias table of hash chains, which holds numbers and whole
-- objects. The locks of the chains are left out, the table
-- is used by one thread; so is `numOpen`, which nothing reads.
pub mod Chains
pub mod Emptied
use softwrap.Avl.{Tree, put_base_ptr, get_base_ptr, adj_base_ptr_size}
use softwrap.Prelude.{
  ℕ, zero, suc, ◌+◌, ◌-◌, ◌*◌, ◌/◌, ◌%◌, ◌^◌, bit_xor, Bool, true, false, List, [], ◌∷◌, length,
  Option, none, some, ltb, leb, ◌==◌, if◌then◌else◌, Run, ok, abort, ◌>>=◌,
}
use softwrap.Scm.Bytes.{Mem, read_bytes, write_bytes, le}
use softwrap.Scm.{Scm, ntstore_bytes, p_msync}

abbrev pub table_size : ℕ
table_size = 8192 * 2 ^ 8

-- `key += ~(key << s)`
abbrev pub add_not : ℕ → ℕ → ℕ
add_not s key = (key + (2 ^ 64 - 1 - key * 2 ^ s % 2 ^ 64)) % 2 ^ 64

-- `key ^= (key >> s)`
abbrev pub xor_shift : ℕ → ℕ → ℕ
xor_shift s key = bit_xor key (key / 2 ^ s)

unfoldable pub get_hash : ℕ → ℕ
get_hash v =
    let k1 = xor_shift 22 (add_not 32 v) in
    let k2 = xor_shift 8 (add_not 13 k1) in
    let k3 = xor_shift 15 ((k2 + k2 * 2 ^ 3) % 2 ^ 64) in
    let k4 = xor_shift 31 (add_not 27 k3) in k4 % 2 ^ 32 % table_size

-- What the field `value` of a node is, by the flag `VALUE` or `POINTER`: a number, or the memory that
-- it points to.
pub data Value : Type 0 where
  number : ℕ → Value
  object : Mem → Value

-- `size` is `flag >> 3`. The flag `DELETABLE` is left out: only `compareAndFlag` sets it, which
-- nothing calls, and nothing reads it.
pub record Node : Type 0 where
  pub key : ℕ
  pub value : Value
  pub size : ℕ

abbrev pub no_node : Node
no_node = record { key = 0; value = number 0; size = 0 }

-- `head[i].node` and the nodes behind it.
pub record Chain : Type 0 where
  pub head : Node
  pub next : List Node

-- `root` is the tree of avl.cpp, which the table shares with nobody else.
pub record AliasTable : Type 0 where
  pub chains : ℕ → Chain
  pub num_elements : ℕ
  pub root : Tree

abbrev pub set_chain : (ℕ → Chain) → ℕ → Chain → ℕ → Chain
set_chain chains h c i = if i == h then c else chains i

unfoldable pub find_next : ℕ → List Node → Option Node
find_next ptr [] = none
find_next ptr (n ∷ ns) = let rest = find_next ptr ns in if n.key == ptr then some n else rest

-- `find`, but for its assertion.
unfoldable pub find_node : ℕ → Chain → Option Node
unfolding find_next
find_node ptr c = find_next ptr (c.head ∷ c.next)

unfoldable pub set_next : ℕ → Node → List Node → List Node
set_next ptr node [] = []
set_next ptr node (n ∷ ns) =
    let rest = n ∷ set_next ptr node ns in if n.key == ptr then node ∷ ns else rest

-- The chain after an assignment to the fields of the node that `find` returned.
unfoldable pub set_node : ℕ → Node → Chain → Chain
unfolding set_next
set_node ptr node c =
    if c.head.key == ptr
    then record c { head = node }
    else record c { next = set_next ptr node c.next }

-- `put`, but for its assertion.
unfoldable pub put_node : Node → Chain → Chain
put_node node c =
    if c.head.key == 0 then record c { head = node } else record c { next = node ∷ c.next }

abbrev pub chain_of : AliasTable → ℕ → Chain
chain_of t ptr = t.chains (get_hash ptr)

abbrev pub with_chain : AliasTable → ℕ → Chain → AliasTable
with_chain t ptr c = record t { chains = set_chain t.chains (get_hash ptr) c }

-- Finding or putting the node for `ptr`, and giving it `node`'s fields.
unfoldable pub place : Node → AliasTable → AliasTable
place node t =
    let c = chain_of t node.key in
    elim (find_node node.key c) [
      | none ↦
          with_chain (record t { num_elements = t.num_elements + 1 }) node.key (put_node node c)
      | some old ↦ with_chain t node.key (set_node node.key node c)
    ]

unfoldable pub store : ℕ → ℕ → ℕ → AliasTable → Run AliasTable
store ptr value size t =
    let node : Node = record { key = ptr; value = number value; size = size } in
    if ptr == 0 then abort else ok (place node t)

-- What `load` points to: a value in the table, or memory where there is none.
unfoldable pub load : ℕ → AliasTable → Run (Option Value)
load ptr t =
    if ptr == 0
    then abort
    else ok (elim (find_node ptr (chain_of t ptr)) [ none ↦ none | some n ↦ some n.value ])

-- The object that a value points to; a number that is taken for an address ends the program.
abbrev pub contents : Value → Run Mem
contents (number v) = abort
contents (object m) = ok m

-- The pointer that `read` returns: into an object with its memory and offset, or `none` for `ptr`.
unfoldable pub read : ℕ → ℕ → AliasTable → Run (Option (Mem × ℕ))
read ptr size t =
    let base = get_base_ptr t.root ptr in
    if base == 0 then abort else elim (find_node base (chain_of t base)) [
      | none ↦ ok none
      | some n ↦
          let pointed = contents n.value >>= λ m. ok (some (m, ptr - base)) in
          if leb (ptr - base + size) n.size then pointed else abort
    ]

-- The write of an object that is there. The end of one that grows must lie in no other; its size in
-- the tree is set through a null pointer where the tree does not have it.
unfoldable pub write_old : ℕ → ℕ → List ℕ → Node → AliasTable → Run AliasTable
write_old base ptr src n t =
    let size = length src in
    let newsize = size + (ptr - base) in
    let last = ptr + size - 1 in
    let put = λ (width : ℕ) (root : Tree). contents n.value >>= λ m. ok (
      place (record n { value = object (write_bytes (ptr - base) src m); size = width })
        (record t { root = root })) in
    let grown : Run AliasTable = elim (adj_base_ptr_size t.root base newsize) [
      | none ↦ abort
      | some root ↦ put newsize root
    ] in
    if ltb n.size newsize
    then (if get_base_ptr t.root last == last then grown else abort)
    else put n.size t.root

-- `raw` is what `malloc` returned, `src` the content of the source.
unfoldable pub write : Mem → ℕ → List ℕ → AliasTable → Run AliasTable
write raw ptr src t =
    let base = get_base_ptr t.root ptr in
    let fresh : Node = record {
      key = base;
      value = object (write_bytes (ptr - base) src raw);
      size = length src;
    } in
    if base == 0 then abort else elim (find_node base (chain_of t base)) [
      | none ↦ ok (place fresh (record t { root = put_base_ptr t.root ptr (length src) }))
      | some n ↦ write_old base ptr src n t
    ]

-- The home of one node: a number of eight or four bytes, or an object.
unfoldable pub restore_node : Node → Scm → Run Scm
restore_node n st =
    let put = λ (xs : List ℕ). ntstore_bytes n.key xs st in
    let home : Run Scm = elim n.value [
      | number v ↦
          if n.size == 8
          then ok (put (le 8 v))
          else if n.size == 4
          then ok (put (le 4 v))
          else abort
      | object m ↦ ok (put (read_bytes n.size 0 m))
    ] in
    if n.key == 0 then ok st else home

unfoldable pub restore_chain : List Node → Scm → Run Scm
unfolding restore_node
restore_chain [] st = ok st
restore_chain (n ∷ ns) st = restore_node n st >>= restore_chain ns

-- The chains from `i` on, `n` of them. The head of each is emptied, and the nodes behind it are
-- freed.
unfoldable pub restore_chains : ℕ → ℕ → AliasTable → Scm → Run (AliasTable × Scm)
unfolding restore_chain
restore_chains zero i t st = ok (t, st)
restore_chains (suc n) i t st = do
  st' ← restore_chain ((t.chains i).head ∷ (t.chains i).next) st
  restore_chains n (i + 1)
      (record t { chains = set_chain t.chains i (record { head = no_node; next = [] }) }) st'

unfoldable pub restore_all_elements : AliasTable → Scm → Run (AliasTable × Scm)
unfolding restore_chains
restore_all_elements t st = do (t', st') ← restore_chains table_size 0 t st; ok (t', p_msync st')

-- ===== src/Tests/Chained.antt =====
-- A table of chains with a number and an object in one chain.
use softwrap.AliasTable.{
  AliasTable, number, object, Chain, store, load, restore_all_elements, table_size, get_hash,
}
use softwrap.AliasTable.Chains.{load-store}
use softwrap.AliasTable.Emptied.{
  IsRestorable, all_homes, empty_chain, nodes, restore_all_elements-replay,
}
use softwrap.Avl.{leaf}
use softwrap.Prelude.{
  ℕ, ◌+◌, ◌≡◌, inl, inr, refl, [], ◌∷◌, none, some, if◌then◌else◌, ◌==◌, ok, arith, Returns,
  Bool-cases,
}
use softwrap.Tests.Data.{scm}
use softwrap.WrapLogger.Entries.{All, replay}

abbrev chain : Chain
chain = record {
  head = record { key = 4096; value = number 17; size = 8 };
  next = record { key = 5000; value = object (λ i. i + 1); size = 3 } ∷ [];
}

abbrev table : AliasTable
table = record {
  chains = λ i. if i == get_hash 4096 then chain else empty_chain;
  num_elements = 2;
  root = leaf;
}

table-IsRestorable : (i : ℕ) → All IsRestorable (nodes (table.chains i))
table-IsRestorable i = elim (Bool-cases (i == get_hash 4096)) [
  | inl e ↦ rw e (inr (inl refl), (inr tt, tt))
  | inr e ↦ rw e (inl refl, tt)
]

restore_all_elements-replay_example : Returns (restore_all_elements table scm) λ r.
    (r.1.mem ≡ replay (all_homes table_size 0 table.chains) scm.mem) × (load 4096 r.0 ≡ ok none)
restore_all_elements-replay_example =
    restore_all_elements-replay table scm 4096 (λ i lt. table-IsRestorable i) (omega arith)

load-store_example :
    Returns
      (store 4096 21 4 table)
      λ t'. load 4096 t' ≡ (if 4096 == 4096 then ok (some (number 21)) else load 4096 table)
load-store_example = load-store 4096 21 4 4096 table (omega arith) (omega arith)

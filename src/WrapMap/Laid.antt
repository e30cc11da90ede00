-- ===== src/WrapMap/Laid.antt =====
-- The nodes of all chains in memory, and the invariant of the map.
use softwrap.Prelude.{ℕ, ◌+◌, ◌*◌, ◌%◌, ◌^◌, ◌<◌, ◌≡◌, ◌≢◌, List, ◌==◌, if◌then◌else◌}
use softwrap.WrapImpl.{WrapMemory}
use softwrap.WrapLogger.Entries.{All}
use softwrap.WrapMap.{WrapMap, table_size, table_of, key_of}
use softwrap.WrapMap.Chains.{Chain}
use softwrap.WrapImpl.Places.{Away, Pairwise, Across}
use softwrap.WrapMap.Frames.{NoDup}

abbrev pub slot : ℕ → ℕ → ℕ
slot table i = table + 8 * i

-- A node is an address, off the table and off the variable that points to it.
pub record Outside (var table n : ℕ) : Type 0 where
  pub off_table : Away n 16 table (8 * table_size)
  pub off_var : Away n 16 var 8
  pub small : n < 256 ^ 8

-- No two nodes of the chains overlap, nor a node and the table.
pub record IsLaid (var table : ℕ) (chains : ℕ → List ℕ) : Type 0 where
  pub outside : (i : ℕ) → i < table_size → All (Outside var table) (chains i)
  pub within : (i : ℕ) → i < table_size → Pairwise (chains i)
  pub across : (i j : ℕ) → i < table_size → j < table_size → i ≢ j → Across (chains i) (chains j)
  pub var_off_table : Away var 8 table (8 * table_size)

-- In each slot of the table begins a chain of nodes, each key is in the chain of its slot, and once.
pub record IsMap (w : WrapMemory) (m : WrapMap) (table : ℕ) (chains : ℕ → List ℕ)
    (s : WrapMemory.State w) : Type 0 where
  pub at : table_of w m s ≡ table
  pub laid : IsLaid m.table_var table chains
  pub chain : (i : ℕ) → i < table_size → Chain w s (slot table i) (chains i)
  pub placed : (i : ℕ) → i < table_size → All (λ n. key_of w n s % table_size ≡ i) (chains i)
  pub nodup : (i : ℕ) → i < table_size → NoDup w s (chains i)

abbrev pub with_chain : (ℕ → List ℕ) → ℕ → List ℕ → ℕ → List ℕ
with_chain chains i ns j = if j == i then ns else chains j

-- A node that pmalloc can return: not 0, and apart from the table and all nodes.
pub record IsFresh (var table : ℕ) (chains : ℕ → List ℕ) (n : ℕ) : Type 0 where
  pub not_null : n ≢ 0
  pub outside : Outside var table n
  pub apart : (i : ℕ) → i < table_size → All (λ m. Away n 16 m 16) (chains i)

-- ===== src/Atl.antt =====
-- src/main/ATL.cpp and .h: the hash table as an alias table that remembers in a look-aside which of
-- its entries a wrap has stored, so that the close goes to these only.
pub mod Copies
pub mod Closed
pub mod Restored
pub mod Listed
pub mod Wrap
use softwrap.AliasHash.{AliasHash, clear_hash}
use softwrap.Bloom.{clear_bloom}
use softwrap.Lfht.{Entry, Lfht, set_item, get_item}
use softwrap.Prelude.{
  ℕ, zero, suc, ◌+◌, ltb, leb, ◌==◌, ◌&&◌, ◌||◌, if◌then◌else◌, Run, ok, abort, ◌>>=◌,
}
use softwrap.Scm.Bytes.{write_bytes, le}
use softwrap.Scm.{Scm, ntstore_bytes}

-- `lookaside` and `index` are the arrays of that name and `lookasideIndex`, `limit` is
-- `ATLookasideSize`.
pub record Atl : Type 0 where
  pub base : AliasHash
  pub lookaside : ℕ → ℕ
  pub index : ℕ
  pub limit : ℕ

-- The value that `read` returns as a pointer, or `ptr`.
unfoldable pub read : ℕ → Atl → Run ℕ
read ptr t = get_item t.base.table ptr >>= λ found. ok (if found.0 == 0 then ptr else found.0)

unfoldable pub store : (ℕ → ℕ) → ℕ → ℕ → ℕ → Atl → Run Atl
store int_shift ptr value size t = set_item int_shift t.base.table ptr value size >>= λ r.
    ok (record t {
      base = record t.base { table = r.1 };
      lookaside = λ i. if i == t.index && ltb t.index t.limit then r.0 else t.lookaside i;
      index = t.index + 1;
    })

unfoldable pub on_wrap_open : Atl → Atl
on_wrap_open t = record t { index = 0 }

-- A number of four, eight, two or one bytes, at home.
unfoldable pub copy_entry_to_cache : Entry → Scm → Run Scm
copy_entry_to_cache e st =
    let home = record st { mem = write_bytes e.key (le e.size e.value) st.mem } in
    if e.key == 0
    then abort
    else if e.size == 4 || e.size == 8 || e.size == 2 || e.size == 1
    then ok home
    else abort

-- `clwb` is a streaming store.
unfoldable pub writeback_entry : Entry → Scm → Run Scm
writeback_entry e st = ok (ntstore_bytes e.key (le e.size e.value) st)

-- `for (int i = …; i < …; i++)`, from `i` on, `n` turns.
unfoldable pub each : (ℕ → Scm → Run Scm) → ℕ → ℕ → Scm → Run Scm
each turn zero i st = ok st
each turn (suc n) i st = turn i st >>= each turn n (i + 1)

-- `m_entries[lookaside[i]].key = 0; lookaside[i] = 0;`
abbrev pub free_turn : ℕ → Atl → Atl
free_turn i t =
    let at = t.lookaside i in
    let es = t.base.table.entries in
    record t {
      base = record t.base {
        table = record t.base.table {
          entries = λ j. if j == at then record (es j) { key = 0 } else es j;
        };
      };
      lookaside = λ j. if j == i then 0 else t.lookaside j;
    }

unfoldable pub free_listed : ℕ → ℕ → Atl → Atl
free_listed zero i t = t
free_listed (suc n) i t = free_listed n (i + 1) (free_turn i t)

abbrev pub if_used : (Entry → Scm → Run Scm) → Entry → Scm → Run Scm
if_used act e st = if e.key == 0 then ok st else act e st

-- The loops over the entries of the look-aside, and over the used entries of the table.
unfoldable pub restore_listed : Atl → Scm → Run (Atl × Scm)
unfolding each free_listed
restore_listed t st =
    let listed = λ (i : ℕ). t.base.table.entries (t.lookaside i) in
    each (λ i. copy_entry_to_cache (listed i)) t.index 0 st >>= λ st1.
    each (λ i. writeback_entry (listed i)) t.index 0 st1 >>= λ st2.
    let freed = free_listed t.index 0 t in
    let table = freed.base.table in
    ok (
      record freed {
        base = record freed.base { table = record table { bloom = clear_bloom table.bloom } };
      },
      st2,
    )

unfoldable pub restore_used : Atl → Scm → Run (Atl × Scm)
unfolding each
restore_used t st =
    let es = t.base.table.entries in
    let n = t.base.table.array_size in
    each (λ i. if_used copy_entry_to_cache (es i)) n 0 st >>= λ st1.
    each (λ i. if_used writeback_entry (es i)) n 0 st1 >>= λ st2.
    ok (record t { base = clear_hash t.base }, st2)

unfoldable pub restore_to_cache_hierarchy : Atl → Scm → Run (Atl × Scm)
unfolding restore_listed restore_used
restore_to_cache_hierarchy t st =
    if ltb 0 t.limit && t.index == 0
    then ok (t, st)
    else if ltb 0 t.limit && leb t.index t.limit
    then restore_listed t st
    else restore_used t st

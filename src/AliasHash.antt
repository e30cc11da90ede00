-- ===== src/AliasHash.antt =====
-- src/main/AliasTableHash.cpp and .h: the hash table as an alias table. Left out are the clock, and
-- `m_maxWrapToken`, which nothing reads.
pub mod Restore
pub mod Homes
pub mod Stale
use softwrap.Bloom.{clear_bloom}
use softwrap.Lfht.{Lfht, Entry, update, clear, get_item, get_item_address, set_item, new_lfht}
use softwrap.Prelude.{ℕ, zero, suc, ◌+◌, Option, ltb, ◌==◌, if◌then◌else◌, Run, ok, abort, ◌>>=◌}
use softwrap.Scm.Bytes.{read_bytes, write_bytes, le}
use softwrap.Scm.{Scm, ntstore_bytes, p_msync}

pub record AliasHash : Type 0 where
  pub table : Lfht
  pub total_restores : ℕ

-- Entries of more than eight bytes are copied from where their value points to.
unfoldable pub restore_entry : ℕ → Lfht × Scm → Run (Lfht × Scm)
restore_entry i (t, st) =
    let e = t.entries i in
    let freed = record t { entries = update t.entries i (record e { key = 0 }) } in
    let copied = record st { mem = write_bytes e.key (read_bytes e.size e.value st.mem) st.mem } in
    if e.key == 0
    then ok (t, st)
    else if e.size == 4
    then ok (freed, ntstore_bytes e.key (le 4 e.value) st)
    else if e.size == 2
    then abort
    else if ltb 8 e.size
    then ok (freed, copied)
    else ok (freed, ntstore_bytes e.key (le e.size e.value) st)

-- The entries from `i` on, `n` of them.
unfoldable pub restore_loop : ℕ → ℕ → Lfht × Scm → Run (Lfht × Scm)
restore_loop zero i s = ok s
restore_loop (suc n) i s = restore_entry i s >>= restore_loop n (i + 1)

-- What follows the loop.
abbrev pub finish_restore : AliasHash → Lfht × Scm → AliasHash × Scm
finish_restore h (t, st) = (
  record {
    table = record t { num_items = 0; bloom = clear_bloom t.bloom };
    total_restores = h.total_restores + 1;
  },
  p_msync st,
)

unfoldable pub restore_all_elements : AliasHash × Scm → Run (AliasHash × Scm)
unfolding restore_loop
restore_all_elements (h, st) =
    restore_loop h.table.array_size 0 (h.table, st) >>= λ r. ok (finish_restore h r)

module _ (int_shift : ℕ → ℕ) where
  -- The value that is returned as a pointer.
  unfoldable pub read : AliasHash → ℕ → Run ℕ
  read h ptr = get_item h.table ptr >>= λ found. ok found.0

  -- The index of the entry whose value is pointed to.
  unfoldable pub load : AliasHash → ℕ → Run (Option ℕ)
  load h ptr = get_item_address int_shift h.table ptr

  -- `write` is the same on the address of a buffer as the value.
  unfoldable pub store : ℕ → ℕ → ℕ → AliasHash → Run AliasHash
  store ptr value size h =
      set_item int_shift h.table ptr value size >>= λ r. ok (record h { table = r.1 })

unfoldable pub clear_hash : AliasHash → AliasHash
clear_hash h = record h { table = clear h.table }

unfoldable pub new_alias_hash : (ℕ → Entry) → ℕ → AliasHash
new_alias_hash raw size = record { table = new_lfht raw size; total_restores = 0 }

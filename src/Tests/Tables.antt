-- ===== src/Tests/Tables.antt =====
-- A wrap with three overlapping writes, hash tables of two and four entries, the filter and the tree.
use softwrap.Avl.Order.{Ordered, in_order, in_order-insert, place}
use softwrap.Avl.{Tree, leaf, node, insert}
use softwrap.Bloom.Ranges.{set_all, check_bloom_range-set_bloom_range}
use softwrap.Bloom.{check_bloom_range, set_bloom_range}
use softwrap.Lat.Wrap.{Writes, apply_writes, total, run_writes, run_writes_lem}
use softwrap.Lat.Writes.{Wrote, write-Returns}
use softwrap.Lat.{write, read_into, restore_to_cache_hierarchy, on_wrap_open, max_lat_data}
use softwrap.Lfht.Items.{Stores}
use softwrap.Lfht.Probe.{IsTable}
use softwrap.Lfht.Room.{set_item-Returns}
use softwrap.Lfht.{Lfht, empty_entry, integer_hash, set_item, store_at}
use softwrap.Bloom.{set_bloom}
use softwrap.Prelude.{
  List, ℕ, ◌+◌, ◌%◌, ◌≡◌, ◌<◌, refl, true, [], ◌∷◌, arith, ok, Returns, replicate,
}
use softwrap.Tests.Data.{no_bits, lat, scm, x86_shift, x86_shift-ShiftsToLowBit}

abbrev writes : Writes
writes = (400, 1 ∷ 2 ∷ 3 ∷ 4 ∷ []) ∷ (404, replicate 12 9) ∷ (400, 5 ∷ 6 ∷ []) ∷ []

write-Returns_example :
    Returns (write x86_shift 400 (5 ∷ 6 ∷ []) lat) (Wrote x86_shift 400 (5 ∷ 6 ∷ []) lat)
write-Returns_example =
    write-Returns x86_shift 400 (5 ∷ 6 ∷ []) lat x86_shift-ShiftsToLowBit tt refl (omega arith)
      (omega arith)

writes_fit : total writes < max_lat_data
unfolding total
writes_fit = omega arith

run_writes_lem_example : Returns (run_writes x86_shift writes (on_wrap_open lat)) λ t'.
    (read_into x86_shift t' 396 20 scm.mem (λ i. 0) 5 ≡ apply_writes writes scm.mem 401)
    × ((restore_to_cache_hierarchy t' scm).1.mem ≡ apply_writes writes scm.mem)
run_writes_lem_example =
    run_writes_lem x86_shift writes lat scm 396 20 5 (λ i. 0) x86_shift-ShiftsToLowBit
      (refl, (refl, (refl, tt))) (omega arith) writes_fit refl (omega arith)

abbrev later_sets : List (ℕ × ℕ)
later_sets = (5, 800) ∷ (1, 12) ∷ []

check_bloom_range-set_bloom_range_example :
    check_bloom_range x86_shift
      (set_all x86_shift later_sets (set_bloom_range x86_shift no_bits 400 10))
      404
      8
    ≡ true
check_bloom_range-set_bloom_range_example =
    check_bloom_range-set_bloom_range x86_shift x86_shift-ShiftsToLowBit no_bits 400 10 404 8 406
      later_sets refl refl (omega arith, omega arith) (omega arith, omega arith)

-- An empty table of four entries.
abbrev four : Lfht
four = record { entries = λ i. empty_entry; array_size = 4; num_items = 0; bloom = no_bits }

four-IsTable : IsTable 2 four
four-IsTable = record { width = refl; placed = λ i lt nz. absurd (nz refl) }

set_item-Returns_example :
    Returns (set_item x86_shift four 4096 17 8) λ r. (r.0 < 4) × Stores 2 four 4096 17 8 r.1
set_item-Returns_example =
    set_item-Returns x86_shift 2 four 4096 17 8 1 2 four-IsTable (omega arith) (omega arith)
      (omega arith) (omega arith) refl refl

abbrev after : Lfht
after =
    store_at (record four { num_items = 1; bloom = set_bloom x86_shift no_bits 4096 })
      (integer_hash 4096 % 4) 4096 17 8

after_run : set_item x86_shift four 4096 17 8 ≡ ok (integer_hash 4096 % 4, after)
unfolding set_item integer_hash
after_run = refl

-- Two entries, both taken.
abbrev taken : Lfht
taken = record {
  entries = λ i. record { key = i + 5; value = 1; size = 8 };
  array_size = 2;
  num_items = 2;
  bloom = no_bits;
}

abbrev tree : Tree
tree = node (node leaf 100 8 1 leaf) 200 16 2 leaf

tree-Ordered : Ordered (in_order tree)
unfolding in_order
tree-Ordered = ((omega arith, tt), (tt, tt))

in_order-insert_example :
    (in_order (insert tree 150 4) ≡ place 150 4 (in_order tree))
    × Ordered (in_order (insert tree 150 4))
in_order-insert_example = in_order-insert tree 150 4 tree-Ordered

-- ===== src/Tests/Alternating.antt =====
-- Hash tables as alias tables, and both threads on two tables of two entries.
use softwrap.AliasHash.Homes.{Restorable, restore_all_elements-Returns, restore_all_elements-store}
use softwrap.AliasHash.Restore.{IsShort, Spared, ApartFrom}
use softwrap.AliasHash
use softwrap.AliasHash.{AliasHash, restore_entry, store, clear_hash}
use softwrap.Lfht.Probe.{IsTable, keys, probe}
use softwrap.Lfht.Scan.{scan, hit}
use softwrap.Bloom.{set_bloom}
use softwrap.Lfht.{
  Entry, empty_entry, get_item, get_loop, integer_hash, set_item, set_loop, store_at,
}
use softwrap.Prelude.{ℕ, zero, suc, ◌≡◌, ◌≢◌, ◌<◌, inl, inr, refl, arith, ok, abort, Returns}
use softwrap.Scm.Bytes.{Holds, le}
use softwrap.Tests.Data.{no_bits, scm, x86_shift}

-- Three entries of four; 80 has the home of 8 and stands behind 16.
held_entries : ℕ → Entry
held_entries zero = record { key = 8; value = 17; size = 8 }
held_entries (suc zero) = record { key = 16; value = 5; size = 4 }
held_entries (suc (suc zero)) = record { key = 80; value = 9; size = 8 }
held_entries (suc (suc (suc i))) = empty_entry

abbrev held : AliasHash
held = record {
  table = record { entries = held_entries; array_size = 4; num_items = 3; bloom = no_bits };
  total_restores = 0;
}

held-IsTable : IsTable 2 held.table
unfolding held_entries scan integer_hash
held-IsTable = record { width = refl; placed = placed }
  where
    placed :
        (i : ℕ)
        → i < 4
        → keys held.table i ≢ 0
        → probe held.table (keys held.table) (keys held.table i) ≡ hit i
    placed zero lt nz = refl
    placed (suc zero) lt nz = refl
    placed (suc (suc zero)) lt nz = refl
    placed (suc (suc (suc i))) lt nz = absurd (nz refl)

held-IsShort : (i : ℕ) → IsShort (held_entries i)
unfolding held_entries
held-IsShort zero = (omega arith, omega arith)
held-IsShort (suc zero) = (omega arith, omega arith)
held-IsShort (suc (suc zero)) = (omega arith, omega arith)
held-IsShort (suc (suc (suc i))) = (omega arith, omega arith)

held-ApartFrom : (i j : ℕ) → i < j → ApartFrom (held_entries i) (held_entries j)
unfolding held_entries
held-ApartFrom i zero lt = absurd (omega arith)
held-ApartFrom zero (suc zero) lt = inr (inr (inl (omega arith)))
held-ApartFrom (suc i) (suc zero) lt = absurd (omega arith)
held-ApartFrom zero (suc (suc zero)) lt = inr (inr (inl (omega arith)))
held-ApartFrom (suc zero) (suc (suc zero)) lt = inr (inr (inl (omega arith)))
held-ApartFrom (suc (suc i)) (suc (suc zero)) lt = absurd (omega arith)
held-ApartFrom i (suc (suc (suc j))) lt = inr (inl refl)

held-Spared : (i : ℕ) → Spared 100 (held_entries i)
unfolding held_entries
held-Spared zero = inr (inr (omega arith))
held-Spared (suc zero) = inr (inr (omega arith))
held-Spared (suc (suc zero)) = inr (inr (omega arith))
held-Spared (suc (suc (suc i))) = inl refl

held-Restorable : Restorable 2 held.table
held-Restorable = record {
  table = held-IsTable;
  short = λ i lt. held-IsShort i;
  apart = λ i j lt lt'. held-ApartFrom i j lt;
}

found_80 : get_item held.table 80 ≡ ok (9, 8)
unfolding get_item get_loop integer_hash held_entries
found_80 = refl

restore_all_elements-Returns_example : Returns (AliasHash.restore_all_elements (held, scm)) λ r.
    (r.0.table.num_items ≡ 0)
    × Holds r.1.mem 80 (le 8 9)
    × (r.1.mem 100 ≡ scm.mem 100)
    × (get_item r.0.table 80 ≡ ok (0, 0))
restore_all_elements-Returns_example =
    restore_all_elements-Returns 2 held scm 80 9 8 100 held-Restorable (omega arith) found_80
      (λ i lt. held-Spared i)

abbrev pub fresh : AliasHash
fresh = record {
  table = record { entries = λ i. empty_entry; array_size = 4; num_items = 0; bloom = no_bits };
  total_restores = 0;
}

abbrev two : AliasHash
two = record fresh {
  table =
      store_at (record fresh.table { num_items = 1; bloom = set_bloom x86_shift no_bits 8 }) 0 8 7
        2;
}

two_stored : store x86_shift 8 7 2 fresh ≡ ok two
unfolding store set_item set_loop integer_hash
two_stored = refl

restore_all_elements-store_example : AliasHash.restore_all_elements (two, scm) ≡ abort
restore_all_elements-store_example =
    restore_all_elements-store x86_shift 2 8 7 fresh two scm
      (record { width = refl; placed = λ i lt nz. absurd (nz refl) }) (omega arith) two_stored

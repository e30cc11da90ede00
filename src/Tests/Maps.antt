-- ===== src/Tests/Maps.antt =====
-- A map of 4096 slots at 4096, on a memory that is clear, and the stores of an implementation.
use softwrap.Prelude.{
  ℕ, ◌/◌, ◌^◌, ◌<◌, ◌≤◌, ◌≢◌, ◌≡◌, inl, inr, refl, arith, List, [], ◌∷◌, ok, if◌then◌else◌, ◌==◌,
  Returns,
}
use softwrap.Scm.Bytes.{load, of_le, read_bytes, le, write_bytes}
use softwrap.Scm.{Scm}
use softwrap.Tests.Data.{scm}
use softwrap.WrapImpl.Homes.{scm_memory, wrap_impl_load-store}
use softwrap.WrapImpl.{WrapMemory, mem_check, no_atomicity, wrap_impl_load, wrap_impl_store}
use softwrap.WrapMap.Laid.{slot, Outside, IsMap, IsFresh}
use softwrap.WrapMap.Maps.{MapOp, put_op, remove_op, run_ops, run_ops-get, put-get, remove-get}
use softwrap.WrapMap.Runs.{IsEnough}
use softwrap.WrapMap.Starts.{new_map-IsMap}
use softwrap.WrapMap.{WrapMap, missing, new_map, get, put, remove}

abbrev memory : WrapMemory
memory = scm_memory mem_check

abbrev blank : Scm
blank = record { mem = λ a. 0; ntstores = 0; pmsyncs = 0 }

abbrev m : WrapMap
m = record { table_var = 16; size_var = 24 }

abbrev begun : Scm
begun = new_map memory 4096 4096 m blank

-- The keys 5 and 4101 have the same slot.
abbrev ops : List MapOp
ops =
    put_op 5 50 40000
    ∷ put_op 4101 60 40016
    ∷ put_op 5 51 40032
    ∷ remove_op 4101
    ∷ put_op 7 70 40048
    ∷ []

-- A node behind the table.
off : (n : ℕ) → (40000 ≤ n) × (n < 2 ^ 32) → (n ≢ 0) × Outside 16 4096 n
off n (lo, hi) = (
  omega (arith, lo),
  record {
    off_table = inr (omega (arith, lo));
    off_var = inr (omega (arith, lo));
    small = omega (arith, hi);
  },
)

unset : (j : ℕ) → 4096 / 8 ≤ j → j < 4096 → load 8 (slot 4096 j) blank.mem ≡ 0
unfolding load read_bytes of_le
unset j lo hi = refl

run_ops-get_example : Returns (run_ops memory 6 ops m begun) λ s. get memory 6 5 m s ≡ ok 51
run_ops-get_example =
    run_ops-get memory m 4096 6 4096 5 blank ops (omega arith) (omega arith) (omega arith)
      (omega arith) (inl (omega arith)) (inr (omega arith)) (inl (omega arith)) unset (omega arith)
      (
        omega arith,
        omega arith,
        (
          omega arith,
          omega arith,
          (omega arith, omega arith, (omega arith, (omega arith, omega arith, tt))),
        ),
      )
      (
        off 40000 (omega arith, omega arith),
        (
          off 40016 (omega arith, omega arith),
          (off 40032 (omega arith, omega arith), (off 40048 (omega arith, omega arith), tt)),
        ),
      )
      (
        (inl (omega arith), (inl (omega arith), (inl (omega arith), tt))),
        ((inl (omega arith), (inl (omega arith), tt)), ((inl (omega arith), tt), (tt, tt))),
      )

begun-IsMap : IsMap memory m 4096 (λ i. []) begun
begun-IsMap =
    new_map-IsMap memory m 4096 4096 (inl (omega arith)) blank (omega arith) (omega arith)
      (inr (omega arith)) (inl (omega arith)) unset

node-IsFresh : IsFresh 16 4096 (λ i. []) 40000
node-IsFresh = record {
  not_null = omega arith;
  outside = record {
    off_table = inr (omega arith);
    off_var = inr (omega arith);
    small = omega arith;
  };
  apart = λ i lt. tt;
}

put-get_example : Returns (put memory 1 40000 5 50 m begun) λ s.
    (chains : ℕ → List ℕ) × IsMap memory m 4096 chains s
    × IsEnough 2 chains
    × (get memory 2 4101 m s ≡ (if 5 == 4101 then ok 50 else get memory 1 4101 m begun))
put-get_example =
    put-get memory m 4096 (λ i. []) begun begun-IsMap 1 (λ i lt. omega arith) 5 4101 (omega arith)
      (omega arith) 50 40000 node-IsFresh (omega arith)

remove-get_example : Returns (remove memory 1 5 m begun) λ s.
    (chains : ℕ → List ℕ) × IsMap memory m 4096 chains s
    × IsEnough 1 chains
    × (get memory 1 5 m s ≡ (if 5 == 5 then ok missing else get memory 1 5 m begun))
remove-get_example =
    remove-get memory m 4096 (λ i. []) begun begun-IsMap 1 (λ i lt. omega arith) 5 5 (omega arith)
      (omega arith)

wrap_impl_load-store_example : Returns (wrap_impl_store no_atomicity 100 4 77 scm) λ s.
    (s.mem ≡ write_bytes 100 (le 4 77) scm.mem)
    × (wrap_impl_load no_atomicity 100 4 s ≡ ok 77)
    × (wrap_impl_load no_atomicity 104 8 s ≡ wrap_impl_load no_atomicity 104 8 scm)
wrap_impl_load-store_example =
    wrap_impl_load-store no_atomicity 100 4 77 104 8 scm refl refl (omega arith) (inr (omega arith))

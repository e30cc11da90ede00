-- ===== src/Tests/Arrays.antt =====
-- Variables of four bytes side by side, and an array of numbers of four bytes that grows.
use softwrap.Prelude.{ℕ, ◌+◌, ◌*◌, ◌^◌, ◌<◌, ◌≤◌, ◌≡◌, inl, refl, arith, List, [], ◌∷◌, Returns}
use softwrap.Scm.{Scm}
use softwrap.Tests.Data.{scm}
use softwrap.WrapArray.Calls.{ArrayOp, get_op, set_op, add_op, run_ops, run_ops-spec}
use softwrap.WrapArray.Items.{IsLaid, IsChunk}
use softwrap.WrapArray.{WrapArray, new_array}
use softwrap.WrapImpl.Homes.{scm_memory}
use softwrap.WrapImpl.{WrapMemory, mem_check}
use softwrap.WrapVar.Operators.{
  VarOp, assign, add, add_var, sub_var, increment_after, decrement, spec_all, Stands, run_all,
  run_all-spec_all,
}

abbrev memory : WrapMemory
memory = scm_memory mem_check

abbrev vars : ℕ → ℕ
vars i = 100 + 4 * i

abbrev values : ℕ → ℕ
values i = memory.read (vars i) 4 scm

abbrev expressions : List VarOp
expressions =
    assign 0 7
    ∷ assign 1 9
    ∷ sub_var 0 1
    ∷ increment_after 0
    ∷ decrement 1
    ∷ add 0 3
    ∷ add_var 1 0
    ∷ []

run_all-spec_all_example : Returns (run_all memory 4 vars expressions scm) λ (p : List ℕ × Scm).
    (p.0 ≡ (spec_all 4 expressions values).0)
    × Stands memory 4 vars (spec_all 4 expressions values).1 p.1
run_all-spec_all_example =
    run_all-spec_all memory 4 vars (inl refl) (λ i j ne. omega (arith, ne)) expressions values scm
      (λ i. refl)

abbrev m : WrapArray
m = record { pa_var = 16; length_var = 24; next_var = 28 }

m-IsLaid : IsLaid m
m-IsLaid = record {
  pa_length = inl (omega arith);
  pa_next = inl (omega arith);
  length_next = inl (omega arith);
}

-- Room for 20000 numbers.
far-IsChunk : (c : ℕ) → (1000000 ≤ c) × (c < 2 ^ 32) → IsChunk m (20000 * 4) c
far-IsChunk c (lo, hi) = record {
  off_pa = inl (omega (arith, lo));
  off_length = inl (omega (arith, lo));
  off_next = inl (omega (arith, lo));
  address = omega (arith, hi);
}

abbrev ops : List ArrayOp
ops =
    set_op 3 77 2000000
    ∷ add_op 5 3000000
    ∷ get_op 4 4000000
    ∷ set_op 5000 9 5000000
    ∷ get_op 3 6000000
    ∷ []

run_ops-spec_example :
    (run_ops memory 4 ops m (new_array memory 4 1000000 4096 m scm)).0 ≡ 5 ∷ 77 ∷ []
run_ops-spec_example =
    run_ops-spec memory 4 20000 m m-IsLaid (omega arith, omega arith) 1000000 4096 ops scm
      (omega arith)
      (
        omega arith,
        omega arith,
        (omega arith, omega arith, (omega arith, (omega arith, omega arith, (omega arith, tt)))),
      )
      (
        far-IsChunk 1000000 (omega arith, omega arith),
        (
          far-IsChunk 2000000 (omega arith, omega arith),
          (
            far-IsChunk 3000000 (omega arith, omega arith),
            (
              far-IsChunk 4000000 (omega arith, omega arith),
              (
                far-IsChunk 5000000 (omega arith, omega arith),
                (far-IsChunk 6000000 (omega arith, omega arith), tt),
              ),
            ),
          ),
        ),
      )
      (
        (
          inl (omega arith),
          (inl (omega arith), (inl (omega arith), (inl (omega arith), (inl (omega arith), tt)))),
        ),
        (
          (inl (omega arith), (inl (omega arith), (inl (omega arith), (inl (omega arith), tt)))),
          (
            (inl (omega arith), (inl (omega arith), (inl (omega arith), tt))),
            ((inl (omega arith), (inl (omega arith), tt)), ((inl (omega arith), tt), (tt, tt))),
          ),
        ),
      )

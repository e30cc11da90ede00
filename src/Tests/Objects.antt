-- ===== src/Tests/Objects.antt =====
-- Objects in chunks that malloc returns one after the other.
use softwrap.Pmem.Objects.{GivesApart, pmalloc_all, pmalloc-apart}
use softwrap.Pmem.{is_in_pmem, new_pm, pmalloc}
use softwrap.Prelude.{ℕ, ◌+◌, ◌*◌, ◌^◌, ◌≡◌, ◌≤◌, ◌⊎◌, inl, List, [], ◌∷◌, true, arith}
use softwrap.Tests.Data.{scm}

abbrev malloc : ℕ → ℕ
malloc i = 2 ^ 40 + i * 2 ^ 27

malloc-GivesApart : GivesApart malloc
malloc-GivesApart i j lt = inl (omega arith)

abbrev sizes : List ℕ
sizes = 24 ∷ 4096 ∷ []

pmalloc-apart_example :
    let (v, s) = pmalloc malloc 100 (pmalloc_all malloc sizes (new_pm scm.mem)) in
    let (w, s') = pmalloc malloc 7 (pmalloc_all malloc sizes s) in
    ((v + 100 ≤ w) ⊎ (w + 7 ≤ v)) × (is_in_pmem s'.chunks (w + 6) ≡ true)
pmalloc-apart_example =
    pmalloc-apart malloc scm.mem sizes sizes 100 7 6 malloc-GivesApart (omega arith) (omega arith)
      (omega arith) (omega arith)

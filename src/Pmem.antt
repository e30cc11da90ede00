-- ===== src/Pmem.antt =====
-- src/main/pmem.cpp and the class PM of src/main/wrap.cpp: the ranges of persistent memory, and the
-- allocator as it is without the environment variable SCM.
pub mod Objects
use softwrap.Prelude.{
  ℕ, zero, suc, ◌+◌, ◌-◌, ◌*◌, ◌/◌, ◌%◌, ◌^◌, Bool, true, false, List, [], ◌∷◌, ◌++◌, Option, none,
  some, ltb, leb, ◌==◌, ◌&&◌, if◌then◌else◌,
}
use softwrap.Scm.Bytes.{Mem, put, read_bytes, write_bytes}

pub record Chunk : Type 0 where
  pub start : ℕ
  pub size : ℕ

-- The end of a chunk is taken as a part of it.
unfoldable pub is_in_pmem : List Chunk → ℕ → Bool
is_in_pmem [] v = false
is_in_pmem (c ∷ cs) v =
    let rest = is_in_pmem cs v in if leb c.start v && leb v (c.start + c.size) then true else rest

-- The chunks without the first one that starts at `v`, the one whose index `find` returns; `none`
-- where that is -1 and `erase` is undefined.
unfoldable pub freed_pmem : ℕ → List Chunk → Option (List Chunk)
freed_pmem v [] = none
freed_pmem v (c ∷ cs) =
    let rest = freed_pmem v cs in
    if v == c.start then some cs else elim rest [ none ↦ none | some ds ↦ some (c ∷ ds) ]

unfoldable pub allocated_pmem : ℕ → ℕ → List Chunk → List Chunk
allocated_pmem start size cs = cs ++ record { start = start; size = size } ∷ []

unfoldable pub realloced_pmem : ℕ → ℕ → ℕ → List Chunk → Option (List Chunk)
unfolding allocated_pmem freed_pmem
realloced_pmem p nsize old cs = elim (freed_pmem old cs) [
  | none ↦ none
  | some ds ↦ some (allocated_pmem p nsize ds)
]

-- `last` is a 32-bit number. `mallocs` counts the calls of `malloc`.
pub record Pm : Type 0 where
  pub base : ℕ
  pub last : ℕ
  pub memchunk : ℕ
  pub mallocs : ℕ
  pub chunks : List Chunk
  pub mem : Mem

unfoldable pub new_pm : Mem → Pm
new_pm mem = record {
  base = 0;
  last = 2 ^ 27 + 1;
  memchunk = 2 ^ 27;
  mallocs = 0;
  chunks = [];
  mem = mem;
}

-- `n` zeros from `p` on, of four bytes each.
unfoldable pub zero_words : ℕ → ℕ → Mem → Mem
zero_words zero p m = m
zero_words (suc n) p m = zero_words n (p + 4) (write_bytes p (0 ∷ 0 ∷ 0 ∷ 0 ∷ []) m)

-- `b[size-i-1] = 0` for `i` from 0 on, `n` times.
unfoldable pub zero_tail : ℕ → ℕ → ℕ → ℕ → Mem → Mem
zero_tail zero i b size m = m
zero_tail (suc n) i b size m = zero_tail n (i + 1) b size (put m (b + (size - i - 1)) 0)

-- `malloc i` is what the call number `i` of malloc returns.
module _ (malloc : ℕ → ℕ) where
  unfoldable pub pmalloc : ℕ → Pm → ℕ × Pm
  pmalloc size s =
      let last = (s.last + size) % 2 ^ 32 in
      let fresh = malloc s.mallocs in
      let taken = record s {
        base = fresh;
        last = last;
        mallocs = s.mallocs + 1;
        chunks = allocated_pmem fresh s.memchunk s.chunks;
      } in
      if ltb s.memchunk last then (fresh, taken) else (s.base + s.last, record s { last = last })

  unfoldable pub pcalloc : ℕ → ℕ → Pm → ℕ × Pm
  pcalloc nmemb size s =
      let tsize = nmemb * size in
      let (p, s') = pmalloc tsize s in
      (p, record s' { mem = zero_tail (tsize % 4) 0 p size (zero_words (tsize / 4) p s'.mem) })

  -- `bcopy(p, ptr, size)` copies from `p` to `ptr`; `PFree` does nothing.
  unfoldable pub prealloc : ℕ → ℕ → Pm → ℕ × Pm
  prealloc ptr size s =
      let (p, s') = pmalloc size s in
      (p, record s' { mem = write_bytes ptr (read_bytes size p s'.mem) s'.mem })

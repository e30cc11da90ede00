-- ===== src/Pmem/Objects.antt =====
-- Where objects lie, and what is in them.
use native.Mathlib.Decide.{dec_lt}
use native.Mathlib.Nat.{mod-eq_of_lt}
use softwrap.Pmem.{
  Chunk, is_in_pmem, freed_pmem, allocated_pmem, Pm, new_pm, zero_words, zero_tail, pmalloc,
  pcalloc, prealloc,
}
use softwrap.Prelude.{
  ℕ, zero, suc, ◌+◌, ◌-◌, ◌*◌, ◌/◌, ◌%◌, ◌^◌, ◌<◌, ◌≤◌, ◌≡◌, ◌⊎◌, inl, inr, refl, ap, ◌∙◌, List, [],
  ◌∷◌, none, some, length, true, ltb, ◌==◌, arith, lt→ltb, ==_refl, Bool-cases, Option-cases,
}
use softwrap.Scm.Bytes.{
  Mem, read_bytes, length-read_bytes, write_bytes, write_bytes_outside, Holds, Holds-write_self,
  Holds-write_other, Holds-read_bytes,
}

-- A chunk that no other one starts at can be freed again, and the list is as it was.
freed_pmem-allocated_pmem :
    (start size : ℕ) (cs : List Chunk)
    → freed_pmem start cs ≡ none
    → freed_pmem start (allocated_pmem start size cs) ≡ some cs
unfolding freed_pmem allocated_pmem
freed_pmem-allocated_pmem start size [] h = rw (==_refl start)
freed_pmem-allocated_pmem start size (c ∷ cs) h = elim (Bool-cases (start == c.start)) [
  | inl e ↦ cc (rw e at h)
  | inr e ↦ elim (Option-cases (freed_pmem start cs)) [
    | inl none' ↦ rw e (rw (freed_pmem-allocated_pmem start size cs none'))
    | inr (ds, some') ↦ cc (rw (e, some') at h)
  ]
]

is_in_pmem-allocated_pmem :
    (start size v : ℕ) (cs : List Chunk)
    → (is_in_pmem cs v ≡ true) ⊎ ((start ≤ v) × (v ≤ start + size))
    → is_in_pmem (allocated_pmem start size cs) v ≡ true
unfolding is_in_pmem allocated_pmem
is_in_pmem-allocated_pmem start size v [] h = ground arith
is_in_pmem-allocated_pmem start size v (c ∷ cs) h =
    let ih = is_in_pmem-allocated_pmem start size v cs in ground (arith, ih)

zero_words_outside :
    (n p : ℕ) (m : Mem) (a : ℕ) → (a < p) ⊎ (p + 4 * n ≤ a) → zero_words n p m a ≡ m a
unfolding zero_words
zero_words_outside zero p m a h = refl
zero_words_outside (suc n) p m a h =
    zero_words_outside n (p + 4) _ a (omega (arith, h))
    ∙ write_bytes_outside p (0 ∷ 0 ∷ 0 ∷ 0 ∷ []) m a (omega (arith, h))

four_zeros :
    (p : ℕ) (m : Mem) (a : ℕ) → p ≤ a → a < p + 4 → write_bytes p (0 ∷ 0 ∷ 0 ∷ 0 ∷ []) m a ≡ 0
unfolding write_bytes
four_zeros p m a lo hi = ground arith

zero_words_inside : (n p : ℕ) (m : Mem) (a : ℕ) → p ≤ a → a < p + 4 * n → zero_words n p m a ≡ 0
unfolding zero_words
zero_words_inside zero p m a lo hi = absurd (omega arith)
zero_words_inside (suc n) p m a lo hi = elim (dec_lt a (p + 4)) [
  | no later ↦ zero_words_inside n (p + 4) _ a (omega arith) (omega arith)
  | yes here ↦ zero_words_outside n (p + 4) _ a (inl here) ∙ four_zeros p m a lo here
]

zero_tail_zero : (n i b size : ℕ) (m : Mem) (a : ℕ) → m a ≡ 0 → zero_tail n i b size m a ≡ 0
unfolding zero_tail
zero_tail_zero zero i b size m a h = h
zero_tail_zero (suc n) i b size m a h = zero_tail_zero n (i + 1) b size _ a (ground (arith, h))

zero_tail_inside :
    (n i b size j : ℕ) (m : Mem)
    → i ≤ j
    → j < i + n
    → zero_tail n i b size m (b + (size - j - 1)) ≡ 0
unfolding zero_tail
zero_tail_inside zero i b size j m lo hi = absurd (omega arith)
zero_tail_inside (suc n) i b size j m lo hi = elim (dec_lt i j) [
  | yes later ↦ zero_tail_inside n (i + 1) b size j _ (omega arith) (omega arith)
  | no here ↦
      let e : j ≡ i = omega arith in
      rw e
        (zero_tail_zero n (i + 1) b size _ (b + (size - i - 1)) (rw (==_refl (b + (size - i - 1)))))
]

abbrev pub total : List ℕ → ℕ
total [] = 0
total (x ∷ xs) = x + total xs

-- No two of the chunks that malloc returns overlap; none is given back.
abbrev pub GivesApart : (ℕ → ℕ) → Type 0
GivesApart malloc =
    (i j : ℕ) → i < j → (malloc i + 2 ^ 27 ≤ malloc j) ⊎ (malloc j + 2 ^ 27 ≤ malloc i)

module _ (malloc : ℕ → ℕ) where
  -- The allocations of the sizes in order.
  unfoldable pub pmalloc_all : List ℕ → Pm → Pm
  pmalloc_all [] s = s
  pmalloc_all (x ∷ xs) s = pmalloc_all xs (pmalloc malloc x s).1

  -- After `n` allocations of `sum` bytes.
  record IsPm (n sum : ℕ) (s : Pm) : Type 0 where
    pub chunk : s.memchunk ≡ 2 ^ 27
    pub last : s.last ≡ 2 ^ 27 + 1 + sum
    pub calls : s.mallocs ≡ n
    pub inside : (j i : ℕ) → j < n → i ≤ 2 ^ 27 → is_in_pmem s.chunks (malloc j + i) ≡ true

  pmalloc_lem :
      (n sum size : ℕ) (s : Pm)
      → IsPm n sum s
      → 2 ^ 27 + 1 + sum + size < 2 ^ 32
      → ((pmalloc malloc size s).0 ≡ malloc n) × IsPm (suc n) (sum + size) (pmalloc malloc size s).1
  unfolding pmalloc
  pmalloc_lem n sum size s is lt =
      let last : (s.last + size) % 2 ^ 32 ≡ s.last + size = mod-eq_of_lt (omega (arith, is.last)) in
      let full : ltb s.memchunk (s.last + size) ≡ true =
        lt→ltb s.memchunk (s.last + size) (omega (arith, is.chunk, is.last)) in
      rw (last, full)
        (
          ap malloc is.calls,
          record {
            chunk = is.chunk;
            last = omega (arith, is.last);
            calls = omega (arith, is.calls);
            inside = λ j i lj li.
                is_in_pmem-allocated_pmem (malloc s.mallocs) s.memchunk (malloc j + i) s.chunks
                  (elim (dec_lt j n) [
                    | yes old ↦ inl (is.inside j i old li)
                    | no new ↦
                        let e : s.mallocs ≡ j = omega (arith, is.calls) in
                        rw e (inr (omega arith, omega (arith, is.chunk)))
                  ]);
          },
        )

  IsPm-pmalloc_all :
      (xs : List ℕ) (n sum : ℕ) (s : Pm)
      → IsPm n sum s
      → 2 ^ 27 + 1 + sum + total xs < 2 ^ 32
      → IsPm (n + length xs) (sum + total xs) (pmalloc_all xs s)
  unfolding pmalloc_all
  IsPm-pmalloc_all [] n sum s is lt =
      let z : n + 0 ≡ n = omega arith in let y : sum + 0 ≡ sum = omega arith in rw (z, y) is
  IsPm-pmalloc_all (x ∷ xs) n sum s is lt =
      let one = (pmalloc_lem n sum x s is (omega arith)).1 in
      let rest = IsPm-pmalloc_all xs (suc n) (sum + x) (pmalloc malloc x s).1 one (omega arith) in
      let z : n + suc (length xs) ≡ suc n + length xs = omega arith in
      let y : sum + (x + total xs) ≡ sum + x + total xs = omega arith in rw (z, y) rest

  new_pm-IsPm : (mem : Mem) → IsPm 0 0 (new_pm mem)
  unfolding new_pm
  new_pm-IsPm mem = record {
    chunk = refl;
    last = refl;
    calls = refl;
    inside = λ j i lj. absurd (omega arith);
  }

  -- Two objects of at most 2^27 bytes, the first allocated after `xs`, the second after `ys` more,
  -- all of it less than 2^32 - 2^27 - 1 bytes, do not overlap where the chunks of malloc do not,
  -- and every byte of the second is in persistent memory.
  pub pmalloc-apart :
      (mem : Mem) (xs ys : List ℕ) (n m i : ℕ)
      → GivesApart malloc
      → n ≤ 2 ^ 27
      → m ≤ 2 ^ 27
      → i < m
      → total xs + n + total ys + m + 2 ^ 27 + 1 < 2 ^ 32
      → let (v, s) = pmalloc malloc n (pmalloc_all xs (new_pm mem)) in
        let (w, s') = pmalloc malloc m (pmalloc_all ys s) in
        ((v + n ≤ w) ⊎ (w + m ≤ v)) × (is_in_pmem s'.chunks (w + i) ≡ true)
  pmalloc-apart mem xs ys n m i apart ln lm li small =
      let first = IsPm-pmalloc_all xs 0 0 (new_pm mem) (new_pm-IsPm mem) (omega arith) in
      let (v, one) =
        pmalloc_lem (0 + length xs) (0 + total xs) n (pmalloc_all xs (new_pm mem)) first
          (omega arith) in
      let s = (pmalloc malloc n (pmalloc_all xs (new_pm mem))).1 in
      let second =
        IsPm-pmalloc_all ys (suc (0 + length xs)) (0 + total xs + n) s one (omega arith) in
      let (w, two) =
        pmalloc_lem (suc (0 + length xs) + length ys) (0 + total xs + n + total ys) m
          (pmalloc_all ys s) second (omega arith) in
      let far = apart (0 + length xs) (suc (0 + length xs) + length ys) (omega arith) in
      (
        omega (arith, far, v, w),
        rw w (two.inside (suc (0 + length xs) + length ys) i (omega arith) (omega arith)),
      )

  mem-pmalloc : (size : ℕ) (s : Pm) → (pmalloc malloc size s).1.mem ≡ s.mem
  unfolding pmalloc
  mem-pmalloc size s = elim (Bool-cases (ltb s.memchunk ((s.last + size) % 2 ^ 32))) [
    | inl e ↦ rw e
    | inr e ↦ rw e
  ]

  -- `prealloc` copies the wrong way: the object that it returns has what malloc returned, and that
  -- is also what the old object has afterwards, where the two do not overlap.
  prealloc-Holds :
      (ptr size : ℕ) (s : Pm)
      → (ptr + size ≤ (pmalloc malloc size s).0) ⊎ ((pmalloc malloc size s).0 + size ≤ ptr)
      → let (p, s') = prealloc malloc ptr size s in
        let raw = read_bytes size p s.mem in Holds s'.mem p raw × Holds s'.mem ptr raw
  unfolding prealloc
  prealloc-Holds ptr size s apart =
      let p = (pmalloc malloc size s).0 in
      let raw = read_bytes size p s.mem in
      let n = length-read_bytes size p s.mem in
      rw (mem-pmalloc size s) (
        Holds-write_other ptr raw s.mem p raw (omega (arith, n, apart))
            (Holds-read_bytes size p s.mem),
        Holds-write_self ptr raw s.mem,
      )

  -- `pcalloc` of one object of any size, or of objects that have a multiple of four bytes together,
  -- gives memory that is zero in each of their bytes.
  pcalloc_zero :
      (nmemb size i : ℕ) (s : Pm)
      → (nmemb ≡ 1) ⊎ (nmemb * size % 4 ≡ 0)
      → i < nmemb * size
      → let (p, s') = pcalloc malloc nmemb size s in s'.mem (p + i) ≡ 0
  unfolding pcalloc
  pcalloc_zero nmemb size i s shape lt =
      let tsize = nmemb * size in
      let p = (pmalloc malloc tsize s).0 in
      let m = (pmalloc malloc tsize s).1.mem in
      elim (dec_lt i (4 * (tsize / 4))) [
        | yes word ↦
            zero_tail_zero (tsize % 4) 0 p size (zero_words (tsize / 4) p m) (p + i)
              (zero_words_inside (tsize / 4) p m (p + i) (omega arith) (omega arith))
        | no tail ↦ elim shape [
          | inr whole ↦ absurd (omega (arith, whole))
          | inl one ↦
              let e : tsize ≡ size = rw one (omega arith) in
              let j = size - 1 - i in
              let at : p + (size - j - 1) ≡ p + i = omega (arith, e) in
              rw at at (
                zero_tail_inside (tsize % 4) 0 p size j (zero_words (tsize / 4) p m) (omega arith)
                  (omega (arith, e)))
        ]
      ]

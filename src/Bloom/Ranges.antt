-- ===== src/Bloom/Ranges.antt =====
-- What a check reports of what has been set, for single addresses and for aligned ranges.
use softwrap.Bloom.{
  Bloom, get_bloom, check_bloom, set_bloom, set_bloom_loop, set_bloom_range, check_bloom_loop,
  check_bloom_range,
}
use softwrap.Prelude.Bits.{bit_and-bit_or_self, bit_and-bit_or_mono}
use softwrap.Prelude.{
  ℕ, zero, suc, ◌+◌, ◌-◌, ◌*◌, ◌/◌, ◌%◌, ◌^◌, ◌≤◌, ◌<◌, ◌≡◌, ◌≢◌, ap, ◌∙◌, true, bit_and, ◌==◌,
  arith, Bool-cases, inl, inr, ==_refl, ne→==_false, ==→eq, List, [], ◌∷◌,
}

-- The granule of an address, as far as the filter tells granules apart.
pub get_bloom-granule : (a b : ℕ) → a / 4 ≡ b / 4 → get_bloom a ≡ get_bloom b
unfolding get_bloom
get_bloom-granule a b h = ap (λ (g : ℕ). bit_and g (2 ^ 16 - 1)) h

-- What the filter needs of `1 << (i & 63)`: a bit among the low 32, those that `checkBloom` returns.
abbrev pub ShiftsToLowBit : (ℕ → ℕ) → Type 0
ShiftsToLowBit int_shift = (s : ℕ) → s < 64 → int_shift s % 2 ^ 32 ≢ 0

-- Any further sets of the filter, each of some granules from an address on.
abbrev pub set_all : (ℕ → ℕ) → List (ℕ × ℕ) → Bloom → Bloom
set_all int_shift [] field = field
set_all int_shift ((n, i) ∷ more) field =
    set_all int_shift more (set_bloom_loop int_shift n i field)

module _ (int_shift : ℕ → ℕ) (shifts : ShiftsToLowBit int_shift) where
  pub check_bloom-set_self :
      (field : Bloom) (p q : ℕ)
      → get_bloom p ≡ get_bloom q
      → check_bloom int_shift (set_bloom int_shift field p) q ≡ true
  unfolding check_bloom set_bloom
  check_bloom-set_self field p q same =
      let i = get_bloom q in
      let law = bit_and-bit_or_self 32 (field (i / 64)) (int_shift (i % 64)) in
      rw (same, ==_refl (i / 64), law, ne→==_false _ 0 (shifts (i % 64) (omega arith)))

  pub check_bloom-set_mono :
      (field : Bloom) (p q : ℕ)
      → check_bloom int_shift field q ≡ true
      → check_bloom int_shift (set_bloom int_shift field p) q ≡ true
  unfolding check_bloom set_bloom
  check_bloom-set_mono field p q h =
      let i = get_bloom q in
      let j = get_bloom p in
      let law = bit_and-bit_or_mono 32 (field (i / 64)) (int_shift (j % 64)) (int_shift (i % 64)) in
      elim (Bool-cases (i / 64 == j / 64)) [
        | inr e ↦ rw e h
        | inl e ↦ let at : i / 64 ≡ j / 64 = ==→eq _ _ e in rw e (rw (← at) (ground (arith, law)))
      ]

  check_bloom_congr :
      (field : Bloom) (p q : ℕ)
      → get_bloom p ≡ get_bloom q
      → check_bloom int_shift field p ≡ check_bloom int_shift field q
  unfolding check_bloom
  check_bloom_congr field p q same = rw same

  pub set_bloom_loop_mono :
      (n i : ℕ) (field : Bloom) (q : ℕ)
      → check_bloom int_shift field q ≡ true
      → check_bloom int_shift (set_bloom_loop int_shift n i field) q ≡ true
  unfolding set_bloom_loop
  set_bloom_loop_mono zero i field q h = h
  set_bloom_loop_mono (suc n) i field q h =
      set_bloom_loop_mono n (i + 4) (set_bloom int_shift field i) q
        (check_bloom-set_mono field i q h)

  set_bloom_loop_covers :
      (n i j : ℕ) (field : Bloom) (q : ℕ)
      → j < n
      → get_bloom (i + 4 * j) ≡ get_bloom q
      → check_bloom int_shift (set_bloom_loop int_shift n i field) q ≡ true
  unfolding set_bloom_loop
  set_bloom_loop_covers zero i j field q lt same = absurd (omega arith)
  set_bloom_loop_covers (suc n) i zero field q lt same =
      let e : i + 4 * 0 ≡ i = omega arith in
      set_bloom_loop_mono n (i + 4) (set_bloom int_shift field i) q
        (check_bloom-set_self field i q (rw e at same))
  set_bloom_loop_covers (suc n) i (suc j) field q lt same =
      let e : i + 4 * suc j ≡ i + 4 + 4 * j = omega arith in
      set_bloom_loop_covers n (i + 4) j (set_bloom int_shift field i) q (omega arith) (rw e at same)

  pub set_bloom_range_mono :
      (field : Bloom) (ptr size q : ℕ)
      → check_bloom int_shift field q ≡ true
      → check_bloom int_shift (set_bloom_range int_shift field ptr size) q ≡ true
  unfolding set_bloom_range
  set_bloom_range_mono field ptr size q h = set_bloom_loop_mono (size / 4 + 1) ptr field q h

  -- A range that starts at a multiple of four is set whole.
  pub set_bloom_range_covers :
      (field : Bloom) (ptr size a : ℕ)
      → ptr % 4 ≡ 0
      → ptr ≤ a
      → a < ptr + size
      → check_bloom int_shift (set_bloom_range int_shift field ptr size) a ≡ true
  unfolding set_bloom_range
  set_bloom_range_covers field ptr size a aligned lo hi =
      let j = (a - ptr) / 4 in
      set_bloom_loop_covers (size / 4 + 1) ptr j field a (omega arith)
        (get_bloom-granule (ptr + 4 * j) a (omega arith))

  check_bloom_loop_hit :
      (n i j : ℕ) (field : Bloom)
      → j < n
      → check_bloom int_shift field (i + 4 * j) ≡ true
      → check_bloom_loop int_shift n i field ≡ true
  unfolding check_bloom_loop
  check_bloom_loop_hit zero i j field lt h = absurd (omega arith)
  check_bloom_loop_hit (suc n) i zero field lt h =
      let e : i + 4 * 0 ≡ i = omega arith in rw (rw e at h)
  check_bloom_loop_hit (suc n) i (suc j) field lt h =
      let e : i + 4 * suc j ≡ i + 4 + 4 * j = omega arith in
      ground (arith, check_bloom_loop_hit n (i + 4) j field (omega arith) (rw e at h))

  -- A check of an aligned range reports any address in it that has been set.
  pub check_bloom_range_hit :
      (field : Bloom) (src size a : ℕ)
      → src % 4 ≡ 0
      → src ≤ a
      → a < src + size
      → check_bloom int_shift field a ≡ true
      → check_bloom_range int_shift field src size ≡ true
  unfolding check_bloom_range
  check_bloom_range_hit field src size a aligned lo hi h =
      let j = (a - src) / 4 in
      let same = get_bloom-granule (src + 4 * j) a (omega arith) in
      check_bloom_loop_hit (size / 4 + 1) src j field (omega arith)
        (check_bloom_congr field (src + 4 * j) a same ∙ h)

  set_all_mono :
      (more : List (ℕ × ℕ)) (field : Bloom) (q : ℕ)
      → check_bloom int_shift field q ≡ true
      → check_bloom int_shift (set_all int_shift more field) q ≡ true
  set_all_mono [] field q h = h
  set_all_mono ((n, i) ∷ more) field q h =
      set_all_mono more (set_bloom_loop int_shift n i field) q (set_bloom_loop_mono n i field q h)

  -- No false negatives on aligned ranges: once `ptr .. ptr + size` has been set, and whatever
  -- granules have been set since, in any number of calls, a check of a range that shares an address
  -- with it reports it.
  pub check_bloom_range-set_bloom_range :
      (field : Bloom) (ptr size src width a : ℕ) (more : List (ℕ × ℕ))
      → ptr % 4 ≡ 0
      → src % 4 ≡ 0
      → (ptr ≤ a) × (a < ptr + size)
      → (src ≤ a) × (a < src + width)
      → check_bloom_range int_shift
          (set_all int_shift more (set_bloom_range int_shift field ptr size))
          src
          width
        ≡ true
  check_bloom_range-set_bloom_range field ptr size src width a more aligned aligned' inside
        inside' =
      check_bloom_range_hit _ src width a aligned' inside'.0 inside'.1
        (set_all_mono more _ a (set_bloom_range_covers field ptr size a aligned inside.0 inside.1))

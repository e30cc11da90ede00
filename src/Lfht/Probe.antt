-- ===== src/Lfht/Probe.antt =====
-- The operations as probes of the keys, and the keys after a store.
use mathlib.Core.Path.{subst}
use softwrap.Lfht.Scan.{
  Found, hit, free, full, scan, scan_sound, with_key, scan-with_key_self, scan-with_key_hit,
}
use softwrap.Lfht.{Lfht, mask, store_at, integer_hash, get_loop, set_loop}
use softwrap.Prelude.Bits.{bit_and_mask}
use softwrap.Prelude.{
  ℕ, zero, suc, ◌+◌, ◌%◌, ◌^◌, ◌<◌, ◌≡◌, ◌≢◌, ◌⊎◌, inl, inr, refl, sym, ap, ◌∙◌, fun_ext, ◌==◌,
  arith, Bool-cases, ==→eq, lt→ltb, le→ltb_false, Run, ok, abort, no_fuel,
}

abbrev pub keys : Lfht → ℕ → ℕ
keys t i = (t.entries i).key

abbrev pub home : Lfht → ℕ → ℕ
home t key = integer_hash key % t.array_size

-- A table of 2^k entries in which the probe for each stored key ends at its entry.
pub record IsTable (k : ℕ) (t : Lfht) : Type 0 where
  pub width : t.array_size ≡ 2 ^ k
  pub placed :
      (i : ℕ)
      → i < t.array_size
      → keys t i ≢ 0
      → scan t.array_size (keys t) t.array_size (keys t i) (home t (keys t i)) ≡ hit i

abbrev pub answer : Lfht → Found → Run (ℕ × ℕ)
answer t (hit i) = ok ((t.entries i).value, (t.entries i).size)
answer t (free i) = ok (0, 0)
answer t full = no_fuel

abbrev pub stored : Lfht → ℕ → ℕ → ℕ → Found → Run (ℕ × Lfht)
stored t key value size (hit i) = ok (i, store_at t i key value size)
stored t key value size (free i) =
    ok (i, store_at (record t { num_items = t.num_items + 1 }) i key value size)
stored t key value size full = abort

module _ (k : ℕ) (t : Lfht) (width : t.array_size ≡ 2 ^ k) where
  pub mask_lem : (idx : ℕ) → mask t idx ≡ idx % t.array_size
  mask_lem idx = rw width (bit_and_mask k idx)

  pub get_loop-scan :
      (fuel key idx : ℕ)
      → get_loop fuel t key idx
        ≡ answer t (scan fuel (keys t) t.array_size key (idx % t.array_size))
  unfolding get_loop scan
  get_loop-scan zero key idx = refl
  get_loop-scan (suc fuel) key idx =
      let i = idx % t.array_size in
      let ih = get_loop-scan fuel key (i + 1) in rw (mask_lem idx) (ground (arith, ih))

  pub set_loop-scan :
      (fuel l key value size idx : ℕ)
      → l + suc fuel ≡ t.array_size
      → set_loop (suc fuel) l t key value size idx
        ≡ stored t key value size (scan fuel (keys t) t.array_size key (idx % t.array_size))
  unfolding set_loop scan
  set_loop-scan zero l key value size idx e = rw (le→ltb_false (l + 1) t.array_size (omega arith))
  set_loop-scan (suc fuel) l key value size idx e =
      let i = idx % t.array_size in
      let ih = set_loop-scan fuel (l + 1) key value size (i + 1) (omega arith) in
      rw (lt→ltb (l + 1) t.array_size (omega arith), mask_lem idx) (ground (arith, ih))

pub keys-store_at :
    (t : Lfht) (i key value size : ℕ) → keys (store_at t i key value size) ≡ with_key (keys t) i key
keys-store_at t i key value size = fun_ext λ j. ground arith

pub scan_cases : (r : Found) → ((i : ℕ) × (r ≡ hit i)) ⊎ (((i : ℕ) × (r ≡ free i)) ⊎ (r ≡ full))
scan_cases (hit i) = inl (i, refl)
scan_cases (free i) = inr (inl (i, refl))
scan_cases full = inr (inr refl)

-- Storing a key that the table holds leaves its keys as they are.
pub with_key_same : (ks : ℕ → ℕ) (i key : ℕ) → ks i ≡ key → with_key ks i key ≡ ks
with_key_same ks i key h = fun_ext λ j. elim (Bool-cases (j == i)) [
  | inl e ↦ rw e (sym h ∙ ap ks (sym (==→eq j i e)))
  | inr e ↦ rw e
]

abbrev pub probe : Lfht → (ℕ → ℕ) → ℕ → Found
probe t ks q = scan t.array_size ks t.array_size q (home t q)

-- The probe for each key of `ks` ends at its entry.
abbrev pub Placed : Lfht → (ℕ → ℕ) → Type 0
Placed t ks = (i : ℕ) → i < t.array_size → ks i ≢ 0 → probe t ks (ks i) ≡ hit i

module _ (t : Lfht) (ks : ℕ → ℕ) (placed : Placed t ks) (key : ℕ) (nz : key ≢ 0) where
  pub Placed-hit : (i : ℕ) → probe t ks key ≡ hit i → Placed t (with_key ks i key)
  Placed-hit i e =
      let same : with_key ks i key ≡ ks =
        with_key_same ks i key ((scan_sound t.array_size t.array_size ks key (home t key) i).0 e) in
      subst (Placed t) (sym same) placed

  -- A key whose probe ends at a free entry is nowhere in the table.
  pub absent : (i j : ℕ) → probe t ks key ≡ free i → j < t.array_size → ks j ≢ key
  absent i j e lt same =
      let found : probe t ks (ks j) ≡ hit j = placed j lt (rw same nz) in cc (e, found, same)

  pub Placed-free : (i : ℕ) → probe t ks key ≡ free i → Placed t (with_key ks i key)
  Placed-free i e j lt = elim (Bool-cases (j == i)) [
    | inl t' ↦ rw t' (λ h.
        rw (==→eq j i t') (scan-with_key_self t.array_size t.array_size ks key (home t key) i nz e))
    | inr f' ↦ rw f' (λ h.
        scan-with_key_hit t.array_size t.array_size ks key (ks j) (home t (ks j)) i j
          ((scan_sound t.array_size t.array_size ks key (home t key) i).1 e) h (placed j lt h))
  ]

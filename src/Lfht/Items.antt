-- ===== src/Lfht/Items.antt =====
-- The table implements a map: what `SetItem` stores `GetItem` finds, and other keys keep theirs.
use native.Mathlib.Nat.{mod-lt, one-le-pow}
use mathlib.Core.Path.{subst}
use softwrap.Bloom.{Bloom, set_bloom}
use softwrap.Lfht.Scan.{
  Found, hit, free, full, scan, scan_more, scan_sound, scan-lt, with_key, scan-with_key_self,
  scan-with_key_hit, scan_ends,
}
use softwrap.Lfht.{Lfht, store_at, integer_hash, get_item, set_loop, set_item}
use softwrap.Prelude.{
  ℕ, suc, ◌+◌, ◌-◌, ◌<◌, ◌≡◌, ◌≢◌, ◌⊎◌, inl, inr, sym, ap, ◌∙◌, ◌==◌, arith, Bool-cases, ==_refl,
  ok, ok_injective,
}
use softwrap.Lfht.Probe.{
  keys, home, IsTable, answer, stored, get_loop-scan, set_loop-scan, keys-store_at, scan_cases,
  with_key_same, Placed, Placed-hit, absent, Placed-free,
}

-- What a store of `value` and `size` under `key` does, from `t` to `t'`.
pub record Stores (k : ℕ) (t : Lfht) (key value size : ℕ) (t' : Lfht) : Type 0 where
  pub table : IsTable k t'
  pub found : get_item t' key ≡ ok (value, size)
  pub others :
      (q : ℕ)
      → q ≢ 0
      → q ≢ key
      → ((z : ℕ) × (z < t'.array_size) × (keys t' z ≡ 0))
      → get_item t' q ≡ get_item t q

module _ (k : ℕ) (t : Lfht) (table : IsTable k t) (key : ℕ) (nz : key ≢ 0) where
  pub pos : 0 < t.array_size
  pos = rw table.width (one-le-pow k 2 (omega arith))

  abbrev scan_for : (ℕ → ℕ) → ℕ → Found
  scan_for ks q = scan t.array_size ks t.array_size q (home t q)

  get_item-scan : (q : ℕ) → get_item t q ≡ answer t (scan_for (keys t) q)
  unfolding get_item
  get_item-scan q = get_loop-scan k t table.width t.array_size q (integer_hash q)

  -- Where the probe ended: at the key, or at a free entry.
  abbrev pub Ended : ℕ → Type 0
  Ended i = (scan_for (keys t) key ≡ hit i) ⊎ (scan_for (keys t) key ≡ free i)

  Ended-Placed : (i : ℕ) → Ended i → Placed t (with_key (keys t) i key)
  Ended-Placed i (inl e) = Placed-hit t (keys t) table.placed key nz i e
  Ended-Placed i (inr e) = Placed-free t (keys t) table.placed key nz i e

  -- After the store the probe for the key hits its entry.
  Ended-hit : (i : ℕ) → Ended i → scan_for (with_key (keys t) i key) key ≡ hit i
  Ended-hit i (inl e) =
      let holds = (scan_sound t.array_size t.array_size (keys t) key (home t key) i).0 e in
      rw (with_key_same (keys t) i key holds) e
  Ended-hit i (inr e) =
      scan-with_key_self t.array_size t.array_size (keys t) key (home t key) i nz e

  -- A hit of another key is kept, at another entry.
  Ended-other :
      (i q at : ℕ)
      → Ended i
      → q ≢ 0
      → scan_for (keys t) q ≡ hit at
      → scan_for (with_key (keys t) i key) q ≡ hit at
  Ended-other i q at (inl e) qnz h =
      let holds = (scan_sound t.array_size t.array_size (keys t) key (home t key) i).0 e in
      rw (with_key_same (keys t) i key holds) h
  Ended-other i q at (inr e) qnz h =
      scan-with_key_hit t.array_size t.array_size (keys t) key q (home t q) i at
        ((scan_sound t.array_size t.array_size (keys t) key (home t key) i).1 e) qnz h

  -- A key that a probe misses is still missed, if it is not the one that was stored.
  Ended-missed :
      (i q at at' : ℕ)
      → Ended i
      → q ≢ 0
      → q ≢ key
      → scan_for (keys t) q ≡ free at
      → scan_for (with_key (keys t) i key) q ≢ hit at'
  Ended-missed i q at at' ended qnz ne miss h =
      let here =
        (scan_sound t.array_size t.array_size (with_key (keys t) i key) q (home t q) at').0 h in
      let lt =
        (scan-lt t.array_size t.array_size (with_key (keys t) i key) q (home t q) at'
            (mod-lt (integer_hash q) pos)).0
          h in
      absent t (keys t) table.placed q qnz at at' miss lt (elim (Bool-cases (at' == i)) [
        | inl e ↦ absurd (ne (sym (rw e at here)))
        | inr e ↦ rw e at here
      ])

module _ (k : ℕ) (t : Lfht) (table : IsTable k t) (key value size : ℕ) (nz : key ≢ 0)
    (bloom : Bloom) (count i : ℕ) (ended : Ended k t table key nz i) where
  abbrev after : Lfht
  after = store_at (record t { bloom = bloom; num_items = count }) i key value size

  after-keys : keys after ≡ with_key (keys t) i key
  after-keys = keys-store_at (record t { bloom = bloom; num_items = count }) i key value size

  after-IsTable : IsTable k after
  after-IsTable = record {
    width = table.width;
    placed = subst (Placed t) (sym after-keys) (Ended-Placed k t table key nz i ended);
  }

  after_found : get_item after key ≡ ok (value, size)
  after_found =
      let e : scan t.array_size (keys after) t.array_size key (home t key) ≡ hit i =
        rw after-keys (Ended-hit k t table key nz i ended) in
      get_item-scan k after after-IsTable key nz key ∙ rw e (rw (==_refl i))

  -- A free entry after the store was free before it.
  free_before : (z : ℕ) → keys after z ≡ 0 → keys t z ≡ 0
  free_before z h = elim (Bool-cases (z == i)) [
    | inl e ↦ absurd (nz (rw (after-keys, e) at h))
    | inr e ↦ rw (after-keys, e) at h
  ]

  same_answer : (q at : ℕ) → q ≢ key → keys after at ≡ q → answer after (hit at) ≡ answer t (hit at)
  same_answer q at ne holds = elim (Bool-cases (at == i)) [
    | inl e ↦ absurd (ne (sym (rw (after-keys, e) at holds)))
    | inr e ↦ rw e
  ]

  after_others :
      (q : ℕ)
      → q ≢ 0
      → q ≢ key
      → ((z : ℕ) × (z < t.array_size) × (keys after z ≡ 0))
      → get_item after q ≡ get_item t q
  after_others q qnz ne (z, lt, free') =
      let start = mod-lt (integer_hash q) (pos k t table key nz) in
      let whole = scan t.array_size (keys after) t.array_size q (home t q) in
      let before = scan t.array_size (keys t) t.array_size q (home t q) in
      let now = get_item-scan k after after-IsTable key nz q in
      let then' = get_item-scan k t table key nz q in
      elim (scan_cases before) [
        | inl (at, e) ↦
            let kept : whole ≡ hit at =
              rw after-keys (Ended-other k t table key nz i q at ended qnz e) in
            let holds =
              (scan_sound t.array_size t.array_size (keys after) q (home t q) at).0 kept in
            now ∙ ap (answer after) kept ∙ same_answer q at ne holds ∙ sym (then' ∙ ap (answer t) e)
        | inr (inl (at, e)) ↦ elim (scan_cases whole) [
          | inl (at', w) ↦
              absurd (Ended-missed k t table key nz i q at at' ended qnz ne e (rw after-keys at w))
          | inr (inl (at', w)) ↦ now ∙ ap (answer after) w ∙ sym (then' ∙ ap (answer t) e)
          | inr (inr w) ↦
              absurd (scan_ends t.array_size (keys after) q (home t q) z start lt free' w)
        ]
        | inr (inr e) ↦
            absurd (scan_ends t.array_size (keys t) q (home t q) z start lt (free_before z free') e)
      ]

  after-Stores : Stores k t key value size after
  after-Stores = record { table = after-IsTable; found = after_found; others = after_others }

-- Where a store ended, and what it made of the table.
pub record Taken (k : ℕ) (t : Lfht) (table : IsTable k t) (key value size : ℕ) (nz : key ≢ 0)
    (i : ℕ) (t' : Lfht) : Type 0 where
  pub bloom : Bloom
  pub count : ℕ
  pub ended : Ended k t table key nz i
  pub here : t' ≡ store_at (record t { bloom = bloom; num_items = count }) i key value size

pub set_item-Taken :
    (int_shift : ℕ → ℕ) (k : ℕ) (t : Lfht) (key value size : ℕ) (table : IsTable k t) (nz : key ≢ 0)
    (i : ℕ) (t' : Lfht)
    → set_item int_shift t key value size ≡ ok (i, t')
    → Taken k t table key value size nz i t'
unfolding set_item
set_item-Taken int_shift k t key value size table nz i t' run =
    let start = pos k t table key nz in
    let field = set_bloom int_shift t.bloom key in
    let tb = record t { bloom = field } in
    let m = t.array_size - 1 in
    let e : t.array_size ≡ suc m = omega arith in
    let probes =
      set_loop-scan k tb table.width m 0 key value size (integer_hash key) (omega arith) in
    let outcome =
      sym run ∙ ap (λ (f : ℕ). set_loop f 0 tb key value size (integer_hash key)) e ∙ probes in
    let one_more : scan m (keys t) t.array_size key (home t key) ≢ full
        → scan t.array_size (keys t) t.array_size key (home t key)
          ≡ scan m (keys t) t.array_size key (home t key) =
      λ h.
        ap (λ (f : ℕ). scan f (keys t) t.array_size key (home t key)) e
        ∙ scan_more t.array_size m (keys t) key (home t key) h in
    elim (scan_cases (scan m (keys t) t.array_size key (home t key))) [
      | inl (j, s) ↦
          let ended = one_more (λ f. cc (s, f)) ∙ s in
          let same = ok_injective (outcome ∙ ap (stored tb key value size) s) in
          let at : i ≡ j = ap (λ (r : ℕ × Lfht). r.0) same in
          record {
            bloom = field;
            count = t.num_items;
            ended = rw at (inl ended);
            here = rw at (ap (λ (r : ℕ × Lfht). r.1) same);
          }
      | inr (inl (j, s)) ↦
          let ended = one_more (λ f. cc (s, f)) ∙ s in
          let same = ok_injective (outcome ∙ ap (stored tb key value size) s) in
          let at : i ≡ j = ap (λ (r : ℕ × Lfht). r.0) same in
          record {
            bloom = field;
            count = t.num_items + 1;
            ended = rw at (inr ended);
            here = rw at (ap (λ (r : ℕ × Lfht). r.1) same);
          }
      | inr (inr s) ↦ cc (outcome ∙ ap (stored tb key value size) s)
    ]

-- A store under a key other than 0 that ends normally, in a table of 2^k entries whose probes all
-- end at their keys, gives such a table again. In it the key has the new value and size; and while
-- any entry is free, every other key reads as it did before.
pub set_item-Stores :
    (int_shift : ℕ → ℕ) (k : ℕ) (t : Lfht) (key value size : ℕ)
    → IsTable k t
    → key ≢ 0
    → (i : ℕ) (t' : Lfht) → set_item int_shift t key value size ≡ ok (i, t')
    → Stores k t key value size t'
set_item-Stores int_shift k t key value size table nz i t' run =
    let r = set_item-Taken int_shift k t key value size table nz i t' run in
    rw (r.here) (after-Stores k t table key value size nz r.bloom r.count i r.ended)

-- ===== src/Lfht/Room.antt =====
-- When a store ends normally, and when a lookup does not end.
use native.Mathlib.Decide.{dec_le}
use native.Mathlib.Nat.{one-le-pow, add-mul-mod_self_left, mod-lt, mod-eq_of_lt}
use softwrap.Bloom.{set_bloom}
use softwrap.Lfht.Items.{Stores, set_item-Stores}
use softwrap.Lfht.Probe.{IsTable, keys, home, stored, set_loop-scan, mask_lem, scan_cases}
use softwrap.Lfht.Scan.{full, scan, scan_full, scan-lt}
use softwrap.Lfht.{Lfht, store_at, integer_hash, get_loop, set_loop, set_item}
use softwrap.Prelude.{
  ℕ, zero, suc, ◌+◌, ◌-◌, ◌*◌, ◌%◌, ◌^◌, ◌<◌, ◌≡◌, ◌≢◌, inl, inr, refl, sym, ap, ◌∙◌, arith,
  ne→==_false, ok, no_fuel, Returns,
}

-- How many steps round a table of n entries lead from i to z.
abbrev steps : ℕ → ℕ → ℕ → ℕ
steps n i z = (z + n - i) % n

steps_lem : (n i z : ℕ) → i < n → z < n → (i + steps n i z) % n ≡ z × (steps n i z < n)
steps_lem n i z hi hz = elim (dec_le i z) [
  | yes le ↦
      let e : z + n - i ≡ z - i + n * 1 = omega arith in
      let s : steps n i z ≡ z - i =
        rw e (add-mul-mod_self_left (z - i) n 1 ∙ mod-eq_of_lt (omega arith)) in
      let back : i + (z - i) ≡ z = omega arith in rw s (rw back (mod-eq_of_lt hz), omega arith)
  | no gt ↦
      let s : steps n i z ≡ z + n - i = mod-eq_of_lt (omega arith) in
      let back : i + (z + n - i) ≡ z + n * 1 = omega arith in
      rw s (rw back (add-mul-mod_self_left z n 1 ∙ mod-eq_of_lt hz), omega arith)
]

-- With two free entries a probe of one round less than there are entries ends.
scan_room :
    (ks : ℕ → ℕ) (n m key i y z : ℕ)
    → n ≡ suc m
    → i < n
    → y < n
    → z < n
    → y ≢ z
    → ks y ≡ 0
    → ks z ≡ 0
    → scan m ks n key i ≢ full
scan_room ks n m key i y z e hi hy hz ne fy fz h =
    let (toy, shorty) = steps_lem n i y hi hy in
    let (toz, shortz) = steps_lem n i z hi hz in
    elim (dec_le m (steps n i y)) [
      | no p ↦ (scan_full n m ks key i (steps n i y) hi h (omega arith)).0 (rw toy fy)
      | yes p ↦ elim (dec_le m (steps n i z)) [
        | no q ↦ (scan_full n m ks key i (steps n i z) hi h (omega arith)).0 (rw toz fz)
        | yes q ↦
            let same : steps n i y ≡ steps n i z = omega arith in
            absurd (ne (sym toy ∙ ap (λ (p : ℕ). (i + p) % n) same ∙ toz))
      ]
    ]

set_item-stored :
    (int_shift : ℕ → ℕ) (k : ℕ) (t : Lfht) (key value size m : ℕ)
    → t.array_size ≡ 2 ^ k
    → t.array_size ≡ suc m
    → set_item int_shift t key value size
      ≡ stored
          (record t { bloom = set_bloom int_shift t.bloom key })
          key
          value
          size
          (scan m (keys t) t.array_size key (home t key))
unfolding set_item
set_item-stored int_shift k t key value size m width e =
    let tb = record t { bloom = set_bloom int_shift t.bloom key } in
    ap (λ (f : ℕ). set_loop f 0 tb key value size (integer_hash key)) e
    ∙ set_loop-scan k tb width m 0 key value size (integer_hash key) (omega arith)

-- While two entries are free, a store under any key ends normally: neither the assertion on the
-- number of probes fails nor does the loop go on. The index it returns lies in the table, and the
-- result is the store described by `Stores`.
pub set_item-Returns :
    (int_shift : ℕ → ℕ) (k : ℕ) (t : Lfht) (key value size y z : ℕ)
    → IsTable k t
    → key ≢ 0
    → y < t.array_size
    → z < t.array_size
    → y ≢ z
    → keys t y ≡ 0
    → keys t z ≡ 0
    → Returns
        (set_item int_shift t key value size)
        λ r. (r.0 < t.array_size) × Stores k t key value size r.1
set_item-Returns int_shift k t key value size y z table nz hy hz ne fy fz =
    let m = t.array_size - 1 in
    let e : t.array_size ≡ suc m = omega arith in
    let start = mod-lt (integer_hash key) (omega arith) in
    let probe = scan m (keys t) t.array_size key (home t key) in
    let ends = scan_room (keys t) t.array_size m key (home t key) y z e start hy hz ne fy fz in
    let tb = record t { bloom = set_bloom int_shift t.bloom key } in
    let run : set_item int_shift t key value size ≡ stored tb key value size probe =
      set_item-stored int_shift k t key value size m table.width e in
    let ok_at : (i : ℕ) (t' : Lfht)
        → i < t.array_size
        → set_item int_shift t key value size ≡ ok (i, t')
        → Returns (set_item int_shift t key value size)
            λ r. (r.0 < t.array_size) × Stores k t key value size r.1 =
      λ i t' lt r.
        ((i, t'), r, (lt, set_item-Stores int_shift k t key value size table nz i t' r)) in
    elim (scan_cases probe) [
      | inl (i, s) ↦
          ok_at i (store_at tb i key value size)
            ((scan-lt t.array_size m (keys t) key (home t key) i start).0 s)
            (run ∙ ap (stored tb key value size) s)
      | inr (inl (i, s)) ↦
          ok_at i (store_at (record tb { num_items = t.num_items + 1 }) i key value size)
            ((scan-lt t.array_size m (keys t) key (home t key) i start).1 s)
            (run ∙ ap (stored tb key value size) s)
      | inr (inr s) ↦ absurd (ends s)
    ]

-- In a table with no free entry the lookup of a key that is not there never returns: no number of
-- probes ends it.
get_loop_full :
    (k : ℕ) (t : Lfht) (key : ℕ)
    → t.array_size ≡ 2 ^ k
    → ((i : ℕ) → i < t.array_size → (keys t i ≢ 0) × (keys t i ≢ key))
    → (fuel idx : ℕ) → get_loop fuel t key idx ≡ no_fuel
unfolding get_loop
get_loop_full k t key width none' zero idx = refl
get_loop_full k t key width none' (suc fuel) idx =
    let there = mask_lem k t width idx in
    let (nz, ne) =
      none' (idx % t.array_size) (mod-lt idx (rw width (one-le-pow k 2 (omega arith)))) in
    rw there (
      rw (ne→==_false _ _ ne, ne→==_false _ _ nz)
        (get_loop_full k t key width none' fuel (idx % t.array_size + 1)))

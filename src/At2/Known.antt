-- ===== src/At2/Known.antt =====
-- How the steps move the last value that was stored under a key.
use softwrap.At2.Tables.{IsWords, IsEmpty, Has, Lacks, Known, Turn}
use softwrap.Lfht.Items.{Taken, Stores, set_item-Taken, set_item-Stores}
use softwrap.Lfht.Probe.{IsTable, Placed, keys, home, absent}
use softwrap.Lfht.Scan.{scan_sound, scan-lt}
use softwrap.Lfht.{Lfht, Entry, empty_entry, clear, set_item, integer_hash}
use native.Mathlib.Nat.{mod-lt, one-le-pow}
use softwrap.Prelude.{
  ℕ, ◌%◌, ◌^◌, ◌<◌, ◌≡◌, ◌≢◌, ◌⊎◌, inl, inr, refl, sym, ap, ◌∙◌, ◌==◌, arith, Bool-cases, ==→eq,
  lt→ltb, ok,
}
use softwrap.Scm.Bytes.{Mem, Holds, le}

module _ (k q : ℕ) (nz : q ≢ 0) (whole : q % 8 ≡ 0) where
  Has-Lacks : {P : Type 0} (t : Lfht) (v : ℕ) → Has t q v → Lacks t q → P
  Has-Lacks t v (i, lt, key, value) none = absurd (none i lt key)

  pub Known-Turn_active :
      (act act' oth : Lfht) (m m' : Mem) (v : ℕ)
      → Turn k q nz whole act m act' m'
      → Lacks oth q
      → Known act oth m q v
      → Known act' oth m' q v
  Known-Turn_active act act' oth m m' v turn none (inl h) = elim (turn.has v h) [
    | inl h' ↦ inl h'
    | inr (gone, mem) ↦ inr (gone, inr (none, mem))
  ]
  Known-Turn_active act act' oth m m' v turn none (inr (la, inl h)) = Has-Lacks oth v h none
  Known-Turn_active act act' oth m m' v turn none (inr (la, inr (lo, mem))) =
      inr (turn.lacks la, inr (lo, turn.memory v la mem))

  pub Known-Turn_other :
      (act oth oth' : Lfht) (m m' : Mem) (v : ℕ)
      → Turn k q nz whole oth m oth' m'
      → Known act oth m q v
      → Known act oth' m' q v
  Known-Turn_other act oth oth' m m' v turn (inl h) = inl h
  Known-Turn_other act oth oth' m m' v turn (inr (la, inl h)) = inr (la, turn.has v h)
  Known-Turn_other act oth oth' m m' v turn (inr (la, inr (lo, mem))) =
      inr (la, inr (turn.lacks lo, turn.memory v lo mem))

  -- The tables change their roles, where the one that becomes active is empty.
  pub Known-swap :
      (act oth : Lfht) (m : Mem) (v : ℕ) → Lacks oth q → Known act oth m q v → Known oth act m q v
  Known-swap act oth m v none (inl h) = inr (none, inl h)
  Known-swap act oth m v none (inr (la, inl h)) = Has-Lacks oth v h none
  Known-swap act oth m v none (inr (la, inr (lo, mem))) = inr (none, inr (la, mem))

  pub Known-cleared :
      (act act' oth : Lfht) (m : Mem) (v : ℕ)
      → Lacks act q
      → Lacks act' q
      → Known act oth m q v
      → Known act' oth m q v
  Known-cleared act act' oth m v none none' (inl h) = Has-Lacks act v h none
  Known-cleared act act' oth m v none none' (inr (la, rest)) = inr (none', rest)

  -- With both tables empty the value is in memory.
  pub Known-Holds :
      (act oth : Lfht) (m : Mem) (v : ℕ)
      → Lacks act q
      → Lacks oth q
      → Known act oth m q v
      → Holds m q (le 8 v)
  Known-Holds act oth m v none none' (inl h) = Has-Lacks act v h none
  Known-Holds act oth m v none none' (inr (la, inl h)) = Has-Lacks oth v h none'
  Known-Holds act oth m v none none' (inr (la, inr (lo, mem))) = mem

clear_lem : (t : Lfht) (i : ℕ) → i < t.array_size → (clear t).entries i ≡ empty_entry
unfolding clear
clear_lem t i lt = rw (lt→ltb i t.array_size lt)

pub IsEmpty-clear : (t : Lfht) → IsEmpty (clear t)
unfolding clear
IsEmpty-clear t i lt = ap (λ (e : Entry). e.key) (clear_lem t i lt)

pub IsWords-clear : (k : ℕ) (t : Lfht) → t.array_size ≡ 2 ^ k → IsWords k (clear t)
unfolding clear
IsWords-clear k t width = record {
  width = width;
  words = λ i lt. rw (lt→ltb i t.array_size lt) ((omega arith, omega arith), inl refl);
  unique = λ i j li lj taken e. absurd (taken (IsEmpty-clear t i li));
}

module _ (int_shift : ℕ → ℕ) (k : ℕ) (t t' : Lfht) (ptr value i : ℕ) (good : IsWords k t)
    (placed : Placed t (keys t)) (nz : ptr ≢ 0) (at : ptr % 8 ≡ 0)
    (run : set_item int_shift t ptr value 8 ≡ ok (i, t')) where
  abbrev table : IsTable k t
  table = record { width = good.width; placed = placed }

  taken : Taken k t table ptr value 8 nz i t'
  taken = set_item-Taken int_shift k t ptr value 8 table nz i t' run

  pub stores : Stores k t ptr value 8 t'
  stores = set_item-Stores int_shift k t ptr value 8 table nz i t' run

  size_kept : t'.array_size ≡ t.array_size
  size_kept = ap (λ (u : Lfht). u.array_size) taken.here

  in_table : i < t.array_size
  in_table =
      let start = mod-lt (integer_hash ptr) (rw good.width (one-le-pow k 2 (omega arith))) in
      let inside = scan-lt t.array_size t.array_size (keys t) ptr (home t ptr) i start in
      elim (taken.ended) [ inl e ↦ inside.0 e | inr e ↦ inside.1 e ]

  stored_cases :
      (j : ℕ)
      → ((j ≡ i) × (t'.entries j ≡ record { key = ptr; value = value; size = 8 }))
        ⊎ ((j ≢ i) × (t'.entries j ≡ t.entries j))
  stored_cases j =
      let there = ap (λ (u : Lfht). u.entries j) taken.here in
      elim (Bool-cases (j == i)) [
        | inl e ↦ inl (==→eq j i e, there ∙ rw e)
        | inr e ↦ inr (λ z. ground (arith, z, e), there ∙ rw e)
      ]

  at_place : (keys t i ≡ ptr) ⊎ (keys t i ≡ 0)
  at_place =
      let sound = scan_sound t.array_size t.array_size (keys t) ptr (home t ptr) i in
      elim (taken.ended) [ inl e ↦ inl (sound.0 e) | inr e ↦ inr (sound.1 e) ]

  -- No other entry has the key.
  alone : (j : ℕ) → j < t.array_size → keys t j ≡ ptr → j ≡ i
  alone j lt e =
      let sound = scan_sound t.array_size t.array_size (keys t) ptr (home t ptr) i in
      elim (taken.ended) [
        | inl h ↦ good.unique j i lt in_table (λ z. nz (sym e ∙ z)) (e ∙ sym (sound.0 h))
        | inr f ↦ absurd (absent t (keys t) placed ptr nz i j f lt e)
      ]

  -- The key of a table's entry before the store, where it is not the one that was stored.
  old_key : (j : ℕ) → keys t' j ≢ ptr → (j ≢ i) × (keys t' j ≡ keys t j)
  old_key j ne = elim (stored_cases j) [
    | inl (z, here) ↦ absurd (ne (ap (λ (d : Entry). d.key) here))
    | inr (nz, same) ↦ (nz, ap (λ (d : Entry). d.key) same)
  ]

  only : (j : ℕ) → j < t.array_size → keys t' j ≡ ptr → j ≡ i
  only j lt e = elim (stored_cases j) [
    | inl (z, here) ↦ z
    | inr (nz, same) ↦ alone j lt (sym (ap (λ (d : Entry). d.key) same) ∙ e)
  ]

  pub store-IsWords : IsWords k t'
  store-IsWords = record {
    width = size_kept ∙ good.width;
    words = λ j lt. elim (stored_cases j) [
      | inl (z, here) ↦ rw here ((omega arith, omega arith), inr (refl, at))
      | inr (nz, same) ↦ rw same (good.words j (omega (arith, size_kept)))
    ];
    unique = λ a b la lb nonzero e. elim (Bool-cases (keys t' a == ptr)) [
      | inl h ↦
          let p = ==→eq (keys t' a) ptr h in
          only a (omega (arith, size_kept)) p ∙ sym (only b (omega (arith, size_kept)) (sym e ∙ p))
      | inr h ↦
          let ne : keys t' a ≢ ptr = λ z. ground (arith, z, h) in
          let ka = (old_key a ne).1 in
          let kb = (old_key b (λ z. ne (e ∙ z))).1 in
          good.unique a b (omega (arith, size_kept)) (omega (arith, size_kept))
            (λ z. nonzero (ka ∙ z)) (sym ka ∙ e ∙ kb)
    ];
  }

  pub store-Has_self : Has t' ptr value
  store-Has_self = elim (stored_cases i) [
    | inl (e, here) ↦ (
      i,
      omega (arith, in_table, size_kept),
      ap (λ (d : Entry). d.key) here,
      ap (λ (d : Entry). d.value) here,
    )
    | inr (ne, same) ↦ absurd (ne refl)
  ]

  module _ (q : ℕ) (nq : q ≢ 0) (ne : q ≢ ptr) where
    store-Lacks : Lacks t q → Lacks t' q
    store-Lacks none j lt e = elim (stored_cases j) [
      | inl (z, here) ↦ absurd (ne (sym e ∙ ap (λ (d : Entry). d.key) here))
      | inr (nz, same) ↦
          none j (omega (arith, size_kept)) (sym (ap (λ (d : Entry). d.key) same) ∙ e)
    ]

    store-Has : (v : ℕ) → Has t q v → Has t' q v
    store-Has v (j, lt, key, val) = elim (stored_cases j) [
      | inl (z, here) ↦ absurd (elim at_place [
        | inl p ↦ ne (sym key ∙ ap (keys t) z ∙ p)
        | inr p ↦ nq (sym key ∙ ap (keys t) z ∙ p)
      ])
      | inr (far, same) ↦ (
        j,
        omega (arith, size_kept),
        ap (λ (d : Entry). d.key) same ∙ key,
        ap (λ (d : Entry). d.value) same ∙ val,
      )
    ]

    pub Known-store : (oth : Lfht) (m : Mem) (v : ℕ) → Known t oth m q v → Known t' oth m q v
    Known-store oth m v (inl h) = inl (store-Has v h)
    Known-store oth m v (inr (la, rest)) = inr (store-Lacks la, rest)

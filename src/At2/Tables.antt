-- ===== src/At2/Tables.antt =====
-- The data of the two tables: where the last value that was stored under a key is.
use softwrap.AliasHash.Restore.{IsShort, Home, Spared, Freed, restore_entry_lem}
use softwrap.AliasHash.{restore_entry}
use softwrap.Lfht.Probe.{keys}
use softwrap.Lfht.{Lfht, Entry}
use softwrap.Prelude.{
  ℕ, ◌+◌, ◌%◌, ◌^◌, ◌<◌, ◌≤◌, ◌≡◌, ◌≢◌, ◌⊎◌, inl, inr, sym, ap, ◌∙◌, ◌==◌, arith, Bool-cases, ==→eq,
  ok,
}
use softwrap.Scm.Bytes.{Holds_congr, Mem, Holds, le, length-le}
use softwrap.Scm.{Scm}

-- An entry that is free, or holds a word at a multiple of eight.
abbrev pub IsWord : Entry → Type 0
IsWord e = IsShort e × ((e.key ≡ 0) ⊎ ((e.size ≡ 8) × (e.key % 8 ≡ 0)))

-- A table of 2^k entries that hold words, each key once.
pub record IsWords (k : ℕ) (t : Lfht) : Type 0 where
  pub width : t.array_size ≡ 2 ^ k
  pub words : (i : ℕ) → i < t.array_size → IsWord (t.entries i)
  pub unique :
      (i j : ℕ) → i < t.array_size → j < t.array_size → keys t i ≢ 0 → keys t i ≡ keys t j → i ≡ j

abbrev pub IsEmpty : Lfht → Type 0
IsEmpty t = (i : ℕ) → i < t.array_size → keys t i ≡ 0

-- An entry has the value `v` under `q`.
abbrev pub Has : Lfht → ℕ → ℕ → Type 0
Has t q v = (i : ℕ) × (i < t.array_size) × (keys t i ≡ q) × ((t.entries i).value ≡ v)

abbrev pub Lacks : Lfht → ℕ → Type 0
Lacks t q = (i : ℕ) → i < t.array_size → keys t i ≢ q

-- The value is in the active table, or else in the other one, or else in memory.
abbrev pub Known : Lfht → Lfht → Mem → ℕ → ℕ → Type 0
Known act oth m q v =
    Has act q v ⊎ (Lacks act q × (Has oth q v ⊎ (Lacks oth q × Holds m q (le 8 v))))

module _ (k q : ℕ) (nz : q ≢ 0) (whole : q % 8 ≡ 0) where
  pub Lacks-empty : (t : Lfht) → IsEmpty t → Lacks t q
  Lacks-empty t none i lt e = nz (sym e ∙ none i lt)

  -- One turn of a restore, on the table alone.
  pub record Turn (t : Lfht) (m : Mem) (t' : Lfht) (m' : Mem) : Type 0 where
    pub words : IsWords k t'
    pub has : (v : ℕ) → Has t q v → Has t' q v ⊎ (Lacks t' q × Holds m' q (le 8 v))
    pub lacks : Lacks t q → Lacks t' q
    pub memory : (v : ℕ) → Lacks t q → Holds m q (le 8 v) → Holds m' q (le 8 v)

  Freed-cases :
      (t t' : Lfht) (i j : ℕ)
      → Freed t i t'
      → ((j ≡ i) × (keys t' j ≡ 0)) ⊎ ((j ≢ i) × (t'.entries j ≡ t.entries j))
  Freed-cases t t' i j freed = elim (Bool-cases (j == i)) [
    | inl e ↦ let z = ==→eq j i e in inl (z, rw z freed.there)
    | inr e ↦ let ne : j ≢ i = λ z. ground (arith, z, e) in inr (ne, freed.others j ne)
  ]

  Freed-key :
      (t t' : Lfht) (i j : ℕ) → Freed t i t' → keys t' j ≢ 0 → (j ≢ i) × (keys t' j ≡ keys t j)
  Freed-key t t' i j freed taken = elim (Freed-cases t t' i j freed) [
    | inl (e, none) ↦ absurd (taken none)
    | inr (ne, same) ↦ (ne, ap (λ (e : Entry). e.key) same)
  ]

  Freed-IsWords :
      (t t' : Lfht) (i : ℕ) → i < t.array_size → IsWords k t → Freed t i t' → IsWords k t'
  Freed-IsWords t t' i at good freed = record {
    width = freed.size ∙ good.width;
    words = λ j lt. elim (Freed-cases t t' i j freed) [
      | inl (e, none) ↦
          let old = (good.words i at).0 in
          let size : (t'.entries j).size ≡ (t.entries i).size = rw e freed.kept in
          ((omega (arith, size, old.0), λ two. old.1 (sym size ∙ two)), inl none)
      | inr (ne, same) ↦ rw same (good.words j (omega (arith, freed.size)))
    ];
    unique = λ a b la lb taken e.
        let (na, ka) = Freed-key t t' i a freed taken in
        let (nb, kb) = Freed-key t t' i b freed (λ z. taken (e ∙ z)) in
        good.unique a b (omega (arith, freed.size)) (omega (arith, freed.size))
          (λ z. taken (ka ∙ z)) (sym ka ∙ e ∙ kb);
  }

  Freed-Lacks :
      (t t' : Lfht) (i : ℕ)
      → Freed t i t'
      → ((j : ℕ) → j < t.array_size → j ≢ i → keys t j ≢ q)
      → Lacks t' q
  Freed-Lacks t t' i freed rest j lt e =
      let (ne, same) = Freed-key t t' i j freed (λ z. nz (sym e ∙ z)) in
      rest j (omega (arith, freed.size)) ne (sym same ∙ e)

  home_lem :
      (e : Entry) (m : Mem) (v : ℕ)
      → e.key ≡ q
      → e.value ≡ v
      → (e.key ≡ 0) ⊎ ((e.size ≡ 8) × (e.key % 8 ≡ 0))
      → Home m e
      → Holds m q (le 8 v)
  home_lem e m v key value (inl z) home' = absurd (nz (sym key ∙ z))
  home_lem e m v key value (inr (size, at)) home' =
      rw (key, size, value) at (home' (λ z. nz (sym key ∙ z)))

  spared_lem :
      (e : Entry) (a : ℕ)
      → (e.key ≡ 0) ⊎ ((e.size ≡ 8) × (e.key % 8 ≡ 0))
      → e.key ≢ q
      → q ≤ a
      → a < q + 8
      → Spared a e
  spared_lem e a (inl z) ne lo hi = inl z
  spared_lem e a (inr (size, at)) ne lo hi = inr (omega (arith, ne, whole))

  pub turn_lem :
      (t : Lfht) (st : Scm) (i : ℕ)
      → i < t.array_size
      → IsWords k t
      → (r : Lfht × Scm) × (restore_entry i (t, st) ≡ ok r)
        × Freed t i r.0
        × Turn t st.mem r.0 r.1.mem
  turn_lem t st i lt good =
      let (r, run, one) = restore_entry_lem t st i (good.words i lt).0 in
      let word = (good.words i lt).1 in
      (
        r,
        run,
        one.freed,
        record {
          words = Freed-IsWords t r.0 i lt good one.freed;
          has = λ v h.
              let (j, lj, key, value) = h in
              elim (Freed-cases t r.0 i j one.freed) [
                | inl (e, none) ↦
                    let taken : keys t i ≢ 0 = λ z. nz (sym key ∙ ap (keys t) e ∙ z) in
                    inr (
                      Freed-Lacks t r.0 i one.freed (λ l ll ne here. ne (
                          good.unique l i ll lt (λ z. nz (sym here ∙ z))
                            (here ∙ sym key ∙ ap (keys t) e))),
                      home_lem (t.entries i) r.1.mem v (sym (ap (keys t) e) ∙ key)
                          (sym (ap (λ (n : ℕ). (t.entries n).value) e) ∙ value) word one.home,
                    )
                | inr (ne, same) ↦ inl (
                  j,
                  omega (arith, one.freed.size),
                  ap (λ (e : Entry). e.key) same ∙ key,
                  ap (λ (e : Entry). e.value) same ∙ value,
                )
              ];
          lacks = λ none. Freed-Lacks t r.0 i one.freed (λ j lj ne. none j lj);
          memory = λ v none h.
              Holds_congr st.mem r.1.mem q (le 8 v)
                (λ a lo hi.
                  one.spared a
                    (spared_lem (t.entries i) a word (none i lt) lo (omega (arith, length-le 8 v))))
                h;
        },
      )

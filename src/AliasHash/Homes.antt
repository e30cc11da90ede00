-- ===== src/AliasHash/Homes.antt =====
-- The restore of a whole table, as its lookups see it, and an entry that cannot be restored.
use softwrap.AliasHash.Restore.{ApartFrom, IsShort, Spared, free_entry, restore_loop_lem}
use softwrap.AliasHash.{
  AliasHash, restore_entry, restore_loop, restore_all_elements, store, finish_restore,
}
use softwrap.Lfht.Items.{set_item-Stores}
use softwrap.Lfht.Probe.{IsTable, keys, home, answer, get_loop-scan, scan_cases}
use softwrap.Lfht.Scan.{free, scan, scan_sound, scan-lt}
use softwrap.Lfht.{Lfht, Entry, get_item, set_item, integer_hash}
use native.Mathlib.Decide.{dec_lt}
use native.Mathlib.Nat.{mod-lt, one-le-pow}
use softwrap.Prelude.{
  ℕ, zero, suc, ◌+◌, ◌<◌, ◌≡◌, ◌≢◌, ◌≤◌, ◌==◌, ◌-◌, ◌^◌, ne→==_false, ◌⊎◌, inl, inr, refl, sym, ap,
  ◌∙◌, arith, ok_injective, bind-ok, Bool-cases, ltb, ok, abort, Returns,
}
use softwrap.Scm.Bytes.{Holds, le, read_bytes, write_bytes}
use softwrap.Scm.{Scm, p_msync, ntstore_bytes}

-- A table whose entries all have one of the sizes that are stored as they are, and restore no common
-- address.
pub record Restorable (k : ℕ) (t : Lfht) : Type 0 where
  pub table : IsTable k t
  pub short : (i : ℕ) → i < t.array_size → IsShort (t.entries i)
  pub apart : (i j : ℕ) → i < j → j < t.array_size → ApartFrom (t.entries i) (t.entries j)

-- A lookup that ends normally has found its key at an entry, or has found nothing.
pub get_item_cases :
    (k : ℕ) (t : Lfht) (q v n : ℕ)
    → IsTable k t
    → get_item t q ≡ ok (v, n)
    → ((i : ℕ) × (i < t.array_size)
        × (keys t i ≡ q)
        × ((t.entries i).value ≡ v)
        × ((t.entries i).size ≡ n))
      ⊎ (n ≡ 0)
unfolding get_item
get_item_cases k t q v n table found =
    let whole = scan t.array_size (keys t) t.array_size q (home t q) in
    let run : answer t whole ≡ ok (v, n) =
      sym (get_loop-scan k t table.width t.array_size q (integer_hash q)) ∙ found in
    let pos : 0 < t.array_size = rw table.width (one-le-pow k 2 (omega arith)) in
    elim (scan_cases whole) [
      | inl (i, e) ↦
          let here : ((t.entries i).value, (t.entries i).size) ≡ (v, n) =
            ok_injective (sym (ap (answer t) e) ∙ run) in
          inl (
            i,
            (scan-lt t.array_size t.array_size (keys t) q (home t q) i
                  (mod-lt (integer_hash q) pos)).0
                e,
            (scan_sound t.array_size t.array_size (keys t) q (home t q) i).0 e,
            ap (λ (x : ℕ × ℕ). x.0) here,
            ap (λ (x : ℕ × ℕ). x.1) here,
          )
      | inr (inl (i, e)) ↦
          let nothing : (0, 0) ≡ (v, n) = ok_injective (sym (ap (answer t) e) ∙ run) in
          inr (sym (ap (λ (x : ℕ × ℕ). x.1) nothing))
      | inr (inr e) ↦ cc (sym (ap (answer t) e) ∙ run)
    ]

restore_entry-two :
    (i : ℕ) (t : Lfht) (st : Scm)
    → keys t i ≢ 0
    → (t.entries i).size ≡ 2
    → restore_entry i (t, st) ≡ abort
unfolding restore_entry
restore_entry-two i t st nz two = rw (ne→==_false (keys t i) 0 nz, two)

-- A turn of the loop fails its assertion, or goes on and leaves the other entries.
restore_entry_cases :
    (i : ℕ) (t : Lfht) (st : Scm)
    → (restore_entry i (t, st) ≡ abort)
      ⊎ ((r : Lfht × Scm) × (restore_entry i (t, st) ≡ ok r)
          × ((j : ℕ) → j ≢ i → r.0.entries j ≡ t.entries j))
unfolding restore_entry
restore_entry_cases i t st =
    let e = t.entries i in
    let others : (j : ℕ) → j ≢ i → (free_entry t i).entries j ≡ t.entries j =
      λ j ne. rw (ne→==_false j i ne) in
    elim (Bool-cases (e.key == 0)) [
      | inl unused ↦ inr ((t, st), rw unused, λ j ne. refl)
      | inr taken ↦ elim (Bool-cases (e.size == 4)) [
        | inl four ↦
            inr ((free_entry t i, ntstore_bytes e.key (le 4 e.value) st), rw (taken, four), others)
        | inr not_four ↦ elim (Bool-cases (e.size == 2)) [
          | inl two ↦ inl (rw (taken, not_four, two))
          | inr not_two ↦ elim (Bool-cases (ltb 8 e.size)) [
            | inl long ↦ inr (
              (
                free_entry t i,
                record st { mem = write_bytes e.key (read_bytes e.size e.value st.mem) st.mem },
              ),
              rw (taken, not_four, not_two, long),
              others,
            )
            | inr short ↦ inr (
              (free_entry t i, ntstore_bytes e.key (le e.size e.value) st),
              rw (taken, not_four, not_two, short),
              others,
            )
          ]
        ]
      ]
    ]

-- An entry of two bytes stops the loop, wherever it stands.
restore_loop-two :
    (n i j : ℕ) (t : Lfht) (st : Scm)
    → i ≤ j
    → j < i + n
    → keys t j ≢ 0
    → (t.entries j).size ≡ 2
    → restore_loop n i (t, st) ≡ abort
unfolding restore_loop
restore_loop-two zero i j t st p q nz two = absurd (omega arith)
restore_loop-two (suc n) i j t st p q nz two = elim (restore_entry_cases i t st) [
  | inl stops ↦ rw stops
  | inr (r, run, others) ↦ elim (dec_lt i j) [
    | yes later ↦
        let same = others j (λ z. omega (arith, z)) in
        rw run (
          restore_loop-two n (i + 1) j r.0 r.1 (omega arith) (omega arith)
            (λ z. nz (sym (ap (λ (e : Entry). e.key) same) ∙ z))
            (ap (λ (e : Entry). e.size) same ∙ two))
    | no here ↦
        let e : j ≡ i = omega arith in
        cc (sym run ∙ restore_entry-two i t st (rw e at nz) (rw e at two))
  ]
]

-- When a store of two bytes is accepted, the restore that comes next fails
-- its assertion, in any table in which every stored key is found, under a key other than 0.
pub restore_all_elements-store :
    (int_shift : ℕ → ℕ) (k ptr value : ℕ) (h h' : AliasHash) (st : Scm)
    → IsTable k h.table
    → ptr ≢ 0
    → store int_shift ptr value 2 h ≡ ok h'
    → restore_all_elements (h', st) ≡ abort
unfolding store restore_all_elements
restore_all_elements-store int_shift k ptr value h h' st table nz run =
    let ((i, t'), set, last) = bind-ok (set_item int_shift h.table ptr value 2) _ h' run in
    let stores = set_item-Stores int_shift k h.table ptr value 2 table nz i t' set in
    let e : h'.table ≡ t' = ap (λ (g : AliasHash). g.table) (sym (ok_injective last)) in
    elim (get_item_cases k t' ptr value 2 stores.table stores.found) [
      | inl (j, lt, key, v, two) ↦ rw e (
          rw (restore_loop-two t'.array_size 0 j t' st (omega arith) (omega arith) (rw key nz) two))
      | inr none ↦ absurd (omega arith)
    ]

-- With no key in the table every lookup finds nothing.
pub get_item-empty :
    (k : ℕ) (t : Lfht) (q : ℕ)
    → t.array_size ≡ 2 ^ k
    → ((i : ℕ) → i < t.array_size → keys t i ≡ 0)
    → q ≢ 0
    → get_item t q ≡ ok (0, 0)
unfolding get_item scan
get_item-empty k t q width none nz =
    let pos : 0 < t.array_size = rw width (one-le-pow k 2 (omega arith)) in
    let e : t.array_size ≡ suc (t.array_size - 1) = omega arith in
    let i = home t q in
    let here : keys t i ≡ 0 = none i (mod-lt (integer_hash q) pos) in
    let ends : scan (suc (t.array_size - 1)) (keys t) t.array_size q i ≡ free i =
      rw (here, ne→==_false 0 q (λ z. nz (sym z))) in
    let all = ap (λ (f : ℕ). scan f (keys t) t.array_size q i) e ∙ ends in
    get_loop-scan k t width t.array_size q (integer_hash q) ∙ ap (answer t) all

-- The restore of a restorable table ends normally, with no item counted. It puts home what the
-- lookups found: where a lookup of `q`, other than 0, gave the value `v` of size `n`, memory has
-- the `n` low bytes of `v` at `q`. An address that no entry covers keeps its byte, and afterwards a
-- lookup of `q` finds nothing.
pub restore_all_elements-Returns :
    (k : ℕ) (h : AliasHash) (st : Scm) (q v n a : ℕ)
    → Restorable k h.table
    → q ≢ 0
    → get_item h.table q ≡ ok (v, n)
    → ((i : ℕ) → i < h.table.array_size → Spared a (h.table.entries i))
    → Returns (restore_all_elements (h, st)) λ r.
      (r.0.table.num_items ≡ 0)
      × Holds r.1.mem q (le n v)
      × (r.1.mem a ≡ st.mem a)
      × (get_item r.0.table q ≡ ok (0, 0))
unfolding restore_all_elements p_msync le
restore_all_elements-Returns k h st q v n a good nz found spared =
    let t = h.table in
    let ((t', st'), run, done) =
      restore_loop_lem t.array_size 0 t st (λ j p l. good.short j (omega arith))
        (λ i j p l s. good.apart i j l (omega arith)) in
    let r = finish_restore h (t', st') in
    let home' : Holds st'.mem q (le n v) = elim (get_item_cases k t q v n good.table found) [
      | inl (i, lt, key, value, size) ↦
          rw (key, value, size) at (done.home i (omega arith) (omega arith) (rw key nz))
      | inr none ↦ rw none tt
    ] in
    let gone =
      get_item-empty k r.0.table q (done.size ∙ good.table.width)
        (λ i lt. done.gone i (omega arith) (omega (arith, done.size, lt))) nz in
    (r, rw run, (refl, home', done.spared a (λ j p l. spared j (omega arith)), gone))

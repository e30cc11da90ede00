-- ===== src/Atl/Listed.antt =====
-- The look-aside during a wrap, as long as the program stores numbers that are all allowed, and of
-- any two allowed numbers either both have one address or they have no common byte.
use softwrap.AliasHash.Restore.{ApartFrom}
use softwrap.Atl.Closed.{IsListed}
use softwrap.Atl.Copies.{HasWidth}
use softwrap.Atl.Restored.{Contains}
use softwrap.Atl.{Atl, on_wrap_open, store}
use softwrap.Lfht.Items.{set_item-Taken, set_item-Stores}
use softwrap.Lfht.Probe.{IsTable, keys, probe, home}
use softwrap.Lfht.Scan.{Found, hit, free, full, scan-lt, scan_sound}
use mathlib.Core.Path.{subst}
use native.Mathlib.Nat.{mod-lt, one-le-pow}
use softwrap.Lfht.{update, Entry, Lfht, set_item, integer_hash}
use softwrap.Prelude.{
  ℕ, ◌+◌, ◌<◌, ◌≤◌, ◌≡◌, ◌≢◌, ◌⊎◌, inl, inr, sym, ap, ◌∙◌, arith, Bool-cases, ltb, ◌==◌, ==_refl,
  ==→eq, ne→==_false, lt→ltb, ok, if◌then◌else◌, ◌&&◌, bind-ok, ok_injective,
}

-- Numbers that can be restored, of which any two have one address or no common byte.
pub record IsSound (Allowed : Entry → Type 0) : Type 0 where
  pub taken : (e : Entry) → Allowed e → e.key ≢ 0
  pub width : (e : Entry) → Allowed e → HasWidth e
  pub apart : (d e : Entry) → Allowed d → Allowed e → (d.key ≡ e.key) ⊎ ApartFrom d e

-- The look-aside, and allowed numbers only.
pub record Storing (Allowed : Entry → Type 0) (k : ℕ) (t : Atl) : Type 0 where
  pub listed : IsListed k t
  pub allowed :
      (i : ℕ)
      → i < t.base.table.array_size
      → keys t.base.table i ≢ 0
      → Allowed (t.base.table.entries i)

found_at : Found → ℕ
found_at (hit i) = i
found_at (free i) = i
found_at full = 0

module _ (Allowed : Entry → Type 0) (sound : IsSound Allowed) (k : ℕ) where
  -- In a table with no key at two entries, allowed entries share no byte.
  apart_lem :
      (t : Lfht)
      → IsTable k t
      → ((i : ℕ) → i < t.array_size → keys t i ≢ 0 → Allowed (t.entries i))
      → (i j : ℕ) → i < t.array_size
      → j < t.array_size
      → i ≢ j
      → ApartFrom (t.entries i) (t.entries j)
  unfolding found_at
  apart_lem t table allowed i j p q ne = elim (Bool-cases (keys t i == 0)) [
    | inl z ↦ inl (==→eq (keys t i) 0 z)
    | inr nz ↦ elim (Bool-cases (keys t j == 0)) [
      | inl z ↦ inr (inl (==→eq (keys t j) 0 z))
      | inr nz' ↦
          let at_i : keys t i ≢ 0 = λ z. ground (arith, z, nz) in
          let at_j : keys t j ≢ 0 = λ z. ground (arith, z, nz') in
          elim (sound.apart (t.entries i) (t.entries j) (allowed i p at_i) (allowed j q at_j)) [
            | inr far ↦ far
            | inl same ↦ absurd (
                ne (
                  ap found_at (
                    sym (table.placed i p at_i)
                    ∙ ap (probe t (keys t)) same
                    ∙ table.placed j q at_j)))
          ]
    ]
  ]

  Storing-intro :
      (t : Atl)
      → IsTable k t.base.table
      → ((i : ℕ)
          → i < t.base.table.array_size
          → keys t.base.table i ≢ 0
          → Allowed (t.base.table.entries i))
      → ((j : ℕ)
          → t.index ≤ t.limit
          → j < t.base.table.array_size
          → keys t.base.table j ≢ 0
          → (i : ℕ) × (i < t.index) × (t.lookaside i ≡ j))
      → ((i : ℕ)
          → t.index ≤ t.limit
          → i < t.index
          → (t.lookaside i < t.base.table.array_size) × (keys t.base.table (t.lookaside i) ≢ 0))
      → Storing Allowed k t
  Storing-intro t table allowed known listed = record {
    listed = record {
      table = table;
      widths = λ i lt nz. sound.width (t.base.table.entries i) (allowed i lt nz);
      apart = apart_lem t.base.table table allowed;
      known = known;
      listed = listed;
    };
    allowed = allowed;
  }

  pub on_wrap_open-Storing :
      (t : Atl)
      → IsTable k t.base.table
      → ((i : ℕ) → i < t.base.table.array_size → keys t.base.table i ≡ 0)
      → Storing Allowed k (on_wrap_open t)
  unfolding on_wrap_open
  on_wrap_open-Storing t table none =
      Storing-intro (on_wrap_open t) table (λ i lt nz. absurd (nz (none i lt)))
        (λ j few lt nz. absurd (nz (none j lt))) (λ i few lt. absurd (omega arith))

  -- The table and the look-aside after a store at entry `i`.
  abbrev listing : Lfht → ℕ → Atl → Atl
  listing tb i t = record t {
    base = record t.base { table = tb };
    lookaside = λ l. if l == t.index && ltb t.index t.limit then i else t.lookaside l;
    index = t.index + 1;
  }

  listing-Storing :
      (e : Entry) (t : Atl) (tb : Lfht) (i : ℕ)
      → Storing Allowed k t
      → Allowed e
      → IsTable k tb
      → tb.array_size ≡ t.base.table.array_size
      → i < tb.array_size
      → tb.entries i ≡ e
      → ((j : ℕ) → j ≢ i → tb.entries j ≡ t.base.table.entries j)
      → Storing Allowed k (listing tb i t)
  listing-Storing e t tb i was may table size lt here others =
      let entry : (j : ℕ) → (j ≡ i) ⊎ ((j ≢ i) × (tb.entries j ≡ t.base.table.entries j)) = λ j.
        elim (Bool-cases (j == i)) [
          | inl y ↦ inl (==→eq j i y)
          | inr n ↦ let ne : j ≢ i = λ z. ground (arith, z, n) in inr (ne, others j ne)
        ] in
      let at_i : keys tb i ≢ 0 =
        λ z. sound.taken e may (sym (ap (λ (d : Entry). d.key) here) ∙ z) in
      Storing-intro (listing tb i t) table
        (λ j p nz. elim (entry j) [
          | inl y ↦ rw (y, here) may
          | inr (ne, old) ↦ rw old (was.allowed j (omega (arith, p, size)) (rw old at nz))
        ])
        (λ j few p nz. elim (entry j) [
          | inl y ↦ (
            t.index,
            omega arith,
            rw (==_refl t.index, lt→ltb t.index t.limit (omega arith)) (sym y),
          )
          | inr (ne, old) ↦
              let (u, below, at) =
                was.listed.known j (omega arith) (omega (arith, p, size)) (rw old at nz) in
              (u, omega arith, rw (ne→==_false u t.index (omega arith)) at)
        ])
        (λ u few p. elim (Bool-cases (u == t.index)) [
          | inl y ↦ rw (y, lt→ltb t.index t.limit (omega arith)) (lt, at_i)
          | inr n ↦
              let (below, nz) = was.listed.listed u (omega arith) (ground (arith, n, p)) in
              rw n (
                omega (arith, below, size),
                elim (entry (t.lookaside u)) [ inl y ↦ rw y at_i | inr (ne, old) ↦ rw old nz ],
              )
        ])

  probe-lt :
      (t : Lfht)
      → IsTable k t
      → (q i : ℕ)
      → (probe t (keys t) q ≡ hit i → i < t.array_size)
        × (probe t (keys t) q ≡ free i → i < t.array_size)
  probe-lt t table q i =
      let pos : 0 < t.array_size = rw table.width (one-le-pow k 2 (omega arith)) in
      scan-lt t.array_size t.array_size (keys t) q (home t q) i (mod-lt (integer_hash q) pos)

  probe_sound :
      (t : Lfht) (q i : ℕ)
      → (probe t (keys t) q ≡ hit i → keys t i ≡ q) × (probe t (keys t) q ≡ free i → keys t i ≡ 0)
  probe_sound t q i = scan_sound t.array_size t.array_size (keys t) q (home t q) i

  -- A store leaves the entry in the table, and the entries of other keys.
  pub store-Storing :
      (int_shift : ℕ → ℕ) (e : Entry) (t t' : Atl)
      → Storing Allowed k t
      → Allowed e
      → store int_shift e.key e.value e.size t ≡ ok t'
      → Storing Allowed k t'
        × Contains e t'
        × ((d : Entry) → d.key ≢ 0 → d.key ≢ e.key → Contains d t → Contains d t')
  unfolding store
  store-Storing int_shift e t t' was may run =
      let nz = sound.taken e may in
      let table = was.listed.table in
      let ((i, tb), set, last) =
        bind-ok (set_item int_shift t.base.table e.key e.value e.size) _ t' run in
      let taken = set_item-Taken int_shift k t.base.table e.key e.value e.size table nz i tb set in
      let stores =
        set_item-Stores int_shift k t.base.table e.key e.value e.size table nz i tb set in
      let is : listing tb i t ≡ t' = ok_injective last in
      let entries : tb.entries ≡ update t.base.table.entries i e =
        ap (λ (x : Lfht). x.entries) taken.here in
      let below : i < t.base.table.array_size = elim taken.ended [
        | inl y ↦ (probe-lt t.base.table table e.key i).0 y
        | inr y ↦ (probe-lt t.base.table table e.key i).1 y
      ] in
      let size = ap (λ (x : Lfht). x.array_size) taken.here in
      (
        subst (Storing Allowed k) is (
            listing-Storing e t tb i was may stores.table size (omega (arith, below, size))
              (rw entries (rw (==_refl i))) (λ j ne. rw entries (rw (ne→==_false j i ne)))),
        subst (Contains e) is (i, omega (arith, below, size), rw entries (rw (==_refl i))),
        λ d nz' ne (j, lt, there). subst (Contains d) is (
            let taken_key : (keys t.base.table i ≡ e.key) ⊎ (keys t.base.table i ≡ 0) =
              elim taken.ended [
                | inl y ↦ inl ((probe_sound t.base.table e.key i).0 y)
                | inr y ↦ inr ((probe_sound t.base.table e.key i).1 y)
              ] in
            let other : j ≢ i = λ z.
              let key : keys t.base.table i ≡ d.key =
                rw (sym z) (ap (λ (x : Entry). x.key) there) in
              elim taken_key [ inl y ↦ ne (sym key ∙ y) | inr y ↦ nz' (sym key ∙ y) ] in
            (j, omega (arith, lt, size), rw entries (rw (ne→==_false j i other) there))),
      )

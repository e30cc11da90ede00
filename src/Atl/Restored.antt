-- ===== src/Atl/Restored.antt =====
-- What lookups and memory say after the close of a wrap.
use softwrap.Atl.Closed.{IsListed, Cleared, used-Cleared, listed-Cleared, unlisted_Cleared}
use softwrap.AliasHash.Homes.{get_item-empty}
use softwrap.AliasHash.Restore.{Spared}
use softwrap.Atl.{Atl, restore_to_cache_hierarchy}
use softwrap.Lfht.{Entry, get_item}
use softwrap.Prelude.{
  ℕ, ◌<◌, ◌≡◌, ◌≢◌, inl, inr, ◌∙◌, arith, Bool-cases, ltb, leb, ◌==◌, ==→eq, ok, Returns,
}
use softwrap.Scm.Bytes.{Holds, le}
use softwrap.Scm.{Scm}

-- Memory has the `n` low bytes of `v` at `q`, and its old byte at `a`, and a lookup of `q` finds
-- nothing.
abbrev pub Answers : Scm → ℕ → ℕ → ℕ → ℕ → Atl × Scm → Type 0
Answers st q v n a r =
    Holds r.1.mem q (le n v) × (r.1.mem a ≡ st.mem a) × (get_item r.0.base.table q ≡ ok (0, 0))

-- The table has the entry.
abbrev pub Contains : Entry → Atl → Type 0
Contains e t = (i : ℕ) × (i < t.base.table.array_size) × (t.base.table.entries i ≡ e)

Answers-Cleared :
    (k : ℕ) (t : Atl) (st : Scm) (e : Entry) (a : ℕ)
    → IsListed k t
    → e.key ≢ 0
    → Contains e t
    → ((i : ℕ) → i < t.base.table.array_size → Spared a (t.base.table.entries i))
    → (r : Atl × Scm) → Cleared t st r
    → Answers st e.key e.value e.size a r
Answers-Cleared k t st e a is nz (j, lt, there) spared r cleared =
    let home : Holds r.1.mem e.key (le e.size e.value) =
      rw there at (cleared.homes j lt (rw there nz)) in
    let gone =
      get_item-empty k r.0.base.table e.key (cleared.size ∙ is.table.width)
        (λ i lt. cleared.gone i (omega (arith, cleared.size, lt))) nz in
    (home, cleared.spared a spared, gone)

-- When a look-aside of at least one place lists exactly the used entries, or has overflowed, the
-- close of the wrap ends normally on every way through it. It puts home what the table has: memory
-- has the bytes of an entry whose key is not 0. An address that no entry covers keeps its byte, and
-- afterwards a lookup of the key finds nothing. The used entries have one, two, four or eight bytes
-- and no common address.
pub restore_to_cache_hierarchy-Returns :
    (k : ℕ) (t : Atl) (st : Scm) (e : Entry) (a : ℕ)
    → IsListed k t
    → e.key ≢ 0
    → Contains e t
    → ((i : ℕ) → i < t.base.table.array_size → Spared a (t.base.table.entries i))
    → Returns (restore_to_cache_hierarchy t st) (Answers st e.key e.value e.size a)
unfolding restore_to_cache_hierarchy
restore_to_cache_hierarchy-Returns k t st e a is nz there spared =
    let answers : (r : Atl × Scm) → Cleared t st r → Answers st e.key e.value e.size a r =
      Answers-Cleared k t st e a is nz there spared in
    elim (Bool-cases (ltb 0 t.limit)) [
      | inl some_place ↦ elim (Bool-cases (t.index == 0)) [
        | inl none ↦ (
          (t, st),
          rw (some_place, none),
          answers (t, st) (unlisted_Cleared k t st is (==→eq t.index 0 none)),
        )
        | inr some_turn ↦ elim (Bool-cases (leb t.index t.limit)) [
          | inl few ↦
              let (r, run, cleared) = listed-Cleared k t st is (ground (arith, few)) in
              (r, rw (some_place, some_turn, few) run, answers r cleared)
          | inr many ↦
              let (r, run, cleared) = used-Cleared k t st is in
              (r, rw (some_place, some_turn, many) run, answers r cleared)
        ]
      ]
      | inr no_place ↦
          let (r, run, cleared) = used-Cleared k t st is in (r, rw no_place run, answers r cleared)
    ]

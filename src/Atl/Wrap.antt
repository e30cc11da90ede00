-- ===== src/Atl/Wrap.antt =====
-- A whole wrap on the look-aside: its opening, its stores and its close.
use softwrap.AliasHash.Restore.{Spared}
use softwrap.Atl.Restored.{Answers, Contains, restore_to_cache_hierarchy-Returns}
use softwrap.Atl.Listed.{IsSound, Storing, on_wrap_open-Storing, store-Storing}
use softwrap.Atl.{Atl, on_wrap_open, store, restore_to_cache_hierarchy}
use softwrap.Lfht.Probe.{IsTable, keys}
use mathlib.Core.Path.{subst}
use softwrap.Lfht.{Entry}
use softwrap.Prelude.{
  ℕ, ◌<◌, ◌≡◌, ◌≢◌, ◌++◌, inl, inr, arith, Bool-cases, ◌==◌, ==→eq, List, [], ◌∷◌, Run, ok, Returns,
  bind-ok, ok_injective, ◌>>=◌,
}
use softwrap.Scm.{Scm}
use softwrap.WrapLogger.Entries.{All}

-- The stores of a wrap, one after the other.
unfoldable pub store_all : (ℕ → ℕ) → List Entry → Atl → Run Atl
store_all int_shift [] t = ok t
store_all int_shift (e ∷ es) t = store int_shift e.key e.value e.size t >>= store_all int_shift es

module _ (Allowed : Entry → Type 0) (sound : IsSound Allowed) (k : ℕ) where
  -- Stores to other addresses leave an entry in the table.
  store_all-Storing :
      (int_shift : ℕ → ℕ) (e : Entry) (es : List Entry) (t t' : Atl)
      → Storing Allowed k t
      → All Allowed es
      → All (λ (d : Entry). e.key ≢ d.key) es
      → e.key ≢ 0
      → Contains e t
      → store_all int_shift es t ≡ ok t'
      → Storing Allowed k t' × Contains e t'
  unfolding store_all
  store_all-Storing int_shift e [] t t' was may apart nz there run =
      let same = ok_injective run in
      (subst (Storing Allowed k) same was, subst (Contains e) same there)
  store_all-Storing int_shift e (d ∷ es) t t' was (one, rest) (ne, apart) nz there run =
      let (mid, first, then') =
        bind-ok (store int_shift d.key d.value d.size t) (store_all int_shift es) t' run in
      let (is, _, kept) = store-Storing Allowed sound k int_shift d t mid was one first in
      store_all-Storing int_shift e es mid t' is rest apart nz (kept e nz ne there) then'

  -- The last store at its address is in the table.
  store_all-Contains :
      (int_shift : ℕ → ℕ) (es : List Entry) (e : Entry) (fs : List Entry) (t t' : Atl)
      → Storing Allowed k t
      → All Allowed (es ++ e ∷ fs)
      → All (λ (d : Entry). e.key ≢ d.key) fs
      → store_all int_shift (es ++ e ∷ fs) t ≡ ok t'
      → Allowed e × Storing Allowed k t' × Contains e t'
  unfolding store_all
  store_all-Contains int_shift [] e fs t t' was (one, rest) apart run =
      let (mid, first, then') =
        bind-ok (store int_shift e.key e.value e.size t) (store_all int_shift fs) t' run in
      let (is, there, _) = store-Storing Allowed sound k int_shift e t mid was one first in
      let (after, kept) =
        store_all-Storing int_shift e fs mid t' is rest apart (sound.taken e one) there then' in
      (one, after, kept)
  store_all-Contains int_shift (d ∷ es) e fs t t' was (one, rest) apart run =
      let (mid, first, then') =
        bind-ok (store int_shift d.key d.value d.size t) (store_all int_shift (es ++ e ∷ fs)) t'
          run in
      store_all-Contains int_shift es e fs mid t'
        (store-Storing Allowed sound k int_shift d t mid was one first).0 rest apart then'

  Spared-Storing :
      (t : Atl) (a : ℕ)
      → Storing Allowed k t
      → ((e : Entry) → Allowed e → Spared a e)
      → (i : ℕ) → i < t.base.table.array_size
      → Spared a (t.base.table.entries i)
  Spared-Storing t a is spared i lt = elim (Bool-cases (keys t.base.table i == 0)) [
    | inl z ↦ inl (==→eq (keys t.base.table i) 0 z)
    | inr nz ↦ spared (t.base.table.entries i) (is.allowed i lt (λ z. ground (arith, z, nz)))
  ]

  -- A whole wrap on the look-aside, from an empty table of 2^k entries, whose stores the table
  -- accepts, all of allowed numbers: of one, two, four or eight bytes, not at 0, any two at one
  -- address or with no common byte. However many stores there are, the close ends normally. For
  -- every store that no later one at its address follows, memory then has the bytes of its number
  -- at the address, and a lookup of the address finds nothing; a byte that no allowed number covers
  -- is as it was.
  pub restore_to_cache_hierarchy-store :
      (int_shift : ℕ → ℕ) (es : List Entry) (e : Entry) (fs : List Entry) (a : ℕ) (t t' : Atl)
      (st : Scm)
      → IsTable k t.base.table
      → ((i : ℕ) → i < t.base.table.array_size → keys t.base.table i ≡ 0)
      → All Allowed (es ++ e ∷ fs)
      → All (λ (d : Entry). e.key ≢ d.key) fs
      → ((d : Entry) → Allowed d → Spared a d)
      → store_all int_shift (es ++ e ∷ fs) (on_wrap_open t) ≡ ok t'
      → Returns (restore_to_cache_hierarchy t' st) (Answers st e.key e.value e.size a)
  restore_to_cache_hierarchy-store int_shift es e fs a t t' st table none all apart spared run =
      let (may, is, there) =
        store_all-Contains int_shift es e fs (on_wrap_open t) t'
          (on_wrap_open-Storing Allowed sound k t table none) all apart run in
      restore_to_cache_hierarchy-Returns k t' st e a is.listed (sound.taken e may) there
        (Spared-Storing t' a is spared)

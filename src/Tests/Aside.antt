-- ===== src/Tests/Aside.antt =====
-- A look-aside of two places, in a wrap of three stores, which overflow it.
use softwrap.AliasHash.Restore.{ApartFrom}
use softwrap.Atl.Listed.{IsSound}
use softwrap.Atl.Restored.{Answers}
use softwrap.Atl.Wrap.{store_all, restore_to_cache_hierarchy-store}
use softwrap.Atl.{Atl, on_wrap_open, store, restore_to_cache_hierarchy}
use softwrap.Lfht.{Entry, set_item, set_loop, integer_hash}
use softwrap.Prelude.{
  ℕ, ◌*◌, ◌+◌, ◌≡◌, ◌⊎◌, inl, inr, refl, List, [], ◌∷◌, Run, ok, abort, no_fuel, arith, Returns,
}
use native.Mathlib.Decide.{dec_lt}
use softwrap.Tests.Alternating.{fresh}
use softwrap.Tests.Data.{scm, x86_shift}

-- A word at a multiple of eight other than 0.
abbrev IsWord : Entry → Type 0
IsWord e = (e.size ≡ 8) × (m : ℕ) × (e.key ≡ 8 + 8 * m)

IsWord-apart : (d e : Entry) → IsWord d → IsWord e → (d.key ≡ e.key) ⊎ ApartFrom d e
IsWord-apart d e (n, i, at) (n', j, at') = elim (dec_lt i j) [
  | yes below ↦ inr (inr (inr (inl (omega arith))))
  | no above ↦ elim (dec_lt j i) [
    | yes below ↦ inr (inr (inr (inr (omega arith))))
    | no same ↦ inl (omega arith)
  ]
]

IsWord-IsSound : IsSound IsWord
IsWord-IsSound = record {
  taken = λ e (n, m, at) z. omega arith;
  width = λ e (n, m, at). inr (inr (inr n));
  apart = IsWord-apart;
}

abbrev opened : Atl
opened = record { base = fresh; lookaside = λ i. 0; index = 7; limit = 2 }

abbrev word : ℕ → ℕ → Entry
word m value = record { key = 8 + 8 * m; value = value; size = 8 }

-- The first word is stored twice, then the second one.
abbrev stores : List Entry
stores = word 0 17 ∷ word 0 9 ∷ word 1 5 ∷ []

abbrev got : Run Atl → Atl
got (ok t) = t
got abort = opened
got no_fuel = opened

abbrev after_all : Atl
after_all = got (store_all x86_shift stores (on_wrap_open opened))

all_stored : store_all x86_shift stores (on_wrap_open opened) ≡ ok after_all
unfolding store_all store set_item set_loop integer_hash on_wrap_open
all_stored = refl

restore_to_cache_hierarchy-store_example :
    Returns (restore_to_cache_hierarchy after_all scm) (Answers scm 8 9 8 3)
restore_to_cache_hierarchy-store_example =
    restore_to_cache_hierarchy-store IsWord IsWord-IsSound 2 x86_shift (word 0 17 ∷ []) (word 0 9)
      (word 1 5 ∷ []) 3 opened after_all scm
      (record { width = refl; placed = λ i lt nz. absurd (nz refl) }) (λ i lt. refl)
      ((refl, 0, refl), ((refl, 0, refl), ((refl, 1, refl), tt))) (omega arith, tt)
      (λ d (n, m, at). inr (inl (omega arith))) all_stored

-- ===== src/Atl/Closed.antt =====
-- The close of a wrap, by the look-aside or by the whole table.
use mathlib.Core.Path.{subst}
use native.Mathlib.Decide.{dec_lt}
use softwrap.AliasHash.Restore.{Home, Spared, ApartFrom}
use softwrap.AliasHash.{clear_hash}
use softwrap.Bloom.{clear_bloom}
use softwrap.At2.Known.{IsEmpty-clear}
use softwrap.Atl.Copies.{Compatible, each_lem, HasWidth, copy_lem, writeback_lem, if_used_lem}
use softwrap.Atl.{
  Atl, copy_entry_to_cache, writeback_entry, free_turn, free_listed, if_used, restore_listed,
  restore_used,
}
use softwrap.Lfht.Probe.{IsTable, keys}
use softwrap.Lfht.{Entry, clear}
use softwrap.Prelude.{
  ℕ, zero, suc, ◌+◌, ◌<◌, ◌≤◌, ◌≡◌, ◌≢◌, inl, inr, refl, ap, ◌∙◌, arith, Bool-cases, ◌==◌, ==_refl,
  ==→eq, ne→==_false, Returns,
}
use softwrap.Scm.{Scm}

-- A table whose used entries have one, two, four or eight bytes and no common address, and where, as
-- long as it has not overflowed, the look-aside lists exactly the used entries.
pub record IsListed (k : ℕ) (t : Atl) : Type 0 where
  pub table : IsTable k t.base.table
  pub widths :
      (i : ℕ)
      → i < t.base.table.array_size
      → keys t.base.table i ≢ 0
      → HasWidth (t.base.table.entries i)
  pub apart :
      (i j : ℕ)
      → i < t.base.table.array_size
      → j < t.base.table.array_size
      → i ≢ j
      → ApartFrom (t.base.table.entries i) (t.base.table.entries j)
  pub known :
      (j : ℕ)
      → t.index ≤ t.limit
      → j < t.base.table.array_size
      → keys t.base.table j ≢ 0
      → (i : ℕ) × (i < t.index) × (t.lookaside i ≡ j)
  pub listed :
      (i : ℕ)
      → t.index ≤ t.limit
      → i < t.index
      → (t.lookaside i < t.base.table.array_size) × (keys t.base.table (t.lookaside i) ≢ 0)

-- Freeing the listed entries.
record Unlisted (t : Atl) (from to : ℕ) (t' : Atl) : Type 0 where
  pub size : t'.base.table.array_size ≡ t.base.table.array_size
  pub stay : (j : ℕ) → keys t.base.table j ≡ 0 → keys t'.base.table j ≡ 0
  pub gone : (l : ℕ) → from ≤ l → l < to → keys t'.base.table (t.lookaside l) ≡ 0

free_turn_key : (t : Atl) (i : ℕ) → keys (free_turn i t).base.table (t.lookaside i) ≡ 0
free_turn_key t i = ap (λ (e : Entry). e.key) (entry t i)
  where
    entry :
        (t : Atl) (i : ℕ)
        → (free_turn i t).base.table.entries (t.lookaside i)
          ≡ record (t.base.table.entries (t.lookaside i)) { key = 0 }
    entry t i = rw (==_refl (t.lookaside i))

free_turn_stay :
    (t : Atl) (i j : ℕ) → keys t.base.table j ≡ 0 → keys (free_turn i t).base.table j ≡ 0
free_turn_stay t i j h = elim (Bool-cases (j == t.lookaside i)) [
  | inl e ↦ rw (keys, e)
  | inr e ↦ rw (keys, e) h
]

free_listed_lem : (n i : ℕ) (t : Atl) → Unlisted t i (i + n) (free_listed n i t)
unfolding free_listed
free_listed_lem zero i t = record {
  size = refl;
  stay = λ j h. h;
  gone = λ l p q. absurd (omega arith);
}
free_listed_lem (suc n) i t =
    let rest = free_listed_lem n (i + 1) (free_turn i t) in
    record {
      size = rest.size;
      stay = λ j h. rest.stay j (free_turn_stay t i j h);
      gone = λ l p q. elim (dec_lt i l) [
        | yes later ↦
            let same : (free_turn i t).lookaside l ≡ t.lookaside l =
              rw (ne→==_false l i (omega arith)) in
            subst (λ x. keys (free_listed n (i + 1) (free_turn i t)).base.table x ≡ 0) same
              (rest.gone l (omega arith) (omega arith))
        | no here ↦
            let e : l ≡ i = omega arith in rest.stay (t.lookaside l) (rw e (free_turn_key t i))
      ];
    }

-- What both ways of the close give.
pub record Cleared (t : Atl) (st : Scm) (r : Atl × Scm) : Type 0 where
  pub size : r.0.base.table.array_size ≡ t.base.table.array_size
  pub gone : (j : ℕ) → j < t.base.table.array_size → keys r.0.base.table j ≡ 0
  pub homes : (j : ℕ) → j < t.base.table.array_size → Home r.1.mem (t.base.table.entries j)
  pub spared :
      (a : ℕ)
      → ((j : ℕ) → j < t.base.table.array_size → Spared a (t.base.table.entries j))
      → r.1.mem a ≡ st.mem a

module _ (k : ℕ) (t : Atl) (st : Scm) (is : IsListed k t) where
  abbrev es : ℕ → Entry
  es = t.base.table.entries

  fit :
      (i j : ℕ)
      → i < t.base.table.array_size
      → j < t.base.table.array_size
      → Compatible (es i) (es j)
  fit i j p q = elim (Bool-cases (i == j)) [
    | inl e ↦ inl (ap es (==→eq i j e))
    | inr e ↦ inr (is.apart i j p q (λ z. ground (arith, z, e)))
  ]

  pub used-Cleared : Returns (restore_used t st) (Cleared t st)
  unfolding restore_used clear_hash clear
  used-Cleared =
      let n = t.base.table.array_size in
      let (st1, run1, one) =
        each_lem (λ i. if_used copy_entry_to_cache (es i)) es n
          (λ i s lt.
            if_used_lem copy_entry_to_cache (es i) s
              (λ nz. copy_lem (es i) s nz (is.widths i lt nz)))
          fit n 0 st (omega arith) in
      let (st2, run2, two) =
        each_lem (λ i. if_used writeback_entry (es i)) es n
          (λ i s lt. if_used_lem writeback_entry (es i) s (writeback_lem (es i) s)) fit n 0 st1
          (omega arith) in
      (
        (record t { base = clear_hash t.base }, st2),
        rw (run1, run2),
        record {
          size = refl;
          gone = λ j lt. IsEmpty-clear t.base.table j lt;
          homes = λ j lt. two.homes j (omega arith) lt;
          spared = λ a h. two.spared a h ∙ one.spared a h;
        },
      )

  pub listed-Cleared : t.index ≤ t.limit → Returns (restore_listed t st) (Cleared t st)
  unfolding restore_listed
  listed-Cleared few =
      let g = λ (i : ℕ). es (t.lookaside i) in
      let in_table = λ (i : ℕ) (lt : i < t.index). (is.listed i few lt).0 in
      let taken = λ (i : ℕ) (lt : i < t.index). (is.listed i few lt).1 in
      let (st1, run1, one) =
        each_lem (λ i. copy_entry_to_cache (g i)) g t.index
          (λ i s lt.
            copy_lem (g i) s (taken i lt) (is.widths (t.lookaside i) (in_table i lt) (taken i lt)))
          (λ i j p q. fit (t.lookaside i) (t.lookaside j) (in_table i p) (in_table j q)) t.index 0
          st (omega arith) in
      let (st2, run2, two) =
        each_lem (λ i. writeback_entry (g i)) g t.index
          (λ i s lt. writeback_lem (g i) s (taken i lt))
          (λ i j p q. fit (t.lookaside i) (t.lookaside j) (in_table i p) (in_table j q)) t.index 0
          st1 (omega arith) in
      let freed = free_listed_lem t.index 0 t in
      let t' = free_listed t.index 0 t in
      let table = t'.base.table in
      (
        (
          record t' {
            base = record t'.base { table = record table { bloom = clear_bloom table.bloom } };
          },
          st2,
        ),
        rw (run1, run2),
        record {
          size = freed.size;
          gone = λ j lt. elim (Bool-cases (keys t.base.table j == 0)) [
            | inl z ↦ freed.stay j (==→eq (keys t.base.table j) 0 z)
            | inr nz ↦
                let (i, u, at) = is.known j few lt (λ z. ground (arith, z, nz)) in
                subst (λ x. keys t'.base.table x ≡ 0) at (freed.gone i (omega arith) (omega arith))
          ];
          homes = λ j lt nz.
              let (i, u, at) = is.known j few lt nz in
              subst (λ x. Home st2.mem (es x)) at (two.homes i (omega arith) u) nz;
          spared = λ a h.
              two.spared a (λ i u. h (t.lookaside i) (in_table i u))
              ∙ one.spared a (λ i u. h (t.lookaside i) (in_table i u));
        },
      )

  pub unlisted_Cleared : t.index ≡ 0 → Cleared t st (t, st)
  unlisted_Cleared none =
      let all : (j : ℕ) → j < t.base.table.array_size → keys t.base.table j ≡ 0 = λ j lt.
        elim (Bool-cases (keys t.base.table j == 0)) [
          | inl z ↦ ==→eq (keys t.base.table j) 0 z
          | inr nz ↦
              let (i, u, at) = is.known j (omega arith) lt (λ z. ground (arith, z, nz)) in
              absurd (omega arith)
        ] in
      record {
        size = refl;
        gone = all;
        homes = λ j lt nz. absurd (nz (all j lt));
        spared = λ a h. refl;
      }

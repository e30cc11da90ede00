-- ===== src/Atl/Copies.antt =====
-- A loop that puts entries home leaves them all there, in whatever order, and often, it comes to
-- them.
use mathlib.Core.Path.{subst}
use native.Mathlib.Decide.{dec_lt}
use softwrap.AliasHash.Restore.{Home, Spared, ApartFrom, Spared-apart}
use softwrap.Atl.{each, copy_entry_to_cache, writeback_entry, if_used}
use softwrap.Lfht.{Entry}
use softwrap.Prelude.{
  ℕ, zero, suc, ◌+◌, ◌<◌, ◌≤◌, ◌≡◌, ◌≢◌, ◌⊎◌, inl, inr, refl, sym, ◌∙◌, arith, Bool-cases, ◌==◌,
  ==→eq, ne→==_false, Run, ok,
}
use softwrap.Scm.Bytes.{
  Holds_congr, Mem, le, length-le, Holds-write_self, write_bytes, write_bytes_outside,
}
use softwrap.Scm.NtStore.{mem-ntstore_bytes}
use softwrap.Scm.{Scm, ntstore_bytes}

-- What a turn for the entry does to memory.
pub record Copied (e : Entry) (m m' : Mem) : Type 0 where
  pub home : Home m' e
  pub spared : (a : ℕ) → Spared a e → m' a ≡ m a

-- Two entries that are one, or that restore no common address.
abbrev pub Compatible : Entry → Entry → Type 0
Compatible d e = (d ≡ e) ⊎ ApartFrom d e

Copied_keeps : (d e : Entry) (m m' : Mem) → Compatible d e → Copied e m m' → Home m d → Home m' d
Copied_keeps d e m m' (inl same) turn h = subst (Home m') (sym same) turn.home
Copied_keeps d e m m' (inr apart) turn h = λ nz.
    Holds_congr m m' d.key (le d.size d.value)
      (λ a lo hi.
        turn.spared a (Spared-apart a d e nz lo (omega (arith, length-le d.size d.value)) apart))
      (h nz)

module _ (turn : ℕ → Scm → Run Scm) (g : ℕ → Entry) (to : ℕ)
    (turns : (i : ℕ) (st : Scm)
      → i < to
      → (st' : Scm) × (turn i st ≡ ok st') × Copied (g i) st.mem st'.mem)
    (fit : (i j : ℕ) → i < to → j < to → Compatible (g i) (g j)) where
  pub record Done (from : ℕ) (m m' : Mem) : Type 0 where
    pub homes : (j : ℕ) → from ≤ j → j < to → Home m' (g j)
    pub kept : (j : ℕ) → j < to → Home m (g j) → Home m' (g j)
    pub spared : (a : ℕ) → ((j : ℕ) → j < to → Spared a (g j)) → m' a ≡ m a

  pub each_lem :
      (n i : ℕ) (st : Scm)
      → i + n ≡ to
      → (st' : Scm) × (each turn n i st ≡ ok st') × Done i st.mem st'.mem
  unfolding each
  each_lem zero i st e = (
    st,
    refl,
    record { homes = λ j p q. absurd (omega arith); kept = λ j p h. h; spared = λ a h. refl },
  )
  each_lem (suc n) i st e =
      let (st1, one, copied) = turns i st (omega arith) in
      let (st2, rest, done) = each_lem n (i + 1) st1 (omega arith) in
      (
        st2,
        rw one rest,
        record {
          homes = λ j p q. elim (dec_lt i j) [
            | yes later ↦ done.homes j (omega arith) q
            | no here ↦ let z : j ≡ i = omega arith in done.kept j q (rw z copied.home)
          ];
          kept = λ j p h.
              done.kept j p
                (Copied_keeps (g j) (g i) st.mem st1.mem (fit j i p (omega arith)) copied h);
          spared = λ a h. done.spared a h ∙ copied.spared a (h i (omega arith));
        },
      )

-- One, two, four or eight bytes.
abbrev pub HasWidth : Entry → Type 0
HasWidth e = (e.size ≡ 1) ⊎ ((e.size ≡ 2) ⊎ ((e.size ≡ 4) ⊎ (e.size ≡ 8)))

written : (e : Entry) (m : Mem) → e.key ≢ 0 → Copied e m (write_bytes e.key (le e.size e.value) m)
written e m nz = record {
  home = λ h. Holds-write_self e.key (le e.size e.value) m;
  spared = λ a h.
      write_bytes_outside e.key (le e.size e.value) m a
        (omega (arith, length-le e.size e.value, nz, h));
}

pub copy_lem :
    (e : Entry) (st : Scm)
    → e.key ≢ 0
    → HasWidth e
    → (st' : Scm) × (copy_entry_to_cache e st ≡ ok st') × Copied e st.mem st'.mem
unfolding copy_entry_to_cache
copy_lem e st nz w =
    let key = ne→==_false e.key 0 nz in
    let st' = record st { mem = write_bytes e.key (le e.size e.value) st.mem } in
    (st', rw key (ground (arith, w)), written e st.mem nz)

pub writeback_lem :
    (e : Entry) (st : Scm)
    → e.key ≢ 0
    → (st' : Scm) × (writeback_entry e st ≡ ok st') × Copied e st.mem st'.mem
unfolding writeback_entry
writeback_lem e st nz =
    let same = mem-ntstore_bytes e.key (le e.size e.value) st in
    (
      ntstore_bytes e.key (le e.size e.value) st,
      refl,
      subst (Copied e st.mem) (sym same) (written e st.mem nz),
    )

pub if_used_lem :
    (act : Entry → Scm → Run Scm) (e : Entry) (st : Scm)
    → (e.key ≢ 0 → (st' : Scm) × (act e st ≡ ok st') × Copied e st.mem st'.mem)
    → (st' : Scm) × (if_used act e st ≡ ok st') × Copied e st.mem st'.mem
if_used_lem act e st used = elim (Bool-cases (e.key == 0)) [
  | inl z ↦
      let zero' = ==→eq e.key 0 z in
      (st, rw z, record { home = λ nz. absurd (nz zero'); spared = λ a h. refl })
  | inr nz ↦ let (st', run, copied) = used (λ z. ground (arith, z, nz)) in (st', rw nz run, copied)
]

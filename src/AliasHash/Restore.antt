-- ===== src/AliasHash/Restore.antt =====
-- What the restore of a table leaves in memory and in the table.
use native.Mathlib.Decide.{dec_lt}
use softwrap.AliasHash.{restore_entry, restore_loop}
use softwrap.Lfht.Probe.{keys}
use softwrap.Lfht.{Lfht, Entry, update}
use softwrap.Prelude.{
  ℕ, zero, suc, ◌+◌, ◌<◌, ◌≤◌, ◌≡◌, ◌≢◌, ◌⊎◌, inl, inr, refl, ap, ◌∙◌, arith, ◌==◌, Bool-cases,
  ==→eq, ==_refl, ne→==_false, le→ltb_false, ok,
}
use softwrap.Scm.Bytes.{
  Holds_congr, Mem, Holds, Holds-write_self, write_bytes, write_bytes_outside, le, length-le,
}
use softwrap.Scm.NtStore.{mem-ntstore_bytes}
use softwrap.Scm.{Scm, ntstore_bytes}

-- What an entry puts home: nothing where it is free.
abbrev pub Home : Mem → Entry → Type 0
Home m e = e.key ≢ 0 → Holds m e.key (le e.size e.value)

-- The address is not one that the entry restores.
abbrev pub Spared : ℕ → Entry → Type 0
Spared a e = (e.key ≡ 0) ⊎ ((a < e.key) ⊎ (e.key + e.size ≤ a))

-- Two entries that restore no common address.
abbrev pub ApartFrom : Entry → Entry → Type 0
ApartFrom d e = (d.key ≡ 0) ⊎ ((e.key ≡ 0) ⊎ ((d.key + d.size ≤ e.key) ⊎ (e.key + e.size ≤ d.key)))

-- A size of up to eight, other than two.
abbrev pub IsShort : Entry → Type 0
IsShort e = (e.size < 9) × (e.size ≢ 2)

-- The table in which an entry has been freed.
abbrev pub free_entry : Lfht → ℕ → Lfht
free_entry t i = record t { entries = update t.entries i (record (t.entries i) { key = 0 }) }

pub record Freed (t : Lfht) (i : ℕ) (t' : Lfht) : Type 0 where
  pub size : t'.array_size ≡ t.array_size
  pub there : (t'.entries i).key ≡ 0
  pub kept : (t'.entries i).size ≡ (t.entries i).size
  pub others : (j : ℕ) → j ≢ i → t'.entries j ≡ t.entries j

pub free_entry-Freed : (t : Lfht) (i : ℕ) → Freed t i (free_entry t i)
free_entry-Freed t i = record {
  size = refl;
  there = rw (==_refl i);
  kept = rw (==_refl i);
  others = λ j ne. rw (ne→==_false j i ne);
}

-- What one turn of the loop does to an entry that is short.
pub record One (t : Lfht) (st : Scm) (i : ℕ) (r : Lfht × Scm) : Type 0 where
  pub freed : Freed t i r.0
  pub home : Home r.1.mem (t.entries i)
  pub spared : (a : ℕ) → Spared a (t.entries i) → r.1.mem a ≡ st.mem a

-- An entry with a key, of a size other than two and of at most eight.
pub restore_taken :
    (t : Lfht) (st : Scm) (i : ℕ)
    → IsShort (t.entries i)
    → (t.entries i).key ≢ 0
    → (st' : Scm) × (restore_entry i (t, st) ≡ ok (free_entry t i, st'))
      × (st'.mem ≡ write_bytes (t.entries i).key (le (t.entries i).size (t.entries i).value) st.mem)
unfolding restore_entry
restore_taken t st i short taken =
    let e = t.entries i in
    let key = ne→==_false e.key 0 taken in
    elim (Bool-cases (e.size == 4)) [
      | inl four ↦
          let n = ==→eq e.size 4 four in
          (
            ntstore_bytes e.key (le 4 e.value) st,
            rw (key, four),
            rw n (mem-ntstore_bytes e.key (le 4 e.value) st),
          )
      | inr not_four ↦ (
        ntstore_bytes e.key (le e.size e.value) st,
        rw (
          key,
          not_four,
          ne→==_false e.size 2 short.1,
          le→ltb_false 8 e.size (omega (arith, short.0)),
        ),
        mem-ntstore_bytes e.key (le e.size e.value) st,
      )
    ]

pub restore_entry_lem :
    (t : Lfht) (st : Scm) (i : ℕ)
    → IsShort (t.entries i)
    → (r : Lfht × Scm) × (restore_entry i (t, st) ≡ ok r) × One t st i r
unfolding restore_entry
restore_entry_lem t st i short =
    let e = t.entries i in
    elim (Bool-cases (e.key == 0)) [
      | inl free ↦
          let z = ==→eq e.key 0 free in
          (
            (t, st),
            rw free,
            record {
              freed = record { size = refl; there = z; kept = refl; others = λ j ne. refl };
              home = λ nz. absurd (nz z);
              spared = λ a h. refl;
            },
          )
      | inr taken ↦
          let nz : e.key ≢ 0 = λ z. ground (arith, z, taken) in
          let (st', run, mem) = restore_taken t st i short nz in
          (
            (free_entry t i, st'),
            run,
            record {
              freed = free_entry-Freed t i;
              home = λ h. rw mem (Holds-write_self e.key (le e.size e.value) st.mem);
              spared = λ a h. rw mem (
                  write_bytes_outside e.key (le e.size e.value) st.mem a
                    (omega (arith, length-le e.size e.value, nz, h)));
            },
          )
    ]

-- What the restore of the entries `from .. to` does.
pub record Restored (t : Lfht) (st : Scm) (from to : ℕ) (r : Lfht × Scm) : Type 0 where
  pub size : r.0.array_size ≡ t.array_size
  pub gone : (j : ℕ) → from ≤ j → j < to → keys r.0 j ≡ 0
  pub others : (j : ℕ) → (j < from) ⊎ (to ≤ j) → r.0.entries j ≡ t.entries j
  pub home : (j : ℕ) → from ≤ j → j < to → Home r.1.mem (t.entries j)
  pub spared :
      (a : ℕ) → ((j : ℕ) → from ≤ j → j < to → Spared a (t.entries j)) → r.1.mem a ≡ st.mem a

-- An address of an entry is spared by one that lies apart from it.
pub Spared-apart :
    (a : ℕ) (d e : Entry) → d.key ≢ 0 → d.key ≤ a → a < d.key + d.size → ApartFrom d e → Spared a e
Spared-apart a d e nz lo hi (inl z) = absurd (nz z)
Spared-apart a d e nz lo hi (inr (inl z)) = inl z
Spared-apart a d e nz lo hi (inr (inr h)) = inr (omega (arith, h))

-- One turn, and the rest of the loop.
Restored-One :
    (t : Lfht) (st : Scm) (i to : ℕ) (mid r : Lfht × Scm)
    → i < to
    → ((l : ℕ) → i < l → l < to → ApartFrom (t.entries i) (t.entries l))
    → One t st i mid
    → Restored mid.0 mid.1 (i + 1) to r
    → Restored t st i to r
Restored-One t st i to mid r lt apart one rest =
    let e = t.entries i in
    let same : (j : ℕ) → j ≢ i → mid.0.entries j ≡ t.entries j = one.freed.others in
    let later : (j : ℕ) → i + 1 ≤ j → mid.0.entries j ≡ t.entries j =
      λ j h. same j (λ z. omega (arith, z)) in
    record {
      size = rest.size ∙ one.freed.size;
      gone = λ j p q. elim (dec_lt i j) [
        | yes after ↦ rest.gone j (omega arith) q
        | no here ↦
            let z : j ≡ i = omega arith in
            rw z (ap (λ (d : Entry). d.key) (rest.others i (inl (omega arith))) ∙ one.freed.there)
      ];
      others = λ j h. rest.others j (omega (arith, h)) ∙ same j (λ z. omega (arith, z, h));
      home = λ j p q. elim (dec_lt i j) [
        | yes after ↦ rw (later j (omega arith)) at (rest.home j (omega arith) q)
        | no here ↦
            let z : j ≡ i = omega arith in
            rw z (λ nz.
              Holds_congr mid.1.mem r.1.mem e.key (le e.size e.value)
                (λ a lo hi. rest.spared a (λ l u v. rw (later l u) (
                  Spared-apart a e (t.entries l) nz lo (omega (arith, length-le e.size e.value))
                    (apart l (omega arith) v))))
                (one.home nz))
      ];
      spared = λ a h.
          rest.spared a (λ j p q. rw (later j p) (h j (omega arith) q))
          ∙ one.spared a (h i (omega arith) lt);
    }

pub restore_loop_lem :
    (n i : ℕ) (t : Lfht) (st : Scm)
    → ((j : ℕ) → i ≤ j → j < i + n → IsShort (t.entries j))
    → ((j l : ℕ) → i ≤ j → j < l → l < i + n → ApartFrom (t.entries j) (t.entries l))
    → (r : Lfht × Scm) × (restore_loop n i (t, st) ≡ ok r) × Restored t st i (i + n) r
unfolding restore_loop
restore_loop_lem zero i t st short apart = (
  (t, st),
  refl,
  record {
    size = refl;
    gone = λ j p q. absurd (omega arith);
    others = λ j h. refl;
    home = λ j p q. absurd (omega arith);
    spared = λ a h. refl;
  },
)
restore_loop_lem (suc n) i t st short apart =
    let ((t1, st1), run1, one) = restore_entry_lem t st i (short i (omega arith) (omega arith)) in
    let same : (j : ℕ) → i + 1 ≤ j → t1.entries j ≡ t.entries j =
      λ j h. one.freed.others j (λ z. omega (arith, z)) in
    let (r, run2, rest) =
      restore_loop_lem n (i + 1) t1 st1
        (λ j p q. rw (same j p) (short j (omega arith) (omega arith)))
        (λ j l p q s.
          rw (same j p, same l (omega arith)) (apart j l (omega arith) q (omega arith))) in
    let far : i + 1 + n ≡ i + suc n = omega arith in
    (
      r,
      rw run1 run2,
      Restored-One t st i (i + suc n) (t1, st1) r (omega arith)
          (λ l p q. apart i l (omega arith) p q) one (rw far at rest),
    )

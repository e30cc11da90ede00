-- ===== src/Lat/Overlay.antt =====
-- The loop of `readInto` builds what applying the entries to memory would show.
use softwrap.Lat.{Entry, alias, read_entry, read_entries, copy_entry_to_cache, copy_all}
use softwrap.Prelude.{
  ℕ, ◌+◌, ◌-◌, ◌≤◌, ◌<◌, ◌≡◌, ap, ◌⊎◌, Bool, true, false, List, [], ◌∷◌, ltb, leb, ◌==◌, ◌&&◌,
  arith, Bool-cases, inl, inr,
}
use softwrap.Scm.Bytes.{Mem, read_bytes, write_bytes, write-read}

abbrev window : ℕ → ℕ → ℕ → Bool
window d n i = leb d i && ltb i (d + n)

window_in : (d n i : ℕ) → d ≤ i → i < d + n → window d n i ≡ true
window_in d n i lo hi = ground arith

window_out : (d n i : ℕ) → (i < d) ⊎ (d + n ≤ i) → window d n i ≡ false
window_out d n i h = ground arith

window_cases : (d n i : ℕ) → ((d ≤ i) × (i < d + n)) ⊎ ((i < d) ⊎ (d + n ≤ i))
window_cases d n i = omega arith

-- A part of an entry copied to the buffer at `d` from the entry's offset `off`, where it agrees with
-- the whole entry copied to its home.
copy_part :
    (from m out : Mem) (key esize src d n off i : ℕ)
    → (d ≤ i
        → i < d + n
        → (key ≤ src + i) × (src + i < key + esize) × (off + (i - d) ≡ src + i - key))
    → (key ≤ src + i → src + i < key + esize → (d ≤ i) × (i < d + n))
    → out i ≡ m (src + i)
    → write_bytes d (read_bytes n off from) out i
      ≡ write_bytes key (read_bytes esize 0 from) m (src + i)
copy_part from m out key esize src d n off i into back h =
    let left = write-read d n off from out i in
    let right = write-read key esize 0 from m (src + i) in
    elim (window_cases d n i) [
      | inl (lo, hi) ↦
          let (lo', hi', e) = into lo hi in
          let e' : off + (i - d) ≡ 0 + (src + i - key) = omega arith in
          rw (left, right)
            (rw (window_in d n i lo hi, window_in key esize (src + i) lo' hi') (ap from e'))
      | inr away ↦
          let away' : (src + i < key) ⊎ (key + esize ≤ src + i) =
            elim (window_cases key esize (src + i)) [
              | inl (lo, hi) ↦ let (lo', hi') = back lo hi in absurd (omega arith)
              | inr other ↦ other
            ] in
          rw (left, right) (rw (window_out d n i away, window_out key esize (src + i) away') h)
    ]

-- An entry that fails the last two tests does not reach any address that is read.
missed :
    (key esize src size i : ℕ)
    → i < size
    → (leb key src && leb src (key + esize)) ≡ false
    → (leb src key && ltb key (src + size)) ≡ false
    → (src + i < key) ⊎ (key + esize ≤ src + i)
missed key esize src size i lt g k = elim (window_cases key esize (src + i)) [
  | inl (lo, hi) ↦ absurd (ground arith)
  | inr away ↦ away
]

-- One turn of the loop: where the buffer shows memory, it shows memory with the entry applied.
pub read_entry-copy :
    (area : Mem) (src size : ℕ) (e : Entry) (m out : Mem) (i : ℕ)
    → i < size
    → out i ≡ m (src + i)
    → read_entry area src size e out i ≡ copy_entry_to_cache area e m (src + i)
unfolding read_entry copy_entry_to_cache
read_entry-copy area src size e m out i lt h =
    let from = alias area e.value in
    elim (Bool-cases (e.key == src && leb size e.size)) [
      | inl t ↦ rw t (
          copy_part from m out e.key e.size src 0 _ 0 i (λ lo hi. ground arith)
            (λ lo hi. ground arith) h)
      | inr f ↦ rw f (elim (Bool-cases (leb e.key src && leb src (e.key + e.size))) [
        | inl t ↦ rw t (
            copy_part from m out e.key e.size src 0 _ (src - e.key) i (λ lo hi. ground arith)
              (λ lo hi. ground arith) h)
        | inr g ↦ rw g (elim (Bool-cases (leb src e.key && ltb e.key (src + size))) [
          | inl t ↦ rw t (
              copy_part from m out e.key e.size src (e.key - src) _ 0 i (λ lo hi. ground arith)
                (λ lo hi. ground arith) h)
          | inr k ↦
              rw (k, write-read e.key e.size 0 from m (src + i))
                (rw (window_out e.key e.size (src + i) (missed e.key e.size src size i lt g k)) h)
        ])
      ])
    ]

-- The loop: the buffer shows what memory would be with all entries copied home in order.
pub read_entries-copy_all :
    (area : Mem) (src size : ℕ) (es : List Entry) (m out : Mem) (i : ℕ)
    → i < size
    → out i ≡ m (src + i)
    → read_entries area src size es out i ≡ copy_all area es m (src + i)
unfolding read_entries copy_all
read_entries-copy_all area src size [] m out i lt h = h
read_entries-copy_all area src size (e ∷ es) m out i lt h =
    read_entries-copy_all area src size es (copy_entry_to_cache area e m)
      (read_entry area src size e out) i lt (read_entry-copy area src size e m out i lt h)

-- ===== src/Lat/Writes.antt =====
-- What `write` does to the memory that the wrap sees, and what the restore leaves in memory.
use softwrap.Bloom.{Bloom, check_bloom, set_bloom_range}
use softwrap.Bloom.Ranges.{ShiftsToLowBit, set_bloom_range_covers, set_bloom_range_mono}
use softwrap.Lat.Reads.{view, Sound, AllSound, IsLat}
use softwrap.Lat.{
  Entry, Value, inline, pointer, Lat, nth, alias, write, store, copy_entry_to_cache, copy_all,
  max_lat_entries, max_lat_data,
}
use softwrap.Prelude.{
  ℕ, zero, suc, ◌+◌, ◌%◌, ◌≤◌, ◌<◌, ◌≡◌, ◌≢◌, inl, inr, refl, ap, ◌∙◌, true, List, [], ◌∷◌, ◌++◌,
  length, length-append, leb, arith, Bool-cases, Returns, lt→ltb, le→leb,
}
use softwrap.Scm.Bytes.{
  le, length-le, Mem, Holds-write_self, read_bytes, read_bytes-Holds, read_bytes_congr, write_bytes,
  write_bytes_outside,
}

read_bytes_shift :
    (n a at : ℕ) (f : Mem) → read_bytes n a (λ i. f (at + i)) ≡ read_bytes n (at + a) f
unfolding read_bytes
read_bytes_shift zero a at f = refl
read_bytes_shift (suc n) a at f =
    let e : at + (a + 1) ≡ at + a + 1 = omega arith in
    ap (λ (r : List ℕ). f (at + a) ∷ r) (read_bytes_shift n (a + 1) at f ∙ rw e)

read_bytes-nth :
    (xs : List ℕ) (f : Mem) (a : ℕ)
    → ((i : ℕ) → f (a + i) ≡ nth xs i)
    → read_bytes (length xs) a f ≡ xs
unfolding read_bytes
read_bytes-nth [] f a h = refl
read_bytes-nth (x ∷ xs) f a h =
    let here : f a ≡ x = (let e : a + 0 ≡ a = omega arith in rw e at (h 0)) in
    cc (
      here,
      read_bytes-nth xs f (a + 1)
          (λ i. let e : a + suc i ≡ a + 1 + i = omega arith in rw e at (h (suc i))),
    )

copy_all-snoc :
    (area : Mem) (es : List Entry) (e : Entry) (m : Mem)
    → copy_all area (es ++ e ∷ []) m ≡ copy_entry_to_cache area e (copy_all area es m)
unfolding copy_all
copy_all-snoc area [] e m = refl
copy_all-snoc area (d ∷ es) e m = copy_all-snoc area es e (copy_entry_to_cache area d m)

pointer_injective : {a b : ℕ} → pointer a ≡ pointer b → a ≡ b
pointer_injective e = cc e

inline≢pointer : {xs : List ℕ} {b : ℕ} → inline xs ≢ pointer b
inline≢pointer e = cc e

-- Data put into the area is what the entry that points to it copies.
stored_lem :
    (at : ℕ) (src : List ℕ) (area : Mem)
    → read_bytes (length src) 0 (λ i. write_bytes at src area (at + i)) ≡ src
stored_lem at src area =
    let e : at + 0 ≡ at = omega arith in
    read_bytes_shift (length src) 0 at (write_bytes at src area)
    ∙ rw e (read_bytes-Holds _ at src (Holds-write_self at src area))

alias_congr :
    (v : Value) (n last : ℕ) (area area' : Mem)
    → ((at : ℕ) → v ≡ pointer at → at + n ≤ last)
    → ((i : ℕ) → i < last → area' i ≡ area i)
    → read_bytes n 0 (alias area' v) ≡ read_bytes n 0 (alias area v)
alias_congr (inline xs) n last area area' within h = refl
alias_congr (pointer at) n last area area' within h =
    let room = within at refl in read_bytes_congr n 0 _ _ (λ i lo hi. h (at + i) (omega arith))

module _ (int_shift : ℕ → ℕ) where
  -- Data added behind the entries' data does not change what they copy.
  copy_all_congr :
      (field : Bloom) (last : ℕ) (es : List Entry) (area area' m : Mem)
      → AllSound int_shift field last es
      → ((i : ℕ) → i < last → area' i ≡ area i)
      → copy_all area' es m ≡ copy_all area es m
  unfolding copy_all copy_entry_to_cache
  copy_all_congr field last [] area area' m sound h = refl
  copy_all_congr field last (e ∷ es) area area' m sound h =
      rw (alias_congr e.value e.size last area area' sound.0.within h)
        (copy_all_congr field last es area area' _ sound.1 h)

  -- The invariant of the old entries when the filter and the data have grown.
  AllSound-grow :
      (field field' : Bloom) (last last' : ℕ) (es : List Entry)
      → ((a : ℕ) → check_bloom int_shift field a ≡ true → check_bloom int_shift field' a ≡ true)
      → last ≤ last'
      → AllSound int_shift field last es
      → AllSound int_shift field' last' es
  AllSound-grow field field' last last' [] mono le h = tt
  AllSound-grow field field' last last' (e ∷ es) mono le h = (
    record {
      aligned = h.0.aligned;
      reported = λ a lo hi. mono a (h.0.reported a lo hi);
      within = λ at is. omega (arith, h.0.within at is);
    },
    AllSound-grow field field' last last' es mono le h.1,
  )

  AllSound-snoc :
      (field : Bloom) (last : ℕ) (es : List Entry) (e : Entry)
      → AllSound int_shift field last es
      → Sound int_shift field last e
      → AllSound int_shift field last (es ++ e ∷ [])
  AllSound-snoc field last [] e h k = (k, tt)
  AllSound-snoc field last (d ∷ es) e h k = (h.0, AllSound-snoc field last es e h.1 k)

  -- What a write owes: the invariant, the view with the source's bytes at their place, and at most
  -- one entry and the source's bytes taken up.
  pub record Wrote (ptr : ℕ) (src : List ℕ) (t t' : Lat) : Type 0 where
    pub lat : IsLat int_shift t'
    pub counted : length t'.entries ≤ length t.entries + 1
    pub spent : t'.last_data ≤ t.last_data + length src
    pub seen : (m : Mem) → view t' m ≡ write_bytes ptr src (view t m)

  -- A write to an aligned address, with a free entry and room for its data, ends normally: both the
  -- inline and the long branch keep the invariant, and the wrap then sees its bytes in place.
  pub write-Returns :
      (ptr : ℕ) (src : List ℕ) (t : Lat)
      → ShiftsToLowBit int_shift
      → IsLat int_shift t
      → ptr % 4 ≡ 0
      → length t.entries < max_lat_entries
      → t.last_data + length src < max_lat_data
      → Returns (write int_shift ptr src t) (Wrote ptr src t)
  unfolding write copy_entry_to_cache
  write-Returns ptr src t shifts sound aligned room space =
      let size = length src in
      let field = set_bloom_range int_shift t.bloom ptr size in
      let mono = set_bloom_range_mono int_shift shifts t.bloom ptr size in
      let covers = set_bloom_range_covers int_shift shifts t.bloom ptr size in
      elim (Bool-cases (leb size 8)) [
        | inl short ↦
            let e : Entry = record { key = ptr; value = inline src; size = size } in
            let t' : Lat = record t { entries = t.entries ++ e ∷ []; bloom = field } in
            (
              t',
              rw (lt→ltb _ _ room, short),
              record {
                lat =
                    AllSound-snoc field t.last_data t.entries e
                      (AllSound-grow t.bloom field t.last_data t.last_data t.entries mono
                        (omega arith) sound)
                      (record {
                        aligned = aligned;
                        reported = λ a lo hi. covers a aligned lo hi;
                        within = λ at is. absurd (inline≢pointer is);
                      });
                counted = omega (arith, length-append t.entries (e ∷ []));
                spent = omega arith;
                seen = λ m.
                    copy_all-snoc t.bytes t.entries e m
                    ∙ rw (
                        read_bytes-nth src (nth src) 0
                          (λ i. let z : 0 + i ≡ i = omega arith in rw z));
              },
            )
        | inr long ↦
            let e : Entry = record { key = ptr; value = pointer t.last_data; size = size } in
            let area = write_bytes t.last_data src t.bytes in
            let t' : Lat = record t {
              entries = t.entries ++ e ∷ [];
              bytes = area;
              last_data = t.last_data + size;
              bloom = field;
            } in
            (
              t',
              rw (lt→ltb _ _ room, long, lt→ltb _ _ space),
              record {
                lat =
                    AllSound-snoc field (t.last_data + size) t.entries e
                      (AllSound-grow t.bloom field t.last_data (t.last_data + size) t.entries mono
                        (omega arith) sound)
                      (record {
                        aligned = aligned;
                        reported = λ a lo hi. covers a aligned lo hi;
                        within = λ at is. omega (arith, pointer_injective is);
                      });
                counted = omega (arith, length-append t.entries (e ∷ []));
                spent = omega arith;
                seen = λ m.
                    copy_all-snoc area t.entries e m
                    ∙ rw
                        (copy_all_congr t.bloom t.last_data t.entries t.bytes area m sound
                          (λ i lt. write_bytes_outside t.last_data src t.bytes i (omega arith)))
                        (rw (stored_lem t.last_data src t.bytes));
              },
            )
      ]

  -- A store of a number of up to eight bytes is the write of its bytes, failed assertions included.
  store-write :
      (ptr value size : ℕ) (t : Lat)
      → size ≤ 8
      → store int_shift ptr value size t ≡ write int_shift ptr (le size value) t
  unfolding store write
  store-write ptr value size t small =
      let short : leb size 8 ≡ true = le→leb size 8 small in rw (length-le size value) (rw short)

-- ===== src/Lat/Reads.antt =====
-- The alias table shows every write of the wrap to the reads, and restores them all.
use native.Mathlib.Decide.{dec_lt}
use softwrap.Bloom.{Bloom, check_bloom, check_bloom_range}
use softwrap.Bloom.Ranges.{ShiftsToLowBit, check_bloom_range_hit}
use softwrap.Lat.Overlay.{read_entries-copy_all}
use softwrap.Lat.{Entry, pointer, Lat, alias, read_into, copy_entry_to_cache, copy_all}
use softwrap.Prelude.{
  ℕ, ◌+◌, ◌%◌, ◌≤◌, ◌<◌, ◌≡◌, ◌⊎◌, inl, inr, refl, sym, ◌∙◌, true, false, List, [], ◌∷◌, arith,
  Bool-cases,
}
use softwrap.Scm.Bytes.{
  Mem, read_bytes, length-read_bytes, write_bytes, write_bytes_outside, write-read,
}

-- Memory as the wrap sees it: with every entry copied home, in order.
abbrev pub view : Lat → Mem → Mem
view t m = copy_all t.bytes t.entries m

-- What the table keeps true of each of its entries.
pub record Sound (int_shift : ℕ → ℕ) (field : Bloom) (last_data : ℕ) (e : Entry) : Type 0 where
  pub aligned : e.key % 4 ≡ 0
  pub reported : (a : ℕ) → e.key ≤ a → a < e.key + e.size → check_bloom int_shift field a ≡ true
  pub within : (at : ℕ) → e.value ≡ pointer at → at + e.size ≤ last_data

abbrev pub AllSound : (ℕ → ℕ) → Bloom → ℕ → List Entry → Type 0
AllSound int_shift field last [] = Unit
AllSound int_shift field last (e ∷ es) =
    Sound int_shift field last e × AllSound int_shift field last es

abbrev pub IsLat : (ℕ → ℕ) → Lat → Type 0
IsLat int_shift t = AllSound int_shift t.bloom t.last_data t.entries

module _ (int_shift : ℕ → ℕ) where
  -- An address that the filter does not report is in no entry.
  view_unreported :
      (field : Bloom) (last : ℕ) (area : Mem) (es : List Entry) (m : Mem) (a : ℕ)
      → AllSound int_shift field last es
      → check_bloom int_shift field a ≡ false
      → copy_all area es m a ≡ m a
  unfolding copy_all copy_entry_to_cache
  view_unreported field last area [] m a sound h = refl
  view_unreported field last area (e ∷ es) m a sound h =
      let wide = length-read_bytes e.size 0 (alias area e.value) in
      let away : (a < e.key) ⊎ (e.key + e.size ≤ a) = elim (dec_lt a e.key) [
        | yes p ↦ inl p
        | no p ↦ elim (dec_lt a (e.key + e.size)) [
          | yes q ↦ let r = sound.0.reported a (omega arith) q in cc
          | no q ↦ inr (omega arith)
        ]
      ] in
      view_unreported field last area es _ a sound.1 h
      ∙ write_bytes_outside e.key _ m a (omega (arith, wide))

  -- A read of any size from an aligned address returns, in every byte, the last value that the
  -- wrap's writes gave it, and memory's where the wrap has not written: this includes reads that
  -- the filter answers alone.
  pub read_into-view :
      (t : Lat) (src size : ℕ) (m out : Mem) (i : ℕ)
      → ShiftsToLowBit int_shift
      → IsLat int_shift t
      → src % 4 ≡ 0
      → i < size
      → read_into int_shift t src size m out i ≡ view t m (src + i)
  unfolding read_into
  read_into-view t src size m out i shifts sound aligned lt =
      let copied = write_bytes 0 (read_bytes size src m) out in
      let plain : copied i ≡ m (src + i) = write-read 0 size src m out i ∙ ground arith in
      elim (Bool-cases (check_bloom_range int_shift t.bloom src size)) [
        | inl hit ↦ rw hit (read_entries-copy_all t.bytes src size t.entries m copied i lt plain)
        | inr miss ↦ elim (Bool-cases (check_bloom int_shift t.bloom (src + i))) [
          | inl reported ↦
              let r =
                check_bloom_range_hit int_shift shifts t.bloom src size (src + i) aligned
                  (omega arith) (omega arith) reported in
              cc
          | inr unreported ↦ rw miss (
              plain
              ∙ sym (
                  view_unreported t.bloom t.last_data t.bytes t.entries m (src + i) sound
                    unreported))
        ]
      ]

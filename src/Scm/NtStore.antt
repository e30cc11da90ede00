-- ===== src/Scm/NtStore.antt =====
-- `ntstore` and its loop over a local source: what they write and what they count.
use softwrap.Prelude.{
  ℕ, zero, suc, ◌+◌, ◌*◌, ◌/◌, ◌%◌, ◌≤◌, ◌≡◌, refl, ap, ◌∙◌, ◌⊎◌, sym, List, [], ◌∷◌, ◌++◌, length,
  arith, inl, inr, ◌<◌, ◌==◌, ==→eq, ==_refl, Bool-cases,
}
use softwrap.Scm.Bytes.{
  Mem, read_bytes, write_bytes, write_bytes_filled, length-read_bytes, write_bytes-append,
  write_bytes_outside, write_bytes-Holds, Holds-read_bytes,
}
use softwrap.Scm.{Scm, streaming_store, ntstore_words, ntstore_tail, ntstore, ntstore_bytes}

-- A local source is copied whole, and nothing else is written.
pub mem-ntstore_bytes :
    (d : ℕ) (xs : List ℕ) (st : Scm) → (ntstore_bytes d xs st).mem ≡ write_bytes d xs st.mem
unfolding ntstore_bytes streaming_store
mem-ntstore_bytes d [] st = unfold write_bytes in refl
mem-ntstore_bytes d (a ∷ []) st = write_bytes_filled d (a ∷ []) 3 (d + 1) st.mem (omega arith)
mem-ntstore_bytes d (a ∷ b ∷ []) st =
    write_bytes_filled d (a ∷ b ∷ []) 2 (d + 2) st.mem (omega arith)
mem-ntstore_bytes d (a ∷ b ∷ c ∷ []) st =
    write_bytes_filled d (a ∷ b ∷ c ∷ []) 1 (d + 3) st.mem (omega arith)
mem-ntstore_bytes d (a ∷ b ∷ c ∷ e ∷ rest) st =
    mem-ntstore_bytes (d + 4) rest (streaming_store d (a ∷ b ∷ c ∷ e ∷ []) st)
    ∙ sym (write_bytes-append d (a ∷ b ∷ c ∷ e ∷ []) rest st.mem)

-- One streaming store for each word that is begun.
ntstores-ntstore_bytes :
    (d : ℕ) (xs : List ℕ) (st : Scm)
    → (ntstore_bytes d xs st).ntstores ≡ st.ntstores + (length xs + 3) / 4
unfolding ntstore_bytes streaming_store
ntstores-ntstore_bytes d [] st = omega arith
ntstores-ntstore_bytes d (a ∷ []) st = omega arith
ntstores-ntstore_bytes d (a ∷ b ∷ []) st = omega arith
ntstores-ntstore_bytes d (a ∷ b ∷ c ∷ []) st = omega arith
ntstores-ntstore_bytes d (a ∷ b ∷ c ∷ e ∷ rest) st =
    omega (arith, ntstores-ntstore_bytes (d + 4) rest (streaming_store d (a ∷ b ∷ c ∷ e ∷ []) st))

pub pmsyncs-ntstore_bytes :
    (d : ℕ) (xs : List ℕ) (st : Scm) → (ntstore_bytes d xs st).pmsyncs ≡ st.pmsyncs
unfolding ntstore_bytes streaming_store
pmsyncs-ntstore_bytes d [] st = refl
pmsyncs-ntstore_bytes d (a ∷ []) st = refl
pmsyncs-ntstore_bytes d (a ∷ b ∷ []) st = refl
pmsyncs-ntstore_bytes d (a ∷ b ∷ c ∷ []) st = refl
pmsyncs-ntstore_bytes d (a ∷ b ∷ c ∷ e ∷ rest) st =
    pmsyncs-ntstore_bytes (d + 4) rest (streaming_store d (a ∷ b ∷ c ∷ e ∷ []) st)

-- Reading in two parts is reading.
read_bytes_add :
    (n k a : ℕ) (m : Mem) → read_bytes (n + k) a m ≡ read_bytes n a m ++ read_bytes k (a + n) m
unfolding read_bytes
read_bytes_add zero k a m =
    let e : 0 + k ≡ k = omega arith in let f : a + 0 ≡ a = omega arith in rw (e, f)
read_bytes_add (suc n) k a m =
    let e : suc n + k ≡ suc (n + k) = omega arith in
    let f : a + suc n ≡ a + 1 + n = omega arith in
    rw (e, f) (ap (λ (r : List ℕ). m a ∷ r) (read_bytes_add n k (a + 1) m))

-- A write outside a range does not change what is read from it.
pub read_bytes-write_other :
    (n a d : ℕ) (xs : List ℕ) (m : Mem)
    → (a + n ≤ d) ⊎ (d + length xs ≤ a)
    → read_bytes n a (write_bytes d xs m) ≡ read_bytes n a m
unfolding read_bytes
read_bytes-write_other zero a d xs m apart = refl
read_bytes-write_other (suc n) a d xs m apart = cc (
  write_bytes_outside d xs m a (omega arith),
  read_bytes-write_other n (a + 1) d xs m (omega arith),
)

-- The word loop copies its words, where source and destination lie apart.
mem-ntstore_words :
    (n d s : ℕ) (st : Scm)
    → (d + n * 4 ≤ s) ⊎ (s + n * 4 ≤ d)
    → (ntstore_words n d s st).mem ≡ write_bytes d (read_bytes (n * 4) s st.mem) st.mem
unfolding ntstore_words
mem-ntstore_words zero d s st apart = unfold write_bytes read_bytes in refl
mem-ntstore_words (suc n) d s st apart =
    let word = read_bytes 4 s st.mem in
    let st' = streaming_store d word st in
    let width = length-read_bytes 4 s st.mem in
    let e : suc n * 4 ≡ 4 + n * 4 = omega arith in
    rw (e, read_bytes_add 4 (n * 4) s st.mem, write_bytes-append d word, width)
      (mem-ntstore_words n (d + 4) (s + 4) st' (omega arith)
        ∙ unfold streaming_store in
          rw (read_bytes-write_other (n * 4) (s + 4) d word st.mem (omega (arith, width))))

-- So does the tail, although it stores a whole word.
mem-ntstore_tail :
    (k d s : ℕ) (st : Scm)
    → k < 4
    → (ntstore_tail k d s st).mem ≡ write_bytes d (read_bytes k s st.mem) st.mem
unfolding ntstore_tail streaming_store
mem-ntstore_tail zero d s st h = unfold write_bytes read_bytes in refl
mem-ntstore_tail (suc zero) d s st h =
    write_bytes_filled d (read_bytes 1 s st.mem) 3 (d + 1) st.mem
      (omega (arith, length-read_bytes 1 s st.mem))
mem-ntstore_tail (suc (suc zero)) d s st h =
    write_bytes_filled d (read_bytes 2 s st.mem) 2 (d + 2) st.mem
      (omega (arith, length-read_bytes 2 s st.mem))
mem-ntstore_tail (suc (suc (suc zero))) d s st h =
    write_bytes_filled d (read_bytes 3 s st.mem) 1 (d + 3) st.mem
      (omega (arith, length-read_bytes 3 s st.mem))
mem-ntstore_tail (suc (suc (suc (suc k)))) d s st h = absurd (omega arith)

mem-ntstore_loops :
    (dest src q r : ℕ) (st : Scm)
    → r < 4
    → (dest + (q * 4 + r) ≤ src) ⊎ (src + (q * 4 + r) ≤ dest)
    → (ntstore_tail r (dest + q * 4) (src + q * 4) (ntstore_words q dest src st)).mem
      ≡ write_bytes dest (read_bytes (q * 4 + r) src st.mem) st.mem
mem-ntstore_loops dest src q r st h apart =
    let words = read_bytes (q * 4) src st.mem in
    let width = length-read_bytes (q * 4) src st.mem in
    rw (mem-ntstore_tail r (dest + q * 4) (src + q * 4) (ntstore_words q dest src st) h) (
      rw
        (
          mem-ntstore_words q dest src st (omega arith),
          read_bytes_add (q * 4) r src st.mem,
          write_bytes-append dest words,
          width,
        )
        (rw (read_bytes-write_other r (src + q * 4) dest words st.mem (omega (arith, width)))))

-- `ntstore` from a source that lies apart from the destination, or that is the destination, leaves
-- memory as a memcpy of `size` bytes does: no byte outside `dest .. dest + size` changes.
pub mem-ntstore :
    (dest src size : ℕ) (st : Scm)
    → (dest ≡ src) ⊎ ((dest + size ≤ src) ⊎ (src + size ≤ dest))
    → (ntstore dest src size st).mem ≡ write_bytes dest (read_bytes size src st.mem) st.mem
unfolding ntstore
mem-ntstore dest src size st (inl same) =
    rw (same, ==_refl src) (sym (write_bytes-Holds src _ st.mem (Holds-read_bytes size src st.mem)))
mem-ntstore dest src size st (inr apart) = elim (Bool-cases (dest == src)) [
  | inl same ↦
      let e : size ≡ 0 = omega (arith, ==→eq dest src same) in
      rw (same, e) (unfold write_bytes read_bytes in refl)
  | inr differ ↦
      let e : size / 4 * 4 + size % 4 ≡ size = omega arith in
      rw differ
        (rw e at (mem-ntstore_loops dest src (size / 4) (size % 4) st (omega arith) (omega arith)))
]

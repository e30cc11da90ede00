-- ===== src/WrapLogger/Entries.antt =====
-- The entries of a log as a list: their layout, and what replaying them does to memory.
use softwrap.Prelude.{
  ℕ, ◌+◌, ◌*◌, ◌≤◌, ◌<◌, ◌^◌, ◌≡◌, ◌≢◌, ◌⊎◌, List, [], ◌∷◌, ◌++◌, length, length-append, arith,
}
use mathlib.Core.List.{append_assoc, append-nil}
use softwrap.Scm.Bytes.{Mem, put, write_bytes, le, length-le}

pub record Entry : Type 0 where
  pub dest : ℕ
  pub bytes : List ℕ

unfoldable pub encode : ℕ → Entry → List ℕ
encode flag e = le 4 (length e.bytes * 4 + 2 + flag) ++ (le 8 e.dest ++ e.bytes)

unfoldable pub encode_all : ℕ → List Entry → List ℕ
encode_all flag [] = []
encode_all flag (e ∷ es) = encode flag e ++ encode_all flag es

-- A redo: each entry's bytes are copied to its destination, in the order of the log.
unfoldable pub replay : List Entry → Mem → Mem
replay [] m = m
replay (e ∷ es) m = replay es (write_bytes e.dest e.bytes m)

-- An entry that the logger can represent and that does not write into `from .. from + width`.
pub record IsSound (from width : ℕ) (e : Entry) : Type 0 where
  pub not_four : length e.bytes ≢ 4
  pub small : length e.bytes < 2 ^ 29
  pub not_null : 0 < e.dest
  pub address : e.dest < 256 ^ 8
  pub apart : (e.dest + length e.bytes ≤ from) ⊎ (from + width ≤ e.dest)

abbrev pub All {ℓ κ} : {A : Type ℓ} → (A → Type κ) → List A → Type κ
All P [] = Unit
All P (x ∷ xs) = P x × All P xs

pub length-encode : (flag : ℕ) (e : Entry) → length (encode flag e) ≡ 12 + length e.bytes
unfolding encode
length-encode flag e =
    let mask = le 4 (length e.bytes * 4 + 2 + flag) in
    omega (
      arith,
      length-append mask (le 8 e.dest ++ e.bytes),
      length-append (le 8 e.dest) e.bytes,
      length-le 4 (length e.bytes * 4 + 2 + flag),
      length-le 8 e.dest,
    )

pub encode_all-snoc :
    (flag : ℕ) (es : List Entry) (e : Entry)
    → encode_all flag (es ++ e ∷ []) ≡ encode_all flag es ++ encode flag e
unfolding encode_all
encode_all-snoc flag [] e = append-nil _
encode_all-snoc flag (d ∷ es) e = rw (encode_all-snoc flag es e, append_assoc)

-- Writing at one address depends on that address only.
pub write_bytes_congr :
    (d : ℕ) (xs : List ℕ) (m k : Mem) (a : ℕ)
    → m a ≡ k a
    → write_bytes d xs m a ≡ write_bytes d xs k a
unfolding write_bytes
write_bytes_congr d [] m k a h = h
write_bytes_congr d (x ∷ xs) m k a h =
    write_bytes_congr (d + 1) xs (put m d x) (put k d x) a (ground arith)

pub replay_congr : (es : List Entry) (m k : Mem) (a : ℕ) → m a ≡ k a → replay es m a ≡ replay es k a
unfolding replay
replay_congr [] m k a h = h
replay_congr (e ∷ es) m k a h =
    replay_congr es (write_bytes e.dest e.bytes m) (write_bytes e.dest e.bytes k) a
      (write_bytes_congr e.dest e.bytes m k a h)

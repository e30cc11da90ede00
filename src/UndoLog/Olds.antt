-- ===== src/UndoLog/Olds.antt =====
-- The old values that an undo log holds, and what replaying them does.
use softwrap.Prelude.{
  ℕ, suc, ◌+◌, ◌≤◌, ◌<◌, ◌≡◌, ◌⊎◌, inl, inr, refl, ap, ◌∙◌, List, [], ◌∷◌, length, arith,
}
use softwrap.Scm.Bytes.{
  Mem, Holds, read_bytes, read_bytes_congr, length-read_bytes, Holds-read_bytes, write_bytes,
  write_bytes_outside, write_bytes-Holds,
}
use softwrap.WrapLogger.Crash.{Untouched, replay_cases, replay-Untouched}
use softwrap.WrapLogger.Entries.{Entry, IsSound, replay, write_bytes_congr, All}

-- What lies where an entry writes.
abbrev pub old : Entry → Mem → Entry
old e m = record { dest = e.dest; bytes = read_bytes (length e.bytes) e.dest m }

unfoldable pub olds : List Entry → Mem → List Entry
olds [] m = []
olds (e ∷ es) m = old e m ∷ olds es (write_bytes e.dest e.bytes m)

pub length-olds : (es : List Entry) (m : Mem) → length (olds es m) ≡ length es
unfolding olds
length-olds [] m = refl
length-olds (e ∷ es) m = ap suc (length-olds es _)

-- The old values depend on memory only where the entries write.
pub olds_congr :
    (from width : ℕ) (es : List Entry) (m k : Mem)
    → All (IsSound from width) es
    → ((a : ℕ) → (a < from) ⊎ (from + width ≤ a) → m a ≡ k a)
    → olds es m ≡ olds es k
unfolding olds
olds_congr from width [] m k sound same = refl
olds_congr from width (e ∷ es) m k sound same =
    let here : read_bytes (length e.bytes) e.dest m ≡ read_bytes (length e.bytes) e.dest k =
      read_bytes_congr (length e.bytes) e.dest m k
        (λ i lo hi. same i (omega (arith, sound.0.apart))) in
    let rest =
      olds_congr from width es (write_bytes e.dest e.bytes m) (write_bytes e.dest e.bytes k) sound.1
        (λ a h. write_bytes_congr e.dest e.bytes m k a (same a h)) in
    cc (here, rest)

pub olds-IsSound :
    (from width : ℕ) (es : List Entry) (m : Mem)
    → All (IsSound from width) es
    → All (IsSound from width) (olds es m)
unfolding olds
olds-IsSound from width [] m sound = tt
olds-IsSound from width (e ∷ es) m sound =
    let n = length-read_bytes (length e.bytes) e.dest m in
    (
      record {
        not_four = λ h. sound.0.not_four (omega (arith, n, h));
        small = omega (arith, n, sound.0.small);
        not_null = sound.0.not_null;
        address = sound.0.address;
        apart = omega (arith, n, sound.0.apart);
      },
      olds-IsSound from width es _ sound.1,
    )

pub Untouched-olds : (es : List Entry) (m : Mem) (a : ℕ) → Untouched (olds es m) a → Untouched es a
unfolding olds
Untouched-olds [] m a free = tt
Untouched-olds (e ∷ es) m a free = (
  omega (arith, free.0, length-read_bytes (length e.bytes) e.dest m),
  Untouched-olds es _ a free.1,
)

-- Entries of which no two write at one address.
abbrev pub Disjoint : List Entry → Type 0
Disjoint [] = Unit
Disjoint (e ∷ es) =
    All (λ d. (d.dest + length d.bytes ≤ e.dest) ⊎ (e.dest + length e.bytes ≤ d.dest)) es
    × Disjoint es

-- Entries whose bytes lie in memory already change nothing.
replay-Holds : (es : List Entry) (m : Mem) → All (λ e. Holds m e.dest e.bytes) es → replay es m ≡ m
unfolding replay
replay-Holds [] m there = refl
replay-Holds (e ∷ es) m there =
    let same = write_bytes-Holds e.dest e.bytes m there.0 in rw same (replay-Holds es m there.1)

-- The two memories agree where the entry writes.
abbrev Agree : Mem → Mem → Entry → Type 0
Agree m k e = (a : ℕ) → e.dest ≤ a → a < e.dest + length e.bytes → k a ≡ m a

All-Agree_refl : (es : List Entry) (m : Mem) → All (Agree m m) es
All-Agree_refl [] m = tt
All-Agree_refl (e ∷ es) m = (λ a lo hi. refl, All-Agree_refl es m)

All-Agree_write :
    (e : Entry) (ds : List Entry) (m k : Mem)
    → All (λ d. (d.dest + length d.bytes ≤ e.dest) ⊎ (e.dest + length e.bytes ≤ d.dest)) ds
    → All (Agree m k) ds
    → All (Agree m (write_bytes e.dest e.bytes k)) ds
All-Agree_write e [] m k apart same = tt
All-Agree_write e (d ∷ ds) m k apart same = (
  λ a lo hi. write_bytes_outside e.dest e.bytes k a (omega (arith, apart.0)) ∙ same.0 a lo hi,
  All-Agree_write e ds m k apart.1 same.1,
)

-- With disjoint entries the old values are those before all of them.
olds-Disjoint :
    (es : List Entry) (m k : Mem)
    → Disjoint es
    → All (Agree m k) es
    → All (λ e. Holds m e.dest e.bytes) (olds es k)
unfolding olds
olds-Disjoint [] m k apart same = tt
olds-Disjoint (e ∷ es) m k apart same =
    let here : read_bytes (length e.bytes) e.dest k ≡ read_bytes (length e.bytes) e.dest m =
      read_bytes_congr (length e.bytes) e.dest k m same.0 in
    (
      rw here (Holds-read_bytes (length e.bytes) e.dest m),
      olds-Disjoint es m (write_bytes e.dest e.bytes k) apart.1
          (All-Agree_write e es m k apart.0 same.1),
    )

-- Replaying the old values of disjoint entries after the entries brings memory back.
pub replay-olds :
    (es : List Entry) (m : Mem) (a : ℕ) → Disjoint es → replay (olds es m) (replay es m) a ≡ m a
replay-olds es m a apart = elim (replay_cases (olds es m) a) [
  | inl free ↦
      replay-Untouched (olds es m) (replay es m) a free
      ∙ replay-Untouched es m a (Untouched-olds es m a free)
  | inr fixed' ↦
      let held = replay-Holds (olds es m) m (olds-Disjoint es m m apart (All-Agree_refl es m)) in
      fixed' (replay es m) m ∙ ap (λ (k : Mem). k a) held
]

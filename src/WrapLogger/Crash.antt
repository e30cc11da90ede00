-- ===== src/WrapLogger/Crash.antt =====
-- A crash while the values of a closed wrap are on their way home: any part of them may have
-- reached memory, in any order and torn anywhere.
use native.Mathlib.Decide.{dec_lt}
use softwrap.Prelude.{
  ok_injective, ℕ, ◌+◌, ◌≤◌, ◌<◌, ◌≡◌, ◌⊎◌, inl, inr, refl, sym, ap, ◌∙◌, List, [], ◌∷◌, ◌++◌,
  length, length-append, arith, ok,
}
use softwrap.Scm.Bytes.{Mem, Holds_congr, put, write_bytes, write_bytes_outside, le, length-le}
use softwrap.Scm.{Scm}
use softwrap.WrapLogger.Entries.{
  Entry, IsSound, encode_all, replay, replay_congr, write_bytes_congr, All,
}
use softwrap.WrapLogger.Recovery.{Recovered, restore-Sealed}
use softwrap.WrapLogger.Restoring.{terminator}
use softwrap.WrapLogger.Session.{session, Fits, Sealed, session-Closed}
use softwrap.WrapLogger.{Logger, next_flag, restore_wrap_log_entries}

-- No entry writes at the address.
abbrev pub Untouched : List Entry → ℕ → Type 0
Untouched es a = All (λ e. (a < e.dest) ⊎ (e.dest + length e.bytes ≤ a)) es

-- Inside its range a write does not depend on what was there.
write_bytes_inside :
    (d : ℕ) (xs : List ℕ) (m k : Mem) (a : ℕ)
    → d ≤ a
    → a < d + length xs
    → write_bytes d xs m a ≡ write_bytes d xs k a
unfolding write_bytes
write_bytes_inside d [] m k a lo hi = absurd (omega arith)
write_bytes_inside d (x ∷ xs) m k a lo hi = elim (dec_lt d a) [
  | yes p ↦ write_bytes_inside (d + 1) xs (put m d x) (put k d x) a (omega arith) (omega arith)
  | no p ↦ write_bytes_congr (d + 1) xs (put m d x) (put k d x) a (ground arith)
]

-- Either no entry writes at an address, or the replay there does not depend on what was there.
pub replay_cases :
    (es : List Entry) (a : ℕ) → Untouched es a ⊎ ((m k : Mem) → replay es m a ≡ replay es k a)
unfolding replay
replay_cases [] a = inl tt
replay_cases (e ∷ es) a = elim (replay_cases es a) [
  | inr fixed' ↦ inr λ m k. fixed' _ _
  | inl free ↦ elim (dec_lt a e.dest) [
    | yes p ↦ inl (inl p, free)
    | no p ↦ elim (dec_lt a (e.dest + length e.bytes)) [
      | yes q ↦
          inr λ m k. replay_congr es _ _ a (write_bytes_inside e.dest e.bytes m k a (omega arith) q)
      | no q ↦ inl (inr (omega arith), free)
    ]
  ]
]

-- Where no entry writes the replay changes nothing.
pub replay-Untouched : (es : List Entry) (m : Mem) (a : ℕ) → Untouched es a → replay es m a ≡ m a
unfolding replay
replay-Untouched [] m a free = refl
replay-Untouched (e ∷ es) m a free =
    replay-Untouched es _ a free.1 ∙ write_bytes_outside e.dest e.bytes m a free.0

-- A replay heals what part of its entries may have been written before.
replay_torn :
    (es : List Entry) (m k : Mem) (a : ℕ)
    → (Untouched es a → k a ≡ m a)
    → replay es k a ≡ replay es m a
replay_torn es m k a h = elim (replay_cases es a) [
  | inl free ↦ replay_congr es k m a (h free)
  | inr fixed' ↦ fixed' k m
]

pub Untouched-log :
    (from width : ℕ) (es : List Entry) (a : ℕ)
    → All (IsSound from width) es
    → from ≤ a
    → a < from + width
    → Untouched es a
Untouched-log from width [] a sound lo hi = tt
Untouched-log from width (e ∷ es) a sound lo hi =
    (omega (arith, sound.0.apart), Untouched-log from width es a sound.1 lo hi)

-- A log whose area is as it was is still sealed.
pub Sealed-congr :
    (lg : Logger) (es : List Entry) (m k : Mem)
    → Fits lg es
    → ((a : ℕ) → lg.log ≤ a → a < lg.log + (lg.size_of_log + 16) → k a ≡ m a)
    → Sealed lg es m
    → Sealed lg es k
Sealed-congr lg es m k fits own h =
    let flag = next_flag lg.flag_entry in
    let span = length-append (encode_all flag es) terminator in
    let end : length terminator ≡ 16 = rw (length-append (le 8 0), length-le 8 0) in
    record {
      marked =
          Holds_congr m k (lg.log + 16) (le 4 (flag + 2))
            (λ a lo hi. own a (omega arith) (omega (arith, length-le 4 (flag + 2), fits.room)))
            h.marked;
      entries =
          Holds_congr m k (lg.log + 20) (encode_all flag es ++ terminator)
            (λ a lo hi. own a (omega arith) (omega (arith, span, end, fits.room))) h.entries;
    }

pub Sealed-torn :
    (lg : Logger) (es : List Entry) (m k : Mem)
    → Fits lg es
    → ((a : ℕ) → Untouched es a → k a ≡ m a)
    → Sealed lg es m
    → Sealed lg es k
Sealed-torn lg es m k fits same =
    Sealed-congr lg es m k fits
      λ a lo hi. same a (Untouched-log lg.log (lg.size_of_log + 16) es a fits.sound lo hi)

-- After a wrap of sound entries that fit has been logged and closed, memory `torn` may differ from
-- what the close left at any addresses that an entry writes, and at no other. Recovery of the log
-- from it ends normally, has counted every entry, and makes memory outside the log what the entries
-- written in order make of the memory before the wrap; the log is no longer marked complete.
pub restore_torn :
    (w : ℕ) (es : List Entry) (lg : Logger) (st : Scm) (s : Logger × Scm) (torn : Scm)
    → Fits lg es
    → session w es (lg, st) ≡ ok s
    → ((a : ℕ) → Untouched es a → torn.mem a ≡ s.1.mem a)
    → (r : ℕ × Scm) × (restore_wrap_log_entries (length es + 1) lg.log torn ≡ ok r)
      × Recovered lg es st.mem r
restore_torn w es lg st s torn fits ran same =
    let (s', run, closed) = session-Closed w es lg st fits in
    let e : s' ≡ s = ok_injective (sym run ∙ ran) in
    let same' = λ (a : ℕ) (free : Untouched es a).
      same a free ∙ sym (ap (λ (r : Logger × Scm). r.1.mem a) e) in
    let (r, run', back) =
      restore-Sealed es lg torn fits
        (Sealed-torn lg es s'.1.mem torn.mem fits same' closed.sealed) in
    (
      r,
      run',
      record {
        counted = back.counted;
        replayed = λ a h.
            back.replayed a h
            ∙ replay_torn es s'.1.mem torn.mem a (same' a)
            ∙ replay_congr es s'.1.mem st.mem a (closed.kept a h);
        cleared = back.cleared;
      },
    )

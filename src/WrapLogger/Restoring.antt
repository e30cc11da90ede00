-- ===== src/WrapLogger/Restoring.antt =====
-- The loop of `restoreWrapLogEntries` over a closed log replays the entries.
use softwrap.Prelude.{
  ℕ, zero, suc, ◌+◌, ◌*◌, ◌/◌, ◌%◌, ◌^◌, ◌≤◌, ◌<◌, ◌≡◌, inr, refl, ◌∙◌, List, [], ◌∷◌, ◌++◌, length,
  length-append, arith, ==_refl, ne→==_false, lt→leb_false, ok,
}
use mathlib.Core.List.{append_assoc}
use softwrap.Scm.Bytes.{
  Mem, Holds, Holds-split, Holds-write_other, read_bytes, read_bytes-Holds, write_bytes, le, load,
  load-Holds, length-le,
}
use softwrap.Scm.NtStore.{mem-ntstore}
use softwrap.Scm.{Scm, ntstore}
use softwrap.WrapLogger.Entries.{Entry, IsSound, encode, encode_all, replay, length-encode, All}
use softwrap.WrapLogger.{restore_loop}

-- The sixteen zero bytes that `wrapLogClose` puts behind the last entry.
abbrev pub terminator : List ℕ
terminator = le 8 0 ++ le 8 0

terminator_ints : terminator ≡ le 4 0 ++ (le 8 0 ++ le 4 0)
unfolding le
terminator_ints = refl

-- An entry's header reads back as its mask and its destination, and its data lies behind it.
pub record Header (m : Mem) (at flag : ℕ) (e : Entry) : Type 0 where
  pub mask : load 4 at m ≡ length e.bytes * 4 + 2 + flag
  pub dest : load 8 (at + 4) m ≡ e.dest
  pub payload : read_bytes (length e.bytes) (at + 4 + 8) m ≡ e.bytes

pub encode-Header :
    (m : Mem) (at flag : ℕ) (e : Entry)
    → flag < 2
    → length e.bytes < 2 ^ 29
    → e.dest < 256 ^ 8
    → Holds m at (encode flag e)
    → Header m at flag e
unfolding encode
encode-Header m at flag e bit small address h =
    let (mask, rest) = Holds-split m at (le 4 (length e.bytes * 4 + 2 + flag)) _ h in
    let (dest, payload) = Holds-split m (at + 4) (le 8 e.dest) e.bytes (rw length-le at rest) in
    record {
      mask = load-Holds 4 _ m at (omega arith) mask;
      dest = load-Holds 8 e.dest m (at + 4) address dest;
      payload = read_bytes-Holds m _ e.bytes (rw length-le at payload);
    }

-- One turn of the loop at a sound entry.
restore_step :
    (fuel flag at num : ℕ) (e : Entry) (st : Scm)
    → flag < 2
    → 0 < e.dest
    → length e.bytes < 2 ^ 29
    → Header st.mem at flag e
    → restore_loop (suc fuel) flag at num st
      ≡ restore_loop fuel flag
          (at + (12 + length e.bytes))
          (num + 1)
          (ntstore e.dest (at + 4 + 8) (length e.bytes) st)
unfolding restore_loop
restore_step fuel flag at num e st bit pos small h =
    let n = length e.bytes in
    let odd : (n * 4 + 2 + flag) % 2 ≡ flag = omega arith in
    let size : (n * 4 + 2 + flag) / 4 ≡ n = omega arith in
    let far : at + 4 + (8 + n) ≡ at + (12 + n) = omega arith in
    rw (
      h.mask,
      h.dest,
      odd,
      size,
      far,
      ==_refl flag,
      ne→==_false e.dest 0 (omega arith),
      lt→leb_false (2 ^ 31) (n * 4 + 2 + flag) (omega arith),
    )

restore_stop :
    (fuel flag at num : ℕ) (st : Scm)
    → Holds st.mem at terminator
    → restore_loop (suc fuel) flag at num st ≡ ok (num, st)
unfolding restore_loop
restore_stop fuel flag at num st h =
    let (first, rest) =
      Holds-split st.mem at (le 4 0) (le 8 0 ++ le 4 0) (rw terminator_ints at h) in
    let (second, _) = Holds-split st.mem (at + 4) (le 8 0) (le 4 0) (rw length-le at rest) in
    let i = load-Holds 4 0 st.mem at (omega arith) first in
    let d = load-Holds 8 0 st.mem (at + 4) (omega arith) second in rw (i, d) (ground arith)

-- The whole loop: it stops at the terminator, has counted the entries, and memory is the replay.
pub restore_loop-replay :
    (es : List Entry) (fuel flag at num from width : ℕ) (st : Scm)
    → length es < fuel
    → flag < 2
    → from ≤ at
    → at + length (encode_all flag es) + 16 ≤ from + width
    → All (IsSound from width) es
    → Holds st.mem at (encode_all flag es ++ terminator)
    → (st' : Scm) × (restore_loop fuel flag at num st ≡ ok (num + length es, st'))
      × (st'.mem ≡ replay es st.mem)
unfolding encode_all replay
restore_loop-replay es zero flag at num from width st enough bit lo hi sound h =
    absurd (omega arith)
restore_loop-replay [] (suc fuel) flag at num from width st enough bit lo hi sound h =
    let e : num + 0 ≡ num = omega arith in (st, rw e (restore_stop fuel flag at num st h), refl)
restore_loop-replay (e ∷ es) (suc fuel) flag at num from width st enough bit lo hi sound h =
    let n = length e.bytes in
    let tail = encode_all flag es ++ terminator in
    let k = length-encode flag e in
    let total = length-append (encode flag e) (encode_all flag es) in
    let span = length-append (encode_all flag es) terminator in
    let end : length terminator ≡ 16 = rw (length-append (le 8 0), length-le 8 0) in
    let up : at + (12 + n) + length (encode_all flag es) + 16 ≤ from + width =
      omega (arith, total, k) in
    let parts = Holds-split st.mem at (encode flag e) tail (rw append_assoc at h) in
    let header = encode-Header st.mem at flag e bit sound.0.small sound.0.address parts.0 in
    let next = ntstore e.dest (at + 4 + 8) n st in
    let wrote : next.mem ≡ write_bytes e.dest e.bytes st.mem =
      mem-ntstore e.dest (at + 4 + 8) n st (inr (omega (arith, sound.0.apart)))
      ∙ rw header.payload in
    let kept : Holds next.mem (at + (12 + n)) tail = rw wrote (
      Holds-write_other e.dest e.bytes st.mem (at + (12 + n)) tail
        (omega (arith, sound.0.apart, span, end)) (rw k at parts.1)) in
    let (st', run, mem) =
      restore_loop-replay es fuel flag (at + (12 + n)) (num + 1) from width next (omega arith) bit
        (omega arith) up sound.1 kept in
    let count : num + 1 + length es ≡ num + suc (length es) = omega arith in
    (
      st',
      restore_step fuel flag at num e st bit sound.0.not_null sound.0.small header ∙ run ∙ rw count,
      mem ∙ rw wrote,
    )

-- ===== src/Tests/Data.antt =====
-- The states that the examples share.
use native.Mathlib.Nat.{one-le-pow, pow-le-pow_right, mod-eq_of_lt}
use softwrap.Bloom.Ranges.{ShiftsToLowBit}
use softwrap.Prelude.{
  ◌≢◌, length, false, List, [], ◌∷◌, ℕ, ◌%◌, ◌^◌, ◌-◌, ◌≡◌, ◌≤◌, ◌<◌, ◌==◌, if◌then◌else◌, arith,
  inl, inr, Bool-cases,
}
use softwrap.Scm.{Scm}
use softwrap.Bloom.{Bloom}
use softwrap.Lat.{Lat}
use softwrap.Scm.Bytes.{le}
use softwrap.WrapLogger.Entries.{Entry, IsSound, encode_all, encode}
use softwrap.WrapLogger.Session.{Fits}
use softwrap.WrapLogger.{Logger}

-- Memory whose byte at an address is the address's low byte.
abbrev pub scm : Scm
scm = record { mem = λ a. a % 256; ntstores = 0; pmsyncs = 0 }

-- The shift of x86, sign-extended to 64 bits: the count is taken modulo 32.
abbrev pub x86_shift : ℕ → ℕ
x86_shift s = if s % 32 == 31 then 2 ^ 64 - 2 ^ 31 else 2 ^ (s % 32)

pub x86_shift-ShiftsToLowBit : ShiftsToLowBit x86_shift
x86_shift-ShiftsToLowBit s lt e = elim (Bool-cases (s % 32 == 31)) [
  | inl top ↦ let bad : (2 ^ 64 - 2 ^ 31) % 2 ^ 32 ≡ 0 = rw top at e in omega arith
  | inr low ↦
      let value : 2 ^ (s % 32) % 2 ^ 32 ≡ 0 = rw low at e in
      let pos = one-le-pow (s % 32) 2 (omega arith) in
      let top : 2 ^ (s % 32) ≤ 2 ^ 31 = pow-le-pow_right (omega arith) {j = 31} (ground arith) in
      let same : 2 ^ (s % 32) % 2 ^ 32 ≡ 2 ^ (s % 32) = mod-eq_of_lt (omega arith) in omega arith
]

abbrev pub no_bits : Bloom
no_bits i = 0

abbrev pub lat : Lat
lat = record {
  entries = [];
  bytes = λ i. 0;
  last_data = 0;
  bloom = no_bits;
  delay_write_back = false;
}

abbrev pub small_log : Logger
small_log = record { log = 1000; current = 1020; size_of_log = 200; wrap_id = 0; flag_entry = 0 }

abbrev pub double : List ℕ
double = 1 ∷ 2 ∷ 3 ∷ 4 ∷ 5 ∷ 6 ∷ 7 ∷ 8 ∷ []

abbrev pub entries : List Entry
entries =
    record { dest = 5000; bytes = double }
    ∷ record { dest = 6000; bytes = 9 ∷ 8 ∷ [] }
    ∷ record { dest = 5004; bytes = 7 ∷ [] }
    ∷ []

pub entry-IsSound :
    (dest : ℕ) (xs : List ℕ)
    → length xs ≢ 4
    → length xs < 9
    → 4999 < dest
    → dest < 7000
    → IsSound 1000 216 (record { dest = dest; bytes = xs })
entry-IsSound dest xs four small lo hi = record {
  not_four = four;
  small = omega arith;
  not_null = omega arith;
  address = omega arith;
  apart = inr (omega arith);
}

pub entries-Fits : Fits small_log entries
unfolding encode_all encode le
entries-Fits = record {
  sound = (
    entry-IsSound 5000 double (omega arith) (omega arith) (omega arith) (omega arith),
    (
      entry-IsSound 6000 (9 ∷ 8 ∷ []) (omega arith) (omega arith) (omega arith) (omega arith),
      (entry-IsSound 5004 (7 ∷ []) (omega arith) (omega arith) (omega arith) (omega arith), tt),
    ),
  );
  room = omega arith;
}

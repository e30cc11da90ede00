-- ===== src/At2.antt =====
-- src/main/AT2.cpp and .h: two alias tables, of which one is restored by a thread of its own while
-- the program stores in the other. A step is what a thread does between two of its reads or writes of
-- what both share: the flags and, while a table is restored, one of its entries.
pub mod Tables
pub mod Known
pub mod Invariant
pub mod Retiring
pub mod Calls
pub mod Storing
pub mod Drain
pub mod Ends
use softwrap.AliasHash.{AliasHash, restore_entry, finish_restore, store, load, clear_hash}
use softwrap.Prelude.{
  ℕ, ◌+◌, ◌*◌, ◌/◌, ◌≡◌, ◌≢◌, Bool, true, false, ltb, ◌==◌, ◌&&◌, ◌||◌, not, if◌then◌else◌, Option,
  none, some, Run, ok, abort, no_fuel, ◌>>=◌,
}
use softwrap.Scm.{Scm}

-- `m_atA` and `m_atB`
pub data Which : Type 0 where
  at_a : Which
  at_b : Which

abbrev pub same : Which → Which → Bool
same at_a at_a = true
same at_a at_b = false
same at_b at_a = false
same at_b at_b = true

-- The macro `otherTable`.
abbrev pub other : Which → Which
other at_a = at_b
other at_b = at_a

abbrev pub set {ℓ} : {A : Type ℓ} → (Which → A) → Which → A → Which → A
set f x value y = if same y x then value else f y

-- Where `retireThread` stands: at its wait, at the test of a table's flag, in the loop of its restore
-- before an entry, behind the restore.
pub data Worker : Type 0 where
  waiting : Worker
  testing : Which → Worker
  restoring : Which → ℕ → Worker
  restored : Which → Worker

-- Where the program's thread stands: outside, at the wait of `onWrapClose` for the other table,
-- behind it before the clear, at that wait in `restoreAllElements`, and at its wait for both
-- tables.
pub data Caller : Type 0 where
  running : Caller
  closing : Caller
  clearing : Caller
  draining : Caller
  awaiting : Caller

-- `retire` is `m_retireA` and `m_retireB`, `active` `m_aliasTableHash`. `signalled` tells that
-- `_emptyCondition` was signalled since the caller's last wait for both tables began.
pub record At2 : Type 0 where
  pub tables : Which → AliasHash
  pub retire : Which → Bool
  pub active : Which
  pub thresh : ℕ
  pub signalled : Bool
  pub scm : Scm
  pub worker : Worker
  pub caller : Caller

-- What the retiring thread goes on to behind the test of a flag.
abbrev pub after : Which → Worker
after at_a = testing at_b
after at_b = waiting

-- One turn of the loop of `restoreAllElements`, or what follows the loop.
unfoldable pub restore_turn : Which → ℕ → At2 → Run At2
restore_turn x i s =
    let h = s.tables x in
    let turn = restore_entry i (h.table, s.scm) >>= λ r. ok (record s {
      tables = set s.tables x (record h { table = r.0 });
      scm = r.1;
      worker = restoring x (i + 1);
    }) in
    let (h', st) = finish_restore h (h.table, s.scm) in
    let done = record s { tables = set s.tables x h'; scm = st; worker = restored x } in
    if ltb i h.table.array_size then turn else ok done

-- A step of `retireThread`, which stays where it is at a wait that does not end.
unfoldable pub worker_step : Worker → At2 → Run At2
unfolding restore_turn
worker_step waiting s =
    if s.retire at_a || s.retire at_b then ok (record s { worker = testing at_a }) else ok s
worker_step (testing x) s = ok (record s { worker = if s.retire x then restoring x 0 else after x })
worker_step (restoring x i) s = restore_turn x i s
worker_step (restored x) s =
    ok (record s { retire = set s.retire x false; signalled = true; worker = after x })

-- `while (m_retireB) Wait(…); m_retireA = 1; m_aliasTableHash = m_atB; …`
abbrev pub retire_active : At2 → At2
retire_active s = record s {
  retire = set s.retire s.active true;
  active = other s.active;
  caller = clearing;
}

-- A step of the program's thread in a call. The wait of `restoreAllElements` ends with a signal.
unfoldable pub caller_step : Caller → At2 → At2
caller_step running s = s
caller_step closing s = if s.retire (other s.active) then s else retire_active s
caller_step clearing s = record s {
  tables = set s.tables s.active (clear_hash (s.tables s.active));
  caller = running;
}
caller_step draining s =
    if s.retire (other s.active)
    then s
    else record s { retire = set s.retire s.active true; signalled = false; caller = awaiting }
caller_step awaiting s =
    if s.signalled then record s { tables = λ x. clear_hash (s.tables x); caller = running } else s

-- The calls, up to their first wait.
unfoldable pub on_wrap_close : At2 → At2
on_wrap_close s =
    let t = (s.tables s.active).table in
    if ltb (t.array_size / s.thresh) t.num_items then record s { caller = closing } else s

unfoldable pub restore_all_elements : At2 → At2
restore_all_elements s = record s { caller = draining }

unfoldable pub at2_store : (ℕ → ℕ) → ℕ → ℕ → ℕ → At2 → Run At2
at2_store int_shift ptr value size s = store int_shift ptr value size (s.tables s.active) >>= λ h.
    ok (record s { tables = set s.tables s.active h })

-- Where the value is that `load` points to: an entry of a table, or `ptr` itself.
pub data Place : Type 0 where
  in_table : Which → ℕ → Place
  in_memory : ℕ → Place

unfoldable pub at2_load : (ℕ → ℕ) → ℕ → At2 → Run Place
at2_load int_shift ptr s = load int_shift (s.tables s.active) ptr >>= λ first. elim first [
  | some i ↦ ok (in_table s.active i)
  | none ↦ load int_shift (s.tables (other s.active)) ptr >>= λ second. elim second [
    | some i ↦ ok (in_table (other s.active) i)
    | none ↦ ok (in_memory ptr)
  ]
]

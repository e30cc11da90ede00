-- ===== src/At3.antt =====
-- src/main/AT3.cpp and .h: two alias tables that many threads share, with a count of the wraps that
-- are open on each and of those that read the other one too, and a thread that restores a table
-- once it is full and no wrap is open on it. A step is what a thread does while it holds the mutex,
-- or, outside of it, a store, a turn of the restore, or the clear of a table.
pub mod Counting
pub mod Steps
pub mod Opens
pub mod Closes
pub mod Works
pub mod Retiring
pub mod Runs
pub mod Waits
use softwrap.AliasHash.{AliasHash, restore_entry, finish_restore, store, load, clear_hash}
use softwrap.At2.{Which, at_a, at_b, other, set}
use softwrap.Prelude.{
  ℕ, ◌+◌, ◌-◌, ◌/◌, Bool, true, false, ltb, ◌==◌, ◌&&◌, ◌||◌, not, if◌then◌else◌, Option, none,
  some, Run, ok, ◌>>=◌,
}
use softwrap.Scm.{Scm}

-- `AliasState`
pub data AliasState : Type 0 where
  active : AliasState
  wait_writers : AliasState
  retire : AliasState
  wait_readers : AliasState
  empty : AliasState

-- The tests on a state that the code writes out.
abbrev pub is_retire : AliasState → Bool
is_retire active = false
is_retire wait_writers = false
is_retire retire = true
is_retire wait_readers = false
is_retire empty = false

abbrev pub is_wait_readers : AliasState → Bool
is_wait_readers active = false
is_wait_readers wait_writers = false
is_wait_readers retire = false
is_wait_readers wait_readers = true
is_wait_readers empty = false

abbrev pub is_empty : AliasState → Bool
is_empty active = false
is_empty wait_writers = false
is_empty retire = false
is_empty wait_readers = false
is_empty empty = true

-- `(state == Active) || (state == Empty)`
abbrev pub is_usable : AliasState → Bool
is_usable active = true
is_usable wait_writers = false
is_usable retire = false
is_usable wait_readers = false
is_usable empty = true

-- `(state == Active) || (state == WaitWriters) || (state == Retire)`
abbrev pub is_readable : AliasState → Bool
is_readable active = true
is_readable wait_writers = true
is_readable retire = true
is_readable wait_readers = false
is_readable empty = false

-- `state`, `other_readers` and `num` are the fields with an A and a B at the end of their name.
pub record At3 : Type 0 where
  pub tables : Which → AliasHash
  pub state : Which → AliasState
  pub other_readers : Which → ℕ
  pub num : Which → ℕ
  pub thresh : ℕ

-- The variables of a thread: `m_aliasTableHash` and `m_readOtherTable`.
pub record Thread : Type 0 where
  pub table : Option Which
  pub read_other : Bool

abbrev pub crossed_threshold : Which → At3 → Bool
crossed_threshold x m = let t = (m.tables x).table in ltb (t.array_size / m.thresh) t.num_items

-- The table that a wrap is opened on, or a wait.
abbrev pub choose : At3 → Option Which
choose m =
    if is_usable (m.state at_a)
    then some at_a
    else if is_usable (m.state at_b)
    then some at_b
    else none

-- What follows the choice: `m_numA++`, and the count of the readers of the other table.
unfoldable pub enter : Which → At3 → At3 × Thread
enter x m =
    let reads = is_readable (m.state (other x)) in
    (
      record m {
        num = set m.num x (m.num x + 1);
        other_readers =
            set m.other_readers (other x)
              (if reads then m.other_readers (other x) + 1 else m.other_readers (other x));
      },
      record { table = some x; read_other = reads },
    )

-- `none` is a wait, which leaves the mutex.
unfoldable pub on_wrap_open : Thread → At3 → Option (At3 × Thread)
unfolding enter
on_wrap_open th m = elim th.table [
  | some x ↦ some (enter x m)
  | none ↦ elim (choose m) [
    | some x ↦ some (enter x (record m { state = set m.state x active }))
    | none ↦ none
  ]
]

-- `--m_numA;` and, if the wrap read the other table, `--m_otherReadersB;`, which stop at 0 here.
abbrev pub leave : Which → Bool → At3 → At3
leave x reads m = record m {
  num = set m.num x (m.num x - 1);
  other_readers =
      set m.other_readers (other x)
        (if reads then m.other_readers (other x) - 1 else m.other_readers (other x));
}

-- Where the table is full: to `Retire` with the last wrap, and else to `WaitWriters`.
abbrev pub fill : Which → At3 → At3
fill x m = record m { state = set m.state x (if m.num x == 0 then retire else wait_writers) }

-- The Boolean tells whether `_notifyRetire` was signalled.
unfoldable pub close_on : Which → Bool → At3 → At3 × Bool
close_on x reads m =
    let left = leave x reads m in
    let last_reader =
      reads && (left.other_readers (other x) == 0) && is_wait_readers (m.state (other x)) in
    if crossed_threshold x m
    then (fill x left, last_reader || (left.num x == 0))
    else (left, last_reader)

-- A call outside a wrap goes through a null pointer.
unfoldable pub on_wrap_close : Thread → At3 → Option ((At3 × Thread) × Bool)
unfolding close_on
on_wrap_close th m = elim th.table [
  | none ↦ none
  | some x ↦
      let (m', signalled) = close_on x th.read_other m in
      some ((m', record th { table = none }), signalled)
]

unfoldable pub at3_store : (ℕ → ℕ) → ℕ → ℕ → ℕ → Which → At3 → Run At3
at3_store int_shift ptr value size x m =
    store int_shift ptr value size (m.tables x) >>= λ h. ok (record m { tables = set m.tables x h })

-- Where the value is that `load` points to: an entry of a table, or `ptr` itself.
pub data Place : Type 0 where
  in_table : Which → ℕ → Place
  in_memory : ℕ → Place

unfoldable pub at3_load : (ℕ → ℕ) → ℕ → Which → Bool → At3 → Run Place
at3_load int_shift ptr x reads m = load int_shift (m.tables x) ptr >>= λ first.
    let second = load int_shift (m.tables (other x)) ptr >>= λ found. elim found [
      | some i ↦ ok (in_table (other x) i)
      | none ↦ ok (in_memory ptr)
    ] in
    elim first [ some i ↦ ok (in_table x i) | none ↦ if reads then second else ok (in_memory ptr) ]

-- Where `retireThread` stands: before the test of its loop, asleep, in the loop of a restore before
-- an entry, before the clear of a table, behind it.
pub data Worker : Type 0 where
  testing : Worker
  asleep : Worker
  restoring : Which → ℕ → Worker
  clearing : Which → Worker
  cleared : Which → Worker

-- The condition under which the retiring thread has nothing to do with a table.
abbrev pub idle_at : AliasState → ℕ → Bool
idle_at state readers = not (is_retire state) && (not (is_wait_readers state) || not (readers == 0))

abbrev pub is_idle : Which → At3 → Bool
is_idle x m = idle_at (m.state x) (m.other_readers x)

-- At a table that needs no restore: `if (m_otherReadersA == 0)`, and the table after it.
abbrev pub look_b : At3 → Worker
look_b m =
    if is_retire (m.state at_b)
    then restoring at_b 0
    else if is_wait_readers (m.state at_b) && (m.other_readers at_b == 0)
    then clearing at_b
    else testing

abbrev pub look_a : At3 → Worker
look_a m =
    if is_retire (m.state at_a)
    then restoring at_a 0
    else if is_wait_readers (m.state at_a) && (m.other_readers at_a == 0)
    then clearing at_a
    else look_b m

-- What comes behind a table in a turn of the loop.
abbrev pub behind : Which → At3 → Worker
behind at_a m = look_b m
behind at_b m = testing

-- The mutex is taken again behind a restore.
unfoldable pub restored : Which → At3 → At3 × Worker
restored x m =
    if m.other_readers x == 0
    then (m, clearing x)
    else (let m' = record m { state = set m.state x wait_readers } in (m', behind x m'))

-- One turn of the loop of `restoreAllElements`, or what follows the loop.
unfoldable pub restore_turn : Which → ℕ → At3 × Scm → Run ((At3 × Scm) × Worker)
unfolding restored
restore_turn x i (m, st) =
    let h = m.tables x in
    let turn = restore_entry i (h.table, st) >>= λ r.
    ok (
      (record m { tables = set m.tables x (record h { table = r.0 }) }, r.1),
      restoring x (i + 1),
    ) in
    let (h', st') = finish_restore h (h.table, st) in
    let (m', next) = restored x (record m { tables = set m.tables x h' }) in
    if ltb i h.table.array_size then turn else ok ((m', st'), next)

-- A step of `retireThread`. It sleeps until it is woken.
unfoldable pub worker_step : Worker → At3 × Scm → Run ((At3 × Scm) × Worker)
unfolding restore_turn
worker_step testing (m, st) =
    ok ((m, st), if is_idle at_a m && is_idle at_b m then asleep else look_a m)
worker_step asleep (m, st) = ok ((m, st), asleep)
worker_step (restoring x i) (m, st) = restore_turn x i (m, st)
worker_step (clearing x) (m, st) =
    ok ((record m { tables = set m.tables x (clear_hash (m.tables x)) }, st), cleared x)
worker_step (cleared x) (m, st) =
    let m' = record m { state = set m.state x empty } in ok ((m', st), behind x m')

-- `Broadcast(&_notifyEmpty);` of the step, under the mutex.
abbrev pub broadcasts : Worker → Bool
broadcasts testing = false
broadcasts asleep = false
broadcasts (restoring x i) = false
broadcasts (clearing x) = false
broadcasts (cleared x) = true

-- `restoreAllElements` up to its wait, with a signal. `true` says that it returns at once.
abbrev pub retire_used : AliasState → AliasState
retire_used active = retire
retire_used wait_writers = retire
retire_used retire = retire
retire_used wait_readers = retire
retire_used empty = empty

unfoldable pub restore_all_elements : At3 → At3 × Bool
restore_all_elements m =
    let m' = record m { state = λ x. retire_used (m.state x) } in
    (m', is_empty (m'.state at_a) || is_empty (m'.state at_b))

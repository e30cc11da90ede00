-- ===== src/At3/Runs.antt =====
-- What holds in every state that the threads' steps lead to.
use softwrap.At2.{Which, other}
use softwrap.At3.Closes.{on_wrap_close_lem}
use softwrap.At3.Counting.{count, count_find, count_pos, count_zero, is_on, is_reader}
use softwrap.At3.Opens.{on_wrap_open_lem, WorkerOk-woken, same_refl}
use softwrap.At3.Retiring.{worker_step_lem, no_writers, and_true}
use softwrap.At3.Steps.{
  System, woken, notified, put_wait, Step, open_wrap, wait_empty, close_wrap, put_value, work, wake,
  drain, Reach, start, later, StateOk, WorkerOk, IsAt3,
}
use softwrap.At3.Works.{at3_store_lem}
use softwrap.At3.{
  AliasState, active, wait_writers, retire, wait_readers, empty, At3, Thread, Worker, testing,
  asleep, restoring, clearing, cleared, crossed_threshold, is_idle, is_usable, broadcasts,
  restore_all_elements, retire_used,
}
use softwrap.Prelude.{
  ℕ, ◌<◌, ◌≡◌, ◌≢◌, ◌⊎◌, inl, inr, refl, sym, ◌∙◌, arith, Bool, true, false, some, none,
  Option-cases,
}

-- The state that the constructor leaves, with no thread in a wrap.
pub record IsNew (s : System) : Type 0 where
  pub unused : (x : Which) → s.at.state x ≡ empty
  pub no_writer : (x : Which) → s.at.num x ≡ 0
  pub no_reader : (x : Which) → s.at.other_readers x ≡ 0
  pub outside : (i : ℕ) → (s.threads i).table ≡ none
  pub begins : s.worker ≡ testing
  pub no_waiter : (i : ℕ) → s.waits i ≡ false

IsNew-IsAt3 : (n : ℕ) (s : System) → IsNew s → IsAt3 n s
IsNew-IsAt3 n s new = record {
  writers =
      λ x. new.no_writer x ∙ sym (count_zero n (is_on x) s.threads (λ i lt. rw (new.outside i)));
  readers = λ x.
      new.no_reader x ∙ sym (count_zero n (is_reader x) s.threads (λ i lt. rw (new.outside i)));
  states = λ x. rw (new.unused x) (new.no_writer x);
  stands = rw (new.begins) tt;
}

retire_used-StateOk : (a : AliasState) (full : Bool) → StateOk (retire_used a) 0 full
retire_used-StateOk active full = refl
retire_used-StateOk wait_writers full = refl
retire_used-StateOk retire full = refl
retire_used-StateOk wait_readers full = refl
retire_used-StateOk empty full = refl

drain_lem :
    (n : ℕ) (s : System)
    → IsAt3 n s
    → ((i : ℕ) → i < n → (s.threads i).table ≡ none)
    → IsAt3 n (record s { at = (restore_all_elements s.at).0; worker = woken true s.worker })
unfolding restore_all_elements
drain_lem n s inv outside =
    let nobody =
      λ (x : Which). inv.writers x ∙ count_zero n (is_on x) s.threads (λ i lt. rw (outside i lt)) in
    record {
      writers = inv.writers;
      readers = inv.readers;
      states = λ x. rw (nobody x) (retire_used-StateOk (s.at.state x) (crossed_threshold x s.at));
      stands =
          WorkerOk-woken s.at (restore_all_elements s.at).0 true s.worker (λ x e. rw e refl)
            (λ x e. inl (rw e refl)) (λ e. cc e) inv.stands;
    }

wake_lem : (n : ℕ) (s : System) → IsAt3 n s → IsAt3 n (record s { worker = woken true s.worker })
wake_lem n s inv = record {
  writers = inv.writers;
  readers = inv.readers;
  states = inv.states;
  stands = WorkerOk-woken s.at s.at true s.worker (λ x e. e) (λ x e. inr e) (λ e x h. h) inv.stands;
}

IsAt3-waits :
    (n : ℕ) (s : System) (waits : ℕ → Bool) → IsAt3 n s → IsAt3 n (record s { waits = waits })
IsAt3-waits n s waits inv = record {
  writers = inv.writers;
  readers = inv.readers;
  states = inv.states;
  stands = inv.stands;
}

Step-IsAt3 :
    (int_shift : ℕ → ℕ) (n : ℕ) {s s' : System} → IsAt3 n s → Step int_shift n s s' → IsAt3 n s'
Step-IsAt3 int_shift n inv (wait_empty s i lt outside full) =
    IsAt3-waits n s (put_wait s.waits i true) inv
Step-IsAt3 int_shift n inv (open_wrap s i m th lt outside awake run) =
    on_wrap_open_lem n s i m th inv lt outside run
Step-IsAt3 int_shift n inv (close_wrap s i m th signalled lt run) =
    on_wrap_close_lem n s i m th signalled inv lt run
Step-IsAt3 int_shift n inv (put_value s i x ptr value size m inside run) =
    at3_store_lem n s inv int_shift ptr value size x m run
Step-IsAt3 int_shift n inv (work s m st w run) =
    IsAt3-waits n (record s { at = m; scm = st; worker = w })
      (notified (broadcasts s.worker) s.waits)
      (worker_step_lem n s inv s.worker ((m, st), w) inv.stands run)
Step-IsAt3 int_shift n inv (wake s) = wake_lem n s inv
Step-IsAt3 int_shift n inv (drain s outside) = drain_lem n s inv outside

pub Reach-IsAt3 :
    (int_shift : ℕ → ℕ) (n : ℕ) {s0 s : System} → IsNew s0 → Reach int_shift n s0 s → IsAt3 n s
Reach-IsAt3 int_shift n {s0} new start = IsNew-IsAt3 n s0 new
Reach-IsAt3 int_shift n new (later s1 s' before step) =
    Step-IsAt3 int_shift n (Reach-IsAt3 int_shift n new before) step

-- In whatever order the steps of any number of threads and of the retiring thread come, from new
-- tables, with every wrap opened outside of wraps and all closed at a call of restoreAllElements,
-- the counts of a table are those of the threads: of the ones in a wrap on it, and of the ones in a
-- wrap on the other table that read this one too.
pub Reach-count :
    (int_shift : ℕ → ℕ) (n : ℕ) {s0 s : System} (x : Which)
    → IsNew s0
    → Reach int_shift n s0 s
    → (s.at.num x ≡ count n (is_on x) s.threads)
      × (s.at.other_readers x ≡ count n (is_reader x) s.threads)
Reach-count int_shift n x new reach =
    let inv = Reach-IsAt3 int_shift n new reach in (inv.writers x, inv.readers x)

-- The retiring thread is at the restore of the table, or at its clear.
abbrev pub Retires : Which → Worker → Type 0
Retires x testing = ⊥
Retires x asleep = ⊥
Retires x (restoring y i) = y ≡ x
Retires x (clearing y) = y ≡ x
Retires x (cleared y) = y ≡ x

busy_state :
    (m : At3) (x : Which) (w : Worker)
    → Retires x w
    → WorkerOk m w
    → (m.state x ≡ retire) ⊎ (m.state x ≡ wait_readers)
busy_state m x testing e ok' = elim e [ ]
busy_state m x asleep e ok' = elim e [ ]
busy_state m x (restoring y i) e ok' = inl (rw e at ok')
busy_state m x (clearing y) e ok' = rw e at ok'
busy_state m x (cleared y) e ok' = rw e at ok'

is_on-true : (x : Which) (th : Thread) → th.table ≡ some x → is_on x th ≡ true
is_on-true x th e = rw e (same_refl x)

-- In such a run no thread is in a wrap on the table that the retiring thread restores or clears.
pub Reach-Retires :
    (int_shift : ℕ → ℕ) (n : ℕ) {s0 s : System} (x : Which) (i : ℕ)
    → IsNew s0
    → Reach int_shift n s0 s
    → Retires x s.worker
    → i < n
    → (s.threads i).table ≢ some x
Reach-Retires int_shift n {s0} {s} x i new reach busy lt on =
    let inv = Reach-IsAt3 int_shift n new reach in
    let nobody =
      no_writers (s.at.state x) (s.at.num x) _ (busy_state s.at x s.worker busy inv.stands)
        (inv.states x) in
    let pos = count_pos n (is_on x) s.threads i lt (is_on-true x (s.threads i) on) in
    omega (arith, inv.writers x, nobody, pos)

-- A thread that is in a wrap.
abbrev pub InWrap : ℕ → System → Type 0
InWrap n s = (i : ℕ) × (i < n) × (x : Which) × ((s.threads i).table ≡ some x)

is_on_inside : (x : Which) (th : Thread) → is_on x th ≡ true → (y : Which) × (th.table ≡ some y)
is_on_inside x th h = elim (Option-cases th.table) [ inl e ↦ cc (rw e at h) | inr (y, e) ↦ (y, e) ]

pub unusable_cases :
    (n : ℕ) (s : System) (x : Which) (a : AliasState)
    → IsAt3 n s
    → s.at.state x ≡ a
    → is_usable a ≡ false
    → is_idle x s.at ≡ true
    → InWrap n s
unusable_cases n s x active inv e h idle = cc h
unusable_cases n s x wait_writers inv e h idle =
    let (i, lt, on) =
      count_find n (is_on x) s.threads (omega (arith, inv.writers x, (rw e at (inv.states x)).0)) in
    let (y, inside) = is_on_inside x (s.threads i) on in (i, lt, y, inside)
unusable_cases n s x retire inv e h idle = cc (rw e at idle)
unusable_cases n s x wait_readers inv e h idle =
    let some_reader : 0 < s.at.other_readers x = ground (arith, rw e at idle) in
    let (i, lt, reads) =
      count_find n (is_reader x) s.threads (omega (arith, inv.readers x, some_reader)) in
    let (y, inside) = is_on_inside (other x) (s.threads i) (and_true _ _ reads).0 in
    (i, lt, y, inside)
unusable_cases n s x empty inv e h idle = cc h

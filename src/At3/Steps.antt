-- ===== src/At3/Steps.antt =====
-- The runs of any number of threads and of the retiring thread, interleaved in any order.
use softwrap.At2.{Which}
use softwrap.At3.Counting.{count, put, is_on, is_reader}
use softwrap.At3.{
  AliasState, active, wait_writers, retire, wait_readers, empty, At3, Thread, Worker, testing,
  asleep, restoring, clearing, cleared, crossed_threshold, is_idle, on_wrap_open, on_wrap_close,
  at3_store, worker_step, broadcasts, restore_all_elements,
}
use softwrap.Prelude.{ℕ, ◌<◌, ◌≡◌, ◌⊎◌, Bool, true, false, ◌==◌, if◌then◌else◌, some, none, ok}
use softwrap.Scm.{Scm}

-- `waits` are the threads in their wait for `_notifyEmpty`.
pub record System : Type 0 where
  pub at : At3
  pub scm : Scm
  pub threads : ℕ → Thread
  pub worker : Worker
  pub waits : ℕ → Bool

-- A signal ends the sleep.
abbrev pub woken : Bool → Worker → Worker
woken b testing = testing
woken b asleep = if b then testing else asleep
woken b (restoring x i) = restoring x i
woken b (clearing x) = clearing x
woken b (cleared x) = cleared x

-- `Broadcast(&_notifyEmpty)` wakes all threads that wait for it.
abbrev pub notified : Bool → (ℕ → Bool) → ℕ → Bool
notified b waits i = if b then false else waits i

abbrev pub put_wait : (ℕ → Bool) → ℕ → Bool → ℕ → Bool
put_wait waits i b j = if j == i then b else waits j

-- A step of one of the threads below `n`, or of the retiring thread, which may also wake by itself.
-- Wraps are opened outside of wraps, and all are closed at a call of `restoreAllElements`.
pub data Step (int_shift : ℕ → ℕ) (n : ℕ) : System → System → Type 0 where
  open_wrap :
      (s : System) (i : ℕ) (m : At3) (th : Thread)
      → i < n
      → (s.threads i).table ≡ none
      → s.waits i ≡ false
      → on_wrap_open (s.threads i) s.at ≡ some (m, th)
      → Step int_shift n s (record s { at = m; threads = put s.threads i th })
  wait_empty :
      (s : System) (i : ℕ)
      → i < n
      → (s.threads i).table ≡ none
      → on_wrap_open (s.threads i) s.at ≡ none
      → Step int_shift n s (record s { waits = put_wait s.waits i true })
  close_wrap :
      (s : System) (i : ℕ) (m : At3) (th : Thread) (signalled : Bool)
      → i < n
      → on_wrap_close (s.threads i) s.at ≡ some ((m, th), signalled)
      → Step int_shift n s
          (record s { at = m; threads = put s.threads i th; worker = woken signalled s.worker })
  put_value :
      (s : System) (i : ℕ) (x : Which) (ptr value size : ℕ) (m : At3)
      → (s.threads i).table ≡ some x
      → at3_store int_shift ptr value size x s.at ≡ ok m
      → Step int_shift n s (record s { at = m })
  work :
      (s : System) (m : At3) (st : Scm) (w : Worker)
      → worker_step s.worker (s.at, s.scm) ≡ ok ((m, st), w)
      → Step int_shift n s (record s {
        at = m;
        scm = st;
        worker = w;
        waits = notified (broadcasts s.worker) s.waits;
      })
  wake : (s : System) → Step int_shift n s (record s { worker = woken true s.worker })
  drain :
      (s : System)
      → ((i : ℕ) → i < n → (s.threads i).table ≡ none)
      → Step int_shift n s
          (record s { at = (restore_all_elements s.at).0; worker = woken true s.worker })

pub data Reach (int_shift : ℕ → ℕ) (n : ℕ) (s0 : System) : System → Type 0 where
  start : Reach int_shift n s0 s0
  later : (s s' : System) → Reach int_shift n s0 s → Step int_shift n s s' → Reach int_shift n s0 s'

-- What a table's state says of the wraps that are open on it.
abbrev pub StateOk : AliasState → ℕ → Bool → Type 0
StateOk active writers full = Unit
StateOk wait_writers writers full = (0 < writers) × (full ≡ true)
StateOk retire writers full = writers ≡ 0
StateOk wait_readers writers full = writers ≡ 0
StateOk empty writers full = writers ≡ 0

-- What the place of the retiring thread says of the states.
abbrev pub WorkerOk : At3 → Worker → Type 0
WorkerOk m testing = Unit
WorkerOk m asleep = (x : Which) → is_idle x m ≡ true
WorkerOk m (restoring x i) = m.state x ≡ retire
WorkerOk m (clearing x) = (m.state x ≡ retire) ⊎ (m.state x ≡ wait_readers)
WorkerOk m (cleared x) = (m.state x ≡ retire) ⊎ (m.state x ≡ wait_readers)

-- The counts are those of the threads, and the states and the retiring thread's place are as they
-- say.
pub record IsAt3 (n : ℕ) (s : System) : Type 0 where
  pub writers : (x : Which) → s.at.num x ≡ count n (is_on x) s.threads
  pub readers : (x : Which) → s.at.other_readers x ≡ count n (is_reader x) s.threads
  pub states : (x : Which) → StateOk (s.at.state x) (s.at.num x) (crossed_threshold x s.at)
  pub stands : WorkerOk s.at s.worker

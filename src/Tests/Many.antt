-- ===== src/Tests/Many.antt =====
-- Three threads on two tables of four entries, of which one entry is more than the threshold.
use softwrap.At2.{Which, at_a, at_b}
use softwrap.At3.Counting.{count, is_on, is_reader, put}
use softwrap.At3.Runs.{IsNew, InWrap, Reach-count, Reach-Retires}
use softwrap.At3.Waits.{Reach-on_wrap_open}
use softwrap.At3.Steps.{
  System, woken, notified, put_wait, Reach, start, later, open_wrap, wait_empty, close_wrap,
  put_value, work,
}
use softwrap.At3.{
  At3, Thread, Worker, is_usable, broadcasts, testing, asleep, restoring, empty, on_wrap_open,
  on_wrap_close, at3_store, worker_step,
}
use softwrap.AliasHash.{store}
use softwrap.Lfht.{set_item, set_loop, integer_hash}
use softwrap.Prelude.{
  ℕ, ◌<◌, ◌≡◌, ◌≢◌, ◌⊎◌, Bool, true, false, some, none, ok, abort, no_fuel, refl, arith,
}
use softwrap.Tests.Alternating.{fresh}
use softwrap.Tests.Data.{scm, x86_shift}

abbrev at0 : At3
at0 = record {
  tables = λ x. fresh;
  state = λ x. empty;
  other_readers = λ x. 0;
  num = λ x. 0;
  thresh = 8;
}

abbrev s0 : System
s0 = record {
  at = at0;
  scm = scm;
  threads = λ i. record { table = none; read_other = false };
  worker = testing;
  waits = λ i. false;
}

abbrev opened : System → ℕ → At3 × Thread
opened s i = elim (on_wrap_open (s.threads i) s.at) [ some r ↦ r | none ↦ (s.at, s.threads i) ]

abbrev closed : System → ℕ → (At3 × Thread) × Bool
closed s i = elim (on_wrap_close (s.threads i) s.at) [
  | some r ↦ r
  | none ↦ ((s.at, s.threads i), false)
]

abbrev stored : System → Which → At3
stored s x = elim (at3_store x86_shift 8 7 8 x s.at) [ ok m ↦ m | abort ↦ s.at | no_fuel ↦ s.at ]

-- The states after an opening, a close, and a store under 8.
abbrev opens : ℕ → System → System
opens i s = record s { at = (opened s i).0; threads = put s.threads i (opened s i).1 }

abbrev closes : ℕ → System → System
closes i s = record s {
  at = (closed s i).0.0;
  threads = put s.threads i (closed s i).0.1;
  worker = woken (closed s i).1 s.worker;
}

abbrev puts : Which → System → System
puts x s = record s { at = stored s x }

abbrev works : Worker → System → System
works w s = record s { worker = w; waits = notified (broadcasts s.worker) s.waits }

-- Thread 0 stores and closes, the only one on the first table.
abbrev s3 : System
s3 = closes 0 (puts at_a (opens 0 s0))

s0-IsNew : IsNew s0
s0-IsNew = record {
  unused = λ x. refl;
  no_writer = λ x. refl;
  no_reader = λ x. refl;
  outside = λ i. refl;
  begins = refl;
  no_waiter = λ i. refl;
}

module _ (s : System) (before : Reach x86_shift 3 s0 s) where
  then_opens :
      (i : ℕ)
      → i < 3
      → (s.threads i).table ≡ none
      → s.waits i ≡ false
      → on_wrap_open (s.threads i) s.at ≡ some (opened s i)
      → Reach x86_shift 3 s0 (opens i s)
  then_opens i lt outside awake run =
      later s (opens i s) before (open_wrap s i (opened s i).0 (opened s i).1 lt outside awake run)

  then_closes :
      (i : ℕ)
      → i < 3
      → on_wrap_close (s.threads i) s.at ≡ some (closed s i)
      → Reach x86_shift 3 s0 (closes i s)
  then_closes i lt run =
      later s (closes i s) before
        (close_wrap s i (closed s i).0.0 (closed s i).0.1 (closed s i).1 lt run)

  then_puts :
      (i : ℕ) (x : Which)
      → (s.threads i).table ≡ some x
      → at3_store x86_shift 8 7 8 x s.at ≡ ok (stored s x)
      → Reach x86_shift 3 s0 (puts x s)
  then_puts i x inside run =
      later s (puts x s) before (put_value s i x 8 7 8 (stored s x) inside run)

  then_works :
      (w : Worker)
      → worker_step s.worker (s.at, s.scm) ≡ ok ((s.at, s.scm), w)
      → Reach x86_shift 3 s0 (works w s)
  then_works w run = later s (works w s) before (work s s.at s.scm w run)

s3-Reach : Reach x86_shift 3 s0 s3
unfolding on_wrap_open on_wrap_close at3_store store set_item set_loop integer_hash
s3-Reach =
    then_closes (puts at_a (opens 0 s0))
      (then_puts (opens 0 s0) (then_opens s0 start 0 (omega arith) refl refl refl) 0 at_a refl refl)
      0 (omega arith) refl

retiring-Reach : Reach x86_shift 3 s0 (works (restoring at_a 0) s3)
unfolding on_wrap_open on_wrap_close at3_store store set_item set_loop integer_hash worker_step
retiring-Reach = then_works s3 s3-Reach (restoring at_a 0) refl

-- Two threads on the first table, of which one has stored and closed.
abbrev one_waits : System
one_waits = closes 0 (puts at_a (opens 1 (opens 0 s0)))

one_waits-Reach : Reach x86_shift 3 s0 one_waits
unfolding on_wrap_open on_wrap_close at3_store store set_item set_loop integer_hash
one_waits-Reach =
    then_closes (puts at_a (opens 1 (opens 0 s0)))
      (then_puts (opens 1 (opens 0 s0))
        (then_opens (opens 0 s0) (then_opens s0 start 0 (omega arith) refl refl refl) 1
          (omega arith) refl refl refl)
        0 at_a refl refl)
      0 (omega arith) refl

-- The same on the second one.
abbrev both_wait : System
both_wait = works asleep (closes 2 (puts at_b (opens 0 (opens 2 one_waits))))

both_wait-Reach : Reach x86_shift 3 s0 both_wait
unfolding on_wrap_open on_wrap_close at3_store store set_item set_loop integer_hash worker_step
both_wait-Reach =
    then_works (closes 2 (puts at_b (opens 0 (opens 2 one_waits))))
      (then_closes (puts at_b (opens 0 (opens 2 one_waits)))
        (then_puts (opens 0 (opens 2 one_waits))
          (then_opens (opens 2 one_waits)
            (then_opens one_waits one_waits-Reach 2 (omega arith) refl refl refl) 0 (omega arith)
            refl refl refl)
          2 at_b refl refl)
        2 (omega arith) refl)
      asleep refl

-- Thread 2 finds no table, and waits.
abbrev starved : System
starved = record both_wait { waits = put_wait both_wait.waits 2 true }

starved-Reach : Reach x86_shift 3 s0 starved
unfolding on_wrap_open on_wrap_close at3_store store set_item set_loop integer_hash
starved-Reach =
    later both_wait starved both_wait-Reach (wait_empty both_wait 2 (omega arith) refl refl)

Reach-count_example :
    (both_wait.at.num at_b ≡ count 3 (is_on at_b) both_wait.threads)
    × (both_wait.at.other_readers at_b ≡ count 3 (is_reader at_b) both_wait.threads)
Reach-count_example = Reach-count x86_shift 3 at_b s0-IsNew both_wait-Reach

Reach-on_wrap_open_example :
    (is_usable (starved.at.state at_a) ≡ false)
    × (is_usable (starved.at.state at_b) ≡ false)
    × ((starved.worker ≢ asleep) ⊎ InWrap 3 starved)
Reach-on_wrap_open_example = Reach-on_wrap_open x86_shift 3 2 s0-IsNew starved-Reach refl

Reach-Retires_example : (s3.threads 0).table ≢ some at_a
Reach-Retires_example = Reach-Retires x86_shift 3 at_a 0 s0-IsNew retiring-Reach refl (omega arith)

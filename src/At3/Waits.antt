-- ===== src/At3/Waits.antt =====
-- The waits for `_notifyEmpty` and the states of the tables meanwhile.
use softwrap.AliasHash.{store, restore_entry, finish_restore}
use softwrap.At2.{Which, at_a, at_b, set, same}
use mathlib.Core.Path.{subst}
use mathlib.Core.Option.{some-injective}
use softwrap.At3.Runs.{IsNew, Reach-IsAt3, InWrap, unusable_cases}
use softwrap.At3.Steps.{
  System, notified, Step, open_wrap, wait_empty, close_wrap, put_value, work, wake, drain, Reach,
  start, later,
}
use softwrap.At3.{
  AliasState, active, wait_writers, retire, wait_readers, empty, At3, Thread, Worker, testing,
  asleep, restoring, clearing, cleared, is_idle, is_usable, on_wrap_open, on_wrap_close, close_on,
  leave, crossed_threshold, at3_store, worker_step, restore_turn, restored, broadcasts,
  restore_all_elements, retire_used,
}
use softwrap.Scm.{Scm}
use softwrap.Prelude.{
  ℕ, ◌≡◌, ◌≢◌, ◌⊎◌, inl, inr, refl, Bool, true, false, ltb, some, none, ok, ◌==◌, Bool-cases,
  Option-cases, bind-ok, ok_injective,
}

-- No table can be used.
abbrev pub Unusable : At3 → Type 0
Unusable m = (x : Which) → is_usable (m.state x) ≡ false

-- As long as a thread waits.
abbrev NoneMissed : System → Type 0
NoneMissed s = (i : ℕ) → s.waits i ≡ true → Unusable s.at

waits-Unusable : (m : At3) (th : Thread) → th.table ≡ none → on_wrap_open th m ≡ none → Unusable m
unfolding on_wrap_open
waits-Unusable m th outside waits = elim (Bool-cases (is_usable (m.state at_a))) [
  | inl e ↦ cc (rw (outside, e, on_wrap_open) at waits)
  | inr e ↦ elim (Bool-cases (is_usable (m.state at_b))) [
    | inl f ↦ cc (rw (outside, e, f, on_wrap_open) at waits)
    | inr f ↦ both_false (λ x. is_usable (m.state x)) e f
  ]
]
  where
    both_false : (f : Which → Bool) → f at_a ≡ false → f at_b ≡ false → (x : Which) → f x ≡ false
    both_false f a b at_a = a
    both_false f a b at_b = b

opens_usable :
    (m m' : At3) (th th' : Thread)
    → th.table ≡ none
    → on_wrap_open th m ≡ some (m', th')
    → Unusable m
    → ⊥
unfolding on_wrap_open
opens_usable m m' th th' outside opens h = cc (rw (outside, h at_a, h at_b, on_wrap_open) at opens)

-- A table that comes into another state that is not usable.
set_unusable :
    (f : Which → AliasState) (y : Which) (a : AliasState)
    → is_usable a ≡ false
    → ((x : Which) → is_usable (f x) ≡ false)
    → (x : Which) → is_usable (set f y a x) ≡ false
set_unusable f y a h before x = elim (Bool-cases (same x y)) [
  | inl e ↦ rw e h
  | inr e ↦ rw e (before x)
]

close_on-Unusable :
    (y : Which) (reads : Bool) (m : At3) → Unusable m → Unusable (close_on y reads m).0
unfolding close_on
close_on-Unusable y reads m h = elim (Bool-cases (crossed_threshold y m)) [
  | inr e ↦ rw e h
  | inl e ↦ rw e (
      set_unusable m.state y _
        (elim (Bool-cases ((leave y reads m).num y == 0)) [ inl z ↦ rw z refl | inr z ↦ rw z refl ])
        h)
]

restored-Unusable : (y : Which) (m : At3) → Unusable m → Unusable (restored y m).0
unfolding restored
restored-Unusable y m h = elim (Bool-cases (m.other_readers y == 0)) [
  | inl e ↦ rw e h
  | inr e ↦ rw e (set_unusable m.state y wait_readers refl h)
]

restore_turn-Unusable :
    (y : Which) (i : ℕ) (m : At3) (st : Scm) (r : (At3 × Scm) × Worker)
    → restore_turn y i (m, st) ≡ ok r
    → Unusable m
    → Unusable r.0.0
unfolding restore_turn
restore_turn-Unusable y i m st r run h =
    let t = m.tables y in
    elim (Bool-cases (ltb i t.table.array_size)) [
      | inl more ↦
          let (q, turn, last) = bind-ok (restore_entry i (t.table, st)) _ r (rw more at run) in
          subst (λ (p : (At3 × Scm) × Worker). Unusable p.0.0) (ok_injective last) h
      | inr done ↦
          let (t', st') = finish_restore t (t.table, st) in
          subst (λ (p : (At3 × Scm) × Worker). Unusable p.0.0) (ok_injective (rw done at run))
            (restored-Unusable y (record m { tables = set m.tables y t' }) h)
    ]

close-Unusable :
    (m m' : At3) (th th' : Thread) (signalled : Bool)
    → on_wrap_close th m ≡ some ((m', th'), signalled)
    → Unusable m
    → Unusable m'
unfolding on_wrap_close
close-Unusable m m' th th' signalled run h = elim (Option-cases th.table) [
  | inl e ↦ cc (rw (e, on_wrap_close) at run)
  | inr (y, e) ↦
      subst (λ (r : (At3 × Thread) × Bool). Unusable r.0.0)
        (some-injective _ _ (rw (e, on_wrap_close) at run)) (close_on-Unusable y th.read_other m h)
]

store-Unusable :
    (int_shift : ℕ → ℕ) (ptr value size : ℕ) (y : Which) (m m' : At3)
    → at3_store int_shift ptr value size y m ≡ ok m'
    → Unusable m
    → Unusable m'
unfolding at3_store
store-Unusable int_shift ptr value size y m m' run h =
    let (t, stored, last) = bind-ok (store int_shift ptr value size (m.tables y)) _ m' run in
    subst Unusable (ok_injective last) h

work-Unusable :
    (m m' : At3) (st st' : Scm) (w w' : Worker)
    → worker_step w (m, st) ≡ ok ((m', st'), w')
    → broadcasts w ≡ false
    → Unusable m
    → Unusable m'
unfolding worker_step
work-Unusable m m' st st' testing w' run quiet h =
    subst (λ (r : (At3 × Scm) × Worker). Unusable r.0.0) (ok_injective run) h
work-Unusable m m' st st' asleep w' run quiet h =
    subst (λ (r : (At3 × Scm) × Worker). Unusable r.0.0) (ok_injective run) h
work-Unusable m m' st st' (restoring y i) w' run quiet h =
    restore_turn-Unusable y i m st ((m', st'), w') run h
work-Unusable m m' st st' (clearing y) w' run quiet h =
    subst (λ (r : (At3 × Scm) × Worker). Unusable r.0.0) (ok_injective run) h
work-Unusable m m' st st' (cleared y) w' run quiet h = cc quiet

retire_used_unusable : (a : AliasState) → is_usable a ≡ false → is_usable (retire_used a) ≡ false
retire_used_unusable active h = refl
retire_used_unusable wait_writers h = refl
retire_used_unusable retire h = refl
retire_used_unusable wait_readers h = refl
retire_used_unusable empty h = h

NoneMissed-work :
    (s : System) (m : At3) (st : Scm) (w : Worker)
    → worker_step s.worker (s.at, s.scm) ≡ ok ((m, st), w)
    → NoneMissed s
    → (i : ℕ) → notified (broadcasts s.worker) s.waits i ≡ true
    → Unusable m
NoneMissed-work s m st w run before i waits = elim (Bool-cases (broadcasts s.worker)) [
  | inl loud ↦ cc (rw loud at waits)
  | inr quiet ↦ work-Unusable s.at m s.scm st s.worker w run quiet (before i (rw quiet at waits))
]

Step-NoneMissed :
    (int_shift : ℕ → ℕ) (n : ℕ) {s s' : System}
    → NoneMissed s
    → Step int_shift n s s'
    → NoneMissed s'
unfolding restore_all_elements
Step-NoneMissed int_shift n before (open_wrap s i m th lt outside awake run) j waits =
    absurd (opens_usable s.at m (s.threads i) th outside run (before j waits))
Step-NoneMissed int_shift n before (wait_empty s i lt outside none') j waits =
    waits-Unusable s.at (s.threads i) outside none'
Step-NoneMissed int_shift n before (close_wrap s i m th signalled lt run) j waits =
    close-Unusable s.at m (s.threads i) th signalled run (before j waits)
Step-NoneMissed int_shift n before (put_value s i x ptr value size m inside run) j waits =
    store-Unusable int_shift ptr value size x s.at m run (before j waits)
Step-NoneMissed int_shift n before (work s m st w run) j waits =
    NoneMissed-work s m st w run before j waits
Step-NoneMissed int_shift n before (wake s) j waits = before j waits
Step-NoneMissed int_shift n before (drain s outside) j waits =
    λ x. retire_used_unusable (s.at.state x) (before j waits x)

Reach-NoneMissed :
    (int_shift : ℕ → ℕ) (n : ℕ) {s0 s : System} → IsNew s0 → Reach int_shift n s0 s → NoneMissed s
Reach-NoneMissed int_shift n new start = λ i waits. cc (new.no_waiter i, waits)
Reach-NoneMissed int_shift n new (later s1 s' before step) =
    Step-NoneMissed int_shift n (Reach-NoneMissed int_shift n new before) step

idle_or_busy : (w : Worker) → (w ≡ asleep) ⊎ (w ≢ asleep)
idle_or_busy testing = inr (λ e. cc e)
idle_or_busy asleep = inl refl
idle_or_busy (restoring x i) = inr (λ e. cc e)
idle_or_busy (clearing x) = inr (λ e. cc e)
idle_or_busy (cleared x) = inr (λ e. cc e)

-- In whatever order the steps of any number of threads and of the retiring thread come, from new
-- tables, with every wrap opened outside of wraps and all closed at a call of restoreAllElements:
-- as long as a thread is in the wait of onWrapOpen for _notifyEmpty, no table can be used, so that
-- no broadcast was missed; and the retiring thread is awake or some thread is in a wrap, so that
-- they never all wait for one another.
pub Reach-on_wrap_open :
    (int_shift : ℕ → ℕ) (n : ℕ) {s0 s : System} (i : ℕ)
    → IsNew s0
    → Reach int_shift n s0 s
    → s.waits i ≡ true
    → (is_usable (s.at.state at_a) ≡ false)
      × (is_usable (s.at.state at_b) ≡ false)
      × ((s.worker ≢ asleep) ⊎ InWrap n s)
Reach-on_wrap_open int_shift n {s0} {s} i new reach waits =
    let unusable = Reach-NoneMissed int_shift n new reach i waits in
    let inv = Reach-IsAt3 int_shift n new reach in
    (
      unusable at_a,
      unusable at_b,
      elim (idle_or_busy s.worker) [
        | inr busy ↦ inl busy
        | inl sleeps ↦
            let idle : (x : Which) → is_idle x s.at ≡ true = rw sleeps at inv.stands in
            inr (unusable_cases n s at_a (s.at.state at_a) inv refl (unusable at_a) (idle at_a))
      ],
    )

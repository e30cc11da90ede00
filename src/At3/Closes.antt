-- ===== src/At3/Closes.antt =====
-- The close of a wrap keeps the counts and the states, and signals what it leaves to do.
use softwrap.At2.Calls.{other-other}
use softwrap.At2.Invariant.{set_self, set-other}
use softwrap.At2.{Which, other}
use softwrap.At3.Counting.{count, count_pos, put, is_on, is_reader}
use softwrap.At3.Opens.{both, same_refl, same-other, count_shift, set-other_self, WorkerOk-woken}
use softwrap.At3.Steps.{System, StateOk, IsAt3, woken}
use softwrap.At3.{
  AliasState, active, wait_writers, retire, wait_readers, empty, At3, Thread, crossed_threshold,
  idle_at, is_idle, is_wait_readers, on_wrap_close, close_on, leave, fill,
}
use mathlib.Core.Option.{some-injective}
use mathlib.Core.Path.{subst}
use softwrap.Prelude.{
  ℕ, ◌-◌, ◌<◌, ◌≡◌, ◌⊎◌, inl, inr, refl, arith, Bool, true, false, ◌&&◌, ◌||◌, ◌==◌, if◌then◌else◌,
  some, none, Bool-cases, Option-cases, ==→eq, ◌≢◌,
}

-- A table with a wrap on it is in one of the first two states.
writing_cases :
    (a : AliasState) (writers : ℕ) (full : Bool)
    → StateOk a writers full
    → 0 < writers
    → (a ≡ active) ⊎ ((a ≡ wait_writers) × (full ≡ true))
writing_cases active writers full h pos = inl refl
writing_cases wait_writers writers full h pos = inr (refl, h.1)
writing_cases retire writers full h pos = absurd (omega arith)
writing_cases wait_readers writers full h pos = absurd (omega arith)
writing_cases empty writers full h pos = absurd (omega arith)

-- The reader that leaves signals, if it was the last one.
leave_idle :
    (a : AliasState) (r : ℕ) (reads : Bool)
    → reads && ((if reads then r - 1 else r) == 0) && is_wait_readers a ≡ false
    → idle_at a r ≡ true
    → idle_at a (if reads then r - 1 else r) ≡ true
leave_idle active r reads quiet h = refl
leave_idle wait_writers r reads quiet h = refl
leave_idle retire r reads quiet h = h
leave_idle wait_readers r true quiet h = ground (arith, quiet)
leave_idle wait_readers r false quiet h = h
leave_idle empty r reads quiet h = refl

or_false : (a b : Bool) → a || b ≡ false → (a ≡ false) × (b ≡ false)
or_false true b h = cc h
or_false false b h = (refl, h)

module _ (n : ℕ) (s : System) (inv : IsAt3 n s) (i : ℕ) (lt : i < n) (x : Which)
    (inside : (s.threads i).table ≡ some x) where
  abbrev reads : Bool
  reads = (s.threads i).read_other

  abbrev gone : Thread
  gone = record (s.threads i) { table = none }

  abbrev after : ℕ → Thread
  after = put s.threads i gone

  abbrev left : At3
  left = leave x reads s.at

  counted : 0 < s.at.num x
  counted =
      let pos = count_pos n (is_on x) s.threads i lt (rw inside (same_refl x)) in
      omega (arith, inv.writers x, pos)

  left-writers : (y : Which) → left.num y ≡ count n (is_on y) after
  left-writers =
      both (λ y. left.num y ≡ count n (is_on y) after) x
        (let shift =
            count_shift n (is_on x) s.threads i gone true false lt (rw inside (same_refl x)) refl in
          rw (set_self s.at.num x (s.at.num x - 1)) (omega (arith, inv.writers x, shift)))
        (let shift =
            count_shift n (is_on (other x)) s.threads i gone false false lt
              (rw inside (same-other x)) refl in
          rw (set-other s.at.num x (s.at.num x - 1)) (omega (arith, inv.writers (other x), shift)))

  left-readers : (y : Which) → left.other_readers y ≡ count n (is_reader y) after
  left-readers =
      both (λ y. left.other_readers y ≡ count n (is_reader y) after) x
        (let shift =
            count_shift n (is_reader x) s.threads i gone false false lt (rw (inside, same-other x))
              refl in
          rw (set-other_self s.at.other_readers x) (omega (arith, inv.readers x, shift)))
        (let shift =
            count_shift n (is_reader (other x)) s.threads i gone reads false lt
              (rw inside (rw (other-other x) (rw (same_refl x)))) refl in
          rw (set_self s.at.other_readers (other x)) (elim (Bool-cases reads) [
            | inl e ↦ rw e (omega (arith, inv.readers (other x), rw e at shift))
            | inr e ↦ rw e (omega (arith, inv.readers (other x), rw e at shift))
          ]))

  writing :
      (s.at.state x ≡ active) ⊎ ((s.at.state x ≡ wait_writers) × (crossed_threshold x s.at ≡ true))
  writing =
      writing_cases (s.at.state x) (s.at.num x) (crossed_threshold x s.at) (inv.states x) counted

  not_retire : s.at.state x ≢ retire
  not_retire h = elim writing [ inl e ↦ cc (e, h) | inr (e, full) ↦ cc (e, h) ]

  not_wait_readers : s.at.state x ≢ wait_readers
  not_wait_readers h = elim writing [ inl e ↦ cc (e, h) | inr (e, full) ↦ cc (e, h) ]

  abbrev last_reader : Bool
  last_reader =
      reads && (left.other_readers (other x) == 0) && is_wait_readers (s.at.state (other x))

  other_idle : last_reader ≡ false → is_idle (other x) s.at ≡ true → is_idle (other x) left ≡ true
  other_idle quiet h =
      let new =
        set_self s.at.other_readers (other x)
          (if reads then s.at.other_readers (other x) - 1 else s.at.other_readers (other x)) in
      rw new
        (leave_idle (s.at.state (other x)) (s.at.other_readers (other x)) reads (rw new at quiet) h)

  -- A table that is not full.
  left-IsAt3 :
      crossed_threshold x s.at ≡ false
      → IsAt3 n (record s { at = left; threads = after; worker = woken last_reader s.worker })
  left-IsAt3 part = record {
    writers = left-writers;
    readers = left-readers;
    states =
        both (λ y. StateOk (s.at.state y) (left.num y) (crossed_threshold y s.at)) x
          (elim writing [ inl e ↦ rw e tt | inr (e, full) ↦ cc (part, full) ])
          (rw (set-other s.at.num x (s.at.num x - 1)) (inv.states (other x)));
    stands =
        WorkerOk-woken s.at left last_reader s.worker (λ y h. h) (λ y h. inr h)
          (λ quiet.
            both (λ y. is_idle y s.at ≡ true → is_idle y left ≡ true) x
              (λ h. rw (set-other_self s.at.other_readers x) h) (other_idle quiet))
          inv.stands;
  }

  abbrev filled : At3
  filled = fill x left

  filled-IsAt3 :
      crossed_threshold x s.at ≡ true
      → IsAt3 n (record s {
        at = filled;
        threads = after;
        worker = woken (last_reader || (left.num x == 0)) s.worker;
      })
  filled-IsAt3 full = record {
    writers = left-writers;
    readers = left-readers;
    states =
        both (λ y. StateOk (filled.state y) (left.num y) (crossed_threshold y s.at)) x
          (rw (set_self s.at.state x (if left.num x == 0 then retire else wait_writers))
            (elim (Bool-cases (left.num x == 0)) [
              | inl z ↦ rw z (==→eq (left.num x) 0 z)
              | inr nz ↦ rw nz (ground (arith, nz), full)
            ]))
          (rw
            (
              set-other s.at.state x (if left.num x == 0 then retire else wait_writers),
              set-other s.at.num x (s.at.num x - 1),
            )
            (inv.states (other x)));
    stands =
        WorkerOk-woken s.at filled (last_reader || (left.num x == 0)) s.worker
          (both (λ y. s.at.state y ≡ retire → filled.state y ≡ retire) x
            (λ h. absurd (not_retire h))
            (λ h. rw (set-other s.at.state x (if left.num x == 0 then retire else wait_writers)) h))
          (both
            (λ y.
              s.at.state y ≡ wait_readers
              → (filled.state y ≡ retire) ⊎ (filled.state y ≡ wait_readers))
            x (λ h. absurd (not_wait_readers h))
            (λ h.
              inr
                (rw (set-other s.at.state x (if left.num x == 0 then retire else wait_writers)) h)))
          (λ quiet.
            both (λ y. is_idle y s.at ≡ true → is_idle y filled ≡ true) x
              (λ h.
                rw
                  (
                    set_self s.at.state x (if left.num x == 0 then retire else wait_writers),
                    (or_false last_reader _ quiet).1,
                  )
                  refl)
              (λ h.
                rw (set-other s.at.state x (if left.num x == 0 then retire else wait_writers))
                  (other_idle (or_false last_reader _ quiet).0 h)))
          inv.stands;
  }

pub on_wrap_close_lem :
    (n : ℕ) (s : System) (i : ℕ) (m : At3) (th : Thread) (signalled : Bool)
    → IsAt3 n s
    → i < n
    → on_wrap_close (s.threads i) s.at ≡ some ((m, th), signalled)
    → IsAt3 n (record s { at = m; threads = put s.threads i th; worker = woken signalled s.worker })
unfolding on_wrap_close close_on
on_wrap_close_lem n s i m th signalled inv lt run = elim (Option-cases (s.threads i).table) [
  | inl outside ↦ cc (rw (outside, on_wrap_close) at run)
  | inr (x, inside) ↦
      let result = λ (r : (At3 × Thread) × Bool).
        IsAt3 n
          (record s { at = r.0.0; threads = put s.threads i r.0.1; worker = woken r.1 s.worker }) in
      elim (Bool-cases (crossed_threshold x s.at)) [
        | inl full ↦
            subst result (some-injective _ _ (rw (inside, full, on_wrap_close) at run))
              (filled-IsAt3 n s inv i lt x inside full)
        | inr part ↦
            subst result (some-injective _ _ (rw (inside, part, on_wrap_close) at run))
              (left-IsAt3 n s inv i lt x inside part)
      ]
]

-- ===== src/At3/Opens.antt =====
-- The opening of a wrap keeps the counts and the states.
use softwrap.At2.Calls.{other-other}
use softwrap.At2.Invariant.{set_self, set-other}
use softwrap.At2.{Which, at_a, at_b, other, same, set}
use softwrap.At3.Counting.{count, count-put, put, is_on, is_reader, one}
use softwrap.At3.Steps.{System, StateOk, WorkerOk, IsAt3, woken}
use softwrap.At3.{
  AliasState, active, wait_writers, retire, wait_readers, empty, At3, Thread, Worker, testing,
  asleep, restoring, clearing, cleared, crossed_threshold, idle_at, is_idle, is_usable, is_readable,
  choose, on_wrap_open, enter,
}
use mathlib.Core.Option.{some-injective}
use mathlib.Core.Path.{subst}
use softwrap.Prelude.{
  ℕ, ◌+◌, ◌<◌, ◌≡◌, ◌⊎◌, inl, inr, refl, arith, Bool, true, false, if◌then◌else◌, some, none,
  Bool-cases, Option-cases,
}

-- What holds of a table and of the other one.
pub both {ℓ} : (P : Which → Type ℓ) (x : Which) → P x → P (other x) → (y : Which) → P y
both P at_a p q at_a = p
both P at_a p q at_b = q
both P at_b p q at_a = q
both P at_b p q at_b = p

pub same_refl : (x : Which) → same x x ≡ true
same_refl at_a = refl
same_refl at_b = refl

pub same-other : (x : Which) → same (other x) x ≡ false
same-other at_a = refl
same-other at_b = refl

-- One thread's change, as the count of a test sees it.
pub count_shift :
    (n : ℕ) (p : Thread → Bool) (threads : ℕ → Thread) (i : ℕ) (th : Thread) (was now : Bool)
    → i < n
    → p (threads i) ≡ was
    → p th ≡ now
    → count n p (put threads i th) + one was ≡ count n p threads + one now
count_shift n p threads i th was now lt e e' =
    let shift = count-put n p threads i th lt in rw (e, e') at shift

usable_idle : (a : AliasState) (r : ℕ) → is_usable a ≡ true → idle_at a r ≡ true
usable_idle active r h = refl
usable_idle wait_writers r h = refl
usable_idle retire r h = cc h
usable_idle wait_readers r h = cc h
usable_idle empty r h = refl

-- A new reader leaves nothing to do.
read_idle :
    (a : AliasState) (r : ℕ)
    → idle_at a r ≡ true
    → idle_at a (if is_readable a then r + 1 else r) ≡ true
read_idle active r h = refl
read_idle wait_writers r h = refl
read_idle retire r h = cc h
read_idle wait_readers r h = h
read_idle empty r h = refl

-- A value of the other table is not changed.
pub set-other_self {ℓ} :
    {A : Type ℓ} (f : Which → A) (x : Which) (v : A) → set f (other x) v x ≡ f x
set-other_self f at_a v = refl
set-other_self f at_b v = refl

-- The place of the retiring thread, where a table in `Retire` or `WaitReaders` stays there, and,
-- unless a signal is given, a table that leaves nothing to do still does.
pub WorkerOk-woken :
    (m m' : At3) (signalled : Bool) (w : Worker)
    → ((x : Which) → m.state x ≡ retire → m'.state x ≡ retire)
    → ((x : Which) → m.state x ≡ wait_readers → (m'.state x ≡ retire) ⊎ (m'.state x ≡ wait_readers))
    → (signalled ≡ false → (x : Which) → is_idle x m ≡ true → is_idle x m' ≡ true)
    → WorkerOk m w
    → WorkerOk m' (woken signalled w)
WorkerOk-woken m m' signalled testing busy reads idle ok' = tt
WorkerOk-woken m m' true asleep busy reads idle ok' = tt
WorkerOk-woken m m' false asleep busy reads idle ok' = λ x. idle refl x (ok' x)
WorkerOk-woken m m' signalled (restoring x i) busy reads idle ok' = busy x ok'
WorkerOk-woken m m' signalled (clearing x) busy reads idle (inl h) = inl (busy x h)
WorkerOk-woken m m' signalled (clearing x) busy reads idle (inr h) = reads x h
WorkerOk-woken m m' signalled (cleared x) busy reads idle (inl h) = inl (busy x h)
WorkerOk-woken m m' signalled (cleared x) busy reads idle (inr h) = reads x h

pub woken-false : (w : Worker) → woken false w ≡ w
woken-false testing = refl
woken-false asleep = refl
woken-false (restoring x i) = refl
woken-false (clearing x) = refl
woken-false (cleared x) = refl

-- The state of a table that is chosen.
choose-usable : (m : At3) (x : Which) → choose m ≡ some x → is_usable (m.state x) ≡ true
choose-usable m at_a h = ground arith
choose-usable m at_b h = ground arith

module _ (n : ℕ) (s : System) (inv : IsAt3 n s) (i : ℕ) (lt : i < n)
    (outside : (s.threads i).table ≡ none) (x : Which)
    (usable : is_usable (s.at.state x) ≡ true) where
  abbrev opening : At3
  opening = record s.at { state = set s.at.state x active }

  abbrev reads : Bool
  reads = is_readable (opening.state (other x))

  abbrev inside : Thread
  inside = record { table = some x; read_other = reads }

  off : (y : Which) → is_on y (s.threads i) ≡ false
  off y = rw outside

  abbrev after : ℕ → Thread
  after = put s.threads i inside

  abbrev now : At3
  now = record opening {
    num = set s.at.num x (s.at.num x + 1);
    other_readers =
        set s.at.other_readers (other x)
          (if reads then s.at.other_readers (other x) + 1 else s.at.other_readers (other x));
  }

  enter-IsAt3 : IsAt3 n (record s { at = (enter x opening).0; threads = put s.threads i inside })
  unfolding enter
  enter-IsAt3 = record {
    writers =
        both (λ y. now.num y ≡ count n (is_on y) after) x
          (let shift =
              count_shift n (is_on x) s.threads i inside false true lt (off x) (same_refl x) in
            rw (set_self s.at.num x (s.at.num x + 1)) (omega (arith, inv.writers x, shift)))
          (let shift =
              count_shift n (is_on (other x)) s.threads i inside false false lt (off (other x))
                (same-other x) in
            rw (set-other s.at.num x (s.at.num x + 1))
              (omega (arith, inv.writers (other x), shift)));
    readers =
        both (λ y. now.other_readers y ≡ count n (is_reader y) after) x
          (let shift =
              count_shift n (is_reader x) s.threads i inside false false lt (rw outside)
                (rw (same-other x)) in
            rw (set-other_self s.at.other_readers x) (omega (arith, inv.readers x, shift)))
          (let shift =
              count_shift n (is_reader (other x)) s.threads i inside false reads lt (rw outside)
                (rw (other-other x) (rw (same_refl x))) in
            rw (set_self s.at.other_readers (other x)) (elim (Bool-cases reads) [
              | inl e ↦ rw e (omega (arith, inv.readers (other x), rw e at shift))
              | inr e ↦ rw e (omega (arith, inv.readers (other x), rw e at shift))
            ]));
    states =
        both (λ y. StateOk (now.state y) (now.num y) (crossed_threshold y now)) x
          (rw (set_self s.at.state x active) tt)
          (rw (set-other s.at.state x active, set-other s.at.num x (s.at.num x + 1))
            (inv.states (other x)));
    stands = subst (WorkerOk now) (woken-false s.worker) (
        WorkerOk-woken s.at now false s.worker
          (both (λ y. s.at.state y ≡ retire → now.state y ≡ retire) x (λ h. cc (rw h at usable))
            (λ h. rw (set-other s.at.state x active) h))
          (both
            (λ y.
              s.at.state y ≡ wait_readers → (now.state y ≡ retire) ⊎ (now.state y ≡ wait_readers))
            x (λ h. cc (rw h at usable)) (λ h. inr (rw (set-other s.at.state x active) h)))
          (λ no.
            both (λ y. is_idle y s.at ≡ true → is_idle y now ≡ true) x
              (λ h. rw (set_self s.at.state x active) refl)
              (λ h.
                rw (set-other s.at.state x active, set_self s.at.other_readers (other x))
                  (read_idle (s.at.state (other x)) (s.at.other_readers (other x)) h)))
          inv.stands);
  }

pub on_wrap_open_lem :
    (n : ℕ) (s : System) (i : ℕ) (m : At3) (th : Thread)
    → IsAt3 n s
    → i < n
    → (s.threads i).table ≡ none
    → on_wrap_open (s.threads i) s.at ≡ some (m, th)
    → IsAt3 n (record s { at = m; threads = put s.threads i th })
unfolding on_wrap_open enter
on_wrap_open_lem n s i m th inv lt outside run = elim (Option-cases (choose s.at)) [
  | inl waits ↦ cc (rw (outside, waits, on_wrap_open) at run)
  | inr (x, e) ↦
      let ended = some-injective _ _ (rw (outside, e, on_wrap_open) at run) in
      subst (λ (r : At3 × Thread). IsAt3 n (record s { at = r.0; threads = put s.threads i r.1 }))
        ended (enter-IsAt3 n s inv i lt outside x (choose-usable s.at x e))
]

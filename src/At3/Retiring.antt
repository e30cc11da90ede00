-- ===== src/At3/Retiring.antt =====
-- The steps of the retiring thread keep the counts and the states.
use softwrap.AliasHash.{AliasHash, restore_entry, finish_restore, clear_hash}
use softwrap.At2.{Which, at_a, at_b, set}
use softwrap.At3.Opens.{both}
use softwrap.At3.Steps.{System, StateOk, WorkerOk, IsAt3}
use softwrap.At3.Works.{retiring_lem, state_lem}
use softwrap.At3.{
  AliasState, active, wait_writers, retire, wait_readers, empty, At3, Worker, testing, asleep,
  restoring, clearing, cleared, is_idle, is_retire, is_wait_readers, look_a, look_b, behind,
  restored, restore_turn, worker_step,
}
use mathlib.Core.Path.{subst}
use softwrap.Prelude.{
  ℕ, ◌+◌, ◌≡◌, ◌⊎◌, inl, inr, refl, Bool, true, false, ltb, ◌&&◌, ◌==◌, if◌then◌else◌, Bool-cases,
  ok, bind-ok, ok_injective,
}
use softwrap.Scm.{Scm}

retire_eq : (a : AliasState) → is_retire a ≡ true → a ≡ retire
retire_eq active h = cc h
retire_eq wait_writers h = cc h
retire_eq retire h = refl
retire_eq wait_readers h = cc h
retire_eq empty h = cc h

wait_readers_eq : (a : AliasState) → is_wait_readers a ≡ true → a ≡ wait_readers
wait_readers_eq active h = cc h
wait_readers_eq wait_writers h = cc h
wait_readers_eq retire h = cc h
wait_readers_eq wait_readers h = refl
wait_readers_eq empty h = cc h

pub and_true : (a b : Bool) → a && b ≡ true → (a ≡ true) × (b ≡ true)
and_true true b h = (refl, h)
and_true false b h = cc h

look_lem :
    (m : At3) (x : Which) (w : Worker)
    → WorkerOk m w
    → WorkerOk m (
        if is_retire (m.state x)
        then restoring x 0
        else if is_wait_readers (m.state x) && (m.other_readers x == 0)
        then clearing x
        else w)
look_lem m x w next = elim (Bool-cases (is_retire (m.state x))) [
  | inl e ↦ rw e (retire_eq (m.state x) e)
  | inr e ↦ elim (Bool-cases (is_wait_readers (m.state x) && (m.other_readers x == 0))) [
    | inl f ↦ rw (e, f) (inr (wait_readers_eq (m.state x) (and_true _ _ f).0))
    | inr f ↦ rw (e, f) next
  ]
]

look_b_lem : (m : At3) → WorkerOk m (look_b m)
look_b_lem m = look_lem m at_b testing tt

look_a_lem : (m : At3) → WorkerOk m (look_a m)
look_a_lem m = look_lem m at_a (look_b m) (look_b_lem m)

behind_lem : (x : Which) (m : At3) → WorkerOk m (behind x m)
behind_lem at_a m = look_b_lem m
behind_lem at_b m = tt

tested_lem : (m : At3) → WorkerOk m (if is_idle at_a m && is_idle at_b m then asleep else look_a m)
tested_lem m = elim (Bool-cases (is_idle at_a m && is_idle at_b m)) [
  | inl idle ↦ let (a, b) = and_true _ _ idle in rw idle (both (λ x. is_idle x m ≡ true) at_a a b)
  | inr busy ↦ rw busy (look_a_lem m)
]

pub no_writers :
    (a : AliasState) (writers : ℕ) (full : Bool)
    → (a ≡ retire) ⊎ (a ≡ wait_readers)
    → StateOk a writers full
    → writers ≡ 0
no_writers active writers full (inl e) h = cc e
no_writers active writers full (inr e) h = cc e
no_writers wait_writers writers full (inl e) h = cc e
no_writers wait_writers writers full (inr e) h = cc e
no_writers retire writers full e h = h
no_writers wait_readers writers full e h = h
no_writers empty writers full e h = h

module _ (n : ℕ) (s : System) (inv : IsAt3 n s) where
  abbrev next : (At3 × Scm) × Worker → System
  next r = record s { at = r.0.0; scm = r.0.1; worker = r.1 }

  done_lem :
      (x : Which) (h : AliasHash) (st : Scm)
      → s.at.state x ≡ retire
      → IsAt3 n (
          next (
            let m = record s.at { tables = set s.at.tables x h } in
            let (m', w) = restored x m in ((m', st), w)))
  unfolding restored
  done_lem x h st busy =
      let m = record s.at { tables = set s.at.tables x h } in
      let kept : IsAt3 n (record s { at = m; scm = st; worker = testing }) =
        retiring_lem n s inv x h st testing (inl busy) tt in
      elim (Bool-cases (s.at.other_readers x == 0)) [
        | inl e ↦ rw e (retiring_lem n s inv x h st (clearing x) (inl busy) (inl busy))
        | inr e ↦ rw e (
            state_lem n (record s { at = m; scm = st; worker = testing }) kept x wait_readers
              (behind x (record m { state = set s.at.state x wait_readers }))
              (no_writers (s.at.state x) (s.at.num x) _ (inl busy) (inv.states x)) (inl refl)
              (behind_lem x (record m { state = set s.at.state x wait_readers })))
      ]

  restore_turn_lem :
      (x : Which) (i : ℕ) (r : (At3 × Scm) × Worker)
      → s.at.state x ≡ retire
      → restore_turn x i (s.at, s.scm) ≡ ok r
      → IsAt3 n (next r)
  unfolding restore_turn
  restore_turn_lem x i r busy run =
      let h = s.at.tables x in
      elim (Bool-cases (ltb i h.table.array_size)) [
        | inl more ↦
            let ((t', st'), turn, last) =
              bind-ok (restore_entry i (h.table, s.scm)) _ r (rw more at run) in
            subst (λ q. IsAt3 n (next q)) (ok_injective last)
              (retiring_lem n s inv x (record h { table = t' }) st' (restoring x (i + 1)) (inl busy)
                busy)
        | inr no_more ↦
            let (h', st') = finish_restore h (h.table, s.scm) in
            subst (λ q. IsAt3 n (next q)) (ok_injective (rw no_more at run))
              (done_lem x h' st' busy)
      ]

  cleared_lem :
      (x : Which)
      → (s.at.state x ≡ retire) ⊎ (s.at.state x ≡ wait_readers)
      → IsAt3 n (
          next (let m = record s.at { state = set s.at.state x empty } in ((m, s.scm), behind x m)))
  cleared_lem x busy =
      state_lem n s inv x empty (behind x (record s.at { state = set s.at.state x empty }))
        (no_writers (s.at.state x) (s.at.num x) _ busy (inv.states x)) (inr refl)
        (behind_lem x (record s.at { state = set s.at.state x empty }))

  pub worker_step_lem :
      (w : Worker) (r : (At3 × Scm) × Worker)
      → WorkerOk s.at w
      → worker_step w (s.at, s.scm) ≡ ok r
      → IsAt3 n (next r)
  unfolding worker_step
  worker_step_lem testing r here run =
      subst (λ q. IsAt3 n (next q)) (ok_injective run)
        (record {
          writers = inv.writers;
          readers = inv.readers;
          states = inv.states;
          stands = tested_lem s.at;
        })
  worker_step_lem asleep r here run =
      subst (λ q. IsAt3 n (next q)) (ok_injective run)
        (record {
          writers = inv.writers;
          readers = inv.readers;
          states = inv.states;
          stands = here;
        })
  worker_step_lem (restoring x i) r here run = restore_turn_lem x i r here run
  worker_step_lem (clearing x) r here run =
      subst (λ q. IsAt3 n (next q)) (ok_injective run)
        (retiring_lem n s inv x (clear_hash (s.at.tables x)) s.scm (cleared x) here here)
  worker_step_lem (cleared x) r here run =
      subst (λ q. IsAt3 n (next q)) (ok_injective run) (cleared_lem x here)

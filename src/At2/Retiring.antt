-- ===== src/At2/Retiring.antt =====
-- The steps of the retiring thread keep the invariant.
use softwrap.AliasHash.{finish_restore}
use softwrap.At2.Invariant.{
  same_or_other, set_self, set-other, set_beside, table, WorkerOk, CallerOk, CallerOk-awaiting,
  CallerOk-kept, IsAt2, replace_lem,
}
use softwrap.At2.Tables.{IsEmpty, Turn, turn_lem}
use softwrap.At2.{
  Which, at_a, at_b, other, set, Worker, waiting, testing, restoring, restored, after, Caller,
  running, closing, clearing, draining, awaiting, At2, restore_turn, worker_step,
}
use softwrap.Lfht.Probe.{Placed, keys}
use softwrap.Lfht.{Lfht, Entry}
use native.Mathlib.Decide.{dec_lt}
use softwrap.Prelude.{
  ℕ, ◌+◌, ◌%◌, ◌≡◌, ◌≢◌, inl, inr, refl, sym, ap, ◌∙◌, true, false, Bool-cases, arith, ◌==◌, ◌||◌,
  ==→eq, lt→ltb, le→ltb_false, Returns,
}
use softwrap.Scm.{p_msync}

pub Placed-empty : (t : Lfht) → IsEmpty t → Placed t (keys t)
Placed-empty t none i lt taken = absurd (taken (none i lt))

module _ (k q v : ℕ) (nz : q ≢ 0) (whole : q % 8 ≡ 0) (s : At2) (inv : IsAt2 k q v s) where
  restore_turn_lem :
      (x : Which) (i : ℕ) → WorkerOk s (restoring x i) → Returns (restore_turn x i s) (IsAt2 k q v)
  unfolding restore_turn p_msync
  restore_turn_lem x i (busy, behind) = elim (dec_lt i (table s x).array_size) [
    | yes lt ↦
        let (r, run, freed, turn) = turn_lem k q nz whole (table s x) s.scm i lt (inv.words x) in
        let h = record (s.tables x) { table = r.0 } in
        let mine = set_self s.tables x h in
        let s' = record s { tables = set s.tables x h; scm = r.1; worker = restoring x (i + 1) } in
        let free' : WorkerOk s' (restoring x (i + 1)) =
          rw (table, mine)
            (
              busy,
              λ j lj ln. elim (Bool-cases (j == i)) [
                | inl e ↦ ap (keys r.0) (==→eq j i e) ∙ freed.there
                | inr e ↦
                    let ne : j ≢ i = λ z. ground (arith, z, e) in
                    ap (λ (d : Entry). d.key) (freed.others j ne)
                    ∙ behind j (omega (arith, ne)) (omega (arith, freed.size))
              ],
            ) in
        (
          s',
          rw (lt→ltb i (table s x).array_size lt, run),
          replace_lem k q v nz whole s inv x h r.1 (restoring x (i + 1)) busy turn free',
        )
    | no ge ↦
        let (h, st) = finish_restore (s.tables x) (table s x, s.scm) in
        let mine = set_self s.tables x h in
        let s' = record s { tables = set s.tables x h; scm = st; worker = restored x } in
        let free' : WorkerOk s' (restored x) =
          rw (table, mine) (busy, λ j lt. behind j (omega arith) lt) in
        let good = inv.words x in
        let turn : Turn k q nz whole (table s x) s.scm.mem h.table st.mem = record {
          words = record { width = good.width; words = good.words; unique = good.unique };
          has = λ v h. inl h;
          lacks = λ none. none;
          memory = λ v none h. h;
        } in
        (
          s',
          rw (le→ltb_false i (table s x).array_size (omega arith)),
          replace_lem k q v nz whole s inv x h st (restored x) busy turn free',
        )
  ]

  -- The flag of a restored table is reset.
  abbrev reset : Which → At2
  reset x = record s { retire = set s.retire x false; signalled = true; worker = after x }

  after_lem : (s' : At2) (x : Which) → WorkerOk s' (after x)
  after_lem s' at_a = tt
  after_lem s' at_b = tt

  reset_active : WorkerOk s (restored s.active) → IsAt2 k q v (reset s.active)
  reset_active (busy, none) =
      let (here, await) = CallerOk-awaiting s s.caller inv.calling busy in
      let mine = set_self s.retire s.active false in
      let theirs = set-other s.retire s.active false in
      record {
        words = inv.words;
        idle = λ done. inv.idle await.done;
        placed = λ r. Placed-empty (table s s.active) none;
        working = after_lem (reset s.active) s.active;
        calling =
            rw here (record { done = theirs ∙ await.done; pending = mine; empty = λ sig. none });
        known = inv.known;
      }

  reset-other : WorkerOk s (restored (other s.active)) → IsAt2 k q v (reset (other s.active))
  reset-other (busy, none) =
      let mine = set_beside s.retire s.active false in
      record {
        words = inv.words;
        idle = λ done. none;
        placed = λ r. inv.placed (sym mine ∙ r);
        working = after_lem (reset (other s.active)) (other s.active);
        calling = CallerOk-kept s (reset (other s.active)) s.caller refl mine refl busy inv.calling;
        known = inv.known;
      }

  reset_lem : (x : Which) → WorkerOk s (restored x) → IsAt2 k q v (reset x)
  reset_lem x ok' = elim (same_or_other x s.active) [
    | inl e ↦ rw e (reset_active (rw e at ok'))
    | inr e ↦ rw e (reset-other (rw e at ok'))
  ]

  moved_caller : (w : Worker) (c : Caller) → CallerOk s c → CallerOk (record s { worker = w }) c
  moved_caller w running ok' = ok'
  moved_caller w closing ok' = ok'
  moved_caller w clearing ok' = ok'
  moved_caller w draining ok' = ok'
  moved_caller w awaiting ok' = record { done = ok'.done; pending = ok'.pending; empty = ok'.empty }

  pub moved_worker : (u w : Worker) → WorkerOk s w → WorkerOk (record s { worker = u }) w
  moved_worker u waiting ok' = ok'
  moved_worker u (testing x) ok' = ok'
  moved_worker u (restoring x i) ok' = ok'
  moved_worker u (restored x) ok' = ok'

  -- Only the place of the retiring thread changes.
  moved_lem : (w : Worker) → WorkerOk s w → IsAt2 k q v (record s { worker = w })
  moved_lem w ok' = record {
    words = inv.words;
    idle = inv.idle;
    placed = inv.placed;
    working = moved_worker w w ok';
    calling = moved_caller w s.caller inv.calling;
    known = inv.known;
  }

  pub worker_step_lem : (w : Worker) → s.worker ≡ w → Returns (worker_step w s) (IsAt2 k q v)
  unfolding worker_step
  worker_step_lem waiting e = elim (Bool-cases (s.retire at_a || s.retire at_b)) [
    | inl some ↦ (record s { worker = testing at_a }, rw some, moved_lem (testing at_a) tt)
    | inr none ↦ (s, rw none, inv)
  ]
  worker_step_lem (testing x) e = elim (Bool-cases (s.retire x)) [
    | inl busy ↦ (
      record s { worker = restoring x 0 },
      rw busy,
      moved_lem (restoring x 0) (busy, λ j lt. absurd (omega arith)),
    )
    | inr none ↦ (record s { worker = after x }, rw none, moved_lem (after x) (after_lem s x))
  ]
  worker_step_lem (restoring x i) e = restore_turn_lem x i (rw e at inv.working)
  worker_step_lem (restored x) e = (reset x, refl, reset_lem x (rw e at inv.working))

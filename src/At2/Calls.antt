-- ===== src/At2/Calls.antt =====
-- The steps of the program's thread keep the invariant.
use mathlib.Core.Path.{subst}
use softwrap.AliasHash.{AliasHash, clear_hash}
use softwrap.At2.Invariant.{
  same_or_other, set_self, set-other, set_all, table, WorkerOk, AwaitOk, CallerOk, IsAt2,
}
use softwrap.At2.Known.{Known-swap, Known-cleared, Known-Holds, IsEmpty-clear, IsWords-clear}
use softwrap.At2.Retiring.{Placed-empty}
use softwrap.At2.Tables.{IsWords, IsEmpty, Lacks-empty}
use softwrap.At2.{
  Which, at_a, at_b, other, set, Worker, waiting, testing, restoring, restored, Caller, running,
  closing, clearing, draining, awaiting, At2, retire_active, caller_step, on_wrap_close,
  restore_all_elements,
}
use softwrap.Prelude.{
  ℕ, ◌%◌, ◌/◌, ◌≡◌, ◌≢◌, inl, inr, refl, sym, ap, ◌∙◌, Bool, true, false, not, ltb, if◌then◌else◌,
}
use softwrap.Scm.Bytes.{Holds, le}

-- What the retiring thread relies on, where flags that are set stay set and its table stays as it is.
pub WorkerOk-kept :
    (s s' : At2) (w : Worker)
    → ((x : Which) → s.retire x ≡ true → (s'.retire x ≡ true) × (table s' x ≡ table s x))
    → WorkerOk s w
    → WorkerOk s' w
WorkerOk-kept s s' waiting kept ok' = tt
WorkerOk-kept s s' (testing x) kept ok' = tt
WorkerOk-kept s s' (restoring x i) kept (busy, behind) =
    let (busy', same) = kept x busy in (busy', rw same behind)
WorkerOk-kept s s' (restored x) kept (busy, none) =
    let (busy', same) = kept x busy in (busy', rw same none)

pub other-other : (x : Which) → other (other x) ≡ x
other-other at_a = refl
other-other at_b = refl

set-true : (f : Which → Bool) (x y : Which) → f y ≡ true → set f x true y ≡ true
set-true f at_a at_a h = refl
set-true f at_a at_b h = h
set-true f at_b at_a h = h
set-true f at_b at_b h = refl

-- What holds of both branches.
pub if_all {ℓ} :
    {A : Type ℓ} (P : A → Type 0) (b : Bool) (x y : A)
    → (b ≡ true → P x)
    → (b ≡ false → P y)
    → P (if b then x else y)
if_all P true x y then' else' = then' refl
if_all P false x y then' else' = else' refl

pub true_not_false : true ≢ false
true_not_false e = cc e

module _ (k q v : ℕ) (nz : q ≢ 0) (whole : q % 8 ≡ 0) (s : At2) (inv : IsAt2 k q v s) where
  -- Only the place of the caller changes.
  went_lem :
      (c : Caller) → CallerOk (record s { caller = c }) c → IsAt2 k q v (record s { caller = c })
  went_lem c ok' = record {
    words = inv.words;
    idle = inv.idle;
    placed = inv.placed;
    working =
        WorkerOk-kept s (record s { caller = c }) s.worker (λ x busy. (busy, refl)) inv.working;
    calling = ok';
    known = inv.known;
  }

  retire_active_lem :
      s.retire s.active ≡ false → s.retire (other s.active) ≡ false → IsAt2 k q v (retire_active s)
  retire_active_lem mine theirs =
      let s' = retire_active s in
      let none = inv.idle theirs in
      let back = other-other s.active in
      let raised = set_self s.retire s.active true in
      record {
        words = inv.words;
        idle = λ r.
            absurd (true_not_false (sym raised ∙ ap (set s.retire s.active true) (sym back) ∙ r));
        placed = λ r. Placed-empty (table s (other s.active)) none;
        working =
            WorkerOk-kept s s' s.worker (λ x busy. (set-true s.retire s.active x busy, refl))
              inv.working;
        calling = (set-other s.retire s.active true ∙ theirs, none);
        known = rw back (
            Known-swap k q nz whole (table s s.active) (table s (other s.active)) s.scm.mem v
              (Lacks-empty k q nz whole (table s (other s.active)) none) inv.known);
      }

  -- The clear of the active table after the change of roles.
  clearing_lem :
      CallerOk s clearing
      → IsAt2 k q v (record s {
        tables = set s.tables s.active (clear_hash (s.tables s.active));
        caller = running;
      })
  unfolding clear_hash
  clearing_lem (mine, none) =
      let h = clear_hash (s.tables s.active) in
      let s' = record s { tables = set s.tables s.active h; caller = running } in
      let here = set_self s.tables s.active h in
      let there = set-other s.tables s.active h in
      let width = (inv.words s.active).width in
      record {
        words =
            set_all (λ (g : AliasHash). IsWords k g.table) s.tables s.active h
              (IsWords-clear k (table s s.active) width) inv.words;
        idle = λ r. rw (table, there) (inv.idle r);
        placed = λ r. rw (table, here) (Placed-empty h.table (IsEmpty-clear (table s s.active)));
        working =
            WorkerOk-kept s s' s.worker
              (λ x busy. elim (same_or_other x s.active) [
                | inl e ↦ absurd (true_not_false (sym busy ∙ ap s.retire e ∙ mine))
                | inr e ↦ (
                  busy,
                  ap (λ (y : Which). (set s.tables s.active h y).table) e
                      ∙ ap (λ (g : AliasHash). g.table) there
                      ∙ ap (table s) (sym e),
                )
              ])
              inv.working;
        calling = mine;
        known =
            rw (table, here, there)
              (Known-cleared k q nz whole (table s s.active) h.table (table s (other s.active))
                s.scm.mem v (Lacks-empty k q nz whole (table s s.active) none)
                (Lacks-empty k q nz whole h.table (IsEmpty-clear (table s s.active))) inv.known);
      }

  -- The wait for both tables begins.
  draining_lem :
      s.retire (other s.active) ≡ false
      → IsAt2 k q v
          (record s { retire = set s.retire s.active true; signalled = false; caller = awaiting })
  draining_lem theirs =
      let s' = record s {
        retire = set s.retire s.active true;
        signalled = false;
        caller = awaiting;
      } in
      let raised = set_self s.retire s.active true in
      let beside = set-other s.retire s.active true in
      record {
        words = inv.words;
        idle = λ r. inv.idle theirs;
        placed = λ r. absurd (true_not_false (sym raised ∙ r));
        working =
            WorkerOk-kept s s' s.worker (λ x busy. (set-true s.retire s.active x busy, refl))
              inv.working;
        calling = record { done = beside ∙ theirs; pending = raised; empty = λ sig. cc sig };
        known = inv.known;
      }

  -- With the signal the value is in memory, and both tables are empty.
  pub drained_lem :
      AwaitOk s
      → s.signalled ≡ true
      → IsEmpty (table s s.active) × IsEmpty (table s (other s.active)) × Holds s.scm.mem q (le 8 v)
  drained_lem await sig =
      let none = await.empty sig in
      let none' = inv.idle await.done in
      (
        none,
        none',
        Known-Holds k q nz whole (table s s.active) (table s (other s.active)) s.scm.mem v
            (Lacks-empty k q nz whole (table s s.active) none)
            (Lacks-empty k q nz whole (table s (other s.active)) none') inv.known,
      )

  awaiting_lem :
      AwaitOk s
      → s.signalled ≡ true
      → IsAt2 k q v (record s { tables = λ x. clear_hash (s.tables x); caller = running })
  unfolding clear_hash
  awaiting_lem await sig =
      let s' = record s { tables = λ x. clear_hash (s.tables x); caller = running } in
      let mine : s.retire s.active ≡ false = await.pending ∙ ap not sig in
      let gone = IsEmpty-clear in
      let mem = (drained_lem await sig).2 in
      record {
        words = λ x. IsWords-clear k (table s x) (inv.words x).width;
        idle = λ r. IsEmpty-clear (table s (other s.active));
        placed = λ r. Placed-empty (table s' s.active) (IsEmpty-clear (table s s.active));
        working =
            WorkerOk-kept s s' s.worker
              (λ x busy. elim (same_or_other x s.active) [
                | inl e ↦ absurd (true_not_false (sym busy ∙ ap s.retire e ∙ mine))
                | inr e ↦ absurd (true_not_false (sym busy ∙ ap s.retire e ∙ await.done))
              ])
              inv.working;
        calling = mine;
        known = inr (
          Lacks-empty k q nz whole (table s' s.active) (IsEmpty-clear (table s s.active)),
          inr (
            Lacks-empty k q nz whole (table s' (other s.active))
                (IsEmpty-clear (table s (other s.active))),
            mem,
          ),
        );
      }

  called : (c : Caller) → s.caller ≡ c → CallerOk s c
  called c e = subst (CallerOk s) e inv.calling

  pub caller_step_lem : (c : Caller) → s.caller ≡ c → IsAt2 k q v (caller_step c s)
  unfolding caller_step
  caller_step_lem running e = inv
  caller_step_lem closing e =
      if_all (IsAt2 k q v) (s.retire (other s.active)) s (retire_active s) (λ busy. inv)
        (retire_active_lem (called closing e))
  caller_step_lem clearing e = clearing_lem (called clearing e)
  caller_step_lem draining e =
      if_all (IsAt2 k q v) (s.retire (other s.active)) s
        (record s { retire = set s.retire s.active true; signalled = false; caller = awaiting })
        (λ busy. inv) draining_lem
  caller_step_lem awaiting e =
      if_all (IsAt2 k q v) s.signalled
        (record s { tables = λ x. clear_hash (s.tables x); caller = running }) s
        (awaiting_lem (called awaiting e)) (λ none. inv)

  pub on_wrap_close_lem : s.caller ≡ running → IsAt2 k q v (on_wrap_close s)
  unfolding on_wrap_close
  on_wrap_close_lem e =
      let t = table s s.active in
      if_all (IsAt2 k q v) (ltb (t.array_size / s.thresh) t.num_items)
        (record s { caller = closing }) s (λ full. went_lem closing (called running e))
        (λ room. inv)

  pub restore_all_elements_lem : s.caller ≡ running → IsAt2 k q v (restore_all_elements s)
  unfolding restore_all_elements
  restore_all_elements_lem e = went_lem draining (called running e)

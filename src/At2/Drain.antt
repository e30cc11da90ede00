-- ===== src/At2/Drain.antt =====
-- The runs of both threads, interleaved in any order, and what they guarantee.
use softwrap.At2.Calls.{
  caller_step_lem, on_wrap_close_lem, restore_all_elements_lem, drained_lem, if_all, true_not_false,
  other-other,
}
use softwrap.At2.Invariant.{table, CallerOk, CallerOk-awaiting, IsAt2, same_or_other}
use softwrap.At2.Retiring.{Placed-empty, worker_step_lem}
use softwrap.At2.Storing.{at2_store_lem}
use softwrap.At2.Tables.{IsWords, IsEmpty, Lacks-empty}
use softwrap.At2.{
  Which, at_a, at_b, other, waiting, running, clearing, awaiting, At2, worker_step, caller_step,
  on_wrap_close, restore_all_elements, at2_store,
}
use mathlib.Core.Path.{subst}
use softwrap.AliasHash.{clear_hash}
use softwrap.Prelude.{
  Bool-cases, ℕ, ◌%◌, ◌≡◌, ◌≢◌, ◌⊎◌, inl, inr, refl, sym, ap, ◌∙◌, true, false, ◌==◌, if◌then◌else◌,
  ok, ok_injective, Returns,
}
use softwrap.Scm.Bytes.{Holds, le}

-- A step of either thread. `v` and `v'` are the last value stored under `q` before and after it; the
-- program stores words at multiples of eight.
pub data Step (int_shift : ℕ → ℕ) (q : ℕ) : At2 → ℕ → At2 → ℕ → Type 0 where
  work : (s s' : At2) (v : ℕ) → worker_step s.worker s ≡ ok s' → Step int_shift q s v s' v
  go_on : (s : At2) (v : ℕ) → Step int_shift q s v (caller_step s.caller s) v
  close : (s : At2) (v : ℕ) → s.caller ≡ running → Step int_shift q s v (on_wrap_close s) v
  drain : (s : At2) (v : ℕ) → s.caller ≡ running → Step int_shift q s v (restore_all_elements s) v
  put :
      (s s' : At2) (v ptr value : ℕ)
      → s.caller ≡ running
      → ptr ≢ 0
      → ptr % 8 ≡ 0
      → at2_store int_shift ptr value 8 s ≡ ok s'
      → Step int_shift q s v s' (if ptr == q then value else v)

pub data Reach (int_shift : ℕ → ℕ) (q : ℕ) (s0 : At2) (v0 : ℕ) : At2 → ℕ → Type 0 where
  start : Reach int_shift q s0 v0 s0 v0
  later :
      (s s' : At2) (v v' : ℕ)
      → Reach int_shift q s0 v0 s v
      → Step int_shift q s v s' v'
      → Reach int_shift q s0 v0 s' v'

-- The state that the constructor leaves, with tables of 2^k entries and the value `v` in memory at
-- `q`.
pub record IsNew (k q v : ℕ) (s : At2) : Type 0 where
  pub words : (x : Which) → IsWords k (table s x)
  pub empty : (x : Which) → IsEmpty (table s x)
  pub unset : (x : Which) → s.retire x ≡ false
  pub waits : s.worker ≡ waiting
  pub outside : s.caller ≡ running
  pub home : Holds s.scm.mem q (le 8 v)

both-IsEmpty :
    (s : At2) (x : Which)
    → IsEmpty (table s x)
    → IsEmpty (table s (other x))
    → IsEmpty (table s at_a) × IsEmpty (table s at_b)
both-IsEmpty s at_a a b = (a, b)
both-IsEmpty s at_b b a = (a, b)

module _ (int_shift : ℕ → ℕ) (k q : ℕ) (nz : q ≢ 0) (whole : q % 8 ≡ 0) where
  IsNew-IsAt2 : (v : ℕ) (s : At2) → IsNew k q v s → IsAt2 k q v s
  IsNew-IsAt2 v s new = record {
    words = new.words;
    idle = λ r. new.empty (other s.active);
    placed = λ r. Placed-empty (table s s.active) (new.empty s.active);
    working = rw new.waits tt;
    calling = subst (CallerOk s) (sym new.outside) (new.unset s.active);
    known = inr (
      Lacks-empty k q nz whole (table s s.active) (new.empty s.active),
      inr (
        Lacks-empty k q nz whole (table s (other s.active)) (new.empty (other s.active)),
        new.home,
      ),
    );
  }

  Step-IsAt2 :
      {s s' : At2} {v v' : ℕ} → Step int_shift q s v s' v' → IsAt2 k q v s → IsAt2 k q v' s'
  Step-IsAt2 (work s s' v e) inv =
      let (s2, run, good) = worker_step_lem k q v nz whole s inv s.worker refl in
      subst (IsAt2 k q v) (ok_injective (sym run ∙ e)) good
  Step-IsAt2 (go_on s v) inv = caller_step_lem k q v nz whole s inv s.caller refl
  Step-IsAt2 (close s v e) inv = on_wrap_close_lem k q v nz whole s inv e
  Step-IsAt2 (drain s v e) inv = restore_all_elements_lem k q v nz whole s inv e
  Step-IsAt2 (put s s' v ptr value e pnz at run) inv =
      at2_store_lem int_shift k q v nz s inv e ptr value pnz at s' run

  module _ (s0 : At2) (v0 : ℕ) (new : IsNew k q v0 s0) where
    pub Reach-IsAt2 : {s : At2} {v : ℕ} → Reach int_shift q s0 v0 s v → IsAt2 k q v s
    Reach-IsAt2 start = IsNew-IsAt2 v0 s0 new
    Reach-IsAt2 (later s s' v v' r st) = Step-IsAt2 st (Reach-IsAt2 r)

    -- Nothing that was stored is lost. From new tables of 2^k entries, where the program stores
    -- words of eight bytes at multiples of eight, in whatever order the steps of the two threads
    -- come, when the wait of `restoreAllElements` for both tables ends with a signal, both are
    -- empty, and when the call has then cleared them memory has at `q`, a multiple of eight other
    -- than 0, the last value that was stored there, or the one that it had at the start.
    pub caller_step-Holds :
        (s : At2) (v : ℕ)
        → Reach int_shift q s0 v0 s v
        → s.caller ≡ awaiting
        → s.signalled ≡ true
        → IsEmpty (table s at_a)
          × IsEmpty (table s at_b)
          × ((caller_step awaiting s).caller ≡ running)
          × Holds (caller_step awaiting s).scm.mem q (le 8 v)
    unfolding caller_step
    caller_step-Holds s v reach waits sig =
        let inv = Reach-IsAt2 reach in
        let await = subst (CallerOk s) waits inv.calling in
        let (none, none', mem) = drained_lem k q v nz whole s inv await sig in
        let (a, b) = both-IsEmpty s s.active none none' in
        (
          a,
          b,
          if_all (λ (t : At2). t.caller ≡ running) s.signalled
              (record s { tables = λ x. clear_hash (s.tables x); caller = running }) s (λ h. refl)
              (λ h. absurd (true_not_false (sym sig ∙ h))),
          if_all (λ (t : At2). Holds t.scm.mem q (le 8 v)) s.signalled
              (record s { tables = λ x. clear_hash (s.tables x); caller = running }) s (λ h. mem)
              (λ h. mem),
        )

    only_one :
        (s : At2) (v : ℕ) (x : Which)
        → Reach int_shift q s0 v0 s v
        → s.retire x ≡ true
        → (s.retire (other x) ≡ false) × ((x ≡ other s.active) ⊎ (s.caller ≡ awaiting))
    only_one s v x reach busy =
        let inv = Reach-IsAt2 reach in
        elim (same_or_other x s.active) [
          | inl e ↦
              let (waits, await) =
                CallerOk-awaiting s s.caller inv.calling (ap s.retire (sym e) ∙ busy) in
              (ap (λ (y : Which). s.retire (other y)) e ∙ await.done, inr waits)
          | inr e ↦ (
            elim (Bool-cases (s.retire s.active)) [
              | inl both ↦
                  let await = (CallerOk-awaiting s s.caller inv.calling both).1 in
                  absurd (true_not_false (sym busy ∙ ap s.retire e ∙ await.done))
              | inr none ↦
                  ap (λ (y : Which). s.retire (other y)) e
                  ∙ ap s.retire (other-other s.active)
                  ∙ none
            ],
            inl e,
          )
        ]

    -- From the same start and under the same steps, no step of the retiring thread fails an
    -- assertion, whatever entries it restores; and a table whose retirement flag is set is the only
    -- one, and it is not the one that the program stores in, unless the program waits for both.
    pub worker_step-Returns :
        (s : At2) (v : ℕ) (x : Which)
        → Reach int_shift q s0 v0 s v
        → Returns (worker_step s.worker s) λ s'.
          (s.retire x ≡ false)
          ⊎ ((s.retire (other x) ≡ false) × ((x ≡ other s.active) ⊎ (s.caller ≡ awaiting)))
    worker_step-Returns s v x reach =
        let inv = Reach-IsAt2 reach in
        let (s', run, good) = worker_step_lem k q v nz whole s inv s.worker refl in
        (
          s',
          run,
          elim (Bool-cases (s.retire x)) [
            | inl busy ↦ inr (only_one s v x reach busy)
            | inr idle ↦ inl idle
          ],
        )

    -- From the same start and under the same steps, between the change of roles and the clear that
    -- follows it, the table that is cleared is empty.
    pub clearing-IsEmpty :
        (s : At2) (v : ℕ)
        → Reach int_shift q s0 v0 s v
        → s.caller ≡ clearing
        → IsEmpty (table s s.active)
    clearing-IsEmpty s v reach at = (subst (CallerOk s) at (Reach-IsAt2 reach).calling).1

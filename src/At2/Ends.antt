-- ===== src/At2/Ends.antt =====
-- The wait for both tables ends: the retiring thread, left to run, gives the signal.
use mathlib.Core.Path.{subst}
use native.Mathlib.Decide.{dec_lt}
use softwrap.AliasHash.{restore_entry, finish_restore}
use softwrap.At2.Calls.{true_not_false}
use softwrap.At2.Drain.{Reach, IsNew, Reach-IsAt2}
use softwrap.At2.Invariant.{table, CallerOk, WorkerOk, IsAt2, same_or_other}
use softwrap.At2.Retiring.{worker_step_lem}
use softwrap.At2.{
  Which, at_a, at_b, other, set, Worker, waiting, testing, restoring, restored, after, awaiting,
  At2, restore_turn, worker_step,
}
use softwrap.Lfht.{Lfht}
use softwrap.Prelude.{
  ℕ, Bool, zero, suc, ◌+◌, ◌%◌, ◌^◌, ◌<◌, ◌≤◌, ◌≡◌, ◌≢◌, ◌⊎◌, inl, inr, refl, sym, ap, ◌∙◌, true,
  false, not, ◌||◌, arith, lt→ltb, le→ltb_false, ok_injective, bind-ok, Run, ok, Returns, ◌>>=◌,
}
use softwrap.Scm.{Scm}

-- The next `n` steps of the retiring thread.
unfoldable pub run_worker : ℕ → At2 → Run At2
run_worker zero s = ok s
run_worker (suc n) s = worker_step s.worker s >>= run_worker n

-- A signal comes within `bound` steps, and the program's thread is still where it was.
abbrev pub Ends : ℕ → At2 → Type 0
Ends bound s =
    (m : ℕ) × (m ≤ bound)
    × Returns (run_worker m s) λ s'. (s'.signalled ≡ true) × (s'.caller ≡ s.caller)

module _ (k q v : ℕ) (nz : q ≢ 0) (whole : q % 8 ≡ 0) (x : Which) where
  -- The flag of `x` alone is set.
  record Alone (s : At2) : Type 0 where
    pub inv : IsAt2 k q v s
    pub mine : s.retire x ≡ true
    pub theirs : s.retire (other x) ≡ false

  step_lem :
      (s s' : At2) (w : Worker) (bound : ℕ)
      → s.worker ≡ w
      → worker_step w s ≡ ok s'
      → s'.caller ≡ s.caller
      → Ends bound s'
      → Ends (suc bound) s
  unfolding run_worker
  step_lem s s' w bound at run same (m, le, (s2, rest, (sig, here))) = (
    suc m,
    omega arith,
    (s2, rw (subst (λ u. worker_step u s ≡ ok s') (sym at) run) rest, (sig, here ∙ same)),
  )

  -- A step that leaves the flags keeps the hypotheses.
  next :
      (s s' : At2) (w : Worker)
      → Alone s
      → s.worker ≡ w
      → worker_step w s ≡ ok s'
      → s'.retire ≡ s.retire
      → Alone s'
  next s s' w alone at run flags =
      let (s2, run2, good) = worker_step_lem k q v nz whole s alone.inv w at in
      record {
        inv = subst (IsAt2 k q v) (ok_injective (sym run2 ∙ run)) good;
        mine = ap (λ (f : Which → Bool). f x) flags ∙ alone.mine;
        theirs = ap (λ (f : Which → Bool). f (other x)) flags ∙ alone.theirs;
      }

  restored-Ends : (s : At2) → s.worker ≡ restored x → Ends 1 s
  unfolding worker_step run_worker
  restored-Ends s at =
      let s' = record s { retire = set s.retire x false; signalled = true; worker = after x } in
      step_lem s s' (restored x) 0 at refl refl (0, omega arith, (s', refl, (refl, refl)))

  finish-Ends : (s : At2) (i : ℕ) → s.worker ≡ restoring x i → (table s x).array_size ≤ i → Ends 2 s
  unfolding worker_step restore_turn
  finish-Ends s i at le =
      let (h, st) = finish_restore (s.tables x) (table s x, s.scm) in
      let s' = record s { tables = set s.tables x h; scm = st; worker = restored x } in
      step_lem s s' (restoring x i) 1 at (rw (le→ltb_false i (table s x).array_size le)) refl
        (restored-Ends s' refl)

  -- What a turn of the loop leaves as it was.
  record Turned (s : At2) (i : ℕ) (s' : At2) : Type 0 where
    pub at : s'.worker ≡ restoring x (i + 1)
    pub flags : s'.retire ≡ s.retire
    pub here : s'.caller ≡ s.caller

  turned :
      (s s' : At2) (i : ℕ)
      → i < (table s x).array_size
      → worker_step (restoring x i) s ≡ ok s'
      → Turned s i s'
  unfolding worker_step restore_turn
  turned s s' i lt run =
      let h = s.tables x in
      let made = λ (r : Lfht × Scm). record s {
        tables = set s.tables x (record h { table = r.0 });
        scm = r.1;
        worker = restoring x (i + 1);
      } in
      let (r, one, last) =
        bind-ok (restore_entry i (h.table, s.scm)) (λ (r : Lfht × Scm). ok (made r)) s'
          (rw (lt→ltb i (table s x).array_size lt) at run) in
      let e = ok_injective (sym last) in
      record {
        at = ap (λ (u : At2). u.worker) e;
        flags = ap (λ (u : At2). u.retire) e;
        here = ap (λ (u : At2). u.caller) e;
      }

  more : (a b : ℕ) (s : At2) → a ≤ b → Ends a s → Ends b s
  more a b s h (m, le, rest) = (m, omega arith, rest)

  turns-Ends :
      (n i : ℕ) (s : At2) → Alone s → s.worker ≡ restoring x i → 2 ^ k ≤ i + n → Ends (n + 2) s
  turns-Ends zero i s alone at le =
      let width = (alone.inv.words x).width in finish-Ends s i at (omega (arith, width))
  turns-Ends (suc n) i s alone at le = elim (dec_lt i (table s x).array_size) [
    | yes lt ↦
        let (s', run, good) = worker_step_lem k q v nz whole s alone.inv (restoring x i) at in
        let t = turned s s' i lt run in
        more (suc (n + 2)) (suc n + 2) s (omega arith) (
          step_lem s s' (restoring x i) (n + 2) at run t.here (
            turns-Ends n (i + 1) s' (next s s' (restoring x i) alone at run t.flags) t.at
              (omega arith)))
    | no ge ↦ more 2 (suc n + 2) s (omega arith) (finish-Ends s i at (omega arith))
  ]

  -- From the test of the flag on.
  tested-Ends : (s : At2) → Alone s → s.worker ≡ testing x → Ends (2 ^ k + 3) s
  unfolding worker_step
  tested-Ends s alone at =
      let s' = record s { worker = restoring x 0 } in
      let run : worker_step (testing x) s ≡ ok s' = rw alone.mine in
      more (suc (2 ^ k + 2)) (2 ^ k + 3) s (omega arith) (
        step_lem s s' (testing x) (2 ^ k + 2) at run refl
          (turns-Ends (2 ^ k) 0 s' (next s s' (testing x) alone at run refl) refl (omega arith)))

  -- A test of the other flag goes on.
  passed :
      (s : At2) (bound : ℕ)
      → Alone s
      → s.worker ≡ testing (other x)
      → ((s' : At2) → Alone s' → s'.worker ≡ after (other x) → Ends bound s')
      → Ends (suc bound) s
  unfolding worker_step
  passed s bound alone at rest =
      let s' = record s { worker = after (other x) } in
      let run : worker_step (testing (other x)) s ≡ ok s' = rw alone.theirs in
      step_lem s s' (testing (other x)) bound at run refl
        (rest s' (next s s' (testing (other x)) alone at run refl) refl)

  -- The wait for a flag ends.
  woken :
      (s : At2) (bound : ℕ)
      → Alone s
      → s.worker ≡ waiting
      → (s.retire at_a || s.retire at_b) ≡ true
      → ((s' : At2) → Alone s' → s'.worker ≡ testing at_a → Ends bound s')
      → Ends (suc bound) s
  unfolding worker_step
  woken s bound alone at some rest =
      let s' = record s { worker = testing at_a } in
      let run : worker_step waiting s ≡ ok s' = rw some in
      step_lem s s' waiting bound at run refl (rest s' (next s s' waiting alone at run refl) refl)

module _ (k q v : ℕ) (nz : q ≢ 0) (whole : q % 8 ≡ 0) where
  -- From inside a restore, which is that of the one table whose flag is set.
  inside-Ends :
      (x y : Which) (s : At2) (w : Worker)
      → Alone k q v nz whole x s
      → s.worker ≡ w
      → s.retire y ≡ true
      → ((i : ℕ) × (w ≡ restoring y i)) ⊎ (w ≡ restored y)
      → Ends (2 ^ k + 5) s
  inside-Ends x y s w alone at busy place' = elim (same_or_other y x) [
    | inr e ↦ absurd (true_not_false (sym busy ∙ ap s.retire e ∙ alone.theirs))
    | inl e ↦ elim place' [
      | inl (i, z) ↦ more k q v nz whole x (2 ^ k + 2) (2 ^ k + 5) s (omega arith) (
          turns-Ends k q v nz whole x (2 ^ k) i s alone
            (at ∙ z ∙ ap (λ (u : Which). restoring u i) e) (omega arith))
      | inr z ↦
          more k q v nz whole x 1 (2 ^ k + 5) s (omega arith)
            (restored-Ends k q v nz whole x s (at ∙ z ∙ ap restored e))
    ]
  ]

  Ends-a :
      (s : At2) (w : Worker)
      → Alone k q v nz whole at_a s
      → s.worker ≡ w
      → WorkerOk s w
      → Ends (2 ^ k + 5) s
  Ends-a s waiting alone at ok' =
      more k q v nz whole at_a (suc (2 ^ k + 3)) (2 ^ k + 5) s (omega arith) (
        woken k q v nz whole at_a s (2 ^ k + 3) alone at (rw (alone.mine))
          (tested-Ends k q v nz whole at_a))
  Ends-a s (testing at_a) alone at ok' =
      more k q v nz whole at_a (2 ^ k + 3) (2 ^ k + 5) s (omega arith)
        (tested-Ends k q v nz whole at_a s alone at)
  Ends-a s (testing at_b) alone at ok' =
      more k q v nz whole at_a (suc (suc (2 ^ k + 3))) (2 ^ k + 5) s (omega arith) (
        passed k q v nz whole at_a s (suc (2 ^ k + 3)) alone at (λ s' al at'.
          woken k q v nz whole at_a s' (2 ^ k + 3) al at' (rw (al.mine))
            (tested-Ends k q v nz whole at_a)))
  Ends-a s (restoring y i) alone at ok' =
      inside-Ends at_a y s (restoring y i) alone at ok'.0 (inl (i, refl))
  Ends-a s (restored y) alone at ok' = inside-Ends at_a y s (restored y) alone at ok'.0 (inr refl)

  Ends-b :
      (s : At2) (w : Worker)
      → Alone k q v nz whole at_b s
      → s.worker ≡ w
      → WorkerOk s w
      → Ends (2 ^ k + 5) s
  Ends-b s waiting alone at ok' =
      more k q v nz whole at_b (suc (suc (2 ^ k + 3))) (2 ^ k + 5) s (omega arith) (
        woken k q v nz whole at_b s (suc (2 ^ k + 3)) alone at (rw (alone.theirs, alone.mine))
          (λ s' al at'.
            passed k q v nz whole at_b s' (2 ^ k + 3) al at' (tested-Ends k q v nz whole at_b)))
  Ends-b s (testing at_a) alone at ok' =
      more k q v nz whole at_b (suc (2 ^ k + 3)) (2 ^ k + 5) s (omega arith)
        (passed k q v nz whole at_b s (2 ^ k + 3) alone at (tested-Ends k q v nz whole at_b))
  Ends-b s (testing at_b) alone at ok' =
      more k q v nz whole at_b (2 ^ k + 3) (2 ^ k + 5) s (omega arith)
        (tested-Ends k q v nz whole at_b s alone at)
  Ends-b s (restoring y i) alone at ok' =
      inside-Ends at_b y s (restoring y i) alone at ok'.0 (inl (i, refl))
  Ends-b s (restored y) alone at ok' = inside-Ends at_b y s (restored y) alone at ok'.0 (inr refl)

  ends : (x : Which) (s : At2) → Alone k q v nz whole x s → Ends (2 ^ k + 5) s
  ends at_a s alone = Ends-a s s.worker alone refl alone.inv.working
  ends at_b s alone = Ends-b s s.worker alone refl alone.inv.working

-- The wait of `restoreAllElements` for both tables ends: in every state that the steps of both
-- threads lead to from new tables of 2^k entries, with stores of words at multiples of eight, where
-- the program waits and no signal has come, the retiring thread, left to run, gives it within 2^k +
-- 5 steps, none of which fails an assertion.
pub run_worker-Returns :
    (int_shift : ℕ → ℕ) (k q v0 v : ℕ) (s0 s : At2)
    → q ≢ 0
    → q % 8 ≡ 0
    → IsNew k q v0 s0
    → Reach int_shift q s0 v0 s v
    → s.caller ≡ awaiting
    → s.signalled ≡ false
    → (m : ℕ) × (m ≤ 2 ^ k + 5)
      × Returns (run_worker m s) λ s'. (s'.signalled ≡ true) × (s'.caller ≡ awaiting)
run_worker-Returns int_shift k q v0 v s0 s nz whole new reach waits none =
    let inv = Reach-IsAt2 int_shift k q nz whole s0 v0 new reach in
    let await = subst (CallerOk s) waits inv.calling in
    let alone : Alone k q v nz whole s.active s = record {
      inv = inv;
      mine = await.pending ∙ ap not none;
      theirs = await.done;
    } in
    let (m, le, (s', run, (sig, here))) = ends k q v nz whole s.active s alone in
    (m, le, (s', run, (sig, here ∙ waits)))

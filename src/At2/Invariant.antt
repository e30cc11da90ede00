-- ===== src/At2/Invariant.antt =====
-- What holds of the flags and of both tables between any two steps.
use softwrap.AliasHash.{AliasHash}
use softwrap.At2.Tables.{IsWords, IsEmpty, Lacks-empty, Known, Turn}
use softwrap.At2.Known.{Known-Turn_active, Known-Turn_other}
use softwrap.At2.{
  Which, at_a, at_b, other, set, Worker, waiting, testing, restoring, restored, Caller, running,
  closing, clearing, draining, awaiting, At2,
}
use softwrap.Lfht.Probe.{Placed, keys}
use softwrap.Lfht.{Lfht}
use softwrap.Prelude.{ℕ, ◌%◌, ◌<◌, ◌≡◌, ◌≢◌, ◌⊎◌, inl, inr, refl, ap, ◌∙◌, true, false, not}
use softwrap.Scm.{Scm}

pub same_or_other : (x y : Which) → (x ≡ y) ⊎ (x ≡ other y)
same_or_other at_a at_a = inl refl
same_or_other at_a at_b = inr refl
same_or_other at_b at_a = inr refl
same_or_other at_b at_b = inl refl

pub set_self {ℓ} : {A : Type ℓ} (f : Which → A) (x : Which) (v : A) → set f x v x ≡ v
set_self f at_a v = refl
set_self f at_b v = refl

pub set-other {ℓ} :
    {A : Type ℓ} (f : Which → A) (x : Which) (v : A) → set f x v (other x) ≡ f (other x)
set-other f at_a v = refl
set-other f at_b v = refl

pub set_beside {ℓ} : {A : Type ℓ} (f : Which → A) (x : Which) (v : A) → set f (other x) v x ≡ f x
set_beside f at_a v = refl
set_beside f at_b v = refl

pub set_all {ℓ κ} :
    {A : Type ℓ} (P : A → Type κ) (f : Which → A) (x : Which) (v : A)
    → P v
    → ((y : Which) → P (f y))
    → (y : Which) → P (set f x v y)
set_all P f at_a v h all at_a = h
set_all P f at_a v h all at_b = all at_b
set_all P f at_b v h all at_a = all at_a
set_all P f at_b v h all at_b = h

abbrev pub table : At2 → Which → Lfht
table s x = (s.tables x).table

-- A table that is restored has its flag set, and the entries behind the loop are free.
abbrev pub WorkerOk : At2 → Worker → Type 0
WorkerOk s waiting = Unit
WorkerOk s (testing x) = Unit
WorkerOk s (restoring x i) =
    (s.retire x ≡ true) × ((j : ℕ) → j < i → j < (table s x).array_size → keys (table s x) j ≡ 0)
WorkerOk s (restored x) = (s.retire x ≡ true) × IsEmpty (table s x)

-- At the wait for both tables the other one is done, and the active one is done once the signal came.
pub record AwaitOk (s : At2) : Type 0 where
  pub done : s.retire (other s.active) ≡ false
  pub pending : s.retire s.active ≡ not s.signalled
  pub empty : s.signalled ≡ true → IsEmpty (table s s.active)

-- The active table is not restored while the program stores in it.
abbrev pub CallerOk : At2 → Caller → Type 0
CallerOk s running = s.retire s.active ≡ false
CallerOk s closing = s.retire s.active ≡ false
CallerOk s clearing = (s.retire s.active ≡ false) × IsEmpty (table s s.active)
CallerOk s draining = s.retire s.active ≡ false
CallerOk s awaiting = AwaitOk s

pub CallerOk-awaiting :
    (s : At2) (c : Caller) → CallerOk s c → s.retire s.active ≡ true → (c ≡ awaiting) × AwaitOk s
CallerOk-awaiting s running ok r = cc (ok, r)
CallerOk-awaiting s closing ok r = cc (ok, r)
CallerOk-awaiting s clearing ok r = cc (ok.0, r)
CallerOk-awaiting s draining ok r = cc (ok, r)
CallerOk-awaiting s awaiting ok r = (refl, ok)

-- With another state of the table that is not active, and its flag as it was or reset.
pub CallerOk-kept :
    (s s' : At2) (c : Caller)
    → s'.active ≡ s.active
    → s'.retire s.active ≡ s.retire s.active
    → table s' s.active ≡ table s s.active
    → s.retire (other s.active) ≡ true
    → CallerOk s c
    → CallerOk s' c
CallerOk-kept s s' running a r t busy ok = rw a (r ∙ ok)
CallerOk-kept s s' closing a r t busy ok = rw a (r ∙ ok)
CallerOk-kept s s' clearing a r t busy ok = (rw a (r ∙ ok.0), rw (a, t) ok.1)
CallerOk-kept s s' draining a r t busy ok = rw a (r ∙ ok)
CallerOk-kept s s' awaiting a r t busy ok = cc (ok.done, busy)

-- The invariant: `v` is the last value stored under `q`.
pub record IsAt2 (k q v : ℕ) (s : At2) : Type 0 where
  pub words : (x : Which) → IsWords k (table s x)
  pub idle : s.retire (other s.active) ≡ false → IsEmpty (table s (other s.active))
  pub placed : s.retire s.active ≡ false → Placed (table s s.active) (keys (table s s.active))
  pub working : WorkerOk s s.worker
  pub calling : CallerOk s s.caller
  pub known : Known (table s s.active) (table s (other s.active)) s.scm.mem q v

module _ (k q v : ℕ) (nz : q ≢ 0) (whole : q % 8 ≡ 0) (s : At2) (inv : IsAt2 k q v s) where
  abbrev pub with_table : Which → AliasHash → Scm → Worker → At2
  with_table x h st w = record s { tables = set s.tables x h; scm = st; worker = w }

  -- The retiring thread changes the table that is active, or the other one.
  replace_active :
      (h : AliasHash) (st : Scm) (w : Worker)
      → s.retire s.active ≡ true
      → Turn k q nz whole (table s s.active) s.scm.mem h.table st.mem
      → WorkerOk (with_table s.active h st w) w
      → IsAt2 k q v (with_table s.active h st w)
  replace_active h st w busy turn works =
      let (here, await) = CallerOk-awaiting s s.caller inv.calling busy in
      let mine = set_self s.tables s.active h in
      let theirs = set-other s.tables s.active h in
      let none = Lacks-empty k q nz whole (table s (other s.active)) (inv.idle await.done) in
      record {
        words =
            set_all (λ (g : AliasHash). IsWords k g.table) s.tables s.active h turn.words inv.words;
        idle = λ done. rw (table, theirs) (inv.idle done);
        placed = λ r. cc (r, busy);
        working = works;
        calling = rw here (record {
          done = await.done;
          pending = await.pending;
          empty = λ sig. cc (await.pending, busy, sig);
        });
        known =
            rw (table, mine, theirs)
              (Known-Turn_active k q nz whole (table s s.active) h.table (table s (other s.active))
                s.scm.mem st.mem v turn none inv.known);
      }

  replace_other :
      (h : AliasHash) (st : Scm) (w : Worker)
      → s.retire (other s.active) ≡ true
      → Turn k q nz whole (table s (other s.active)) s.scm.mem h.table st.mem
      → WorkerOk (with_table (other s.active) h st w) w
      → IsAt2 k q v (with_table (other s.active) h st w)
  replace_other h st w busy turn works =
      let mine = set_self s.tables (other s.active) h in
      let theirs = set_beside s.tables s.active h in
      record {
        words =
            set_all (λ (g : AliasHash). IsWords k g.table) s.tables (other s.active) h turn.words
              inv.words;
        idle = λ done. cc (done, busy);
        placed = λ r. rw (table, theirs) (inv.placed r);
        working = works;
        calling =
            CallerOk-kept s (with_table (other s.active) h st w) s.caller refl refl
              (ap (λ (g : AliasHash). g.table) theirs) busy inv.calling;
        known =
            rw (table, mine, theirs)
              (Known-Turn_other k q nz whole (table s s.active) (table s (other s.active)) h.table
                s.scm.mem st.mem v turn inv.known);
      }

  pub replace_lem :
      (x : Which) (h : AliasHash) (st : Scm) (w : Worker)
      → s.retire x ≡ true
      → Turn k q nz whole (table s x) s.scm.mem h.table st.mem
      → WorkerOk (with_table x h st w) w
      → IsAt2 k q v (with_table x h st w)
  replace_lem x h st w busy turn works = elim (same_or_other x s.active) [
    | inl e ↦ rw e (replace_active h st w (rw e at busy) (rw e at turn) (rw e at works))
    | inr e ↦ rw e (replace_other h st w (rw e at busy) (rw e at turn) (rw e at works))
  ]

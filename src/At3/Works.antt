-- ===== src/At3/Works.antt =====
-- The stores, the steps of the retiring thread and `restoreAllElements` keep the counts and the
-- states.
use softwrap.AliasHash.{AliasHash, store}
use softwrap.At2.Invariant.{set_self, set-other}
use softwrap.At2.{Which, other, set}
use softwrap.At3.Opens.{both}
use softwrap.At3.Steps.{System, StateOk, WorkerOk, IsAt3}
use softwrap.At3.{
  AliasState, active, wait_writers, retire, wait_readers, empty, At3, Worker, testing, asleep,
  restoring, clearing, cleared, crossed_threshold, at3_store,
}
use softwrap.Lfht.{Lfht, mask, set_item, set_loop}
use mathlib.Core.Path.{subst}
use softwrap.Prelude.{
  ℕ, zero, suc, ◌+◌, ◌/◌, ◌≤◌, ◌≡◌, ◌⊎◌, inl, inr, refl, sym, ap, arith, Bool, true, ltb, ok,
  bind-ok, ok_injective,
}
use softwrap.Scm.{Scm}

-- A store leaves the size of a table, and never lowers the number of its items.
set_loop_grows :
    (fuel l : ℕ) (t : Lfht) (key value size idx i : ℕ) (t' : Lfht)
    → set_loop fuel l t key value size idx ≡ ok (i, t')
    → (t'.array_size ≡ t.array_size) × (t.num_items ≤ t'.num_items)
unfolding set_loop
set_loop_grows zero l t key value size idx i t' run = cc run
set_loop_grows (suc fuel) l t key value size idx i t' run =
    ground (arith, set_loop_grows fuel (l + 1) t key value size (mask t idx + 1) i t')

WorkerOk-tables :
    (m : At3) (tables : Which → AliasHash) (w : Worker)
    → WorkerOk m w
    → WorkerOk (record m { tables = tables }) w
WorkerOk-tables m tables testing h = h
WorkerOk-tables m tables asleep h = h
WorkerOk-tables m tables (restoring x i) h = h
WorkerOk-tables m tables (clearing x) h = h
WorkerOk-tables m tables (cleared x) h = h

-- The tables change, in none that waits for writers so that it is not full any more.
module _ (n : ℕ) (s : System) (inv : IsAt3 n s) where
  StateOk-full :
      (a : AliasState) (writers : ℕ) (full full' : Bool)
      → (a ≡ wait_writers → full ≡ true → full' ≡ true)
      → StateOk a writers full
      → StateOk a writers full'
  StateOk-full active writers full full' keep h = h
  StateOk-full wait_writers writers full full' keep h = (h.0, keep refl h.1)
  StateOk-full retire writers full full' keep h = h
  StateOk-full wait_readers writers full full' keep h = h
  StateOk-full empty writers full full' keep h = h

  tables_lem :
      (tables : Which → AliasHash) (st : Scm) (w : Worker)
      → ((x : Which)
          → s.at.state x ≡ wait_writers
          → crossed_threshold x s.at ≡ true
          → crossed_threshold x (record s.at { tables = tables }) ≡ true)
      → WorkerOk s.at w
      → IsAt3 n (record s { at = record s.at { tables = tables }; scm = st; worker = w })
  tables_lem tables st w keep ok' = record {
    writers = inv.writers;
    readers = inv.readers;
    states = λ x. StateOk-full (s.at.state x) (s.at.num x) _ _ (keep x) (inv.states x);
    stands = WorkerOk-tables s.at tables w ok';
  }

  -- One table changes, and is full if it waits for writers and was full.
  table_lem :
      (x : Which) (h : AliasHash) (st : Scm) (w : Worker)
      → (s.at.state x ≡ wait_writers
          → crossed_threshold x s.at ≡ true
          → ltb (h.table.array_size / s.at.thresh) h.table.num_items ≡ true)
      → WorkerOk s.at w
      → IsAt3 n
          (record s { at = record s.at { tables = set s.at.tables x h }; scm = st; worker = w })
  table_lem x h st w keep = tables_lem (set s.at.tables x h) st w (
      both
        (λ y.
          s.at.state y ≡ wait_writers
          → crossed_threshold y s.at ≡ true
          → crossed_threshold y (record s.at { tables = set s.at.tables x h }) ≡ true)
        x (λ a b. rw (set_self s.at.tables x h) (keep a b))
        (λ a b. rw (set-other s.at.tables x h) b))

  pub at3_store_lem :
      (int_shift : ℕ → ℕ) (ptr value size : ℕ) (x : Which) (m : At3)
      → at3_store int_shift ptr value size x s.at ≡ ok m
      → IsAt3 n (record s { at = m })
  unfolding at3_store store set_item
  at3_store_lem int_shift ptr value size x m run =
      let (h, stored, last) = bind-ok (store int_shift ptr value size (s.at.tables x)) _ m run in
      let ((i, t'), set', last') =
        bind-ok (set_item int_shift (s.at.tables x).table ptr value size) _ h stored in
      let grows = set_loop_grows (s.at.tables x).table.array_size 0 _ ptr value size _ i t' set' in
      let here : h.table ≡ t' = ap (λ (g : AliasHash). g.table) (sym (ok_injective last')) in
      subst (λ (m' : At3). IsAt3 n (record s { at = m' })) (ok_injective last)
        (table_lem x h s.scm s.worker (λ a b. rw here (ground (arith, grows, b))) inv.stands)

  -- A table that is being restored or cleared is not one that waits for writers.
  pub retiring_lem :
      (x : Which) (h : AliasHash) (st : Scm) (w : Worker)
      → (s.at.state x ≡ retire) ⊎ (s.at.state x ≡ wait_readers)
      → WorkerOk s.at w
      → IsAt3 n
          (record s { at = record s.at { tables = set s.at.tables x h }; scm = st; worker = w })
  retiring_lem x h st w (inl e) = table_lem x h st w (λ a b. cc (a, e))
  retiring_lem x h st w (inr e) = table_lem x h st w (λ a b. cc (a, e))

  -- A table that no wrap is open on gets another such state.
  pub state_lem :
      (x : Which) (a : AliasState) (w : Worker)
      → s.at.num x ≡ 0
      → (a ≡ wait_readers) ⊎ (a ≡ empty)
      → WorkerOk (record s.at { state = set s.at.state x a }) w
      → IsAt3 n (record s { at = record s.at { state = set s.at.state x a }; worker = w })
  state_lem x a w nobody kind ok' = record {
    writers = inv.writers;
    readers = inv.readers;
    states =
        both (λ y. StateOk (set s.at.state x a y) (s.at.num y) (crossed_threshold y s.at)) x
          (rw (set_self s.at.state x a) (elim kind [ inl e ↦ rw e nobody | inr e ↦ rw e nobody ]))
          (rw (set-other s.at.state x a) (inv.states (other x)));
    stands = ok';
  }

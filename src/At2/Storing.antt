-- ===== src/At2/Storing.antt =====
-- A store of the program in the active table keeps the invariant.
use mathlib.Core.Path.{subst}
use softwrap.AliasHash.{AliasHash, store}
use softwrap.At2.Invariant.{same_or_other, set_self, set-other, set_all, table, CallerOk, IsAt2}
use softwrap.At2.Known.{stores, store-IsWords, store-Has_self, Known-store}
use softwrap.At2.Calls.{WorkerOk-kept, if_all, true_not_false}
use softwrap.At2.Tables.{IsWords, Known, Has}
use softwrap.At2.{Which, other, set, running, At2, at2_store}
use softwrap.Lfht.{Lfht, set_item}
use softwrap.Prelude.{
  ℕ, ◌%◌, ◌≡◌, ◌≢◌, inl, inr, sym, ap, ◌∙◌, false, arith, ◌==◌, if◌then◌else◌, ==→eq, bind-ok,
  ok_injective, ok,
}

-- A store of a word, in the active table.
module _ (int_shift : ℕ → ℕ) (k q v : ℕ) (nz : q ≢ 0) (s : At2) (inv : IsAt2 k q v s)
    (run : s.caller ≡ running) (ptr value : ℕ) (ne : ptr ≢ 0) (at : ptr % 8 ≡ 0) where
  stored_lem :
      (i : ℕ) (t' : Lfht)
      → set_item int_shift (table s s.active) ptr value 8 ≡ ok (i, t')
      → IsAt2 k q
          (if ptr == q then value else v)
          (record s { tables = set s.tables s.active (record (s.tables s.active) { table = t' }) })
  stored_lem i t' set' =
      let t = table s s.active in
      let h = record (s.tables s.active) { table = t' } in
      let s' = record s { tables = set s.tables s.active h } in
      let mine : s.retire s.active ≡ false = subst (CallerOk s) run inv.calling in
      let placed = inv.placed mine in
      let good = inv.words s.active in
      let here = set_self s.tables s.active h in
      let there = set-other s.tables s.active h in
      let known : Known t' (table s (other s.active)) s.scm.mem q (if ptr == q then value else v) =
        if_all (λ w. Known t' (table s (other s.active)) s.scm.mem q w) (ptr == q) value v
          (λ e. inl (
            subst (λ y. Has t' y value) (==→eq ptr q e)
              (store-Has_self int_shift k t t' ptr value i good placed ne at set')))
          (λ e.
            Known-store int_shift k t t' ptr value i good placed ne at set' q nz
              (λ z. ground (arith, z, e)) (table s (other s.active)) s.scm.mem v inv.known) in
      record {
        words =
            set_all (λ (g : AliasHash). IsWords k g.table) s.tables s.active h
              (store-IsWords int_shift k t t' ptr value i good placed ne at set') inv.words;
        idle = λ r. rw (table, there) (inv.idle r);
        placed = λ r.
            rw (table, here)
              (stores int_shift k t t' ptr value i good placed ne at set').table.placed;
        working =
            WorkerOk-kept s s' s.worker
              (λ x busy. elim (same_or_other x s.active) [
                | inl e ↦ absurd (true_not_false (sym busy ∙ ap s.retire e ∙ mine))
                | inr e ↦ (
                  busy,
                  ap (λ (y : Which). (set s.tables s.active h y).table) e
                      ∙ ap (λ (g : AliasHash). g.table) there
                      ∙ ap (table s) (sym e),
                )
              ])
              inv.working;
        calling = subst (CallerOk s') (sym run) mine;
        known = rw (table, here, there) known;
      }

  pub at2_store_lem :
      (s' : At2)
      → at2_store int_shift ptr value 8 s ≡ ok s'
      → IsAt2 k q (if ptr == q then value else v) s'
  unfolding at2_store store
  at2_store_lem s' e =
      let old = s.tables s.active in
      let put = store int_shift ptr value 8 old in
      let (h, stored, last) =
        bind-ok put (λ (g : AliasHash). ok (record s { tables = set s.tables s.active g })) s' e in
      let ((i, t'), set', last') =
        bind-ok (set_item int_shift old.table ptr value 8)
          (λ (r : ℕ × Lfht). ok (record old { table = r.1 })) h stored in
      subst (IsAt2 k q (if ptr == q then value else v))
        (ap (λ (g : AliasHash). record s { tables = set s.tables s.active g }) (ok_injective last')
          ∙ ok_injective last)
        (stored_lem i t' set')

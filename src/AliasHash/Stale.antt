-- ===== src/AliasHash/Stale.antt =====
-- Lookups that run while the loop of the restore is under way.
use softwrap.AliasHash.Restore.{IsShort, restore_taken, free_entry, free_entry-Freed}
use softwrap.AliasHash.{restore_entry}
use softwrap.Lfht.Probe.{IsTable, keys, home, answer, get_loop-scan}
use softwrap.Lfht.Scan.{free, scan}
use softwrap.Lfht.{Lfht, get_item, integer_hash}
use native.Mathlib.Nat.{one-le-pow}
use softwrap.Prelude.{
  ℕ, suc, ◌+◌, ◌-◌, ◌<◌, ◌≤◌, ◌≡◌, ◌≢◌, ◌⊎◌, sym, ap, ◌∙◌, arith, ne→==_false, ok, Returns,
}
use softwrap.Scm.Bytes.{write_bytes_outside, le, length-le}
use softwrap.Scm.{Scm}

-- A key `q` that collided, so that its home holds another key, is not found any more as soon as the
-- restore has put that other one home: a lookup then gives the value 0 of size 0, for a key whose own
-- entry has not been restored, and memory at `a`, which the entry does not cover, is as it was.
get_item-restore_entry :
    (k : ℕ) (t : Lfht) (st : Scm) (q a : ℕ)
    → IsTable k t
    → q ≢ 0
    → keys t (home t q) ≢ 0
    → keys t (home t q) ≢ q
    → IsShort (t.entries (home t q))
    → (a < keys t (home t q)) ⊎ (keys t (home t q) + (t.entries (home t q)).size ≤ a)
    → Returns
        (restore_entry (home t q) (t, st))
        λ r. (get_item r.0 q ≡ ok (0, 0)) × (r.1.mem a ≡ st.mem a)
unfolding get_item scan
get_item-restore_entry k t st q a table nz taken other short apart =
    let i = home t q in
    let e = t.entries i in
    let (st', run, mem) = restore_taken t st i short taken in
    let t' = free_entry t i in
    let pos : 0 < t.array_size = rw table.width (one-le-pow k 2 (omega arith)) in
    let n : t.array_size ≡ suc (t.array_size - 1) = omega arith in
    let freed : keys t' i ≡ 0 = (free_entry-Freed t i).there in
    let ends : scan (suc (t.array_size - 1)) (keys t') t.array_size q i ≡ free i =
      rw (freed, ne→==_false 0 q (λ z. nz (sym z))) in
    let all = ap (λ (f : ℕ). scan f (keys t') t.array_size q i) n ∙ ends in
    (
      (t', st'),
      run,
      (
        get_loop-scan k t' table.width t.array_size q (integer_hash q) ∙ ap (answer t') all,
        rw mem (
            write_bytes_outside e.key (le e.size e.value) st.mem a
              (omega (arith, length-le e.size e.value, apart))),
      ),
    )

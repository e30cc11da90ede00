-- ===== src/Tests/Threads.antt =====
-- Runs of both threads of the alternating tables, with tables of four entries.
use softwrap.AliasHash.{restore_entry, store}
use softwrap.At2.Drain.{
  work, go_on, drain, close, put, Reach, start, later, IsNew, caller_step-Holds,
  worker_step-Returns, clearing-IsEmpty,
}
use softwrap.At2.Ends.{run_worker, run_worker-Returns}
use softwrap.At2.Invariant.{table}
use softwrap.At2.Tables.{IsEmpty, IsWords}
use softwrap.At2.{
  set, At2, at_a, at_b, waiting, running, clearing, awaiting, worker_step, restore_turn,
  caller_step, on_wrap_close, restore_all_elements, at2_store,
}
use softwrap.Bloom.{set_bloom}
use softwrap.Lfht.{store_at, integer_hash, set_item, set_loop}
use softwrap.Prelude.{
  ◌+◌, ◌≤◌, ◌^◌, ℕ, ◌≡◌, ◌⊎◌, inl, refl, true, false, arith, Run, ok, abort, no_fuel, Returns,
}
use softwrap.Scm.Bytes.{Holds, le}
use softwrap.Tests.Alternating.{fresh}
use softwrap.Tests.Data.{no_bits, scm, x86_shift}

abbrev value_of : Run At2 → At2 → At2
value_of (ok s) s' = s
value_of abort s' = s'
value_of no_fuel s' = s'

abbrev s0 : At2
s0 = record {
  tables = λ x. fresh;
  retire = λ x. false;
  active = at_a;
  thresh = 8;
  signalled = false;
  scm = scm;
  worker = waiting;
  caller = running;
}

fresh-IsWords : IsWords 2 fresh.table
fresh-IsWords = record {
  width = refl;
  words = λ i lt. ((omega arith, omega arith), inl refl);
  unique = λ i j li lj nz e. absurd (nz refl);
}

-- The bytes 8 to 15 of the memory at the start, as a number.
s0-IsNew : IsNew 2 8 0x0f0e0d0c0b0a0908 s0
unfolding le
s0-IsNew = record {
  words = λ x. fresh-IsWords;
  empty = λ x i lt. refl;
  unset = λ x. refl;
  waits = refl;
  outside = refl;
  home = (refl, (refl, (refl, (refl, (refl, (refl, (refl, (refl, tt))))))));
}

abbrev s1 : At2
s1 = record s0 {
  tables = set s0.tables at_a (record fresh {
    table =
        store_at (record fresh.table { num_items = 1; bloom = set_bloom x86_shift no_bits 8 }) 0 8
          17 8;
  });
}

run1 : at2_store x86_shift 8 17 8 s0 ≡ ok s1
unfolding at2_store store set_item set_loop integer_hash
run1 = refl

abbrev at_start : ℕ
at_start = 0x0f0e0d0c0b0a0908

abbrev Reached : At2 → Type 0
Reached s = Reach x86_shift 8 s0 at_start s 17

reach1 : Reached s1
reach1 = later s0 s1 at_start 17 start (put s0 s1 at_start 8 17 refl (omega arith) refl run1)

-- A step of the retiring thread, and `n` of them.
abbrev worked : At2 → At2
worked s = value_of (worker_step s.worker s) s

work_on : (s : At2) → Reached s → worker_step s.worker s ≡ ok (worked s) → Reached (worked s)
work_on s r run = later s (worked s) 17 17 r (work s (worked s) 17 run)

go : (s : At2) → Reached s → Reached (caller_step s.caller s)
go s r = later s (caller_step s.caller s) 17 17 r (go_on s 17)

-- The close of a wrap finds the table too full, and the tables change their roles.
abbrev swapped : At2
swapped = record s1 { retire = set s1.retire at_a true; active = at_b; caller = clearing }

reach_swapped : Reached swapped
unfolding on_wrap_close caller_step
reach_swapped = go (on_wrap_close s1) (later s1 (on_wrap_close s1) 17 17 reach1 (close s1 17 refl))

clearing-IsEmpty_example : IsEmpty (table swapped at_b)
clearing-IsEmpty_example =
    clearing-IsEmpty x86_shift 2 8 (omega arith) refl s0 at_start s0-IsNew swapped 17 reach_swapped
      refl

-- The restore of both tables is called.
abbrev called : At2
called = record s1 { retire = set s1.retire at_a true; caller = awaiting }

reach_called : Reached called
unfolding restore_all_elements caller_step
reach_called =
    go (restore_all_elements s1)
      (later s1 (restore_all_elements s1) 17 17 reach1 (drain s1 17 refl))

worker_step-Returns_example : Returns (worker_step called.worker called) λ s'.
    (called.retire at_a ≡ false)
    ⊎ ((called.retire at_b ≡ false) × ((at_a ≡ at_b) ⊎ (called.caller ≡ awaiting)))
worker_step-Returns_example =
    worker_step-Returns x86_shift 2 8 (omega arith) refl s0 at_start s0-IsNew called 17 at_a
      reach_called

abbrev done : At2
unfolding worker_step restore_turn restore_entry
done = worked (worked (worked (worked (worked (worked (worked (worked called)))))))

reach_done : Reached done
unfolding worker_step restore_turn restore_entry
reach_done =
    work_on _
      (work_on _
        (work_on _
          (work_on _
            (work_on _ (work_on _ (work_on _ (work_on called reach_called refl) refl) refl) refl)
            refl)
          refl)
        refl)
      refl

caller_step-Holds_example :
    IsEmpty (table done at_a)
    × IsEmpty (table done at_b)
    × ((caller_step awaiting done).caller ≡ running)
    × Holds (caller_step awaiting done).scm.mem 8 (le 8 17)
unfolding worker_step restore_turn restore_entry
caller_step-Holds_example =
    caller_step-Holds x86_shift 2 8 (omega arith) refl s0 at_start s0-IsNew done 17 reach_done refl
      refl

run_worker-Returns_example :
    (m : ℕ) × (m ≤ 2 ^ 2 + 5)
    × Returns (run_worker m called) λ s'. (s'.signalled ≡ true) × (s'.caller ≡ awaiting)
run_worker-Returns_example =
    run_worker-Returns x86_shift 2 8 at_start 17 s0 called (omega arith) refl s0-IsNew reach_called
      refl refl

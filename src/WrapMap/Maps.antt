-- ===== src/WrapMap/Maps.antt =====
-- The map as a function of its keys: each call, and any calls from the constructor on.
use softwrap.Prelude.{
  ℕ, suc, ◌+◌, ◌*◌, ◌/◌, ◌%◌, ◌^◌, ◌<◌, ◌≤◌, ◌≡◌, ◌≢◌, inl, inr, refl, sym, ap, ◌∙◌, arith, List,
  [], ◌∷◌, length, ◌==◌, if◌then◌else◌, Bool-cases, Run, ok, ◌>>=◌, Returns,
}
use softwrap.WrapImpl.{WrapMemory}
use softwrap.WrapLogger.Entries.{All}
use softwrap.WrapMap.{WrapMap, table_size, missing, get, put, remove, new_map}
use softwrap.WrapMap.Chains.{look}
use softwrap.WrapImpl.Places.{Away, Apart, Apart-sym, Pairwise, All_map}
use softwrap.WrapMap.Laid.{Outside, IsMap, IsFresh, slot}
use softwrap.WrapMap.Runs.{IsEnough, IsAfter, get-look, put-look, remove-look}
use softwrap.WrapMap.Starts.{new_map-IsMap}

-- Where the chains say so, Get gives a new value for one key only.
get-look_new :
    (w : WrapMemory) (m : WrapMap) (table : ℕ) (chains chains' : ℕ → List ℕ)
    (s s' : WrapMemory.State w) (fuel fuel' key v : ℕ)
    → IsMap w m table chains s
    → IsMap w m table chains' s'
    → IsEnough fuel chains
    → IsEnough fuel' chains'
    → ((k : ℕ)
        → look w s' k (chains' (k % table_size))
          ≡ (if key == k then v else look w s k (chains (k % table_size))))
    → (k : ℕ) → k < 2 ^ 31
    → get w fuel' k m s' ≡ (if key == k then ok v else get w fuel k m s)
get-look_new w m table chains chains' s s' fuel fuel' key v inv inv' enough enough' h k int =
    get-look w m table chains' s' inv' fuel' enough' k int
    ∙ ap ok (h k)
    ∙ elim (Bool-cases (key == k)) [
      | inl e ↦ rw e refl
      | inr e ↦ rw e (sym (get-look w m table chains s inv fuel enough k int))
    ]

module _ (w : WrapMemory) (m : WrapMap) (table : ℕ) (chains : ℕ → List ℕ) (s : WrapMemory.State w)
    (inv : IsMap w m table chains s) (fuel : ℕ) (enough : IsEnough fuel chains) (key k : ℕ)
    (int : key < 2 ^ 31) (int' : k < 2 ^ 31) where
  -- Put ends for any new node, value of four bytes and key that is not negative as an int, and
  -- leaves a map, whose chains have at most one more node. Get of any such key then ends: of the
  -- key with the value, and of another one with what it gave before.
  pub put-get :
      (v fresh : ℕ)
      → IsFresh m.table_var table chains fresh
      → v < 256 ^ 4
      → Returns (put w fuel fresh key v m s) λ s'.
        (chains' : ℕ → List ℕ) × IsMap w m table chains' s'
        × IsEnough (suc fuel) chains'
        × (get w (suc fuel) k m s' ≡ (if key == k then ok v else get w fuel k m s))
  put-get v fresh free small =
      let (s', run, (chains', after, _)) =
        put-look w m table chains s inv fuel fuel enough (omega arith) key int v fresh free small in
      (
        s',
        run,
        (
          chains',
          after.map,
          after.few,
          get-look_new w m table chains chains' s s' fuel (suc fuel) key v inv after.map enough
              after.few after.looks k int',
        ),
      )

  -- Remove of a key that is not negative as an int ends, and leaves a map, whose chains have no
  -- more nodes. Get of any such key then ends: of the key with -1, and of another one with what it
  -- gave before.
  pub remove-get : Returns (remove w fuel key m s) λ s'.
      (chains' : ℕ → List ℕ) × IsMap w m table chains' s'
      × IsEnough fuel chains'
      × (get w fuel k m s' ≡ (if key == k then ok missing else get w fuel k m s))
  remove-get =
      let (s', run, (chains', after, _)) =
        remove-look w m table chains s inv fuel fuel enough (omega arith) key int in
      (
        s',
        run,
        (
          chains',
          after.map,
          after.few,
          get-look_new w m table chains chains' s s' fuel fuel key missing inv after.map enough
              after.few after.looks k int',
        ),
      )

-- A call, with the node that pmalloc returns if Put calls it.
pub data MapOp : Type 0 where
  put_op : ℕ → ℕ → ℕ → MapOp
  remove_op : ℕ → MapOp

unfoldable pub run_ops :
    (w : WrapMemory) → ℕ → List MapOp → WrapMap → WrapMemory.State w → Run (WrapMemory.State w)
run_ops w fuel [] m s = ok s
run_ops w fuel (put_op key v fresh ∷ ops) m s =
    put w fuel fresh key v m s >>= λ (s' : WrapMemory.State w). run_ops w fuel ops m s'
run_ops w fuel (remove_op key ∷ ops) m s =
    remove w fuel key m s >>= λ (s' : WrapMemory.State w). run_ops w fuel ops m s'

-- The same calls on a function, where -1 is that of an absent key.
abbrev pub spec : List MapOp → (ℕ → ℕ) → ℕ → ℕ
spec [] f = f
spec (put_op key v fresh ∷ ops) f = spec ops (λ k. if key == k then v else f k)
spec (remove_op key ∷ ops) f = spec ops (λ k. if key == k then missing else f k)

abbrev pub nodes : List MapOp → List ℕ
nodes [] = []
nodes (put_op key v fresh ∷ ops) = fresh ∷ nodes ops
nodes (remove_op key ∷ ops) = nodes ops

-- Keys that are not negative as ints, and values of four bytes.
abbrev pub AreSmall : List MapOp → Type 0
AreSmall [] = Unit
AreSmall (put_op key v fresh ∷ ops) = (key < 2 ^ 31) × (v < 256 ^ 4) × AreSmall ops
AreSmall (remove_op key ∷ ops) = (key < 2 ^ 31) × AreSmall ops

IsAfter-as :
    {w : WrapMemory} {m : WrapMap} {table most : ℕ} {chains : ℕ → List ℕ} {s : WrapMemory.State w}
    {f : ℕ → ℕ} (more : ℕ) (g : ℕ → ℕ)
    → IsAfter w m table most chains s f
    → most ≤ more
    → ((k : ℕ) → f k ≡ g k)
    → IsAfter w m table more chains s g
IsAfter-as more g after le h = record {
  map = after.map;
  few = λ i lt. omega (arith, after.few i lt, le);
  looks = λ k. after.looks k ∙ h k;
}

module _ (w : WrapMemory) (m : WrapMap) (table fuel : ℕ) where
  open w use {State}

  run_ops_lem :
      (ops : List MapOp) (chains : ℕ → List ℕ) (s : State) (f : ℕ → ℕ) (most : ℕ)
      → IsAfter w m table most chains s f
      → most + length ops ≤ fuel
      → AreSmall ops
      → All (λ n. (n ≢ 0) × Outside m.table_var table n) (nodes ops)
      → Pairwise (nodes ops)
      → ((i : ℕ) → i < table_size → All (λ x. All (Apart x) (nodes ops)) (chains i))
      → Returns (run_ops w fuel ops m s) λ s'.
        (chains' : ℕ → List ℕ) × IsAfter w m table (most + length ops) chains' s' (spec ops f)
  unfolding run_ops
  run_ops_lem [] chains s f most after fits small off pairs apart =
      (s, refl, (chains, IsAfter-as (most + 0) f after (omega arith) (λ k. refl)))
  run_ops_lem (put_op key v n ∷ ops) chains s f most after fits (small_key, small_v, small)
        ((nz, out), off) (pair, pairs) apart =
      let fresh : IsFresh m.table_var table chains n = record {
        not_null = nz;
        outside = out;
        apart = λ i lt. All_map (chains i) (λ x h. Apart-sym x n h.0) (apart i lt);
      } in
      let (s', run, (chains', after', kept)) =
        put-look w m table chains s after.map fuel most after.few (omega (arith, fits)) key
          small_key v n fresh small_v in
      let (s'', runs, (chains'', end)) =
        run_ops_lem ops chains' s' (λ k. if key == k then v else f k) (suc most)
          (IsAfter-as (suc most) (λ k. if key == k then v else f k) after' (omega arith)
            (λ k. rw (after.looks k) refl))
          (omega (arith, fits)) small off pairs
          (kept (λ x. All (Apart x) (nodes ops)) (λ x e. rw e pair)
            (λ i lt. All_map (chains i) (λ x h. h.1) (apart i lt))) in
      (
        s'',
        rw run runs,
        (
          chains'',
          IsAfter-as (most + suc (length ops)) (spec (put_op key v n ∷ ops) f) end (omega arith)
              (λ k. refl),
        ),
      )
  run_ops_lem (remove_op key ∷ ops) chains s f most after fits (small_key, small) off pairs apart =
      let (s', run, (chains', after', kept)) =
        remove-look w m table chains s after.map fuel most after.few (omega (arith, fits)) key
          small_key in
      let (s'', runs, (chains'', end)) =
        run_ops_lem ops chains' s' (λ k. if key == k then missing else f k) most
          (IsAfter-as most (λ k. if key == k then missing else f k) after' (omega arith)
            (λ k. rw (after.looks k) refl))
          (omega (arith, fits)) small off pairs
          (kept (λ x. All (Apart x) (nodes ops)) (λ x e. absurd e) apart) in
      (
        s'',
        rw run runs,
        (
          chains'',
          IsAfter-as (most + suc (length ops)) (spec (remove_op key ∷ ops) f) end (omega arith)
              (λ k. refl),
        ),
      )

  -- Any calls of Put and Remove on a map that the constructor made with a size of 4096 or more end,
  -- where the slots that its loop does not clear are clear already, keys are not negative as ints,
  -- values have four bytes, and pmalloc gives each Put a node that is not null and apart from the
  -- map and from all others. Get of any key that is not negative then ends, with the value that the
  -- same calls leave in a function that is -1 at first. More turns than calls are enough for every
  -- loop.
  pub run_ops-get :
      (size k : ℕ) (s : State) (ops : List MapOp)
      → k < 2 ^ 31
      → table_size ≤ size
      → size < 2 ^ 31
      → table < 256 ^ 8
      → Away m.table_var 8 table (8 * size)
      → Away m.size_var 4 m.table_var 8
      → Away m.size_var 4 table (8 * size)
      → ((j : ℕ) → size / 8 ≤ j → j < size → w.read (slot table j) 8 s ≡ 0)
      → length ops < fuel
      → AreSmall ops
      → All (λ n. (n ≢ 0) × Outside m.table_var table n) (nodes ops)
      → Pairwise (nodes ops)
      → Returns
          (run_ops w fuel ops m (new_map w table size m s))
          λ s'. get w fuel k m s' ≡ ok (spec ops (λ x. missing) k)
  run_ops-get size k s ops int large fits_int small off_table off_var off_size clear fits bounded
        off pairs =
      let start : IsAfter w m table 1 (λ i. []) (new_map w table size m s) (λ x. missing) = record {
        map = new_map-IsMap w m table size off_table s large small off_var off_size clear;
        few = λ i lt. omega arith;
        looks = λ k. refl;
      } in
      let (s', run, (chains, after)) =
        run_ops_lem ops (λ i. []) (new_map w table size m s) (λ x. missing) 1 start
          (omega (arith, fits)) bounded off pairs (λ i lt. tt) in
      (
        s',
        run,
        get-look w m table chains s' after.map fuel (λ i lt. omega (arith, after.few i lt, fits)) k
              int
            ∙ ap ok (after.looks k),
      )

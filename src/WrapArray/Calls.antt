-- ===== src/WrapArray/Calls.antt =====
-- Any calls on an array, and the same on a function of its indices.
use softwrap.Prelude.{
  ℕ, ◌+◌, ◌*◌, ◌^◌, ◌<◌, ◌≤◌, ◌≡◌, ◌⊎◌, inl, inr, refl, sym, ap, ◌∙◌, arith, List, [], ◌∷◌, ◌==◌,
  leb, if◌then◌else◌, Bool-cases,
}
use mathlib.Core.Path.{subst}
use softwrap.WrapImpl.{WrapMemory}
use softwrap.WrapLogger.Entries.{All}
use softwrap.WrapImpl.Places.{Away}
use softwrap.WrapArray.{WrapArray, size_incr, item, new_array, grow, at_index, add, get, set}
use softwrap.WrapArray.Changes.{
  next_after, new_array-IsArray, grow-IsArray, write-IsArray, next-IsArray, append-IsArray,
}
use softwrap.WrapArray.Items.{IsLaid, IsChunk, IsArray, resize-IsArray}
use softwrap.WrapVar.Operators.{with_value}

module _ (w : WrapMemory) (width most : ℕ) (m : WrapArray) (laid : IsLaid m)
    (bounds : (most < 2 ^ 31) × (most * width < 2 ^ 31)) where
  open w use {State, read, write}

  next_lem :
      (arr len nx : ℕ) (env : ℕ → ℕ) (s : State) (index : ℕ)
      → IsArray w width most m arr len nx env s
      → index < len
      → IsArray w width most m arr len
          (next_after nx index)
          env
          (if leb (read m.next_var 4 s) index then write m.next_var 4 (index + 1) s else s)
  next_lem arr len nx env s index inv lt = elim (Bool-cases (leb nx index)) [
    | inl e ↦
        let behind : nx ≤ index = ground (arith, e) in
        rw (inv.next, e)
          (next-IsArray w width most m laid bounds arr len nx env s inv (index + 1) (omega arith)
            (omega arith))
    | inr e ↦ rw (inv.next, e) inv
  ]

  module _ (arr len nx : ℕ) (env : ℕ → ℕ) (s : State)
      (inv : IsArray w width most m arr len nx env s) (fresh : ℕ)
      (new : IsChunk m (most * width) fresh)
      (apart : Away arr (most * width) fresh (most * width)) where
    -- After a call the array is at its old place or in the new chunk.
    abbrev pub Stays : ℕ → (ℕ → ℕ) → State → Type 0
    Stays nx' env' s' =
        (arr' : ℕ) × (len' : ℕ) × IsArray w width most m arr' len' nx' env' s'
        × ((arr' ≡ arr) ⊎ (arr' ≡ fresh))

    get_lem :
        (index : ℕ)
        → index + size_incr ≤ most
        → ((get w width fresh index m s).0 ≡ env index)
          × Stays nx env (get w width fresh index m s).1
    unfolding get
    get_lem index room =
        let (arr', len', after, lt, where') =
          grow-IsArray w width most m laid bounds arr len nx env s inv fresh index new apart room in
        (
          ap (λ (a : ℕ). read (item width a index) width (grow w width fresh index m s)) after.pa
              ∙ after.items index lt,
          (arr', len', after, where'),
        )

    set_lem :
        (index v : ℕ)
        → index + size_incr ≤ most
        → v < 256 ^ width
        → Stays (next_after nx index) (with_value env index v) (set w width fresh index v m s)
    unfolding set at_index
    set_lem index v room small =
        let (arr', len', after, lt, where') =
          grow-IsArray w width most m laid bounds arr len nx env s inv fresh index new apart room in
        let s1 = grow w width fresh index m s in
        let s2 =
          if leb (read m.next_var 4 s1) index then write m.next_var 4 (index + 1) s1 else s1 in
        let more = next_lem arr' len' nx env s1 index after lt in
        let used : index < next_after nx index = elim (Bool-cases (leb nx index)) [
          | inl e ↦ rw e (omega arith)
          | inr e ↦ rw e (ground (arith, e))
        ] in
        (
          arr',
          len',
          subst
              (λ a.
                IsArray w width most m arr' len' (next_after nx index) (with_value env index v)
                  (write (item width a index) width v s2))
              (sym more.pa)
              (write-IsArray w width most m laid bounds arr' len' (next_after nx index) env s2 more
                index v used small),
          where',
        )

    add_lem :
        (v : ℕ)
        → nx + size_incr ≤ most
        → v < 256 ^ width
        → Stays (nx + 1) (with_value env nx v) (add w width fresh v m s)
    unfolding add
    add_lem v room small = elim (Bool-cases (nx == len)) [
      | inl e ↦
          let after =
            resize-IsArray w width most m laid bounds arr len nx env s inv fresh nx new apart
              (omega arith) room in
          (
            fresh,
            nx + size_incr,
            rw (add, inv.next, inv.length, e, after.pa)
                (append-IsArray w width most m laid bounds fresh (nx + size_incr) nx env _ after v
                  (omega arith) small),
            inr refl,
          )
      | inr e ↦
          let inside : nx < len = ground (arith, e, inv.fits) in
          (
            arr,
            len,
            rw (add, inv.next, inv.length, e, inv.pa)
                (append-IsArray w width most m laid bounds arr len nx env s inv v inside small),
            inl refl,
          )
    ]

-- A call, with what pmalloc returns if the array grows.
pub data ArrayOp : Type 0 where
  get_op : ℕ → ℕ → ArrayOp
  set_op : ℕ → ℕ → ℕ → ArrayOp
  add_op : ℕ → ℕ → ArrayOp

-- What Get returned, in order, and the state behind the calls.
unfoldable pub run_ops :
    (w : WrapMemory)
    → ℕ
    → List ArrayOp
    → WrapArray
    → WrapMemory.State w
    → List ℕ × WrapMemory.State w
run_ops w width [] m s = ([], s)
run_ops w width (get_op index fresh ∷ ops) m s =
    let r = get w width fresh index m s in
    let rest = run_ops w width ops m r.1 in (r.0 ∷ rest.0, rest.1)
run_ops w width (set_op index v fresh ∷ ops) m s =
    run_ops w width ops m (set w width fresh index v m s)
run_ops w width (add_op v fresh ∷ ops) m s = run_ops w width ops m (add w width fresh v m s)

-- The same calls on a function and the number of elements in use.
abbrev pub spec : List ArrayOp → ℕ → (ℕ → ℕ) → List ℕ
spec [] nx env = []
spec (get_op index fresh ∷ ops) nx env = env index ∷ spec ops nx env
spec (set_op index v fresh ∷ ops) nx env = spec ops (next_after nx index) (with_value env index v)
spec (add_op v fresh ∷ ops) nx env = spec ops (nx + 1) (with_value env nx v)

abbrev pub chunks : List ArrayOp → List ℕ
chunks [] = []
chunks (get_op index fresh ∷ ops) = fresh ∷ chunks ops
chunks (set_op index v fresh ∷ ops) = fresh ∷ chunks ops
chunks (add_op v fresh ∷ ops) = fresh ∷ chunks ops

-- No array becomes longer than `most`, and the values fit in an element.
abbrev pub AreWithin : ℕ → ℕ → ℕ → List ArrayOp → Type 0
AreWithin width most nx [] = Unit
AreWithin width most nx (get_op index fresh ∷ ops) =
    (index + size_incr ≤ most) × AreWithin width most nx ops
AreWithin width most nx (set_op index v fresh ∷ ops) =
    (index + size_incr ≤ most) × (v < 256 ^ width) × AreWithin width most (next_after nx index) ops
AreWithin width most nx (add_op v fresh ∷ ops) =
    (nx + size_incr ≤ most) × (v < 256 ^ width) × AreWithin width most (nx + 1) ops

-- The chunks do not overlap.
abbrev pub Disjoint : ℕ → List ℕ → Type 0
Disjoint room [] = Unit
Disjoint room (c ∷ cs) = All (λ d. Away c room d room) cs × Disjoint room cs

module _ (w : WrapMemory) (width most : ℕ) (m : WrapArray) (laid : IsLaid m)
    (bounds : (most < 2 ^ 31) × (most * width < 2 ^ 31)) where
  open w use {State}

  moved :
      (arr arr' fresh : ℕ) (cs : List ℕ)
      → (arr' ≡ arr) ⊎ (arr' ≡ fresh)
      → All (λ d. Away arr (most * width) d (most * width)) cs
      → All (λ d. Away fresh (most * width) d (most * width)) cs
      → All (λ d. Away arr' (most * width) d (most * width)) cs
  moved arr arr' fresh cs (inl e) old new = rw e old
  moved arr arr' fresh cs (inr e) old new = rw e new

  run_ops_lem :
      (ops : List ArrayOp) (arr len nx : ℕ) (env : ℕ → ℕ) (s : State)
      → IsArray w width most m arr len nx env s
      → AreWithin width most nx ops
      → All (IsChunk m (most * width)) (chunks ops)
      → Disjoint (most * width) (arr ∷ chunks ops)
      → (run_ops w width ops m s).0 ≡ spec ops nx env
  unfolding run_ops
  run_ops_lem [] arr len nx env s inv within new apart = refl
  run_ops_lem (get_op index c ∷ ops) arr len nx env s inv (room, within) (chunk, new)
        ((here, away), (other, apart)) =
      let (value, (arr', len', after, where')) =
        get_lem w width most m laid bounds arr len nx env s inv c chunk here index room in
      ap (λ (v : ℕ). v ∷ (run_ops w width ops m (get w width c index m s).1).0) value
      ∙ ap (λ (vs : List ℕ). env index ∷ vs)
          (run_ops_lem ops arr' len' nx env _ after within new
            (moved arr arr' c (chunks ops) where' away other, apart))
  run_ops_lem (set_op index v c ∷ ops) arr len nx env s inv (room, small, within) (chunk, new)
        ((here, away), (other, apart)) =
      let (arr', len', after, where') =
        set_lem w width most m laid bounds arr len nx env s inv c chunk here index v room small in
      run_ops_lem ops arr' len' (next_after nx index) (with_value env index v) _ after within new
        (moved arr arr' c (chunks ops) where' away other, apart)
  run_ops_lem (add_op v c ∷ ops) arr len nx env s inv (room, small, within) (chunk, new)
        ((here, away), (other, apart)) =
      let (arr', len', after, where') =
        add_lem w width most m laid bounds arr len nx env s inv c chunk here v room small in
      run_ops_lem ops arr' len' (nx + 1) (with_value env nx v) _ after within new
        (moved arr arr' c (chunks ops) where' away other, apart)

  -- Any calls from the constructor on, with indices that are not negative and make no array longer
  -- than `most`, where `most` elements have less than 2^31 bytes, values that fit in an element,
  -- and chunks of pmalloc for `most` elements that overlap neither one another nor the variables:
  -- what the calls of Get return is what they return on a function that is 0 at first and changes
  -- under the index of each set, and under the number of elements in use for each add.
  pub run_ops-spec :
      (arr size : ℕ) (ops : List ArrayOp) (s : State)
      → size ≤ most
      → AreWithin width most 0 ops
      → All (IsChunk m (most * width)) (arr ∷ chunks ops)
      → Disjoint (most * width) (arr ∷ chunks ops)
      → (run_ops w width ops m (new_array w width arr size m s)).0 ≡ spec ops 0 (λ i. 0)
  run_ops-spec arr size ops s room within (chunk, new) apart =
      run_ops_lem ops arr size 0 (λ i. 0) _
        (new_array-IsArray w width most m laid bounds arr size s chunk room) within new apart

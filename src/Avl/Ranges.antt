-- ===== src/Avl/Ranges.antt =====
-- The base pointer of an address, where the objects do not overlap.
use native.Mathlib.Decide.{dec_lt}
use softwrap.Avl.Order.{Nodes, AllNodes, AllNodes-place, Ordered, place, in_order, in_order-insert}
use softwrap.Avl.{Tree, leaf, node, insert, find, put_base_ptr, get_base_ptr}
use softwrap.Prelude.{
  ℕ, ◌+◌, ◌<◌, ◌≤◌, ◌≡◌, ◌⊎◌, inl, inr, refl, sym, ap, ◌∙◌, [], ◌∷◌, ◌++◌, Option, none, some, Bool,
  true, false, arith, ltb, leb, ◌==◌, ◌&&◌, ◌||◌, if◌then◌else◌, Bool-cases, lt→ltb, le→ltb_false,
}

-- The test of `find` at a node.
abbrev pub covers : ℕ → ℕ → ℕ → Bool
covers a k n = a == k || (leb k a && ltb a (k + n))

-- The first node that covers the address.
unfoldable pub covering : Nodes → ℕ → Option (ℕ × ℕ)
covering [] a = none
covering ((k, n) ∷ ns) a = let rest = covering ns a in if covers a k n then some (k, n) else rest

-- Sorted nodes that do not overlap.
abbrev pub Apart : Nodes → Type 0
Apart [] = Unit
Apart ((k, n) ∷ ns) = AllNodes (λ j m. (k + n ≤ j) × (k < j)) ns × Apart ns

covers_inside : (a k n : ℕ) → k ≤ a → a < k + n → covers a k n ≡ true
covers_inside a k n lo hi = ground arith

covers_outside : (a k n : ℕ) → (a < k) ⊎ ((k < a) × (k + n ≤ a)) → covers a k n ≡ false
covers_outside a k n h = ground arith

covering_skip :
    (a : ℕ) (xs ys : Nodes)
    → AllNodes (λ j m. (j + m ≤ a) × (j < a)) xs
    → covering (xs ++ ys) a ≡ covering ys a
unfolding covering
covering_skip a [] ys h = refl
covering_skip a ((j, m) ∷ xs) ys h =
    rw (covers_outside a j m (inr (h.0.1, h.0.0))) (covering_skip a xs ys h.1)

covering_below : (a : ℕ) (ys : Nodes) → AllNodes (λ j m. a < j) ys → covering ys a ≡ none
unfolding covering
covering_below a [] h = refl
covering_below a ((j, m) ∷ ys) h = rw (covers_outside a j m (inl h.0)) (covering_below a ys h.1)

covering-append :
    (a : ℕ) (xs ys : Nodes) → covering ys a ≡ none → covering (xs ++ ys) a ≡ covering xs a
unfolding covering
covering-append a [] ys h = h
covering-append a ((j, m) ∷ xs) ys h =
    let rest = covering-append a xs ys h in
    ap (λ (r : Option (ℕ × ℕ)). if covers a j m then some (j, m) else r) rest

AllNodes-map :
    (P Q : ℕ → ℕ → Type 0) (ns : Nodes)
    → ((j m : ℕ) → P j m → Q j m)
    → AllNodes P ns
    → AllNodes Q ns
AllNodes-map P Q [] f h = tt
AllNodes-map P Q ((j, m) ∷ ns) f h = (f j m h.0, AllNodes-map P Q ns f h.1)

-- The nodes around one of them.
record Split (xs : Nodes) (k n : ℕ) (ys : Nodes) : Type 0 where
  pub below : AllNodes (λ j m. (j + m ≤ k) × (j < k)) xs
  pub above : AllNodes (λ j m. (k + n ≤ j) × (k < j)) ys
  pub left : Apart xs
  pub right : Apart ys

AllNodes-append :
    (P : ℕ → ℕ → Type 0) (xs : Nodes) (k n : ℕ) (ys : Nodes)
    → AllNodes P (xs ++ ((k, n) ∷ ys))
    → AllNodes P xs × P k n
AllNodes-append P [] k n ys h = (tt, h.0)
AllNodes-append P ((j, m) ∷ xs) k n ys h =
    let (rest, here) = AllNodes-append P xs k n ys h.1 in ((h.0, rest), here)

Apart-Split : (xs : Nodes) (k n : ℕ) (ys : Nodes) → Apart (xs ++ ((k, n) ∷ ys)) → Split xs k n ys
Apart-Split [] k n ys h = record { below = tt; above = h.0; left = tt; right = h.1 }
Apart-Split ((j, m) ∷ xs) k n ys h =
    let rest = Apart-Split xs k n ys h.1 in
    let (others, here) = AllNodes-append (λ i l. (j + m ≤ i) × (j < i)) xs k n ys h.0 in
    record {
      below = (here, rest.below);
      above = rest.above;
      left = (others, rest.left);
      right = rest.right;
    }

covering_here :
    (a k n : ℕ) (ys : Nodes) → covers a k n ≡ true → covering ((k, n) ∷ ys) a ≡ some (k, n)
unfolding covering
covering_here a k n ys e = rw e

covering_not_here :
    (a k n : ℕ) (ys : Nodes) → covers a k n ≡ false → covering ((k, n) ∷ ys) a ≡ covering ys a
unfolding covering
covering_not_here a k n ys e = rw e

-- In a search tree of nodes that do not overlap the search finds the node that covers the address.
find-covering : (t : Tree) (a : ℕ) → Apart (in_order t) → find t a ≡ covering (in_order t) a
unfolding find in_order
find-covering leaf a h = unfold covering in refl
find-covering (node l k n height r) a h =
    let xs = in_order l in
    let ys = in_order r in
    let split = Apart-Split xs k n ys h in
    elim (dec_lt a k) [
      | yes lt ↦
          let none' = covering_below a ((k, n) ∷ ys) (
            lt,
            AllNodes-map (λ j m. (k + n ≤ j) × (k < j)) (λ j m. a < j) ys
                (λ j m p. omega (arith, p)) split.above,
          ) in
          rw (covers_outside a k n (inl lt), lt→ltb a k lt)
            (find-covering l a split.left ∙ sym (covering-append a xs ((k, n) ∷ ys) none'))
      | no ge ↦
          let skip = covering_skip a xs ((k, n) ∷ ys) (
            AllNodes-map (λ j m. (j + m ≤ k) × (j < k)) (λ j m. (j + m ≤ a) × (j < a)) xs
              (λ j m p. (omega (arith, p), omega (arith, p))) split.below) in
          elim (Bool-cases (covers a k n)) [
            | inl e ↦ rw e (sym (skip ∙ covering_here a k n ys e))
            | inr e ↦
                rw (e, le→ltb_false a k (omega arith))
                  (find-covering r a split.right ∙ sym (skip ∙ covering_not_here a k n ys e))
          ]
    ]

-- A node that overlaps none of the others, and the addresses on either side of it.
abbrev pub Beside : ℕ → ℕ → Nodes → Type 0
Beside key len ns = AllNodes (λ j m. ((j + m ≤ key) × (j < key)) ⊎ ((key + len ≤ j) × (key < j))) ns

covering-place :
    (a key len : ℕ) (ns : Nodes)
    → Beside key len ns
    → covering (place key len ns) a ≡ (if covers a key len then some (key, len) else covering ns a)
unfolding covering place
covering-place a key len [] h = refl
covering-place a key len ((k, n) ∷ ns) h = elim (dec_lt key k) [
  | yes lt ↦ rw (lt→ltb key k lt)
  | no ge ↦
      let before : (k + n ≤ key) × (k < key) = (omega (arith, h.0), omega (arith, h.0)) in
      let ih = covering-place a key len ns h.1 in
      rw (le→ltb_false key k (omega arith), ih)
        (elim (dec_lt a key) [
          | yes low ↦ rw (covers_outside a key len (inl low))
          | no high ↦ rw (covers_outside a k n (inr (omega (arith, before), omega (arith, before))))
        ])
]

Apart-place : (key len : ℕ) (ns : Nodes) → Beside key len ns → Apart ns → Apart (place key len ns)
unfolding place
Apart-place key len [] beside h = (tt, tt)
Apart-place key len ((k, n) ∷ ns) beside h = elim (dec_lt key k) [
  | yes lt ↦
      let first : (key + len ≤ k) × (key < k) = (omega (arith, beside.0), lt) in
      rw (lt→ltb key k lt) (
        (
          first,
          AllNodes-map (λ j m. (k + n ≤ j) × (k < j)) (λ j m. (key + len ≤ j) × (key < j)) ns
              (λ j m p. (omega (arith, p, first), omega (arith, p, first))) h.0,
        ),
        h,
      )
  | no ge ↦
      let last : (k + n ≤ key) × (k < key) = (omega (arith, beside.0), omega (arith, beside.0)) in
      rw (le→ltb_false key k (omega arith)) (
        AllNodes-place (λ j m. (k + n ≤ j) × (k < j)) key len ns last h.0,
        Apart-place key len ns beside.1 h.1,
      )
]

Apart-Ordered : (ns : Nodes) → Apart ns → Ordered ns
Apart-Ordered [] h = tt
Apart-Ordered ((k, n) ∷ ns) h = (
  AllNodes-map (λ j m. (k + n ≤ j) × (k < j)) (λ j m. k ≤ j) ns (λ j m p. omega (arith, p)) h.0,
  Apart-Ordered ns h.1,
)

abbrev base_of : ℕ → Option (ℕ × ℕ) → ℕ
base_of a found = elim found [ none ↦ a | some (k, n) ↦ k ]

get_base_ptr-covering :
    (t : Tree) (a : ℕ) → Apart (in_order t) → get_base_ptr t a ≡ base_of a (covering (in_order t) a)
unfolding get_base_ptr
get_base_ptr-covering t a h = ap (base_of a) (find-covering t a h)

-- The tree answers as a map from ranges to their starts. In a search tree of objects that do not
-- overlap, put an object that overlaps none: the tree is again such a tree, every address in the
-- object, its start included, has the object's start as base pointer, and every other address the
-- one that it had.
pub get_base_ptr-put_base_ptr :
    (t : Tree) (ptr size a : ℕ)
    → Apart (in_order t)
    → Beside ptr size (in_order t)
    → Apart (in_order (put_base_ptr t ptr size))
      × (get_base_ptr (put_base_ptr t ptr size) a
          ≡ (if covers a ptr size then ptr else get_base_ptr t a))
unfolding put_base_ptr
get_base_ptr-put_base_ptr t ptr size a apart beside =
    let put = (in_order-insert t ptr size (Apart-Ordered (in_order t) apart)).0 in
    let again : Apart (in_order (insert t ptr size)) =
      rw put (Apart-place ptr size (in_order t) beside apart) in
    let found =
      ap (λ (ns : Nodes). base_of a (covering ns a)) put
      ∙ ap (base_of a) (covering-place a ptr size (in_order t) beside) in
    let old = get_base_ptr-covering t a apart in
    (
      again,
      get_base_ptr-covering (insert t ptr size) a again
          ∙ found
          ∙ elim (Bool-cases (covers a ptr size)) [ inl e ↦ rw e | inr e ↦ rw e (sym old) ],
    )

-- ===== src/Avl/Order.antt =====
-- Insertion keeps the search order: the nodes in order are the old ones with the new one put in its
-- place.
use mathlib.Core.List.{append_assoc}
use softwrap.Prelude.{
  ℕ, ◌+◌, ◌<◌, ◌≤◌, ◌≡◌, refl, sym, ap, ◌∙◌, inl, inr, List, [], ◌∷◌, ◌++◌, arith, ltb,
  if◌then◌else◌, Bool-cases, lt→ltb, le→ltb_false,
}
use softwrap.Avl.{
  Tree, leaf, node, height, with_height, new_node, right_rotate, left_rotate, rebalance, insert,
  dmax,
}

abbrev pub Nodes : Type 0
Nodes = List (ℕ × ℕ)

-- The keys with their lengths, from left to right.
unfoldable pub in_order : Tree → Nodes
in_order leaf = []
in_order (node l k n h r) = in_order l ++ ((k, n) ∷ in_order r)

pub in_order-right_rotate : (t : Tree) → in_order (right_rotate t) ≡ in_order t
unfolding in_order right_rotate
in_order-right_rotate leaf = refl
in_order-right_rotate (node leaf k n h r) = refl
in_order-right_rotate (node (node a xk xn xh t2) yk yn yh c) = sym (append_assoc (in_order a) _ _)

pub in_order-left_rotate : (t : Tree) → in_order (left_rotate t) ≡ in_order t
unfolding in_order left_rotate
in_order-left_rotate leaf = refl
in_order-left_rotate (node l k n h leaf) = refl
in_order-left_rotate (node a xk xn xh (node t2 yk yn yh c)) = append_assoc (in_order a) _ _

pub in_order-with_height :
    (l : Tree) (k n : ℕ) (r : Tree)
    → in_order (with_height l k n r) ≡ in_order l ++ ((k, n) ∷ in_order r)
unfolding with_height in_order
in_order-with_height l k n r = refl

in_order-node :
    (l : Tree) (k n h : ℕ) (r : Tree)
    → in_order (node l k n h r) ≡ in_order l ++ ((k, n) ∷ in_order r)
unfolding in_order
in_order-node l k n h r = refl

in_order-rebalance :
    (key : ℕ) (l : Tree) (k n : ℕ) (r : Tree)
    → in_order (rebalance key l k n r) ≡ in_order l ++ ((k, n) ∷ in_order r)
unfolding rebalance
in_order-rebalance key l k n r =
    let whole = with_height l k n r in
    let h = dmax (height l) (height r) + 1 in
    let e1 = in_order-right_rotate whole ∙ in_order-with_height l k n r in
    let e2 = in_order-left_rotate whole ∙ in_order-with_height l k n r in
    let e3 =
      in_order-right_rotate (node (left_rotate l) k n h r)
      ∙ in_order-node (left_rotate l) k n h r
      ∙ ap (λ (ns : Nodes). ns ++ ((k, n) ∷ in_order r)) (in_order-left_rotate l) in
    let e4 =
      in_order-left_rotate (node l k n h (right_rotate r))
      ∙ in_order-node l k n h (right_rotate r)
      ∙ ap (λ (ns : Nodes). in_order l ++ ((k, n) ∷ ns)) (in_order-right_rotate r) in
    ground (arith, e1, e2, e3, e4, in_order-with_height l k n r)

-- The place of a key in a list of nodes: before the first larger key.
unfoldable pub place : ℕ → ℕ → Nodes → Nodes
place key len [] = (key, len) ∷ []
place key len ((k, n) ∷ ns) =
    if ltb key k then (key, len) ∷ ((k, n) ∷ ns) else (k, n) ∷ place key len ns

abbrev pub AllNodes : (ℕ → ℕ → Type 0) → Nodes → Type 0
AllNodes P [] = Unit
AllNodes P ((k, n) ∷ ns) = P k n × AllNodes P ns

abbrev pub Ordered : Nodes → Type 0
Ordered [] = Unit
Ordered ((k, n) ∷ ns) = AllNodes (λ j m. k ≤ j) ns × Ordered ns

-- In an ordered list split at a node, what stands before it is not above it.
pub AllNodes-append_head :
    (P : ℕ → ℕ → Type 0) (xs ys : Nodes) (k n : ℕ) → AllNodes P (xs ++ ((k, n) ∷ ys)) → P k n
AllNodes-append_head P [] ys k n h = h.0
AllNodes-append_head P ((j, m) ∷ xs) ys k n h = AllNodes-append_head P xs ys k n h.1

pub AllNodes-append_tail :
    (P : ℕ → ℕ → Type 0) (xs ys : Nodes) (k n : ℕ)
    → AllNodes P (xs ++ ((k, n) ∷ ys))
    → AllNodes P ys
AllNodes-append_tail P [] ys k n h = h.1
AllNodes-append_tail P ((j, m) ∷ xs) ys k n h = AllNodes-append_tail P xs ys k n h.1

pub AllNodes-append_left :
    (P : ℕ → ℕ → Type 0) (xs ys : Nodes) → AllNodes P (xs ++ ys) → AllNodes P xs
AllNodes-append_left P [] ys h = tt
AllNodes-append_left P ((j, m) ∷ xs) ys h = (h.0, AllNodes-append_left P xs ys h.1)

Ordered-split :
    (xs ys : Nodes) (k n : ℕ)
    → Ordered (xs ++ ((k, n) ∷ ys))
    → AllNodes (λ j m. j ≤ k) xs × Ordered xs × Ordered ys
Ordered-split [] ys k n h = (tt, tt, h.1)
Ordered-split ((j, m) ∷ xs) ys k n h =
    let (below, left, right) = Ordered-split xs ys k n h.1 in
    (
      (AllNodes-append_head (λ i _. j ≤ i) xs ys k n h.0, below),
      (AllNodes-append_left (λ i _. j ≤ i) xs _ h.0, left),
      right,
    )

place-left :
    (key len : ℕ) (xs ys : Nodes) (k n : ℕ)
    → key < k
    → place key len (xs ++ ((k, n) ∷ ys)) ≡ place key len xs ++ ((k, n) ∷ ys)
unfolding place
place-left key len [] ys k n h = rw (lt→ltb key k h)
place-left key len ((j, m) ∷ xs) ys k n h = elim (Bool-cases (ltb key j)) [
  | inl t ↦ rw t
  | inr t ↦ rw (t, place-left key len xs ys k n h)
]

place-right :
    (key len : ℕ) (xs ys : Nodes) (k n : ℕ)
    → AllNodes (λ j m. j ≤ k) xs
    → k ≤ key
    → place key len (xs ++ ((k, n) ∷ ys)) ≡ xs ++ ((k, n) ∷ place key len ys)
unfolding place
place-right key len [] ys k n all h = rw (le→ltb_false key k h)
place-right key len ((j, m) ∷ xs) ys k n all h =
    rw (le→ltb_false key j (omega arith), place-right key len xs ys k n all.1 h)

pub AllNodes-place :
    (P : ℕ → ℕ → Type 0) (key len : ℕ) (ns : Nodes)
    → P key len
    → AllNodes P ns
    → AllNodes P (place key len ns)
unfolding place
AllNodes-place P key len [] p h = (p, tt)
AllNodes-place P key len ((k, n) ∷ ns) p h = elim (Bool-cases (ltb key k)) [
  | inl t ↦ rw t (p, h)
  | inr t ↦ rw t (h.0, AllNodes-place P key len ns p h.1)
]

AllNodes-weaken :
    (a b : ℕ) (ns : Nodes) → a ≤ b → AllNodes (λ j m. b ≤ j) ns → AllNodes (λ j m. a ≤ j) ns
AllNodes-weaken a b [] le h = tt
AllNodes-weaken a b ((k, n) ∷ ns) le h = (omega arith, AllNodes-weaken a b ns le h.1)

place-Ordered : (key len : ℕ) (ns : Nodes) → Ordered ns → Ordered (place key len ns)
unfolding place
place-Ordered key len [] h = (tt, tt)
place-Ordered key len ((k, n) ∷ ns) h = elim (Bool-cases (ltb key k)) [
  | inl t ↦
      let lt : key < k = ground arith in
      rw t ((omega arith, AllNodes-weaken key k ns (omega arith) h.0), h)
  | inr t ↦
      let ge : k ≤ key = ground arith in
      rw t (AllNodes-place (λ j _. k ≤ j) key len ns ge h.0, place-Ordered key len ns h.1)
]

nodes :
    (t : Tree) (key len : ℕ)
    → Ordered (in_order t)
    → in_order (insert t key len) ≡ place key len (in_order t)
unfolding insert in_order place
nodes leaf key len h = unfold new_node in refl
nodes (node l k n height r) key len h =
    let (below, left, right) = Ordered-split (in_order l) (in_order r) k n h in
    elim (Bool-cases (ltb key k)) [
      | inl t ↦
          let lt : key < k = ground arith in
          rw t (
            in_order-rebalance key (insert l key len) k n r
            ∙ rw (nodes l key len left) (sym (place-left key len (in_order l) (in_order r) k n lt)))
      | inr t ↦
          let ge : k ≤ key = ground arith in
          rw t (
            in_order-rebalance key l k n (insert r key len)
            ∙ rw (nodes r key len right)
                (sym (place-right key len (in_order l) (in_order r) k n below ge)))
    ]

-- Inserting into a search tree, rotations included, leaves exactly the old nodes in their order
-- with the new node before the first larger key, and that is a search tree again.
pub in_order-insert :
    (t : Tree) (key len : ℕ)
    → Ordered (in_order t)
    → (in_order (insert t key len) ≡ place key len (in_order t))
      × Ordered (in_order (insert t key len))
in_order-insert t key len h =
    let e = nodes t key len h in (e, rw e (place-Ordered key len (in_order t) h))

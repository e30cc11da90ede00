-- ===== src/Avl/Balance.antt =====
-- Insertion keeps the tree balanced: the heights are right, and those of two siblings differ by at
-- most one.
use native.Mathlib.Decide.{dec_lt, dec_le}
use softwrap.Avl.{
  Tree, leaf, node, height, with_height, new_node, right_rotate, left_rotate, rebalance, insert,
  dmax,
}
use softwrap.Prelude.{
  ℕ, ◌+◌, ◌<◌, ◌≤◌, ◌≡◌, ◌≢◌, ◌⊎◌, inl, inr, refl, arith, ltb, Bool-cases, lt→ltb, le→ltb_false,
}

abbrev pub IsBalanced : Tree → Type 0
IsBalanced leaf = Unit
IsBalanced (node l k n h r) =
    (h ≡ dmax (height l) (height r) + 1)
    × (height l ≤ height r + 1)
    × (height r ≤ height l + 1)
    × IsBalanced l
    × IsBalanced r

abbrev pub Avoids : ℕ → Tree → Type 0
Avoids key leaf = Unit
Avoids key (node l k n h r) = (key ≢ k) × Avoids key l × Avoids key r

-- The side of the root where the key is, is higher than the other.
abbrev Leans : ℕ → Tree → Type 0
Leans key leaf = ⊥
Leans key (node l k n h r) =
    ((key < k) × (height l ≡ height r + 1))
    ⊎ (((k < key) × (height r ≡ height l + 1)) ⊎ ((height l ≡ 0) × (height r ≡ 0)))

-- What an insertion of `key` makes of a tree: no higher, or higher by one on the side of the key.
record Grown (key : ℕ) (t t' : Tree) : Type 0 where
  pub balanced : IsBalanced t'
  pub heights : (height t' ≡ height t) ⊎ ((height t' ≡ height t + 1) × Leans key t')

dmax_lem : (x y : ℕ) → (x ≤ dmax x y) × (y ≤ dmax x y) × ((dmax x y ≡ x) ⊎ (dmax x y ≡ y))
dmax_lem x y = elim (Bool-cases (ltb y x)) [
  | inl e ↦ rw e (ground arith)
  | inr e ↦ rw e (ground arith)
]

height-with_height :
    (l : Tree) (k n : ℕ) (r : Tree) → height (with_height l k n r) ≡ dmax (height l) (height r) + 1
unfolding with_height height
height-with_height l k n r = refl

IsBalanced-with_height :
    (l : Tree) (k n : ℕ) (r : Tree)
    → IsBalanced l
    → IsBalanced r
    → height l ≤ height r + 1
    → height r ≤ height l + 1
    → IsBalanced (with_height l k n r)
unfolding with_height
IsBalanced-with_height l k n r bl br p q = (refl, p, q, bl, br)

rebalance_none :
    (key : ℕ) (l : Tree) (k n : ℕ) (r : Tree)
    → height l ≤ height r + 1
    → height r ≤ height l + 1
    → rebalance key l k n r ≡ with_height l k n r
unfolding rebalance
rebalance_none key l k n r p q =
    rw (le→ltb_false (height r + 1) (height l) p, le→ltb_false (height l + 1) (height r) q)

rebalance_left_left :
    (key : ℕ) (a : Tree) (k' n' h' : ℕ) (c : Tree) (k n : ℕ) (r : Tree)
    → h' ≡ height r + 2
    → key < k'
    → rebalance key (node a k' n' h' c) k n r ≡ with_height a k' n' (with_height c k n r)
unfolding rebalance with_height height right_rotate
rebalance_left_left key a k' n' h' c k n r e lt =
    rw (e, lt→ltb (height r + 1) (height r + 2) (omega arith), lt→ltb key k' lt)

rebalance_left_right :
    (key : ℕ) (a : Tree) (k' n' h' : ℕ) (c1 : Tree) (kc nc hc : ℕ) (c2 : Tree) (k n : ℕ) (r : Tree)
    → h' ≡ height r + 2
    → k' < key
    → rebalance key (node a k' n' h' (node c1 kc nc hc c2)) k n r
      ≡ with_height (with_height a k' n' c1) kc nc (with_height c2 k n r)
unfolding rebalance with_height height right_rotate left_rotate
rebalance_left_right key a k' n' h' c1 kc nc hc c2 k n r e lt = rw (
  e,
  lt→ltb (height r + 1) (height r + 2) (omega arith),
  le→ltb_false key k' (omega arith),
  le→ltb_false (height r + 2 + 1) (height r) (omega arith),
  lt→ltb k' key lt,
)

rebalance_right_right :
    (key : ℕ) (l : Tree) (k n : ℕ) (a : Tree) (k' n' h' : ℕ) (c : Tree)
    → h' ≡ height l + 2
    → k' < key
    → rebalance key l k n (node a k' n' h' c) ≡ with_height (with_height l k n a) k' n' c
unfolding rebalance with_height height left_rotate
rebalance_right_right key l k n a k' n' h' c e lt = rw (
  e,
  le→ltb_false (height l + 2 + 1) (height l) (omega arith),
  lt→ltb (height l + 1) (height l + 2) (omega arith),
  lt→ltb k' key lt,
)

rebalance_right_left :
    (key : ℕ) (l : Tree) (k n : ℕ) (c1 : Tree) (kc nc hc : ℕ) (c2 : Tree) (k' n' h' : ℕ) (c : Tree)
    → h' ≡ height l + 2
    → key < k'
    → rebalance key l k n (node (node c1 kc nc hc c2) k' n' h' c)
      ≡ with_height (with_height l k n c1) kc nc (with_height c2 k' n' c)
unfolding rebalance with_height height left_rotate right_rotate
rebalance_right_left key l k n c1 kc nc hc c2 k' n' h' c e lt = rw (
  e,
  le→ltb_false (height l + 2 + 1) (height l) (omega arith),
  lt→ltb (height l + 1) (height l + 2) (omega arith),
  le→ltb_false k' key (omega arith),
  lt→ltb key k' lt,
)

-- Two subtrees of which neither is higher by more than one, under a root.
joined :
    (l : Tree) (k n : ℕ) (r : Tree)
    → IsBalanced l
    → IsBalanced r
    → height l ≤ height r + 1
    → height r ≤ height l + 1
    → IsBalanced (with_height l k n r)
      × (height l < height (with_height l k n r))
      × (height r < height (with_height l k n r))
      × ((height (with_height l k n r) ≡ height l + 1)
          ⊎ (height (with_height l k n r) ≡ height r + 1))
joined l k n r bl br p q =
    let (lo, hi, is) = dmax_lem (height l) (height r) in
    let e = height-with_height l k n r in
    (
      IsBalanced-with_height l k n r bl br p q,
      omega (arith, e, lo),
      omega (arith, e, hi),
      omega (arith, e, is),
    )

-- The left subtree has become too high: one rotation or two bring back the old height.
left_high :
    (key : ℕ) (l' : Tree) (k n : ℕ) (r : Tree)
    → IsBalanced l'
    → IsBalanced r
    → height l' ≡ height r + 2
    → Leans key l'
    → IsBalanced (rebalance key l' k n r) × (height (rebalance key l' k n r) ≡ height r + 2)
unfolding height
left_high key leaf k n r bl br e leans = absurd leans
left_high key (node a k' n' h' c) k n r bl br e (inl (lt, lean)) =
    let (at, p, q, ba, bc) = bl in
    let (lo, hi, is) = dmax_lem (height a) (height c) in
    let (b1, u1, v1, w1) =
      joined c k n r bc br (omega (arith, at, lo, hi, is, lean, e))
        (omega (arith, at, lo, hi, is, lean, e)) in
    let (b2, u2, v2, w2) =
      joined a k' n' (with_height c k n r) ba b1
        (omega (arith, at, lo, hi, is, lean, e, u1, v1, w1))
        (omega (arith, at, lo, hi, is, lean, e, u1, v1, w1)) in
    let same = rebalance_left_left key a k' n' h' c k n r e lt in
    rw same (b2, omega (arith, at, lo, hi, is, lean, e, u1, v1, w1, u2, v2, w2))
left_high key (node a k' n' h' leaf) k n r bl br e (inr (inl (lt, lean))) = absurd (omega arith)
left_high key (node a k' n' h' (node c1 kc nc hc c2)) k n r bl br e (inr (inl (lt, lean))) =
    let (at, p, q, ba, bc) = bl in
    let (atc, pc, qc, b1, b2) = bc in
    let (lo, hi, is) = dmax_lem (height a) hc in
    let (loc, hic, isc) = dmax_lem (height c1) (height c2) in
    let (bu, u1, u2, u3) =
      joined a k' n' c1 ba b1 (omega (arith, at, lo, hi, is, lean, e, atc, loc, hic, isc, pc, qc))
        (omega (arith, at, lo, hi, is, lean, e, atc, loc, hic, isc, pc, qc)) in
    let (bv, v1, v2, v3) =
      joined c2 k n r b2 br (omega (arith, at, lo, hi, is, lean, e, atc, loc, hic, isc, pc, qc))
        (omega (arith, at, lo, hi, is, lean, e, atc, loc, hic, isc, pc, qc)) in
    let (bw, w1, w2, w3) =
      joined (with_height a k' n' c1) kc nc (with_height c2 k n r) bu bv
        (omega (arith, at, lo, hi, is, lean, e, atc, loc, hic, isc, pc, qc, u1, u2, u3, v1, v2, v3))
        (omega
          (arith, at, lo, hi, is, lean, e, atc, loc, hic, isc, pc, qc, u1, u2, u3, v1, v2, v3)) in
    let same = rebalance_left_right key a k' n' h' c1 kc nc hc c2 k n r e lt in
    rw same (
      bw,
      omega (
        arith, at, lo, hi, is, lean, e, atc, loc, hic, isc, pc, qc, u1, u2, u3, v1, v2, v3, w1, w2,
        w3,
      ),
    )
left_high key (node a k' n' h' c) k n r bl br e (inr (inr (za, zc))) =
    let (at, p, q, ba, bc) = bl in
    let (lo, hi, is) = dmax_lem (height a) (height c) in
    absurd (omega (arith, at, lo, hi, is, e, za, zc))

-- The same on the right.
right_high :
    (key : ℕ) (l : Tree) (k n : ℕ) (r' : Tree)
    → IsBalanced l
    → IsBalanced r'
    → height r' ≡ height l + 2
    → Leans key r'
    → IsBalanced (rebalance key l k n r') × (height (rebalance key l k n r') ≡ height l + 2)
unfolding height
right_high key l k n leaf bl br e leans = absurd leans
right_high key l k n (node a k' n' h' c) bl br e (inr (inl (lt, lean))) =
    let (at, p, q, ba, bc) = br in
    let (lo, hi, is) = dmax_lem (height a) (height c) in
    let (b1, u1, v1, w1) =
      joined l k n a bl ba (omega (arith, at, lo, hi, is, lean, e))
        (omega (arith, at, lo, hi, is, lean, e)) in
    let (b2, u2, v2, w2) =
      joined (with_height l k n a) k' n' c b1 bc
        (omega (arith, at, lo, hi, is, lean, e, u1, v1, w1))
        (omega (arith, at, lo, hi, is, lean, e, u1, v1, w1)) in
    let same = rebalance_right_right key l k n a k' n' h' c e lt in
    rw same (b2, omega (arith, at, lo, hi, is, lean, e, u1, v1, w1, u2, v2, w2))
right_high key l k n (node leaf k' n' h' c) bl br e (inl (lt, lean)) = absurd (omega arith)
right_high key l k n (node (node c1 kc nc hc c2) k' n' h' c) bl br e (inl (lt, lean)) =
    let (at, p, q, ba, bc) = br in
    let (atc, pc, qc, b1, b2) = ba in
    let (lo, hi, is) = dmax_lem hc (height c) in
    let (loc, hic, isc) = dmax_lem (height c1) (height c2) in
    let (bu, u1, u2, u3) =
      joined l k n c1 bl b1 (omega (arith, at, lo, hi, is, lean, e, atc, loc, hic, isc, pc, qc))
        (omega (arith, at, lo, hi, is, lean, e, atc, loc, hic, isc, pc, qc)) in
    let (bv, v1, v2, v3) =
      joined c2 k' n' c b2 bc (omega (arith, at, lo, hi, is, lean, e, atc, loc, hic, isc, pc, qc))
        (omega (arith, at, lo, hi, is, lean, e, atc, loc, hic, isc, pc, qc)) in
    let (bw, w1, w2, w3) =
      joined (with_height l k n c1) kc nc (with_height c2 k' n' c) bu bv
        (omega (arith, at, lo, hi, is, lean, e, atc, loc, hic, isc, pc, qc, u1, u2, u3, v1, v2, v3))
        (omega
          (arith, at, lo, hi, is, lean, e, atc, loc, hic, isc, pc, qc, u1, u2, u3, v1, v2, v3)) in
    let same = rebalance_right_left key l k n c1 kc nc hc c2 k' n' h' c e lt in
    rw same (
      bw,
      omega (
        arith, at, lo, hi, is, lean, e, atc, loc, hic, isc, pc, qc, u1, u2, u3, v1, v2, v3, w1, w2,
        w3,
      ),
    )
right_high key l k n (node a k' n' h' c) bl br e (inr (inr (za, zc))) =
    let (at, p, q, ba, bc) = br in
    let (lo, hi, is) = dmax_lem (height a) (height c) in
    absurd (omega (arith, at, lo, hi, is, e, za, zc))

Leans-with_height :
    (key : ℕ) (l : Tree) (k n : ℕ) (r : Tree)
    → ((key < k) × (height l ≡ height r + 1)) ⊎ ((k < key) × (height r ≡ height l + 1))
    → Leans key (with_height l k n r)
unfolding with_height
Leans-with_height key l k n r (inl h) = inl h
Leans-with_height key l k n r (inr h) = inr (inl h)

-- The left subtree has grown.
Grown-left :
    (key : ℕ) (l l' : Tree) (k n h : ℕ) (r : Tree)
    → key < k
    → IsBalanced (node l k n h r)
    → Grown key l l'
    → Grown key (node l k n h r) (rebalance key l' k n r)
unfolding height
Grown-left key l l' k n h r lt (at, p, q, bl, br) g =
    let (lo, hi, is) = dmax_lem (height l) (height r) in
    elim (g.heights) [
      | inl same ↦
          let (b, u, v, w) =
            joined l' k n r g.balanced br (omega (arith, same)) (omega (arith, same)) in
          let e = rebalance_none key l' k n r (omega (arith, same)) (omega (arith, same)) in
          rw e
            (record { balanced = b; heights = inl (omega (arith, at, lo, hi, is, same, u, v, w)) })
      | inr (more, leans) ↦ elim (dec_le (height l') (height r + 1)) [
        | yes near ↦
            let (b, u, v, w) = joined l' k n r g.balanced br near (omega (arith, more)) in
            let e = rebalance_none key l' k n r near (omega (arith, more)) in
            rw e (record {
              balanced = b;
              heights = elim (dec_lt (height l) (height r)) [
                | yes low ↦ inl (omega (arith, at, lo, hi, is, more, u, v, w))
                | no even ↦ inr (
                  omega (arith, at, lo, hi, is, more, u, v, w),
                  Leans-with_height key l' k n r (inl (lt, omega (arith, more, near))),
                )
              ];
            })
        | no far ↦
            let (b, e) = left_high key l' k n r g.balanced br (omega (arith, more)) leans in
            record { balanced = b; heights = inl (omega (arith, at, lo, hi, is, more, e)) }
      ]
    ]

-- The right one has.
Grown-right :
    (key : ℕ) (l : Tree) (k n h : ℕ) (r r' : Tree)
    → k < key
    → IsBalanced (node l k n h r)
    → Grown key r r'
    → Grown key (node l k n h r) (rebalance key l k n r')
unfolding height
Grown-right key l k n h r r' lt (at, p, q, bl, br) g =
    let (lo, hi, is) = dmax_lem (height l) (height r) in
    elim (g.heights) [
      | inl same ↦
          let (b, u, v, w) =
            joined l k n r' bl g.balanced (omega (arith, same)) (omega (arith, same)) in
          let e = rebalance_none key l k n r' (omega (arith, same)) (omega (arith, same)) in
          rw e
            (record { balanced = b; heights = inl (omega (arith, at, lo, hi, is, same, u, v, w)) })
      | inr (more, leans) ↦ elim (dec_le (height r') (height l + 1)) [
        | yes near ↦
            let (b, u, v, w) = joined l k n r' bl g.balanced (omega (arith, more)) near in
            let e = rebalance_none key l k n r' (omega (arith, more)) near in
            rw e (record {
              balanced = b;
              heights = elim (dec_lt (height r) (height l)) [
                | yes low ↦ inl (omega (arith, at, lo, hi, is, more, u, v, w))
                | no even ↦ inr (
                  omega (arith, at, lo, hi, is, more, u, v, w),
                  Leans-with_height key l k n r' (inr (lt, omega (arith, more, near))),
                )
              ];
            })
        | no far ↦
            let (b, e) = right_high key l k n r' bl g.balanced (omega (arith, more)) leans in
            record { balanced = b; heights = inl (omega (arith, at, lo, hi, is, more, e)) }
      ]
    ]

insert-Grown :
    (t : Tree) (key len : ℕ) → IsBalanced t → Avoids key t → Grown key t (insert t key len)
unfolding insert new_node height
insert-Grown leaf key len b av = record {
  balanced = (refl, omega arith, omega arith, tt, tt);
  heights = inr (refl, inr (inr (refl, refl)));
}
insert-Grown (node l k n h r) key len b av = elim (dec_lt key k) [
  | yes below ↦
      rw (lt→ltb key k below)
        (Grown-left key l (insert l key len) k n h r below b (insert-Grown l key len b.3 av.1))
  | no above ↦ rw (le→ltb_false key k (omega arith)) (
      Grown-right key l k n h r (insert r key len) (omega (arith, av.0)) b
        (insert-Grown r key len b.4 av.2))
]

-- Inserting a key that a balanced tree does not have, rotations included, gives a balanced tree: the
-- heights that its nodes hold are right, those of two siblings differ by at most one, and the
-- whole has not grown by more than one.
pub insert-IsBalanced :
    (t : Tree) (key len : ℕ)
    → IsBalanced t
    → Avoids key t
    → IsBalanced (insert t key len) × (height (insert t key len) ≤ height t + 1)
insert-IsBalanced t key len b av =
    let g = insert-Grown t key len b av in (g.balanced, omega (arith, g.heights))

-- ===== src/Avl.antt =====
-- src/main/avl.cpp: the tree of base pointers, an AVL tree keyed by the start of an object, each
-- node with the length of its object.
pub mod Order
pub mod Balance
pub mod Ranges
use softwrap.Prelude.{
  ℕ, ◌+◌, ◌<◌, Bool, Option, none, some, ltb, leb, ◌==◌, ◌&&◌, ◌||◌, if◌then◌else◌,
}

pub data Tree : Type 0 where
  leaf : Tree
  node : Tree → ℕ → ℕ → ℕ → Tree → Tree

-- The fields are left, key, length, height, right.
unfoldable pub height : Tree → ℕ
height leaf = 0
height (node l k n h r) = h

abbrev pub dmax : ℕ → ℕ → ℕ
dmax x y = if ltb y x then x else y

-- A node whose height is computed from its children.
unfoldable pub with_height : Tree → ℕ → ℕ → Tree → Tree
with_height l k n r = node l k n (dmax (height l) (height r) + 1) r

unfoldable pub new_node : ℕ → ℕ → Tree
new_node key len = node leaf key len 1 leaf

unfoldable pub right_rotate : Tree → Tree
unfolding with_height height
right_rotate (node (node a xk xn xh t2) yk yn yh c) = with_height a xk xn (with_height t2 yk yn c)
right_rotate y = y

unfoldable pub left_rotate : Tree → Tree
unfolding with_height height
left_rotate (node a xk xn xh (node t2 yk yn yh c)) = with_height (with_height a xk xn t2) yk yn c
left_rotate x = x

-- `getBalance(node) > 1` and `getBalance(node) < -1`; the heights are signed in the source.
abbrev pub left_heavy : Tree → Tree → Bool
left_heavy l r = ltb (height r + 1) (height l)

abbrev pub right_heavy : Tree → Tree → Bool
right_heavy l r = ltb (height l + 1) (height r)

-- `key < n->key` and `key > n->key`; the code reads the key of a child that is there.
abbrev pub key_below : ℕ → Tree → Bool
key_below key leaf = Bool.false
key_below key (node l k n h r) = ltb key k

abbrev pub key_above : ℕ → Tree → Bool
key_above key leaf = Bool.false
key_above key (node l k n h r) = ltb k key

-- The four cases at the end of `insert`, for a node whose height has been updated.
unfoldable pub rebalance : ℕ → Tree → ℕ → ℕ → Tree → Tree
rebalance key l k n r =
    if left_heavy l r && key_below key l
    then right_rotate (with_height l k n r)
    else if right_heavy l r && key_above key r
    then left_rotate (with_height l k n r)
    else if left_heavy l r && key_above key l
    then right_rotate (node (left_rotate l) k n (dmax (height l) (height r) + 1) r)
    else if right_heavy l r && key_below key r
    then left_rotate (node l k n (dmax (height l) (height r) + 1) (right_rotate r))
    else with_height l k n r

unfoldable pub insert : Tree → ℕ → ℕ → Tree
unfolding new_node
insert leaf key len = new_node key len
insert (node l k n h r) key len =
    let left = rebalance key (insert l key len) k n r in
    let right = rebalance key l k n (insert r key len) in if ltb key k then left else right

-- The node whose range holds the address: its key and length.
unfoldable pub find : Tree → ℕ → Option (ℕ × ℕ)
find leaf ptr = none
find (node l k n h r) ptr =
    let left = find l ptr in
    let right = find r ptr in
    if ptr == k || (leb k ptr && ltb ptr (k + n))
    then some (k, n)
    else if ltb ptr k
    then left
    else right

-- `putBasePtr` on the tree `root`.
unfoldable pub put_base_ptr : Tree → ℕ → ℕ → Tree
put_base_ptr root ptr size = insert root ptr size

unfoldable pub get_base_ptr : Tree → ℕ → ℕ
get_base_ptr root ptr = elim (find root ptr) [ none ↦ ptr | some (k, n) ↦ k ]

-- `n->length = newsize` at the node that `find` returns.
unfoldable pub set_length : Tree → ℕ → ℕ → Tree
set_length leaf ptr newsize = leaf
set_length (node l k n h r) ptr newsize =
    let left = node (set_length l ptr newsize) k n h r in
    let right = node l k n h (set_length r ptr newsize) in
    if ptr == k || (leb k ptr && ltb ptr (k + n))
    then node l k newsize h r
    else if ltb ptr k
    then left
    else right

-- `none` where the code writes through the null pointer that `find` returned.
unfoldable pub adj_base_ptr_size : Tree → ℕ → ℕ → Option Tree
unfolding set_length
adj_base_ptr_size root base newsize = elim (find root base) [
  | none ↦ none
  | some found ↦ some (set_length root base newsize)
]

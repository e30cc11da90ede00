-- ===== src/Tests/Bases.antt =====
-- A tree of two objects, and a third one between them.
use softwrap.Avl.Balance.{IsBalanced, insert-IsBalanced}
use softwrap.Avl.Order.{in_order}
use softwrap.Avl.Ranges.{Apart, Beside, covers, get_base_ptr-put_base_ptr}
use softwrap.Avl.{Tree, leaf, node, height, insert, put_base_ptr, get_base_ptr}
use softwrap.Prelude.{◌+◌, ◌≡◌, ◌≤◌, inl, inr, refl, arith, if◌then◌else◌}

abbrev tree : Tree
tree = node (node leaf 100 8 1 leaf) 200 16 2 leaf

tree-IsBalanced : IsBalanced tree
unfolding height
tree-IsBalanced = (refl, omega arith, omega arith, (refl, omega arith, omega arith, tt, tt), tt)

insert-IsBalanced_example :
    IsBalanced (insert tree 150 4) × (height (insert tree 150 4) ≤ height tree + 1)
insert-IsBalanced_example =
    insert-IsBalanced tree 150 4 tree-IsBalanced (omega arith, (omega arith, tt, tt), tt)

tree-Apart : Apart (in_order tree)
unfolding in_order
tree-Apart = (((omega arith, omega arith), tt), (tt, tt))

tree-Beside : Beside 150 4 (in_order tree)
unfolding in_order
tree-Beside = (inl (omega arith, omega arith), (inr (omega arith, omega arith), tt))

get_base_ptr-put_base_ptr_example :
    Apart (in_order (put_base_ptr tree 150 4))
    × (get_base_ptr (put_base_ptr tree 150 4) 153
        ≡ (if covers 153 150 4 then 150 else get_base_ptr tree 153))
get_base_ptr-put_base_ptr_example = get_base_ptr-put_base_ptr tree 150 4 153 tree-Apart tree-Beside

-- ===== src/Rbtree/Insert.antt =====
-- api/src/api_rbtree.c: insertion and the rebalancing after it.
use libapi.Base.{ℕ, zero, suc, ◌&&◌, none, ◌==◌, if◌then◌else◌}
use libapi.Memory.{Ptr, null, pure, ◌>>=◌, ◌>>◌, load, modify}
use libapi.Rbtree.{
  black, red, is_red, rb, Compare, is_negative, Rb, parent_of, left_of, right_of, set_parent,
  set_left, set_right, set_color, color_of, grandparent, uncle, rotate_left, rotate_right,
}

-- The child of a red parent with a black uncle is rotated to the outside; the result is the
-- node that the rest works on, with the root.
straighten : Ptr → Ptr → Ptr → Rb (Ptr × Ptr)
straighten root node g = do
  p ← parent_of node
  pl ← left_of p
  pr ← right_of p
  gl ← left_of g
  gr ← right_of g
  if (node == pr) && (p == gl)
      then (do root ← rotate_left root p; n ← left_of node; pure (root, n))
      else if (node == pl) && (p == gr)
      then (do root ← rotate_right root p; n ← right_of node; pure (root, n))
      else pure (root, node)

-- What follows: the parent becomes black and the grandparent red, and is rotated down.
lift : Ptr → Ptr → Rb Ptr
lift root node = do
  g ← grandparent node
  p ← parent_of node
  set_color p black
  set_color g red
  pl ← left_of p
  gl ← left_of g
  if (node == pl) && (p == gl) then rotate_right root g else rotate_left root g

-- `api_rbtree_insert_bal`, on fuel: one round for each two levels.
unfoldable pub insert_bal : ℕ → Ptr → Ptr → Rb Ptr
unfolding straighten lift
insert_bal zero root node = λ _. none
insert_bal (suc fuel) root node = if root == node then (set_color node black >> pure root) else do
  p ← parent_of node
  c ← color_of p
  if is_red c
      then (do
        u ← uncle node
        g ← grandparent node
        uc ← color_of u
        if is_red uc
            then (do set_color p black; set_color u black; set_color g red; insert_bal fuel root g)
            else do (root', node') ← straighten root node g; lift root' node')
      else pure root

-- The descent of `api_rbtree_insert` to the last node on the path.
descend : ℕ → Compare → Ptr → Ptr → Ptr → Rb Ptr
descend zero compare node current parent = λ _. none
descend (suc fuel) compare node current parent = if current == null then pure parent else do
  n ← load current
  descend fuel compare node (if is_negative (compare node current) then n.left else n.right) current

unfoldable pub insert : ℕ → Compare → Ptr → Ptr → Rb Ptr
unfolding descend insert_bal
insert fuel compare root node = do
  parent ← descend fuel compare node root null
  modify node (λ _. rb null null null red)
  if root == null then insert_bal fuel node node else do
    set_parent node parent
    if is_negative (compare node parent) then set_left parent node else set_right parent node
    insert_bal fuel root node

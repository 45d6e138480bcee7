-- ===== src/Rbtree/Remove.antt =====
-- api/src/api_rbtree.c: removal and the rebalancing after it.
use libapi.Base.{ℕ, zero, suc, ◌&&◌, not, none, some, ◌==◌, if◌then◌else◌}
use libapi.Memory.{Ptr, null, pure, ◌>>=◌, ◌>>◌, load, write}
use libapi.Rbtree.{
  black, red, is_red, RbNode, rb, Rb, parent_of, left_of, right_of, set_parent, set_left, set_right,
  set_color, unless_null, color_of, sibling, rotate_left, rotate_right,
}

-- The red sibling case of `api_rbtree_remove_bal`.
remove_red_sibling : Ptr → Ptr → Ptr → Rb (Ptr × Ptr)
remove_red_sibling root node s = do
  c ← color_of s
  if is_red c
      then (do
        p ← parent_of node
        set_color p red
        set_color s black
        l ← left_of p
        root' ← if node == l then rotate_left root p else rotate_right root p
        s' ← sibling node
        pure (root', s'))
      else pure (root, s)

-- The inner nephew is rotated to the outside. The mirrored branch colours the sibling black.
remove_inner : Ptr → Ptr → Ptr → Rb Ptr
remove_inner root node s = do
  p ← parent_of node
  pl ← left_of p
  pr ← right_of p
  sl ← left_of s
  sr ← right_of s
  cl ← color_of sl
  cr ← color_of sr
  if (pl == node) && (not (is_red cr) && is_red cl)
      then (do set_color s red; set_color sl black; rotate_right root s)
      else if (pr == node) && (not (is_red cl) && is_red cr)
      then (do set_color s black; rotate_left root s)
      else pure root

remove_outer : Ptr → Ptr → Rb Ptr
remove_outer root node = do
  s ← sibling node
  p ← parent_of node
  c ← color_of p
  set_color s c
  set_color p black
  l ← left_of p
  if l == node
      then (do r ← right_of s; set_color r black; rotate_left root p)
      else do l' ← left_of s; set_color l' black; rotate_right root p

-- `api_rbtree_remove_bal`, on fuel: one round for each level.
unfoldable pub remove_bal : ℕ → Ptr → Ptr → Rb Ptr
unfolding remove_red_sibling remove_inner remove_outer
remove_bal zero root node = λ _. none
remove_bal (suc fuel) root node = do
  p0 ← parent_of node
  if p0 == null then pure root else do
    s0 ← sibling node
    (root', s) ← remove_red_sibling root node s0
    p ← parent_of node
    pc ← color_of p
    sc ← color_of s
    sl ← left_of s
    sr ← right_of s
    cl ← color_of sl
    cr ← color_of sr
    if not (is_red sc) && (not (is_red cl) && not (is_red cr))
        then (if is_red pc
            then (do set_color s red; set_color p black; pure root')
            else (do set_color s red; remove_bal fuel root' p))
        else do root'' ← remove_inner root' node s; remove_outer root'' node

-- `q` takes the place of `p` among the children of `parent`, unless that is null.
replace_child : (parent p q : Ptr) → Rb (Unit {0})
replace_child parent p q =
    unless_null parent
      do l ← left_of parent; if l == p then set_left parent q else set_right parent q

swap_lefts : Ptr → Ptr → Rb (Unit {0})
swap_lefts a b = do
  temp ← left_of a
  bl ← left_of b
  set_left a bl
  unless_null bl (set_parent bl a)
  set_left b temp
  unless_null temp (set_parent temp b)

swap_rights : Ptr → Ptr → Rb (Unit {0})
swap_rights a b = do
  temp ← right_of a
  br ← right_of b
  set_right a br
  unless_null br (set_parent br a)
  set_right b temp
  unless_null temp (set_parent temp b)

-- `api_rbtree_swap`
unfoldable pub swap : Ptr → Ptr → Rb (Unit {0})
unfolding replace_child swap_lefts swap_rights
swap a b = do
  ap ← parent_of a
  bp ← parent_of b
  set_parent a bp
  set_parent b ap
  ap' ← parent_of a
  replace_child ap' b a
  bp' ← parent_of b
  replace_child bp' a b
  swap_lefts a b
  swap_rights a b
  m ← load a
  n ← load b
  set_color a n.color
  set_color b m.color

rightmost : ℕ → Ptr → Rb Ptr
rightmost zero p = λ _. none
rightmost (suc fuel) p = do r ← right_of p; if r == null then pure p else rightmost fuel r

-- A node with two children changes places with its predecessor.
swap_down : ℕ → Ptr → Ptr → Rb Ptr
unfolding swap rightmost
swap_down fuel root node = do
  n ← load node
  if not (n.left == null) && not (n.right == null)
      then (do
        prev ← rightmost fuel n.left
        swap node prev
        pure (if root == prev then node else if root == node then prev else root))
      else pure root

-- `child` takes the place of `node`, which has at most one child.
splice : Ptr → Ptr → Ptr → Rb Ptr
unfolding replace_child
splice root node child = do
  n ← load node
  replace_child n.parent node child
  n ← load node
  (if child == n.left then pure tt else set_left child n.left)
  (if child == n.right then pure tt else set_right child n.right)
  set_parent child n.parent
  set_left node null
  set_right node null
  set_parent node null
  pure (if n.parent == null then child else root)

drop_phantom : Ptr → Ptr → Rb Ptr
drop_phantom root phantom = do
  p ← parent_of phantom
  if p == null
      then pure (if root == phantom then null else root)
      else do l ← left_of p; if phantom == l then set_left p null else set_right p null; pure root

-- A local variable comes to be at an address.
abbrev declare : Ptr → RbNode → Rb (Unit {0})
declare p n s = some (tt, write s p n)

-- `api_rbtree_remove`; `phantom` is the address of its local node.
unfoldable pub remove : ℕ → Ptr → Ptr → Ptr → Rb Ptr
unfolding remove_bal swap_down splice drop_phantom
remove fuel phantom root node = do
  declare phantom (rb null null null black)
  root ← swap_down fuel root node
  n ← load node
  let child =
      if not (n.left == null) then n.left else if not (n.right == null) then n.right else phantom
  root ← splice root node child
  c ← color_of node
  cc ← color_of child
  root ←
      if is_red c
      then pure root
      else if is_red cc
      then (set_color child black >> pure root)
      else remove_bal fuel root child
  if phantom == child then drop_phantom root phantom else pure root

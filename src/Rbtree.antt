-- ===== src/Rbtree.antt =====
-- api/src/api_rbtree.c: the intrusive red-black tree that timers are kept in. This file has the
-- nodes, their relatives, the rotations and the walks; `Rbtree.Insert` and `Rbtree.Remove` have the rest.
-- A root pointer is given to an operation and returned by it.
pub mod Insert
pub mod Remove
pub mod Shape
mod Tests
use libapi.Base.{
  ℕ, zero, suc, ◌≡◌, Bool, true, false, ◌&&◌, not, Option, none, some, ◌==◌, if◌then◌else◌,
}
use libapi.Memory.{Ptr, null, Store, Cmd, pure, ◌>>=◌, ◌>>◌, load, modify}

-- `API_RB_BLACK` and `API_RB_RED`
pub data Color : Type 0 where
  black red : Color

abbrev pub is_red : Color → Bool
is_red black = false
is_red red = true

-- `api_rbnode_t`
pub record RbNode : Type 0 where
  pub parent : Ptr
  pub left : Ptr
  pub right : Ptr
  pub color : Color

abbrev pub rb : Ptr → Ptr → Ptr → Color → RbNode
rb p l r c = record { parent = p; left = l; right = r; color = c }

-- The sign of what an `api_rbnode_compare` returns.
pub data Sign : Type 0 where
  negative zero_sign positive : Sign

abbrev pub is_negative : Sign → Bool
is_negative negative = true
is_negative _ = false

abbrev pub Compare : Type 0
Compare = Ptr → Ptr → Sign

abbrev pub Rb : Type 0 → Type 0
Rb A = Cmd RbNode A

abbrev pub parent_of : Ptr → Rb Ptr
parent_of p = load p >>= λ n. pure n.parent

abbrev pub left_of : Ptr → Rb Ptr
left_of p = load p >>= λ n. pure n.left

abbrev pub right_of : Ptr → Rb Ptr
right_of p = load p >>= λ n. pure n.right

abbrev pub set_parent : Ptr → Ptr → Rb (Unit {0})
set_parent p q = modify p (λ n. record n { parent = q })

abbrev pub set_left : Ptr → Ptr → Rb (Unit {0})
set_left p q = modify p (λ n. record n { left = q })

abbrev pub set_right : Ptr → Ptr → Rb (Unit {0})
set_right p q = modify p (λ n. record n { right = q })

abbrev pub set_color : Ptr → Color → Rb (Unit {0})
set_color p c = modify p (λ n. record n { color = c })

abbrev pub unless_null : Ptr → Rb (Unit {0}) → Rb (Unit {0})
unless_null p m = if p == null then pure tt else m

-- `RB_COLOR`
unfoldable pub color_of : Ptr → Rb Color
color_of p = if p == null then pure black else (load p >>= λ n. pure n.color)

unfoldable pub grandparent : Ptr → Rb Ptr
grandparent node = do p ← parent_of node; if p == null then pure null else parent_of p

unfoldable pub uncle : Ptr → Rb Ptr
uncle node = do
  g ← grandparent node
  if g == null
      then pure null
      else do p ← parent_of node; l ← left_of g; if p == l then right_of g else left_of g

unfoldable pub sibling : Ptr → Rb Ptr
sibling node = do
  p ← parent_of node
  l ← left_of p
  if node == l then (do q ← parent_of node; right_of q) else (do q ← parent_of node; left_of q)

-- The first part of `api_rbtree_rotate_left`: the left child of `right` becomes the right one of `node`.
unfoldable pub take_left : Ptr → Ptr → Rb (Unit {0})
take_left node right = do
  rl ← left_of right
  set_right node rl
  r ← right_of node
  unless_null r (do l ← left_of right; set_parent l node)

-- The second part: `right` comes below the parent of `node`, whose place it takes; the result is the root.
unfoldable pub take_place : Ptr → Ptr → Ptr → Rb Ptr
take_place root node right = do
  np ← parent_of node
  set_parent right np
  rp ← parent_of right
  if rp == null then pure right else do
    l ← left_of rp
    p ← parent_of node
    if node == l then set_left p right else set_right p right
    pure root

unfoldable pub rotate_left : Ptr → Ptr → Rb Ptr
unfolding take_left take_place
rotate_left root node = do
  right ← right_of node
  take_left node right
  root' ← take_place root node right
  set_left right node
  set_parent node right
  pure root'

-- The same parts of `api_rbtree_rotate_right`.
unfoldable pub take_right : Ptr → Ptr → Rb (Unit {0})
take_right node left = do
  lr ← right_of left
  set_left node lr
  l ← left_of node
  unless_null l (do r ← right_of left; set_parent r node)

unfoldable pub take_place_right : Ptr → Ptr → Ptr → Rb Ptr
take_place_right root node left = do
  np ← parent_of node
  set_parent left np
  lp ← parent_of left
  if lp == null then pure left else do
    l' ← left_of lp
    p ← parent_of left
    if node == l' then set_left p left else set_right p left
    pure root

unfoldable pub rotate_right : Ptr → Ptr → Rb Ptr
unfolding take_right take_place_right
rotate_right root node = do
  left ← left_of node
  take_right node left
  root' ← take_place_right root node left
  set_right left node
  set_parent node left
  pure root'

-- `while (p->left) p = p->left`, on fuel.
unfoldable pub leftmost : ℕ → Ptr → Rb Ptr
leftmost zero p = λ _. none
leftmost (suc fuel) p = do l ← left_of p; if l == null then pure p else leftmost fuel l

unfoldable pub first : ℕ → Ptr → Rb Ptr
unfolding leftmost
first fuel root = if root == null then pure null else leftmost fuel root

-- Where `api_rbtree_next` goes before it walks to the left.
unfoldable pub next_start : Ptr → Rb Ptr
next_start node = do
  r ← right_of node
  if not (r == null) then pure r else do
    p ← parent_of node
    if p == null then pure null else do pr ← right_of p; if node == pr then pure null else pure pr

unfoldable pub next : ℕ → Ptr → Rb Ptr
unfolding next_start leftmost
next fuel node = do n ← next_start node; if n == null then pure null else leftmost fuel n

-- `value` need not be in the tree.
unfoldable pub search : ℕ → Compare → Ptr → Ptr → Rb Ptr
search zero compare node value = λ _. none
search (suc fuel) compare node value =
    if node == null then pure null else (elim (compare value node) [
      | zero_sign ↦ pure node
      | negative ↦ left_of node >>= λ l. search fuel compare l value
      | positive ↦ right_of node >>= λ r. search fuel compare r value
    ])

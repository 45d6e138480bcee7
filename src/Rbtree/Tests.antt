-- ===== src/Rbtree/Tests.antt =====
-- The tree operations run on small trees.
use libapi.Base.{
  ℕ, zero, suc, ◌≡◌, ◌≢◌, refl, arith, List, [], ◌∷◌, ◌++◌, Option, none, some, ltb, ◌==◌,
  if◌then◌else◌, true, false, has,
}
use libapi.Memory.{Ptr, null, Store, pure, ◌>>=◌, load, modify, write}
use libapi.Rbtree.{
  Color, black, red, RbNode, rb, negative, zero_sign, positive, Compare, Rb, color_of, grandparent,
  uncle, sibling, rotate_left, rotate_right, next, search,
}
use libapi.Rbtree.Insert.{insert}
use libapi.Rbtree.Remove.{remove}
use libapi.Rbtree.Shape.{RbTree, leaf, branch, inorder, height, Holds}
use libapi.Rbtree.Shape.Context.{Context, at_root, in_left, nodes, Rotated}
use libapi.Rbtree.Shape.RotateLeft.{rotate_left-Rotated}
use libapi.Rbtree.Shape.RotateRight.{rotate_right-Rotated}
use libapi.Rbtree.Shape.Walk.{next-inorder}
use libapi.Rbtree.Shape.Search.{Ordered, sign_of, find, search-find}

-- Nodes are compared by their addresses.
abbrev by_address : Compare
by_address a b = if ltb a b then negative else if a == b then zero_sign else positive

abbrev blank : Store RbNode
blank p = if ltb p 50 then some (rb null null null black) else none

by_address-sign_of : (a b : Ptr) → by_address a b ≡ sign_of a b
unfolding sign_of
by_address-sign_of a b = refl

insert_all : Ptr → List Ptr → Rb Ptr
insert_all root [] = pure root
insert_all root (p ∷ ps) = insert 20 by_address root p >>= λ r. insert_all r ps

walk : ℕ → Ptr → Rb (List (Ptr × Color))
walk zero p = pure []
walk (suc n) p =
    if p == null
    then pure []
    else do m ← load p; ls ← walk n m.left; rs ← walk n m.right; pure (ls ++ (p, m.color) ∷ rs)

abbrev values : {A : Type 0} → Option (A × Store RbNode) → Option A
values none = none
values (some (a, s)) = some a

build : List Ptr → Option (List (Ptr × Color))
unfolding insert_all walk insert rotate_left rotate_right color_of grandparent uncle sibling load
    modify write
build ps = values ((do r ← insert_all null ps; walk 9 r) blank)

-- Seven nodes put in from the smallest on.
build-seven :
    build (1 ∷ 2 ∷ 3 ∷ 4 ∷ 5 ∷ 6 ∷ 7 ∷ [])
    ≡ some ((1, black) ∷ (2, black) ∷ (3, black) ∷ (4, red) ∷ (5, red) ∷ (6, black) ∷ (7, red) ∷ [])
unfolding build
build-seven = refl

build_without : List Ptr → Ptr → Option (List (Ptr × Color))
unfolding build remove
build_without ps p = values ((do r ← insert_all null ps; r' ← remove 20 49 r p; walk 9 r') blank)

-- The one with two children among them is taken out.
build_without-four :
    build_without (1 ∷ 2 ∷ 3 ∷ 4 ∷ 5 ∷ 6 ∷ 7 ∷ []) 4
    ≡ some ((1, black) ∷ (2, black) ∷ (3, black) ∷ (5, red) ∷ (6, red) ∷ (7, black) ∷ [])
unfolding build_without
build_without-four = refl

-- The tree of the nodes 1, 2, 3 and 4 with 3 at the root.
abbrev four : RbTree
four = branch 3 black (branch 2 black (branch 1 red leaf leaf) leaf) (branch 4 black leaf leaf)

abbrev four_nodes : Store RbNode
four_nodes p =
    if p == 1
    then some (rb 2 null null red)
    else if p == 2
    then some (rb 3 1 null black)
    else if p == 3
    then some (rb null 2 4 black)
    else if p == 4
    then some (rb 3 null null black)
    else none

some_node : (n : ℕ) → suc n ≢ null
some_node n = λ e. absurd (omega arith)

four_nodes-Holds : Holds four_nodes null four
four_nodes-Holds = (
  some_node 2,
  refl,
  (some_node 1, refl, (some_node 0, refl, tt, tt), tt),
  (some_node 3, refl, tt, tt),
)

four-Ordered : Ordered (λ p. p) four
unfolding Ordered inorder
four-Ordered = (
  (omega arith, (omega arith, tt)),
  (omega arith, tt),
  ((omega arith, tt), tt, (tt, tt, tt, tt), tt),
  (tt, tt, tt, tt),
)

next-inorder_example : next 4 3 four_nodes ≡ some (4, four_nodes)
unfolding inorder height
next-inorder_example =
    next-inorder four_nodes 4 null 3 black (branch 2 black (branch 1 red leaf leaf) leaf) 4 black
      leaf leaf four_nodes-Holds (omega arith)

search-find_example : search 4 by_address 3 2 four_nodes ≡ some (2, four_nodes)
unfolding inorder height find
search-find_example =
    search-find (λ p. p) by_address 2 (λ p. by_address-sign_of 2 p) four_nodes 4 null four
      four_nodes-Holds four-Ordered (omega arith)

-- The tree of 3, 5 and 4 below its left node 2, itself below 8, and its rotation back.
abbrev leaning_right : Store RbNode
leaning_right p =
    if p == 8
    then some (rb null 2 null black)
    else if p == 2
    then some (rb 8 null 4 black)
    else if p == 4
    then some (rb 2 3 5 red)
    else if p == 3
    then some (rb 4 null null black)
    else if p == 5
    then some (rb 4 null null black)
    else none

abbrev leaning_left : Store RbNode
leaning_left p =
    if p == 8
    then some (rb null 4 null black)
    else if p == 4
    then some (rb 8 2 5 red)
    else if p == 2
    then some (rb 4 null 3 black)
    else if p == 3
    then some (rb 2 null null black)
    else if p == 5
    then some (rb 4 null null black)
    else none

abbrev below_8 : Context
below_8 = in_left 8 black leaf at_root

abbrev right_tree : RbTree
right_tree =
    branch 2 black leaf (branch 4 red (branch 3 black leaf leaf) (branch 5 black leaf leaf))

abbrev left_tree : RbTree
left_tree = branch 4 red (branch 2 black leaf (branch 3 black leaf leaf)) (branch 5 black leaf leaf)

off_8 : (q : Ptr) → has q (2 ∷ 3 ∷ 4 ∷ 5 ∷ []) ≡ true → has q (8 ∷ []) ≡ false
off_8 q i = ground arith

rotate_left-Rotated_example :
    (s' : Store RbNode) × (rotate_left 8 2 leaning_right ≡ some (8, s'))
    × Rotated leaning_right s' below_8 right_tree left_tree
unfolding inorder nodes
rotate_left-Rotated_example =
    rotate_left-Rotated leaning_right 8 2 4 black red leaf (branch 3 black leaf leaf)
      (branch 5 black leaf leaf) below_8
      (
        some_node 1,
        refl,
        tt,
        (some_node 3, refl, (some_node 2, refl, tt, tt), (some_node 4, refl, tt, tt)),
      )
      (some_node 7, refl, tt, tt)
      (
        refl,
        refl,
        (λ q i. ground arith),
        tt,
        (
          refl,
          refl,
          (λ q i. ground arith),
          (refl, refl, (λ q i. ground arith), tt, tt),
          (refl, refl, (λ q i. ground arith), tt, tt),
        ),
      )
      (refl, refl, (λ q i. ground arith), tt, tt) off_8

rotate_right-Rotated_example :
    (s' : Store RbNode) × (rotate_right 8 4 leaning_left ≡ some (8, s'))
    × Rotated leaning_left s' below_8 left_tree right_tree
unfolding inorder nodes
rotate_right-Rotated_example =
    rotate_right-Rotated leaning_left 8 4 2 red black leaf (branch 3 black leaf leaf)
      (branch 5 black leaf leaf) below_8
      (
        some_node 3,
        refl,
        (some_node 1, refl, tt, (some_node 2, refl, tt, tt)),
        (some_node 4, refl, tt, tt),
      )
      (some_node 7, refl, tt, tt)
      (
        refl,
        refl,
        (λ q i. ground arith),
        (refl, refl, (λ q i. ground arith), tt, (refl, refl, (λ q i. ground arith), tt, tt)),
        (refl, refl, (λ q i. ground arith), tt, tt),
      )
      (refl, refl, (λ q i. ground arith), tt, tt) off_8

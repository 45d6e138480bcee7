-- ===== src/Rbtree/Shape.antt =====
-- The tree that a store holds, and the walks of api/src/api_rbtree.c over it.
pub mod Walk
pub mod Context
pub mod Rotate
pub mod RotateLeft
pub mod RotateRight
pub mod Search
use libapi.Base.{
  ℕ, zero, suc, ◌+◌, ◌≡◌, ◌≢◌, refl, List, [], ◌∷◌, ◌++◌, some, has, Bool, true, false, max,
}
use libapi.Memory.{Ptr, null, Store}
use libapi.Rbtree.{Color, RbNode, rb}

pub data RbTree : Type 0 where
  leaf : RbTree
  branch : Ptr → Color → RbTree → RbTree → RbTree

-- The pointer to a tree.
abbrev pub top : RbTree → Ptr
top leaf = null
top (branch p c l r) = p

-- The nodes from left to right.
unfoldable pub inorder : RbTree → List Ptr
inorder leaf = []
inorder (branch p c l r) = inorder l ++ p ∷ inorder r

unfoldable pub height : RbTree → ℕ
height leaf = 0
height (branch p c l r) = suc (max (height l) (height r))

-- The store holds the tree below `parent`, with every link in both directions.
abbrev pub Holds : Store RbNode → Ptr → RbTree → Type 0
Holds s parent leaf = Unit {0}
Holds s parent (branch p c l r) =
    (p ≢ null) × (s p ≡ some (rb parent (top l) (top r) c)) × Holds s p l × Holds s p r

-- The first of some nodes, or `d`.
abbrev pub first_or : List Ptr → Ptr → Ptr
first_or [] d = d
first_or (x ∷ xs) d = x

pub first_or-append :
    (xs : List Ptr) (y : Ptr) (ys : List Ptr) (d : Ptr) → first_or (xs ++ y ∷ ys) d ≡ first_or xs y
first_or-append [] y ys d = refl
first_or-append (x ∷ xs) y ys d = refl

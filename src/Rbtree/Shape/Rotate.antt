-- ===== src/Rbtree/Shape/Rotate.antt =====
-- What the rotations of api/src/api_rbtree.c share: the place of the node that is rotated.
use libapi.Base.{
  ◌≡◌, ◌≢◌, sym, ◌∙◌, inl, inr, List, [], ◌++◌, Bool, true, false, some, has, Bool-cases,
}
use libapi.Memory.{Ptr, null, Store}
use libapi.Rbtree.{Color, RbNode, rb}
use libapi.Rbtree.Shape.{inorder}
use libapi.Rbtree.Shape.Context.{Context, at_root, in_left, in_right, below, nodes, Around, outside}

-- Nodes other than some one and those of a list are as before.
abbrev pub Others : Store RbNode → Store RbNode → Ptr → List Ptr → Type 0
Others s s' x ps = (q : Ptr) → q ≢ x → has q ps ≡ false → s' q ≡ s q

pub below_other : (q : Ptr) (ctx : Context) → q ≢ null → has q (nodes ctx) ≡ false → q ≢ below ctx
unfolding nodes
below_other q at_root n h = n
below_other q (in_left p c t ctx) n h = (outside q p [] (inorder t ++ nodes ctx) h).0
below_other q (in_right p c t ctx) n h = (outside q p [] (inorder t ++ nodes ctx) h).0

pub record Placed (s s' : Store RbNode) (ctx : Context) (y lb rc : Ptr) (cy : Color) : Type 0 where
  pub node_at : s' y ≡ some (rb (below ctx) lb rc cy)
  pub around : Around s' y ctx
  pub others : (q : Ptr) → q ≢ y → q ≢ below ctx → s' q ≡ s q

-- The pointer to the root, after `y` has taken a place.
abbrev pub root_after : Context → Ptr → Ptr → Ptr
root_after at_root root y = y
root_after (in_left p c t ctx) root y = root
root_after (in_right p c t ctx) root y = root

pub apart_sym :
    (xs ys : List Ptr)
    → ((q : Ptr) → has q xs ≡ true → has q ys ≡ false)
    → (q : Ptr) → has q ys ≡ true
    → has q xs ≡ false
apart_sym xs ys h q i = elim (Bool-cases (has q xs)) [
  | inl e ↦ absurd (both_ways (has q ys) i (h q e))
  | inr e ↦ e
]
  where
    both_ways : (b : Bool) → b ≡ true → b ≢ false
    both_ways b e f = cc (sym e ∙ f)

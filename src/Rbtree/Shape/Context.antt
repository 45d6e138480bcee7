-- ===== src/Rbtree/Shape/Context.antt =====
-- A tree in its place: what a store holds around a node of a tree of api/src/api_rbtree.c.
use mathlib.Core.Path.{subst}
use libapi.Base.{
  ◌≡◌, ◌≢◌, sym, ◌∙◌, inl, inr, List, [], ◌∷◌, ◌++◌, true, false, some, ◌==◌, has, arith,
  Bool-cases, ==→eq,
}
use libapi.Memory.{Ptr, null, Store}
use libapi.Rbtree.{Color, RbNode, rb}
use libapi.Rbtree.Shape.{RbTree, leaf, branch, top, inorder, Holds}
use libapi.NodeList.Chain.{has-append, out_left, out_right}

-- The way from a node up to the root, with what hangs off it on the other side.
pub data Context : Type 0 where
  at_root : Context
  in_left in_right : Ptr → Color → RbTree → Context → Context

-- The node below which the place is.
abbrev pub below : Context → Ptr
below at_root = null
below (in_left p c t ctx) = p
below (in_right p c t ctx) = p

unfoldable pub nodes : Context → List Ptr
unfolding inorder
nodes at_root = []
nodes (in_left p c t ctx) = p ∷ inorder t ++ nodes ctx
nodes (in_right p c t ctx) = p ∷ inorder t ++ nodes ctx

-- The store holds the context, with `hole` in its place.
abbrev pub Around : Store RbNode → Ptr → Context → Type 0
Around s hole at_root = Unit {0}
Around s hole (in_left p c t ctx) =
    (p ≢ null) × (s p ≡ some (rb (below ctx) hole (top t) c)) × Holds s p t × Around s p ctx
Around s hole (in_right p c t ctx) =
    (p ≢ null) × (s p ≡ some (rb (below ctx) (top t) hole c)) × Holds s p t × Around s p ctx

-- Nodes outside a list.
abbrev pub Same : Store RbNode → Store RbNode → List Ptr → Type 0
Same s s' ps = (q : Ptr) → has q ps ≡ true → s' q ≡ s q

pub has_left : (q : Ptr) (xs ys : List Ptr) → has q xs ≡ true → has q (xs ++ ys) ≡ true
has_left q xs ys h = ground (arith, has-append q xs ys)

pub has_right : (q : Ptr) (xs ys : List Ptr) → has q ys ≡ true → has q (xs ++ ys) ≡ true
has_right q xs ys h = ground (arith, has-append q xs ys)

has_here : (q : Ptr) (xs : List Ptr) → has q (q ∷ xs) ≡ true
has_here q xs = ground arith

pub has_later : (q p : Ptr) (xs : List Ptr) → has q xs ≡ true → has q (p ∷ xs) ≡ true
has_later q p xs h = ground arith

pub has_middle : (q : Ptr) (xs ys : List Ptr) → has q (xs ++ q ∷ ys) ≡ true
has_middle q xs ys = has_right q xs (q ∷ ys) (has_here q ys)

-- A tree is held as long as its nodes stay.
pub Holds-Same :
    (s s' : Store RbNode) (p : Ptr) (t : RbTree)
    → Same s s' (inorder t)
    → Holds s p t
    → Holds s' p t
unfolding inorder
Holds-Same s s' p leaf same h = tt
Holds-Same s s' p (branch q c l r) same (n, e, hl, hr) = (
  n,
  same q (has_right q (inorder l) (q ∷ inorder r) (has_here q (inorder r))) ∙ e,
  Holds-Same s s' q l (λ a i. same a (has_left a (inorder l) (q ∷ inorder r) i)) hl,
  Holds-Same s s' q r
      (λ a i. same a (has_right a (inorder l) (q ∷ inorder r) (has_later a q (inorder r) i))) hr,
)

-- No node of a tree is null.
pub Holds-some :
    (s : Store RbNode) (p : Ptr) (t : RbTree) (q : Ptr)
    → Holds s p t
    → has q (inorder t) ≡ true
    → q ≢ null
unfolding inorder
Holds-some s p leaf q h i = cc i
Holds-some s p (branch x c l r) q (n, e, hl, hr) i = elim (Bool-cases (has q (inorder l))) [
  | inl j ↦ Holds-some s x l q hl j
  | inr j ↦ elim (Bool-cases (q == x)) [
    | inl k ↦ λ e'. n (sym (==→eq q x k) ∙ e')
    | inr k ↦ Holds-some s x r q hr (ground (arith, has-append q (inorder l) (x ∷ inorder r)))
  ]
]

pub Around-Same :
    (s s' : Store RbNode) (hole : Ptr) (ctx : Context)
    → Same s s' (nodes ctx)
    → Around s hole ctx
    → Around s' hole ctx
unfolding nodes
Around-Same s s' hole at_root same h = tt
Around-Same s s' hole (in_left p c t ctx) same (n, e, ht, hc) = (
  n,
  same p (has_here p _) ∙ e,
  Holds-Same s s' p t (λ a i. same a (has_later a p _ (has_left a (inorder t) (nodes ctx) i))) ht,
  Around-Same s s' p ctx (λ a i. same a (has_later a p _ (has_right a (inorder t) (nodes ctx) i)))
      hc,
)
Around-Same s s' hole (in_right p c t ctx) same (n, e, ht, hc) = (
  n,
  same p (has_here p _) ∙ e,
  Holds-Same s s' p t (λ a i. same a (has_later a p _ (has_left a (inorder t) (nodes ctx) i))) ht,
  Around-Same s s' p ctx (λ a i. same a (has_later a p _ (has_right a (inorder t) (nodes ctx) i)))
      hc,
)

-- All nodes of a tree are different.
abbrev pub Separate : RbTree → Type 0
Separate leaf = Unit {0}
Separate (branch p c l r) =
    (has p (inorder l) ≡ false)
    × (has p (inorder r) ≡ false)
    × ((q : Ptr) → has q (inorder l) ≡ true → has q (inorder r) ≡ false)
    × Separate l
    × Separate r

-- And all nodes of a context.
abbrev pub Parted : Context → Type 0
Parted at_root = Unit {0}
Parted (in_left p c t ctx) =
    (has p (inorder t) ≡ false)
    × (has p (nodes ctx) ≡ false)
    × ((q : Ptr) → has q (inorder t) ≡ true → has q (nodes ctx) ≡ false)
    × Separate t
    × Parted ctx
Parted (in_right p c t ctx) =
    (has p (inorder t) ≡ false)
    × (has p (nodes ctx) ≡ false)
    × ((q : Ptr) → has q (inorder t) ≡ true → has q (nodes ctx) ≡ false)
    × Separate t
    × Parted ctx

-- A node outside a tree.
pub outside :
    (q p : Ptr) (l r : List Ptr)
    → has q (l ++ p ∷ r) ≡ false
    → (q ≢ p) × (has q l ≡ false) × (has q r ≡ false)
outside q p l r h =
    let rest = out_right q l (p ∷ r) h in
    let rest' = out_right q (p ∷ []) r rest in (not_first q p r rest, out_left q l (p ∷ r) h, rest')
  where
    not_first : (q p : Ptr) (ps : List Ptr) → has q (p ∷ ps) ≡ false → q ≢ p
    not_first q p ps h = ground arith

pub outside_all :
    (q p : Ptr) (l r : List Ptr)
    → q ≢ p
    → has q l ≡ false
    → has q r ≡ false
    → has q (l ++ p ∷ r) ≡ false
outside_all q p l r n hl hr = ground (arith, has-append q l (p ∷ r))

-- What all nodes of a branch have that its children's nodes and its own have.
pub inside_all :
    (P : Ptr → Type 0) (p : Ptr) (l r : List Ptr)
    → ((q : Ptr) → has q l ≡ true → P q)
    → P p
    → ((q : Ptr) → has q r ≡ true → P q)
    → (q : Ptr) → has q (l ++ p ∷ r) ≡ true
    → P q
inside_all P p l r hl hp hr q i = elim (Bool-cases (has q l)) [
  | inl j ↦ hl q j
  | inr j ↦ elim (Bool-cases (q == p)) [
    | inl k ↦ subst P (sym (==→eq q p k)) hp
    | inr k ↦ hr q (ground (arith, has-append q l (p ∷ r)))
  ]
]

-- `s'` is `s` with the tree `t'` for `t` in its place: the same nodes in the same order, still different.
pub record Rotated (s s' : Store RbNode) (ctx : Context) (t t' : RbTree) : Type 0 where
  pub held : Holds s' (below ctx) t'
  pub around : Around s' (top t') ctx
  pub separate : Separate t'
  pub order : inorder t' ≡ inorder t
  pub others : (q : Ptr) → has q (inorder t) ≡ false → q ≢ below ctx → s' q ≡ s q

pub top_other : (q : Ptr) (t : RbTree) → q ≢ null → has q (inorder t) ≡ false → q ≢ top t
unfolding inorder
top_other q leaf n h = n
top_other q (branch p c l r) n h = (outside q p (inorder l) (inorder r) h).0

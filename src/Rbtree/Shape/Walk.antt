-- ===== src/Rbtree/Shape/Walk.antt =====
-- `api_rbtree_first` finds the leftmost node; `api_rbtree_next` finds the next one where a node
-- has a right subtree, and leaves the parent out where it has none.
use libapi.Base.{
  ℕ, zero, suc, ◌<◌, ◌≡◌, ◌≢◌, refl, sym, [], ◌∷◌, ◌++◌, some, arith, ne→not_==, append_assoc,
}
use libapi.Memory.{Ptr, null, Store, load_lem}
use libapi.Rbtree.{Color, RbNode, leftmost, first, next, next_start}
use libapi.Rbtree.Shape.{
  RbTree, leaf, branch, top, inorder, height, Holds, first_or, first_or-append,
}

module _ (s : Store RbNode) where
  leftmost_lem :
      (fuel : ℕ) (parent p : Ptr) (c : Color) (l r : RbTree)
      → Holds s parent (branch p c l r)
      → height l < fuel
      → leftmost fuel p s ≡ some (first_or (inorder l) p, s)
  unfolding leftmost height inorder
  leftmost_lem zero parent p c l r h more = absurd (omega arith)
  leftmost_lem (suc fuel) parent p c leaf r h more = rw (load_lem s p _ h.0 h.1)
  leftmost_lem (suc fuel) parent p c (branch q d ll lr) r h more =
      rw
        (
          load_lem s p _ h.0 h.1,
          ne→not_== q null h.2.0,
          first_or-append (inorder ll) q (inorder lr) p,
        )
        (leftmost_lem fuel p q d ll lr h.2 (omega arith))

  -- The walk to the left ends at the first node of the tree, or at null if it is empty.
  pub first-inorder :
      (fuel : ℕ) (t : RbTree)
      → Holds s null t
      → height t < fuel
      → first fuel (top t) s ≡ some (first_or (inorder t) null, s)
  unfolding first inorder height
  first-inorder fuel leaf h more = refl
  first-inorder fuel (branch p c l r) h more =
      rw (ne→not_== p null h.0, first_or-append (inorder l) p (inorder r) null)
        (leftmost_lem fuel null p c l r h (omega arith))

  -- A node with a right subtree: the next node is the first one of that subtree, which follows it
  -- from left to right.
  pub next-inorder :
      (fuel : ℕ) (parent p : Ptr) (c : Color) (l : RbTree) (q : Ptr) (d : Color) (rl rr : RbTree)
      → Holds s parent (branch p c l (branch q d rl rr))
      → height rl < fuel
      → next fuel p s ≡ some (first_or (inorder (branch q d rl rr)) null, s)
  unfolding next next_start inorder
  next-inorder fuel parent p c l q d rl rr h more =
      rw
        (
          load_lem s p _ h.0 h.1,
          ne→not_== q null h.3.0,
          ne→not_== q null h.3.0,
          first_or-append (inorder rl) q (inorder rr) null,
        )
        (leftmost_lem fuel p q d rl rr h.3 more)

  -- A left child `n` with no right subtree: the node that follows it from left to right is its
  -- parent, but `api_rbtree_next` goes to the first node of the parent's right subtree, or ends.
  pub next_skips_parent :
      (fuel : ℕ) (parent p : Ptr) (c : Color) (n : Ptr) (d : Color) (nl r : RbTree)
      → Holds s parent (branch p c (branch n d nl leaf) r)
      → top r ≢ n
      → height r < fuel
      → (inorder (branch p c (branch n d nl leaf) r) ≡ inorder nl ++ n ∷ p ∷ inorder r)
        × (next fuel n s ≡ some (first_or (inorder r) null, s))
  unfolding next next_start inorder height
  next_skips_parent fuel parent p c n d nl r h apart more =
      (append_assoc (inorder nl) (n ∷ []) (p ∷ inorder r), go r h apart more)
    where
      go :
          (r : RbTree)
          → Holds s parent (branch p c (branch n d nl leaf) r)
          → top r ≢ n
          → height r < fuel
          → next fuel n s ≡ some (first_or (inorder r) null, s)
      go leaf h apart more =
          rw
            (
              load_lem s n _ h.2.0 h.2.1,
              load_lem s n _ h.2.0 h.2.1,
              ne→not_== p null h.0,
              load_lem s p _ h.0 h.1,
              ne→not_== n null h.2.0,
            )
            refl
      go (branch q e rl rr) h apart more =
          rw
            (
              load_lem s n _ h.2.0 h.2.1,
              load_lem s n _ h.2.0 h.2.1,
              ne→not_== p null h.0,
              load_lem s p _ h.0 h.1,
              ne→not_== n q (λ x. apart (sym x)),
              ne→not_== q null h.3.0,
              first_or-append (inorder rl) q (inorder rr) null,
            )
            (leftmost_lem fuel p q e rl rr h.3 (omega arith))

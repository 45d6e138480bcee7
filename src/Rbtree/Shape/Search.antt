-- ===== src/Rbtree/Shape/Search.antt =====
-- `api_rbtree_search` of api/src/api_rbtree.c over a tree that is in order.
use libapi.Base.{
  ℕ, zero, suc, ◌<◌, ◌≡◌, refl, sym, ap, ◌∙◌, ◌⊎◌, inl, inr, List, [], ◌∷◌, ◌++◌, some, arith, ◌==◌,
  ne→not_==, ==_refl, ltb, All, if◌then◌else◌,
}
use libapi.Memory.{Ptr, null, Store, load_lem}
use libapi.Rbtree.{RbNode, Sign, negative, zero_sign, positive, Compare, search}
use libapi.Rbtree.Shape.{RbTree, leaf, branch, top, inorder, height, Holds}

-- The sign of the difference of two keys.
unfoldable pub sign_of : ℕ → ℕ → Sign
sign_of a b = if ltb a b then negative else if a == b then zero_sign else positive

module _ (key : Ptr → ℕ) where
  -- Keys grow strictly from left to right.
  unfoldable pub Ordered : RbTree → Type 0
  Ordered leaf = Unit {0}
  Ordered (branch p c l r) =
      All (λ q. key q < key p) (inorder l)
      × All (λ q. key p < key q) (inorder r)
      × Ordered l
      × Ordered r

  -- The first node of some with a key, or null.
  unfoldable pub find : ℕ → List Ptr → Ptr
  find k [] = null
  find k (p ∷ ps) = if key p == k then p else find k ps

  find_behind : (k : ℕ) (xs ys : List Ptr) → All (λ q. key q < k) xs → find k (xs ++ ys) ≡ find k ys
  unfolding find
  find_behind k [] ys h = refl
  find_behind k (x ∷ xs) ys h =
      rw (ne→not_== (key x) k (λ e. absurd (omega arith))) (find_behind k xs ys h.1)

  find_nowhere : (k : ℕ) (ys : List Ptr) → All (λ q. k < key q) ys → find k ys ≡ null
  unfolding find
  find_nowhere k [] h = refl
  find_nowhere k (y ∷ ys) h =
      rw (ne→not_== (key y) k (λ e. absurd (omega arith))) (find_nowhere k ys h.1)

  find_ahead : (k : ℕ) (xs ys : List Ptr) → All (λ q. k < key q) ys → find k (xs ++ ys) ≡ find k xs
  unfolding find
  find_ahead k [] ys h = find_nowhere k ys h
  find_ahead k (x ∷ xs) ys h = ap (λ r. if key x == k then x else r) (find_ahead k xs ys h)

  above : (m k : ℕ) (ys : List Ptr) → k < m → All (λ q. m < key q) ys → All (λ q. k < key q) ys
  above m k [] less h = tt
  above m k (y ∷ ys) less h = (omega arith, above m k ys less h.1)

  below : (m k : ℕ) (ys : List Ptr) → m < k → All (λ q. key q < m) ys → All (λ q. key q < k) ys
  below m k [] less h = tt
  below m k (y ∷ ys) less h = (omega arith, below m k ys less h.1)

  found :
      (k : ℕ) (p : Ptr) (xs ys : List Ptr)
      → key p ≡ k
      → All (λ q. key q < key p) xs
      → find k (xs ++ p ∷ ys) ≡ p
  unfolding find
  found k p [] ys e h = rw (e, ==_refl k) refl
  found k p (x ∷ xs) ys e h =
      rw (ne→not_== (key x) k (λ e'. absurd (omega arith))) (found k p xs ys e h.1)

  passed :
      (k : ℕ) (p : Ptr) (xs ys : List Ptr)
      → key p < k
      → All (λ q. key q < key p) xs
      → find k (xs ++ p ∷ ys) ≡ find k ys
  unfolding find
  passed k p xs ys more h =
      find_behind k xs (p ∷ ys) (below (key p) k xs more h)
      ∙ rw (ne→not_== (key p) k (λ e. absurd (omega arith))) refl

  sign_lem :
      (a b : ℕ)
      → ((a < b) × (sign_of a b ≡ negative))
        ⊎ ((a ≡ b) × (sign_of a b ≡ zero_sign))
        ⊎ ((b < a) × (sign_of a b ≡ positive))
  unfolding sign_of
  sign_lem a b = ground arith

  -- The search returns the node with the key of `value`, or null if the tree has none: it does not
  -- fault, and it needs no more steps than the tree is high. `value` itself need not be in the tree.
  pub search-find :
      (compare : Compare) (value : Ptr)
      → ((p : Ptr) → compare value p ≡ sign_of (key value) (key p))
      → (s : Store RbNode) (fuel : ℕ) (parent : Ptr) (t : RbTree) → Holds s parent t
      → Ordered t
      → height t < fuel
      → search fuel compare (top t) value s ≡ some (find (key value) (inorder t), s)
  unfolding search height inorder find Ordered
  search-find compare value by_key s zero parent t h o more = absurd (omega arith)
  search-find compare value by_key s (suc fuel) parent leaf h o more = refl
  search-find compare value by_key s (suc fuel) parent (branch p c l r) h o more =
      elim (sign_lem (key value) (key p)) [
        | inl (less, e) ↦
            rw (ne→not_== p null h.0, by_key p, e, load_lem s p _ h.0 h.1)
              (search-find compare value by_key s fuel p l h.2 o.2 (omega arith)
                ∙ ap (λ x. some (x, s))
                    (sym (
                      find_ahead (key value) (inorder l) (p ∷ inorder r)
                        (less, above (key p) (key value) (inorder r) less o.1))))
        | inr (inl (same, e)) ↦
            rw (ne→not_== p null h.0, by_key p, e)
              (ap (λ x. some (x, s))
                (sym (found (key value) p (inorder l) (inorder r) (sym same) o.0)))
        | inr (inr (greater, e)) ↦
            rw (ne→not_== p null h.0, by_key p, e, load_lem s p _ h.0 h.1)
              (search-find compare value by_key s fuel p r h.3 o.3 (omega arith)
                ∙ ap (λ x. some (x, s))
                    (sym (passed (key value) p (inorder l) (inorder r) greater o.0)))
      ]

-- ===== src/Rbtree/Shape/RotateRight.antt =====
-- `api_rbtree_rotate_right` of api/src/api_rbtree.c on the tree that a store holds.
pub mod Take
pub mod Place
use libapi.Base.{◌≡◌, ◌≢◌, sym, ◌∙◌, ◌∷◌, ◌++◌, true, false, some, has, append_assoc}
use libapi.Memory.{Ptr, null, Store, write, write_same, write_other, load_lem, modify_lem}
use libapi.NodeList.Chain.{ne_of_has}
use libapi.Rbtree.{Color, RbNode, rb, take_right, take_place_right, rotate_right}
use libapi.Rbtree.Shape.{RbTree, branch, top, inorder, Holds}
use libapi.Rbtree.Shape.Context.{
  Context, below, nodes, Around, has_left, has_right, has_later, has_middle, Holds-Same, Holds-some,
  Around-Same, Separate, Parted, Rotated, outside, outside_all,
}
use libapi.Rbtree.Shape.Rotate.{Placed, root_after, below_other, apart_sym}
use libapi.Rbtree.Shape.RotateRight.Take.{Taken, take_right_lem}
use libapi.Rbtree.Shape.RotateRight.Place.{take_place_right_lem}

inorder-rotated :
    (x y : Ptr) (cx cy : Color) (a b c : RbTree)
    → inorder (branch y cy a (branch x cx b c)) ≡ inorder (branch x cx (branch y cy a b) c)
unfolding inorder
inorder-rotated x y cx cy a b c = sym (append_assoc (inorder a) (y ∷ inorder b) (x ∷ inorder c))

module _ (s : Store RbNode) (root x y : Ptr) (cx cy : Color) (a b c : RbTree) (ctx : Context)
    (held : Holds s (below ctx) (branch x cx (branch y cy a b) c)) (around : Around s x ctx)
    (separate : Separate (branch x cx (branch y cy a b) c)) (parted : Parted ctx)
    (apart : (q : Ptr)
      → has q (inorder (branch x cx (branch y cy a b) c)) ≡ true
      → has q (nodes ctx) ≡ false) where
  abbrev before : RbTree
  before = branch x cx (branch y cy a b) c

  abbrev turned : RbTree
  turned = branch y cy a (branch x cx b c)

  out_x : (x ≢ y) × (has x (inorder a) ≡ false) × (has x (inorder b) ≡ false)
  unfolding inorder
  out_x = outside x y (inorder a) (inorder b) separate.0

  in_x : has x (inorder before) ≡ true
  unfolding inorder
  in_x = has_middle x (inorder a ++ y ∷ inorder b) _

  in_left_tree :
      (q : Ptr) → has q (inorder a ++ y ∷ inorder b) ≡ true → has q (inorder before) ≡ true
  unfolding inorder
  in_left_tree q i = has_left q (inorder a ++ y ∷ inorder b) _ i

  in_y : has y (inorder before) ≡ true
  in_y = in_left_tree y (has_middle y (inorder a) _)

  in_a : (q : Ptr) → has q (inorder a) ≡ true → has q (inorder before) ≡ true
  in_a q i = in_left_tree q (has_left q (inorder a) _ i)

  in_b : (q : Ptr) → has q (inorder b) ≡ true → has q (inorder before) ≡ true
  in_b q i = in_left_tree q (has_right q (inorder a) _ (has_later q y _ i))

  in_c : (q : Ptr) → has q (inorder c) ≡ true → has q (inorder before) ≡ true
  unfolding inorder
  in_c q i = has_right q (inorder a ++ y ∷ inorder b) _ (has_later q x _ i)

  -- No node of the left tree is one of the right tree.
  off_c : (q : Ptr) → has q (inorder a ++ y ∷ inorder b) ≡ true → has q (inorder c) ≡ false
  unfolding inorder
  off_c q i = separate.2 q i

  -- A node of the right tree is none of the others.
  c_off :
      (q : Ptr)
      → has q (inorder c) ≡ true
      → (q ≢ y) × (has q (inorder a) ≡ false) × (has q (inorder b) ≡ false)
  c_off q i =
      outside q y (inorder a) (inorder b)
        (apart_sym (inorder a ++ y ∷ inorder b) (inorder c) off_c q i)

  off_all :
      (q : Ptr) → has q (inorder before) ≡ false → (q ≢ x) × (q ≢ y) × (has q (inorder b) ≡ false)
  unfolding inorder
  off_all q h =
      let (nx, hl, hc) = outside q x (inorder a ++ y ∷ inorder b) (inorder c) h in
      let (ny, ha, hb) = outside q y (inorder a) (inorder b) hl in (nx, ny, hb)

  y_off_c : has y (inorder c) ≡ false
  y_off_c = off_c y (has_middle y (inorder a) _)

  turned-Separate : Separate turned
  unfolding inorder
  turned-Separate = (
    separate.3.0,
    outside_all y x (inorder b) (inorder c) (λ e. out_x.0 (sym e)) separate.3.1 y_off_c,
    (λ q i.
        outside_all q x (inorder b) (inorder c) (ne_of_has q x (inorder a) i out_x.1)
          (separate.3.2 q i) (off_c q (has_left q (inorder a) _ i))),
    separate.3.3,
    (
      out_x.2,
      separate.1,
      (λ q i. off_c q (has_right q (inorder a) _ (has_later q y _ i))),
      separate.3.4,
      separate.4,
    ),
  )

  -- Nodes of the tree are not the one above it.
  inner : (q : Ptr) → has q (inorder before) ≡ true → q ≢ below ctx
  inner q i = below_other q ctx (Holds-some s (below ctx) _ q held i) (apart q i)

  outer : (q : Ptr) → has q (nodes ctx) ≡ true → (q ≢ x) × (q ≢ y) × (has q (inorder b) ≡ false)
  outer q i = off_all q (apart_sym _ (nodes ctx) apart q i)

  -- The result of the first two parts, and what is left to do.
  record Parts (s1 s2 : Store RbNode) : Type 0 where
    first : take_right x y s ≡ some (tt, s1)
    second : take_place_right root x y s1 ≡ some (root_after ctx root y, s2)
    taken : Taken s s1 (below ctx) (top c) x y cx b
    placed : Placed s1 s2 ctx y (top a) (top b) cy

  parts : (s1 s2 : Store RbNode) × Parts s1 s2
  parts =
      let nx : x ≢ null = held.0 in
      let (ny, ey, ha, hb) = held.2 in
      let (s1, e1, t1) =
        take_right_lem s (below ctx) (top c) x y x (top a) cx cy b nx ny out_x.0 (held.1) ey hb
          separate.3.4 out_x.2 separate.3.1 in
      let (s2, e2, t2) =
        take_place_right_lem s1 root x y (top b) (top c) x (top a) (top b) cx cy ctx nx ny out_x.0
          t1.node_at (t1.others y (λ e. out_x.0 (sym e)) separate.3.1 ∙ ey)
          (Around-Same s s1 x ctx (λ q i. let (n, m, h) = outer q i in t1.others q n h) around)
          parted (apart x in_x) (apart y in_y) in
      (s1, s2, record { first = e1; second = e2; taken = t1; placed = t2 })

  abbrev new_y : RbNode
  new_y = rb (below ctx) (top a) x cy

  abbrev new_x : RbNode
  new_x = rb y (top b) (top c) cx

  abbrev finally : Store RbNode → Store RbNode
  finally s2 = write (write s2 y new_y) x new_x

  -- What the two last writes leave.
  last_writes : (s2 : Store RbNode) (q : Ptr) → q ≢ x → q ≢ y → finally s2 q ≡ s2 q
  last_writes s2 q n m = write_other (write s2 y new_y) x q new_x n ∙ write_other s2 y q new_y m

  finally-Rotated : (s1 s2 : Store RbNode) → Parts s1 s2 → Rotated s (finally s2) ctx before turned
  finally-Rotated s1 s2 t =
      let since : (q : Ptr) → q ≢ x → q ≢ y → q ≢ below ctx → finally s2 q ≡ s1 q =
        λ q n m k. last_writes s2 q n m ∙ t.placed.others q m k in
      record {
        held = (
          held.2.0,
          write_other (write s2 y new_y) x y new_x (λ e. out_x.0 (sym e)) ∙ write_same s2 y new_y,
          Holds-Same s (finally s2) y a
              (λ q i.
                let n = ne_of_has q x (inorder a) i out_x.1 in
                since q n (ne_of_has q y (inorder a) i separate.3.0) (inner q (in_a q i))
                ∙ t.taken.others q n (separate.3.2 q i))
              held.2.2,
          (
            held.0,
            write_same (write s2 y new_y) x new_x,
            Holds-Same s1 (finally s2) x b
                (λ q i.
                  since q (ne_of_has q x (inorder b) i out_x.2)
                    (ne_of_has q y (inorder b) i separate.3.1) (inner q (in_b q i)))
                t.taken.held,
            Holds-Same s (finally s2) x c
                (λ q i.
                  let (m, ha, hb) = c_off q i in
                  let n = ne_of_has q x (inorder c) i separate.1 in
                  since q n m (inner q (in_c q i)) ∙ t.taken.others q n hb)
                held.3,
          ),
        );
        around =
            Around-Same s2 (finally s2) y ctx
              (λ q i. let (n, m, h) = outer q i in last_writes s2 q n m) t.placed.around;
        separate = turned-Separate;
        order = inorder-rotated x y cx cy a b c;
        others = λ q h k. let (n, m, hb) = off_all q h in since q n m k ∙ t.taken.others q n hb;
      }

  -- A rotation of a tree in its place in a larger one: the store then holds the rotated tree in that place,
  -- which has the same nodes in the same order, all links in both directions, and with the new node on
  -- top the root changes if the tree was all there is. No other node changes. The nodes are different.
  pub rotate_right-Rotated :
      (s' : Store RbNode) × (rotate_right root x s ≡ some (root_after ctx root y, s'))
      × Rotated s s' ctx (branch x cx (branch y cy a b) c) (branch y cy a (branch x cx b c))
  unfolding rotate_right
  rotate_right-Rotated =
      let (s1, s2, t) = parts in
      (
        finally s2,
        rw (
          load_lem s x _ (held.0) held.1,
          t.first,
          t.second,
          modify_lem s2 y (λ n. record n { right = x }) _ (held.2.0) t.placed.node_at,
          modify_lem (write s2 y new_y) x (λ n. record n { parent = y }) _ (held.0)
              (write_other s2 y x new_y out_x.0
                ∙ t.placed.others x out_x.0 (inner x in_x)
                ∙ t.taken.node_at),
        ),
        finally-Rotated s1 s2 t,
      )

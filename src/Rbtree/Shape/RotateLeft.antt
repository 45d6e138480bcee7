-- ===== src/Rbtree/Shape/RotateLeft.antt =====
-- `api_rbtree_rotate_left` of api/src/api_rbtree.c on the tree that a store holds.
pub mod Take
pub mod Place
use libapi.Base.{◌≡◌, ◌≢◌, sym, ◌∙◌, ◌∷◌, ◌++◌, true, false, some, has, append_assoc}
use libapi.Memory.{Ptr, null, Store, write, write_same, write_other, load_lem, modify_lem}
use libapi.NodeList.Chain.{ne_of_has}
use libapi.Rbtree.{Color, RbNode, rb, take_left, take_place, rotate_left}
use libapi.Rbtree.Shape.{RbTree, branch, top, inorder, Holds}
use libapi.Rbtree.Shape.Context.{
  Context, below, nodes, Around, has_left, has_right, has_later, has_middle, Holds-Same, Holds-some,
  Around-Same, Separate, Parted, Rotated, outside, outside_all, inside_all,
}
use libapi.Rbtree.Shape.Rotate.{Placed, root_after, below_other, apart_sym}
use libapi.Rbtree.Shape.RotateLeft.Take.{Taken, take_left_lem}
use libapi.Rbtree.Shape.RotateLeft.Place.{take_place_lem}

inorder-rotated :
    (x y : Ptr) (cx cy : Color) (a b c : RbTree)
    → inorder (branch y cy (branch x cx a b) c) ≡ inorder (branch x cx a (branch y cy b c))
unfolding inorder
inorder-rotated x y cx cy a b c = append_assoc (inorder a) (x ∷ inorder b) (y ∷ inorder c)

module _ (s : Store RbNode) (root x y : Ptr) (cx cy : Color) (a b c : RbTree) (ctx : Context)
    (held : Holds s (below ctx) (branch x cx a (branch y cy b c))) (around : Around s x ctx)
    (separate : Separate (branch x cx a (branch y cy b c))) (parted : Parted ctx)
    (apart : (q : Ptr)
      → has q (inorder (branch x cx a (branch y cy b c))) ≡ true
      → has q (nodes ctx) ≡ false) where
  abbrev before : RbTree
  before = branch x cx a (branch y cy b c)

  abbrev turned : RbTree
  turned = branch y cy (branch x cx a b) c

  out_x : (x ≢ y) × (has x (inorder b) ≡ false) × (has x (inorder c) ≡ false)
  unfolding inorder
  out_x = outside x y (inorder b) (inorder c) separate.1

  in_x : has x (inorder (branch x cx a (branch y cy b c))) ≡ true
  unfolding inorder
  in_x = has_middle x (inorder a) _

  in_y : has y (inorder (branch x cx a (branch y cy b c))) ≡ true
  unfolding inorder
  in_y = has_right y (inorder a) _ (has_later y x _ (has_middle y (inorder b) _))

  in_a :
      (q : Ptr)
      → has q (inorder a) ≡ true
      → has q (inorder (branch x cx a (branch y cy b c))) ≡ true
  unfolding inorder
  in_a q i = has_left q (inorder a) _ i

  in_b :
      (q : Ptr)
      → has q (inorder b) ≡ true
      → has q (inorder (branch x cx a (branch y cy b c))) ≡ true
  unfolding inorder
  in_b q i = has_right q (inorder a) _ (has_later q x _ (has_left q (inorder b) _ i))

  in_c :
      (q : Ptr)
      → has q (inorder c) ≡ true
      → has q (inorder (branch x cx a (branch y cy b c))) ≡ true
  unfolding inorder
  in_c q i =
      has_right q (inorder a) _ (has_later q x _ (has_right q (inorder b) _ (has_later q y _ i)))

  -- A node of the left tree is none of the others.
  off_a :
      (q : Ptr)
      → has q (inorder a) ≡ true
      → (q ≢ y) × (has q (inorder b) ≡ false) × (has q (inorder c) ≡ false)
  unfolding inorder
  off_a q i = outside q y (inorder b) (inorder c) (separate.2 q i)

  y_off_a : has y (inorder a) ≡ false
  unfolding inorder
  y_off_a =
      apart_sym (inorder a) (inorder b ++ y ∷ inorder c) separate.2 y (has_middle y (inorder b) _)

  off_all :
      (q : Ptr)
      → has q (inorder (branch x cx a (branch y cy b c))) ≡ false
      → (q ≢ x) × (q ≢ y) × (has q (inorder b) ≡ false)
  unfolding inorder
  off_all q h =
      let (nx, ha, hr) = outside q x (inorder a) (inorder b ++ y ∷ inorder c) h in
      let (ny, hb, hc) = outside q y (inorder b) (inorder c) hr in (nx, ny, hb)

  turned-Separate : Separate turned
  unfolding inorder
  turned-Separate = (
    outside_all y x (inorder a) (inorder b) (λ e. out_x.0 (sym e)) y_off_a separate.4.0,
    separate.4.1,
    inside_all (λ q. has q (inorder c) ≡ false) x (inorder a) (inorder b) (λ q i. (off_a q i).2)
        out_x.2 separate.4.2,
    (separate.0, out_x.1, (λ q i. (off_a q i).1), separate.3, separate.4.3),
    separate.4.4,
  )

  -- Nodes of the tree are not the one above it.
  inner : (q : Ptr) → has q (inorder (branch x cx a (branch y cy b c))) ≡ true → q ≢ below ctx
  inner q i = below_other q ctx (Holds-some s (below ctx) _ q held i) (apart q i)

  outer : (q : Ptr) → has q (nodes ctx) ≡ true → (q ≢ x) × (q ≢ y) × (has q (inorder b) ≡ false)
  outer q i = off_all q (apart_sym _ (nodes ctx) apart q i)

  -- The result of the first two parts, and what is left to do.
  record Parts (s1 s2 : Store RbNode) : Type 0 where
    first : take_left x y s ≡ some (tt, s1)
    second : take_place root x y s1 ≡ some (root_after ctx root y, s2)
    taken : Taken s s1 (below ctx) (top a) x y cx b
    placed : Placed s1 s2 ctx y (top b) (top c) cy

  parts : (s1 s2 : Store RbNode) × Parts s1 s2
  parts =
      let nx : x ≢ null = held.0 in
      let (ny, ey, hb, hc) = held.3 in
      let (s1, e1, t1) =
        take_left_lem s (below ctx) (top a) x y x (top c) cx cy b nx ny out_x.0 (held.1) ey hb
          separate.4.3 out_x.1 separate.4.0 in
      let (s2, e2, t2) =
        take_place_lem s1 root x y (top a) (top b) x (top b) (top c) cx cy ctx nx ny out_x.0
          t1.node_at (t1.others y (λ e. out_x.0 (sym e)) separate.4.0 ∙ ey)
          (Around-Same s s1 x ctx (λ q i. let (n, m, h) = outer q i in t1.others q n h) around)
          parted (apart x in_x) (apart y in_y) in
      (s1, s2, record { first = e1; second = e2; taken = t1; placed = t2 })

  abbrev new_y : RbNode
  new_y = rb (below ctx) x (top c) cy

  abbrev new_x : RbNode
  new_x = rb y (top a) (top b) cx

  abbrev finally : Store RbNode → Store RbNode
  finally s2 = write (write s2 y new_y) x new_x

  -- What the two last writes leave.
  last_writes : (s2 : Store RbNode) (q : Ptr) → q ≢ x → q ≢ y → finally s2 q ≡ s2 q
  last_writes s2 q n m = write_other (write s2 y new_y) x q new_x n ∙ write_other s2 y q new_y m

  finally-Rotated : (s1 s2 : Store RbNode) → Parts s1 s2 → Rotated s (finally s2) ctx before turned
  finally-Rotated s1 s2 t =
      let since : (q : Ptr) → q ≢ x → q ≢ y → q ≢ below ctx → finally s2 q ≡ s1 q =
        λ q n m k. last_writes s2 q n m ∙ t.placed.others q m k in
      record {
        held = (
          held.3.0,
          write_other (write s2 y new_y) x y new_x (λ e. out_x.0 (sym e)) ∙ write_same s2 y new_y,
          (
            held.0,
            write_same (write s2 y new_y) x new_x,
            Holds-Same s (finally s2) x a
                (λ q i.
                  let (m, hb, hc) = off_a q i in
                  let n = ne_of_has q x (inorder a) i separate.0 in
                  since q n m (inner q (in_a q i)) ∙ t.taken.others q n hb)
                held.2,
            Holds-Same s1 (finally s2) x b
                (λ q i.
                  since q (ne_of_has q x (inorder b) i out_x.1)
                    (ne_of_has q y (inorder b) i separate.4.0) (inner q (in_b q i)))
                t.taken.held,
          ),
          Holds-Same s (finally s2) y c
              (λ q i.
                let n = ne_of_has q x (inorder c) i out_x.2 in
                since q n (ne_of_has q y (inorder c) i separate.4.1) (inner q (in_c q i))
                ∙ t.taken.others q n (apart_sym (inorder b) (inorder c) separate.4.2 q i))
              held.3.3,
        );
        around =
            Around-Same s2 (finally s2) y ctx
              (λ q i. let (n, m, h) = outer q i in last_writes s2 q n m) t.placed.around;
        separate = turned-Separate;
        order = inorder-rotated x y cx cy a b c;
        others = λ q h k. let (n, m, hb) = off_all q h in since q n m k ∙ t.taken.others q n hb;
      }

  -- A rotation of a tree in its place in a larger one: the store then holds the rotated tree in that place,
  -- which has the same nodes in the same order, all links in both directions, and with the new node on
  -- top the root changes if the tree was all there is. No other node changes. The nodes are different.
  pub rotate_left-Rotated :
      (s' : Store RbNode) × (rotate_left root x s ≡ some (root_after ctx root y, s'))
      × Rotated s s' ctx (branch x cx a (branch y cy b c)) (branch y cy (branch x cx a b) c)
  unfolding rotate_left
  rotate_left-Rotated =
      let (s1, s2, t) = parts in
      (
        finally s2,
        rw (
          load_lem s x _ (held.0) held.1,
          t.first,
          t.second,
          modify_lem s2 y (λ n. record n { left = x }) _ (held.3.0) t.placed.node_at,
          modify_lem (write s2 y new_y) x (λ n. record n { parent = y }) _ (held.0)
              (write_other s2 y x new_y out_x.0
                ∙ t.placed.others x out_x.0 (inner x in_x)
                ∙ t.taken.node_at),
        ),
        finally-Rotated s1 s2 t,
      )

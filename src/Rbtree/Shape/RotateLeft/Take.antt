-- ===== src/Rbtree/Shape/RotateLeft/Take.antt =====
-- The first part of `api_rbtree_rotate_left` of api/src/api_rbtree.c: `x` takes a subtree of `y`.
use libapi.Base.{◌≡◌, ◌≢◌, sym, ◌∙◌, List, false, some, has, ne→not_==}
use libapi.Memory.{Ptr, null, Store, write, write_same, write_other, load_lem, modify_lem}
use libapi.NodeList.Chain.{ne_of_has}
use libapi.Rbtree.{Color, RbNode, rb, take_left}
use libapi.Rbtree.Shape.{RbTree, leaf, branch, top, inorder, Holds}
use libapi.Rbtree.Shape.Context.{Same, Holds-Same, Separate, outside}
use libapi.Rbtree.Shape.Rotate.{Others}

pub record Taken (s s' : Store RbNode) (g la x y : Ptr) (cx : Color) (b : RbTree) : Type 0 where
  pub node_at : s' x ≡ some (rb g la (top b) cx)
  pub held : Holds s' x b
  pub others : Others s s' x (inorder b)

pub take_left_lem :
    (s : Store RbNode) (g la x y py rc : Ptr) (cx cy : Color) (b : RbTree)
    → x ≢ null
    → y ≢ null
    → x ≢ y
    → s x ≡ some (rb g la y cx)
    → s y ≡ some (rb py (top b) rc cy)
    → Holds s y b
    → Separate b
    → has x (inorder b) ≡ false
    → has y (inorder b) ≡ false
    → (s' : Store RbNode) × (take_left x y s ≡ some (tt, s')) × Taken s s' g la x y cx b
unfolding take_left inorder
take_left_lem s g la x y py rc cx cy leaf nx ny xy ex ey hb sb xb yb =
    let s1 : Store RbNode = write s x (rb g la null cx) in
    (
      s1,
      rw (
        load_lem s y _ ny ey,
        modify_lem s x (λ n. record n { right = null }) _ nx ex,
        load_lem s1 x _ nx (write_same s x (rb g la null cx)),
      ),
      record {
        node_at = write_same s x (rb g la null cx);
        held = tt;
        others = λ q n h. write_other s x q (rb g la null cx) n;
      },
    )
take_left_lem s g la x y py rc cx cy (branch p c l r) nx ny xy ex ey hb sb xb yb =
    let m : RbNode = rb g la p cx in
    let s1 : Store RbNode = write s x m in
    let k : RbNode = rb x (top l) (top r) c in
    let out_x = outside x p (inorder l) (inorder r) xb in
    let px : p ≢ x = λ e. out_x.0 (sym e) in
    let kept : (ps : List Ptr) → has p ps ≡ false → has x ps ≡ false → Same s (write s1 p k) ps =
      λ ps hp hx q i.
        write_other s1 p q k (ne_of_has q p ps i hp)
        ∙ write_other s x q m (ne_of_has q x ps i hx) in
    let ep : s1 p ≡ some (rb y (top l) (top r) c) = write_other s x p m px ∙ hb.1 in
    (
      write s1 p k,
      rw (
        load_lem s y _ ny ey,
        modify_lem s x (λ n. record n { right = p }) _ nx ex,
        load_lem s1 x _ nx (write_same s x m),
        ne→not_== p null hb.0,
        load_lem s1 y _ ny (write_other s x y m (λ e. xy (sym e)) ∙ ey),
        modify_lem s1 p (λ n. record n { parent = x }) _ (hb.0) ep,
      ),
      record {
        node_at = write_other s1 p x k (λ e. px (sym e)) ∙ write_same s x m;
        held = (
          hb.0,
          write_same s1 p k,
          Holds-Same s (write s1 p k) p l (kept (inorder l) sb.0 out_x.1) hb.2,
          Holds-Same s (write s1 p k) p r (kept (inorder r) sb.1 out_x.2) hb.3,
        );
        others = λ q n h.
            write_other s1 p q k (outside q p (inorder l) (inorder r) h).0 ∙ write_other s x q m n;
      },
    )

-- ===== src/Rbtree/Shape/RotateLeft/Place.antt =====
-- The second part of `api_rbtree_rotate_left` of api/src/api_rbtree.c: `y` takes the place of `x`.
use libapi.Base.{◌≡◌, ◌≢◌, sym, ◌∙◌, List, [], ◌++◌, false, some, has, ne→not_==, ==_refl}
use libapi.Memory.{Ptr, null, Store, write, write_same, write_other, load_lem, modify_lem}
use libapi.NodeList.Chain.{out_left, out_right, ne_of_has}
use libapi.Rbtree.{Color, RbNode, rb, take_place}
use libapi.Rbtree.Shape.{top, inorder}
use libapi.Rbtree.Shape.Context.{
  Context, at_root, in_left, in_right, below, nodes, Around, Same, Holds-Same, Around-Same, Parted,
  outside, top_other,
}
use libapi.Rbtree.Shape.Rotate.{Placed, root_after}

pub take_place_lem :
    (s : Store RbNode) (root x y la ra py lb rc : Ptr) (cx cy : Color) (ctx : Context)
    → x ≢ null
    → y ≢ null
    → x ≢ y
    → s x ≡ some (rb (below ctx) la ra cx)
    → s y ≡ some (rb py lb rc cy)
    → Around s x ctx
    → Parted ctx
    → has x (nodes ctx) ≡ false
    → has y (nodes ctx) ≡ false
    → (s' : Store RbNode) × (take_place root x y s ≡ some (root_after ctx root y, s'))
      × Placed s s' ctx y lb rc cy
unfolding take_place nodes
take_place_lem s root x y la ra py lb rc cx cy at_root nx ny xy ex ey h d ox oy =
    let m : RbNode = rb null lb rc cy in
    let s1 : Store RbNode = write s y m in
    (
      s1,
      rw (
        load_lem s x _ nx ex,
        modify_lem s y (λ n. record n { parent = null }) _ ny ey,
        load_lem s1 y _ ny (write_same s y m),
      ),
      record { node_at = write_same s y m; around = tt; others = λ q n _. write_other s y q m n },
    )
take_place_lem s root x y la ra py lb rc cx cy (in_left p c t ctx) nx ny xy ex ey h d ox oy =
    let m : RbNode = rb p lb rc cy in
    let s1 : Store RbNode = write s y m in
    let k : RbNode = rb (below ctx) y (top t) c in
    let out_x = outside x p [] (inorder t ++ nodes ctx) ox in
    let out_y = outside y p [] (inorder t ++ nodes ctx) oy in
    let ep : s1 p ≡ some (rb (below ctx) x (top t) c) =
      write_other s y p m (λ e. out_y.0 (sym e)) ∙ h.1 in
    let kept : (ps : List Ptr) → has p ps ≡ false → has y ps ≡ false → Same s (write s1 p k) ps =
      λ ps hp hy q i.
        write_other s1 p q k (ne_of_has q p ps i hp)
        ∙ write_other s y q m (ne_of_has q y ps i hy) in
    (
      write s1 p k,
      rw (
        load_lem s x _ nx ex,
        modify_lem s y (λ n. record n { parent = p }) _ ny ey,
        load_lem s1 y _ ny (write_same s y m),
        ne→not_== p null h.0,
        load_lem s1 p _ (h.0) ep,
        load_lem s1 x _ nx (write_other s y x m xy ∙ ex),
        ==_refl x,
        modify_lem s1 p (λ n. record n { left = y }) _ (h.0) ep,
      ),
      record {
        node_at = write_other s1 p y k out_y.0 ∙ write_same s y m;
        around = (
          h.0,
          write_same s1 p k,
          Holds-Same s (write s1 p k) p t
              (kept (inorder t) d.0 (out_left y (inorder t) (nodes ctx) out_y.2)) h.2,
          Around-Same s (write s1 p k) p ctx
              (kept (nodes ctx) d.1 (out_right y (inorder t) (nodes ctx) out_y.2)) h.3,
        );
        others = λ q n np. write_other s1 p q k np ∙ write_other s y q m n;
      },
    )
take_place_lem s root x y la ra py lb rc cx cy (in_right p c t ctx) nx ny xy ex ey h d ox oy =
    let m : RbNode = rb p lb rc cy in
    let s1 : Store RbNode = write s y m in
    let k : RbNode = rb (below ctx) (top t) y c in
    let out_x = outside x p [] (inorder t ++ nodes ctx) ox in
    let out_y = outside y p [] (inorder t ++ nodes ctx) oy in
    let ep : s1 p ≡ some (rb (below ctx) (top t) x c) =
      write_other s y p m (λ e. out_y.0 (sym e)) ∙ h.1 in
    let kept : (ps : List Ptr) → has p ps ≡ false → has y ps ≡ false → Same s (write s1 p k) ps =
      λ ps hp hy q i.
        write_other s1 p q k (ne_of_has q p ps i hp)
        ∙ write_other s y q m (ne_of_has q y ps i hy) in
    (
      write s1 p k,
      rw (
        load_lem s x _ nx ex,
        modify_lem s y (λ n. record n { parent = p }) _ ny ey,
        load_lem s1 y _ ny (write_same s y m),
        ne→not_== p null h.0,
        load_lem s1 p _ (h.0) ep,
        load_lem s1 x _ nx (write_other s y x m xy ∙ ex),
        ne→not_== x (top t) (top_other x t nx (out_left x (inorder t) (nodes ctx) out_x.2)),
        modify_lem s1 p (λ n. record n { right = y }) _ (h.0) ep,
      ),
      record {
        node_at = write_other s1 p y k out_y.0 ∙ write_same s y m;
        around = (
          h.0,
          write_same s1 p k,
          Holds-Same s (write s1 p k) p t
              (kept (inorder t) d.0 (out_left y (inorder t) (nodes ctx) out_y.2)) h.2,
          Around-Same s (write s1 p k) p ctx
              (kept (nodes ctx) d.1 (out_right y (inorder t) (nodes ctx) out_y.2)) h.3,
        );
        others = λ q n np. write_other s1 p q k np ∙ write_other s y q m n;
      },
    )

-- ===== src/NodeList/Remove.antt =====
-- `api_list_remove` takes its node out, wherever in the list the node stands.
use libapi.Base.{
  ◌≡◌, ◌≢◌, refl, inl, inr, true, false, List, [], ◌∷◌, ◌++◌, some, has, ◌==◌, sym, ◌∙◌, append-nil,
  ne→not_==, ==_refl,
}
use libapi.Memory.{Ptr, null, Store, write, write_other, load_lem, modify_lem}
use libapi.Memory.Returns.{Returns, returns}
use libapi.NodeList.{Node, node, NodeList, unlink, remove}
use libapi.NodeList.Chain.{
  first, final, Chain, IsList, Chain-append, Chain-split, Chain-set_first, Chain-set_last,
  Chain-write, Chain-last, final-append, first_snoc, has-first, has-final, snoc_cases, ne_of_has,
  ne_of_out, out_of_Disjoint, out_left, out_right, out_tail, has-last,
}
use libapi.NodeList.Ends.{Popped, pop_head_lem, pop_tail_lem}

-- `unlink` joins the neighbours `u` and `w` of `x`.
unlink_lem :
    (s : Store Node) (u x w before after : Ptr)
    → x ≢ null
    → u ≢ null
    → w ≢ null
    → x ≢ u
    → w ≢ u
    → s x ≡ some (node w u)
    → s u ≡ some (node x before)
    → s w ≡ some (node after x)
    → unlink x s ≡ some (tt, write (write s u (node w before)) w (node after u))
unfolding unlink
unlink_lem s u x w b a nx nu nw xu wu ex eu ew =
    let s1 = write s u (node w b) in
    rw (
      load_lem s x _ nx ex,
      modify_lem s u (λ n. record n { next = w }) _ nu eu,
      load_lem s1 x _ nx (write_other s u x _ xu ∙ ex),
      modify_lem s1 w (λ n. record n { prev = u }) _ nw (write_other s u w _ wu ∙ ew),
    )

-- The node stands between `u` and `w`.
module _ (s : Store Node) (l : NodeList) (xs : List Ptr) (u x w : Ptr) (ys : List Ptr)
    (is : IsList s l ((xs ++ u ∷ []) ++ x ∷ w ∷ ys)) where
  remove_middle : Returns (Popped s x ((xs ++ u ∷ []) ++ w ∷ ys)) (remove l x s)
  unfolding remove
  remove_middle =
      let us = xs ++ u ∷ [] in
      let (c1, c2, apart) = Chain-split s null us (x ∷ w ∷ ys) null is.chain in
      let prev = Chain-last s null xs u x c1 in
      let eu : final us null ≡ u = final-append xs (u ∷ []) null in
      let out_x : has x us ≡ false = out_of_Disjoint us x (w ∷ ys) apart in
      let nu : x ≢ u = ne_of_out x u [] (out_right x xs (u ∷ []) out_x) in
      let u_out : has u (x ∷ w ∷ ys) ≡ false = apart u (has-last xs u) in
      let w_out : has w us ≡ false =
        out_of_Disjoint us w ys (λ a h. out_tail a x (w ∷ ys) (apart a h)) in
      let u_out' : has u (w ∷ ys) ≡ false = out_tail u x (w ∷ ys) u_out in
      let nw : w ≢ u = λ e. ne_of_out u w ys u_out' (sym e) in
      let s1 = write s u (node w (final xs null)) in
      let s2 = write s1 w (node (first ys null) u) in
      let ef : l.head ≡ first us null = is.head ∙ first_snoc xs u (x ∷ w ∷ ys) null in
      let el : l.tail ≡ final ys w = is.tail ∙ final-append us (x ∷ w ∷ ys) null in
      let eh : (x == l.head) ≡ false =
        rw ef (
          ne→not_== x _
            (λ e. ne_of_has (first us null) x us (has-first xs u null) out_x (sym e))) in
      let et : (x == l.tail) ≡ false =
        rw el
          (ne→not_== x _ (λ e. ne_of_has (final ys w) x (w ∷ ys) (has-final w ys) c2.2 (sym e))) in
      let whole : Chain s2 null (us ++ w ∷ ys) null =
        Chain-append s2 null us (w ∷ ys) null
          (Chain-write s1 null us w w _ w_out (Chain-set_last s null xs u x w c1))
          (rw eu (Chain-set_first s1 x u w ys null (Chain-write s x (w ∷ ys) null u _ u_out' c2.3)))
          (λ a h. out_tail a x (w ∷ ys) (apart a h)) in
      rw
        (
          eh,
          et,
          unlink_lem s u x w (final xs null) (first ys null) c2.0 prev.0 c2.3.0 nu nw
              (rw (← eu) c2.1) prev.1 c2.3.1,
        )
        (returns (
          refl,
          record {
            head = ef ∙ sym (first_snoc xs u (w ∷ ys) null);
            tail = el ∙ sym (final-append us (w ∷ ys) null);
            chain = whole;
          },
          λ a h.
              let ne : a ≢ u =
                ne_of_out a u [] (out_right a xs (u ∷ []) (out_left a us (w ∷ ys) h)) in
              let ne' : a ≢ w = ne_of_out a w ys (out_right a us (w ∷ ys) h) in
              write_other s1 w a _ ne' ∙ write_other s u a _ ne,
        ))

remove_first :
    (s : Store Node) (l : NodeList) (x : Ptr) (ys : List Ptr)
    → IsList s l (x ∷ ys)
    → Returns (Popped s x ys) (remove l x s)
unfolding remove
remove_first s l x ys is =
    let e : (x == l.head) ≡ true = rw is.head (==_refl x) in rw e (pop_head_lem s l x ys is)

remove_last :
    (s : Store Node) (l : NodeList) (xs : List Ptr) (u x : Ptr)
    → IsList s l ((xs ++ u ∷ []) ++ x ∷ [])
    → Returns (Popped s x (xs ++ u ∷ [])) (remove l x s)
unfolding remove
remove_last s l xs u x is =
    let us = xs ++ u ∷ [] in
    let (c1, c2, apart) = Chain-split s null us (x ∷ []) null is.chain in
    let out_x : has x us ≡ false = out_of_Disjoint us x [] apart in
    let ef : l.head ≡ first us null = is.head ∙ first_snoc xs u (x ∷ []) null in
    let eh : (x == l.head) ≡ false =
      rw ef
        (ne→not_== x _ (λ e. ne_of_has (first us null) x us (has-first xs u null) out_x (sym e))) in
    let et : (x == l.tail) ≡ true = rw (is.tail ∙ final-append us (x ∷ []) null) (==_refl x) in
    rw (eh, et) (pop_tail_lem s l us x is)

remove_later :
    (s : Store Node) (l : NodeList) (xs : List Ptr) (u x : Ptr) (ys : List Ptr)
    → IsList s l ((xs ++ u ∷ []) ++ x ∷ ys)
    → Returns (Popped s x ((xs ++ u ∷ []) ++ ys)) (remove l x s)
remove_later s l xs u x [] is = rw (append-nil (xs ++ u ∷ [])) (remove_last s l xs u x is)
remove_later s l xs u x (w ∷ ys) is = remove_middle s l xs u x w ys is

-- A node of a list, first, last or between two nodes, is taken out without a fault; the others
-- stay in their order, and objects that are not in the list that remains are left alone.
pub remove_lem :
    (s : Store Node) (l : NodeList) (xs : List Ptr) (x : Ptr) (ys : List Ptr)
    → IsList s l (xs ++ x ∷ ys)
    → Returns (Popped s x (xs ++ ys)) (remove l x s)
remove_lem s l xs x ys is = elim (snoc_cases xs) [
  | inl e ↦ rw e (remove_first s l x ys (rw e at is))
  | inr (zs, u, e) ↦ rw e (remove_later s l zs u x ys (rw e at is))
]

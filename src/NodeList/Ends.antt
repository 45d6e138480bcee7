-- ===== src/NodeList/Ends.antt =====
-- The four operations at the ends of the list, for every list and both branches of each.
use libapi.Base.{
  ◌≡◌, ◌≢◌, refl, inl, inr, true, false, List, [], ◌∷◌, ◌++◌, some, arith, has, ◌==◌, ne→not_==,
  sym, ◌∙◌,
}
use libapi.Memory.{Ptr, null, Store, write, write_same, write_other}
use libapi.Memory.Returns.{Returns, returns, load_step, modify_step}
use libapi.NodeList.{Node, node, NodeList, push_head, push_tail, pop_head, pop_tail}
use libapi.NodeList.Chain.{
  first, final, Chain, IsList, SameOutside, Chain-frame, Chain-append, Chain-split, has-append,
  final-append, ne_of_has, out_of_Disjoint, ne_of_out, out_left, out_right, first_snoc, has-first,
  has-final, snoc_cases, Chain-set_first, Chain-set_last, Chain-write, Chain-last,
}

-- After a push the list is `ys`, and only nodes of `ys` were written.
abbrev pub Pushed : Store Node → List Ptr → NodeList → Store Node → Type 0
Pushed s ys l g = IsList g l ys × SameOutside ys s g

-- After a pop of `p` the list is `ys`, and only nodes of `ys` were written.
abbrev pub Popped : Store Node → Ptr → List Ptr → Ptr × NodeList → Store Node → Type 0
Popped s p ys (q, l) g = (q ≡ p) × IsList g l ys × SameOutside ys s g

module _ (s : Store Node) (l : NodeList) (n : Ptr) (c : Node) (alloc : n ≢ null)
    (here : s n ≡ some c) where
  -- A node in the store that is not in the list is put in front of all others, for the empty list
  -- and for others; objects that are neither in the list nor the node are left alone.
  pub push_head_lem :
      (xs : List Ptr)
      → has n xs ≡ false
      → IsList s l xs
      → Returns (Pushed s (n ∷ xs)) (push_head l n s)
  unfolding push_head write
  push_head_lem [] out is =
      let e : (l.head == null) ≡ true = ground (arith, is.head) in
      modify_step s n c _ _ alloc here (
        modify_step _ n _ _ _ alloc (write_same s n _) (
          rw e (
            returns (
              record { head = refl; tail = refl; chain = (alloc, ground arith, refl, tt) },
              λ a h. ground arith,
            ))))
  push_head_lem (x ∷ xs) out is =
      let e : (l.head == null) ≡ false = ground (arith, is.head, is.chain) in
      modify_step s n c _ _ alloc here (
        modify_step _ n _ _ _ alloc (write_same s n _) (
          rw e (
            modify_step (write (write s n (node c.next null)) n (node null null)) n (node null null)
              _ _ alloc (ground arith)
              (rw is.head (
                modify_step _ x (node (first xs null) null) _ _ is.chain.0
                  (ground (arith, is.chain.1))
                  (returns (
                    record {
                      head = refl;
                      tail = is.tail;
                      chain = (
                        alloc,
                        ground arith,
                        out,
                        (
                          is.chain.0,
                          ground arith,
                          is.chain.2,
                          Chain-frame s _ x xs null (λ a h. ground (arith, is.chain.2)) is.chain.3,
                        ),
                      );
                    },
                    λ a h. ground arith,
                  )))))))

  push_tail-nil : IsList s l [] → Returns (Pushed s (n ∷ [])) (push_tail l n s)
  unfolding push_tail write
  push_tail-nil is =
      let e : (l.tail == null) ≡ true = ground (arith, is.tail) in
      modify_step s n c _ _ alloc here (
        modify_step _ n _ _ _ alloc (write_same s n _) (
          rw e (
            returns (
              record { head = refl; tail = refl; chain = (alloc, ground arith, refl, tt) },
              λ a h. ground arith,
            ))))

  push_tail-snoc :
      (xs : List Ptr) (t : Ptr)
      → has n (xs ++ t ∷ []) ≡ false
      → IsList s l (xs ++ t ∷ [])
      → Returns (Pushed s ((xs ++ t ∷ []) ++ n ∷ [])) (push_tail l n s)
  unfolding push_tail write
  push_tail-snoc xs t out is =
      let last = Chain-last s null xs t null is.chain in
      let et : l.tail ≡ t = ground (arith, is.tail, final-append xs (t ∷ []) null) in
      let e : (l.tail == null) ≡ false = ground (arith, last.0) in
      let apart : t ≢ n = ground (arith, has-append n xs (t ∷ [])) in
      let ts = xs ++ t ∷ [] in
      let s1 = write s n (node c.next null) in
      let s2 = write s1 n (node null null) in
      let s3 = write s2 n (node null t) in
      let c3 : Chain s3 null (xs ++ t ∷ []) null = Chain-write s2 null ts null n (node null t) out (
        Chain-write s1 null ts null n (node null null) out
          (Chain-write s null ts null n (node c.next null) out is.chain)) in
      let g = write s3 t (node n (final xs null)) in
      let ef : final (xs ++ t ∷ []) null ≡ t = final-append xs (t ∷ []) null in
      let whole : Chain g null ((xs ++ t ∷ []) ++ n ∷ []) null =
        Chain-append g null (xs ++ t ∷ []) (n ∷ []) null (Chain-set_last s3 null xs t null n c3)
          (
            alloc,
            rw ef (
                write_other s3 t n (node n (final xs null)) (λ e. apart (sym e))
                ∙ write_same s2 n (node null t)),
            refl,
            tt,
          )
          (λ a h. rw (ne→not_== a n (ne_of_has a n ts h out))) in
      modify_step s n c _ _ alloc here (
        modify_step s1 n _ _ _ alloc (write_same s n _) (
          rw e (
            modify_step s2 n (node null null) _ _ alloc (ground arith) (
              rw et (
                modify_step s3 t (node null (final xs null)) _ _ last.0
                  (write_other s2 n t _ apart
                    ∙ write_other s1 n t _ apart
                    ∙ write_other s n t _ apart
                    ∙ last.1)
                  (returns (
                    record {
                      head = is.head ∙ sym (first_snoc xs t (n ∷ []) null);
                      tail = sym (final-append ts (n ∷ []) null);
                      chain = whole;
                    },
                    λ a h.
                        let ne : a ≢ n = ne_of_out a n [] (out_right a ts (n ∷ []) h) in
                        let ne' : a ≢ t =
                          ne_of_out a t [] (out_right a xs (t ∷ []) (out_left a ts (n ∷ []) h)) in
                        write_other s3 t a _ ne'
                        ∙ write_other s2 n a _ ne
                        ∙ write_other s1 n a _ ne
                        ∙ write_other s n a _ ne,
                  )))))))

  -- A node in the store that is not in the list is put behind all others, for the empty list and
  -- for others; objects that are neither in the list nor the node are left alone.
  pub push_tail_lem :
      (xs : List Ptr)
      → has n xs ≡ false
      → IsList s l xs
      → Returns (Pushed s (xs ++ n ∷ [])) (push_tail l n s)
  push_tail_lem xs out is = elim (snoc_cases xs) [
    | inl e ↦ rw e (push_tail-nil (rw e at is))
    | inr (ys, t, e) ↦ rw e (push_tail-snoc ys t (rw e at out) (rw e at is))
  ]

module _ (s : Store Node) (l : NodeList) where
  pub pop_head-nil : IsList s l [] → pop_head l s ≡ some ((null, l), s)
  unfolding pop_head
  pop_head-nil is = ground (arith, is.head)

  -- The first node of a list with a node is taken out and returned; objects that are not in the
  -- list that remains are left alone.
  pub pop_head_lem :
      (x : Ptr) (xs : List Ptr) → IsList s l (x ∷ xs) → Returns (Popped s x xs) (pop_head l s)
  unfolding pop_head write
  pop_head_lem x [] is =
      let e : (l.head == null) ≡ false = ground (arith, is.head, is.chain) in
      let e' : (l.tail == x) ≡ true = ground (arith, is.tail) in
      rw (e, is.head)
        (load_step s x _ _ is.chain.0 is.chain.1
          (rw e' (returns (refl, record { head = refl; tail = refl; chain = tt }, λ a h. refl))))
  pop_head_lem x (y ∷ ys) is =
      let e : (l.head == null) ≡ false = ground (arith, is.head, is.chain) in
      let e' : (l.tail == x) ≡ false =
        rw is.tail
          (ne→not_== _ _ (ne_of_has (final ys y) x (y ∷ ys) (has-final y ys) is.chain.2)) in
      rw (e, is.head)
        (load_step s x _ _ is.chain.0 is.chain.1 (
          rw e' (
            modify_step s y _ _ _ is.chain.3.0 is.chain.3.1 (
              returns (
                refl,
                record {
                  head = refl;
                  tail = is.tail;
                  chain = Chain-set_first s x null y ys null is.chain.3;
                },
                λ a h. ground arith,
              )))))

  pub pop_tail-nil : IsList s l [] → pop_tail l s ≡ some ((null, l), s)
  unfolding pop_tail
  pop_tail-nil is = ground (arith, is.tail)

  pop_tail-one : (t : Ptr) → IsList s l (t ∷ []) → Returns (Popped s t []) (pop_tail l s)
  unfolding pop_tail
  pop_tail-one t is =
      let e : (l.tail == null) ≡ false = ground (arith, is.tail, is.chain) in
      let e' : (l.head == t) ≡ true = ground (arith, is.head) in
      rw (e, is.tail)
        (load_step s t _ _ is.chain.0 is.chain.1
          (rw e' (returns (refl, record { head = refl; tail = refl; chain = tt }, λ a h. refl))))

  -- The list ends in `u` and `t`.
  pop_tail-snoc :
      (xs : List Ptr) (u t : Ptr)
      → IsList s l ((xs ++ u ∷ []) ++ t ∷ [])
      → Returns (Popped s t (xs ++ u ∷ [])) (pop_tail l s)
  unfolding pop_tail write
  pop_tail-snoc xs u t is =
      let us = xs ++ u ∷ [] in
      let last = Chain-last s null us t null is.chain in
      let (c1, c2, apart) = Chain-split s null us (t ∷ []) null is.chain in
      let prev = Chain-last s null xs u t c1 in
      let eu : final us null ≡ u = final-append xs (u ∷ []) null in
      let et : l.tail ≡ t = is.tail ∙ final-append us (t ∷ []) null in
      let eh : l.head ≡ first us null = is.head ∙ first_snoc xs u (t ∷ []) null in
      let e : (t == null) ≡ false = ne→not_== t null last.0 in
      let e' : (first us null == t) ≡ false =
        ne→not_== _ _ (ne_of_has _ t us (has-first xs u null) (out_of_Disjoint us t [] apart)) in
      rw (et, e)
        (load_step s t (node null u) _ last.0 (rw (← eu) last.1) (
          rw (eh, e')
            (modify_step s u (node t (final xs null)) _ _ prev.0 prev.1 (
              returns (
                refl,
                record { head = refl; tail = sym eu; chain = Chain-set_last s null xs u t null c1 },
                λ a h. write_other s u a _ (ne_of_out a u [] (out_right a xs (u ∷ []) h)),
              )))))

  -- The last node of a list with a node is taken out and returned; objects that are not in the
  -- list that remains are left alone.
  pub pop_tail_lem :
      (xs : List Ptr) (t : Ptr) → IsList s l (xs ++ t ∷ []) → Returns (Popped s t xs) (pop_tail l s)
  pop_tail_lem xs t is = elim (snoc_cases xs) [
    | inl e ↦ rw e (pop_tail-one t (rw e at is))
    | inr (ys, u, e) ↦ rw e (pop_tail-snoc ys u t (rw e at is))
  ]

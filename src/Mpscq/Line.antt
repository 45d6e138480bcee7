-- ===== src/Mpscq/Line.antt =====
-- The nodes of the queue in the order of their exchanges, some of them not linked yet.
use libapi.Base.{
  ◌≡◌, ◌≢◌, refl, sym, ap, ◌∙◌, ◌⊎◌, inl, inr, List, [], ◌∷◌, ◌++◌, true, false, ◌==◌, has, arith,
  Bool-cases, ==→eq, not_==→ne, ne→not_==,
}
use libapi.Memory.{Ptr, null}
use libapi.Mpscq.{Links, set}

module _ (f : Links) (p q : Ptr) where
  pub set_same : set f p q p ≡ q
  unfolding set
  set_same = ground arith

  pub set_other : (a : Ptr) → a ≢ p → set f p q a ≡ f a
  unfolding set
  set_other a h = ground arith

-- A node with a next field and a pending link is linked to `b`, or its link is still pending.
abbrev pub Joined : Ptr → Ptr → Ptr → Type 0
Joined next pending b = ((next ≡ b) × (pending ≡ null)) ⊎ ((next ≡ null) × (pending ≡ b))

-- From `a` on, the nodes `a ∷ r` lead to `head`.
abbrev pub Line : Links → Links → Ptr → Ptr → List Ptr → Type 0
Line next pending head a [] = (a ≢ null) × (a ≡ head) × (next a ≡ null) × (pending a ≡ null)
Line next pending head a (b ∷ r) =
    (a ≢ null)
    × (has a (b ∷ r) ≡ false)
    × Joined (next a) (pending a) b
    × Line next pending head b r

pub in_head : (a : Ptr) (r : List Ptr) → has a (a ∷ r) ≡ true
in_head a r = ground arith

pub in_tail : (x a : Ptr) (r : List Ptr) → has x r ≡ true → has x (a ∷ r) ≡ true
in_tail x a r h = ground arith

pub not_in : (x a : Ptr) (r : List Ptr) → has x (a ∷ r) ≡ false → (x ≢ a) × (has x r ≡ false)
not_in x a r h = ((ground arith), (ground arith))

pub Line-head :
    (next pending : Links) (head a : Ptr) (r : List Ptr)
    → Line next pending head a r
    → has head (a ∷ r) ≡ true
Line-head next pending head a [] l = rw (← l.1) (in_head a [])
Line-head next pending head a (b ∷ r) l =
    in_tail head a (b ∷ r) (Line-head next pending head b r l.3)

Joined-same :
    {next pending next' pending' b : Ptr}
    → next' ≡ next
    → pending' ≡ pending
    → Joined next pending b
    → Joined next' pending' b
Joined-same en ep (inl (e, d)) = inl (en ∙ e, ep ∙ d)
Joined-same en ep (inr (e, d)) = inr (en ∙ e, ep ∙ d)

-- What changes elsewhere does not matter.
pub Line-frame :
    (next pending next' pending' : Links) (head a : Ptr) (r : List Ptr)
    → ((x : Ptr) → has x (a ∷ r) ≡ true → (next' x ≡ next x) × (pending' x ≡ pending x))
    → Line next pending head a r
    → Line next' pending' head a r
Line-frame n p n' p' head a [] same l =
    let (en, ep) = same a (in_head a []) in (l.0, l.1, en ∙ l.2, ep ∙ l.3)
Line-frame n p n' p' head a (b ∷ r) same l =
    let (en, ep) = same a (in_head a (b ∷ r)) in
    (
      l.0,
      l.1,
      Joined-same en ep l.2,
      Line-frame n p n' p' head b r (λ x h. same x (in_tail x a (b ∷ r) h)) l.3,
    )

pub ne_of_in : (x y : Ptr) (r : List Ptr) → has x r ≡ true → has y r ≡ false → x ≢ y
ne_of_in x y r h k e = let h' : has y r ≡ true = rw (← e) h in absurd (cc h')

pub not_in_snoc :
    (a : Ptr) (r : List Ptr) (n : Ptr) → has a r ≡ false → a ≢ n → has a (r ++ n ∷ []) ≡ false
not_in_snoc a [] n h ne = rw (ne→not_== a n ne) refl
not_in_snoc a (b ∷ r) n h ne =
    let (ne', h') = not_in a b r h in rw (ne→not_== a b ne') (not_in_snoc a r n h' ne)

only : (p a : Ptr) → has p (a ∷ []) ≡ true → p ≡ a
only p a h = ground arith

in_rest : (p a : Ptr) (r : List Ptr) → p ≢ a → has p (a ∷ r) ≡ true → has p r ≡ true
in_rest p a r ne h = ground arith

pub Line-free :
    (next pending : Links) (head a : Ptr) (r : List Ptr)
    → Line next pending head a r
    → pending head ≡ null
Line-free next pending head a [] l = ap pending (sym l.1) ∙ l.3
Line-free next pending head a (b ∷ r) l = Line-free next pending head b r l.3

-- An exchange of the head for a node that is not in the line.
pub Line-enter :
    (next pending : Links) (head n a : Ptr) (r : List Ptr)
    → n ≢ null
    → has n (a ∷ r) ≡ false
    → pending n ≡ null
    → Line next pending head a r
    → Line (set next n null) (set pending head n) n a (r ++ n ∷ [])
Line-enter next pending head n a [] ok out free l =
    let apart : n ≢ a = (not_in n a [] out).0 in
    let joined : set pending head n a ≡ n = rw (l.1) (set_same pending head n) in
    (
      l.0,
      not_in_snoc a [] n refl (λ e. apart (sym e)),
      inr (set_other next n null a (λ e. apart (sym e)) ∙ l.2, joined),
      (
        ok,
        refl,
        set_same next n null,
        set_other pending head n n (λ e. apart (e ∙ sym l.1)) ∙ free,
      ),
    )
Line-enter next pending head n a (b ∷ r) ok out free l =
    let (apart, out') = not_in n a (b ∷ r) out in
    let eh : set pending head n a ≡ pending a =
      set_other pending head n a
        (λ e. ne_of_in head a (b ∷ r) (Line-head next pending head b r l.3) l.1 (sym e)) in
    let en : set next n null a ≡ next a = set_other next n null a (λ e. apart (sym e)) in
    (
      l.0,
      not_in_snoc a (b ∷ r) n l.1 (λ e. apart (sym e)),
      Joined-same en eh l.2,
      Line-enter next pending head n b r ok out' free l.3,
    )

link_here :
    (next pending : Links) (head p a b : Ptr) (r : List Ptr)
    → p ≡ a
    → pending p ≢ null
    → Line next pending head a (b ∷ r)
    → Line (set next p (pending p)) (set pending p null) head a (b ∷ r)
link_here next pending head p a b r e some_node l = (
  l.0,
  l.1,
  elim l.2 [
    | inl (en, ep) ↦ absurd (some_node (ap pending e ∙ ep))
    | inr (en, ep) ↦ inl (
      rw (← e) (set_same next p (pending p)) ∙ ap pending e ∙ ep,
      rw (← e) (set_same pending p null),
    )
  ],
  Line-frame next pending (set next p (pending p)) (set pending p null) head b r
      (λ x h.
        let ne : x ≢ p = λ e'. ne_of_in x a (b ∷ r) h l.1 (e' ∙ e) in
        (set_other next p (pending p) x ne, set_other pending p null x ne))
      l.3,
)

-- A pending link is made.
pub Line-link :
    (next pending : Links) (head p a : Ptr) (r : List Ptr)
    → pending p ≢ null
    → has p (a ∷ r) ≡ true
    → Line next pending head a r
    → Line (set next p (pending p)) (set pending p null) head a r
Line-link next pending head p a [] some_node there l =
    absurd (some_node (ap pending (only p a there) ∙ l.3))
Line-link next pending head p a (b ∷ r) some_node there l = elim (Bool-cases (p == a)) [
  | inl same ↦ link_here next pending head p a b r (==→eq p a same) some_node l
  | inr other ↦
      let ne : p ≢ a = not_==→ne p a other in
      (
        l.0,
        l.1,
        Joined-same (set_other next p (pending p) a (λ e. ne (sym e)))
            (set_other pending p null a (λ e. ne (sym e))) l.2,
        Line-link next pending head p b r some_node (in_rest p a (b ∷ r) ne there) l.3,
      )
]

-- ===== src/NodeList/Chain.antt =====
-- What a list handle stands for: the addresses of its nodes, in order.
use libapi.Base.{
  ◌≡◌, ◌≢◌, refl, ap, ◌⊎◌, inl, inr, true, false, ◌||◌, List, [], ◌∷◌, ◌++◌, some, arith, has,
  Bool-cases, sym, ◌∙◌,
}
use mathlib.Core.Bool.{false≢true}
use libapi.Memory.{Ptr, null, Store, write}
use libapi.NodeList.{Node, node, NodeList}

-- The first and the last address, or `d` if there is none.
abbrev pub first : List Ptr → Ptr → Ptr
first [] d = d
first (x ∷ xs) d = x

abbrev pub final : List Ptr → Ptr → Ptr
final [] d = d
final (x ∷ xs) d = final xs x

-- `xs` are distinct nodes that are linked both ways, between `before` and `after`.
abbrev pub Chain : Store Node → Ptr → List Ptr → Ptr → Type 0
Chain s before [] after = Unit {0}
Chain s before (p ∷ xs) after =
    (p ≢ null)
    × (s p ≡ some (node (first xs after) before))
    × (has p xs ≡ false)
    × Chain s p xs after

pub record IsList (s : Store Node) (l : NodeList) (xs : List Ptr) : Type 0 where
  pub head : l.head ≡ first xs null
  pub tail : l.tail ≡ final xs null
  pub chain : Chain s null xs null

-- `g` differs from `s` at most at the addresses of `xs`.
abbrev pub SameOutside : List Ptr → Store Node → Store Node → Type 0
SameOutside xs s g = (a : Ptr) → has a xs ≡ false → g a ≡ s a

abbrev pub Disjoint : List Ptr → List Ptr → Type 0
Disjoint xs ys = (a : Ptr) → has a xs ≡ true → has a ys ≡ false

pub has-append : (a : Ptr) (xs ys : List Ptr) → has a (xs ++ ys) ≡ (has a xs || has a ys)
has-append a [] ys = refl
has-append a (x ∷ xs) ys = ground (arith, has-append a xs ys)

pub has_of_first : (x : Ptr) (xs : List Ptr) → has x (x ∷ xs) ≡ true
has_of_first x xs = ground arith

pub first-append : (xs ys : List Ptr) (d : Ptr) → first (xs ++ ys) d ≡ first xs (first ys d)
first-append [] ys d = refl
first-append (x ∷ xs) ys d = refl

pub final-append : (xs ys : List Ptr) (d : Ptr) → final (xs ++ ys) d ≡ final ys (final xs d)
final-append [] ys d = refl
final-append (x ∷ xs) ys d = final-append xs ys x

pub has-final : (x : Ptr) (xs : List Ptr) → has (final xs x) (x ∷ xs) ≡ true
has-final x [] = ground arith
has-final x (y ∷ ys) = ground (arith, has-final y ys)

pub ne_of_has : (a b : Ptr) (xs : List Ptr) → has a xs ≡ true → has b xs ≡ false → a ≢ b
ne_of_has a b xs h k e = absurd (false≢true (sym k ∙ (rw (← e) h)))

pub out_left : (a : Ptr) (xs ys : List Ptr) → has a (xs ++ ys) ≡ false → has a xs ≡ false
out_left a xs ys h = ground (arith, has-append a xs ys)

pub out_right : (a : Ptr) (xs ys : List Ptr) → has a (xs ++ ys) ≡ false → has a ys ≡ false
out_right a xs ys h = ground (arith, has-append a xs ys)

pub out_tail : (a x : Ptr) (xs : List Ptr) → has a (x ∷ xs) ≡ false → has a xs ≡ false
out_tail a x xs h = ground arith

pub has-last : (xs : List Ptr) (t : Ptr) → has t (xs ++ t ∷ []) ≡ true
has-last [] t = ground arith
has-last (x ∷ xs) t = ground (arith, has-last xs t)

pub ne_of_out : (a x : Ptr) (xs : List Ptr) → has a (x ∷ xs) ≡ false → a ≢ x
ne_of_out a x xs h = ground arith

-- A list that is not empty has the same first element however it goes on.
pub first_snoc :
    (xs : List Ptr) (t : Ptr) (ys : List Ptr) (d : Ptr)
    → first ((xs ++ t ∷ []) ++ ys) d ≡ first (xs ++ t ∷ []) d
first_snoc [] t ys d = refl
first_snoc (x ∷ xs) t ys d = refl

pub has-first : (xs : List Ptr) (t d : Ptr) → has (first (xs ++ t ∷ []) d) (xs ++ t ∷ []) ≡ true
has-first [] t d = ground arith
has-first (x ∷ xs) t d = ground arith

-- A list is empty or has a last element.
pub snoc_cases : (xs : List Ptr) → (xs ≡ []) ⊎ ((ys : List Ptr) × (t : Ptr) × (xs ≡ ys ++ t ∷ []))
snoc_cases [] = inl refl
snoc_cases (x ∷ xs) = go (snoc_cases xs)
  where
    go :
        (xs ≡ []) ⊎ ((ys : List Ptr) × (t : Ptr) × (xs ≡ ys ++ t ∷ []))
        → (x ∷ xs ≡ []) ⊎ ((ys : List Ptr) × (t : Ptr) × (x ∷ xs ≡ ys ++ t ∷ []))
    go (inl e) = inr ([], x, ap (◌∷◌ x) e)
    go (inr (ys, t, e)) = inr (x ∷ ys, t, ap (◌∷◌ x) e)

-- A chain survives any change that spares its own addresses.
pub Chain-frame :
    (s g : Store Node) (before : Ptr) (xs : List Ptr) (after : Ptr)
    → ((a : Ptr) → has a xs ≡ true → g a ≡ s a)
    → Chain s before xs after
    → Chain g before xs after
Chain-frame s g b [] a same c = tt
Chain-frame s g b (p ∷ xs) a same c =
    (c.0, ground (arith, same p), c.2, Chain-frame s g p xs a (λ q h. same q (ground arith)) c.3)

pub Chain-write :
    (s : Store Node) (before : Ptr) (xs : List Ptr) (after p : Ptr) (n : Node)
    → has p xs ≡ false
    → Chain s before xs after
    → Chain (write s p n) before xs after
unfolding write
Chain-write s b xs a p n out c = Chain-frame s (write s p n) b xs a (λ q h. ground arith) c

-- Two adjacent chains are one, and the other way round.
pub Chain-append :
    (s : Store Node) (before : Ptr) (xs ys : List Ptr) (after : Ptr)
    → Chain s before xs (first ys after)
    → Chain s (final xs before) ys after
    → Disjoint xs ys
    → Chain s before (xs ++ ys) after
Chain-append s b [] ys a c d apart = d
Chain-append s b (p ∷ xs) ys a c d apart = (
  c.0,
  ground (arith, first-append xs ys a),
  ground (arith, has-append p xs ys, apart p),
  Chain-append s p xs ys a c.3 d (λ q h. apart q (ground arith)),
)

pub Chain-split :
    (s : Store Node) (before : Ptr) (xs ys : List Ptr) (after : Ptr)
    → Chain s before (xs ++ ys) after
    → Chain s before xs (first ys after) × Chain s (final xs before) ys after × Disjoint xs ys
Chain-split s b [] ys a c = (tt, c, λ q h. ground arith)
Chain-split s b (p ∷ xs) ys a c = go (Chain-split s p xs ys a c.3)
  where
    go :
        Chain s p xs (first ys a) × Chain s (final xs p) ys a × Disjoint xs ys
        → Chain s b (p ∷ xs) (first ys a) × Chain s (final xs p) ys a × Disjoint (p ∷ xs) ys
    go (c1, c2, apart) = (
      (c.0, ground (arith, first-append xs ys a), ground (arith, has-append p xs ys), c1),
      c2,
      λ q h. ground (arith, apart q, has-append p xs ys),
    )

pub out_of_Disjoint :
    (xs : List Ptr) (u : Ptr) (ys : List Ptr) → Disjoint xs (u ∷ ys) → has u xs ≡ false
out_of_Disjoint xs u ys apart = go (Bool-cases (has u xs))
  where
    go : (has u xs ≡ true) ⊎ (has u xs ≡ false) → has u xs ≡ false
    go (inl e) = ground (arith, apart u e)
    go (inr e) = e

-- The first node may be given another predecessor, and the last one another successor.
pub Chain-set_first :
    (s : Store Node) (b b' x : Ptr) (xs : List Ptr) (a : Ptr)
    → Chain s b (x ∷ xs) a
    → Chain (write s x (node (first xs a) b')) b' (x ∷ xs) a
unfolding write
Chain-set_first s b b' x xs a c =
    (c.0, ground arith, c.2, Chain-write s x xs a x (node (first xs a) b') c.2 c.3)

pub Chain-set_last :
    (s : Store Node) (b : Ptr) (xs : List Ptr) (u a a' : Ptr)
    → Chain s b (xs ++ u ∷ []) a
    → Chain (write s u (node a' (final xs b))) b (xs ++ u ∷ []) a'
unfolding write
Chain-set_last s b xs u a a' c =
    let (c1, c2, apart) = Chain-split s b xs (u ∷ []) a c in
    Chain-append (write s u (node a' (final xs b))) b xs (u ∷ []) a'
      (Chain-write s b xs u u (node a' (final xs b)) (out_of_Disjoint xs u [] apart) c1)
      (c2.0, ground arith, refl, tt) apart

-- The last node of a chain: its address and what it holds.
pub Chain-last :
    (s : Store Node) (b : Ptr) (xs : List Ptr) (u a : Ptr)
    → Chain s b (xs ++ u ∷ []) a
    → (u ≢ null) × (s u ≡ some (node a (final xs b)))
Chain-last s b xs u a c = let (c1, c2, apart) = Chain-split s b xs (u ∷ []) a c in (c2.0, c2.1)

pub Chain-cons :
    (s : Store Node) (b x : Ptr) (xs : List Ptr) (a : Ptr)
    → x ≢ null
    → s x ≡ some (node (first xs a) b)
    → has x xs ≡ false
    → Chain s x xs a
    → Chain s b (x ∷ xs) a
Chain-cons s b x xs a ne at out c = (ne, at, out, c)

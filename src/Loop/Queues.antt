-- ===== src/Loop/Queues.antt =====
-- The queues of the loops after an `api_mpscq_push` and after an `api_mpscq_pop`.
use libapi.Base.{
  ◌≡◌, ◌≢◌, List, ◌∷◌, ◌++◌, [], refl, ◌==◌, ==_refl, ne→not_==, if◌then◌else◌, Bool-cases, inl,
  inr,
}
use libapi.Memory.{Ptr}
use libapi.Loop.{push, leave}

module _ (queues : Ptr → List Ptr) (l : Ptr) where
  pub push_same : (p : Ptr) → push queues l p l ≡ queues l ++ p ∷ []
  unfolding push
  push_same p = rw (==_refl l) refl

  pub push_other : (p a : Ptr) → a ≢ l → push queues l p a ≡ queues a
  unfolding push
  push_other p a h = rw (ne→not_== a l h) refl

  pub leave_same : (ps : List Ptr) → leave queues l ps l ≡ ps
  unfolding leave
  leave_same ps = rw (==_refl l) refl

  pub leave_other : (ps : List Ptr) (a : Ptr) → a ≢ l → leave queues l ps a ≡ queues a
  unfolding leave
  leave_other ps a h = rw (ne→not_== a l h) refl

  -- A push and the pop of it.
  pub leave-push : (p a : Ptr) → leave (push queues l p) l [] a ≡ (if a == l then [] else queues a)
  unfolding leave push
  leave-push p a = elim (Bool-cases (a == l)) [ inl e ↦ rw e refl | inr e ↦ rw e refl ]

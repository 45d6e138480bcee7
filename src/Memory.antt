-- ===== src/Memory.antt =====
-- Objects at addresses, and commands that read and write them. It stands for the C heap as
-- the pointer structures of api/src see it: an address holds a whole struct or nothing.
pub mod Returns
use libapi.Base.{ℕ, ◌≡◌, ◌≢◌, refl, Option, none, some, arith, ◌==◌, if◌then◌else◌, ne→not_==}

abbrev pub Ptr : Type 0
Ptr = ℕ

abbrev pub null : Ptr
null = 0

abbrev pub Store : Type 0 → Type 0
Store N = Ptr → Option N

-- `none` is a fault: a read or a write through a null or dangling pointer.
abbrev pub Cmd : Type 0 → Type 0 → Type 0
Cmd N A = Store N → Option (A × Store N)

abbrev pub pure : {N A : Type 0} → A → Cmd N A
pure a s = some (a, s)

abbrev pub and_then : {N A B : Type 0} → Option (A × Store N) → (A → Cmd N B) → Option (B × Store N)
and_then none k = none
and_then (some (a, s)) k = k a s

infixl 5 ◌>>=◌ ◌>>◌
abbrev pub ◌>>=◌ : {N A B : Type 0} → Cmd N A → (A → Cmd N B) → Cmd N B
m >>= k = λ s. and_then (m s) k

abbrev pub ◌>>◌ : {N B : Type 0} → Cmd N (Unit {0}) → Cmd N B → Cmd N B
m >> k = m >>= λ _. k

unfoldable pub write : {N : Type 0} → Store N → Ptr → N → Store N
write s p n a = if a == p then some n else s a

-- `*p`
unfoldable pub load : {N : Type 0} → Ptr → Cmd N N
load p s = if p == null then none else elim (s p) [ none ↦ none | some n ↦ some (n, s) ]

-- A write to some fields of `*p`.
unfoldable pub modify : {N : Type 0} → Ptr → (N → N) → Cmd N (Unit {0})
modify p f s =
    if p == null then none else elim (s p) [ none ↦ none | some n ↦ some (tt, write s p (f n)) ]

module _ {N : Type 0} (s : Store N) where
  pub write_same : (p : Ptr) (n : N) → write s p n p ≡ some n
  unfolding write
  write_same p n = ground arith

  pub write_other : (p a : Ptr) (n : N) → a ≢ p → write s p n a ≡ s a
  unfolding write
  write_other p a n h = ground arith

  pub load_lem : (p : Ptr) (n : N) → p ≢ null → s p ≡ some n → load p s ≡ some (n, s)
  unfolding load
  load_lem p n h e = rw (ne→not_== p null h, e)

  pub modify_lem :
      (p : Ptr) (f : N → N) (n : N)
      → p ≢ null
      → s p ≡ some n
      → modify p f s ≡ some (tt, write s p (f n))
  unfolding modify
  modify_lem p f n h e = rw (ne→not_== p null h, e)

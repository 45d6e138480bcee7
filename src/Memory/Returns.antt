-- ===== src/Memory/Returns.antt =====
-- Total correctness of a command: it does not fault, and its result satisfies a postcondition.
use libapi.Base.{◌≡◌, ◌≢◌, Option, some, refl}
use libapi.Memory.{Ptr, null, Store, Cmd, ◌>>=◌, write, load, modify, load_lem, modify_lem}

pub data Returns {A S : Type 0} (P : A → S → Type 0) : Option (A × S) → Type 0 where
  returns : {a : A} {s : S} → P a s → Returns P (some (a, s))

module _ {A S : Type 0} {P : A → S → Type 0} where
  pub mono :
      {Q : A → S → Type 0} {r : Option (A × S)}
      → Returns P r
      → ((a : A) (s : S) → P a s → Q a s)
      → Returns Q r
  mono (returns p) weaken = returns (weaken _ _ p)

  -- The result of a command that returns.
  pub result : {r : Option (A × S)} → Returns P r → (a : A) × (s : S) × (r ≡ some (a, s)) × P a s
  result (returns {a} {s} p) = (a, s, refl, p)

-- One step of a command: the object is there, and what follows returns.
module _ {N B : Type 0} {P : B → Store N → Type 0} (s : Store N) (p : Ptr) (n : N) where
  pub load_step :
      (k : N → Cmd N B) → p ≢ null → s p ≡ some n → Returns P (k n s) → Returns P ((load p >>= k) s)
  load_step k ne at r = rw (load_lem s p n ne at) r

  pub modify_step :
      (f : N → N) (k : Unit {0} → Cmd N B)
      → p ≢ null
      → s p ≡ some n
      → Returns P (k tt (write s p (f n)))
      → Returns P ((modify p f >>= k) s)
  modify_step f k ne at r = rw (modify_lem s p f n ne at) r

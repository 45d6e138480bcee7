-- ===== src/Base/Fallible.antt =====
-- Chains of steps that may fail.
use mathlib.Core.Path.{◌≡◌}
use mathlib.Core.Option.{Option, none, some}

infixl 5 ◌>>=◌
abbrev pub ◌>>=◌ {ℓ κ} : {A : Type ℓ} {B : Type κ} → Option A → (A → Option B) → Option B
none >>= f = none
some a >>= f = f a

-- Two steps that succeed, ahead of a third.
pub bind_two {ℓ} :
    {A B C : Type ℓ} (m : Option A) (f : A → Option B) (g : B → Option C) (x : B)
    → (m >>= f) ≡ some x
    → (m >>= λ a. f a >>= g) ≡ g x
bind_two none f g x h = cc
bind_two (some a) f g x h = rw h

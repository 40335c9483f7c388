-- ===== src/Common/Panics.antt =====
-- The outcome of code that may panic: an index out of bounds, `unwrap` or `expect` of a `None`,
-- `todo!` and `panic!`. The kernel's panic handler halts, so nothing goes on from a panic.
use mathlib.Core.Option.{Option, none, some}
use mathlib.Core.Path.{◌≡◌, refl}

pub data Outcome {ℓ} (A : Type ℓ) : Type ℓ where
  done : A → Outcome A
  panic : Outcome A

infixl 5 ◌>>=◌
abbrev pub ◌>>=◌ {ℓ κ} : {A : Type ℓ} {B : Type κ} → Outcome A → (A → Outcome B) → Outcome B
done a >>= f = f a
panic >>= f = panic

-- `Option::expect` and `Option::unwrap`
abbrev pub expect {ℓ} : {A : Type ℓ} → Option A → Outcome A
expect none = panic
expect (some a) = done a

pub bind_identity_right {ℓ} : {A : Type ℓ} (r : Outcome A) → (r >>= λ a. done a) ≡ r
bind_identity_right (done a) = refl
bind_identity_right panic = refl

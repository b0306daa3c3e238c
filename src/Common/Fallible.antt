-- ===== src/Common/Fallible.antt =====
-- Rust's `Result`, with `ensure!` and the question mark as a monad.
use mathlib.Core.Path.{◌≡◌, refl}
use mathlib.Core.Bool.{Bool, true, false}
use mathlib.Core.Option.{Option, none, some}
use mathlib.Core.Logic.{◌⊎◌, inl, inr}

pub data Result {ℓ κ} (E : Type ℓ) (T : Type κ) : Type (ℓ ⊔ κ) where
  err : E → Result E T
  ok : T → Result E T

module _ {ℓ κ μ} {E : Type ℓ} {T : Type κ} {U : Type μ} where
  -- The question mark: go on from a value, and return an error at once.
  infixl 5 ◌>>=◌
  abbrev pub ◌>>=◌ : Result E T → (T → Result E U) → Result E U
  err e >>= next = err e
  ok t >>= next = next t

  -- Both steps of a block that succeeds have succeeded.
  pub >>=-eq-ok :
      (first : Result E T) (next : T → Result E U) {u : U}
      → (first >>= next) ≡ ok u
      → (t : T) × (first ≡ ok t) × (next t ≡ ok u)
  >>=-eq-ok (err e) next done = cc
  >>=-eq-ok (ok t) next done = (t, refl, done)

infixl 5 ◌>>◌
abbrev pub ◌>>◌ {ℓ κ} : {E : Type ℓ} {U : Type κ} → Result E (Unit {0}) → Result E U → Result E U
check >> next = check >>= λ _. next

module _ {ℓ} {E : Type ℓ} where
  abbrev pub ensure : Bool → E → Result E (Unit {0})
  ensure false e = err e
  ensure true e = ok tt

  -- `Option::context`
  abbrev pub context {κ} : {T : Type κ} → Option T → E → Result E T
  context (some t) e = ok t
  context none e = err e

  pub ensure-eq-ok : (b : Bool) (e : E) → ensure b e ≡ ok tt → b ≡ true
  ensure-eq-ok false e h = cc
  ensure-eq-ok true e h = refl

  pub Result-cases {κ} :
      {T : Type κ} (r : Result E T) → ((e : E) × (r ≡ err e)) ⊎ ((t : T) × (r ≡ ok t))
  Result-cases (err e) = inl (e, refl)
  Result-cases (ok t) = inr (t, refl)

-- ===== src/Message/Steps.antt =====
-- Proofs on what a parser of messages returns, step by step.
use vpl_jail_system.Prelude.{refl, Bool, true, false, ◌≡◌}
use vpl_jail_system.Message.{MessageError, Parse, ok, failed, out_of_fuel, ◌>>=◌}

-- The steps of a computation one by one.
pub when_true :
    {A : Type 0} {b : Bool} {x z : A} (y : A)
    → b ≡ true
    → x ≡ z
    → elim b [ true ↦ x | false ↦ y ] ≡ z
when_true y h e = rw h e

pub when_false :
    {A : Type 0} {b : Bool} {y z : A} (x : A)
    → b ≡ false
    → y ≡ z
    → elim b [ true ↦ x | false ↦ y ] ≡ z
when_false x h e = rw h e

pub passes :
    {A B : Type 0} {r : Parse A} {a : A} {z : Parse B} (k : A → Parse B)
    → r ≡ ok a
    → k a ≡ z
    → (r >>= k) ≡ z
passes k h e = rw h e

-- A result that is no end of the fuel, and has the property where it is no exception.
unfoldable pub Ends {ℓ} : {A : Type ℓ} → (A → Type 0) → Parse A → Type 0
Ends P (ok a) = P a
Ends P (failed e) = Unit
Ends P out_of_fuel = ⊥

module _ {ℓ κ} {A : Type ℓ} {B : Type κ} where
  -- The steps of a chain one by one.
  pub chain-Ends :
      (P : A → Type 0) (Q : B → Type 0) (r : Parse A) (k : A → Parse B)
      → Ends P r
      → ((a : A) → P a → Ends Q (k a))
      → Ends Q (r >>= k)
  unfolding Ends
  chain-Ends P Q (ok a) k h hk = hk a h
  chain-Ends P Q (failed e) k h hk = tt
  chain-Ends P Q out_of_fuel k h hk = h

module _ {A : Type 0} (P : A → Type 0) where
  pub Ends-elim :
      (b : Bool) (x y : Parse A)
      → (b ≡ true → Ends P x)
      → (b ≡ false → Ends P y)
      → Ends P (elim b [ true ↦ x | false ↦ y ])
  Ends-elim true x y hx hy = hx refl
  Ends-elim false x y hx hy = hy refl

  pub Ends-weaken : (Q : A → Type 0) (r : Parse A) → Ends Q r → ((a : A) → Q a → P a) → Ends P r
  unfolding Ends
  Ends-weaken Q (ok a) h hk = hk a h
  Ends-weaken Q (failed e) h hk = tt
  Ends-weaken Q out_of_fuel h hk = h

  pub ok-Ends : (a : A) → P a → Ends P (ok a)
  unfolding Ends
  ok-Ends a h = h

  pub failed-Ends : (e : MessageError) → Ends P (failed e)
  unfolding Ends
  failed-Ends e = tt

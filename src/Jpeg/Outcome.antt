-- ===== src/Jpeg/Outcome.antt =====
-- What a routine of the scanner does: it returns a value, refuses its input, reads outside of the
-- span (undefined behaviour in the source), or runs out of the fuel that bounds its loops.
use jpg_spinner.Prelude.{◌≡◌, refl, Bool, true, false, if◌then◌else◌}
use jpg_spinner.Domain.Failure.{ImageProcessingError, jpeg_structure_validation}

pub data Outcome {ℓ} (A : Type ℓ) : Type ℓ where
  success : A → Outcome A
  failure : ImageProcessingError → Outcome A
  out_of_bounds out_of_fuel : Outcome A

infixl 5 ◌>>=◌
abbrev pub ◌>>=◌ {ℓ κ} : {A : Type ℓ} {B : Type κ} → Outcome A → (A → Outcome B) → Outcome B
success a >>= f = f a
failure e >>= f = failure e
out_of_bounds >>= f = out_of_bounds
out_of_fuel >>= f = out_of_fuel

-- The routine ends by a value with `P`, or by an error of the structural stage. Neither an unchecked
-- read nor the end of the fuel is among the cases.
pub data Ensures {ℓ κ} {A : Type ℓ} (P : A → Type κ) : Outcome A → Type (ℓ ⊔ κ) where
  returns : {a : A} → P a → Ensures P (success a)
  refuses : {e : ImageProcessingError} → e.stage ≡ jpeg_structure_validation → Ensures P (failure e)

module _ {ℓ κ} {A : Type ℓ} {P : A → Type κ} where
  pub Ensures-bind {ℓ' κ'} :
      {B : Type ℓ'} {Q : B → Type κ'} {m : Outcome A} {f : A → Outcome B}
      → Ensures P m
      → ((a : A) → P a → Ensures Q (f a))
      → Ensures Q (m >>= f)
  Ensures-bind (returns {a} p) k = k a p
  Ensures-bind (refuses s) k = refuses s

  pub Ensures-weaken {κ'} :
      {Q : A → Type κ'} {m : Outcome A} → ((a : A) → P a → Q a) → Ensures P m → Ensures Q m
  Ensures-weaken f (returns {a} p) = returns (f a p)
  Ensures-weaken f (refuses s) = refuses s

  pub Ensures-if :
      {x y : Outcome A} (b : Bool)
      → (b ≡ true → Ensures P x)
      → (b ≡ false → Ensures P y)
      → Ensures P (if b then x else y)
  Ensures-if true t f = t refl
  Ensures-if false t f = f refl

  -- The value that a successful routine returned has the property.
  pub Ensures-success : {m : Outcome A} {a : A} → Ensures P m → m ≡ success a → P a
  Ensures-success {a} h e = go (rw e at h)
    where
      go : Ensures P (success a) → P a
      go (returns p) = p

-- The routine ends by a value with `P`: it does not fail either.
pub data Yields {ℓ κ} {A : Type ℓ} (P : A → Type κ) : Outcome A → Type (ℓ ⊔ κ) where
  yields : {a : A} → P a → Yields P (success a)

module _ {ℓ κ} {A : Type ℓ} {P : A → Type κ} where
  pub Yields-Ensures : {m : Outcome A} → Yields P m → Ensures P m
  Yields-Ensures (yields {a} p) = returns p

  pub Yields-bind {ℓ' κ'} :
      {B : Type ℓ'} {Q : B → Type κ'} {m : Outcome A} {f : A → Outcome B}
      → Yields P m
      → ((a : A) → P a → Yields Q (f a))
      → Yields Q (m >>= f)
  Yields-bind (yields {a} p) k = k a p

  pub Yields-weaken {κ'} :
      {Q : A → Type κ'} {m : Outcome A} → ((a : A) → P a → Q a) → Yields P m → Yields Q m
  Yields-weaken f (yields {a} p) = yields (f a p)

  pub Yields-if :
      {x y : Outcome A} (b : Bool)
      → (b ≡ true → Yields P x)
      → (b ≡ false → Yields P y)
      → Yields P (if b then x else y)
  Yields-if true t f = t refl
  Yields-if false t f = f refl

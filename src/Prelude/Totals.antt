-- ===== src/Prelude/Totals.antt =====
-- Sums over the entries of a list, and what they say of one entry that is replaced.
use Prim.Native.Nat.{ℕ, zero, suc, ◌+◌, ◌≤◌, ◌<◌}
use mathlib.Core.Path.{◌≡◌, refl}
use mathlib.Core.Logic.{◌⊎◌, inl, inr}
use mathlib.Core.List.{List, [], ◌∷◌}
use mathlib.Core.Option.{some}
use jpg_spinner.Prelude.Lists.{get_elem?, length, All}
use native.Mathlib.Omega.{arith}

pub zero_or_pos : (n : ℕ) → (n ≡ 0) ⊎ (0 < n)
zero_or_pos zero = inl refl
zero_or_pos (suc n) = inr (omega arith)

module _ {ℓ} {A : Type ℓ} where
  abbrev pub set_at : List A → ℕ → A → List A
  set_at [] k y = []
  set_at (x ∷ xs) zero y = y ∷ xs
  set_at (x ∷ xs) (suc k) y = x ∷ set_at xs k y

  abbrev pub total : (A → ℕ) → List A → ℕ
  total f [] = 0
  total f (x ∷ xs) = f x + total f xs

  pub total-set_at :
      (f : A → ℕ) (xs : List A) (k : ℕ) (x y : A)
      → get_elem? xs k ≡ some x
      → total f (set_at xs k y) + f x ≡ total f xs + f y
  total-set_at f (z ∷ xs) zero x y h = ground arith
  total-set_at f (z ∷ xs) (suc k) x y h = ground (arith, total-set_at f xs k x y h)
  total-set_at f [] k x y h = absurd (ground arith)

  pub entry_le_total :
      (f : A → ℕ) (xs : List A) (k : ℕ) (x : A) → get_elem? xs k ≡ some x → f x ≤ total f xs
  entry_le_total f (z ∷ xs) zero x h = ground arith
  entry_le_total f (z ∷ xs) (suc k) x h = ground (arith, entry_le_total f xs k x h)
  entry_le_total f [] k x h = absurd (ground arith)

  pub length-set_at : (xs : List A) (k : ℕ) (y : A) → length (set_at xs k y) ≡ length xs
  length-set_at [] k y = refl
  length-set_at (x ∷ xs) zero y = refl
  length-set_at (x ∷ xs) (suc k) y = omega (arith, length-set_at xs k y)

  pub total_le : (f g : A → ℕ) (l : (x : A) → f x ≤ g x) (xs : List A) → total f xs ≤ total g xs
  total_le f g l [] = omega arith
  total_le f g l (x ∷ xs) = omega (arith, l x, total_le f g l xs)

  -- An entry that counts.
  pub total_pos :
      (f : A → ℕ) (xs : List A)
      → 0 < total f xs
      → (k : ℕ) × (x : A) × (get_elem? xs k ≡ some x) × (0 < f x)
  total_pos f [] h = absurd (omega arith)
  total_pos f (x ∷ xs) h = elim (zero_or_pos (f x)) [
    | inl e ↦ let r = total_pos f xs (omega (arith, e)) in (suc r.0, r.1, r.2, r.3)
    | inr p ↦ (zero, x, refl, p)
  ]

module _ {ℓ κ} {A : Type ℓ} (P : A → Type κ) where
  pub All-get_elem? : (xs : List A) (k : ℕ) {x : A} → All P xs → get_elem? xs k ≡ some x → P x
  All-get_elem? (y ∷ xs) zero {x} h e = go y x h.0 (ground arith)
    where
      go : (a b : A) → P a → a ≡ b → P b
      go a b p q = rw⁻¹ q p
  All-get_elem? (y ∷ xs) (suc k) h e = All-get_elem? xs k h.1 (ground arith)
  All-get_elem? [] k h e = absurd (ground arith)

  pub All-set_at : (xs : List A) (k : ℕ) (x : A) → All P xs → P x → All P (set_at xs k x)
  All-set_at [] k x h p = tt
  All-set_at (y ∷ xs) zero x h p = (p, h.1)
  All-set_at (y ∷ xs) (suc k) x h p = (h.0, All-set_at xs k x h.1 p)

  pub total_le_under :
      (f g : A → ℕ) (l : (x : A) → P x → f x ≤ g x) (xs : List A)
      → All P xs
      → total f xs ≤ total g xs
  total_le_under f g l [] h = omega arith
  total_le_under f g l (x ∷ xs) h = omega (arith, l x h.0, total_le_under f g l xs h.1)

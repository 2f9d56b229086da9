-- ===== src/Prelude/Lists.antt =====
-- Lists measured and indexed by native numbers, and predicates over their entries.
use Prim.Native.Nat.{ℕ, zero, suc, ◌+◌}
use mathlib.Core.Path.{◌≡◌, refl}
use mathlib.Core.Bool.{Bool, true, false, ◌&&◌}
use mathlib.Core.List.{List, [], ◌∷◌, ◌++◌}
use mathlib.Core.Option.{Option, none, some}
use jpg_spinner.Prelude.Tests.{◌==◌}
use native.Mathlib.Omega.{arith}

module _ {ℓ} {A : Type ℓ} where
  abbrev pub length : List A → ℕ
  length [] = 0
  length (x ∷ xs) = suc (length xs)

  abbrev pub get_elem? : List A → ℕ → Option A
  get_elem? [] i = none
  get_elem? (x ∷ xs) zero = some x
  get_elem? (x ∷ xs) (suc i) = get_elem? xs i

  pub length-append : (xs ys : List A) → length (xs ++ ys) ≡ length xs + length ys
  length-append [] ys = omega arith
  length-append (x ∷ xs) ys = omega (arith, length-append xs ys)

  -- `std::ranges::all_of`.
  abbrev pub all_of : (A → Bool) → List A → Bool
  all_of p [] = true
  all_of p (x ∷ xs) = p x && all_of p xs

-- A predicate that every entry meets computes to a tuple.
abbrev pub All {ℓ κ} : {A : Type ℓ} → (A → Type κ) → List A → Type κ
All P [] = Unit
All P (x ∷ xs) = P x × All P xs

pub All-concat {ℓ κ} :
    {A : Type ℓ} (P : A → Type κ) (xs : List A) (x : A) → All P xs → P x → All P (xs ++ x ∷ [])
All-concat P [] x h p = (p, tt)
All-concat P (y ∷ ys) x h p = (h.0, All-concat P ys x h.1 p)

pub All-weaken {ℓ κ κ'} :
    {A : Type ℓ} {P : A → Type κ} {Q : A → Type κ'} (f : (a : A) → P a → Q a) (xs : List A)
    → All P xs
    → All Q xs
All-weaken f [] h = tt
All-weaken f (x ∷ xs) h = (f x h.0, All-weaken f xs h.1)

pub All-both {ℓ κ κ' κ''} :
    {A : Type ℓ} {P : A → Type κ} {Q : A → Type κ'} {R : A → Type κ''}
    (f : (a : A) → P a → Q a → R a) (xs : List A)
    → All P xs
    → All Q xs
    → All R xs
All-both f [] h k = tt
All-both f (x ∷ xs) h k = (f x h.0 k.0, All-both f xs h.1 k.1)

pub All-all_of {ℓ κ} :
    {A : Type ℓ} {P : A → Type κ} {p : A → Bool} (sound : (a : A) → p a ≡ true → P a) (xs : List A)
    → all_of p xs ≡ true
    → All P xs
All-all_of sound [] h = tt
All-all_of sound (x ∷ xs) h = (sound x (ground arith), All-all_of sound xs (ground arith))

-- The comparison of two sequences of numbers.
unfoldable pub is_same_list : List ℕ → List ℕ → Bool
is_same_list [] [] = true
is_same_list (a ∷ xs) (b ∷ ys) = a == b && is_same_list xs ys
is_same_list _ _ = false

pub is_same_list_eq : (a b : List ℕ) → is_same_list a b ≡ true → a ≡ b
unfolding is_same_list
is_same_list_eq (x ∷ a) (y ∷ b) h = ground (arith, is_same_list_eq a b)
is_same_list_eq _ _ h = ground arith

pub is_same_list_refl : (a : List ℕ) → is_same_list a a ≡ true
unfolding is_same_list
is_same_list_refl [] = refl
is_same_list_refl (x ∷ a) = ground (arith, is_same_list_refl a)

-- ===== src/Jpeg/Ordering.antt =====
-- `std::ranges::sort` by a numeric projection, as a stable insertion sort. The standard library's
-- sort may order entries of one key in any way; the laws here name where that matters.
use mathlib.Core.List.{Perm}
use mathlib.Core.List.Perm
use mathlib.Core.Path.{ap₂}
use jpg_spinner.Prelude.{
  ℕ, zero, suc, ◌+◌, map, ap, ◌∙◌, ◌≤◌, ◌<◌, ◌≡◌, ◌≢◌, refl, List, [], ◌∷◌, arith, All, leb,
  if◌then◌else◌, length, inl, inr, Bool-cases, All-weaken, total,
}

-- `n` numbers in a row, from `a` on.
abbrev pub numbers_from : ℕ → ℕ → List ℕ
numbers_from a zero = []
numbers_from a (suc n) = a ∷ numbers_from (a + 1) n

module _ {A : Type 0} (key : A → ℕ) where
  unfoldable pub insert_by : A → List A → List A
  insert_by x [] = x ∷ []
  insert_by x (y ∷ ys) = if leb (key x) (key y) then x ∷ y ∷ ys else y ∷ insert_by x ys

  unfoldable pub sort_by : List A → List A
  unfolding insert_by
  sort_by [] = []
  sort_by (x ∷ xs) = insert_by x (sort_by xs)

  -- Keys grow along the list, from above `lo` on.
  abbrev pub Above : ℕ → List A → Type 0
  Above lo [] = Unit
  Above lo (x ∷ xs) = (lo < key x) × Above (key x) xs

  -- No key stands twice.
  abbrev pub Distinct : List A → Type 0
  Distinct [] = Unit
  Distinct (x ∷ xs) = All (λ y. key y ≢ key x) xs × Distinct xs

  length-insert_by : (x : A) (xs : List A) → length (insert_by x xs) ≡ suc (length xs)
  unfolding insert_by
  length-insert_by x [] = refl
  length-insert_by x (y ∷ ys) = ground (arith, length-insert_by x ys)

  insert_by-perm : (x : A) (xs : List A) → Perm (insert_by x xs) (x ∷ xs)
  unfolding insert_by
  insert_by-perm x [] = Perm.refl (x ∷ [])
  insert_by-perm x (y ∷ ys) = elim (Bool-cases (leb (key x) (key y))) [
    | inl e ↦ rw e (Perm.refl (x ∷ y ∷ ys))
    | inr e ↦ rw e (Perm.trans (Perm.cons y (insert_by-perm x ys)) (Perm.swap x y ys))
  ]

  pub sort_by-perm : (xs : List A) → Perm (sort_by xs) xs
  unfolding sort_by
  sort_by-perm [] = Perm.refl []
  sort_by-perm (x ∷ xs) = Perm.trans (insert_by-perm x (sort_by xs)) (Perm.cons x (sort_by-perm xs))

  insert_by-All {κ} :
      (P : A → Type κ) (x : A) (xs : List A) → P x → All P xs → All P (insert_by x xs)
  unfolding insert_by
  insert_by-All P x [] p h = (p, tt)
  insert_by-All P x (y ∷ ys) p h = elim (Bool-cases (leb (key x) (key y))) [
    | inl e ↦ rw e (p, h)
    | inr e ↦ rw e (h.0, insert_by-All P x ys p h.1)
  ]

  pub sort_by-All {κ} : (P : A → Type κ) (xs : List A) → All P xs → All P (sort_by xs)
  unfolding sort_by
  sort_by-All P [] h = tt
  sort_by-All P (x ∷ xs) h = insert_by-All P x (sort_by xs) h.0 (sort_by-All P xs h.1)

  insert_by-Above :
      (lo : ℕ) (x : A) (xs : List A)
      → lo < key x
      → All (λ y. key y ≢ key x) xs
      → Above lo xs
      → Above lo (insert_by x xs)
  unfolding insert_by
  insert_by-Above lo x [] p d h = (p, tt)
  insert_by-Above lo x (y ∷ ys) p d h = elim (Bool-cases (leb (key x) (key y))) [
    | inl e ↦ rw e (p, (ground (arith, d.0), h.1))
    | inr e ↦ rw e (h.0, insert_by-Above (key y) x ys (ground arith) d.1 h.1)
  ]

  -- Sorting entries of different keys leaves them in strictly growing order.
  pub sort_by-Above :
      (lo : ℕ) (xs : List A) → All (λ y. lo < key y) xs → Distinct xs → Above lo (sort_by xs)
  unfolding sort_by
  sort_by-Above lo [] h d = tt
  sort_by-Above lo (x ∷ xs) h d =
      insert_by-Above lo x (sort_by xs) h.0 (sort_by-All (λ y. key y ≢ key x) xs d.0)
        (sort_by-Above lo xs h.1 d.1)

  Above-length :
      (lo hi : ℕ) (xs : List A)
      → lo ≤ hi
      → Above lo xs
      → All (λ y. key y ≤ hi) xs
      → lo + length xs ≤ hi
  Above-length lo hi [] l h b = omega arith
  Above-length lo hi (x ∷ xs) l h b = omega (arith, Above-length (key x) hi xs b.0 h.1 b.1)

  -- As many growing keys as there are numbers left are those numbers.
  pub Above-numbers_from :
      (lo hi : ℕ) (xs : List A)
      → lo + length xs ≡ hi
      → Above lo xs
      → All (λ y. key y ≤ hi) xs
      → map key xs ≡ numbers_from (lo + 1) (length xs)
  Above-numbers_from lo hi [] e h b = refl
  Above-numbers_from lo hi (x ∷ xs) e h b =
      let next : key x ≡ lo + 1 = omega (arith, Above-length (key x) hi xs b.0 h.1 b.1) in
      ap₂ ◌∷◌ next (
        Above-numbers_from (key x) hi xs (omega arith) h.1 b.1
        ∙ ap (λ k. numbers_from (k + 1) (length xs)) next)

  pub length-sort_by : (xs : List A) → length (sort_by xs) ≡ length xs
  unfolding sort_by
  length-sort_by [] = refl
  length-sort_by (x ∷ xs) = length-insert_by x (sort_by xs) ∙ ap suc (length-sort_by xs)

  -- Keys do not fall along the list.
  abbrev pub Rising : List A → Type 0
  Rising [] = Unit
  Rising (x ∷ xs) = All (λ y. key x ≤ key y) xs × Rising xs

  insert_by-Rising : (x : A) (xs : List A) → Rising xs → Rising (insert_by x xs)
  unfolding insert_by
  insert_by-Rising x [] r = (tt, tt)
  insert_by-Rising x (y ∷ ys) r = elim (Bool-cases (leb (key x) (key y))) [
    | inl e ↦ rw e ((ground arith, All-weaken (λ z l. ground arith) ys r.0), r)
    | inr e ↦
        rw e (insert_by-All (λ z. key y ≤ key z) x ys (ground arith) r.0, insert_by-Rising x ys r.1)
  ]

  pub sort_by-Rising : (xs : List A) → Rising (sort_by xs)
  unfolding sort_by
  sort_by-Rising [] = tt
  sort_by-Rising (x ∷ xs) = insert_by-Rising x (sort_by xs) (sort_by-Rising xs)

  -- A sum over the entries is the same behind the sort.
  insert_by-total : (f : A → ℕ) (x : A) (xs : List A) → total f (insert_by x xs) ≡ f x + total f xs
  unfolding insert_by
  insert_by-total f x [] = refl
  insert_by-total f x (y ∷ ys) = ground (arith, insert_by-total f x ys)

  pub sort_by-total : (f : A → ℕ) (xs : List A) → total f (sort_by xs) ≡ total f xs
  unfolding sort_by
  sort_by-total f [] = refl
  sort_by-total f (x ∷ xs) = omega (arith, insert_by-total f x (sort_by xs), sort_by-total f xs)

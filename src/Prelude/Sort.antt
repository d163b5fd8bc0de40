-- ===== src/Prelude/Sort.antt =====
-- `ORDER BY key ASC`: a stable insertion sort.
use Prim.Native.Nat.{ℕ, ◌+◌, ◌≤◌}
use mathlib.Core.Path.{◌≡◌, ◌∙◌, refl, ap}
use mathlib.Core.Bool.{Bool}
use mathlib.Core.Logic.{inl, inr}
use mathlib.Core.List.{List, [], ◌∷◌, ◌++◌}
use native.Mathlib.Omega.{arith}
use xbotics_hey_robot.Prelude.Tests.{leb, if◌then◌else◌, Bool-cases, leb→le}
use xbotics_hey_robot.Prelude.Lists.{All, count_where}

module _ {ℓ} {A : Type ℓ} (key : A → ℕ) where
  unfoldable pub insert_by : A → List A → List A
  insert_by x [] = x ∷ []
  insert_by x (y ∷ ys) =
      let rest = insert_by x ys in if leb (key x) (key y) then x ∷ y ∷ ys else y ∷ rest

  unfoldable pub order_by : List A → List A
  unfolding insert_by
  order_by [] = []
  order_by (x ∷ xs) = insert_by x (order_by xs)

  pub count_where-insert_by :
      (p : A → Bool) (x : A) (xs : List A)
      → count_where p (insert_by x xs) ≡ (if p x then 1 else 0) + count_where p xs
  unfolding insert_by
  count_where-insert_by p x [] = refl
  count_where-insert_by p x (y ∷ ys) = ground (arith, count_where-insert_by p x ys)

  -- Sorting keeps every row, as often as it stood there.
  pub count_where-order_by :
      (p : A → Bool) (xs : List A) → count_where p (order_by xs) ≡ count_where p xs
  unfolding order_by
  count_where-order_by p [] = refl
  count_where-order_by p (x ∷ xs) =
      ground (arith, count_where-insert_by p x (order_by xs), count_where-order_by p xs)

  abbrev pub IsOrdered : List A → Type 0
  IsOrdered [] = Unit
  IsOrdered (x ∷ xs) = All (λ y. key x ≤ key y) xs × IsOrdered xs

  All-insert_by {κ} :
      (P : A → Type κ) (x : A) (xs : List A) → P x → All P xs → All P (insert_by x xs)
  unfolding insert_by
  All-insert_by P x [] h k = (h, k)
  All-insert_by P x (y ∷ ys) h k = elim (Bool-cases (leb (key x) (key y))) [
    | inl e ↦ rw e (h, k)
    | inr e ↦ rw e (k.0, All-insert_by P x ys h k.1)
  ]

  below_mono : (a b : ℕ) (xs : List A) → a ≤ b → All (λ y. b ≤ key y) xs → All (λ y. a ≤ key y) xs
  below_mono a b [] h k = tt
  below_mono a b (x ∷ xs) h k = (omega arith, below_mono a b xs h k.1)

  insert_by-IsOrdered : (x : A) (xs : List A) → IsOrdered xs → IsOrdered (insert_by x xs)
  unfolding insert_by
  insert_by-IsOrdered x [] h = (tt, tt)
  insert_by-IsOrdered x (y ∷ ys) h = elim (Bool-cases (leb (key x) (key y))) [
    | inl e ↦ rw e ((leb→le _ _ e, below_mono (key x) (key y) ys (leb→le _ _ e) h.0), h)
    | inr e ↦
        rw e
          (All-insert_by (λ z. key y ≤ key z) x ys (ground arith) h.0, insert_by-IsOrdered x ys h.1)
  ]

  pub order_by-IsOrdered : (xs : List A) → IsOrdered (order_by xs)
  unfolding order_by
  order_by-IsOrdered [] = tt
  order_by-IsOrdered (x ∷ xs) = insert_by-IsOrdered x (order_by xs) (order_by-IsOrdered xs)

  insert_by-last :
      (x y : A) (xs : List A)
      → key x ≤ key y
      → insert_by x (xs ++ y ∷ []) ≡ insert_by x xs ++ y ∷ []
  unfolding insert_by
  insert_by-last x y [] h = ground (arith, h)
  insert_by-last x y (z ∷ xs) h = ground (arith, insert_by-last x y xs h)

  -- A row whose key is the highest stays last.
  pub order_by-last :
      (y : A) (xs : List A)
      → All (λ x. key x ≤ key y) xs
      → order_by (xs ++ y ∷ []) ≡ order_by xs ++ y ∷ []
  unfolding order_by insert_by
  order_by-last y [] h = refl
  order_by-last y (x ∷ xs) h =
      ap (insert_by x) (order_by-last y xs h.1) ∙ insert_by-last x y (order_by xs) h.0

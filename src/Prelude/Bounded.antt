-- ===== src/Prelude/Bounded.antt =====
-- Bounded queues that make room for a new element by dropping the oldest one.
use Prim.Native.Nat.{ℕ, suc, ◌+◌, ◌≤◌}
use mathlib.Core.Path.{◌≡◌, sym, ◌∙◌}
use mathlib.Core.Bool.{Bool}
use mathlib.Core.List.{List, [], ◌∷◌, ◌++◌}
use mathlib.Core.List as Lists
use mathlib.Core.Logic.{inl, inr}
use native.Mathlib.Omega.{arith}
use xbotics_hey_robot.Prelude.Tests.{if◌then◌else◌, leb, Bool-cases}
use xbotics_hey_robot.Prelude.Lists.{length, drop, length-append}

-- `queue.full()`
abbrev pub is_full {ℓ} : {A : Type ℓ} → ℕ → List A → Bool
is_full size q = leb size (length q)

-- An event put on a queue, where the oldest one makes room if need be.
unfoldable pub put_newest {ℓ} : {A : Type ℓ} → ℕ → A → List A → List A
put_newest size e q = (if is_full size q then drop 1 q else q) ++ e ∷ []

module _ {ℓ} {A : Type ℓ} where
  pub length-put_newest :
      (size : ℕ) (e : A) (q : List A)
      → 1 ≤ size
      → length q ≤ size
      → (length (put_newest size e q) ≤ size)
        × (length (put_newest size e q) + (if is_full size q then 1 else 0) ≡ length q + 1)
  unfolding put_newest
  length-put_newest size e [] room h = ground arith
  length-put_newest size e (x ∷ q) room h =
      ground (arith, length-append q (e ∷ []), length-append (x ∷ q) (e ∷ []))

  pub newest-put_newest :
      (size : ℕ) (e : A) (before q : List A)
      → (rest : List A) × (before ++ q ++ e ∷ [] ≡ rest ++ put_newest size e q)
  unfolding put_newest
  newest-put_newest size e before [] = elim (Bool-cases (leb size 0)) [
    | inl full ↦ (before, rw full (Lists.append_assoc before [] (e ∷ [])))
    | inr free ↦ (before, rw free (Lists.append_assoc before [] (e ∷ [])))
  ]
  newest-put_newest size e before (x ∷ q) = elim (Bool-cases (leb size (suc (length q)))) [
    | inl full ↦ (
      before ++ x ∷ [],
      rw full (
          Lists.append_assoc before (x ∷ q) (e ∷ [])
          ∙ sym (Lists.append_assoc before (x ∷ []) (q ++ e ∷ []))),
    )
    | inr free ↦ (before, rw free (Lists.append_assoc before (x ∷ q) (e ∷ [])))
  ]

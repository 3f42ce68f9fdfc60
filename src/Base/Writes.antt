-- ===== src/Base/Writes.antt =====
-- Writes into the same array, one after another, and prefixes of an array.
use Prim.Native.Nat.{ℕ, zero, suc, ◌≤◌}
use mathlib.Core.Path.{◌≡◌, refl, ap}
use mathlib.Core.Logic.{◌≢◌, ◌⊎◌, inl, inr}
use mathlib.Core.List.{List, [], ◌∷◌}
use native.Mathlib.Omega.{arith}
use keemash_core.Base.Lists.{length, set, take}

pub ℕ-cases : (i j : ℕ) → (i ≡ j) ⊎ (i ≢ j)
ℕ-cases zero zero = inl refl
ℕ-cases zero (suc j) = inr (λ e. omega (arith, e))
ℕ-cases (suc i) zero = inr (λ e. omega (arith, e))
ℕ-cases (suc i) (suc j) = elim (ℕ-cases i j) [
  | inl e ↦ inl (ap suc e)
  | inr n ↦ inr (λ e. n (omega (arith, e)))
]

module _ {ℓ} {A : Type ℓ} where
  -- The later of two writes to one entry counts.
  pub set-set_self : (xs : List A) (i : ℕ) (v w : A) → set (set xs i v) i w ≡ set xs i w
  set-set_self [] i v w = refl
  set-set_self (x ∷ xs) zero v w = refl
  set-set_self (x ∷ xs) (suc i) v w = ap (◌∷◌ x) (set-set_self xs i v w)

  pub set_comm :
      (xs : List A) (i j : ℕ) (v w : A) → i ≢ j → set (set xs i v) j w ≡ set (set xs j w) i v
  set_comm [] i j v w h = refl
  set_comm (x ∷ xs) zero zero v w h = absurd (h refl)
  set_comm (x ∷ xs) zero (suc j) v w h = refl
  set_comm (x ∷ xs) (suc i) zero v w h = refl
  set_comm (x ∷ xs) (suc i) (suc j) v w h = ap (◌∷◌ x) (set_comm xs i j v w (λ e. h (ap suc e)))

  pub take_all : (n : ℕ) (xs : List A) → length xs ≤ n → take n xs ≡ xs
  take_all zero [] h = refl
  take_all zero (x ∷ xs) h = absurd (omega arith)
  take_all (suc n) [] h = refl
  take_all (suc n) (x ∷ xs) h = ap (◌∷◌ x) (take_all n xs (omega arith))

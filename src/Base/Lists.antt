-- ===== src/Base/Lists.antt =====
-- C arrays as lists indexed by native numbers, and the loops over slot tables.
use Prim.Native.Nat.{ℕ, zero, suc, ◌+◌, ◌-◌, ◌≤◌, ◌<◌, min}
use mathlib.Core.Path.{◌≡◌, refl, ap, subst, ◌∙◌, sym}
use mathlib.Core.Logic.{◌≢◌}
use mathlib.Core.Bool.{Bool, true, false, not}
use mathlib.Core.List.{List, [], ◌∷◌, ◌++◌}
use mathlib.Core.Option.{Option, none, some}
use mathlib.Core.Option
use native.Mathlib.Omega.{arith}
use mathlib.Core.Logic.{inl, inr}
use keemash_core.Base.Tests.{if◌then◌else◌, Bool-cases, if_true, if_false}

module _ {ℓ} {A : Type ℓ} where
  abbrev pub length : List A → ℕ
  length [] = 0
  length (x ∷ xs) = suc (length xs)

  abbrev pub get_elem? : List A → ℕ → Option A
  get_elem? [] i = none
  get_elem? (x ∷ xs) zero = some x
  get_elem? (x ∷ xs) (suc i) = get_elem? xs i

  abbrev pub get_or : List A → ℕ → A → A
  get_or [] i d = d
  get_or (x ∷ xs) zero d = x
  get_or (x ∷ xs) (suc i) d = get_or xs i d

  -- A write out of bounds changes nothing.
  abbrev pub set : List A → ℕ → A → List A
  set [] i v = []
  set (x ∷ xs) zero v = v ∷ xs
  set (x ∷ xs) (suc i) v = x ∷ set xs i v

  abbrev pub take : ℕ → List A → List A
  take zero xs = []
  take (suc n) [] = []
  take (suc n) (x ∷ xs) = x ∷ take n xs

  abbrev pub drop : ℕ → List A → List A
  drop zero xs = xs
  drop (suc n) [] = []
  drop (suc n) (x ∷ xs) = drop n xs

  abbrev pub replicate : ℕ → A → List A
  replicate zero a = []
  replicate (suc n) a = a ∷ replicate n a

  -- The number of entries that pass a test.
  abbrev pub count_if : (A → Bool) → List A → ℕ
  count_if p [] = 0
  count_if p (x ∷ xs) = (if p x then 1 else 0) + count_if p xs

  -- The index of the first entry that passes a test.
  abbrev pub find_index : (A → Bool) → List A → Option ℕ
  find_index p [] = none
  find_index p (x ∷ xs) = if p x then some 0 else Option.map suc (find_index p xs)

  -- `z` in place of each entry that passes a test: a loop that clears slots by `memset`.
  abbrev pub clear_if : (A → Bool) → A → List A → List A
  clear_if p z [] = []
  clear_if p z (x ∷ xs) = (if p x then z else x) ∷ clear_if p z xs

  abbrev pub All {κ} : (A → Type κ) → List A → Type κ
  All P [] = Unit
  All P (x ∷ xs) = P x × All P xs

module _ {ℓ} {A : Type ℓ} where
  pub length-append : (xs ys : List A) → length (xs ++ ys) ≡ length xs + length ys
  length-append [] ys = omega arith
  length-append (x ∷ xs) ys = omega (arith, length-append xs ys)

  pub length-set : (xs : List A) (i : ℕ) (v : A) → length (set xs i v) ≡ length xs
  length-set [] i v = refl
  length-set (x ∷ xs) zero v = refl
  length-set (x ∷ xs) (suc i) v = ap suc (length-set xs i v)

  pub length-take : (n : ℕ) (xs : List A) → length (take n xs) ≡ min n (length xs)
  length-take zero xs = omega arith
  length-take (suc n) [] = omega arith
  length-take (suc n) (x ∷ xs) = omega (arith, length-take n xs)

  pub length-drop : (n : ℕ) (xs : List A) → length (drop n xs) ≡ length xs - n
  length-drop zero xs = omega arith
  length-drop (suc n) [] = omega arith
  length-drop (suc n) (x ∷ xs) = omega (arith, length-drop n xs)

  pub length-replicate : (n : ℕ) (a : A) → length (replicate n a) ≡ n
  length-replicate zero a = refl
  length-replicate (suc n) a = ap suc (length-replicate n a)

  pub take-append-drop : (n : ℕ) (xs : List A) → take n xs ++ drop n xs ≡ xs
  take-append-drop zero xs = refl
  take-append-drop (suc n) [] = refl
  take-append-drop (suc n) (x ∷ xs) = ap (◌∷◌ x) (take-append-drop n xs)

  pub get_elem?-eq-get_or :
      (xs : List A) (i : ℕ) (d : A) → i < length xs → get_elem? xs i ≡ some (get_or xs i d)
  get_elem?-eq-get_or [] i d h = absurd (omega arith)
  get_elem?-eq-get_or (x ∷ xs) zero d h = refl
  get_elem?-eq-get_or (x ∷ xs) (suc i) d h = get_elem?-eq-get_or xs i d (omega arith)

  pub get_elem?-set_self :
      (xs : List A) (i : ℕ) (v : A) → i < length xs → get_elem? (set xs i v) i ≡ some v
  get_elem?-set_self [] i v h = elim h [ ]
  get_elem?-set_self (x ∷ xs) zero v h = refl
  get_elem?-set_self (x ∷ xs) (suc i) v h = get_elem?-set_self xs i v (omega arith)

  pub get_elem?-set_ne :
      (xs : List A) {i j : ℕ} (v : A) → i ≢ j → get_elem? (set xs i v) j ≡ get_elem? xs j
  get_elem?-set_ne [] v h = refl
  get_elem?-set_ne (x ∷ xs) {i = zero} {j = zero} v h = absurd (h refl)
  get_elem?-set_ne (x ∷ xs) {i = zero} {j = suc j} v h = refl
  get_elem?-set_ne (x ∷ xs) {i = suc i} {j = zero} v h = refl
  get_elem?-set_ne (x ∷ xs) {i = suc i} {j = suc j} v h = get_elem?-set_ne xs v (λ e. h (ap suc e))

  pub get_or-set_self :
      (xs : List A) (i : ℕ) (v d : A) → i < length xs → get_or (set xs i v) i d ≡ v
  get_or-set_self [] i v d h = absurd (omega arith)
  get_or-set_self (x ∷ xs) zero v d h = refl
  get_or-set_self (x ∷ xs) (suc i) v d h = get_or-set_self xs i v d (omega arith)

  pub get_or-set_ne :
      (xs : List A) {i j : ℕ} (v d : A) → i ≢ j → get_or (set xs i v) j d ≡ get_or xs j d
  get_or-set_ne [] v d h = refl
  get_or-set_ne (x ∷ xs) {i = zero} {j = zero} v d h = absurd (h refl)
  get_or-set_ne (x ∷ xs) {i = zero} {j = suc j} v d h = refl
  get_or-set_ne (x ∷ xs) {i = suc i} {j = zero} v d h = refl
  get_or-set_ne (x ∷ xs) {i = suc i} {j = suc j} v d h = get_or-set_ne xs v d (λ e. h (ap suc e))

  pub get_elem?-lt : (xs : List A) (i : ℕ) {x : A} → get_elem? xs i ≡ some x → i < length xs
  get_elem?-lt [] i e = absurd (ground arith)
  get_elem?-lt (x ∷ xs) zero e = omega arith
  get_elem?-lt (x ∷ xs) (suc i) e = omega (arith, get_elem?-lt xs i e)

  pub length-clear_if : (p : A → Bool) (z : A) (xs : List A) → length (clear_if p z xs) ≡ length xs
  length-clear_if p z [] = refl
  length-clear_if p z (x ∷ xs) = ap suc (length-clear_if p z xs)

  pub count_if-le : (p : A → Bool) (xs : List A) → count_if p xs ≤ length xs
  count_if-le p [] = omega arith
  count_if-le p (x ∷ xs) = ground (arith, count_if-le p xs)

  -- Writing one entry changes the count by that entry alone.
  pub count_if-set :
      (p : A → Bool) (xs : List A) (i : ℕ) {x : A} (v : A)
      → get_elem? xs i ≡ some x
      → count_if p (set xs i v) + (if p x then 1 else 0) ≡ count_if p xs + (if p v then 1 else 0)
  count_if-set p [] i v e = absurd (ground arith)
  count_if-set p (y ∷ xs) zero {x} v e = ground arith
  count_if-set p (y ∷ xs) (suc i) {x} v e = omega (arith, count_if-set p xs i {x = x} v e)

  -- Clearing every entry that passes leaves none, if the cleared entry does not pass.
  -- What is cleared is not seen through a test that excludes it.
  pub clear_if-clear_other :
      (p q : A → Bool) (z : A) (xs : List A)
      → ((x : A) → p x ≡ true → q x ≡ false)
      → clear_if (λ x. not (q x)) z (clear_if p z xs) ≡ clear_if (λ x. not (q x)) z xs
  clear_if-clear_other p q z [] h = refl
  clear_if-clear_other p q z (x ∷ xs) h = elim (Bool-cases (p x)) [
    | inl e ↦ ground (arith, e, h x e, clear_if-clear_other p q z xs h)
    | inr e ↦ ground (arith, e, clear_if-clear_other p q z xs h)
  ]

  pub count_if-clear_if :
      (p : A → Bool) (z : A) (xs : List A) → p z ≡ false → count_if p (clear_if p z xs) ≡ 0
  count_if-clear_if p z [] h = refl
  count_if-clear_if p z (x ∷ xs) h = ground (arith, count_if-clear_if p z xs h)

  pub find_index-some :
      (p : A → Bool) (xs : List A) (i : ℕ)
      → find_index p xs ≡ some i
      → (x : A) × (get_elem? xs i ≡ some x) × (p x ≡ true)
  find_index-some p [] i e = absurd (ground arith)
  find_index-some p (x ∷ xs) zero e = (x, refl, ground arith)
  find_index-some p (x ∷ xs) (suc i) e = find_index-some p xs i (ground arith)

  pub find_index-none : (p : A → Bool) (xs : List A) → find_index p xs ≡ none → count_if p xs ≡ 0
  find_index-none p [] e = refl
  find_index-none p (x ∷ xs) e = ground (arith, find_index-none p xs)

  pub find_index-pos :
      (p : A → Bool) (xs : List A) (i : ℕ) → find_index p xs ≡ some i → 0 < count_if p xs
  find_index-pos p [] i e = absurd (ground arith)
  find_index-pos p (x ∷ xs) zero e = ground arith
  find_index-pos p (x ∷ xs) (suc i) e = ground (arith, find_index-pos p xs i)

  pub All-get {κ} :
      (P : A → Type κ) (xs : List A) (i : ℕ) {x : A} → All P xs → get_elem? xs i ≡ some x → P x
  All-get P [] i h e = absurd (ground arith)
  All-get P (y ∷ xs) zero {x} h e = subst P (ground arith) h.0
  All-get P (y ∷ xs) (suc i) h e = All-get P xs i h.1 e

  pub All-set {κ} :
      (P : A → Type κ) (xs : List A) (i : ℕ) (v : A) → All P xs → P v → All P (set xs i v)
  All-set P [] i v h p = tt
  All-set P (y ∷ xs) zero v h p = (p, h.1)
  All-set P (y ∷ xs) (suc i) v h p = (h.0, All-set P xs i v h.1 p)

  pub All-replicate {κ} : (P : A → Type κ) (n : ℕ) (v : A) → P v → All P (replicate n v)
  All-replicate P zero v p = tt
  All-replicate P (suc n) v p = (p, All-replicate P n v p)

  pub count_if-replicate :
      (p : A → Bool) (n : ℕ) (v : A) → p v ≡ false → count_if p (replicate n v) ≡ 0
  count_if-replicate p zero v h = refl
  count_if-replicate p (suc n) v h = ground (arith, count_if-replicate p n v h)

  pub count_if-replicate_all :
      (p : A → Bool) (n : ℕ) (v : A) → p v ≡ true → count_if p (replicate n v) ≡ n
  count_if-replicate_all p zero v h = refl
  count_if-replicate_all p (suc n) v h = ground (arith, h, count_if-replicate_all p n v h)

  pub count_if-pos :
      (p : A → Bool) (xs : List A) (i : ℕ) {x : A}
      → get_elem? xs i ≡ some x
      → p x ≡ true
      → 0 < count_if p xs
  count_if-pos p [] i e h = absurd (ground arith)
  count_if-pos p (y ∷ xs) zero e h = ground arith
  count_if-pos p (y ∷ xs) (suc i) {x} e h = omega (arith, count_if-pos p xs i {x = x} e h)

  pub get_or-eq :
      (xs : List A) (i : ℕ) {x : A} (d : A) → get_elem? xs i ≡ some x → get_or xs i d ≡ x
  get_or-eq [] i d e = absurd (ground arith)
  get_or-eq (y ∷ xs) zero d e = ground arith
  get_or-eq (y ∷ xs) (suc i) d e = get_or-eq xs i d e

  pub clear_if-eq :
      (p q : A → Bool) (z : A) (xs : List A)
      → All (λ x. p x ≡ q x) xs
      → clear_if p z xs ≡ clear_if q z xs
  clear_if-eq p q z [] h = refl
  clear_if-eq p q z (x ∷ xs) h =
      ap (λ (b : Bool). (if b then z else x) ∷ clear_if p z xs) h.0
      ∙ ap (◌∷◌ (if q x then z else x)) (clear_if-eq p q z xs h.1)

  pub All-map {κ κ'} :
      (P : A → Type κ) (Q : A → Type κ') (xs : List A) → ((x : A) → P x → Q x) → All P xs → All Q xs
  All-map P Q [] f h = tt
  All-map P Q (x ∷ xs) f h = (f x h.0, All-map P Q xs f h.1)

  -- A write that keeps a view of the entry keeps it for every index.
  pub get_or-set_view {κ} :
      {B : Type κ} (g : A → B) (xs : List A) (i : ℕ) (v d : A)
      → g v ≡ g (get_or xs i d)
      → g (get_or (set xs i v) i d) ≡ g (get_or xs i d)
  get_or-set_view g [] i v d e = refl
  get_or-set_view g (x ∷ xs) zero v d e = e
  get_or-set_view g (x ∷ xs) (suc i) v d e = get_or-set_view g xs i v d e

  -- Clearing entries that another test rejects does not change what that test counts.
  pub count_if-clear_other :
      (p q : A → Bool) (z : A) (xs : List A)
      → q z ≡ false
      → ((x : A) → p x ≡ true → q x ≡ false)
      → count_if q (clear_if p z xs) ≡ count_if q xs
  count_if-clear_other p q z [] h g = refl
  count_if-clear_other p q z (x ∷ xs) h g = elim (Bool-cases (p x)) [
    | inl e ↦ ground (arith, g x e, count_if-clear_other p q z xs h g)
    | inr e ↦ ground (arith, count_if-clear_other p q z xs h g)
  ]

  pub count_if-clear_le :
      (p q : A → Bool) (z : A) (xs : List A)
      → p z ≡ false
      → count_if p (clear_if q z xs) ≤ count_if p xs
  count_if-clear_le p q z [] h = omega arith
  count_if-clear_le p q z (x ∷ xs) h = ground (arith, count_if-clear_le p q z xs h)

  pub All-clear_if {κ} :
      (P : A → Type κ) (q : A → Bool) (z : A) (xs : List A)
      → P z
      → All P xs
      → All P (clear_if q z xs)
  All-clear_if P q z [] h a = tt
  All-clear_if P q z (x ∷ xs) h a = (
    elim (Bool-cases (q x)) [
      | inl e ↦ subst P (sym (if_true z x e)) h
      | inr e ↦ subst P (sym (if_false z x e)) a.0
    ],
    All-clear_if P q z xs h a.1,
  )

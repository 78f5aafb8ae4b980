-- ===== src/Prelude/Lists.antt =====
-- Lists measured by native numbers, predicates and tests on all members, sorting.
use Prim.Native.Nat.{ℕ, zero, suc, ◌+◌, ◌≤◌}
use mathlib.Core.Path.{◌≡◌, refl, ap}
use mathlib.Core.Logic.{◌⊎◌}
use mathlib.Core.Bool.{Bool, true, false, ◌&&◌, ◌||◌}
use mathlib.Core.Option.{Option, none, some}
use mathlib.Core.List.{List, [], ◌∷◌, ◌++◌}
use native.Mathlib.Omega.{arith}
use mailroom.Prelude.Tests.{if◌then◌else◌, nat_eq}

module _ {ℓ} {A : Type ℓ} where
  abbrev pub length : List A → ℕ
  length [] = 0
  length (x ∷ xs) = suc (length xs)

  abbrev pub get_elem? : List A → ℕ → Option A
  get_elem? [] i = none
  get_elem? (x ∷ xs) zero = some x
  get_elem? (x ∷ xs) (suc i) = get_elem? xs i

  abbrev pub is_nil : List A → Bool
  is_nil [] = true
  is_nil (x ∷ xs) = false

  unfoldable pub take : ℕ → List A → List A
  take zero xs = []
  take (suc n) [] = []
  take (suc n) (x ∷ xs) = x ∷ take n xs

  unfoldable pub drop : ℕ → List A → List A
  drop zero xs = xs
  drop (suc n) [] = []
  drop (suc n) (x ∷ xs) = drop n xs

  pub take-length_append : (xs ys : List A) → take (length xs) (xs ++ ys) ≡ xs
  unfolding take
  take-length_append [] ys = refl
  take-length_append (x ∷ xs) ys = ap (◌∷◌ x) (take-length_append xs ys)

  pub drop-length_append : (xs ys : List A) → drop (length xs) (xs ++ ys) ≡ ys
  unfolding drop
  drop-length_append [] ys = refl
  drop-length_append (x ∷ xs) ys = drop-length_append xs ys

  pub drop-suc-length_append :
      (xs : List A) (y : A) (ys : List A) → drop (suc (length xs)) (xs ++ y ∷ ys) ≡ ys
  unfolding drop
  drop-suc-length_append [] y ys = refl
  drop-suc-length_append (x ∷ xs) y ys = drop-suc-length_append xs y ys

  pub length-append : (xs ys : List A) → length (xs ++ ys) ≡ length xs + length ys
  length-append [] ys = omega arith
  length-append (x ∷ xs) ys = omega (arith, length-append xs ys)

  -- The members that pass a test, in order.
  unfoldable pub keep : (A → Bool) → List A → List A
  keep p [] = []
  keep p (x ∷ xs) = let rest = keep p xs in if p x then x ∷ rest else rest

  unfoldable pub any : (A → Bool) → List A → Bool
  any p [] = false
  any p (x ∷ xs) = p x || any p xs

  unfoldable pub all : (A → Bool) → List A → Bool
  all p [] = true
  all p (x ∷ xs) = p x && all p xs

  unfoldable pub find_first : (A → Bool) → List A → Option A
  find_first p [] = none
  find_first p (x ∷ xs) = let rest = find_first p xs in if p x then some x else rest

  -- The members that pass a test are changed.
  unfoldable pub change : (A → Bool) → (A → A) → List A → List A
  change p f [] = []
  change p f (x ∷ xs) = (if p x then f x else x) ∷ change p f xs

  unfoldable pub place : (A → A → Bool) → A → List A → List A
  place before x [] = x ∷ []
  place before x (y ∷ ys) = if before y x then y ∷ place before x ys else x ∷ y ∷ ys

  -- A sort, by a strict order; members that the order does not tell apart stay in their order.
  unfoldable pub sort_by : (A → A → Bool) → List A → List A
  unfolding place
  sort_by before [] = []
  sort_by before (x ∷ xs) = place before x (sort_by before xs)

  pub length-keep-le : (p : A → Bool) (xs : List A) → length (keep p xs) ≤ length xs
  unfolding keep
  length-keep-le p [] = omega arith
  length-keep-le p (x ∷ xs) = ground (arith, length-keep-le p xs)

  pub keep-append : (p : A → Bool) (xs ys : List A) → keep p (xs ++ ys) ≡ keep p xs ++ keep p ys
  unfolding keep
  keep-append p [] ys = refl
  keep-append p (x ∷ xs) ys = ground (arith, keep-append p xs ys)

module _ {ℓ} {A : Type ℓ} where
  pub find_first-append :
      (p : A → Bool) (xs : List A) (y : A)
      → any p xs ≡ false
      → find_first p (xs ++ y ∷ []) ≡ (if p y then some y else none)
  unfolding find_first any
  find_first-append p [] y h = refl
  find_first-append p (x ∷ xs) y h = ground (arith, find_first-append p xs y)

  pub find_first-append_ne :
      (p : A → Bool) (xs : List A) (y : A)
      → p y ≡ false
      → find_first p (xs ++ y ∷ []) ≡ find_first p xs
  unfolding find_first
  find_first-append_ne p [] y h = ground (arith, h)
  find_first-append_ne p (x ∷ xs) y h = ground (arith, find_first-append_ne p xs y h)

  -- Members that a filter drops for another test are not missed.
  pub find_first-keep :
      (p q : A → Bool) (xs : List A)
      → ((x : A) → p x ≡ true → q x ≡ true)
      → find_first p (keep q xs) ≡ find_first p xs
  unfolding find_first keep
  find_first-keep p q [] h = refl
  find_first-keep p q (x ∷ xs) h = ground (arith, find_first-keep p q xs h, h x)

  pub find_first-none :
      (p q : A → Bool) (xs : List A)
      → ((x : A) → p x ≡ true → q x ≡ false)
      → find_first p (keep q xs) ≡ none
  unfolding find_first keep
  find_first-none p q [] h = refl
  find_first-none p q (x ∷ xs) h = ground (arith, find_first-none p q xs h, h x)

  pub keep-keep :
      (p q : A → Bool) (xs : List A)
      → ((x : A) → p x ≡ true → q x ≡ true)
      → keep p (keep q xs) ≡ keep p xs
  unfolding keep
  keep-keep p q [] h = refl
  keep-keep p q (x ∷ xs) h = ground (arith, keep-keep p q xs h, h x)

  pub keep-none :
      (p q : A → Bool) (xs : List A)
      → ((x : A) → p x ≡ true → q x ≡ false)
      → keep p (keep q xs) ≡ []
  unfolding keep
  keep-none p q [] h = refl
  keep-none p q (x ∷ xs) h = ground (arith, keep-none p q xs h, h x)

-- Every member has the property.
abbrev pub All {ℓ κ} : {A : Type ℓ} → (A → Type κ) → List A → Type κ
All P = elim [ [] ↦ Unit | a ∷ (l → rest) ↦ P a × rest ]

-- Some member has the property.
abbrev pub Any {ℓ} : {A : Type ℓ} → (A → Type 0) → List A → Type 0
Any P [] = ⊥
Any P (x ∷ xs) = P x ⊎ Any P xs

-- `a` is a member: the position is part of the proof.
abbrev pub In : {A : Type 0} → A → List A → Type 0
In a = Any (λ x. a ≡ x)

module _ {ℓ κ} {A : Type ℓ} (P : A → Type κ) where
  pub All-append : (front back : List A) → All P front → All P back → All P (front ++ back)
  All-append [] back f b = b
  All-append (a ∷ front) back f b = (f.0, All-append front back f.1 b)

  pub All-keep : (p : A → Bool) (l : List A) → All P l → All P (keep p l)
  unfolding keep
  All-keep p [] h = tt
  All-keep p (a ∷ l) h = ground (arith, All-keep p l h.1)

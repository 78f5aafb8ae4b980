-- ===== src/Prelude/Sorting.antt =====
-- What a sort keeps, and the maps that a loop over a list builds.
use Prim.Native.Nat.{ℕ, suc, ◌≤◌}
use mathlib.Core.Path.{◌≡◌, refl, sym, subst, ◌∙◌}
use mathlib.Core.Logic.{inl, inr}
use mathlib.Core.Bool.{Bool, false, ◌||◌}
use mathlib.Core.Option.{none, some}
use mathlib.Core.List.{List, [], ◌∷◌}
use native.Mathlib.Omega.{arith}
use mailroom.Prelude.Tests.{Bool-cases, Comparable, if◌then◌else◌, ltb, nat_eq, ◌==◌}
use mailroom.Prelude.Lists.{All, any, length, place, sort_by}
use mailroom.Prelude.Assoc.{insert, lookup, lookup-insert}

module _ {ℓ} {A : Type ℓ} where
  any-place :
      (p : A → Bool) (before : A → A → Bool) (x : A) (ys : List A)
      → any p (place before x ys) ≡ (p x || any p ys)
  unfolding any place
  any-place p before x [] = refl
  any-place p before x (y ∷ ys) = ground (arith, any-place p before x ys)

  pub any-sort_by :
      (p : A → Bool) (before : A → A → Bool) (xs : List A) → any p (sort_by before xs) ≡ any p xs
  unfolding any sort_by
  any-sort_by p before [] = refl
  any-sort_by p before (x ∷ xs) =
      ground (arith, any-place p before x (sort_by before xs), any-sort_by p before xs)

  length-place :
      (before : A → A → Bool) (x : A) (ys : List A) → length (place before x ys) ≡ suc (length ys)
  unfolding place
  length-place before x [] = refl
  length-place before x (y ∷ ys) = ground (arith, length-place before x ys)

  pub length-sort_by :
      (before : A → A → Bool) (xs : List A) → length (sort_by before xs) ≡ length xs
  unfolding sort_by
  length-sort_by before [] = refl
  length-sort_by before (x ∷ xs) =
      ground (arith, length-place before x (sort_by before xs), length-sort_by before xs)

module _ {ℓ κ} {A : Type ℓ} (P : A → Type κ) where
  All-place :
      (before : A → A → Bool) (x : A) (ys : List A) → P x → All P ys → All P (place before x ys)
  unfolding place
  All-place before x [] h t = (h, tt)
  All-place before x (y ∷ ys) h t = ground (arith, All-place before x ys h t.1, h, t)

  pub All-sort_by : (before : A → A → Bool) (xs : List A) → All P xs → All P (sort_by before xs)
  unfolding sort_by
  All-sort_by before [] h = tt
  All-sort_by before (x ∷ xs) h =
      All-place before x (sort_by before xs) h.0 (All-sort_by before xs h.1)

-- The numbers of the members never fall.
abbrev pub Ascending {ℓ} : {A : Type ℓ} → (A → ℕ) → List A → Type 0
Ascending f [] = Unit
Ascending f (x ∷ xs) = All (λ y. f x ≤ f y) xs × Ascending f xs

module _ {ℓ} {A : Type ℓ} (f : A → ℕ) where
  All-le : (a b : ℕ) (xs : List A) → a ≤ b → All (λ y. b ≤ f y) xs → All (λ y. a ≤ f y) xs
  All-le a b [] h t = tt
  All-le a b (x ∷ xs) h t = (omega (arith, h, t.0), All-le a b xs h t.1)

  place-Ascending :
      (x : A) (ys : List A) → Ascending f ys → Ascending f (place (λ a b. ltb (f a) (f b)) x ys)
  unfolding place
  place-Ascending x [] h = (tt, tt)
  place-Ascending x (y ∷ ys) h = elim (Bool-cases (ltb (f y) (f x))) [
    | inl less ↦
        let small : f y ≤ f x = ground (arith, less) in
        rw (place, less)
          (
            All-place (λ z. f y ≤ f z) (λ a b. ltb (f a) (f b)) x ys small h.0,
            place-Ascending x ys h.1,
          )
    | inr more ↦
        let small : f x ≤ f y = ground (arith, more) in
        rw (place, more) ((small, All-le (f x) (f y) ys small h.0), h)
  ]

  -- A sort by a number ascends.
  pub sort_by-Ascending : (xs : List A) → Ascending f (sort_by (λ a b. ltb (f a) (f b)) xs)
  unfolding sort_by
  sort_by-Ascending [] = tt
  sort_by-Ascending (x ∷ xs) =
      place-Ascending x (sort_by (λ a b. ltb (f a) (f b)) xs) (sort_by-Ascending xs)

module _ {ℓ κ} {K : Type ℓ} {A : Type κ} ⦃c : Comparable K⦄ (key : A → K) where
  -- `for _, x := range xs { m[key(x)] = x }`
  unfoldable pub collect : List A → List (K × A) → List (K × A)
  unfolding insert
  collect [] m = m
  collect (x ∷ xs) m = collect xs (insert (key x) x m)

  -- What is found under a key has the key, and is a member or was there.
  pub lookup-collect :
      (P : A → Type 0) (xs : List A) (m : List (K × A)) (k : K) (v : A)
      → All P xs
      → ((w : A) → lookup k m ≡ some w → (key w ≡ k) × P w)
      → lookup k (collect xs m) ≡ some v
      → (key v ≡ k) × P v
  unfolding collect
  lookup-collect P [] m k v h old e = old v e
  lookup-collect P (x ∷ xs) m k v h old e =
      lookup-collect P xs (insert (key x) x m) k v h.1
        (λ w f. stored x m w (sym (lookup-insert (key x) k x m) ∙ f) h.0 old) e
    where
      stored :
          (x : A) (m : List (K × A)) (w : A)
          → (if key x == k then some x else lookup k m) ≡ some w
          → P x
          → ((y : A) → lookup k m ≡ some y → (key y ≡ k) × P y)
          → (key w ≡ k) × P w
      stored x m w f p old = elim (Bool-cases (key x == k)) [
        | inl same ↦
            let s : some x ≡ some w = rw (same) at f in
            let e : x ≡ w = cc s in
            subst (λ y. (key y ≡ k) × P y) e ((c.same_iff (key x) k).0 same, p)
        | inr other ↦ old w (rw (other) at f)
      ]

  -- What is not found under a key has no member with it, and was not there.
  pub lookup-collect-none :
      (xs : List A) (m : List (K × A)) (k : K)
      → lookup k (collect xs m) ≡ none
      → (any (λ x. key x == k) xs ≡ false) × (lookup k m ≡ none)
  unfolding collect any
  lookup-collect-none [] m k e = (refl, e)
  lookup-collect-none (x ∷ xs) m k e =
      let (rest, gone) = lookup-collect-none xs (insert (key x) x m) k e in
      ground (arith, rest, gone, lookup-insert (key x) k x m, c.same_iff (key x) k)

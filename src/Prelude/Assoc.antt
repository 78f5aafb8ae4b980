-- ===== src/Prelude/Assoc.antt =====
-- Go's maps as association lists: `m[k]`, `m[k] = v` and `delete(m, k)`.
use mathlib.Core.Path.{◌≡◌, refl}
use mathlib.Core.Bool.{Bool}
use mathlib.Core.Option.{Option, none, some}
use mathlib.Core.List.{List, [], ◌∷◌}
use native.Mathlib.Omega.{arith}
use mailroom.Prelude.Tests.{Comparable, if◌then◌else◌, nat_eq, ◌==◌}
use mailroom.Prelude.Lists.{keep}

-- What a filter on the values leaves of a lookup.
abbrev pub keep_some {ℓ} : {V : Type ℓ} → (V → Bool) → Option V → Option V
keep_some p none = none
keep_some p (some v) = if p v then some v else none

module _ {ℓ κ} {K : Type ℓ} {V : Type κ} ⦃c : Comparable K⦄ where
  -- The first pair with the key counts.
  unfoldable pub lookup : K → List (K × V) → Option V
  lookup key [] = none
  lookup key ((x, v) ∷ rest) = if x == key then some v else lookup key rest

  -- An assignment overwrites in place, or adds at the end.
  unfoldable pub insert : K → V → List (K × V) → List (K × V)
  insert key new [] = (key, new) ∷ []
  insert key new ((x, v) ∷ rest) =
      if x == key then (key, new) ∷ rest else (x, v) ∷ insert key new rest

  unfoldable pub remove : K → List (K × V) → List (K × V)
  remove key [] = []
  remove key ((x, v) ∷ rest) =
      let others = remove key rest in if x == key then others else (x, v) ∷ others

  pub lookup-insert :
      (key other : K) (new : V) (l : List (K × V))
      → lookup other (insert key new l) ≡ (if key == other then some new else lookup other l)
  unfolding lookup insert
  lookup-insert key other new [] = refl
  lookup-insert key other new ((x, v) ∷ rest) = ground (
    arith,
    lookup-insert key other new rest,
    c.same_iff x key,
    c.same_iff x other,
    c.same_iff key other,
  )

  pub lookup-remove :
      (key other : K) (l : List (K × V))
      → lookup other (remove key l) ≡ (if key == other then none else lookup other l)
  unfolding lookup remove
  lookup-remove key other [] = ground arith
  lookup-remove key other ((x, v) ∷ rest) = ground (
    arith,
    lookup-remove key other rest,
    c.same_iff x key,
    c.same_iff x other,
    c.same_iff key other,
  )

  -- At most one entry for each key, as in a map.
  abbrev pub Unique : List (K × V) → Type κ
  Unique [] = Unit
  Unique ((k, v) ∷ m) = (lookup k m ≡ none) × Unique m

  pub lookup-keep :
      (p : V → Bool) (j : K) (m : List (K × V))
      → Unique m
      → lookup j (keep (λ q. p q.1) m) ≡ keep_some p (lookup j m)
  unfolding lookup keep
  lookup-keep p j [] u = refl
  lookup-keep p j ((k, v) ∷ m) u = ground (arith, c.same_iff k j, lookup-keep p j m u.1)

  pub insert-Unique : (k : K) (v : V) (m : List (K × V)) → Unique m → Unique (insert k v m)
  unfolding lookup insert
  insert-Unique k v [] u = (refl, tt)
  insert-Unique k v ((j, w) ∷ m) u =
      ground (arith, c.same_iff j k, c.same_iff k j, insert-Unique k v m u.1, lookup-insert k j v m)

  pub remove-Unique : (k : K) (m : List (K × V)) → Unique m → Unique (remove k m)
  unfolding remove
  remove-Unique k [] u = tt
  remove-Unique k ((j, w) ∷ m) u = ground (arith, remove-Unique k m u.1, lookup-remove k j m)

  pub keep-Unique : (p : V → Bool) (m : List (K × V)) → Unique m → Unique (keep (λ q. p q.1) m)
  unfolding keep
  keep-Unique p [] u = tt
  keep-Unique p ((j, w) ∷ m) u = ground (arith, keep-Unique p m u.1, lookup-keep p j m u.1)

-- ===== src/Prelude/Maps.antt =====
-- A Go map as an association list, whose order is the order of one iteration.
use Prim.Native.Nat.{◌+◌, ◌≤◌}
use mathlib.Core.Path.{◌≡◌, refl}
use mathlib.Core.Logic.{◌≢◌}
use mathlib.Core.Bool.{Bool, true, false}
use mathlib.Core.Option.{Option, none, some}
use mathlib.Core.List.{List, [], ◌∷◌}
use native.Mathlib.Omega.{arith}
use gin_di.Prelude.Tests.{if◌then◌else◌}
use gin_di.Prelude.Lists.{length}
use gin_di.Prelude.Texts.{Text, same, same_iff}

module _ {ℓ} {V : Type ℓ} where
  unfoldable pub lookup : Text → List (Text × V) → Option V
  lookup k [] = none
  lookup k ((j, v) ∷ m) = if same j k then some v else lookup k m

  unfoldable pub has : Text → List (Text × V) → Bool
  has k [] = false
  has k ((j, v) ∷ m) = if same j k then true else has k m

  unfoldable pub put : Text → V → List (Text × V) → List (Text × V)
  put k v [] = (k, v) ∷ []
  put k v ((j, w) ∷ m) = if same j k then (k, v) ∷ m else (j, w) ∷ put k v m

  unfoldable pub delete : Text → List (Text × V) → List (Text × V)
  delete k [] = []
  delete k ((j, w) ∷ m) = let rest = delete k m in if same j k then rest else (j, w) ∷ rest

  pub lookup-put :
      (k j : Text) (v : V) (m : List (Text × V))
      → lookup j (put k v m) ≡ (if same k j then some v else lookup j m)
  unfolding lookup put
  lookup-put k j v [] = refl
  lookup-put k j v ((i, w) ∷ m) =
      ground (arith, same_iff k j, same_iff i k, same_iff i j, lookup-put k j v m)

  pub lookup-delete :
      (k j : Text) (m : List (Text × V))
      → lookup j (delete k m) ≡ (if same k j then none else lookup j m)
  unfolding lookup delete
  lookup-delete k j [] = ground arith
  lookup-delete k j ((i, w) ∷ m) =
      ground (arith, same_iff k j, same_iff i k, same_iff i j, lookup-delete k j m)

  pub length-put-le : (k : Text) (v : V) (m : List (Text × V)) → length (put k v m) ≤ length m + 1
  unfolding put
  length-put-le k v [] = omega arith
  length-put-le k v ((j, w) ∷ m) = ground (arith, length-put-le k v m)

  pub length-put_found :
      (k : Text) (v : V) (m : List (Text × V)) → lookup k m ≢ none → length (put k v m) ≡ length m
  unfolding put lookup
  length-put_found k v [] h = absurd (h refl)
  length-put_found k v ((j, w) ∷ m) h = ground (arith, length-put_found k v m)

  pub length-delete-le : (k : Text) (m : List (Text × V)) → length (delete k m) ≤ length m
  unfolding delete
  length-delete-le k [] = omega arith
  length-delete-le k ((j, w) ∷ m) = ground (arith, length-delete-le k m)

  -- The keys of a Go map are distinct.
  abbrev pub Distinct : List (Text × V) → Type 0
  Distinct [] = Unit
  Distinct ((k, v) ∷ m) = (has k m ≡ false) × Distinct m

  pub has-put :
      (k j : Text) (v : V) (m : List (Text × V))
      → has j (put k v m) ≡ (if same k j then true else has j m)
  unfolding has put
  has-put k j v [] = refl
  has-put k j v ((i, w) ∷ m) =
      ground (arith, same_iff k j, same_iff i k, same_iff i j, has-put k j v m)

  pub has-delete :
      (k j : Text) (m : List (Text × V))
      → has j (delete k m) ≡ (if same k j then false else has j m)
  unfolding has delete
  has-delete k j [] = ground arith
  has-delete k j ((i, w) ∷ m) =
      ground (arith, same_iff k j, same_iff i k, same_iff i j, has-delete k j m)

  pub lookup_of_not_has : (k : Text) (m : List (Text × V)) → has k m ≡ false → lookup k m ≡ none
  unfolding has lookup
  lookup_of_not_has k [] h = refl
  lookup_of_not_has k ((j, w) ∷ m) h = ground (arith, lookup_of_not_has k m)

  pub put-Distinct : (k : Text) (v : V) (m : List (Text × V)) → Distinct m → Distinct (put k v m)
  unfolding put has
  put-Distinct k v [] d = (refl, tt)
  put-Distinct k v ((j, w) ∷ m) (h, d) =
      ground (arith, same_iff j k, same_iff k j, has-put k j v m, put-Distinct k v m d)

  pub delete-Distinct : (k : Text) (m : List (Text × V)) → Distinct m → Distinct (delete k m)
  unfolding delete
  delete-Distinct k [] d = tt
  delete-Distinct k ((j, w) ∷ m) (h, d) = ground (arith, has-delete k j m, delete-Distinct k m d)

-- ===== src/Prelude/Actions.antt =====
-- Methods that change a state and may fail: what they did before an error stays done.
use mathlib.Core.Path.{◌≡◌, refl}
use mathlib.Core.Logic.{◌⊎◌, inl, inr}
use gin_di.Prelude.Results.{Result, ok, err}

abbrev pub Action : Type 0 → Type 0 → Type 0 → Type 0
Action S E A = S → S × Result E A

module _ {S E : Type 0} where
  abbrev pub and_then : {A B : Type 0} → S × Result E A → (A → Action S E B) → S × Result E B
  and_then (s, ok a) f = f a s
  and_then (s, err e) f = (s, err e)

  infixl 5 ◌>>=◌ ◌>>◌
  abbrev pub ◌>>=◌ : {A B : Type 0} → Action S E A → (A → Action S E B) → Action S E B
  ◌>>=◌ m f s = and_then (m s) f

  abbrev pub ◌>>◌ : {B : Type 0} → Action S E (Unit {0}) → Action S E B → Action S E B
  m >> k = m >>= λ _. k

  -- A step that changes nothing.
  abbrev pub reading : {A : Type 0} → (S → Result E A) → Action S E A
  reading f s = (s, f s)

  abbrev pub done : Action S E (Unit {0})
  done s = (s, ok tt)

  abbrev pub fail : {A : Type 0} → E → Action S E A
  fail e s = (s, err e)

  pub Action-cases :
      {A : Type 0} (r : S × Result E A)
      → ((s : S) × (a : A) × (r ≡ (s, ok a))) ⊎ ((s : S) × (e : E) × (r ≡ (s, err e)))
  Action-cases (s, ok a) = inl (s, a, refl)
  Action-cases (s, err e) = inr (s, e, refl)

  -- What holds of every end of a method holds of the method.
  pub and_then_rule {ℓ} :
      {A B : Type 0} (P : S × Result E B → Type ℓ) (r : S × Result E A) (f : A → Action S E B)
      → ((s : S) (a : A) → r ≡ (s, ok a) → P (f a s))
      → ((s : S) (e : E) → r ≡ (s, err e) → P (s, err e))
      → P (and_then r f)
  and_then_rule P (s, ok a) f served failed = served s a refl
  and_then_rule P (s, err e) f served failed = failed s e refl

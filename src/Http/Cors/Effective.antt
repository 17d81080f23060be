-- ===== src/Http/Cors/Effective.antt =====
-- The origins that the middleware is built from.
use gin_di.Prelude.{Text, same, [], ◌∷◌, false, ◌≡◌, refl}
use gin_di.Http.Exceptions.{to_lower}

to_lower-nonempty : (s : Text) → same s [] ≡ false → same (to_lower s) [] ≡ false
unfolding to_lower same
to_lower-nonempty [] h = cc
to_lower-nonempty (c ∷ s) h = refl

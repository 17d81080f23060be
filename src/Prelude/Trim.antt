-- ===== src/Prelude/Trim.antt =====
-- strings.TrimSpace, on ASCII.
use gin_di.Prelude.Texts.{Text}
use gin_di.Prelude.Tests.{leb, ◌==◌, if◌then◌else◌}
use Prim.Native.Nat.{ℕ}
use mathlib.Core.Bool.{Bool, ◌&&◌, ◌||◌}
use mathlib.Core.List.{[], ◌∷◌}

abbrev pub is_space : ℕ → Bool
is_space c = c == 32 || (leb 9 c && leb c 13)

unfoldable pub trim_left : Text → Text
trim_left [] = []
trim_left (c ∷ s) = let rest = trim_left s in if is_space c then rest else c ∷ s

unfoldable pub trim_right : Text → Text
trim_right [] = []
trim_right (c ∷ s) = elim (trim_right s) [
  | [] ↦ if is_space c then [] else c ∷ []
  | ◌∷◌ d t ↦ c ∷ d ∷ t
]

unfoldable pub trim_space : Text → Text
trim_space s = trim_right (trim_left s)

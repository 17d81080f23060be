-- ===== src/Console/EnvFile/Lines.antt =====
-- Splitting a text into lines and joining them undo each other.
use gin_di.Prelude.{
  ==_iff, ℕ, Text, List, [], ◌∷◌, ◌++◌, some, false, Bool-cases, ◌==◌, ◌≡◌, refl, sym, ap, ◌∙◌, inl,
  inr, All, arith,
}
use gin_di.Console.EnvFile.{newline, split, join, join_lines, strip_prefix}
use gin_di.Prelude.Trim.{is_space, trim_left, trim_right, trim_space}

abbrev pub lines_of : Text → List Text
lines_of s = let (line, lines) = split s in line ∷ lines

abbrev pub IsLine : Text → Type 0
IsLine = All (λ c. (c == newline) ≡ false)

join-add : (c : ℕ) (line : Text) (lines : List Text) → join (c ∷ line) lines ≡ c ∷ join line lines
unfolding join
join-add c line [] = refl
join-add c line (next ∷ lines) = refl

pub join-split : (s : Text) → join_lines (lines_of s) ≡ s
unfolding join split
join-split [] = refl
join-split (c ∷ s) = elim (Bool-cases (c == newline)) [
  | inl e ↦
      rw (e) (ap (λ t. newline ∷ t) (join-split s) ∙ ap (λ d. d ∷ s) (sym ((==_iff c newline).0 e)))
  | inr e ↦ rw (e) (join-add c _ _ ∙ ap (λ t. c ∷ t) (join-split s))
]

pub split-join :
    (line : Text) (lines : List Text)
    → IsLine line
    → All IsLine lines
    → split (join line lines) ≡ (line, lines)
unfolding join split
split-join [] [] l ls = refl
split-join [] (next ∷ lines) l (n, ls) = rw (split-join next lines n ls) refl
split-join (c ∷ line) [] (e, l) ls = rw (split, e, split-join line [] l tt) refl
split-join (c ∷ line) (next ∷ lines) (e, l) ls =
    rw (split, e) (ap (λ x. (c ∷ x.0, x.1)) (split-join line (next ∷ lines) l ls))

pub split-IsLine : (s : Text) → All IsLine (lines_of s)
unfolding split
split-IsLine [] = (tt, tt)
split-IsLine (c ∷ s) = elim (Bool-cases (c == newline)) [
  | inl e ↦ rw (e) (tt, split-IsLine s)
  | inr e ↦ rw (e) (let (l, ls) = split-IsLine s in ((e, l), ls))
]

abbrev pub IsTrimmed : Text → Type 0
IsTrimmed = All (λ c. is_space c ≡ false)

trim_right_id : (s : Text) → IsTrimmed s → trim_right s ≡ s
unfolding trim_right
trim_right_id [] h = refl
trim_right_id (c ∷ []) (e, h) = rw (e) refl
trim_right_id (c ∷ d ∷ s) (e, h) = rw (trim_right_id (d ∷ s) h) refl

pub trim_space_id : (s : Text) → IsTrimmed s → trim_space s ≡ s
unfolding trim_space trim_left
trim_space_id [] h = trim_right_id [] h
trim_space_id (c ∷ s) (e, h) = rw (e) (trim_right_id (c ∷ s) (e, h))

pub strip_prefix-append : (p s : Text) → strip_prefix (p ++ s) p ≡ some s
unfolding strip_prefix
strip_prefix-append [] s = refl
strip_prefix-append (c ∷ p) s = rw (strip_prefix-append p s) (ground arith)

-- ===== src/Settings/Env/Lists.antt =====
-- The comma-separated lists of the environment.
use gin_di.Prelude.{
  Text, same, List, [], ◌∷◌, ◌++◌, some, Bool, true, false, ◌||◌, ◌==◌, ◌≡◌, refl, All, lookup,
}
use gin_di.Prelude.Trim.{trim_space}
use gin_di.Settings.Env.{Environment, env_slice, split_list, keep_filled, separator}

abbrev has_separator : Text → Bool
has_separator [] = false
has_separator (c ∷ s) = (c == separator) || has_separator s

-- An entry that a list can hold: not empty, without a separator, and without space at its ends.
abbrev pub IsEntry : Text → Type 0
IsEntry s = (same s [] ≡ false) × (has_separator s ≡ false) × (trim_space s ≡ s)

abbrev pub join_list : Text → List Text → Text
join_list entry [] = entry
join_list entry (next ∷ rest) = entry ++ separator ∷ join_list next rest

or_false : (a b : Bool) → (a || b) ≡ false → (a ≡ false) × (b ≡ false)
or_false false false h = (refl, refl)
or_false false true h = cc
or_false true b h = cc

split_list-last : (entry : Text) → has_separator entry ≡ false → split_list entry ≡ (entry, [])
unfolding split_list
split_list-last [] h = refl
split_list-last (c ∷ s) h =
    let (plain_c, plain_s) = or_false (c == separator) (has_separator s) h in
    rw (split_list, split_list-last s plain_s, plain_c) refl

split_list-append :
    (entry rest : Text)
    → has_separator entry ≡ false
    → split_list (entry ++ separator ∷ rest) ≡ (entry, (split_list rest).0 ∷ (split_list rest).1)
unfolding split_list
split_list-append [] rest h = refl
split_list-append (c ∷ s) rest h =
    let (plain_c, plain_s) = or_false (c == separator) (has_separator s) h in
    rw (split_list, split_list-append s rest plain_s, plain_c) refl

split_list-join_list :
    (entry : Text) (rest : List Text)
    → IsEntry entry
    → All IsEntry rest
    → split_list (join_list entry rest) ≡ (entry, rest)
split_list-join_list entry [] (filled, plain, trimmed) hs = split_list-last entry plain
split_list-join_list entry (next ∷ rest) (filled, plain, trimmed) hs =
    rw
      (
        split_list-append entry (join_list next rest) plain,
        split_list-join_list next rest hs.0 hs.1,
      )
      refl

keep_filled-All : (entries : List Text) → All IsEntry entries → keep_filled entries ≡ entries
unfolding keep_filled
keep_filled-All [] h = refl
keep_filled-All (entry ∷ rest) ((filled, plain, trimmed), hs) =
    rw (keep_filled, keep_filled-All rest hs, trimmed, filled) refl

-- A variable that holds entries joined by commas is read as the list of these entries, if none of
-- them is empty, contains a comma, or starts or ends with space.
pub env_slice-join_list :
    (env : Environment) (key : Text) (fallback : List Text) (entry : Text) (rest : List Text)
    → lookup key env ≡ some (join_list entry rest)
    → IsEntry entry
    → All IsEntry rest
    → env_slice env key fallback ≡ entry ∷ rest
unfolding env_slice
env_slice-join_list env key fallback entry rest found h hs =
    rw (env_slice, found, split_list-join_list entry rest h hs)
      (keep_filled-All (entry ∷ rest) (h, hs))

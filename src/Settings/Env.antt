-- ===== src/Settings/Env.antt =====
-- app/helpers/general.go: typed values of environment variables.
use gin_di.Prelude.{
  ℕ, zero, suc, ◌+◌, ◌-◌, ◌*◌, ◌/◌, ◌%◌, ◌^◌, ◌≤◌, ◌<◌, Text, codes, same, same_refl, same_iff,
  ne_of_same, List, [], ◌∷◌, ◌++◌, map, append-nil, append_assoc, Option, none, some, Option-cases,
  Bool, true, false, not, ◌&&◌, ◌||◌, Bool-cases, ltb, leb, ◌==◌, if◌then◌else◌, ◌≡◌, ◌≢◌, ◌↔◌,
  refl, sym, ap, subst, ◌∙◌, ◌⊎◌, inl, inr, length, All, lookup, has, put, delete, lookup-put,
  Result, ok, err, Result-cases, ok_inj, err_not_ok, arith,
}
use gin_di.Prelude.Int.{ℤ, pos, negsuc}
use gin_di.Prelude.Trim.{trim_space}
pub mod Lists
mod Tests

-- The variables that are set.
abbrev pub Environment : Type 0
Environment = List (Text × Text)

abbrev is_digit : ℕ → Bool
is_digit c = leb b'0' c && leb c b'9'

-- The value of a text of digits, after those that are read already.
unfoldable pub digits : ℕ → Text → Option ℕ
digits n [] = some n
digits n (c ∷ s) = let rest = digits (10 * n + (c - b'0')) s in if is_digit c then rest else none

-- At least one digit.
unfoldable pub magnitude : Text → Option ℕ
magnitude [] = none
magnitude (c ∷ s) = digits 0 (c ∷ s)

-- An int of 64 bits with this sign and magnitude.
abbrev in_range : Bool → ℕ → Option ℤ
in_range false n = if ltb n (2 ^ 63) then some (pos n) else none
in_range true zero = some (pos 0)
in_range true (suc n) = if ltb n (2 ^ 63) then some (negsuc n) else none

abbrev signed : Bool → Option ℕ → Option ℤ
signed negative none = none
signed negative (some n) = in_range negative n

-- strconv.Atoi: an optional sign, and digits.
unfoldable pub atoi : Text → Option ℤ
atoi [] = none
atoi (c ∷ s) =
    if c == b'-'
    then signed true (magnitude s)
    else (if c == b'+' then signed false (magnitude s) else signed false (magnitude (c ∷ s)))

abbrev one_of : Text → List Text → Bool
one_of s [] = false
one_of s (t ∷ ts) = same s t || one_of s ts

-- strconv.ParseBool
unfoldable pub parse_bool : Text → Option Bool
parse_bool s =
    if one_of s
      (codes "1" ∷ codes "t" ∷ codes "T" ∷ codes "TRUE" ∷ codes "true" ∷ codes "True" ∷ [])
    then some true
    else (if one_of s
          (codes "0" ∷ codes "f" ∷ codes "F" ∷ codes "FALSE" ∷ codes "false" ∷ codes "False" ∷ [])
        then some false
        else none)

-- A variable that is not set, or that does not parse, is the fallback.
abbrev pub or_fallback : {A : Type 0} → A → Option A → A
or_fallback fallback none = fallback
or_fallback fallback (some a) = a

abbrev parsed : {A : Type 0} → (Text → Option A) → Option Text → Option A
parsed parse none = none
parsed parse (some value) = parse value

-- `Env` at the types of its fallback. The assertion of each caller is for the type of the fallback,
-- which is the type of either result.
unfoldable pub env_text : Environment → Text → Text → Text
env_text env key fallback = or_fallback fallback (lookup key env)

unfoldable pub env_int : Environment → Text → ℤ → ℤ
env_int env key fallback = or_fallback fallback (parsed atoi (lookup key env))

unfoldable pub env_bool : Environment → Text → Bool → Bool
env_bool env key fallback = or_fallback fallback (parsed parse_bool (lookup key env))

abbrev separator : ℕ
separator = b','

-- strings.Split by the separator, as the first part and the others.
unfoldable pub split_list : Text → Text × List Text
split_list [] = ([], [])
split_list (c ∷ s) =
    let (part, parts) = split_list s in
    if c == separator then ([], part ∷ parts) else (c ∷ part, parts)

-- The loop of `EnvSlice`.
unfoldable pub keep_filled : List Text → List Text
keep_filled [] = []
keep_filled (part ∷ parts) =
    let rest = keep_filled parts in
    if same (trim_space part) [] then rest else trim_space part ∷ rest

unfoldable pub env_slice : Environment → Text → List Text → List Text
env_slice env key fallback = elim (lookup key env) [
  | none ↦ fallback
  | some value ↦ let (part, parts) = split_list value in keep_filled (part ∷ parts)
]

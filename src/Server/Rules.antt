-- ===== src/Server/Rules.antt =====
-- app/providers/validation_service_provider.go: the rules of a request's fields.
use gin_di.Http.Errors.{GoError, plain, wrap}
use gin_di.Prelude.{
  ℕ, zero, suc, ◌+◌, ◌-◌, ◌*◌, ◌/◌, ◌%◌, ◌^◌, ◌≤◌, ◌<◌, Text, codes, same, same_refl, same_iff,
  ne_of_same, List, [], ◌∷◌, ◌++◌, map, append-nil, append_assoc, Option, none, some, Option-cases,
  Bool, true, false, not, ◌&&◌, ◌||◌, Bool-cases, ltb, leb, ◌==◌, if◌then◌else◌, ◌≡◌, ◌≢◌, ◌↔◌,
  refl, sym, ap, subst, ◌∙◌, ◌⊎◌, inl, inr, length, All, lookup, has, put, delete, lookup-put,
  Result, ok, err, Result-cases, ok_inj, err_not_ok, arith,
}
mod Tests

-- The name in a json tag, which options may follow.
unfoldable pub before_comma : Text → Text
before_comma [] = []
before_comma (c ∷ s) = let rest = before_comma s in if c == b',' then [] else c ∷ rest

-- The name that a validation error carries: the one of the tag, none for "-", and the field's own
-- where the tag has no name.
unfoldable pub field_name : Text → Text → Text
field_name tag name =
    if same (before_comma tag) (codes "-")
    then []
    else (if same (before_comma tag) [] then name else before_comma tag)

abbrev is_digit : ℕ → Bool
is_digit c = leb b'0' c && leb c b'9'

abbrev two : ℕ → ℕ → ℕ
two a b = (a - b'0') * 10 + (b - b'0')

abbrev four : ℕ → ℕ → ℕ → ℕ → ℕ
four a b c d = two a b * 100 + two c d

abbrev pub is_leap : ℕ → Bool
is_leap y = (y % 4 == 0) && (not (y % 100 == 0) || (y % 400 == 0))

unfoldable pub days_in : ℕ → ℕ → ℕ
days_in y m =
    if m == 2
    then (if is_leap y then 29 else 28)
    else (if m == 4 || (m == 6 || (m == 9 || m == 11)) then 30 else 31)

-- A year, a month and a day that time.Parse accepts.
unfoldable pub in_calendar : ℕ → ℕ → ℕ → Bool
in_calendar y m d = (leb 1 m && leb m 12) && (leb 1 d && leb d (days_in y m))

-- time.Parse of the layout 2006-01-02: four digits, two and two.
unfoldable pub valid_date : Text → Bool
valid_date (a ∷ b ∷ c ∷ d ∷ p ∷ e ∷ f ∷ q ∷ g ∷ h ∷ []) =
    (is_digit a && (is_digit b && (is_digit c && is_digit d)))
    && ((p == b'-' && (is_digit e && is_digit f))
        && ((q == b'-' && (is_digit g && is_digit h))
            && in_calendar (four a b c d) (two e f) (two g h)))
valid_date s = false

-- `Boot`: whether gin's validator is the engine that the rules are for, and what it answered when the
-- rule for dates was registered.
unfoldable pub register_rules : Bool → Option GoError → Option GoError
register_rules is_validate registered =
    if not is_validate
    then some (plain (codes "validation: gin's validator engine is not *validator.Validate"))
    else elim registered [
      | none ↦ none
      | some e ↦ some (wrap (codes "validation: registering eventdate: ") e)
    ]

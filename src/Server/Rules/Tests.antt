-- ===== src/Server/Rules/Tests.antt =====
-- Dates and field names.
use gin_di.Prelude.{codes, same, [], true, false, ◌≡◌, refl}
use gin_di.Server.Rules.{before_comma, days_in, in_calendar, field_name, valid_date}

leap : valid_date (codes "2024-02-29") ≡ true
unfolding valid_date in_calendar days_in
leap = refl

no_leap : valid_date (codes "2023-02-29") ≡ false
unfolding valid_date in_calendar days_in
no_leap = refl

month : valid_date (codes "2024-13-01") ≡ false
unfolding valid_date in_calendar
month = refl

slashes : valid_date (codes "2024/01/01") ≡ false
unfolding valid_date
slashes = refl

tagged : field_name (codes "username,omitempty") (codes "Username") ≡ codes "username"
unfolding field_name same before_comma
tagged = refl

bare : field_name [] (codes "Page") ≡ codes "Page"
unfolding field_name same before_comma
bare = refl

-- A year that the calendar of the database does not have.
year_zero : valid_date (codes "0000-01-01") ≡ true
unfolding valid_date in_calendar days_in
year_zero = refl

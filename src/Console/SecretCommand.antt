-- ===== src/Console/SecretCommand.antt =====
-- app/console/jwt/secret.go: the command that draws a signing secret. The random bytes are an argument.
use gin_di.Prelude.{
  ℕ, zero, suc, ◌+◌, ◌-◌, ◌*◌, ◌/◌, ◌%◌, ◌^◌, ◌≤◌, ◌<◌, Text, codes, same, same_refl, same_iff,
  ne_of_same, List, [], ◌∷◌, ◌++◌, map, append-nil, append_assoc, Option, none, some, Option-cases,
  Bool, true, false, not, ◌&&◌, ◌||◌, Bool-cases, ltb, leb, ◌==◌, if◌then◌else◌, ◌≡◌, ◌≢◌, ◌↔◌,
  refl, sym, ap, subst, ◌∙◌, ◌⊎◌, inl, inr, length, All, lookup, has, put, delete, lookup-put,
  Result, ok, err, Result-cases, ok_inj, err_not_ok, arith,
}
use gin_di.Http.Errors.{GoError, plain, wrap}
use gin_di.Console.Commands.{Flags, help, invalid, given}
use gin_di.Console.EnvFile.{Files, Step, write_jwt_secret}
use gin_di.Settings.Jwt.{min_secret_key_length}
pub mod Accepted
mod Tests

-- The URL-safe alphabet of base64.
abbrev url_character : ℕ → ℕ
url_character n =
    if ltb n 26
    then b'A' + n
    else (if ltb n 52
        then b'a' + (n - 26)
        else (if ltb n 62 then b'0' + (n - 52) else (if n == 62 then b'-' else b'_')))

-- base64.RawURLEncoding: three bytes are four characters, and there is no padding.
unfoldable pub encode_to_string : List ℕ → Text
encode_to_string [] = []
encode_to_string (a ∷ []) = url_character (a / 4) ∷ url_character (a % 4 * 16) ∷ []
encode_to_string (a ∷ b ∷ []) =
    url_character (a / 4) ∷ url_character (a % 4 * 16 + b / 16) ∷ url_character (b % 16 * 4) ∷ []
encode_to_string (a ∷ b ∷ c ∷ bytes) =
    url_character (a / 4)
    ∷ url_character (a % 4 * 16 + b / 16)
    ∷ url_character (b % 16 * 4 + c / 64)
    ∷ url_character (c % 64)
    ∷ encode_to_string bytes

abbrev pub secret_random_bytes : ℕ
secret_random_bytes = 32

-- `GenerateSecret`, where rand.Read fills the buffer or fails.
unfoldable pub generate_secret : Result GoError (List ℕ) → Result GoError Text
generate_secret read = elim read [
  | err e ↦ err (wrap (codes "reading random bytes: ") e)
  | ok bytes ↦
      let secret = encode_to_string bytes in
      if ltb (length secret) min_secret_key_length
      then err (plain (codes "generated secret is too short"))
      else ok secret
]

pub record SecretFlags : Type 0 where
  pub show : Bool
  pub force : Bool

abbrev pub env_file_name : Text
env_file_name = codes ".env"

-- What a command prints and the files that it leaves, with its error.
pub record Done : Type 0 where
  pub printed : Option Text
  pub files : Files
  pub error : Option GoError

abbrev written_to : Files × Result GoError (Unit {0}) → Done
written_to (files, ok u) = record { printed = none; files = files; error = none }
written_to (files, err e) = record { printed = none; files = files; error = some e }

module _ (fails : Step → Option GoError) (tmp torn : Text) where
  -- `SecretCommand.Handle`
  unfoldable pub secret_command :
      Flags SecretFlags GoError → Result GoError (List ℕ) → Option GoError → Files → Done
  secret_command help read unreadable files = record { printed = none; files = files; error = none }
  secret_command (invalid e) read unreadable files = record {
    printed = none;
    files = files;
    error = some (wrap (codes "parsing flags: ") e);
  }
  secret_command (given flags) read unreadable files = elim (generate_secret read) [
    | err e ↦ record { printed = none; files = files; error = some e }
    | ok secret ↦
        if flags.show
        then record { printed = some secret; files = files; error = none }
        else written_to
            (write_jwt_secret fails tmp torn unreadable env_file_name secret flags.force files)
  ]

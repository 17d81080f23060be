-- ===== src/Console/EnvFile/Tests.antt =====
-- The secret set in a small file.
use gin_di.Prelude.{
  Text, codes, same, [], ◌∷◌, Option, none, some, false, ◌≡◌, ◌≢◌, refl, ◌⊎◌, lookup, put, ok, err,
}
use gin_di.Console.EnvFile.{
  Step, Files, chmod, set_secret, set_lines, assigned, strip_prefix, split, join, write_jwt_secret,
  already_set,
}
use gin_di.Prelude.Trim.{trim_space, trim_left, trim_right}
use gin_di.Console.EnvFile.Lines.{lines_of}
use gin_di.Console.EnvFile.Secret.{Sets, value_of, set_secret-outcome}
use gin_di.Console.EnvFile.Replace.{AgreeOff, write_jwt_secret-outcome}
use gin_di.Http.Errors.{GoError, plain}

abbrev env : Text
env = codes "A=1\n JWT_SECRET= \nB=2\n"

set_in_place : set_secret (codes "xyz") false env ≡ ok (codes "A=1\nJWT_SECRET=xyz\nB=2\n")
unfolding set_secret set_lines assigned trim_space trim_left trim_right strip_prefix split join same
set_in_place = refl

set_secret-outcome_example :
    ((written : Text) × (set_secret (codes "xyz") false env ≡ ok written)
      × Sets (codes "xyz") false (lines_of env) (lines_of written)
      × (value_of (lines_of written) ≡ some (codes "xyz")))
    ⊎ ((value : Text) × (set_secret (codes "xyz") false env ≡ err already_set)
        × (false ≡ false)
        × (value ≢ [])
        × (value_of (lines_of env) ≡ some value))
set_secret-outcome_example = set_secret-outcome (codes "xyz") false env (refl, (refl, (refl, tt)))

-- The change of the mode fails.
abbrev no_chmod : Step → Option GoError
no_chmod chmod = some (plain (codes "operation not permitted"))
no_chmod _ = none

abbrev files : Files
files = (codes ".env", env) ∷ []

write_jwt_secret-outcome_example :
    let (after, r) =
      write_jwt_secret no_chmod (codes ".env.1") [] none (codes ".env") (codes "xyz") false files in
    ((contents replaced : Text) × (r ≡ ok tt)
      × (lookup (codes ".env") files ≡ some contents)
      × (set_secret (codes "xyz") false contents ≡ ok replaced)
      × AgreeOff (codes ".env.1") (put (codes ".env") replaced files) after)
    ⊎ ((e : GoError) × (r ≡ err e) × AgreeOff (codes ".env.1") files after)
unfolding same
write_jwt_secret-outcome_example =
    write_jwt_secret-outcome no_chmod (codes ".env.1") [] none (codes ".env") (codes "xyz") false
      files refl

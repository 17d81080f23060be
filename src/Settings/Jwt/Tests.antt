-- ===== src/Settings/Jwt/Tests.antt =====
-- Token settings that are accepted, and that are not.
use gin_di.Prelude.{Text, codes, same, [], ◌∷◌, ◌≡◌, ◌↔◌, refl, lookup, ok, err, arith}
use gin_di.Prelude.Int.{to_int64, mul_int64, pos}
use gin_di.Settings.Env.{digits, magnitude, atoi, Environment, env_int, env_text}
use gin_di.Settings.Jwt.{check_jwt, read_jwt, new_jwt_config, missing_jwt_secret}
use gin_di.Settings.Jwt.Safe.{new_jwt_config_iff, IsSafe, read_jwt_ttl}

abbrev key_32 : Text
key_32 = codes "0123456789abcdef0123456789abcdef"

abbrev hour : Environment
hour = (codes "JWT_SECRET", key_32) ∷ (codes "JWT_TTL", codes "3600") ∷ []

-- 36893488148 seconds wrap to about half a second, and are accepted.
abbrev wrapping : Environment
wrapping = (codes "JWT_SECRET", key_32) ∷ (codes "JWT_TTL", codes "36893488148") ∷ []

wraps : (read_jwt wrapping).ttl ≡ pos 580_896_768
unfolding read_jwt env_int mul_int64 to_int64 atoi magnitude digits lookup same
wraps = refl

new_jwt_config_iff_example :
    (new_jwt_config hour ≡ ok (read_jwt hour))
    ↔ ((read_jwt hour ≡ read_jwt hour) × IsSafe (read_jwt hour))
new_jwt_config_iff_example = new_jwt_config_iff hour (read_jwt hour)

hour_accepted : new_jwt_config hour ≡ ok (read_jwt hour)
unfolding new_jwt_config read_jwt env_text env_int check_jwt lookup same mul_int64 atoi magnitude
    digits to_int64
hour_accepted = refl

nothing_set : new_jwt_config [] ≡ err missing_jwt_secret
unfolding new_jwt_config read_jwt env_text env_int check_jwt lookup
nothing_set = refl

read_jwt_ttl_example : (read_jwt hour).ttl ≡ pos 3_600_000_000_000
unfolding lookup same atoi magnitude digits
read_jwt_ttl_example = read_jwt_ttl hour (codes "3600") 3_600 refl refl (omega arith)

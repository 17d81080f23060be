-- ===== src/Console/SecretCommand/Tests.antt =====
-- Base64 of known bytes, and a secret of zeros.
use gin_di.Prelude.Int.{mul_int64, to_int64}
use gin_di.Prelude.{
  ℕ, zero, suc, Text, codes, same, List, [], ◌∷◌, ◌≡◌, refl, length, lookup, ok, arith,
}
use gin_di.Console.SecretCommand.{encode_to_string, generate_secret}
use gin_di.Console.SecretCommand.Accepted.{generate_secret-accepted}
use gin_di.Settings.Env.{env_text, env_int, Environment}
use gin_di.Settings.Jwt.{read_jwt, new_jwt_config}

man : encode_to_string (77 ∷ 97 ∷ 110 ∷ []) ≡ codes "TWFu"
unfolding encode_to_string
man = refl

highest : encode_to_string (255 ∷ 239 ∷ []) ≡ codes "_-8"
unfolding encode_to_string
highest = refl

abbrev zeros : ℕ → List ℕ
zeros zero = []
zeros (suc n) = 0 ∷ zeros n

abbrev a_key : Text
a_key = codes "AAAAAAAAAAAAAAAAAAAAAAAAAAAAAAAAAAAAAAAAAAA"

abbrev environment : Environment
environment = (codes "JWT_SECRET", a_key) ∷ []

generate_secret-accepted_example :
    (generate_secret (ok (zeros 32)) ≡ ok (encode_to_string (zeros 32)))
    × (length (encode_to_string (zeros 32)) ≡ 43)
    × ((read_jwt environment).secret_key ≡ encode_to_string (zeros 32))
    × (new_jwt_config environment ≡ ok (read_jwt environment))
unfolding lookup same encode_to_string read_jwt env_text mul_int64 env_int to_int64
generate_secret-accepted_example =
    generate_secret-accepted (zeros 32) environment refl refl (λ h. not_empty h) (omega arith)
  where
    not_empty : {A : Type 0} {c : ℕ} {s : Text} → ◌≡◌ {A = Text} (c ∷ s) [] → A
    not_empty h = cc

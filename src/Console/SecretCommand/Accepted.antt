-- ===== src/Console/SecretCommand/Accepted.antt =====
-- A secret that is generated is one that the settings accept.
use gin_di.Prelude.{
  ℕ, ◌+◌, ◌*◌, ◌≤◌, Text, codes, List, [], ◌∷◌, some, false, ltb, ◌≡◌, ◌≢◌, refl, sym, ap, subst,
  length, lookup, ok, arith,
}
use gin_di.Prelude.Int.{pos_part}
use gin_di.Console.SecretCommand.{encode_to_string, generate_secret, secret_random_bytes}
use gin_di.Settings.Env.{Environment, env_text, or_fallback}
use gin_di.Settings.Jwt.{read_jwt, new_jwt_config}
use gin_di.Settings.Jwt.Safe.{new_jwt_config_iff}

-- Four characters for three bytes, and two or three for what remains.
encode_to_string-length :
    (bytes : List ℕ)
    → (4 * length bytes ≤ 3 * length (encode_to_string bytes))
      × (3 * length (encode_to_string bytes) ≤ 4 * length bytes + 2)
unfolding encode_to_string
encode_to_string-length [] = (omega arith, omega arith)
encode_to_string-length (a ∷ []) = (omega arith, omega arith)
encode_to_string-length (a ∷ b ∷ []) = (omega arith, omega arith)
encode_to_string-length (a ∷ b ∷ c ∷ bytes) =
    let (low, high) = encode_to_string-length bytes in (omega (arith, low), omega (arith, high))

forty_three : (n : ℕ) → 4 * 32 ≤ 3 * n → 3 * n ≤ 4 * 32 + 2 → n ≡ 43
forty_three n low high = omega arith

secret_key_of :
    (env : Environment) (secret : Text)
    → lookup (codes "JWT_SECRET") env ≡ some secret
    → (read_jwt env).secret_key ≡ secret
unfolding read_jwt env_text
secret_key_of env secret found = ap (or_fallback []) found

-- When the random bytes can be read, a secret of 43 characters is generated, and an environment that
-- holds it, with an issuer that is not empty and a positive lifetime, is accepted by the settings of
-- the tokens with this key.
pub generate_secret-accepted :
    (bytes : List ℕ) (env : Environment)
    → length bytes ≡ secret_random_bytes
    → lookup (codes "JWT_SECRET") env ≡ some (encode_to_string bytes)
    → (read_jwt env).issuer ≢ []
    → 1 ≤ pos_part (read_jwt env).ttl
    → (generate_secret (ok bytes) ≡ ok (encode_to_string bytes))
      × (length (encode_to_string bytes) ≡ 43)
      × ((read_jwt env).secret_key ≡ encode_to_string bytes)
      × (new_jwt_config env ≡ ok (read_jwt env))
unfolding generate_secret
generate_secret-accepted bytes env full found issued lives = (
  rw (generate_secret, long_enough (length (encode_to_string bytes)) size) refl,
  size,
  key,
  (new_jwt_config_iff env (read_jwt env)).1
      (refl, (subst (λ k. 32 ≤ length k) (sym key) (omega (arith, size)), issued, lives)),
)
  where
    size : length (encode_to_string bytes) ≡ 43
    size =
        let (low, high) = encode_to_string-length bytes in
        forty_three (length (encode_to_string bytes))
          (subst (λ n. 4 * n ≤ 3 * length (encode_to_string bytes)) full low)
          (subst (λ n. 3 * length (encode_to_string bytes) ≤ 4 * n + 2) full high)

    long_enough : (n : ℕ) → n ≡ 43 → ltb n 32 ≡ false
    long_enough n h = ground arith

    key : (read_jwt env).secret_key ≡ encode_to_string bytes
    key = secret_key_of env (encode_to_string bytes) found

-- ===== src/App/Hash.antt =====
-- app/services/hash/hash.go: `encode` and `decode` are the standard Base64, `derive` is argon2.IDKey with
-- the costs of this package.
use gin_di.Prelude.{
  ℕ, zero, suc, ◌+◌, ◌-◌, ◌*◌, ◌/◌, ◌%◌, ◌^◌, ◌≤◌, ◌<◌, Text, codes, same, same_refl, same_iff,
  ne_of_same, List, [], ◌∷◌, ◌++◌, map, append-nil, append_assoc, Option, none, some, Option-cases,
  Bool, true, false, not, ◌&&◌, ◌||◌, Bool-cases, ltb, leb, ◌==◌, if◌then◌else◌, ◌≡◌, ◌≢◌, ◌↔◌,
  refl, sym, ap, subst, ◌∙◌, ◌⊎◌, inl, inr, length, All, lookup, has, put, delete, lookup-put,
  Result, ok, err, Result-cases, arith,
}
use gin_di.Http.Errors.{GoError, plain, wrap}
pub mod Roundtrip
mod Tests

abbrev salt_length : ℕ
salt_length = 16

abbrev key_length : ℕ
key_length = 32

abbrev invalid_hash : GoError
invalid_hash = plain (codes "invalid hash format")

-- The slices data[:n] and data[n:].
unfoldable pub take : ℕ → Text → Text
take zero s = []
take (suc n) [] = []
take (suc n) (c ∷ s) = c ∷ take n s

unfoldable pub drop : ℕ → Text → Text
drop zero s = s
drop (suc n) [] = []
drop (suc n) (c ∷ s) = drop n s

module _ (encode : Text → Text) (decode : Text → Result GoError Text)
    (derive : Text → Text → Text) where
  -- `salt` is what rand.Read gives.
  unfoldable pub make : Result GoError Text → Text → Result GoError Text
  make (err e) password = err (wrap (codes "generating salt: ") e)
  make (ok salt) password = ok (encode (salt ++ derive password salt))

  -- subtle.ConstantTimeCompare is 1 exactly on equal slices.
  unfoldable pub check : Text → Text → Result GoError Bool
  check hashed password = elim (decode hashed) [
    | err e ↦ err (wrap (codes "decoding hash: ") e)
    | ok data_ ↦
        if ltb (length data_) salt_length
        then err invalid_hash
        else ok (same (derive password (take salt_length data_)) (drop salt_length data_))
  ]

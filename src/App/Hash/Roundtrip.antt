-- ===== src/App/Hash/Roundtrip.antt =====
-- A hash that was made verifies the password it was made of.
use gin_di.Prelude.{
  ◌≤◌, Text, same, same_refl, same_iff, [], ◌∷◌, ◌++◌, true, false, ltb, ◌≡◌, ◌↔◌, refl, sym, ap,
  ◌∙◌, length, Result, ok, ok_inj, arith,
}
use gin_di.App.Hash.{salt_length, take, drop, make, check}
use gin_di.Http.Errors.{GoError}

split_at : (s t : Text) → (take (length s) (s ++ t) ≡ s) × (drop (length s) (s ++ t) ≡ t)
unfolding take drop
split_at [] t = (refl, refl)
split_at (c ∷ s) t = let (front, behind) = split_at s t in (ap (λ x. c ∷ x) front, behind)

length_le-append : (s t : Text) → length s ≤ length (s ++ t)
length_le-append [] t = omega arith
length_le-append (c ∷ s) t = omega (arith, length_le-append s t)

module _ (encode : Text → Text) (decode : Text → Result GoError Text)
    (derive : Text → Text → Text) where
  -- If decoding undoes encoding and the salt has its length, a hash that Make returns is accepted
  -- for a password exactly if that derives the same key with the salt; so for its own it is.
  pub check-make :
      ((s : Text) → decode (encode s) ≡ ok s)
      → (salt password candidate hashed : Text) → length salt ≡ salt_length
      → make encode decode derive (ok salt) password ≡ ok hashed
      → (check encode decode derive hashed password ≡ ok true)
        × ((check encode decode derive hashed candidate ≡ ok true)
            ↔ (derive candidate salt ≡ derive password salt))
  unfolding make check
  check-make law salt password candidate hashed n h = (
    checked password ∙ ap ok (same_refl (derive password salt)),
    (
      λ q. (same_iff _ _).0 (ok_inj (sym (checked candidate) ∙ q)),
      λ q. checked candidate ∙ ap ok ((same_iff _ _).1 q),
    ),
  )
    where
      parts :
          (take salt_length (salt ++ derive password salt) ≡ salt)
          × (drop salt_length (salt ++ derive password salt) ≡ derive password salt)
      parts = rw (sym n) (split_at salt (derive password salt))

      long : ltb (length (salt ++ derive password salt)) salt_length ≡ false
      long = ground (arith, length_le-append salt (derive password salt))

      decoded : decode hashed ≡ ok (salt ++ derive password salt)
      decoded = ap decode (sym (ok_inj h)) ∙ law (salt ++ derive password salt)

      checked :
          (guess : Text)
          → check encode decode derive hashed guess
            ≡ ok (same (derive guess salt) (derive password salt))
      checked guess = rw (check, decoded, long, parts.0, parts.1) refl

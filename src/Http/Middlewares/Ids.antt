-- ===== src/Http/Middlewares/Ids.antt =====
-- Who a request is: its correlation id, and the user that a token names.
use gin_di.Prelude.{
  ◌≤◌, Text, codes, same, same_iff, ne_of_same, [], ◌∷◌, ◌++◌, some, Option-cases, true, Bool-cases,
  ◌==◌, if◌then◌else◌, ◌≡◌, ◌≢◌, ◌↔◌, refl, ◌⊎◌, inl, inr, length, All, lookup, put, lookup-put,
  Result, ok, Result-cases, arith,
}
use gin_di.Http.Context.{Ctx, Handler, HeaderValue, finished}
use gin_di.Http.Errors.{GoError, wrap}
use gin_di.Http.Middlewares.{
  max_request_id_length, is_id_character, all_id_characters, valid_request_id, request_id,
  cut_prefix, Claims, reject, set_user, missing_token, authenticate,
}

all_id_characters_iff :
    (id : Text) → (all_id_characters id ≡ true) ↔ All (λ c. is_id_character c ≡ true) id
unfolding all_id_characters
all_id_characters_iff [] = (λ h. tt, λ h. refl)
all_id_characters_iff (c ∷ id) =
    let (to, from) = all_id_characters_iff id in
    (
      λ h. elim (Bool-cases (is_id_character c)) [ inl e ↦ (e, to (ground arith)) | inr e ↦ cc ],
      λ (e, h). rw (e) (from h),
    )

-- An id is accepted exactly if it has from 1 to 64 bytes, each an ASCII letter, a digit, a dash,
-- an underscore or a dot.
pub valid_request_id_iff :
    (id : Text)
    → (valid_request_id id ≡ true)
      ↔ ((id ≢ []) × (length id ≤ max_request_id_length) × All (λ c. is_id_character c ≡ true) id)
unfolding valid_request_id
valid_request_id_iff id =
    let (to, from) = all_id_characters_iff id in ground (arith, to, from, same_iff id [])

cut_prefix_sound : (s p t : Text) → cut_prefix s p ≡ some t → s ≡ p ++ t
unfolding cut_prefix
cut_prefix_sound s [] t h = cc
cut_prefix_sound [] (p ∷ ps) t h = cc
cut_prefix_sound (c ∷ s) (p ∷ ps) t h = elim (Bool-cases (c == p)) [
  | inl e ↦ ground (arith, cut_prefix_sound s ps t)
  | inr e ↦ ground arith
]

module _ {D : Type 0} where
  -- If the drawn id is valid, the rest of the chain runs with a valid id, which is the caller's if
  -- that is valid and the drawn one otherwise, and which the response's header repeats.
  pub request_id-valid :
      (fresh : Text)
      → valid_request_id fresh ≡ true
      → (next : Handler D) (ctx : Ctx D)
      → (c : Ctx D) × (request_id fresh next ctx ≡ next c)
        × (valid_request_id c.request_id ≡ true)
        × (lookup (codes "X-Request-Id") c.headers ≡ some (HeaderValue.text c.request_id))
        × (c.request_id
            ≡ (if valid_request_id ctx.request_id_header then ctx.request_id_header else fresh))
  unfolding request_id lookup put same
  request_id-valid fresh h next ctx =
      (_, refl, chosen, rw (lookup-put (codes "X-Request-Id") (codes "X-Request-Id")) refl, refl)
    where
      chosen :
          valid_request_id
            (if valid_request_id ctx.request_id_header then ctx.request_id_header else fresh)
          ≡ true
      chosen = elim (Bool-cases (valid_request_id ctx.request_id_header)) [
        | inl e ↦ rw (e) e
        | inr e ↦ rw (e) h
      ]

  -- The authentication either finds a Bearer token that is not empty and that the service
  -- accepts, and runs the handler with that token's user set, or it ends with a rejection, whose
  -- cause alone depends on the request.
  pub authenticate-cases :
      (parse : Text → Result GoError Claims) (next : Handler D) (ctx : Ctx D)
      → ((token : Text) × (claims : Claims) × (ctx.authorization ≡ codes "Bearer " ++ token)
          × (token ≢ [])
          × (parse token ≡ ok claims)
          × (authenticate parse next ctx ≡ next (set_user claims.user_id claims.username ctx)))
        ⊎ ((cause : GoError) × (authenticate parse next ctx ≡ finished (reject cause ctx)))
  unfolding authenticate
  authenticate-cases parse next ctx =
      elim (Option-cases (cut_prefix ctx.authorization (codes "Bearer "))) [
        | inl q ↦ inr (missing_token, rw (authenticate, q) refl)
        | inr (token, q) ↦ elim (Bool-cases (same token [])) [
          | inl e ↦ inr (missing_token, rw (authenticate, q, e) refl)
          | inr e ↦ elim (Result-cases (parse token)) [
            | inl (claims, r) ↦ inl (
              token,
              claims,
              cut_prefix_sound _ _ _ q,
              ne_of_same _ _ e,
              r,
              rw (authenticate, q, e, r) refl,
            )
            | inr (x, r) ↦ inr (wrap (codes "rejecting token: ") x, rw (authenticate, q, e, r) refl)
          ]
        ]
      ]

-- ===== src/Console/EnvFile/Secret.antt =====
-- What setting the secret changes in the file, and what it refuses.
use gin_di.Prelude.{
  Text, same, same_iff, ne_of_same, List, [], ◌∷◌, ◌++◌, Option, none, some, Option-cases, Bool,
  true, false, Bool-cases, ◌≡◌, ◌≢◌, refl, ap, ◌∙◌, ◌⊎◌, inl, inr, All, ok, err, arith,
}
use gin_di.Console.EnvFile.{
  strip_prefix, split, join, assigned, key_prefix, set_lines, set_secret, already_set,
}
use gin_di.Prelude.Trim.{trim_space}
use gin_di.Console.EnvFile.Lines.{
  lines_of, IsLine, IsTrimmed, split-join, split-IsLine, trim_space_id, strip_prefix-append,
}

abbrev assignment : Text → Text
assignment secret = key_prefix ++ secret

-- The value of the first line that assigns the key.
pub value_of : List Text → Option Text
value_of [] = none
value_of (line ∷ lines) =
    let rest = value_of lines in elim (assigned line) [ none ↦ rest | some v ↦ some v ]

-- One line replaced, the first that assigns the key, or one added at the end.
pub data Sets (secret : Text) (force : Bool) : List Text → List Text → Type 0 where
  replaced :
      (line value : Text) (behind : List Text)
      → assigned line ≡ some value
      → (value ≡ []) ⊎ (force ≡ true)
      → Sets secret force (line ∷ behind) (assignment secret ∷ behind)
  kept :
      (line : Text) {before after : List Text}
      → assigned line ≡ none
      → Sets secret force before after
      → Sets secret force (line ∷ before) (line ∷ after)
  added : Sets secret force [] (assignment secret ∷ [])

set_lines-Sets :
    (secret : Text) (force : Bool) (lines : List Text)
    → ((after : List Text) × (set_lines secret force lines ≡ ok after)
        × Sets secret force lines after)
      ⊎ ((value : Text) × (set_lines secret force lines ≡ err already_set)
          × (force ≡ false)
          × (value ≢ [])
          × (value_of lines ≡ some value))
unfolding set_lines value_of
set_lines-Sets secret force [] = inl (_, refl, added)
set_lines-Sets secret force (line ∷ lines) = elim (Option-cases (assigned line)) [
  | inl e ↦ elim (set_lines-Sets secret force lines) [
    | inl (after, q, s) ↦ inl (line ∷ after, rw (set_lines, e, q) refl, kept line e s)
    | inr (v, q, f, n, r) ↦ inr (v, rw (set_lines, e, q) refl, f, n, rw (value_of, e) r)
  ]
  | inr (v, e) ↦ elim (Bool-cases (same v [])) [
    | inl u ↦ inl (
      assignment secret ∷ lines,
      rw (set_lines, e, u) refl,
      replaced line v lines e (inl ((same_iff v []).0 u)),
    )
    | inr u ↦ elim (Bool-cases force) [
      | inl f ↦
          inl (
            assignment secret ∷ lines,
            rw (set_lines, e, u, f) refl,
            replaced line v lines e (inr f),
          )
      | inr f ↦ inr (v, rw (set_lines, e, u, f) refl, f, ne_of_same v [] u, rw (value_of, e) refl)
    ]
  ]
]

assigned-assignment :
    (secret : Text) → IsTrimmed secret → assigned (assignment secret) ≡ some secret
unfolding assigned
assigned-assignment secret t =
    ap found (
      trim_space_id (assignment secret)
        (refl, (refl, (refl, (refl, (refl, (refl, (refl, (refl, (refl, (refl, (refl, t))))))))))))
    ∙ rw (strip_prefix-append key_prefix secret) (ap some (trim_space_id secret t))
  where
    found : Text → Option Text
    found x = elim (strip_prefix x key_prefix) [
      | none ↦ none
      | some value ↦ some (trim_space value)
    ]

Sets-value_of :
    (secret : Text) (force : Bool) {before after : List Text}
    → IsTrimmed secret
    → Sets secret force before after
    → value_of after ≡ some secret
unfolding value_of
Sets-value_of secret force t (replaced line v behind e r) =
    rw (value_of, assigned-assignment secret t) refl
Sets-value_of secret force t (kept line e s) = rw (value_of, e) (Sets-value_of secret force t s)
Sets-value_of secret force t added = rw (value_of, assigned-assignment secret t) refl

Sets-IsLine :
    (secret : Text) (force : Bool) {before after : List Text}
    → IsLine (assignment secret)
    → Sets secret force before after
    → All IsLine before
    → All IsLine after
Sets-IsLine secret force n (replaced line v behind e r) (l, ls) = (n, ls)
Sets-IsLine secret force n (kept line e s) (l, ls) = (l, Sets-IsLine secret force n s ls)
Sets-IsLine secret force n added ls = (n, tt)

IsTrimmed-IsLine : (s : Text) → IsTrimmed s → IsLine s
IsTrimmed-IsLine [] t = tt
IsTrimmed-IsLine (c ∷ s) (e, t) = (ground arith, IsTrimmed-IsLine s t)

-- For a secret without white space, the file is either written, with one line replaced or added,
-- every other line kept byte for byte in its place, and the secret as the key's value when it is
-- read again; or, without force, it is refused and the key has a value already.
pub set_secret-outcome :
    (secret : Text) (force : Bool) (contents : Text)
    → IsTrimmed secret
    → ((written : Text) × (set_secret secret force contents ≡ ok written)
        × Sets secret force (lines_of contents) (lines_of written)
        × (value_of (lines_of written) ≡ some secret))
      ⊎ ((value : Text) × (set_secret secret force contents ≡ err already_set)
          × (force ≡ false)
          × (value ≢ [])
          × (value_of (lines_of contents) ≡ some value))
unfolding set_secret value_of
set_secret-outcome secret force contents t =
    elim (set_lines-Sets secret force (lines_of contents)) [
      | inl ([], q, s) ↦ nothing_left (Sets-value_of secret force t s)
      | inl (line ∷ after, q, s) ↦ inl (
        join line after,
        rw (set_secret, q) refl,
        rw (same_lines line after s) s,
        rw (same_lines line after s) (Sets-value_of secret force t s),
      )
      | inr (v, q, f, n, r) ↦ inr (v, rw (set_secret, q) refl, f, n, r)
    ]
  where
    nothing_left : {B : Type 0} → ◌≡◌ {A = Option Text} none (some secret) → B
    nothing_left h = cc

    same_lines :
        (line : Text) (after : List Text)
        → Sets secret force (lines_of contents) (line ∷ after)
        → split (join line after) ≡ (line, after)
    same_lines line after s =
        let (l, ls) =
          Sets-IsLine secret force
            (
              refl,
              (
                refl,
                (
                  refl,
                  (
                    refl,
                    (
                      refl,
                      (refl, (refl, (refl, (refl, (refl, (refl, IsTrimmed-IsLine secret t)))))),
                    ),
                  ),
                ),
              ),
            )
            s (split-IsLine contents) in
        split-join line after l ls

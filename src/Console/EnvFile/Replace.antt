-- ===== src/Console/EnvFile/Replace.antt =====
-- A failure on the way leaves the file as it was.
use gin_di.Prelude.{
  lookup-delete, Text, same, Option, Option-cases, false, ◌≡◌, refl, ◌∙◌, ◌⊎◌, inl, inr, lookup,
  put, delete, lookup-put, ok, err,
}
use gin_di.Console.EnvFile.{
  Result-cases, set_secret, some, Bool, write_jwt_secret, Step, Files, create_temp, write_string,
  close, chmod, rename, remove, clean_up, replace_file,
}
use gin_di.Http.Errors.{GoError}

-- Nothing but the temporary file differs.
abbrev pub AgreeOff : Text → Files → Files → Type 0
AgreeOff tmp before after =
    (name : Text) → same tmp name ≡ false → lookup name after ≡ lookup name before

module _ (fails : Step → Option GoError) (tmp torn : Text) where
  clean_up-AgreeOff : (files : Files) → AgreeOff tmp files (clean_up fails tmp torn files)
  unfolding clean_up
  clean_up-AgreeOff files name h = elim (Option-cases (fails remove)) [
    | inl e ↦ rw (clean_up, e) (lookup-delete tmp name files ∙ rw (h) refl)
    | inr (x, e) ↦ rw (clean_up, e) refl
  ]

  stop-AgreeOff :
      (text : Text) (files : Files)
      → AgreeOff tmp files (clean_up fails tmp torn (put tmp text files))
  stop-AgreeOff text files name h =
      clean_up-AgreeOff (put tmp text files) name h ∙ lookup-put tmp name text files ∙ rw (h) refl

  -- Replacing a file either succeeds, and then the file has the new contents and every other file
  -- but the temporary one its own, or it reports an error, and then every file but the temporary
  -- one is as it was, the file itself included.
  pub replace_file-outcome :
      (path contents : Text) (files : Files)
      → same tmp path ≡ false
      → let (after, r) = replace_file fails tmp torn path contents files in
        ((r ≡ ok tt) × AgreeOff tmp (put path contents files) after)
        ⊎ ((e : GoError) × (r ≡ err e) × AgreeOff tmp files after)
  unfolding replace_file
  replace_file-outcome path contents files h = elim (Option-cases (fails create_temp)) [
    | inr (x, a) ↦ rw (replace_file, a) (inr (_, refl, λ name _. refl))
    | inl a ↦ elim (Option-cases (fails write_string)) [
      | inr (x, b) ↦ rw (replace_file, a, b) (inr (_, refl, stop-AgreeOff torn files))
      | inl b ↦ elim (Option-cases (fails close)) [
        | inr (x, c) ↦ rw (replace_file, a, b, c) (inr (_, refl, stop-AgreeOff contents files))
        | inl c ↦ elim (Option-cases (fails chmod)) [
          | inr (x, d) ↦ rw (replace_file, a, b, c, d) (inr (_, refl, stop-AgreeOff contents files))
          | inl d ↦ elim (Option-cases (fails rename)) [
            | inr (x, e) ↦
                rw (replace_file, a, b, c, d, e) (inr (_, refl, stop-AgreeOff contents files))
            | inl e ↦
                rw (replace_file, a, b, c, d, e)
                  (inl (
                    refl,
                    λ name q.
                        clean_up-AgreeOff (delete tmp (put path contents files)) name q
                        ∙ lookup-delete tmp name (put path contents files)
                        ∙ rw (q) refl,
                  ))
          ]
        ]
      ]
    ]
  ]

  -- With a temporary file of another name, the command either succeeds, and then the file holds
  -- what `set_secret` makes of its contents and every other file but the temporary one is as it
  -- was, or it reports an error, and then every file but the temporary one is as it was, the file
  -- itself included.
  pub write_jwt_secret-outcome :
      (unreadable : Option GoError) (path secret : Text) (force : Bool) (files : Files)
      → same tmp path ≡ false
      → let (after, r) = write_jwt_secret fails tmp torn unreadable path secret force files in
        ((contents replaced : Text) × (r ≡ ok tt)
          × (lookup path files ≡ some contents)
          × (set_secret secret force contents ≡ ok replaced)
          × AgreeOff tmp (put path replaced files) after)
        ⊎ ((e : GoError) × (r ≡ err e) × AgreeOff tmp files after)
  unfolding write_jwt_secret
  write_jwt_secret-outcome unreadable path secret force files h =
      elim (Option-cases (lookup path files)) [
        | inl a ↦ rw (write_jwt_secret, a) (inr (_, refl, λ name _. refl))
        | inr (contents, a) ↦ elim (Option-cases unreadable) [
          | inr (x, b) ↦ rw (write_jwt_secret, a, b) (inr (_, refl, λ name _. refl))
          | inl b ↦ elim (Result-cases (set_secret secret force contents)) [
            | inr (x, c) ↦ rw (write_jwt_secret, a, b, c) (inr (_, refl, λ name _. refl))
            | inl (replaced, c) ↦
                rw (write_jwt_secret, a, b, c)
                  (elim (replace_file-outcome path replaced files h) [
                    | inl (q, agree) ↦ inl (contents, replaced, q, refl, c, agree)
                    | inr w ↦ inr w
                  ])
          ]
        ]
      ]

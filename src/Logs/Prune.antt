-- ===== src/Logs/Prune.antt =====
-- What the sweep of old log files removes.
use gin_di.Prelude.{
  ℕ, Text, same, same_iff, List, [], ◌∷◌, none, Option-cases, Bool, true, false, not, ◌&&◌,
  Bool-cases, ltb, if◌then◌else◌, ◌≡◌, refl, sym, ap, subst, ◌∙◌, ◌⊎◌, inl, inr, lookup, delete,
}
use gin_di.Prelude.{In, lookup-delete}
use gin_di.Logs.{Entry, Files, Os, is_log, prune_entries, prune_logs}

-- A log file that was not modified after the cutoff.
abbrev pub is_expired : ℕ → Text → Entry → Bool
is_expired cutoff name entry = is_log name entry && not (ltb cutoff entry.modified)

module _ (os : Os) (cutoff : ℕ) where
  -- What the sweep of one name leaves.
  abbrev pub Swept : List (Text × Entry) → Files → Text → Files → Type 0
  Swept listing before name after =
      (lookup name after ≡ lookup name before)
      ⊎ ((lookup name after ≡ none)
          × ((entry : Entry) × In (name, entry) listing × (is_expired cutoff name entry ≡ true)))

  later :
      (name : Text) (head : Text × Entry) (listing : List (Text × Entry)) (before after : Files)
      → Swept listing before name after
      → Swept (head ∷ listing) before name after
  later name head listing before after (inl kept) = inl kept
  later name head listing before after (inr (gone, (entry, inside, old))) =
      inr (gone, (entry, inr inside, old))

  expired :
      (name : Text) (entry : Entry)
      → is_log name entry ≡ true
      → ltb cutoff entry.modified ≡ false
      → is_expired cutoff name entry ≡ true
  expired name entry log old = rw (log, old) refl

  removed :
      (j name : Text) (entry : Entry) (listing : List (Text × Entry)) (before after : Files)
      → is_expired cutoff j entry ≡ true
      → Swept listing (delete j before) name after
      → Swept ((j, entry) ∷ listing) before name after
  removed j name entry listing before after old (inr (gone, (e, inside, q))) =
      inr (gone, (e, inr inside, q))
  removed j name entry listing before after old (inl kept) = elim (Bool-cases (same j name)) [
    | inr a ↦
        inl
          (kept ∙ lookup-delete j name before ∙ ap (λ b. if b then none else lookup name before) a)
    | inl a ↦
        let here = (same_iff j name).0 a in
        inr (
          kept ∙ lookup-delete j name before ∙ ap (λ b. if b then none else lookup name before) a,
          (
            entry,
            inl (ap (λ k. (k, entry)) (sym here)),
            subst (λ k. is_expired cutoff k entry ≡ true) here old,
          ),
        )
  ]

  prune_entries-Swept :
      (listing : List (Text × Entry)) (files : Files) (name : Text)
      → Swept listing files name (prune_entries os cutoff listing files).0
  unfolding prune_entries
  prune_entries-Swept [] files name = inl refl
  prune_entries-Swept ((j, entry) ∷ listing) files name = elim (Bool-cases (is_log j entry)) [
    | inr a ↦
        rw (prune_entries, a)
          (later name _ listing files _ (prune_entries-Swept listing files name))
    | inl a ↦ elim (Option-cases (os.info_error j)) [
      | inr (e, b) ↦ rw (prune_entries, a, b) (inl refl)
      | inl b ↦ elim (Bool-cases (ltb cutoff entry.modified)) [
        | inl c ↦
            rw (prune_entries, a, b, c)
              (later name _ listing files _ (prune_entries-Swept listing files name))
        | inr c ↦ elim (Option-cases (os.remove_error j)) [
          | inr (e, d) ↦ rw (prune_entries, a, b, c, d) (inl refl)
          | inl d ↦
              rw (prune_entries, a, b, c, d)
                (removed j name entry listing files _ (expired j entry a c)
                  (prune_entries-Swept listing (delete j files) name))
        ]
      ]
    ]
  ]

  -- The sweep, with or without an error, leaves every file as it is, but those it removes, and these
  -- are files with the log extension that were last modified at the cutoff or before it.
  pub prune_logs-Swept :
      (files : Files) (name : Text) → Swept files files name (prune_logs os cutoff files).0
  unfolding prune_logs
  prune_logs-Swept files name = elim (Option-cases os.read_dir_error) [
    | inr (e, a) ↦ rw (prune_logs, a) (inl refl)
    | inl a ↦ rw (prune_logs, a) (prune_entries-Swept files files name)
  ]

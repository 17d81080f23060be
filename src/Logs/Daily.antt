-- ===== src/Logs/Daily.antt =====
-- Every record goes to the file of its day.
use gin_di.Prelude.{
  ℕ, ◌<◌, Text, same, same_refl, same_iff, List, [], ◌∷◌, ◌++◌, Option, none, some, Option-cases,
  Bool, true, false, not, Bool-cases, ltb, if◌then◌else◌, ◌≡◌, refl, sym, ap, subst, ◌∙◌, inl, inr,
  length, lookup, has, put, delete, lookup-put, arith,
}
use gin_di.Prelude.{In, Distinct, has, put-Distinct, delete-Distinct}
use gin_di.Logs.{
  Entry, Files, Os, State, DailyWriter, Written, is_log, prune_entries, prune_logs, opened, rotate,
  write, write_file, put_bytes, log_name,
}
use gin_di.Logs.Prune.{is_expired, prune_logs-Swept}

-- The writer holds the file of its date, and that has not been removed.
abbrev pub IsWriting : State → Type 0
IsWriting (writer, files) =
    Distinct files
    × (writer.file ≡ some (log_name writer.prefix writer.date))
    × ((entry : Entry) × (lookup (log_name writer.prefix writer.date) files ≡ some entry))

-- The text of a file, empty if there is none.
abbrev pub text_of : Text → Files → Text
text_of name files = elim (lookup name files) [ none ↦ [] | some entry ↦ entry.bytes ]

-- The file is not one that the sweep removes.
abbrev pub IsFresh : ℕ → Text → Files → Type 0
IsFresh cutoff name files =
    (entry : Entry) → lookup name files ≡ some entry → is_expired cutoff name entry ≡ false

not_both : {A : Type 0} {b : Bool} → b ≡ true → b ≡ false → A
not_both p q = cc

not_missing : {A B : Type 0} {a : A} → none ≡ some a → B
not_missing h = cc

some_inj : {A : Type 0} {a b : A} → some a ≡ some b → a ≡ b
some_inj h = cc

absent :
    (name : Text) (entry : Entry) (files : Files)
    → has name files ≡ false
    → In (name, entry) files
    → ⊥
unfolding has
absent name entry [] h inside = inside
absent name entry ((j, d) ∷ files) h (inl q) =
    not_both ((same_iff j name).1 (ap (λ p. p.0) (sym q))) (not_head j h)
  where
    not_head :
        (k : Text) → (if same k name then true else has name files) ≡ false → same k name ≡ false
    not_head k e = elim (Bool-cases (same k name)) [
      | inr a ↦ a
      | inl a ↦ not_both refl (rw (a) at e)
    ]
absent name entry ((j, d) ∷ files) h (inr inside) = absent name entry files (not_tail j h) inside
  where
    not_tail :
        (k : Text) → (if same k name then true else has name files) ≡ false → has name files ≡ false
    not_tail k e = elim (Bool-cases (same k name)) [
      | inr a ↦ rw (a) at e
      | inl a ↦ not_both refl (rw (a) at e)
    ]

In-lookup :
    (name : Text) (entry : Entry) (files : Files)
    → Distinct files
    → In (name, entry) files
    → lookup name files ≡ some entry
unfolding lookup
In-lookup name entry [] distinct inside = absurd inside
In-lookup name entry ((j, d) ∷ files) (new, distinct) (inl q) =
    rw ((same_iff j name).1 (ap (λ p. p.0) (sym q))) (ap (λ p. some p.1) (sym q))
In-lookup name entry ((j, d) ∷ files) (new, distinct) (inr inside) =
    elim (Bool-cases (same j name)) [
      | inr a ↦ rw (a) (In-lookup name entry files distinct inside)
      | inl a ↦ absurd (
          absent name entry files (subst (λ k. has k files ≡ false) ((same_iff j name).0 a) new)
            inside)
    ]

module _ (os : Os) (cutoff : ℕ) where
  prune_logs-lookup :
      (name : Text) (files : Files) (entry : Entry)
      → Distinct files
      → lookup name files ≡ some entry
      → is_expired cutoff name entry ≡ false
      → lookup name (prune_logs os cutoff files).0 ≡ some entry
  prune_logs-lookup name files entry distinct found young =
      elim (prune_logs-Swept os cutoff files name) [
        | inl kept ↦ kept ∙ found
        | inr (gone, (other, inside, old)) ↦
            let q = some_inj (sym found ∙ In-lookup name other files distinct inside) in
            not_both (subst (λ e. is_expired cutoff name e ≡ true) (sym q) old) young
      ]

  prune_entries-Distinct :
      (listing : List (Text × Entry)) (files : Files)
      → Distinct files
      → Distinct (prune_entries os cutoff listing files).0
  unfolding prune_entries
  prune_entries-Distinct [] files d = d
  prune_entries-Distinct ((j, entry) ∷ listing) files d = elim (Bool-cases (is_log j entry)) [
    | inr a ↦ rw (prune_entries, a) (prune_entries-Distinct listing files d)
    | inl a ↦ elim (Option-cases (os.info_error j)) [
      | inr (e, b) ↦ rw (prune_entries, a, b) d
      | inl b ↦ elim (Bool-cases (ltb cutoff entry.modified)) [
        | inl c ↦ rw (prune_entries, a, b, c) (prune_entries-Distinct listing files d)
        | inr c ↦ elim (Option-cases (os.remove_error j)) [
          | inr (e, k) ↦ rw (prune_entries, a, b, c, k) d
          | inl k ↦
              rw (prune_entries, a, b, c, k)
                (prune_entries-Distinct listing (delete j files) (delete-Distinct j files d))
        ]
      ]
    ]
  ]

  prune_logs-Distinct : (files : Files) → Distinct files → Distinct (prune_logs os cutoff files).0
  unfolding prune_logs
  prune_logs-Distinct files d = elim (Option-cases os.read_dir_error) [
    | inr (e, a) ↦ rw (prune_logs, a) d
    | inl a ↦ rw (prune_logs, a) (prune_entries-Distinct files files d)
  ]

  -- The file of a day is there, with its text, and a sweep spares it.
  abbrev Holds : Text → Text → Files → Type 0
  Holds name text files =
      Distinct files
      × (text_of name files ≡ text)
      × ((entry : Entry) × (lookup name files ≡ some entry)
          × (is_expired cutoff name entry ≡ false))

  later_than : (a b : ℕ) → a < b → not (ltb a b) ≡ false
  later_than a b h = ground arith

  young :
      (name : Text) (entry : Entry) → cutoff < entry.modified → is_expired cutoff name entry ≡ false
  young name entry h = elim (Bool-cases (is_log name entry)) [
    | inr b ↦ rw (b) refl
    | inl b ↦ rw (b) (later_than cutoff entry.modified h)
  ]

  bytes_at :
      (name : Text) (files : Files) (o : Option Entry)
      → lookup name files ≡ o
      → text_of name files ≡ elim o [ none ↦ [] | some entry ↦ entry.bytes ]
  bytes_at name files o q = ap (λ x. elim x [ none ↦ [] | some entry ↦ entry.bytes ]) q

  opened-Holds :
      (name : Text) (now : ℕ) (files : Files)
      → Distinct files
      → cutoff < now
      → IsFresh cutoff name files
      → Holds name (text_of name files) (opened name now files)
  opened-Holds name now files distinct early fresh = elim (Option-cases (lookup name files)) [
    | inr (entry, a) ↦ is files (rw (opened, a) refl) (distinct, refl, (entry, a, fresh entry a))
    | inl a ↦ is (put name new files) (rw (opened, a) refl) (
      put-Distinct name new files distinct,
      bytes_at name (put name new files) (some new) there ∙ sym (bytes_at name files none a),
      (new, there, young name new early),
    )
  ]
    where
      new : Entry
      new = record { is_dir = false; modified = now; bytes = [] }

      there : lookup name (put name new files) ≡ some new
      there =
          lookup-put name name new files
          ∙ ap (λ b. if b then some new else lookup name files) (same_refl name)

      is :
          (f : Files)
          → opened name now files ≡ f
          → Holds name (text_of name files) f
          → Holds name (text_of name files) (opened name now files)
      is f q h = subst (Holds name (text_of name files)) (sym q) h

  -- Switching to a day whose file the sweep spares.
  rotate_lem :
      (now : ℕ) (date : Text) (writer : DailyWriter) (files : Files)
      → Distinct files
      → cutoff < now
      → IsFresh cutoff (log_name writer.prefix date) files
      → os.open_error (log_name writer.prefix date) ≡ none
      → (after : Files) × (rotate os now cutoff date (writer, files) ≡ (
        (record writer { file = some (log_name writer.prefix date); date = date }, after),
        none,
      ))
        × IsWriting
            (record writer { file = some (log_name writer.prefix date); date = date }, after)
        × (text_of (log_name writer.prefix date) after
            ≡ text_of (log_name writer.prefix date) files)
  unfolding rotate
  rotate_lem now date writer files distinct early fresh opens =
      let name = log_name writer.prefix date in
      let (apart, text, (entry, there, spared)) =
        opened-Holds name now files distinct early fresh in
      let after = (prune_logs os cutoff (opened name now files)).0 in
      let still = prune_logs-lookup name (opened name now files) entry apart there spared in
      (
        after,
        rw (rotate, opens) refl,
        (prune_logs-Distinct (opened name now files) apart, refl, (entry, still)),
        bytes_at name after (some entry) still
            ∙ sym (bytes_at name (opened name now files) (some entry) there)
            ∙ text,
      )

  -- A write to the file that is open.
  write_file_lem :
      (now : ℕ) (bytes : Text) (writer : DailyWriter) (files : Files)
      → IsWriting (writer, files)
      → os.write_error ≡ none
      → (after : Files) × (write_file os now bytes (writer, files)
          ≡ ((writer, after), (length bytes, none)))
        × IsWriting (writer, after)
        × (text_of (log_name writer.prefix writer.date) after
            ≡ text_of (log_name writer.prefix writer.date) files ++ bytes)
  unfolding write_file
  write_file_lem now bytes writer files (distinct, holds, (entry, there)) writes = (
    put name new files,
    simp (write_file, holds, writes, put_bytes, there),
    (put-Distinct name new files distinct, holds, (new, present)),
    bytes_at name (put name new files) (some new) present
        ∙ ap (λ t. t ++ bytes) (sym (bytes_at name files (some entry) there)),
  )
    where
      name : Text
      name = log_name writer.prefix writer.date

      new : Entry
      new = record entry { modified = now; bytes = entry.bytes ++ bytes }

      present : lookup name (put name new files) ≡ some new
      present =
          lookup-put name name new files
          ∙ ap (λ b. if b then some new else lookup name files) (same_refl name)

  -- A record that is written without an error ends the file of the day of the write, behind what that
  -- had, and the writer holds this file then, even if the day has changed since the record before; if
  -- the writer held the file of its date, no write of the operating system fails and the file of the
  -- day is not one that the sweep removes.
  pub write_appends :
      (now : ℕ) (today bytes : Text) (writer : DailyWriter) (files : Files)
      → IsWriting (writer, files)
      → cutoff < now
      → IsFresh cutoff (log_name writer.prefix today) files
      → os.write_error ≡ none
      → os.open_error (log_name writer.prefix today) ≡ none
      → let (state, result) = write os now cutoff today bytes (writer, files) in
        IsWriting state
        × (state.0.date ≡ today)
        × (result ≡ (length bytes, none))
        × (text_of (log_name writer.prefix today) state.1
            ≡ text_of (log_name writer.prefix today) files ++ bytes)
  unfolding write
  write_appends now today bytes writer files writing early fresh writes opens =
      elim (Bool-cases (same today writer.date)) [
        | inl a ↦
            let day = (same_iff today writer.date).0 a in
            let (after, q, still, text) = write_file_lem now bytes writer files writing writes in
            is ((writer, after), (length bytes, none)) (rw (write, a) q)
              (
                still,
                sym day,
                refl,
                subst
                    (λ d.
                      text_of (log_name writer.prefix d) after
                      ≡ text_of (log_name writer.prefix d) files ++ bytes)
                    (sym day) text,
              )
        | inr a ↦
            let (between, r, ready, same_text) =
              rotate_lem now today writer files (writing.0) early fresh opens in
            let turned : DailyWriter = record writer {
              file = some (log_name writer.prefix today);
              date = today;
            } in
            let (after, q, still, text) = write_file_lem now bytes turned between ready writes in
            is ((turned, after), (length bytes, none)) (rw (write, a, r) q)
              (still, refl, refl, text ∙ ap (λ t. t ++ bytes) same_text)
      ]
    where
      is :
          (r : State × Written)
          → write os now cutoff today bytes (writer, files) ≡ r
          → IsWriting r.0
            × (r.0.0.date ≡ today)
            × (r.1 ≡ (length bytes, none))
            × (text_of (log_name writer.prefix today) r.0.1
                ≡ text_of (log_name writer.prefix today) files ++ bytes)
          → IsWriting (write os now cutoff today bytes (writer, files)).0
            × ((write os now cutoff today bytes (writer, files)).0.0.date ≡ today)
            × ((write os now cutoff today bytes (writer, files)).1 ≡ (length bytes, none))
            × (text_of
                  (log_name writer.prefix today)
                  (write os now cutoff today bytes (writer, files)).0.1
                ≡ text_of (log_name writer.prefix today) files ++ bytes)
      is r q h =
          subst
            (λ w.
              IsWriting w.0
              × (w.0.0.date ≡ today)
              × (w.1 ≡ (length bytes, none))
              × (text_of (log_name writer.prefix today) w.0.1
                  ≡ text_of (log_name writer.prefix today) files ++ bytes))
            (sym q) h

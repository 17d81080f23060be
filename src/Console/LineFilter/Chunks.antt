-- ===== src/Console/LineFilter/Chunks.antt =====
-- The filter does not depend on how its input is cut into calls of Write.
use gin_di.Prelude.{
  ℕ, zero, suc, ◌<◌, Text, [], ◌∷◌, ◌++◌, append-nil, append_assoc, Option, none, some,
  Option-cases, true, false, Bool-cases, ◌==◌, ◌≡◌, refl, sym, ap, subst, ◌∙◌, ◌⊎◌, inl, inr,
  length, Result, ok, err, arith,
}
use gin_di.Console.LineFilter.{
  drops, LineFilter, cut_line, newline, emit, proceed, write_lines, count, write,
}

-- What the search for a newline says of the first byte and the rest.
cut_line-none :
    (c : ℕ) (s : Text) → cut_line (c ∷ s) ≡ none → ((c == newline) ≡ false) × (cut_line s ≡ none)
unfolding cut_line
cut_line-none c s h = elim (Option-cases (cut_line s)) [
  | inl e ↦ ground arith
  | inr (x, e) ↦ ground arith
]

cut_line-some :
    (c : ℕ) (s a r : Text)
    → cut_line (c ∷ s) ≡ some (a, r)
    → (((c == newline) ≡ true) × (a ≡ c ∷ []) × (s ≡ r))
      ⊎ ((b : Text) × ((c == newline) ≡ false) × (a ≡ c ∷ b) × (cut_line s ≡ some (b, r)))
unfolding cut_line
cut_line-some c s a r h = elim (Bool-cases (c == newline)) [
  | inl e ↦ inl (e, ground arith, ground arith)
  | inr e ↦ elim (Option-cases (cut_line s)) [
    | inl q ↦ ground arith
    | inr (x, q) ↦ inr (x.0, e, ground arith, ground arith)
  ]
]

length-cut_line : (s a r : Text) → cut_line s ≡ some (a, r) → length r < length s
unfolding cut_line
length-cut_line [] a r h = cc
length-cut_line (c ∷ s) a r h = elim (cut_line-some c s a r h) [
  | inl (e, u, v) ↦ subst (λ t. length r < suc (length t)) (sym v) (omega arith)
  | inr (b, e, u, v) ↦ omega (arith, length-cut_line s b r v)
]

module _ {W E : Type 0} (write_out : W → Text → W × Option E) where
  -- The filter byte by byte: `line` is the open line.
  drain : Text → Text → LineFilter W → LineFilter W × Option E
  drain line [] f = (record f { pending = line }, none)
  drain line (c ∷ s) f = elim (c == newline) [
    | true ↦ proceed (emit write_out (line ++ c ∷ []) (record f { pending = s })) (drain [] s)
    | false ↦ drain (line ++ c ∷ []) s f
  ]

  -- `drain` overwrites what the filter holds back.
  drain-pending :
      (line s held : Text) (f : LineFilter W)
      → drain line s (record f { pending = held }) ≡ drain line s f
  unfolding drain
  drain-pending line [] held f = refl
  drain-pending line (c ∷ s) held f = elim (Bool-cases (c == newline)) [
    | inl e ↦ rw (drain, e) refl
    | inr e ↦ rw (drain, e) (drain-pending (line ++ c ∷ []) s held f)
  ]

  -- A text without a newline stays open.
  drain-append :
      (line s t : Text) (f : LineFilter W)
      → cut_line s ≡ none
      → drain line (s ++ t) f ≡ drain (line ++ s) t f
  unfolding drain cut_line
  drain-append line [] t f h = ap (λ l. drain l t f) (sym (append-nil line))
  drain-append line (c ∷ s) t f h =
      let (e, n) = cut_line-none c s h in
      rw (drain, e)
        (drain-append (line ++ c ∷ []) s t f n
          ∙ ap (λ l. drain l t f) (append_assoc line (c ∷ []) s))

  drain-cut_line :
      (line s a r : Text) (f : LineFilter W)
      → cut_line s ≡ some (a, r)
      → drain line s f
        ≡ proceed (emit write_out (line ++ a) (record f { pending = r })) (drain [] r)
  unfolding drain cut_line
  drain-cut_line line [] a r f h = cc
  drain-cut_line line (c ∷ s) a r f h = elim (cut_line-some c s a r h) [
    | inl (e, u, v) ↦ rw (drain, e, u, v) refl
    | inr (b, e, u, v) ↦
        rw (drain, e)
          (drain-cut_line (line ++ c ∷ []) s b r f v
            ∙ ap (λ l. proceed (emit write_out l (record f { pending = r })) (drain [] r))
                (append_assoc line (c ∷ []) b ∙ ap (λ x. line ++ x) (sym u)))
  ]

  proceed_ext :
      (m : LineFilter W × Option E) (k k' : LineFilter W → LineFilter W × Option E)
      → ((g : LineFilter W) → m ≡ (g, none) → k g ≡ k' g)
      → proceed m k ≡ proceed m k'
  proceed_ext (g, none) k k' h = h g refl
  proceed_ext (g, some e) k k' h = refl

  -- A line leaves what is held back alone.
  emit-pending : (line : Text) (f : LineFilter W) → (emit write_out line f).0.pending ≡ f.pending
  unfolding emit
  emit-pending line f = elim (Bool-cases (drops f.drop line)) [
    | inl e ↦ rw (emit, e) refl
    | inr e ↦ rw (emit, e) refl
  ]

  emit_at :
      (line held : Text) (f : LineFilter W)
      → let (g, e) = emit write_out line f in
        emit write_out line (record f { pending = held }) ≡ (record g { pending = held }, e)
  unfolding emit
  emit_at line held f = elim (Bool-cases (drops f.drop line)) [
    | inl e ↦ rw (emit, e) refl
    | inr e ↦ rw (emit, e) refl
  ]

  -- Enough fuel: the loop of Write is `drain` on what the filter holds.
  write_lines-drain :
      (n : ℕ) (f : LineFilter W)
      → length f.pending < n
      → write_lines write_out n f ≡ drain [] f.pending f
  unfolding write_lines drain
  write_lines-drain zero f h = absurd (omega arith)
  write_lines-drain (suc n) f h = elim (Option-cases (cut_line f.pending)) [
    | inl e ↦
        rw (write_lines, e)
          (sym (drain-append [] f.pending [] f e) ∙ ap (λ p. drain [] p f) (append-nil f.pending))
    | inr ((a, r), e) ↦
        rw (write_lines, e)
          (proceed_ext (emit write_out a (record f { pending = r })) (write_lines write_out n)
              (drain [] r)
              (λ g q.
                let same_rest =
                  sym (emit-pending a (record f { pending = r })) ∙ ap (λ x. x.0.pending) q in
                write_lines-drain n g (
                  subst (λ p. length p < n) same_rest
                    (omega (arith, length-cut_line f.pending a r e)))
                ∙ ap (λ p. drain [] p g) (sym same_rest))
            ∙ sym (drain-cut_line [] f.pending a r f e))
  ]

  -- An error of the writer ends the call.
  failed :
      {d g : LineFilter W} {x : E} → ◌≡◌ {A = LineFilter W × Option E} (d, some x) (g, none) → ⊥
  failed h = differ (ap (λ r. r.1) h)
    where
      differ : {x : E} → some x ≡ none → ⊥
      differ q = cc

  resumed :
      (s b : Text) (d g : LineFilter W) (o : Option E)
      → proceed (record d { pending = s }, o) (drain [] s) ≡ (g, none)
      → ((x : LineFilter W) → drain [] s x ≡ (g, none) → drain [] (s ++ b) x ≡ drain g.pending b g)
      → proceed (record d { pending = s ++ b }, o) (drain [] (s ++ b)) ≡ drain g.pending b g
  resumed s b d g none h ih =
      drain-pending [] (s ++ b) (s ++ b) d ∙ ih d (sym (drain-pending [] s s d) ∙ h)
  resumed s b d g (some x) h ih = absurd (failed h)

  -- What follows a part that went through is drained from where that part ended.
  drain_split :
      (line a b : Text) (f g : LineFilter W)
      → drain line a f ≡ (g, none)
      → drain line (a ++ b) f ≡ drain g.pending b g
  unfolding drain
  drain_split line [] b f g h =
      subst (λ x. drain line b f ≡ drain x.pending b x) (ap (λ r. r.0) h)
        (sym (drain-pending line b line f))
  drain_split line (c ∷ s) b f g h = elim (Bool-cases (c == newline)) [
    | inl e ↦
        rw (drain, e)
          (ap (λ m. proceed m (drain [] (s ++ b))) (emit_at (line ++ c ∷ []) (s ++ b) f)
            ∙ resumed s b (emit write_out (line ++ c ∷ []) f).0 g
                (emit write_out (line ++ c ∷ []) f).1
                (sym (ap (λ m. proceed m (drain [] s)) (emit_at (line ++ c ∷ []) s f))
                  ∙ (rw (drain, e) at h))
                (λ x. drain_split [] s b x g))
    | inr e ↦ rw (drain, e) (drain_split (line ++ c ∷ []) s b f g (rw (drain, e) at h))
  ]

  cut_line-append :
      (line : Text) (c : ℕ)
      → cut_line line ≡ none
      → (c == newline) ≡ false
      → cut_line (line ++ c ∷ []) ≡ none
  unfolding cut_line
  cut_line-append [] c n e = rw (e) refl
  cut_line-append (x ∷ line) c n e =
      let (y, m) = cut_line-none x line n in rw (y, cut_line-append line c m e) refl

  -- What a drained text leaves open has no newline.
  drain_open :
      (line a : Text) (f g : LineFilter W)
      → cut_line line ≡ none
      → drain line a f ≡ (g, none)
      → cut_line g.pending ≡ none
  unfolding drain cut_line
  drain_open line [] f g n h = subst (λ x. cut_line x.pending ≡ none) (ap (λ r. r.0) h) n
  drain_open line (c ∷ s) f g n h = elim (Bool-cases (c == newline)) [
    | inl e ↦
        behind (emit write_out (line ++ c ∷ []) (record f { pending = s }))
          (λ d. drain_open [] s d g refl) (rw (drain, e) at h)
    | inr e ↦ drain_open (line ++ c ∷ []) s f g (cut_line-append line c n e) (rw (drain, e) at h)
  ]
    where
      behind :
          (m : LineFilter W × Option E)
          → ((d : LineFilter W) → drain [] s d ≡ (g, none) → cut_line g.pending ≡ none)
          → proceed m (drain [] s) ≡ (g, none)
          → cut_line g.pending ≡ none
      behind (d, none) ends h = ends d h
      behind (d, some x) ends h = absurd (failed h)

  write-drain :
      (p : Text) (f : LineFilter W)
      → cut_line f.pending ≡ none
      → write write_out p f ≡ count (drain f.pending p f) (length p)
  unfolding write
  write-drain p f n =
      ap (λ r. count r (length p))
        (write_lines-drain _ (record f { pending = f.pending ++ p }) (omega arith)
          ∙ drain-pending [] (f.pending ++ p) (f.pending ++ p) f
          ∙ drain-append [] f.pending p f n)

  -- From a filter that holds back no newline, a Write whose bytes all go through holds back none
  -- either and returns the number of its bytes, and the Write that follows ends as one Write of
  -- both texts would have ended: in the same state, with the same error, or with none and the
  -- number of the bytes.
  pub write-append :
      (f g : LineFilter W) (a b : Text) (n : ℕ)
      → cut_line f.pending ≡ none
      → write write_out a f ≡ (g, ok n)
      → (n ≡ length a)
        × (cut_line g.pending ≡ none)
        × ((r : LineFilter W × Option E) × (write write_out b g ≡ count r (length b))
            × (write write_out (a ++ b) f ≡ count r (length (a ++ b))))
  write-append f g a b n shut h =
      let (through, number) = counted (drain f.pending a f) (sym (write-drain a f shut) ∙ h) in
      (
        number,
        drain_open f.pending a f g shut through,
        (
          drain g.pending b g,
          write-drain b g (drain_open f.pending a f g shut through),
          write-drain (a ++ b) f shut
              ∙ ap (λ r. count r (length (a ++ b))) (drain_split f.pending a b f g through),
        ),
      )
    where
      same_number : {m k : ℕ} → ◌≡◌ {A = Result E ℕ} (ok m) (ok k) → k ≡ m
      same_number q = cc

      refused : {B : Type 0} {x : E} {k : ℕ} → ◌≡◌ {A = Result E ℕ} (err x) (ok k) → B
      refused q = cc

      counted :
          (r : LineFilter W × Option E)
          → count r (length a) ≡ (g, ok n)
          → (r ≡ (g, none)) × (n ≡ length a)
      counted (d, none) q = (ap (λ x. (x.0, none)) q, same_number (ap (λ x. x.1) q))
      counted (d, some x) q = refused (ap (λ x. x.1) q)

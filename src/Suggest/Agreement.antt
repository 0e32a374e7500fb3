-- ===== src/Suggest/Agreement.antt =====
-- What `agreed` answers (cli/internal/errfmt/suggest.go).
use millstrand.Base.{
  ℕ, ◌≡◌, ◌≢◌, refl, sym, ap₂, ◌∙◌, ◌↔◌, ◌⊎◌, inl, inr, subst, true, Bool-cases, Str, str_eq→eq,
  str_eq_refl, some, Option-cases, some_cancel, List, [], ◌∷◌, In, here, there, In-cases, arith,
}
use millstrand.Suggest.Rank.{is_nil, same_names, next_chosen, rank, agreed_from, agreed}

same_names→eq : (a b : List Str) → same_names a b ≡ true → a ≡ b
unfolding same_names
same_names→eq [] [] h = refl
same_names→eq (x ∷ a) (y ∷ b) h =
    ap₂ ◌∷◌ (str_eq→eq x y (ground arith)) (same_names→eq a b (ground arith))
same_names→eq [] (y ∷ b) h = cc
same_names→eq (x ∷ a) [] h = cc

same_names_refl : (a : List Str) → same_names a a ≡ true
unfolding same_names
same_names_refl [] = refl
same_names_refl (x ∷ a) = rw (str_eq_refl x) (same_names_refl a)

pub is_nil→eq : (a : List Str) → is_nil a ≡ true → a ≡ []
is_nil→eq [] h = refl
is_nil→eq (x ∷ a) h = cc

-- A ranking says nothing, or says `r`.
abbrev pub Says : List Str → List Str → Type 0
Says r ranked = (ranked ≡ []) ⊎ (ranked ≡ r)

skipped : (chosen ranked : List Str) → ranked ≡ [] → next_chosen chosen ranked ≡ some chosen
unfolding next_chosen
skipped chosen [] h = refl
skipped chosen (x ∷ ranked) h = cc

-- The turn takes the ranking: nothing was chosen, or the same.
taken :
    (chosen ranked : List Str)
    → ranked ≢ []
    → Says ranked chosen
    → next_chosen chosen ranked ≡ some ranked
unfolding next_chosen
taken chosen [] n h = absurd (n refl)
taken [] (x ∷ ranked) n h = refl
taken (c ∷ chosen) (x ∷ ranked) n (inl h) = cc
taken (c ∷ chosen) (x ∷ ranked) n (inr h) =
    subst (λ t. next_chosen t (x ∷ ranked) ≡ some (x ∷ ranked)) (sym h)
      (rw (same_names_refl (x ∷ ranked)))

-- What a turn that goes on has done.
turn :
    (chosen ranked next : List Str)
    → next_chosen chosen ranked ≡ some next
    → ((ranked ≡ []) × (next ≡ chosen)) ⊎ ((ranked ≢ []) × (next ≡ ranked) × Says ranked chosen)
unfolding next_chosen
turn chosen [] next h = inl (refl, sym (some_cancel h))
turn [] (x ∷ ranked) next h = inr (λ e. cc, sym (some_cancel h), inl refl)
turn (c ∷ chosen) (x ∷ ranked) next h = elim (Bool-cases (same_names (c ∷ chosen) (x ∷ ranked))) [
  | inl e ↦ inr (λ q. cc, ground arith, inr (same_names→eq (c ∷ chosen) (x ∷ ranked) e))
  | inr e ↦ absurd (ground arith)
]

module _ (lower : ℕ → ℕ) (names r : List Str) (heard : r ≢ []) where
  -- Every candidate says nothing or `r`, and some candidate says `r`, if it is not chosen already.
  abbrev Unanimous : List Str → List Str → Type 0
  Unanimous chosen candidates =
      Says r chosen
      × ((c : Str) → In c candidates → Says r (rank lower c names))
      × ((chosen ≡ r) ⊎ ((c : Str) × In c candidates × (rank lower c names ≡ r)))

  agreed_from_sound :
      (chosen candidates : List Str)
      → agreed_from lower names chosen candidates ≡ r
      → Unanimous chosen candidates
  unfolding agreed_from
  agreed_from_sound chosen [] h = (inr h, λ c i. elim i [ ], inl h)
  agreed_from_sound chosen (c ∷ candidates) h =
      elim (Option-cases (next_chosen chosen (rank lower c names))) [
        | inl e ↦ absurd (heard (sym h ∙ rw (e, agreed_from)))
        | inr (next, e) ↦ go next e (agreed_from_sound next candidates (ground (arith, e)))
      ]
    where
      go :
          (next : List Str)
          → next_chosen chosen (rank lower c names) ≡ some next
          → Unanimous next candidates
          → Unanimous chosen (c ∷ candidates)
      go next e (says, all_say, one) = elim (turn chosen (rank lower c names) next e) [
        | inl (quiet, same) ↦ (
          subst (Says r) same says,
          λ d i. elim (In-cases i) [ inl p ↦ inl (rw p quiet) | inr j ↦ all_say d j ],
          elim one [ inl q ↦ inl (sym same ∙ q) | inr (d, j, q) ↦ inr (d, there j, q) ],
        )
        | inr (loud, same, before) ↦
            let agrees : rank lower c names ≡ r = elim says [
              | inl q ↦ absurd (loud (sym same ∙ q))
              | inr q ↦ sym same ∙ q
            ] in
            (
              subst (λ t. Says t chosen) agrees before,
              λ d i. elim (In-cases i) [ inl p ↦ inr (rw p agrees) | inr j ↦ all_say d j ],
              inr (c, here refl, agrees),
            )
      ]

  agreed_from_complete :
      (chosen candidates : List Str)
      → Unanimous chosen candidates
      → agreed_from lower names chosen candidates ≡ r
  unfolding agreed_from
  agreed_from_complete chosen [] (says, all_say, one) = elim one [
    | inl q ↦ q
    | inr (d, j, q) ↦ elim j [ ]
  ]
  agreed_from_complete chosen (c ∷ candidates) (says, all_say, one) = elim (all_say c (here refl)) [
    | inl quiet ↦
        rw (skipped chosen (rank lower c names) quiet, agreed_from)
          (agreed_from_complete chosen candidates (
            says,
            λ d j. all_say d (there j),
            elim one [
              | inl q ↦ inl q
              | inr (d, i, q) ↦ elim (In-cases i) [
                | inl p ↦ absurd (heard (sym q ∙ rw p quiet))
                | inr j ↦ inr (d, j, q)
              ]
            ],
          ))
    | inr agrees ↦
        rw
          (
            taken chosen (rank lower c names) (λ q. heard (sym agrees ∙ q))
                (subst (λ t. Says t chosen) (sym agrees) says),
            agreed_from,
          )
          (agreed_from_complete (rank lower c names) candidates
            (inr agrees, λ d j. all_say d (there j), inl agrees))
  ]

  -- The last tier answers `r` exactly when every candidate ranks nothing or `r`, and one ranks `r`.
  pub agreed_iff :
      (candidates : List Str)
      → (agreed lower candidates names ≡ r) ↔ (
          ((c : Str) → In c candidates → Says r (rank lower c names))
          × ((c : Str) × In c candidates × (rank lower c names ≡ r)))
  unfolding agreed
  agreed_iff candidates = (
    λ h.
        let (says, all_say, one) = agreed_from_sound [] candidates h in
        (all_say, elim one [ inl q ↦ absurd (heard (sym q)) | inr w ↦ w ]),
    λ h. agreed_from_complete [] candidates (inl refl, h.0, inr h.1),
  )

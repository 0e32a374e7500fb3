-- ===== src/Suggest/Tiers.antt =====
-- Which word of an error `suggest` goes by (cli/internal/errfmt/suggest.go).
use millstrand.Base.{
  ℕ, ◌≤◌, ◌≡◌, ◌≢◌, ◌↔◌, ◌⊎◌, refl, sym, inl, inr, subst, Bool-cases, false, Str, Option, none,
  some, some_cancel, List, [], ◌∷◌, length, In, here, there, In-cases, arith,
}
use millstrand.Suggest.Rank.{is_nil, rank, agreed, first_ranked}
use millstrand.Suggest.Ranking.{far, rank-In, length-rank}
use millstrand.Suggest.Offer.{
  Error, quoted_details, sorted_values, remaining_values, last_word, rank_last, or_else, suggest,
}
use millstrand.Suggest.Details.{
  IsQuoted, Remains, EndsWith, IsQuoted-iff, remaining_iff, last_word_iff,
}
use millstrand.Suggest.Agreement.{Says, agreed_iff, is_nil→eq}

module _ (lower : ℕ → ℕ) (names : List Str) where
  -- The ranking of a word, which is not empty: some of the names, all one or two edits from it.
  abbrev pub Ranks : Str → List Str → Type 0
  Ranks word offered =
      (offered ≢ [])
      × (offered ≡ rank lower word names)
      × ((x : Str) → In x offered → In x names × (1 ≤ far lower word x) × (far lower word x ≤ 2))

  abbrev pub IsQuiet : (Str → Type 0) → Type 0
  IsQuiet P = (word : Str) → P word → rank lower word names ≡ []

  -- What the remaining details agree on: a ranking is offered exactly if each ranks it or nothing,
  -- and one ranks it.
  abbrev pub IsAgreed : Error → List Str → Type 0
  IsAgreed e offered =
      (r : List Str)
      → r ≢ []
      → (offered ≡ r) ↔ (
          ((v : Str) → Remains e v → Says r (rank lower v names))
          × ((v : Str) × Remains e v × (rank lower v names ≡ r)))

  abbrev pub FromTiers : Error → List Str → Type 0
  FromTiers e offered =
      ((word : Str) × IsQuoted e word × Ranks word offered)
      ⊎ (IsQuiet (IsQuoted e)
          × (((word : Str) × EndsWith e.command word × Ranks word offered)
              ⊎ (IsQuiet (EndsWith e.command) × IsAgreed e offered)))

  rank-Ranks : (word : Str) → rank lower word names ≢ [] → Ranks word (rank lower word names)
  rank-Ranks word n = (n, refl, λ x. rank-In lower word x names)

  first_ranked-cases :
      (words : List Str)
      → ((word : Str) × In word words × Ranks word (first_ranked lower words names))
        ⊎ ((first_ranked lower words names ≡ [])
            × ((word : Str) → In word words → rank lower word names ≡ []))
  unfolding first_ranked
  first_ranked-cases [] = inr (refl, λ w i. elim i [ ])
  first_ranked-cases (w ∷ words) = elim (Bool-cases (is_nil (rank lower w names))) [
    | inl e ↦ rw e (elim (first_ranked-cases words) [
      | inl (v, i, r) ↦ inl (v, there i, r)
      | inr (q, quiet) ↦ inr (
        q,
        λ v i. elim (In-cases i) [
          | inl p ↦ rw p (is_nil→eq (rank lower w names) e)
          | inr j ↦ quiet v j
        ],
      )
    ])
    | inr e ↦ rw e (inl (w, here refl, rank-Ranks w (is_nil-no (rank lower w names) e)))
  ]
    where
      is_nil-no : (a : List Str) → is_nil a ≡ false → a ≢ []
      is_nil-no [] h = cc
      is_nil-no (x ∷ a) h = λ q. cc

  or_else-quiet : (a b : List Str) → a ≡ [] → or_else lower a b ≡ b
  or_else-quiet [] b q = refl
  or_else-quiet (x ∷ a) b q = cc

  rank_last-cases :
      (o : Option Str)
      → ((word : Str) × (o ≡ some word) × Ranks word (rank_last lower o names))
        ⊎ ((rank_last lower o names ≡ [])
            × ((word : Str) → o ≡ some word → rank lower word names ≡ []))
  rank_last-cases none = inr (refl, λ w q. cc)
  rank_last-cases (some word) = elim (Bool-cases (is_nil (rank lower word names))) [
    | inl e ↦
        let quiet = is_nil→eq (rank lower word names) e in
        inr (quiet, λ w q. subst (λ x. rank lower x names ≡ []) (some_cancel q) quiet)
    | inr e ↦ inl (word, refl, rank-Ranks word (λ q. absurd (ground (arith, q, e))))
  ]

  agreed-IsAgreed :
      (e : Error)
      → IsAgreed e
          (agreed lower (remaining_values e.details (quoted_details e.message e.details)) names)
  agreed-IsAgreed e r n =
      let (to, of) =
        agreed_iff lower names r n
          (remaining_values e.details (quoted_details e.message e.details)) in
      (
        λ h.
            let (says, (v, i, q)) = to h in
            (λ w k. says w ((remaining_iff e w).1 k), (v, (remaining_iff e v).0 i, q)),
        λ (says, (v, k, q)).
            of (λ w i. says w ((remaining_iff e w).0 i), (v, (remaining_iff e v).1 k, q)),
      )

  Ranks-loud : (word : Str) (a b : List Str) → Ranks word a → Ranks word (or_else lower a b)
  Ranks-loud word [] b (n, q, m) = absurd (n refl)
  Ranks-loud word (x ∷ a) b h = h

  suggest-FromTiers : (e : Error) → FromTiers e (suggest lower e names)
  unfolding suggest
  suggest-FromTiers e =
      let quoted = first_ranked lower (sorted_values (quoted_details e.message e.details)) names in
      let last = rank_last lower (last_word e.command) names in
      let rest =
        agreed lower (remaining_values e.details (quoted_details e.message e.details)) names in
      elim (first_ranked-cases (sorted_values (quoted_details e.message e.details))) [
        | inl (w, i, r) ↦
            inl (w, (IsQuoted-iff e w).0 i, Ranks-loud w quoted (or_else lower last rest) r)
        | inr (q, quiet) ↦
            subst (FromTiers e) (sym (or_else-quiet quoted (or_else lower last rest) q)) (
              inr (
                λ w k. quiet w ((IsQuoted-iff e w).1 k),
                elim (rank_last-cases (last_word e.command)) [
                  | inl (w, h, r) ↦
                      inl (w, (last_word_iff e.command w).0 h, Ranks-loud w last rest r)
                  | inr (h, none_ranks) ↦ inr (
                    λ w k. none_ranks w ((last_word_iff e.command w).1 k),
                    subst (IsAgreed e) (sym (or_else-quiet last rest h)) (agreed-IsAgreed e),
                  )
                ],
              ))
      ]

  rank_le : (word : Str) (offered : List Str) → offered ≡ rank lower word names → length offered ≤ 3
  rank_le word offered q = rw q (length-rank lower word names)

  FromTiers-length : (e : Error) (offered : List Str) → FromTiers e offered → length offered ≤ 3
  FromTiers-length e offered (inl (w, i, (n, q, m))) = rank_le w offered q
  FromTiers-length e offered (inr (quiet, inl (w, i, (n, q, m)))) = rank_le w offered q
  FromTiers-length e [] (inr (quiet, inr (silent, agrees))) = omega arith
  FromTiers-length e (x ∷ offered) (inr (quiet, inr (silent, agrees))) =
      let (says, (v, k, q)) = (agrees (x ∷ offered) (λ h. cc)).0 refl in
      rank_le v (x ∷ offered) (sym q)

  -- Whatever the error, at most three names are suggested. If a string detail that stands in the
  -- message ranks any name, they are the ranking of such a detail; otherwise, if the last word of
  -- the command ranks any, they are its ranking; otherwise they are what the details that remain
  -- agree on, or none. The names of a ranking are among those given, one or two edits from the
  -- word, case aside.
  pub suggest_lem :
      (e : Error) → (length (suggest lower e names) ≤ 3) × FromTiers e (suggest lower e names)
  suggest_lem e =
      let tiers = suggest-FromTiers e in (FromTiers-length e (suggest lower e names) tiers, tiers)

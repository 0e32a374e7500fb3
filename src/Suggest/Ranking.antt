-- ===== src/Suggest/Ranking.antt =====
-- What `rank` offers (cli/internal/errfmt/suggest.go).
use native.Mathlib.Decide.{dec_lt}
use millstrand.Base.{
  ℕ, ◌≤◌, ◌<◌, ◌≡◌, ◌≢◌, refl, sym, ap, ◌∙◌, ◌↔◌, ◌⊎◌, inl, inr, subst, true, false, Bool-cases,
  ==_iff, leb, le→leb, ◌==◌, Str, str_eq, str_eq→eq, Option, none, some, Option-cases, some_cancel,
  List, [], ◌∷◌, map, length, take, length-take, In, here, there, In-cases, In-take, In-map,
  In-of_map, map-take, if◌then◌else◌, arith,
}
use millstrand.Suggest.Distance.{levenshtein}
use millstrand.Suggest.Edits.{Edits, done, keep, levenshtein-least}
use millstrand.Suggest.Sorting.{Sorted-sort, In-of_sort, In-sort, cut_closest}
use millstrand.Suggest.Rank.{
  max_suggestions, max_suggest_distance, Match, sort_matches, offer, to_lower, matches, rank,
}

edits_none : {s t : Str} {n : ℕ} → Edits s t n → n ≡ 0 → s ≡ t
edits_none done h = refl
edits_none (keep c e) h = ap (◌∷◌ c) (edits_none e h)
edits_none _ h = absurd (omega arith)

edits_self : (s : Str) → Edits s s 0
edits_self [] = done
edits_self (c ∷ s) = keep c (edits_self s)

-- The distance is 0 between equal texts alone.
pub levenshtein-eq-zero : (s t : Str) → (levenshtein s t ≡ 0) ↔ (s ≡ t)
levenshtein-eq-zero s t = (
  λ h. edits_none (levenshtein-least s t).0 h,
  λ h.
      subst (λ u. levenshtein s u ≡ 0) h
        (omega (arith, (levenshtein-least s s).1 0 (edits_self s))),
)

module _ (lower : ℕ → ℕ) where
  abbrev pub far : Str → Str → ℕ
  far token name = levenshtein (to_lower lower token) (to_lower lower name)

  -- The distance of a match, with the name's.
  abbrev IsClose : Str → Match → Type 0
  IsClose folded m =
      (m.distance ≡ levenshtein folded (to_lower lower m.name))
      × (1 ≤ m.distance)
      × (m.distance ≤ 2)

  -- One turn of the loop that did not return early.
  matches-step :
      (folded name : Str) (names : List Str) (ms : List Match)
      → matches lower folded (name ∷ names) ≡ some ms
      → (rest : List Match) × (matches lower folded names ≡ some rest)
        × (levenshtein folded (to_lower lower name) ≢ 0)
        × (ms ≡ (
            if leb (levenshtein folded (to_lower lower name)) 2
            then record { name = name; distance = levenshtein folded (to_lower lower name) } ∷ rest
            else rest))
  unfolding matches
  matches-step folded name names ms h = elim (Option-cases (matches lower folded names)) [
    | inl e ↦ absurd (ground arith)
    | inr (rest, e) ↦ (rest, e, ground arith, ground arith)
  ]

  matches-In :
      (folded : Str) (names : List Str) (ms : List Match) (m : Match)
      → matches lower folded names ≡ some ms
      → In m ms
      → In m.name names × IsClose folded m
  unfolding matches
  matches-In folded [] ms m h i = elim (subst (In m) (sym (some_cancel h)) i) [ ]
  matches-In folded (name ∷ names) ms m h i =
      let (rest, e, apart, shape) = matches-step folded name names ms h in
      elim (Bool-cases (leb (levenshtein folded (to_lower lower name)) 2)) [
        | inl close ↦ elim (In-cases (subst (In m) (shape ∙ rw close) i)) [
          | inl p ↦ rw p (here refl, (refl, ground arith, ground arith))
          | inr j ↦ let (k, c) = matches-In folded names rest m e j in (there k, c)
        ]
        | inr wide ↦
            let (k, c) = matches-In folded names rest m e (subst (In m) (shape ∙ rw wide) i) in
            (there k, c)
      ]

  In-matches :
      (folded y : Str) (names : List Str) (ms : List Match)
      → matches lower folded names ≡ some ms
      → In y names
      → levenshtein folded (to_lower lower y) ≤ 2
      → In (record { name = y; distance = levenshtein folded (to_lower lower y) }) ms
  In-matches folded y [] ms h i close = elim i [ ]
  In-matches folded y (name ∷ names) ms h i close =
      let (rest, e, apart, shape) = matches-step folded name names ms h in
      elim (In-cases i) [
        | inl p ↦
            let near : leb (levenshtein folded (to_lower lower name)) 2 ≡ true =
              le→leb _ 2 (subst (λ n. levenshtein folded (to_lower lower n) ≤ 2) p close) in
            let kept : ms ≡ found name ∷ rest = shape ∙ rw near in
            subst (In (found y)) (sym kept) (here (ap found p))
        | inr j ↦ elim (Bool-cases (leb (levenshtein folded (to_lower lower name)) 2)) [
          | inl near ↦
              let kept : ms ≡ found name ∷ rest = shape ∙ rw near in
              subst (In (found y)) (sym kept) (there (In-matches folded y names rest e j close))
          | inr wide ↦
              let kept : ms ≡ rest = shape ∙ rw wide in
              subst (In (found y)) (sym kept) (In-matches folded y names rest e j close)
        ]
      ]
    where
      found : Str → Match
      found n = record { name = n; distance = levenshtein folded (to_lower lower n) }

  -- The loop returns early exactly when a name is the token.
  matches-none :
      (folded : Str) (names : List Str)
      → matches lower folded names ≡ none
      → (y : Str) × In y names × (folded ≡ to_lower lower y)
  unfolding matches
  matches-none folded [] h = absurd (ground arith)
  matches-none folded (name ∷ names) h =
      elim (Bool-cases (levenshtein folded (to_lower lower name) == 0)) [
        | inl e ↦ (
          name,
          here refl,
          (levenshtein-eq-zero folded (to_lower lower name)).0 ((==_iff _ 0).0 e),
        )
        | inr e ↦ elim (Option-cases (matches lower folded names)) [
          | inl n ↦ let (y, i, q) = matches-none folded names n in (y, there i, q)
          | inr (rest, q) ↦ absurd (ground arith)
        ]
      ]

  matches-some :
      (folded y : Str) (names : List Str) (ms : List Match)
      → matches lower folded names ≡ some ms
      → In y names
      → folded ≢ to_lower lower y
  matches-some folded y [] ms h i = elim i [ ]
  matches-some folded y (name ∷ names) ms h i =
      let (rest, e, apart, shape) = matches-step folded name names ms h in
      elim (In-cases i) [
        | inl p ↦ λ q.
            apart ((levenshtein-eq-zero folded (to_lower lower name)).1 (q ∙ ap (to_lower lower) p))
        | inr j ↦ matches-some folded y names rest e j
      ]

  abbrev names_of : List Match → List Str
  names_of ms = map (λ (q : Match). q.name) (take max_suggestions (sort_matches ms))

  rank-some :
      (token : Str) (names : List Str) (ms : List Match)
      → str_eq token [] ≡ false
      → matches lower (to_lower lower token) names ≡ some ms
      → rank lower token names ≡ names_of ms
  unfolding rank
  rank-some token names ms e h =
      rw (e, h) (map-take (λ (q : Match). q.name) max_suggestions (sort_matches ms))

  -- A ranking that offers something shows the matches of the loop.
  offering :
      (token x : Str) (names : List Str)
      → In x (rank lower token names)
      → (ms : List Match) × (matches lower (to_lower lower token) names ≡ some ms)
        × (rank lower token names ≡ names_of ms)
  offering token x names i = elim (Bool-cases (str_eq token [])) [
    | inl e ↦ elim (subst (In x) (empty_token e) i) [ ]
    | inr e ↦ elim (Option-cases (matches lower (to_lower lower token) names)) [
      | inl n ↦ elim (subst (In x) (listed n) i) [ ]
      | inr (ms, h) ↦ (ms, h, rank-some token names ms e h)
    ]
  ]
    where
      empty_token : str_eq token [] ≡ true → rank lower token names ≡ []
      empty_token e = unfold rank in rw e

      listed : matches lower (to_lower lower token) names ≡ none → rank lower token names ≡ []
      listed n = unfold rank in ground (arith, n)

  offered :
      (token x : Str) (names : List Str) (ms : List Match)
      → rank lower token names ≡ names_of ms
      → In x (rank lower token names)
      → (m : Match) × In m (take max_suggestions (sort_matches ms)) × (x ≡ m.name)
  offered token x names ms shape i =
      In-of_map (λ (q : Match). q.name) x (take max_suggestions (sort_matches ms))
        (subst (In x) shape i)

  -- Every name that `rank` offers is one of the names, and lies one or two edits from the token,
  -- case aside.
  pub rank-In :
      (token x : Str) (names : List Str)
      → In x (rank lower token names)
      → In x names × (1 ≤ far token x) × (far token x ≤ max_suggest_distance)
  rank-In token x names i =
      let (ms, h, shape) = offering token x names i in
      let (m, k, e) = offered token x names ms shape i in
      let (j, c) =
        matches-In (to_lower lower token) names ms m h
          (In-of_sort m ms (In-take m max_suggestions (sort_matches ms) k)) in
      (rw e j, rw (e, ← c.0) c.1, rw (e, ← c.0) c.2)

  -- An offered name is at most as far from the token as a near name that is not offered.
  rank-closest :
      (token x y : Str) (names : List Str)
      → In x (rank lower token names)
      → In y names
      → far token y ≤ max_suggest_distance
      → In y (rank lower token names) ⊎ (far token x ≤ far token y)
  rank-closest token x y names i j close =
      let (ms, h, shape) = offering token x names i in
      let (m, k, e) = offered token x names ms shape i in
      let c =
        (matches-In (to_lower lower token) names ms m h
          (In-of_sort m ms (In-take m max_suggestions (sort_matches ms) k))).1 in
      let near : Match = record { name = y; distance = far token y } in
      elim (cut_closest max_suggestions (sort_matches ms) m near (Sorted-sort ms) k
        (In-sort near ms (In-matches (to_lower lower token) y names ms h j close))) [
          | inl t ↦ inl (
              subst (In y) (sym shape)
                (In-map (λ (q : Match). q.name) near (take max_suggestions (sort_matches ms)) t))
          | inr t ↦ inr (rw (e, ← c.0) t)
        ]

  length-offer : (o : Option (List Match)) → length (offer o) ≤ max_suggestions
  length-offer none = omega arith
  length-offer (some ms) =
      omega (arith, length-take max_suggestions (map (λ (q : Match). q.name) (sort_matches ms)))

  -- No more than three names are offered.
  pub length-rank :
      (token : Str) (names : List Str) → length (rank lower token names) ≤ max_suggestions
  unfolding rank
  length-rank token names =
      ground (arith, length-offer (matches lower (to_lower lower token) names))

  names_of-ne-nil : (m : Match) (ms : List Match) → In m ms → names_of ms ≢ []
  unfolding take
  names_of-ne-nil m ms i h = go (sort_matches ms) (In-sort m ms i) h
    where
      go : (l : List Match) → In m l → map (λ (q : Match). q.name) (take max_suggestions l) ≢ []
      go [] j = elim j [ ]
      go (x ∷ l) j = λ q. cc

  nil_of_far :
      (folded : Str) (names : List Str) (ms : List Match)
      → matches lower folded names ≡ some ms
      → ((y : Str) → In y names → max_suggest_distance < levenshtein folded (to_lower lower y))
      → ms ≡ []
  nil_of_far folded names [] h wide = refl
  nil_of_far folded names (m ∷ ms) h wide =
      let (j, c) = matches-In folded names (m ∷ ms) m h (here refl) in
      absurd (omega (arith, wide m.name j, c))

  -- `rank` offers nothing exactly when the token is empty, or is one of the names, case aside, or
  -- no name is within two edits.
  rank-eq-nil :
      (token : Str) (names : List Str)
      → (rank lower token names ≡ []) ↔ (
          (token ≡ [])
          ⊎ ((y : Str) × In y names × (to_lower lower token ≡ to_lower lower y))
          ⊎ ((y : Str) → In y names → max_suggest_distance < far token y))
  rank-eq-nil token names = (silent, quiet)
    where
      silent :
          rank lower token names ≡ []
          → (token ≡ [])
            ⊎ ((y : Str) × In y names × (to_lower lower token ≡ to_lower lower y))
            ⊎ ((y : Str) → In y names → max_suggest_distance < far token y)
      silent h = elim (Bool-cases (str_eq token [])) [
        | inl e ↦ inl (str_eq→eq token [] e)
        | inr e ↦ elim (Option-cases (matches lower (to_lower lower token) names)) [
          | inl n ↦ inr (inl (matches-none (to_lower lower token) names n))
          | inr (ms, q) ↦ inr (
              inr (λ y i. elim (dec_lt max_suggest_distance (far token y)) [
                | yes p ↦ p
                | no p ↦ absurd (
                    names_of-ne-nil (record { name = y; distance = far token y }) ms
                      (In-matches (to_lower lower token) y names ms q i (omega arith))
                      (sym (rank-some token names ms e q) ∙ h))
              ]))
        ]
      ]

      quiet :
          (token ≡ [])
            ⊎ ((y : Str) × In y names × (to_lower lower token ≡ to_lower lower y))
            ⊎ ((y : Str) → In y names → max_suggest_distance < far token y)
          → rank lower token names ≡ []
      quiet (inl e) = unfold rank str_eq in rw e
      quiet (inr (inl (y, i, e))) =
          elim (Option-cases (matches lower (to_lower lower token) names)) [
            | inl n ↦ unfold rank in ground (arith, n)
            | inr (ms, q) ↦ absurd (matches-some (to_lower lower token) y names ms q i e)
          ]
      quiet (inr (inr wide)) = elim (Option-cases (matches lower (to_lower lower token) names)) [
        | inl n ↦ unfold rank in ground (arith, n)
        | inr (ms, q) ↦
            unfold rank sort_matches take in
            ground (arith, q, nil_of_far (to_lower lower token) names ms q wide)
      ]

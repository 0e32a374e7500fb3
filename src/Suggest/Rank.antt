-- ===== src/Suggest/Rank.antt =====
-- `rank` and `agreed` (cli/internal/errfmt/suggest.go).
use millstrand.Base.{
  ℕ, Str, str_eq, Bool, true, false, not, ◌&&◌, Option, none, some, List, [], ◌∷◌, map, take, leb,
  ◌==◌, if◌then◌else◌,
}
use millstrand.Suggest.Distance.{levenshtein}

abbrev pub max_suggest_distance : ℕ
max_suggest_distance = 2

abbrev pub max_suggestions : ℕ
max_suggestions = 3

pub record Match : Type 0 where
  pub name : Str
  pub distance : ℕ

unfoldable pub insert_match : Match → List Match → List Match
insert_match m [] = m ∷ []
insert_match m (x ∷ xs) =
    let rest = insert_match m xs in if leb m.distance x.distance then m ∷ x ∷ xs else x ∷ rest

-- `sort.SliceStable` by distance.
unfoldable pub sort_matches : List Match → List Match
unfolding insert_match
sort_matches [] = []
sort_matches (m ∷ ms) = insert_match m (sort_matches ms)

abbrev pub with_match : Str → ℕ → Option (List Match) → Option (List Match)
with_match name d none = none
with_match name d (some ms) =
    if leb d max_suggest_distance then some (record { name = name; distance = d } ∷ ms) else some ms

abbrev pub offer : Option (List Match) → List Str
offer none = []
offer (some ms) = take max_suggestions (map (λ m. m.name) (sort_matches ms))

unfoldable pub same_names : List Str → List Str → Bool
same_names [] [] = true
same_names (a ∷ first) (b ∷ second) = str_eq a b && same_names first second
same_names _ _ = false

abbrev pub is_nil : List Str → Bool
is_nil [] = true
is_nil (r ∷ rs) = false

-- One turn of `agreed`: the next `chosen`, or `none` for the return of nil. The nil slice is empty.
unfoldable pub next_chosen : List Str → List Str → Option (List Str)
unfolding same_names
next_chosen chosen ranked =
    if is_nil ranked
    then some chosen
    else if not (is_nil chosen) && not (same_names chosen ranked)
    then none
    else some ranked

-- `lower` is the Unicode table's lower case of a rune, as `strings.ToLower` reads it.
module _ (lower : ℕ → ℕ) where
  abbrev pub to_lower : Str → Str
  to_lower = map lower

  -- The loop over the names: `none` is the early return at a name that is the token itself.
  unfoldable pub matches : Str → List Str → Option (List Match)
  matches folded [] = some []
  matches folded (name ∷ names) =
      let d = levenshtein folded (to_lower name) in
      let rest = with_match name d (matches folded names) in if d == 0 then none else rest

  unfoldable pub rank : Str → List Str → List Str
  rank token names = if str_eq token [] then [] else offer (matches (to_lower token) names)

  -- The loop of `agreed`, from `chosen` on.
  unfoldable pub agreed_from : List Str → List Str → List Str → List Str
  agreed_from names chosen [] = chosen
  agreed_from names chosen (token ∷ candidates) = elim (next_chosen chosen (rank token names)) [
    | none ↦ []
    | some next ↦ agreed_from names next candidates
  ]

  unfoldable pub agreed : List Str → List Str → List Str
  agreed candidates names = agreed_from names [] candidates

  -- The loop over the quoted values: the first ranking that offers something.
  unfoldable pub first_ranked : List Str → List Str → List Str
  first_ranked [] names = []
  first_ranked (token ∷ tokens) names =
      let later = first_ranked tokens names in
      if is_nil (rank token names) then later else rank token names

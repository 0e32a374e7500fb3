-- ===== src/Suggest/Tests.antt =====
-- Suggestions on small inputs, and each theorem at a concrete input.
use millstrand.Base.{
  ℕ, ◌+◌, ◌≤◌, Str, text, str_eq, str_lt, has_prefix, take, any, leb, ◌&&◌, ◌≡◌, refl, ◌↔◌, List,
  [], ◌∷◌, length, In, here, if◌then◌else◌, arith,
}
use millstrand.Suggest.Distance.{levenshtein}
use millstrand.Suggest.Edits.{Edits, levenshtein-least}
use millstrand.Suggest.Rank.{
  max_suggest_distance, sort_matches, next_chosen, matches, rank, agreed_from, agreed, first_ranked,
}
use millstrand.Suggest.Ranking.{far, rank-In}
use millstrand.Suggest.Offer.{
  str, other, Error, contains, quoted_details, sorted_values, remaining_values, last_word, suggest,
}
use millstrand.Suggest.Agreement.{Says, agreed_iff}
use millstrand.Suggest.Tiers.{FromTiers, suggest_lem}

-- ASCII lower case.
abbrev lower : ℕ → ℕ
lower c = if leb b'A' c && leb c b'Z' then c + 32 else c

abbrev names : List Str
names = text "ready" ∷ text "list" ∷ text "lost" ∷ text "add" ∷ []

kitten : levenshtein (text "kitten") (text "sitting") ≡ 3
unfolding levenshtein
kitten = refl

levenshtein-least_example :
    Edits (text "kitten") (text "sitting") (levenshtein (text "kitten") (text "sitting"))
    × ((n : ℕ)
        → Edits (text "kitten") (text "sitting") n
        → levenshtein (text "kitten") (text "sitting") ≤ n)
levenshtein-least_example = levenshtein-least (text "kitten") (text "sitting")

rank-lis : rank lower (text "LIS") names ≡ text "list" ∷ text "lost" ∷ []
unfolding rank matches levenshtein sort_matches take str_eq
rank-lis = refl

rank-listed : rank lower (text "List") names ≡ []
unfolding rank matches levenshtein sort_matches take str_eq
rank-listed = refl

list_offered : In (text "list") (rank lower (text "LIS") names)
unfolding rank matches levenshtein sort_matches take str_eq
list_offered = here refl

lost_near : far lower (text "LIS") (text "lost") ≤ max_suggest_distance
unfolding levenshtein
lost_near = omega arith

rank-In_example :
    In (text "list") names
    × (1 ≤ far lower (text "LIS") (text "list"))
    × (far lower (text "LIS") (text "list") ≤ max_suggest_distance)
rank-In_example = rank-In lower (text "LIS") (text "list") names list_offered

abbrev offered : List Str
offered = text "list" ∷ text "lost" ∷ []

agreed_iff_example : (agreed lower (text "LIS" ∷ text "elephant" ∷ []) names ≡ offered) ↔ (
    ((c : Str) → In c (text "LIS" ∷ text "elephant" ∷ []) → Says offered (rank lower c names))
    × ((c : Str) × In c (text "LIS" ∷ text "elephant" ∷ []) × (rank lower c names ≡ offered)))
agreed_iff_example = agreed_iff lower names offered (λ e. cc) (text "LIS" ∷ text "elephant" ∷ [])

-- Two details that point different ways.
abbrev torn : Error
torn = record {
  message = text "Operation not found";
  details =
      (text "operation", str (text "redy"))
      ∷ (text "arg", str (text "ad"))
      ∷ (text "n", other)
      ∷ [];
  command = text "elephant" ∷ [];
}

suggest-torn : suggest lower torn names ≡ []
unfolding suggest quoted_details contains has_prefix sorted_values first_ranked last_word
    remaining_values agreed agreed_from next_chosen rank matches levenshtein sort_matches take
    str_eq str_lt any
suggest-torn = refl

suggest-quoted :
    suggest lower (record torn { message = text "no operation redy here" }) names
    ≡ text "ready" ∷ []
unfolding suggest quoted_details contains has_prefix sorted_values first_ranked last_word
    remaining_values agreed agreed_from next_chosen rank matches levenshtein sort_matches take
    str_eq str_lt any
suggest-quoted = refl

abbrev quoting : Error
quoting = record torn { message = text "no operation redy here" }

suggest_lem_example :
    (length (suggest lower quoting names) ≤ 3)
    × FromTiers lower names quoting (suggest lower quoting names)
suggest_lem_example = suggest_lem lower names quoting

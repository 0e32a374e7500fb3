-- ===== src/Suggest/Offer.antt =====
-- `suggest` over the details of an error (cli/internal/errfmt/suggest.go), and `QuotedDetails`
-- (cli/internal/errfmt/errfmt.go).
use millstrand.Base.{
  ℕ, Str, str_eq, str_lt, has_prefix, Bool, true, false, not, ◌&&◌, ◌||◌, Option, none, some, List,
  [], ◌∷◌, map, any, if◌then◌else◌,
}
use millstrand.Suggest.Rank.{rank, agreed, first_ranked}

-- A decoded detail: a string, or anything else.
pub data Detail : Type 0 where
  str : Str → Detail
  other : Detail

-- A Go map, in the order in which one range over it visits the keys.
abbrev pub Details : Type 0
Details = List (Str × Detail)

abbrev pub ByKey : Type 0
ByKey = List (Str × Str)

-- The fields of `errfmt.Error` that suggestions read.
pub record Error : Type 0 where
  pub message : Str
  pub details : Details
  pub command : List Str

-- strings.Contains
unfoldable pub contains : Str → Str → Bool
contains [] t = has_prefix [] t
contains (c ∷ s) t = has_prefix (c ∷ s) t || contains s t

abbrev pub add_if : Bool → Str → Str → ByKey → ByKey
add_if true key value m = (key, value) ∷ m
add_if false key value m = m

-- Whether a detail is a string that stands in the message.
abbrev pub quotes : Str → Detail → Bool
quotes message (str value) = not (str_eq value []) && contains message value
quotes message other = false

abbrev pub value_of : Detail → Str
value_of (str value) = value
value_of other = []

unfoldable pub quoted_from : Str → Details → ByKey
quoted_from message [] = []
quoted_from message ((key, d) ∷ details) =
    add_if (quotes message d) key (value_of d) (quoted_from message details)

unfoldable pub quoted_details : Str → Details → ByKey
unfolding quoted_from
quoted_details message details = if str_eq message [] then [] else quoted_from message details

unfoldable pub insert_key : Str → Str → ByKey → ByKey
insert_key key value [] = (key, value) ∷ []
insert_key key value ((k, v) ∷ m) =
    let rest = insert_key key value m in
    if str_lt key k then (key, value) ∷ (k, v) ∷ m else (k, v) ∷ rest

unfoldable pub sort_keys : ByKey → ByKey
unfolding insert_key
sort_keys [] = []
sort_keys ((key, value) ∷ m) = insert_key key value (sort_keys m)

unfoldable pub sorted_values : ByKey → List Str
unfolding sort_keys
sorted_values m = map (λ e. e.1) (sort_keys m)

unfoldable pub has_key : Str → ByKey → Bool
has_key key [] = false
has_key key ((k, v) ∷ m) = str_eq k key || has_key key m

abbrev pub is_string : Detail → Bool
is_string (str value) = true
is_string other = false

-- The string details under the keys that are not quoted.
unfoldable pub unquoted : ByKey → Details → ByKey
unfolding has_key
unquoted quoted [] = []
unquoted quoted ((key, d) ∷ details) =
    add_if (not (has_key key quoted) && is_string d) key (value_of d) (unquoted quoted details)

-- The values that have not been seen before.
unfoldable pub unseen : List Str → List Str → List Str
unseen seen [] = []
unseen seen (value ∷ values) = elim (any (str_eq value) seen) [
  | true ↦ unseen seen values
  | false ↦ value ∷ unseen (value ∷ seen) values
]

unfoldable pub remaining_values : Details → ByKey → List Str
unfolding unquoted unseen sorted_values
remaining_values details quoted = unseen [] (sorted_values (unquoted quoted details))

-- The last word of the command, if it has any.
unfoldable pub last_word : List Str → Option Str
last_word [] = none
last_word (word ∷ []) = some word
last_word (word ∷ next ∷ words) = last_word (next ∷ words)

module _ (lower : ℕ → ℕ) where
  abbrev pub rank_last : Option Str → List Str → List Str
  rank_last none names = []
  rank_last (some word) names = rank lower word names

  abbrev pub or_else : List Str → List Str → List Str
  or_else [] second = second
  or_else (r ∷ rs) second = r ∷ rs

  unfoldable pub suggest : Error → List Str → List Str
  suggest e names =
      let quoted = quoted_details e.message e.details in
      let last_tier = agreed lower (remaining_values e.details quoted) names in
      or_else (first_ranked lower (sorted_values quoted) names)
        (or_else (rank_last (last_word e.command) names) last_tier)

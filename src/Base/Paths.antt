-- ===== src/Base/Paths.antt =====
-- `filepath.IsAbs`, `filepath.Clean` and `filepath.Join` on Unix.
use millstrand.Base.Tests.{◌==◌, if◌then◌else◌}
use millstrand.Base.Texts.{Str, text, str_eq, has_prefix}
use Prim.Native.Nat.{ℕ}
use mathlib.Core.Bool.{Bool, true, false}
use mathlib.Core.List.{List, [], ◌∷◌, ◌++◌, reverse}

unfoldable pub is_abs : Str → Bool
unfolding has_prefix
is_abs path = has_prefix path (text "/")

-- Puts a byte in front of the first component.
abbrev extend : ℕ → List Str → List Str
extend c [] = (c ∷ []) ∷ []
extend c (part ∷ parts) = (c ∷ part) ∷ parts

-- strings.Split(path, "/")
unfoldable pub split_path : Str → List Str
split_path [] = [] ∷ []
split_path (c ∷ s) = let parts = split_path s in if c == b'/' then [] ∷ parts else extend c parts

-- `..` drops the last component, unless that is itself a `..` of a relative path.
parent_step : Bool → List Str → List Str
parent_step true [] = []
parent_step false [] = text ".." ∷ []
parent_step rooted (top ∷ stack) = if str_eq top (text "..") then text ".." ∷ top ∷ stack else stack

-- One component of the path, onto the components kept so far, the last one first.
clean_step : Bool → List Str → Str → List Str
unfolding parent_step
clean_step rooted stack part =
    if str_eq part []
    then stack
    else if str_eq part (text ".")
    then stack
    else if str_eq part (text "..")
    then parent_step rooted stack
    else part ∷ stack

clean_parts : Bool → List Str → List Str → List Str
clean_parts rooted stack [] = stack
clean_parts rooted stack (part ∷ parts) = clean_parts rooted (clean_step rooted stack part) parts

unfoldable pub join_parts : List Str → Str
join_parts [] = []
join_parts (part ∷ []) = part
join_parts (part ∷ next ∷ parts) = part ++ b'/' ∷ join_parts (next ∷ parts)

unfoldable pub clean : Str → Str
unfolding is_abs split_path clean_parts clean_step join_parts str_eq
clean path =
    let kept = join_parts (reverse (clean_parts (is_abs path) [] (split_path path))) in
    if is_abs path then b'/' ∷ kept else if str_eq kept [] then text "." else kept

-- ===== src/Custody/Parse.antt =====
-- `ParseLaunchSpec`, the boundary at which a launch specification comes in
-- (cli/internal/process/custody.go).
use millstrand.Base.{
  Str, text, str_eq, is_blank, is_abs, Bool, true, false, not, ◌||◌, Option, none, some, List, [],
  ◌∷◌, map, any, if◌then◌else◌, Result, ok, err, ◌>>◌, ◌>>=◌, lookup, keys,
}
use millstrand.Custody.Spec.{LaunchSpec}

-- An element of an array or object, of which the parser asks only whether it is a string.
pub data Item : Type 0 where
  text_item : Str → Item
  other_item : Item

-- A Go value in an `any`, by the types that the parser tells apart.
pub data Any : Type 0 where
  nil : Any
  string : Str → Any
  array : List Item → Any
  strings : List Str → Any
  object : List (Str × Item) → Any
  string_map : List (Str × Str) → Any
  other : Any

pub data LaunchSpecError : Type 0 where
  not_an_object unknown_field no_argv bad_argument bad_cwd env_not_object : LaunchSpecError
  blank_env_key env_not_string bad_stdin : LaunchSpecError

abbrev pub is_field : Str → Bool
is_field key =
    str_eq key (text "argv")
    || str_eq key (text "cwd")
    || str_eq key (text "env")
    || str_eq key (text "stdin")

abbrev pub require : Bool → LaunchSpecError → Result LaunchSpecError (Unit {0})
require true e = ok tt
require false e = err e

-- The elements of `argv`; a value of another type, or none, has none.
abbrev pub argv_values : Option Any → List Item
argv_values (some (array values)) = values
argv_values (some (strings values)) = map text_item values
argv_values _ = []

abbrev pub argument : Item → Result LaunchSpecError Str
argument (text_item s) = if is_blank s then err bad_argument else ok s
argument _ = err bad_argument

unfoldable pub arguments : List Item → Result LaunchSpecError (List Str)
arguments [] = ok []
arguments (v ∷ vs) = do a ← argument v; rest ← arguments vs; ok (a ∷ rest)

abbrev pub parse_argv : List Item → Result LaunchSpecError (List Str)
parse_argv [] = err no_argv
parse_argv (v ∷ vs) = arguments (v ∷ vs)

abbrev pub parse_cwd : Option Any → Result LaunchSpecError Str
parse_cwd (some (string s)) = if not (is_abs s) || is_blank s then err bad_cwd else ok s
parse_cwd _ = err bad_cwd

abbrev pub env_value : Item → Result LaunchSpecError Str
env_value (text_item s) = ok s
env_value _ = err env_not_string

unfoldable pub env_entries : List (Str × Item) → Result LaunchSpecError (List (Str × Str))
env_entries [] = ok []
env_entries ((key, v) ∷ entries) = do
  require (not (is_blank key)) blank_env_key
  value ← env_value v
  rest ← env_entries entries
  ok ((key, value) ∷ rest)

abbrev pub parse_env : Option Any → Result LaunchSpecError (List (Str × Str))
parse_env none = ok []
parse_env (some (object entries)) = env_entries entries
parse_env (some (string_map entries)) = env_entries (map (λ e. (e.0, text_item e.1)) entries)
parse_env (some _) = err env_not_object

abbrev pub parse_stdin : Option Any → Result LaunchSpecError (Option Str)
parse_stdin none = ok none
parse_stdin (some nil) = ok none
parse_stdin (some (string s)) = ok (some s)
parse_stdin (some _) = err bad_stdin

-- `none` is the nil map. Go visits the fields and the environment in no fixed order, here in that
-- of the list: with several faults in one of them it may report another of these.
unfoldable pub parse_launch_spec : Option (List (Str × Any)) → Result LaunchSpecError LaunchSpec
parse_launch_spec none = err not_an_object
parse_launch_spec (some value) = do
  require (not (any (λ key. not (is_field key)) (keys value))) unknown_field
  argv ← parse_argv (argv_values (lookup (text "argv") value))
  cwd ← parse_cwd (lookup (text "cwd") value)
  env ← parse_env (lookup (text "env") value)
  stdin ← parse_stdin (lookup (text "stdin") value)
  ok (record { argv = argv; cwd = cwd; env = env; stdin = stdin })

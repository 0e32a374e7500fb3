-- ===== src/Custody/Spec.antt =====
-- Launch specifications and their checks (cli/internal/process/custody.go).
use millstrand.Base.{
  Str, str_eq, is_blank, is_abs, Bool, true, false, not, ◌&&◌, ◌||◌, Option, none, some, List, [],
  ◌∷◌, any, length, ◌==◌, Result, ok, err, ◌>>◌, lookup, keys,
}

pub record LaunchSpec : Type 0 where
  pub argv : List Str
  pub cwd : Str
  pub env : List (Str × Str)
  pub stdin : Option Str

-- What `os.Stat` says of the working directory.
pub data Directory : Type 0 where
  directory not_directory unavailable : Directory

pub data SpecError : Type 0 where
  incomplete blank_argument cwd_not_directory cwd_unavailable blank_env_key : SpecError

abbrev pub stat_check : Directory → Result SpecError (Unit {0})
stat_check directory = ok tt
stat_check not_directory = err cwd_not_directory
stat_check unavailable = err cwd_unavailable

abbrev pub refuse_if : Bool → SpecError → Result SpecError (Unit {0})
refuse_if true e = err e
refuse_if false e = ok tt

abbrev pub is_empty : {A : Type 0} → List A → Bool
is_empty [] = true
is_empty (x ∷ xs) = false

-- `stat` is the file system's answer for the directory that the spec names.
unfoldable pub validate_launch_spec : (Str → Directory) → LaunchSpec → Result SpecError (Unit {0})
validate_launch_spec stat spec = do
  refuse_if (is_empty spec.argv || str_eq spec.cwd [] || not (is_abs spec.cwd)) incomplete
  refuse_if (any is_blank spec.argv) blank_argument
  stat_check (stat spec.cwd)
  refuse_if (any is_blank (keys spec.env)) blank_env_key

unfoldable pub same_argv : List Str → List Str → Bool
same_argv [] [] = true
same_argv (a ∷ rest) (b ∷ bs) = str_eq a b && same_argv rest bs
same_argv _ _ = false

abbrev pub value_at : Str → List (Str × Str) → Str
value_at key env = elim (lookup key env) [ none ↦ [] | some v ↦ v ]

-- Each value of the one against the other's, whose missing keys read as the empty string.
unfoldable pub same_values : List (Str × Str) → List (Str × Str) → Bool
same_values [] b = true
same_values ((key, value) ∷ a) b = str_eq (value_at key b) value && same_values a b

abbrev pub same_stdin : Option Str → Option Str → Bool
same_stdin none none = true
same_stdin (some a) (some b) = str_eq a b
same_stdin _ _ = false

unfoldable pub same_spec : LaunchSpec → LaunchSpec → Bool
same_spec a b =
    str_eq a.cwd b.cwd
    && same_argv a.argv b.argv
    && length a.env == length b.env
    && same_values a.env b.env
    && same_stdin a.stdin b.stdin

-- ===== src/Custody/Boundary.antt =====
-- What is parsed is fit for a launch (cli/internal/process/custody.go).
use millstrand.Base.{
  Str, text, str_eq, is_blank, is_abs, ◌≡◌, inl, inr, refl, Bool, true, false, not, ◌||◌,
  Bool-cases, Option, none, some, List, [], ◌∷◌, any, Result, ok, err, ◌>>◌, >>=-eq-ok,
  ok-injective, lookup, keys, arith, has_prefix,
}
use millstrand.Custody.Spec.{
  LaunchSpec, Directory, directory, not_directory, unavailable, is_empty, stat_check,
  validate_launch_spec,
}
use millstrand.Custody.Parse.{
  Item, text_item, other_item, Any, nil, string, array, strings, object, other, string_map,
  LaunchSpecError, is_field, require, argv_values, argument, arguments, parse_argv, parse_cwd,
  env_value, env_entries, parse_env, parse_stdin, parse_launch_spec,
}

argument-is_blank : (v : Item) (a : Str) → argument v ≡ ok a → is_blank a ≡ false
argument-is_blank other_item a h = cc
argument-is_blank (text_item s) a h = elim (Bool-cases (is_blank s)) [
  | inl e ↦ absurd (refused (rw e at h))
  | inr e ↦ rw (← ok-injective (rw e at h)) e
]
  where
    refused : {e : LaunchSpecError} → ◌≡◌ {A = Result LaunchSpecError Str} (err e) (ok a) → ⊥
    refused q = cc

arguments-is_blank :
    (vs : List Item) (argv : List Str) → arguments vs ≡ ok argv → any is_blank argv ≡ false
unfolding arguments any
arguments-is_blank [] argv h = rw (← ok-injective h) refl
arguments-is_blank (v ∷ vs) argv h =
    let (a, one, after) = >>=-eq-ok (argument v) _ h in
    let (rest, two, last) = >>=-eq-ok (arguments vs) _ after in
    rw (← ok-injective last, argument-is_blank v a one) (arguments-is_blank vs rest two)

parse_argv-fit :
    (vs : List Item) (argv : List Str)
    → parse_argv vs ≡ ok argv
    → (is_empty argv ≡ false) × (any is_blank argv ≡ false)
unfolding arguments
parse_argv-fit [] argv h = cc
parse_argv-fit (v ∷ vs) argv h =
    let (a, one, after) = >>=-eq-ok (argument v) _ h in
    let (rest, two, last) = >>=-eq-ok (arguments vs) _ after in
    (rw (← ok-injective last) refl, arguments-is_blank (v ∷ vs) argv h)

parse_cwd-fit :
    (o : Option Any) (cwd : Str)
    → parse_cwd o ≡ ok cwd
    → (str_eq cwd [] || not (is_abs cwd)) ≡ false
unfolding str_eq is_abs has_prefix
parse_cwd-fit (some (string [])) cwd h = cc
parse_cwd-fit (some (string (c ∷ s))) cwd h =
    elim (Bool-cases (not (is_abs (c ∷ s)) || is_blank (c ∷ s))) [
      | inl e ↦ absurd (refused (rw e at h))
      | inr e ↦ rw (← ok-injective (rw e at h)) (ground arith)
    ]
  where
    refused : {e : LaunchSpecError} → ◌≡◌ {A = Result LaunchSpecError Str} (err e) (ok cwd) → ⊥
    refused q = cc
parse_cwd-fit _ cwd h = cc

env_entries-is_blank :
    (entries : List (Str × Item)) (env : List (Str × Str))
    → env_entries entries ≡ ok env
    → any is_blank (keys env) ≡ false
unfolding env_entries any keys
env_entries-is_blank [] env h = rw (← ok-injective h) refl
env_entries-is_blank ((key, v) ∷ entries) env h =
    let (u, one, after) = >>=-eq-ok (require (not (is_blank key)) _) _ h in
    let (value, two, later) = >>=-eq-ok (env_value v) _ after in
    let (rest, three, last) = >>=-eq-ok (env_entries entries) _ later in
    rw (← ok-injective last, not_blank (is_blank key) _ u one)
      (env_entries-is_blank entries rest three)
  where
    not_blank :
        (b : Bool) (e : LaunchSpecError) (u : Unit {0}) → require (not b) e ≡ ok u → b ≡ false
    not_blank true e u q = cc
    not_blank false e u q = refl

parse_env-is_blank :
    (o : Option Any) (env : List (Str × Str))
    → parse_env o ≡ ok env
    → any is_blank (keys env) ≡ false
unfolding any keys
parse_env-is_blank none env h = rw (← ok-injective h) refl
parse_env-is_blank (some (object entries)) env h = env_entries-is_blank entries env h
parse_env-is_blank (some (string_map entries)) env h = env_entries-is_blank _ env h
parse_env-is_blank (some nil) env h = cc
parse_env-is_blank (some (string s)) env h = cc
parse_env-is_blank (some (array items)) env h = cc
parse_env-is_blank (some (strings items)) env h = cc
parse_env-is_blank (some other) env h = cc

-- What `ParseLaunchSpec` returns passes every check of a launch but the look at its directory.
pub parse_launch_spec-validate_launch_spec :
    (value : Option (List (Str × Any))) (spec : LaunchSpec) (stat : Str → Directory)
    → parse_launch_spec value ≡ ok spec
    → validate_launch_spec stat spec ≡ stat_check (stat spec.cwd)
unfolding parse_launch_spec validate_launch_spec
parse_launch_spec-validate_launch_spec none spec stat h = cc
parse_launch_spec-validate_launch_spec (some value) spec stat h =
    let (u, one, h1) =
      >>=-eq-ok (require (not (any (λ key. not (is_field key)) (keys value))) _) _ h in
    let (argv, two, h2) = >>=-eq-ok (parse_argv (argv_values (lookup (text "argv") value))) _ h1 in
    let (cwd, three, h3) = >>=-eq-ok (parse_cwd (lookup (text "cwd") value)) _ h2 in
    let (env, four, h4) = >>=-eq-ok (parse_env (lookup (text "env") value)) _ h3 in
    let (stdin, five, h5) = >>=-eq-ok (parse_stdin (lookup (text "stdin") value)) _ h4 in
    let (filled, words) = parse_argv-fit _ argv two in
    rw (← ok-injective h5, filled, parse_cwd-fit _ cwd three, words, parse_env-is_blank _ env four)
      (checked (stat cwd))
  where
    checked : (d : Directory) → (stat_check d >> ok tt) ≡ stat_check d
    checked directory = refl
    checked not_directory = refl
    checked unavailable = refl

-- ===== src/Mill/Grouping.antt =====
-- Which jobs a starting mill makes of the registrations (cli/cmd/mill/autostart.go).
use millstrand.Base.{
  Str, str_eq, str_eq→eq, str_eq_refl, ◌≡◌, ◌⊎◌, inl, inr, refl, sym, ◌∙◌, ap, Bool, true, false,
  Bool-cases, Option-cases, Option, none, some, some_cancel, List, [], ◌∷◌, if◌then◌else◌, lookup,
  put, lookup-put, In, here, there, In-cases,
}
use millstrand.Mill.Autostart.{
  Registration, StartConfig, AutostartStore, Surroundings, remove_autostart, group_key, Grouping,
  keep_first, opt_out, group_entry, group_entries,
}

-- A workspace that is to be started, by the key of its host.
abbrev pub job_key : Registration → Option StartConfig → Option Str
job_key entry none = none
job_key entry (some config) =
    if config.auto_start then some (group_key entry config.jvm_pool) else none

abbrev pub has_job_key : Str → Option Str → Bool
has_job_key key none = false
has_job_key key (some k) = str_eq key k

-- The first registration of a host, of those that are to be started.
unfoldable pub first_of : Surroundings → Str → List Registration → Option Registration
first_of s key [] = none
first_of s key (entry ∷ entries) =
    if has_job_key key (job_key entry (s.load entry.config_dir))
    then some entry
    else first_of s key entries

abbrev pub or_first : Option Registration → Option Registration → Option Registration
or_first (some a) o = some a
or_first none o = o

module _ (s : Surroundings) where
  keep_first_here :
      (key : Str) (entry : Registration) (g : Grouping)
      → lookup key (keep_first key entry g).grouped ≡ or_first (lookup key g.grouped) (some entry)
  keep_first_here key entry g = elim (Option-cases (lookup key g.grouped)) [
    | inl e ↦ simp (e, lookup-put key key entry g.grouped, str_eq_refl key) refl
    | inr (first, e) ↦ simp e refl
  ]

  or_first-none : (o : Option Registration) → o ≡ or_first o none
  or_first-none none = refl
  or_first-none (some a) = refl

  keep_first-lookup :
      (k key : Str) (entry : Registration) (g : Grouping)
      → lookup k (keep_first key entry g).grouped
        ≡ or_first (lookup k g.grouped) (if str_eq k key then some entry else none)
  keep_first-lookup k key entry g = elim (Bool-cases (str_eq k key)) [
    | inl q ↦ rw (q, str_eq→eq k key q) (keep_first_here key entry g)
    | inr q ↦ elim (Option-cases (lookup key g.grouped)) [
      | inl e ↦ simp (e, lookup-put key k entry g.grouped, q) (or_first-none (lookup k g.grouped))
      | inr (first, e) ↦ simp (e, q) (or_first-none (lookup k g.grouped))
    ]
  ]

  pub opt_out-grouped :
      (entry : Registration) (o : Option AutostartStore) (g : Grouping)
      → (opt_out entry o g).grouped ≡ g.grouped
  opt_out-grouped entry none g = refl
  opt_out-grouped entry (some store) g = refl

  group_entry-lookup :
      (k : Str) (entry : Registration) (o : Option StartConfig) (g : Grouping)
      → lookup k (group_entry s entry o g).grouped
        ≡ or_first
            (lookup k g.grouped)
            (if has_job_key k (job_key entry o) then some entry else none)
  group_entry-lookup k entry none g = or_first-none (lookup k g.grouped)
  group_entry-lookup k entry (some config) g = elim (Bool-cases config.auto_start) [
    | inl e ↦ simp e (keep_first-lookup k (group_key entry config.jvm_pool) entry g)
    | inr e ↦
        simp (e, opt_out-grouped entry (remove_autostart s entry.config_dir g.store) g)
          (or_first-none (lookup k g.grouped))
  ]

  or_first_if :
      (a b : Option Registration) (t : Bool) (entry : Registration)
      → or_first (or_first a (if t then some entry else none)) b
        ≡ or_first a (if t then some entry else b)
  or_first_if none b true entry = refl
  or_first_if none b false entry = refl
  or_first_if (some x) b t entry = refl

  pub group_entries-lookup :
      (k : Str) (entries : List Registration) (g : Grouping)
      → lookup k (group_entries s entries g).grouped
        ≡ or_first (lookup k g.grouped) (first_of s k entries)
  unfolding group_entries first_of
  group_entries-lookup k [] g = or_first-none (lookup k g.grouped)
  group_entries-lookup k (entry ∷ entries) g =
      group_entries-lookup k entries (group_entry s entry (s.load entry.config_dir) g)
      ∙ (rw (group_entry-lookup k entry (s.load entry.config_dir) g) (
          or_first_if (lookup k g.grouped) (first_of s k entries)
            (has_job_key k (job_key entry (s.load entry.config_dir))) entry))

-- Each entry is what its key reads.
abbrev pub IsMap : List (Str × Registration) → Type 0
IsMap entries = (k : Str) (r : Registration) → In (k, r) entries → lookup k entries ≡ some r

pub In-put :
    (k key : Str) (r entry : Registration) (entries : List (Str × Registration))
    → In (k, r) (put key entry entries)
    → In (k, r) entries ⊎ ((k ≡ key) × (r ≡ entry))
unfolding put
In-put k key r entry [] i = elim (In-cases i) [
  | inl e ↦ inr (ap (λ p. p.0) e, ap (λ p. p.1) e)
  | inr j ↦ elim j [ ]
]
In-put k key r entry ((x, a) ∷ entries) i = elim (Bool-cases (str_eq key x)) [
  | inl q ↦ elim (In-cases (rw q at i)) [
    | inl e ↦ inr (ap (λ p. p.0) e ∙ sym (str_eq→eq key x q), ap (λ p. p.1) e)
    | inr j ↦ inl (there j)
  ]
  | inr q ↦ elim (In-cases (rw q at i)) [
    | inl e ↦ inl (here e)
    | inr j ↦ elim (In-put k key r entry entries j) [ inl m ↦ inl (there m) | inr e ↦ inr e ]
  ]
]

pub put-IsMap :
    (key : Str) (entry : Registration) (entries : List (Str × Registration))
    → lookup key entries ≡ none
    → IsMap entries
    → IsMap (put key entry entries)
put-IsMap key entry entries free u k r i = elim (In-put k key r entry entries i) [
  | inr (e, f) ↦ rw (e, f, lookup-put key key entry entries, str_eq_refl key) refl
  | inl j ↦ elim (Bool-cases (str_eq k key)) [
    | inl q ↦
        let one = u k r j in let two : lookup k entries ≡ none = rw (str_eq→eq k key q) free in cc
    | inr q ↦ rw (lookup-put key k entry entries, q) (u k r j)
  ]
]

pub lookup-In :
    (k : Str) (r : Registration) (entries : List (Str × Registration))
    → lookup k entries ≡ some r
    → In (k, r) entries
unfolding lookup
lookup-In k r [] h = cc
lookup-In k r ((x, a) ∷ entries) h = elim (Bool-cases (str_eq k x)) [
  | inl q ↦ let one : a ≡ r = some_cancel (rw q at h) in here (rw (str_eq→eq k x q, one) refl)
  | inr q ↦ there (lookup-In k r entries (rw q at h))
]

-- ===== src/Mill/Grouped.antt =====
-- What the grouping of the registrations holds (cli/cmd/mill/autostart.go).
use millstrand.Base.{
  Str, str_eq, str_eq→eq, str_eq_refl, ◌≡◌, inl, inr, refl, sym, ap, ◌∙◌, subst, true, false,
  Bool-cases, Option-cases, Option, none, some, List, [], ◌∷◌, map, lookup, put, In, here, there,
  In-map, In-of_map,
}
use millstrand.Mill.Autostart.{
  Registration, StartConfig, Surroundings, remove_autostart, group_key, Grouping, group_entry,
  group_entries,
}
use millstrand.Mill.Grouping.{job_key, has_job_key, IsMap, In-put, put-IsMap, opt_out-grouped}
use millstrand.Mill.JobOrder.{Apart}

module _ (s : Surroundings) where
  -- Each entry stands under the key of its registration.
  abbrev pub Keyed : List (Str × Registration) → Type 0
  Keyed entries =
      (k : Str) (r : Registration)
      → In (k, r) entries
      → has_job_key k (job_key r (s.load r.config_dir)) ≡ true

  abbrev pub IsGrouped : List (Str × Registration) → Type 0
  IsGrouped entries = IsMap entries × Keyed entries × Apart (map (λ e. e.1) entries)

  job_key-dir :
      (a b : Registration) (o : Option StartConfig)
      → a.config_dir ≡ b.config_dir
      → job_key a o ≡ job_key b o
  job_key-dir a b none q = refl
  job_key-dir a b (some config) q = elim (Bool-cases config.auto_start) [
    | inl e ↦ simp e (ap some (key_of config.jvm_pool))
    | inr e ↦ simp e refl
  ]
    where
      key_of : (p : Option Str) → group_key a p ≡ group_key b p
      key_of none = rw q refl
      key_of (some pool) = refl

  Apart-put :
      (key : Str) (entry : Registration) (entries : List (Str × Registration))
      → lookup key entries ≡ none
      → ((k : Str) (x : Registration)
          → In (k, x) entries
          → str_eq entry.config_dir x.config_dir ≡ false)
      → Apart (map (λ e. e.1) entries)
      → Apart (map (λ e. e.1) (put key entry entries))
  unfolding lookup put
  Apart-put key entry [] free new apart = (λ x i. elim i [ ], tt)
  Apart-put key entry ((k, a) ∷ entries) free new (low, apart) = elim (Bool-cases (str_eq key k)) [
    | inl q ↦ absurd (taken (rw q at free))
    | inr q ↦ rw q (
      λ x i.
          let ((k', y), j, e) =
            In-of_map (λ (p : Str × Registration). p.1) x (put key entry entries) i in
          elim (In-put k' key y entry entries j) [
            | inl m ↦ low x (
                subst (λ r. In r (map (λ p. p.1) entries)) (sym e)
                  (In-map (λ (p : Str × Registration). p.1) (k', y) entries m))
            | inr (_, f) ↦
                subst (λ (r : Registration). str_eq r.config_dir a.config_dir ≡ false) (sym (e ∙ f))
                  (new k a (here refl))
          ],
      Apart-put key entry entries (rw q at free) (λ h x i. new h x (there i)) apart,
    )
  ]
    where
      taken : some a ≡ none → ⊥
      taken q = cc

  -- A registration under a key that is not taken has a directory of its own.
  new_dir :
      (entry : Registration) (entries : List (Str × Registration)) (key : Str)
      → job_key entry (s.load entry.config_dir) ≡ some key
      → lookup key entries ≡ none
      → IsMap entries
      → Keyed entries
      → (k : Str) (x : Registration) → In (k, x) entries
      → str_eq entry.config_dir x.config_dir ≡ false
  new_dir entry entries key made free u keyed k x i =
      elim (Bool-cases (str_eq entry.config_dir x.config_dir)) [
        | inr e ↦ e
        | inl e ↦
            let same : entry.config_dir ≡ x.config_dir =
              str_eq→eq entry.config_dir x.config_dir e in
            let its : job_key x (s.load x.config_dir) ≡ some key =
              subst (λ d. job_key x (s.load d) ≡ some key) same
                (sym (job_key-dir entry x (s.load entry.config_dir) same) ∙ made) in
            let one : str_eq k key ≡ true = subst (λ o. has_job_key k o ≡ true) its (keyed k x i) in
            let found : lookup key entries ≡ some x =
              subst (λ h. lookup h entries ≡ some x) (str_eq→eq k key one) (u k x i) in
            absurd (clash free found)
      ]
    where
      clash : {o : Option Registration} {r : Registration} → o ≡ none → o ≡ some r → ⊥
      clash p q = cc

  put-IsGrouped :
      (entry : Registration) (entries : List (Str × Registration)) (key : Str)
      → job_key entry (s.load entry.config_dir) ≡ some key
      → lookup key entries ≡ none
      → IsGrouped entries
      → IsGrouped (put key entry entries)
  put-IsGrouped entry entries key made free (u, keyed, apart) = (
    put-IsMap key entry entries free u,
    λ k r i. elim (In-put k key r entry entries i) [
      | inl j ↦ keyed k r j
      | inr (e, f) ↦
          subst (λ (x : Registration). has_job_key k (job_key x (s.load x.config_dir)) ≡ true)
            (sym f) (rw (made, e) (str_eq_refl key))
    ],
    Apart-put key entry entries free (new_dir entry entries key made free u keyed) apart,
  )

  group_entry-IsGrouped :
      (entry : Registration) (o : Option StartConfig) (g : Grouping)
      → s.load entry.config_dir ≡ o
      → IsGrouped g.grouped
      → IsGrouped (group_entry s entry o g).grouped
  group_entry-IsGrouped entry none g l u = u
  group_entry-IsGrouped entry (some config) g l u = elim (Bool-cases config.auto_start) [
    | inr e ↦ simp (e, opt_out-grouped s entry (remove_autostart s entry.config_dir g.store) g) u
    | inl e ↦ elim (Option-cases (lookup (group_key entry config.jvm_pool) g.grouped)) [
      | inl free ↦
          simp (e, free)
            (put-IsGrouped entry g.grouped (group_key entry config.jvm_pool) (rw (l, e) refl) free
              u)
      | inr (first, taken) ↦ simp (e, taken) u
    ]
  ]

  pub group_entries-IsGrouped :
      (entries : List Registration) (g : Grouping)
      → IsGrouped g.grouped
      → IsGrouped (group_entries s entries g).grouped
  unfolding group_entries
  group_entries-IsGrouped [] g u = u
  group_entries-IsGrouped (entry ∷ entries) g u =
      group_entries-IsGrouped entries (group_entry s entry (s.load entry.config_dir) g)
        (group_entry-IsGrouped entry (s.load entry.config_dir) g refl u)

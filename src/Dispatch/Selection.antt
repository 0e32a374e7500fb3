-- ===== src/Dispatch/Selection.antt =====
-- The precedence of the flags that select a context (cli/internal/dispatch/dispatch.go).
use millstrand.Base.{
  Str, str_eq, str_eq→eq, str_eq_iff, ◌≡◌, ◌≢◌, refl, sym, ap, ◌∙◌, ◌↔◌, ◌⊎◌, inl, inr, false,
  Bool-cases, Option, none, some, [], if◌then◌else◌, Result, ok, err, ok-injective, >>=-eq-ok,
  subst, ◌>>=◌, arith,
}
use millstrand.Dispatch.Args.{Parsed}
use millstrand.Dispatch.Envelope.{
  World, Context, ContextError, no_git_context, or_derived, derived_context, context_at,
  cwd_or_error, resolve_context,
}
use millstrand.Dispatch.Outcomes.{Result-cases}

-- The working directory that the context starts from.
abbrev pub start : World → Parsed → Result ContextError Str
start w p = if str_eq p.cwd [] then cwd_or_error w.getwd else ok p.cwd

-- A context that keeps what the flags give, from a directory.
abbrev pub Kept : World → Parsed → Str → Context → Type 0
Kept w p cwd c =
    (c.cwd ≡ cwd)
    × (p.worktree_root ≢ [] → c.worktree_root ≡ p.worktree_root)
    × (p.git_common_dir ≢ [] → c.git_common_dir ≡ p.git_common_dir)
    × (((root : Str) × (common : Str) × (w.derive_git_context cwd ≡ some (root, common))
          × (c.worktree_root ≡ or_derived p.worktree_root root)
          × (c.git_common_dir ≡ or_derived p.git_common_dir common))
        ⊎ ((c.worktree_root ≡ p.worktree_root)
            × (c.git_common_dir ≡ p.git_common_dir)
            × (((p.worktree_root ≢ []) × (p.git_common_dir ≢ [])) ⊎ (p.workspace ≢ []))))

ne_nil : (s : Str) → str_eq s [] ≡ false → s ≢ []
ne_nil s h = λ e. ground (arith, str_eq_iff s [])

or_derived-ne : (s t : Str) → s ≢ [] → or_derived s t ≡ s
or_derived-ne s t n = elim (Bool-cases (str_eq s [])) [
  | inl e ↦ absurd (n (str_eq→eq s [] e))
  | inr e ↦ rw e refl
]

derived-Kept :
    (w : World) (p : Parsed) (cwd : Str) (o : Option (Str × Str)) (c : Context)
    → w.derive_git_context cwd ≡ o
    → derived_context p cwd o ≡ ok c
    → Kept w p cwd c
derived-Kept w p cwd (some (root, common)) c d h = subst (Kept w p cwd) (ok-injective h) (
  refl,
  λ n. or_derived-ne p.worktree_root root n,
  λ n. or_derived-ne p.git_common_dir common n,
  inl (root, common, d, refl, refl),
)
derived-Kept w p cwd none c d h = elim (Bool-cases (str_eq p.workspace [])) [
  | inl e ↦ elim (Bool-cases (str_eq p.worktree_root [])) [
    | inl a ↦ absurd (ground arith)
    | inr a ↦ elim (Bool-cases (str_eq p.git_common_dir [])) [
      | inl b ↦ absurd (ground arith)
      | inr b ↦ subst (Kept w p cwd) (ok-injective (rw (e, a, b) at h)) (
        refl,
        λ n. refl,
        λ n. refl,
        inr (refl, refl, inl (ne_nil p.worktree_root a, ne_nil p.git_common_dir b)),
      )
    ]
  ]
  | inr e ↦
      subst (Kept w p cwd) (ok-injective (rw e at h))
        (refl, λ n. refl, λ n. refl, inr (refl, refl, inr (ne_nil p.workspace e)))
]

context_at-Kept :
    (w : World) (p : Parsed) (cwd : Str) (c : Context) → context_at w p cwd ≡ ok c → Kept w p cwd c
context_at-Kept w p cwd c h = elim (Bool-cases (str_eq p.worktree_root [])) [
  | inl a ↦ derived-Kept w p cwd (w.derive_git_context cwd) c refl (rw a at h)
  | inr a ↦ elim (Bool-cases (str_eq p.git_common_dir [])) [
    | inl b ↦ derived-Kept w p cwd (w.derive_git_context cwd) c refl (rw (a, b) at h)
    | inr b ↦ subst (Kept w p cwd) (ok-injective (rw (a, b) at h)) (
      refl,
      λ n. refl,
      λ n. refl,
      inr (refl, refl, inl (ne_nil p.worktree_root a, ne_nil p.git_common_dir b)),
    )
  ]
]

-- A context that resolves starts from the given or the process's directory and keeps what the
-- flags give; what they leave out is the repository's, or stays out where no repository is found
-- and a workspace is given.
pub resolve_context-Kept :
    (w : World) (p : Parsed) (c : Context)
    → resolve_context w p ≡ ok c
    → (cwd : Str) × (start w p ≡ ok cwd) × Kept w p cwd c
unfolding resolve_context
resolve_context-Kept w p c h =
    let (cwd, e, k) = >>=-eq-ok (start w p) (context_at w p) h in
    (cwd, e, context_at-Kept w p cwd c k)

no_git_of_derived :
    (p : Parsed) (cwd : Str) (o : Option (Str × Str))
    → derived_context p cwd o ≡ err no_git_context
    → (o ≡ none) × (p.workspace ≡ [])
no_git_of_derived p cwd none h = elim (Bool-cases (str_eq p.workspace [])) [
  | inl e ↦ (refl, str_eq→eq p.workspace [] e)
  | inr e ↦ absurd (ground arith)
]
no_git_of_derived p cwd (some d) h = cc

no_git_of_context :
    (w : World) (p : Parsed) (cwd : Str)
    → context_at w p cwd ≡ err no_git_context
    → (w.derive_git_context cwd ≡ none)
      × (p.workspace ≡ [])
      × ((p.worktree_root ≡ []) ⊎ (p.git_common_dir ≡ []))
no_git_of_context w p cwd h = elim (Bool-cases (str_eq p.worktree_root [])) [
  | inl a ↦
      let (d, e) = no_git_of_derived p cwd (w.derive_git_context cwd) (rw a at h) in
      (d, e, inl (str_eq→eq p.worktree_root [] a))
  | inr a ↦ elim (Bool-cases (str_eq p.git_common_dir [])) [
    | inl b ↦
        let (d, e) = no_git_of_derived p cwd (w.derive_git_context cwd) (rw (a, b) at h) in
        (d, e, inr (str_eq→eq p.git_common_dir [] b))
    | inr b ↦ absurd (ground arith)
  ]
]

start_known : (w : World) (p : Parsed) → start w p ≢ err no_git_context
start_known w p h = ground arith

-- The context fails for want of a repository exactly when the directory is known, a git flag is
-- missing, none is derived, and no workspace is given.
resolve_context-no_git :
    (w : World) (p : Parsed)
    → (resolve_context w p ≡ err no_git_context) ↔ (
        (cwd : Str) × (start w p ≡ ok cwd)
        × (w.derive_git_context cwd ≡ none)
        × (p.workspace ≡ [])
        × ((p.worktree_root ≡ []) ⊎ (p.git_common_dir ≡ [])))
unfolding resolve_context
resolve_context-no_git w p = (forth, back)
  where
    forth :
        resolve_context w p ≡ err no_git_context
        → (cwd : Str) × (start w p ≡ ok cwd)
          × (w.derive_git_context cwd ≡ none)
          × (p.workspace ≡ [])
          × ((p.worktree_root ≡ []) ⊎ (p.git_common_dir ≡ []))
    forth h = elim (Result-cases (start w p)) [
      | inl (cwd, s) ↦
          let (d, e, missing) =
            no_git_of_context w p cwd
              (sym (ap (λ (m : Result ContextError Str). m >>= context_at w p) s) ∙ h) in
          (cwd, s, d, e, missing)
      | inr (x, s) ↦ absurd (
          start_known w p
            (cc (s, sym (ap (λ (m : Result ContextError Str). m >>= context_at w p) s) ∙ h)))
    ]

    back :
        (cwd : Str) × (start w p ≡ ok cwd)
          × (w.derive_git_context cwd ≡ none)
          × (p.workspace ≡ [])
          × ((p.worktree_root ≡ []) ⊎ (p.git_common_dir ≡ []))
        → resolve_context w p ≡ err no_git_context
    back (cwd, s, d, e, missing) =
        ap (λ (m : Result ContextError Str). m >>= context_at w p) s
        ∙ ground (
          arith,
          d,
          missing,
          str_eq_iff p.worktree_root [],
          str_eq_iff p.git_common_dir [],
          str_eq_iff p.workspace [],
        )

-- ===== src/Custody/Invariant.antt =====
-- The invariant of the custody service, and what it keeps safe (cli/internal/process/custody.go).
use millstrand.Base.{
  ok, Str, str_eq, ◌≡◌, ◌⊎◌, inl, inr, refl, sym, subst, Bool, false, Bool-cases, Option-cases,
  none, some, some_cancel, List, [], ◌∷◌, map, lookup, erase, lookup-erase, arith, ◌&&◌,
}
use millstrand.Custody.Spec.{LaunchSpec}
use millstrand.Custody.Row.{
  Row, CancelTurn, returns, wrong_owner, awaits_reap, awaits_tree, terminates, is_terminal,
  cancel_enter, shutdown_enter, stopping,
}
use millstrand.Custody.Steps.{RowStep, runs, cancels, shuts, is_reaping, IsSound-unreaped}
use millstrand.Custody.Service.{
  Custody, Answers, launch, cancel_turned, cancel, acknowledge, shutdown,
}
use millstrand.Custody.Runs.{
  Step, launches, cancels_row, acknowledges, shuts_down, goes_on, Reach, start, later,
  empty_custody, Launched, nothing, adds, launch_lem,
}
use millstrand.Custody.Validity.{IsValid, IsOwned-step, replace-IsValid, admit-IsValid}

pub lookup-map :
    {A B : Type 0} (f : A → B) (key : Str) (entries : List (Str × A))
    → lookup key (map (λ e. (e.0, f e.1)) entries)
      ≡ elim (lookup key entries) [ none ↦ none | some a ↦ some (f a) ]
unfolding lookup
lookup-map f key [] = refl
lookup-map f key ((k, a) ∷ entries) = elim (Bool-cases (str_eq key k)) [
  | inl e ↦ rw e refl
  | inr e ↦ rw e (lookup-map f key entries)
]

-- A row after `shutdown` is one before it, entered.
pub lookup-shutdown :
    (c : Custody) (handle : Str) (t : Row)
    → lookup handle (shutdown c).0.by_handle ≡ some t
    → (r : Row) × (lookup handle c.by_handle ≡ some r) × (t ≡ (shutdown_enter r).0)
unfolding shutdown
lookup-shutdown c handle t h = elim (Option-cases (lookup handle c.by_handle)) [
  | inl e ↦
      let missing =
        rw (lookup-map (λ (r : Row). (shutdown_enter r).0) handle c.by_handle, e) at h in
      absurd (none_some missing)
  | inr (r, e) ↦
      let found = rw (lookup-map (λ (r : Row). (shutdown_enter r).0) handle c.by_handle, e) at h in
      (r, e, sym (some_cancel found))
]
  where
    none_some : none ≡ some t → ⊥
    none_some q = cc

module _ (fallible : Bool) where
  launch-IsValid :
      (sys : Answers) (owner key : Str) (spec : LaunchSpec) (c d : Custody)
      → Launched sys owner key spec c d
      → IsValid fallible c
      → IsValid fallible d
  launch-IsValid sys owner key spec c d (nothing e) v = subst (IsValid fallible) (sym e) v
  launch-IsValid sys owner key spec c d (adds handle e f g q) v =
      subst (IsValid fallible) (sym q) (admit-IsValid fallible sys owner key spec c handle g v)

  cancel_turned-IsValid :
      (c : Custody) (owner handle : Str) (r t : Row) (turn : CancelTurn)
      → lookup handle c.by_handle ≡ some r
      → RowStep fallible r t
      → IsValid fallible c
      → IsValid fallible (cancel_turned handle c (t, turn)).0
  cancel_turned-IsValid c owner handle r t wrong_owner found st v = v
  cancel_turned-IsValid c owner handle r t returns found st v =
      replace-IsValid fallible c handle r t found st v
  cancel_turned-IsValid c owner handle r t awaits_reap found st v =
      replace-IsValid fallible c handle r t found st v
  cancel_turned-IsValid c owner handle r t awaits_tree found st v =
      replace-IsValid fallible c handle r t found st v
  cancel_turned-IsValid c owner handle r t terminates found st v =
      replace-IsValid fallible c handle r t found st v

  cancel-IsValid :
      (owner handle : Str) (c : Custody)
      → IsValid fallible c
      → IsValid fallible (cancel owner handle c).0
  unfolding cancel
  cancel-IsValid owner handle c v = elim (Option-cases (lookup handle c.by_handle)) [
    | inl e ↦ simp e v
    | inr (r, e) ↦ simp e (
        cancel_turned-IsValid c owner handle r (cancel_enter owner r).0 (cancel_enter owner r).1 e
          (cancels r owner) v)
  ]

  pub acknowledge_cases :
      (owner handle : Str) (removed : Bool) (c : Custody)
      → ((acknowledge owner handle removed c).0 ≡ c)
        ⊎ (((acknowledge owner handle removed c).0
              ≡ record c { by_handle = erase handle c.by_handle })
            × ((acknowledge owner handle removed c).1 ≡ ok tt))
  unfolding acknowledge
  acknowledge_cases owner handle removed c = elim (Option-cases (lookup handle c.by_handle)) [
    | inl e ↦ inl (simp e refl)
    | inr (r, e) ↦ elim (Bool-cases (str_eq r.owner owner && is_terminal r.phase && removed)) [
      | inl q ↦ inr (ground arith, ground arith)
      | inr q ↦ inl (ground arith)
    ]
  ]

  erase-IsValid :
      (handle : Str) (c : Custody)
      → IsValid fallible c
      → IsValid fallible (record c { by_handle = erase handle c.by_handle })
  unfolding IsValid
  erase-IsValid handle c v x u h = elim (Bool-cases (str_eq x handle)) [
    | inl e ↦ absurd (none_some (rw (lookup-erase handle x c.by_handle, e) at h))
    | inr e ↦
        let o = v x u (rw (lookup-erase handle x c.by_handle, e) at h) in
        record { sound = o.sound; named = o.named; reserved = o.reserved }
  ]
    where
      none_some : none ≡ some u → ⊥
      none_some q = cc

  shutdown-IsValid : (c : Custody) → IsValid fallible c → IsValid fallible (shutdown c).0
  unfolding IsValid shutdown
  shutdown-IsValid c v x u h =
      let (r, found, same) = lookup-shutdown c x u h in
      rw same (
        IsOwned-step fallible c (shutdown c).0 x r (shutdown_enter r).0 refl (shuts r)
          (v x r found))

  pub Step-IsValid : {c d : Custody} → Step fallible c d → IsValid fallible c → IsValid fallible d
  Step-IsValid (launches sys owner key spec c fresh) v =
      launch-IsValid sys owner key spec c (launch sys owner key spec c).0
        (launch_lem sys owner key spec c) v
  Step-IsValid (cancels_row owner handle c) v = cancel-IsValid owner handle c v
  Step-IsValid (acknowledges owner handle removed c) v =
      elim (acknowledge_cases owner handle removed c) [
        | inl e ↦ subst (IsValid fallible) (sym e) v
        | inr (e, done) ↦ subst (IsValid fallible) (sym e) (erase-IsValid handle c v)
      ]
  Step-IsValid (shuts_down c) v = shutdown-IsValid c v
  Step-IsValid (goes_on handle r t c found st) v =
      replace-IsValid fallible c handle r t found (runs st) v

  Reach-IsValid_from :
      {c d : Custody} → Reach fallible c d → IsValid fallible c → IsValid fallible d
  Reach-IsValid_from start v = v
  Reach-IsValid_from (later r st) v = Step-IsValid st (Reach-IsValid_from r v)

empty_custody-IsValid : (fallible : Bool) → IsValid fallible empty_custody
unfolding IsValid lookup
empty_custody-IsValid fallible handle r h = absurd (none_some h)
  where
    none_some : none ≡ some r → ⊥
    none_some q = cc

-- In every run of the service each row stands under its handle, which its reservation names, and
-- its facts fit its phase.
pub Reach-IsValid :
    {fallible : Bool} {c : Custody} → Reach fallible empty_custody c → IsValid fallible c
Reach-IsValid {fallible} r = Reach-IsValid_from fallible r (empty_custody-IsValid fallible)

-- In every run in which the observers do not fail, no leader has been reaped while signals are
-- sent to its process group: the group's number cannot have been given to other processes.
pub Reach-unreaped :
    {c : Custody} (handle : Str) (r : Row)
    → Reach false empty_custody c
    → lookup handle c.by_handle ≡ some r
    → r.tree ≡ stopping
    → is_reaping r.waiter ≡ false
unfolding IsValid
Reach-unreaped handle r run found t = IsSound-unreaped r (Reach-IsValid run handle r found).sound t

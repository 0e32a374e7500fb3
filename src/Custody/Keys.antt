-- ===== src/Custody/Keys.antt =====
-- What outlives a call: reservations, terminal facts and the closing of the service
-- (cli/internal/process/custody.go).
use millstrand.Base.{
  Str, str_eq, str_eq→eq, ◌≡◌, inl, inr, refl, Bool, true, false, Bool-cases, Option-cases, none,
  some, lookup, put, lookup-put, erase,
}
use millstrand.Custody.Spec.{LaunchSpec}
use millstrand.Custody.Row.{
  Row, CancelTurn, returns, wrong_owner, awaits_reap, awaits_tree, terminates, cancel_enter,
}
use millstrand.Custody.Steps.{RowStep, runs, cancels}
use millstrand.Custody.Service.{
  Custody, Answers, admit, started, new_row, reservation, cancel_turned, cancel, shutdown,
}
use millstrand.Custody.Runs.{
  IsUnused, Step, launches, cancels_row, acknowledges, shuts_down, goes_on, Reach, start, later,
  Launched, nothing, adds, launch_lem,
}
use millstrand.Custody.Validity.{started-IsSame}
use millstrand.Custody.Invariant.{acknowledge_cases}

-- What a call of `cancel` leaves: the store, or the store with the row entered.
pub data Cancelled (owner handle : Str) (c : Custody) : Custody → Type 0 where
  kept : {d : Custody} → d ≡ c → Cancelled owner handle c d
  entered :
      {d : Custody} (r : Row)
      → lookup handle c.by_handle ≡ some r
      → d ≡ record c { by_handle = put handle (cancel_enter owner r).0 c.by_handle }
      → Cancelled owner handle c d

cancel_turned_lem :
    (owner handle : Str) (c : Custody) (r t : Row) (turn : CancelTurn)
    → lookup handle c.by_handle ≡ some r
    → (cancel_enter owner r).0 ≡ t
    → Cancelled owner handle c (cancel_turned handle c (t, turn)).0
cancel_turned_lem owner handle c r t wrong_owner e q = kept refl
cancel_turned_lem owner handle c r t returns e q = entered r e (rw q refl)
cancel_turned_lem owner handle c r t awaits_reap e q = entered r e (rw q refl)
cancel_turned_lem owner handle c r t awaits_tree e q = entered r e (rw q refl)
cancel_turned_lem owner handle c r t terminates e q = entered r e (rw q refl)

pub cancel_lem :
    (owner handle : Str) (c : Custody) → Cancelled owner handle c (cancel owner handle c).0
unfolding cancel
cancel_lem owner handle c = elim (Option-cases (lookup handle c.by_handle)) [
  | inl e ↦ simp e (kept refl)
  | inr (r, e) ↦
      simp e (
        cancel_turned_lem owner handle c r (cancel_enter owner r).0 (cancel_enter owner r).1 e refl)
]

-- What a step does to the rows and the rest of the store.
pub data Effect (fallible : Bool) (c : Custody) : Custody → Type 0 where
  same : {d : Custody} → d ≡ c → Effect fallible c d
  new :
      {d : Custody} (sys : Answers) (owner key : Str) (spec : LaunchSpec) (handle : Str)
      → IsUnused handle c
      → c.closed ≡ false
      → lookup (reservation owner key) c.reservations ≡ none
      → d ≡ (admit handle (started sys.start_fails (new_row handle owner key spec)) c).0
      → Effect fallible c d
  changes :
      {d : Custody} (handle : Str) (r t : Row)
      → lookup handle c.by_handle ≡ some r
      → RowStep fallible r t
      → d ≡ record c { by_handle = put handle t c.by_handle }
      → Effect fallible c d
  drops :
      {d : Custody} (handle : Str)
      → d ≡ record c { by_handle = erase handle c.by_handle }
      → Effect fallible c d
  closes : {d : Custody} → d ≡ (shutdown c).0 → Effect fallible c d

module _ {fallible : Bool} where
  launch-Effect :
      (sys : Answers) (owner key : Str) (spec : LaunchSpec) (c d : Custody)
      → ((handle : Str) → sys.new_handle ≡ some handle → IsUnused handle c)
      → Launched sys owner key spec c d
      → Effect fallible c d
  launch-Effect sys owner key spec c d fresh (nothing e) = same e
  launch-Effect sys owner key spec c d fresh (adds handle e f g q) =
      new sys owner key spec handle (fresh handle e) f g q

  cancel-Effect :
      (owner handle : Str) (c d : Custody) → Cancelled owner handle c d → Effect fallible c d
  cancel-Effect owner handle c d (kept e) = same e
  cancel-Effect owner handle c d (entered r e q) = changes handle r _ e (cancels r owner) q

  pub Step-Effect : {c d : Custody} → Step fallible c d → Effect fallible c d
  Step-Effect (launches sys owner key spec c fresh) =
      launch-Effect sys owner key spec c _ fresh (launch_lem sys owner key spec c)
  Step-Effect (cancels_row owner handle c) =
      cancel-Effect owner handle c _ (cancel_lem owner handle c)
  Step-Effect (acknowledges owner handle removed c) =
      elim (acknowledge_cases fallible owner handle removed c) [
        | inl e ↦ same e
        | inr (e, done) ↦ drops handle e
      ]
  Step-Effect (shuts_down c) = closes refl
  Step-Effect (goes_on handle r t c found st) = changes handle r t found (runs st) refl

  -- A reservation is never given up.
  pub Effect-reservation :
      {c d : Custody} (k handle : Str)
      → Effect fallible c d
      → lookup k c.reservations ≡ some handle
      → lookup k d.reservations ≡ some handle
  unfolding shutdown
  Effect-reservation k handle (same e) h = rw e h
  Effect-reservation {c} k handle (new sys owner key spec x unused open_now free e) h =
      let r : Row = started sys.start_fails (new_row x owner key spec) in
      let s = started-IsSame fallible sys.start_fails (new_row x owner key spec) in
      let named : reservation r.owner r.key ≡ reservation owner key = rw (s.owner, s.key) refl in
      elim (Bool-cases (str_eq k (reservation r.owner r.key))) [
        | inl q ↦
            let absent : lookup k c.reservations ≡ none =
              rw (str_eq→eq k (reservation r.owner r.key) q, named) free in
            cc
        | inr q ↦ rw (e, lookup-put (reservation r.owner r.key) k x c.reservations, q) h
      ]
  Effect-reservation k handle (changes x r t found st e) h = rw e h
  Effect-reservation k handle (drops x e) h = rw e h
  Effect-reservation k handle (closes e) h = rw e h

  pub Reach-reservation :
      {c d : Custody} (k handle : Str)
      → Reach fallible c d
      → lookup k c.reservations ≡ some handle
      → lookup k d.reservations ≡ some handle
  Reach-reservation k handle start h = h
  Reach-reservation k handle (later run st) h =
      Effect-reservation k handle (Step-Effect st) (Reach-reservation k handle run h)

  -- Once the service is closed it stays so.
  pub Effect-closed : {c d : Custody} → Effect fallible c d → c.closed ≡ true → d.closed ≡ true
  unfolding shutdown
  Effect-closed (same e) h = rw e h
  Effect-closed (new sys owner key spec x unused open_now free e) h = rw e h
  Effect-closed (changes x r t found st e) h = rw e h
  Effect-closed (drops x e) h = rw e h
  Effect-closed (closes e) h = rw e refl

  pub Reach-closed : {c d : Custody} → Reach fallible c d → c.closed ≡ true → d.closed ≡ true
  Reach-closed start h = h
  Reach-closed (later run st) h = Effect-closed (Step-Effect st) (Reach-closed run h)

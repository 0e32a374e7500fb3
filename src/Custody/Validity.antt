-- ===== src/Custody/Validity.antt =====
-- What holds of the custody store in every run (cli/internal/process/custody.go).
use millstrand.Base.{
  Str, str_eq, str_eq→eq, str_eq_refl, ◌≡◌, inl, inr, refl, ◌∙◌, Bool, true, false, Bool-cases,
  Option, none, some, some_cancel, lookup, put, lookup-put, arith,
}
use millstrand.Custody.Spec.{LaunchSpec}
use millstrand.Custody.Row.{Row, cancel_enter, shutdown_enter}
use millstrand.Custody.Steps.{
  begins, observes, releases, reaps, stops, RowStep, runs, cancels, shuts, IsSound, RowStep-IsSound,
}
use millstrand.Custody.Service.{Custody, Answers, reservation, new_row, started, admit}

-- The row is what it is called, and its reservation is its own.
pub record IsOwned (fallible : Bool) (c : Custody) (handle : Str) (r : Row) : Type 0 where
  pub sound : IsSound fallible r
  pub named : r.handle ≡ handle
  pub reserved : lookup (reservation r.owner r.key) c.reservations ≡ some handle

unfoldable pub IsValid : Bool → Custody → Type 0
IsValid fallible c =
    (handle : Str) (r : Row) → lookup handle c.by_handle ≡ some r → IsOwned fallible c handle r

-- What no section changes.
pub record IsSame (r t : Row) : Type 0 where
  pub handle : t.handle ≡ r.handle
  pub owner : t.owner ≡ r.owner
  pub key : t.key ≡ r.key
  pub spec : t.spec ≡ r.spec

pub RowStep-IsSame : {fallible : Bool} {r t : Row} → RowStep fallible r t → IsSame r t
unfolding cancel_enter shutdown_enter
RowStep-IsSame (runs (begins r w)) = ground arith
RowStep-IsSame (runs (observes r true w f)) = ground arith
RowStep-IsSame (runs (observes r false w f)) = ground arith
RowStep-IsSame (runs (releases r failed w t)) = ground arith
RowStep-IsSame (runs (reaps r failed state wait_fails close_fails w)) = ground arith
RowStep-IsSame (runs (stops r k t)) = ground arith
RowStep-IsSame (cancels r owner) = ground arith
RowStep-IsSame (shuts r) = ground arith

module _ (fallible : Bool) where
  pub IsOwned-step :
      (c d : Custody) (handle : Str) (r t : Row)
      → d.reservations ≡ c.reservations
      → RowStep fallible r t
      → IsOwned fallible c handle r
      → IsOwned fallible d handle t
  IsOwned-step c d handle r t same st o =
      let s = RowStep-IsSame st in
      record {
        sound = RowStep-IsSound fallible st o.sound;
        named = s.handle ∙ o.named;
        reserved = rw (same, s.owner, s.key) o.reserved;
      }

  pub replace-IsValid :
      (c : Custody) (handle : Str) (r t : Row)
      → lookup handle c.by_handle ≡ some r
      → RowStep fallible r t
      → IsValid fallible c
      → IsValid fallible (record c { by_handle = put handle t c.by_handle })
  unfolding IsValid
  replace-IsValid c handle r t found st v x u h = elim (Bool-cases (str_eq x handle)) [
    | inl e ↦
        let same : t ≡ u = some_cancel (rw (lookup-put handle x t c.by_handle, e) at h) in
        rw (← same, str_eq→eq x handle e)
          (IsOwned-step c (record c { by_handle = put handle t c.by_handle }) handle r t refl st
            (v handle r found))
    | inr e ↦
        let o = v x u (rw (lookup-put handle x t c.by_handle, e) at h) in
        record { sound = o.sound; named = o.named; reserved = o.reserved }
  ]

  started-IsSound :
      (o : Option Str) (handle owner key : Str) (spec : LaunchSpec)
      → IsSound fallible (started o (new_row handle owner key spec))
  unfolding str_eq
  started-IsSound none handle owner key spec = ground arith
  started-IsSound (some message) handle owner key spec = ground arith

  pub started-IsSame : (o : Option Str) (r : Row) → IsSame r (started o r)
  started-IsSame none r = ground arith
  started-IsSame (some message) r = ground arith

  pub admit-IsValid :
      (sys : Answers) (owner key : Str) (spec : LaunchSpec) (c : Custody) (handle : Str)
      → lookup (reservation owner key) c.reservations ≡ none
      → IsValid fallible c
      → IsValid fallible
          (admit handle (started sys.start_fails (new_row handle owner key spec)) c).0
  unfolding IsValid
  admit-IsValid sys owner key spec c handle free v x u h =
      let r : Row = started sys.start_fails (new_row handle owner key spec) in
      let s = started-IsSame sys.start_fails (new_row handle owner key spec) in
      elim (Bool-cases (str_eq x handle)) [
        | inl e ↦
            let same : r ≡ u = some_cancel (rw (lookup-put handle x r c.by_handle, e) at h) in
            rw (← same, str_eq→eq x handle e)
              (record {
                sound = started-IsSound sys.start_fails handle owner key spec;
                named = s.handle;
                reserved =
                    rw
                      (
                        lookup-put (reservation r.owner r.key) (reservation r.owner r.key) handle
                            c.reservations,
                        str_eq_refl (reservation r.owner r.key),
                      )
                      refl;
              })
        | inr e ↦
            let o = v x u (rw (lookup-put handle x r c.by_handle, e) at h) in
            record {
              sound = o.sound;
              named = o.named;
              reserved =
                  elim (Bool-cases
                    (str_eq (reservation u.owner u.key) (reservation r.owner r.key))) [
                      | inl q ↦
                          let one =
                            str_eq→eq (reservation u.owner u.key) (reservation r.owner r.key) q in
                          let two : reservation r.owner r.key ≡ reservation owner key =
                            rw (s.owner, s.key) refl in
                          let absent : lookup (reservation u.owner u.key) c.reservations ≡ none =
                            rw (one, two) free in
                          let present = o.reserved in cc
                      | inr q ↦
                          rw
                            (
                              lookup-put (reservation r.owner r.key) (reservation u.owner u.key)
                                  handle c.reservations,
                              q,
                            )
                            (o.reserved)
                    ];
            }
      ]

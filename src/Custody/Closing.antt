-- ===== src/Custody/Closing.antt =====
-- What `Shutdown` leaves behind (cli/internal/process/custody.go).
use millstrand.Base.{
  Str, str_eq, str_eq→eq, ◌≡◌, inl, inr, refl, Bool, true, false, ◌||◌, Bool-cases, none, some,
  some_cancel, lookup, lookup-put, erase, lookup-erase, arith,
}
use millstrand.Custody.Row.{Row, is_terminal, is_cancelled, cancel_enter, shutdown_enter}
use millstrand.Custody.Steps.{
  begins, observes, releases, reaps, stops, RowStep, runs, cancels, shuts, IsSound,
}
use millstrand.Custody.Service.{Custody, shutdown}
use millstrand.Custody.Runs.{shuts_down, Reach, start, later, empty_custody}
use millstrand.Custody.Validity.{IsValid}
use millstrand.Custody.Invariant.{lookup-shutdown, Step-IsValid, Reach-IsValid}
use millstrand.Custody.Keys.{Effect, same, new, changes, drops, closes, Step-Effect}

-- The process has ended, is being reaped, or is to be stopped.
abbrev pub is_settling : Row → Bool
is_settling r = is_terminal r.phase || r.reap_claimed || is_cancelled r

shutdown_enter-is_settling : (r : Row) → is_settling (shutdown_enter r).0 ≡ true
unfolding shutdown_enter str_eq
shutdown_enter-is_settling r = ground arith

module _ {fallible : Bool} where
  RowStep-is_settling :
      {r t : Row}
      → RowStep fallible r t
      → IsSound fallible r
      → is_settling r ≡ true
      → is_settling t ≡ true
  unfolding cancel_enter shutdown_enter str_eq
  RowStep-is_settling (runs (begins r w)) v h = ground arith
  RowStep-is_settling (runs (observes r true w f)) v h = ground arith
  RowStep-is_settling (runs (observes r false w f)) v h = ground arith
  RowStep-is_settling (runs (releases r failed w t)) v h = ground arith
  RowStep-is_settling (runs (reaps r failed state wait_fails close_fails w)) v h = ground arith
  RowStep-is_settling (runs (stops r k t)) v h = ground arith
  RowStep-is_settling (cancels r owner) v h = ground arith
  RowStep-is_settling (shuts r) v h = ground arith

-- A closed store, all of whose rows settle and were in another store.
pub record IsClosing (c d : Custody) : Type 0 where
  pub closed : d.closed ≡ true
  pub settling :
      (handle : Str) (r : Row) → lookup handle d.by_handle ≡ some r → is_settling r ≡ true
  pub known :
      (handle : Str) (r : Row)
      → lookup handle d.by_handle ≡ some r
      → (s : Row) × (lookup handle c.by_handle ≡ some s)

module _ (c : Custody) where
  shutdown-settling :
      (handle : Str) (t : Row)
      → lookup handle (shutdown c).0.by_handle ≡ some t
      → is_settling t ≡ true
  shutdown-settling handle t h =
      let (r, found, same_row) = lookup-shutdown c handle t h in
      rw same_row (shutdown_enter-is_settling r)

  shutdown-IsClosing : IsClosing c (shutdown c).0
  shutdown-IsClosing = record {
    closed = unfold shutdown in refl;
    settling = shutdown-settling;
    known = λ handle r h. let (s, found, same_row) = lookup-shutdown c handle r h in (s, found);
  }

module _ {fallible : Bool} (c : Custody) where
  Effect-IsClosing :
      {d e : Custody} → IsValid fallible d → Effect fallible d e → IsClosing c d → IsClosing c e
  unfolding shutdown IsValid
  Effect-IsClosing v (same q) i = rw q i
  Effect-IsClosing v (new sys owner key spec x unused open_now free q) i =
      absurd (both i.closed open_now)
    where
      both : {b : Bool} → b ≡ true → b ≡ false → ⊥
      both p r = cc
  Effect-IsClosing {d} v (changes x s t at_x st q) i = rw q (record {
    closed = i.closed;
    settling = λ handle r h. elim (Bool-cases (str_eq handle x)) [
      | inl e ↦
          let one : t ≡ r = some_cancel (rw (lookup-put x handle t d.by_handle, e) at h) in
          rw (← one) (RowStep-is_settling st (v x s at_x).sound (i.settling x s at_x))
      | inr e ↦ i.settling handle r (rw (lookup-put x handle t d.by_handle, e) at h)
    ];
    known = λ handle r h. elim (Bool-cases (str_eq handle x)) [
      | inl e ↦ rw (str_eq→eq handle x e) (i.known x s at_x)
      | inr e ↦ i.known handle r (rw (lookup-put x handle t d.by_handle, e) at h)
    ];
  })
  Effect-IsClosing {d} v (drops x q) i = rw q (record {
    closed = i.closed;
    settling = λ handle r h. i.settling handle r (left_over x handle r h);
    known = λ handle r h. i.known handle r (left_over x handle r h);
  })
    where
      left_over :
          (x handle : Str) (r : Row)
          → lookup handle (erase x d.by_handle) ≡ some r
          → lookup handle d.by_handle ≡ some r
      left_over x handle r h = elim (Bool-cases (str_eq handle x)) [
        | inl e ↦ absurd (none_some (rw (lookup-erase x handle d.by_handle, e) at h))
        | inr e ↦ rw (lookup-erase x handle d.by_handle, e) at h
      ]
        where
          none_some : none ≡ some r → ⊥
          none_some p = cc
  Effect-IsClosing {d} v (closes q) i = rw q (record {
    closed = refl;
    settling = shutdown-settling d;
    known = λ handle r h.
        let (s, found, same_row) = lookup-shutdown d handle r h in i.known handle s found;
  })

  IsClosing-from :
      {d : Custody}
      → IsValid fallible (shutdown c).0
      → Reach fallible (shutdown c).0 d
      → IsValid fallible d × IsClosing c d
  IsClosing-from v start = (v, shutdown-IsClosing c)
  IsClosing-from v (later run st) =
      let (w, i) = IsClosing-from v run in
      (Step-IsValid fallible st w, Effect-IsClosing w (Step-Effect st) i)

-- After a shutdown the service stays closed and takes on no process, and each process that it
-- has left has ended, is being reaped, or is to be stopped.
pub Reach-IsClosing :
    {fallible : Bool} {c d : Custody}
    → Reach fallible empty_custody c
    → Reach fallible (shutdown c).0 d
    → IsClosing c d
Reach-IsClosing {c = c} run since =
    (IsClosing-from c (Reach-IsValid (later run (shuts_down c))) since).1

-- ===== src/Base/Maps.antt =====
-- Go maps from strings as association lists.
use mathlib.Core.Path.{◌≡◌, refl}
use mathlib.Core.Logic.{inl, inr}
use mathlib.Core.Bool.{Bool}
use mathlib.Core.Option.{none, some}
use mathlib.Core.List.{List, [], ◌∷◌}
use native.Mathlib.Omega.{arith}
use millstrand.Base.Tests.{if◌then◌else◌, Bool-cases}
use millstrand.Base.Texts.{Str, str_eq, str_eq→eq, str_eq_refl}
use millstrand.Base.Sets.{lookup}

-- `m[key] = a`
unfoldable pub put {ℓ} : {A : Type ℓ} → Str → A → List (Str × A) → List (Str × A)
put key a [] = (key, a) ∷ []
put key a ((k, b) ∷ entries) =
    let rest = put key a entries in if str_eq key k then (k, a) ∷ entries else (k, b) ∷ rest

pub lookup-put :
    {A : Type 0} (key other : Str) (a : A) (entries : List (Str × A))
    → lookup other (put key a entries) ≡ (if str_eq other key then some a else lookup other entries)
unfolding lookup put
lookup-put key other a [] = refl
lookup-put key other a ((k, b) ∷ entries) = elim (Bool-cases (str_eq key k)) [
  | inl e ↦ rw (str_eq→eq key k e, str_eq_refl k) (again (str_eq other k))
  | inr e ↦ elim (Bool-cases (str_eq other key)) [
    | inl q ↦ rw (e, lookup-put key other a entries, str_eq→eq other key q, str_eq_refl key, e) refl
    | inr q ↦ rw (e, lookup-put key other a entries, q) refl
  ]
]
  where
    again :
        (t : Bool)
        → (if t then some a else lookup other entries)
          ≡ (if t then some a else if t then some b else lookup other entries)
    again t = ground arith

-- `delete(m, key)`
unfoldable pub erase {ℓ} : {A : Type ℓ} → Str → List (Str × A) → List (Str × A)
erase key [] = []
erase key ((k, b) ∷ entries) =
    let rest = erase key entries in if str_eq key k then rest else (k, b) ∷ rest

pub lookup-erase :
    {A : Type 0} (key other : Str) (entries : List (Str × A))
    → lookup other (erase key entries) ≡ (if str_eq other key then none else lookup other entries)
unfolding lookup erase
lookup-erase key other [] = ground arith
lookup-erase key other ((k, b) ∷ entries) = elim (Bool-cases (str_eq key k)) [
  | inl e ↦ rw (e, lookup-erase key other entries, str_eq→eq key k e) (again (str_eq other k))
  | inr e ↦ elim (Bool-cases (str_eq other key)) [
    | inl q ↦ rw (e, lookup-erase key other entries, str_eq→eq other key q, str_eq_refl key, e) refl
    | inr q ↦ rw (e, lookup-erase key other entries, q) refl
  ]
]
  where
    again :
        (t : Bool)
        → (if t then none else lookup other entries)
          ≡ (if t then none else if t then some b else lookup other entries)
    again t = ground arith

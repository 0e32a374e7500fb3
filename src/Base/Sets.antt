-- ===== src/Base/Sets.antt =====
-- Lists as sets of strings, and maps from strings as association lists.
use mathlib.Core.Path.{◌≡◌, refl}
use mathlib.Core.Logic.{◌⊎◌, inl, inr}
use mathlib.Core.Bool.{Bool, true, false, ◌||◌}
use mathlib.Core.Option.{Option, none, some}
use mathlib.Core.List.{List, [], ◌∷◌, ◌++◌}
use native.Mathlib.Omega.{arith}
use Prim.Native.Nat.{ℕ, zero, suc}
use millstrand.Base.Tests.{if◌then◌else◌, Bool-cases}
use millstrand.Base.Lists.{In, here, there, In-cases}
use millstrand.Base.Texts.{Str, str_eq, str_eq→eq, str_eq_refl}

unfoldable pub has : Str → List Str → Bool
has s [] = false
has s (x ∷ xs) = str_eq s x || has s xs

pub has-append : (s : Str) (xs ys : List Str) → has s (xs ++ ys) ≡ (has s xs || has s ys)
unfolding has
has-append s [] ys = refl
has-append s (x ∷ xs) ys = ground (arith, has-append s xs ys)

pub has_sound : (s : Str) (xs : List Str) → has s xs ≡ true → In s xs
unfolding has
has_sound s [] h = cc
has_sound s (x ∷ xs) h = elim (or_cases (str_eq s x) (has s xs) h) [
  | inl e ↦ here (str_eq→eq s x e)
  | inr e ↦ there (has_sound s xs e)
]
  where
    or_cases : (a b : Bool) → (a || b) ≡ true → (a ≡ true) ⊎ (b ≡ true)
    or_cases a b e = ground arith

pub has_complete : (s : Str) (xs : List Str) → In s xs → has s xs ≡ true
unfolding has
has_complete s [] i = elim i [ ]
has_complete s (x ∷ xs) i = elim (In-cases i) [
  | inl e ↦ rw (e, str_eq_refl x) refl
  | inr j ↦ or_right (str_eq s x) (has s xs) (has_complete s xs j)
]
  where
    or_right : (a b : Bool) → b ≡ true → (a || b) ≡ true
    or_right a b e = ground arith

module _ {ℓ} {A : Type ℓ} where
  pub In-append_left : {a : A} (xs ys : List A) → In a xs → In a (xs ++ ys)
  In-append_left [] ys i = elim i [ ]
  In-append_left (x ∷ xs) ys i = elim (In-cases i) [
    | inl e ↦ here e
    | inr j ↦ there (In-append_left xs ys j)
  ]

  pub In-append_right : {a : A} (xs ys : List A) → In a ys → In a (xs ++ ys)
  In-append_right [] ys i = i
  In-append_right (x ∷ xs) ys i = there (In-append_right xs ys i)

  pub In-of_append : {a : A} (xs ys : List A) → In a (xs ++ ys) → In a xs ⊎ In a ys
  In-of_append [] ys i = inr i
  In-of_append (x ∷ xs) ys i = elim (In-cases i) [
    | inl e ↦ inl (here e)
    | inr j ↦ elim (In-of_append xs ys j) [ inl k ↦ inl (there k) | inr k ↦ inr k ]
  ]

  abbrev pub get_elem? : List A → ℕ → Option A
  get_elem? [] n = none
  get_elem? (x ∷ xs) zero = some x
  get_elem? (x ∷ xs) (suc n) = get_elem? xs n

  -- A Go map by its entries. A missing key reads as `none`.
  unfoldable pub lookup : Str → List (Str × A) → Option A
  lookup key [] = none
  lookup key ((k, a) ∷ entries) = if str_eq key k then some a else lookup key entries

-- A Go map of slices, whose missing keys read as the empty slice.
module _ {ℓ} {A : Type ℓ} where
  unfoldable pub items_at : Str → List (Str × List A) → List A
  items_at key [] = []
  items_at key ((k, vs) ∷ entries) = if str_eq key k then vs else items_at key entries

  -- `m[key] = append(m[key], a)`
  unfoldable pub push : Str → A → List (Str × List A) → List (Str × List A)
  push key a [] = (key, a ∷ []) ∷ []
  push key a ((k, vs) ∷ entries) =
      let rest = push key a entries in
      if str_eq key k then (k, vs ++ a ∷ []) ∷ entries else (k, vs) ∷ rest

  pub items_at-push :
      (key : Str) (a : A) (m : List (Str × List A))
      → items_at key (push key a m) ≡ items_at key m ++ a ∷ []
  unfolding items_at push
  items_at-push key a [] = rw (str_eq_refl key) refl
  items_at-push key a ((k, vs) ∷ entries) = ground (arith, items_at-push key a entries)

  pub items_at-push_other :
      (key other : Str) (a : A) (m : List (Str × List A))
      → str_eq other key ≡ false
      → items_at other (push key a m) ≡ items_at other m
  unfolding items_at push
  items_at-push_other key other a [] h = rw h refl
  items_at-push_other key other a ((k, vs) ∷ entries) h = elim (Bool-cases (str_eq key k)) [
    | inl e ↦
        let differs : str_eq other k ≡ false = rw (← str_eq→eq key k e) h in rw (e, differs) refl
    | inr e ↦ rw (e, items_at-push_other key other a entries h) refl
  ]

  unfoldable pub keys : List (Str × A) → List Str
  keys [] = []
  keys ((k, a) ∷ entries) = k ∷ keys entries

module _ {ℓ} {A : Type ℓ} where
  pub items_at-keys :
      (key : Str) (m : List (Str × List A)) → has key (keys m) ≡ false → items_at key m ≡ []
  unfolding items_at keys has
  items_at-keys key [] h = refl
  items_at-keys key ((k, vs) ∷ entries) h = elim (Bool-cases (str_eq key k)) [
    | inl e ↦ elim (true_ne (rw e at h)) [ ]
    | inr e ↦ rw e (items_at-keys key entries (rw e at h))
  ]
    where
      true_ne : true ≡ false → ⊥
      true_ne q = cc

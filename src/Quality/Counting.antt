-- ===== src/Quality/Counting.antt =====
-- The heavy checks that run, counted (tools/land-quality/main.go).
use millstrand.Base.{
  ℕ, ◌+◌, ◌≤◌, Str, str_eq, str_eq→eq, str_eq_refl, ◌≡◌, inl, inr, refl, Bool, true, false, ◌&&◌,
  Bool-cases, Option, some, List, [], ◌∷◌, if◌then◌else◌, lookup, put, lookup-put, In, here, there,
  In-cases, arith,
}
use millstrand.Quality.Scheduler.{Check, Status, running, States}

abbrev pub is_running : Option Status → Bool
is_running (some running) = true
is_running _ = false

abbrev pub weight : Check → Option Status → ℕ
weight c o = if c.heavy && is_running o then 1 else 0

unfoldable pub heavy_count : List Check → States → ℕ
heavy_count [] states = 0
heavy_count (c ∷ checks) states = weight c (lookup c.name states) + heavy_count checks states

-- No two checks have one name.
pub data AreNamed : List Check → Type 0 where
  nil : AreNamed []
  cons :
      {c : Check} {checks : List Check}
      → ((d : Check) → In d checks → str_eq d.name c.name ≡ false)
      → AreNamed checks
      → AreNamed (c ∷ checks)

heavy_count-put_other :
    (checks : List Check) (name : Str) (s : Status) (states : States)
    → ((d : Check) → In d checks → str_eq d.name name ≡ false)
    → heavy_count checks (put name s states) ≡ heavy_count checks states
unfolding heavy_count
heavy_count-put_other [] name s states other = refl
heavy_count-put_other (c ∷ checks) name s states other =
    rw
      (
        lookup-put name c.name s states,
        other c (here refl),
        heavy_count-put_other checks name s states (λ d i. other d (there i)),
      )
      refl

-- Another state of one check changes the count by that check.
pub heavy_count-put :
    (checks : List Check) (c : Check) (s : Status) (states : States)
    → AreNamed checks
    → In c checks
    → heavy_count checks (put c.name s states) + weight c (lookup c.name states)
      ≡ heavy_count checks states + weight c (some s)
unfolding heavy_count
heavy_count-put [] c s states n i = elim i [ ]
heavy_count-put (d ∷ checks) c s states (cons apart n) i = elim (In-cases i) [
  | inl e ↦
      rw
        (
          e,
          lookup-put d.name d.name s states,
          str_eq_refl d.name,
          heavy_count-put_other checks d.name s states apart,
        )
        (omega arith)
  | inr j ↦
      let ih = heavy_count-put checks c s states n j in
      rw (lookup-put c.name d.name s states, apart_from j) (omega (arith, ih))
]
  where
    clash : {b : Bool} → b ≡ false → b ≡ true → ⊥
    clash p q = cc

    apart_from : In c checks → str_eq d.name c.name ≡ false
    apart_from j = elim (Bool-cases (str_eq d.name c.name)) [
      | inr f ↦ f
      | inl f ↦ absurd (clash (apart c j) (rw (str_eq→eq d.name c.name f) (str_eq_refl c.name)))
    ]

pub AreNamed-unique :
    (checks : List Check) (c d : Check)
    → AreNamed checks
    → In c checks
    → In d checks
    → str_eq d.name c.name ≡ true
    → d ≡ c
AreNamed-unique [] c d n i j e = elim i [ ]
AreNamed-unique (x ∷ checks) c d (cons apart n) i j e = elim (In-cases i) [
  | inl p ↦ elim (In-cases j) [ inl q ↦ cc | inr k ↦ absurd (clash (rw p (apart d k)) e) ]
  | inr m ↦ elim (In-cases j) [
    | inl q ↦ absurd (clash (apart c m) (rw (← q, str_eq→eq d.name c.name e) (str_eq_refl c.name)))
    | inr k ↦ AreNamed-unique checks c d n m k e
  ]
]
  where
    clash : {b : Bool} → b ≡ false → b ≡ true → ⊥
    clash f g = cc

pub weight_le :
    (checks : List Check) (c : Check) (states : States)
    → In c checks
    → weight c (lookup c.name states) ≤ heavy_count checks states
unfolding heavy_count
weight_le [] c states i = elim i [ ]
weight_le (x ∷ checks) c states i = elim (In-cases i) [
  | inl e ↦ rw e (omega arith)
  | inr j ↦ omega (arith, weight_le checks c states j)
]

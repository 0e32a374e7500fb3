-- ===== src/Base/Results.antt =====
-- Go's `(value, error)` pair: one of the two, and calls in a row that stop at the first error.
use mathlib.Core.Path.{◌≡◌, refl}

pub data Result (E : Type 0) (A : Type 0) : Type 0 where
  err : E → Result E A
  ok : A → Result E A

module _ {E A : Type 0} where
  pub ok-injective : {x y : A} → ◌≡◌ {A = Result E A} (ok x) (ok y) → x ≡ y
  ok-injective same = cc

  module _ {B : Type 0} where
    infixl 5 ◌>>=◌
    abbrev pub ◌>>=◌ : Result E A → (A → Result E B) → Result E B
    err failure >>= continue = err failure
    ok value >>= continue = continue value

    -- Where both calls of a row returned, the first one returned what the second was given.
    pub >>=-eq-ok :
        (first : Result E A) (continue : A → Result E B) {last : B}
        (returned : (first >>= continue) ≡ ok last)
        → (value : A) × (first ≡ ok value) × (continue value ≡ ok last)
    >>=-eq-ok (err failure) continue returned = cc
    >>=-eq-ok (ok value) continue returned = (value, refl, returned)

-- A check, whose value nothing uses, before the call behind it.
infixl 5 ◌>>◌
abbrev pub ◌>>◌ : {E B : Type 0} → Result E (Unit {0}) → Result E B → Result E B
check >> behind = check >>= λ _. behind

-- ===== src/Suggest/Edits.antt =====
-- The edit distance as the least number of edits, and `levenshtein` against it
-- (cli/internal/errfmt/suggest.go).
use mathlib.Core.Path.{subst₂}
use native.Mathlib.Decide.{dec_le}
use millstrand.Base.{
  ℕ, suc, ◌+◌, ◌≤◌, min, ◌≡◌, refl, ap, ◌∙◌, subst, Bool-cases, ==_iff, inl, inr, Str, List, [],
  ◌∷◌, length, ◌==◌, if◌then◌else◌, arith,
}
use millstrand.Suggest.Distance.{fill_row, fill_rows, first_row, last_cell, levenshtein}

-- `n` single-rune edits turn the first text into the second.
pub data Edits : Str → Str → ℕ → Type 0 where
  done : Edits [] [] 0
  keep : {s t : Str} {n : ℕ} (c : ℕ) → Edits s t n → Edits (c ∷ s) (c ∷ t) n
  substitute : {s t : Str} {n : ℕ} (a b : ℕ) → Edits s t n → Edits (a ∷ s) (b ∷ t) (suc n)
  delete : {s t : Str} {n : ℕ} (a : ℕ) → Edits s t n → Edits (a ∷ s) t (suc n)
  insert : {s t : Str} {n : ℕ} (b : ℕ) → Edits s t n → Edits s (b ∷ t) (suc n)

-- The recurrence, on the heads.
distance : Str → Str → ℕ
distance [] t = length t
distance (a ∷ s) [] = suc (length s)
distance (a ∷ s) (b ∷ t) =
    min (distance s (b ∷ t) + 1)
      (min (distance (a ∷ s) t + 1) (if a == b then distance s t else distance s t + 1))

-- The cells behind the first in the row of `s`, where `t` is read and `right` is to come.
later : Str → Str → Str → List ℕ
later s t [] = []
later s t (b ∷ right) = distance s (b ∷ t) ∷ later s (b ∷ t) right

fill_row-later :
    (a : ℕ) (s t right : Str)
    → fill_row a (distance (a ∷ s) t) (distance s t) right (later s t right) ≡ later (a ∷ s) t right
unfolding fill_row later distance
fill_row-later a s t [] = refl
fill_row-later a s t (b ∷ right) =
    ap (λ row. distance (a ∷ s) (b ∷ t) ∷ row) (fill_row-later a s (b ∷ t) right)

abbrev onto : Str → Str → Str
onto s [] = s
onto s (a ∷ left) = onto (a ∷ s) left

distance-nil : (s : Str) → distance s [] ≡ length s
unfolding distance
distance-nil [] = refl
distance-nil (a ∷ s) = refl

fill_rows-later :
    (s left right : Str)
    → fill_rows (suc (length s)) right (length s ∷ later s [] right) left
      ≡ length (onto s left) ∷ later (onto s left) [] right
unfolding fill_rows
fill_rows-later s [] right = refl
fill_rows-later s (a ∷ left) right =
    ap (λ row. fill_rows (suc (suc (length s))) right (suc (length s) ∷ row) left)
      (rw (distance-nil s, distance-nil (a ∷ s)) at (fill_row-later a s [] right))
    ∙ fill_rows-later (a ∷ s) left right

first_row-later : (t right : Str) → first_row (length t) right ≡ length t ∷ later [] t right
unfolding first_row later distance
first_row-later t [] = refl
first_row-later t (b ∷ right) = ap (λ row. length t ∷ row) (first_row-later (b ∷ t) right)

last_cell-later :
    (s t right : Str) → last_cell (distance s t) (later s t right) ≡ distance s (onto t right)
unfolding last_cell later
last_cell-later s t [] = refl
last_cell-later s t (b ∷ right) = last_cell-later s (b ∷ t) right

levenshtein-distance :
    (left right : Str) → levenshtein left right ≡ distance (onto [] left) (onto [] right)
unfolding levenshtein
levenshtein-distance left right =
    ap (λ row. last_cell 0 (fill_rows 1 right row left)) (first_row-later [] right)
    ∙ ap (last_cell 0) (fill_rows-later [] left right)
    ∙ rw (← distance-nil (onto [] left)) (last_cell-later (onto [] left) [] right)

insert_all : (t : Str) → Edits [] t (length t)
insert_all [] = done
insert_all (b ∷ t) = insert b (insert_all t)

delete_all : (s : Str) → Edits s [] (length s)
delete_all [] = done
delete_all (a ∷ s) = delete a (delete_all s)

min_cases : (P : ℕ → Type 0) (x y : ℕ) → P x → P y → P (min x y)
min_cases P x y p q = elim (dec_le x y) [
  | yes h ↦ subst P (omega arith) p
  | no h ↦ subst P (omega arith) q
]

distance-Edits : (s t : Str) → Edits s t (distance s t)
unfolding distance
distance-Edits [] t = insert_all t
distance-Edits (a ∷ s) [] = delete_all (a ∷ s)
distance-Edits (a ∷ s) (b ∷ t) =
    min_cases (Edits (a ∷ s) (b ∷ t)) _ _
      (subst (Edits (a ∷ s) (b ∷ t)) (omega arith) (delete a (distance-Edits s (b ∷ t))))
      (min_cases (Edits (a ∷ s) (b ∷ t)) _ _
        (subst (Edits (a ∷ s) (b ∷ t)) (omega arith) (insert b (distance-Edits (a ∷ s) t)))
        (kept_or_changed a b s t (distance s t) (distance-Edits s t)))
  where
    kept_or_changed :
        (a b : ℕ) (s t : Str) (n : ℕ)
        → Edits s t n
        → Edits (a ∷ s) (b ∷ t) (if a == b then n else n + 1)
    kept_or_changed a b s t n e = elim (Bool-cases (a == b)) [
      | inl h ↦ rw h (subst (λ c. Edits (a ∷ s) (c ∷ t) n) ((==_iff a b).0 h) (keep a e))
      | inr h ↦ rw h (subst (Edits (a ∷ s) (b ∷ t)) (omega arith) (substitute a b e))
    ]

distance-le-delete : (a : ℕ) (s t : Str) → distance (a ∷ s) t ≤ suc (distance s t)
unfolding distance
distance-le-delete a s [] = omega (arith, distance-nil s)
distance-le-delete a s (b ∷ t) = omega arith

distance-le-insert : (b : ℕ) (s t : Str) → distance s (b ∷ t) ≤ suc (distance s t)
unfolding distance
distance-le-insert b [] t = omega arith
distance-le-insert b (a ∷ s) t = omega arith

distance-le : {s t : Str} {n : ℕ} → Edits s t n → distance s t ≤ n
unfolding distance
distance-le done = omega arith
distance-le (keep {s = s} {t = t} c e) = ground (arith, distance-le e)
distance-le (substitute {s = s} {t = t} a b e) = ground (arith, distance-le e)
distance-le (delete {s = s} {t = t} a e) = omega (arith, distance-le-delete a s t, distance-le e)
distance-le (insert {s = s} {t = t} b e) = omega (arith, distance-le-insert b s t, distance-le e)

-- Edits read from the other end.
onto-Edits :
    {left right : Str} {n : ℕ}
    → Edits left right n
    → (s t : Str) (m : ℕ) → Edits s t m
    → Edits (onto s left) (onto t right) (n + m)
onto-Edits done s t m e = subst (Edits s t) (omega arith) e
onto-Edits {n = n} (keep c e) s t m f = onto-Edits e (c ∷ s) (c ∷ t) m (keep c f)
onto-Edits (substitute {s = left} {t = right} {n = n} a b e) s t m f =
    subst (Edits (onto (a ∷ s) left) (onto (b ∷ t) right)) (omega arith)
      (onto-Edits e (a ∷ s) (b ∷ t) (suc m) (substitute a b f))
onto-Edits (delete {s = left} {t = right} {n = n} a e) s t m f =
    subst (Edits (onto (a ∷ s) left) (onto t right)) (omega arith)
      (onto-Edits e (a ∷ s) t (suc m) (delete a f))
onto-Edits (insert {s = left} {t = right} {n = n} b e) s t m f =
    subst (Edits (onto s left) (onto (b ∷ t) right)) (omega arith)
      (onto-Edits e s (b ∷ t) (suc m) (insert b f))

onto-onto : (s left : Str) → onto [] (onto s left) ≡ onto left s
onto-onto s [] = refl
onto-onto s (a ∷ left) = onto-onto (a ∷ s) left

-- As many single-rune edits as `levenshtein` says turn the one text into the other, and no fewer do.
pub levenshtein-least :
    (left right : Str)
    → Edits left right (levenshtein left right)
      × ((n : ℕ) → Edits left right n → levenshtein left right ≤ n)
levenshtein-least left right = (
  rw (levenshtein-distance left right) (
      subst₂ (λ s t. Edits s t (distance (onto [] left) (onto [] right))) (onto-onto [] left)
        (onto-onto [] right)
        (subst (Edits (onto [] (onto [] left)) (onto [] (onto [] right))) (omega arith)
          (onto-Edits (distance-Edits (onto [] left) (onto [] right)) [] [] 0 done))),
  λ n e. rw (levenshtein-distance left right) (
      subst (λ k. distance (onto [] left) (onto [] right) ≤ k) (omega arith)
        (distance-le (onto-Edits e [] [] 0 done))),
)

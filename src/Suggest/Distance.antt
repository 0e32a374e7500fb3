-- ===== src/Suggest/Distance.antt =====
-- `levenshtein` (cli/internal/errfmt/suggest.go).
use millstrand.Base.{ℕ, suc, ◌+◌, min, Str, List, [], ◌∷◌, ◌==◌, if◌then◌else◌}

-- The inner loop from column j on: `west` is `current[j-1]` and `north_west` is `previous[j-1]`.
-- Each cell of `current` is written before it is read, so the swapped row's old content is lost.
unfoldable pub fill_row : ℕ → ℕ → ℕ → Str → List ℕ → List ℕ
fill_row a west north_west (b ∷ right) (north ∷ previous) =
    let substitution : ℕ = if a == b then north_west else north_west + 1 in
    let cell : ℕ = min (north + 1) (min (west + 1) substitution) in
    cell ∷ fill_row a cell north right previous
fill_row a west north_west _ _ = []

abbrev pub next_row : ℕ → ℕ → Str → List ℕ → List ℕ
next_row a i right [] = []
next_row a i right (first ∷ previous) = i ∷ fill_row a i first right previous

-- The outer loop, from row i on.
unfoldable pub fill_rows : ℕ → Str → List ℕ → Str → List ℕ
fill_rows i right previous [] = previous
fill_rows i right previous (a ∷ left) = fill_rows (suc i) right (next_row a i right previous) left

-- The row 0: from j on, one cell for each rune, and one more.
unfoldable pub first_row : ℕ → Str → List ℕ
first_row j [] = j ∷ []
first_row j (b ∷ right) = j ∷ first_row (suc j) right

-- The last cell of a row that begins with `cell`.
unfoldable pub last_cell : ℕ → List ℕ → ℕ
last_cell cell [] = cell
last_cell cell (next ∷ row) = last_cell next row

unfoldable pub levenshtein : Str → Str → ℕ
unfolding fill_row fill_rows first_row last_cell
levenshtein left right = last_cell 0 (fill_rows 1 right (first_row 0 right) left)

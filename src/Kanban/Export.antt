-- ===== src/Kanban/Export.antt =====
-- `validateEdges`, where an export enters (tools/kanban-tree/export.go).
use millstrand.Base.{
  Str, str_eq, str_eq→eq, str_eq_refl, ◌≡◌, ◌≢◌, ◌↔◌, inl, inr, refl, sym, ap₂, subst, Bool, true,
  false, Bool-cases, not, ◌&&◌, ◌||◌, List, [], ◌∷◌, ◌++◌, if◌then◌else◌, Result, ok, err, In, here,
  there, In-cases, has, has_sound, has_complete, arith,
}
use millstrand.Kanban.Board.{Edge}

pub data EdgeError : Type 0 where
  blank_endpoint : EdgeError
  self_edge : Str → EdgeError
  unknown_endpoint duplicate_edge : Str → Str → EdgeError

-- The key of the set of edges seen, its halves parted by a NUL.
abbrev pub edge_key : Edge → Str
edge_key e = e.from ++ (0 ∷ e.to)

-- The guards of one turn, and the rest of the loop.
abbrev pub check_edge :
    List Str → List Str → Edge → Result EdgeError (Unit {0}) → Result EdgeError (Unit {0})
check_edge ids seen e rest =
    if str_eq e.from [] || str_eq e.to []
    then err blank_endpoint
    else if str_eq e.from e.to
    then err (self_edge e.from)
    else if not (has e.from ids) || not (has e.to ids)
    then err (unknown_endpoint e.from e.to)
    else if has (edge_key e) seen
    then err (duplicate_edge e.from e.to)
    else rest

unfoldable pub edges_from : List Str → List Str → List Edge → Result EdgeError (Unit {0})
edges_from ids seen [] = ok tt
edges_from ids seen (e ∷ es) = check_edge ids seen e (edges_from ids (edge_key e ∷ seen) es)

unfoldable pub validate_edges : List Str → List Edge → Result EdgeError (Unit {0})
validate_edges ids es = edges_from ids [] es

-- An edge between two different strands of the export.
abbrev is_joining : List Str → Edge → Bool
is_joining ids e =
    not (str_eq e.from [])
    && not (str_eq e.to [])
    && not (str_eq e.from e.to)
    && has e.from ids
    && has e.to ids

-- Each edge joins two different strands, and its key is none of those given nor of an edge before.
abbrev AreJoining : List Str → List Str → List Edge → Type 0
AreJoining ids seen [] = Unit {0}
AreJoining ids seen (e ∷ es) =
    (is_joining ids e ≡ true)
    × (has (edge_key e) seen ≡ false)
    × AreJoining ids (edge_key e ∷ seen) es

check_edge_iff :
    (ids seen : List Str) (e : Edge) (rest : Result EdgeError (Unit {0}))
    → (check_edge ids seen e rest ≡ ok tt)
      ↔ ((is_joining ids e ≡ true) × (has (edge_key e) seen ≡ false) × (rest ≡ ok tt))
check_edge_iff ids seen e rest =
    (λ h. (ground arith, ground arith, ground arith), λ (j, n, r). ground arith)

edges_from_iff :
    (ids seen : List Str) (es : List Edge)
    → (edges_from ids seen es ≡ ok tt) ↔ AreJoining ids seen es
unfolding edges_from
edges_from_iff ids seen [] = (λ h. tt, λ h. refl)
edges_from_iff ids seen (e ∷ es) =
    let (to, of) = check_edge_iff ids seen e (edges_from ids (edge_key e ∷ seen) es) in
    let (rest, back) = edges_from_iff ids (edge_key e ∷ seen) es in
    (λ h. let (j, n, r) = to h in (j, n, rest r), λ (j, n, r). of (j, n, back r))

-- An edge between two different strands of the export, neither blank.
abbrev pub Joins : List Str → Edge → Type 0
Joins ids e = (e.from ≢ []) × (e.to ≢ []) × (e.from ≢ e.to) × In e.from ids × In e.to ids

-- No edge stands twice.
abbrev pub AreDistinct : List Edge → Type 0
AreDistinct [] = Unit {0}
AreDistinct (e ∷ es) = (In e es → ⊥) × AreDistinct es

str_eq_no : (a b : Str) → (str_eq a b ≡ false) ↔ (a ≢ b)
str_eq_no a b = (
  λ h q. absurd (clash (rw q (str_eq_refl b)) h),
  λ n. elim (Bool-cases (str_eq a b)) [ inl e ↦ absurd (n (str_eq→eq a b e)) | inr e ↦ e ],
)
  where
    clash : {t : Bool} → t ≡ true → t ≡ false → ⊥
    clash p q = cc

is_joining_iff : (ids : List Str) (e : Edge) → (is_joining ids e ≡ true) ↔ Joins ids e
is_joining_iff ids e = (
  λ h. (
    (str_eq_no e.from []).0 (ground arith),
    (str_eq_no e.to []).0 (ground arith),
    (str_eq_no e.from e.to).0 (ground arith),
    has_sound e.from ids (ground arith),
    has_sound e.to ids (ground arith),
  ),
  λ (f, t, d, i, j).
      rw
        (
          (str_eq_no e.from []).1 f,
          (str_eq_no e.to []).1 t,
          (str_eq_no e.from e.to).1 d,
          has_complete e.from ids i,
          has_complete e.to ids j,
        )
        refl,
)

-- A text without a NUL is parted from what follows the first NUL.
append_zero :
    (a b c d : Str) → (In 0 a → ⊥) → (In 0 b → ⊥) → a ++ (0 ∷ c) ≡ b ++ (0 ∷ d) → (a ≡ b) × (c ≡ d)
append_zero [] [] c d m n h = (refl, cc)
append_zero [] (y ∷ b) c d m n h = absurd (n (here cc))
append_zero (x ∷ a) [] c d m n h = absurd (m (here cc))
append_zero (x ∷ a) (y ∷ b) c d m n h =
    let (p, q) = append_zero a b c d (λ i. m (there i)) (λ i. n (there i)) cc in (cc, q)

has-tail : (k x : Str) (seen : List Str) → has k (x ∷ seen) ≡ false → has k seen ≡ false
unfolding has
has-tail k x seen h = ground arith

has-cons :
    (k x : Str) (seen : List Str)
    → str_eq k x ≡ false
    → has k seen ≡ false
    → has k (x ∷ seen) ≡ false
unfolding has
has-cons k x seen p q = ground arith

has-nil : (k : Str) → has k [] ≡ false
unfolding has
has-nil k = refl

AreJoining-fresh :
    (ids seen : List Str) (es : List Edge) (e : Edge)
    → AreJoining ids seen es
    → In e es
    → has (edge_key e) seen ≡ false
AreJoining-fresh ids seen [] e h i = elim i [ ]
AreJoining-fresh ids seen (x ∷ es) e (j, n, rest) i = elim (In-cases i) [
  | inl q ↦ subst (λ (y : Edge). has (edge_key y) seen ≡ false) (sym q) n
  | inr k ↦
      has-tail (edge_key e) (edge_key x) seen (AreJoining-fresh ids (edge_key x ∷ seen) es e rest k)
]

AreJoining-AreDistinct :
    (ids seen : List Str) (es : List Edge)
    → AreJoining ids seen es
    → ((e : Edge) → In e es → Joins ids e) × AreDistinct es
AreJoining-AreDistinct ids seen [] h = (λ e i. elim i [ ], tt)
AreJoining-AreDistinct ids seen (x ∷ es) (j, n, rest) =
    let (joins, apart) = AreJoining-AreDistinct ids (edge_key x ∷ seen) es rest in
    (
      λ e i. elim (In-cases i) [
        | inl q ↦ subst (Joins ids) (sym q) ((is_joining_iff ids x).0 j)
        | inr k ↦ joins e k
      ],
      (
        λ i.
            both (has_complete (edge_key x) (edge_key x ∷ seen) (here refl))
              (AreJoining-fresh ids (edge_key x ∷ seen) es x rest i),
        apart,
      ),
    )
  where
    both : {t : Bool} → t ≡ true → t ≡ false → ⊥
    both p q = cc

module _ (ids : List Str) (plain : (id : Str) → In id ids → In 0 id → ⊥) where
  edge_key-injective :
      (e e' : Edge) → Joins ids e → Joins ids e' → edge_key e ≡ edge_key e' → e ≡ e'
  edge_key-injective e e' (_, _, _, i, _) (_, _, _, j, _) h =
      let (p, q) = append_zero e.from e'.from e.to e'.to (plain e.from i) (plain e'.from j) h in
      same_edge e e' p q
    where
      same_edge : (a b : Edge) → a.from ≡ b.from → a.to ≡ b.to → a ≡ b
      same_edge a b p q = ap₂ (λ x y. record { from = x; to = y }) p q

  AreDistinct-AreJoining :
      (seen : List Str) (es : List Edge)
      → ((e : Edge) → In e es → Joins ids e)
      → AreDistinct es
      → ((e : Edge) → In e es → has (edge_key e) seen ≡ false)
      → AreJoining ids seen es
  AreDistinct-AreJoining seen [] joins apart fresh = tt
  AreDistinct-AreJoining seen (x ∷ es) joins (once, apart) fresh = (
    (is_joining_iff ids x).1 (joins x (here refl)),
    fresh x (here refl),
    AreDistinct-AreJoining (edge_key x ∷ seen) es (λ e i. joins e (there i)) apart
        (λ e i. has-cons (edge_key e) (edge_key x) seen (differs e i) (fresh e (there i))),
  )
    where
      differs : (e : Edge) → In e es → str_eq (edge_key e) (edge_key x) ≡ false
      differs e i = (str_eq_no (edge_key e) (edge_key x)).1 (λ q. once (
          subst (λ y. In y es) (edge_key-injective e x (joins e (there i)) (joins x (here refl)) q)
            i))

-- Where no id of the export contains a NUL, `validateEdges` accepts a list exactly if each edge
-- joins two different strands of the export, neither with a blank id, and no edge stands in the
-- list twice.
pub validate_edges_iff :
    (ids : List Str) (es : List Edge)
    → ((id : Str) → In id ids → In 0 id → ⊥)
    → (validate_edges ids es ≡ ok tt) ↔ (((e : Edge) → In e es → Joins ids e) × AreDistinct es)
unfolding validate_edges
validate_edges_iff ids es plain =
    let (to, of) = edges_from_iff ids [] es in
    (
      λ h. AreJoining-AreDistinct ids [] es (to h),
      λ (joins, apart).
          of (AreDistinct-AreJoining ids plain [] es joins apart (λ e i. has-nil (edge_key e))),
    )

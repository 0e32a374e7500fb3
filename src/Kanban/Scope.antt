-- ===== src/Kanban/Scope.antt =====
-- The dependency layout of one container's children (tools/kanban-tree/tree.go).
use millstrand.Base.{
  ℕ, zero, suc, ◌+◌, Str, Option, none, some, List, [], ◌∷◌, ◌++◌, keep_if, length, if◌then◌else◌,
  has, get_elem?, items_at, keys, push,
}

-- One child whose blockers are several siblings at once.
pub record SharedGroup : Type 0 where
  pub blockers : List Str
  pub id : Str

pub record Scope : Type 0 where
  pub tops : List Str
  pub deps : List (Str × List Str)
  pub shared : List SharedGroup
  pub shared_by : List (Str × List ℕ)

abbrev pub empty_scope : Scope
empty_scope = record { tops = []; deps = []; shared = []; shared_by = [] }

-- The inner loop of the default case.
unfoldable pub push_all : List Str → ℕ → List (Str × List ℕ) → List (Str × List ℕ)
push_all [] idx by = by
push_all (b ∷ bs) idx by = push_all bs idx (push b idx by)

-- The switch on the number of sibling blockers.
abbrev pub place : Str → List Str → Scope → Scope
place id [] sc = record sc { tops = sc.tops ++ id ∷ [] }
place id (b ∷ []) sc = record sc { deps = push b id sc.deps }
place id (b ∷ c ∷ bs) sc = record sc {
  shared = sc.shared ++ record { blockers = b ∷ c ∷ bs; id = id } ∷ [];
  shared_by = push_all (b ∷ c ∷ bs) (length sc.shared) sc.shared_by;
}

-- The blockers of a node that are children of the same container.
unfoldable pub within : (Str → List Str) → List Str → Str → List Str
within blockers siblings id = keep_if (λ b. has b siblings) (blockers id)

-- The loop over the children; `siblings` are all of them.
unfoldable pub place_all : (Str → List Str) → List Str → List Str → Scope → Scope
place_all blockers siblings [] sc = sc
place_all blockers siblings (id ∷ children) sc =
    place_all blockers siblings children (place id (within blockers siblings id) sc)

-- `sc.shared[idx].id`
abbrev pub shared_id : Option SharedGroup → List Str
shared_id none = []
shared_id (some group) = group.id ∷ []

unfoldable pub shared_ids : List SharedGroup → List ℕ → List Str
shared_ids groups [] = []
shared_ids groups (idx ∷ idxs) = shared_id (get_elem? groups idx) ++ shared_ids groups idxs

-- What hangs under a child: the siblings it alone blocks, and those of its shared groups.
unfoldable pub dependents : Scope → Str → List Str
dependents sc id = items_at id sc.deps ++ shared_ids sc.shared (items_at id sc.shared_by)

-- One turn of the loop of `reachable`: the ids seen and the queue behind the one taken off it.
abbrev pub visit : Scope → Str → List Str → List Str → List Str × List Str
visit sc id seen queue =
    if has id seen then (seen, queue) else (id ∷ seen, queue ++ dependents sc id)

-- The loop, on fuel.
unfoldable pub walk : ℕ → Scope → List Str × List Str → List Str
walk zero sc (seen, queue) = seen
walk (suc n) sc (seen, []) = seen
walk (suc n) sc (seen, id ∷ queue) = walk n sc (visit sc id seen queue)

unfoldable pub weight : (Str → ℕ) → List Str → ℕ
weight f [] = 0
weight f (x ∷ xs) = f x + weight f xs

-- The ids that block a sibling.
abbrev pub blocking : Scope → List Str
blocking sc = keys sc.deps ++ keys sc.shared_by

-- Each id is expanded once at most, so no more than this is ever queued.
unfoldable pub walk_fuel : Scope → ℕ
walk_fuel sc = length sc.tops + weight (λ b. length (dependents sc b)) (blocking sc)

unfoldable pub reachable : Scope → List Str
reachable sc = walk (walk_fuel sc) sc ([], sc.tops)

-- The first child that is not seen.
unfoldable pub first_unseen : List Str → List Str → Option Str
first_unseen seen [] = none
first_unseen seen (id ∷ children) =
    let later = first_unseen seen children in if has id seen then later else some id

-- A round promotes one child or returns.
unfoldable pub promote_rounds : List Str → List Str → Scope → Scope
promote_rounds [] children sc = sc
promote_rounds (_ ∷ rounds) children sc = elim (first_unseen (reachable sc) children) [
  | none ↦ sc
  | some id ↦ promote_rounds rounds children (record sc { tops = sc.tops ++ id ∷ [] })
]

unfoldable pub promote_unreached : List Str → Scope → Scope
promote_unreached children sc = promote_rounds children children sc

-- The scope of a container's children before it is cached.
unfoldable pub arrange : (Str → List Str) → List Str → Scope
arrange blockers children =
    promote_unreached children (place_all blockers children children empty_scope)

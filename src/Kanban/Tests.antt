-- ===== src/Kanban/Tests.antt =====
-- The tree of a small board, and the theorems at it (tools/kanban-tree/tree_test.go).
use millstrand.Base.{
  put, err, ℕ, ◌<◌, ◌≤◌, Str, text, str_eq, str_lt, ◌≡◌, ◌↔◌, ◌⊎◌, inl, inr, refl, true, false,
  List, [], ◌∷◌, keep_if, length, if◌then◌else◌, ok, In, here, there, In-cases, has, lookup, keys,
  items_at, push, arith, subst,
}
use millstrand.Kanban.Scope.{
  place_all, within, dependents, shared_ids, reachable, walk, walk_fuel, weight, promote_rounds,
  promote_unreached, first_unseen, arrange, push_all,
}
use millstrand.Kanban.Reach.{Reaches, reachable_iff}
use millstrand.Kanban.Board.{
  attr_task, bool_value, Strand, Edge, Export, Filters, Model, attr, kanban, before, insert_id,
  sort_ids, external, progress, is_active, attr_card,
}
use millstrand.Kanban.Build.{
  index, parents, parent_of, is_kept, chain, live_ids, prune_closed, climb, nearest_kept,
  attach_all, block_all, count_children, kept_nodes, assemble, build,
}
use millstrand.Kanban.Layout.{layout, IsCached, arranged, kids_of, blockers_of, layout-Reaches}
use millstrand.Kanban.Ancestors.{Nearest}
use millstrand.Kanban.Kids.{build-kids_iff}
use millstrand.Kanban.Parents.{parent_cycle, single_parents, check_cycles, ascend, validate_parents}
use millstrand.Kanban.Singles.{HaveOneParent}
use millstrand.Kanban.Forest.{Rises, validate_parents_iff}
use millstrand.Kanban.Export.{Joins, AreDistinct, validate_edges, validate_edges_iff}
use millstrand.Kanban.Blocking.{build-blockers_iff}
use millstrand.Kanban.Prune.{Above, kept_nodes_iff}
use millstrand.Kanban.Counts.{is_child, is_closed_child, build-progress}
use millstrand.Kanban.Shown.{layout-external}

abbrev card : Str → Str → Str → Strand
card id state created = record {
  id = id;
  title = text "T";
  state = state;
  created_at = created;
  attributes = (attr_card, bool_value true) ∷ [];
}

abbrev agent : Str → Strand
agent id = record {
  id = id;
  title = text "T";
  state = text "active";
  created_at = text "5";
  attributes = [];
}

abbrev task : Str → Strand
task id = record {
  id = id;
  title = text "T";
  state = text "active";
  created_at = text "6";
  attributes = (attr_task, bool_value true) ∷ [];
}

abbrev edge : Str → Str → Edge
edge from_id to_id = record { from = from_id; to = to_id }

-- An epic with two features that block each other, and a closed one below an agent's strand.
abbrev sample : Export
sample = record {
  root_id = text "e";
  strands =
      card (text "e") (text "active") (text "1")
      ∷ card (text "b") (text "active") (text "3")
      ∷ card (text "a") (text "active") (text "2")
      ∷ agent (text "w")
      ∷ card (text "c") (text "closed") (text "4")
      ∷ [];
  parent_of =
      edge (text "e") (text "a")
      ∷ edge (text "e") (text "b")
      ∷ edge (text "e") (text "w")
      ∷ edge (text "w") (text "c")
      ∷ [];
  depends_on =
      edge (text "b") (text "a") ∷ edge (text "a") (text "b") ∷ edge (text "c") (text "a") ∷ [];
}

abbrev cards : Filters
cards = record { all = false; tasks = false; only_open = false }

abbrev board : Model
board = assemble sample cards (card (text "e") (text "active") (text "1")) (index sample.strands [])

build-sample : build sample cards ≡ ok board
unfolding build assemble index put lookup str_eq
build-sample = refl

kids-board : kids_of board (text "e") ≡ text "a" ∷ text "b" ∷ text "c" ∷ []
unfolding assemble index put parents parent_of lookup kept_nodes is_kept kanban attr keep_if str_eq
    has attach_all nearest_kept climb push sort_ids insert_id before str_lt keys items_at
kids-board = refl

tops-board : (layout board (text "e")).1.tops ≡ text "a" ∷ []
unfolding assemble index put parents parent_of lookup kept_nodes is_kept kanban attr keep_if str_eq
    has attach_all nearest_kept climb push sort_ids insert_id before str_lt keys items_at block_all
    layout arrange place_all within promote_unreached promote_rounds first_unseen reachable walk
    walk_fuel weight dependents shared_ids push_all
tops-board = refl

board-IsCached : IsCached board
unfolding IsCached assemble lookup
board-IsCached container sc h = cc

b_in : In (text "b") (kids_of board (text "e"))
b_in = rw kids-board (there (here refl))

layout-Reaches_example : Reaches (layout board (text "e")).1 (text "b")
layout-Reaches_example = layout-Reaches board (text "e") (text "b") board-IsCached b_in

layout-external_example : In (text "a") (blockers_of board (text "b")) ↔ (
    In (text "b") (dependents (layout board (text "e")).1 (text "a"))
    ⊎ In (text "a") (external board (text "e") (text "b")))
layout-external_example = layout-external board (text "e") (text "b") (text "a") board-IsCached b_in

build-kids_iff_example : In (text "c") (items_at (text "e") board.kids) ↔ (
    In (text "c") (keys board.nodes)
    × (str_eq (text "c") board.root_id ≡ false)
    × ((h : ℕ) × Nearest
          (parents sample.parent_of [])
          (keys board.nodes)
          h
          (parent_of (parents sample.parent_of []) (text "c"))
          (text "e")))
build-kids_iff_example = build-kids_iff sample cards board (text "e") (text "c") build-sample

build-progress_example : progress board (text "w") ≡ (
  length (keep_if (is_closed_child (index sample.strands []) (text "w")) sample.parent_of),
  length (keep_if (is_child (index sample.strands []) (text "w")) sample.parent_of),
)
build-progress_example = build-progress sample cards board (text "w") build-sample

progress-w : progress board (text "w") ≡ (1, 1)
unfolding progress assemble count_children index put lookup kanban attr str_eq
progress-w = refl

reachable_iff_example :
    In (text "b") (reachable (arranged board (text "e")))
    ↔ Reaches (arranged board (text "e")) (text "b")
reachable_iff_example = reachable_iff (arranged board (text "e")) (text "b")

-- A chain of three features, each blocked by the one before it.
abbrev chained : Str → List Str
chained id =
    if str_eq id (text "c")
    then text "b" ∷ []
    else if str_eq id (text "b")
    then text "a" ∷ text "x" ∷ []
    else []

abbrev place_of : Str → ℕ
place_of id =
    if str_eq id (text "c")
    then 3
    else if str_eq id (text "b")
    then 2
    else if str_eq id (text "a")
    then 1
    else 0

abbrev features : List Str
features = text "a" ∷ text "b" ∷ text "c" ∷ []

chained_falls :
    (id b : Str) → In id features → In b (within chained features id) → place_of b < place_of id
unfolding within keep_if has str_eq
chained_falls _ _ (here e) i = elim (rw e at i) [ ]
chained_falls id b (there (here e)) i = elim (In-cases (rw e at i)) [
  | inl q ↦ rw (q, e) (omega arith)
  | inr j ↦ elim j [ ]
]
chained_falls id b (there (there (here e))) i = elim (In-cases (rw e at i)) [
  | inl q ↦ rw (q, e) (omega arith)
  | inr j ↦ elim j [ ]
]
chained_falls id b (there (there (there i))) j = elim i [ ]

-- An active card four strands below a closed one.
abbrev deep : List (Str × Strand)
deep =
    (text "e", card (text "e") (text "active") (text "1"))
    ∷ (text "c", card (text "c") (text "closed") (text "2"))
    ∷ (text "a", card (text "a") (text "active") (text "3"))
    ∷ []

abbrev ladder : List (Str × Str)
ladder =
    (text "c", text "e")
    ∷ (text "w", text "c")
    ∷ (text "x", text "w")
    ∷ (text "y", text "x")
    ∷ (text "a", text "y")
    ∷ []

abbrev open_cards : Filters
open_cards = record { all = false; tasks = false; only_open = true }

kept_nodes_iff_example :
    In
      (text "c", card (text "c") (text "closed") (text "2"))
      (kept_nodes (text "e") open_cards ladder deep)
    ↔ (In (text "c", card (text "c") (text "closed") (text "2")) deep
        × (is_kept (text "e") open_cards (text "c", card (text "c") (text "closed") (text "2"))
            ≡ true)
        × ((text "c" ≡ text "e")
            ⊎ ((y : Str) × (t : Strand) × (k : ℕ) × In (y, t) deep
                × (is_kept (text "e") open_cards (y, t) ≡ true)
                × (is_active t ≡ true)
                × (k ≤ length (keep_if (is_kept (text "e") open_cards) deep))
                × Above ladder k y (text "c"))))
kept_nodes_iff_example =
    kept_nodes_iff open_cards deep ladder (text "e") (text "c")
      (card (text "c") (text "closed") (text "2")) refl

-- A closed feature of an epic, with an active task under it.
abbrev feature : List (Str × Strand)
feature =
    (text "e", card (text "e") (text "active") (text "1"))
    ∷ (text "c", card (text "c") (text "closed") (text "2"))
    ∷ (text "t", task (text "t"))
    ∷ []

abbrev feature_parents : List (Str × Str)
feature_parents = (text "c", text "e") ∷ (text "t", text "c") ∷ []

-- The feature is pruned where tasks are not shown, though its task is active, and stays where they
-- are.
kept_nodes-cards : keys (kept_nodes (text "e") open_cards feature_parents feature) ≡ text "e" ∷ []
unfolding kept_nodes is_kept kanban attr prune_closed live_ids chain parent_of lookup keys keep_if
    has str_eq
kept_nodes-cards = refl

kept_nodes-tasks :
    keys (kept_nodes (text "e") (record open_cards { tasks = true }) feature_parents feature)
    ≡ text "e" ∷ text "c" ∷ text "t" ∷ []
unfolding kept_nodes is_kept kanban attr prune_closed live_ids chain parent_of lookup keys keep_if
    has str_eq
kept_nodes-tasks = refl

-- The closed card is pruned, though a live one is below it: the walk up stops after as many hops
-- as strands are kept, and here it passes over more that are not.
prune_closed-deep : keys (prune_closed deep ladder (text "e")) ≡ text "e" ∷ text "a" ∷ []
unfolding prune_closed live_ids chain parent_of lookup keys keep_if has str_eq
prune_closed-deep = refl

build-blockers_iff_example : In (text "a") (items_at (text "b") board.blockers) ↔ (
    (e : Edge) × In e sample.depends_on
    × (text "b" ≡ e.from)
    × (text "a" ≡ e.to)
    × (str_eq e.from e.to ≡ false)
    × In e.from (keys board.nodes)
    × In e.to (keys board.nodes))
build-blockers_iff_example =
    build-blockers_iff sample cards board (text "b") (text "a") build-sample

abbrev joined : List Str
joined = text "e" ∷ text "a" ∷ []

joined-plain : (id : Str) → In id joined → In 0 id → ⊥
joined-plain id i z = elim (In-cases i) [
  | inl q ↦ letter 101 (omega arith) (subst (In 0) q z)
  | inr j ↦ elim (In-cases j) [
    | inl q ↦ letter 97 (omega arith) (subst (In 0) q z)
    | inr k ↦ elim k [ ]
  ]
]
  where
    letter : (c : ℕ) → 1 ≤ c → In 0 (c ∷ []) → ⊥
    letter c p i = elim (In-cases i) [ inl q ↦ absurd (omega (arith, p, q)) | inr k ↦ elim k [ ] ]

validate_edges_iff_example : (validate_edges joined (edge (text "e") (text "a") ∷ []) ≡ ok tt) ↔ (
    ((e : Edge) → In e (edge (text "e") (text "a") ∷ []) → Joins joined e)
    × AreDistinct (edge (text "e") (text "a") ∷ []))
validate_edges_iff_example =
    validate_edges_iff joined (edge (text "e") (text "a") ∷ []) joined-plain

validate_parents_iff_example : (validate_parents sample.parent_of ≡ ok tt) ↔ (
    HaveOneParent sample.parent_of
    × ((e : Edge) → In e sample.parent_of → Rises sample.parent_of e.to))
validate_parents_iff_example = validate_parents_iff sample.parent_of

validate_parents-sample : validate_parents sample.parent_of ≡ ok tt
unfolding validate_parents single_parents check_cycles ascend put lookup str_eq keys parent_of has
validate_parents-sample = refl

validate_parents-cycle :
    validate_parents (edge (text "a") (text "b") ∷ edge (text "b") (text "a") ∷ [])
    ≡ err parent_cycle
unfolding validate_parents single_parents check_cycles ascend put lookup str_eq keys parent_of has
validate_parents-cycle = refl

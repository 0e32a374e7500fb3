-- ===== src/Kanban/Build.antt =====
-- `build`: an export reduced to the model (tools/kanban-tree/tree.go).
use millstrand.Base.{
  put, ℕ, zero, suc, ◌+◌, Str, str_eq, Bool, not, ◌&&◌, ◌||◌, Option, none, some, List, [], ◌∷◌,
  ◌++◌, map, keep_if, length, if◌then◌else◌, Result, ok, err, has, lookup, keys, push,
}
use millstrand.Kanban.Board.{
  Strand, Edge, Export, Filters, Model, attr_card, is_true, is_active, kanban, sort_ids,
}

unfoldable pub index : List Strand → List (Str × Strand) → List (Str × Strand)
index [] by = by
index (s ∷ ss) by = index ss (put s.id s by)

-- The parent of each strand; an edge from a strand to itself is passed over.
unfoldable pub parents : List Edge → List (Str × Str) → List (Str × Str)
parents [] parent = parent
parents (e ∷ es) parent =
    parents es (if not (str_eq e.from e.to) then put e.to e.from parent else parent)

-- `parent[id]`, the empty string for a missing key.
unfoldable pub parent_of : List (Str × Str) → Str → Str
parent_of parent id = elim (lookup id parent) [ none ↦ [] | some p ↦ p ]

unfoldable pub is_kept : Str → Filters → Str × Strand → Bool
is_kept root f (id, s) = str_eq id root || f.all || (f.tasks && kanban s) || is_true s attr_card

-- The ids from `cur` up, as long as the hops last.
unfoldable pub chain : ℕ → List (Str × Str) → Str → List Str
chain zero parent cur = []
chain (suc n) parent cur =
    let rest = chain n parent (parent_of parent cur) in if str_eq cur [] then [] else cur ∷ rest

-- The loop over `keep`: hops 0 to `len(keep)` above each active strand.
unfoldable pub live_ids : ℕ → List (Str × Str) → List (Str × Strand) → List Str
live_ids hops parent [] = []
live_ids hops parent ((id, s) ∷ entries) =
    (if is_active s then chain hops parent id else []) ++ live_ids hops parent entries

unfoldable pub prune_closed : List (Str × Strand) → List (Str × Str) → Str → List (Str × Strand)
prune_closed keep parent root =
    let live = root ∷ live_ids (suc (length keep)) parent keep in keep_if (λ e. has e.0 live) keep

-- The loop of `nearestKept`, from the strand `cur` on.
unfoldable pub climb : ℕ → List (Str × Str) → List Str → Str → Option Str
climb zero parent keep cur = none
climb (suc n) parent keep cur =
    let rest = climb n parent keep (parent_of parent cur) in
    if str_eq cur [] then none else if has cur keep then some cur else rest

unfoldable pub nearest_kept : Str → List (Str × Str) → List Str → Option Str
nearest_kept id parent keep = climb (suc (length parent)) parent keep (parent_of parent id)

abbrev pub attach : Option Str → Str → List (Str × List Str) → List (Str × List Str)
attach none id kids = kids
attach (some anc) id kids = push anc id kids

-- The loop that hangs each kept strand but the root under its nearest kept ancestor.
unfoldable pub attach_all :
    Str → List (Str × Str) → List Str → List Str → List (Str × List Str) → List (Str × List Str)
attach_all root parent keep [] kids = kids
attach_all root parent keep (id ∷ ids) kids =
    attach_all root parent keep ids
      (if str_eq id root then kids else attach (nearest_kept id parent keep) id kids)

unfoldable pub block_all : List Str → List Edge → List (Str × List Str) → List (Str × List Str)
block_all keep [] blockers = blockers
block_all keep (e ∷ es) blockers = block_all keep es (
    if not (str_eq e.from e.to) && has e.from keep && has e.to keep
    then push e.from e.to blockers
    else blockers)

abbrev pub tally : Strand → ℕ × ℕ → ℕ × ℕ
tally child (done, total) = (if is_active child then done else done + 1, total + 1)

-- `counts[id]`
abbrev pub count_at : Str → List (Str × (ℕ × ℕ)) → ℕ × ℕ
count_at id counts = elim (lookup id counts) [ none ↦ (0, 0) | some c ↦ c ]

abbrev pub count_child : Option Strand → Str → List (Str × (ℕ × ℕ)) → List (Str × (ℕ × ℕ))
count_child none source counts = counts
count_child (some child) source counts =
    if not (kanban child) then counts else put source (tally child (count_at source counts)) counts

unfoldable pub count_children :
    List (Str × Strand) → List Edge → List (Str × (ℕ × ℕ)) → List (Str × (ℕ × ℕ))
count_children by [] counts = counts
count_children by (e ∷ es) counts =
    count_children by es (count_child (lookup e.to by) e.from counts)

abbrev pub sort_entries : List (Str × Strand) → List (Str × List Str) → List (Str × List Str)
sort_entries nodes m = map (λ e. (e.0, sort_ids nodes e.1)) m

pub data BuildError : Type 0 where
  missing_root : Str → BuildError

unfoldable pub kept_nodes :
    Str → Filters → List (Str × Str) → List (Str × Strand) → List (Str × Strand)
kept_nodes root f parent by =
    let keep = keep_if (is_kept root f) by in
    if f.only_open then prune_closed keep parent root else keep

unfoldable pub assemble : Export → Filters → Strand → List (Str × Strand) → Model
assemble ex f root by =
    let parent = parents ex.parent_of [] in
    let keep = kept_nodes root.id f parent by in
    record {
      root_id = root.id;
      nodes = keep;
      kids = sort_entries keep (attach_all root.id parent (keys keep) (keys keep) []);
      blockers = sort_entries keep (block_all (keys keep) ex.depends_on []);
      scopes = [];
      counts = count_children by ex.parent_of [];
    }

unfoldable pub build : Export → Filters → Result BuildError Model
build ex f =
    let by = index ex.strands [] in
    elim (lookup ex.root_id by) [
      | none ↦ err (missing_root ex.root_id)
      | some root ↦ ok (assemble ex f root by)
    ]

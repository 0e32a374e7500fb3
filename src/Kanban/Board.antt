-- ===== src/Kanban/Board.antt =====
-- The strands of the board (tools/kanban-tree/export.go) and the model that the tree is drawn from
-- (tools/kanban-tree/tree.go).
use millstrand.Base.{
  ℕ, Str, text, str_eq, str_lt, Bool, true, false, ◌||◌, not, Option, none, some, List, [], ◌∷◌,
  any, keep_if, if◌then◌else◌, has, lookup, items_at,
}
use millstrand.Kanban.Scope.{Scope}

-- The JSON scalars of an attribute. `decode` refuses an export in which an attribute that `attr`
-- reads holds any other JSON value; a number is its text in Go's shortest decimal form.
pub data Value : Type 0 where
  string_value number_value : Str → Value
  bool_value : Bool → Value

pub record Strand : Type 0 where
  pub id : Str
  pub title : Str
  pub state : Str
  pub created_at : Str
  pub attributes : List (Str × Value)

pub record Edge : Type 0 where
  pub from : Str
  pub to : Str

pub record Export : Type 0 where
  pub root_id : Str
  pub strands : List Strand
  pub parent_of : List Edge
  pub depends_on : List Edge

abbrev pub value_text : Option Value → Str
value_text none = []
value_text (some (string_value s)) = s
value_text (some (number_value s)) = s
value_text (some (bool_value true)) = text "true"
value_text (some (bool_value false)) = text "false"

unfoldable pub attr : Strand → Str → Str
attr s key = value_text (lookup key s.attributes)

abbrev pub attr_card : Str
attr_card = text "kanban/card"

abbrev pub attr_task : Str
attr_task = text "kanban/task"

abbrev pub attr_type : Str
attr_type = text "kanban/type"

abbrev pub attr_lane : Str
attr_lane = text "kanban/lane"

abbrev pub attr_outcome : Str
attr_outcome = text "kanban/outcome"

abbrev pub state_active : Str
state_active = text "active"

abbrev pub state_closed : Str
state_closed = text "closed"

abbrev pub is_true : Strand → Str → Bool
is_true s key = str_eq (attr s key) (text "true")

abbrev pub is_active : Strand → Bool
is_active s = str_eq s.state state_active

-- A card or a task.
unfoldable pub kanban : Strand → Bool
kanban s = is_true s attr_card || is_true s attr_task

pub record Filters : Type 0 where
  pub all : Bool
  pub tasks : Bool
  pub only_open : Bool

pub record Model : Type 0 where
  pub root_id : Str
  pub nodes : List (Str × Strand)
  pub kids : List (Str × List Str)
  pub blockers : List (Str × List Str)
  pub scopes : List (Str × Scope)
  pub counts : List (Str × (ℕ × ℕ))

abbrev pub zero_strand : Strand
zero_strand = record { id = []; title = []; state = []; created_at = []; attributes = [] }

-- `m.nodes[id]`, the zero strand for a missing key.
abbrev pub node_at : List (Str × Strand) → Str → Strand
node_at nodes id = elim (lookup id nodes) [ none ↦ zero_strand | some s ↦ s ]

unfoldable pub before : Strand → Strand → Bool
before a b =
    if not (str_eq a.created_at b.created_at)
    then str_lt a.created_at b.created_at
    else str_lt a.id b.id

unfoldable pub insert_id : List (Str × Strand) → Str → List Str → List Str
insert_id nodes x [] = x ∷ []
insert_id nodes x (y ∷ ys) =
    let rest = insert_id nodes x ys in
    if before (node_at nodes y) (node_at nodes x) then y ∷ rest else x ∷ y ∷ ys

-- The stable sort.
unfoldable pub sort_ids : List (Str × Strand) → List Str → List Str
sort_ids nodes [] = []
sort_ids nodes (x ∷ xs) = insert_id nodes x (sort_ids nodes xs)

unfoldable pub external : Model → Str → Str → List Str
external m container id =
    keep_if (λ b. not (has b (items_at container m.kids))) (items_at id m.blockers)

unfoldable pub kind : Model → Str → Str
kind m id =
    let s = node_at m.nodes id in
    if str_eq (attr s attr_type) (text "epic")
    then text "epic"
    else if is_true s attr_card
    then text "feat"
    else if is_true s attr_task
    then text "task"
    else text "work"

unfoldable pub closed_status : Strand → Str
closed_status s =
    if str_eq (attr s attr_outcome) (text "abandoned")
    then text "dropped"
    else if str_eq (attr s attr_outcome) []
    then (if str_eq s.state state_closed then text "done" else s.state)
    else attr s attr_outcome

unfoldable pub live_status : Model → Str → Strand → Str
live_status m id s =
    if is_true s attr_task
    then (if any (λ b. is_active (node_at m.nodes b)) (items_at id m.blockers)
        then text "blocked"
        else text "ready")
    else if not (str_eq (attr s attr_lane) [])
    then (if str_eq (attr s attr_lane) (text "in_review") then text "review" else attr s attr_lane)
    else text "ready"

unfoldable pub status : Model → Str → Str
status m id =
    let s = node_at m.nodes id in if not (is_active s) then closed_status s else live_status m id s

unfoldable pub progress : Model → Str → ℕ × ℕ
progress m id = elim (lookup id m.counts) [ none ↦ (0, 0) | some c ↦ c ]

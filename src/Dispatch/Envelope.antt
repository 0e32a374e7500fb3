-- ===== src/Dispatch/Envelope.antt =====
-- Payload slots, the selection context and the invoke envelope
-- (cli/internal/dispatch/dispatch.go).
use millstrand.Base.{
  ℕ, Str, text, str_eq, Bool, true, false, not, ◌&&◌, ◌||◌, Option, none, some, List, [], ◌∷◌, ◌++◌,
  if◌then◌else◌, ◌==◌, Result, ok, err, ◌>>=◌,
}
use millstrand.Dispatch.Args.{Parsed}

-- A Go map from slot names to contents; a new key goes to the end.
abbrev pub Slots : Type 0
Slots = List (Str × Str)

unfoldable pub slot : Str → Slots → Option Str
slot name [] = none
slot name ((k, v) ∷ m) = if str_eq k name then some v else slot name m

abbrev pub is_some {ℓ} : {A : Type ℓ} → Option A → Bool
is_some none = false
is_some (some _) = true

pub data PayloadError : Type 0 where
  stdin_unreadable : PayloadError
  malformed_payload : Str → PayloadError
  duplicate_slot : Str → PayloadError
  payload_unreadable : Str → PayloadError

-- strings.Cut(spec, "=")
abbrev pub cons_first : ℕ → Option (Str × Str) → Option (Str × Str)
cons_first c none = none
cons_first c (some (name, path)) = some (c ∷ name, path)

unfoldable pub cut : Str → Option (Str × Str)
cut [] = none
cut (c ∷ spec) = let later = cut spec in if c == b'=' then some ([], spec) else cons_first c later

-- What the process sees of the system.
pub record World : Type 0 where
  pub stdin : Option Str
  pub read_file : Str → Option Str
  pub getwd : Option Str
  pub derive_git_context : Str → Option (Str × Str)

abbrev pub read_payload : Option Str → Str → Slots → Result PayloadError Slots
read_payload none name slots = err (payload_unreadable name)
read_payload (some content) name slots = ok (slots ++ (name, content) ∷ [])

abbrev pub load_slot : World → Str → Option (Str × Str) → Slots → Result PayloadError Slots
load_slot w spec none slots = err (malformed_payload spec)
load_slot w spec (some (name, path)) slots =
    if str_eq name [] || str_eq path []
    then err (malformed_payload spec)
    else if is_some (slot name slots)
    then err (duplicate_slot name)
    else read_payload (w.read_file path) name slots

-- The loop over the specs.
unfoldable pub load_slots : World → List Str → Slots → Result PayloadError Slots
load_slots w [] slots = ok slots
load_slots w (spec ∷ specs) slots = do
  next ← load_slot w spec (cut spec) slots
  load_slots w specs next

abbrev pub stdin_slots : Bool → Option Str → Result PayloadError Slots
stdin_slots false content = ok []
stdin_slots true none = err stdin_unreadable
stdin_slots true (some content) = ok ((text "stdin", content) ∷ [])

unfoldable pub build_payloads : World → Parsed → Result PayloadError Slots
unfolding load_slots
build_payloads w p = do slots ← stdin_slots p.stdin w.stdin; load_slots w p.payloads slots

pub data ContextError : Type 0 where
  no_cwd no_git_context : ContextError

pub record Context : Type 0 where
  pub cwd : Str
  pub worktree_root : Str
  pub git_common_dir : Str

abbrev pub or_derived : Str → Str → Str
or_derived given derived = if str_eq given [] then derived else given

-- After `deriveGitContext`.
abbrev pub derived_context : Parsed → Str → Option (Str × Str) → Result ContextError Context
derived_context p cwd none =
    let workspace_pinned = not (str_eq p.workspace []) in
    let git_pinned = not (str_eq p.worktree_root []) && not (str_eq p.git_common_dir []) in
    if not workspace_pinned && not git_pinned
    then err no_git_context
    else ok
        (record { cwd = cwd; worktree_root = p.worktree_root; git_common_dir = p.git_common_dir })
derived_context p cwd (some (root, common)) = ok (record {
  cwd = cwd;
  worktree_root = or_derived p.worktree_root root;
  git_common_dir = or_derived p.git_common_dir common;
})

abbrev pub context_at : World → Parsed → Str → Result ContextError Context
context_at w p cwd =
    if str_eq p.worktree_root [] || str_eq p.git_common_dir []
    then derived_context p cwd (w.derive_git_context cwd)
    else ok
        (record { cwd = cwd; worktree_root = p.worktree_root; git_common_dir = p.git_common_dir })

abbrev pub cwd_or_error : Option Str → Result ContextError Str
cwd_or_error none = err no_cwd
cwd_or_error (some cwd) = ok cwd

unfoldable pub resolve_context : World → Parsed → Result ContextError Context
resolve_context w p = do
  cwd ← (if str_eq p.cwd [] then cwd_or_error w.getwd else ok p.cwd)
  context_at w p cwd

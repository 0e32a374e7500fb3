-- ===== src/Pools/Store.antt =====
-- Reading and replacing the membership file (cli/internal/jvmpool/registry.go).
use Prim.Native.Nat.{bit_and, bit_or}
use millstrand.Base.{
  ℕ, zero, suc, ◌+◌, ◌-◌, ◌/◌, ◌%◌, Str, str_eq, str_lt, ltb, Bool, true, Option, none, some, List,
  [], ◌∷◌, ◌++◌, take, drop, if◌then◌else◌, Result, ok, err, ◌>>◌,
}
use millstrand.Pools.Membership.{
  Member, Document, WriteStep, make_directory, encode, create_temporary, change_mode, write_bytes,
  sync_file, close_file, rename, open_directory, sync_directory, remove_temporary, Error,
  read_failed, malformed, trailing_json, revision_failed, write_failed, membership_format,
  revision_prefix, items, validate_document,
}

-- What `os.ReadFile` and the JSON decoder make of the membership path.
pub data File : Type 0 where
  absent unreadable undecodable trailing : File
  holds : Document → File

-- The registry's directory: the membership file, and the names of the temporary files beside it.
pub record Disk : Type 0 where
  pub file : File
  pub temporaries : List Str

-- What the system decides in one call: the random bytes, if it gives any, the name that
-- `os.CreateTemp` makes, and the steps that fail.
pub record System : Type 0 where
  pub random : Option (List ℕ)
  pub temporary : Str
  pub fails : WriteStep → Bool

pub record Mutation : Type 0 where
  pub changed : Bool
  pub revision : Str
  pub members : List Member

abbrev pub empty_document : Document
empty_document = record { format = membership_format; revision = []; members = some [] }

unfoldable pub read_locked : File → Result Error Document
read_locked absent = ok empty_document
read_locked unreadable = err read_failed
read_locked undecodable = err malformed
read_locked trailing = err trailing_json
read_locked (holds doc) = do validate_document doc true; ok doc

unfoldable pub insert_member : Member → List Member → List Member
insert_member m [] = m ∷ []
insert_member m (x ∷ xs) =
    let rest = insert_member m xs in
    if str_lt m.config_dir x.config_dir then m ∷ x ∷ xs else x ∷ rest

-- `sort.Slice` by config directory.
unfoldable pub sort_members : List Member → List Member
unfolding insert_member
sort_members [] = []
sort_members (x ∷ xs) = insert_member x (sort_members xs)

hex_digit : ℕ → ℕ
hex_digit n = if ltb n 10 then b'0' + n else b'a' + n - 10

-- hex.EncodeToString
unfoldable pub hex : List ℕ → Str
unfolding hex_digit
hex [] = []
hex (b ∷ bs) = hex_digit (b / 16) ∷ hex_digit (b % 16) ∷ hex bs

-- The byte at an index, changed in place.
abbrev update_at : ℕ → (ℕ → ℕ) → List ℕ → List ℕ
update_at n f [] = []
update_at zero f (b ∷ bs) = f b ∷ bs
update_at (suc n) f (b ∷ bs) = b ∷ update_at n f bs

-- The version and variant bits of a UUIDv4.
stamp_uuid : List ℕ → List ℕ
stamp_uuid raw =
    update_at 8 (λ b. bit_or (bit_and b 0x3f) 0x80)
      (update_at 6 (λ b. bit_or (bit_and b 0x0f) 0x40) raw)

uuid_text : List ℕ → Str
unfolding hex
uuid_text raw =
    hex (take 4 raw)
    ++ (b'-' ∷ hex (take 2 (drop 4 raw)))
    ++ (b'-' ∷ hex (take 2 (drop 6 raw)))
    ++ (b'-' ∷ hex (take 2 (drop 8 raw)))
    ++ (b'-' ∷ hex (take 6 (drop 10 raw)))

unfoldable pub new_revision : Option (List ℕ) → Result Error Str
unfolding stamp_uuid uuid_text
new_revision none = err revision_failed
new_revision (some raw) = ok (revision_prefix ++ uuid_text (stamp_uuid raw))

-- The names without the first that is the given one.
abbrev pub drop_name : Str → List Str → List Str
drop_name name [] = []
drop_name name (x ∷ xs) = let rest = drop_name name xs in if str_eq name x then xs else x ∷ rest

-- What each step of a write does to the directory, when it succeeds.
abbrev pub effect : Str → Document → WriteStep → Disk → Disk
effect name doc create_temporary d = record d { temporaries = name ∷ d.temporaries }
effect name doc rename d = record { file = holds doc; temporaries = drop_name name d.temporaries }
effect name doc remove_temporary d = record d { temporaries = drop_name name d.temporaries }
effect name doc _ d = d

-- Runs the steps in order up to the first that fails.
unfoldable pub run_steps :
    System → Document → List WriteStep → Disk → Disk × Result Error (Unit {0})
run_steps sys doc [] d = (d, ok tt)
run_steps sys doc (s ∷ ss) d =
    let rest = run_steps sys doc ss (effect sys.temporary doc s d) in
    if sys.fails s then (d, err (write_failed s)) else rest

abbrev pub first_steps : List WriteStep
first_steps = make_directory ∷ encode ∷ create_temporary ∷ []

abbrev pub last_steps : List WriteStep
last_steps =
    change_mode ∷ write_bytes ∷ sync_file ∷ close_file ∷ rename ∷ open_directory ∷ sync_directory
    ∷ []

-- The deferred `os.Remove` of the temporary name.
abbrev pub deferred :
    System → Document → Disk × Result Error (Unit {0}) → Disk × Result Error (Unit {0})
deferred sys doc (d, r) =
    (if sys.fails remove_temporary then d else effect sys.temporary doc remove_temporary d, r)

-- It runs on every way out that follows the creation.
abbrev pub write_created :
    System → Document → Disk × Result Error (Unit {0}) → Disk × Result Error (Unit {0})
write_created sys doc (d, err e) = (d, err e)
write_created sys doc (d, ok _) = deferred sys doc (run_steps sys doc last_steps d)

unfoldable pub atomic_write : System → Document → Disk → Disk × Result Error (Unit {0})
unfolding run_steps
atomic_write sys doc d = write_created sys doc (run_steps sys doc first_steps d)

unfoldable pub mutation_from : Document → Bool → Mutation
mutation_from doc changed = record {
  changed = changed;
  revision = doc.revision;
  members = items doc.members;
}

abbrev pub with_mutation : Document → Disk × Result Error (Unit {0}) → Disk × Result Error Mutation
with_mutation doc (d, err e) = (d, err e)
with_mutation doc (d, ok _) = (d, ok (mutation_from doc true))

abbrev pub replace_with :
    System → List Member → Disk → Result Error Str → Disk × Result Error Mutation
replace_with sys ms d (err e) = (d, err e)
replace_with sys ms d (ok revision) =
    let doc : Document = record {
      format = membership_format;
      revision = revision;
      members = some ms;
    } in
    with_mutation doc (atomic_write sys doc d)

unfoldable pub replace_locked : System → List Member → Disk → Disk × Result Error Mutation
replace_locked sys ms d = replace_with sys (sort_members ms) d (new_revision sys.random)

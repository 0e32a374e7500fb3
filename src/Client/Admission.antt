-- ===== src/Client/Admission.antt =====
-- Which mills, responses and storage identities a client admits (cli/internal/client/mill.go and
-- cli/internal/client/client.go).
use millstrand.Base.{
  ℕ, Str, str_eq, str_eq→eq, str_eq_refl, ◌≡◌, ◌≢◌, ◌↔◌, refl, Bool, true, false, Option, none,
  some, List, [], ◌∷◌, ℤ, pos, ok, err, ok-injective, >>=-eq-ok, arith,
}
use millstrand.Client.Frames.{ResponseError, valid_response_error}
use millstrand.Client.Metadata.{
  MillMetadata, MetadataError, MetadataFile, content, absent, unreadable, MillWorld, ensure,
  or_else, read_file, complete, is_int, missing_metadata_fields, mill_protocol_version,
  read_mill_metadata,
}
use millstrand.Client.Calls.{MillResponse, declared, check_response}

-- The mill that a metadata file describes, and that is there to be spoken to.
pub record IsRunning (w : MillWorld) (m : MillMetadata) : Type 0 where
  pub located : w.has_metadata_path ≡ true
  pub stored : (s : Str) × (w.file ≡ content s) × (w.decode s ≡ some m)
  pub identified :
      (m.pid ≢ pos 0)
      × (m.mill_id ≢ [])
      × (m.started_at ≢ [])
      × (m.state_root ≢ [])
      × (m.socket_path ≢ [])
  pub placed :
      (root : Str) × (w.state_root ≡ some root)
      × (w.same_path m.state_root root ≡ true)
      × (w.same_path m.socket_path (w.socket_in root) ≡ true)
  pub alive : w.pid_alive m.pid ≡ true
  pub speaks : m.protocol_version ≡ pos mill_protocol_version

missing_metadata_fields-eq-nil :
    (m : MillMetadata)
    → (missing_metadata_fields m ≡ []) ↔ (
        (m.protocol_version ≢ pos 0)
        × (m.pid ≢ pos 0)
        × (m.mill_id ≢ [])
        × (m.state_root ≢ [])
        × (m.socket_path ≢ [])
        × (m.started_at ≢ []))
unfolding missing_metadata_fields str_eq
missing_metadata_fields-eq-nil m = ground arith

ensure-eq-ok : (b : Bool) (e : MetadataError) (u : Unit {0}) → ensure b e ≡ ok u → b ≡ true
ensure-eq-ok true e u h = refl
ensure-eq-ok false e u h = cc

or_else-eq-ok :
    {A : Type 0} (o : Option A) (e : MetadataError) (a : A) → or_else o e ≡ ok a → o ≡ some a
or_else-eq-ok none e a h = cc
or_else-eq-ok (some b) e a h = cc

read_file-eq-ok : (f : MetadataFile) (s : Str) → read_file f ≡ ok s → f ≡ content s
read_file-eq-ok absent s h = cc
read_file-eq-ok unreadable s h = cc
read_file-eq-ok (content t) s h = cc

complete-eq-ok : (names : List Str) (u : Unit {0}) → complete names ≡ ok u → names ≡ []
complete-eq-ok [] u h = refl
complete-eq-ok (name ∷ names) u h = cc

is_int_iff : (n : ℕ) (k : ℤ) → (is_int n k ≡ true) ↔ (k ≡ pos n)
is_int_iff n k = ground arith

-- `ReadMillMetadata` returns exactly the metadata of a running mill: complete, of this state root
-- and its socket, of a process that is alive, and of the protocol of this client.
pub read_mill_metadata_iff :
    (w : MillWorld) (m : MillMetadata) → (read_mill_metadata w ≡ ok m) ↔ IsRunning w m
unfolding read_mill_metadata
read_mill_metadata_iff w m = (forth, back)
  where
    forth : read_mill_metadata w ≡ ok m → IsRunning w m
    forth h =
        let (u, at_path, h1) = >>=-eq-ok (ensure w.has_metadata_path _) _ h in
        let (s, read, h2) = >>=-eq-ok (read_file w.file) _ h1 in
        let (x, decoded, h3) = >>=-eq-ok (or_else (w.decode s) _) _ h2 in
        let (root, rooted, h4) = >>=-eq-ok (or_else w.state_root _) _ h3 in
        let (u5, full, h5) = >>=-eq-ok (complete (missing_metadata_fields x)) _ h4 in
        let (u6, at_root, h6) = >>=-eq-ok (ensure (w.same_path x.state_root root) _) _ h5 in
        let (u7, at_socket, h7) =
          >>=-eq-ok (ensure (w.same_path x.socket_path (w.socket_in root)) _) _ h6 in
        let (u8, alive, h8) = >>=-eq-ok (ensure (w.pid_alive x.pid) _) _ h7 in
        let (u9, speaks, h9) =
          >>=-eq-ok (ensure (is_int mill_protocol_version x.protocol_version) _) _ h8 in
        let (version, pid, id, state, socket, begun) =
          (missing_metadata_fields-eq-nil x).0 (complete-eq-ok _ u5 full) in
        rw (← ok-injective h9) (record {
          located = ensure-eq-ok _ _ u at_path;
          stored = (s, read_file-eq-ok _ s read, or_else-eq-ok _ _ x decoded);
          identified = (pid, id, begun, state, socket);
          placed = (
            root,
            or_else-eq-ok _ _ root rooted,
            ensure-eq-ok _ _ u6 at_root,
            ensure-eq-ok _ _ u7 at_socket,
          );
          alive = ensure-eq-ok _ _ u8 alive;
          speaks = (is_int_iff _ _).0 (ensure-eq-ok _ _ u9 speaks);
        })

    back : IsRunning w m → read_mill_metadata w ≡ ok m
    back r =
        let (s, file, decoded) = r.stored in
        let (root, rooted, at_root, at_socket) = r.placed in
        let (pid, id, begun, state, socket) = r.identified in
        let version : m.protocol_version ≢ pos 0 = λ q. absurd (ground (arith, r.speaks)) in
        let full = (missing_metadata_fields-eq-nil m).1 (version, pid, id, state, socket, begun) in
        simp (r.located, file, decoded, rooted, full, at_root, at_socket, r.alive, r.speaks) refl

-- A response that answers the request, as a success.
pub record IsSuccess (request_id : Str) (resp : MillResponse) (value : Option Str) : Type 0 where
  pub protocol : resp.protocol_version ≡ pos mill_protocol_version
  pub request : resp.request_id ≡ request_id
  pub succeeded : resp.succeeded ≡ true
  pub error : resp.error ≡ none
  pub result : resp.result ≡ value

-- A response that answers the request with an error that the protocol admits.
pub record IsRefusal (request_id : Str) (resp : MillResponse) (e : ResponseError) : Type 0 where
  pub protocol : resp.protocol_version ≡ pos mill_protocol_version
  pub request : resp.request_id ≡ request_id
  pub refused : resp.succeeded ≡ false
  pub error : resp.error ≡ some e
  pub valid : valid_response_error e ≡ true
  pub result : resp.result ≡ none

-- Of a decoded response, the client accepts exactly the successes of its own request and
-- protocol, and passes on as declared exactly the well-formed errors of these.
pub check_response_iff :
    (request_id : Str) (resp : MillResponse)
    → ((result : Option Str)
        → (check_response request_id resp ≡ ok result) ↔ IsSuccess request_id resp result)
      × ((e : ResponseError)
          → (check_response request_id resp ≡ err (declared e)) ↔ IsRefusal request_id resp e)
unfolding check_response
check_response_iff request_id resp = (
  λ value. (
    accepted value,
    λ i. simp (i.protocol, i.request, i.succeeded, i.error, i.result, str_eq_refl request_id) refl,
  ),
  λ e. (
    refused e,
    λ i.
        simp (i.protocol, i.request, i.refused, i.error, i.valid, i.result, str_eq_refl request_id)
          refl,
  ),
)
  where
    accepted :
        (value : Option Str)
        → check_response request_id resp ≡ ok value
        → IsSuccess request_id resp value
    accepted value h = record {
      protocol = ground arith;
      request = str_eq→eq resp.request_id request_id (ground arith);
      succeeded = ground arith;
      error = ground arith;
      result = ground arith;
    }

    refused :
        (e : ResponseError)
        → check_response request_id resp ≡ err (declared e)
        → IsRefusal request_id resp e
    refused e h = record {
      protocol = ground arith;
      request = str_eq→eq resp.request_id request_id (ground arith);
      refused = ground arith;
      error = ground arith;
      valid = ground arith;
      result = ground arith;
    }

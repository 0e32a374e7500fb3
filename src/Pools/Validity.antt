-- ===== src/Pools/Validity.antt =====
-- What `validateDocument` accepts, stated of the rows (cli/internal/jvmpool/registry.go).
use millstrand.Base.{
  Str, str_eq, str_eq_iff, str_eq→eq, str_lt, has_prefix, ◌≡◌, refl, ◌≢◌, true, false, Bool-cases,
  inl, inr, Option, none, some, List, [], ◌∷◌, any, ok, >>=-eq-ok, arith,
}
use millstrand.Pools.Membership.{
  Member, Document, membership_format, revision_prefix, items, validate_member, check_rows,
  check_sorted, check_members, validate_document,
}
use millstrand.Pools.Rows.{
  find, All, Distinct, Ascending, Ascending-Distinct, Above-trans, find-miss,
}

abbrev pub IsMember : Member → Type 0
IsMember m = validate_member m ≡ ok tt

-- The envelope of a stored document.
pub record IsValid (doc : Document) : Type 0 where
  pub named : doc.format ≡ membership_format
  pub revised : has_prefix doc.revision revision_prefix ≡ true
  pub array : doc.members ≢ none
  pub rows : All IsMember (items doc.members)
  pub ascending : Ascending (items doc.members)

-- No row's directory is among those seen.
abbrev Fresh : List Str → List Member → Type 0
Fresh seen ms = All (λ m. any (str_eq m.config_dir) seen ≡ false) ms

Fresh-cons :
    (dir : Str) (seen : List Str) (ms : List Member)
    → find dir ms ≡ none
    → Fresh seen ms
    → Fresh (dir ∷ seen) ms
unfolding any
Fresh-cons dir seen [] n f = tt
Fresh-cons dir seen (m ∷ ms) n f =
    let (apart, rest) = find-miss dir m ms n in (rw apart f.0, Fresh-cons dir seen ms rest f.1)

Fresh-nil : (ms : List Member) → Fresh [] ms
unfolding any
Fresh-nil [] = tt
Fresh-nil (m ∷ ms) = (refl, Fresh-nil ms)

check_rows_complete :
    (seen : List Str) (ms : List Member)
    → All IsMember ms
    → Distinct ms
    → Fresh seen ms
    → check_rows seen ms ≡ ok tt
unfolding check_rows
check_rows_complete seen [] v d f = refl
check_rows_complete seen (m ∷ ms) v d f =
    rw (v.0, f.0)
      (check_rows_complete (m.config_dir ∷ seen) ms v.1 d.1
        (Fresh-cons m.config_dir seen ms d.0 f.1))

check_rows_sound :
    (seen : List Str) (ms : List Member) → check_rows seen ms ≡ ok tt → All IsMember ms
unfolding check_rows
check_rows_sound seen [] h = tt
check_rows_sound seen (m ∷ ms) h =
    let (u, valid, rest) = >>=-eq-ok (validate_member m) _ h in
    (valid, check_rows_sound (m.config_dir ∷ seen) ms (ground arith))

check_sorted_complete : (ms : List Member) → Ascending ms → check_sorted ms ≡ ok tt
unfolding check_sorted
check_sorted_complete [] h = refl
check_sorted_complete (a ∷ []) h = refl
check_sorted_complete (a ∷ b ∷ rest) h = rw h.0.0 (check_sorted_complete (b ∷ rest) h.1)

check_sorted_sound : (ms : List Member) → check_sorted ms ≡ ok tt → Ascending ms
unfolding check_sorted
check_sorted_sound [] h = tt
check_sorted_sound (a ∷ []) h = (tt, tt)
check_sorted_sound (a ∷ b ∷ rest) h = elim (Bool-cases (str_lt a.config_dir b.config_dir)) [
  | inl e ↦
      let below = check_sorted_sound (b ∷ rest) (ground arith) in
      ((e, Above-trans a.config_dir b.config_dir rest e below.0), below)
  | inr e ↦ absurd (ground arith)
]

prefix-nonempty : (s : Str) → has_prefix s revision_prefix ≡ true → str_eq s [] ≡ false
unfolding has_prefix str_eq
prefix-nonempty [] h = cc
prefix-nonempty (c ∷ s) h = refl

check_members_sound :
    (o : Option (List Member))
    → check_members o ≡ ok tt
    → (o ≢ none) × All IsMember (items o) × Ascending (items o)
check_members_sound none h = cc
check_members_sound (some ms) h =
    let (u, rows, sorted) = >>=-eq-ok (check_rows [] ms) _ h in
    (λ e. cc, check_rows_sound [] ms rows, check_sorted_sound ms sorted)

check_members_complete :
    (o : Option (List Member))
    → o ≢ none
    → All IsMember (items o)
    → Ascending (items o)
    → check_members o ≡ ok tt
check_members_complete none n v a = absurd (n refl)
check_members_complete (some ms) n v a =
    rw (check_rows_complete [] ms v (Ascending-Distinct ms a) (Fresh-nil ms))
      (check_sorted_complete ms a)

-- The tests of `validateDocument` on a stored document, read off its result.
envelope :
    (doc : Document)
    → validate_document doc true ≡ ok tt
    → (str_eq doc.format membership_format ≡ true)
      × (has_prefix doc.revision revision_prefix ≡ true)
      × (check_members doc.members ≡ ok tt)
unfolding validate_document
envelope doc h = ground arith

pub validate_document_sound : (doc : Document) → validate_document doc true ≡ ok tt → IsValid doc
validate_document_sound doc h =
    let (format, prefix, members) = envelope doc h in
    let (array, rows, ascending) = check_members_sound doc.members members in
    record {
      named = str_eq→eq doc.format membership_format format;
      revised = prefix;
      array = array;
      rows = rows;
      ascending = ascending;
    }

pub validate_document_complete : (doc : Document) → IsValid doc → validate_document doc true ≡ ok tt
unfolding validate_document
validate_document_complete doc v =
    rw
      (
        (str_eq_iff doc.format membership_format).1 v.named,
        v.revised,
        prefix-nonempty doc.revision v.revised,
      )
      (check_members_complete doc.members v.array v.rows v.ascending)

-- ===== src/Kanban/Promote.antt =====
-- `promoteUnreached` (tools/kanban-tree/tree.go).
use millstrand.Base.{
  ℕ, suc, ◌≤◌, Str, ◌≡◌, refl, inl, inr, true, false, Bool-cases, Option-cases, some_cancel, none,
  some, List, [], ◌∷◌, ◌++◌, length, if◌then◌else◌, In, here, there, In-cases, In-append_left,
  In-append_right, has, has_sound, has_complete, arith,
}
use millstrand.Kanban.Scope.{
  Scope, dependents, weight, reachable, first_unseen, promote_rounds, promote_unreached,
}
use millstrand.Kanban.Reach.{Reaches, top, under, reachable_iff}

abbrev pub promoted : Scope → Str → Scope
promoted sc id = record sc { tops = sc.tops ++ id ∷ [] }

Reaches-promoted : (sc : Scope) (id x : Str) → Reaches sc x → Reaches (promoted sc id) x
unfolding dependents
Reaches-promoted sc id x (top i) = top (In-append_left sc.tops (id ∷ []) i)
Reaches-promoted sc id x (under {by = by} r i) = under (Reaches-promoted sc id by r) i

-- One for each child that is not seen.
abbrev pub count_unseen : List Str → List Str → ℕ
count_unseen seen children = weight (λ c. if has c seen then 0 else 1) children

pub count_unseen_le : (seen children : List Str) → count_unseen seen children ≤ length children
unfolding weight
count_unseen_le seen [] = omega arith
count_unseen_le seen (c ∷ children) = ground (arith, count_unseen_le seen children)

count_unseen_zero :
    (seen children : List Str)
    → count_unseen seen children ≤ 0
    → (c : Str) → In c children
    → In c seen
unfolding weight
count_unseen_zero seen [] h c i = elim i [ ]
count_unseen_zero seen (x ∷ children) h c i = elim (In-cases i) [
  | inl e ↦ rw e (has_sound x seen (ground arith))
  | inr j ↦ count_unseen_zero seen children (ground arith) c j
]

abbrev Within : List Str → List Str → Type 0
Within seen later = (x : Str) → In x seen → In x later

has-Within :
    (seen later : List Str) → Within seen later → (c : Str) → has c seen ≡ true → has c later ≡ true
has-Within seen later w c h = has_complete c later (w c (has_sound c seen h))

count_unseen-Within :
    (seen later children : List Str)
    → Within seen later
    → count_unseen later children ≤ count_unseen seen children
unfolding weight
count_unseen-Within seen later [] w = omega arith
count_unseen-Within seen later (c ∷ children) w = elim (Bool-cases (has c seen)) [
  | inl e ↦
      rw (e, has-Within seen later w c e) (omega (arith, count_unseen-Within seen later children w))
  | inr e ↦ ground (arith, count_unseen-Within seen later children w)
]

-- Seeing a child more lowers the count.
pub count_unseen_lt :
    (seen later children : List Str) (id : Str)
    → Within seen later
    → In id children
    → has id seen ≡ false
    → has id later ≡ true
    → suc (count_unseen later children) ≤ count_unseen seen children
unfolding weight
count_unseen_lt seen later [] id w i before after = elim i [ ]
count_unseen_lt seen later (c ∷ children) id w i before after = elim (In-cases i) [
  | inl e ↦ rw (← e, before, after) (omega (arith, count_unseen-Within seen later children w))
  | inr j ↦ elim (Bool-cases (has c seen)) [
    | inl e ↦
        rw (e, has-Within seen later w c e)
          (omega (arith, count_unseen_lt seen later children id w j before after))
    | inr e ↦ ground (arith, count_unseen_lt seen later children id w j before after)
  ]
]

first_unseen-none :
    (seen children : List Str)
    → first_unseen seen children ≡ none
    → (c : Str) → In c children
    → In c seen
unfolding first_unseen
first_unseen-none seen [] h c i = elim i [ ]
first_unseen-none seen (x ∷ children) h c i = elim (In-cases i) [
  | inl e ↦ rw e (has_sound x seen (ground arith))
  | inr j ↦ first_unseen-none seen children (ground arith) c j
]

first_unseen-some :
    (seen children : List Str) (id : Str)
    → first_unseen seen children ≡ some id
    → In id children × (has id seen ≡ false)
unfolding first_unseen
first_unseen-some seen [] id h = cc
first_unseen-some seen (x ∷ children) id h = elim (Bool-cases (has x seen)) [
  | inl e ↦ let (i, n) = first_unseen-some seen children id (rw e at h) in (there i, n)
  | inr e ↦ let same : x ≡ id = some_cancel (rw e at h) in rw (← same) (here refl, e)
]

rounds_lem :
    (rounds children : List Str) (sc : Scope)
    → count_unseen (reachable sc) children ≤ length rounds
    → (c : Str) → In c children
    → Reaches (promote_rounds rounds children sc) c
unfolding promote_rounds
rounds_lem [] children sc h c i =
    (reachable_iff sc c).0 (count_unseen_zero (reachable sc) children h c i)
rounds_lem (r ∷ rounds) children sc h c i =
    elim (Option-cases (first_unseen (reachable sc) children)) [
      | inl e ↦
          rw (promote_rounds, e)
            ((reachable_iff sc c).0 (first_unseen-none (reachable sc) children e c i))
      | inr (id, e) ↦
          let (child, unseen) = first_unseen-some (reachable sc) children id e in
          let sc' : Scope = promoted sc id in
          let fewer =
            count_unseen_lt (reachable sc) (reachable sc') children id
              (λ x j. (reachable_iff sc' x).1 (Reaches-promoted sc id x ((reachable_iff sc x).0 j)))
              child unseen
              (has_complete id (reachable sc')
                ((reachable_iff sc' id).1 (top (In-append_right sc.tops (id ∷ []) (here refl))))) in
          rw (promote_rounds, e) (rounds_lem rounds children sc' (omega (arith, fewer, h)) c i)
    ]

-- After `promoteUnreached` every child is drawn: a branch of the tree reaches it, whatever cycles
-- the dependencies have, in as many rounds as there are children.
pub promote_unreached-Reaches :
    (children : List Str) (sc : Scope) (c : Str)
    → In c children
    → Reaches (promote_unreached children sc) c
unfolding promote_unreached
promote_unreached-Reaches children sc c i =
    rounds_lem children children sc (count_unseen_le (reachable sc) children) c i

-- Where every child is drawn already, nothing is promoted.
pub promote_unreached-settled :
    (children : List Str) (sc : Scope)
    → ((c : Str) → In c children → Reaches sc c)
    → promote_unreached children sc ≡ sc
unfolding promote_unreached promote_rounds
promote_unreached-settled [] sc h = refl
promote_unreached-settled (x ∷ xs) sc h =
    elim (Option-cases (first_unseen (reachable sc) (x ∷ xs))) [
      | inl e ↦ rw (promote_unreached, promote_rounds, e) refl
      | inr (id, e) ↦
          let (child, unseen) = first_unseen-some (reachable sc) (x ∷ xs) id e in
          let seen : has id (reachable sc) ≡ true =
            has_complete id (reachable sc) ((reachable_iff sc id).1 (h id child)) in
          cc
    ]

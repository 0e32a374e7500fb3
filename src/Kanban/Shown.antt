-- ===== src/Kanban/Shown.antt =====
-- Where the tree shows a dependency: as a branch, or in the line's note (tools/kanban-tree/tree.go).
use millstrand.Base.{Str, ◌↔◌, ◌⊎◌, inl, inr, refl, not, Bool-cases, In, has}
use millstrand.Kanban.Scope.{within, dependents}
use millstrand.Kanban.Edges.{arrange-dependents_iff}
use millstrand.Kanban.Prune.{In-keep_if_iff}
use millstrand.Kanban.Board.{Model, external}
use millstrand.Kanban.Layout.{kids_of, blockers_of, arranged, layout, IsCached, layout-IsCached}

arranged_iff :
    (m : Model) (container x b : Str)
    → In x (kids_of m container)
    → In b (blockers_of m x)
      ↔ (In x (dependents (arranged m container) b) ⊎ In b (external m container x))
unfolding external within
arranged_iff m container x b i =
    let (to, of) = arrange-dependents_iff (blockers_of m) (kids_of m container) b x in
    let (among, back) = In-keep_if_iff (λ c. has c (kids_of m container)) b (blockers_of m x) in
    let (apart, again) =
      In-keep_if_iff (λ c. not (has c (kids_of m container))) b (blockers_of m x) in
    (
      λ j. elim (Bool-cases (has b (kids_of m container))) [
        | inl e ↦ inl (of (i, back (j, e)))
        | inr e ↦ inr (again (j, rw e refl))
      ],
      λ s. elim s [ inl d ↦ let (child, w) = to d in (among w).0 | inr o ↦ (apart o).0 ],
    )

-- Where every cached scope is its container's arrangement, an id is a blocker of a child of the
-- container exactly if the child hangs under it as a branch of the container's scope, or
-- `external` lists it for the child.
pub layout-external :
    (m : Model) (container x b : Str)
    → IsCached m
    → In x (kids_of m container)
    → In b (blockers_of m x)
      ↔ (In x (dependents (layout m container).1 b) ⊎ In b (external m container x))
layout-external m container x b c i =
    rw (layout-IsCached m container c).0 (arranged_iff m container x b i)

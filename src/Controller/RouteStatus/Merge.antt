-- ===== src/Controller/RouteStatus/Merge.antt =====
-- What the merge of statuses in internal/controller/httproute_controller.go keeps and writes.
use tor_gateway.Base.{
  ◌≡◌, refl, ap, ◌∙◌, inl, inr, String, true, false, Option, List, [], ◌∷◌, ◌++◌, map, not, select,
  if◌then◌else◌, eq_iff, All, Bool-cases,
}
use tor_gateway.Api.{Condition, RouteParentStatus, HttpRoute}
use tor_gateway.Controller.Conditions.{controller_name}
use tor_gateway.Controller.RouteStatus.{
  conditions_equal, route_parents_equal, is_foreign, with_parents, merged,
  merge_route_parent_statuses,
}

-- An entry of this operator.
abbrev pub IsOwn : RouteParentStatus → Type 0
IsOwn p = p.controller_name ≡ controller_name

own-is_foreign : (p : RouteParentStatus) → IsOwn p → is_foreign p ≡ false
unfolding is_foreign
own-is_foreign p own = ap not ((eq_iff p.controller_name controller_name).1 own)

select-own : (ps : List RouteParentStatus) → All IsOwn ps → select is_foreign ps ≡ []
select-own [] own = refl
select-own (p ∷ ps) own = rw (own-is_foreign p own.0, if◌then◌else◌) (select-own ps own.1)

select-append :
    (ps qs : List RouteParentStatus)
    → select is_foreign (ps ++ qs) ≡ select is_foreign ps ++ select is_foreign qs
select-append [] qs = refl
select-append (p ∷ ps) qs = elim (Bool-cases (is_foreign p)) [
  | inl e ↦ rw (e, if◌then◌else◌) (ap (λ xs. p ∷ xs) (select-append ps qs))
  | inr e ↦ rw (e, if◌then◌else◌) (select-append ps qs)
]

select-select :
    (ps : List RouteParentStatus) → select is_foreign (select is_foreign ps) ≡ select is_foreign ps
select-select [] = refl
select-select (p ∷ ps) = elim (Bool-cases (is_foreign p)) [
  | inl e ↦ rw (e, if◌then◌else◌, e, if◌then◌else◌) (ap (λ xs. p ∷ xs) (select-select ps))
  | inr e ↦ rw (e, if◌then◌else◌) (select-select ps)
]

append_nil : (ps : List RouteParentStatus) → ps ++ [] ≡ ps
append_nil [] = refl
append_nil (p ∷ ps) = ap (λ xs. p ∷ xs) (append_nil ps)

select-merged :
    (ps desired : List RouteParentStatus)
    → All IsOwn desired
    → select is_foreign (merged ps desired) ≡ select is_foreign ps
unfolding merged
select-merged ps desired own =
    select-append (select is_foreign ps) desired
    ∙ rw (select-own desired own, select-select ps) (append_nil (select is_foreign ps))

-- The merge never drops, adds or reorders an entry of another controller.
pub merge_route_parent_statuses-foreign :
    (route : HttpRoute) (desired : List RouteParentStatus)
    → All IsOwn desired
    → select is_foreign (merge_route_parent_statuses route desired).0.parents
      ≡ select is_foreign route.parents
unfolding merge_route_parent_statuses with_parents
merge_route_parent_statuses-foreign route desired own =
    elim (Bool-cases (route_parents_equal route.parents (merged route.parents desired))) [
      | inl e ↦ rw (e, if◌then◌else◌) refl
      | inr e ↦ rw (e, if◌then◌else◌) (select-merged route.parents desired own)
    ]

conditions_equal_refl : (cs : List Condition) → conditions_equal cs cs ≡ true
unfolding conditions_equal
conditions_equal_refl [] = refl
conditions_equal_refl (c ∷ cs) =
    rw
      (
        (eq_iff c.kind c.kind).1 refl,
        (eq_iff c.status c.status).1 refl,
        (eq_iff c.reason c.reason).1 refl,
        conditions_equal_refl cs,
      )
      refl

route_parents_equal_refl : (ps : List RouteParentStatus) → route_parents_equal ps ps ≡ true
unfolding route_parents_equal
route_parents_equal_refl [] = refl
route_parents_equal_refl (p ∷ ps) =
    rw
      (
        (eq_iff p.controller_name p.controller_name).1 refl,
        (eq_iff p.parent_ref.name p.parent_ref.name).1 refl,
        conditions_equal_refl p.conditions,
        route_parents_equal_refl ps,
      )
      refl

merge-equal :
    (route : HttpRoute) (desired : List RouteParentStatus)
    → route_parents_equal route.parents (merged route.parents desired) ≡ true
    → merge_route_parent_statuses route desired ≡ (route, false)
unfolding merge_route_parent_statuses
merge-equal route desired e = rw (e, if◌then◌else◌) refl

merge-changed :
    (route : HttpRoute) (desired : List RouteParentStatus)
    → route_parents_equal route.parents (merged route.parents desired) ≡ false
    → merge_route_parent_statuses route desired
      ≡ (with_parents route (merged route.parents desired), true)
unfolding merge_route_parent_statuses
merge-changed route desired e = rw (e, if◌then◌else◌) refl

merged-merged :
    (ps desired : List RouteParentStatus)
    → All IsOwn desired
    → merged (merged ps desired) desired ≡ merged ps desired
unfolding merged
merged-merged ps desired own = ap (λ xs. xs ++ desired) (select-merged ps desired own)

-- Merging the same entries again changes nothing and asks for no update.
pub merge_route_parent_statuses-again :
    (route : HttpRoute) (desired : List RouteParentStatus)
    → All IsOwn desired
    → merge_route_parent_statuses (merge_route_parent_statuses route desired).0 desired
      ≡ ((merge_route_parent_statuses route desired).0, false)
unfolding with_parents
merge_route_parent_statuses-again route desired own =
    let all = merged route.parents desired in
    elim (Bool-cases (route_parents_equal route.parents all)) [
      | inl e ↦ rw (merge-equal route desired e) (merge-equal route desired e)
      | inr e ↦ rw (merge-changed route desired e) (
          merge-equal (with_parents route all) desired
            (rw (merged-merged route.parents desired own) (route_parents_equal_refl all)))
    ]

-- The entry for a parent of the same name in another namespace.
abbrev pub moved : Option String → RouteParentStatus → RouteParentStatus
moved ns p = record {
  parent_ref = record {
    group = p.parent_ref.group;
    kind = p.parent_ref.kind;
    namespace = ns;
    name = p.parent_ref.name;
    section_name = p.parent_ref.section_name;
  };
  controller_name = p.controller_name;
  conditions = p.conditions;
}

route_parents_equal-moved :
    (ns : Option String) (ps : List RouteParentStatus)
    → route_parents_equal ps (map (moved ns) ps) ≡ true
unfolding route_parents_equal
route_parents_equal-moved ns [] = refl
route_parents_equal-moved ns (p ∷ ps) =
    rw
      (
        (eq_iff p.controller_name p.controller_name).1 refl,
        (eq_iff p.parent_ref.name p.parent_ref.name).1 refl,
        conditions_equal_refl p.conditions,
        route_parents_equal-moved ns ps,
      )
      refl

-- Where all entries of a route are the operator's own, entries that differ from them only in the
-- namespace of the parent are not written: the stored ones stay.
pub merge_route_parent_statuses-moved :
    (route : HttpRoute) (ns : Option String)
    → All IsOwn route.parents
    → merge_route_parent_statuses route (map (moved ns) route.parents) ≡ (route, false)
unfolding merged
merge_route_parent_statuses-moved route ns own =
    merge-equal route (map (moved ns) route.parents)
      (rw (select-own route.parents own) (route_parents_equal-moved ns route.parents))

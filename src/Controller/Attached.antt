-- ===== src/Controller/Attached.antt =====
-- internal/controller/httproute_controller.go: how many references to a Gateway attach to each of its
-- listeners. An int32 is kept by its bits, modulo 2^32; a Go map is an association list whose keys
-- differ.
pub mod Count
pub mod Exact
use tor_gateway.Base.{
  ℕ, ◌+◌, ◌%◌, String, Bool, true, false, Option, none, some, List, [], ◌∷◌, map, get_or,
  if◌then◌else◌, ◌&&◌, ◌||◌, ◌==◌, eqb,
}
use tor_gateway.Api.{ParentReference, HttpRoute, ListenerStatus, Gateway, Fetched}

abbrev pub Counts : Type 0
Counts = List (String × ℕ)

-- A pointer that is nil, empty or the wanted text.
abbrev defaults_to : Option String → String → Bool
defaults_to none want = true
defaults_to (some s) want = (s == "") || (s == want)

unfoldable pub parent_ref_group_kind_is_gateway : ParentReference → Bool
parent_ref_group_kind_is_gateway pr =
    if defaults_to pr.group "gateway.networking.k8s.io"
    then defaults_to pr.kind "Gateway"
    else false

unfoldable pub parent_ref_matches : ParentReference → String → String → String → Bool
unfolding parent_ref_group_kind_is_gateway
parent_ref_matches pr gw_name gw_ns route_ns =
    if parent_ref_group_kind_is_gateway pr
    then (pr.name == gw_name) && (get_or pr.namespace route_ns == gw_ns)
    else false

abbrev pub int32_inc : ℕ → ℕ
int32_inc n = (n + 1) % 0x100000000

unfoldable pub lookup : String → Counts → Option ℕ
lookup k [] = none
lookup k ((j, n) ∷ cs) = if j == k then some n else lookup k cs

-- `counts[name] = 0`, on a map whose values are all 0.
unfoldable pub put_zero : Option ℕ → String → Counts → Counts
put_zero none name cs = (name, 0) ∷ cs
put_zero (some n) name cs = cs

unfoldable pub zero_counts : List String → Counts
unfolding put_zero lookup
zero_counts [] = []
zero_counts (l ∷ ls) = let rest = zero_counts ls in put_zero (lookup l rest) l rest

-- The count of one listener, if the map has it.
unfoldable pub bump : String → Counts → Counts
bump name [] = []
bump name ((k, n) ∷ cs) =
    let rest = bump name cs in if k == name then (k, int32_inc n) ∷ cs else (k, n) ∷ rest

abbrev pub bump_entry : String × ℕ → String × ℕ
bump_entry (k, n) = (k, int32_inc n)

unfoldable pub bump_section : Option String → Counts → Counts
unfolding bump
bump_section (some section) counts = bump section counts
bump_section none counts = map bump_entry counts

unfoldable pub count_parents : String → String → String → Counts → List ParentReference → Counts
unfolding parent_ref_matches bump_section
count_parents gw_name gw_ns route_ns counts [] = counts
count_parents gw_name gw_ns route_ns counts (pr ∷ prs) =
    count_parents gw_name gw_ns route_ns
      (if parent_ref_matches pr gw_name gw_ns route_ns
        then bump_section pr.section_name counts
        else counts)
      prs

unfoldable pub count_routes : String → String → Counts → List HttpRoute → Counts
unfolding count_parents
count_routes gw_name gw_ns counts [] = counts
count_routes gw_name gw_ns counts (route ∷ routes) =
    count_routes gw_name gw_ns
      (count_parents gw_name gw_ns route.namespace counts route.parent_refs) routes

abbrev pub recount : Counts → ListenerStatus → ListenerStatus
recount counts ls = record { name = ls.name; attached_routes = get_or (lookup ls.name counts) 0 }

-- The statuses with their new counts, and whether one differs.
unfoldable pub set_attached : Counts → List ListenerStatus → List ListenerStatus × Bool
unfolding lookup
set_attached counts [] = ([], false)
set_attached counts (ls ∷ rest) =
    let (out, changed) = set_attached counts rest in
    let new_count = get_or (lookup ls.name counts) 0 in
    if eqb ls.attached_routes new_count
    then (ls ∷ out, changed)
    else (record { name = ls.name; attached_routes = new_count } ∷ out, true)

pub data AttachedOutcome : Type 0 where
  done : AttachedOutcome
  update : Gateway → AttachedOutcome
  api_error : AttachedOutcome

unfoldable pub with_statuses : Gateway → List ListenerStatus → Gateway
with_statuses gw statuses = record {
  name = gw.name;
  namespace = gw.namespace;
  uid = gw.uid;
  class_name = gw.class_name;
  listeners = gw.listeners;
  listener_statuses = statuses;
}

unfoldable pub attach : Gateway → String → String → List HttpRoute → AttachedOutcome
unfolding count_routes zero_counts set_attached with_statuses
attach gw gw_name gw_ns routes =
    let (out, changed) =
      set_attached (count_routes gw_name gw_ns (zero_counts gw.listeners) routes)
        gw.listener_statuses in
    if changed then AttachedOutcome.update (with_statuses gw out) else AttachedOutcome.done

-- The outcomes of the Get and of the List of all routes decide what is written.
unfoldable pub update_gateway_attached_routes :
    Fetched Gateway → Option (List HttpRoute) → String → String → AttachedOutcome
unfolding attach
update_gateway_attached_routes Fetched.not_found listed gw_name gw_ns = AttachedOutcome.done
update_gateway_attached_routes Fetched.failed listed gw_name gw_ns = AttachedOutcome.api_error
update_gateway_attached_routes (Fetched.found gw) none gw_name gw_ns = AttachedOutcome.api_error
update_gateway_attached_routes (Fetched.found gw) (some routes) gw_name gw_ns =
    attach gw gw_name gw_ns routes

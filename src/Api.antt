-- ===== src/Api.antt =====
-- The Kubernetes and Gateway API objects that the program reads and writes, with the fields that it
-- uses. An optional field is a pointer in Go. Texts that are only compared are native strings; the
-- path of a match is walked, so it is bytes.
use tor_gateway.Base.{[], ◌∷◌, if◌then◌else◌, ◌==◌, ℕ, String, Bool, Option, List, Bytes}

pub record NamespacedName : Type 0 where
  pub namespace : String
  pub name : String

pub record Condition : Type 0 where
  pub kind : String
  pub status : String
  pub reason : String
  pub message : String
  pub observed_generation : ℕ
  pub last_transition_time : ℕ

pub record ParentReference : Type 0 where
  pub group : Option String
  pub kind : Option String
  pub namespace : Option String
  pub name : String
  pub section_name : Option String

pub record RouteParentStatus : Type 0 where
  pub parent_ref : ParentReference
  pub controller_name : String
  pub conditions : List Condition

pub record HttpPathMatch : Type 0 where
  pub kind : Option String
  pub value : Option Bytes

pub record HttpRouteMatch : Type 0 where
  pub path : Option HttpPathMatch

pub record HttpBackendRef : Type 0 where
  pub name : String
  pub namespace : Option String
  pub port : Option ℕ

pub record HttpRouteRule : Type 0 where
  pub matches : List HttpRouteMatch
  pub backend_refs : List HttpBackendRef

pub record HttpRoute : Type 0 where
  pub name : String
  pub namespace : String
  pub generation : ℕ
  pub parent_refs : List ParentReference
  pub rules : List HttpRouteRule
  pub parents : List RouteParentStatus

pub record OwnerReference : Type 0 where
  pub uid : String
  pub controller : Option Bool

pub record Secret : Type 0 where
  pub name : String
  pub namespace : String
  pub labels : List (String × String)
  pub owner_references : List OwnerReference
  pub contents : List (String × Bytes)

pub record GrantFrom : Type 0 where
  pub group : String
  pub kind : String
  pub namespace : String

pub record GrantTo : Type 0 where
  pub group : String
  pub kind : String
  pub name : Option String

pub record ReferenceGrant : Type 0 where
  pub namespace : String
  pub from : List GrantFrom
  pub to : List GrantTo

pub record ListenerStatus : Type 0 where
  pub name : String
  pub attached_routes : ℕ

pub record Gateway : Type 0 where
  pub name : String
  pub namespace : String
  pub uid : String
  pub class_name : String
  pub listeners : List String
  pub listener_statuses : List ListenerStatus

pub record GatewayClass : Type 0 where
  pub name : String
  pub controller_name : String
  pub generation : ℕ
  pub conditions : List Condition

-- The outcome of a Get of the API client.
pub data Fetched {ℓ} (A : Type ℓ) : Type ℓ where
  found : A → Fetched A
  not_found : Fetched A
  failed : Fetched A

-- What a Secret holds under a key; Go reads an empty slice where there is none.
abbrev pub data_at : String → List (String × Bytes) → Bytes
data_at k [] = []
data_at k ((j, b) ∷ rest) = if j == k then b else data_at k rest

-- A missing label reads as the empty string.
unfoldable pub label_at : String → List (String × String) → String
label_at k [] = ""
label_at k (e ∷ es) = if e.0 == k then e.1 else label_at k es

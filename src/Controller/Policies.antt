-- ===== src/Controller/Policies.antt =====
-- internal/controller/gateway_controller.go and gateway_resources.go: the policies in effect for a
-- Gateway.
use Prim.Native.String.{compare}
use text.Mathlib.Text.{is_lt}
use tor_gateway.Base.{
  ℕ, String, Bool, true, false, Option, none, some, List, [], ◌∷◌, Bytes, any, get_or,
  if◌then◌else◌, ◌==◌, ◌&&◌,
}
use tor_gateway.Api.{Condition, ParentReference}
use tor_gateway.Tor.Vanity.{ResourceRequirements}

pub record TargetRef : Type 0 where
  pub group : String
  pub kind : String
  pub name : String

pub record AncestorStatus : Type 0 where
  pub ancestor_ref : ParentReference
  pub controller_name : String
  pub conditions : List Condition

pub record TorServicePolicy : Type 0 where
  pub name : String
  pub namespace : String
  pub generation : ℕ
  pub target_refs : List TargetRef
  pub log_level : String
  pub pow_defenses_enabled : Option Bool
  pub vanity_prefix : Bytes
  pub resources : Option ResourceRequirements
  pub ancestors : List AncestorStatus

pub record TorClientAuthPolicy : Type 0 where
  pub name : String
  pub namespace : String
  pub generation : ℕ
  pub target_refs : List TargetRef
  pub mode : String
  pub clients_secret_name : String
  pub ancestors : List AncestorStatus

pub record OnionBalancePolicy : Type 0 where
  pub name : String
  pub namespace : String
  pub generation : ℕ
  pub target_refs : List TargetRef
  pub master_key_namespace : String
  pub master_key_name : String
  pub ancestors : List AncestorStatus
  pub ready_backends : ℕ

pub record EffectiveServicePolicy : Type 0 where
  pub log_level : String
  pub pow_defenses_enabled : Bool
  pub vanity_prefix : Bytes
  pub resources : ResourceRequirements

pub record EffectiveClientAuth : Type 0 where
  pub enabled : Bool
  pub secret_name : String

abbrev pub default_policy : EffectiveServicePolicy
default_policy = record {
  log_level = "notice";
  pow_defenses_enabled = true;
  vanity_prefix = [];
  resources = record { requests = none; limits = none };
}

unfoldable pub from_tor_service_policy : Option TorServicePolicy → EffectiveServicePolicy
from_tor_service_policy none = default_policy
from_tor_service_policy (some p) = record {
  log_level = if p.log_level == "" then default_policy.log_level else p.log_level;
  pow_defenses_enabled = get_or p.pow_defenses_enabled default_policy.pow_defenses_enabled;
  vanity_prefix = p.vanity_prefix;
  resources = get_or p.resources default_policy.resources;
}

abbrev targets_gateway : String → TargetRef → Bool
targets_gateway gw r =
    (r.group == "gateway.networking.k8s.io") && (r.kind == "Gateway") && (r.name == gw)

unfoldable pub policy_targets : List TargetRef → String → Bool
policy_targets refs gw = any (targets_gateway gw) refs

-- Go's `<` on strings.
abbrev pub text_lt : String → String → Bool
text_lt a b = is_lt (compare a b)

module _ {P : Type 0} (name_of : P → String) (targets : P → Bool) where
  -- A policy replaces the one so far where its name comes first.
  abbrev pub replaces : P → Option P → Bool
  replaces p none = true
  replaces p (some m) = text_lt (name_of p) (name_of m)

  -- The loop over the policies, which keeps the first by name of those that target the Gateway.
  unfoldable pub first_by_name : Option P → List P → Option P
  first_by_name matched [] = matched
  first_by_name matched (p ∷ ps) =
      first_by_name (if targets p then if replaces p matched then some p else matched else matched)
        ps

unfoldable pub matched_service_policy : String → List TorServicePolicy → Option TorServicePolicy
unfolding first_by_name policy_targets
matched_service_policy gw ps =
    first_by_name (λ (p : TorServicePolicy). p.name) (λ p. policy_targets p.target_refs gw) none ps

-- The listing of the Gateway's namespace is none where it fails.
unfoldable pub effective_policy_from :
    String → Option (List TorServicePolicy) → Option EffectiveServicePolicy
unfolding matched_service_policy from_tor_service_policy
effective_policy_from gw none = none
effective_policy_from gw (some ps) = some (from_tor_service_policy (matched_service_policy gw ps))

client_auth_of : Option TorClientAuthPolicy → EffectiveClientAuth
client_auth_of none = record { enabled = false; secret_name = "" }
client_auth_of (some p) =
    if p.mode == "Audit"
    then record { enabled = false; secret_name = "" }
    else record { enabled = true; secret_name = p.clients_secret_name }

unfoldable pub find_effective_client_auth :
    String → Option (List TorClientAuthPolicy) → Option EffectiveClientAuth
unfolding first_by_name policy_targets client_auth_of
find_effective_client_auth gw none = none
find_effective_client_auth gw (some ps) = some (
    client_auth_of (
      first_by_name (λ (p : TorClientAuthPolicy). p.name) (λ p. policy_targets p.target_refs gw)
        none ps))

is_accepted : Condition → Bool
is_accepted c = (c.kind == "Accepted") && (c.status == "True")

accepts_gateway : String → AncestorStatus → Bool
unfolding is_accepted
accepts_gateway gw_name anc =
    if anc.ancestor_ref.name == gw_name then any is_accepted anc.conditions else false

unfoldable pub accepted_for_gw : OnionBalancePolicy → String → Bool
unfolding accepts_gateway
accepted_for_gw p gw_name = any (accepts_gateway gw_name) p.ancestors

with_acceptance : String → Option OnionBalancePolicy → Option (OnionBalancePolicy × Bool)
unfolding accepted_for_gw
with_acceptance gw none = none
with_acceptance gw (some p) = some (p, accepted_for_gw p gw)

-- The policy and whether it is accepted, none where no policy targets the Gateway; the outer option
-- is none where the listing fails.
unfoldable pub find_effective_onion_balance :
    String → Option (List OnionBalancePolicy) → Option (Option (OnionBalancePolicy × Bool))
unfolding first_by_name policy_targets with_acceptance
find_effective_onion_balance gw none = none
find_effective_onion_balance gw (some ps) = some (
    with_acceptance gw (
      first_by_name (λ (p : OnionBalancePolicy). p.name) (λ p. policy_targets p.target_refs gw) none
        ps))

-- ===== src/Controller/OnionBalance.antt =====
-- internal/controller/onionbalancepolicy_controller.go: the status of an OnionBalancePolicy. The answers
-- of the API client are a parameter, as are the curve and the texts of the errors.
pub mod Requests
pub mod Accepted
pub mod Status
pub mod Watch
use tor_gateway.Base.{
  ℕ, ◌+◌, ◌%◌, String, Bool, true, false, Option, none, some, List, [], ◌∷◌, Bytes, codes, get_or,
  length, eqb, not, if◌then◌else◌, ◌&&◌, ◌||◌, ◌==◌,
}
use tor_gateway.Api.{Condition, Secret, ReferenceGrant, Gateway, Fetched, data_at}
use tor_gateway.Tor.Keys.{KeyPair}
use tor_gateway.Tor.MasterKey.{MasterKeyError, MasterResult, validate_master_key_secret}
use tor_gateway.Controller.Grants.{master_key_reference_grant_allows}
use tor_gateway.Controller.Policies.{
  TargetRef, AncestorStatus, TorServicePolicy, OnionBalancePolicy, policy_targets,
}
use tor_gateway.Controller.PolicyStatus.{PolicyOutcome, ancestor_of, ancestors_equal}

-- What the API client answers; the backends are those Secrets of a namespace that have the labels of
-- a Gateway and of the role.
pub record Client : Type 0 where
  pub get_gateway : String → String → Fetched Gateway
  pub get_secret : String → String → Fetched Secret
  pub list_grants : String → Option (List ReferenceGrant)
  pub list_backends : String → String → Option (List Secret)
  pub list_service_policies : String → Option (List TorServicePolicy)

pub data MasterFailure : Type 0 where
  evaluate_grant cross_ns_denied get_secret : MasterFailure
  key : MasterKeyError → MasterFailure

pub data MasterCheck : Type 0 where
  accepted : KeyPair → MasterCheck
  refused : MasterFailure → MasterCheck

unfoldable pub master_namespace : OnionBalancePolicy → String
master_namespace p = if p.master_key_namespace == "" then p.namespace else p.master_key_namespace

module _ (derive : Bytes → Option Bytes) where
  check_files : MasterResult KeyPair → MasterCheck
  check_files (MasterResult.valid kp) = MasterCheck.accepted kp
  check_files (MasterResult.invalid e) = MasterCheck.refused (MasterFailure.key e)

  unfoldable pub check_secret : Fetched Secret → MasterCheck
  unfolding check_files
  check_secret Fetched.not_found =
      MasterCheck.refused (MasterFailure.key MasterKeyError.missing_secret)
  check_secret Fetched.failed = MasterCheck.refused MasterFailure.get_secret
  check_secret (Fetched.found s) = check_files (validate_master_key_secret derive s.contents)

  check_granted : Option Bool → MasterCheck → MasterCheck
  check_granted none rest = MasterCheck.refused MasterFailure.evaluate_grant
  check_granted (some false) rest = MasterCheck.refused MasterFailure.cross_ns_denied
  check_granted (some true) rest = rest

  unfoldable pub validate_master_key : Client → OnionBalancePolicy → MasterCheck
  unfolding master_namespace check_secret check_granted
  validate_master_key client p =
      let ns = master_namespace p in
      let rest = check_secret (client.get_secret ns p.master_key_name) in
      if ns == p.namespace
      then rest
      else check_granted
          (master_key_reference_grant_allows client.list_grants p.namespace p.master_key_namespace
            p.master_key_name)
          rest

unfoldable pub reason_from_master_err : MasterFailure → String
reason_from_master_err (MasterFailure.key MasterKeyError.missing_secret) = "MasterKeyMissing"
reason_from_master_err (MasterFailure.key MasterKeyError.missing_public) = "MasterKeyMissing"
reason_from_master_err MasterFailure.cross_ns_denied = "MasterKeyCrossNamespaceDenied"
reason_from_master_err _ = "MasterKeyInvalid"

-- A sum of int32, as its 32 bits.
abbrev pub add_int32 : ℕ → ℕ → ℕ
add_int32 a b = (a + b) % 4294967296

-- The loop over the backend Secrets, with the count so far.
unfoldable pub count_hostnames : ℕ → List Secret → ℕ
count_hostnames ready [] = ready
count_hostnames ready (s ∷ ss) =
    count_hostnames
      (if eqb (length (data_at "hostname" s.contents)) 0 then ready else add_int32 ready 1) ss

-- A listing that fails is logged and counts 0.
unfoldable pub count_ready_backends : Option (List Secret) → ℕ
unfolding count_hostnames
count_ready_backends none = 0
count_ready_backends (some ss) = count_hostnames 0 ss

pow_enabled_for : String → TorServicePolicy → Bool
unfolding policy_targets
pow_enabled_for gw t =
    if not (policy_targets t.target_refs gw) then false else get_or t.pow_defenses_enabled true

any_pow_enabled : String → List TorServicePolicy → Bool
unfolding pow_enabled_for
any_pow_enabled gw [] = false
any_pow_enabled gw (t ∷ ts) = if pow_enabled_for gw t then true else any_pow_enabled gw ts

unfoldable pub pow_forced_off : Client → Gateway → Bool
unfolding any_pow_enabled
pow_forced_off client gw = elim (client.list_service_policies gw.namespace) [
  | none ↦ false
  | some ts ↦ any_pow_enabled gw.name ts
]

-- The status, the reason, the message and the ready backends of a target, or an error of the client.
pub data Verdict : Type 0 where
  verdict : String → String → String → ℕ → Verdict
  get_error : Verdict

accepted_cond : ℕ → ℕ → String → String → String → Condition
accepted_cond generation now status reason message = record {
  kind = "Accepted";
  status = status;
  reason = reason;
  message = message;
  observed_generation = generation;
  last_transition_time = now;
}

-- A target and the targets after it.
add_target :
    (Condition → AncestorStatus)
    → ℕ
    → ℕ
    → Verdict
    → Option (List AncestorStatus × ℕ)
    → Option (List AncestorStatus × ℕ)
unfolding accepted_cond
add_target make generation now Verdict.get_error rest = none
add_target make generation now (Verdict.verdict status reason message ready) none = none
add_target make generation now (Verdict.verdict status reason message ready) (some out) =
    some (make (accepted_cond generation now status reason message) ∷ out.0, add_int32 ready out.1)

unfoldable pub with_status : OnionBalancePolicy → List AncestorStatus → ℕ → OnionBalancePolicy
with_status p xs ready = record p { ancestors = xs; ready_backends = ready }

unfoldable pub write_status :
    OnionBalancePolicy → Option (List AncestorStatus × ℕ) → PolicyOutcome OnionBalancePolicy
unfolding with_status ancestors_equal
write_status p none = PolicyOutcome.api_error
write_status p (some out) =
    if not (ancestors_equal p.ancestors out.0) || not (eqb p.ready_backends out.1)
    then PolicyOutcome.update (with_status p out.0 out.1)
    else PolicyOutcome.done

module _ (describe : MasterFailure → String) (missing_text : String → String → String) where
  verdict_of : Client → MasterCheck → Gateway → Verdict
  unfolding pow_forced_off count_ready_backends reason_from_master_err
  verdict_of client (MasterCheck.refused e) gw =
      Verdict.verdict "False" (reason_from_master_err e) (describe e) 0
  verdict_of client (MasterCheck.accepted kp) gw =
      Verdict.verdict "True" "Accepted"
        (if pow_forced_off client gw
          then "PoW disabled on backends; onionbalance behind PoW is currently worse than no PoW (see onionbalance#13)"
          else "OnionBalancePolicy accepted")
        (count_ready_backends (client.list_backends gw.namespace gw.name))

  evaluate_gateway : Client → MasterCheck → String → String → Fetched Gateway → Verdict
  unfolding verdict_of
  evaluate_gateway client master ns name Fetched.not_found =
      Verdict.verdict "False" "GatewayMissing" (missing_text ns name) 0
  evaluate_gateway client master ns name Fetched.failed = Verdict.get_error
  evaluate_gateway client master ns name (Fetched.found gw) = verdict_of client master gw

  unfoldable pub evaluate_target : Client → MasterCheck → String → TargetRef → Verdict
  unfolding evaluate_gateway
  evaluate_target client master ns ref =
      evaluate_gateway client master ns ref.name (client.get_gateway ns ref.name)

  unfoldable pub build_ancestors :
      Client → MasterCheck → String → ℕ → ℕ → List TargetRef → Option (List AncestorStatus × ℕ)
  unfolding add_target evaluate_target ancestor_of
  build_ancestors client master ns generation now [] = some ([], 0)
  build_ancestors client master ns generation now (ref ∷ refs) =
      add_target (ancestor_of ref ns) generation now (evaluate_target client master ns ref)
        (build_ancestors client master ns generation now refs)

  unfoldable pub reconcile_onion_balance_policy :
      (Bytes → Option Bytes)
      → Client
      → ℕ
      → Fetched OnionBalancePolicy
      → PolicyOutcome OnionBalancePolicy
  unfolding write_status build_ancestors validate_master_key
  reconcile_onion_balance_policy derive client now Fetched.not_found = PolicyOutcome.done
  reconcile_onion_balance_policy derive client now Fetched.failed = PolicyOutcome.api_error
  reconcile_onion_balance_policy derive client now (Fetched.found p) = write_status p (
      build_ancestors client (validate_master_key derive client p) p.namespace p.generation now
        p.target_refs)

-- ===== src/Controller/OnionBalance/Accepted.antt =====
-- When internal/controller/onionbalancepolicy_controller.go accepts the master key of a policy.
use tor_gateway.Base.{
  ◌≡◌, refl, sym, ◌∙◌, ◌↔◌, inl, inr, Bool, true, false, Option, none, some, List, Bytes,
  if◌then◌else◌, ◌==◌, eq_iff, Bool-cases, Option-cases,
}
use tor_gateway.Api.{Secret, ReferenceGrant, Fetched}
use tor_gateway.Tor.Keys.{KeyPair}
use tor_gateway.Tor.MasterKey.{MasterResult, validate_master_key_secret}
use tor_gateway.Tor.MasterKey.Pair.{IsMasterKey, validate_master_key_secret_iff}
use tor_gateway.Controller.Grants.{
  FromRef, ToRef, IsGranted, allows_iff, master_key_reference_grant_allows,
}
use tor_gateway.Controller.Policies.{OnionBalancePolicy}
use tor_gateway.Controller.OnionBalance.{
  Client, MasterCheck, master_namespace, check_files, check_secret, check_granted,
  validate_master_key,
}

abbrev pub from_policy : OnionBalancePolicy → FromRef
from_policy p = record {
  group = "policy.torgateway.io";
  kind = "OnionBalancePolicy";
  namespace = p.namespace;
}

abbrev pub to_master_key : OnionBalancePolicy → ToRef
to_master_key p = record { group = ""; kind = "Secret"; name = p.master_key_name }

module _ (derive : Bytes → Option Bytes) (client : Client) (p : OnionBalancePolicy) where
  -- A Secret of the policy's own namespace, or one that listed grants permit the policy to use.
  pub data IsPermitted : Type 0 where
    own : master_namespace p ≡ p.namespace → IsPermitted
    granted :
        (grants : List ReferenceGrant)
        → client.list_grants p.master_key_namespace ≡ some grants
        → IsGranted grants (from_policy p) (to_master_key p)
        → IsPermitted

  -- The Secret exists, the policy may use it, and its files are a key pair.
  pub record IsAuthorized (kp : KeyPair) : Type 0 where
    pub permitted : IsPermitted
    pub secret : Secret
    pub stored : client.get_secret (master_namespace p) p.master_key_name ≡ Fetched.found secret
    pub pair : IsMasterKey derive secret.contents kp

  IsGranted-iff :
      (master_key_reference_grant_allows client.list_grants p.namespace p.master_key_namespace
          p.master_key_name
        ≡ some true)
      ↔ ((grants : List ReferenceGrant) × (client.list_grants p.master_key_namespace ≡ some grants)
          × IsGranted grants (from_policy p) (to_master_key p))
  unfolding master_key_reference_grant_allows
  IsGranted-iff = (
    λ e. elim (Option-cases (client.list_grants p.master_key_namespace)) [
      | inl h ↦ absurd (cc (rw (master_key_reference_grant_allows, h) at e))
      | inr (grants, h) ↦ (
        grants,
        h,
        (allows_iff grants (from_policy p) (to_master_key p)).0
            (cc (rw (master_key_reference_grant_allows, h) at e)),
      )
    ],
    λ g.
        rw
          (
            master_key_reference_grant_allows,
            g.1,
            (allows_iff g.0 (from_policy p) (to_master_key p)).1 g.2,
          )
          refl,
  )

  check_files_iff :
      (r : MasterResult KeyPair) (kp : KeyPair)
      → (check_files derive r ≡ MasterCheck.accepted kp) ↔ (r ≡ MasterResult.valid kp)
  unfolding check_files
  check_files_iff (MasterResult.valid k) kp = (λ e. cc e, λ e. cc e)
  check_files_iff (MasterResult.invalid x) kp = (λ e. absurd (cc e), λ e. absurd (cc e))

  check_secret_iff :
      (f : Fetched Secret) (kp : KeyPair)
      → (check_secret derive f ≡ MasterCheck.accepted kp)
        ↔ ((s : Secret) × (f ≡ Fetched.found s) × IsMasterKey derive s.contents kp)
  unfolding check_secret
  check_secret_iff Fetched.not_found kp = (λ e. absurd (cc e), λ s. absurd (cc s.1))
  check_secret_iff Fetched.failed kp = (λ e. absurd (cc e), λ s. absurd (cc s.1))
  check_secret_iff (Fetched.found s) kp =
      let files = check_files_iff (validate_master_key_secret derive s.contents) kp in
      let pair = validate_master_key_secret_iff derive s.contents kp in
      (
        λ e. (s, refl, pair.0 (files.0 e)),
        λ g. let same : s ≡ g.0 = cc g.1 in files.1 (pair.1 (rw same g.2)),
      )

  check_granted_iff :
      (o : Option Bool) (rest : MasterCheck) (kp : KeyPair)
      → (check_granted derive o rest ≡ MasterCheck.accepted kp)
        ↔ ((o ≡ some true) × (rest ≡ MasterCheck.accepted kp))
  unfolding check_granted
  check_granted_iff none rest kp = (λ e. absurd (cc e), λ e. absurd (cc e.0))
  check_granted_iff (some false) rest kp = (λ e. absurd (cc e), λ e. absurd (cc e.0))
  check_granted_iff (some true) rest kp = (λ e. (refl, e), λ e. e.1)

  -- The check of the Secret, which the reference may prevent.
  of_secret : MasterCheck
  of_secret = check_secret derive (client.get_secret (master_namespace p) p.master_key_name)

  validate_own :
      (master_namespace p == p.namespace) ≡ true → validate_master_key derive client p ≡ of_secret
  unfolding validate_master_key of_secret
  validate_own h = rw (h, if◌then◌else◌) refl

  validate_other :
      (master_namespace p == p.namespace) ≡ false
      → validate_master_key derive client p
        ≡ check_granted derive
            (master_key_reference_grant_allows client.list_grants p.namespace p.master_key_namespace
              p.master_key_name)
            of_secret
  unfolding validate_master_key of_secret
  validate_other h = rw (h, if◌then◌else◌) refl

  of_secret-IsAuthorized :
      (kp : KeyPair) → IsPermitted → of_secret ≡ MasterCheck.accepted kp → IsAuthorized kp
  unfolding of_secret
  of_secret-IsAuthorized kp may e =
      let (s, stored, pair) =
        (check_secret_iff (client.get_secret (master_namespace p) p.master_key_name) kp).0 e in
      record { permitted = may; secret = s; stored = stored; pair = pair }

  IsAuthorized-of_secret : (kp : KeyPair) → IsAuthorized kp → of_secret ≡ MasterCheck.accepted kp
  unfolding of_secret
  IsAuthorized-of_secret kp a =
      (check_secret_iff (client.get_secret (master_namespace p) p.master_key_name) kp).1
        (a.secret, a.stored, a.pair)

  IsPermitted-granted :
      (master_namespace p == p.namespace) ≡ false
      → IsPermitted
      → master_key_reference_grant_allows client.list_grants p.namespace p.master_key_namespace
          p.master_key_name
        ≡ some true
  IsPermitted-granted h (IsPermitted.own e) =
      absurd (cc (sym ((eq_iff (master_namespace p) p.namespace).1 e) ∙ h))
  IsPermitted-granted h (IsPermitted.granted grants e g) = IsGranted-iff.1 (grants, e, g)

  -- The master key of a policy is accepted exactly when its Secret exists, its files are the key pair
  -- that the curve confirms, and the Secret is in the policy's namespace or a listed grant permits it.
  pub validate_master_key_iff :
      (kp : KeyPair)
      → (validate_master_key derive client p ≡ MasterCheck.accepted kp) ↔ IsAuthorized kp
  validate_master_key_iff kp = elim (Bool-cases (master_namespace p == p.namespace)) [
    | inl h ↦ (
      λ e.
          of_secret-IsAuthorized kp
            (IsPermitted.own ((eq_iff (master_namespace p) p.namespace).0 h))
            (sym (validate_own h) ∙ e),
      λ a. validate_own h ∙ IsAuthorized-of_secret kp a,
    )
    | inr h ↦
        let checked =
          check_granted_iff
            (master_key_reference_grant_allows client.list_grants p.namespace p.master_key_namespace
              p.master_key_name)
            of_secret kp in
        (
          λ e.
              let (allowed, rest) = checked.0 (sym (validate_other h) ∙ e) in
              let (grants, listed, g) = IsGranted-iff.0 allowed in
              of_secret-IsAuthorized kp (IsPermitted.granted grants listed g) rest,
          λ a.
              validate_other h
              ∙ checked.1 (IsPermitted-granted h a.permitted, IsAuthorized-of_secret kp a),
        )
  ]

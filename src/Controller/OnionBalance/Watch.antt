-- ===== src/Controller/OnionBalance/Watch.antt =====
-- The policies that a ReferenceGrant concerns, in internal/controller/onionbalancepolicy_controller.go.
use tor_gateway.Base.{
  ◌≡◌, ◌≢◌, refl, sym, inl, inr, String, Bool, true, false, some, List, [], ◌∷◌, mem-any, Memᴰ,
  if◌then◌else◌, ◌&&◌, ◌==◌, eq_iff, Bool-cases,
}
use tor_gateway.Api.{GrantFrom, ReferenceGrant}
use tor_gateway.Controller.Grants.{IsGranted}
use tor_gateway.Controller.Policies.{OnionBalancePolicy}
use tor_gateway.Controller.OnionBalance.Requests.{
  collect, requests, grant_concerns, obps_for_reference_grant,
}
use tor_gateway.Controller.OnionBalance.Accepted.{from_policy, to_master_key}

collect-mem :
    (needs : OnionBalancePolicy → Bool) (ps : List OnionBalancePolicy) {p : OnionBalancePolicy}
    → Memᴰ p ps
    → needs p ≡ true
    → Memᴰ (record { namespace = p.namespace; name = p.name }) (collect needs ps)
unfolding collect
collect-mem needs [] i h = elim i [ ]
collect-mem needs (x ∷ xs) {p = p} (Memᴰ.head e) h =
    let h' : needs x ≡ true = rw (← e) h in rw (h', if◌then◌else◌) (rw e (Memᴰ.head refl))
collect-mem needs (x ∷ xs) (Memᴰ.tail i) h = elim (Bool-cases (needs x)) [
  | inl e ↦ rw (e, if◌then◌else◌) (Memᴰ.tail (collect-mem needs xs i h))
  | inr e ↦ rw (e, if◌then◌else◌) (collect-mem needs xs i h)
]

not_equal : (a b : String) → a ≢ b → (a == b) ≡ false
not_equal a b n = elim (Bool-cases (a == b)) [ inl e ↦ absurd (n ((eq_iff a b).0 e)) | inr e ↦ e ]

granted_entry :
    (rg : ReferenceGrant) (p : OnionBalancePolicy)
    → IsGranted (rg ∷ []) (from_policy p) (to_master_key p)
    → Memᴰ
        (record {
          group = "policy.torgateway.io";
          kind = "OnionBalancePolicy";
          namespace = p.namespace;
        })
        rg.from
granted_entry rg p g = elim g.listed [
  | Memᴰ.head e ↦ rw (← e) g.referrer
  | Memᴰ.tail m ↦ absurd (elim m [ ])
]

grant_concerns-granted :
    (rg : ReferenceGrant) (p : OnionBalancePolicy)
    → rg.namespace ≡ p.master_key_namespace
    → p.master_key_namespace ≢ ""
    → IsGranted (rg ∷ []) (from_policy p) (to_master_key p)
    → grant_concerns rg p ≡ true
unfolding grant_concerns
grant_concerns-granted rg p same n g =
    rw
      (
        not_equal p.master_key_namespace "" n,
        (eq_iff p.master_key_namespace rg.namespace).1 (sym same),
        if◌then◌else◌,
      )
      (mem-any
        (λ (f : GrantFrom).
          (f.group == "policy.torgateway.io")
          && (f.kind == "OnionBalancePolicy")
          && (f.namespace == p.namespace))
        rg.from (granted_entry rg p g) (rw ((eq_iff p.namespace p.namespace).1 refl) refl))

-- When the namespace of a policy's master key is named, a change of a grant of that namespace that
-- permits the reference requests the reconciliation of the policy, if the listing finds the policy.
pub obps_for_reference_grant_complete :
    (ps : List OnionBalancePolicy) (p : OnionBalancePolicy) (rg : ReferenceGrant)
    → Memᴰ p ps
    → rg.namespace ≡ p.master_key_namespace
    → p.master_key_namespace ≢ ""
    → IsGranted (rg ∷ []) (from_policy p) (to_master_key p)
    → Memᴰ
        (record { namespace = p.namespace; name = p.name })
        (obps_for_reference_grant (some ps) rg)
unfolding obps_for_reference_grant requests
obps_for_reference_grant_complete ps p rg i same n g =
    collect-mem (grant_concerns rg) ps i (grant_concerns-granted rg p same n g)

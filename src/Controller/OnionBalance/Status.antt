-- ===== src/Controller/OnionBalance/Status.antt =====
-- What an accepted target in the status of internal/controller/onionbalancepolicy_controller.go rests on.
use tor_gateway.Base.{
  ℕ, ◌≡◌, refl, sym, String, true, Option, none, some, List, [], ◌∷◌, Bytes, Memᴰ, All, All-mem, ap,
  ◌∙◌, not, if◌then◌else◌, ◌||◌, ◌==◌, eqb, eq_iff, Bool-cases, inl, inr,
}
use tor_gateway.Api.{Condition, Gateway, Fetched}
use tor_gateway.Tor.Keys.{KeyPair}
use tor_gateway.Controller.Policies.{TargetRef, AncestorStatus, OnionBalancePolicy}
use tor_gateway.Controller.PolicyStatus.{PolicyOutcome, ancestor_of, ancestors_equal}
use tor_gateway.Controller.OnionBalance.{
  Client, MasterFailure, MasterCheck, Verdict, validate_master_key, verdict_of, evaluate_gateway,
  evaluate_target, accepted_cond, add_target, build_ancestors, with_status, write_status,
  reconcile_onion_balance_policy,
}
use tor_gateway.Controller.OnionBalance.Accepted.{IsAuthorized, validate_master_key_iff}

-- The master key was accepted, and the client found the Gateway of the name.
record IsBacked (client : Client) (master : MasterCheck) (ns name : String) : Type 0 where
  pair : KeyPair
  accepted : master ≡ MasterCheck.accepted pair
  gateway : Gateway
  found : client.get_gateway ns name ≡ Fetched.found gateway

-- An entry that accepts is backed.
IsSound : Client → MasterCheck → String → AncestorStatus → Type 0
IsSound client master ns anc =
    (c : Condition)
    → Memᴰ c anc.conditions
    → c.status ≡ "True"
    → IsBacked client master ns anc.ancestor_ref.name

false_not_true : {P : Type 0} {s : String} → s ≡ "False" → s ≡ "True" → P
false_not_true {s = s} e t =
    let same : ("False" == "True") ≡ true = (eq_iff "False" "True").1 (sym e ∙ t) in
    absurd (cc same)

the_output : {A : Type 0} {a b : A} → some a ≡ some b → a ≡ b
the_output e = cc e

mem_single : {A : Type 0} {a b : A} → Memᴰ a (b ∷ []) → a ≡ b
mem_single (Memᴰ.head e) = e
mem_single (Memᴰ.tail m) = elim m [ ]

module _ (describe : MasterFailure → String) (missing_text : String → String → String)
    (client : Client) where
  evaluate_gateway-IsBacked :
      (master : MasterCheck) (ns name : String) (f : Fetched Gateway)
      → client.get_gateway ns name ≡ f
      → {status reason message : String} {n : ℕ}
      → evaluate_gateway describe missing_text client master ns name f
        ≡ Verdict.verdict status reason message n
      → status ≡ "True"
      → IsBacked client master ns name
  unfolding evaluate_gateway verdict_of
  evaluate_gateway-IsBacked master ns name Fetched.not_found g e t = false_not_true (cc e) t
  evaluate_gateway-IsBacked master ns name Fetched.failed g e t = absurd (cc e)
  evaluate_gateway-IsBacked (MasterCheck.refused x) ns name (Fetched.found gw) g e t =
      false_not_true (cc e) t
  evaluate_gateway-IsBacked (MasterCheck.accepted kp) ns name (Fetched.found gw) g e t = record {
    pair = kp;
    accepted = refl;
    gateway = gw;
    found = g;
  }

  add_target-IsSound :
      (master : MasterCheck) (ns : String) (g now : ℕ) (ref : TargetRef) (v : Verdict)
      (rest : Option (List AncestorStatus × ℕ)) (out : List AncestorStatus × ℕ)
      → evaluate_target describe missing_text client master ns ref ≡ v
      → ((o : List AncestorStatus × ℕ) → rest ≡ some o → All (IsSound client master ns) o.0)
      → add_target (ancestor_of ref ns) g now v rest ≡ some out
      → All (IsSound client master ns) out.0
  unfolding add_target accepted_cond ancestor_of IsSound evaluate_target
  add_target-IsSound master ns g now ref Verdict.get_error rest out e ih h = absurd (cc h)
  add_target-IsSound master ns g now ref (Verdict.verdict s r m n) none out e ih h = absurd (cc h)
  add_target-IsSound master ns g now ref (Verdict.verdict s r m n) (some o) out e ih h =
      let same = the_output h in
      rw (← same) (
        λ c i t.
            evaluate_gateway-IsBacked master ns ref.name (client.get_gateway ns ref.name) refl e
              (sym (ap (λ (d : Condition). d.status) (mem_single i)) ∙ t),
        ih o refl,
      )

  build_ancestors-IsSound :
      (master : MasterCheck) (ns : String) (g now : ℕ) (refs : List TargetRef)
      (out : List AncestorStatus × ℕ)
      → build_ancestors describe missing_text client master ns g now refs ≡ some out
      → All (IsSound client master ns) out.0
  unfolding build_ancestors
  build_ancestors-IsSound master ns g now [] out e = let same = the_output e in rw (← same) tt
  build_ancestors-IsSound master ns g now (ref ∷ refs) out e =
      add_target-IsSound master ns g now ref
        (evaluate_target describe missing_text client master ns ref)
        (build_ancestors describe missing_text client master ns g now refs) out refl
        (build_ancestors-IsSound master ns g now refs) e

  write_status_inv :
      (p q : OnionBalancePolicy) (o : Option (List AncestorStatus × ℕ))
      → write_status p o ≡ PolicyOutcome.update q
      → (out : List AncestorStatus × ℕ) × (o ≡ some out) × (q ≡ with_status p out.0 out.1)
  unfolding write_status
  write_status_inv p q none e = absurd (cc e)
  write_status_inv p q (some out) e =
      elim (Bool-cases
        (not (ancestors_equal p.ancestors out.0) || not (eqb p.ready_backends out.1))) [
          | inl h ↦ (out, refl, cc (rw (h, if◌then◌else◌) at e))
          | inr h ↦ absurd (cc (rw (h, if◌then◌else◌) at e))
        ]

  -- When a run writes a status in which an entry has a condition of status True, the client found the
  -- Gateway that the entry names in the policy's namespace, and the policy's master key is authorized:
  -- its Secret exists, is in the policy's namespace or permitted by a listed grant, and holds the files
  -- of a key pair that the curve confirms.
  pub reconcile_onion_balance_policy-IsAuthorized :
      (derive : Bytes → Option Bytes) (now : ℕ) (p q : OnionBalancePolicy) {anc : AncestorStatus}
      {c : Condition}
      → reconcile_onion_balance_policy describe missing_text derive client now (Fetched.found p)
        ≡ PolicyOutcome.update q
      → Memᴰ anc q.ancestors
      → Memᴰ c anc.conditions
      → c.status ≡ "True"
      → ((kp : KeyPair) × IsAuthorized derive client p kp)
        × ((gw : Gateway) × (client.get_gateway p.namespace anc.ancestor_ref.name
              ≡ Fetched.found gw))
  unfolding reconcile_onion_balance_policy with_status IsSound
  reconcile_onion_balance_policy-IsAuthorized derive now p q {anc = anc} {c = c} e i j t =
      let master = validate_master_key derive client p in
      let (out, built, same) =
        write_status_inv p q
          (build_ancestors describe missing_text client master p.namespace p.generation now
            p.target_refs)
          e in
      let sound =
        build_ancestors-IsSound master p.namespace p.generation now p.target_refs out built in
      let b = All-mem (IsSound client master p.namespace) out.0 sound (rw same at i) c j t in
      (
        (b.pair, (validate_master_key_iff derive client p b.pair).0 b.accepted),
        (b.gateway, b.found),
      )

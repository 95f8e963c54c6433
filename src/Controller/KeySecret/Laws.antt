-- ===== src/Controller/KeySecret/Laws.antt =====
-- What ensureKeySecret of internal/controller/gateway_controller.go keeps.
use tor_gateway.Base.{◌≡◌, Bool, true, false, Option, none, some, [], ◌∷◌, Bytes}
use tor_gateway.Base.Act.{Keeps}
use tor_gateway.Api.{data_at, Secret, Gateway}
use tor_gateway.Tor.Keys.{parse_files, generate_key_pair}
use tor_gateway.Controller.Children.{file_secret_key_name, file_public_key_name}
use tor_gateway.Controller.Policies.{EffectiveServicePolicy, effective_policy_from}
use tor_gateway.Controller.Harvest.Objects.{Call, HarvestError, Store, Env}
use tor_gateway.Controller.Harvest.Keeps.{
  call-Same, asks-Same, gets-Same, return-Same, raise-Same, some_or-Same,
}
use tor_gateway.Controller.Harvest.KeyKept.{
  Kept, of_Same, then-Kept, of_result-Same, store_key-Kept, run_vanity_harvest-Kept,
}
use tor_gateway.Controller.KeySecret.{
  generate_unless, with_fresh_prefix, make_key, with_existing, ensure_key_secret,
}

generate_unless-Kept : (gw : Gateway) (await : Bool) → Keeps Kept (generate_unless gw await)
unfolding generate_unless
generate_unless-Kept gw true = of_Same (raise-Same HarvestError.awaiting_vanity_policy)
generate_unless-Kept gw false =
    then-Kept (of_Same (asks-Same (λ (r : Env). generate_key_pair r.sha512 r.generated)))
      (λ made. then-Kept (of_Same (of_result-Same made)) (store_key-Kept gw))

with_fresh_prefix-Kept : (gw : Gateway) (prefix : Bytes) → Keeps Kept (with_fresh_prefix gw prefix)
unfolding with_fresh_prefix
with_fresh_prefix-Kept gw [] =
    then-Kept (of_Same (asks-Same (λ (r : Env). r.await_vanity))) (generate_unless-Kept gw)
with_fresh_prefix-Kept gw (c ∷ prefix) = run_vanity_harvest-Kept gw (c ∷ prefix)

make_key-Kept : (gw : Gateway) (prefix : Bytes) → Keeps Kept (make_key gw prefix)
unfolding make_key
make_key-Kept gw (c ∷ prefix) = run_vanity_harvest-Kept gw (c ∷ prefix)
make_key-Kept gw [] =
    then-Kept (of_Same (asks-Same (λ (r : Env). effective_policy_from gw.name r.list_fresh)))
      (λ listed.
        then-Kept (of_Same (some_or-Same HarvestError.list_policies listed))
          (λ fresh. with_fresh_prefix-Kept gw fresh.vanity_prefix))

with_existing-Kept :
    (gw : Gateway) (policy : EffectiveServicePolicy) (o : Option Secret)
    → Keeps Kept (with_existing gw policy o)
unfolding with_existing
with_existing-Kept gw policy none = make_key-Kept gw policy.vanity_prefix
with_existing-Kept gw policy (some existing) =
    then-Kept
      (of_Same (
        of_result-Same (
          parse_files (data_at file_secret_key_name existing.contents)
            (data_at file_public_key_name existing.contents))))
      (λ kp. of_Same (return-Same (existing, kp)))

ensure_key_secret-Kept :
    (gw : Gateway) (policy : EffectiveServicePolicy) → Keeps Kept (ensure_key_secret gw policy)
unfolding ensure_key_secret
ensure_key_secret-Kept gw policy =
    then-Kept (of_Same (call-Same Call.get_keys))
      (λ a. then-Kept (of_Same (gets-Same (λ (s : Store). s.keys))) (with_existing-Kept gw policy))

-- A key Secret that exists is never changed, whatever the policy, the calls that fail, and the Job
-- and its output.
pub ensure_key_secret-keeps :
    (gw : Gateway) (policy : EffectiveServicePolicy) (r : Env) (s : Store) (k : Secret)
    → s.keys ≡ some k
    → (ensure_key_secret gw policy r s).1.keys ≡ some k
ensure_key_secret-keeps gw policy r s k e = (ensure_key_secret-Kept gw policy).run r s k e

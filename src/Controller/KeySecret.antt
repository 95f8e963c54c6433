-- ===== src/Controller/KeySecret.antt =====
-- internal/controller/gateway_controller.go: ensureKeySecret.
pub mod Laws
pub mod Stored
use tor_gateway.Base.{Bool, true, false, Option, none, some, List, [], ◌∷◌, Bytes, if◌then◌else◌}
use tor_gateway.Base.Act
use tor_gateway.Base.Act.{return, raise, gets, asks, ◌>>=◌, ◌>>◌}
use tor_gateway.Api.{data_at, Secret, Gateway}
use tor_gateway.Tor.Keys.{KeyPair, parse_files, generate_key_pair}
use tor_gateway.Controller.Children.{file_secret_key_name, file_public_key_name}
use tor_gateway.Controller.Policies.{EffectiveServicePolicy, effective_policy_from}
use tor_gateway.Controller.Harvest.Objects.{
  Call, HarvestError, Store, Env, Handler, call, some_or, of_result,
}
use tor_gateway.Controller.Harvest.{store_key, run_vanity_harvest}

-- A random key, unless the Gateway waits for a vanity policy.
unfoldable pub generate_unless : Gateway → Bool → Handler (Secret × KeyPair)
unfolding store_key
generate_unless gw true = raise HarvestError.awaiting_vanity_policy
generate_unless gw false = do
  made ← asks (λ (r : Env). generate_key_pair r.sha512 r.generated)
  kp ← of_result made
  store_key gw kp

-- The policy of an uncached listing decides, where the cached one has no prefix.
unfoldable pub with_fresh_prefix : Gateway → Bytes → Handler (Secret × KeyPair)
unfolding generate_unless run_vanity_harvest
with_fresh_prefix gw [] = asks (λ (r : Env). r.await_vanity) >>= generate_unless gw
with_fresh_prefix gw (c ∷ prefix) = run_vanity_harvest gw (c ∷ prefix)

unfoldable pub make_key : Gateway → Bytes → Handler (Secret × KeyPair)
unfolding with_fresh_prefix run_vanity_harvest
make_key gw (c ∷ prefix) = run_vanity_harvest gw (c ∷ prefix)
make_key gw [] = do
  listed ← asks (λ (r : Env). effective_policy_from gw.name r.list_fresh)
  fresh ← some_or HarvestError.list_policies listed
  with_fresh_prefix gw fresh.vanity_prefix

-- A key that is there is parsed and returned; a prefix that it does not have is ignored.
unfoldable pub with_existing :
    Gateway → EffectiveServicePolicy → Option Secret → Handler (Secret × KeyPair)
unfolding make_key
with_existing gw policy none = make_key gw policy.vanity_prefix
with_existing gw policy (some existing) = do
  kp ← of_result (
      parse_files (data_at file_secret_key_name existing.contents)
        (data_at file_public_key_name existing.contents))
  return (existing, kp)

unfoldable pub ensure_key_secret : Gateway → EffectiveServicePolicy → Handler (Secret × KeyPair)
unfolding with_existing
ensure_key_secret gw policy = do
  call Call.get_keys
  existing ← gets (λ (s : Store). s.keys)
  with_existing gw policy existing

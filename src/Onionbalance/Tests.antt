-- ===== src/Onionbalance/Tests.antt =====
-- Runs of internal/onionbalance on concrete Secrets, and its theorems at such inputs.
use mathlib.Core.List.{Mem}
use tor_gateway.Base.{
  ℤ, ℕ, ◌≡◌, refl, ◌↔◌, String, true, false, none, some, List, [], ◌∷◌, Bytes, codes, bytes_eq,
}
use tor_gateway.Api.{Secret}
use tor_gateway.Tor.Samples.{repeated, sample_sha3}
use tor_gateway.Tor.Base32.{encode_to_string, decode_string}
use tor_gateway.Tor.Onion.{OnionAddress, to_string, parse_address}
use tor_gateway.Onionbalance.Config.{render}
use tor_gateway.Onionbalance.Backends.{backends_from_secrets}
use tor_gateway.Onionbalance.Backends.Owned.{IsCollected, backends_from_secrets_iff}
use tor_gateway.Onionbalance.Refresher.{
  RefresherConfig, Created, RefresherError, Effect, new_refresher, rebuild,
}
use tor_gateway.Onionbalance.Debounce.{
  World, Work, Step, Reachable, schedule, set_store, first_rebuild, handle_event,
}
use tor_gateway.Onionbalance.Debounce.Settles.{Inevitable, IsSettled, Reachable-settles}

abbrev address_of : ℕ → OnionAddress
address_of b = record { pub_key = repeated 32 b }

abbrev backend_secret : String → Bytes → Secret
backend_secret uid hostname = record {
  name = "onion-backend-0";
  namespace = "apps";
  labels = ("torgateway.io/owner-uid", "uid-1") ∷ [];
  owner_references = record { uid = uid; controller = some true } ∷ [];
  contents = ("hostname", hostname) ∷ [];
}

abbrev first_text : Bytes
first_text = codes "zdemrsgizdemrsgizdemrsgizdemrsgizdemrsgizdemrsgizdeaobyd.onion\n"

abbrev secrets : List Secret
secrets =
    backend_secret "uid-1" first_text
    ∷ backend_secret "tenant" first_text
    ∷ backend_secret "uid-1" []
    ∷ []

owned_only : backends_from_secrets sample_sha3 "uid-1" secrets ≡ address_of 200 ∷ []
unfolding backends_from_secrets parse_address decode_string bytes_eq
owned_only = refl

no_key_path : render sample_sha3 (address_of 200) [] [] ≡ none
unfolding render
no_key_path = refl

backends_from_secrets_iff_example :
    Mem (address_of 200) (backends_from_secrets sample_sha3 "uid-1" secrets)
    ↔ ∥ IsCollected sample_sha3 "uid-1" secrets (address_of 200) ∥₁
backends_from_secrets_iff_example =
    backends_from_secrets_iff sample_sha3 "uid-1" secrets (address_of 200)

-- Two events came while the first Secret's version was rebuilt; one waits for a second timer.
abbrev two_events : World
two_events = record {
  debounce = record { pending = true; timer = true; armed = 1 };
  version = 5;
  queued = 0;
  ready = true;
  fires = [];
  started = true;
  rebuilt = 3;
  rebuilds = 1;
}

two_events-Reachable : Reachable two_events
unfolding set_store first_rebuild handle_event schedule
two_events-Reachable =
    Reachable.step
      (Reachable.step
        (Reachable.step
          (Reachable.step
            (Reachable.step (Reachable.step (Reachable.initial 3) (Step.synced _))
              (Step.starts _ refl))
            (Step.change _))
          (Step.change _))
        (Step.work (Work.event _ 1 refl)))
      (Step.work (Work.event _ 0 refl))

-- Both timers lead to a rebuild after the first one.
Reachable-settles_example : Inevitable (IsSettled 5 3) two_events
Reachable-settles_example = Reachable-settles two_events two_events-Reachable refl

abbrev config : RefresherConfig
config = record {
  gateway_name = "onion";
  gateway_namespace = "apps";
  master_key_path = codes "/etc/master";
  config_path = "/etc/config.yaml";
  pid_file = "/run/pid";
  interval = ℤ.pos 1;
  master = address_of 200;
  owner_uid = "uid-1";
  has_client = true;
  has_healthcheck_file = true;
  has_recorder = true;
}

negative_interval :
    new_refresher sample_sha3 (record config { interval = ℤ.negsuc 0 })
    ≡ Created.created (record config { interval = ℤ.pos 30000000000 })
unfolding new_refresher to_string encode_to_string
negative_interval = refl

interval_raised :
    new_refresher sample_sha3 config
    ≡ Created.created (record config { interval = ℤ.pos 5000000000 })
unfolding new_refresher to_string encode_to_string
interval_raised = refl

no_owner :
    new_refresher sample_sha3 (record config { owner_uid = "" })
    ≡ Created.error RefresherError.missing_owner_uid
unfolding new_refresher
no_owner = refl

write_fails :
    (text : Bytes) × (rebuild sample_sha3 config false true []
      ≡ Effect.write text ∷ Effect.warning "OnionbalanceConfigRenderFailed" ∷ [])
unfolding rebuild backends_from_secrets render
write_fails = (_, refl)

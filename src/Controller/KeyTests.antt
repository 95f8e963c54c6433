-- ===== src/Controller/KeyTests.antt =====
-- Runs of the handlers of internal/controller that make a Gateway's key, and their theorems at
-- concrete inputs.
use tor_gateway.Base.{
  ℤ, ◌≡◌, refl, String, true, false, none, some, List, [], ◌∷◌, Bytes, codes, bytes_eq, arith,
}
use tor_gateway.Base.Act.{Outcome}
use tor_gateway.Api.{Secret, data_at}
use tor_gateway.Tor.Samples.{
  repeated, sample_sha3, sample_sha512, sample_key, sample_secret_file, sample_public_file,
}
use tor_gateway.Tor.Keys.{Result, parse_files, looks_clamped}
use tor_gateway.Tor.Vanity.{Job, VanityResult, vanity_job}
use tor_gateway.Controller.Samples.{gateway}
use tor_gateway.Controller.Policies.{default_policy}
use tor_gateway.Controller.Harvest.Objects.{JobObject, Store, Env}
use tor_gateway.Controller.Harvest.{harvest_job, run_vanity_harvest, vanity_out_populated}
use tor_gateway.Controller.Harvest.Stored.{IsStored}
use tor_gateway.Controller.Harvest.Stale.{store_with, run_vanity_harvest-stale}
use tor_gateway.Controller.KeySecret.{ensure_key_secret}
use tor_gateway.Controller.KeySecret.Laws.{ensure_key_secret-keeps}
use tor_gateway.Controller.KeySecret.Stored.{IsSound, ensure_key_secret-IsStored}

abbrev env : Env
env = record {
  fails = λ c. false;
  owners = some [];
  sha3_256 = sample_sha3;
  mkp224o_image = "mkp224o";
  finalize_image = "finalize";
  vanity_deadline = ℤ.pos 0;
  list_fresh = some [];
  await_vanity = false;
  sha512 = sample_sha512;
  generated = some (repeated 32 200, repeated 64 1);
}

abbrev no_objects : Store
no_objects = record {
  vanity_failed = none;
  service_account = none;
  role = none;
  role_binding = none;
  job = none;
  out = none;
  keys = none;
}

abbrev key_files : List (String × Bytes)
key_files =
    ("hs_ed25519_secret_key", sample_secret_file)
    ∷ ("hs_ed25519_public_key", sample_public_file)
    ∷ []

abbrev stored_secret : Secret
stored_secret = record {
  name = "onion-keys";
  namespace = "apps";
  labels = [];
  owner_references = [];
  contents = key_files;
}

abbrev with_keys : Store
with_keys = record no_objects { keys = some stored_secret }

env-IsSound : IsSound env
env-IsSound = record {
  digest = record { size = λ s. refl; bytes = λ s. omega arith };
  generator = refl;
}

existing_key :
    (ensure_key_secret gateway default_policy env with_keys).0
    ≡ Outcome.done (stored_secret, sample_key)
unfolding ensure_key_secret parse_files looks_clamped bytes_eq
existing_key = refl

ensure_key_secret-keeps_example :
    (ensure_key_secret gateway default_policy env with_keys).1.keys ≡ some stored_secret
ensure_key_secret-keeps_example =
    ensure_key_secret-keeps gateway default_policy env with_keys stored_secret refl

ensure_key_secret-IsStored_example :
    IsStored (stored_secret, sample_key) (ensure_key_secret gateway default_policy env with_keys).1
ensure_key_secret-IsStored_example =
    ensure_key_secret-IsStored gateway default_policy env with_keys (stored_secret, sample_key)
      env-IsSound existing_key

abbrev manifest_of : VanityResult → Job → Job
manifest_of (VanityResult.job j) d = j
manifest_of (VanityResult.error e) d = d

abbrev old_manifest : Job
old_manifest = record {
  name = "vanity";
  namespace = "apps";
  labels = ("torgateway.io/vanity-prefix", codes "aa") ∷ [];
  annotations = [];
  backoff_limit = 0;
  active_deadline_seconds = 3600;
  ttl_seconds_after_finished = 3600;
  restart_policy = "Never";
  service_account_name = "vanity";
  run_as = 65532;
  seccomp_profile = "RuntimeDefault";
  volumes = [];
  init_containers = [];
  containers = [];
}

abbrev old_job : JobObject
old_job = record { manifest = old_manifest; conditions = [] }

new_manifest : (j : Job) × (harvest_job env gateway (codes "bb") ≡ VanityResult.job j)
unfolding vanity_job
new_manifest = (manifest_of (harvest_job env gateway (codes "bb")) old_manifest, refl)

is_populated : vanity_out_populated stored_secret ≡ true
unfolding vanity_out_populated
is_populated = refl

key_files_parse :
    parse_files
      (data_at "hs_ed25519_secret_key" key_files)
      (data_at "hs_ed25519_public_key" key_files)
    ≡ Result.done sample_key
unfolding parse_files looks_clamped bytes_eq
key_files_parse = refl

other_prefix : bytes_eq (codes "aa") (codes "bb") ≡ false
unfolding bytes_eq
other_prefix = refl

none_failed : bytes_eq [] (codes "bb") ≡ false
unfolding bytes_eq
none_failed = refl

run_vanity_harvest-stale_example :
    (secret : Secret) × ((run_vanity_harvest gateway
        (codes "bb")
        env
        (run_vanity_harvest gateway
          (codes "bb")
          env
          (run_vanity_harvest gateway
            (codes "bb")
            env
            (store_with gateway env [] none (some old_job) stored_secret)).1).1).0
      ≡ Outcome.done (secret, sample_key))
run_vanity_harvest-stale_example =
    run_vanity_harvest-stale gateway env [] (λ c. refl) refl none old_job stored_secret 98 (98 ∷ [])
      new_manifest.0 sample_key none_failed other_prefix new_manifest.1 is_populated key_files_parse

-- ===== src/Controller/Harvest.antt =====
-- internal/controller/vanity.go: the harvest of a vanity key, as a handler on the objects of one
-- Gateway. Events and the labels of logs are left out.
pub mod Objects
pub mod Keeps
pub mod KeyKept
pub mod Stored
pub mod Stale
use tor_gateway.Base.{
  ℕ, String, Bool, true, false, Option, none, some, List, [], ◌∷◌, Bytes, codes, any, get_or, not,
  length, eqb, if◌then◌else◌, ◌==◌, ◌&&◌, bytes_eq,
}
use tor_gateway.Base.Act
use tor_gateway.Base.Act.{
  Outcome, Act, return, raise, gets, asks, modify, attempt, ignore, ◌>>=◌, ◌>>◌,
}
use tor_gateway.Api.{data_at, OwnerReference, Secret, Gateway}
use tor_gateway.Tor.Keys.{
  KeyPair, KeyError, Result, parse_files, secret_key_file_size, public_key_file_size,
}
use tor_gateway.Tor.Vanity.{Job, VanityError, VanityResult, vanity_job}
use tor_gateway.Controller.Names.{
  gateway_label_key, vanity_prefix_label, vanity_rbac_name, vanity_out_secret_name,
}
use tor_gateway.Controller.Children.{
  ObjectMeta, Role, RoleBinding, file_secret_key_name, file_public_key_name,
  build_vanity_service_account, build_vanity_role, build_vanity_role_binding,
  build_vanity_out_secret, build_key_secret,
}
use tor_gateway.Controller.Harvest.Objects.{
  Call, HarvestError, JobObject, Store, Env, Handler, call, some_or, owner_references, of_result,
}

unfoldable pub vanity_out_populated : Secret → Bool
vanity_out_populated s =
    eqb (length (data_at file_secret_key_name s.contents)) secret_key_file_size
    && eqb (length (data_at file_public_key_name s.contents)) public_key_file_size

unfoldable pub job_failed : JobObject → Bool
job_failed j = any (λ c. (c.0 == "Failed") && (c.1 == "True")) j.conditions

unfoldable pub ensure_vanity_rbac : Gateway → Handler Unit
ensure_vanity_rbac gw = do
  sa_owners ← owner_references
  call Call.put_service_account
  modify (λ (s : Store). record s {
    service_account = some (build_vanity_service_account gw sa_owners);
  })
  role_owners ← owner_references
  call Call.put_role
  modify (λ (s : Store). record s { role = some (build_vanity_role gw role_owners) })
  rb_owners ← owner_references
  call Call.put_role_binding
  modify (λ (s : Store). record s { role_binding = some (build_vanity_role_binding gw rb_owners) })

unfoldable pub create_vanity_out_secret : Gateway → Option Secret → Handler Unit
create_vanity_out_secret gw (some out) = return tt
create_vanity_out_secret gw none = do
  owners ← owner_references
  call Call.create_out
  modify (λ (s : Store). record s { out = some (build_vanity_out_secret gw owners) })

-- An existing Secret is never updated.
unfoldable pub ensure_vanity_out_secret : Gateway → Handler Unit
unfolding create_vanity_out_secret
ensure_vanity_out_secret gw = do
  call Call.get_out
  out ← gets (λ (s : Store). s.out)
  create_vanity_out_secret gw out

abbrev pub harvest_job : Env → Gateway → Bytes → VanityResult
harvest_job r gw prefix = vanity_job (record {
  job_name = vanity_rbac_name gw.name;
  namespace = gw.namespace;
  prefix = prefix;
  output_secret_name = vanity_out_secret_name gw.name;
  service_account_name = vanity_rbac_name gw.name;
  mkp224o_image = r.mkp224o_image;
  finalize_image = r.finalize_image;
  active_deadline = r.vanity_deadline;
  labels = (gateway_label_key, codes gw.name) ∷ (vanity_prefix_label, prefix) ∷ [];
  annotations = [];
  mkp224o_resources = record { requests = none; limits = none };
})

abbrev pub job_or_error : VanityResult → Handler Job
job_or_error (VanityResult.job j) = return j
job_or_error (VanityResult.error e) = raise (HarvestError.invalid_job e)

unfoldable pub create_vanity_job : Gateway → Bytes → Handler Unit
create_vanity_job gw prefix = do
  built ← asks (λ (r : Env). harvest_job r gw prefix)
  manifest ← job_or_error built
  owners ← owner_references
  call Call.create_job
  modify (λ (s : Store). record s { job = some (record { manifest = manifest; conditions = [] }) })

unfoldable pub delete_vanity_job : Handler Unit
delete_vanity_job = do call Call.delete_job; modify (λ (s : Store). record s { job = none })

unfoldable pub clear_annotation : Option Bytes → Handler Unit
clear_annotation none = return tt
clear_annotation (some p) = do
  call Call.patch_gateway
  modify (λ (s : Store). record s { vanity_failed = none })

unfoldable pub clear_vanity_failed : Handler Unit
unfolding clear_annotation
clear_vanity_failed = gets (λ (s : Store). s.vanity_failed) >>= clear_annotation

abbrev pub failed_prefix : Store → Bytes
failed_prefix s = get_or s.vanity_failed []

unfoldable pub set_annotation : Bytes → Bool → Handler Unit
set_annotation prefix true = return tt
set_annotation prefix false = do
  call Call.patch_gateway
  modify (λ (s : Store). record s { vanity_failed = some prefix })

unfoldable pub mark_vanity_failed : Bytes → Handler Unit
unfolding set_annotation
mark_vanity_failed prefix =
    gets (λ (s : Store). bytes_eq (failed_prefix s) prefix) >>= set_annotation prefix

-- The creation of the key Secret, which fails where there is one.
unfoldable pub create_if_absent : Secret → Option Secret → Handler Unit
create_if_absent secret (some old) = raise (HarvestError.already_exists Call.create_keys)
create_if_absent secret none = modify (λ (s : Store). record s { keys = some secret })

unfoldable pub create_secret : Secret → Handler Unit
unfolding create_if_absent
create_secret secret = do
  call Call.create_keys
  old ← gets (λ (s : Store). s.keys)
  create_if_absent secret old

-- Builds and creates the Secret of a key.
unfoldable pub store_key : Gateway → KeyPair → Handler (Secret × KeyPair)
unfolding create_secret
store_key gw kp = do
  owners ← owner_references
  sha3_256 ← asks (λ (r : Env). r.sha3_256)
  secret ← of_result (build_key_secret sha3_256 gw owners kp)
  create_secret secret
  return (secret, kp)

-- What is left over after a promotion is deleted; errors of this are dropped.
unfoldable pub clean_up : Handler Unit
unfolding delete_vanity_job clear_vanity_failed
clean_up = do
  ignore (call Call.delete_out >>= λ done. modify (λ (s : Store). record s { out = none }))
  ignore delete_vanity_job
  ignore clear_vanity_failed

unfoldable pub promote_vanity_key : Gateway → Secret → Handler (Secret × KeyPair)
unfolding store_key clean_up
promote_vanity_key gw out = do
  kp ← of_result (
      parse_files (data_at file_secret_key_name out.contents)
        (data_at file_public_key_name out.contents))
  stored ← store_key gw kp
  clean_up
  return stored

-- A Job for the prefix that has not written its output.
unfoldable pub wait_for_job : Bytes → Bool → Handler (Secret × KeyPair)
unfolding mark_vanity_failed
wait_for_job prefix false = raise HarvestError.harvest_pending
wait_for_job prefix true = mark_vanity_failed prefix >>= λ marked. raise HarvestError.harvest_failed

unfoldable pub with_output : Gateway → Bytes → JobObject → Secret → Handler (Secret × KeyPair)
unfolding promote_vanity_key wait_for_job
with_output gw prefix job out =
    if vanity_out_populated out
    then promote_vanity_key gw out
    else wait_for_job prefix (job_failed job)

unfoldable pub current_job : Gateway → Bytes → JobObject → Handler (Secret × KeyPair)
unfolding with_output
current_job gw prefix job = do
  call Call.get_out
  found ← gets (λ (s : Store). s.out)
  out ← some_or (HarvestError.not_found Call.get_out) found
  with_output gw prefix job out

unfoldable pub stale_job : Handler (Secret × KeyPair)
unfolding delete_vanity_job clear_vanity_failed
stale_job = do delete_vanity_job; clear_vanity_failed; raise HarvestError.harvest_pending

unfoldable pub with_job : Gateway → Bytes → Option JobObject → Handler (Secret × KeyPair)
unfolding create_vanity_job current_job stale_job
with_job gw prefix none =
    create_vanity_job gw prefix >>= λ created. raise HarvestError.harvest_pending
with_job gw prefix (some job) =
    if bytes_eq (data_at vanity_prefix_label job.manifest.labels) prefix
    then current_job gw prefix job
    else stale_job

unfoldable pub start_harvest : Gateway → Bytes → Handler (Secret × KeyPair)
unfolding ensure_vanity_rbac ensure_vanity_out_secret with_job
start_harvest gw prefix = do
  ensure_vanity_rbac gw
  ensure_vanity_out_secret gw
  call Call.get_job
  job ← gets (λ (s : Store). s.job)
  with_job gw prefix job

unfoldable pub unless_failed : Gateway → Bytes → Bool → Handler (Secret × KeyPair)
unfolding start_harvest
unless_failed gw prefix true = raise HarvestError.harvest_failed
unless_failed gw prefix false = start_harvest gw prefix

-- A prefix whose harvest has failed is not tried again.
unfoldable pub run_vanity_harvest : Gateway → Bytes → Handler (Secret × KeyPair)
unfolding unless_failed
run_vanity_harvest gw prefix =
    gets (λ (s : Store). bytes_eq (failed_prefix s) prefix) >>= unless_failed gw prefix

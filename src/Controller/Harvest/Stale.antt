-- ===== src/Controller/Harvest/Stale.antt =====
-- What internal/controller/vanity.go does when the wanted prefix changes after a Job has written its
-- output.
use tor_gateway.Base.{
  ℕ, ◌≡◌, refl, ap, true, false, Option, none, some, List, [], ◌∷◌, Bytes, bytes_eq, bytes_eq_refl,
  if◌then◌else◌, arith,
}
use tor_gateway.Base.Act.{Outcome}
use tor_gateway.Api.{data_at, OwnerReference, Secret, Gateway}
use tor_gateway.Tor.Keys.{KeyPair, Result, parse_files, hostname}
use tor_gateway.Tor.Keys.RoundTrip.{IsKeyPair, parse_files-key_files, parse_files_iff}
use tor_gateway.Tor.Vanity.{
  Job, VanityJobConfig, VanityResult, vanity_job, vanity_prefix_pattern, job_of,
}
use tor_gateway.Controller.Names.{vanity_prefix_label}
use tor_gateway.Controller.Children.{
  file_secret_key_name, file_public_key_name, file_hostname_name, key_secret_of, build_key_secret,
  build_vanity_service_account, build_vanity_role, build_vanity_role_binding,
}
use tor_gateway.Controller.Harvest.Objects.{Call, JobObject, Store, Env}
use tor_gateway.Controller.Harvest.{
  harvest_job, vanity_out_populated, run_vanity_harvest, failed_prefix,
}

-- A job that is built has the labels and the arguments of its configuration.
vanity_job_inv :
    (cfg : VanityJobConfig) (j : Job)
    → vanity_job cfg ≡ VanityResult.job j
    → (j ≡ job_of cfg) × (vanity_prefix_pattern cfg.prefix ≡ true)
unfolding vanity_job
vanity_job_inv cfg j h = ground arith

nil-ne_cons : (c : ℕ) (cs : Bytes) → bytes_eq [] (c ∷ cs) ≡ false
unfolding bytes_eq
nil-ne_cons c cs = refl

build_key_secret_lem :
    (sha3_256 : Bytes → Bytes) (gw : Gateway) (owners : List OwnerReference) (kp : KeyPair)
    → IsKeyPair kp
    → (secret : Secret) × (build_key_secret sha3_256 gw owners kp ≡ Result.done secret)
unfolding build_key_secret
build_key_secret_lem sha3_256 gw owners kp valid =
    let (sf, pf, es, ep, parsed) = parse_files-key_files kp valid in
    (
      key_secret_of gw owners (
          (file_secret_key_name, sf)
          ∷ (file_public_key_name, pf)
          ∷ (file_hostname_name, hostname sha3_256 kp)
          ∷ []),
      rw (es, ep) refl,
    )

harvest_job-label :
    (r : Env) (gw : Gateway) (prefix : Bytes) (manifest : Job)
    → harvest_job r gw prefix ≡ VanityResult.job manifest
    → data_at vanity_prefix_label manifest.labels ≡ prefix
unfolding job_of
harvest_job-label r gw prefix manifest h =
    ap (λ (j : Job). data_at vanity_prefix_label j.labels) (vanity_job_inv _ manifest h).0

module _ (gw : Gateway) (r : Env) (owners : List OwnerReference) where
  -- The store while a job of another prefix has written its output.
  abbrev pub store_with : Option Bytes → Option JobObject → Secret → Store
  store_with failed job out = record {
    vanity_failed = failed;
    service_account = some (build_vanity_service_account gw owners);
    role = some (build_vanity_role gw owners);
    role_binding = some (build_vanity_role_binding gw owners);
    job = job;
    out = some out;
    keys = none;
  }

  module _ (ok : (c : Call) → r.fails c ≡ false) (own : r.owners ≡ some owners) where
    -- The old job is deleted, but not its output.
    first_run :
        (failed : Option Bytes) (job : JobObject) (out : Secret) (prefix : Bytes)
        → bytes_eq (failed_prefix (store_with failed (some job) out)) prefix ≡ false
        → bytes_eq (data_at vanity_prefix_label job.manifest.labels) prefix ≡ false
        → (run_vanity_harvest gw prefix r (store_with failed (some job) out)).1
          ≡ store_with none none out
    unfolding run_vanity_harvest
    first_run none job out prefix h k =
        rw
          (
            h,
            own,
            ok Call.put_service_account,
            ok Call.put_role,
            ok Call.put_role_binding,
            ok Call.get_out,
            ok Call.get_job,
            k,
            ok Call.delete_job,
            if◌then◌else◌,
          )
          refl
    first_run (some p) job out prefix h k =
        rw
          (
            h,
            own,
            ok Call.put_service_account,
            ok Call.put_role,
            ok Call.put_role_binding,
            ok Call.get_out,
            ok Call.get_job,
            k,
            ok Call.delete_job,
            ok Call.patch_gateway,
            if◌then◌else◌,
          )
          refl

    -- A job for the new prefix is created, beside the old output.
    second_run :
        (out : Secret) (c : ℕ) (cs : Bytes) (manifest : Job)
        → harvest_job r gw (c ∷ cs) ≡ VanityResult.job manifest
        → (run_vanity_harvest gw (c ∷ cs) r (store_with none none out)).1
          ≡ store_with none (some (record { manifest = manifest; conditions = [] })) out
    unfolding run_vanity_harvest bytes_eq
    second_run out c cs manifest h =
        rw
          (
            own,
            ok Call.put_service_account,
            ok Call.put_role,
            ok Call.put_role_binding,
            ok Call.get_out,
            ok Call.get_job,
            h,
            ok Call.create_job,
            if◌then◌else◌,
          )
          refl

    -- The old output is taken for that of the new job.
    third_run :
        (out : Secret) (c : ℕ) (cs : Bytes) (manifest : Job) (kp : KeyPair) (secret : Secret)
        → data_at vanity_prefix_label manifest.labels ≡ c ∷ cs
        → vanity_out_populated out ≡ true
        → parse_files
            (data_at file_secret_key_name out.contents)
            (data_at file_public_key_name out.contents)
          ≡ Result.done kp
        → build_key_secret r.sha3_256 gw owners kp ≡ Result.done secret
        → (run_vanity_harvest gw
            (c ∷ cs)
            r
            (store_with none (some (record { manifest = manifest; conditions = [] })) out)).0
          ≡ Outcome.done (secret, kp)
    unfolding run_vanity_harvest
    third_run out c cs manifest kp secret label populated parsed built =
        rw
          (
            nil-ne_cons c cs,
            own,
            ok Call.put_service_account,
            ok Call.put_role,
            ok Call.put_role_binding,
            ok Call.get_out,
            ok Call.get_job,
            label,
            bytes_eq_refl (c ∷ cs),
            if◌then◌else◌,
            ok Call.get_out,
            populated,
            parsed,
            built,
            ok Call.create_keys,
            if◌then◌else◌,
          )
          refl

    -- When the wanted prefix changes after a Job has written its output and no call fails, the third
    -- run ends with the key of the old output.
    pub run_vanity_harvest-stale :
        (failed : Option Bytes) (job : JobObject) (out : Secret) (c : ℕ) (cs : Bytes)
        (manifest : Job) (kp : KeyPair)
        → bytes_eq (failed_prefix (store_with failed (some job) out)) (c ∷ cs) ≡ false
        → bytes_eq (data_at vanity_prefix_label job.manifest.labels) (c ∷ cs) ≡ false
        → harvest_job r gw (c ∷ cs) ≡ VanityResult.job manifest
        → vanity_out_populated out ≡ true
        → parse_files
            (data_at file_secret_key_name out.contents)
            (data_at file_public_key_name out.contents)
          ≡ Result.done kp
        → (secret : Secret) × ((run_vanity_harvest gw
              (c ∷ cs)
              r
              (run_vanity_harvest gw
                (c ∷ cs)
                r
                (run_vanity_harvest gw (c ∷ cs) r (store_with failed (some job) out)).1).1).0
            ≡ Outcome.done (secret, kp))
    run_vanity_harvest-stale failed job out c cs manifest kp h k built populated parsed =
        let sf = data_at file_secret_key_name out.contents in
        let pf = data_at file_public_key_name out.contents in
        let (same_secret, same_public, valid) = (parse_files_iff sf pf kp).0 parsed in
        let (secret, made) = build_key_secret_lem r.sha3_256 gw owners kp valid in
        (
          secret,
          rw (first_run failed job out (c ∷ cs) h k, second_run out c cs manifest built)
              (third_run out c cs manifest kp secret
                (harvest_job-label r gw (c ∷ cs) manifest built) populated parsed made),
        )

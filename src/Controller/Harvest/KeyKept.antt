-- ===== src/Controller/Harvest/KeyKept.antt =====
-- The key Secret that is there, under the harvest of internal/controller/vanity.go.
use tor_gateway.Base.{
  ◌≡◌, refl, ◌∙◌, inl, inr, Bool, true, false, Option, none, some, Bytes, bytes_eq, if◌then◌else◌,
  Bool-cases,
}
use tor_gateway.Base.Act.{Keeps, ◌>>=◌, bind-Keeps}
use tor_gateway.Api.{data_at, Secret, Gateway}
use tor_gateway.Tor.Keys.{KeyPair, Result, parse_files}
use tor_gateway.Controller.Names.{vanity_prefix_label}
use tor_gateway.Controller.Children.{file_secret_key_name, file_public_key_name, build_key_secret}
use tor_gateway.Controller.Harvest.Objects.{
  Call, HarvestError, JobObject, Store, Env, Handler, of_result,
}
use tor_gateway.Controller.Harvest.{
  create_if_absent, create_secret, store_key, promote_vanity_key, vanity_out_populated, job_failed,
  with_output, current_job, with_job, start_harvest, unless_failed, run_vanity_harvest,
  failed_prefix,
}
use tor_gateway.Controller.Harvest.Keeps.{
  Same, call-Same, owner_references-Same, asks-Same, gets-Same, return-Same, raise-Same,
  some_or-Same, ensure_vanity_rbac-Same, ensure_vanity_out_secret-Same, create_vanity_job-Same,
  clean_up-Same, wait_for_job-Same, stale_job-Same,
}

-- A key Secret that is there stays as it is.
abbrev pub Kept : Store → Store → Type 0
Kept s t = (k : Secret) → s.keys ≡ some k → t.keys ≡ some k

Kept-trans : (s t u : Store) → Kept s t → Kept t u → Kept s u
Kept-trans s t u p q k e = q k (p k e)

pub of_Same : {A : Type 0} {m : Handler A} → Keeps Same m → Keeps Kept m
of_Same p = record { run = λ r s k e. p.run r s ∙ e }

pub then-Kept :
    {A B : Type 0} {m : Handler A} {f : A → Handler B}
    → Keeps Kept m
    → ((a : A) → Keeps Kept (f a))
    → Keeps Kept (m >>= f)
then-Kept p k = bind-Keeps Kept Kept-trans p k

pub of_result-Same : {A : Type 0} (x : Result A) → Keeps Same (of_result x)
of_result-Same (Result.done a) = return-Same a
of_result-Same (Result.error e) = raise-Same (HarvestError.invalid_key e)

create_if_absent_kept :
    (secret : Secret) (o : Option Secret) (r : Env) (s : Store) (k : Secret)
    → s.keys ≡ o
    → s.keys ≡ some k
    → (create_if_absent secret o r s).1.keys ≡ some k
unfolding create_if_absent
create_if_absent_kept secret (some old) r s k e h = h
create_if_absent_kept secret none r s k e h = absurd (cc (e, h))

create_secret-Kept : (secret : Secret) → Keeps Kept (create_secret secret)
unfolding create_secret
create_secret-Kept secret = record {
  run = λ r s k e. elim (Bool-cases (r.fails Call.create_keys)) [
    | inl d ↦ rw (d, if◌then◌else◌) e
    | inr d ↦ rw (d, if◌then◌else◌) (create_if_absent_kept secret s.keys r s k refl e)
  ];
}

pub store_key-Kept : (gw : Gateway) (kp : KeyPair) → Keeps Kept (store_key gw kp)
unfolding store_key
store_key-Kept gw kp = then-Kept (of_Same owner_references-Same) (λ owners.
    then-Kept (of_Same (asks-Same (λ (r : Env). r.sha3_256))) (λ sha3_256.
      then-Kept (of_Same (of_result-Same (build_key_secret sha3_256 gw owners kp))) (λ secret.
        then-Kept (create_secret-Kept secret) (λ a. of_Same (return-Same (secret, kp))))))

promote_vanity_key-Kept : (gw : Gateway) (out : Secret) → Keeps Kept (promote_vanity_key gw out)
unfolding promote_vanity_key
promote_vanity_key-Kept gw out =
    then-Kept
      (of_Same (
        of_result-Same (
          parse_files (data_at file_secret_key_name out.contents)
            (data_at file_public_key_name out.contents))))
      (λ kp.
        then-Kept (store_key-Kept gw kp)
          (λ stored. then-Kept (of_Same clean_up-Same) (λ a. of_Same (return-Same stored))))

with_output-Kept :
    (gw : Gateway) (prefix : Bytes) (job : JobObject) (out : Secret)
    → Keeps Kept (with_output gw prefix job out)
unfolding with_output
with_output-Kept gw prefix job out = elim (Bool-cases (vanity_out_populated out)) [
  | inl e ↦ rw (e, if◌then◌else◌) (promote_vanity_key-Kept gw out)
  | inr e ↦ rw (e, if◌then◌else◌) (of_Same (wait_for_job-Same prefix (job_failed job)))
]

current_job-Kept :
    (gw : Gateway) (prefix : Bytes) (job : JobObject) → Keeps Kept (current_job gw prefix job)
unfolding current_job
current_job-Kept gw prefix job = then-Kept (of_Same (call-Same Call.get_out)) (λ a.
    then-Kept (of_Same (gets-Same (λ (s : Store). s.out))) (λ found.
      then-Kept (of_Same (some_or-Same (HarvestError.not_found Call.get_out) found))
        (λ out. with_output-Kept gw prefix job out)))

with_job-Kept :
    (gw : Gateway) (prefix : Bytes) (o : Option JobObject) → Keeps Kept (with_job gw prefix o)
unfolding with_job
with_job-Kept gw prefix none =
    then-Kept (of_Same (create_vanity_job-Same gw prefix))
      (λ a. of_Same (raise-Same HarvestError.harvest_pending))
with_job-Kept gw prefix (some job) =
    elim (Bool-cases (bytes_eq (data_at vanity_prefix_label job.manifest.labels) prefix)) [
      | inl e ↦ rw (e, if◌then◌else◌) (current_job-Kept gw prefix job)
      | inr e ↦ rw (e, if◌then◌else◌) (of_Same stale_job-Same)
    ]

start_harvest-Kept : (gw : Gateway) (prefix : Bytes) → Keeps Kept (start_harvest gw prefix)
unfolding start_harvest
start_harvest-Kept gw prefix = then-Kept (of_Same (ensure_vanity_rbac-Same gw)) (λ a.
    then-Kept (of_Same (ensure_vanity_out_secret-Same gw)) (λ b.
      then-Kept (of_Same (call-Same Call.get_job))
        (λ c. then-Kept (of_Same (gets-Same (λ (s : Store). s.job))) (with_job-Kept gw prefix))))

unless_failed-Kept :
    (gw : Gateway) (prefix : Bytes) (b : Bool) → Keeps Kept (unless_failed gw prefix b)
unfolding unless_failed
unless_failed-Kept gw prefix true = of_Same (raise-Same HarvestError.harvest_failed)
unless_failed-Kept gw prefix false = start_harvest-Kept gw prefix

pub run_vanity_harvest-Kept :
    (gw : Gateway) (prefix : Bytes) → Keeps Kept (run_vanity_harvest gw prefix)
unfolding run_vanity_harvest
run_vanity_harvest-Kept gw prefix =
    then-Kept (of_Same (gets-Same (λ (s : Store). bytes_eq (failed_prefix s) prefix)))
      (unless_failed-Kept gw prefix)

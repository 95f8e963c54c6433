-- ===== src/Controller/Harvest/Stored.antt =====
-- The key that the harvest of internal/controller/vanity.go ends with, and the Secret that holds it.
use tor_gateway.Base.{
  ◌≡◌, refl, ◌∙◌, inl, inr, Bool, true, false, Option, none, some, List, [], ◌∷◌, Bytes, bytes_eq,
  if◌then◌else◌, Bool-cases,
}
use tor_gateway.Base.Act.{
  Outcome, Keeps, Ends, return, raise, gets, asks, after, ◌>>=◌, ◌>>◌, bind-Ends,
}
use tor_gateway.Api.{data_at, OwnerReference, Secret, Gateway}
use tor_gateway.Tor.Keys.{KeyPair, Result, parse_files, hostname}
use tor_gateway.Tor.Keys.RoundTrip.{IsKeyPair, parse_files-key_files, parse_files_iff}
use tor_gateway.Controller.Names.{vanity_prefix_label}
use tor_gateway.Controller.Children.{
  file_secret_key_name, file_public_key_name, file_hostname_name, key_secret_of, build_key_secret,
}
use tor_gateway.Controller.Harvest.Objects.{
  Call, HarvestError, JobObject, Store, Env, Handler, call, some_or, owner_references, of_result,
}
use tor_gateway.Controller.Harvest.{
  create_if_absent, create_secret, store_key, promote_vanity_key, vanity_out_populated, job_failed,
  with_output, current_job, with_job, start_harvest, unless_failed, run_vanity_harvest,
  failed_prefix, clean_up, wait_for_job, mark_vanity_failed, stale_job, delete_vanity_job,
  clear_vanity_failed, create_vanity_job, ensure_vanity_rbac, ensure_vanity_out_secret,
}
use tor_gateway.Controller.Harvest.Keeps.{Same, clean_up-Same}

-- The Secret is the one that is stored, and its files parse to the key.
pub record IsStored (x : Secret × KeyPair) (s : Store) : Type 0 where
  pub stored : s.keys ≡ some x.0
  pub parses :
      parse_files
        (data_at file_secret_key_name x.0.contents)
        (data_at file_public_key_name x.0.contents)
      ≡ Result.done x.1

pub IsStored-Same : (x : Secret × KeyPair) (s t : Store) → Same s t → IsStored x s → IsStored x t
IsStored-Same x s t e h = record { stored = e ∙ h.stored; parses = h.parses }

pub of_result-Ends :
    {A B : Type 0} {Q : B → Store → Type 0} (x : Result A) {f : A → Handler B}
    → ((a : A) → x ≡ Result.done a → Ends Q (f a))
    → Ends Q (of_result x >>= f)
of_result-Ends (Result.done a) k = record { run = λ r s b e. (k a refl).run r s b e }
of_result-Ends (Result.error x) k = record { run = λ r s b e. absurd (cc e) }

raise-Ends : {Q : Secret × KeyPair → Store → Type 0} (e : HarvestError) → Ends {R = Env} Q (raise e)
raise-Ends x = record { run = λ r s b e. absurd (cc e) }

create_if_absent_stored :
    (secret : Secret) (o : Option Secret) (r : Env) (s : Store)
    → (create_if_absent secret o r s).0 ≡ Outcome.done tt
    → (create_if_absent secret o r s).1.keys ≡ some secret
unfolding create_if_absent
create_if_absent_stored secret (some old) r s e = absurd (cc e)
create_if_absent_stored secret none r s e = refl

create_secret_stored :
    (secret : Secret) (r : Env) (s : Store)
    → (create_secret secret r s).0 ≡ Outcome.done tt
    → (create_secret secret r s).1.keys ≡ some secret
unfolding create_secret
create_secret_stored secret r s e = elim (Bool-cases (r.fails Call.create_keys)) [
  | inl d ↦ absurd (cc (rw (d, if◌then◌else◌) at e))
  | inr d ↦
      rw (d, if◌then◌else◌) (create_if_absent_stored secret s.keys r s (rw (d, if◌then◌else◌) at e))
]

-- The files of a valid key, read back from its Secret.
build_key_secret-parses :
    (sha3_256 : Bytes → Bytes) (gw : Gateway) (owners : List OwnerReference) (kp : KeyPair)
    (secret : Secret)
    → IsKeyPair kp
    → build_key_secret sha3_256 gw owners kp ≡ Result.done secret
    → parse_files
        (data_at file_secret_key_name secret.contents)
        (data_at file_public_key_name secret.contents)
      ≡ Result.done kp
unfolding build_key_secret key_secret_of
build_key_secret-parses sha3_256 gw owners kp secret valid e =
    let (sf, pf, es, ep, parsed) = parse_files-key_files kp valid in
    let contents =
      (file_secret_key_name, sf)
      ∷ (file_public_key_name, pf)
      ∷ (file_hostname_name, hostname sha3_256 kp)
      ∷ [] in
    let same : key_secret_of gw owners contents ≡ secret = cc (rw (es, ep) at e) in
    rw (← same) parsed

created :
    (x : Secret × KeyPair)
    → parse_files
        (data_at file_secret_key_name x.0.contents)
        (data_at file_public_key_name x.0.contents)
      ≡ Result.done x.1
    → (y : Outcome {0, 0} HarvestError Unit × Store) (r : Env) (a : Secret × KeyPair)
    → (y.0 ≡ Outcome.done tt → y.1.keys ≡ some x.0)
    → (after y (λ u. return x) r).0 ≡ Outcome.done a
    → IsStored a (after y (λ u. return x) r).1
created x parsed (Outcome.done tt, t) r a h e =
    let same : x ≡ a = cc e in rw (← same) (record { stored = h refl; parses = parsed })
created x parsed (Outcome.error z, t) r a h e = absurd (cc e)

create_then-IsStored :
    (x : Secret × KeyPair)
    → parse_files
        (data_at file_secret_key_name x.0.contents)
        (data_at file_public_key_name x.0.contents)
      ≡ Result.done x.1
    → Ends IsStored (create_secret x.0 >> return x)
create_then-IsStored x parsed = record {
  run = λ r s a e. created x parsed (create_secret x.0 r s) r a (create_secret_stored x.0 r s) e;
}

pub store_key-IsStored :
    (gw : Gateway) (kp : KeyPair) → IsKeyPair kp → Ends IsStored (store_key gw kp)
unfolding store_key
store_key-IsStored gw kp valid = bind-Ends owner_references (λ owners.
    bind-Ends (asks (λ (r : Env). r.sha3_256)) (λ sha3_256.
      of_result-Ends (build_key_secret sha3_256 gw owners kp) (λ secret built.
        create_then-IsStored (secret, kp)
          (build_key_secret-parses sha3_256 gw owners kp secret valid built))))

-- What is done after a key is stored, and keeps it.
kept_then :
    (x : Secret × KeyPair) (s : Store) (y : Outcome {0, 0} HarvestError Unit × Store) (r : Env)
    (a : Secret × KeyPair)
    → IsStored x s
    → Same s y.1
    → (after y (λ u. return x) r).0 ≡ Outcome.done a
    → IsStored a (after y (λ u. return x) r).1
kept_then x s (Outcome.done tt, t) r a h k e =
    let same : x ≡ a = cc e in rw (← same) (IsStored-Same x s t k h)
kept_then x s (Outcome.error z, t) r a h k e = absurd (cc e)

IsStored-then :
    (n : Handler Unit)
    → Keeps Same n
    → (y : Outcome HarvestError (Secret × KeyPair) × Store) (r : Env) (a : Secret × KeyPair)
    → ((x : Secret × KeyPair) → y.0 ≡ Outcome.done x → IsStored x y.1)
    → (after y (λ x. n >> return x) r).0 ≡ Outcome.done a
    → IsStored a (after y (λ x. n >> return x) r).1
IsStored-then n k (Outcome.done x, t) r a h e = kept_then x t (n r t) r a (h x refl) (k.run r t) e
IsStored-then n k (Outcome.error z, t) r a h e = absurd (cc e)

after_stored :
    (m : Handler (Secret × KeyPair)) (n : Handler Unit)
    → Ends IsStored m
    → Keeps Same n
    → Ends IsStored (m >>= λ stored. n >> return stored)
after_stored m n h k = record { run = λ r s a e. IsStored-then n k (m r s) r a (h.run r s) e }

pub promote_vanity_key-IsStored :
    (gw : Gateway) (out : Secret) → Ends IsStored (promote_vanity_key gw out)
unfolding promote_vanity_key
promote_vanity_key-IsStored gw out =
    let sf = data_at file_secret_key_name out.contents in
    let pf = data_at file_public_key_name out.contents in
    of_result-Ends (parse_files sf pf) (λ kp parsed.
      let (same_secret, same_public, valid) = (parse_files_iff sf pf kp).0 parsed in
      after_stored (store_key gw kp) clean_up (store_key-IsStored gw kp valid) clean_up-Same)

wait_for_job-IsStored : (prefix : Bytes) (b : Bool) → Ends IsStored (wait_for_job prefix b)
unfolding wait_for_job
wait_for_job-IsStored prefix false = raise-Ends HarvestError.harvest_pending
wait_for_job-IsStored prefix true =
    bind-Ends (mark_vanity_failed prefix) (λ a. raise-Ends HarvestError.harvest_failed)

with_output-IsStored :
    (gw : Gateway) (prefix : Bytes) (job : JobObject) (out : Secret)
    → Ends IsStored (with_output gw prefix job out)
unfolding with_output
with_output-IsStored gw prefix job out = elim (Bool-cases (vanity_out_populated out)) [
  | inl e ↦ rw (e, if◌then◌else◌) (promote_vanity_key-IsStored gw out)
  | inr e ↦ rw (e, if◌then◌else◌) (wait_for_job-IsStored prefix (job_failed job))
]

stale_job-IsStored : Ends IsStored stale_job
unfolding stale_job
stale_job-IsStored =
    bind-Ends delete_vanity_job
      (λ a. bind-Ends clear_vanity_failed (λ b. raise-Ends HarvestError.harvest_pending))

with_job-IsStored :
    (gw : Gateway) (prefix : Bytes) (o : Option JobObject) → Ends IsStored (with_job gw prefix o)
unfolding with_job current_job
with_job-IsStored gw prefix none =
    bind-Ends (create_vanity_job gw prefix) (λ a. raise-Ends HarvestError.harvest_pending)
with_job-IsStored gw prefix (some job) =
    elim (Bool-cases (bytes_eq (data_at vanity_prefix_label job.manifest.labels) prefix)) [
      | inl e ↦
          rw (e, if◌then◌else◌)
            (bind-Ends (call Call.get_out) (λ a. bind-Ends (gets (λ (s : Store). s.out)) (λ found.
              bind-Ends (some_or (HarvestError.not_found Call.get_out) found)
                (with_output-IsStored gw prefix job))))
      | inr e ↦ rw (e, if◌then◌else◌) stale_job-IsStored
    ]

unless_failed-IsStored :
    (gw : Gateway) (prefix : Bytes) (b : Bool) → Ends IsStored (unless_failed gw prefix b)
unfolding unless_failed start_harvest
unless_failed-IsStored gw prefix true = raise-Ends HarvestError.harvest_failed
unless_failed-IsStored gw prefix false = bind-Ends (ensure_vanity_rbac gw) (λ a.
    bind-Ends (ensure_vanity_out_secret gw) (λ b.
      bind-Ends (call Call.get_job)
        (λ c. bind-Ends (gets (λ (s : Store). s.job)) (with_job-IsStored gw prefix))))

pub run_vanity_harvest-IsStored :
    (gw : Gateway) (prefix : Bytes) → Ends IsStored (run_vanity_harvest gw prefix)
unfolding run_vanity_harvest
run_vanity_harvest-IsStored gw prefix =
    bind-Ends (gets (λ (s : Store). bytes_eq (failed_prefix s) prefix))
      (unless_failed-IsStored gw prefix)

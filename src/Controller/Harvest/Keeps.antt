-- ===== src/Controller/Harvest/Keeps.antt =====
-- The key Secret under the harvest of internal/controller/vanity.go.
use tor_gateway.Base.{
  ◌≡◌, refl, ◌∙◌, inl, inr, Bool, true, false, Option, none, some, [], Bytes, bytes_eq,
  if◌then◌else◌, Bool-cases,
}
use tor_gateway.Base.Act.{Keeps, return, raise, gets, asks, modify, ignore, ◌>>=◌, ◌>>◌, bind-Keeps}
use tor_gateway.Api.{Secret, Gateway}
use tor_gateway.Controller.Harvest.Objects.{
  Call, HarvestError, Store, Env, Handler, call, some_or, owner_references,
}
use tor_gateway.Tor.Vanity.{VanityResult}
use tor_gateway.Controller.Children.{
  build_vanity_service_account, build_vanity_role, build_vanity_role_binding,
  build_vanity_out_secret,
}
use tor_gateway.Controller.Harvest.{
  ensure_vanity_rbac, create_vanity_out_secret, ensure_vanity_out_secret, harvest_job, job_or_error,
  create_vanity_job, delete_vanity_job, clear_annotation, clear_vanity_failed, failed_prefix,
  set_annotation, mark_vanity_failed, clean_up, wait_for_job, stale_job,
}

-- The key Secret is the same.
abbrev pub Same : Store → Store → Type 0
Same s t = t.keys ≡ s.keys

pub Same-trans : (s t u : Store) → Same s t → Same t u → Same s u
Same-trans s t u p q = q ∙ p

pub call-Same : (c : Call) → Keeps Same (call c)
call-Same c = record {
  run = λ r s. elim (Bool-cases (r.fails c)) [
    | inl e ↦ rw (e, if◌then◌else◌) refl
    | inr e ↦ rw (e, if◌then◌else◌) refl
  ];
}

pub asks-Same : {A : Type 0} (f : Env → A) → Keeps Same (asks {S = Store} {E = HarvestError} f)
asks-Same f = record { run = λ r s. refl }

pub gets-Same : {A : Type 0} (f : Store → A) → Keeps Same (gets {R = Env} {E = HarvestError} f)
gets-Same f = record { run = λ r s. refl }

pub return-Same : {A : Type 0} (a : A) → Keeps Same (return {R = Env} {E = HarvestError} a)
return-Same a = record { run = λ r s. refl }

pub raise-Same :
    {A : Type 0} (e : HarvestError) → Keeps Same (raise {R = Env} {S = Store} {A = A} e)
raise-Same e = record { run = λ r s. refl }

-- A change that keeps the key Secret.
modify-Same :
    (f : Store → Store)
    → ((s : Store) → Same s (f s))
    → Keeps Same (modify {R = Env} {E = HarvestError} f)
modify-Same f h = record { run = λ r s. h s }

pub some_or-Same : {A : Type 0} (e : HarvestError) (o : Option A) → Keeps Same (some_or e o)
some_or-Same e none = record { run = λ r s. refl }
some_or-Same e (some a) = record { run = λ r s. refl }

pub then-Same :
    {A B : Type 0} {m : Handler A} {f : A → Handler B}
    → Keeps Same m
    → ((a : A) → Keeps Same (f a))
    → Keeps Same (m >>= f)
then-Same p k = bind-Keeps Same Same-trans p k

pub owner_references-Same : Keeps Same owner_references
owner_references-Same =
    then-Same (asks-Same (λ (r : Env). r.owners)) (some_or-Same HarvestError.owner_reference)

-- A call and the change that it makes.
put-Same :
    (c : Call) (f : Store → Store) → ((s : Store) → Same s (f s)) → Keeps Same (call c >> modify f)
put-Same c f h = then-Same (call-Same c) (λ a. modify-Same f h)

pub ensure_vanity_rbac-Same : (gw : Gateway) → Keeps Same (ensure_vanity_rbac gw)
unfolding ensure_vanity_rbac
ensure_vanity_rbac-Same gw = then-Same owner_references-Same (λ a.
    then-Same (call-Same Call.put_service_account) (λ b.
      then-Same
        (modify-Same
          (λ (s : Store). record s { service_account = some (build_vanity_service_account gw a) })
          (λ s. refl))
        (λ c. then-Same owner_references-Same (λ a. then-Same (call-Same Call.put_role) (λ b.
          then-Same
            (modify-Same (λ (s : Store). record s { role = some (build_vanity_role gw a) })
              (λ s. refl))
            (λ c. then-Same owner_references-Same (λ a.
              put-Same Call.put_role_binding
                (λ (s : Store). record s { role_binding = some (build_vanity_role_binding gw a) })
                (λ s. refl))))))))

create_vanity_out_secret-Same :
    (gw : Gateway) (o : Option Secret) → Keeps Same (create_vanity_out_secret gw o)
unfolding create_vanity_out_secret
create_vanity_out_secret-Same gw (some out) = return-Same tt
create_vanity_out_secret-Same gw none = then-Same owner_references-Same (λ owners.
    put-Same Call.create_out
      (λ (s : Store). record s { out = some (build_vanity_out_secret gw owners) }) (λ s. refl))

job_or_error-Same : (v : VanityResult) → Keeps Same (job_or_error v)
job_or_error-Same (VanityResult.job j) = return-Same j
job_or_error-Same (VanityResult.error e) = raise-Same (HarvestError.invalid_job e)

clear_annotation-Same : (o : Option Bytes) → Keeps Same (clear_annotation o)
unfolding clear_annotation
clear_annotation-Same none = return-Same tt
clear_annotation-Same (some p) =
    put-Same Call.patch_gateway (λ (s : Store). record s { vanity_failed = none }) (λ s. refl)

set_annotation-Same : (prefix : Bytes) (b : Bool) → Keeps Same (set_annotation prefix b)
unfolding set_annotation
set_annotation-Same prefix true = return-Same tt
set_annotation-Same prefix false =
    put-Same Call.patch_gateway (λ (s : Store). record s { vanity_failed = some prefix })
      (λ s. refl)

ignore-Same : {A : Type 0} {m : Handler A} → Keeps Same m → Keeps Same (ignore m)
ignore-Same p = record { run = λ r s. p.run r s }

pub ensure_vanity_out_secret-Same : (gw : Gateway) → Keeps Same (ensure_vanity_out_secret gw)
unfolding ensure_vanity_out_secret
ensure_vanity_out_secret-Same gw = then-Same (call-Same Call.get_out) (λ a.
    then-Same (gets-Same (λ (s : Store). s.out)) (λ out. create_vanity_out_secret-Same gw out))

pub create_vanity_job-Same :
    (gw : Gateway) (prefix : Bytes) → Keeps Same (create_vanity_job gw prefix)
unfolding create_vanity_job
create_vanity_job-Same gw prefix =
    then-Same (asks-Same (λ (r : Env). harvest_job r gw prefix)) (λ built.
      then-Same (job_or_error-Same built) (λ manifest. then-Same owner_references-Same (λ owners.
        put-Same Call.create_job
          (λ (s : Store). record s { job = some (record { manifest = manifest; conditions = [] }) })
          (λ s. refl))))

delete_vanity_job-Same : Keeps Same delete_vanity_job
unfolding delete_vanity_job
delete_vanity_job-Same =
    put-Same Call.delete_job (λ (s : Store). record s { job = none }) (λ s. refl)

clear_vanity_failed-Same : Keeps Same clear_vanity_failed
unfolding clear_vanity_failed
clear_vanity_failed-Same =
    then-Same (gets-Same (λ (s : Store). s.vanity_failed)) clear_annotation-Same

mark_vanity_failed-Same : (prefix : Bytes) → Keeps Same (mark_vanity_failed prefix)
unfolding mark_vanity_failed
mark_vanity_failed-Same prefix =
    then-Same (gets-Same (λ (s : Store). bytes_eq (failed_prefix s) prefix))
      (set_annotation-Same prefix)

pub clean_up-Same : Keeps Same clean_up
unfolding clean_up
clean_up-Same =
    then-Same
      (ignore-Same (put-Same Call.delete_out (λ (s : Store). record s { out = none }) (λ s. refl)))
      (λ a.
        then-Same (ignore-Same delete_vanity_job-Same) (λ b. ignore-Same clear_vanity_failed-Same))

pub wait_for_job-Same : (prefix : Bytes) (b : Bool) → Keeps Same (wait_for_job prefix b)
unfolding wait_for_job
wait_for_job-Same prefix false = raise-Same HarvestError.harvest_pending
wait_for_job-Same prefix true =
    then-Same (mark_vanity_failed-Same prefix) (λ a. raise-Same HarvestError.harvest_failed)

pub stale_job-Same : Keeps Same stale_job
unfolding stale_job
stale_job-Same =
    then-Same delete_vanity_job-Same
      (λ a. then-Same clear_vanity_failed-Same (λ b. raise-Same HarvestError.harvest_pending))

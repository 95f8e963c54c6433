-- ===== src/Controller/Harvest/Objects.antt =====
-- internal/controller/vanity.go: the objects of a Gateway that bear on its key, and the calls that
-- change them. A call fails where the environment says so, and then changes nothing.
use tor_gateway.Base.{ℤ, String, Bool, Option, none, some, List, Bytes}
use tor_gateway.Base.Act.{Act, return, raise, asks, attempt, ◌>>=◌}
use tor_gateway.Api.{OwnerReference, Secret}
use tor_gateway.Tor.Keys.{KeyError, Result}
use tor_gateway.Tor.Vanity.{Job, VanityError}
use tor_gateway.Controller.Policies.{TorServicePolicy}
use tor_gateway.Controller.Children.{ObjectMeta, Role, RoleBinding}

-- The calls of the API client.
pub data Call : Type 0 where
  get_keys create_keys put_service_account put_role put_role_binding get_out create_out delete_out
        get_job create_job delete_job patch_gateway :
      Call

pub data HarvestError : Type 0 where
  harvest_pending harvest_failed awaiting_vanity_policy : HarvestError
  call_failed not_found already_exists : Call → HarvestError
  owner_reference list_policies : HarvestError
  invalid_job : VanityError → HarvestError
  invalid_key : KeyError → HarvestError

-- A Job, with the type and the status of each of its conditions.
pub record JobObject : Type 0 where
  pub manifest : Job
  pub conditions : List (String × String)

-- The objects of one Gateway that bear on its key; `vanity_failed` is the annotation.
pub record Store : Type 0 where
  pub vanity_failed : Option Bytes
  pub service_account : Option ObjectMeta
  pub role : Option Role
  pub role_binding : Option RoleBinding
  pub job : Option JobObject
  pub out : Option Secret
  pub keys : Option Secret

-- What is given from outside: the calls that fail, the owner references that SetControllerReference
-- makes, the digests, the operator's configuration, the policies that an uncached listing gives, what
-- ParseBool makes of the annotation await-vanity, and what ed25519.GenerateKey gives.
pub record Env : Type 0 where
  pub fails : Call → Bool
  pub owners : Option (List OwnerReference)
  pub sha3_256 : Bytes → Bytes
  pub mkp224o_image : String
  pub finalize_image : String
  pub vanity_deadline : ℤ
  pub list_fresh : Option (List TorServicePolicy)
  pub await_vanity : Bool
  pub sha512 : Bytes → Bytes
  pub generated : Option (Bytes × Bytes)

abbrev pub Handler : Type 0 → Type 0
Handler A = Act Env Store HarvestError A

abbrev pub call : Call → Handler Unit
call c = attempt (λ r. r.fails c) (HarvestError.call_failed c)

-- A value that may be missing, or the error.
abbrev pub some_or : {A : Type 0} → HarvestError → Option A → Handler A
some_or e none = raise e
some_or e (some a) = return a

abbrev pub owner_references : Handler (List OwnerReference)
owner_references = asks (λ (r : Env). r.owners) >>= some_or HarvestError.owner_reference

abbrev pub of_result : {A : Type 0} → Result A → Handler A
of_result (Result.done a) = return a
of_result (Result.error e) = raise (HarvestError.invalid_key e)

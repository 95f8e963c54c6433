-- ===== src/Controller/Children.antt =====
-- internal/controller/vanity_resources.go and BuildKeySecret of gateway_resources.go: the children of
-- a Gateway that the key is made with. The owner references that SetControllerReference gives are a
-- parameter, none where it fails; a Secret's type is always Opaque and left out.
use tor_gateway.Base.{String, List, [], ◌∷◌, Bytes}
use tor_gateway.Api.{OwnerReference, Secret, Gateway}
use tor_gateway.Tor.Keys.{KeyPair, Result, done, ◌>>=◌, hostname, secret_key_file, public_key_file}
use tor_gateway.Controller.Names.{
  child_labels, key_secret_name, vanity_rbac_name, vanity_out_secret_name,
}

pub record ObjectMeta : Type 0 where
  pub name : String
  pub namespace : String
  pub labels : List (String × String)
  pub owner_references : List OwnerReference

pub record PolicyRule : Type 0 where
  pub api_groups : List String
  pub resources : List String
  pub resource_names : List String
  pub verbs : List String

pub record Role : Type 0 where
  pub meta : ObjectMeta
  pub rules : List PolicyRule

pub record RoleRef : Type 0 where
  pub api_group : String
  pub kind : String
  pub name : String

pub record Subject : Type 0 where
  pub kind : String
  pub name : String
  pub namespace : String

pub record RoleBinding : Type 0 where
  pub meta : ObjectMeta
  pub role_ref : RoleRef
  pub subjects : List Subject

abbrev pub file_secret_key_name : String
file_secret_key_name = "hs_ed25519_secret_key"

abbrev pub file_public_key_name : String
file_public_key_name = "hs_ed25519_public_key"

abbrev pub file_hostname_name : String
file_hostname_name = "hostname"

vanity_meta : Gateway → List OwnerReference → ObjectMeta
vanity_meta gw owners = record {
  name = vanity_rbac_name gw.name;
  namespace = gw.namespace;
  labels = child_labels gw.name;
  owner_references = owners;
}

unfoldable pub build_vanity_service_account : Gateway → List OwnerReference → ObjectMeta
unfolding vanity_meta
build_vanity_service_account gw owners = vanity_meta gw owners

unfoldable pub build_vanity_role : Gateway → List OwnerReference → Role
unfolding vanity_meta
build_vanity_role gw owners = record {
  meta = vanity_meta gw owners;
  rules =
      record {
        api_groups = "" ∷ [];
        resources = "secrets" ∷ [];
        resource_names = vanity_out_secret_name gw.name ∷ [];
        verbs = "get" ∷ "update" ∷ "patch" ∷ [];
      }
      ∷ [];
}

unfoldable pub build_vanity_role_binding : Gateway → List OwnerReference → RoleBinding
unfolding vanity_meta
build_vanity_role_binding gw owners = record {
  meta = vanity_meta gw owners;
  role_ref = record {
    api_group = "rbac.authorization.k8s.io";
    kind = "Role";
    name = vanity_rbac_name gw.name;
  };
  subjects =
      record { kind = "ServiceAccount"; name = vanity_rbac_name gw.name; namespace = gw.namespace }
      ∷ [];
}

unfoldable pub build_vanity_out_secret : Gateway → List OwnerReference → Secret
build_vanity_out_secret gw owners = record {
  name = vanity_out_secret_name gw.name;
  namespace = gw.namespace;
  labels = child_labels gw.name;
  owner_references = owners;
  contents = [];
}

unfoldable pub key_secret_of : Gateway → List OwnerReference → List (String × Bytes) → Secret
key_secret_of gw owners contents = record {
  name = key_secret_name gw.name;
  namespace = gw.namespace;
  labels = child_labels gw.name;
  owner_references = owners;
  contents = contents;
}

-- The files of the key; a header that is too long would be a panic.
unfoldable pub build_key_secret :
    (Bytes → Bytes) → Gateway → List OwnerReference → KeyPair → Result Secret
unfolding key_secret_of hostname
build_key_secret sha3_256 gw owners kp = do
  secret_file ← secret_key_file kp
  public_file ← public_key_file kp
  done (
      key_secret_of gw owners (
        (file_secret_key_name, secret_file)
        ∷ (file_public_key_name, public_file)
        ∷ (file_hostname_name, hostname sha3_256 kp)
        ∷ []))

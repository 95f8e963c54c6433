-- ===== src/Tor/Vanity.antt =====
-- internal/tor/vanity.go: the Job that searches for a key whose address has a wanted prefix. The
-- prefix is bytes; the texts of the manifest are only passed on.
use tor_gateway.Base.{
  ℤ, ℕ, ◌/◌, ◌*◌, String, Bool, true, false, Option, none, some, List, [], ◌∷◌, ◌++◌, Bytes, codes,
  length, all, select, eqb, leb, not, if◌then◌else◌, ◌&&◌, ◌||◌, ◌==◌, any,
}

-- A request or a limit of CPU, in thousandths, and memory.
pub record ResourceList : Type 0 where
  pub cpu : ℕ
  pub memory : String

pub record ResourceRequirements : Type 0 where
  pub requests : Option ResourceList
  pub limits : Option ResourceList

pub record VanityJobConfig : Type 0 where
  pub job_name : String
  pub namespace : String
  pub prefix : Bytes
  pub output_secret_name : String
  pub service_account_name : String
  pub mkp224o_image : String
  pub finalize_image : String
  pub active_deadline : ℤ
  pub labels : List (String × Bytes)
  pub annotations : List (String × String)
  pub mkp224o_resources : ResourceRequirements

-- An argument of a container: a fixed text, or the prefix.
pub data Arg : Type 0 where
  text : String → Arg
  bytes : Bytes → Arg

pub record SecurityContext : Type 0 where
  pub allow_privilege_escalation : Bool
  pub read_only_root_filesystem : Bool
  pub run_as_non_root : Bool
  pub dropped : List String

pub record VolumeMount : Type 0 where
  pub name : String
  pub mount_path : String
  pub read_only : Bool

pub record Container : Type 0 where
  pub name : String
  pub image : String
  pub image_pull_policy : String
  pub args : List Arg
  pub resources : ResourceRequirements
  pub security : SecurityContext
  pub volume_mounts : List VolumeMount

pub record Job : Type 0 where
  pub name : String
  pub namespace : String
  pub labels : List (String × Bytes)
  pub annotations : List (String × String)
  pub backoff_limit : ℕ
  pub active_deadline_seconds : ℕ
  pub ttl_seconds_after_finished : ℕ
  pub restart_policy : String
  pub service_account_name : String
  pub run_as : ℕ
  pub seccomp_profile : String
  pub volumes : List String
  pub init_containers : List Container
  pub containers : List Container

pub data VanityError : Type 0 where
  missing_name invalid_prefix missing_output_secret missing_service_account missing_image :
      VanityError

pub data VanityResult : Type 0 where
  job : Job → VanityResult
  error : VanityError → VanityResult

-- `[a-z2-7]`
abbrev pub is_base32_char : ℕ → Bool
is_base32_char c = (leb b'a' c && leb c b'z') || (leb b'2' c && leb c b'7')

-- `^[a-z2-7]{1,8}$`
unfoldable pub vanity_prefix_pattern : Bytes → Bool
vanity_prefix_pattern s = leb 1 (length s) && leb (length s) 8 && all is_base32_char s

-- An hour, in nanoseconds.
abbrev pub hour : ℕ
hour = 3600 * 1000000000

-- The deadline, an hour where it is not positive.
deadline_or_hour : ℤ → ℕ
deadline_or_hour (ℤ.pos d) = if eqb d 0 then hour else d
deadline_or_hour (ℤ.negsuc d) = hour

-- Its whole seconds.
deadline_seconds : ℤ → ℕ
unfolding deadline_or_hour
deadline_seconds d = deadline_or_hour d / 1000000000

-- Resources that are nil, or whose CPU is zero, take the default.
resources_or : Option ResourceList → ResourceList → Option ResourceList
resources_or none default = some default
resources_or (some r) default = if eqb r.cpu 0 then some default else some r

mkp_resources : ResourceRequirements → ResourceRequirements
unfolding resources_or
mkp_resources r = record {
  requests = resources_or r.requests (record { cpu = 500; memory = "128Mi" });
  limits = resources_or r.limits (record { cpu = 2000; memory = "256Mi" });
}

abbrev has_key : String → List (String × Bytes) → Bool
has_key k extra = any (λ e. e.0 == k) extra

-- A map in which the entries of `extra` win.
abbrev pub merge_labels : List (String × Bytes) → List (String × Bytes) → List (String × Bytes)
merge_labels base extra = select (λ e. not (has_key e.0 extra)) base ++ extra

abbrev container_sec : SecurityContext
container_sec = record {
  allow_privilege_escalation = false;
  read_only_root_filesystem = true;
  run_as_non_root = true;
  dropped = "ALL" ∷ [];
}

abbrev workdir : String
workdir = "/workdir"

abbrev workdir_mount : Bool → List VolumeMount
workdir_mount read_only =
    record { name = "workdir"; mount_path = workdir; read_only = read_only } ∷ []

mkp224o_container : VanityJobConfig → Container
unfolding mkp_resources
mkp224o_container cfg = record {
  name = "mkp224o";
  image = cfg.mkp224o_image;
  image_pull_policy = "IfNotPresent";
  args =
      Arg.text "-d"
      ∷ Arg.text workdir
      ∷ Arg.text "-n"
      ∷ Arg.text "1"
      ∷ Arg.text "-q"
      ∷ Arg.bytes cfg.prefix
      ∷ [];
  resources = mkp_resources cfg.mkp224o_resources;
  security = container_sec;
  volume_mounts = workdir_mount false;
}

finalize_container : VanityJobConfig → Container
finalize_container cfg = record {
  name = "finalize";
  image = cfg.finalize_image;
  image_pull_policy = "IfNotPresent";
  args =
      Arg.text "--workdir"
      ∷ Arg.text workdir
      ∷ Arg.text "--namespace"
      ∷ Arg.text cfg.namespace
      ∷ Arg.text "--secret-name"
      ∷ Arg.text cfg.output_secret_name
      ∷ [];
  resources = record { requests = none; limits = none };
  security = container_sec;
  volume_mounts = workdir_mount true;
}

unfoldable pub job_of : VanityJobConfig → Job
unfolding deadline_seconds mkp224o_container finalize_container
job_of cfg = record {
  name = cfg.job_name;
  namespace = cfg.namespace;
  labels =
      merge_labels
        (("app.kubernetes.io/managed-by", codes "tor-gateway")
          ∷ ("app.kubernetes.io/component", codes "vanity")
          ∷ [])
        cfg.labels;
  annotations = cfg.annotations;
  backoff_limit = 0;
  active_deadline_seconds = deadline_seconds cfg.active_deadline;
  ttl_seconds_after_finished = 3600;
  restart_policy = "Never";
  service_account_name = cfg.service_account_name;
  run_as = 65532;
  seccomp_profile = "RuntimeDefault";
  volumes = "workdir" ∷ [];
  init_containers = mkp224o_container cfg ∷ [];
  containers = finalize_container cfg ∷ [];
}

unfoldable pub vanity_job : VanityJobConfig → VanityResult
unfolding vanity_prefix_pattern job_of
vanity_job cfg =
    if (cfg.job_name == "") || (cfg.namespace == "")
    then VanityResult.error VanityError.missing_name
    else if not (vanity_prefix_pattern cfg.prefix)
    then VanityResult.error VanityError.invalid_prefix
    else if cfg.output_secret_name == ""
    then VanityResult.error VanityError.missing_output_secret
    else if cfg.service_account_name == ""
    then VanityResult.error VanityError.missing_service_account
    else if (cfg.mkp224o_image == "") || (cfg.finalize_image == "")
    then VanityResult.error VanityError.missing_image
    else VanityResult.job (job_of cfg)

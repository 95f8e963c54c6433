-- ===== src/Onionbalance/Refresher.antt =====
-- internal/onionbalance/refresher.go: NewRefresher and rebuild. Writing the file and the signal to the
-- daemon are parameters, as whether they succeed; SHA3-256 is a parameter.
use tor_gateway.Base.{
  ℤ, ℕ, ◌*◌, String, Bool, true, false, Option, none, some, List, [], ◌∷◌, Bytes, length, eqb, ltb,
  not, if◌then◌else◌, ◌||◌, ◌==◌,
}
use tor_gateway.Api.{Secret}
use tor_gateway.Tor.Onion.{OnionAddress, to_string}
use tor_gateway.Onionbalance.Config.{render}
use tor_gateway.Onionbalance.Backends.{backends_from_secrets}

-- An interval in nanoseconds; of the client, the recorder and the health file it is kept whether they
-- are set.
pub record RefresherConfig : Type 0 where
  pub gateway_name : String
  pub gateway_namespace : String
  pub master_key_path : Bytes
  pub config_path : String
  pub pid_file : String
  pub interval : ℤ
  pub master : OnionAddress
  pub owner_uid : String
  pub has_client : Bool
  pub has_healthcheck_file : Bool
  pub has_recorder : Bool

pub data RefresherError : Type 0 where
  missing_gateway missing_path missing_client missing_owner_uid missing_master : RefresherError

pub data Created : Type 0 where
  created : RefresherConfig → Created
  error : RefresherError → Created

abbrev pub second : ℕ
second = 1000000000

-- At least five seconds; half a minute where it is not positive.
unfoldable pub clamped_interval : ℤ → ℤ
clamped_interval (ℤ.negsuc i) = ℤ.pos (30 * second)
clamped_interval (ℤ.pos i) =
    ℤ.pos (if eqb i 0 then 30 * second else if ltb i (5 * second) then 5 * second else i)

module _ (sha3_256 : Bytes → Bytes) where
  unfoldable pub new_refresher : RefresherConfig → Created
  unfolding clamped_interval
  new_refresher cfg =
      if (cfg.gateway_name == "") || (cfg.gateway_namespace == "")
      then Created.error RefresherError.missing_gateway
      else if (cfg.config_path == "") || (cfg.pid_file == "") || eqb (length cfg.master_key_path) 0
      then Created.error RefresherError.missing_path
      else if not cfg.has_client
      then Created.error RefresherError.missing_client
      else if cfg.owner_uid == ""
      then Created.error RefresherError.missing_owner_uid
      else if eqb (length (to_string sha3_256 cfg.master)) 0
      then Created.error RefresherError.missing_master
      else Created.created (record cfg { interval = clamped_interval cfg.interval })

  -- What a rebuild does to the world, in order.
  pub data Effect : Type 0 where
    write : Bytes → Effect
    sighup touch : Effect
    warning : String → Effect

  -- A warning is an event, where there is a recorder.
  emit_warning : RefresherConfig → String → List Effect
  emit_warning cfg reason = if cfg.has_recorder then Effect.warning reason ∷ [] else []

  after_signal : RefresherConfig → Bool → List Effect
  unfolding emit_warning
  after_signal cfg true = if cfg.has_healthcheck_file then Effect.touch ∷ [] else []
  after_signal cfg false = emit_warning cfg "OnionbalanceReloadFailed"

  after_write : RefresherConfig → Bool → Bool → List Effect
  unfolding emit_warning after_signal
  after_write cfg signals true = Effect.sighup ∷ after_signal cfg signals
  after_write cfg signals false = emit_warning cfg "OnionbalanceConfigRenderFailed"

  with_rendered : RefresherConfig → Bool → Bool → Option Bytes → List Effect
  unfolding emit_warning after_write
  with_rendered cfg writes signals none = emit_warning cfg "OnionbalanceConfigRenderFailed"
  with_rendered cfg writes signals (some text) = Effect.write text ∷ after_write cfg signals writes

  unfoldable pub rebuild : RefresherConfig → Bool → Bool → List Secret → List Effect
  unfolding with_rendered
  rebuild cfg writes signals objs = with_rendered cfg writes signals (
      render sha3_256 cfg.master (backends_from_secrets sha3_256 cfg.owner_uid objs)
        cfg.master_key_path)

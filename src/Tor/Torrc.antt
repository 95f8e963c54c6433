-- ===== src/Tor/Torrc.antt =====
-- internal/tor/torrc.go: the configuration of the Tor daemon. A map is a list of its entries in the
-- order of its iteration. net.ParseIP with IsLoopback, path.Join and sort.Strings are parameters. An
-- error names the key that it is about; the fields of the configuration that the others print are left
-- out.
pub mod Deterministic
use tor_gateway.Base.{
  ℤ, ℕ, suc, String, Bool, true, false, Option, none, some, List, [], ◌∷◌, ◌++◌, map, any, Bytes,
  codes, decimal, length, eqb, leb, not, bytes_eq, if◌then◌else◌, ◌&&◌, ◌||◌, ◌==◌,
}
use tor_gateway.Tor.ClientAuth.{value_at}

print_int : ℤ → Bytes
print_int (ℤ.pos n) = decimal n
print_int (ℤ.negsuc n) = codes "-" ++ decimal (suc n)

pub record PortMapping : Type 0 where
  pub virtual_port : ℤ
  pub target_host : Bytes
  pub target_port : ℤ

pub record TorrcConfig : Type 0 where
  pub hidden_service_dir : Bytes
  pub hidden_service_port : PortMapping
  pub log_level : String
  pub data_directory : Bytes
  pub pow_defenses_enabled : Bool
  pub client_auth_dir : Bytes
  pub metrics_port : ℤ
  pub metrics_port_policy : Bytes
  pub extra_directives : List (Bytes × Bytes)
  pub onionbalance_instance : Bool
  pub testing_network_include : Bytes

pub data TorrcError : Type 0 where
  relative_service_dir relative_data_directory bad_virtual_port bad_target_port not_loopback
        bad_log_level relative_auth_dir misplaced_auth_dir bad_metrics_port missing_metrics_policy :
      TorrcError
  bad_directive : Bytes → TorrcError

-- path.IsAbs
abbrev is_abs : Bytes → Bool
is_abs [] = false
is_abs (c ∷ s) = eqb c b'/'

port_in_range : ℤ → Bool
port_in_range (ℤ.pos n) = leb 1 n && leb n 65535
port_in_range (ℤ.negsuc n) = false

metrics_in_range : ℤ → Bool
metrics_in_range (ℤ.pos n) = leb n 65535
metrics_in_range (ℤ.negsuc n) = false

is_positive : ℤ → Bool
is_positive (ℤ.pos n) = leb 1 n
is_positive (ℤ.negsuc n) = false

unfoldable pub valid_log_level : String → Bool
valid_log_level l =
    (l == "debug") || (l == "info") || (l == "notice") || (l == "warn") || (l == "err")

abbrev is_blank : ℕ → Bool
is_blank c = eqb c 32 || eqb c 9 || eqb c 13 || eqb c 10

abbrev pub bad_key : Bytes → Bool
bad_key k = any is_blank k || eqb (length k) 0

abbrev pub keys_of : List (Bytes × Bytes) → List Bytes
keys_of es = map (λ e. e.0) es

-- The first error of the code's checks, in their order.
unfoldable pub first_error : List (Bool × TorrcError) → Option TorrcError
first_error [] = none
first_error (c ∷ cs) = if c.0 then some c.1 else first_error cs

-- The loop over the extra directives, which names the first bad key it comes to.
unfoldable pub directive_error : List Bytes → Option TorrcError
directive_error [] = none
directive_error (k ∷ ks) =
    let rest = directive_error ks in if bad_key k then some (TorrcError.bad_directive k) else rest

unfoldable pub or_else : Option TorrcError → Option TorrcError → Option TorrcError
or_else none later = later
or_else (some e) later = some e

module _ (is_loopback : Bytes → Bool) (join : Bytes → Bytes → Bytes) where
  auth_dir_checks : TorrcConfig → Bytes → List (Bool × TorrcError)
  auth_dir_checks c [] = []
  auth_dir_checks c (b ∷ dir) =
      (not (is_abs (b ∷ dir)), TorrcError.relative_auth_dir)
      ∷ (
        not (bytes_eq (b ∷ dir) (join c.hidden_service_dir (codes "authorized_clients"))),
        TorrcError.misplaced_auth_dir,
      )
      ∷ []

  -- The checks before the loop over the extra directives.
  unfoldable pub field_error : TorrcConfig → Option TorrcError
  unfolding first_error auth_dir_checks port_in_range metrics_in_range is_positive valid_log_level
  field_error c = first_error (
      (not (is_abs c.hidden_service_dir), TorrcError.relative_service_dir)
      ∷ (not (is_abs c.data_directory), TorrcError.relative_data_directory)
      ∷ (not (port_in_range c.hidden_service_port.virtual_port), TorrcError.bad_virtual_port)
      ∷ (not (port_in_range c.hidden_service_port.target_port), TorrcError.bad_target_port)
      ∷ (not (is_loopback c.hidden_service_port.target_host), TorrcError.not_loopback)
      ∷ (not (c.log_level == "") && not (valid_log_level c.log_level), TorrcError.bad_log_level)
      ∷ (auth_dir_checks c c.client_auth_dir
          ++ ((not (metrics_in_range c.metrics_port), TorrcError.bad_metrics_port)
              ∷ (
                is_positive c.metrics_port && eqb (length c.metrics_port_policy) 0,
                TorrcError.missing_metrics_policy,
              )
              ∷ [])))

  unfoldable pub validate : TorrcConfig → Option TorrcError
  unfolding field_error or_else directive_error
  validate c = or_else (field_error c) (directive_error (keys_of c.extra_directives))

-- `directive value`, and a line break.
abbrev line : Bytes → Bytes → Bytes
line directive value = directive ++ (value ++ codes "\n")

ends_line : Bytes → Bool
ends_line [] = false
ends_line (c ∷ []) = eqb c b'\n'
ends_line (c ∷ d ∷ s) = ends_line (d ∷ s)

testing_lines : Bytes → Bytes
unfolding ends_line
testing_lines [] = []
testing_lines (c ∷ s) = (c ∷ s) ++ (if ends_line (c ∷ s) then [] else codes "\n")

port_line : PortMapping → Bytes
unfolding print_int
port_line p =
    codes "HiddenServicePort "
    ++ (print_int p.virtual_port
        ++ (codes " " ++ (p.target_host ++ (codes ":" ++ (print_int p.target_port ++ codes "\n")))))

pow_lines : TorrcConfig → Bytes
pow_lines c =
    if c.pow_defenses_enabled && not c.onionbalance_instance
    then codes "HiddenServiceEnableIntroDoSDefense 1\nHiddenServicePoWDefensesEnabled 1\n"
    else []

metrics_lines : TorrcConfig → Bytes
unfolding print_int is_positive
metrics_lines c =
    if is_positive c.metrics_port
    then line (codes "MetricsPort 0.0.0.0:") (print_int c.metrics_port)
      ++ line (codes "MetricsPortPolicy ") c.metrics_port_policy
    else []

auth_line : Bytes → Bytes
auth_line [] = []
auth_line (c ∷ dir) = codes "# client authorization enabled (authorized_clients/*.auth)\n"

directive_line : Bytes → Bytes → Bytes
directive_line k [] = k ++ codes "\n"
directive_line k (c ∷ v) = k ++ (codes " " ++ ((c ∷ v) ++ codes "\n"))

-- The loop over the sorted keys.
directive_lines : List (Bytes × Bytes) → List Bytes → Bytes
unfolding directive_line value_at
directive_lines es [] = []
directive_lines es (k ∷ ks) = directive_line k (value_at k es) ++ directive_lines es ks

extra_lines : List (Bytes × Bytes) → List Bytes → Bytes
unfolding directive_lines
extra_lines es [] = []
extra_lines es (k ∷ ks) = codes "\n# extra directives\n" ++ directive_lines es (k ∷ ks)

-- The text of a valid configuration.
unfoldable pub torrc_text : (List Bytes → List Bytes) → TorrcConfig → Bytes
unfolding testing_lines port_line pow_lines metrics_lines auth_line extra_lines
torrc_text sort_strings c =
    codes "# Rendered by tor-gateway; do not edit by hand.\n\n"
    ++ (line (codes "DataDirectory ") c.data_directory
        ++ (codes "Log "
            ++ (codes (if c.log_level == "" then "notice" else c.log_level)
                ++ (codes " stdout\nSocksPort 0\nClientUseIPv4 1\nClientUseIPv6 1\n\n"
                    ++ (testing_lines c.testing_network_include
                        ++ (line (codes "HiddenServiceDir ") c.hidden_service_dir
                            ++ (codes "HiddenServiceVersion 3\n"
                                ++ (port_line c.hidden_service_port
                                    ++ ((if c.onionbalance_instance
                                          then codes "HiddenServiceOnionbalanceInstance 1\n"
                                          else [])
                                        ++ (pow_lines c
                                            ++ (metrics_lines c
                                                ++ (auth_line c.client_auth_dir
                                                    ++ extra_lines c.extra_directives (
                                                        sort_strings
                                                          (keys_of c.extra_directives))))))))))))))

pub data Rendered : Type 0 where
  rendered : Bytes → Rendered
  invalid : TorrcError → Rendered

unfoldable pub unless_invalid : Option TorrcError → Bytes → Rendered
unless_invalid none text = Rendered.rendered text
unless_invalid (some e) text = Rendered.invalid e

unfoldable pub render_torrc :
    (Bytes → Bool) → (Bytes → Bytes → Bytes) → (List Bytes → List Bytes) → TorrcConfig → Rendered
unfolding unless_invalid validate torrc_text
render_torrc is_loopback join sort_strings c =
    unless_invalid (validate is_loopback join c) (torrc_text sort_strings c)

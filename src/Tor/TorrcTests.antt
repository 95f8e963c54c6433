-- ===== src/Tor/TorrcTests.antt =====
-- Runs of internal/tor/torrc.go on concrete configurations, and its theorem at such an input.
use mathlib.Core.List.Perm
use tor_gateway.Base.{
  ℤ, ◌≡◌, refl, inl, inr, Bool, true, false, List, [], ◌∷◌, ◌++◌, Bytes, codes, decimal, bytes_eq,
  bytes_eq_sound, if◌then◌else◌, Bool-cases,
}
use tor_gateway.Tor.ClientAuth.{value_at}
use tor_gateway.Tor.Torrc.{TorrcConfig, TorrcError, Rendered, keys_of, render_torrc}
use tor_gateway.Tor.Torrc.Deterministic.{IsSameMap, IsAlike, render_torrc-IsAlike}
use tor_gateway.Onionbalance.Backends.{bytes_gt, sort_from, reverse_onto}

abbrev sort_strings : List Bytes → List Bytes
sort_strings ks = reverse_onto [] (sort_from bytes_gt [] ks)

abbrev is_loopback : Bytes → Bool
is_loopback host = bytes_eq host (codes "127.0.0.1")

abbrev join : Bytes → Bytes → Bytes
join dir name = dir ++ (codes "/" ++ name)

abbrev torrc_config : TorrcConfig
torrc_config = record {
  hidden_service_dir = codes "/hs";
  hidden_service_port = record {
    virtual_port = ℤ.pos 80;
    target_host = codes "127.0.0.1";
    target_port = ℤ.pos 9080;
  };
  log_level = "";
  data_directory = codes "/data";
  pow_defenses_enabled = true;
  client_auth_dir = codes "/hs/authorized_clients";
  metrics_port = ℤ.pos 0;
  metrics_port_policy = [];
  extra_directives = [];
  onionbalance_instance = true;
  testing_network_include = [];
}

rendered_for_backend :
    render_torrc is_loopback join sort_strings torrc_config
    ≡ Rendered.rendered (
        codes
          "# Rendered by tor-gateway; do not edit by hand.\n\nDataDirectory /data\nLog notice stdout\nSocksPort 0\nClientUseIPv4 1\nClientUseIPv6 1\n\nHiddenServiceDir /hs\nHiddenServiceVersion 3\nHiddenServicePort 80 127.0.0.1:9080\nHiddenServiceOnionbalanceInstance 1\n# client authorization enabled (authorized_clients/*.auth)\n")
unfolding render_torrc bytes_eq decimal reverse_onto sort_from
rendered_for_backend = refl

public_host :
    render_torrc is_loopback join sort_strings (record torrc_config {
      hidden_service_port = record {
        virtual_port = ℤ.pos 80;
        target_host = codes "10.0.0.1";
        target_port = ℤ.pos 9080;
      };
    })
    ≡ Rendered.invalid TorrcError.not_loopback
unfolding render_torrc bytes_eq
public_host = refl

abbrev one_way : List (Bytes × Bytes)
one_way = (codes "B", codes "1") ∷ (codes "A", []) ∷ []

abbrev other_way : List (Bytes × Bytes)
other_way = (codes "A", []) ∷ (codes "B", codes "1") ∷ []

different : (k : Bytes) → bytes_eq (codes "A") k ≡ true → bytes_eq (codes "B") k ≡ false
unfolding bytes_eq
different k e = rw (← bytes_eq_sound (codes "A") k e) refl

same_value : (k : Bytes) → value_at k one_way ≡ value_at k other_way
unfolding value_at
same_value k = elim (Bool-cases (bytes_eq (codes "A") k)) [
  | inl e ↦ rw (e, different k e, if◌then◌else◌) refl
  | inr e ↦ rw (e, if◌then◌else◌) refl
]

one_way-IsSameMap : IsSameMap one_way other_way
one_way-IsSameMap = record { keys = Perm.swap (codes "A") (codes "B") []; values = same_value }

same_order : sort_strings (keys_of one_way) ≡ sort_strings (keys_of other_way)
unfolding reverse_onto sort_from bytes_gt
same_order = refl

render_torrc-IsAlike_example :
    IsAlike
      (keys_of one_way)
      (keys_of other_way)
      (render_torrc is_loopback join sort_strings
        (record torrc_config { extra_directives = one_way }))
      (render_torrc is_loopback join sort_strings
        (record torrc_config { extra_directives = other_way }))
render_torrc-IsAlike_example =
    render_torrc-IsAlike is_loopback join sort_strings torrc_config one_way other_way
      one_way-IsSameMap same_order

bad_key_named :
    render_torrc is_loopback join sort_strings (record torrc_config {
      extra_directives = (codes "A", []) ∷ (codes "B C", []) ∷ ([], codes "1") ∷ [];
    })
    ≡ Rendered.invalid (TorrcError.bad_directive (codes "B C"))
unfolding render_torrc bytes_eq
bad_key_named = refl

-- ===== src/Controller/Resources/Torrc.antt =====
-- BuildTorrcConfigMap of internal/controller/gateway_resources.go under the checks of the torrc.
use tor_gateway.Base.{
  ◌≡◌, refl, inl, inr, Bool, true, false, none, some, List, [], ◌∷◌, ◌++◌, Bytes, codes,
  bytes_eq_refl, if◌then◌else◌, ◌&&◌, not, ◌==◌, Bool-cases,
}
use tor_gateway.Api.{OwnerReference, Gateway}
use tor_gateway.Tor.Torrc.{
  valid_log_level, first_error, field_error, or_else, directive_error, validate, torrc_text,
}
use tor_gateway.Controller.Names.{hs_service_dir}
use tor_gateway.Controller.Policies.{EffectiveServicePolicy, EffectiveClientAuth}
use tor_gateway.Controller.Resources.{ConfigMap, Built, torrc_config_of, build_torrc_config_map}

and_false : (a : Bool) → (a && false) ≡ false
and_false true = refl
and_false false = refl

module _ (is_loopback : Bytes → Bool) (join : Bytes → Bytes → Bytes)
    (local : is_loopback (codes "127.0.0.1") ≡ true)
    (joins : join (codes hs_service_dir) (codes "authorized_clients")
      ≡ codes hs_service_dir ++ codes "/authorized_clients") where
  validate-torrc_config_of :
      (policy : EffectiveServicePolicy) (auth : EffectiveClientAuth) (include : Bytes)
      → valid_log_level policy.log_level ≡ true
      → validate is_loopback join (torrc_config_of policy auth include) ≡ none
  unfolding validate field_error or_else directive_error torrc_config_of first_error
  validate-torrc_config_of policy auth include level = elim (Bool-cases auth.enabled) [
    | inl e ↦
        rw
          (
            local,
            level,
            and_false (not (policy.log_level == "")),
            e,
            if◌then◌else◌,
            joins,
            bytes_eq_refl (codes hs_service_dir ++ codes "/authorized_clients"),
          )
          refl
    | inr e ↦ rw (local, level, and_false (not (policy.log_level == "")), e, if◌then◌else◌) refl
  ]

  -- If SetControllerReference succeeds and the log level of the policy is one of Tor's, as the
  -- default's is, the ConfigMap of the torrc is built, has the owners that were set, and holds the
  -- rendered text of the configuration, if 127.0.0.1 is a loopback address and path.Join adds the name
  -- of a directory after a slash.
  pub build_torrc_config_map_lem :
      (sort_strings : List Bytes → List Bytes) (gw : Gateway) (policy : EffectiveServicePolicy)
      (auth : EffectiveClientAuth) (include : Bytes) (owners : List OwnerReference)
      → valid_log_level policy.log_level ≡ true
      → (cm : ConfigMap) × (build_torrc_config_map is_loopback join sort_strings gw policy auth
            include
            (some owners)
          ≡ Built.built cm)
        × (cm.meta.owner_references ≡ owners)
        × (cm.contents
            ≡ ("torrc", torrc_text sort_strings (torrc_config_of policy auth include)) ∷ [])
  unfolding build_torrc_config_map
  build_torrc_config_map_lem sort_strings gw policy auth include owners level =
      rw (validate-torrc_config_of policy auth include level) (_, refl, refl, refl)

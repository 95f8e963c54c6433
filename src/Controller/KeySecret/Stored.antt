-- ===== src/Controller/KeySecret/Stored.antt =====
-- The key that ensureKeySecret of internal/controller/gateway_controller.go ends with.
use tor_gateway.Base.{
  ◌≡◌, refl, inl, inr, Bool, true, false, Option, none, some, [], ◌∷◌, Bytes, if◌then◌else◌,
  Bool-cases,
}
use tor_gateway.Base.Act.{Outcome, return, ◌>>=◌}
use tor_gateway.Api.{data_at, Secret, Gateway}
use tor_gateway.Tor.Keys.{KeyPair, Result, parse_files, generate_key_pair}
use tor_gateway.Tor.Keys.Generate.{IsSha512, IsGenerated, generate_key_pair-IsKeyPair}
use tor_gateway.Controller.Children.{file_secret_key_name, file_public_key_name}
use tor_gateway.Controller.Policies.{EffectiveServicePolicy, effective_policy_from}
use tor_gateway.Controller.Harvest.Objects.{
  Call, HarvestError, Store, Env, Handler, some_or, of_result,
}
use tor_gateway.Controller.Harvest.{store_key}
use tor_gateway.Controller.Harvest.Stored.{
  IsStored, store_key-IsStored, run_vanity_harvest-IsStored,
}
use tor_gateway.Controller.KeySecret.{
  generate_unless, with_fresh_prefix, make_key, with_existing, ensure_key_secret,
}

-- The library calls that make a random key give what is documented.
pub record IsSound (r : Env) : Type 0 where
  pub digest : IsSha512 r.sha512
  pub generator : IsGenerated r.generated

generate-IsStored :
    (gw : Gateway) (r : Env) (s : Store) (x : Secret × KeyPair)
    → IsSound r
    → (o : Result KeyPair) → generate_key_pair r.sha512 r.generated ≡ o
    → ((of_result o >>= store_key gw) r s).0 ≡ Outcome.done x
    → IsStored x ((of_result o >>= store_key gw) r s).1
generate-IsStored gw r s x sound (Result.done kp) made e =
    (store_key-IsStored gw kp
        (generate_key_pair-IsKeyPair r.sha512 r.generated kp sound.digest sound.generator made)).run
      r s x e
generate-IsStored gw r s x sound (Result.error z) made e = absurd (cc e)

generate_unless-IsStored :
    (gw : Gateway) (await : Bool) (r : Env) (s : Store) (x : Secret × KeyPair)
    → IsSound r
    → (generate_unless gw await r s).0 ≡ Outcome.done x
    → IsStored x (generate_unless gw await r s).1
unfolding generate_unless
generate_unless-IsStored gw true r s x sound e = absurd (cc e)
generate_unless-IsStored gw false r s x sound e =
    generate-IsStored gw r s x sound (generate_key_pair r.sha512 r.generated) refl e

with_fresh_prefix-IsStored :
    (gw : Gateway) (prefix : Bytes) (r : Env) (s : Store) (x : Secret × KeyPair)
    → IsSound r
    → (with_fresh_prefix gw prefix r s).0 ≡ Outcome.done x
    → IsStored x (with_fresh_prefix gw prefix r s).1
unfolding with_fresh_prefix
with_fresh_prefix-IsStored gw [] r s x sound e =
    generate_unless-IsStored gw r.await_vanity r s x sound e
with_fresh_prefix-IsStored gw (c ∷ prefix) r s x sound e =
    (run_vanity_harvest-IsStored gw (c ∷ prefix)).run r s x e

fresh-IsStored :
    (gw : Gateway) (o : Option EffectiveServicePolicy) (r : Env) (s : Store) (x : Secret × KeyPair)
    → IsSound r
    → ((some_or HarvestError.list_policies o >>= λ fresh. with_fresh_prefix gw fresh.vanity_prefix)
        r s).0
      ≡ Outcome.done x
    → IsStored x
        ((some_or HarvestError.list_policies o >>= λ fresh.
            with_fresh_prefix gw fresh.vanity_prefix)
          r s).1
fresh-IsStored gw none r s x sound e = absurd (cc e)
fresh-IsStored gw (some p) r s x sound e =
    with_fresh_prefix-IsStored gw p.vanity_prefix r s x sound e

make_key-IsStored :
    (gw : Gateway) (prefix : Bytes) (r : Env) (s : Store) (x : Secret × KeyPair)
    → IsSound r
    → (make_key gw prefix r s).0 ≡ Outcome.done x
    → IsStored x (make_key gw prefix r s).1
unfolding make_key
make_key-IsStored gw (c ∷ prefix) r s x sound e =
    (run_vanity_harvest-IsStored gw (c ∷ prefix)).run r s x e
make_key-IsStored gw [] r s x sound e =
    fresh-IsStored gw (effective_policy_from gw.name r.list_fresh) r s x sound e

abbrev paired : Secret → Result KeyPair → Handler (Secret × KeyPair)
paired existing o = of_result o >>= λ kp. return (existing, kp)

existing-IsStored :
    (existing : Secret) (s : Store) (r : Env) (x : Secret × KeyPair) (o : Result KeyPair)
    → s.keys ≡ some existing
    → parse_files
        (data_at file_secret_key_name existing.contents)
        (data_at file_public_key_name existing.contents)
      ≡ o
    → (paired existing o r s).0 ≡ Outcome.done x
    → IsStored x (paired existing o r s).1
existing-IsStored existing s r x (Result.done kp) h parsed e =
    let same : (existing, kp) ≡ x = cc e in rw (← same) (record { stored = h; parses = parsed })
existing-IsStored existing s r x (Result.error z) h parsed e = absurd (cc e)

with_existing-IsStored :
    (gw : Gateway) (policy : EffectiveServicePolicy) (o : Option Secret) (r : Env) (s : Store)
    (x : Secret × KeyPair)
    → IsSound r
    → s.keys ≡ o
    → (with_existing gw policy o r s).0 ≡ Outcome.done x
    → IsStored x (with_existing gw policy o r s).1
unfolding with_existing
with_existing-IsStored gw policy none r s x sound h e =
    make_key-IsStored gw policy.vanity_prefix r s x sound e
with_existing-IsStored gw policy (some existing) r s x sound h e =
    existing-IsStored existing s r x
      (parse_files (data_at file_secret_key_name existing.contents)
        (data_at file_public_key_name existing.contents))
      h refl e

-- Whatever way a key is found or made, the Secret that the handler ends with is the one that is
-- stored, and its files parse to the key that it ends with, if the digest and the key generator give
-- what is documented.
pub ensure_key_secret-IsStored :
    (gw : Gateway) (policy : EffectiveServicePolicy) (r : Env) (s : Store) (x : Secret × KeyPair)
    → IsSound r
    → (ensure_key_secret gw policy r s).0 ≡ Outcome.done x
    → IsStored x (ensure_key_secret gw policy r s).1
unfolding ensure_key_secret
ensure_key_secret-IsStored gw policy r s x sound e = elim (Bool-cases (r.fails Call.get_keys)) [
  | inl d ↦ absurd (cc (rw (d, if◌then◌else◌) at e))
  | inr d ↦
      rw (d, if◌then◌else◌)
        (with_existing-IsStored gw policy s.keys r s x sound refl (rw (d, if◌then◌else◌) at e))
]

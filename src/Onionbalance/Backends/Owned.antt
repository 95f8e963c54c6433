-- ===== src/Onionbalance/Backends/Owned.antt =====
-- Which Secrets give the backends that internal/onionbalance/refresher.go writes.
use mathlib.Core.Logic.{∥∥₁_map}
use mathlib.Core.List.{Mem}
use mathlib.Core.List.Perm
use tor_gateway.Base.{
  ◌≡◌, refl, ◌↔◌, inl, inr, String, Bool, true, false, Option, none, some, List, [], ◌∷◌, Bytes,
  Memᴰ, any, any-mem, mem-any, and_parts, length, eqb, if◌then◌else◌, ◌==◌, eq_iff, Bool-cases,
}
use tor_gateway.Api.{label_at, data_at, OwnerReference, Secret}
use tor_gateway.Tor.Onion.{OnionAddress, Parsed, parse_address}
use tor_gateway.Onionbalance.Backends.{
  is_true, is_controller, owned_by, string_no_space, parsed_backend, backend_of, add_backend,
  collect_backends, addr_gt, backends_from_secrets,
}
use tor_gateway.Onionbalance.Backends.Order.{IsAscending, sort_addrs-IsAscending, sort_addrs-perm}

-- The Secret has the label of the Gateway, which is its controlling owner.
pub record IsOwned (uid : String) (s : Secret) : Type 0 where
  pub label : label_at "torgateway.io/owner-uid" s.labels ≡ uid
  pub owner : OwnerReference
  pub listed : Memᴰ owner s.owner_references
  pub same_uid : owner.uid ≡ uid
  pub controls : owner.controller ≡ some true

is_true_inv : (o : Option Bool) → is_true o ≡ true → o ≡ some true
is_true_inv none h = absurd (cc h)
is_true_inv (some true) h = refl
is_true_inv (some false) h = absurd (cc h)

pub owned_by_iff : (uid : String) (s : Secret) → (owned_by uid s ≡ true) ↔ IsOwned uid s
unfolding owned_by
owned_by_iff uid s = (
  λ e.
      let (l, a) =
        and_parts (label_at "torgateway.io/owner-uid" s.labels == uid)
          (any (is_controller uid) s.owner_references) e in
      let (o, i, c) = any-mem (is_controller uid) s.owner_references a in
      let (u, t) = and_parts (o.uid == uid) (is_true o.controller) c in
      record {
        label = (eq_iff (label_at "torgateway.io/owner-uid" s.labels) uid).0 l;
        owner = o;
        listed = i;
        same_uid = (eq_iff o.uid uid).0 u;
        controls = is_true_inv o.controller t;
      },
  λ w.
      let own : is_controller uid w.owner ≡ true =
        rw ((eq_iff w.owner.uid uid).1 w.same_uid, w.controls) refl in
      rw
        (
          (eq_iff (label_at "torgateway.io/owner-uid" s.labels) uid).1 w.label,
          mem-any (is_controller uid) s.owner_references w.listed own,
        )
        refl,
)

module _ (sha3_256 : Bytes → Bytes) (uid : String) where
  -- An owned Secret whose hostname, without white space, is the printed address.
  pub record IsBackend (s : Secret) (a : OnionAddress) : Type 0 where
    pub owned : IsOwned uid s
    pub some_text : eqb (length (data_at "hostname" s.contents)) 0 ≡ false
    pub parsed :
        parse_address sha3_256 (string_no_space (data_at "hostname" s.contents)) ≡ Parsed.ok a

  parsed_backend_inv :
      (p : Parsed) (a : OnionAddress) → parsed_backend sha3_256 p ≡ some a → p ≡ Parsed.ok a
  unfolding parsed_backend
  parsed_backend_inv (Parsed.ok b) a e = cc e
  parsed_backend_inv (Parsed.fail x) a e = absurd (cc e)

  backend_of-IsBackend :
      (s : Secret) (a : OnionAddress) → backend_of sha3_256 uid s ≡ some a → IsBackend s a
  unfolding backend_of
  backend_of-IsBackend s a e = elim (Bool-cases (owned_by uid s)) [
    | inl o ↦ elim (Bool-cases (eqb (length (data_at "hostname" s.contents)) 0)) [
      | inl h ↦ absurd (cc (rw (o, h, if◌then◌else◌) at e))
      | inr h ↦ record {
        owned = (owned_by_iff uid s).0 o;
        some_text = h;
        parsed = parsed_backend_inv _ a (rw (o, h, if◌then◌else◌) at e);
      }
    ]
    | inr o ↦ absurd (cc (rw (o, if◌then◌else◌) at e))
  ]

  IsBackend-backend_of :
      (s : Secret) (a : OnionAddress) → IsBackend s a → backend_of sha3_256 uid s ≡ some a
  unfolding backend_of parsed_backend
  IsBackend-backend_of s a b =
      rw ((owned_by_iff uid s).1 b.owned, b.some_text, b.parsed, if◌then◌else◌) refl

  -- A listed Secret that gives the address.
  pub record IsCollected (ss : List Secret) (a : OnionAddress) : Type 0 where
    pub secret : Secret
    pub listed : Memᴰ secret ss
    pub backend : IsBackend secret a

  later :
      {s : Secret} {ss : List Secret} {a : OnionAddress} → IsCollected ss a → IsCollected (s ∷ ss) a
  later c = record { secret = c.secret; listed = Memᴰ.tail c.listed; backend = c.backend }

  add_backend-IsCollected :
      (o : Option OnionAddress) (s : Secret) (ss : List Secret) (rest : List OnionAddress)
      (a : OnionAddress)
      → backend_of sha3_256 uid s ≡ o
      → (Memᴰ a rest → IsCollected ss a)
      → Memᴰ a (add_backend sha3_256 o rest)
      → IsCollected (s ∷ ss) a
  unfolding add_backend
  add_backend-IsCollected none s ss rest a e ih m = later (ih m)
  add_backend-IsCollected (some b) s ss rest a e ih (Memᴰ.head h) = record {
    secret = s;
    listed = Memᴰ.head refl;
    backend = backend_of-IsBackend s a (rw h e);
  }
  add_backend-IsCollected (some b) s ss rest a e ih (Memᴰ.tail m) = later (ih m)

  collect_backends-IsCollected :
      (ss : List Secret) (a : OnionAddress)
      → Memᴰ a (collect_backends sha3_256 uid ss)
      → IsCollected ss a
  unfolding collect_backends
  collect_backends-IsCollected [] a m = elim m [ ]
  collect_backends-IsCollected (s ∷ ss) a m =
      add_backend-IsCollected (backend_of sha3_256 uid s) s ss (collect_backends sha3_256 uid ss) a
        refl (collect_backends-IsCollected ss a) m

  mem-add_backend :
      (o : Option OnionAddress) {rest : List OnionAddress} {a : OnionAddress}
      → Memᴰ a rest
      → Memᴰ a (add_backend sha3_256 o rest)
  unfolding add_backend
  mem-add_backend none m = m
  mem-add_backend (some b) m = Memᴰ.tail m

  collected_mem :
      (ss : List Secret) {s : Secret} (a : OnionAddress)
      → Memᴰ s ss
      → IsBackend s a
      → Memᴰ a (collect_backends sha3_256 uid ss)
  unfolding collect_backends add_backend
  collected_mem [] a m b = elim m [ ]
  collected_mem (x ∷ ss) a (Memᴰ.head e) b =
      let own : backend_of sha3_256 uid x ≡ some a = rw (← e) (IsBackend-backend_of _ a b) in
      rw own (Memᴰ.head refl)
  collected_mem (x ∷ ss) a (Memᴰ.tail m) b =
      mem-add_backend (backend_of sha3_256 uid x) (collected_mem ss a m b)

-- The backends that are written are exactly the addresses of the listed Secrets that have the label of
-- the Gateway, have it for their controlling owner, and have a hostname that parses.
pub backends_from_secrets_iff :
    (sha3_256 : Bytes → Bytes) (uid : String) (ss : List Secret) (a : OnionAddress)
    → Mem a (backends_from_secrets sha3_256 uid ss) ↔ ∥ IsCollected sha3_256 uid ss a ∥₁
unfolding backends_from_secrets
backends_from_secrets_iff sha3_256 uid ss a =
    let sorted = Perm.mem_iff (sort_addrs-perm sha3_256 (collect_backends sha3_256 uid ss)) in
    (
      λ m. ∥∥₁_map (sorted.0 m) (collect_backends-IsCollected sha3_256 uid ss a),
      λ c. sorted.1 (
          ∥∥₁_map c (λ (d : IsCollected sha3_256 uid ss a).
            collected_mem sha3_256 uid ss a d.listed d.backend)),
    )

-- The backends are written in ascending order of their addresses.
pub backends_from_secrets-IsAscending :
    (sha3_256 : Bytes → Bytes) (uid : String) (ss : List Secret)
    → IsAscending (addr_gt sha3_256) (backends_from_secrets sha3_256 uid ss)
unfolding backends_from_secrets
backends_from_secrets-IsAscending sha3_256 uid ss =
    sort_addrs-IsAscending sha3_256 (collect_backends sha3_256 uid ss)

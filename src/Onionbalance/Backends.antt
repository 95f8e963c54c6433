-- ===== src/Onionbalance/Backends.antt =====
-- internal/onionbalance/refresher.go: the backends of a Gateway, from its Secrets. SHA3-256 is a
-- parameter.
pub mod Order
pub mod Owned
use tor_gateway.Base.{
  ℕ, String, Bool, true, false, Option, none, some, List, [], ◌∷◌, Bytes, any, select, length, eqb,
  ltb, not, if◌then◌else◌, ◌&&◌, ◌||◌, ◌==◌,
}
use tor_gateway.Api.{label_at, data_at, OwnerReference, Secret}
use tor_gateway.Tor.Onion.{OnionAddress, Parsed, to_string, parse_address}

abbrev pub is_true : Option Bool → Bool
is_true none = false
is_true (some b) = b

abbrev pub is_controller : String → OwnerReference → Bool
is_controller uid o = (o.uid == uid) && is_true o.controller

-- The label, and an owner reference of the controller.
unfoldable pub owned_by : String → Secret → Bool
unfolding label_at
owned_by uid s =
    (label_at "torgateway.io/owner-uid" s.labels == uid)
    && any (is_controller uid) s.owner_references

abbrev is_kept : ℕ → Bool
is_kept c = not (eqb c 32 || eqb c 10 || eqb c 13 || eqb c 9)

unfoldable pub string_no_space : Bytes → Bytes
string_no_space s = select is_kept s

-- Go's `>` on strings.
unfoldable pub bytes_gt : Bytes → Bytes → Bool
bytes_gt [] t = false
bytes_gt (a ∷ s) [] = true
bytes_gt (a ∷ s) (b ∷ t) = let rest = bytes_gt s t in if eqb a b then rest else ltb b a

module _ {A : Type 0} (gt : A → A → Bool) where
  -- An element moves down the sorted part, whose last element is the head of the list.
  unfoldable pub move_down : A → List A → List A
  move_down x [] = x ∷ []
  move_down x (y ∷ ys) = let rest = move_down x ys in if gt y x then y ∷ rest else x ∷ y ∷ ys

  unfoldable pub sort_from : List A → List A → List A
  unfolding move_down
  sort_from sorted [] = sorted
  sort_from sorted (x ∷ xs) = sort_from (move_down x sorted) xs

-- The elements in reverse, before `acc`.
unfoldable pub reverse_onto : {A : Type 0} → List A → List A → List A
reverse_onto acc [] = acc
reverse_onto acc (x ∷ xs) = reverse_onto (x ∷ acc) xs

module _ (sha3_256 : Bytes → Bytes) where
  abbrev pub addr_gt : OnionAddress → OnionAddress → Bool
  addr_gt a b = bytes_gt (to_string sha3_256 a) (to_string sha3_256 b)

  unfoldable pub sort_addrs : List OnionAddress → List OnionAddress
  unfolding sort_from reverse_onto
  sort_addrs xs = reverse_onto [] (sort_from addr_gt [] xs)

  parsed_backend : Parsed → Option OnionAddress
  parsed_backend (Parsed.ok a) = some a
  parsed_backend (Parsed.fail e) = none

  -- The address of a Secret that is owned by the Gateway and has a hostname.
  unfoldable pub backend_of : String → Secret → Option OnionAddress
  unfolding owned_by string_no_space parsed_backend
  backend_of uid s =
      if not (owned_by uid s)
      then none
      else if eqb (length (data_at "hostname" s.contents)) 0
      then none
      else parsed_backend (parse_address sha3_256 (string_no_space (data_at "hostname" s.contents)))

  add_backend : Option OnionAddress → List OnionAddress → List OnionAddress
  add_backend none rest = rest
  add_backend (some a) rest = a ∷ rest

  unfoldable pub collect_backends : String → List Secret → List OnionAddress
  unfolding backend_of add_backend
  collect_backends uid [] = []
  collect_backends uid (s ∷ ss) = add_backend (backend_of uid s) (collect_backends uid ss)

  unfoldable pub backends_from_secrets : String → List Secret → List OnionAddress
  unfolding collect_backends sort_addrs
  backends_from_secrets uid objs = sort_addrs (collect_backends uid objs)

-- ===== src/Controller/Grants.antt =====
-- internal/controller/referencegrant.go: whether a ReferenceGrant permits a reference.
use tor_gateway.Base.{
  ◌≡◌, refl, ◌↔◌, inl, inr, String, Bool, true, false, Option, none, some, List, any, if◌then◌else◌,
  ◌&&◌, ◌||◌, ◌==◌, eq_iff, Memᴰ, and_parts, or_parts, any-mem, mem-any, or_true, Bool-cases,
}
use tor_gateway.Api.{GrantFrom, GrantTo, ReferenceGrant}

pub record FromRef : Type 0 where
  pub group : String
  pub kind : String
  pub namespace : String

pub record ToRef : Type 0 where
  pub group : String
  pub kind : String
  pub name : String

from_matches : FromRef → GrantFrom → Bool
from_matches from f =
    (f.group == from.group) && (f.kind == from.kind) && (f.namespace == from.namespace)

unfoldable pub grant_matches_from : ReferenceGrant → FromRef → Bool
unfolding from_matches
grant_matches_from g from = any (from_matches from) g.from

-- An entry with no name, or an empty one, admits every name.
name_matches : Option String → String → Bool
name_matches none name = true
name_matches (some n) name = (n == "") || (n == name)

to_matches : ToRef → GrantTo → Bool
unfolding name_matches
to_matches to t =
    if (t.group == to.group) && (t.kind == to.kind) then name_matches t.name to.name else false

unfoldable pub grant_matches_to : ReferenceGrant → ToRef → Bool
unfolding to_matches
grant_matches_to g to = any (to_matches to) g.to

grant_matches : FromRef → ToRef → ReferenceGrant → Bool
unfolding grant_matches_from grant_matches_to
grant_matches from to g = grant_matches_from g from && grant_matches_to g to

unfoldable pub allows : List ReferenceGrant → FromRef → ToRef → Bool
unfolding grant_matches
allows grants from to = any (grant_matches from to) grants

-- The listing of the grants of the Secret's namespace, which is none when it fails, decides a
-- policy's reference to its master key.
unfoldable pub master_key_reference_grant_allows :
    (String → Option (List ReferenceGrant)) → String → String → String → Option Bool
unfolding allows
master_key_reference_grant_allows list_grants policy_ns target_ns secret_name =
    elim (list_grants target_ns) [
      | none ↦ none
      | some grants ↦ some (
          allows grants
            (record {
              group = "policy.torgateway.io";
              kind = "OnionBalancePolicy";
              namespace = policy_ns;
            })
            (record { group = ""; kind = "Secret"; name = secret_name }))
    ]

-- The names that an entry admits.
pub data IsAdmitted (name : String) : Option String → Type 0 where
  unnamed : IsAdmitted name none
  empty : IsAdmitted name (some "")
  named : IsAdmitted name (some name)

-- A grant that has an entry for the referrer and an entry for the object.
pub record IsGranted (grants : List ReferenceGrant) (from : FromRef) (to : ToRef) : Type 0 where
  pub grant : ReferenceGrant
  pub listed : Memᴰ grant grants
  pub referrer :
      Memᴰ (record { group = from.group; kind = from.kind; namespace = from.namespace }) grant.from
  pub entry : Option String
  pub referent : Memᴰ (record { group = to.group; kind = to.kind; name = entry }) grant.to
  pub admitted : IsAdmitted to.name entry

admitted-name_matches :
    (name : String) {n : Option String} → IsAdmitted name n → name_matches n name ≡ true
unfolding name_matches
admitted-name_matches name IsAdmitted.unnamed = refl
admitted-name_matches name IsAdmitted.empty = refl
admitted-name_matches name IsAdmitted.named = rw ((eq_iff name name).1 refl) (or_true (name == ""))

name_matches-IsAdmitted :
    (name : String) (n : Option String) → name_matches n name ≡ true → IsAdmitted name n
unfolding name_matches
name_matches-IsAdmitted name none e = IsAdmitted.unnamed
name_matches-IsAdmitted name (some n) e = elim (or_parts (n == "") (n == name) e) [
  | inl q ↦ rw ((eq_iff n "").0 q) IsAdmitted.empty
  | inr q ↦ rw ((eq_iff n name).0 q) IsAdmitted.named
]

from_matches_inv :
    (from : FromRef) (f : GrantFrom)
    → from_matches from f ≡ true
    → f ≡ record { group = from.group; kind = from.kind; namespace = from.namespace }
unfolding from_matches
from_matches_inv from f h =
    let (r, n) =
      and_parts ((f.group == from.group) && (f.kind == from.kind)) (f.namespace == from.namespace)
        h in
    let (g, k) = and_parts (f.group == from.group) (f.kind == from.kind) r in
    λ i. record {
      group = (eq_iff f.group from.group).0 g i;
      kind = (eq_iff f.kind from.kind).0 k i;
      namespace = (eq_iff f.namespace from.namespace).0 n i;
    }

from_matches_self :
    (from : FromRef)
    → from_matches from
        (record { group = from.group; kind = from.kind; namespace = from.namespace })
      ≡ true
unfolding from_matches
from_matches_self from =
    rw
      (
        (eq_iff from.group from.group).1 refl,
        (eq_iff from.kind from.kind).1 refl,
        (eq_iff from.namespace from.namespace).1 refl,
      )
      refl

to_matches_inv :
    (to : ToRef) (t : GrantTo)
    → to_matches to t ≡ true
    → (t ≡ record { group = to.group; kind = to.kind; name = t.name }) × IsAdmitted to.name t.name
unfolding to_matches
to_matches_inv to t h = elim (Bool-cases ((t.group == to.group) && (t.kind == to.kind))) [
  | inl e ↦
      let (g, k) = and_parts (t.group == to.group) (t.kind == to.kind) e in
      (
        λ i. record {
          group = (eq_iff t.group to.group).0 g i;
          kind = (eq_iff t.kind to.kind).0 k i;
          name = t.name;
        },
        name_matches-IsAdmitted to.name t.name (rw (e, if◌then◌else◌) at h),
      )
  | inr e ↦ absurd (cc (rw (e, if◌then◌else◌) at h))
]

to_matches_entry :
    (to : ToRef) (n : Option String)
    → IsAdmitted to.name n
    → to_matches to (record { group = to.group; kind = to.kind; name = n }) ≡ true
unfolding to_matches
to_matches_entry to n a =
    rw ((eq_iff to.group to.group).1 refl, (eq_iff to.kind to.kind).1 refl, if◌then◌else◌)
      (admitted-name_matches to.name a)

grant_matches-IsGranted :
    (grants : List ReferenceGrant) (from : FromRef) (to : ToRef) (g : ReferenceGrant)
    → Memᴰ g grants
    → grant_matches from to g ≡ true
    → IsGranted grants from to
unfolding grant_matches grant_matches_from grant_matches_to
grant_matches-IsGranted grants from to g i h =
    let (hf, ht) = and_parts (any (from_matches from) g.from) (any (to_matches to) g.to) h in
    let (f, j, e) = any-mem (from_matches from) g.from hf in
    let (t, k, d) = any-mem (to_matches to) g.to ht in
    let (same, admit) = to_matches_inv to t d in
    record {
      grant = g;
      listed = i;
      referrer = rw (← from_matches_inv from f e) j;
      entry = t.name;
      referent = rw (← same) k;
      admitted = admit;
    }

-- A reference is allowed exactly when one listed grant has an entry for the referrer and an entry
-- for the object that names it, or names nothing.
pub allows_iff :
    (grants : List ReferenceGrant) (from : FromRef) (to : ToRef)
    → (allows grants from to ≡ true) ↔ IsGranted grants from to
unfolding allows grant_matches grant_matches_from grant_matches_to
allows_iff grants from to = (
  λ e.
      let (g, i, h) = any-mem (grant_matches from to) grants e in
      grant_matches-IsGranted grants from to g i h,
  λ g. mem-any (grant_matches from to) grants g.listed (
      rw
        (
          mem-any (from_matches from) g.grant.from g.referrer (from_matches_self from),
          mem-any (to_matches to) g.grant.to g.referent (to_matches_entry to g.entry g.admitted),
        )
        refl),
)

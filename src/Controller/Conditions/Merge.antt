-- ===== src/Controller/Conditions/Merge.antt =====
-- What setCondition of internal/controller/gatewayclass_controller.go leaves in a status.
use tor_gateway.Base.{
  ℕ, ◌≡◌, refl, sym, ap, ◌∙◌, inl, inr, String, Bool, true, false, Option, none, some, List, [],
  ◌∷◌, if◌then◌else◌, ◌&&◌, ◌==◌, eq_iff, eqb, eqb_iff, eqb_refl, and_parts, Bool-cases,
}
use tor_gateway.Api.{Condition, GatewayClass, Fetched}
use tor_gateway.Controller.Conditions.{
  controller_name, is_current, at_time, keep_time, set_condition, ClassOutcome, accepted_cond,
  with_conditions, accept_class, reconcile_class,
}

-- The first condition of a kind.
unfoldable pub find_condition : String → List Condition → Option Condition
find_condition kind [] = none
find_condition kind (c ∷ cs) = if c.kind == kind then some c else find_condition kind cs

-- A condition after it is set: the time is the new one where the status is new, and else the old one.
unfoldable pub since : Option Condition → Condition → Condition
since none cond = cond
since (some old) cond = record cond {
  last_transition_time =
      if old.status == cond.status then old.last_transition_time else cond.last_transition_time;
}

keep_time-since : (c cond : Condition) → keep_time c cond ≡ since (some c) cond
unfolding keep_time at_time since
keep_time-since c cond = elim (Bool-cases (c.status == cond.status)) [
  | inl e ↦ rw (e, if◌then◌else◌) refl
  | inr e ↦ rw (e, if◌then◌else◌) refl
]

keep_time-kind : (c cond : Condition) → (keep_time c cond).kind ≡ cond.kind
unfolding keep_time at_time
keep_time-kind c cond = elim (Bool-cases (c.status == cond.status)) [
  | inl e ↦ rw (e, if◌then◌else◌) refl
  | inr e ↦ rw (e, if◌then◌else◌) refl
]

keep_time-current :
    (c cond : Condition) → c.kind ≡ cond.kind → is_current c cond ≡ true → keep_time c cond ≡ c
unfolding is_current keep_time at_time
keep_time-current c cond k h =
    let (h', g) =
      and_parts
        ((c.status == cond.status) && (c.reason == cond.reason) && (c.message == cond.message))
        (eqb c.observed_generation cond.observed_generation) h in
    let (h'', m) =
      and_parts ((c.status == cond.status) && (c.reason == cond.reason)) (c.message == cond.message)
        h' in
    let (s, r) = and_parts (c.status == cond.status) (c.reason == cond.reason) h'' in
    rw (s, if◌then◌else◌)
      (λ i. record {
        kind = sym k i;
        status = sym ((eq_iff c.status cond.status).0 s) i;
        reason = sym ((eq_iff c.reason cond.reason).0 r) i;
        message = sym ((eq_iff c.message cond.message).0 m) i;
        observed_generation = sym ((eqb_iff c.observed_generation cond.observed_generation).0 g) i;
        last_transition_time = c.last_transition_time;
      })

-- The first condition of the kind is replaced, also where the list is reported unchanged.
set_condition-here :
    (c : Condition) (cs : List Condition) (cond : Condition)
    → (c.kind == cond.kind) ≡ true
    → (set_condition (c ∷ cs) cond).0 ≡ keep_time c cond ∷ cs
unfolding set_condition
set_condition-here c cs cond e = elim (Bool-cases (is_current c cond)) [
  | inl d ↦
      rw (e, d, if◌then◌else◌)
        (ap (λ x. x ∷ cs) (sym (keep_time-current c cond ((eq_iff c.kind cond.kind).0 e) d)))
  | inr d ↦ rw (e, d, if◌then◌else◌) refl
]

set_condition-there :
    (c : Condition) (cs : List Condition) (cond : Condition)
    → (c.kind == cond.kind) ≡ false
    → set_condition (c ∷ cs) cond ≡ (c ∷ (set_condition cs cond).0, (set_condition cs cond).1)
unfolding set_condition
set_condition-there c cs cond e = rw (e, if◌then◌else◌) refl

find_condition-head :
    (k : String) (c : Condition) (cs : List Condition)
    → (c.kind == k) ≡ true
    → find_condition k (c ∷ cs) ≡ some c
unfolding find_condition
find_condition-head k c cs e = rw (e, if◌then◌else◌) refl

find_condition-skip :
    (k : String) (c : Condition) (cs : List Condition)
    → (c.kind == k) ≡ false
    → find_condition k (c ∷ cs) ≡ find_condition k cs
unfolding find_condition
find_condition-skip k c cs e = rw (e, if◌then◌else◌) refl

find_condition-replaced :
    (k : String) (c cond : Condition) (cs : List Condition)
    → (c.kind == cond.kind) ≡ true
    → find_condition k (keep_time c cond ∷ cs) ≡ (
        if cond.kind == k
        then some (since (find_condition k (c ∷ cs)) cond)
        else find_condition k (c ∷ cs))
find_condition-replaced k c cond cs e =
    let same : (c.kind == k) ≡ (cond.kind == k) =
      ap (λ x. x == k) ((eq_iff c.kind cond.kind).0 e) in
    let new : ((keep_time c cond).kind == k) ≡ (cond.kind == k) =
      ap (λ x. x == k) (keep_time-kind c cond) in
    elim (Bool-cases (cond.kind == k)) [
      | inl d ↦
          find_condition-head k (keep_time c cond) cs (new ∙ d)
          ∙ rw (d, find_condition-head k c cs (same ∙ d), if◌then◌else◌)
              (ap some (keep_time-since c cond))
      | inr d ↦
          find_condition-skip k (keep_time c cond) cs (new ∙ d)
          ∙ rw (d, find_condition-skip k c cs (same ∙ d), if◌then◌else◌) refl
    ]

other_kind :
    (k : String) (c cond : Condition)
    → (c.kind == cond.kind) ≡ false
    → (c.kind == k) ≡ true
    → (cond.kind == k) ≡ false
other_kind k c cond e d = elim (Bool-cases (cond.kind == k)) [
  | inl h ↦
      let q : c.kind ≡ cond.kind = (eq_iff c.kind k).0 d ∙ sym ((eq_iff cond.kind k).0 h) in
      absurd (cc (e, (eq_iff c.kind cond.kind).1 q))
  | inr h ↦ h
]

find_condition-kept :
    (k : String) (c cond : Condition) (cs rest : List Condition)
    → (c.kind == cond.kind) ≡ false
    → find_condition k rest
      ≡ (if cond.kind == k then some (since (find_condition k cs) cond) else find_condition k cs)
    → find_condition k (c ∷ rest) ≡ (
        if cond.kind == k
        then some (since (find_condition k (c ∷ cs)) cond)
        else find_condition k (c ∷ cs))
unfolding find_condition
find_condition-kept k c cond cs rest e ih = elim (Bool-cases (c.kind == k)) [
  | inl d ↦ rw (d, other_kind k c cond e d, if◌then◌else◌) refl
  | inr d ↦ rw (d, if◌then◌else◌) ih
]

-- After a condition is set, its kind holds it, dated by the time that was held if the status is the
-- one that was held and by the new time if not, and every other kind holds what it did.
pub find_condition-set_condition :
    (k : String) (cs : List Condition) (cond : Condition)
    → find_condition k (set_condition cs cond).0
      ≡ (if cond.kind == k then some (since (find_condition k cs) cond) else find_condition k cs)
unfolding find_condition since set_condition
find_condition-set_condition k [] cond = refl
find_condition-set_condition k (c ∷ cs) cond = elim (Bool-cases (c.kind == cond.kind)) [
  | inl e ↦ rw (set_condition-here c cs cond e) (find_condition-replaced k c cond cs e)
  | inr e ↦ rw (set_condition-there c cs cond e) (
      find_condition-kept k c cond cs (set_condition cs cond).0 e
        (find_condition-set_condition k cs cond))
]

is_current-at_time :
    (cond : Condition) (t u : ℕ) → is_current (at_time u cond) (at_time t cond) ≡ true
unfolding is_current at_time
is_current-at_time cond t u =
    let s = (eq_iff cond.status cond.status).1 refl in
    let r = (eq_iff cond.reason cond.reason).1 refl in
    let m = (eq_iff cond.message cond.message).1 refl in
    rw (s, r, m, eqb_refl cond.observed_generation) refl

is_current_self : (cond : Condition) (t : ℕ) → is_current cond (at_time t cond) ≡ true
unfolding at_time
is_current_self cond t = is_current-at_time cond t cond.last_transition_time

is_current-keep_time :
    (c cond : Condition) (t : ℕ) → is_current (keep_time c cond) (at_time t cond) ≡ true
unfolding keep_time
is_current-keep_time c cond t = elim (Bool-cases (c.status == cond.status)) [
  | inl e ↦ rw (e, if◌then◌else◌) (is_current-at_time cond t c.last_transition_time)
  | inr e ↦ rw (e, if◌then◌else◌) (is_current_self cond t)
]

set_condition-current :
    (c cond : Condition) (cs : List Condition)
    → (c.kind == cond.kind) ≡ true
    → is_current c cond ≡ true
    → set_condition (c ∷ cs) cond ≡ (c ∷ cs, false)
unfolding set_condition
set_condition-current c cond cs e d = rw (e, d, if◌then◌else◌) refl

-- Setting a condition again, at any time, leaves the list and reports no change.
pub set_condition-again :
    (cs : List Condition) (cond : Condition) (t : ℕ)
    → set_condition (set_condition cs cond).0 (at_time t cond) ≡ ((set_condition cs cond).0, false)
unfolding set_condition at_time
set_condition-again [] cond t =
    set_condition-current cond (at_time t cond) [] ((eq_iff cond.kind cond.kind).1 refl)
      (is_current_self cond t)
set_condition-again (c ∷ cs) cond t = elim (Bool-cases (c.kind == cond.kind)) [
  | inl e ↦
      let k : (keep_time c cond).kind ≡ cond.kind = keep_time-kind c cond in
      rw (set_condition-here c cs cond e) (
        set_condition-current (keep_time c cond) (at_time t cond) cs
          (rw k ((eq_iff cond.kind cond.kind).1 refl)) (is_current-keep_time c cond t))
  | inr e ↦ rw (set_condition-there c cs cond e) (
      set_condition-there c (set_condition cs cond).0 (at_time t cond) e
      ∙ ap (λ r. (c ∷ r.0, r.1)) (set_condition-again cs cond t))
]

update_inv :
    (gc gc' : GatewayClass) (r : List Condition × Bool)
    → (if r.1 then ClassOutcome.update (with_conditions gc r.0) else ClassOutcome.done)
      ≡ ClassOutcome.update gc'
    → gc' ≡ with_conditions gc r.0
update_inv gc gc' (cs, true) h = cc h
update_inv gc gc' (cs, false) h = absurd (cc h)

accept_class-again :
    (gc : GatewayClass) (now later : ℕ)
    → (gc.controller_name == controller_name) ≡ true
    → accept_class (with_conditions gc (set_condition gc.conditions (accepted_cond gc now)).0) later
      ≡ ClassOutcome.done
unfolding accept_class with_conditions accepted_cond at_time
accept_class-again gc now later e =
    rw (e, if◌then◌else◌, set_condition-again gc.conditions (accepted_cond gc now) later) refl

-- A class that the reconciler updates names this controller, differs in its conditions only, and is
-- left as it is by the next run, whenever that is.
pub reconcile_class-settles :
    (gc gc' : GatewayClass) (now later : ℕ)
    → reconcile_class (Fetched.found gc) now ≡ ClassOutcome.update gc'
    → (gc.controller_name ≡ controller_name)
      × (gc' ≡ with_conditions gc (set_condition gc.conditions (accepted_cond gc now)).0)
      × (reconcile_class (Fetched.found gc') later ≡ ClassOutcome.done)
unfolding reconcile_class accept_class
reconcile_class-settles gc gc' now later h =
    elim (Bool-cases (gc.controller_name == controller_name)) [
      | inl e ↦
          let r = set_condition gc.conditions (accepted_cond gc now) in
          let same = update_inv gc gc' r (rw (e, if◌then◌else◌) at h) in
          (
            (eq_iff gc.controller_name controller_name).0 e,
            same,
            rw same (accept_class-again gc now later e),
          )
      | inr e ↦ absurd (cc (rw (e, if◌then◌else◌) at h))
    ]

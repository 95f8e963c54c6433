-- ===== src/Onionbalance/Debounce/Sound.antt =====
-- The states that the process of internal/onionbalance/refresher.go reaches.
use tor_gateway.Base.{
  ℕ, suc, ◌+◌, ◌≤◌, ◌≡◌, refl, ◌⊎◌, inl, inr, Bool, true, false, List, [], ◌∷◌, ◌++◌, Memᴰ,
  if◌then◌else◌, Bool-cases, arith,
}
use tor_gateway.Onionbalance.Debounce.{
  Debounce, schedule, Fire, World, begin_fire, end_fire, set_store, first_rebuild, handle_event,
  Work, Step, Reachable,
}

abbrev pub bit : Bool → ℕ
bit true = 1
bit false = 0

-- The timer that the field holds is the only one that will go off, and is set while one is wanted
-- after it.
pub record IsTimed (d : Debounce) : Type 0 where
  pub one_timer : d.armed ≡ bit d.timer
  pub wanted_after : bit d.pending ≤ bit d.timer

bit-le : (b : Bool) → bit b ≤ 1
bit-le true = omega arith
bit-le false = omega arith

schedule-IsTimed : (d : Debounce) → IsTimed d → IsTimed (schedule d)
unfolding schedule
schedule-IsTimed d h = elim (Bool-cases d.timer) [
  | inl e ↦
      let one : d.armed ≡ 1 = rw e at h.one_timer in
      rw (e, if◌then◌else◌) (record { one_timer = one; wanted_after = omega arith })
  | inr e ↦
      let none_armed : d.armed ≡ 0 = rw e at h.one_timer in
      rw (e, if◌then◌else◌) (record { one_timer = omega arith; wanted_after = bit-le d.pending })
]

-- After a schedule a timer will go off, and what was wanted still is.
pub schedule_arms : (d : Debounce) → IsTimed d → 1 ≤ (schedule d).armed
unfolding schedule
schedule_arms d h = elim (Bool-cases d.timer) [
  | inl e ↦ let one : d.armed ≡ 1 = rw e at h.one_timer in rw (e, if◌then◌else◌) (omega arith)
  | inr e ↦ rw (e, if◌then◌else◌) (omega arith)
]

pub schedule_grows :
    (d : Debounce) → d.armed + bit d.pending ≤ (schedule d).armed + bit (schedule d).pending
unfolding schedule
schedule_grows d = ground arith

-- A rebuild is still to come.
pub data IsDue (w : World) : Type 0 where
  timer : 1 ≤ w.debounce.armed → IsDue w
  event : 1 ≤ w.queued → IsDue w
  fire : (f : Fire) → Memᴰ f w.fires → f.has_store ≡ true → IsDue w
  start : w.started ≡ false → IsDue w

pub record IsSound (w : World) : Type 0 where
  pub ready_first : w.started ≡ true → w.ready ≡ true
  pub timed : IsTimed w.debounce
  pub fresh : (w.rebuilt ≡ w.version) ⊎ IsDue w

handle_event-IsSound : (w : World) (n : ℕ) → IsSound w → IsSound (handle_event w n)
unfolding handle_event
handle_event-IsSound w n h = record {
  ready_first = h.ready_first;
  timed = schedule-IsTimed w.debounce h.timed;
  fresh = inr (IsDue.timer (schedule_arms w.debounce h.timed));
}

pub only_timer : (w : World) (n : ℕ) → w.debounce.armed ≡ suc n → IsTimed w.debounce → n ≡ 0
only_timer w n e h = let one = h.one_timer in let le = bit-le w.debounce.timer in omega arith

begin_fire-IsSound :
    (w : World) (n : ℕ) → w.debounce.armed ≡ suc n → IsSound w → IsSound (begin_fire w n)
unfolding begin_fire
begin_fire-IsSound w n e h = record {
  ready_first = h.ready_first;
  timed = record { one_timer = only_timer w n e h.timed; wanted_after = omega arith };
  fresh = elim (Bool-cases w.started) [
    | inl s ↦ inr (IsDue.fire _ (Memᴰ.head refl) (h.ready_first s))
    | inr s ↦ inr (IsDue.start s)
  ];
}

-- A run of fire that ends is the one that is due, or leaves it.
pub mem-others :
    (before : List Fire) (f : Fire) (after : List Fire) {g : Fire}
    → Memᴰ g (before ++ f ∷ after)
    → (g ≡ f) ⊎ Memᴰ g (before ++ after)
mem-others [] f after (Memᴰ.head e) = inl e
mem-others [] f after (Memᴰ.tail m) = inr m
mem-others (x ∷ before) f after (Memᴰ.head e) = inr (Memᴰ.head e)
mem-others (x ∷ before) f after (Memᴰ.tail m) = elim (mem-others before f after m) [
  | inl e ↦ inl e
  | inr i ↦ inr (Memᴰ.tail i)
]

end_fire-IsTimed :
    (w : World) (f : Fire) (others : List Fire)
    → IsTimed w.debounce
    → IsTimed (end_fire w f others).debounce
unfolding end_fire
end_fire-IsTimed w f others h = elim (Bool-cases f.pending) [
  | inl e ↦ rw (e, if◌then◌else◌) (schedule-IsTimed w.debounce h)
  | inr e ↦ rw (e, if◌then◌else◌) h
]

-- The end of a run of fire keeps the timers that will go off, and adds one that it wants.
pub end_fire_grows :
    (w : World) (f : Fire) (others : List Fire)
    → w.debounce.armed + bit w.debounce.pending
      ≤ (end_fire w f others).debounce.armed + bit (end_fire w f others).debounce.pending
unfolding end_fire
end_fire_grows w f others = elim (Bool-cases f.pending) [
  | inl e ↦ rw (e, if◌then◌else◌) (schedule_grows w.debounce)
  | inr e ↦ rw (e, if◌then◌else◌) (omega arith)
]

armed_of_sum : (d : Debounce) → IsTimed d → 1 ≤ d.armed + bit d.pending → 1 ≤ d.armed
armed_of_sum d h k = let a = h.one_timer in let b = h.wanted_after in omega arith

end_fire-IsDue :
    (w : World) (before : List Fire) (f : Fire) (after : List Fire)
    → w.fires ≡ before ++ f ∷ after
    → f.has_store ≡ false
    → IsTimed w.debounce
    → IsDue w
    → IsDue (end_fire w f (before ++ after))
unfolding end_fire
end_fire-IsDue w before f after e s h (IsDue.timer a) =
    let v = end_fire w f (before ++ after) in
    let grows = end_fire_grows w f (before ++ after) in
    IsDue.timer (armed_of_sum v.debounce (end_fire-IsTimed w f (before ++ after) h) (omega arith))
end_fire-IsDue w before f after e s h (IsDue.event q) = IsDue.event q
end_fire-IsDue w before f after e s h (IsDue.start b) = IsDue.start b
end_fire-IsDue w before f after e s h (IsDue.fire g i t) =
    elim (mem-others before f after (rw e at i)) [
      | inl same ↦ absurd (cc (rw same at t, s))
      | inr j ↦ IsDue.fire g j t
    ]

end_fire-IsSound :
    (w : World) (before : List Fire) (f : Fire) (after : List Fire)
    → w.fires ≡ before ++ f ∷ after
    → IsSound w
    → IsSound (end_fire w f (before ++ after))
unfolding end_fire
end_fire-IsSound w before f after e h = record {
  ready_first = h.ready_first;
  timed = end_fire-IsTimed w f (before ++ after) h.timed;
  fresh = elim (Bool-cases f.has_store) [
    | inl s ↦ inl (rw (s, if◌then◌else◌) refl)
    | inr s ↦ elim h.fresh [
      | inl same ↦ inl (rw (s, if◌then◌else◌) same)
      | inr d ↦ inr (end_fire-IsDue w before f after e s h.timed d)
    ]
  ];
}

pub Work-IsSound : {v w : World} → Work v w → IsSound v → IsSound w
Work-IsSound (Work.event v n e) h = handle_event-IsSound v n h
Work-IsSound (Work.fire_begins v n e) h = begin_fire-IsSound v n e h
Work-IsSound (Work.fire_ends v before f after e) h = end_fire-IsSound v before f after e h

set_store-IsDue : (w : World) → IsDue w → IsDue (set_store w)
unfolding set_store
set_store-IsDue w (IsDue.timer a) = IsDue.timer a
set_store-IsDue w (IsDue.event q) = IsDue.event q
set_store-IsDue w (IsDue.fire f i t) = IsDue.fire f i t
set_store-IsDue w (IsDue.start b) = IsDue.start b

Step-IsSound : {v w : World} → Step v w → IsSound v → IsSound w
unfolding first_rebuild set_store
Step-IsSound (Step.change v) h = record {
  ready_first = h.ready_first;
  timed = h.timed;
  fresh = inr (IsDue.event (omega arith));
}
Step-IsSound (Step.synced v) h = record {
  ready_first = λ s. refl;
  timed = h.timed;
  fresh = elim h.fresh [ inl same ↦ inl same | inr d ↦ inr (set_store-IsDue v d) ];
}
Step-IsSound (Step.starts v r) h = record {
  ready_first = λ s. r;
  timed = h.timed;
  fresh = inl refl;
}
Step-IsSound (Step.work s) h = Work-IsSound s h

pub Reachable-IsSound : {w : World} → Reachable w → IsSound w
Reachable-IsSound (Reachable.initial version) = record {
  ready_first = λ s. absurd (cc s);
  timed = record { one_timer = refl; wanted_after = omega arith };
  fresh = inr (IsDue.start refl);
}
Reachable-IsSound (Reachable.step r s) = Step-IsSound s (Reachable-IsSound r)

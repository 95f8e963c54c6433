-- ===== src/Onionbalance/Debounce/Settles.antt =====
-- What the process of internal/onionbalance/refresher.go comes to while no Secret changes.
use tor_gateway.Base.{
  ℕ, zero, suc, ◌+◌, ◌*◌, ◌≤◌, ◌<◌, ◌≡◌, refl, ap, ◌∙◌, ◌⊎◌, inl, inr, Bool, true, false, List, [],
  ◌∷◌, ◌++◌, Memᴰ, if◌then◌else◌, Bool-cases, arith,
}
use tor_gateway.Onionbalance.Debounce.{
  Debounce, schedule, Fire, World, begin_fire, end_fire, handle_event, Work, Reachable,
}
use tor_gateway.Onionbalance.Debounce.Sound.{
  bit, IsDue, IsSound, schedule_arms, schedule_grows, only_timer, mem-others, end_fire_grows,
  Work-IsSound, Reachable-IsSound,
}

-- Whatever order the process takes its steps in, it comes to a state of the kind, and does not stop
-- before.
pub data Inevitable (P : World → Type 0) : World → Type 0 where
  now : (w : World) → P w → Inevitable P w
  later : (w v : World) → Work w v → ((u : World) → Work w u → Inevitable P u) → Inevitable P w

-- No event waits, no timer is set or wanted, and no run of fire is unfinished.
pub record IsIdle (w : World) : Type 0 where
  pub no_event : w.queued ≡ 0
  pub no_timer : w.debounce.timer ≡ false
  pub no_armed : w.debounce.armed ≡ 0
  pub none_wanted : w.debounce.pending ≡ false
  pub no_fire : w.fires ≡ []

weight : Fire → ℕ
weight f = 1 + 2 * bit f.pending

weights : List Fire → ℕ
weights [] = 0
weights (f ∷ fs) = weight f + weights fs

-- How much is left to do.
measure : World → ℕ
unfolding weights
measure w = 3 * w.queued + (2 * (w.debounce.armed + bit w.debounce.pending) + weights w.fires)

weights-others :
    (before : List Fire) (f : Fire) (after : List Fire)
    → weights (before ++ f ∷ after) ≡ weight f + weights (before ++ after)
unfolding weights
weights-others [] f after = refl
weights-others (x ∷ before) f after = let rest = weights-others before f after in omega arith

-- A schedule adds one to what is wanted at most.
schedule_adds :
    (d : Debounce) → (schedule d).armed + bit (schedule d).pending ≤ suc (d.armed + bit d.pending)
unfolding schedule
schedule_adds d = ground arith

Work-measure : {v w : World} → Work v w → measure w < measure v
unfolding measure weights weight handle_event begin_fire end_fire
Work-measure (Work.event v n e) = let adds = schedule_adds v.debounce in omega arith
Work-measure (Work.fire_begins v n e) = omega arith
Work-measure (Work.fire_ends v before f after e) =
    let split : weights v.fires ≡ weight f + weights (before ++ after) =
      ap weights e ∙ weights-others before f after in
    let adds = schedule_adds v.debounce in
    elim (Bool-cases f.pending) [
      | inl p ↦
          let split' : weights v.fires ≡ 3 + weights (before ++ after) = rw p at split in
          rw (p, if◌then◌else◌) (omega arith)
      | inr p ↦ rw (p, if◌then◌else◌) (omega arith)
    ]

Work-version : {v w : World} → Work v w → w.version ≡ v.version
unfolding handle_event begin_fire end_fire
Work-version (Work.event v n e) = refl
Work-version (Work.fire_begins v n e) = refl
Work-version (Work.fire_ends v before f after e) = refl

Work-started : {v w : World} → Work v w → w.started ≡ v.started
unfolding handle_event begin_fire end_fire
Work-started (Work.event v n e) = refl
Work-started (Work.fire_begins v n e) = refl
Work-started (Work.fire_ends v before f after e) = refl

-- So many rebuilds are to come, by the timers and what is wanted after them, or by a run of fire.
data Owes (w : World) (k : ℕ) : Type 0 where
  timers : k ≤ w.debounce.armed + bit w.debounce.pending → Owes w k
  fire : (f : Fire) → Memᴰ f w.fires → f.has_store ≡ true → k ≤ 1 + bit f.pending → Owes w k

-- What is still owed, when what was owed was a number and so many rebuilds were done before.
record StillOwes (w : World) (total : ℕ) : Type 0 where
  owed : ℕ
  owes : Owes w owed
  enough : total ≤ w.rebuilds + owed

event-Owes :
    (v : World) (n total k : ℕ)
    → total ≤ v.rebuilds + k
    → Owes v k
    → StillOwes (handle_event v n) total
unfolding handle_event
event-Owes v n total k h (Owes.timers a) =
    let grows = schedule_grows v.debounce in
    record { owed = k; owes = Owes.timers (omega arith); enough = h }
event-Owes v n total k h (Owes.fire f i s a) = record {
  owed = k;
  owes = Owes.fire f i s a;
  enough = h;
}

begin_fire-Owes :
    (v : World) (n total k : ℕ)
    → v.debounce.armed ≡ suc n
    → IsSound v
    → v.ready ≡ true
    → total ≤ v.rebuilds + k
    → Owes v k
    → StillOwes (begin_fire v n) total
unfolding begin_fire
begin_fire-Owes v n total k e sound ready h (Owes.timers a) =
    let only = only_timer v n e sound.timed in
    record { owed = k; owes = Owes.fire _ (Memᴰ.head refl) ready (omega arith); enough = h }
begin_fire-Owes v n total k e sound ready h (Owes.fire f i s a) = record {
  owed = k;
  owes = Owes.fire f (Memᴰ.tail i) s a;
  enough = h;
}

rebuilds_grow :
    (v : World) (f : Fire) (others : List Fire) → v.rebuilds ≤ (end_fire v f others).rebuilds
unfolding end_fire
rebuilds_grow v f others = elim (Bool-cases f.has_store) [
  | inl s ↦ rw (s, if◌then◌else◌) (omega arith)
  | inr s ↦ rw (s, if◌then◌else◌) (omega arith)
]

-- A run of fire pays one rebuild, and leaves a timer for another where one is wanted.
paid :
    (v : World) (f : Fire) (others : List Fire) (total k : ℕ)
    → IsSound v
    → f.has_store ≡ true
    → k ≤ 1 + bit f.pending
    → total ≤ v.rebuilds + k
    → StillOwes (end_fire v f others) total
unfolding end_fire
paid v f others total k sound s a h = elim (Bool-cases f.pending) [
  | inl p ↦
      let arms = schedule_arms v.debounce sound.timed in
      let a' : k ≤ 2 = rw p at a in
      rw (s, p, if◌then◌else◌)
        (record { owed = 1; owes = Owes.timers (omega arith); enough = omega arith })
  | inr p ↦
      let a' : k ≤ 1 = rw p at a in
      rw (s, p, if◌then◌else◌)
        (record { owed = 0; owes = Owes.timers (omega arith); enough = omega arith })
]

end_fire-Owes :
    (v : World) (before : List Fire) (f : Fire) (after : List Fire) (total k : ℕ)
    → v.fires ≡ before ++ f ∷ after
    → IsSound v
    → total ≤ v.rebuilds + k
    → Owes v k
    → StillOwes (end_fire v f (before ++ after)) total
unfolding end_fire
end_fire-Owes v before f after total k e sound h (Owes.timers a) =
    let grows = end_fire_grows v f (before ++ after) in
    let more = rebuilds_grow v f (before ++ after) in
    record { owed = k; owes = Owes.timers (omega arith); enough = omega arith }
end_fire-Owes v before f after total k e sound h (Owes.fire g i s a) =
    let more = rebuilds_grow v f (before ++ after) in
    elim (mem-others before f after (rw e at i)) [
      | inl same ↦ paid v f (before ++ after) total k sound (rw same at s) (rw same at a) h
      | inr j ↦ record { owed = k; owes = Owes.fire g j s a; enough = omega arith }
    ]

Work-StillOwes :
    {v w : World} (total : ℕ)
    → Work v w
    → IsSound v
    → v.started ≡ true
    → StillOwes v total
    → StillOwes w total
Work-StillOwes total (Work.event v n e) sound s o = event-Owes v n total o.owed o.enough o.owes
Work-StillOwes total (Work.fire_begins v n e) sound s o =
    begin_fire-Owes v n total o.owed e sound (sound.ready_first s) o.enough o.owes
Work-StillOwes total (Work.fire_ends v before f after e) sound s o =
    end_fire-Owes v before f after total o.owed e sound o.enough o.owes

-- Idle, with the newest version rebuilt and so many rebuilds done.
pub record IsSettled (version total : ℕ) (w : World) : Type 0 where
  pub idle : IsIdle w
  pub newest : w.rebuilt ≡ version
  pub enough : total ≤ w.rebuilds

-- There is a step to take, unless nothing is left.
data Progress (w : World) : Type 0 where
  stuck : w.queued ≡ 0 → w.debounce.armed ≡ 0 → w.fires ≡ [] → Progress w
  goes : (v : World) → Work w v → Progress w

progress : (w : World) → Progress w
progress w = by_queue w w.queued refl
  where
    by_fires :
        (w : World) (fs : List Fire)
        → w.fires ≡ fs
        → w.queued ≡ 0
        → w.debounce.armed ≡ 0
        → Progress w
    by_fires w [] e q a = Progress.stuck q a e
    by_fires w (f ∷ fs) e q a = Progress.goes _ (Work.fire_ends w [] f fs e)

    by_timer : (w : World) (n : ℕ) → w.debounce.armed ≡ n → w.queued ≡ 0 → Progress w
    by_timer w zero e q = by_fires w w.fires refl q e
    by_timer w (suc n) e q = Progress.goes _ (Work.fire_begins w n e)

    by_queue : (w : World) (n : ℕ) → w.queued ≡ n → Progress w
    by_queue w zero e = by_timer w w.debounce.armed refl e
    by_queue w (suc n) e = Progress.goes _ (Work.event w n e)

bit_zero : (b : Bool) → bit b ≤ 0 → b ≡ false
bit_zero true h = absurd (omega arith)
bit_zero false h = refl

-- Where nothing is left to do, nothing is due or owed.
stuck-IsSettled :
    (version total : ℕ) (w : World)
    → IsSound w
    → w.started ≡ true
    → w.version ≡ version
    → StillOwes w total
    → w.queued ≡ 0
    → w.debounce.armed ≡ 0
    → w.fires ≡ []
    → IsSettled version total w
stuck-IsSettled version total w sound s same o q a f =
    let one = sound.timed.one_timer in
    let after = sound.timed.wanted_after in
    record {
      idle = record {
        no_event = q;
        no_timer = bit_zero w.debounce.timer (omega arith);
        no_armed = a;
        none_wanted = bit_zero w.debounce.pending (omega arith);
        no_fire = f;
      };
      newest = none_due sound.fresh ∙ same;
      enough = none_owed o.owes;
    }
  where
    none_due : (w.rebuilt ≡ w.version) ⊎ IsDue w → w.rebuilt ≡ w.version
    none_due (inl e) = e
    none_due (inr (IsDue.timer h)) = absurd (omega arith)
    none_due (inr (IsDue.event h)) = absurd (omega arith)
    none_due (inr (IsDue.fire g i t)) = absurd (elim (rw f at i) [ ])
    none_due (inr (IsDue.start h)) = absurd (cc (s, h))

    none_owed : Owes w o.owed → total ≤ w.rebuilds
    none_owed (Owes.timers k) =
        let one = sound.timed.one_timer in
        let after = sound.timed.wanted_after in let enough = o.enough in omega arith
    none_owed (Owes.fire g i t k) = absurd (elim (rw f at i) [ ])

-- By induction on a bound of what is left to do.
settles_within :
    (n version total : ℕ) (w : World)
    → measure w < n
    → IsSound w
    → w.started ≡ true
    → w.version ≡ version
    → StillOwes w total
    → Inevitable (IsSettled version total) w
settles_within zero version total w m sound s same o = absurd (omega arith)
settles_within (suc n) version total w m sound s same o = elim (progress w) [
  | Progress.stuck q a f ↦ Inevitable.now w (stuck-IsSettled version total w sound s same o q a f)
  | Progress.goes v work ↦ Inevitable.later w v work (λ u step.
      let less = Work-measure step in
      settles_within n version total u (omega arith) (Work-IsSound step sound)
        (Work-started step ∙ s) (Work-version step ∙ same) (Work-StillOwes total step sound s o))
]

-- From every state that steps lead to after the first rebuild of Run, while no Secret changes, whatever
-- order the process takes its steps in, it comes to a state in which no event waits, no timer is set or
-- wanted and no run of fire is unfinished, the last rebuild read the newest version, and there was a
-- rebuild for the timer that was set and another one if one was wanted after it.
pub Reachable-settles :
    (w : World)
    → Reachable w
    → w.started ≡ true
    → Inevitable (IsSettled w.version (w.rebuilds + (w.debounce.armed + bit w.debounce.pending))) w
Reachable-settles w r s =
    settles_within (suc (measure w)) w.version
      (w.rebuilds + (w.debounce.armed + bit w.debounce.pending)) w (omega arith)
      (Reachable-IsSound r) s refl
      (record {
        owed = w.debounce.armed + bit w.debounce.pending;
        owes = Owes.timers (omega arith);
        enough = omega arith;
      })

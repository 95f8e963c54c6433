-- ===== src/Onionbalance/Debounce.antt =====
-- internal/onionbalance/refresher.go: schedule and fire, which gather the events of the informer, and
-- Run. A rebuild reads and writes in one step.
pub mod Sound
pub mod Settles
use tor_gateway.Base.{ℕ, suc, ◌≡◌, Bool, true, false, List, [], ◌∷◌, ◌++◌, if◌then◌else◌}

-- Whether another run of the timer is wanted, whether the field of the timer is set, and how many
-- timers time.AfterFunc has started that have not gone off.
pub record Debounce : Type 0 where
  pub pending : Bool
  pub timer : Bool
  pub armed : ℕ

unfoldable pub schedule : Debounce → Debounce
schedule d =
    if d.timer
    then record { pending = true; timer = d.timer; armed = d.armed }
    else record { pending = d.pending; timer = true; armed = suc d.armed }

-- A run of fire after its lock: what it read of pending, and whether there was a store.
pub record Fire : Type 0 where
  pub pending : Bool
  pub has_store : Bool

-- The process: the version of the informer's store, the events that are not yet handled, whether Run
-- has set the store, the runs of fire that are not finished, whether Run has done its first rebuild,
-- the version that the last rebuild read, and how many rebuilds there were.
pub record World : Type 0 where
  pub debounce : Debounce
  pub version : ℕ
  pub queued : ℕ
  pub ready : Bool
  pub fires : List Fire
  pub started : Bool
  pub rebuilt : ℕ
  pub rebuilds : ℕ

-- The part of fire under its lock, by one of the timers; `armed` is how many are left.
unfoldable pub begin_fire : World → ℕ → World
begin_fire w armed = record w {
  debounce = record { pending = false; timer = false; armed = armed };
  fires = record { pending = w.debounce.pending; has_store = w.ready } ∷ w.fires;
}

-- The rest of fire, which leaves the other runs.
unfoldable pub end_fire : World → Fire → List Fire → World
unfolding schedule
end_fire w f others = record w {
  debounce = if f.pending then schedule w.debounce else w.debounce;
  fires = others;
  rebuilt = if f.has_store then w.version else w.rebuilt;
  rebuilds = if f.has_store then suc w.rebuilds else w.rebuilds;
}

unfoldable pub set_store : World → World
set_store w = record w { ready = true }

unfoldable pub first_rebuild : World → World
first_rebuild w = record w { started = true; rebuilt = w.version; rebuilds = suc w.rebuilds }

unfoldable pub handle_event : World → ℕ → World
unfolding schedule
handle_event w n = record w { debounce = schedule w.debounce; queued = n }

-- What the process does by itself.
pub data Work : World → World → Type 0 where
  event : (w : World) (n : ℕ) → w.queued ≡ suc n → Work w (handle_event w n)
  fire_begins : (w : World) (n : ℕ) → w.debounce.armed ≡ suc n → Work w (begin_fire w n)
  fire_ends :
      (w : World) (before : List Fire) (f : Fire) (after : List Fire)
      → w.fires ≡ before ++ f ∷ after
      → Work w (end_fire w f (before ++ after))

-- A Secret changes, and its event waits; the parts of Run; what the process does by itself.
pub data Step : World → World → Type 0 where
  change : (w : World) → Step w (record w { version = suc w.version; queued = suc w.queued })
  synced : (w : World) → Step w (set_store w)
  starts : (w : World) → w.ready ≡ true → Step w (first_rebuild w)
  work : {v w : World} → Work v w → Step v w

abbrev pub initial_world : ℕ → World
initial_world version = record {
  debounce = record { pending = false; timer = false; armed = 0 };
  version = version;
  queued = 0;
  ready = false;
  fires = [];
  started = false;
  rebuilt = 0;
  rebuilds = 0;
}

-- The states that steps lead to.
pub data Reachable : World → Type 0 where
  initial : (version : ℕ) → Reachable (initial_world version)
  step : {v w : World} → Reachable v → Step v w → Reachable w
